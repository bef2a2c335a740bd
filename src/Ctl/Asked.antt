-- ===== src/Ctl/Asked.antt =====
-- That the service understands what the client (src/app/ctl.c) asks.
use sweet_dawn.Base.{
  ℕ, ◌≡◌, ◌≢◌, refl, ap, arith, Bool, true, false, Option, none, some, List, [], ◌∷◌, String, same,
  length,
}
use sweet_dawn.Protocol.{Bytes}
use sweet_dawn.Json.{JsonLib}
use sweet_dawn.Json.Built.{Builds}
use sweet_dawn.Ipc.{
  IpcClient, Handled, handled_step, command_step, args_step, request_step, ipc_protocol_parse,
  process_message, text_member, array_member, id_ok,
}
use sweet_dawn.Ctl.{requete}

abbrev pub arguments : (json : JsonLib) → Option String → List json.Value
arguments json none = []
arguments json (some v) = json.new_string v ∷ []

module _ (json : JsonLib) (parse : Bytes → Option json.Value)
    (get_boolean is_empty : json.Value → Bool) (pretty : json.Value → Bytes) (builds : Builds json)
    {Ctx : Type 0} (handler : Ctx → String → json.Value → Handled json.Value × Ctx) where
  open json use {Value}

  text_lookup :
      (r : Value) (key t : String)
      → json.get_ex r key ≡ some (json.new_string t)
      → text_member json r key ≡ some (json.new_string t)
  text_lookup r key t e = rw (e, text_member) (rw (builds.strings t) refl)

  array_lookup :
      (r : Value) (key : String) (vs : List Value)
      → json.get_ex r key ≡ some (json.new_array vs)
      → array_member json r key ≡ some (json.new_array vs)
  array_lookup r key vs e = rw (e, array_member) (rw (builds.arrays vs) refl)

  id_lookup : (r : Value) (n : ℕ) → json.get_ex r "id" ≡ some (json.new_int n) → id_ok json r ≡ true
  id_lookup r n e = rw (e, id_ok) (rw (builds.ints n) refl)

  parsed :
      (ms : List (String × Value)) (text : Bytes)
      → text ≢ []
      → json.tokener_parse text ≡ (some (json.new_object ms), true, length text)
      → ipc_protocol_parse json text ≡ some (json.new_object ms)
  unfolding ipc_protocol_parse
  parsed ms [] n p = absurd (n refl)
  parsed ms (b ∷ text) n p = rw p (
      rw (builds.objects ms) (
        ground (
          arith,
          ap (λ (t : Option Value × Bool × ℕ). t.1) p,
          ap (λ (t : Option Value × Bool × ℕ). t.2) p,
        )))

  -- A request of a client that is well formed reaches the handler.
  reaches :
      (c : IpcClient) (ctx : Ctx) (r : Value) (command : String) (args : List Value)
      → json.get_ex r "type" ≡ some (json.new_string "request")
      → json.get_ex r "id" ≡ some (json.new_int 1)
      → json.get_ex r "command" ≡ some (json.new_string command)
      → json.get_ex r "args" ≡ some (json.new_array args)
      → same command "" ≡ false
      → same command "subscribe" ≡ false
      → request_step json (some handler) c r ctx
        ≡ handled_step json (some handler) c r (handler ctx command (json.new_array args))
  unfolding request_step args_step command_step
  reaches c ctx r command args t i k a e s =
      rw (text_lookup r "type" "request" t, request_step)
        (rw (builds.texts "request") (
          rw (id_lookup r 1 i) (
            rw (text_lookup r "command" command k, args_step)
              (rw (builds.texts command) (
                rw e (
                  rw (array_lookup r "args" args a)
                    (rw (builds.texts command) (rw (s, command_step) refl))))))))

  -- A request that the client builds, sent as a text that json-c reads back as that request,
  -- reaches the handler of the server with the command and the value that were given, for a
  -- command that is neither empty nor "subscribe", provided that json-c gives back what it was
  -- given to build, of a key the value that was added last.
  pub requete-handled :
      (c : IpcClient) (ctx : Ctx) (command : String) (value : Option String) (text : Bytes)
      → text ≢ []
      → json.tokener_parse text
        ≡ (some (requete json parse get_boolean is_empty pretty command value), true, length text)
      → same command "" ≡ false
      → same command "subscribe" ≡ false
      → process_message json (some handler) c text ctx
        ≡ handled_step json
            (some handler)
            c
            (requete json parse get_boolean is_empty pretty command value)
            (handler ctx command (json.new_array (arguments json value)))
  unfolding process_message requete
  requete-handled c ctx command value text n p e s =
      let r = requete json parse get_boolean is_empty pretty command value in
      rw (parsed _ text n p, process_message)
        (reaches c ctx r command (arguments json value) (builds.members _ "type")
          (builds.members _ "id") (builds.members _ "command") (builds.members _ "args") e s)
