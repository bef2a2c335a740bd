-- ===== src/Ipc/Broadcast.antt =====
-- Who receives an event (`ipc_server_broadcast` of src/ipc/ipc_server.c).
use sweet_dawn.Base.{
  ◌+◌, ◌≡◌, inl, inr, not, Option, none, some, List, [], ◌∷◌, ◌++◌, String, refl, ◌∙◌, ap, ap₂,
  arith, length, leb, if◌then◌else◌, Option-cases,
}
use sweet_dawn.Protocol.{Bytes}
use sweet_dawn.Json.{JsonLib}
use sweet_dawn.Ipc.{IpcClient, Handled, free_client, max_pending_output, client_append}
use sweet_dawn.Ipc.Sockets.{Sockets}
use sweet_dawn.Ipc.Run.{client_reset, kept_or_reset, broadcast_one, broadcast_text, broadcast_all}

-- A client that hears one line: its output with the line, if it asked for events and there is room; without
-- room it is disconnected.
abbrev pub hear : Bytes → IpcClient → IpcClient
hear text c = elim c.fd [
  | none ↦ c
  | some fd ↦
      if not c.subscribed
      then c
      else if leb (length c.output + length text + 1) max_pending_output
      then record c { output = c.output ++ (text ++ (0x0A ∷ [])) }
      else free_client
]

abbrev pub each_hears : Bytes → List IpcClient → List IpcClient
each_hears text [] = []
each_hears text (c ∷ rest) = hear text c ∷ each_hears text rest

module _ (json : JsonLib) where
  -- The lines of the events, less those that the library does not serialize.
  abbrev pub lines_of : List json.Value → List Bytes
  lines_of [] = []
  lines_of (event ∷ more) = elim (json.to_json_string event) [
    | none ↦ lines_of more
    | some text ↦ text ∷ lines_of more
  ]

-- The lines are heard in their order.
abbrev pub all_hear : List Bytes → List IpcClient → List IpcClient
all_hear [] cs = cs
all_hear (text ∷ more) cs = all_hear more (each_hears text cs)

module _ (sockets : Sockets) where
  open sockets use {World}

  one_hears :
      (text : Bytes) (c : IpcClient) (w : World) → (broadcast_one sockets text c w).0 ≡ hear text c
  unfolding broadcast_one kept_or_reset client_append client_reset
  one_hears text c w = ground arith

  list_hears :
      (text : Bytes) (cs : List IpcClient) (w : World)
      → (broadcast_text sockets text cs w).0 ≡ each_hears text cs
  unfolding broadcast_text
  list_hears text [] w = refl
  list_hears text (c ∷ rest) w =
      ap₂ (λ x xs. x ∷ xs) (one_hears text c w)
        (list_hears text rest (broadcast_one sockets text c w).1)

  module _ (json : JsonLib) {Ctx : Type 0}
      (handler : Option (Ctx → String → json.Value → Handled json.Value × Ctx))
      (tick : Ctx → List json.Value × Ctx) where
    -- After a broadcast of some events every client has, behind its output, a line for each event
    -- that is serialized, in their order, if it has a descriptor and has subscribed; one whose
    -- output would exceed the limit is disconnected, and all others are as before.
    pub broadcast_heard :
        (events : List json.Value) (cs : List IpcClient) (w : World)
        → (broadcast_all sockets json handler tick events cs w).0
          ≡ all_hear (lines_of json events) cs
    unfolding broadcast_all
    broadcast_heard [] cs w = refl
    broadcast_heard (event ∷ more) cs w = elim (Option-cases (json.to_json_string event)) [
      | inl e ↦ rw (e, broadcast_all, lines_of) (broadcast_heard more cs w)
      | inr (text, e) ↦
          rw (e, broadcast_all, lines_of)
            (broadcast_heard more (broadcast_text sockets text cs w).0
                (broadcast_text sockets text cs w).1
              ∙ ap (all_hear (lines_of json more)) (list_hears text cs w))
    ]
