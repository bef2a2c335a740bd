-- ===== src/Ipc.antt =====
-- The local server (src/ipc/ipc_server.c, sections 1 to 3, and src/ipc/ipc_protocol.c): what a client is,
-- what is queued for it, and how a line that it sent is answered. A descriptor of -1 is `none`; the
-- JSON library and the handler of commands are parameters.
pub mod Lines
pub mod Answers
pub mod Sockets
pub mod Listen
pub mod Run
pub mod Output
pub mod Broadcast
pub mod Sound
pub mod Turns
pub mod Context
pub mod Progress
use sweet_dawn.Base.{
  ℕ, zero, suc, ◌+◌, ◌-◌, ◌*◌, Bool, true, false, not, ◌&&◌, ◌||◌, Option, none, some, List, [],
  ◌∷◌, ◌++◌, String, same, ltb, leb, ◌==◌, if◌then◌else◌, length, get_or, take, drop,
}
use sweet_dawn.Protocol.{Bytes}
use sweet_dawn.Json.{JsonLib, is_object, is_array, is_string, is_int, is_null}

-- `IPC_SERVER_MAX_CLIENTS`, `IPC_SERVER_MAX_MESSAGE`, `IPC_READ_SIZE` and `IPC_MAX_PENDING_OUTPUT`
abbrev pub max_clients : ℕ
max_clients = 16

abbrev pub max_message : ℕ
max_message = 4096

abbrev pub read_size : ℕ
read_size = 1024

abbrev pub max_pending_output : ℕ
max_pending_output = 262144

-- `struct IpcClient`; `output_length` is the length of `output`.
pub record IpcClient : Type 0 where
  pub fd : Option ℕ
  pub subscribed : Bool
  pub input : Bytes
  pub output : Bytes
  pub output_offset : ℕ

-- `client_reset`, less the closing of the descriptor.
abbrev pub free_client : IpcClient
free_client = record { fd = none; subscribed = false; input = []; output = []; output_offset = 0 }

-- `client_append`; none is -1.
unfoldable pub client_append : IpcClient → Bytes → Option IpcClient
client_append client text =
    if ltb max_pending_output (length client.output + length text + 1)
    then none
    else some (record client { output = client.output ++ (text ++ (0x0A ∷ [])) })

-- `memchr(input, '\n', input_length)`: how many bytes stand before it.
unfoldable pub find_newline : Bytes → Option ℕ
find_newline [] = none
find_newline (b ∷ rest) =
    let further = find_newline rest in
    if b == 0x0A then some 0 else elim further [ none ↦ none | some n ↦ some (suc n) ]

-- The line before the newline at `n`, less a final CR.
unfoldable pub line_of : Bytes → ℕ → Bytes
line_of input n =
    if ltb 0 n && get_or input (n - 1) 0 == 0x0D then take (n - 1) input else take n input

-- What a handler of commands returns; none is a buffer that it left as it was.
pub record Handled (V : Type 0) : Type 0 where
  pub handled : Bool
  pub result : Option V
  pub code : Option String
  pub message : Option String

abbrev pub or_default : Option String → String → String
or_default none s = s
or_default (some t) s = t

module _ (json : JsonLib) where
  open json use {Value}

  -- `ipc_protocol_parse`
  unfoldable pub ipc_protocol_parse : Bytes → Option Value
  ipc_protocol_parse message =
      if length message == 0
      then none
      else let (object, success, parse_end) = json.tokener_parse message in
        elim object [
          | none ↦ none
          | some value ↦
              if not success
                || not (parse_end == length message)
                || not (is_object (json.kind value))
              then none
              else some value
        ]

  -- The id of a response: that of the request, or null.
  unfoldable pub response_id : Option Value → Value
  response_id none = json.new_null
  response_id (some request) = elim (json.get_ex request "id") [
    | none ↦ json.new_null
    | some id ↦ if is_null (json.kind id) then json.new_null else id
  ]

  -- What `ipc_protocol_response` adds to the object for a success and for an error.
  abbrev pub result_of : Option Value → Value
  result_of none = json.new_object []
  result_of (some result) = result

  abbrev pub error_of : String → String → Value
  error_of code message =
      json.new_object (("code", json.new_string code) ∷ ("message", json.new_string message) ∷ [])

  -- `ipc_protocol_response`, for a success and for an error.
  unfoldable pub success_response : Option Value → Option Value → Value
  unfolding response_id
  success_response request result = json.new_object (
      ("type", json.new_string "response")
      ∷ ("id", response_id request)
      ∷ ("ok", json.new_boolean true)
      ∷ ("result", result_of result)
      ∷ [])

  unfoldable pub error_response : Option Value → String → String → Value
  unfolding response_id
  error_response request code message = json.new_object (
      ("type", json.new_string "response")
      ∷ ("id", response_id request)
      ∷ ("ok", json.new_boolean false)
      ∷ ("error", error_of code message)
      ∷ [])

  -- `queue_response`, with the response that it builds.
  unfoldable pub queue_response : IpcClient → Value → Option IpcClient
  unfolding client_append
  queue_response client response = elim (json.to_json_string response) [
    | none ↦ none
    | some serialized ↦ client_append client serialized
  ]

  -- `send_error_response`
  unfoldable pub send_error_response : IpcClient → Option Value → String → String → Option IpcClient
  unfolding queue_response error_response
  send_error_response client request code message =
      queue_response client (error_response request code message)

  -- A member of the request that is of a kind.
  abbrev pub text_member : Value → String → Option Value
  text_member request key = elim (json.get_ex request key) [
    | none ↦ none
    | some v ↦ if is_string (json.kind v) then some v else none
  ]

  abbrev pub id_ok : Value → Bool
  id_ok request = elim (json.get_ex request "id") [
    | none ↦ false
    | some v ↦ is_int (json.kind v) || is_string (json.kind v)
  ]

  abbrev pub array_member : Value → String → Option Value
  array_member request key = elim (json.get_ex request key) [
    | none ↦ none
    | some v ↦ if is_array (json.kind v) then some v else none
  ]

  module _ {Ctx : Type 0} (handler : Option (Ctx → String → Value → Handled Value × Ctx)) where
    -- `process_message` behind the call of the handler.
    unfoldable pub handled_step : IpcClient → Value → Handled Value × Ctx → Option IpcClient × Ctx
    unfolding send_error_response success_response
    handled_step client request (h, ctx) =
        if h.handled
        then (queue_response client (success_response (some request) h.result), ctx)
        else (
          send_error_response client (some request) (or_default h.code "COMMAND_FAILED")
              (or_default h.message "La commande a echoue"),
          ctx,
        )

    -- `process_message` once the request has a command and arguments.
    unfoldable pub command_step : IpcClient → Value → String → Value → Ctx → Option IpcClient × Ctx
    unfolding handled_step
    command_step client request command args ctx =
        if same command "subscribe"
        then (
          queue_response (record client { subscribed = true })
              (success_response (some request)
                (some (json.new_object (("subscribed", json.new_boolean true) ∷ [])))),
          ctx,
        )
        else elim handler [
          | none ↦ (
            send_error_response client (some request) "COMMAND_NOT_IMPLEMENTED"
                "Aucun gestionnaire de commandes n'est configure",
            ctx,
          )
          | some h ↦ handled_step client request (h ctx command args)
        ]

    -- `process_message` once the request has a type of "request" and an id.
    unfoldable pub args_step : IpcClient → Value → Ctx → Option IpcClient × Ctx
    unfolding command_step
    args_step client request ctx = elim (text_member request "command") [
      | none ↦ (
        send_error_response client (some request) "INVALID_REQUEST"
            "Le champ command doit etre une chaine non vide",
        ctx,
      )
      | some command ↦
          if same (json.get_string command) ""
          then (
            send_error_response client (some request) "INVALID_REQUEST"
                "Le champ command doit etre une chaine non vide",
            ctx,
          )
          else elim (array_member request "args") [
            | none ↦ (
              send_error_response client (some request) "INVALID_REQUEST"
                  "Le champ args doit etre un tableau JSON",
              ctx,
            )
            | some args ↦ command_step client request (json.get_string command) args ctx
          ]
    ]

    -- `process_message` once the message is an object.
    unfoldable pub request_step : IpcClient → Value → Ctx → Option IpcClient × Ctx
    unfolding args_step
    request_step client request ctx = elim (text_member request "type") [
      | none ↦ (
        send_error_response client (some request) "INVALID_REQUEST"
            "Le champ type doit etre une chaine",
        ctx,
      )
      | some type ↦
          if not (same (json.get_string type) "request")
          then (
            send_error_response client (some request) "UNSUPPORTED_TYPE"
                "Seuls les messages request sont acceptes",
            ctx,
          )
          else if not (id_ok request)
          then (
            send_error_response client (some request) "INVALID_REQUEST"
                "Le champ id doit etre un entier ou une chaine",
            ctx,
          )
          else args_step client request ctx
    ]

    -- `process_message`; none is -1.
    unfoldable pub process_message : IpcClient → Bytes → Ctx → Option IpcClient × Ctx
    unfolding ipc_protocol_parse request_step
    process_message client message ctx = elim (ipc_protocol_parse message) [
      | none ↦ (send_error_response client none "INVALID_JSON" "Le message JSON est invalide", ctx)
      | some request ↦ request_step client request ctx
    ]

    -- `process_buffered_message`: the client, unless it must be disconnected.
    unfoldable pub process_buffered_message : IpcClient → Ctx → Option IpcClient × Ctx
    unfolding process_message find_newline line_of
    process_buffered_message client ctx = elim (find_newline client.input) [
      | none ↦ (some client, ctx)
      | some n ↦
          process_message (record client { input = drop (n + 1) client.input })
            (line_of client.input n) ctx
    ]
