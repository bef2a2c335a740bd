-- ===== src/Ipc/Answers.antt =====
-- That every line is answered once (src/ipc/ipc_server.c, sections 2 and 3).
use sweet_dawn.Base.{
  ◌+◌, ◌≤◌, ◌≡◌, inl, inr, true, not, Option, none, some, [], ◌∷◌, ◌++◌, String, same, refl, arith,
  length, length-append, ltb, if_intro, option_intro, Option-cases, subst,
}
use sweet_dawn.Protocol.{Bytes}
use sweet_dawn.Json.{JsonLib}
use sweet_dawn.Ipc.{
  IpcClient, Handled, max_pending_output, client_append, ipc_protocol_parse, success_response,
  error_response, queue_response, send_error_response, text_member, array_member, id_ok,
  handled_step, or_default, command_step, args_step, request_step, process_message,
}

module _ (json : JsonLib) where
  open json use {Value}

  -- A response to what `request` is: with its id, and a result or an error.
  pub data IsResponse (request : Option Value) : Value → Type 0 where
    success : (result : Option Value) → IsResponse request (success_response json request result)
    error : (code message : String) → IsResponse request (error_response json request code message)

  -- What queues one response for a client, behind what it has still to receive.
  pub record IsAnswered (request : Option Value) (c c' : IpcClient) : Type 0 where
    pub response : Value
    pub answers : IsResponse request response
    pub text : Bytes
    pub serialized : json.to_json_string response ≡ some text
    pub queued : c'.output ≡ c.output ++ (text ++ (0x0A ∷ []))
    pub bounded : length c'.output ≤ max_pending_output
    pub same_input : c'.input ≡ c.input
    pub same_fd : c'.fd ≡ c.fd
    pub same_offset : c'.output_offset ≡ c.output_offset

  abbrev Queues : Option Value → IpcClient → Option IpcClient → Type 0
  Queues request c none = Unit
  Queues request c (some c') = IsAnswered request c c'

  queue_response-Queues :
      (request : Option Value) (c : IpcClient) (r : Value)
      → IsResponse request r
      → Queues request c (queue_response json c r)
  unfolding queue_response client_append
  queue_response-Queues request c r v =
      option_intro (Queues request c) (json.to_json_string r) (λ _. tt)
        (λ text e.
          if_intro (Queues request c) (ltb max_pending_output (length c.output + length text + 1))
            (λ _. tt)
            (λ h. record {
              response = r;
              answers = v;
              text = text;
              serialized = e;
              queued = refl;
              bounded = ground (
                arith,
                length-append c.output (text ++ (0x0A ∷ [])),
                length-append text (0x0A ∷ []),
              );
              same_input = refl;
              same_fd = refl;
              same_offset = refl;
            }))

  error-Queues :
      (request : Option Value) (c : IpcClient) (code message : String)
      → Queues request c (send_error_response json c request code message)
  unfolding send_error_response
  error-Queues request c code message =
      queue_response-Queues request c (error_response json request code message)
        (error code message)

  -- A client that differs in its subscription alone, or in the input.
  subscribed-Queues :
      (request : Option Value) (c : IpcClient) (r : Option IpcClient)
      → Queues request (record c { subscribed = true }) r
      → Queues request c r
  subscribed-Queues request c none v = tt
  subscribed-Queues request c (some c') v = record {
    response = v.response;
    answers = v.answers;
    text = v.text;
    serialized = v.serialized;
    queued = v.queued;
    bounded = v.bounded;
    same_input = v.same_input;
    same_fd = v.same_fd;
    same_offset = v.same_offset;
  }

  module _ {Ctx : Type 0} (handler : Option (Ctx → String → Value → Handled Value × Ctx)) where
    abbrev Answers : Option Value → IpcClient → Option IpcClient × Ctx → Type 0
    Answers request c (r, ctx) = Queues request c r

    handled-Answers :
        (c : IpcClient) (request : Value) (r : Handled Value × Ctx)
        → Answers (some request) c (handled_step json handler c request r)
    unfolding handled_step
    handled-Answers c request (h, ctx) =
        if_intro (Answers (some request) c) h.handled
          (λ _.
            queue_response-Queues (some request) c (success_response json (some request) h.result)
              (success h.result))
          (λ _.
            error-Queues (some request) c (or_default h.code "COMMAND_FAILED")
              (or_default h.message "La commande a echoue"))

    command-Answers :
        (c : IpcClient) (request : Value) (command : String) (args : Value) (ctx : Ctx)
        → Answers (some request) c (command_step json handler c request command args ctx)
    unfolding command_step
    command-Answers c request command args ctx =
        let subscribed = some (json.new_object (("subscribed", json.new_boolean true) ∷ [])) in
        let r = success_response json (some request) subscribed in
        let c' = record c { subscribed = true } in
        if_intro (Answers (some request) c) (same command "subscribe")
          (λ _.
            subscribed-Queues (some request) c (queue_response json c' r)
              (queue_response-Queues (some request) c' r (success subscribed)))
          (λ _.
            option_intro (Answers (some request) c) handler
              (λ _.
                error-Queues (some request) c "COMMAND_NOT_IMPLEMENTED"
                  "Aucun gestionnaire de commandes n'est configure")
              (λ h _. handled-Answers c request (h ctx command args)))

    args-Answers :
        (c : IpcClient) (request : Value) (ctx : Ctx)
        → Answers (some request) c (args_step json handler c request ctx)
    unfolding args_step
    args-Answers c request ctx =
        let refused : (message : String)
            → Queues (some request) c
                (send_error_response json c (some request) "INVALID_REQUEST" message) =
          error-Queues (some request) c "INVALID_REQUEST" in
        option_intro (Answers (some request) c) (text_member json request "command")
          (λ _. refused "Le champ command doit etre une chaine non vide")
          (λ command _.
            if_intro (Answers (some request) c) (same (json.get_string command) "")
              (λ _. refused "Le champ command doit etre une chaine non vide")
              (λ _.
                option_intro (Answers (some request) c) (array_member json request "args")
                  (λ _. refused "Le champ args doit etre un tableau JSON")
                  (λ args _. command-Answers c request (json.get_string command) args ctx)))

    request-Answers :
        (c : IpcClient) (request : Value) (ctx : Ctx)
        → Answers (some request) c (request_step json handler c request ctx)
    unfolding request_step
    request-Answers c request ctx =
        option_intro (Answers (some request) c) (text_member json request "type")
          (λ _.
            error-Queues (some request) c "INVALID_REQUEST" "Le champ type doit etre une chaine")
          (λ type _.
            if_intro (Answers (some request) c) (not (same (json.get_string type) "request"))
              (λ _.
                error-Queues (some request) c "UNSUPPORTED_TYPE"
                  "Seuls les messages request sont acceptes")
              (λ _.
                if_intro (Answers (some request) c) (not (id_ok json request))
                  (λ _.
                    error-Queues (some request) c "INVALID_REQUEST"
                      "Le champ id doit etre un entier ou une chaine")
                  (λ _. args-Answers c request ctx)))

    message-Answers :
        (c : IpcClient) (message : Bytes) (ctx : Ctx)
        → Answers (ipc_protocol_parse json message) c (process_message json handler c message ctx)
    unfolding process_message
    message-Answers c message ctx = elim (Option-cases (ipc_protocol_parse json message)) [
      | inl e ↦
          rw (e, process_message)
            (error-Queues none c "INVALID_JSON" "Le message JSON est invalide")
      | inr (request, e) ↦ rw (e, process_message) (request-Answers c request ctx)
    ]

    pub message-IsAnswered :
        (c : IpcClient) (message : Bytes) (ctx : Ctx) (c' : IpcClient) (ctx' : Ctx)
        → process_message json handler c message ctx ≡ (some c', ctx')
        → IsAnswered (ipc_protocol_parse json message) c c'
    message-IsAnswered c message ctx c' ctx' h =
        subst (Answers (ipc_protocol_parse json message) c) h (message-Answers c message ctx)
