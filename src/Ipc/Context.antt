-- ===== src/Ipc/Context.antt =====
-- What the loop of the server (src/ipc/ipc_server.c, section 5) keeps of the context of its handler and of its periodic
-- task.
use sweet_dawn.Base.{
  ℕ, zero, suc, ◌+◌, ◌≡◌, inl, inr, true, false, not, ◌&&◌, Option, none, some, List, [], ◌∷◌,
  String, same, length, drop, ◌==◌, if_intro, option_intro, Bool-cases, subst,
}
use sweet_dawn.Os.{eintr}
use sweet_dawn.Protocol.{Bytes}
use sweet_dawn.Json.{JsonLib}
use sweet_dawn.Ipc.{
  IpcClient, Handled, max_clients, text_member, array_member, id_ok, ipc_protocol_parse,
  find_newline, line_of, handled_step, command_step, args_step, request_step, process_message,
  process_buffered_message,
}
use sweet_dawn.Ipc.Sockets.{Sockets, Ready, ready_failed, ready_timeout, ready}
use sweet_dawn.Ipc.Run.{
  IpcServer, free_clients, accept_loop, serve_all, broadcast_all, process_one, process_all,
  after_poll, ticked, run_loop, ipc_server_run, asked_of,
}

module _ (sockets : Sockets) (json : JsonLib) {Ctx : Type 0} (P : Ctx → Type 0)
    (handler : Ctx → String → json.Value → Handled json.Value × Ctx)
    (tick : Ctx → List json.Value × Ctx) where
  open sockets use {World}

  -- The handler and the periodic task keep what holds of the context.
  pub record Keep : Type 0 where
    pub handled :
        (ctx : Ctx) (name : String) (args : json.Value) → P ctx → P (handler ctx name args).1
    pub done : (ctx : Ctx) → P ctx → P (tick ctx).1

  abbrev Holds : Option IpcClient × Ctx → Type 0
  Holds r = P r.1

  module _ (keep : Keep) where
    handled-Holds :
        (c : IpcClient) (request : json.Value) (r : Handled json.Value × Ctx)
        → P r.1
        → Holds (handled_step json (some handler) c request r)
    unfolding handled_step
    handled-Holds c request (h, ctx) v = if_intro Holds h.handled (λ _. v) (λ _. v)

    command-Holds :
        (c : IpcClient) (request : json.Value) (command : String) (args : json.Value) (ctx : Ctx)
        → P ctx
        → Holds (command_step json (some handler) c request command args ctx)
    unfolding command_step
    command-Holds c request command args ctx v =
        if_intro Holds (same command "subscribe") (λ _. v)
          (λ _.
            handled-Holds c request (handler ctx command args) (keep.handled ctx command args v))

    args-Holds :
        (c : IpcClient) (request : json.Value) (ctx : Ctx)
        → P ctx
        → Holds (args_step json (some handler) c request ctx)
    unfolding args_step
    args-Holds c request ctx v =
        option_intro Holds (text_member json request "command") (λ _. v)
          (λ command _.
            if_intro Holds (same (json.get_string command) "") (λ _. v)
              (λ _.
                option_intro Holds (array_member json request "args") (λ _. v)
                  (λ args _. command-Holds c request (json.get_string command) args ctx v)))

    request-Holds :
        (c : IpcClient) (request : json.Value) (ctx : Ctx)
        → P ctx
        → Holds (request_step json (some handler) c request ctx)
    unfolding request_step
    request-Holds c request ctx v =
        option_intro Holds (text_member json request "type") (λ _. v)
          (λ type _.
            if_intro Holds (not (same (json.get_string type) "request")) (λ _. v)
              (λ _.
                if_intro Holds (not (id_ok json request)) (λ _. v)
                  (λ _. args-Holds c request ctx v)))

    message-Holds :
        (c : IpcClient) (message : Bytes) (ctx : Ctx)
        → P ctx
        → Holds (process_message json (some handler) c message ctx)
    unfolding process_message
    message-Holds c message ctx v =
        option_intro Holds (ipc_protocol_parse json message) (λ _. v)
          (λ request _. request-Holds c request ctx v)

    buffered-Holds :
        (c : IpcClient) (ctx : Ctx)
        → P ctx
        → Holds (process_buffered_message json (some handler) c ctx)
    unfolding process_buffered_message
    buffered-Holds c ctx v =
        option_intro Holds (find_newline c.input) (λ _. v)
          (λ n _.
            message-Holds (record c { input = drop (n + 1) c.input }) (line_of c.input n) ctx v)

    one-P :
        (c : IpcClient) (ctx : Ctx) (w : World)
        → P ctx
        → P (process_one sockets json (some handler) tick c ctx w).1
    unfolding process_one
    one-P c ctx w v =
        option_intro (λ (r : IpcClient × Ctx × World). P r.1) c.fd (λ _. v)
          (λ fd _.
            if_intro (λ (r : IpcClient × Ctx × World). P r.1) (length c.output == 0)
              (λ _. buffered-Holds c ctx v) (λ _. v))

    all-P :
        (cs : List IpcClient) (ctx : Ctx) (w : World)
        → P ctx
        → P (process_all sockets json (some handler) tick cs ctx w).1
    unfolding process_all
    all-P [] ctx w v = v
    all-P (c ∷ rest) ctx w v =
        let r = process_one sockets json (some handler) tick c ctx w in
        all-P rest r.1 r.2 (one-P c ctx w v)

    abbrev Keeps : Option (IpcServer Ctx × World) → Type 0
    Keeps none = Unit
    Keeps (some (server, w)) = P server.context

    polled-Keeps :
        (fuel : ℕ) (server : IpcServer Ctx) (r : Ready) (w : World)
        → P server.context
        → Keeps (after_poll sockets json (some handler) tick fuel server r w)
    unfolding after_poll
    polled-Keeps fuel server (ready_failed eintr) w v = v
    polled-Keeps fuel server (ready_failed _) w v = v
    polled-Keeps fuel server ready_timeout w v = v
    polled-Keeps fuel server (ready false events) w v =
        option_intro Keeps (serve_all sockets fuel events server.clients w) (λ _. tt) (λ _ _. v)
    polled-Keeps fuel server (ready true events) w v =
        option_intro Keeps (accept_loop sockets fuel server.clients w) (λ _. tt)
          (λ y _. option_intro Keeps (serve_all sockets fuel events y.1 y.2) (λ _. tt) (λ _ _. v))

    ticked-Keeps :
        (fuel : ℕ) (server : IpcServer Ctx) (w : World)
        → P server.context
        → Keeps (ticked sockets json (some handler) tick fuel server w)
    unfolding ticked
    ticked-Keeps fuel server w v =
        let r = process_all sockets json (some handler) tick server.clients server.context w in
        let p = sockets.poll (asked_of r.0) r.2 in
        polled-Keeps fuel (record server { clients = r.0; context = r.1 }) p.0 p.1
          (all-P server.clients server.context w v)

    loop-Keeps :
        (turns fuel : ℕ) (server : IpcServer Ctx) (w : World)
        → P server.context
        → Keeps (run_loop sockets json (some handler) tick turns fuel server w)
    unfolding run_loop
    loop-Keeps zero fuel server w v = tt
    loop-Keeps (suc turns) fuel server w v =
        let (events, ctx) = tick server.context in
        let b = broadcast_all sockets json (some handler) tick events server.clients w in
        let held : P ctx = keep.done server.context v in
        let server' = record server { clients = b.0; context = ctx } in
        elim (Bool-cases (server.running && not (sockets.stop_requested w))) [
          | inr e ↦ rw (e, run_loop) v
          | inl e ↦ elim (Bool-cases (sockets.stop_requested b.1)) [
            | inl k ↦ rw (e, run_loop) (rw k held)
            | inr k ↦
                rw (e, run_loop)
                  (rw k (
                    option_intro Keeps (ticked sockets json (some handler) tick fuel server' b.1)
                      (λ _. tt)
                      (λ x h.
                        loop-Keeps turns fuel x.0 x.1
                          (subst Keeps h (ticked-Keeps fuel server' b.1 held)))))
          ]
        ]

    -- What the handler and the periodic task keep of their context holds of it when ipc_server_run
    -- returns, if it held before.
    pub run-P :
        (turns fuel : ℕ) (server : IpcServer Ctx) (w : World) (server' : IpcServer Ctx) (w' : World)
        → P server.context
        → ipc_server_run sockets json (some handler) tick turns fuel server w ≡ some (server', w')
        → P server'.context
    unfolding ipc_server_run
    run-P turns fuel server w server' w' v h =
        let start = record server { clients = free_clients max_clients } in
        subst Keeps h (
          option_intro Keeps (run_loop sockets json (some handler) tick turns fuel start w)
            (λ _. tt) (λ x k. subst Keeps k (loop-Keeps turns fuel start w v)))
