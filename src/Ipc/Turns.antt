-- ===== src/Ipc/Turns.antt =====
-- That the turns of the server (src/ipc/ipc_server.c, sections 3 and 5) keep every client sound.
use sweet_dawn.Base.{
  ℕ, zero, suc, ◌+◌, ◌≡◌, inl, inr, true, false, not, ◌&&◌, Option, none, some, List, [], ◌∷◌,
  String, refl, ◌∙◌, ap₂, arith, length, drop, ltb, ◌==◌, if_intro, option_intro, Bool-cases, subst,
  length-drop,
}
use sweet_dawn.Os.{eintr}
use sweet_dawn.Protocol.{Bytes}
use sweet_dawn.Json.{JsonLib}
use sweet_dawn.Ipc.{
  IpcClient, Handled, free_client, max_clients, find_newline, line_of, process_message,
  process_buffered_message,
}
use sweet_dawn.Ipc.Answers.{message-IsAnswered}
use sweet_dawn.Ipc.Sockets.{
  Sockets, Revents, Ready, ready_failed, ready_timeout, ready, read_client, write_client,
}
use sweet_dawn.Ipc.Run.{
  IpcServer, free_clients, client_reset, broadcast_text, accept_loop, hung_up, written_on,
  write_step, read_step, serve, serve_fd, serve_all, is_fd, broadcast_all, process_one, process_all,
  after_poll, ticked, run_loop, ipc_server_run, reset_all, asked_of,
}
use sweet_dawn.Ipc.Sound.{
  IsLive, IsSound, AllSound, Live, Written, Accepts, sound-IsLive, read-Live, write-Written,
  reset-IsSound, kept-IsSound, broadcast-AllSound, accept_loop-Accepts,
}

pub free-AllSound : (n : ℕ) → AllSound n (free_clients n)
free-AllSound zero = refl
free-AllSound (suc n) = (inl refl, n, refl, free-AllSound n)

module _ (sockets : Sockets) where
  open sockets use {World}

  abbrev Serves : Option (IpcClient × World) → Type 0
  Serves none = Unit
  Serves (some (c, w)) = IsSound c

  hung_up-IsSound :
      (ev : Revents) (c : IpcClient) (w : World) → IsSound c → IsSound (hung_up sockets ev c w).0
  unfolding hung_up
  hung_up-IsSound ev c w v =
      if_intro (λ (r : IpcClient × World). IsSound r.0) (ev.hung_up && not ev.readable)
        (λ _. reset-IsSound sockets c w) (λ _. v)

  Written-Serves :
      (ev : Revents) (fd : ℕ) (c : IpcClient) (r : Option (Option IpcClient × World))
      → Written sockets fd r
      → Serves (written_on sockets ev c r)
  unfolding written_on
  Written-Serves ev fd c none v = tt
  Written-Serves ev fd c (some (none, w)) v = reset-IsSound sockets c w
  Written-Serves ev fd c (some (some c', w)) v = hung_up-IsSound ev c' w (inr (fd, v))

  write_step-Serves :
      (fuel fd : ℕ) (ev : Revents) (c : IpcClient) (w : World)
      → IsLive fd c
      → Serves (write_step sockets fuel fd ev c w)
  unfolding write_step
  write_step-Serves fuel fd ev c w v =
      if_intro Serves (ev.writable && ltb 0 (length c.output))
        (λ _.
          Written-Serves ev fd c (write_client sockets fuel fd c w)
            (write-Written sockets fuel fd c w v))
        (λ _. hung_up-IsSound ev c w (inr (fd, v)))

  read_step-Serves :
      (fuel fd : ℕ) (ev : Revents) (c : IpcClient) (r : Option IpcClient × World)
      → Live fd r.0
      → Serves (read_step sockets fuel fd ev c r)
  unfolding read_step
  read_step-Serves fuel fd ev c (none, w) v = reset-IsSound sockets c w
  read_step-Serves fuel fd ev c (some c', w) v = write_step-Serves fuel fd ev c' w v

  serve-Serves :
      (fuel fd : ℕ) (ev : Revents) (c : IpcClient) (w : World)
      → IsLive fd c
      → Serves (serve sockets fuel fd ev c w)
  unfolding serve
  serve-Serves fuel fd ev c w v =
      if_intro Serves ev.error (λ _. reset-IsSound sockets c w)
        (λ _.
          if_intro Serves (ev.readable && length c.output == 0)
            (λ _.
              read_step-Serves fuel fd ev c (read_client sockets fd c w)
                (read-Live sockets fd c w v))
            (λ _. write_step-Serves fuel fd ev c w v))

  abbrev Keeps : ℕ → Option (List IpcClient × World) → Type 0
  Keeps n none = Unit
  Keeps n (some (cs, w)) = AllSound n cs

  is_fd-fd : (fd : ℕ) (o : Option ℕ) → is_fd fd o ≡ true → o ≡ some fd
  is_fd-fd fd none h = absurd (ground arith)
  is_fd-fd fd (some other) h = ground arith

  serve_fd-Keeps :
      (n fuel fd : ℕ) (ev : Revents) (cs : List IpcClient) (w : World)
      → AllSound n cs
      → Keeps n (serve_fd sockets fuel fd ev cs w)
  unfolding serve_fd
  serve_fd-Keeps n fuel fd ev [] w v = v
  serve_fd-Keeps n fuel fd ev (c ∷ rest) w (v, m, e, vs) = elim (Bool-cases (is_fd fd c.fd)) [
    | inl h ↦
        rw (h, serve_fd)
          (served (serve sockets fuel fd ev c w)
            (serve-Serves fuel fd ev c w (sound-IsLive fd c (is_fd-fd fd c.fd h) v)))
    | inr h ↦
        rw (h, serve_fd)
          (others (serve_fd sockets fuel fd ev rest w) (serve_fd-Keeps m fuel fd ev rest w vs))
  ]
    where
      served :
          (r : Option (IpcClient × World))
          → Serves r
          → Keeps n (elim r [ none ↦ none | some (c', w') ↦ some (c' ∷ rest, w') ])
      served none s = tt
      served (some (c', w')) s = (s, m, e, vs)

      others :
          (r : Option (List IpcClient × World))
          → Keeps m r
          → Keeps n (elim r [ none ↦ none | some (rest', w') ↦ some (c ∷ rest', w') ])
      others none s = tt
      others (some (rest', w')) s = (v, m, e, s)

  serve_all-Keeps :
      (n fuel : ℕ) (events : List (ℕ × Revents)) (cs : List IpcClient) (w : World)
      → AllSound n cs
      → Keeps n (serve_all sockets fuel events cs w)
  unfolding serve_all
  serve_all-Keeps n fuel [] cs w v = v
  serve_all-Keeps n fuel ((fd, ev) ∷ more) cs w v =
      served (serve_fd sockets fuel fd ev cs w) (serve_fd-Keeps n fuel fd ev cs w v)
        (serve_all-Keeps n fuel more)
    where
      served :
          (r : Option (List IpcClient × World))
          → Keeps n r
          → ((cs' : List IpcClient) (w' : World)
              → AllSound n cs'
              → Keeps n (serve_all sockets fuel more cs' w'))
          → Keeps n (elim r [ none ↦ none | some (cs', w') ↦ serve_all sockets fuel more cs' w' ])
      served none s again = tt
      served (some (cs', w')) s again = again cs' w' s

  reset_free : (c : IpcClient) (w : World) → (client_reset sockets c w).0 ≡ free_client
  unfolding client_reset
  reset_free c w =
      option_intro (λ (r : IpcClient × World). r.0 ≡ free_client) c.fd (λ _. refl) (λ _ _. refl)

  reset_all-free :
      (n : ℕ) (cs : List IpcClient) (w : World)
      → AllSound n cs
      → (reset_all sockets cs w).0 ≡ free_clients n
  unfolding reset_all client_reset
  reset_all-free n [] w v = rw v refl
  reset_all-free n (c ∷ rest) w (v, m, e, vs) = rw e (
      ap₂ (λ x xs. x ∷ xs) (reset_free c w) (reset_all-free m rest (client_reset sockets c w).1 vs))

  module _ (json : JsonLib) {Ctx : Type 0}
      (handler : Option (Ctx → String → json.Value → Handled json.Value × Ctx))
      (tick : Ctx → List json.Value × Ctx) where
    broadcast_all-AllSound :
        (n : ℕ) (events : List json.Value) (cs : List IpcClient) (w : World)
        → AllSound n cs
        → AllSound n (broadcast_all sockets json handler tick events cs w).0
    unfolding broadcast_all
    broadcast_all-AllSound n [] cs w v = v
    broadcast_all-AllSound n (event ∷ more) cs w v =
        let again = broadcast_all-AllSound n more in
        option_intro (λ (r : List IpcClient × World). AllSound n r.0) (json.to_json_string event)
          (λ _. again cs w v)
          (λ text _.
            again (broadcast_text sockets text cs w).0 (broadcast_text sockets text cs w).1
              (broadcast-AllSound sockets n text cs w v))

    answered-Live :
        (fd : ℕ) (c : IpcClient) (message : Bytes) (ctx : Ctx) (r : Option IpcClient × Ctx)
        → IsLive fd c
        → process_message json handler c message ctx ≡ r
        → Live fd r.0
    answered-Live fd c message ctx (none, ctx') v h = tt
    answered-Live fd c message ctx (some c', ctx') v h =
        let a = message-IsAnswered json handler c message ctx c' ctx' h in
        record {
          connected = a.same_fd ∙ v.connected;
          input_fits = rw a.same_input v.input_fits;
          output_fits = a.bounded;
        }

    treated-Live :
        (fd : ℕ) (c : IpcClient) (ctx : Ctx)
        → IsLive fd c
        → Live fd (process_buffered_message json handler c ctx).0
    unfolding process_buffered_message
    treated-Live fd c ctx v =
        option_intro (λ (r : Option IpcClient × Ctx). Live fd r.0) (find_newline c.input) (λ _. v)
          (λ n _.
            let c' = record c { input = drop (n + 1) c.input } in
            answered-Live fd c' (line_of c.input n) ctx
              (process_message json handler c' (line_of c.input n) ctx)
              (record {
                connected = v.connected;
                input_fits = omega (arith, v.input_fits, length-drop (n + 1) c.input);
                output_fits = v.output_fits;
              })
              refl)

    process_one-IsSound :
        (c : IpcClient) (ctx : Ctx) (w : World)
        → IsSound c
        → IsSound (process_one sockets json handler tick c ctx w).0
    unfolding process_one
    process_one-IsSound c ctx w v =
        option_intro (λ (r : IpcClient × Ctx × World). IsSound r.0) c.fd (λ _. v)
          (λ fd e.
            if_intro (λ (r : IpcClient × Ctx × World). IsSound r.0) (length c.output == 0)
              (λ _.
                kept-IsSound sockets fd c (process_buffered_message json handler c ctx).0 w
                  (treated-Live fd c ctx (sound-IsLive fd c e v)))
              (λ _. v))

    process_all-AllSound :
        (n : ℕ) (cs : List IpcClient) (ctx : Ctx) (w : World)
        → AllSound n cs
        → AllSound n (process_all sockets json handler tick cs ctx w).0
    unfolding process_all
    process_all-AllSound n [] ctx w v = v
    process_all-AllSound n (c ∷ rest) ctx w (v, m, e, vs) =
        let r = process_one sockets json handler tick c ctx w in
        (process_one-IsSound c ctx w v, m, e, process_all-AllSound m rest r.1 r.2 vs)

    abbrev KeepsServer : ℕ → Option (IpcServer Ctx × World) → Type 0
    KeepsServer n none = Unit
    KeepsServer n (some (server, w)) = AllSound n server.clients

    after_poll-KeepsServer :
        (n fuel : ℕ) (server : IpcServer Ctx) (r : Ready) (w : World)
        → AllSound n server.clients
        → KeepsServer n (after_poll sockets json handler tick fuel server r w)
    unfolding after_poll
    after_poll-KeepsServer n fuel server (ready_failed eintr) w v = v
    after_poll-KeepsServer n fuel server (ready_failed _) w v = v
    after_poll-KeepsServer n fuel server ready_timeout w v = v
    after_poll-KeepsServer n fuel server (ready false events) w v =
        option_intro (KeepsServer n) (serve_all sockets fuel events server.clients w) (λ _. tt)
          (λ x h. subst (Keeps n) h (serve_all-Keeps n fuel events server.clients w v))
    after_poll-KeepsServer n fuel server (ready true events) w v =
        option_intro (KeepsServer n) (accept_loop sockets fuel server.clients w) (λ _. tt)
          (λ y k.
            option_intro (KeepsServer n) (serve_all sockets fuel events y.1 y.2) (λ _. tt)
              (λ x h. subst (Keeps n) h (
                serve_all-Keeps n fuel events y.1 y.2 (
                  subst (Accepts sockets n) k
                    (accept_loop-Accepts sockets n fuel server.clients w v)))))

    ticked-KeepsServer :
        (n fuel : ℕ) (server : IpcServer Ctx) (w : World)
        → AllSound n server.clients
        → KeepsServer n (ticked sockets json handler tick fuel server w)
    unfolding ticked
    ticked-KeepsServer n fuel server w v =
        let r = process_all sockets json handler tick server.clients server.context w in
        let server' = record server { clients = r.0; context = r.1 } in
        let p = sockets.poll (asked_of r.0) r.2 in
        after_poll-KeepsServer n fuel server' p.0 p.1
          (process_all-AllSound n server.clients server.context w v)

    run_loop-KeepsServer :
        (n turns fuel : ℕ) (server : IpcServer Ctx) (w : World)
        → AllSound n server.clients
        → KeepsServer n (run_loop sockets json handler tick turns fuel server w)
    unfolding run_loop
    run_loop-KeepsServer n zero fuel server w v = tt
    run_loop-KeepsServer n (suc turns) fuel server w v =
        let (events, ctx) = tick server.context in
        let b = broadcast_all sockets json handler tick events server.clients w in
        let sound = broadcast_all-AllSound n events server.clients w v in
        let server' = record server { clients = b.0; context = ctx } in
        elim (Bool-cases (server.running && not (sockets.stop_requested w))) [
          | inr e ↦ rw (e, run_loop) v
          | inl e ↦ elim (Bool-cases (sockets.stop_requested b.1)) [
            | inl k ↦ rw (e, run_loop) (rw k sound)
            | inr k ↦
                rw (e, run_loop)
                  (rw k (
                    option_intro (KeepsServer n) (ticked sockets json handler tick fuel server' b.1)
                      (λ _. tt)
                      (λ x h.
                        run_loop-KeepsServer n turns fuel x.0 x.1
                          (subst (KeepsServer n) h (ticked-KeepsServer n fuel server' b.1 sound)))))
          ]
        ]

    -- When the loop of the server returns, from a table of clients that is sound, the table is
    -- sound and has as many places: every client on a descriptor has at most 4096 bytes of input
    -- and 262144 of output, and every other place is as client_reset leaves it, whatever the
    -- system answers.
    pub run_loop-AllSound :
        (n turns fuel : ℕ) (server : IpcServer Ctx) (w : World) (server' : IpcServer Ctx)
        (w' : World)
        → AllSound n server.clients
        → run_loop sockets json handler tick turns fuel server w ≡ some (server', w')
        → AllSound n server'.clients
    run_loop-AllSound n turns fuel server w server' w' v h =
        subst (KeepsServer n) h (run_loop-KeepsServer n turns fuel server w v)

    abbrev Ended : Option (IpcServer Ctx × World) → Type 0
    Ended none = Unit
    Ended (some (server, w)) =
        (server.running ≡ false) × (server.clients ≡ free_clients max_clients)

    -- When ipc_server_run returns, the server is not running and each of the sixteen places for
    -- clients is as client_reset leaves it.
    pub run_end :
        (turns fuel : ℕ) (server : IpcServer Ctx) (w : World) (server' : IpcServer Ctx) (w' : World)
        → ipc_server_run sockets json handler tick turns fuel server w ≡ some (server', w')
        → (server'.running ≡ false) × (server'.clients ≡ free_clients max_clients)
    unfolding ipc_server_run
    run_end turns fuel server w server' w' h =
        let start = record server { clients = free_clients max_clients } in
        subst Ended h (
          option_intro Ended (run_loop sockets json handler tick turns fuel start w) (λ _. tt)
            (λ x k. (
              refl,
              reset_all-free max_clients x.0.clients x.1 (
                  subst (KeepsServer max_clients) k (
                    run_loop-KeepsServer max_clients turns fuel start w
                      (free-AllSound max_clients))),
            )))
