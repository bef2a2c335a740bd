-- ===== src/Ipc/Progress.antt =====
-- That a line that was received does not wait for ever (src/ipc/ipc_server.c, sections 3 and 5).
use sweet_dawn.Base.{
  ℕ, ◌+◌, ◌≡◌, ◌≤◌, ◌⊎◌, inl, inr, refl, sym, ap, arith, subst, true, Option, none, some, List, [],
  ◌∷◌, ◌++◌, String, length, length-append, drop, ◌==◌, option_intro,
}
use sweet_dawn.Json.{JsonLib}
use sweet_dawn.Ipc.{
  IpcClient, Handled, free_client, find_newline, line_of, process_message, process_buffered_message,
}
use sweet_dawn.Ipc.Answers.{message-IsAnswered}
use sweet_dawn.Ipc.Sockets.{Sockets}
use sweet_dawn.Ipc.Run.{client_reset, kept_or_reset, process_one}

-- A client whose line at `n` was answered, or that was disconnected.
abbrev pub HasMoved : ℕ → IpcClient → IpcClient → Type 0
HasMoved n c c' = (c' ≡ free_client) ⊎ ((c'.input ≡ drop (n + 1) c.input) × (1 ≤ length c'.output))

module _ (sockets : Sockets) (json : JsonLib) {Ctx : Type 0}
    (handler : Option (Ctx → String → json.Value → Handled json.Value × Ctx))
    (tick : Ctx → List json.Value × Ctx) where
  open sockets use {World}

  kept-HasMoved :
      (n : ℕ) (c : IpcClient) (ctx : Ctx) (w : World) (r : Option IpcClient × Ctx)
      → process_message json handler
          (record c { input = drop (n + 1) c.input })
          (line_of c.input n)
          ctx
        ≡ r
      → HasMoved n c (kept_or_reset sockets c r.0 w).0
  unfolding kept_or_reset client_reset
  kept-HasMoved n c ctx w (none, ctx') h =
      option_intro (λ (r : IpcClient × World). HasMoved n c r.0) c.fd (λ _. inl refl)
        (λ _ _. inl refl)
  kept-HasMoved n c ctx w (some c', ctx') h =
      let a =
        message-IsAnswered json handler (record c { input = drop (n + 1) c.input })
          (line_of c.input n) ctx c' ctx' h in
      inr (
        a.same_input,
        subst (λ o. 1 ≤ length o) (sym a.queued)
            (omega (
              arith,
              length-append c.output (a.text ++ (0x0A ∷ [])),
              length-append a.text (0x0A ∷ []),
            )),
      )

  -- A turn of the server treats the line of a client that has received one and to which nothing is
  -- still to be sent: afterwards the line is off its input and an answer is in its output, or the
  -- client is disconnected.
  pub process_one-HasMoved :
      (c : IpcClient) (fd n : ℕ) (ctx : Ctx) (w : World)
      → c.fd ≡ some fd
      → c.output ≡ []
      → find_newline c.input ≡ some n
      → HasMoved n c (process_one sockets json handler tick c ctx w).0
  unfolding process_one process_buffered_message
  process_one-HasMoved c fd n ctx w e o f =
      let empty : (length c.output == 0) ≡ true = ap (λ x. length x == 0) o in
      rw (e, process_one)
        (rw empty (
          rw (f, process_buffered_message)
            (kept-HasMoved n c ctx w
              (process_message json handler (record c { input = drop (n + 1) c.input })
                (line_of c.input n) ctx)
              refl)))
