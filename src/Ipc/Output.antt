-- ===== src/Ipc/Output.antt =====
-- What is queued for a client and how it is sent (src/ipc/ipc_server.c). `wire` reads from a world the bytes that
-- went out on a descriptor so far; its two laws are what send() promises.
use sweet_dawn.Base.{
  length-drop, ◌≢◌, ◌<◌, ℕ, zero, suc, ◌+◌, ◌≤◌, ◌≡◌, Option, none, some, [], ◌∷◌, ◌++◌, refl, sym,
  ◌∙◌, ap, arith, length, take, drop, append_assoc, append-nil, subst, take-append-drop,
}
use sweet_dawn.Os.{Sent, Errno, send_failed, sent, eintr}
use sweet_dawn.Protocol.{Bytes}
use sweet_dawn.Ipc.{IpcClient}
use sweet_dawn.Ipc.Sockets.{
  Sockets, write_client, write_intro, write_on, unsent, Write, go_on, later, broken, after_write,
}

drop-nil : (n : ℕ) → drop {A = ℕ} n [] ≡ []
drop-nil zero = refl
drop-nil (suc n) = refl

drop-all : (n : ℕ) (b : Bytes) → length b ≤ n → drop n b ≡ []
drop-all zero [] h = refl
drop-all (suc n) [] h = refl
drop-all zero (x ∷ b) h = absurd (omega arith)
drop-all (suc n) (x ∷ b) h = drop-all n b (omega arith)

drop-drop : (n m : ℕ) (b : Bytes) → drop (n + m) b ≡ drop m (drop n b)
drop-drop zero m b = ap (λ k. drop k b) (omega arith)
drop-drop (suc n) m [] = drop-nil (suc n + m) ∙ sym (drop-nil m)
drop-drop (suc n) m (x ∷ b) =
    let e : suc n + m ≡ suc (n + m) = omega arith in rw e (drop-drop n m b)

module _ (sockets : Sockets) (wire : ℕ → sockets.World → Bytes)
    (send_counts : (fd : ℕ) (b : Bytes) (w : sockets.World) (n : ℕ)
      → (sockets.send fd b w).0 ≡ sent n
      → (n ≤ length b) × (wire fd (sockets.send fd b w).1 ≡ wire fd w ++ take n b))
    (failure_sends_nothing : (fd : ℕ) (b : Bytes) (w : sockets.World) (e : Errno)
      → (sockets.send fd b w).0 ≡ send_failed e
      → wire fd (sockets.send fd b w).1 ≡ wire fd w) where
  -- What was sent and what is still to be sent make up `all`; a client that is disconnected got some
  -- first bytes of it.
  abbrev Flushes : ℕ → Bytes → Option (Option IpcClient × sockets.World) → Type 0
  Flushes fd all none = Unit
  Flushes fd all (some (none, w)) = (rest : Bytes) × (wire fd w ++ rest ≡ all)
  Flushes fd all (some (some c, w)) = wire fd w ++ unsent c ≡ all

  -- One send().
  abbrev Step : ℕ → Bytes → sockets.World → Write → Type 0
  Step fd b w (go_on n) = wire fd (sockets.send fd b w).1 ++ drop n b ≡ wire fd w ++ b
  Step fd b w _ = wire fd (sockets.send fd b w).1 ≡ wire fd w

  send-Step :
      (fd : ℕ) (b : Bytes) (w : sockets.World) (r : Sent)
      → (sockets.send fd b w).0 ≡ r
      → Step fd b w (after_write r)
  unfolding after_write
  send-Step fd b w (sent zero) e = rw (append-nil (wire fd w)) at (send_counts fd b w 0 e).1
  send-Step fd b w (sent (suc n)) e =
      ap (λ x. x ++ drop (suc n) b) (send_counts fd b w (suc n) e).1
      ∙ append_assoc (wire fd w) (take (suc n) b) (drop (suc n) b)
      ∙ ap (λ x. wire fd w ++ x) (take-append-drop (suc n) b)
  send-Step fd b w (send_failed eintr) e = ap (λ x. x ++ b) (failure_sends_nothing fd b w eintr e)
  send-Step fd b w (send_failed x) e = failure_sends_nothing fd b w x e

  write-Flushes :
      (fuel fd : ℕ) (c : IpcClient) (w : sockets.World)
      → Flushes fd (wire fd w ++ unsent c) (write_client sockets fuel fd c w)
  unfolding write_client
  write-Flushes zero fd c w = tt
  write-Flushes (suc fuel) fd c w =
      let w' = (sockets.send fd (unsent c) w).1 in
      let all = wire fd w ++ unsent c in
      write_intro sockets (Flushes fd all) fuel fd c w
        (λ e. ap (λ x. wire fd w ++ x) (sym (drop-all c.output_offset c.output (ground arith))))
        (λ x _ e.
          elim x
              as (λ x.
                Step fd (unsent c) w x
                → Flushes fd all (write_on sockets (write_client sockets fuel fd) c x w')) [
                  | broken ↦ λ s. (unsent c, ap (λ x. x ++ unsent c) s)
                  | later ↦ λ s. ap (λ x. x ++ unsent c) s
                  | go_on n ↦ λ s.
                      subst
                        (λ x. Flushes fd x (
                          write_client sockets fuel fd
                            (record c { output_offset = c.output_offset + n }) w'))
                        (ap (λ x. wire fd w' ++ x) (drop-drop c.output_offset n c.output) ∙ s)
                        (write-Flushes fuel fd (record c { output_offset = c.output_offset + n })
                          w')
                ]
            (subst (Step fd (unsent c) w) e
              (send-Step fd (unsent c) w (sockets.send fd (unsent c) w).0 refl)))

  -- When write_client returns 0, what was sent on the descriptor and what is still unsent are
  -- together what they were before, and when it returns -1 what was sent is a beginning of it,
  -- provided that send() counts what it sends and sends nothing when it fails.
  pub write_client_complete :
      (fuel fd : ℕ) (c : IpcClient) (w : sockets.World) (r : Option IpcClient) (w' : sockets.World)
      → write_client sockets fuel fd c w ≡ some (r, w')
      → Flushes fd (wire fd w ++ unsent c) (some (r, w'))
  write_client_complete fuel fd c w r w' h =
      subst (Flushes fd (wire fd w ++ unsent c)) h (write-Flushes fuel fd c w)

sent_some :
    (r : Sent) (n : ℕ) → r ≢ send_failed eintr → after_write r ≡ go_on n → (1 ≤ n) × (r ≡ sent n)
unfolding after_write
sent_some (send_failed eintr) n k h = absurd (k refl)
sent_some (send_failed x) n k h = absurd (ground arith)
sent_some (sent zero) n k h = absurd (ground arith)
sent_some (sent (suc m)) n k h = (ground arith, ground arith)

module _ (sockets : Sockets)
    (uninterrupted : (fd : ℕ) (b : Bytes) (w : sockets.World)
      → (sockets.send fd b w).0 ≢ send_failed eintr)
    (counts : (fd : ℕ) (b : Bytes) (w : sockets.World) (n : ℕ)
      → (sockets.send fd b w).0 ≡ sent n
      → n ≤ length b) where
  abbrev Returns : Option (Option IpcClient × sockets.World) → Type 0
  Returns r = (x : Option IpcClient × sockets.World) × (r ≡ some x)

  -- A call of write_client, with no more bytes counted as sent than there are, returns where
  -- send() is never interrupted and counts no more bytes than it is given: one turn more than
  -- there are unsent bytes is enough.
  pub write_client_ends :
      (fuel fd : ℕ) (c : IpcClient) (w : sockets.World)
      → c.output_offset ≤ length c.output
      → length c.output < c.output_offset + fuel
      → (r : Option IpcClient × sockets.World) × (write_client sockets fuel fd c w ≡ some r)
  unfolding write_client
  write_client_ends zero fd c w l h = absurd (omega (arith, l, h))
  write_client_ends (suc fuel) fd c w l h =
      let w' = (sockets.send fd (unsent c) w).1 in
      write_intro sockets Returns fuel fd c w (λ _. (_, refl))
        (λ x _ e.
          elim x
              as (λ x.
                (after_write (sockets.send fd (unsent c) w).0 ≡ x)
                → Returns (write_on sockets (write_client sockets fuel fd) c x w')) [
                  | broken ↦ λ _. ((none, w'), refl)
                  | later ↦ λ _. ((some c, w'), refl)
                  | go_on n ↦ λ k.
                      let (more, all) =
                        sent_some (sockets.send fd (unsent c) w).0 n (uninterrupted fd (unsent c) w)
                          k in
                      let fits = counts fd (unsent c) w n all in
                      write_client_ends fuel fd (record c { output_offset = c.output_offset + n })
                        w' (omega (arith, l, fits, length-drop c.output_offset c.output))
                        (omega (arith, h, more))
                ]
            e)
