-- ===== src/Ctl/Whole.antt =====
-- That the client (src/app/ctl.c) sends the whole of its request.
use sweet_dawn.Base.{
  ℕ, zero, suc, ◌≡◌, ◌∙◌, refl, sym, ap, arith, Bool, true, false, Option, none, some, [], ◌∷◌,
  ◌++◌, take, drop, subst, append_assoc, append-nil, take-append-drop, some-eq,
}
use sweet_dawn.Os.{eintr, Sent, send_failed, sent}
use sweet_dawn.Protocol.{Bytes}
use sweet_dawn.Ctl.{Net, after_send, envoyer_tout}

-- What was sent on a descriptor: send() counts what it sends, and sends nothing when it is interrupted.
pub record Wire (net : Net) (wire : ℕ → net.World → Bytes) : Type 0 where
  pub counts :
      (fd : ℕ) (b : Bytes) (w : net.World) (n : ℕ)
      → (net.send fd b w).0 ≡ sent n
      → wire fd (net.send fd b w).1 ≡ wire fd w ++ take n b
  pub interrupted :
      (fd : ℕ) (b : Bytes) (w : net.World)
      → (net.send fd b w).0 ≡ send_failed eintr
      → wire fd (net.send fd b w).1 ≡ wire fd w

module _ (net : Net) (wire : ℕ → net.World → Bytes) (law : Wire net wire) where
  open net use {World}

  abbrev Sends : ℕ → Bytes → Option (Bool × World) → Type 0
  Sends fd all none = Unit
  Sends fd all (some (done, w)) = done ≡ true → wire fd w ≡ all

  stepped :
      (fd : ℕ) (b : Bytes) (w : World) (r : Sent) (n : ℕ)
      → (net.send fd b w).0 ≡ r
      → after_send r ≡ some n
      → wire fd (net.send fd b w).1 ++ drop n b ≡ wire fd w ++ b
  unfolding after_send
  stepped fd b w (send_failed eintr) n e h =
      subst (λ k. wire fd (net.send fd b w).1 ++ drop k b ≡ wire fd w ++ b) (some-eq 0 n h)
        (ap (λ x. x ++ b) (law.interrupted fd b w e))
  stepped fd b w (send_failed _) n e h = absurd (ground arith)
  stepped fd b w (sent zero) n e h = absurd (ground arith)
  stepped fd b w (sent (suc m)) n e h =
      subst (λ k. wire fd (net.send fd b w).1 ++ drop k b ≡ wire fd w ++ b) (some-eq (suc m) n h)
        (ap (λ x. x ++ drop (suc m) b) (law.counts fd b w (suc m) e)
          ∙ append_assoc (wire fd w) (take (suc m) b) (drop (suc m) b)
          ∙ ap (λ x. wire fd w ++ x) (take-append-drop (suc m) b))

  behind-Sends :
      (again : Bytes → World → Option (Bool × World)) (fd : ℕ) (b : Bytes) (w : World)
      (o : Option ℕ)
      → ((x : Bytes) (u : World) → Sends fd (wire fd u ++ x) (again x u))
      → after_send (net.send fd b w).0 ≡ o
      → Sends fd (wire fd w ++ b) (elim o [
        | none ↦ some (false, (net.send fd b w).1)
        | some n ↦ again (drop n b) (net.send fd b w).1
      ])
  behind-Sends again fd b w none v e = λ h. absurd (ground arith)
  behind-Sends again fd b w (some n) v e =
      let w' = (net.send fd b w).1 in
      subst (λ all. Sends fd all (again (drop n b) w'))
        (stepped fd b w (net.send fd b w).0 n refl e) (v (drop n b) w')

  envoyer-Sends :
      (fuel fd : ℕ) (b : Bytes) (w : World)
      → Sends fd (wire fd w ++ b) (envoyer_tout net fuel fd b w)
  unfolding envoyer_tout
  envoyer-Sends fuel fd [] w = λ _. sym (append-nil (wire fd w))
  envoyer-Sends zero fd (x ∷ b) w = tt
  envoyer-Sends (suc fuel) fd (x ∷ b) w =
      behind-Sends (envoyer_tout net fuel fd) fd (x ∷ b) w (after_send (net.send fd (x ∷ b) w).0)
        (λ y u. envoyer-Sends fuel fd y u) refl

  -- All the bytes are on the link behind what was there when `envoyer_tout` returns 0.
  pub envoyer_tout_complete :
      (fuel fd : ℕ) (b : Bytes) (w w' : World)
      → envoyer_tout net fuel fd b w ≡ some (true, w')
      → wire fd w' ≡ wire fd w ++ b
  envoyer_tout_complete fuel fd b w w' h =
      subst (Sends fd (wire fd w ++ b)) h (envoyer-Sends fuel fd b w) refl
