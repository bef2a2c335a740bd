-- ===== src/Transport/Send.antt =====
-- What `aml_send` (src/aml/transport.c) puts on the link. `transmitted` reads from a world the bytes
-- that went out so far; its two laws are what send() promises.
use sweet_dawn.Base.{
  ℕ, zero, suc, ◌+◌, ◌≤◌, true, Option, none, some, [], ◌∷◌, ◌++◌, ◌≡◌, ◌≢◌, ◌⊎◌, refl, sym, ◌∙◌,
  ap, inl, inr, arith, length, subst, take, drop, append-nil, append_assoc, take-append-drop, ltb,
}
use sweet_dawn.Os.{Os, Errno, eintr, Sent, send_failed, sent}
use sweet_dawn.Protocol.{Bytes}
use sweet_dawn.Transport.{Code, ok, link_error, AmlConnection, after_send, send_loop, aml_send}

-- `n` bytes, and then `m` of the rest.
take-drop : (n m : ℕ) (b : Bytes) → n ≤ length b → take n b ++ take m (drop n b) ≡ take (n + m) b
take-drop zero m b h = ap (λ k. take k b) (omega arith)
take-drop (suc n) m [] h = elim h [ ]
take-drop (suc n) m (x ∷ b) h =
    let e : suc n + m ≡ suc (n + m) = omega arith in
    rw e (ap (λ t. x ∷ t) (take-drop n m b (omega arith)))

take-all : (n : ℕ) (b : Bytes) → length b ≤ n → take n b ≡ b
take-all zero [] h = refl
take-all (suc n) [] h = refl
take-all zero (x ∷ b) h = absurd (omega arith)
take-all (suc n) (x ∷ b) h = ap (λ t. x ∷ t) (take-all n b (omega arith))

link_error-ne-ok : (e : Errno) → link_error e ≢ ok
link_error-ne-ok e = ground arith

pub positive : (x : ℕ) (b : Bytes) → ltb 0 (length (x ∷ b)) ≡ true
positive x b = ground arith

module _ (os : Os) (transmitted : os.World → Bytes)
    (send_counts : (fd : ℕ) (b : Bytes) (w : os.World) (n : ℕ)
      → (os.send fd b w).0 ≡ sent n
      → (n ≤ length b) × (transmitted (os.send fd b w).1 ≡ transmitted w ++ take n b))
    (failure_sends_nothing : (fd : ℕ) (b : Bytes) (w : os.World) (e : Errno)
      → (os.send fd b w).0 ≡ send_failed e
      → transmitted (os.send fd b w).1 ≡ transmitted w) where
  -- One send() that ends the loop sent nothing; one that does not sent what it counts.
  Step : ℕ → Bytes → os.World → Code ⊎ ℕ → Type 0
  Step fd b w (inl code) = (transmitted (os.send fd b w).1 ≡ transmitted w) × (code ≢ ok)
  Step fd b w (inr n) =
      (transmitted (os.send fd b w).1 ≡ transmitted w ++ take n b) × (n ≤ length b)

  send-Step :
      (fd : ℕ) (b : Bytes) (w : os.World) (r : Sent)
      → (os.send fd b w).0 ≡ r
      → Step fd b w (after_send r)
  unfolding Step after_send
  send-Step fd b w (sent zero) e =
      (rw (append-nil (transmitted w)) at (send_counts fd b w 0 e).1, λ h. cc)
  send-Step fd b w (sent (suc n)) e = let (le, out) = send_counts fd b w (suc n) e in (out, le)
  send-Step fd b w (send_failed eintr) e =
      (failure_sends_nothing fd b w eintr e ∙ sym (append-nil (transmitted w)), omega arith)
  send-Step fd b w (send_failed x) e = (failure_sends_nothing fd b w x e, link_error-ne-ok x)

  -- Some first bytes went out, and all of them if the code is 0.
  Went : Bytes → os.World → Option (Code × os.World) → Type 0
  Went b w none = Unit
  Went b w (some (code, w')) =
      (n : ℕ) × (transmitted w' ≡ transmitted w ++ take n b) × (code ≡ ok → take n b ≡ b)

  Went-after :
      (n : ℕ) (b : Bytes) (w w' : os.World) (r : Option (Code × os.World))
      → n ≤ length b
      → transmitted w' ≡ transmitted w ++ take n b
      → Went (drop n b) w' r
      → Went b w r
  unfolding Went
  Went-after n b w w' none h e v = v
  Went-after n b w w' (some (code, w'')) h e (m, out, all) = (
    n + m,
    out
        ∙ ap (λ t. t ++ take m (drop n b)) e
        ∙ append_assoc (transmitted w) (take n b) (take m (drop n b))
        ∙ ap (λ t. transmitted w ++ t) (take-drop n m b h),
    λ x. sym (take-drop n m b h) ∙ ap (λ t. take n b ++ t) (all x) ∙ take-append-drop n b,
  )

  send_loop-Went : (fuel fd : ℕ) (b : Bytes) (w : os.World) → Went b w (send_loop os fuel fd b w)
  unfolding send_loop
  send_loop-Went zero fd b w = unfold Went in tt
  send_loop-Went (suc fuel) fd [] w =
      unfold Went in (0, sym (append-nil (transmitted w)), λ x. refl)
  send_loop-Went (suc fuel) fd (x ∷ b) w =
      go (λ n. send_loop-Went fuel fd (drop n (x ∷ b)) (os.send fd (x ∷ b) w).1)
        (after_send (os.send fd (x ∷ b) w).0) refl
        (send-Step fd (x ∷ b) w (os.send fd (x ∷ b) w).0 refl)
    where
      go :
          ((n : ℕ)
            → Went
                (drop n (x ∷ b))
                (os.send fd (x ∷ b) w).1
                (send_loop os fuel fd (drop n (x ∷ b)) (os.send fd (x ∷ b) w).1))
          → (r : Code ⊎ ℕ) → after_send (os.send fd (x ∷ b) w).0 ≡ r
          → Step fd (x ∷ b) w r
          → Went (x ∷ b) w (send_loop os (suc fuel) fd (x ∷ b) w)
      go ih (inl code) e v =
          rw (positive x b, e, send_loop)
            (unfold Went Step in (0, v.0 ∙ sym (append-nil (transmitted w)), λ h. absurd (v.1 h)))
      go ih (inr n) e v =
          let w' = (os.send fd (x ∷ b) w).1 in
          rw (positive x b, e, send_loop)
            (unfold Step in
              Went-after n (x ∷ b) w w' (send_loop os fuel fd (drop n (x ∷ b)) w') v.1 v.0 (ih n))

  -- A return of aml_send on an open socket has put some first bytes of the data on the link and
  -- nothing else, and all of them when the code is 0, provided that send() counts what it sends
  -- and sends nothing when it fails.
  pub send_complete :
      (fuel fd : ℕ) (c : AmlConnection) (b : Bytes) (w w' : os.World) (code : Code)
      → c.socket_fd ≡ some fd
      → aml_send os fuel c b w ≡ some (code, w')
      → (n : ℕ) × (transmitted w' ≡ transmitted w ++ take n b) × (code ≡ ok → take n b ≡ b)
  unfolding aml_send Went
  send_complete fuel fd c b w w' code e h =
      subst (Went b w) (rw (e, aml_send) at h) (send_loop-Went fuel fd b w)
