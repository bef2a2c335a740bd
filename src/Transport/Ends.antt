-- ===== src/Transport/Ends.antt =====
-- That the loops of `aml_receive` and `aml_send` (src/aml/transport.c) end, on a system where the
-- clock does not go back, poll() waits as long as it is told, and the calls are woken up or
-- interrupted only so many times.
use sweet_dawn.Base.{
  ℕ, zero, suc, ◌+◌, ◌-◌, ◌≤◌, ◌<◌, Bool, true, false, not, ◌&&◌, Option, none, some, [], ◌∷◌, ◌≡◌,
  ◌≢◌, ◌⊎◌, inl, inr, refl, arith, length, drop, length-drop, Bool-cases, if_intro, ltb, leb, subst,
}
use sweet_dawn.Os.{
  Os, eintr, eagain, Polled, poll_failed, poll_timeout, poll_ready, Received, recv_failed,
  recv_closed, recv_bytes, Sent, send_failed, sent,
}
use sweet_dawn.Protocol.{Bytes, max_frame_size, parser_init, parser_feed}
use sweet_dawn.Protocol.Reads.{next_summary}
use sweet_dawn.Transport.{
  Code, ok, err_generic, AmlConnection, Round, stop, again, remaining, after_recv, after_poll,
  after_round, await, round, receive_loop, aml_receive, rx_buffer_size, after_send, send_loop,
  aml_send, err_protocol,
}
use sweet_dawn.Transport.Send.{positive}
use sweet_dawn.Transport.Receive.{IsCalm, GoodRound, round_good}

-- A system that ends. `wakes` is how many times a call may still be woken up or interrupted.
pub record Finite (os : Os) : Type 0 where
  pub time : os.World → ℕ
  pub wakes : os.World → ℕ
  -- The clock does not go back.
  pub clock_on :
      (w : os.World)
      → (time w ≤ (os.clock w).0)
        × ((os.clock w).0 ≤ time (os.clock w).1)
        × (wakes (os.clock w).1 ≤ wakes w)
  -- poll() returns 0 only when the time is over.
  pub poll_over :
      (fd t : ℕ) (w : os.World)
      → (os.poll fd (some t) w).0 ≡ poll_timeout
      → (time w + t ≤ time (os.poll fd (some t) w).1) × (wakes (os.poll fd (some t) w).1 ≤ wakes w)
  pub poll_woken :
      (fd t : ℕ) (w : os.World)
      → (os.poll fd (some t) w).0 ≢ poll_timeout
      → (time w ≤ time (os.poll fd (some t) w).1) × (wakes (os.poll fd (some t) w).1 < wakes w)
  pub recv_on :
      (fd n : ℕ) (w : os.World)
      → (time w ≤ time (os.recv fd n w).1) × (wakes (os.recv fd n w).1 ≤ wakes w)
  -- send() takes no more than it is given, and is interrupted only so many times.
  pub send_on :
      (fd : ℕ) (b : Bytes) (w : os.World) (n : ℕ)
      → (os.send fd b w).0 ≡ sent n
      → (n ≤ length b) × (wakes (os.send fd b w).1 ≤ wakes w)
  pub send_interrupted :
      (fd : ℕ) (b : Bytes) (w : os.World)
      → (os.send fd b w).0 ≡ send_failed eintr
      → wakes (os.send fd b w).1 < wakes w

abbrev unpolled : Bool → ℕ
unpolled true = 0
unpolled false = 1

Polled-cases : (p : Polled) → (p ≡ poll_timeout) ⊎ (p ≢ poll_timeout)
Polled-cases (poll_failed e) = inr (λ h. cc)
Polled-cases poll_timeout = inl refl
Polled-cases (poll_ready r e) = inr (λ h. cc)

module _ (os : Os) (finite : Finite os) where
  open os use {World}

  -- How long a loop may still last until the deadline `d`.
  abbrev left : ℕ → World → ℕ
  left d w = finite.wakes w + (d - finite.time w)

  abbrev Shrinks : ℕ → ℕ → Round World → Type 0
  Shrinks d m (stop code f c w) = Unit
  Shrinks d m (again c w) = left d w < m

  abbrev RoundShrinks : ℕ → ℕ → Option (Round World) → Type 0
  RoundShrinks d m none = Unit
  RoundShrinks d m (some r) = Shrinks d m r

  after_recv-Shrinks :
      (d m : ℕ) (c : AmlConnection) (r : Received) (w : World)
      → left d w < m
      → Shrinks d m (after_recv os c (r, w))
  unfolding after_recv
  after_recv-Shrinks d m c recv_closed w h = tt
  after_recv-Shrinks d m c (recv_bytes b) w h = fed (parser_feed c.parser b)
    where
      fed :
          (o : Option Bytes)
          → Shrinks d m (elim o [
            | none ↦ stop err_protocol [] (record c { parser = parser_init }) w
            | some parser ↦ again (record c { parser = parser }) w
          ])
      fed none = tt
      fed (some parser) = h
  after_recv-Shrinks d m c (recv_failed eintr) w h = h
  after_recv-Shrinks d m c (recv_failed eagain) w h = h
  after_recv-Shrinks d m c (recv_failed e) w h = tt

  after_poll-Shrinks :
      (d m : ℕ) (c : AmlConnection) (fd : ℕ) (p : Polled) (w : World)
      → left d w < m
      → Shrinks d m (after_poll os c fd (p, w))
  unfolding after_poll
  after_poll-Shrinks d m c fd (poll_failed eintr) w h = h
  after_poll-Shrinks d m c fd (poll_failed _) w h = tt
  after_poll-Shrinks d m c fd poll_timeout w h = h
  after_poll-Shrinks d m c fd (poll_ready readable error) w h =
      if_intro (Shrinks d m) (error && not readable) (λ _. tt)
        (λ _.
          after_recv-Shrinks d m c (os.recv fd rx_buffer_size w).0 (os.recv fd rx_buffer_size w).1
            (omega (arith, finite.recv_on fd rx_buffer_size w)))

  poll_left :
      (d fd t now : ℕ) (w w' : World)
      → finite.time w ≤ now
      → now ≤ finite.time w'
      → finite.wakes w' ≤ finite.wakes w
      → (left d (os.poll fd (some t) w').1 < left d w + 1)
        × (0 < t → now < d → left d (os.poll fd (some t) w').1 < left d w)
  poll_left d fd t now w w' h k l = elim (Polled-cases (os.poll fd (some t) w').0) [
    | inl e ↦ let (passed, same) = finite.poll_over fd t w' e in (omega arith, λ x y. omega arith)
    | inr e ↦ let (passed, fewer) = finite.poll_woken fd t w' e in (omega arith, λ x y. omega arith)
  ]

  await-Shrinks :
      (d now : ℕ) (polled : Bool) (c : AmlConnection) (fd : ℕ) (w w' : World)
      → finite.time w ≤ now
      → now ≤ finite.time w'
      → finite.wakes w' ≤ finite.wakes w
      → Shrinks d (left d w + unpolled polled) (await os c fd (remaining (some d) now polled) w')
  unfolding await
  await-Shrinks d now polled c fd w w' h k l =
      let m = left d w + unpolled polled in
      let waits : (t : ℕ)
          → left d (os.poll fd (some t) w').1 < m
          → Shrinks d m (await os c fd (some (some t)) w') =
        λ t x.
          after_poll-Shrinks d m c fd (os.poll fd (some t) w').0 (os.poll fd (some t) w').1 x in
      if_intro (λ x. Shrinks d m (await os c fd x w')) (leb d now)
        (λ over. elim (Bool-cases polled) [
          | inl e ↦ rw (e, await) tt
          | inr e ↦
              rw (e, await)
                (after_poll-Shrinks d (left d w + 1) c fd (os.poll fd (some 0) w').0
                  (os.poll fd (some 0) w').1 (poll_left d fd 0 now w w' h k l).0)
        ])
        (λ on.
          if_intro (λ x. Shrinks d m (await os c fd x w')) (ltb 1000000 (d - now))
            (λ far. waits 1000000 (
              omega
                (arith, (poll_left d fd 1000000 now w w' h k l).1 (omega arith) (ground arith))))
            (λ near. waits (d - now) (
              omega (
                arith,
                (poll_left d fd (d - now) now w w' h k l).1 (ground arith) (ground arith),
              ))))

  round-Shrinks :
      (capacity fd d : ℕ) (polled : Bool) (c : AmlConnection) (w : World)
      → max_frame_size ≤ capacity
      → RoundShrinks d (left d w + unpolled polled) (round os capacity fd (some d) polled c w)
  unfolding round
  round-Shrinks capacity fd d polled c w h =
      let (on, read, fewer) = finite.clock_on w in
      elim (next_summary capacity c.parser h) [
        | inl (f, q, x, v, fits, short) ↦ rw (x, round) tt
        | inr (q, x, short) ↦
            rw (x, round)
              (await-Shrinks d (os.clock w).0 polled (record c { parser = q }) fd w (os.clock w).1
                on read fewer)
      ]

  after_round-ends :
      (d m fuel : ℕ) (r : Round World)
      (loop : AmlConnection → World → Option (Code × Bytes × AmlConnection × World)) (fd : Option ℕ)
      → Shrinks d m r
      → GoodRound fd r
      → ((c : AmlConnection) (w : World)
          → IsCalm c
          → left d w < m
          → (x : Code × Bytes × AmlConnection × World) × (loop c w ≡ some x))
      → (x : Code × Bytes × AmlConnection × World) × (after_round os (some r) loop ≡ some x)
  unfolding after_round
  after_round-ends d m fuel (stop code f c w) loop fd s good k = ((code, f, c, w), refl)
  after_round-ends d m fuel (again c w) loop fd s good k = k c w good.0 s

  loop-ends :
      (fuel capacity fd d : ℕ) (polled : Bool) (c : AmlConnection) (w : World)
      → max_frame_size ≤ capacity
      → IsCalm c
      → left d w + unpolled polled < fuel
      → (x : Code × Bytes × AmlConnection × World) × (receive_loop os fuel capacity fd
            (some d)
            polled
            c
            w
          ≡ some x)
  unfolding receive_loop
  loop-ends zero capacity fd d polled c w h k l = absurd (omega arith)
  loop-ends (suc fuel) capacity fd d polled c w h k l =
      let (r, x, good) = round_good os capacity fd (some d) polled c w h k in
      rw x (
        after_round-ends d (left d w + unpolled polled) fuel r
          (receive_loop os fuel capacity fd (some d) true) c.socket_fd
          (subst (RoundShrinks d (left d w + unpolled polled)) x
            (round-Shrinks capacity fd d polled c w h))
          good (λ c' w' calm less. loop-ends fuel capacity fd d true c' w' h calm (omega arith)))

  -- A call of aml_receive with a timeout returns, with an output of 259 bytes or more and a parser
  -- of at most 514 bytes, on a system that can wake it up only so many times: as many turns as the
  -- timeout has milliseconds, one for each time that it may be woken up, and two more are enough.
  pub receive_ends :
      (fuel : ℕ) (c : AmlConnection) (capacity timeout : ℕ) (w : World)
      → max_frame_size ≤ capacity
      → IsCalm c
      → finite.wakes w + timeout + 2 ≤ fuel
      → (x : Code × Bytes × AmlConnection × World) × (aml_receive os fuel c capacity
            (some timeout)
            w
          ≡ some x)
  unfolding aml_receive
  receive_ends fuel c capacity timeout w h k l = ends c.socket_fd refl
    where
      ends :
          (fd : Option ℕ)
          → c.socket_fd ≡ fd
          → (x : Code × Bytes × AmlConnection × World) × (aml_receive os fuel c capacity
                (some timeout)
                w
              ≡ some x)
      ends none e = rw (e, aml_receive) ((err_generic, [], c, w), refl)
      ends (some fd) e =
          let (now, w') = os.clock w in
          let (on, read, fewer) = finite.clock_on w in
          rw (e, aml_receive)
            (loop-ends fuel capacity fd (now + timeout) false c w' h k (omega arith))

  -- Behind one send(), fewer bytes are left or fewer interruptions.
  abbrev Goes : ℕ → ℕ → Bytes → World → Code ⊎ ℕ → Type 0
  Goes fuel fd b w (inl code) = Unit
  Goes fuel fd b w (inr n) = length (drop n b) + finite.wakes (os.send fd b w).1 < fuel

  after_send-Goes :
      (fuel fd : ℕ) (b : Bytes) (w : World) (r : Sent)
      → (os.send fd b w).0 ≡ r
      → length b + finite.wakes w ≤ fuel
      → Goes fuel fd b w (after_send r)
  unfolding after_send
  after_send-Goes fuel fd b w (sent zero) e h = tt
  after_send-Goes fuel fd b w (sent (suc n)) e h =
      omega (arith, finite.send_on fd b w (suc n) e, length-drop (suc n) b)
  after_send-Goes fuel fd b w (send_failed eintr) e h =
      omega (arith, finite.send_interrupted fd b w e, length-drop 0 b)
  after_send-Goes fuel fd b w (send_failed x) e h = tt

  send_loop-ends :
      (fuel fd : ℕ) (b : Bytes) (w : World)
      → length b + finite.wakes w < fuel
      → (x : Code × World) × (send_loop os fuel fd b w ≡ some x)
  unfolding send_loop
  send_loop-ends zero fd b w h = absurd (omega arith)
  send_loop-ends (suc fuel) fd [] w h = ((ok, w), refl)
  send_loop-ends (suc fuel) fd (y ∷ b) w h =
      ends (λ n. send_loop-ends fuel fd (drop n (y ∷ b)) (os.send fd (y ∷ b) w).1)
        (after_send (os.send fd (y ∷ b) w).0) refl
        (after_send-Goes fuel fd (y ∷ b) w (os.send fd (y ∷ b) w).0 refl (omega arith))
    where
      ends :
          ((n : ℕ)
            → length (drop n (y ∷ b)) + finite.wakes (os.send fd (y ∷ b) w).1 < fuel
            → (x : Code × World) × (send_loop os fuel fd (drop n (y ∷ b)) (os.send fd (y ∷ b) w).1
                ≡ some x))
          → (r : Code ⊎ ℕ) → after_send (os.send fd (y ∷ b) w).0 ≡ r
          → Goes fuel fd (y ∷ b) w r
          → (x : Code × World) × (send_loop os (suc fuel) fd (y ∷ b) w ≡ some x)
      ends ih (inl code) e v =
          rw (positive y b, e, send_loop) ((code, (os.send fd (y ∷ b) w).1), refl)
      ends ih (inr n) e v = rw (positive y b, e, send_loop) (ih n v)

  -- A call of aml_send returns on a system that can interrupt it only so many times: as many turns
  -- as there are bytes, one for each time that it may be interrupted, and one more are enough.
  pub send_ends :
      (fuel : ℕ) (c : AmlConnection) (b : Bytes) (w : World)
      → length b + finite.wakes w < fuel
      → (x : Code × World) × (aml_send os fuel c b w ≡ some x)
  unfolding aml_send
  send_ends fuel c b w h = ends c.socket_fd refl
    where
      ends :
          (fd : Option ℕ)
          → c.socket_fd ≡ fd
          → (x : Code × World) × (aml_send os fuel c b w ≡ some x)
      ends none e = rw (e, aml_send) ((err_generic, w), refl)
      ends (some fd) e = rw (e, aml_send) (send_loop-ends fuel fd b w h)
