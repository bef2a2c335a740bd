-- ===== src/Transport/Receive.antt =====
-- What `aml_receive` (src/aml/transport.c) guarantees, whatever the system answers.
use sweet_dawn.Base.{
  ℕ, zero, suc, ◌+◌, ◌≤◌, ◌<◌, Bool, true, false, not, ◌&&◌, Option, none, some, [], ◌≡◌, ◌≢◌, refl,
  inl, inr, arith, length, length-append, Bool-cases, subst,
}
use sweet_dawn.Os.{
  Os, Errno, eintr, eagain, Polled, poll_failed, poll_timeout, poll_ready, Received, recv_failed,
  recv_closed, recv_bytes,
}
use sweet_dawn.Protocol.{Bytes, max_frame_size}
use sweet_dawn.Protocol.Extract.{IsFrame}
use sweet_dawn.Protocol.Reads.{next_summary, feed-room}
use sweet_dawn.Transport.{
  Code, ok, err_protocol, AmlConnection, Round, stop, again, link_error, remaining, after_recv,
  after_poll, after_round, await, round, receive_loop, aml_receive, rx_buffer_size,
}

-- A parser that holds no more than what waits for a frame and one read.
abbrev pub IsCalm : AmlConnection → Type 0
IsCalm c = length c.parser ≤ 514

-- What a return of `aml_receive` promises, on a connection whose descriptor is `fd`.
pub record IsSound (fd : Option ℕ) (code : Code) (f : Bytes) (c' : AmlConnection) : Type 0 where
  pub frame : code ≡ ok → IsFrame f
  pub never_full : code ≢ err_protocol
  pub calm : IsCalm c'
  pub same_socket : c'.socket_fd ≡ fd

abbrev pub GoodRound : {W : Type 0} → Option ℕ → Round W → Type 0
GoodRound fd (stop code f c' w) = IsSound fd code f c'
GoodRound fd (again c' w) = IsCalm c' × (c'.socket_fd ≡ fd)

-- The same, of what a call that may run out of fuel returns.
abbrev pub Returns : {W : Type 0} → Option ℕ → Option (Code × Bytes × AmlConnection × W) → Type 0
Returns fd none = Unit
Returns fd (some (code, f, c, w)) = IsSound fd code f c

link_error-IsSound :
    (c : AmlConnection) (e : Errno) → IsCalm c → IsSound c.socket_fd (link_error e) [] c
link_error-IsSound c e h = ground arith

module _ (os : Os) where
  open os use {World}

  after_recv_good :
      (c : AmlConnection) (r : Received) (w : World)
      → length c.parser < max_frame_size
      → ((b : Bytes) → r ≡ recv_bytes b → length b ≤ rx_buffer_size)
      → GoodRound c.socket_fd (after_recv os c (r, w))
  unfolding after_recv
  after_recv_good c recv_closed w h k = ground arith
  after_recv_good c (recv_bytes b) w h k =
      rw (feed-room c.parser b (omega (arith, k b refl)), GoodRound, after_recv)
        (omega (arith, k b refl, length-append c.parser b), refl)
  after_recv_good c (recv_failed eintr) w h k = (omega arith, refl)
  after_recv_good c (recv_failed eagain) w h k = (omega arith, refl)
  after_recv_good c (recv_failed e) w h k = link_error-IsSound c e (omega arith)

  after_poll_good :
      (c : AmlConnection) (fd : ℕ) (p : Polled) (w : World)
      → length c.parser < max_frame_size
      → GoodRound c.socket_fd (after_poll os c fd (p, w))
  unfolding after_poll
  after_poll_good c fd (poll_failed eintr) w h = (omega arith, refl)
  after_poll_good c fd (poll_failed _) w h = ground arith
  after_poll_good c fd poll_timeout w h = (omega arith, refl)
  after_poll_good c fd (poll_ready readable error) w h = elim (Bool-cases (error && not readable)) [
    | inl e ↦ rw (e, GoodRound) (ground arith)
    | inr e ↦ rw e (
        after_recv_good c (os.recv fd rx_buffer_size w).0 (os.recv fd rx_buffer_size w).1 h
          (os.recv_fits fd rx_buffer_size w))
  ]

  await_good :
      (c : AmlConnection) (fd : ℕ) (wait : Option (Option ℕ)) (w : World)
      → length c.parser < max_frame_size
      → GoodRound c.socket_fd (await os c fd wait w)
  unfolding await
  await_good c fd none w h = ground arith
  await_good c fd (some t) w h = after_poll_good c fd (os.poll fd t w).0 (os.poll fd t w).1 h

  -- A round always returns, and promises what the whole call does.
  pub round_good :
      (capacity fd : ℕ) (deadline : Option ℕ) (polled : Bool) (c : AmlConnection) (w : World)
      → max_frame_size ≤ capacity
      → IsCalm c
      → (r : Round World) × (round os capacity fd deadline polled c w ≡ some r)
        × GoodRound c.socket_fd r
  unfolding round
  round_good capacity fd none polled c w h k = elim (next_summary capacity c.parser h) [
    | inl (f, q, x, v, fits, short) ↦
        (stop ok f (record c { parser = q }) w, rw (x, round), ground arith)
    | inr (q, x, short) ↦
        let c' = record c { parser = q } in
        (await os c' fd (some none) w, rw (x, round), await_good c' fd (some none) w short)
  ]
  round_good capacity fd (some d) polled c w h k = elim (next_summary capacity c.parser h) [
    | inl (f, q, x, v, fits, short) ↦
        (stop ok f (record c { parser = q }) w, rw (x, round), ground arith)
    | inr (q, x, short) ↦
        let c' = record c { parser = q } in
        let wait = remaining (some d) (os.clock w).0 polled in
        (
          await os c' fd wait (os.clock w).1,
          rw (x, round),
          await_good c' fd wait (os.clock w).1 short,
        )
  ]

  after_round_sound :
      (fd : Option ℕ) (r : Round World)
      (loop : AmlConnection → World → Option (Code × Bytes × AmlConnection × World))
      → GoodRound fd r
      → ((c : AmlConnection) (w : World) → IsCalm c → Returns c.socket_fd (loop c w))
      → Returns fd (after_round os (some r) loop)
  unfolding after_round
  after_round_sound fd (stop code f c w) loop good k = good
  after_round_sound fd (again c w) loop good k =
      subst (λ x. Returns x (loop c w)) good.1 (k c w good.0)

  loop_sound :
      (fuel capacity fd : ℕ) (deadline : Option ℕ) (polled : Bool) (c : AmlConnection) (w : World)
      → max_frame_size ≤ capacity
      → IsCalm c
      → Returns c.socket_fd (receive_loop os fuel capacity fd deadline polled c w)
  unfolding receive_loop
  loop_sound zero capacity fd deadline polled c w h k = tt
  loop_sound (suc fuel) capacity fd deadline polled c w h k =
      let (r, x, good) = round_good capacity fd deadline polled c w h k in
      rw x (
        after_round_sound c.socket_fd r (receive_loop os fuel capacity fd deadline true) good
          (λ c' w' calm. loop_sound fuel capacity fd deadline true c' w' h calm))

  pub receive-Returns :
      (fuel : ℕ) (c : AmlConnection) (capacity : ℕ) (timeout : Option ℕ) (w : World)
      → max_frame_size ≤ capacity
      → IsCalm c
      → Returns c.socket_fd (aml_receive os fuel c capacity timeout w)
  unfolding aml_receive
  receive-Returns fuel c capacity timeout w h k = go c.socket_fd refl timeout
    where
      go :
          (fd : Option ℕ)
          → c.socket_fd ≡ fd
          → (timeout : Option ℕ) → Returns c.socket_fd (aml_receive os fuel c capacity timeout w)
      go none e timeout =
          rw (e, aml_receive)
            (record { frame = λ x. cc; never_full = λ x. cc; calm = k; same_socket = e })
      go (some fd) e none =
          rw (e, aml_receive)
            (subst (λ x. Returns x (receive_loop os fuel capacity fd none false c w)) e
              (loop_sound fuel capacity fd none false c w h k))
      go (some fd) e (some t) =
          let (now, w') = os.clock w in
          rw (e, aml_receive)
            (subst (λ x. Returns x (receive_loop os fuel capacity fd (some (now + t)) false c w')) e
              (loop_sound fuel capacity fd (some (now + t)) false c w' h k))

  -- A return of aml_receive, with an output of 259 bytes or more and a parser of at most 514
  -- bytes, has with the code 0 a well-formed frame, never the code of a full buffer, leaves at
  -- most 514 bytes in the parser, and keeps the socket.
  pub receive-IsSound :
      (fuel : ℕ) (c : AmlConnection) (capacity : ℕ) (timeout : Option ℕ) (w : World) (code : Code)
      (f : Bytes) (c' : AmlConnection) (w' : World)
      → max_frame_size ≤ capacity
      → IsCalm c
      → aml_receive os fuel c capacity timeout w ≡ some (code, f, c', w')
      → IsSound c.socket_fd code f c'
  receive-IsSound fuel c capacity timeout w code f c' w' h k e =
      subst (Returns c.socket_fd) e (receive-Returns fuel c capacity timeout w h k)
