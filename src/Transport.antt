-- ===== src/Transport.antt =====
-- The RFCOMM link (src/aml/transport.c and transport.h): connecting, sending all of a frame,
-- waiting for a frame, and closing. The system is the parameter `os` of the sections. Messages on
-- stderr and stdout are left out. A descriptor of -1 is `none`; the loops run on fuel, and `none`
-- is out of fuel.
pub mod Receive
pub mod Send
pub mod Ends
use sweet_dawn.Base.{
  ℕ, zero, suc, ◌+◌, ◌-◌, Bool, true, false, not, ◌&&◌, Option, none, some, [], ◌⊎◌, inl, inr, ltb,
  leb, if◌then◌else◌, length, drop,
}
use sweet_dawn.Os.{
  Errno, eintr, eagain, epipe, econnreset, enotconn, econnaborted, etimedout, ehostdown,
  ehostunreach, Polled, poll_failed, poll_timeout, poll_ready, Received, recv_failed, recv_closed,
  recv_bytes, Sent, send_failed, sent, Os,
}
use sweet_dawn.Protocol.{Bytes, parser_init, parser_feed, parser_next, extracted, waiting, overflow}

-- 0 and the `AML_ERR_*` codes.
pub data Code : Type 0 where
  ok err_generic err_timeout err_disconnected err_io err_protocol : Code

-- `AML_CONNECT_TIMEOUT_MS` and `AML_RX_BUFFER_SIZE`
abbrev pub connect_timeout_ms : ℕ
connect_timeout_ms = 8000

abbrev pub rx_buffer_size : ℕ
rx_buffer_size = 256

-- `AmlConnection`
pub record AmlConnection : Type 0 where
  pub socket_fd : Option ℕ
  pub parser : Bytes

-- The part of `AmlConfig` that the link uses: local and remote address, and the channel.
pub record AmlConfig : Type 0 where
  pub name : Bytes
  pub aml_mac : Bytes
  pub aml_chn : ℕ
  pub blt_mac : Bytes

unfoldable pub is_eintr : Errno → Bool
is_eintr eintr = true
is_eintr _ = false

-- `errno_means_disconnected`
pub errno_means_disconnected : Errno → Bool
errno_means_disconnected epipe = true
errno_means_disconnected econnreset = true
errno_means_disconnected enotconn = true
errno_means_disconnected econnaborted = true
errno_means_disconnected etimedout = true
errno_means_disconnected ehostdown = true
errno_means_disconnected ehostunreach = true
errno_means_disconnected _ = false

-- What a failed send() or recv() returns.
abbrev pub link_error : Errno → Code
link_error e = if errno_means_disconnected e then err_disconnected else err_io

-- The wait that is left before the deadline, at most a million milliseconds; `none` is over.
abbrev pub remaining : Option ℕ → ℕ → Bool → Option (Option ℕ)
remaining none now polled = some none
remaining (some deadline) now polled =
    if leb deadline now
    then if polled then none else some (some 0)
    else if ltb 1000000 (deadline - now)
    then some (some 1000000)
    else some (some (deadline - now))

-- What a round of the loop of `aml_receive` does: stop with a code and a frame, or go round.
pub data Round (W : Type 0) : Type 0 where
  stop : Code → Bytes → AmlConnection → W → Round W
  again : AmlConnection → W → Round W

-- `AmlConnection` before and without a link.
abbrev pub unconnected : AmlConnection
unconnected = record { socket_fd = none; parser = parser_init }

-- Behind send(): a code to return, or how many bytes went out.
after_send : Sent → Code ⊎ ℕ
after_send (send_failed eintr) = inr 0
after_send (send_failed e) = inl (link_error e)
after_send (sent zero) = inl err_disconnected
after_send (sent (suc n)) = inr (suc n)

module _ (os : Os) where
  open os use {World}

  -- Behind recv().
  after_recv : AmlConnection → Received × World → Round World
  after_recv c (recv_closed, w) = stop err_disconnected [] c w
  after_recv c (recv_failed eintr, w) = again c w
  after_recv c (recv_failed eagain, w) = again c w
  after_recv c (recv_failed e, w) = stop (link_error e) [] c w
  after_recv c (recv_bytes b, w) = elim (parser_feed c.parser b) [
    | none ↦ stop err_protocol [] (record c { parser = parser_init }) w
    | some parser ↦ again (record c { parser = parser }) w
  ]

  -- Behind poll().
  after_poll : AmlConnection → ℕ → Polled × World → Round World
  unfolding after_recv
  after_poll c fd (poll_failed eintr, w) = again c w
  after_poll c fd (poll_failed _, w) = stop err_io [] c w
  after_poll c fd (poll_timeout, w) = again c w
  after_poll c fd (poll_ready readable error, w) =
      if error && not readable
      then stop err_disconnected [] c w
      else after_recv c (os.recv fd rx_buffer_size w)

  -- The part of a round that waits.
  await : AmlConnection → ℕ → Option (Option ℕ) → World → Round World
  unfolding after_poll
  await c fd none w = stop err_timeout [] c w
  await c fd (some wait_ms) w = after_poll c fd (os.poll fd wait_ms w)

  -- One round of `for (;;)`, from the extraction on.
  pub round : ℕ → ℕ → Option ℕ → Bool → AmlConnection → World → Option (Round World)
  unfolding await
  round capacity fd deadline polled c w = elim (parser_next capacity c.parser) [
    | none ↦ none
    | some (extracted f q) ↦ some (stop ok f (record c { parser = q }) w)
    | some (overflow q) ↦ some (stop err_protocol [] (record c { parser = parser_init }) w)
    | some (waiting q) ↦ some (
        let c' = record c { parser = q } in
        elim deadline [
          | none ↦ await c' fd (some none) w
          | some d ↦ let (now, w') = os.clock w in await c' fd (remaining (some d) now polled) w'
        ])
  ]

  -- The end of a round: return, or go round again.
  after_round :
      Option (Round World)
      → (AmlConnection → World → Option (Code × Bytes × AmlConnection × World))
      → Option (Code × Bytes × AmlConnection × World)
  after_round none loop = none
  after_round (some (stop code f c w)) loop = some (code, f, c, w)
  after_round (some (again c w)) loop = loop c w

  -- The loop of `aml_receive`.
  receive_loop :
      ℕ
      → ℕ
      → ℕ
      → Option ℕ
      → Bool
      → AmlConnection
      → World
      → Option (Code × Bytes × AmlConnection × World)
  unfolding after_round
  receive_loop zero capacity fd deadline polled c w = none
  receive_loop (suc fuel) capacity fd deadline polled c w =
      after_round (round capacity fd deadline polled c w)
        (receive_loop fuel capacity fd deadline true)

  -- `aml_receive`, with an output of `capacity` bytes.
  unfoldable pub aml_receive :
      ℕ → AmlConnection → ℕ → Option ℕ → World → Option (Code × Bytes × AmlConnection × World)
  unfolding receive_loop round
  aml_receive fuel c capacity timeout w = elim c.socket_fd [
    | none ↦ some (err_generic, [], c, w)
    | some fd ↦ elim timeout [
      | none ↦ receive_loop fuel capacity fd none false c w
      | some t ↦
          let (now, w') = os.clock w in receive_loop fuel capacity fd (some (now + t)) false c w'
    ]
  ]

  -- The loop of `aml_send` over the bytes that are left. The result says whether to stop, or how
  -- many bytes went out.
  send_loop : ℕ → ℕ → Bytes → World → Option (Code × World)
  unfolding after_send
  send_loop zero fd left w = none
  send_loop (suc fuel) fd left w = elim (ltb 0 (length left)) [
    | false ↦ some (ok, w)
    | true ↦
        let (result, w') = os.send fd left w in
        elim (after_send result) [
          | inl code ↦ some (code, w')
          | inr n ↦ send_loop fuel fd (drop n left) w'
        ]
  ]

  -- `aml_send`
  unfoldable pub aml_send : ℕ → AmlConnection → Bytes → World → Option (Code × World)
  unfolding send_loop
  aml_send fuel c bytes w = elim c.socket_fd [
    | none ↦ some (err_generic, w)
    | some fd ↦ send_loop fuel fd bytes w
  ]

  -- The loop of `aml_flush`, with what was discarded so far.
  flush_loop : ℕ → ℕ → ℕ → World → Option (ℕ × World)
  flush_loop zero fd discarded w = none
  flush_loop (suc fuel) fd discarded w =
      let (r, w') = os.recv_now fd rx_buffer_size w in
      elim r [
        | recv_bytes b ↦ flush_loop fuel fd (discarded + length b) w'
        | recv_closed ↦ some (discarded, w')
        | recv_failed e ↦ elim (is_eintr e) [
          | true ↦ flush_loop fuel fd discarded w'
          | false ↦ some (discarded, w')
        ]
      ]

  -- `aml_flush`: how many bytes it discards, and what it leaves.
  unfoldable pub aml_flush : ℕ → AmlConnection → World → Option (ℕ × AmlConnection × World)
  unfolding flush_loop is_eintr
  aml_flush fuel c w =
      let c' = record c { parser = parser_init } in
      elim c.socket_fd [
        | none ↦ some (length c.parser, c', w)
        | some fd ↦ elim (flush_loop fuel fd (length c.parser) w) [
          | none ↦ none
          | some (discarded, w') ↦ some (discarded, c', w')
        ]
      ]

  -- `aml_disconnect`
  unfoldable pub aml_disconnect : AmlConnection → World → AmlConnection × World
  aml_disconnect c w = elim c.socket_fd [
    | none ↦ (record c { parser = parser_init }, w)
    | some fd ↦ (record c { socket_fd = none; parser = parser_init }, os.close fd w)
  ]
