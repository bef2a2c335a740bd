-- ===== src/Ipc/Sockets.antt =====
-- Reading from a client and writing to it (section 4 of src/ipc/ipc_server.c). The calls of the system on the
-- sockets of the server are a parameter; the law is what the manual page says of recv().
use sweet_dawn.Base.{
  ℕ, zero, suc, ◌+◌, ◌-◌, ◌≤◌, ◌≡◌, Bool, true, false, Option, none, some, List, [], ◌++◌, ltb, leb,
  if◌then◌else◌, length, drop, Bool-cases, inl, inr, refl,
}
use sweet_dawn.Os.{
  Errno, eintr, eagain, Received, recv_failed, recv_closed, recv_bytes, Sent, send_failed, sent,
}
use sweet_dawn.Protocol.{Bytes}
use sweet_dawn.Ipc.{IpcClient, max_message, read_size}

-- accept(): an error, or the descriptor of a new client.
pub data Accepted : Type 0 where
  accept_failed : Errno → Accepted
  accepted : ℕ → Accepted

-- `revents` of a descriptor: POLLERR or POLLNVAL, POLLIN, POLLOUT, POLLHUP.
pub record Revents : Type 0 where
  pub error : Bool
  pub readable : Bool
  pub writable : Bool
  pub hung_up : Bool

-- poll() on the listening socket and on those of the clients: an error, the time over, or
-- whether a client waits to be accepted, and the `revents` of each client asked for.
pub data Ready : Type 0 where
  ready_failed : Errno → Ready
  ready_timeout : Ready
  ready : Bool → List (ℕ × Revents) → Ready

pub record Sockets : Type 1 where
  pub World : Type 0
  pub recv : ℕ → ℕ → World → Received × World
  pub send : ℕ → Bytes → World → Sent × World
  pub close : ℕ → World → World
  pub accept : World → Accepted × World
  -- `set_nonblocking`: whether it returned 0.
  pub set_nonblocking : ℕ → World → Bool × World
  -- poll() for each client: its descriptor, and whether for POLLOUT instead of POLLIN.
  pub poll : List (ℕ × Bool) → World → Ready × World
  -- Whether SIGINT or SIGTERM arrived.
  pub stop_requested : World → Bool
  pub recv_fits : (fd n : ℕ) (w : World) (b : Bytes) → (recv fd n w).0 ≡ recv_bytes b → length b ≤ n

-- At most `read_size` bytes, and no more than the buffer has room for.
abbrev pub read_capacity : IpcClient → ℕ
read_capacity client =
    let capacity = max_message - length client.input in
    if ltb read_size capacity then read_size else capacity

-- Behind recv(): none is -1.
unfoldable pub after_read : IpcClient → Received → Option IpcClient
after_read client recv_closed = none
after_read client (recv_failed eintr) = some client
after_read client (recv_failed eagain) = some client
after_read client (recv_failed _) = none
after_read client (recv_bytes b) = some (record client { input = client.input ++ b })

-- The bytes that were not sent yet.
abbrev pub unsent : IpcClient → Bytes
unsent client = drop client.output_offset client.output

-- What a send() means: go on behind `n` more bytes, wait for the next turn, or disconnect.
pub data Write : Type 0 where
  go_on : ℕ → Write
  later broken : Write

unfoldable pub after_write : Sent → Write
after_write (send_failed eintr) = go_on 0
after_write (send_failed eagain) = later
after_write (send_failed _) = broken
after_write (sent zero) = broken
after_write (sent (suc n)) = go_on (suc n)

module _ (sockets : Sockets) where
  open sockets use {World}

  -- `read_client`, with the descriptor of the client; none is -1.
  unfoldable pub read_client : ℕ → IpcClient → World → Option IpcClient × World
  unfolding after_read
  read_client fd client w =
      if leb max_message (length client.input)
      then (none, w)
      else let (r, w') = sockets.recv fd (read_capacity client) w in (after_read client r, w')

  -- Behind send(); `again` is the rest of the loop.
  abbrev pub write_on :
      (IpcClient → World → Option (Option IpcClient × World))
      → IpcClient
      → Write
      → World
      → Option (Option IpcClient × World)
  write_on again client broken w = some (none, w)
  write_on again client later w = some (some client, w)
  write_on again client (go_on n) w =
      again (record client { output_offset = client.output_offset + n }) w

  -- `write_client`: the outer none is out of fuel, the inner one is -1.
  unfoldable pub write_client : ℕ → ℕ → IpcClient → World → Option (Option IpcClient × World)
  unfolding after_write
  write_client zero fd client w = none
  write_client (suc fuel) fd client w = elim (ltb client.output_offset (length client.output)) [
    | false ↦ some (some (record client { output = []; output_offset = 0 }), w)
    | true ↦
        let (r, w') = sockets.send fd (unsent client) w in
        write_on (write_client fuel fd) client (after_write r) w'
  ]

  -- What holds of each end of one turn of `write_client` holds of it.
  pub write_intro {ℓ} :
      (P : Option (Option IpcClient × World) → Type ℓ) (fuel fd : ℕ) (c : IpcClient) (w : World)
      → (ltb c.output_offset (length c.output) ≡ false
          → P (some (some (record c { output = []; output_offset = 0 }), w)))
      → ((x : Write)
          → ltb c.output_offset (length c.output) ≡ true
          → after_write (sockets.send fd (unsent c) w).0 ≡ x
          → P (write_on (write_client fuel fd) c x (sockets.send fd (unsent c) w).1))
      → P (write_client (suc fuel) fd c w)
  unfolding write_client
  write_intro P fuel fd c w done turn = elim (Bool-cases (ltb c.output_offset (length c.output))) [
    | inl e ↦ rw (e, write_client) (turn (after_write (sockets.send fd (unsent c) w).0) e refl)
    | inr e ↦ rw (e, write_client) (done e)
  ]
