-- ===== src/Os.antt =====
-- What the program asks of the system: the calls of src/aml/transport.c and src/core/sweetdawn.c
-- into POSIX and BlueZ, as a parameter. A world is all that lies outside the program; each call
-- takes it and returns the next. The law is what the manual page says of recv().
use sweet_dawn.Base.{ℕ, ◌≤◌, ◌≡◌, Bool, Option, List, length}

-- The values of `errno` that the program tells apart.
pub data Errno : Type 0 where
  eintr eagain einprogress epipe econnreset enotconn econnaborted etimedout ehostdown : Errno
  ehostunreach eother : Errno

-- poll() on one descriptor: an error, the time over, or which of POLLIN and of POLLERR or POLLNVAL
-- were set.
pub data Polled : Type 0 where
  poll_failed : Errno → Polled
  poll_timeout : Polled
  poll_ready : Bool → Bool → Polled

pub data Received : Type 0 where
  recv_failed : Errno → Received
  recv_closed : Received
  recv_bytes : List ℕ → Received

-- send() on a part of the frame: an error, or how many bytes went out.
pub data Sent : Type 0 where
  send_failed : Errno → Sent
  sent : ℕ → Sent

-- A call that returns 0 or sets `errno`.
pub data Done : Type 0 where
  done : Done
  failed : Errno → Done

pub record Os : Type 1 where
  pub World : Type 0
  -- The Bluetooth addresses of BlueZ.
  pub Address : Type 0
  -- clock_gettime(CLOCK_MONOTONIC), in milliseconds.
  pub clock : World → ℕ × World
  -- The descriptor, and how long to wait (`none`: for ever).
  pub poll : ℕ → Option ℕ → World → Polled × World
  -- poll() for POLLOUT while a connection is made.
  pub poll_out : ℕ → ℕ → World → Polled × World
  pub recv : ℕ → ℕ → World → Received × World
  -- recv() with MSG_DONTWAIT.
  pub recv_now : ℕ → ℕ → World → Received × World
  pub send : ℕ → List ℕ → World → Sent × World
  pub close : ℕ → World → World
  -- socket(AF_BLUETOOTH, SOCK_STREAM, BTPROTO_RFCOMM).
  pub socket : World → Option ℕ × World
  pub str2ba : List ℕ → Option Address
  pub bind : ℕ → Address → World → Done × World
  pub get_flags : ℕ → World → Option ℕ × World
  -- F_SETFL with the flags, O_NONBLOCK added or not.
  pub set_flags : ℕ → ℕ → Bool → World → Done × World
  pub connect : ℕ → Address → ℕ → World → Done × World
  -- getsockopt(SO_ERROR): none if it fails, else the pending error.
  pub socket_error : ℕ → World → Option Done × World
  -- recv() gives no more bytes than there is room for.
  pub recv_fits :
      (fd n : ℕ) (w : World) (b : List ℕ) → (recv fd n w).0 ≡ recv_bytes b → length b ≤ n
