-- ===== src/Ipc/Listen.antt =====
-- The listening socket (sections 1 and 6 of src/ipc/ipc_server.c): ipc_server_init and ipc_server_cleanup. The
-- calls of the system are a parameter.
pub mod Kept
pub mod Served
use sweet_dawn.Base.{
  ℕ, Bool, true, false, not, ◌&&◌, ◌||◌, Option, none, some, [], leb, ltb, ◌==◌, if◌then◌else◌,
  length,
}
use sweet_dawn.Protocol.{Bytes}
use sweet_dawn.Ipc.{max_clients}

-- connect() and bind(), with the errors that are told apart: ECONNREFUSED, EADDRINUSE.
pub data Connected : Type 0 where
  connected refused unreachable : Connected

pub data Bound : Type 0 where
  bound in_use unbound : Bound

pub data Signal : Type 0 where
  sigint sigterm : Signal

pub record Unix : Type 1 where
  pub World : Type 0
  -- lstat(): whether the path is a socket.
  pub is_socket : Bytes → World → Bool × World
  -- socket(AF_UNIX, SOCK_STREAM, 0)
  pub socket : World → Option ℕ × World
  pub connect : ℕ → Bytes → World → Connected × World
  pub close : ℕ → World → World
  -- fcntl(F_GETFL), and fcntl(F_SETFL) of the flags with O_NONBLOCK: whether it returned 0.
  pub get_flags : ℕ → World → Option ℕ × World
  pub set_nonblock : ℕ → ℕ → World → Bool × World
  pub bind : ℕ → Bytes → World → Bound × World
  -- Whether each returned 0.
  pub unlink : Bytes → World → Bool × World
  pub chmod : Bytes → World → Bool × World
  pub listen : ℕ → ℕ → World → Bool × World
  pub sigaction : Signal → World → Bool × World

-- What `ipc_server_init` sets of `IpcServer`.
pub record Ecoute : Type 0 where
  pub listen_fd : Option ℕ
  pub socket_path : Bytes
  pub owns_socket : Bool
  pub running : Bool

abbrev pub closed : Ecoute
closed = record { listen_fd = none; socket_path = []; owns_socket = false; running = false }

-- The room of `socket_path`, and of `sun_path`.
abbrev pub socket_path_size : ℕ
socket_path_size = 108

module _ (unix : Unix) where
  open unix use {World}

  abbrev refuses : Connected → Bool
  refuses refused = true
  refuses _ = false

  -- `socket_is_stale`
  unfoldable pub socket_is_stale : Bytes → World → Bool × World
  socket_is_stale path w =
      let (there, w₁) = unix.is_socket path w in
      if not there
      then (false, w₁)
      else let (r, w₂) = unix.socket w₁ in
        elim r [
          | none ↦ (false, w₂)
          | some fd ↦ let (c, w₃) = unix.connect fd path w₂ in (refuses c, unix.close fd w₃)
        ]

  -- `set_nonblocking`
  unfoldable pub set_nonblocking : ℕ → World → Bool × World
  set_nonblocking fd w =
      let (flags, w') = unix.get_flags fd w in
      elim flags [ none ↦ (false, w') | some f ↦ unix.set_nonblock fd f w' ]

  abbrev closed_of : Option ℕ → World → World
  closed_of none w = w
  closed_of (some fd) w = unix.close fd w

  -- `ipc_server_cleanup`
  unfoldable pub ipc_server_cleanup : Ecoute → World → Ecoute × World
  ipc_server_cleanup server w =
      let w' = closed_of server.listen_fd w in
      if server.owns_socket && not (length server.socket_path == 0)
      then (closed, (unix.unlink server.socket_path w').1)
      else (closed, w')

  -- A failure of `ipc_server_init` once the socket is there.
  unfoldable pub init_failed : Ecoute → World → Bool × Ecoute × World
  unfolding ipc_server_cleanup
  init_failed server w = let (s, w') = ipc_server_cleanup server w in (false, s, w')

  -- The signals.
  unfoldable pub with_signals : Ecoute → World → Bool × Ecoute × World
  unfolding init_failed
  with_signals server w =
      let (a, w₁) = unix.sigaction sigint w in
      if not a
      then init_failed server w₁
      else let (b, w₂) = unix.sigaction sigterm w₁ in
        if not b then init_failed server w₂ else (true, record server { running = true }, w₂)

  -- Behind bind().
  unfoldable pub with_address : ℕ → Ecoute → World → Bool × Ecoute × World
  unfolding with_signals init_failed
  with_address fd server w =
      let owner = record server { owns_socket = true } in
      let (a, w₁) = unix.chmod server.socket_path w in
      if not a
      then init_failed owner w₁
      else let (b, w₂) = unix.listen fd max_clients w₁ in
        if not b then init_failed owner w₂ else with_signals owner w₂

  -- The second bind(), of a path that was an orphan.
  unfoldable pub bound_again : ℕ → Ecoute → Bound × World → Bool × Ecoute × World
  unfolding with_address init_failed
  bound_again fd server (bound, w) = with_address fd server w
  bound_again fd server (_, w) = init_failed server w

  unfoldable pub unlinked : ℕ → Ecoute → Bool × World → Bool × Ecoute × World
  unfolding bound_again init_failed
  unlinked fd server (done, w) =
      if done
      then bound_again fd server (unix.bind fd server.socket_path w)
      else init_failed server w

  unfoldable pub if_stale : ℕ → Ecoute → Bool × World → Bool × Ecoute × World
  unfolding unlinked init_failed
  if_stale fd server (stale, w) =
      if stale then unlinked fd server (unix.unlink server.socket_path w) else init_failed server w

  -- Behind the first bind().
  unfoldable pub bound_first : ℕ → Ecoute → Bound × World → Bool × Ecoute × World
  unfolding with_address if_stale socket_is_stale init_failed
  bound_first fd server (bound, w) = with_address fd server w
  bound_first fd server (in_use, w) = if_stale fd server (socket_is_stale server.socket_path w)
  bound_first fd server (unbound, w) = init_failed server w

  -- Behind socket().
  unfoldable pub with_socket : ℕ → Ecoute → Bool × World → Bool × Ecoute × World
  unfolding bound_first init_failed
  with_socket fd server (set, w) =
      if set
      then bound_first fd server (unix.bind fd server.socket_path w)
      else init_failed server w

  -- `ipc_server_init`, on a server as it was, of a path that is not NULL: whether it returned 0. An
  -- empty path leaves the server alone.
  unfoldable pub ipc_server_init : Ecoute → Bytes → World → Bool × Ecoute × World
  unfolding with_socket set_nonblocking
  ipc_server_init server path w =
      if length path == 0
      then (false, server, w)
      else if leb socket_path_size (length path)
      then (false, closed, w)
      else let (r, w') = unix.socket w in
        elim r [
          | none ↦ (false, record closed { socket_path = path }, w')
          | some fd ↦
              with_socket fd
                (record {
                  listen_fd = some fd;
                  socket_path = path;
                  owns_socket = false;
                  running = false;
                })
                (set_nonblocking fd w')
        ]
