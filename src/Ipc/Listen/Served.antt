-- ===== src/Ipc/Listen/Served.antt =====
-- That the creation of the listening socket (src/ipc/ipc_server.c) leaves alone a socket at which another server answers.
use sweet_dawn.Base.{
  ℕ, ◌≡◌, ◌≢◌, refl, sym, subst, true, false, not, ◌&&◌, Option, none, some, leb, ◌==◌, length,
  if_intro, option_intro, Bool, arith,
}
use sweet_dawn.Protocol.{Bytes}
use sweet_dawn.Ipc.Listen.{
  Connected, connected, refused, unreachable, Bound, bound, in_use, unbound, Unix, Ecoute,
  socket_path_size, refuses, closed_of, socket_is_stale, set_nonblocking, ipc_server_cleanup,
  init_failed, if_stale, bound_first, with_socket, ipc_server_init,
}

-- Another server answers at the path in the worlds of `P`: the path cannot be bound, a connection to it is not
-- refused, and none of the calls in front of unlink() ends this.
pub record Answers (unix : Unix) (path : Bytes) (P : unix.World → Type 0) : Type 0 where
  pub not_refused : (fd : ℕ) (w : unix.World) → P w → (unix.connect fd path w).0 ≢ refused
  pub not_bound : (fd : ℕ) (w : unix.World) → P w → (unix.bind fd path w).0 ≢ bound
  pub is_socket : (w : unix.World) → P w → P (unix.is_socket path w).1
  pub socket : (w : unix.World) → P w → P (unix.socket w).1
  pub connect : (fd : ℕ) (w : unix.World) → P w → P (unix.connect fd path w).1
  pub close : (fd : ℕ) (w : unix.World) → P w → P (unix.close fd w)
  pub get_flags : (fd : ℕ) (w : unix.World) → P w → P (unix.get_flags fd w).1
  pub set_nonblock : (fd f : ℕ) (w : unix.World) → P w → P (unix.set_nonblock fd f w).1
  pub bind : (fd : ℕ) (w : unix.World) → P w → P (unix.bind fd path w).1

module _ (unix : Unix) (path : Bytes) (P : unix.World → Type 0)
    (answers : Answers unix path P) where
  open unix use {World}

  -- The creation has failed, and the other server still answers.
  pub Refrains : Bool × Ecoute × World → Type 0
  Refrains (done, server, w) = (done ≡ false) × P w

  -- A server that does not own its socket.
  abbrev Modest : Ecoute → Type 0
  Modest server = (server.owns_socket ≡ false) × (server.socket_path ≡ path)

  refrains : (server : Ecoute) (w : World) → P w → Refrains (false, server, w)
  unfolding Refrains
  refrains server w v = (refl, v)

  failed-Refrains :
      (server : Ecoute) (w : World) → Modest server → P w → Refrains (init_failed unix server w)
  unfolding init_failed ipc_server_cleanup
  failed-Refrains server w (o, e) v =
      if_intro (λ (r : Ecoute × World). Refrains (false, r.0, r.1))
        (server.owns_socket && not (length server.socket_path == 0))
        (λ h. absurd (ground (arith, h, o))) (λ _. refrains _ _ (closing server.listen_fd))
    where
      closing : (fd : Option ℕ) → P (closed_of unix fd w)
      closing none = v
      closing (some f) = answers.close f w v

  refuses-refused : (c : Connected) → refuses unix c ≡ true → c ≡ refused
  refuses-refused refused h = refl
  refuses-refused connected h = absurd (ground arith)
  refuses-refused unreachable h = absurd (ground arith)

  -- The path is not stale.
  abbrev Alive : Bool × World → Type 0
  Alive r = (r.0 ≡ false) × P r.1

  alive : (w : World) → P w → Alive (socket_is_stale unix path w)
  unfolding socket_is_stale
  alive w v =
      let w₁ = (unix.is_socket path w).1 in
      let v₁ = answers.is_socket w v in
      let w₂ = (unix.socket w₁).1 in
      let v₂ = answers.socket w₁ v₁ in
      if_intro Alive (not (unix.is_socket path w).0) (λ _. (refl, v₁))
        (λ _.
          option_intro Alive (unix.socket w₁).0 (λ _. (refl, v₂))
            (λ fd _. (
              not_refusing (unix.connect fd path w₂).0 (answers.not_refused fd w₂ v₂),
              answers.close fd (unix.connect fd path w₂).1 (answers.connect fd w₂ v₂),
            )))
    where
      not_refusing : (c : Connected) → c ≢ refused → refuses unix c ≡ false
      not_refusing refused n = absurd (n refl)
      not_refusing connected n = refl
      not_refusing unreachable n = refl

  stale-Refrains :
      (fd : ℕ) (server : Ecoute) (r : Bool × World)
      → Modest server
      → Alive r
      → Refrains (if_stale unix fd server r)
  unfolding if_stale
  stale-Refrains fd server (true, w) m (h, v) = absurd (ground (arith, h))
  stale-Refrains fd server (false, w) m (h, v) = failed-Refrains server w m v

  first-Refrains :
      (fd : ℕ) (server : Ecoute) (r : Bound × World)
      → Modest server
      → r.0 ≢ bound
      → P r.1
      → Refrains (bound_first unix fd server r)
  unfolding bound_first
  first-Refrains fd server (bound, w) m n v = absurd (n refl)
  first-Refrains fd server (in_use, w) (o, e) n v =
      stale-Refrains fd server (socket_is_stale unix server.socket_path w) (o, e)
        (subst (λ p. Alive (socket_is_stale unix p w)) (sym e) (alive w v))
  first-Refrains fd server (unbound, w) m n v = failed-Refrains server w m v

  socket-Refrains :
      (fd : ℕ) (server : Ecoute) (r : Bool × World)
      → Modest server
      → P r.1
      → Refrains (with_socket unix fd server r)
  unfolding with_socket
  socket-Refrains fd server (true, w) (o, e) v =
      first-Refrains fd server (unix.bind fd server.socket_path w) (o, e)
        (subst (λ p. (unix.bind fd p w).0 ≢ bound) (sym e) (answers.not_bound fd w v))
        (subst (λ p. P (unix.bind fd p w).1) (sym e) (answers.bind fd w v))
  socket-Refrains fd server (false, w) m v = failed-Refrains server w m v

  nonblocking-P : (fd : ℕ) (w : World) → P w → P (set_nonblocking unix fd w).1
  unfolding set_nonblocking
  nonblocking-P fd w v =
      option_intro (λ (r : Bool × World). P r.1) (unix.get_flags fd w).0
        (λ _. answers.get_flags fd w v)
        (λ f _. answers.set_nonblock fd f (unix.get_flags fd w).1 (answers.get_flags fd w v))

  -- Where another server answers at the path of the socket, the creation of the socket fails and
  -- leaves that server answering, provided that the path cannot be bound there, that a connection
  -- to it is not refused, and that of the calls that the creation makes none but unlink() ends
  -- this.
  pub init-Refrains :
      (server : Ecoute) (w : World) → P w → Refrains (ipc_server_init unix server path w)
  unfolding ipc_server_init
  init-Refrains server w v =
      let w' = (unix.socket w).1 in
      let v' = answers.socket w v in
      if_intro Refrains (length path == 0) (λ _. refrains _ w v)
        (λ _.
          if_intro Refrains (leb socket_path_size (length path)) (λ _. refrains _ w v)
            (λ _.
              option_intro Refrains (unix.socket w).0 (λ _. refrains _ w' v')
                (λ fd _.
                  socket-Refrains fd
                    (record {
                      listen_fd = some fd;
                      socket_path = path;
                      owns_socket = false;
                      running = false;
                    })
                    (set_nonblocking unix fd w') (refl, refl) (nonblocking-P fd w' v'))))
