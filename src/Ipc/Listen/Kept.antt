-- ===== src/Ipc/Listen/Kept.antt =====
-- What the creation of the listening socket (src/ipc/ipc_server.c) leaves of the system: its descriptors, and
-- its server.
use sweet_dawn.Base.{
  ℕ, List, [], ◌∷◌, ◌⊎◌, inl, inr, ap, if◌then◌else◌, ◌≡◌, ◌≢◌, ◌∙◌, refl, arith, Bool, true, false,
  not, ◌&&◌, none, some, leb, ◌==◌, length, if_intro, option_intro,
}
use sweet_dawn.Protocol.{Bytes}
use sweet_dawn.Ipc.{max_clients}
use sweet_dawn.Ipc.Listen.{
  Bound, bound, in_use, unbound, Signal, sigint, sigterm, Unix, Ecoute, closed, socket_path_size,
  socket_is_stale, set_nonblocking, ipc_server_cleanup, init_failed, with_signals, with_address,
  bound_again, unlinked, if_stale, bound_first, with_socket, ipc_server_init,
}

-- A descriptor that is there, once, taken away.
abbrev pub left_open : ℕ → List ℕ → List ℕ
left_open fd [] = []
left_open fd (x ∷ l) = let rest = left_open fd l in if x == fd then l else x ∷ rest

-- The descriptors that a program holds, the last one first: socket() adds the one that it returns, close() takes
-- away the one that it is given, if it is held, and no other call changes them.
pub record Counts (unix : Unix) (held : unix.World → List ℕ) : Type 0 where
  pub is_socket : (p : Bytes) (w : unix.World) → held (unix.is_socket p w).1 ≡ held w
  pub opened :
      (w : unix.World) (fd : ℕ) → (unix.socket w).0 ≡ some fd → held (unix.socket w).1 ≡ fd ∷ held w
  pub not_opened : (w : unix.World) → (unix.socket w).0 ≡ none → held (unix.socket w).1 ≡ held w
  pub connect : (fd : ℕ) (p : Bytes) (w : unix.World) → held (unix.connect fd p w).1 ≡ held w
  pub close : (fd : ℕ) (w : unix.World) → held (unix.close fd w) ≡ left_open fd (held w)
  pub get_flags : (fd : ℕ) (w : unix.World) → held (unix.get_flags fd w).1 ≡ held w
  pub set_nonblock : (fd f : ℕ) (w : unix.World) → held (unix.set_nonblock fd f w).1 ≡ held w
  pub bind : (fd : ℕ) (p : Bytes) (w : unix.World) → held (unix.bind fd p w).1 ≡ held w
  pub unlink : (p : Bytes) (w : unix.World) → held (unix.unlink p w).1 ≡ held w
  pub chmod : (p : Bytes) (w : unix.World) → held (unix.chmod p w).1 ≡ held w
  pub listen : (fd n : ℕ) (w : unix.World) → held (unix.listen fd n w).1 ≡ held w
  pub sigaction : (s : Signal) (w : unix.World) → held (unix.sigaction s w).1 ≡ held w

module _ (unix : Unix) (held : unix.World → List ℕ) (counts : Counts unix held) where
  open unix use {World}

  -- A server that listens holds one descriptor more, its own, and one that could not be created none.
  pub Opens : List ℕ → Bool × Ecoute × World → Type 0
  Opens n (true, server, w) =
      (fd : ℕ) × (held w ≡ fd ∷ n)
      × (server.listen_fd ≡ some fd)
      × (server.owns_socket ≡ true)
      × (server.running ≡ true)
  Opens n (false, server, w) =
      (held w ≡ n)
      × (server.listen_fd ≡ none)
      × (server.owns_socket ≡ false)
      × (server.running ≡ false)

  closed_again : (fd : ℕ) (w : World) (l : List ℕ) → held w ≡ fd ∷ l → held (unix.close fd w) ≡ l
  closed_again fd w l h =
      let here : (fd == fd) ≡ true = ground arith in
      counts.close fd w ∙ (ap (left_open fd) h ∙ rw here refl)

  failed-Opens :
      (n : List ℕ) (fd : ℕ) (server : Ecoute) (w : World)
      → server.listen_fd ≡ some fd
      → held w ≡ fd ∷ n
      → Opens n (init_failed unix server w)
  unfolding init_failed ipc_server_cleanup Opens
  failed-Opens n fd server w e h =
      let k : held (unix.close fd w) ≡ n = closed_again fd w n h in
      if_intro (λ (r : Ecoute × World). Opens n (false, r.0, r.1))
        (server.owns_socket && not (length server.socket_path == 0))
        (λ _. rw e (counts.unlink server.socket_path (unix.close fd w) ∙ k, refl, refl, refl))
        (λ _. rw e (k, refl, refl, refl))

  running-Opens :
      (n : List ℕ) (fd : ℕ) (server : Ecoute) (w : World)
      → server.listen_fd ≡ some fd
      → server.owns_socket ≡ true
      → held w ≡ fd ∷ n
      → Opens n (true, record server { running = true }, w)
  unfolding Opens
  running-Opens n fd server w here o h = (fd, h, here, o, refl)

  nothing-Opens : (path : Bytes) (w : World) → Opens (held w) (false, closed, w)
  unfolding Opens
  nothing-Opens path w = (refl, refl, refl, refl)

  without-Opens :
      (path : Bytes) (w : World)
      → (unix.socket w).0 ≡ none
      → Opens (held w) (false, record closed { socket_path = path }, (unix.socket w).1)
  unfolding Opens
  without-Opens path w e = (counts.not_opened w e, refl, refl, refl)

  stale_held : (p : Bytes) (w : World) → held (socket_is_stale unix p w).1 ≡ held w
  unfolding socket_is_stale
  stale_held p w =
      let H = λ (r : Bool × World). held r.1 ≡ held w in
      let w₁ = (unix.is_socket p w).1 in
      let w₂ = (unix.socket w₁).1 in
      if_intro H (not (unix.is_socket p w).0) (λ _. counts.is_socket p w)
        (λ _.
          option_intro H (unix.socket w₁).0 (λ e. counts.not_opened w₁ e ∙ counts.is_socket p w)
            (λ fd e. closed_again fd (unix.connect fd p w₂).1 (held w) (
              counts.connect fd p w₂
              ∙ counts.opened w₁ fd e
              ∙ ap (λ l. fd ∷ l) (counts.is_socket p w))))

  nonblocking_held : (fd : ℕ) (w : World) → held (set_nonblocking unix fd w).1 ≡ held w
  unfolding set_nonblocking
  nonblocking_held fd w =
      option_intro (λ (r : Bool × World). held r.1 ≡ held w) (unix.get_flags fd w).0
        (λ _. counts.get_flags fd w)
        (λ f _. counts.set_nonblock fd f (unix.get_flags fd w).1 ∙ counts.get_flags fd w)

  signals-Opens :
      (n : List ℕ) (fd : ℕ) (server : Ecoute) (w : World)
      → server.listen_fd ≡ some fd
      → server.owns_socket ≡ true
      → held w ≡ fd ∷ n
      → Opens n (with_signals unix server w)
  unfolding with_signals
  signals-Opens n fd server w here o h =
      let w₁ = (unix.sigaction sigint w).1 in
      let w₂ = (unix.sigaction sigterm w₁).1 in
      let k : held w₁ ≡ fd ∷ n = counts.sigaction sigint w ∙ h in
      let l : held w₂ ≡ fd ∷ n = counts.sigaction sigterm w₁ ∙ k in
      if_intro (Opens n) (not (unix.sigaction sigint w).0) (λ _. failed-Opens n fd server w₁ here k)
        (λ _.
          if_intro (Opens n) (not (unix.sigaction sigterm w₁).0)
            (λ _. failed-Opens n fd server w₂ here l) (λ _. running-Opens n fd server w₂ here o l))

  address-Opens :
      (n : List ℕ) (fd : ℕ) (server : Ecoute) (w : World)
      → server.listen_fd ≡ some fd
      → held w ≡ fd ∷ n
      → Opens n (with_address unix fd server w)
  unfolding with_address
  address-Opens n fd server w here h =
      let owner = record server { owns_socket = true } in
      let w₁ = (unix.chmod server.socket_path w).1 in
      let w₂ = (unix.listen fd max_clients w₁).1 in
      let k : held w₁ ≡ fd ∷ n = counts.chmod server.socket_path w ∙ h in
      let l : held w₂ ≡ fd ∷ n = counts.listen fd max_clients w₁ ∙ k in
      if_intro (Opens n) (not (unix.chmod server.socket_path w).0)
        (λ _. failed-Opens n fd owner w₁ here k)
        (λ _.
          if_intro (Opens n) (not (unix.listen fd max_clients w₁).0)
            (λ _. failed-Opens n fd owner w₂ here l) (λ _. signals-Opens n fd owner w₂ here refl l))

  again-Opens :
      (n : List ℕ) (fd : ℕ) (server : Ecoute) (r : Bound × World)
      → server.listen_fd ≡ some fd
      → held r.1 ≡ fd ∷ n
      → Opens n (bound_again unix fd server r)
  unfolding bound_again
  again-Opens n fd server (bound, w) here h = address-Opens n fd server w here h
  again-Opens n fd server (_, w) here h = failed-Opens n fd server w here h

  unlinked-Opens :
      (n : List ℕ) (fd : ℕ) (server : Ecoute) (r : Bool × World)
      → server.listen_fd ≡ some fd
      → held r.1 ≡ fd ∷ n
      → Opens n (unlinked unix fd server r)
  unfolding unlinked
  unlinked-Opens n fd server (done, w) here h =
      if_intro (Opens n) done
        (λ _.
          again-Opens n fd server (unix.bind fd server.socket_path w) here
            (counts.bind fd server.socket_path w ∙ h))
        (λ _. failed-Opens n fd server w here h)

  stale-Opens :
      (n : List ℕ) (fd : ℕ) (server : Ecoute) (r : Bool × World)
      → server.listen_fd ≡ some fd
      → held r.1 ≡ fd ∷ n
      → Opens n (if_stale unix fd server r)
  unfolding if_stale
  stale-Opens n fd server (stale, w) here h =
      if_intro (Opens n) stale
        (λ _.
          unlinked-Opens n fd server (unix.unlink server.socket_path w) here
            (counts.unlink server.socket_path w ∙ h))
        (λ _. failed-Opens n fd server w here h)

  first-Opens :
      (n : List ℕ) (fd : ℕ) (server : Ecoute) (r : Bound × World)
      → server.listen_fd ≡ some fd
      → held r.1 ≡ fd ∷ n
      → Opens n (bound_first unix fd server r)
  unfolding bound_first
  first-Opens n fd server (bound, w) here h = address-Opens n fd server w here h
  first-Opens n fd server (in_use, w) here h =
      stale-Opens n fd server (socket_is_stale unix server.socket_path w) here
        (stale_held server.socket_path w ∙ h)
  first-Opens n fd server (unbound, w) here h = failed-Opens n fd server w here h

  socket-Opens :
      (n : List ℕ) (fd : ℕ) (server : Ecoute) (r : Bool × World)
      → server.listen_fd ≡ some fd
      → held r.1 ≡ fd ∷ n
      → Opens n (with_socket unix fd server r)
  unfolding with_socket
  socket-Opens n fd server (set, w) here h =
      if_intro (Opens n) set
        (λ _.
          first-Opens n fd server (unix.bind fd server.socket_path w) here
            (counts.bind fd server.socket_path w ∙ h))
        (λ _. failed-Opens n fd server w here h)

  -- A creation of the socket that returns 0 leaves a server that runs, owns its socket and listens
  -- on a descriptor that the program holds besides those that it held before. One that returns -1,
  -- whichever call failed, leaves exactly the descriptors that were held before, and a server that
  -- neither runs nor owns a socket; for an empty path it changes neither the server nor the
  -- system. This is provided that socket() adds the descriptor that it returns, close() takes away
  -- the one that it is given if it is held, and no other call changes them.
  pub init-Opens :
      (server : Ecoute) (path : Bytes) (w : World)
      → ((path ≡ []) × (ipc_server_init unix server path w ≡ (false, server, w)))
        ⊎ ((path ≢ []) × Opens (held w) (ipc_server_init unix server path w))
  unfolding ipc_server_init
  init-Opens server [] w = inl (refl, refl)
  init-Opens server (b ∷ bs) w =
      let path = b ∷ bs in
      let w' = (unix.socket w).1 in
      inr (
        λ e. cc,
        if_intro (Opens (held w)) (length path == 0) (λ e. absurd (ground (arith, e)))
            (λ _.
              if_intro (Opens (held w)) (leb socket_path_size (length path))
                (λ _. nothing-Opens path w)
                (λ _.
                  option_intro (Opens (held w)) (unix.socket w).0 (λ e. without-Opens path w e)
                    (λ fd e.
                      socket-Opens (held w) fd
                        (record {
                          listen_fd = some fd;
                          socket_path = path;
                          owns_socket = false;
                          running = false;
                        })
                        (set_nonblocking unix fd w') refl
                        (nonblocking_held fd w' ∙ counts.opened w fd e)))),
      )
