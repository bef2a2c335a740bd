-- ===== src/Tests/Listening.antt =====
-- The creation of the listening socket on two small systems.
use sweet_dawn.Base.{
  ℕ, List, length, ◌≢◌, ◌⊎◌, ap, some-eq, ◌≡◌, refl, arith, true, false, some, [], ◌∷◌,
}
use sweet_dawn.Protocol.{Bytes}
use sweet_dawn.Ipc.Listen.{Unix, closed, connected, refused, bound, in_use, ipc_server_init}
use sweet_dawn.Ipc.Listen.Kept.{left_open, Counts, Opens, init-Opens}
use sweet_dawn.Ipc.Listen.Served.{Answers, Refrains, init-Refrains}

-- A system where everything but the signals succeeds; its world is the list of the descriptors.
abbrev free : Unix
free = record {
  World = List ℕ;
  is_socket = λ p w. (false, w);
  socket = λ w. (some (length w), length w ∷ w);
  connect = λ fd p w. (refused, w);
  close = λ fd w. left_open fd w;
  get_flags = λ fd w. (some 2, w);
  set_nonblock = λ fd f w. (true, w);
  bind = λ fd p w. (bound, w);
  unlink = λ p w. (true, w);
  chmod = λ p w. (true, w);
  listen = λ fd n w. (true, w);
  sigaction = λ s w. (false, w);
}

counted : Counts free (λ w. w)
counted = record {
  is_socket = λ p w. refl;
  opened = λ w fd e. ap (λ x. x ∷ w) (some-eq (length w) fd e);
  not_opened = λ w e. absurd (ground arith);
  connect = λ fd p w. refl;
  close = λ fd w. refl;
  get_flags = λ fd w. refl;
  set_nonblock = λ fd f w. refl;
  bind = λ fd p w. refl;
  unlink = λ p w. refl;
  chmod = λ p w. refl;
  listen = λ fd n w. refl;
  sigaction = λ s w. refl;
}

abbrev path : Bytes
path = 0x2F ∷ 0x73 ∷ []

abbrev standing : List ℕ
standing = 2 ∷ 1 ∷ 0 ∷ []

init-Opens_example :
    ((path ≡ []) × (ipc_server_init free closed path standing ≡ (false, closed, standing)))
    ⊎ ((path ≢ [])
        × Opens free (λ w. w) counted standing (ipc_server_init free closed path standing))
init-Opens_example = init-Opens free (λ w. w) counted closed path standing

-- The same, where another server answers at every path.
abbrev taken : Unix
taken = record free {
  is_socket = λ p w. (true, w);
  connect = λ fd p w. (connected, w);
  bind = λ fd p w. (in_use, w);
}

answering : Answers taken path (λ w. Unit)
answering = record {
  not_refused = λ fd w v e. ground arith;
  not_bound = λ fd w v e. ground arith;
  is_socket = λ w v. tt;
  socket = λ w v. tt;
  connect = λ fd w v. tt;
  close = λ fd w v. tt;
  get_flags = λ fd w v. tt;
  set_nonblock = λ fd f w v. tt;
  bind = λ fd w v. tt;
}

init-Refrains_example :
    Refrains taken path (λ w. Unit) answering (ipc_server_init taken closed path standing)
init-Refrains_example = init-Refrains taken path (λ w. Unit) answering closed standing tt

-- It leaves no descriptor open.
left_as_it_was : (ipc_server_init taken closed path standing).2 ≡ standing
unfolding ipc_server_init
left_as_it_was = refl
