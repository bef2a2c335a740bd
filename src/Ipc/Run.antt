-- ===== src/Ipc/Run.antt =====
-- The main loop of the server (section 5 of src/ipc/ipc_server.c). The periodic task is a parameter that returns the
-- events it broadcasts; the loop is given a number of turns, and each loop inside a turn fuel.
use sweet_dawn.Base.{
  ℕ, zero, suc, Bool, true, false, not, ◌&&◌, Option, none, some, List, [], ◌∷◌, ltb, ◌==◌,
  if◌then◌else◌, length, String,
}
use sweet_dawn.Os.{eintr, eagain}
use sweet_dawn.Protocol.{Bytes}
use sweet_dawn.Json.{JsonLib}
use sweet_dawn.Ipc.{
  IpcClient, Handled, free_client, max_clients, client_append, process_buffered_message,
}
use sweet_dawn.Ipc.Sockets.{
  Sockets, Accepted, accept_failed, accepted, Revents, Ready, ready_failed, ready_timeout, ready,
  read_client, write_client,
}

-- What `ipc_server_run` changes: `running`, the clients, and the context of the tasks.
pub record IpcServer (Ctx : Type 0) : Type 0 where
  pub running : Bool
  pub clients : List IpcClient
  pub context : Ctx

-- The clients before the first turn.
abbrev pub free_clients : ℕ → List IpcClient
free_clients zero = []
free_clients (suc n) = free_client ∷ free_clients n

-- What is asked of poll() for the clients.
unfoldable pub asked_of : List IpcClient → List (ℕ × Bool)
asked_of [] = []
asked_of (c ∷ rest) =
    let more = asked_of rest in
    elim c.fd [ none ↦ more | some fd ↦ (fd, ltb 0 (length c.output)) ∷ more ]

-- The first free place takes the new descriptor; none is no place left.
unfoldable pub placed : ℕ → List IpcClient → Option (List IpcClient)
placed fd [] = none
placed fd (c ∷ rest) = elim c.fd [
  | none ↦ some (record c { fd = some fd } ∷ rest)
  | some other ↦ elim (placed fd rest) [ none ↦ none | some more ↦ some (c ∷ more) ]
]

abbrev pub is_fd : ℕ → Option ℕ → Bool
is_fd fd none = false
is_fd fd (some other) = fd == other

module _ (sockets : Sockets) where
  open sockets use {World}

  -- `client_reset`
  unfoldable pub client_reset : IpcClient → World → IpcClient × World
  client_reset client w = elim client.fd [
    | none ↦ (free_client, w)
    | some fd ↦ (free_client, sockets.close fd w)
  ]

  -- A client, or its reset.
  unfoldable pub kept_or_reset : IpcClient → Option IpcClient → World → IpcClient × World
  unfolding client_reset
  kept_or_reset client none w = client_reset client w
  kept_or_reset client (some c) w = (c, w)

  -- One client of the loop of `ipc_server_broadcast`.
  unfoldable pub broadcast_one : Bytes → IpcClient → World → IpcClient × World
  unfolding kept_or_reset client_append
  broadcast_one text c w = elim c.fd [
    | none ↦ (c, w)
    | some fd ↦ if c.subscribed then kept_or_reset c (client_append c text) w else (c, w)
  ]

  -- `ipc_server_broadcast` once the event is serialized.
  unfoldable pub broadcast_text : Bytes → List IpcClient → World → List IpcClient × World
  unfolding broadcast_one
  broadcast_text text [] w = ([], w)
  broadcast_text text (c ∷ rest) w =
      let (c', w') = broadcast_one text c w in
      let (rest', w'') = broadcast_text text rest w' in (c' ∷ rest', w'')

  -- Behind set_nonblocking() of a new descriptor; `again` is the rest of the loop.
  unfoldable pub place_on :
      (List IpcClient → World → Option (Bool × List IpcClient × World))
      → ℕ
      → List IpcClient
      → Bool
      → World
      → Option (Bool × List IpcClient × World)
  unfolding placed
  place_on again fd clients false w = again clients (sockets.close fd w)
  place_on again fd clients true w = elim (placed fd clients) [
    | none ↦ again clients (sockets.close fd w)
    | some clients' ↦ again clients' w
  ]

  -- Behind accept().
  unfoldable pub accept_on :
      (List IpcClient → World → Option (Bool × List IpcClient × World))
      → List IpcClient
      → Accepted
      → World
      → Option (Bool × List IpcClient × World)
  unfolding place_on
  accept_on again clients (accept_failed eintr) w = again clients w
  accept_on again clients (accept_failed eagain) w = some (true, clients, w)
  accept_on again clients (accept_failed _) w = some (false, clients, w)
  accept_on again clients (accepted fd) w =
      let (set, w') = sockets.set_nonblocking fd w in place_on again fd clients set w'

  -- `accept` until no client waits: whether the server still runs, and the clients.
  unfoldable pub accept_loop : ℕ → List IpcClient → World → Option (Bool × List IpcClient × World)
  unfolding accept_on
  accept_loop zero clients w = none
  accept_loop (suc fuel) clients w =
      let (r, w') = sockets.accept w in accept_on (accept_loop fuel) clients r w'

  -- The end of the service of a client: it hung up, and there is nothing to read.
  unfoldable pub hung_up : Revents → IpcClient → World → IpcClient × World
  unfolding client_reset
  hung_up ev c w = if ev.hung_up && not ev.readable then client_reset c w else (c, w)

  -- The service of a client behind its writing.
  unfoldable pub written_on :
      Revents → IpcClient → Option (Option IpcClient × World) → Option (IpcClient × World)
  unfolding hung_up client_reset
  written_on ev c none = none
  written_on ev c (some (none, w)) = some (client_reset c w)
  written_on ev c (some (some c', w)) = some (hung_up ev c' w)

  -- The service of a client behind its reading.
  unfoldable pub write_step : ℕ → ℕ → Revents → IpcClient → World → Option (IpcClient × World)
  unfolding hung_up write_client written_on
  write_step fuel fd ev c w =
      if ev.writable && ltb 0 (length c.output)
      then written_on ev c (write_client sockets fuel fd c w)
      else some (hung_up ev c w)

  -- The service of a client `c` behind its reading.
  unfoldable pub read_step :
      ℕ → ℕ → Revents → IpcClient → Option IpcClient × World → Option (IpcClient × World)
  unfolding write_step client_reset
  read_step fuel fd ev c (none, w) = some (client_reset c w)
  read_step fuel fd ev c (some c', w) = write_step fuel fd ev c' w

  -- The service of one client that poll() reported.
  unfoldable pub serve : ℕ → ℕ → Revents → IpcClient → World → Option (IpcClient × World)
  unfolding write_step read_step read_client client_reset
  serve fuel fd ev c w =
      if ev.error
      then some (client_reset c w)
      else if ev.readable && length c.output == 0
      then read_step fuel fd ev c (read_client sockets fd c w)
      else write_step fuel fd ev c w

  -- The client whose descriptor is `fd`.
  unfoldable pub serve_fd :
      ℕ → ℕ → Revents → List IpcClient → World → Option (List IpcClient × World)
  unfolding serve
  serve_fd fuel fd ev [] w = some ([], w)
  serve_fd fuel fd ev (c ∷ rest) w = elim (is_fd fd c.fd) [
    | true ↦ elim (serve fuel fd ev c w) [ none ↦ none | some (c', w') ↦ some (c' ∷ rest, w') ]
    | false ↦ elim (serve_fd fuel fd ev rest w) [
      | none ↦ none
      | some (rest', w') ↦ some (c ∷ rest', w')
    ]
  ]

  -- Each client that poll() reported.
  unfoldable pub serve_all :
      ℕ → List (ℕ × Revents) → List IpcClient → World → Option (List IpcClient × World)
  unfolding serve_fd
  serve_all fuel [] clients w = some (clients, w)
  serve_all fuel ((fd, ev) ∷ more) clients w = elim (serve_fd fuel fd ev clients w) [
    | none ↦ none
    | some (clients', w') ↦ serve_all fuel more clients' w'
  ]

  -- The end of `ipc_server_run`: every client is reset.
  unfoldable pub reset_all : List IpcClient → World → List IpcClient × World
  unfolding client_reset
  reset_all [] w = ([], w)
  reset_all (c ∷ rest) w =
      let (c', w') = client_reset c w in let (rest', w'') = reset_all rest w' in (c' ∷ rest', w'')

  module _ (json : JsonLib) {Ctx : Type 0}
      (handler : Option (Ctx → String → json.Value → Handled json.Value × Ctx))
      (tick : Ctx → List json.Value × Ctx) where
    -- `ipc_server_broadcast` of each event of the periodic task.
    unfoldable pub broadcast_all : List json.Value → List IpcClient → World → List IpcClient × World
    unfolding broadcast_text
    broadcast_all [] clients w = (clients, w)
    broadcast_all (event ∷ more) clients w = elim (json.to_json_string event) [
      | none ↦ broadcast_all more clients w
      | some text ↦
          let (clients', w') = broadcast_text text clients w in broadcast_all more clients' w'
    ]

    -- The line that was received from a client to which nothing is to be sent.
    unfoldable pub process_one : IpcClient → Ctx → World → IpcClient × Ctx × World
    unfolding process_buffered_message kept_or_reset
    process_one c ctx w = elim c.fd [
      | none ↦ (c, ctx, w)
      | some fd ↦
          if length c.output == 0
          then (let (r, ctx') = process_buffered_message json handler c ctx in
              let (c', w') = kept_or_reset c r w in (c', ctx', w'))
          else (c, ctx, w)
    ]

    unfoldable pub process_all : List IpcClient → Ctx → World → List IpcClient × Ctx × World
    unfolding process_one
    process_all [] ctx w = ([], ctx, w)
    process_all (c ∷ rest) ctx w =
        let (c', ctx₁, w₁) = process_one c ctx w in
        let (rest', ctx', w') = process_all rest ctx₁ w₁ in (c' ∷ rest', ctx', w')

    -- A turn behind poll().
    unfoldable pub after_poll : ℕ → IpcServer Ctx → Ready → World → Option (IpcServer Ctx × World)
    unfolding accept_loop serve_all
    after_poll fuel server (ready_failed eintr) w = some (server, w)
    after_poll fuel server (ready_failed _) w = some (record server { running = false }, w)
    after_poll fuel server ready_timeout w = some (server, w)
    after_poll fuel server (ready waiting events) w = elim waiting [
      | false ↦ elim (serve_all fuel events server.clients w) [
        | none ↦ none
        | some (clients, w') ↦ some (record server { clients = clients }, w')
      ]
      | true ↦ elim (accept_loop fuel server.clients w) [
        | none ↦ none
        | some (running, clients, w') ↦ elim (serve_all fuel events clients w') [
          | none ↦ none
          | some (clients', w'') ↦
              some (record server { running = server.running && running; clients = clients' }, w'')
        ]
      ]
    ]

    -- One turn of the loop, once the periodic task has run.
    unfoldable pub ticked : ℕ → IpcServer Ctx → World → Option (IpcServer Ctx × World)
    unfolding after_poll asked_of process_all
    ticked fuel server w =
        let (clients, ctx, w₁) = process_all server.clients server.context w in
        let server' = record server { clients = clients; context = ctx } in
        let (r, w₂) = sockets.poll (asked_of clients) w₁ in after_poll fuel server' r w₂

    -- The loop, `turns` turns at most.
    unfoldable pub run_loop : ℕ → ℕ → IpcServer Ctx → World → Option (IpcServer Ctx × World)
    unfolding ticked broadcast_all
    run_loop zero fuel server w = none
    run_loop (suc turns) fuel server w = elim (server.running && not (sockets.stop_requested w)) [
      | false ↦ some (server, w)
      | true ↦
          let (events, ctx) = tick server.context in
          let (clients, w₁) = broadcast_all events server.clients w in
          let server' = record server { clients = clients; context = ctx } in
          elim (sockets.stop_requested w₁) [
            | true ↦ some (server', w₁)
            | false ↦ elim (ticked fuel server' w₁) [
              | none ↦ none
              | some (server'', w₂) ↦ run_loop turns fuel server'' w₂
            ]
          ]
    ]

    -- `ipc_server_run`, on a server that listens.
    unfoldable pub ipc_server_run : ℕ → ℕ → IpcServer Ctx → World → Option (IpcServer Ctx × World)
    unfolding run_loop reset_all
    ipc_server_run turns fuel server w =
        elim (run_loop turns fuel (record server { clients = free_clients max_clients }) w) [
          | none ↦ none
          | some (server', w') ↦
              let (clients, w'') = reset_all server'.clients w' in
              some (record server' { running = false; clients = clients }, w'')
        ]
