-- ===== src/Service.antt =====
-- The service (src/app/service.c): the server of the local socket with the handlers of commands as its handler, and
-- with the periodic tasks of the link and of the handlers as its task.
pub mod Linked
use sweet_dawn.Base.{ℕ, true, false, Option, none, some, List, [], ◌∷◌, String, same, if◌then◌else◌}
use sweet_dawn.Os.{Os}
use sweet_dawn.Link.{SweetDawn}
use sweet_dawn.Core.{sweetdawn_tick}
use sweet_dawn.Events.{Evenements, Diffusion, handlers_on_event}
use sweet_dawn.Json.{JsonLib}
use sweet_dawn.Command.{Command}
use sweet_dawn.Ipc.{Handled}
use sweet_dawn.Ipc.Run.{IpcServer, ipc_server_run}
use sweet_dawn.Ipc.Sockets.{Sockets}
use sweet_dawn.Handlers.Json.{diffusion_json}
use sweet_dawn.Handlers.Run.{Libc, repondre, handlers_tick}

-- What the tasks of the service work on: the program, `next_attempt_ms` of `entretenir_horloge`, and the world of
-- the link.
pub record Moteur (os : Os) : Type 0 where
  pub app : SweetDawn Evenements
  pub next_attempt_ms : ℕ
  pub world : os.World

-- The socket's path: the second argument, or the environment's, or the default one.
unfoldable pub socket_path_of : Option String → Option String → String
socket_path_of (some path) environment =
    if same path "" then "/run/sweetdawn/sweetdawn.sock" else path
socket_path_of none (some path) = if same path "" then "/run/sweetdawn/sweetdawn.sock" else path
socket_path_of none none = "/run/sweetdawn/sweetdawn.sock"

module _ (os : Os) (libc : Libc os) (store : List Command) where
  open libc.json use {Value}

  -- The events of what is to be broadcast, in its order.
  abbrev pub events_of : List Diffusion → List Value
  events_of [] = []
  events_of (d ∷ ds) = diffusion_json libc.json store d ∷ events_of ds

  -- What a handler that is out of fuel answers.
  abbrev pub unanswered : Handled Value
  unanswered = record { handled = false; result = none; code = none; message = none }

  abbrev handled_of :
      ℕ
      → Option (Handled Value × SweetDawn Evenements × os.World)
      → Handled Value × Option (Moteur os)
  handled_of next none = (unanswered, none)
  handled_of next (some (h, app, w)) =
      (h, some (record { app = app; next_attempt_ms = next; world = w }))

  -- `handlers_request` as the handler of the server; the context none is out of fuel.
  unfoldable pub service_handler :
      ℕ → Option (Moteur os) → String → Value → Handled Value × Option (Moteur os)
  unfolding repondre
  service_handler fuel none command args = (unanswered, none)
  service_handler fuel (some m) command args =
      handled_of m.next_attempt_ms
        (repondre os libc store fuel m.app command (libc.json.array args) m.world)

  -- What was broadcast leaves the program.
  unfoldable pub diffused :
      Option (ℕ × SweetDawn Evenements × os.World) → List Value × Option (Moteur os)
  diffused none = ([], none)
  diffused (some (next, app, w)) = (
    events_of app.event_context.diffusions,
    some (record {
      app = record app { event_context = record app.event_context { diffusions = [] } };
      next_attempt_ms = next;
      world = w;
    }),
  )

  -- `service_tick` behind sweetdawn_tick().
  unfoldable pub service_ticked :
      ℕ → ℕ → Option (SweetDawn Evenements × os.World) → List Value × Option (Moteur os)
  unfolding diffused handlers_tick
  service_ticked fuel next none = ([], none)
  service_ticked fuel next (some (app, w)) =
      diffused (handlers_tick os libc.calendar fuel app next w)

  -- `service_tick`, with the events that it broadcasts.
  unfoldable pub service_tick : ℕ → Option (Moteur os) → List Value × Option (Moteur os)
  unfolding service_ticked
  service_tick fuel none = ([], none)
  service_tick fuel (some m) =
      service_ticked fuel m.next_attempt_ms (sweetdawn_tick os fuel m.app m.world)

  -- The program of the server once it listens: the messages go to the handlers.
  abbrev pub demarre : SweetDawn Evenements → os.World → Option (Moteur os)
  demarre app w = some (record {
    app = record app { on_event = some handlers_on_event };
    next_attempt_ms = 0;
    world = w;
  })

  -- The loop that `main` runs, from a program that is initialized.
  unfoldable pub service_run :
      (sockets : Sockets)
      → ℕ
      → ℕ
      → ℕ
      → SweetDawn Evenements
      → os.World
      → sockets.World
      → Option (IpcServer (Option (Moteur os)) × sockets.World)
  unfolding service_handler service_tick ipc_server_run
  service_run sockets fuel turns turn_fuel app w sw =
      ipc_server_run sockets libc.json (some (service_handler fuel)) (service_tick fuel) turns
        turn_fuel (record { running = true; clients = []; context = demarre app w }) sw
