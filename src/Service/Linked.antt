-- ===== src/Service/Linked.antt =====
-- That the whole service (src/app/service.c) keeps the invariant of the supervision.
use sweet_dawn.Base.{ℕ, ◌≡◌, Option, none, some, List, [], true, String, arith}
use sweet_dawn.Os.{Os}
use sweet_dawn.Link.{SweetDawn}
use sweet_dawn.Link.Invariant.{IsLinked}
use sweet_dawn.Core.{sweetdawn_tick}
use sweet_dawn.Core.Tick.{Ticks, tick-Ticks}
use sweet_dawn.Control.Linked.{Acts}
use sweet_dawn.Events.{Evenements, handlers_on_event}
use sweet_dawn.Command.{Command}
use sweet_dawn.Ipc.{Handled}
use sweet_dawn.Ipc.Run.{IpcServer}
use sweet_dawn.Ipc.Context.{run-P}
use sweet_dawn.Ipc.Sockets.{Sockets}
use sweet_dawn.Handlers.Run.{Libc}
use sweet_dawn.Handlers.Linked.{noted-IsLinked}
use sweet_dawn.Handlers.Linked.Reading.{repondre-Acts}
use sweet_dawn.Handlers.Linked.Following.{handlers_tick-Acts}
use sweet_dawn.Service.{
  Moteur, handled_of, service_handler, diffused, service_ticked, service_tick, service_run, demarre,
}

-- The program of the service keeps the invariant.
pub IsSupervised : {os : Os} → Option (Moteur os) → Type 0
IsSupervised none = Unit
IsSupervised (some m) = IsLinked m.app.state m.app

heard-IsLinked :
    {app : SweetDawn Evenements}
    → IsLinked app.state app
    → IsLinked app.state (record app { on_event = some handlers_on_event })
heard-IsLinked v = ground arith

module _ (os : Os) (libc : Libc os) (store : List Command) where
  open libc.json use {Value}

  handled-IsSupervised :
      (next : ℕ) (r : Option (Handled Value × SweetDawn Evenements × os.World))
      → Acts r
      → IsSupervised (handled_of os libc store next r).1
  unfolding Acts IsSupervised
  handled-IsSupervised next none v = tt
  handled-IsSupervised next (some (h, app, w)) v = v

  handler-IsSupervised :
      (fuel : ℕ) (m : Option (Moteur os)) (name : String) (args : Value)
      → IsSupervised m
      → IsSupervised (service_handler os libc store fuel m name args).1
  unfolding service_handler IsSupervised
  handler-IsSupervised fuel none name args v = tt
  handler-IsSupervised fuel (some m) name args v =
      handled-IsSupervised m.next_attempt_ms _
        (repondre-Acts os libc store fuel m.app name (libc.json.array args) m.world v)

  diffused-IsSupervised :
      (r : Option (ℕ × SweetDawn Evenements × os.World))
      → Acts r
      → IsSupervised (diffused os libc store r).1
  unfolding diffused Acts IsSupervised
  diffused-IsSupervised none v = tt
  diffused-IsSupervised (some (next, app, w)) v = noted-IsLinked _ v

  ticked-IsSupervised :
      (fuel next : ℕ) (r : Option (SweetDawn Evenements × os.World))
      → Ticks r
      → IsSupervised (service_ticked os libc store fuel next r).1
  unfolding service_ticked IsSupervised
  ticked-IsSupervised fuel next none v = tt
  ticked-IsSupervised fuel next (some (app, w)) v =
      diffused-IsSupervised _ (handlers_tick-Acts os libc.calendar fuel app next w v)

  tick-IsSupervised :
      (fuel : ℕ) (m : Option (Moteur os))
      → IsSupervised m
      → IsSupervised (service_tick os libc store fuel m).1
  unfolding service_tick IsSupervised
  tick-IsSupervised fuel none v = tt
  tick-IsSupervised fuel (some m) v =
      ticked-IsSupervised fuel m.next_attempt_ms (sweetdawn_tick os fuel m.app m.world)
        (tick-Ticks os fuel m.app m.world v)

  -- When the service returns from its loop, whatever the clients sent, whatever the AML005
  -- answered and however often its tasks ran, the program that is left, if no request or task was
  -- out of fuel, keeps the invariant of the supervision that it had when the server began to run.
  pub service_run-IsSupervised :
      (sockets : Sockets) (fuel turns turn_fuel : ℕ) (app : SweetDawn Evenements) (w : os.World)
      (sw : sockets.World) (server : IpcServer (Option (Moteur os))) (sw' : sockets.World)
      → IsLinked app.state app
      → service_run os libc store sockets fuel turns turn_fuel app w sw ≡ some (server, sw')
      → IsSupervised server.context
  unfolding service_run IsSupervised
  service_run-IsSupervised sockets fuel turns turn_fuel app w sw server sw' v h =
      run-P sockets libc.json IsSupervised (service_handler os libc store fuel)
        (service_tick os libc store fuel)
        (record {
          handled = λ m name args u. handler-IsSupervised fuel m name args u;
          done = λ m u. tick-IsSupervised fuel m u;
        })
        turns turn_fuel
        (record { running = true; clients = []; context = demarre os libc store app w }) sw server
        sw' (heard-IsLinked v) h
