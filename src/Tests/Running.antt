-- ===== src/Tests/Running.antt =====
-- The whole service on the systems of World and of Served.
use sweet_dawn.Base.{◌≡◌, true, false, none, some, [], ◌∷◌, pos, refl, arith, Option}
use sweet_dawn.Link.{SweetDawn}
use sweet_dawn.Link.Invariant.{IsLinked}
use sweet_dawn.Core.{sweetdawn_tick}
use sweet_dawn.Transport.{aml_receive}
use sweet_dawn.Protocol.{parser_next}
use sweet_dawn.Events.{Evenements, reveil_repos, reveil_lever, reveil_sonne, handlers_on_event}
use sweet_dawn.Handlers.Run.{Libc}
use sweet_dawn.Ipc.{max_clients}
use sweet_dawn.Ipc.Run.{IpcServer, free_clients}
use sweet_dawn.Service.{Moteur, service_run}
use sweet_dawn.Service.Linked.{IsSupervised, service_run-IsSupervised}
use sweet_dawn.Tests.World.{Net, net}
use sweet_dawn.Tests.{app_down}
use sweet_dawn.Tests.Commands.{hundred, tree, tree-IsTree, command_of}
use sweet_dawn.Command.{Command, at}
use sweet_dawn.Handlers.Run.{accepted, repondre}
use sweet_dawn.Handlers.Described.{Describes, commands_described}
use sweet_dawn.Tests.Client.{Doc, docs, built}
use sweet_dawn.Tests.Clocked.{calendar, texts}
use sweet_dawn.Tests.Served.{documents, Wires, wires, nothing_sent}

abbrev library : Libc net
library = record {
  calendar = calendar;
  json = documents;
  numbers = hundred;
  scanned = record { heure = λ s. none; couleur = λ s. none };
  texts = texts;
}

-- An alarm rings and another begins its sunrise while the link is up.
abbrev noted : Evenements
noted = record {
  file = (0xC7, 1) ∷ (0xED, 0) ∷ [];
  eclairage_change = false;
  alarme_1 = record { etat = reveil_repos; a_sonne = false; fin_snooze_ms = 0 };
  alarme_2 = record { etat = reveil_lever; a_sonne = false; fin_snooze_ms = 0 };
  reveil_change = false;
  surveiller = false;
  prochaine_lecture_ms = 500;
  arret_demande = false;
  connexions = 1;
  diffusions = [];
}

abbrev app : SweetDawn Evenements
app = record {
  device = app_down.device;
  connection = record { socket_fd = some 3; parser = [] };
  state = record { known = true; display = 1; date = 2; time = 3; feedback = 4; fade = 5 };
  initialized = true;
  connected = true;
  authorization = 1;
  last_refresh_ms = some 10;
  next_refresh_ms = 60010;
  next_connect_ms = 0;
  connect_backoff_ms = 0;
  consecutive_failures = 0;
  connect_count = 1;
  clock_set = false;
  clock_offset_s = pos 0;
  clock_synced_ms = 0;
  on_event = none;
  event_context = noted;
}

abbrev quiet : Net
quiet = record { time = 10; readings = []; replies = []; arrived = []; out = [] }

abbrev left : SweetDawn Evenements
left = record app {
  on_event = some handlers_on_event;
  event_context = record noted {
    file = [];
    alarme_1 = record { etat = reveil_sonne; a_sonne = true; fin_snooze_ms = 0 };
    surveiller = true;
    prochaine_lecture_ms = 1010;
  };
}

abbrev ended : IpcServer (Option (Moteur net))
ended = record {
  running = false;
  clients = free_clients max_clients;
  context = some (record { app = left; next_attempt_ms = 0; world = quiet });
}

abbrev stopped : Wires
stopped = record nothing_sent { waiting = false; stop = true }

app-IsLinked : IsLinked app.state app
app-IsLinked = ground arith

service_runs :
    service_run net library [] wires 20 3 9 app quiet nothing_sent ≡ some (ended, stopped)
unfolding service_run sweetdawn_tick aml_receive parser_next
service_runs = refl

service_run-IsSupervised_example : IsSupervised ended.context
service_run-IsSupervised_example =
    service_run-IsSupervised net library [] wires 20 3 9 app quiet nothing_sent ended stopped
      app-IsLinked service_runs

abbrev root : Command
unfolding tree
root = command_of (at tree 0)

abbrev described_by : Libc net
described_by = record library { json = docs }

commands_described_example :
    (v : Doc) × (repondre net described_by tree 20 app "commands" [] quiet
      ≡ some (accepted net described_by v, app, quiet))
    × Describes docs tree 0 v
unfolding tree
commands_described_example =
    commands_described net described_by tree 20 app quiet root built tree-IsTree refl
