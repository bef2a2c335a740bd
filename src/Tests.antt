-- ===== src/Tests.antt =====
-- Runs of the definitions at concrete inputs, and the theorems applied there: what the modules below
-- share.
mod World
mod Frames
mod Links
mod Requests
mod Operations
mod Noted
mod Served
mod Commands
mod Initial
mod Asked
mod Clocked
mod Listening
mod Client
mod Diagnosed
mod Running
use sweet_dawn.Base.{
  pos, ℕ, ◌+◌, ◌≤◌, ◌<◌, ◌≡◌, ◌≢◌, ◌↔◌, Bool, true, false, Option, none, some, List, [], ◌∷◌, ◌++◌,
  refl, sym, arith, inr, length, get_or, take, drop, append-nil,
}
use sweet_dawn.State.{AmlState, state_init}
use sweet_dawn.Protocol.{
  Bytes, max_frame_size, parser_init, parser_next, parser_feed, build_request, request_frame,
  extracted, waiting, checksum_of,
}
use sweet_dawn.Protocol.Extract.{IsFrame, extracted-IsFrame, next_frame}
use sweet_dawn.Protocol.Scan.{scan, parser_next-scan}
use sweet_dawn.Protocol.Stream.{Receives, idle, read, Drains, dry, more}
use sweet_dawn.Protocol.Reads.{Receives-unique, Receives-total}
use sweet_dawn.Protocol.Request.{build-IsFrame_iff, next-build, build_carries}
use sweet_dawn.Transport.{ok, AmlConfig, AmlConnection, aml_receive, aml_send}
use sweet_dawn.Transport.Receive.{IsSound, receive-IsSound}
use sweet_dawn.Transport.Send.{send_complete}
use sweet_dawn.Connect.{aml_connect}
use sweet_dawn.Connect.Opened.{IsOpened, connect-IsOpened}
use sweet_dawn.Link.{SweetDawn, next_backoff}
use sweet_dawn.Link.Invariant.{IsLinked, backoff_after, backoff_after_lem}
use sweet_dawn.Exchange.{envoyer_requete}
use sweet_dawn.Exchange.Response.{IsReply, request_answered}
use sweet_dawn.Core.{sweetdawn_refresh, sweetdawn_tick}
use sweet_dawn.Core.Tick.{tick-IsLinked}
use sweet_dawn.Transport.{Code, ok}
use sweet_dawn.Transport.Ends.{receive_ends, send_ends}
use sweet_dawn.Control.{control_settings_write, settings_args}
use sweet_dawn.Control.Alarm.{ControlAlarm, index_alarme, alarm_args, alarm_of, control_alarm_query}
use sweet_dawn.Control.Answered.{
  IsDecoded, IsWritten, alarm_of-alarm_args, alarm_query-IsDecoded, settings_write-IsWritten,
}
use sweet_dawn.Events.{handlers_on_event, Evenements, reveil_repos, reveil_lever, traiter_notes}
use sweet_dawn.Events.Watch.{IsWatched, annonce, notes-annonce, notes-IsWatched, on_event-IsWatched}
use World.{Net, net, net_sends, net_finite}

-- The status of the AML005, with the authorization 1.
abbrev pub status_frame : Bytes
status_frame = 0xFE ∷ 0xEF ∷ 0x0C ∷ 9 ∷ 0xAB ∷ 0xBB ∷ 4 ∷ 0xF0 ∷ 1 ∷ 0xF5 ∷ 0x55 ∷ 0x0D ∷ 0x0A ∷ []

-- Its settings 1, 2, 3, 4 and 5.
abbrev pub settings_frame : Bytes
settings_frame =
    0xFE ∷ 0xEF ∷ 0x0C ∷ 13 ∷ 0xAB ∷ 0xBB ∷ 8 ∷ 0xE2 ∷ 1 ∷ 2 ∷ 3 ∷ 4 ∷ 5 ∷ 0xEB ∷ 0x55 ∷ 0x0D ∷ 0x0A
    ∷ []

abbrev pub app_down : SweetDawn ℕ
app_down = record {
  device = some (record { name = []; aml_mac = 1 ∷ []; aml_chn = 6; blt_mac = 2 ∷ [] });
  connection = record { socket_fd = none; parser = [] };
  state = record { known = false; display = 0; date = 0; time = 0; feedback = 0; fade = 0 };
  initialized = true;
  connected = false;
  authorization = 0;
  last_refresh_ms = none;
  next_refresh_ms = 0;
  next_connect_ms = 0;
  connect_backoff_ms = 0;
  consecutive_failures = 0;
  connect_count = 0;
  clock_set = false;
  clock_offset_s = pos 0;
  clock_synced_ms = 0;
  on_event = none;
  event_context = 0;
}

-- What the periodic task leaves once it has connected, read the status and the settings.
abbrev pub app_up : SweetDawn ℕ
app_up = record app_down {
  connection = record { socket_fd = some 3; parser = [] };
  state = record { known = true; display = 1; date = 2; time = 3; feedback = 4; fade = 5 };
  connected = true;
  authorization = 1;
  last_refresh_ms = some 10;
  next_refresh_ms = 60010;
  connect_count = 1;
}

abbrev pub asked : Bytes
asked =
    0xFE ∷ 0xEF ∷ 0x0A ∷ 9 ∷ 0xAB ∷ 0xAA ∷ 4 ∷ 0 ∷ 0x16 ∷ 0x12 ∷ 0x55 ∷ 0x0D ∷ 0x0A ∷ 0xFE ∷ 0xEF
    ∷ 0x0A ∷ 8 ∷ 0xAB ∷ 0xAA ∷ 3 ∷ 0x12 ∷ 0x11 ∷ 0x55 ∷ 0x0D ∷ 0x0A ∷ []

-- A request of two bytes of arguments.
abbrev pub built : Bytes
built = 0xFE ∷ 0xEF ∷ 0x0A ∷ 10 ∷ 0xAB ∷ 0xAA ∷ 5 ∷ 0x20 ∷ 7 ∷ 9 ∷ 0x2B ∷ 0x55 ∷ 0x0D ∷ 0x0A ∷ []

pub built_runs : build_request 0x20 (7 ∷ 9 ∷ []) 259 ≡ some built
unfolding build_request request_frame checksum_of
built_runs = refl

abbrev pub open_link : AmlConnection
open_link = record { socket_fd = some 3; parser = [] }

abbrev pub waiting_net : Net
waiting_net = record {
  time = 10;
  readings = status_frame ∷ [];
  replies = [];
  arrived = [];
  out = [];
}

abbrev pub quiet_net : Net
quiet_net = record { time = 10; readings = []; replies = []; arrived = []; out = [] }

pub up-IsLinked : IsLinked app_up.state app_up
up-IsLinked = ground arith
