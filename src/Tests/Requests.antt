-- ===== src/Tests/Requests.antt =====
-- Requests and the periodic task: runs and theorems on the system of World.
use sweet_dawn.Base.{ℕ, ◌≡◌, some, [], ◌∷◌, refl, arith, drop}
use sweet_dawn.Protocol.{parser_next, parser_feed, build_request, request_frame, checksum_of}
use sweet_dawn.Transport.{ok, aml_receive, aml_send}
use sweet_dawn.Connect.{aml_connect}
use sweet_dawn.Link.{SweetDawn}
use sweet_dawn.Link.Invariant.{IsLinked}
use sweet_dawn.Exchange.{envoyer_requete}
use sweet_dawn.Exchange.Response.{IsReply, request_answered}
use sweet_dawn.Core.{sweetdawn_refresh, sweetdawn_tick}
use sweet_dawn.Core.Refresh.{IsRefreshed}
use sweet_dawn.Core.Stored.{IsStored, refresh_lem}
use sweet_dawn.Core.Tick.{tick-IsLinked}
use sweet_dawn.Transport.{ok}
use sweet_dawn.Tests.World.{Net, net}
use sweet_dawn.Tests.{status_frame, settings_frame, app_down, app_up, asked, up-IsLinked}

abbrev answers : Net
answers = record {
  time = 10;
  readings = [];
  replies = status_frame ∷ settings_frame ∷ [];
  arrived = [];
  out = [];
}

tick_runs :
    sweetdawn_tick net 20 app_down answers
    ≡ some (app_up, record { time = 10; readings = []; replies = []; arrived = []; out = asked })
unfolding sweetdawn_tick sweetdawn_refresh aml_connect envoyer_requete aml_receive aml_send
    parser_next build_request parser_feed request_frame checksum_of
tick_runs = refl

down-IsLinked : IsLinked app_down.state app_down
down-IsLinked = ground arith

tick-IsLinked_example : IsLinked app_up.state app_up
tick-IsLinked_example =
    tick-IsLinked net 20 app_down answers app_up
      (record { time = 10; readings = []; replies = []; arrived = []; out = asked }) down-IsLinked
      tick_runs

abbrev answers_again : Net
answers_again = record answers { time = 70010 }

abbrev net_asked : Net
net_asked = record { time = 70010; readings = []; replies = []; arrived = []; out = asked }

abbrev refreshed_again : SweetDawn ℕ
refreshed_again = record app_up { last_refresh_ms = some 70010; next_refresh_ms = 130010 }

refresh_runs : sweetdawn_refresh net 20 app_up answers_again ≡ some (ok, refreshed_again, net_asked)
unfolding sweetdawn_refresh envoyer_requete aml_receive aml_send parser_next build_request
    parser_feed request_frame checksum_of
refresh_runs = refl

refresh_lem_example :
    IsRefreshed app_up.state ok refreshed_again
    × (ok ≡ ok → IsStored net 20 app_up answers_again refreshed_again)
refresh_lem_example =
    refresh_lem net 20 app_up answers_again ok refreshed_again net_asked up-IsLinked refresh_runs

abbrev settings_answer : Net
settings_answer = record {
  time = 10;
  readings = [];
  replies = settings_frame ∷ [];
  arrived = [];
  out = [];
}

abbrev settings_asked : Net
settings_asked = record {
  time = 10;
  readings = [];
  replies = [];
  arrived = [];
  out = drop 13 asked;
}

request_runs :
    envoyer_requete net 20 app_up 0x12 (some 0xE2) 0 [] settings_answer
    ≡ some (ok, settings_frame, app_up, settings_asked)
unfolding envoyer_requete aml_receive aml_send parser_next build_request parser_feed request_frame
    checksum_of
request_runs = refl

request_answered_example : IsReply app_up.state (some 0xE2) ok settings_frame app_up
request_answered_example =
    request_answered net app_up.state 20 app_up 0x12 (some 0xE2) 0 [] settings_answer ok
      settings_frame app_up settings_asked up-IsLinked request_runs
