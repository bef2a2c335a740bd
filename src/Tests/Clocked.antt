-- ===== src/Tests/Clocked.antt =====
-- The clock of the AML005 on a calendar of regular days.
use sweet_dawn.Base.{
  ℕ, ◌+◌, ◌*◌, ◌/◌, ◌%◌, ◌<◌, ◌≤◌, ◌≡◌, ◌⊎◌, inr, refl, ap, arith, true, false, none, some, [], ◌∷◌,
  ℤ, pos, negsuc, pos_part, ◌+ℤ◌, ◌-ℤ◌,
}
use sweet_dawn.Protocol.{Bytes, parser_next, parser_feed, build_request, request_frame, checksum_of}
use sweet_dawn.Transport.{aml_receive, aml_send}
use sweet_dawn.Link.{SweetDawn}
use sweet_dawn.Link.Invariant.{IsLinked}
use sweet_dawn.Exchange.{envoyer_requete}
use sweet_dawn.Control.{Tm, control_sync_time}
use sweet_dawn.Control.Alarm.{ControlAlarm}
use sweet_dawn.Handlers.{done, verifier}
use sweet_dawn.Handlers.Clock.{
  Calendar, DateTexts, horloge_aml, prochaine_alarme, lire_date_heure, envoyer_heure,
  entretenir_horloge,
}
use sweet_dawn.Handlers.Clock.Alarms.{
  IsFirst, CanRing, IsRegular, prochaine_alarme-IsFirst, prochaine_alarme-found,
}
use sweet_dawn.Handlers.Clock.Dates.{Fields, Says, read_of, IsChosen, lire_date_heure-IsChosen}
use sweet_dawn.Handlers.Clock.Times.{IsSending, envoyer_heure-IsSending}
use sweet_dawn.Handlers.Clock.Upkeep.{IsDue, IsTended, entretenir_horloge-IsTended}
use sweet_dawn.Tests.World.{Net, net}
use sweet_dawn.Tests.{app_up}

-- A time of the calendar, in one long month of 2026.
abbrev tm_of : ℕ → Tm
tm_of n = record {
  tm_sec = n % 60;
  tm_min = n / 60 % 60;
  tm_hour = n / 3600 % 24;
  tm_wday = n / 86400 % 7;
  tm_mday = n / 86400;
  tm_mon = 0;
  tm_year = 126;
}

abbrev seconds_of : Tm → ℕ
seconds_of tm = tm.tm_mday * 86400 + tm.tm_hour * 3600 + tm.tm_min * 60 + tm.tm_sec

abbrev pub calendar : Calendar net
calendar = record {
  time = λ w. (pos 1000000, w);
  localtime = λ t. tm_of (pos_part t);
  mktime = λ tm. (pos (seconds_of tm), record tm { tm_wday = tm.tm_mday % 7 });
  strftime = λ t. "2026-01-12T13:46:40";
  zone = λ t. "+0100";
}

-- Half past six on Mondays.
abbrev alarm : ControlAlarm
alarm = record {
  enable = true;
  hour = 6;
  minute = 30;
  days = 2;
  tone = 2;
  volume = 12;
  snooze = 3;
  sunrise_enable = false;
  sunrise_minutes = 20;
  sunrise_brightness = 10;
}

-- The program in the mode "auto", before and behind the setting of the clock.
abbrev app_auto : SweetDawn ℕ
app_auto = record app_up { state = record app_up.state { time = 0 } }

abbrev app_set : SweetDawn ℕ
app_set = record app_auto { clock_set = true; clock_synced_ms = 10 }

abbrev quiet : Net
quiet = record { time = 10; readings = []; replies = []; arrived = []; out = [] }

known : (horloge_aml net calendar app_set quiet).0 ≡ some (pos 1000000)
unfolding horloge_aml ◌+ℤ◌
known = refl

prochaine_alarme-IsFirst_example :
    (((true ≡ false) ⊎ ((horloge_aml net calendar app_set quiet).0 ≡ none))
      × ((prochaine_alarme net calendar app_set alarm quiet).0 ≡ none))
    ⊎ ((now : ℤ) × (true ≡ true)
        × ((horloge_aml net calendar app_set quiet).0 ≡ some now)
        × IsFirst net calendar
            (calendar.localtime now)
            now
            alarm
            0
            8
            (prochaine_alarme net calendar app_set alarm quiet).0)
prochaine_alarme-IsFirst_example = prochaine_alarme-IsFirst net calendar app_set alarm quiet

alarm-CanRing : CanRing alarm
alarm-CanRing = record {
  hour = omega arith;
  minute = omega arith;
  some_day = (1, omega arith, inr (ground arith));
}

regular : IsRegular net calendar (calendar.localtime (pos 1000000)) 1000000 alarm
regular = record {
  midnight = 950400;
  morning = omega arith;
  evening = omega arith;
  weekday = omega arith;
  time = λ k h. ap pos (omega arith);
  day = λ k h. omega arith;
}

prochaine_alarme-found_example :
    (delay : ℕ) × ((prochaine_alarme net calendar app_set alarm quiet).0 ≡ some (pos delay))
    × (0 < delay)
    × (delay ≤ 7 * 86400)
prochaine_alarme-found_example =
    prochaine_alarme-found net calendar app_set alarm quiet 1000000 refl known alarm-CanRing regular

abbrev pub texts : DateTexts
texts = record {
  date_hms = λ v. none;
  date_hm = λ v. none;
  hms = λ v. none;
  hm = λ v. some (pos 7, pos 30);
}

abbrev half_past_seven : Tm
half_past_seven = record (tm_of 1000000) { tm_hour = 7; tm_min = 30; tm_sec = 0; tm_wday = 4 }

lire_date_heure-IsChosen_example :
    (f : Fields) × Says texts "07:30" (calendar.localtime (pos 1000000)) (read_of f)
    × IsChosen net calendar (calendar.localtime (pos 1000000)) f half_past_seven
unfolding lire_date_heure
lire_date_heure-IsChosen_example =
    lire_date_heure-IsChosen net calendar texts "07:30" (pos 1000000) half_past_seven refl

abbrev time_frame : Bytes
time_frame = 0xFE ∷ 0xEF ∷ 0x0C ∷ 8 ∷ 0xAB ∷ 0xBB ∷ 3 ∷ 0xF1 ∷ 0xF2 ∷ 0x55 ∷ 0x0D ∷ 0x0A ∷ []

abbrev answering : Net
answering = record quiet { replies = time_frame ∷ [] }

abbrev chosen_sent : Net
chosen_sent = record quiet {
  out =
      0xFE ∷ 0xEF ∷ 0x0A ∷ 16 ∷ 0xAB ∷ 0xAA ∷ 11 ∷ 0x01 ∷ 0 ∷ 30 ∷ 7 ∷ 4 ∷ 11 ∷ 1 ∷ 26 ∷ 2 ∷ 0x05
      ∷ 0x55 ∷ 0x0D ∷ 0x0A ∷ [];
}

abbrev now_sent : Net
now_sent = record quiet {
  out =
      0xFE ∷ 0xEF ∷ 0x0A ∷ 16 ∷ 0xAB ∷ 0xAA ∷ 11 ∷ 0x01 ∷ 40 ∷ 46 ∷ 13 ∷ 4 ∷ 11 ∷ 1 ∷ 26 ∷ 2 ∷ 0x17
      ∷ 0x55 ∷ 0x0D ∷ 0x0A ∷ [];
}

-- 11 days, 7 hours and 30 minutes are 977400 seconds.
abbrev app_chosen : SweetDawn ℕ
app_chosen = record app_set { clock_offset_s = negsuc 22599 }

sent_runs :
    envoyer_heure net calendar 20 app_auto half_past_seven answering
    ≡ some (done, app_chosen, chosen_sent)
unfolding envoyer_heure control_sync_time verifier envoyer_requete aml_receive aml_send parser_next
    build_request parser_feed request_frame checksum_of ◌-ℤ◌
sent_runs = refl

auto-IsLinked : IsLinked app_auto.state app_auto
auto-IsLinked = ground arith

envoyer_heure-IsSending_example :
    IsSending net calendar 20 app_auto answering half_past_seven done app_chosen
envoyer_heure-IsSending_example =
    envoyer_heure-IsSending net calendar 20 app_auto half_past_seven answering done app_chosen
      chosen_sent auto-IsLinked sent_runs

tended_runs :
    entretenir_horloge net calendar 20 app_auto 10 0 answering ≡ some (0, app_set, now_sent)
unfolding entretenir_horloge control_sync_time envoyer_requete aml_receive aml_send parser_next
    build_request parser_feed request_frame checksum_of ◌-ℤ◌ ◌+ℤ◌
tended_runs = refl

entretenir_horloge-IsTended_example :
    ((¬ IsDue net calendar app_auto 10 0)
      × (◌≡◌ {A = ℕ} 0 0)
      × (app_set ≡ app_auto)
      × (now_sent ≡ answering))
    ⊎ (IsDue net calendar app_auto 10 0
        × IsTended net calendar 20 app_auto 10 0 answering 0 app_set now_sent)
entretenir_horloge-IsTended_example =
    entretenir_horloge-IsTended net calendar 20 app_auto 10 0 answering 0 app_set now_sent
      tended_runs
