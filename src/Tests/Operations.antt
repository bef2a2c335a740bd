-- ===== src/Tests/Operations.antt =====
-- Operations: runs and theorems of Control on the system of World.
use sweet_dawn.Base.{◌≡◌, true, false, some, [], ◌∷◌, refl, arith, inr}
use sweet_dawn.State.{AmlState}
use sweet_dawn.Protocol.{Bytes, parser_next, parser_feed, build_request, request_frame, checksum_of}
use sweet_dawn.Transport.{ok, aml_receive, aml_send}
use sweet_dawn.Exchange.{envoyer_requete}
use sweet_dawn.Transport.{ok}
use sweet_dawn.Control.{control_settings_write}
use sweet_dawn.Control.Alarm.{ControlAlarm, index_alarme, alarm_args, alarm_of, control_alarm_query}
use sweet_dawn.Control.Answered.{alarm_of-alarm_args}
use sweet_dawn.Tests.World.{Net, net}
use sweet_dawn.Tests.{app_up}

-- Half past six on working days.
abbrev alarm : ControlAlarm
alarm = record {
  enable = true;
  hour = 6;
  minute = 30;
  days = 0x3E;
  tone = 2;
  volume = 12;
  snooze = 3;
  sunrise_enable = false;
  sunrise_minutes = 20;
  sunrise_brightness = 10;
}

alarm_of-alarm_args_example :
    alarm_of (index_alarme 2) (alarm_args (index_alarme 2) alarm) ≡ (ok, some alarm)
alarm_of-alarm_args_example = alarm_of-alarm_args 2 alarm (inr refl) (omega arith)

abbrev alarm_frame : Bytes
alarm_frame =
    0xFE ∷ 0xEF ∷ 0x0C ∷ 19 ∷ 0xAB ∷ 0xBB ∷ 14 ∷ 0xF3 ∷ 7 ∷ 1 ∷ 30 ∷ 6 ∷ 0x3E ∷ 2 ∷ 12 ∷ 3 ∷ 0 ∷ 20
    ∷ 10 ∷ 0x55 ∷ 0x55 ∷ 0x0D ∷ 0x0A ∷ []

abbrev alarm_answer : Net
alarm_answer = record {
  time = 10;
  readings = [];
  replies = alarm_frame ∷ [];
  arrived = [];
  out = [];
}

abbrev alarm_asked : Net
alarm_asked = record {
  time = 10;
  readings = [];
  replies = [];
  arrived = [];
  out =
      0xFE ∷ 0xEF ∷ 0x0A ∷ 10 ∷ 0xAB ∷ 0xAA ∷ 5 ∷ 0x03 ∷ 0x87 ∷ 2 ∷ 0x83 ∷ 0x55 ∷ 0x0D ∷ 0x0A ∷ [];
}

alarm_runs :
    control_alarm_query net 20 app_up 2 alarm_answer ≡ some (ok, some alarm, app_up, alarm_asked)
unfolding control_alarm_query envoyer_requete aml_receive aml_send parser_next build_request
    parser_feed request_frame checksum_of
alarm_runs = refl

abbrev other_settings : AmlState
other_settings = record { known = true; display = 9; date = 8; time = 7; feedback = 6; fade = 5 }

abbrev written_frame : Bytes
written_frame = 0xFE ∷ 0xEF ∷ 0x0C ∷ 8 ∷ 0xAB ∷ 0xBB ∷ 3 ∷ 0xF2 ∷ 0xF1 ∷ 0x55 ∷ 0x0D ∷ 0x0A ∷ []

abbrev write_answer : Net
write_answer = record {
  time = 10;
  readings = [];
  replies = written_frame ∷ [];
  arrived = [];
  out = [];
}

abbrev write_asked : Net
write_asked = record {
  time = 10;
  readings = [];
  replies = [];
  arrived = [];
  out =
      0xFE ∷ 0xEF ∷ 0x0A ∷ 13 ∷ 0xAB ∷ 0xAA ∷ 8 ∷ 0x02 ∷ 9 ∷ 8 ∷ 7 ∷ 6 ∷ 5 ∷ 0x0F ∷ 0x55 ∷ 0x0D
      ∷ 0x0A ∷ [];
}

write_runs :
    control_settings_write net 20 app_up other_settings write_answer
    ≡ some (ok, record app_up { state = other_settings }, write_asked)
unfolding control_settings_write envoyer_requete aml_receive aml_send parser_next build_request
    parser_feed request_frame checksum_of
write_runs = refl
