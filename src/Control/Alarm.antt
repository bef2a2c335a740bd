-- ===== src/Control/Alarm.antt =====
-- The two alarms (src/core/control.c).
use sweet_dawn.Base.{
  ℕ, ◌%◌, Bool, not, ◌||◌, Option, none, some, [], ◌∷◌, ltb, ◌==◌, if◌then◌else◌, get_or, bit_or,
}
use sweet_dawn.Os.{Os}
use sweet_dawn.Protocol.{Bytes}
use sweet_dawn.Transport.{Code, ok, err_generic, err_protocol}
use sweet_dawn.Link.{SweetDawn}
use sweet_dawn.Control.{demander, decoded, acknowledged, flag}

-- `ControlAlarm`
pub record ControlAlarm : Type 0 where
  pub enable : Bool
  pub hour : ℕ
  pub minute : ℕ
  pub days : ℕ
  pub tone : ℕ
  pub volume : ℕ
  pub snooze : ℕ
  pub sunrise_enable : Bool
  pub sunrise_minutes : ℕ
  pub sunrise_brightness : ℕ

-- `index_alarme`: `ALARM_INDEX_1`, `ALARM_INDEX_2`, or 0.
unfoldable pub index_alarme : ℕ → ℕ
index_alarme number = if number == 1 then 0x01 else if number == 2 then 0x07 else 0

-- `args` of `control_alarm_write`; `& 0x7F` is `% 128`.
unfoldable pub alarm_args : ℕ → ControlAlarm → Bytes
alarm_args index alarm =
    index
    ∷ flag alarm.enable
    ∷ alarm.minute
    ∷ alarm.hour
    ∷ alarm.days % 128
    ∷ alarm.tone
    ∷ alarm.volume
    ∷ alarm.snooze
    ∷ flag alarm.sunrise_enable
    ∷ alarm.sunrise_minutes
    ∷ alarm.sunrise_brightness
    ∷ []

-- What `control_alarm_query` makes of the data.
unfoldable pub alarm_of : ℕ → Bytes → Code × Option ControlAlarm
alarm_of index d = if not (get_or d 0 0 % 128 == index) then (err_protocol, none) else (
  ok,
  some (record {
    enable = get_or d 1 0 == 1;
    minute = get_or d 2 0;
    hour = get_or d 3 0;
    days = get_or d 4 0 % 128;
    tone = get_or d 5 0;
    volume = get_or d 6 0;
    snooze = get_or d 7 0;
    sunrise_enable = get_or d 8 0 == 1;
    sunrise_minutes = get_or d 9 0;
    sunrise_brightness = get_or d 10 0;
  }),
)

-- What `control_alarm_status` makes of the data: the alarm whose sunrise runs, and the one that
-- rings.
unfoldable pub alarm_status_of : Bytes → Code × Option (ℕ × ℕ)
alarm_status_of d = (ok, some (get_or d 0 0, get_or d 1 0))

module _ (os : Os) {Ctx : Type 0} where
  open os use {World}

  -- `control_alarm_query`
  unfoldable pub control_alarm_query :
      ℕ → SweetDawn Ctx → ℕ → World → Option (Code × Option ControlAlarm × SweetDawn Ctx × World)
  unfolding demander decoded index_alarme alarm_of
  control_alarm_query fuel app number w =
      if index_alarme number == 0
      then some (err_generic, none, app, w)
      else decoded (alarm_of (index_alarme number))
          (demander os fuel app 0x03 (bit_or (index_alarme number) 0x80 ∷ 2 ∷ []) 0xF3 0 11 w)

  -- `control_alarm_write`
  unfoldable pub control_alarm_write :
      ℕ → SweetDawn Ctx → ℕ → ControlAlarm → World → Option (Code × SweetDawn Ctx × World)
  unfolding demander acknowledged index_alarme alarm_args
  control_alarm_write fuel app number alarm w =
      if index_alarme number == 0 || ltb 23 alarm.hour || ltb 59 alarm.minute
      then some (err_generic, app, w)
      else acknowledged
          (demander os fuel app 0x03 (alarm_args (index_alarme number) alarm) 0xF3 0 0 w)

  -- `control_alarm_status`
  unfoldable pub control_alarm_status :
      ℕ → SweetDawn Ctx → World → Option (Code × Option (ℕ × ℕ) × SweetDawn Ctx × World)
  unfolding demander decoded alarm_status_of
  control_alarm_status fuel app w =
      decoded alarm_status_of (demander os fuel app 0x25 [] 0xC5 0 2 w)

  -- `control_alarm_stop`
  unfoldable pub control_alarm_stop :
      ℕ → SweetDawn Ctx → World → Option (Code × SweetDawn Ctx × World)
  unfolding demander acknowledged
  control_alarm_stop fuel app w = acknowledged (demander os fuel app 0x29 [] 0xC9 0 0 w)

  -- `control_alarm_snooze`
  unfoldable pub control_alarm_snooze :
      ℕ → SweetDawn Ctx → World → Option (Code × SweetDawn Ctx × World)
  unfolding demander acknowledged
  control_alarm_snooze fuel app w = acknowledged (demander os fuel app 0x28 [] 0xC8 0 0 w)
