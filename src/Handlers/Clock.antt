-- ===== src/Handlers/Clock.antt =====
-- The clock of the AML005 (src/app/handlers.c, section 3): the time that the program set it to, the next alarm, and
-- the handlers that set it. time(), localtime_r(), mktime() and sscanf() are parameters; a call of
-- time() moves the world.
pub mod Alarms
pub mod Dates
pub mod Times
pub mod Upkeep
use sweet_dawn.Base.{
  ℕ, zero, suc, ◌+◌, ◌-◌, ◌/◌, ◌%◌, ◌^◌, ◌*◌, Bool, true, not, ◌&&◌, ◌||◌, Option, none, some,
  String, same, ltb, ◌==◌, if◌then◌else◌, bit_and, ℤ, pos, pos_part, ◌+ℤ◌, ◌-ℤ◌, ltb_ℤ,
  is_minus_one,
}
use sweet_dawn.Os.{Os}
use sweet_dawn.State.{AmlState}
use sweet_dawn.Transport.{Code, ok}
use sweet_dawn.Link.{SweetDawn}
use sweet_dawn.Control.{Tm, control_settings_write, control_sync_time}
use sweet_dawn.Control.Alarm.{ControlAlarm}
use sweet_dawn.Command.{Command}
use sweet_dawn.Handlers.{Answer, done, echec, verifier}
use sweet_dawn.Handlers.Write.{reglage_change}

-- The calls of the C library on dates. mktime() is that of a structure whose tm_isdst is -1: the
-- time, which is -1 if there is none, and the structure made normal.
pub record Calendar (os : Os) : Type 0 where
  pub time : os.World → ℤ × os.World
  pub localtime : ℤ → Tm
  pub mktime : Tm → ℤ × Tm
  -- strftime() of a local time with "%Y-%m-%dT%H:%M:%S", and with "%z".
  pub strftime : ℤ → String
  pub zone : ℤ → String

-- What sscanf() reads with each format of `lire_date_heure` where it returns the number of fields,
-- the character behind them not counted.
pub record DateTexts : Type 0 where
  pub date_hms : String → Option (ℤ × ℤ × ℤ × ℤ × ℤ × ℤ)
  pub date_hm : String → Option (ℤ × ℤ × ℤ × ℤ × ℤ)
  pub hms : String → Option (ℤ × ℤ × ℤ)
  pub hm : String → Option (ℤ × ℤ)

-- `CLOCK_RESYNC_MS`
abbrev pub clock_resync_ms : ℕ
clock_resync_ms = 24 * 3600 * 1000

-- `CLOCK_RETRY_MS`
abbrev pub clock_retry_ms : ℕ
clock_retry_ms = 10 * 60 * 1000

-- The rounding of `noter_heure`.
unfoldable pub rounded : ℤ → ℤ
rounded offset =
    if not (ltb_ℤ offset (pos 0 -ℤ pos 1)) && not (ltb_ℤ (pos 1) offset) then pos 0 else offset

-- Whether a number is outside the range of two naturals.
abbrev pub off : ℤ → ℕ → ℕ → Bool
off z low high = ltb_ℤ z (pos low) || ltb_ℤ (pos high) z

-- The numbers of `format_delai`: the days, the hours and the minutes.
unfoldable pub format_delai : ℕ → ℕ × ℕ × ℕ
format_delai seconds =
    let minutes = (seconds + 59) / 60 in (minutes / (24 * 60), minutes / 60 % 24, minutes % 60)

module _ (os : Os) (calendar : Calendar os) where
  open os use {World}

  -- The candidate of `prochaine_alarme`, `k` days on.
  abbrev pub candidate : Tm → ControlAlarm → ℕ → Tm
  candidate today alarm k = record today {
    tm_mday = today.tm_mday + k;
    tm_hour = alarm.hour;
    tm_min = alarm.minute;
    tm_sec = 0;
  }

  -- Whether an alarm rings on a day of the week.
  unfoldable pub ticked : ControlAlarm → ℕ → Bool
  ticked alarm wday = bit_and alarm.days 0x7F == 0 || not (bit_and alarm.days (2 ^ wday) == 0)

  -- The loop of `prochaine_alarme` from the day `k`, with `left` rounds to go.
  unfoldable pub chercher_alarme : Tm → ℤ → ControlAlarm → ℕ → ℕ → Option ℤ
  unfolding ticked
  chercher_alarme today now alarm zero k = none
  chercher_alarme today now alarm (suc left) k =
      let rest = chercher_alarme today now alarm left (k + 1) in
      let t = (calendar.mktime (candidate today alarm k)).0 in
      let normal = (calendar.mktime (candidate today alarm k)).1 in
      if is_minus_one t || not (ltb_ℤ now t)
      then rest
      else if ticked alarm normal.tm_wday
      then some (t -ℤ now)
      else rest

  -- The date that was read, once it is checked: its six fields, in the structure of today.
  unfoldable pub date_of : Tm → ℤ × ℤ × ℤ × ℤ × ℤ × ℤ → Option Tm
  date_of today (y, mo, d, h, mi, s) =
      if off y 2000 2099 || off mo 1 12 || off d 1 31 || off h 0 23 || off mi 0 59 || off s 0 59
      then none
      else let r = calendar.mktime (record today {
        tm_year = pos_part y - 1900;
        tm_mon = pos_part mo - 1;
        tm_mday = pos_part d;
        tm_hour = pos_part h;
        tm_min = pos_part mi;
        tm_sec = pos_part s;
      }) in
        if is_minus_one r.0
          || not (r.1.tm_mday == pos_part d)
          || not (r.1.tm_mon == pos_part mo - 1)
        then none
        else some r.1

  -- `lire_date_heure`; none is -1.
  unfoldable pub lire_date_heure : DateTexts → String → ℤ → Option Tm
  unfolding date_of
  lire_date_heure texts value now =
      let today = calendar.localtime now in
      let y = pos (today.tm_year + 1900) in
      let mo = pos (today.tm_mon + 1) in
      let d = pos today.tm_mday in
      elim (texts.date_hms value) [
        | some fields ↦ date_of today fields
        | none ↦ elim (texts.date_hm value) [
          | some (y', mo', d', h, mi) ↦ date_of today (y', mo', d', h, mi, pos 0)
          | none ↦ elim (texts.hms value) [
            | some (h, mi, s) ↦ date_of today (y, mo, d, h, mi, s)
            | none ↦ elim (texts.hm value) [
              | some (h, mi) ↦ date_of today (y, mo, d, h, mi, pos 0)
              | none ↦ none
            ]
          ]
        ]
      ]

module _ (os : Os) (calendar : Calendar os) {Ctx : Type 0} where
  open os use {World}

  -- `noter_heure`
  unfoldable pub noter_heure : SweetDawn Ctx → Tm → World → SweetDawn Ctx × World
  unfolding rounded
  noter_heure app tm w =
      let (now, w') = calendar.time w in
      let (synced, w'') = os.clock w' in
      (
        record app {
          clock_set = true;
          clock_offset_s = rounded ((calendar.mktime tm).0 -ℤ now);
          clock_synced_ms = synced;
        },
        w'',
      )

  -- `horloge_aml`
  unfoldable pub horloge_aml : SweetDawn Ctx → World → Option ℤ × World
  horloge_aml app w =
      if not app.clock_set || not app.state.known || not (app.state.time == 0)
      then (none, w)
      else let (now, w') = calendar.time w in (some (now +ℤ app.clock_offset_s), w')

  -- `prochaine_alarme`; none is false.
  unfoldable pub prochaine_alarme : SweetDawn Ctx → ControlAlarm → World → Option ℤ × World
  unfolding horloge_aml chercher_alarme
  prochaine_alarme app alarm w =
      if not alarm.enable
      then (none, w)
      else let r = horloge_aml app w in
        elim r.0 [
          | none ↦ (none, r.1)
          | some now ↦ (chercher_alarme os calendar (calendar.localtime now) now alarm 8 0, r.1)
        ]

  -- `envoyer_heure` behind control_sync_time().
  unfoldable pub heure_envoyee :
      Tm → Option (Code × SweetDawn Ctx × World) → Option (Answer × SweetDawn Ctx × World)
  unfolding noter_heure verifier
  heure_envoyee tm none = none
  heure_envoyee tm (some (ok, app, w)) =
      let (app', w') = noter_heure app tm w in some (done, app', w')
  heure_envoyee tm (some (code, app, w)) = some (verifier code, app, w)

  -- `envoyer_heure` once the AML005 is in the mode "auto".
  unfoldable pub heure_en_auto :
      ℕ → Tm → Option (Code × SweetDawn Ctx × World) → Option (Answer × SweetDawn Ctx × World)
  unfolding heure_envoyee verifier
  heure_en_auto fuel tm none = none
  heure_en_auto fuel tm (some (ok, app, w)) = heure_envoyee tm (control_sync_time os fuel app tm w)
  heure_en_auto fuel tm (some (code, app, w)) = some (verifier code, app, w)

  -- `envoyer_heure`
  unfoldable pub envoyer_heure :
      ℕ → SweetDawn Ctx → Tm → World → Option (Answer × SweetDawn Ctx × World)
  unfolding heure_en_auto
  envoyer_heure fuel app tm w =
      if not app.state.known
      then some
          (echec "STATE_UNKNOWN" "Reglages pas encore lus : reessayer apres connexion", app, w)
      else heure_en_auto fuel tm (
          if not (app.state.time == 0)
          then control_settings_write os fuel app (record app.state { time = 0 }) w
          else some (ok, app, w))

  -- `synchroniser_heure`
  unfoldable pub synchroniser_heure :
      ℕ → SweetDawn Ctx → World → Option (Answer × SweetDawn Ctx × World)
  unfolding envoyer_heure
  synchroniser_heure fuel app w =
      let (now, w') = calendar.time w in envoyer_heure fuel app (calendar.localtime now) w'

  -- `regler_heure`
  unfoldable pub regler_heure :
      DateTexts → ℕ → SweetDawn Ctx → String → World → Option (Answer × SweetDawn Ctx × World)
  unfolding envoyer_heure lire_date_heure
  regler_heure texts fuel app value w =
      let (now, w') = calendar.time w in
      elim (lire_date_heure os calendar texts value now) [
        | none ↦
            some (
              echec "INVALID_VALUE" "Heure attendue : HH:MM, HH:MM:SS ou AAAA-MM-JJ HH:MM",
              app,
              w',
            )
        | some chosen ↦ envoyer_heure fuel app chosen w'
      ]

  -- `ecrire_reglage` behind control_settings_write().
  unfoldable pub reglage_ecrit :
      ℕ → Bool → Option (Code × SweetDawn Ctx × World) → Option (Answer × SweetDawn Ctx × World)
  unfolding synchroniser_heure verifier
  reglage_ecrit fuel sets_time none = none
  reglage_ecrit fuel sets_time (some (ok, app, w)) =
      if sets_time then synchroniser_heure fuel app w else some (done, app, w)
  reglage_ecrit fuel sets_time (some (code, app, w)) = some (verifier code, app, w)

  -- `ecrire_reglage`
  unfoldable pub ecrire_reglage :
      ℕ → SweetDawn Ctx → Command → String → World → Option (Answer × SweetDawn Ctx × World)
  unfolding reglage_ecrit reglage_change
  ecrire_reglage fuel app command value w =
      if not app.state.known
      then some
          (echec "STATE_UNKNOWN" "Reglages pas encore lus : reessayer apres connexion", app, w)
      else let settings = reglage_change command value app.state in
        reglage_ecrit fuel (same command.name "Time" && settings.time == 0)
          (control_settings_write os fuel app settings w)

  -- `entretenir_horloge` behind control_sync_time(); the first result is `next_attempt_ms`.
  unfoldable pub horloge_entretenue :
      ℕ → ℕ → Tm → Option (Code × SweetDawn Ctx × World) → Option (ℕ × SweetDawn Ctx × World)
  unfolding noter_heure
  horloge_entretenue now_ms next tm none = none
  horloge_entretenue now_ms next tm (some (ok, app, w)) =
      let (app', w') = noter_heure app tm w in some (next, app', w')
  horloge_entretenue now_ms next tm (some (code, app, w)) = some (now_ms + clock_retry_ms, app, w)

  -- Whether `entretenir_horloge` sends the time.
  unfoldable pub horloge_due : SweetDawn Ctx → ℕ → ℕ → Bool
  horloge_due app now_ms next =
      not (not app.state.known || not (app.state.time == 0))
      && not
          (ltb now_ms next || app.clock_set && ltb now_ms (app.clock_synced_ms + clock_resync_ms))

  -- `entretenir_horloge`, with its static `next_attempt_ms`.
  unfoldable pub entretenir_horloge :
      ℕ → SweetDawn Ctx → ℕ → ℕ → World → Option (ℕ × SweetDawn Ctx × World)
  unfolding horloge_entretenue horloge_due
  entretenir_horloge fuel app now_ms next w =
      if not (horloge_due app now_ms next)
      then some (next, app, w)
      else let (now, w') = calendar.time w in
        let tm =
          calendar.localtime (now +ℤ (if app.clock_set then app.clock_offset_s else pos 0)) in
        horloge_entretenue now_ms next tm (control_sync_time os fuel app tm w')
