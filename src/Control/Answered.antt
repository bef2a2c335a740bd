-- ===== src/Control/Answered.antt =====
-- What the operations of src/core/control.c write and read.
use sweet_dawn.Base.{
  ℕ, ◌+◌, ◌≤◌, ◌<◌, Option, [], ◌∷◌, ltb, ◌==◌, ◌≡◌, ◌≢◌, ◌⊎◌, true, refl, ap, some, none, arith,
  length, if_intro, subst,
}
use sweet_dawn.Base.{bit_or}
use sweet_dawn.Os.{Os}
use sweet_dawn.State.{AmlState}
use sweet_dawn.Protocol.{Bytes}
use sweet_dawn.Transport.{Code, ok}
use sweet_dawn.Link.{SweetDawn, frame_data}
use sweet_dawn.Link.Invariant.{IsLinked}
use sweet_dawn.Exchange.{envoyer_requete}
use sweet_dawn.Exchange.Response.{IsAnswer, Replies, envoyer-Replies}
use sweet_dawn.Core.Refresh.{relinked, settings-IsLinked}
use sweet_dawn.Control.{
  Tm, frame_overhead, settings_args, time_args, donnees_of, decoded, acknowledged, settings_written,
  demander, control_settings_write, control_sync_time,
}
use sweet_dawn.Control.Alarm.{ControlAlarm, index_alarme, alarm_args, alarm_of, control_alarm_query}

-- The settings of an alarm that were written are those that are read back from data in the order
-- they were written in, for an alarm 1 or 2 whose days are seven bits.
pub alarm_of-alarm_args :
    (number : ℕ) (alarm : ControlAlarm)
    → (number ≡ 1) ⊎ (number ≡ 2)
    → alarm.days < 128
    → alarm_of (index_alarme number) (alarm_args (index_alarme number) alarm) ≡ (ok, some alarm)
unfolding alarm_of alarm_args index_alarme
alarm_of-alarm_args number alarm h d = ground arith

-- Data that answer a request: those of a response with at least `min` bytes of them.
pub IsData : ℕ → ℕ → Bytes → Type 0
IsData expected min bytes =
    (f : Bytes) × IsAnswer expected f × (frame_overhead + min ≤ length f) × (bytes ≡ frame_data f)

-- What `demander` promises.
pub record IsAsked {Ctx : Type 0} (state : AmlState) (expected min : ℕ) (code : Code)
    (bytes : Bytes) (app : SweetDawn Ctx) : Type 0 where
  pub linked : IsLinked state app
  pub answer : code ≡ ok → IsData expected min bytes

abbrev Asks :
    {Ctx W : Type 0} → AmlState → ℕ → ℕ → Option (Code × Bytes × SweetDawn Ctx × W) → Type 0
Asks state expected min none = Unit
Asks state expected min (some (code, bytes, app, w)) = IsAsked state expected min code bytes app

-- What an operation promises that reads its answer.
pub record IsDecoded {Ctx A : Type 0} (state : AmlState) (expected min : ℕ)
    (decode : Bytes → Code × Option A) (code : Code) (value : Option A) (app : SweetDawn Ctx)
    : Type 0 where
  pub linked : IsLinked state app
  pub answer :
      code ≡ ok → (bytes : Bytes) × IsData expected min bytes × (decode bytes ≡ (ok, value))

abbrev Queries :
    {Ctx W A : Type 0}
    → AmlState
    → ℕ
    → ℕ
    → (Bytes → Code × Option A)
    → Option (Code × Option A × SweetDawn Ctx × W)
    → Type 0
Queries state expected min decode none = Unit
Queries state expected min decode (some (code, value, app, w)) =
    IsDecoded state expected min decode code value app

-- What `control_settings_write` promises of the settings `s`.
pub record IsWritten {Ctx : Type 0} (state s : AmlState) (code : Code) (app : SweetDawn Ctx)
    : Type 0 where
  pub linked : IsLinked app.state app
  pub failed_keeps : code ≢ ok → app.state ≡ state
  pub written : code ≡ ok → app.state ≡ record s { known = true }

abbrev pub Writes :
    {Ctx W : Type 0} → AmlState → AmlState → Option (Code × SweetDawn Ctx × W) → Type 0
Writes state s none = Unit
Writes state s (some (code, app, w)) = IsWritten state s code app

module _ (os : Os) {Ctx : Type 0} (state : AmlState) where
  open os use {World}

  donnees_of-Asks :
      (expected min : ℕ) (r : Option (Code × Bytes × SweetDawn Ctx × World))
      → Replies state (some expected) r
      → Asks state expected min (donnees_of min r)
  unfolding donnees_of IsData
  donnees_of-Asks expected min none v = tt
  donnees_of-Asks expected min (some (ok, f, app, w)) v =
      if_intro (Asks state expected min) (ltb (length f) (frame_overhead + min))
        (λ h. record { linked = v.linked; answer = λ x. cc })
        (λ h. record {
          linked = v.linked;
          answer = λ x. (f, (v.answer expected refl refl).0, ground arith, refl);
        })
  donnees_of-Asks expected min (some (code, f, app, w)) v = record {
    linked = v.linked;
    answer = λ x. cc;
  }

  demander-Asks :
      (fuel : ℕ) (app : SweetDawn Ctx) (request : ℕ) (arguments : Bytes) (expected timeout min : ℕ)
      (w : World)
      → IsLinked state app
      → Asks state expected min (demander os fuel app request arguments expected timeout min w)
  unfolding demander
  demander-Asks fuel app request arguments expected timeout min w v =
      donnees_of-Asks expected min
        (envoyer_requete os fuel app request (some expected) timeout arguments w)
        (envoyer-Replies os state fuel app request (some expected) timeout arguments w v)

  decoded-Queries :
      {A : Type 0} (expected min : ℕ) (decode : Bytes → Code × Option A)
      (r : Option (Code × Bytes × SweetDawn Ctx × World))
      → Asks state expected min r
      → Queries state expected min decode (decoded decode r)
  unfolding decoded
  decoded-Queries expected min decode none v = tt
  decoded-Queries expected min decode (some (ok, bytes, app, w)) v = record {
    linked = v.linked;
    answer = λ x. (bytes, v.answer refl, ap (λ c. (c, (decode bytes).1)) x);
  }
  decoded-Queries expected min decode (some (code, bytes, app, w)) v = record {
    linked = v.linked;
    answer = λ x. cc;
  }

  settings_written-Writes :
      (s : AmlState) (expected min : ℕ) (r : Option (Code × Bytes × SweetDawn Ctx × World))
      → Asks state expected min r
      → Writes state s (settings_written s r)
  unfolding settings_written
  settings_written-Writes s expected min none v = tt
  settings_written-Writes s expected min (some (ok, bytes, app, w)) v = record {
    linked = settings-IsLinked v.linked;
    failed_keeps = λ h. absurd (h refl);
    written = λ x. refl;
  }
  settings_written-Writes s expected min (some (code, bytes, app, w)) v = record {
    linked = relinked v.linked;
    failed_keeps = λ h. v.linked.remembers;
    written = λ x. cc;
  }

  alarm_query-Queries :
      (fuel : ℕ) (app : SweetDawn Ctx) (number : ℕ) (w : World)
      → IsLinked state app
      → Queries state 0xF3 11
          (alarm_of (index_alarme number))
          (control_alarm_query os fuel app number w)
  unfolding control_alarm_query
  alarm_query-Queries fuel app number w v =
      if_intro (Queries state 0xF3 11 (alarm_of (index_alarme number))) (index_alarme number == 0)
        (λ h. record { linked = v; answer = λ x. cc })
        (λ h.
          decoded-Queries 0xF3 11 (alarm_of (index_alarme number))
            (demander os fuel app 0x03 (bit_or (index_alarme number) 0x80 ∷ 2 ∷ []) 0xF3 0 11 w)
            (demander-Asks fuel app 0x03 (bit_or (index_alarme number) 0x80 ∷ 2 ∷ []) 0xF3 0 11 w
              v))

  pub settings_write-Writes :
      (fuel : ℕ) (app : SweetDawn Ctx) (s : AmlState) (w : World)
      → IsLinked state app
      → Writes state s (control_settings_write os fuel app s w)
  unfolding control_settings_write
  settings_write-Writes fuel app s w v =
      settings_written-Writes s 0xF2 0 (demander os fuel app 0x02 (settings_args s) 0xF2 0 0 w)
        (demander-Asks fuel app 0x02 (settings_args s) 0xF2 0 0 w v)

-- What every operation without data promises.
abbrev pub Links : {Ctx W : Type 0} → AmlState → Option (Code × SweetDawn Ctx × W) → Type 0
Links state none = Unit
Links state (some (code, app, w)) = IsLinked state app

module _ (os : Os) {Ctx : Type 0} (state : AmlState) where
  open os use {World}

  acknowledged-Links :
      (expected min : ℕ) (r : Option (Code × Bytes × SweetDawn Ctx × World))
      → Asks state expected min r
      → Links state (acknowledged r)
  unfolding acknowledged
  acknowledged-Links expected min none v = tt
  acknowledged-Links expected min (some (code, bytes, app, w)) v = v.linked

  pub sync_time-Links :
      (fuel : ℕ) (app : SweetDawn Ctx) (now : Tm) (w : World)
      → IsLinked state app
      → Links state (control_sync_time os fuel app now w)
  unfolding control_sync_time
  sync_time-Links fuel app now w v =
      if_intro (Links state) (ltb now.tm_year 100) (λ _. v)
        (λ _.
          acknowledged-Links 0xF1 0 (demander os fuel app 0x01 (time_args now) 0xF1 0 0 w)
            (demander-Asks os state fuel app 0x01 (time_args now) 0xF1 0 0 w v))

-- A query of an alarm that returns 0 has decoded the data of a response for alarms of at least
-- eleven bytes, whose first byte names that alarm; any return keeps the invariant of the
-- supervision.
pub alarm_query-IsDecoded :
    (os : Os) {Ctx : Type 0} (fuel : ℕ) (app : SweetDawn Ctx) (number : ℕ) (w : os.World)
    (code : Code) (value : Option ControlAlarm) (app' : SweetDawn Ctx) (w' : os.World)
    → IsLinked app.state app
    → control_alarm_query os fuel app number w ≡ some (code, value, app', w')
    → IsDecoded app.state 0xF3 11 (alarm_of (index_alarme number)) code value app'
alarm_query-IsDecoded os fuel app number w code value app' w' v h =
    subst (Queries app.state 0xF3 11 (alarm_of (index_alarme number))) h
      (alarm_query-Queries os app.state fuel app number w v)

-- A writing of the settings that returns 0 has remembered exactly the written settings as known;
-- with any other code the remembered settings are as before. The invariant of the supervision
-- holds either way.
pub settings_write-IsWritten :
    (os : Os) {Ctx : Type 0} (fuel : ℕ) (app : SweetDawn Ctx) (s : AmlState) (w : os.World)
    (code : Code) (app' : SweetDawn Ctx) (w' : os.World)
    → IsLinked app.state app
    → control_settings_write os fuel app s w ≡ some (code, app', w')
    → IsWritten app.state s code app'
settings_write-IsWritten os fuel app s w code app' w' v h =
    subst (Writes app.state s) h (settings_write-Writes os app.state fuel app s w v)
