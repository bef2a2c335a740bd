-- ===== src/Control.antt =====
-- Driving the AML005 (src/core/control.c and control.h): how an operation asks and what it makes of
-- the answer, the settings, and the speaker. `none` in a result is an output that is not written;
-- the outer `none` is out of fuel. Null pointers are not modelled.
pub mod Light
pub mod Alarm
pub mod Radio
pub mod Answered
pub mod Linked
use sweet_dawn.Base.{
  ℕ, ◌+◌, ◌-◌, ◌%◌, ◌^◌, Bool, true, false, Option, none, some, [], ◌∷◌, ltb, if◌then◌else◌, length,
}
use sweet_dawn.Os.{Os}
use sweet_dawn.State.{AmlState, state_update_settings}
use sweet_dawn.Protocol.{Bytes}
use sweet_dawn.Transport.{Code, ok, err_generic, err_protocol}
use sweet_dawn.Link.{SweetDawn, frame_data}
use sweet_dawn.Exchange.{envoyer_requete}

-- `FRAME_OVERHEAD`
abbrev pub frame_overhead : ℕ
frame_overhead = 12

-- The part of `struct tm` that is sent.
pub record Tm : Type 0 where
  pub tm_sec : ℕ
  pub tm_min : ℕ
  pub tm_hour : ℕ
  pub tm_wday : ℕ
  pub tm_mday : ℕ
  pub tm_mon : ℕ
  pub tm_year : ℕ

-- The byte of a flag: `enable ? 1 : 0`.
abbrev pub flag : Bool → ℕ
flag true = 1
flag false = 0

-- `args` of `control_settings_write`
unfoldable pub settings_args : AmlState → Bytes
settings_args s = s.display ∷ s.date ∷ s.time ∷ s.feedback ∷ s.fade ∷ []

-- `args` of `control_sync_time`
unfoldable pub time_args : Tm → Bytes
time_args now =
    now.tm_sec % 256
    ∷ now.tm_min % 256
    ∷ now.tm_hour % 256
    ∷ now.tm_wday % 256
    ∷ now.tm_mday % 256
    ∷ (now.tm_mon + 1) % 256
    ∷ (now.tm_year - 100) % 256
    ∷ 2
    ∷ []

module _ {Ctx W : Type 0} where
  -- `demander` behind its request: the data of the answer.
  unfoldable pub donnees_of :
      ℕ → Option (Code × Bytes × SweetDawn Ctx × W) → Option (Code × Bytes × SweetDawn Ctx × W)
  donnees_of min_data none = none
  donnees_of min_data (some (ok, frame, app, w)) =
      if ltb (length frame) (frame_overhead + min_data)
      then some (err_protocol, [], app, w)
      else some (ok, frame_data frame, app, w)
  donnees_of min_data (some (code, frame, app, w)) = some (code, [], app, w)

  -- The end of an operation that reads its answer.
  unfoldable pub decoded :
      {A : Type 0}
      → (Bytes → Code × Option A)
      → Option (Code × Bytes × SweetDawn Ctx × W)
      → Option (Code × Option A × SweetDawn Ctx × W)
  decoded decode none = none
  decoded decode (some (ok, bytes, app, w)) =
      let (code, value) = decode bytes in some (code, value, app, w)
  decoded decode (some (code, bytes, app, w)) = some (code, none, app, w)

  -- The end of an operation that does not.
  unfoldable pub acknowledged :
      Option (Code × Bytes × SweetDawn Ctx × W) → Option (Code × SweetDawn Ctx × W)
  acknowledged none = none
  acknowledged (some (code, bytes, app, w)) = some (code, app, w)

  -- `control_settings_write` behind its request.
  unfoldable pub settings_written :
      AmlState → Option (Code × Bytes × SweetDawn Ctx × W) → Option (Code × SweetDawn Ctx × W)
  unfolding state_update_settings
  settings_written s none = none
  settings_written s (some (ok, bytes, app, w)) = some (
    ok,
    record app {
      state = state_update_settings app.state s.display s.date s.time s.feedback s.fade;
    },
    w,
  )
  settings_written s (some (code, bytes, app, w)) = some (code, app, w)

module _ (os : Os) {Ctx : Type 0} where
  open os use {World}

  -- `demander`
  unfoldable pub demander :
      ℕ
      → SweetDawn Ctx
      → ℕ
      → Bytes
      → ℕ
      → ℕ
      → ℕ
      → World
      → Option (Code × Bytes × SweetDawn Ctx × World)
  unfolding donnees_of
  demander fuel app request_code arguments response_code timeout_ms min_data w =
      donnees_of min_data
        (envoyer_requete os fuel app request_code (some response_code) timeout_ms arguments w)

  -- `envoyer`
  unfoldable pub envoyer :
      ℕ → SweetDawn Ctx → ℕ → Bytes → World → Option (Code × SweetDawn Ctx × World)
  unfolding acknowledged
  envoyer fuel app request_code arguments w =
      acknowledged (envoyer_requete os fuel app request_code none 0 arguments w)

  -- `control_settings_write`
  unfoldable pub control_settings_write :
      ℕ → SweetDawn Ctx → AmlState → World → Option (Code × SweetDawn Ctx × World)
  unfolding demander settings_args settings_written
  control_settings_write fuel app settings w =
      settings_written settings (demander fuel app 0x02 (settings_args settings) 0xF2 0 0 w)

  -- `control_sync_time`
  unfoldable pub control_sync_time :
      ℕ → SweetDawn Ctx → Tm → World → Option (Code × SweetDawn Ctx × World)
  unfolding demander time_args acknowledged
  control_sync_time fuel app now w =
      if ltb now.tm_year 100
      then some (err_generic, app, w)
      else acknowledged (demander fuel app 0x01 (time_args now) 0xF1 0 0 w)

  -- `control_speaker_enable`
  unfoldable pub control_speaker_enable :
      ℕ → SweetDawn Ctx → Bool → World → Option (Code × SweetDawn Ctx × World)
  unfolding demander envoyer acknowledged
  control_speaker_enable fuel app true w = acknowledged (demander fuel app 0x10 [] 0xE0 0 0 w)
  control_speaker_enable fuel app false w = envoyer fuel app 0x24 [] w
