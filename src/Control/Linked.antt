-- ===== src/Control/Linked.antt =====
-- Every operation on the AML005 (src/core/control.c) keeps the invariant of the supervision.
use sweet_dawn.Base.{
  ℕ, Bool, true, false, not, Option, none, some, [], ◌∷◌, ◌+◌, length, ltb, ◌==◌, if_intro,
  if◌then◌else◌, bit_or,
}
use sweet_dawn.Os.{Os}
use sweet_dawn.State.{AmlState}
use sweet_dawn.Protocol.{Bytes}
use sweet_dawn.Transport.{Code, ok}
use sweet_dawn.Link.{SweetDawn}
use sweet_dawn.Link.Invariant.{IsLinked}
use sweet_dawn.Exchange.{envoyer_requete}
use sweet_dawn.Exchange.Response.{Replies, envoyer-Replies}
use sweet_dawn.Core.Refresh.{relinked, settings-IsLinked}
use sweet_dawn.Control.{
  Tm, frame_overhead, settings_args, time_args, flag, donnees_of, decoded, acknowledged,
  settings_written, demander, envoyer, control_settings_write, control_sync_time,
  control_speaker_enable,
}
use sweet_dawn.Control.Alarm.{
  ControlAlarm, index_alarme, alarm_args, alarm_of, alarm_status_of, control_alarm_query,
  control_alarm_write, control_alarm_status, control_alarm_stop, control_alarm_snooze,
}
use sweet_dawn.Control.Light.{
  cible_valide, light_of, control_light_query, control_light_enable, control_light_brightness,
  control_light_timer_enable, control_light_timer, control_mood_color, control_mood_scene,
}
use sweet_dawn.Control.Radio.{
  ControlTune, radio_seek_timeout_ms, radio_of, seek_of, down_of, tuned_of, control_radio_query,
  control_radio_enable, control_radio_tune, control_radio_preset, control_radio_volume,
  control_radio_timer_enable, control_radio_timer,
}

-- The application that is left keeps the invariant, for what an operation returns with a value and without one.
unfoldable pub Reads : {B C Ctx W : Type 0} → Option (C × B × SweetDawn Ctx × W) → Type 0
Reads none = Unit
Reads (some (code, value, app, w)) = IsLinked app.state app

unfoldable pub Acts : {C Ctx W : Type 0} → Option (C × SweetDawn Ctx × W) → Type 0
Acts none = Unit
Acts (some (code, app, w)) = IsLinked app.state app

module _ (os : Os) {Ctx : Type 0} where
  open os use {World}

  replied-Reads :
      (state : AmlState) (expected : Option ℕ) (r : Option (Code × Bytes × SweetDawn Ctx × World))
      → Replies state expected r
      → Reads r
  unfolding Reads
  replied-Reads state expected none v = tt
  replied-Reads state expected (some (code, f, app, w)) v = relinked v.linked

  donnees-Reads :
      (min : ℕ) (r : Option (Code × Bytes × SweetDawn Ctx × World))
      → Reads r
      → Reads (donnees_of min r)
  unfolding donnees_of Reads
  donnees-Reads min none v = tt
  donnees-Reads min (some (ok, f, app, w)) v =
      if_intro (Reads {B = Bytes} {C = Code} {Ctx = Ctx} {W = World})
        (ltb (length f) (frame_overhead + min)) (λ _. v) (λ _. v)
  donnees-Reads min (some (code, f, app, w)) v = v

  decoded-Reads :
      {A : Type 0} (decode : Bytes → Code × Option A)
      (r : Option (Code × Bytes × SweetDawn Ctx × World))
      → Reads r
      → Reads (decoded decode r)
  unfolding decoded Reads
  decoded-Reads decode none v = tt
  decoded-Reads decode (some (ok, f, app, w)) v = v
  decoded-Reads decode (some (code, f, app, w)) v = v

  acknowledged-Acts :
      (r : Option (Code × Bytes × SweetDawn Ctx × World)) → Reads r → Acts (acknowledged r)
  unfolding acknowledged Reads Acts
  acknowledged-Acts none v = tt
  acknowledged-Acts (some (code, f, app, w)) v = v

  written-Acts :
      (s : AmlState) (r : Option (Code × Bytes × SweetDawn Ctx × World))
      → Reads r
      → Acts (settings_written s r)
  unfolding settings_written Reads Acts
  written-Acts s none v = tt
  written-Acts s (some (ok, f, app, w)) v = settings-IsLinked v
  written-Acts s (some (code, f, app, w)) v = v

  module _ (fuel : ℕ) (app : SweetDawn Ctx) (w : World) (v : IsLinked app.state app) where
    demander-Reads :
        (request : ℕ) (arguments : Bytes) (expected timeout min : ℕ)
        → Reads (demander os fuel app request arguments expected timeout min w)
    unfolding demander
    demander-Reads request arguments expected timeout min =
        donnees-Reads min (envoyer_requete os fuel app request (some expected) timeout arguments w)
          (replied-Reads app.state (some expected)
            (envoyer_requete os fuel app request (some expected) timeout arguments w)
            (envoyer-Replies os app.state fuel app request (some expected) timeout arguments w v))

    demandee :
        (request : ℕ) (arguments : Bytes) (expected timeout min : ℕ)
        → Acts (acknowledged (demander os fuel app request arguments expected timeout min w))
    demandee request arguments expected timeout min =
        acknowledged-Acts (demander os fuel app request arguments expected timeout min w)
          (demander-Reads request arguments expected timeout min)

    decodee :
        {A : Type 0} (decode : Bytes → Code × Option A) (request : ℕ) (arguments : Bytes)
        (expected timeout min : ℕ)
        → Reads (decoded decode (demander os fuel app request arguments expected timeout min w))
    decodee decode request arguments expected timeout min =
        decoded-Reads decode (demander os fuel app request arguments expected timeout min w)
          (demander-Reads request arguments expected timeout min)

    envoyer-Acts :
        (request : ℕ) (arguments : Bytes) → Acts (envoyer os fuel app request arguments w)
    unfolding envoyer
    envoyer-Acts request arguments =
        acknowledged-Acts (envoyer_requete os fuel app request none 0 arguments w) (
          replied-Reads app.state none (envoyer_requete os fuel app request none 0 arguments w)
            (envoyer-Replies os app.state fuel app request none 0 arguments w v))

    unchanged : (code : Code) → Acts (some (code, app, w))
    unfolding Acts
    unchanged code = v

    not_read : {A : Type 0} (code : Code) (value : A) → Reads (some (code, value, app, w))
    unfolding Reads
    not_read code value = v

    -- An operation that is refused, or sent.
    guarded :
        (r : Option (Code × SweetDawn Ctx × World)) (code : Code) (b : Bool)
        → Acts r
        → Acts (if b then some (code, app, w) else r)
    guarded r code b k = if_intro Acts b (λ _. unchanged code) (λ _. k)

    pub settings_write-Acts : (s : AmlState) → Acts (control_settings_write os fuel app s w)
    unfolding control_settings_write
    settings_write-Acts s =
        written-Acts s (demander os fuel app 0x02 (settings_args s) 0xF2 0 0 w)
          (demander-Reads 0x02 (settings_args s) 0xF2 0 0)

    pub sync_time-Acts : (now : Tm) → Acts (control_sync_time os fuel app now w)
    unfolding control_sync_time
    sync_time-Acts now = guarded _ _ _ (demandee 0x01 (time_args now) 0xF1 0 0)

    pub speaker_enable-Acts : (enable : Bool) → Acts (control_speaker_enable os fuel app enable w)
    unfolding control_speaker_enable
    speaker_enable-Acts true = demandee 0x10 [] 0xE0 0 0
    speaker_enable-Acts false = envoyer-Acts 0x24 []

    pub alarm_query-Reads : (number : ℕ) → Reads (control_alarm_query os fuel app number w)
    unfolding control_alarm_query
    alarm_query-Reads number =
        if_intro Reads (index_alarme number == 0) (λ _. not_read _ _)
          (λ _.
            decodee (alarm_of (index_alarme number)) 0x03
              (bit_or (index_alarme number) 0x80 ∷ 2 ∷ []) 0xF3 0 11)

    pub alarm_write-Acts :
        (number : ℕ) (alarm : ControlAlarm) → Acts (control_alarm_write os fuel app number alarm w)
    unfolding control_alarm_write
    alarm_write-Acts number alarm =
        guarded _ _ _ (demandee 0x03 (alarm_args (index_alarme number) alarm) 0xF3 0 0)

    pub alarm_status-Reads : Reads (control_alarm_status os fuel app w)
    unfolding control_alarm_status
    alarm_status-Reads = decodee alarm_status_of 0x25 [] 0xC5 0 2

    pub alarm_stop-Acts : Acts (control_alarm_stop os fuel app w)
    unfolding control_alarm_stop
    alarm_stop-Acts = demandee 0x29 [] 0xC9 0 0

    pub alarm_snooze-Acts : Acts (control_alarm_snooze os fuel app w)
    unfolding control_alarm_snooze
    alarm_snooze-Acts = demandee 0x28 [] 0xC8 0 0

    pub light_query-Reads : (target : ℕ) → Reads (control_light_query os fuel app target w)
    unfolding control_light_query
    light_query-Reads target =
        if_intro Reads (not (cible_valide target)) (λ _. not_read _ _)
          (λ _. decodee (light_of target) 0x30 (target ∷ []) 0xD0 0 5)

    pub light_enable-Acts :
        (target : ℕ) (enable : Bool) → Acts (control_light_enable os fuel app target enable w)
    unfolding control_light_enable
    light_enable-Acts target enable =
        guarded _ _ _ (envoyer-Acts (if enable then 0x37 else 0x35) (target ∷ []))

    pub light_brightness-Acts :
        (target brightness : ℕ) → Acts (control_light_brightness os fuel app target brightness w)
    unfolding control_light_brightness
    light_brightness-Acts target brightness =
        guarded _ _ _ (envoyer-Acts 0x31 (target ∷ brightness ∷ []))

    pub light_timer_enable-Acts :
        (target : ℕ) (enable : Bool) → Acts (control_light_timer_enable os fuel app target enable w)
    unfolding control_light_timer_enable
    light_timer_enable-Acts target enable =
        guarded _ _ _ (envoyer-Acts (if enable then 0x38 else 0x36) (target ∷ []))

    pub light_timer-Acts :
        (target minutes : ℕ) → Acts (control_light_timer os fuel app target minutes w)
    unfolding control_light_timer
    light_timer-Acts target minutes = guarded _ _ _ (envoyer-Acts 0x33 (target ∷ minutes ∷ []))

    pub mood_color-Acts :
        (red green blue : ℕ) → Acts (control_mood_color os fuel app red green blue w)
    unfolding control_mood_color
    mood_color-Acts red green blue = envoyer-Acts 0x32 (red ∷ green ∷ blue ∷ [])

    pub mood_scene-Acts : (scene : ℕ) → Acts (control_mood_scene os fuel app scene w)
    unfolding control_mood_scene
    mood_scene-Acts scene = envoyer-Acts 0x34 (scene ∷ [])

    pub radio_query-Reads : Reads (control_radio_query os fuel app w)
    unfolding control_radio_query
    radio_query-Reads = decodee radio_of 0x07 (2 ∷ []) 0xF7 0 7

    pub radio_enable-Acts : (enable : Bool) → Acts (control_radio_enable os fuel app enable w)
    unfolding control_radio_enable
    radio_enable-Acts enable = demandee 0x08 (flag enable ∷ []) 0xF8 0 0

    pub radio_tune-Reads :
        (direction : ControlTune) → Reads (control_radio_tune os fuel app direction w)
    unfolding control_radio_tune
    radio_tune-Reads direction =
        decodee tuned_of 0x0A (flag (seek_of direction) ∷ flag (down_of direction) ∷ []) 0xFA
          (if seek_of direction then radio_seek_timeout_ms else 0) 4

    pub radio_preset-Acts : (channel : ℕ) → Acts (control_radio_preset os fuel app channel w)
    unfolding control_radio_preset
    radio_preset-Acts channel = guarded _ _ _ (demandee 0x09 (channel ∷ []) 0xF9 0 0)

    pub radio_volume-Acts : (volume : ℕ) → Acts (control_radio_volume os fuel app volume w)
    unfolding control_radio_volume
    radio_volume-Acts volume = envoyer-Acts 0x0B (volume ∷ [])

    pub radio_timer_enable-Acts :
        (enable : Bool) → Acts (control_radio_timer_enable os fuel app enable w)
    unfolding control_radio_timer_enable
    radio_timer_enable-Acts enable = envoyer-Acts 0x0C (flag enable ∷ [])

    pub radio_timer-Acts : (minutes : ℕ) → Acts (control_radio_timer os fuel app minutes w)
    unfolding control_radio_timer
    radio_timer-Acts minutes = envoyer-Acts 0x0D (minutes ∷ [])
