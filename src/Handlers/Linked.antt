-- ===== src/Handlers/Linked.antt =====
-- The handlers (src/app/handlers.c) and the invariant of the supervision: those that write here, the others in the
-- children.
pub mod Reading
pub mod Following
pub mod Timing
use sweet_dawn.Base.{
  ℕ, arith, Bool, true, false, not, ◌&&◌, ◌||◌, Option, none, some, List, [], ◌∷◌, String, same,
  ◌==◌, if_intro, option_intro, if◌then◌else◌, ℤ, pos, ◌+ℤ◌, ◌-ℤ◌,
}
use sweet_dawn.Os.{Os}
use sweet_dawn.State.{AmlState}
use sweet_dawn.Transport.{Code, ok}
use sweet_dawn.Link.{SweetDawn}
use sweet_dawn.Link.Invariant.{IsLinked}
use sweet_dawn.Control.{Tm, control_settings_write, control_sync_time}
use sweet_dawn.Control.Alarm.{
  ControlAlarm, control_alarm_write, control_alarm_query, control_alarm_stop, control_alarm_snooze,
}
use sweet_dawn.Control.Linked.{
  Reads, Acts, settings_write-Acts, sync_time-Acts, speaker_enable-Acts, alarm_query-Reads,
  alarm_write-Acts, alarm_stop-Acts, alarm_snooze-Acts, light_enable-Acts, light_brightness-Acts,
  light_timer_enable-Acts, light_timer-Acts, mood_color-Acts, mood_scene-Acts, radio_enable-Acts,
  radio_preset-Acts, radio_volume-Acts, radio_timer_enable-Acts, radio_timer-Acts,
}
use sweet_dawn.Events.{Evenements}
use sweet_dawn.Command.{Command}
use sweet_dawn.Command.Validate.{Numbers}
use sweet_dawn.Handlers.{
  Answer, done, echec, verifier, lire_booleen, lire_entier, Scanned, lire_couleur,
}
use sweet_dawn.Handlers.Write.{
  is_ok, cible, numero_alarme, choice_of, reglage_change, alarme_changee, heure_of, verifiee,
  reecrire, ecrire_alarme, ecrire_lumiere, ecrire_radio, ecrire_haut_parleur, noter, agi,
  agir_sur_alarme,
}
use sweet_dawn.Handlers.Clock.{
  Calendar, DateTexts, rounded, noter_heure, lire_date_heure, heure_envoyee, heure_en_auto,
  envoyer_heure, synchroniser_heure, regler_heure, reglage_ecrit, ecrire_reglage,
  horloge_entretenue, horloge_due, entretenir_horloge,
}

module _ {Ctx : Type 0} {state : AmlState} {app : SweetDawn Ctx} where
  pub noted-IsLinked :
      (e : Ctx) → IsLinked state app → IsLinked state (record app { event_context = e })
  noted-IsLinked e v = ground arith

module _ {C Ctx W : Type 0} where
  pub left-Acts :
      (c : C) (app : SweetDawn Ctx) (w : W) → IsLinked app.state app → Acts (some (c, app, w))
  unfolding Acts
  left-Acts c app w v = v

  pub either-Acts :
      (b : Bool) (r s : Option (C × SweetDawn Ctx × W))
      → Acts r
      → Acts s
      → Acts (if b then r else s)
  either-Acts b r s v u = if_intro Acts b (λ _. v) (λ _. u)

module _ (os : Os) {Ctx : Type 0} (numbers : Numbers) (scanned : Scanned) where
  open os use {World}

  verifiee-Acts :
      (r : Option (Code × SweetDawn Ctx × World)) → Acts r → Acts (verifiee os numbers scanned r)
  unfolding verifiee Acts
  verifiee-Acts none v = tt
  verifiee-Acts (some (code, app, w)) v = v

  reecrire-Acts :
      (fuel : ℕ) (command : Command) (value : String) (number : ℕ) (heure : ℕ × ℕ)
      (r : Option (Code × Option ControlAlarm × SweetDawn Ctx × World))
      → Reads r
      → Acts (reecrire os numbers scanned fuel command value number heure r)
  unfolding reecrire Reads Acts
  reecrire-Acts fuel command value number heure none v = tt
  reecrire-Acts fuel command value number heure (some (code, none, app, w)) v =
      left-Acts (verifier code) app w v
  reecrire-Acts fuel command value number heure (some (code, some alarm, app, w)) v =
      either-Acts (is_ok code) _ _
        (verifiee-Acts _ (
          alarm_write-Acts os fuel app w v number
            (alarme_changee numbers command value heure alarm)))
        (left-Acts (verifier code) app w v)

  module _ (fuel : ℕ) (app : SweetDawn Ctx) (w : World) (v : IsLinked app.state app) where
    pub ecrire_alarme-Acts :
        (command parent : Command) (value : String)
        → Acts (ecrire_alarme os numbers scanned fuel app command parent value w)
    unfolding ecrire_alarme
    ecrire_alarme-Acts command parent value =
        option_intro Acts (heure_of scanned command value) (λ _. left-Acts _ app w v)
          (λ heure _.
            reecrire-Acts fuel command value (numero_alarme parent) heure
              (control_alarm_query os fuel app (numero_alarme parent) w)
              (alarm_query-Reads os fuel app w v (numero_alarme parent)))

    pub ecrire_lumiere-Acts :
        (command parent : Command) (value : String)
        → Acts (ecrire_lumiere os numbers scanned fuel app command parent value w)
    unfolding ecrire_lumiere
    ecrire_lumiere-Acts command parent value =
        let target = cible parent in
        either-Acts (same command.name "Enable") _ _
          (verifiee-Acts _ (light_enable-Acts os fuel app w v target (lire_booleen value)))
          (either-Acts (same command.name "Brightness") _ _
            (verifiee-Acts _
              (light_brightness-Acts os fuel app w v target (lire_entier numbers value)))
            (either-Acts (same command.name "Sunset" || same command.name "Timer") _ _
              (verifiee-Acts _
                (light_timer_enable-Acts os fuel app w v target (lire_booleen value)))
              (either-Acts
                (same command.name "Sunset duration" || same command.name "Timer duration") _ _
                (verifiee-Acts _
                  (light_timer-Acts os fuel app w v target (lire_entier numbers value)))
                (either-Acts (same command.name "Color") _ _
                  (option_intro Acts (lire_couleur scanned value) (λ _. left-Acts _ app w v)
                    (λ (r, g, b) _. verifiee-Acts _ (mood_color-Acts os fuel app w v r g b)))
                  (verifiee-Acts _ (mood_scene-Acts os fuel app w v (choice_of command value)))))))

    pub ecrire_radio-Acts :
        (command : Command) (value : String)
        → Acts (ecrire_radio os numbers scanned fuel app command value w)
    unfolding ecrire_radio
    ecrire_radio-Acts command value =
        either-Acts (same command.name "Enable") _ _
          (verifiee-Acts _ (radio_enable-Acts os fuel app w v (lire_booleen value)))
          (either-Acts (same command.name "Channel") _ _
            (verifiee-Acts _ (radio_preset-Acts os fuel app w v (lire_entier numbers value)))
            (either-Acts (same command.name "Volume") _ _
              (verifiee-Acts _ (radio_volume-Acts os fuel app w v (lire_entier numbers value)))
              (either-Acts (same command.name "Sleep timer") _ _
                (verifiee-Acts _ (radio_timer_enable-Acts os fuel app w v (lire_booleen value)))
                (verifiee-Acts _ (radio_timer-Acts os fuel app w v (lire_entier numbers value))))))

    pub haut_parleur-Acts :
        (value : String) → Acts (ecrire_haut_parleur os numbers scanned fuel app value w)
    unfolding ecrire_haut_parleur
    haut_parleur-Acts value =
        verifiee-Acts _ (speaker_enable-Acts os fuel app w v (lire_booleen value))

module _ (os : Os) where
  open os use {World}

  agi-Acts :
      (stop : Bool) (r : Option (Code × SweetDawn Evenements × World))
      → Acts r
      → Acts (agi os stop r)
  unfolding agi Acts
  agi-Acts stop none v = tt
  agi-Acts stop (some (code, app, w)) v = noted-IsLinked (noter os stop code app).event_context v

  pub agir-Acts :
      (fuel : ℕ) (app : SweetDawn Evenements) (w : World) (command : Command)
      → IsLinked app.state app
      → Acts (agir_sur_alarme os fuel app command w)
  unfolding agir_sur_alarme
  agir-Acts fuel app w command v = agi-Acts (same command.name "Stop") _ (
      either-Acts (same command.name "Stop") _ _ (alarm_stop-Acts os fuel app w v)
        (alarm_snooze-Acts os fuel app w v))
