-- ===== src/Handlers/Write.antt =====
-- The handlers that write (src/app/handlers.c, section 3). What they change in the program and in the world is the
-- state.
use sweet_dawn.Base.{
  ℕ, Bool, true, false, ◌&&◌, ◌||◌, Option, none, some, String, same, if◌then◌else◌,
}
use sweet_dawn.Os.{Os}
use sweet_dawn.State.{AmlState}
use sweet_dawn.Transport.{Code, ok}
use sweet_dawn.Link.{SweetDawn}
use sweet_dawn.Control.{control_speaker_enable}
use sweet_dawn.Control.Alarm.{
  ControlAlarm, control_alarm_query, control_alarm_write, control_alarm_stop, control_alarm_snooze,
}
use sweet_dawn.Control.Light.{
  control_light_enable, control_light_brightness, control_light_timer_enable, control_light_timer,
  control_mood_color, control_mood_scene,
}
use sweet_dawn.Control.Radio.{
  control_radio_enable, control_radio_preset, control_radio_volume, control_radio_timer_enable,
  control_radio_timer,
}
use sweet_dawn.Events.{Evenements, surveiller_alarme_bientot, noter_arret_demande}
use sweet_dawn.Command.{Command}
use sweet_dawn.Command.Validate.{Numbers}
use sweet_dawn.Handlers.{
  Answer, echec, verifier, lire_booleen, lire_entier, index_choix, choice_byte, Scanned, lire_heure,
  lire_couleur,
}

abbrev pub is_ok : Code → Bool
is_ok ok = true
is_ok _ = false

-- `cible`: CONTROL_MOOD or CONTROL_LIGHT.
abbrev pub cible : Command → ℕ
cible group = if same group.name "Mood" then 2 else 1

-- `numero_alarme`
abbrev pub numero_alarme : Command → ℕ
numero_alarme group = if same group.name "2" then 2 else 1

abbrev pub choice_of : Command → String → ℕ
choice_of command value = choice_byte (index_choix command.value_spec.choices value)

-- The change of one setting in `ecrire_reglage`.
unfoldable pub reglage_change : Command → String → AmlState → AmlState
unfolding lire_booleen index_choix
reglage_change command value settings =
    if same command.name "Feedback"
    then record settings { feedback = if lire_booleen value then 0 else 1 }
    else if same command.name "Fade"
    then record settings { fade = if lire_booleen value then 0 else 1 }
    else if same command.name "Display brightness"
    then record settings { display = choice_of command value }
    else if same command.name "Display time"
    then record settings { date = choice_of command value }
    else record settings { time = choice_of command value }

-- The change of one setting in `ecrire_alarme`, with the hour and the minute that were read.
unfoldable pub alarme_changee : Numbers → Command → String → ℕ × ℕ → ControlAlarm → ControlAlarm
unfolding lire_booleen lire_entier index_choix
alarme_changee numbers command value (hour, minute) alarm =
    if same command.name "Enable"
    then record alarm { enable = lire_booleen value }
    else if same command.name "Time"
    then record alarm { hour = hour; minute = minute }
    else if same command.name "Days"
    then record alarm { days = lire_entier numbers value }
    else if same command.name "Snooze"
    then record alarm { snooze = choice_of command value }
    else if same command.name "Tone"
    then record alarm { tone = choice_of command value }
    else if same command.name "Tone volume"
    then record alarm { volume = lire_entier numbers value }
    else if same command.name "Sunrise"
    then record alarm { sunrise_enable = lire_booleen value }
    else if same command.name "Sunrise duration"
    then record alarm { sunrise_minutes = lire_entier numbers value }
    else record alarm { sunrise_brightness = lire_entier numbers value }

-- The hour and the minute of "Time", and 0 for the other settings; none is a text that is no hour.
abbrev pub heure_of : Scanned → Command → String → Option (ℕ × ℕ)
heure_of scanned command value =
    if same command.name "Time" then lire_heure scanned value else some (0, 0)

module _ (os : Os) {Ctx : Type 0} (numbers : Numbers) (scanned : Scanned) where
  open os use {World}

  -- `verifier` of the code of an operation.
  unfoldable pub verifiee :
      Option (Code × SweetDawn Ctx × World) → Option (Answer × SweetDawn Ctx × World)
  unfolding verifier
  verifiee none = none
  verifiee (some (code, app, w)) = some (verifier code, app, w)

  -- `ecrire_alarme` once the alarm is read.
  unfoldable pub reecrire :
      ℕ
      → Command
      → String
      → ℕ
      → ℕ × ℕ
      → Option (Code × Option ControlAlarm × SweetDawn Ctx × World)
      → Option (Answer × SweetDawn Ctx × World)
  unfolding verifiee alarme_changee
  reecrire fuel command value number heure none = none
  reecrire fuel command value number heure (some (code, none, app, w)) =
      some (verifier code, app, w)
  reecrire fuel command value number heure (some (code, some alarm, app, w)) =
      if is_ok code
      then verifiee (
          control_alarm_write os fuel app number (alarme_changee numbers command value heure alarm)
            w)
      else some (verifier code, app, w)

  -- `ecrire_alarme`, with the command and its parent.
  unfoldable pub ecrire_alarme :
      ℕ
      → SweetDawn Ctx
      → Command
      → Command
      → String
      → World
      → Option (Answer × SweetDawn Ctx × World)
  unfolding reecrire lire_heure
  ecrire_alarme fuel app command parent value w = elim (heure_of scanned command value) [
    | none ↦ some (echec "INVALID_VALUE" "Heure attendue au format HH:MM", app, w)
    | some heure ↦
        reecrire fuel command value (numero_alarme parent) heure
          (control_alarm_query os fuel app (numero_alarme parent) w)
  ]

  -- `ecrire_lumiere`, with the command and its parent.
  unfoldable pub ecrire_lumiere :
      ℕ
      → SweetDawn Ctx
      → Command
      → Command
      → String
      → World
      → Option (Answer × SweetDawn Ctx × World)
  unfolding verifiee lire_couleur lire_booleen lire_entier index_choix
  ecrire_lumiere fuel app command parent value w =
      if same command.name "Enable"
      then verifiee (control_light_enable os fuel app (cible parent) (lire_booleen value) w)
      else if same command.name "Brightness"
      then verifiee
          (control_light_brightness os fuel app (cible parent) (lire_entier numbers value) w)
      else if same command.name "Sunset" || same command.name "Timer"
      then verifiee (control_light_timer_enable os fuel app (cible parent) (lire_booleen value) w)
      else if same command.name "Sunset duration" || same command.name "Timer duration"
      then verifiee (control_light_timer os fuel app (cible parent) (lire_entier numbers value) w)
      else if same command.name "Color"
      then elim (lire_couleur scanned value) [
        | none ↦ some (echec "INVALID_VALUE" "Couleur attendue au format R,G,B (0 a 255)", app, w)
        | some (r, g, b) ↦ verifiee (control_mood_color os fuel app r g b w)
      ]
      else verifiee (control_mood_scene os fuel app (choice_of command value) w)

  -- `ecrire_radio`
  unfoldable pub ecrire_radio :
      ℕ → SweetDawn Ctx → Command → String → World → Option (Answer × SweetDawn Ctx × World)
  unfolding verifiee lire_booleen lire_entier
  ecrire_radio fuel app command value w =
      if same command.name "Enable"
      then verifiee (control_radio_enable os fuel app (lire_booleen value) w)
      else if same command.name "Channel"
      then verifiee (control_radio_preset os fuel app (lire_entier numbers value) w)
      else if same command.name "Volume"
      then verifiee (control_radio_volume os fuel app (lire_entier numbers value) w)
      else if same command.name "Sleep timer"
      then verifiee (control_radio_timer_enable os fuel app (lire_booleen value) w)
      else verifiee (control_radio_timer os fuel app (lire_entier numbers value) w)

  -- `ecrire_haut_parleur`
  unfoldable pub ecrire_haut_parleur :
      ℕ → SweetDawn Ctx → String → World → Option (Answer × SweetDawn Ctx × World)
  unfolding verifiee lire_booleen
  ecrire_haut_parleur fuel app value w =
      verifiee (control_speaker_enable os fuel app (lire_booleen value) w)

module _ (os : Os) where
  open os use {World}

  -- What the handler notes behind the operation.
  abbrev pub noter : Bool → Code → SweetDawn Evenements → SweetDawn Evenements
  noter stop code app =
      let e = surveiller_alarme_bientot app.event_context in
      record app { event_context = if stop && is_ok code then noter_arret_demande e else e }

  unfoldable pub agi :
      Bool
      → Option (Code × SweetDawn Evenements × World)
      → Option (Answer × SweetDawn Evenements × World)
  unfolding verifier surveiller_alarme_bientot noter_arret_demande
  agi stop none = none
  agi stop (some (code, app, w)) = some (verifier code, noter stop code app, w)

  -- `agir_sur_alarme`
  unfoldable pub agir_sur_alarme :
      ℕ → SweetDawn Evenements → Command → World → Option (Answer × SweetDawn Evenements × World)
  unfolding agi
  agir_sur_alarme fuel app command w =
      let stop = same command.name "Stop" in
      agi stop
        (if stop then control_alarm_stop os fuel app w else control_alarm_snooze os fuel app w)
