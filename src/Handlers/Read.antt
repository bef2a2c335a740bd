-- ===== src/Handlers/Read.antt =====
-- The handlers that read, and the command "status" (src/app/handlers.c).
use sweet_dawn.Base.{
  ℕ, ◌%◌, true, false, not, ◌&&◌, Option, none, some, List, [], ◌∷◌, ◌++◌, String, same, ◌==◌,
  if◌then◌else◌, ℤ, pos, negsuc, pos_part, ◌+ℤ◌,
}
use Prim.Native.String.{◌++◌ as append, slice}
use sweet_dawn.Os.{Os}
use sweet_dawn.Transport.{Code, ok, err_disconnected}
use sweet_dawn.Link.{SweetDawn}
use sweet_dawn.Core.{sweetdawn_refresh, sweetdawn_state_age_ms}
use sweet_dawn.Control.Alarm.{ControlAlarm, control_alarm_query}
use sweet_dawn.Control.Light.{control_light_query}
use sweet_dawn.Control.Radio.{
  ControlTune, tune_up, tune_down, seek_up, seek_down, control_radio_query, control_radio_tune,
}
use sweet_dawn.Events.{Evenements}
use sweet_dawn.Json.{JsonLib}
use sweet_dawn.Command.{Command, command_find_child}
use sweet_dawn.Command.Registry.{registry_find}
use sweet_dawn.Handlers.{Answer, done, verifier, nom_choix}
use sweet_dawn.Handlers.Write.{cible, numero_alarme}
use sweet_dawn.Handlers.Clock.{Calendar, horloge_aml, prochaine_alarme, format_delai}
use sweet_dawn.Handlers.Json.{
  decimal, two_digits, ajouter_texte, reglages_json, lumiere_json, frequence_json, radio_json,
  reveil_json,
}

-- The text of `format_delai`.
unfoldable pub delai_texte : ℕ × ℕ × ℕ → String
delai_texte (days, hours, minutes) =
    let rest = append (decimal hours) (append " h " (append (two_digits minutes) " min")) in
    if days == 0 then rest else append (decimal days) (append " j " rest)

-- The direction in `changer_frequence`.
unfoldable pub direction_of : String → ControlTune
direction_of name =
    if same name ">"
    then tune_up
    else if same name "<"
    then tune_down
    else if same name ">>"
    then seek_up
    else seek_down

-- The age as an integer, which is -1 where there is none.
abbrev age_of : Option ℕ → ℤ
age_of none = negsuc 0
age_of (some age) = pos age

module _ (os : Os) (calendar : Calendar os) (json : JsonLib) where
  open os use {World}
  open json use {Value}

  -- What a handler leaves: its answer, its result if it set one, the program and the world.
  abbrev pub Reponse : Type 0
  Reponse = Option (Answer × Option Value × SweetDawn Evenements × World)

  -- `format_iso`
  unfoldable pub format_iso : ℤ → String
  format_iso t =
      append (calendar.strftime t)
        (append (slice (calendar.zone t) 0 3) (append ":" (slice (calendar.zone t) 3 2)))

  -- The last members of `alarme_json`.
  unfoldable pub prochaine_json : Option ℤ → World → List (String × Value) × World
  unfolding format_iso format_delai delai_texte
  prochaine_json none w = (("next", json.new_null) ∷ [], w)
  prochaine_json (some delay) w =
      let (now, w') = calendar.time w in
      (
        ("next", json.new_string (format_iso (now +ℤ delay)))
            ∷ ("in_s", json.new_int64 delay)
            ∷ ("in", json.new_string (delai_texte (format_delai (pos_part delay))))
            ∷ [],
        w',
      )

  -- `alarme_json`, with the address of the group.
  unfoldable pub alarme_json :
      List Command → SweetDawn Evenements → ℕ → ControlAlarm → World → Value × World
  unfolding ajouter_texte nom_choix prochaine_alarme prochaine_json
  alarme_json store app group alarm w =
      let (delay, w') = prochaine_alarme os calendar app alarm w in
      let (next, w'') = prochaine_json delay w' in
      (
        json.new_object (
            ("enable", json.new_boolean alarm.enable)
            ∷ (
              "time",
              json.new_string (
                  append (two_digits (alarm.hour % 24))
                    (append ":" (two_digits (alarm.minute % 60)))),
            )
            ∷ ("days", json.new_int alarm.days)
            ∷ ajouter_texte json "snooze" (nom_choix store group "Snooze" alarm.snooze)
            ∷ ajouter_texte json "tone" (nom_choix store group "Tone" alarm.tone)
            ∷ ("tone_volume", json.new_int alarm.volume)
            ∷ ("sunrise", json.new_boolean alarm.sunrise_enable)
            ∷ ("sunrise_duration", json.new_int alarm.sunrise_minutes)
            ∷ ("sunrise_brightness", json.new_int alarm.sunrise_brightness)
            ∷ next),
        w'',
      )

  -- The end of a handler that reads: an error, or the object of what was read.
  unfoldable pub lu :
      {A : Type 0}
      → (A → SweetDawn Evenements → World → Value × World)
      → Option (Code × Option A × SweetDawn Evenements × World)
      → Reponse
  unfolding verifier
  lu object_of none = none
  lu object_of (some (ok, some a, app, w)) =
      let (v, w') = object_of a app w in some (done, some v, app, w')
  lu object_of (some (code, value, app, w)) = some (verifier code, none, app, w)

  -- `lire_reglages` behind sweetdawn_refresh().
  unfoldable pub reglages_lus :
      List Command → ℕ → Option (Code × SweetDawn Evenements × World) → Reponse
  unfolding verifier reglages_json
  reglages_lus store group none = none
  reglages_lus store group (some (ok, app, w)) =
      some (done, some (reglages_json json store group app.state), app, w)
  reglages_lus store group (some (code, app, w)) = some (verifier code, none, app, w)

  -- `lire_reglages`, with the address of the command.
  unfoldable pub lire_reglages : List Command → ℕ → SweetDawn Evenements → ℕ → World → Reponse
  unfolding reglages_lus verifier
  lire_reglages store fuel app command w =
      if not (app.initialized && app.connected)
      then some (verifier err_disconnected, none, app, w)
      else reglages_lus store command (sweetdawn_refresh os fuel app w)

  -- `lire_alarme`, with the command and its address.
  unfoldable pub lire_alarme :
      List Command → ℕ → SweetDawn Evenements → ℕ → Command → World → Reponse
  unfolding lu alarme_json
  lire_alarme store fuel app i command w =
      lu (λ alarm app' w'. alarme_json store app' i alarm w')
        (control_alarm_query os fuel app (numero_alarme command) w)

  -- The object of an alarm in `lire_alarmes`, of a command whose child is there.
  unfoldable pub alarme_nommee :
      List Command → ℕ → String → ControlAlarm → SweetDawn Evenements → World → Value × World
  unfolding alarme_json command_find_child
  alarme_nommee store command name alarm app w = elim (command_find_child store command name) [
    | none ↦ alarme_json [] app 0 alarm w
    | some group ↦ alarme_json store app group alarm w
  ]

  -- `lire_alarmes` behind its first turn, and behind its second.
  unfoldable pub deux_alarmes : Value → Reponse → Reponse
  deux_alarmes first none = none
  deux_alarmes first (some (done, some second, app, w)) =
      some (done, some (json.new_object (("1", first) ∷ ("2", second) ∷ [])), app, w)
  deux_alarmes first (some (answer, result, app, w)) = some (answer, none, app, w)

  unfoldable pub premiere_alarme : List Command → ℕ → ℕ → Reponse → Reponse
  unfolding deux_alarmes lu alarme_nommee
  premiere_alarme store fuel command none = none
  premiere_alarme store fuel command (some (done, some first, app, w)) =
      deux_alarmes first
        (lu (alarme_nommee store command "2") (control_alarm_query os fuel app 2 w))
  premiere_alarme store fuel command (some (answer, result, app, w)) = some (answer, none, app, w)

  -- `lire_alarmes`, with the address of the command.
  unfoldable pub lire_alarmes : List Command → ℕ → SweetDawn Evenements → ℕ → World → Reponse
  unfolding premiere_alarme lu alarme_nommee
  lire_alarmes store fuel app command w =
      premiere_alarme store fuel command
        (lu (alarme_nommee store command "1") (control_alarm_query os fuel app 1 w))

  -- `lire_lumiere`, with the command and its address.
  unfoldable pub lire_lumiere :
      List Command → ℕ → SweetDawn Evenements → ℕ → Command → World → Reponse
  unfolding lu lumiere_json
  lire_lumiere store fuel app i command w =
      lu (λ light app' w'. (lumiere_json json store i command light, w'))
        (control_light_query os fuel app (cible command) w)

  -- `lire_radio`
  unfoldable pub lire_radio : ℕ → SweetDawn Evenements → World → Reponse
  unfolding lu radio_json
  lire_radio fuel app w =
      lu (λ radio app' w'. (radio_json json radio, w')) (control_radio_query os fuel app w)

  -- `changer_frequence`
  unfoldable pub changer_frequence : ℕ → SweetDawn Evenements → Command → World → Reponse
  unfolding lu direction_of frequence_json
  changer_frequence fuel app command w =
      lu
        (λ frequency app' w'.
          (json.new_object (("frequency", frequence_json json frequency) ∷ []), w'))
        (control_radio_tune os fuel app (direction_of command.name) w)

  -- The members on the settings in `status_json`.
  unfoldable pub connu_json :
      List Command → SweetDawn Evenements → World → List (String × Value) × World
  unfolding reglages_json sweetdawn_state_age_ms registry_find
  connu_json store app w =
      if not app.state.known
      then ([], w)
      else let (age, w') = sweetdawn_state_age_ms os app w in
        (
          ("age_ms", json.new_int64 (age_of age))
              ∷ ("authorization", json.new_int app.authorization)
              ∷ (
                "settings",
                elim (registry_find store "Settings") [
                  | none ↦ reglages_json json [] 0 app.state
                  | some group ↦ reglages_json json store group app.state
                ],
              )
              ∷ [],
          w',
        )

  -- The object on the clock in `status_json`.
  unfoldable pub horloge_json : SweetDawn Evenements → World → Value × World
  unfolding horloge_aml format_iso
  horloge_json app w =
      let (now, w') = horloge_aml os calendar app w in
      (
        json.new_object (elim now [
          | none ↦ ("known", json.new_boolean false) ∷ []
          | some t ↦
              ("known", json.new_boolean true)
              ∷ ("time", json.new_string (format_iso t))
              ∷ ("offset_s", json.new_int64 app.clock_offset_s)
              ∷ []
        ]),
        w',
      )

  -- `status_json`
  unfoldable pub status_json : List Command → SweetDawn Evenements → World → Value × World
  unfolding connu_json horloge_json reveil_json
  status_json store app w =
      let (known, w') = connu_json store app w in
      let (clock, w'') = horloge_json app w' in
      (
        json.new_object (
            ("connected", json.new_boolean (app.initialized && app.connected))
            ∷ ("known", json.new_boolean app.state.known)
            ∷ (known
                ++ (("clock", clock)
                    ∷ (
                      "alarm_state",
                      reveil_json json app.event_context.alarme_1.etat
                          app.event_context.alarme_2.etat,
                    )
                    ∷ []))),
        w'',
      )
