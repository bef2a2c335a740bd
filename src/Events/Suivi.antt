-- ===== src/Events/Suivi.antt =====
-- The parts of src/app/handlers.c that read the AML005 again to follow the alarms and the lights.
use sweet_dawn.Base.{ℕ, ◌+◌, not, ◌||◌, Option, none, some, false, ltb, if◌then◌else◌}
use sweet_dawn.Os.{Os}
use sweet_dawn.Transport.{Code, ok}
use sweet_dawn.Link.{SweetDawn}
use sweet_dawn.Control.Light.{ControlLight, control_light_query}
use sweet_dawn.Control.Alarm.{ControlAlarm, control_alarm_query, control_alarm_status}
use sweet_dawn.Events.{
  Evenements, alarm_watch_ms, light_changed, diffuser, traiter_notes, suivre_alarme, cesse,
  snooze_presume, minutes_of, suivi_fini,
}

module _ (os : Os) where
  open os use {World}

  -- `presumer_snooze` behind its query.
  unfoldable pub presume_of :
      ℕ
      → ℕ
      → Option (Code × Option ControlAlarm × SweetDawn Evenements × World)
      → Option (SweetDawn Evenements × World)
  unfolding snooze_presume minutes_of
  presume_of now numero none = none
  presume_of now numero (some (code, alarm, app, w)) = some (
    record app {
      event_context = snooze_presume now numero (minutes_of code alarm) app.event_context;
    },
    w,
  )

  -- `presumer_snooze`
  unfoldable pub presumer_snooze :
      ℕ → SweetDawn Evenements → ℕ → ℕ → World → Option (SweetDawn Evenements × World)
  unfolding presume_of
  presumer_snooze fuel app numero now w =
      presume_of now numero (control_alarm_query os fuel app numero w)

  -- The loop of `suivre_reveil` at the alarm `n`.
  unfoldable pub suivre_tour :
      ℕ → ℕ → ℕ → ℕ → ℕ → SweetDawn Evenements → World → Option (SweetDawn Evenements × World)
  unfolding presumer_snooze cesse suivre_alarme
  suivre_tour fuel now lever sonne n app w =
      if cesse lever sonne n app.event_context
      then presumer_snooze fuel app n now w
      else some
          (record app { event_context = suivre_alarme now lever sonne n app.event_context }, w)

  -- `suivre_reveil` behind its loop.
  unfoldable pub suivi_of :
      Option (SweetDawn Evenements × World) → Option (SweetDawn Evenements × World)
  unfolding suivi_fini
  suivi_of none = none
  suivi_of (some (app, w)) = some (record app { event_context = suivi_fini app.event_context }, w)

  -- The loop of `suivre_reveil` at the second alarm.
  unfoldable pub second_of :
      ℕ → ℕ → ℕ → ℕ → Option (SweetDawn Evenements × World) → Option (SweetDawn Evenements × World)
  unfolding suivre_tour suivi_of
  second_of fuel now lever sonne none = none
  second_of fuel now lever sonne (some (app, w)) =
      suivi_of (suivre_tour fuel now lever sonne 2 app w)

  -- `suivre_reveil` behind control_alarm_status().
  unfoldable pub status_of :
      ℕ
      → ℕ
      → Option (Code × Option (ℕ × ℕ) × SweetDawn Evenements × World)
      → Option (SweetDawn Evenements × World)
  unfolding suivre_tour second_of
  status_of fuel now none = none
  status_of fuel now (some (ok, some (lever, sonne), app, w)) =
      second_of fuel now lever sonne (suivre_tour fuel now lever sonne 1 app w)
  status_of fuel now (some (code, value, app, w)) = some (app, w)

  -- `suivre_reveil`
  unfoldable pub suivre_reveil :
      ℕ → SweetDawn Evenements → ℕ → World → Option (SweetDawn Evenements × World)
  unfolding status_of
  suivre_reveil fuel app now w =
      let e = app.event_context in
      if not e.surveiller || ltb now e.prochaine_lecture_ms
      then some (app, w)
      else status_of fuel now (
          control_alarm_status os fuel
            (record app {
              event_context = record e { prochaine_lecture_ms = now + alarm_watch_ms };
            })
            w)

  -- `relire_eclairage` behind its two queries.
  unfoldable pub mood_of :
      ControlLight
      → Option (Code × Option ControlLight × SweetDawn Evenements × World)
      → Option (SweetDawn Evenements × World)
  mood_of light none = none
  mood_of light (some (ok, some mood, app, w)) =
      some (record app { event_context = diffuser (light_changed light mood) app.event_context }, w)
  mood_of light (some (code, value, app, w)) = some (app, w)

  unfoldable pub light_read :
      ℕ
      → Option (Code × Option ControlLight × SweetDawn Evenements × World)
      → Option (SweetDawn Evenements × World)
  unfolding mood_of
  light_read fuel none = none
  light_read fuel (some (ok, some light, app, w)) =
      mood_of light (control_light_query os fuel app 2 w)
  light_read fuel (some (code, value, app, w)) = some (app, w)

  -- `relire_eclairage`
  unfoldable pub relire_eclairage :
      ℕ → SweetDawn Evenements → World → Option (SweetDawn Evenements × World)
  unfolding light_read
  relire_eclairage fuel app w = light_read fuel (control_light_query os fuel app 1 w)

  -- `traiter_evenements`
  unfoldable pub traiter_evenements :
      ℕ → SweetDawn Evenements → ℕ → World → Option (SweetDawn Evenements × World)
  unfolding traiter_notes relire_eclairage
  traiter_evenements fuel app now w =
      let e = traiter_notes now app.event_context in
      if e.eclairage_change
      then relire_eclairage fuel
          (record app { event_context = record e { eclairage_change = false } }) w
      else some (record app { event_context = e }, w)
