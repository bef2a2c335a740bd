-- ===== src/Handlers/Linked/Following.antt =====
-- The periodic task of the handlers keeps the invariant of the supervision.
use sweet_dawn.Base.{ℕ, not, ◌&&◌, ◌||◌, Option, none, some, if_intro, ltb}
use sweet_dawn.Os.{Os}
use sweet_dawn.Transport.{Code, ok}
use sweet_dawn.Link.{SweetDawn}
use sweet_dawn.Link.Invariant.{IsLinked}
use sweet_dawn.Control.Light.{ControlLight}
use sweet_dawn.Control.Alarm.{ControlAlarm}
use sweet_dawn.Control.Linked.{
  Reads, Acts, alarm_query-Reads, alarm_status-Reads, light_query-Reads,
}
use sweet_dawn.Events.{Evenements, cesse, traiter_notes}
use sweet_dawn.Events.Suivi.{
  presume_of, presumer_snooze, suivre_tour, suivi_of, second_of, status_of, suivre_reveil, mood_of,
  light_read, relire_eclairage, traiter_evenements,
}
use sweet_dawn.Handlers.Clock.{Calendar}
use sweet_dawn.Handlers.Run.{noter_connexion, tache_horloge, tache_reveil, handlers_tick}
use sweet_dawn.Handlers.Linked.{noted-IsLinked, left-Acts}
use sweet_dawn.Handlers.Linked.Timing.{entretenir-Acts}

-- The application that is left keeps the invariant.
unfoldable pub Stands : {Ctx W : Type 0} → Option (SweetDawn Ctx × W) → Type 0
Stands none = Unit
Stands (some (app, w)) = IsLinked app.state app

module _ (os : Os) where
  open os use {World}

  stand :
      (app : SweetDawn Evenements) (e : Evenements) (w : World)
      → IsLinked app.state app
      → Stands (some (record app { event_context = e }, w))
  unfolding Stands
  stand app e w v = noted-IsLinked e v

  as_is : (app : SweetDawn Evenements) (w : World) → IsLinked app.state app → Stands (some (app, w))
  unfolding Stands
  as_is app w v = v

  presume-Stands :
      (now numero : ℕ) (r : Option (Code × Option ControlAlarm × SweetDawn Evenements × World))
      → Reads r
      → Stands (presume_of os now numero r)
  unfolding presume_of Reads Stands
  presume-Stands now numero none v = tt
  presume-Stands now numero (some (code, alarm, app, w)) v = noted-IsLinked _ v

  presumer-Stands :
      (fuel : ℕ) (app : SweetDawn Evenements) (numero now : ℕ) (w : World)
      → IsLinked app.state app
      → Stands (presumer_snooze os fuel app numero now w)
  unfolding presumer_snooze
  presumer-Stands fuel app numero now w v =
      presume-Stands now numero _ (alarm_query-Reads os fuel app w v numero)

  tour-Stands :
      (fuel now lever sonne n : ℕ) (app : SweetDawn Evenements) (w : World)
      → IsLinked app.state app
      → Stands (suivre_tour os fuel now lever sonne n app w)
  unfolding suivre_tour
  tour-Stands fuel now lever sonne n app w v =
      if_intro Stands (cesse lever sonne n app.event_context)
        (λ _. presumer-Stands fuel app n now w v) (λ _. stand app _ w v)

  suivi-Stands : (r : Option (SweetDawn Evenements × World)) → Stands r → Stands (suivi_of os r)
  unfolding suivi_of Stands
  suivi-Stands none v = tt
  suivi-Stands (some (app, w)) v = noted-IsLinked _ v

  second-Stands :
      (fuel now lever sonne : ℕ) (r : Option (SweetDawn Evenements × World))
      → Stands r
      → Stands (second_of os fuel now lever sonne r)
  unfolding second_of Stands
  second-Stands fuel now lever sonne none v = tt
  second-Stands fuel now lever sonne (some (app, w)) v =
      suivi-Stands _ (tour-Stands fuel now lever sonne 2 app w v)

  status-Stands :
      (fuel now : ℕ) (r : Option (Code × Option (ℕ × ℕ) × SweetDawn Evenements × World))
      → Reads r
      → Stands (status_of os fuel now r)
  unfolding status_of Reads Stands
  status-Stands fuel now none v = tt
  status-Stands fuel now (some (ok, some (lever, sonne), app, w)) v =
      second-Stands fuel now lever sonne _ (tour-Stands fuel now lever sonne 1 app w v)
  status-Stands fuel now (some (code, value, app, w)) v = v

  suivre-Stands :
      (fuel : ℕ) (app : SweetDawn Evenements) (now : ℕ) (w : World)
      → IsLinked app.state app
      → Stands (suivre_reveil os fuel app now w)
  unfolding suivre_reveil
  suivre-Stands fuel app now w v =
      if_intro Stands
        (not app.event_context.surveiller || ltb now app.event_context.prochaine_lecture_ms)
        (λ _. as_is app w v)
        (λ _. status-Stands fuel now _ (alarm_status-Reads os fuel _ w (noted-IsLinked _ v)))

  mood-Stands :
      (light : ControlLight)
      (r : Option (Code × Option ControlLight × SweetDawn Evenements × World))
      → Reads r
      → Stands (mood_of os light r)
  unfolding mood_of Reads Stands
  mood-Stands light none v = tt
  mood-Stands light (some (ok, some mood, app, w)) v = noted-IsLinked _ v
  mood-Stands light (some (code, value, app, w)) v = v

  light-Stands :
      (fuel : ℕ) (r : Option (Code × Option ControlLight × SweetDawn Evenements × World))
      → Reads r
      → Stands (light_read os fuel r)
  unfolding light_read Reads Stands
  light-Stands fuel none v = tt
  light-Stands fuel (some (ok, some light, app, w)) v =
      mood-Stands light _ (light_query-Reads os fuel app w v 2)
  light-Stands fuel (some (code, value, app, w)) v = v

  traiter-Stands :
      (fuel : ℕ) (app : SweetDawn Evenements) (now : ℕ) (w : World)
      → IsLinked app.state app
      → Stands (traiter_evenements os fuel app now w)
  unfolding traiter_evenements relire_eclairage
  traiter-Stands fuel app now w v =
      if_intro Stands (traiter_notes now app.event_context).eclairage_change
        (λ _. light-Stands fuel _ (light_query-Reads os fuel _ w (noted-IsLinked _ v) 1))
        (λ _. stand app _ w v)

  horloge-Acts :
      (calendar : Calendar os) (fuel now next : ℕ) (r : Option (SweetDawn Evenements × World))
      → Stands r
      → Acts (tache_horloge os calendar fuel now next r)
  unfolding tache_horloge Stands Acts
  horloge-Acts calendar fuel now next none v = tt
  horloge-Acts calendar fuel now next (some (app, w)) v =
      entretenir-Acts os calendar fuel app now next w v

  reveil-Acts :
      (calendar : Calendar os) (fuel now next : ℕ) (r : Option (SweetDawn Evenements × World))
      → Stands r
      → Acts (tache_reveil os calendar fuel now next r)
  unfolding tache_reveil Stands Acts
  reveil-Acts calendar fuel now next none v = tt
  reveil-Acts calendar fuel now next (some (app, w)) v =
      horloge-Acts calendar fuel now next _ (suivre-Stands fuel app now w v)

  pub handlers_tick-Acts :
      (calendar : Calendar os) (fuel : ℕ) (app : SweetDawn Evenements) (next : ℕ) (w : World)
      → IsLinked app.state app
      → Acts (handlers_tick os calendar fuel app next w)
  unfolding handlers_tick
  handlers_tick-Acts calendar fuel app next w v =
      if_intro Acts (not (app.initialized && app.connected)) (λ _. left-Acts next app w v)
        (λ _. reveil-Acts calendar fuel (os.clock w).0 next _ (
          traiter-Stands fuel
            (record app {
              event_context = noter_connexion os calendar app.connect_count app.event_context;
            })
            (os.clock w).0 (os.clock w).1 (noted-IsLinked _ v)))
