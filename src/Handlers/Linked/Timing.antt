-- ===== src/Handlers/Linked/Timing.antt =====
-- The handlers of the clock (src/app/handlers.c) keep the invariant of the supervision.
use sweet_dawn.Base.{
  ℕ, arith, Bool, true, not, ◌&&◌, Option, none, some, String, same, ◌==◌, option_intro, ℤ, ◌-ℤ◌,
}
use sweet_dawn.Os.{Os}
use sweet_dawn.State.{AmlState}
use sweet_dawn.Transport.{Code, ok}
use sweet_dawn.Link.{SweetDawn}
use sweet_dawn.Link.Invariant.{IsLinked}
use sweet_dawn.Control.{Tm, control_sync_time}
use sweet_dawn.Control.Linked.{Acts, settings_write-Acts, sync_time-Acts}
use sweet_dawn.Command.{Command}
use sweet_dawn.Handlers.{done}
use sweet_dawn.Handlers.Write.{reglage_change}
use sweet_dawn.Handlers.Clock.{
  Calendar, DateTexts, rounded, noter_heure, lire_date_heure, heure_envoyee, heure_en_auto,
  envoyer_heure, synchroniser_heure, regler_heure, reglage_ecrit, ecrire_reglage,
  horloge_entretenue, horloge_due, entretenir_horloge,
}
use sweet_dawn.Handlers.Linked.{left-Acts, either-Acts}

module _ {Ctx : Type 0} {state : AmlState} {app : SweetDawn Ctx} where
  clocked-IsLinked :
      (set : Bool) (offset : ℤ) (synced : ℕ)
      → IsLinked state app
      → IsLinked state
          (record app { clock_set = set; clock_offset_s = offset; clock_synced_ms = synced })
  clocked-IsLinked set offset synced v = ground arith

module _ (os : Os) (calendar : Calendar os) {Ctx : Type 0} where
  open os use {World}

  heure_envoyee-Acts :
      (tm : Tm) (r : Option (Code × SweetDawn Ctx × World))
      → Acts r
      → Acts (heure_envoyee os calendar tm r)
  unfolding heure_envoyee noter_heure Acts
  heure_envoyee-Acts tm none v = tt
  heure_envoyee-Acts tm (some (ok, app, w)) v =
      clocked-IsLinked true (rounded ((calendar.mktime tm).0 -ℤ (calendar.time w).0))
        (os.clock (calendar.time w).1).0 v
  heure_envoyee-Acts tm (some (code, app, w)) v = v

  en_auto-Acts :
      (fuel : ℕ) (tm : Tm) (r : Option (Code × SweetDawn Ctx × World))
      → Acts r
      → Acts (heure_en_auto os calendar fuel tm r)
  unfolding heure_en_auto Acts
  en_auto-Acts fuel tm none v = tt
  en_auto-Acts fuel tm (some (ok, app, w)) v =
      heure_envoyee-Acts tm (control_sync_time os fuel app tm w) (sync_time-Acts os fuel app w v tm)
  en_auto-Acts fuel tm (some (code, app, w)) v = v

  pub envoyer_heure-Acts :
      (fuel : ℕ) (app : SweetDawn Ctx) (tm : Tm) (w : World)
      → IsLinked app.state app
      → Acts (envoyer_heure os calendar fuel app tm w)
  unfolding envoyer_heure
  envoyer_heure-Acts fuel app tm w v = either-Acts (not app.state.known) _ _ (left-Acts _ app w v) (
      en_auto-Acts fuel tm _ (
        either-Acts (not (app.state.time == 0)) _ _
          (settings_write-Acts os fuel app w v (record app.state { time = 0 }))
          (left-Acts ok app w v)))

  pub synchroniser-Acts :
      (fuel : ℕ) (app : SweetDawn Ctx) (w : World)
      → IsLinked app.state app
      → Acts (synchroniser_heure os calendar fuel app w)
  unfolding synchroniser_heure
  synchroniser-Acts fuel app w v =
      envoyer_heure-Acts fuel app (calendar.localtime (calendar.time w).0) (calendar.time w).1 v

  pub regler-Acts :
      (texts : DateTexts) (fuel : ℕ) (app : SweetDawn Ctx) (value : String) (w : World)
      → IsLinked app.state app
      → Acts (regler_heure os calendar texts fuel app value w)
  unfolding regler_heure
  regler-Acts texts fuel app value w v =
      option_intro Acts (lire_date_heure os calendar texts value (calendar.time w).0)
        (λ _. left-Acts _ app (calendar.time w).1 v)
        (λ tm _. envoyer_heure-Acts fuel app tm (calendar.time w).1 v)

  reglage_ecrit-Acts :
      (fuel : ℕ) (sets_time : Bool) (r : Option (Code × SweetDawn Ctx × World))
      → Acts r
      → Acts (reglage_ecrit os calendar fuel sets_time r)
  unfolding reglage_ecrit Acts
  reglage_ecrit-Acts fuel sets_time none v = tt
  reglage_ecrit-Acts fuel sets_time (some (ok, app, w)) v =
      either-Acts sets_time _ _ (synchroniser-Acts fuel app w v) (left-Acts done app w v)
  reglage_ecrit-Acts fuel sets_time (some (code, app, w)) v = v

  pub ecrire_reglage-Acts :
      (fuel : ℕ) (app : SweetDawn Ctx) (command : Command) (value : String) (w : World)
      → IsLinked app.state app
      → Acts (ecrire_reglage os calendar fuel app command value w)
  unfolding ecrire_reglage
  ecrire_reglage-Acts fuel app command value w v =
      let settings = reglage_change command value app.state in
      either-Acts (not app.state.known) _ _ (left-Acts _ app w v) (
        reglage_ecrit-Acts fuel (same command.name "Time" && settings.time == 0) _
          (settings_write-Acts os fuel app w v settings))

  entretenue-Acts :
      (now_ms next : ℕ) (tm : Tm) (r : Option (Code × SweetDawn Ctx × World))
      → Acts r
      → Acts (horloge_entretenue os calendar now_ms next tm r)
  unfolding horloge_entretenue noter_heure Acts
  entretenue-Acts now_ms next tm none v = tt
  entretenue-Acts now_ms next tm (some (ok, app, w)) v =
      clocked-IsLinked true (rounded ((calendar.mktime tm).0 -ℤ (calendar.time w).0))
        (os.clock (calendar.time w).1).0 v
  entretenue-Acts now_ms next tm (some (code, app, w)) v = v

  pub entretenir-Acts :
      (fuel : ℕ) (app : SweetDawn Ctx) (now_ms next : ℕ) (w : World)
      → IsLinked app.state app
      → Acts (entretenir_horloge os calendar fuel app now_ms next w)
  unfolding entretenir_horloge
  entretenir-Acts fuel app now_ms next w v =
      either-Acts (not (horloge_due os calendar app now_ms next)) _ _ (left-Acts next app w v)
        (entretenue-Acts now_ms next _ _ (sync_time-Acts os fuel app (calendar.time w).1 v _))
