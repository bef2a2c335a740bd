-- ===== src/Handlers/Linked/Reading.antt =====
-- The handlers that read, and a whole request, keep the invariant of the supervision.
use sweet_dawn.Base.{ℕ, not, ◌&&◌, Option, none, some, List, String, if_intro, option_intro}
use sweet_dawn.Os.{Os}
use sweet_dawn.State.{AmlState}
use sweet_dawn.Transport.{Code, ok}
use sweet_dawn.Link.{SweetDawn}
use sweet_dawn.Link.Invariant.{IsLinked}
use sweet_dawn.Core.{sweetdawn_refresh}
use sweet_dawn.Core.Refresh.{Refreshes, refresh-Refreshes}
use sweet_dawn.Control.Linked.{
  Reads, Acts, alarm_query-Reads, light_query-Reads, radio_query-Reads, radio_tune-Reads,
}
use sweet_dawn.Events.{Evenements}
use sweet_dawn.Json.{JsonLib}
use sweet_dawn.Command.{Command, at}
use sweet_dawn.Command.Registry.{registry_find_path}
use sweet_dawn.Ipc.{Handled}
use sweet_dawn.Handlers.{
  Answer, done, echec, Handler, Dispatch, status, commands, refused, execute, handlers_request,
}
use sweet_dawn.Handlers.Write.{cible, numero_alarme}
use sweet_dawn.Handlers.Clock.{Calendar}
use sweet_dawn.Handlers.Json.{commande_json}
use sweet_dawn.Handlers.Read.{
  Reponse, direction_of, lu, reglages_lus, lire_reglages, lire_alarme, deux_alarmes,
  premiere_alarme, lire_alarmes, lire_lumiere, lire_radio, changer_frequence,
}
use sweet_dawn.Handlers.Run.{
  Libc, handlers, parent_of, first_of, sans_resultat, appeler, traitee, executer, repondre_a,
  repondre,
}
use sweet_dawn.Handlers.Linked.{
  left-Acts, ecrire_alarme-Acts, ecrire_lumiere-Acts, ecrire_radio-Acts, haut_parleur-Acts,
  agir-Acts,
}
use sweet_dawn.Handlers.Linked.Timing.{synchroniser-Acts, regler-Acts, ecrire_reglage-Acts}

module _ (os : Os) (calendar : Calendar os) (json : JsonLib) where
  open os use {World}
  open json use {Value}

  lu-Reads :
      {A : Type 0} (object_of : A → SweetDawn Evenements → World → Value × World)
      (r : Option (Code × Option A × SweetDawn Evenements × World))
      → Reads r
      → Reads (lu os calendar json object_of r)
  unfolding lu Reads
  lu-Reads object_of none v = tt
  lu-Reads object_of (some (ok, some a, app, w)) v = v
  lu-Reads object_of (some (code, value, app, w)) v = v

  refreshed-Reads :
      (state : AmlState) (store : List Command) (group : ℕ)
      (r : Option (Code × SweetDawn Evenements × World))
      → Refreshes state r
      → Reads (reglages_lus os calendar json store group r)
  unfolding reglages_lus Reads
  refreshed-Reads state store group none v = tt
  refreshed-Reads state store group (some (ok, app, w)) v = v.reading.linked
  refreshed-Reads state store group (some (code, app, w)) v = v.reading.linked

  left-Reads :
      (answer : Answer) (result : Option Value) (app : SweetDawn Evenements) (w : World)
      → IsLinked app.state app
      → Reads (some (answer, result, app, w))
  unfolding Reads
  left-Reads answer result app w v = v

  deux-Reads :
      (first : Value) (r : Reponse os calendar json)
      → Reads r
      → Reads (deux_alarmes os calendar json first r)
  unfolding deux_alarmes Reads
  deux-Reads first none v = tt
  deux-Reads first (some (done, some second, app, w)) v = v
  deux-Reads first (some (answer, result, app, w)) v = v

  premiere-Reads :
      (store : List Command) (fuel command : ℕ) (r : Reponse os calendar json)
      → Reads r
      → Reads (premiere_alarme os calendar json store fuel command r)
  unfolding premiere_alarme Reads
  premiere-Reads store fuel command none v = tt
  premiere-Reads store fuel command (some (done, some first, app, w)) v =
      deux-Reads first _ (lu-Reads _ _ (alarm_query-Reads os fuel app w v 2))
  premiere-Reads store fuel command (some (answer, result, app, w)) v = v

  module _ (store : List Command) (fuel : ℕ) (app : SweetDawn Evenements) (w : World)
      (v : IsLinked app.state app) where
    lire_reglages-Reads :
        (command : ℕ) → Reads (lire_reglages os calendar json store fuel app command w)
    unfolding lire_reglages
    lire_reglages-Reads command =
        if_intro Reads (not (app.initialized && app.connected)) (λ _. left-Reads _ none app w v)
          (λ _.
            refreshed-Reads app.state store command (sweetdawn_refresh os fuel app w)
              (refresh-Refreshes os app.state fuel app w v))

    lire_alarme-Reads :
        (i : ℕ) (command : Command)
        → Reads (lire_alarme os calendar json store fuel app i command w)
    unfolding lire_alarme
    lire_alarme-Reads i command =
        lu-Reads _ _ (alarm_query-Reads os fuel app w v (numero_alarme command))

    lire_alarmes-Reads :
        (command : ℕ) → Reads (lire_alarmes os calendar json store fuel app command w)
    unfolding lire_alarmes
    lire_alarmes-Reads command =
        premiere-Reads store fuel command _ (lu-Reads _ _ (alarm_query-Reads os fuel app w v 1))

    lire_lumiere-Reads :
        (i : ℕ) (command : Command)
        → Reads (lire_lumiere os calendar json store fuel app i command w)
    unfolding lire_lumiere
    lire_lumiere-Reads i command = lu-Reads _ _ (light_query-Reads os fuel app w v (cible command))

    lire_radio-Reads : Reads (lire_radio os calendar json fuel app w)
    unfolding lire_radio
    lire_radio-Reads = lu-Reads _ _ (radio_query-Reads os fuel app w v)

    changer-Reads :
        (command : Command) → Reads (changer_frequence os calendar json fuel app command w)
    unfolding changer_frequence
    changer-Reads command =
        lu-Reads _ _ (radio_tune-Reads os fuel app w v (direction_of command.name))

module _ (os : Os) (libc : Libc os) where
  open os use {World}
  open libc.json use {Value}

  sans-Reads :
      (r : Option (Answer × SweetDawn Evenements × World))
      → Acts r
      → Reads (sans_resultat os libc r)
  unfolding Acts Reads
  sans-Reads none v = tt
  sans-Reads (some (answer, app, w)) v = v

  nothing-Reads : Reads {B = Option Value} {C = Answer} {Ctx = Evenements} {W = World} none
  unfolding Reads
  nothing-Reads = tt

  appeler-Reads :
      (store : List Command) (fuel : ℕ) (app : SweetDawn Evenements) (i : ℕ) (command : Command)
      (value : String) (w : World) (handler : Handler)
      → IsLinked app.state app
      → Reads (appeler os libc store fuel app i command value w handler)
  unfolding appeler
  appeler-Reads store fuel app i command value w Handler.lire_reglages v =
      lire_reglages-Reads os libc.calendar libc.json store fuel app w v i
  appeler-Reads store fuel app i command value w Handler.ecrire_reglage v =
      sans-Reads _ (ecrire_reglage-Acts os libc.calendar fuel app command value w v)
  appeler-Reads store fuel app i command value w Handler.synchroniser_heure v =
      sans-Reads _ (synchroniser-Acts os libc.calendar fuel app w v)
  appeler-Reads store fuel app i command value w Handler.regler_heure v =
      sans-Reads _ (regler-Acts os libc.calendar libc.texts fuel app value w v)
  appeler-Reads store fuel app i command value w Handler.lire_alarmes v =
      lire_alarmes-Reads os libc.calendar libc.json store fuel app w v i
  appeler-Reads store fuel app i command value w Handler.lire_alarme v =
      lire_alarme-Reads os libc.calendar libc.json store fuel app w v i command
  appeler-Reads store fuel app i command value w Handler.agir_sur_alarme v =
      sans-Reads _ (agir-Acts os fuel app w command v)
  appeler-Reads store fuel app i command value w Handler.lire_lumiere v =
      lire_lumiere-Reads os libc.calendar libc.json store fuel app w v i command
  appeler-Reads store fuel app i command value w Handler.ecrire_lumiere v =
      option_intro Reads (parent_of store command) (λ _. nothing-Reads)
        (λ parent _.
          sans-Reads _
            (ecrire_lumiere-Acts os libc.numbers libc.scanned fuel app w v command parent value))
  appeler-Reads store fuel app i command value w Handler.lire_radio v =
      lire_radio-Reads os libc.calendar libc.json store fuel app w v
  appeler-Reads store fuel app i command value w Handler.ecrire_radio v =
      sans-Reads _ (ecrire_radio-Acts os libc.numbers libc.scanned fuel app w v command value)
  appeler-Reads store fuel app i command value w Handler.changer_frequence v =
      changer-Reads os libc.calendar libc.json store fuel app w v command
  appeler-Reads store fuel app i command value w Handler.ecrire_haut_parleur v =
      sans-Reads _ (haut_parleur-Acts os libc.numbers libc.scanned fuel app w v value)
  appeler-Reads store fuel app i command value w Handler.ecrire_alarme v =
      option_intro Reads (parent_of store command) (λ _. nothing-Reads)
        (λ parent _.
          sans-Reads _
            (ecrire_alarme-Acts os libc.numbers libc.scanned fuel app w v command parent value))

  traitee-Acts : (r : Reponse os libc.calendar libc.json) → Reads r → Acts (traitee os libc r)
  unfolding traitee Reads Acts
  traitee-Acts none v = tt
  traitee-Acts (some (done, none, app, w)) v = v
  traitee-Acts (some (done, some x, app, w)) v = v
  traitee-Acts (some (echec code message, result, app, w)) v = v

  nothing-Acts : Acts {C = Handled Value} {Ctx = Evenements} {W = World} none
  unfolding Acts
  nothing-Acts = tt

  executer-Acts :
      (store : List Command) (fuel : ℕ) (app : SweetDawn Evenements) (i : ℕ) (command : Command)
      (value : String) (w : World) (handler : Option Handler)
      → IsLinked app.state app
      → Acts (executer os libc store fuel app i command value w handler)
  unfolding executer
  executer-Acts store fuel app i command value w none v = nothing-Acts
  executer-Acts store fuel app i command value w (some handler) v =
      traitee-Acts _ (appeler-Reads store fuel app i command value w handler v)

  repondre_a-Acts :
      (store : List Command) (fuel : ℕ) (app : SweetDawn Evenements) (found : Option ℕ) (w : World)
      (d : Dispatch)
      → IsLinked app.state app
      → Acts (repondre_a os libc store fuel app found w d)
  unfolding repondre_a
  repondre_a-Acts store fuel app found w status v = left-Acts _ app _ v
  repondre_a-Acts store fuel app found w commands v =
      option_intro Acts (commande_json libc.json _ store 0) (λ _. nothing-Acts)
        (λ x _. left-Acts _ app w v)
  repondre_a-Acts store fuel app found w (refused code message) v = left-Acts _ app w v
  repondre_a-Acts store fuel app found w (execute handler command argv) v =
      option_intro Acts found (λ _. nothing-Acts)
        (λ i _. executer-Acts store fuel app i command (first_of argv) w (at handlers handler) v)

  pub repondre-Acts :
      (store : List Command) (fuel : ℕ) (app : SweetDawn Evenements) (name : String)
      (args : List Value) (w : World)
      → IsLinked app.state app
      → Acts (repondre os libc store fuel app name args w)
  unfolding repondre
  repondre-Acts store fuel app name args w v =
      repondre_a-Acts store fuel app (registry_find_path store name) w
        (handlers_request libc.json libc.numbers store name args) v
