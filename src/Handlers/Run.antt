-- ===== src/Handlers/Run.antt =====
-- A request from its reading to its answer, and the periodic task of the handlers (handlers_request and
-- handlers_tick of src/app/handlers.c). `none` is out of fuel, or a null pointer.
use sweet_dawn.Base.{
  ℕ, true, false, not, ◌&&◌, Option, none, some, List, [], ◌∷◌, String, same, ◌==◌, if◌then◌else◌,
  length,
}
use sweet_dawn.Os.{Os}
use sweet_dawn.Link.{SweetDawn}
use sweet_dawn.Events.{Evenements, surveiller_alarme_bientot}
use sweet_dawn.Events.Suivi.{suivre_reveil, traiter_evenements}
use sweet_dawn.Json.{JsonLib}
use sweet_dawn.Command.{Command, at}
use sweet_dawn.Command.Registry.{registry_find_path}
use sweet_dawn.Command.Validate.{Numbers}
use sweet_dawn.Ipc.{Handled}
use sweet_dawn.Handlers.{
  Answer, done, echec, Scanned, Handler, Dispatch, status, commands, refused, execute,
  handlers_request,
}
use sweet_dawn.Handlers.Write.{
  ecrire_alarme, ecrire_lumiere, ecrire_radio, ecrire_haut_parleur, agir_sur_alarme,
}
use sweet_dawn.Handlers.Clock.{
  Calendar, DateTexts, synchroniser_heure, regler_heure, ecrire_reglage, entretenir_horloge,
}
use sweet_dawn.Handlers.Json.{commande_json}
use sweet_dawn.Handlers.Read.{
  Reponse, lire_reglages, lire_alarme, lire_alarmes, lire_lumiere, lire_radio, changer_frequence,
  status_json,
}

-- The handlers in the order of their numbers.
abbrev pub handlers : List Handler
handlers =
    Handler.lire_reglages ∷ Handler.ecrire_reglage ∷ Handler.synchroniser_heure
    ∷ Handler.regler_heure ∷ Handler.lire_alarmes ∷ Handler.lire_alarme ∷ Handler.agir_sur_alarme
    ∷ Handler.lire_lumiere ∷ Handler.ecrire_lumiere ∷ Handler.lire_radio ∷ Handler.ecrire_radio
    ∷ Handler.changer_frequence ∷ Handler.ecrire_haut_parleur ∷ Handler.ecrire_alarme ∷ []

-- `argv[0]`, of a command that has a value.
abbrev pub first_of : List String → String
first_of [] = ""
first_of (value ∷ more) = value

-- `command->parent`
abbrev pub parent_of : List Command → Command → Option Command
parent_of store command = elim command.parent [ none ↦ none | some p ↦ at store p ]

-- The C library that the handlers call, but for the system.
pub record Libc (os : Os) : Type 1 where
  pub calendar : Calendar os
  pub json : JsonLib
  pub numbers : Numbers
  pub scanned : Scanned
  pub texts : DateTexts

module _ (os : Os) (libc : Libc os) where
  open os use {World}
  open libc.json use {Value}

  -- The response of a handler that sets no result.
  abbrev pub sans_resultat :
      Option (Answer × SweetDawn Evenements × World) → Reponse os libc.calendar libc.json
  sans_resultat none = none
  sans_resultat (some (answer, app, w)) = some (answer, none, app, w)

  -- `command_execute`: the handler of a command, whose address is `i`, and its first argument.
  unfoldable pub appeler :
      List Command
      → ℕ
      → SweetDawn Evenements
      → ℕ
      → Command
      → String
      → World
      → Handler
      → Reponse os libc.calendar libc.json
  unfolding ecrire_alarme ecrire_lumiere lire_reglages lire_alarme lire_alarmes lire_lumiere
      lire_radio changer_frequence synchroniser_heure regler_heure ecrire_reglage ecrire_radio
      ecrire_haut_parleur agir_sur_alarme
  appeler store fuel app i command value w Handler.lire_reglages =
      lire_reglages os libc.calendar libc.json store fuel app i w
  appeler store fuel app i command value w Handler.ecrire_reglage =
      sans_resultat (ecrire_reglage os libc.calendar fuel app command value w)
  appeler store fuel app i command value w Handler.synchroniser_heure =
      sans_resultat (synchroniser_heure os libc.calendar fuel app w)
  appeler store fuel app i command value w Handler.regler_heure =
      sans_resultat (regler_heure os libc.calendar libc.texts fuel app value w)
  appeler store fuel app i command value w Handler.lire_alarmes =
      lire_alarmes os libc.calendar libc.json store fuel app i w
  appeler store fuel app i command value w Handler.lire_alarme =
      lire_alarme os libc.calendar libc.json store fuel app i command w
  appeler store fuel app i command value w Handler.agir_sur_alarme =
      sans_resultat (agir_sur_alarme os fuel app command w)
  appeler store fuel app i command value w Handler.lire_lumiere =
      lire_lumiere os libc.calendar libc.json store fuel app i command w
  appeler store fuel app i command value w Handler.ecrire_lumiere = elim (parent_of store command) [
    | none ↦ none
    | some parent ↦
        sans_resultat (ecrire_lumiere os libc.numbers libc.scanned fuel app command parent value w)
  ]
  appeler store fuel app i command value w Handler.lire_radio =
      lire_radio os libc.calendar libc.json fuel app w
  appeler store fuel app i command value w Handler.ecrire_radio =
      sans_resultat (ecrire_radio os libc.numbers libc.scanned fuel app command value w)
  appeler store fuel app i command value w Handler.changer_frequence =
      changer_frequence os libc.calendar libc.json fuel app command w
  appeler store fuel app i command value w Handler.ecrire_haut_parleur =
      sans_resultat (ecrire_haut_parleur os libc.numbers libc.scanned fuel app value w)
  appeler store fuel app i command value w Handler.ecrire_alarme = elim (parent_of store command) [
    | none ↦ none
    | some parent ↦
        sans_resultat (ecrire_alarme os libc.numbers libc.scanned fuel app command parent value w)
  ]

  abbrev pub accepted : Value → Handled Value
  accepted v = record { handled = true; result = some v; code = none; message = none }

  abbrev rejected : String → Option String → Handled Value
  rejected code message = record {
    handled = false;
    result = none;
    code = some code;
    message = message;
  }

  -- The end of `handlers_request` behind command_execute().
  unfoldable pub traitee :
      Reponse os libc.calendar libc.json → Option (Handled Value × SweetDawn Evenements × World)
  traitee none = none
  traitee (some (done, none, app, w)) = some (accepted (libc.json.new_object []), app, w)
  traitee (some (done, some v, app, w)) = some (accepted v, app, w)
  traitee (some (echec code message, result, app, w)) =
      some
        (rejected code (some (if same message "" then "La commande a echoue" else message)), app, w)

  -- `handlers_request` behind its checks, for a command at the address `i`.
  unfoldable pub executer :
      List Command
      → ℕ
      → SweetDawn Evenements
      → ℕ
      → Command
      → String
      → World
      → Option Handler
      → Option (Handled Value × SweetDawn Evenements × World)
  unfolding appeler traitee
  executer store fuel app i command value w none = none
  executer store fuel app i command value w (some handler) =
      traitee (appeler store fuel app i command value w handler)

  unfoldable pub repondre_a :
      List Command
      → ℕ
      → SweetDawn Evenements
      → Option ℕ
      → World
      → Dispatch
      → Option (Handled Value × SweetDawn Evenements × World)
  unfolding executer status_json commande_json
  repondre_a store fuel app found w status =
      let (v, w') = status_json os libc.calendar libc.json store app w in some (accepted v, app, w')
  repondre_a store fuel app found w commands =
      elim (commande_json libc.json (length store) store 0) [
        | none ↦ none
        | some v ↦ some (accepted v, app, w)
      ]
  repondre_a store fuel app found w (refused code message) = some (rejected code message, app, w)
  repondre_a store fuel app found w (execute handler command argv) = elim found [
    | none ↦ none
    | some i ↦ executer store fuel app i command (first_of argv) w (at handlers handler)
  ]

  -- `handlers_request`
  unfoldable pub repondre :
      List Command
      → ℕ
      → SweetDawn Evenements
      → String
      → List Value
      → World
      → Option (Handled Value × SweetDawn Evenements × World)
  unfolding repondre_a handlers_request registry_find_path
  repondre store fuel app name args w =
      repondre_a store fuel app (registry_find_path store name) w
        (handlers_request libc.json libc.numbers store name args)

module _ (os : Os) (calendar : Calendar os) where
  open os use {World}

  -- `handlers_tick` behind suivre_reveil(), and behind traiter_evenements().
  unfoldable pub tache_horloge :
      ℕ → ℕ → ℕ → Option (SweetDawn Evenements × World) → Option (ℕ × SweetDawn Evenements × World)
  unfolding entretenir_horloge
  tache_horloge fuel now next none = none
  tache_horloge fuel now next (some (app, w)) = entretenir_horloge os calendar fuel app now next w

  unfoldable pub tache_reveil :
      ℕ → ℕ → ℕ → Option (SweetDawn Evenements × World) → Option (ℕ × SweetDawn Evenements × World)
  unfolding tache_horloge suivre_reveil
  tache_reveil fuel now next none = none
  tache_reveil fuel now next (some (app, w)) =
      tache_horloge fuel now next (suivre_reveil os fuel app now w)

  -- What `handlers_tick` notes of a new connection.
  unfoldable pub noter_connexion : ℕ → Evenements → Evenements
  unfolding surveiller_alarme_bientot
  noter_connexion count e =
      if not (count == e.connexions)
      then surveiller_alarme_bientot (record e { connexions = count })
      else e

  -- `handlers_tick`, with `next_attempt_ms` of `entretenir_horloge`.
  unfoldable pub handlers_tick :
      ℕ → SweetDawn Evenements → ℕ → World → Option (ℕ × SweetDawn Evenements × World)
  unfolding tache_reveil traiter_evenements noter_connexion
  handlers_tick fuel app next w =
      if not (app.initialized && app.connected)
      then some (next, app, w)
      else let (now, w') = os.clock w in
        tache_reveil fuel now next (
          traiter_evenements os fuel
            (record app { event_context = noter_connexion app.connect_count app.event_context }) now
            w')
