-- ===== src/Handlers.antt =====
-- The handlers of commands (src/app/handlers.c, sections 1, 2, 4 and 5): errors, conversions, the table of the handlers
-- and what is checked before one is called. strtol() and sscanf() are parameters.
pub mod Write
pub mod Clock
pub mod Json
pub mod Read
pub mod Run
pub mod Linked
pub mod Allowed
pub mod Described
use sweet_dawn.Base.{
  ℕ, zero, suc, ◌+◌, ◌-◌, ◌%◌, Bool, true, false, not, ◌&&◌, ◌||◌, Option, none, some, List, [],
  ◌∷◌, ◌++◌, String, same, ltb, leb, ◌==◌, if◌then◌else◌, length,
}
use Prim.Native.String.{◌++◌ as append}
use sweet_dawn.Transport.{Code, ok, err_timeout, err_disconnected, err_protocol}
use sweet_dawn.Json.{JsonLib}
use sweet_dawn.Command.{Command, CommandValueType, value_none, at, put, command_find_child}
use sweet_dawn.Command.Registry.{registry_find_path}
use sweet_dawn.Command.Validate.{Signed, natural, opposite, Numbers, command_validate_value}

-- What a handler returns: 0, or -1 with the code and the message of an error.
pub data Answer : Type 0 where
  done : Answer
  echec : String → String → Answer

-- `verifier`
unfoldable pub verifier : Code → Answer
verifier ok = done
verifier err_disconnected = echec "AML_DISCONNECTED" "L'AML n'est pas connecte pour le moment"
verifier err_timeout = echec "AML_TIMEOUT" "L'AML n'a pas repondu"
verifier err_protocol = echec "AML_PROTOCOL_ERROR" "Reponse de l'AML inattendue"
verifier _ = echec "AML_ERROR" "Echec de la commande AML"

-- `lire_booleen`
unfoldable pub lire_booleen : String → Bool
lire_booleen value = same value "true"

-- An integer as a byte.
abbrev pub byte_of : Signed → ℕ
byte_of (natural n) = n % 256
byte_of (opposite n) = (256 - n % 256) % 256

-- `lire_entier`; a long has 64 bits, so that strtol() reads what strtoll() does.
unfoldable pub lire_entier : Numbers → String → ℕ
lire_entier numbers value = let r = numbers.strtoll value in byte_of r.value

-- `index_choix` among the choices; none is -1.
unfoldable pub index_choix : List String → String → Option ℕ
index_choix [] value = none
index_choix (choice ∷ more) value =
    let further = index_choix more value in
    if same choice value then some 0 else elim further [ none ↦ none | some i ↦ some (suc i) ]

-- (uint8_t)index_choix(...)
abbrev pub choice_byte : Option ℕ → ℕ
choice_byte none = 255
choice_byte (some i) = i % 256

-- `nom_choix`
unfoldable pub nom_choix : List Command → ℕ → String → ℕ → Option String
unfolding command_find_child
nom_choix store group child_name index = elim (command_find_child store group child_name) [
  | none ↦ none
  | some i ↦ elim (at store i) [ none ↦ none | some child ↦ at child.value_spec.choices index ]
]

-- What sscanf() reads with "%2u:%2u%c" where it returns 2, and with "%u,%u,%u%c" where it returns 3.
pub record Scanned : Type 0 where
  pub heure : String → Option (ℕ × ℕ)
  pub couleur : String → Option (ℕ × ℕ × ℕ)

-- `lire_heure`; none is -1.
unfoldable pub lire_heure : Scanned → String → Option (ℕ × ℕ)
lire_heure scanned value = elim (scanned.heure value) [
  | none ↦ none
  | some (h, m) ↦ if ltb 23 h || ltb 59 m then none else some (h, m)
]

-- `lire_couleur`; none is -1.
unfoldable pub lire_couleur : Scanned → String → Option (ℕ × ℕ × ℕ)
lire_couleur scanned value = elim (scanned.couleur value) [
  | none ↦ none
  | some (r, g, b) ↦ if ltb 255 r || ltb 255 g || ltb 255 b then none else some (r, g, b)
]

-- The handlers, by the numbers that the commands hold.
pub data Handler : Type 0 where
  lire_reglages ecrire_reglage synchroniser_heure regler_heure lire_alarmes lire_alarme : Handler
  agir_sur_alarme lire_lumiere ecrire_lumiere lire_radio ecrire_radio changer_frequence : Handler
  ecrire_haut_parleur ecrire_alarme : Handler

abbrev pub number_of : Handler → ℕ
number_of lire_reglages = 0
number_of ecrire_reglage = 1
number_of synchroniser_heure = 2
number_of regler_heure = 3
number_of lire_alarmes = 4
number_of lire_alarme = 5
number_of agir_sur_alarme = 6
number_of lire_lumiere = 7
number_of ecrire_lumiere = 8
number_of lire_radio = 9
number_of ecrire_radio = 10
number_of changer_frequence = 11
number_of ecrire_haut_parleur = 12
number_of ecrire_alarme = 13

-- `LIAISONS`
abbrev pub liaisons : List (String × Handler)
liaisons =
    ("Settings", lire_reglages)
    ∷ ("Settings/Display brightness", ecrire_reglage)
    ∷ ("Settings/Display time", ecrire_reglage)
    ∷ ("Settings/Time", ecrire_reglage)
    ∷ ("Settings/Feedback", ecrire_reglage)
    ∷ ("Settings/Fade", ecrire_reglage)
    ∷ ("Settings/Sync time", synchroniser_heure)
    ∷ ("Settings/Set time", regler_heure)
    ∷ ("Alarm", lire_alarmes)
    ∷ ("Alarm/1", lire_alarme)
    ∷ ("Alarm/2", lire_alarme)
    ∷ ("Alarm/Stop", agir_sur_alarme)
    ∷ ("Alarm/Snooze", agir_sur_alarme)
    ∷ ("Light", lire_lumiere)
    ∷ ("Light/Enable", ecrire_lumiere)
    ∷ ("Light/Brightness", ecrire_lumiere)
    ∷ ("Light/Sunset", ecrire_lumiere)
    ∷ ("Light/Sunset duration", ecrire_lumiere)
    ∷ ("Mood", lire_lumiere)
    ∷ ("Mood/Enable", ecrire_lumiere)
    ∷ ("Mood/Color", ecrire_lumiere)
    ∷ ("Mood/Brightness", ecrire_lumiere)
    ∷ ("Mood/Timer", ecrire_lumiere)
    ∷ ("Mood/Timer duration", ecrire_lumiere)
    ∷ ("Mood/Scene", ecrire_lumiere)
    ∷ ("Radio", lire_radio)
    ∷ ("Radio/Enable", ecrire_radio)
    ∷ ("Radio/<<", changer_frequence)
    ∷ ("Radio/<", changer_frequence)
    ∷ ("Radio/>", changer_frequence)
    ∷ ("Radio/>>", changer_frequence)
    ∷ ("Radio/Channel", ecrire_radio)
    ∷ ("Radio/Volume", ecrire_radio)
    ∷ ("Radio/Sleep timer", ecrire_radio)
    ∷ ("Radio/Timer duration", ecrire_radio)
    ∷ ("Media Player/Enable", ecrire_haut_parleur)
    ∷ []

-- `REGLAGES_ALARME`
abbrev pub reglages_alarme : List String
reglages_alarme =
    "Enable" ∷ "Time" ∷ "Days" ∷ "Snooze" ∷ "Tone" ∷ "Tone volume" ∷ "Sunrise" ∷ "Sunrise duration"
    ∷ "Sunrise brightness" ∷ []

-- `lier`; none is -1.
unfoldable pub lier : List Command → String → Handler → Option (List Command)
unfolding registry_find_path
lier store path handler = elim (registry_find_path store path) [
  | none ↦ none
  | some i ↦ elim (at store i) [
    | none ↦ none
    | some command ↦ some (put store i (record command { handler = some (number_of handler) }))
  ]
]

-- The two loops of `handlers_attach`.
unfoldable pub lier_tous : List (String × Handler) → List Command → Option (List Command)
unfolding lier
lier_tous [] store = some store
lier_tous ((path, handler) ∷ more) store = elim (lier store path handler) [
  | none ↦ none
  | some store' ↦ lier_tous more store'
]

unfoldable pub lier_alarme : String → List String → List Command → Option (List Command)
unfolding lier
lier_alarme prefix [] store = some store
lier_alarme prefix (name ∷ more) store = elim (lier store (append prefix name) ecrire_alarme) [
  | none ↦ none
  | some store' ↦ lier_alarme prefix more store'
]

-- `handlers_attach` of a program that is initialized, less the events.
unfoldable pub handlers_attach : List Command → Option (List Command)
unfolding lier_tous lier_alarme
handlers_attach store = elim (lier_tous liaisons store) [
  | none ↦ none
  | some s ↦ elim (lier_alarme "Alarm/1/" reglages_alarme s) [
    | none ↦ none
    | some s' ↦ lier_alarme "Alarm/2/" reglages_alarme s'
  ]
]

-- What a request leads to: an answer of the program itself, an error, whose message may be left as
-- it was, or the call of a handler.
pub data Dispatch : Type 0 where
  status commands : Dispatch
  refused : String → Option String → Dispatch
  execute : ℕ → Command → List String → Dispatch

abbrev pub expects_value : CommandValueType → Bool
expects_value value_none = false
expects_value _ = true

module _ (json : JsonLib) (numbers : Numbers) where
  open json use {Value}

  -- The last check of `handlers_request`, and the call.
  unfoldable pub call_step : Command → List String → Dispatch
  call_step command argv = elim command.handler [
    | none ↦ refused "COMMAND_NOT_IMPLEMENTED" (some "Cette commande n'est pas encore implementee")
    | some handler ↦ execute handler command argv
  ]

  -- Once the command is found: the number of arguments, and the value.
  unfoldable pub value_step : Command → List Value → Dispatch
  unfolding call_step command_validate_value
  value_step command args =
      if not (expects_value command.value_spec.type)
      then elim args [
        | [] ↦ call_step command []
        | _ ∷ _ ↦ refused "INVALID_ARGUMENTS" (some "Cette commande n'accepte aucun argument")
      ]
      else elim args [
        | [] ↦ refused "INVALID_ARGUMENTS" (some "Cette commande attend une valeur")
        | _ ∷ _ ∷ _ ↦ refused "INVALID_ARGUMENTS" (some "Cette commande attend une valeur")
        | arg ∷ [] ↦ elim (json.text_of arg) [
          | none ↦ refused "INVALID_VALUE" none
          | some value ↦ elim (command_validate_value numbers command value) [
            | some message ↦ refused "INVALID_VALUE" (some message)
            | none ↦ call_step command (value ∷ [])
          ]
        ]
      ]

  -- `handlers_request` up to the call of a handler.
  unfoldable pub handlers_request : List Command → String → List Value → Dispatch
  unfolding value_step registry_find_path
  handlers_request store name args =
      if same name "status" || same name "commands"
      then (if not (length args == 0)
          then refused "INVALID_ARGUMENTS" (some "Cette commande n'accepte aucun argument")
          else if same name "status"
          then status
          else commands)
      else elim (registry_find_path store name) [
        | none ↦
            refused "UNKNOWN_COMMAND" (some "Commande inconnue (voir la commande \"commands\")")
        | some i ↦ elim (at store i) [
          | none ↦
              refused "UNKNOWN_COMMAND" (some "Commande inconnue (voir la commande \"commands\")")
          | some command ↦ value_step command args
        ]
      ]
