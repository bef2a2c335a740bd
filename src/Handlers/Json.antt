-- ===== src/Handlers/Json.antt =====
-- What the handlers tell of the AML005 as JSON (src/app/handlers.c): the settings, the lights, the radio, the alarms
-- as they are followed, and the tree of commands.
use sweet_dawn.Base.{
  ℕ, zero, suc, ◌/◌, ◌%◌, Bool, true, false, not, ◌&&◌, ◌||◌, Option, none, some, List, [], ◌∷◌,
  ◌++◌, String, ltb, ◌==◌, if◌then◌else◌,
}
use Prim.Native.String.{◌++◌ as append}
use sweet_dawn.State.{AmlState}
use sweet_dawn.Control.Light.{ControlLight}
use sweet_dawn.Control.Radio.{ControlRadio}
use sweet_dawn.Events.{
  EtatReveil, reveil_repos, reveil_lever, reveil_sonne, reveil_snooze, rang, Diffusion, alarm_state,
  timer_ended, light_changed,
}
use sweet_dawn.Json.{JsonLib}
use sweet_dawn.Command.{
  Command, CommandValueType, value_none, value_bool, value_integer, value_number, value_string, at,
}
use sweet_dawn.Command.Registry.{registry_find}
use sweet_dawn.Handlers.{nom_choix}
use sweet_dawn.Handlers.Write.{cible}

abbrev digit : ℕ → String
digit n =
    if n == 0
    then "0"
    else if n == 1
    then "1"
    else if n == 2
    then "2"
    else if n == 3
    then "3"
    else if n == 4
    then "4"
    else if n == 5
    then "5"
    else if n == 6
    then "6"
    else if n == 7
    then "7"
    else if n == 8
    then "8"
    else "9"

-- At most `left` digits in front of a text.
abbrev digits_before : ℕ → ℕ → String → String
digits_before zero n s = s
digits_before (suc left) n s =
    let t = append (digit (n % 10)) s in
    let more = digits_before left (n / 10) t in if ltb n 10 then t else more

-- "%u" of a number of 64 bits, which has at most 20 digits.
abbrev pub decimal : ℕ → String
decimal n = digits_before 20 n ""

-- "%02u"
abbrev pub two_digits : ℕ → String
two_digits n = if ltb n 10 then append "0" (decimal n) else decimal n

-- `NOMS_REVEIL`
abbrev pub nom_reveil : EtatReveil → String
nom_reveil reveil_repos = "idle"
nom_reveil reveil_lever = "sunrise"
nom_reveil reveil_sonne = "ringing"
nom_reveil reveil_snooze = "snoozed"

-- `priorite`
unfoldable pub priorite : EtatReveil → ℕ
priorite reveil_repos = 0
priorite reveil_lever = 1
priorite reveil_sonne = 3
priorite reveil_snooze = 2

-- The state of the alarm `n`, 1 or 2, of two.
abbrev pub etat_of : EtatReveil → EtatReveil → ℕ → EtatReveil
etat_of first second n = if n == 1 then first else second

-- The loop of `reveil_json` at the alarm `n`.
unfoldable pub principale_of : EtatReveil → EtatReveil → ℕ → ℕ → ℕ
unfolding priorite
principale_of first second n principale =
    let etat = etat_of first second n in
    if not (rang etat == 0)
      && (principale == 0 || ltb (priorite (etat_of first second principale)) (priorite etat))
    then n
    else principale

-- `principale` of `reveil_json`: 0 at rest.
unfoldable pub principale : EtatReveil → EtatReveil → ℕ
unfolding principale_of
principale first second = principale_of first second 2 (principale_of first second 1 0)

-- `timer` of `traiter_evenements`, by the code of a message that a timer has ended.
abbrev pub timer_name : ℕ → String
timer_name code =
    if code == 0xEB
    then "light"
    else if code == 0xEC
    then "mood"
    else if code == 0xED
    then "radio"
    else "music"

-- `TYPES` of `commande_json`
abbrev pub type_name : CommandValueType → String
type_name value_none = "none"
type_name value_bool = "bool"
type_name value_integer = "integer"
type_name value_number = "number"
type_name value_string = "string"

abbrev pub is_some : {A : Type 0} → Option A → Bool
is_some none = false
is_some (some a) = true

module _ (json : JsonLib) where
  open json use {Value}

  -- `ajouter_texte`, whose result is the member.
  unfoldable pub ajouter_texte : String → Option String → String × Value
  ajouter_texte key none = (key, json.new_null)
  ajouter_texte key (some text) = (key, json.new_string text)

  -- `reglages_json`, with the address of the group.
  unfoldable pub reglages_json : List Command → ℕ → AmlState → Value
  unfolding ajouter_texte nom_choix
  reglages_json store group state = json.new_object (
      ajouter_texte "display_brightness" (nom_choix store group "Display brightness" state.display)
      ∷ ajouter_texte "display_time" (nom_choix store group "Display time" state.date)
      ∷ ajouter_texte "time" (nom_choix store group "Time" state.time)
      ∷ ("feedback", json.new_boolean (state.feedback == 0))
      ∷ ("fade", json.new_boolean (state.fade == 0))
      ∷ [])

  -- `lumiere_json`, with the group and its address.
  unfoldable pub lumiere_json : List Command → ℕ → Command → ControlLight → Value
  unfolding ajouter_texte nom_choix
  lumiere_json store i group light = json.new_object (
      ("enable", json.new_boolean light.enable)
      ∷ ("brightness", json.new_int light.brightness)
      ∷ (if cible group == 1
          then (("sunset", json.new_boolean light.timer_enable)
              ∷ ("sunset_duration", json.new_int light.timer_minutes)
              ∷ [])
          else (("timer", json.new_boolean light.timer_enable)
              ∷ ("timer_duration", json.new_int light.timer_minutes)
              ∷ (
                "color",
                json.new_string (
                    append (decimal light.red) (
                      append "," (append (decimal light.green) (append "," (decimal light.blue))))),
              )
              ∷ ajouter_texte "scene" (nom_choix store i "Scene" light.scene)
              ∷ [])))

  -- `frequence_json`
  unfoldable pub frequence_json : ℕ → Value
  frequence_json frequency =
      json.new_double_s (append (decimal (frequency / 10)) (append "." (decimal (frequency % 10))))

  -- The object of `lire_radio`.
  unfoldable pub radio_json : ControlRadio → Value
  unfolding frequence_json
  radio_json radio = json.new_object (
      ("enable", json.new_boolean radio.enable)
      ∷ ("channel", json.new_int radio.channel)
      ∷ ("frequency", frequence_json radio.frequency)
      ∷ ("volume", json.new_int radio.volume)
      ∷ ("sleep_timer", json.new_boolean radio.timer_enable)
      ∷ ("timer_duration", json.new_int radio.timer_minutes)
      ∷ [])

  -- `reveil_json`, of the states of the two alarms.
  unfoldable pub reveil_json : EtatReveil → EtatReveil → Value
  unfolding principale
  reveil_json first second =
      let p = principale first second in
      json.new_object (
        (
          "state",
          json.new_string (nom_reveil (if p == 0 then reveil_repos else etat_of first second p)),
        )
        ∷ ("alarm", if p == 0 then json.new_null else json.new_int p)
        ∷ (
          "alarms",
          json.new_object (
              ("1", json.new_string (nom_reveil first))
              ∷ ("2", json.new_string (nom_reveil second))
              ∷ []),
        )
        ∷ [])

  abbrev pub strings : List String → List Value
  strings [] = []
  strings (s ∷ ss) = json.new_string s ∷ strings ss

  abbrev pub range_members : Option (ℕ × ℕ) → List (String × Value)
  range_members none = []
  range_members (some (minimum, maximum)) =
      ("min", json.new_int minimum) ∷ ("max", json.new_int maximum) ∷ []

  abbrev pub choices_member : List String → List (String × Value)
  choices_member [] = []
  choices_member (c ∷ cs) = ("choices", json.new_array (strings (c ∷ cs))) ∷ []

  abbrev pub children_member : List Value → List (String × Value)
  children_member [] = []
  children_member (c ∷ cs) = ("children", json.new_array (c ∷ cs)) ∷ []

  -- The object of `commande_json`, with the objects of the children.
  unfoldable pub commande_object : Command → List Value → Value
  commande_object command children = json.new_object (
      ("name", json.new_string command.name)
      ∷ ("description", json.new_string command.description)
      ∷ ("type", json.new_string (type_name command.value_spec.type))
      ∷ (range_members command.value_spec.range
          ++ (choices_member command.value_spec.choices
              ++ (("implemented", json.new_boolean (is_some command.handler))
                  ∷ children_member children))))

  -- The loop of `commande_json` over the children.
  unfoldable pub enfants_json : (ℕ → Option Value) → List ℕ → Option (List Value)
  enfants_json object_of [] = some []
  enfants_json object_of (c ∷ cs) = elim (object_of c) [
    | none ↦ none
    | some v ↦ elim (enfants_json object_of cs) [ none ↦ none | some vs ↦ some (v ∷ vs) ]
  ]

  -- `commande_json` of the command at an address; none is out of fuel, or no command.
  unfoldable pub commande_json : ℕ → List Command → ℕ → Option Value
  unfolding enfants_json commande_object
  commande_json zero store i = none
  commande_json (suc fuel) store i = elim (at store i) [
    | none ↦ none
    | some command ↦ elim (enfants_json (commande_json fuel store) command.children) [
      | none ↦ none
      | some children ↦ some (commande_object command children)
    ]
  ]

  -- The object of a light in `relire_eclairage`, whose group is there.
  unfoldable pub groupe_json : List Command → String → ControlLight → Value
  unfolding lumiere_json registry_find
  groupe_json store name light = elim (registry_find store name) [
    | none ↦ json.new_null
    | some i ↦ elim (at store i) [
      | none ↦ json.new_null
      | some group ↦ lumiere_json store i group light
    ]
  ]

  -- `diffuser`: the event that is broadcast.
  unfoldable pub evenement : String → Value → Value
  evenement name contents = json.new_object (
      ("type", json.new_string "event") ∷ ("event", json.new_string name) ∷ ("data", contents) ∷ [])

  -- The event of a broadcast.
  unfoldable pub diffusion_json : List Command → Diffusion → Value
  unfolding evenement reveil_json groupe_json
  diffusion_json store (alarm_state first second) =
      evenement "alarm_state" (reveil_json first second)
  diffusion_json store (timer_ended code) =
      evenement "timer_ended" (json.new_object (("timer", json.new_string (timer_name code)) ∷ []))
  diffusion_json store (light_changed light mood) = evenement "light_changed" (
      json.new_object
        (("light", groupe_json store "Light" light) ∷ ("mood", groupe_json store "Mood" mood) ∷ []))
