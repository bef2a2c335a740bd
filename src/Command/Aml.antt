-- ===== src/Command/Aml.antt =====
-- The tree of the commands of the AML005 (src/command/aml_commands.c). The root is at address 0 and the commands of
-- the array at 1 and behind; a step that fails is `none`, and so is the tree.
use sweet_dawn.Base.{
  ℕ, ◌+◌, Option, none, some, List, [], ◌∷◌, ◌++◌, String, leb, if◌then◌else◌, length,
}
use sweet_dawn.Command.{
  Command, CommandValueSpec, value_bool, value_integer, value_string, at, put, command_init,
  command_set_value_spec, command_add_child,
}
use sweet_dawn.Command.Registry.{registry_init}

abbrev pub aml_command_capacity : ℕ
aml_command_capacity = 64

abbrev pub display_brightness_values : List String
display_brightness_values = "L" ∷ "H" ∷ "A" ∷ []

abbrev pub display_time_values : List String
display_time_values = "24" ∷ "12" ∷ []

abbrev pub time_mode_values : List String
time_mode_values = "auto" ∷ "manual" ∷ []

abbrev pub snooze_values : List String
snooze_values = "1" ∷ "2" ∷ "5" ∷ "10" ∷ "20" ∷ "30" ∷ []

abbrev pub tone_values : List String
tone_values = "Buzzer" ∷ "Radio" ∷ "Melody 1" ∷ "Birds" ∷ "Bells" ∷ "Piano" ∷ "Melody 2" ∷ []

abbrev pub scene_values : List String
scene_values =
    "Off" ∷ "Random" ∷ "Rainbow" ∷ "Rainbow Slow" ∷ "Fusion" ∷ "Pulse" ∷ "Wave" ∷ "Chill" ∷ "Action"
    ∷ "Forest" ∷ "Summer" ∷ []

-- A step of the construction, on the array of commands.
abbrev pub Build : Type 0 → Type 0
Build A = List Command → Option (A × List Command)

infixl 5 ◌>>=◌ ◌>>◌
abbrev pub ◌>>=◌ : {A B : Type 0} → Build A → (A → Build B) → Build B
◌>>=◌ m f s = elim (m s) [ none ↦ none | some (a, s') ↦ f a s' ]

abbrev pub ◌>>◌ : {A B : Type 0} → Build A → Build B → Build B
m >> k = m >>= λ _. k

-- `creer_commande`
unfoldable pub creer_commande : String → String → Build ℕ
unfolding command_init
creer_commande name description s =
    if leb (aml_command_capacity + 1) (length s)
    then none
    else elim (command_init name description) [
      | none ↦ none
      | some command ↦ some (length s, s ++ (command ∷ []))
    ]

-- Under a parent.
unfoldable pub attacher : ℕ → ℕ → Build ℕ
unfolding command_add_child
attacher parent command s = elim (command_add_child (length s) s parent command) [
  | none ↦ none
  | some none ↦ none
  | some (some s') ↦ some (command, s')
]

-- `ajouter_commande`
unfoldable pub ajouter_commande : ℕ → String → String → Build ℕ
unfolding creer_commande attacher
ajouter_commande parent name description = do
  command ← creer_commande name description
  attacher parent command

-- The specification of the command at an address.
unfoldable pub definir : ℕ → CommandValueSpec → Build (Unit {0})
unfolding command_set_value_spec
definir i spec s = elim (at s i) [
  | none ↦ none
  | some command ↦ elim (command_set_value_spec command spec) [
    | none ↦ none
    | some c ↦ some (tt, put s i c)
  ]
]

unfoldable pub definir_booleen : ℕ → Build (Unit {0})
unfolding definir
definir_booleen i = definir i (record { type = value_bool; range = none; choices = [] })

unfoldable pub definir_entier : ℕ → ℕ → ℕ → Build (Unit {0})
unfolding definir
definir_entier i minimum maximum =
    definir i (record { type = value_integer; range = some (minimum, maximum); choices = [] })

unfoldable pub definir_texte : ℕ → Build (Unit {0})
unfolding definir
definir_texte i = definir i (record { type = value_string; range = none; choices = [] })

unfoldable pub definir_choix : ℕ → List String → Build (Unit {0})
unfolding definir
definir_choix i choices =
    definir i (record { type = value_string; range = none; choices = choices })

-- `ajouter_parametres_alarme`
unfoldable pub ajouter_parametres_alarme : ℕ → Build (Unit {0})
unfolding ajouter_commande definir_booleen definir_entier definir_texte definir_choix
ajouter_parametres_alarme alarme = do
  command ← ajouter_commande alarme "Enable" "Activer ou désactiver l'alarme"
  definir_booleen command
  command ← ajouter_commande alarme "Time" "Heure de l'alarme au format HH:MM"
  definir_texte command
  command ← ajouter_commande alarme "Days" "Jours actifs sous forme de masque binaire"
  definir_entier command 0 127
  command ← ajouter_commande alarme "Snooze" "Durée de répétition en minutes"
  definir_choix command snooze_values
  command ← ajouter_commande alarme "Tone" "Son de l'alarme"
  definir_choix command tone_values
  command ← ajouter_commande alarme "Tone volume" "Volume du son de l'alarme"
  definir_entier command 1 10
  command ← ajouter_commande alarme "Sunrise" "Activer ou désactiver le lever de soleil"
  definir_booleen command
  command ← ajouter_commande alarme "Sunrise duration" "Durée du lever de soleil en minutes"
  definir_entier command 2 60
  command ← ajouter_commande alarme "Sunrise brightness" "Luminosité maximale du lever de soleil"
  definir_entier command 1 100

-- The part of `aml_commands_init` under settings.
unfoldable pub settings_commands : ℕ → Build (Unit {0})
unfolding ajouter_commande definir_booleen definir_entier definir_texte definir_choix
    ajouter_parametres_alarme
settings_commands root = do
  group ← ajouter_commande root "Settings" "Consulter les paramètres de l'AML"
  command ← ajouter_commande group "Display brightness" "Luminosité de l'affichage"
  definir_choix command display_brightness_values
  command ← ajouter_commande group "Display time" "Format horaire de l'affichage"
  definir_choix command display_time_values
  command ← ajouter_commande group "Time" "Mode de gestion de l'heure"
  definir_choix command time_mode_values
  command ← ajouter_commande group "Feedback" "Activer ou désactiver le retour sonore"
  definir_booleen command
  command ← ajouter_commande group "Fade" "Activer ou désactiver le fondu lumineux"
  definir_booleen command
  ajouter_commande group "Sync time" "Mettre l'AML à l'heure du système"
  command ← ajouter_commande group "Set time" "Régler l'heure de l'AML"
  definir_texte command

-- The part of `aml_commands_init` under alarms.
unfoldable pub alarms_commands : ℕ → Build ℕ
unfolding ajouter_commande definir_booleen definir_entier definir_texte definir_choix
    ajouter_parametres_alarme
alarms_commands root = do
  group ← ajouter_commande root "Alarm" "Gérer les alarmes"
  alarme1 ← ajouter_commande group "1" "Consulter ou modifier l'alarme 1"
  ajouter_parametres_alarme alarme1
  alarme2 ← ajouter_commande group "2" "Consulter ou modifier l'alarme 2"
  ajouter_parametres_alarme alarme2
  ajouter_commande group "Stop" "Arrêter l'alarme qui sonne"
  ajouter_commande group "Snooze" "Répéter l'alarme qui sonne plus tard"

-- The part of `aml_commands_init` under light.
unfoldable pub light_commands : ℕ → Build (Unit {0})
unfolding ajouter_commande definir_booleen definir_entier definir_texte definir_choix
    ajouter_parametres_alarme
light_commands root = do
  group ← ajouter_commande root "Light" "Consulter ou modifier l'éclairage"
  command ← ajouter_commande group "Enable" "Activer ou désactiver l'éclairage"
  definir_booleen command
  command ← ajouter_commande group "Brightness" "Luminosité de l'éclairage"
  definir_entier command 0 100
  command ← ajouter_commande group "Sunset" "Activer ou désactiver le coucher de soleil"
  definir_booleen command
  command ← ajouter_commande group "Sunset duration" "Durée du coucher de soleil en minutes"
  definir_entier command 1 60

-- The part of `aml_commands_init` under mood.
unfoldable pub mood_commands : ℕ → Build (Unit {0})
unfolding ajouter_commande definir_booleen definir_entier definir_texte definir_choix
    ajouter_parametres_alarme
mood_commands root = do
  group ← ajouter_commande root "Mood" "Consulter ou modifier l'éclairage d'ambiance"
  command ← ajouter_commande group "Enable" "Activer ou désactiver le mode Mood"
  definir_booleen command
  command ← ajouter_commande group "Color" "Couleur RGB de l'éclairage d'ambiance"
  definir_texte command
  command ← ajouter_commande group "Brightness" "Luminosité du mode Mood"
  definir_entier command 0 100
  command ← ajouter_commande group "Timer" "Activer ou désactiver le minuteur Mood"
  definir_booleen command
  command ← ajouter_commande group "Timer duration" "Durée du minuteur en minutes"
  definir_entier command 1 120
  command ← ajouter_commande group "Scene" "Scène lumineuse"
  definir_choix command scene_values

-- The part of `aml_commands_init` under radio.
unfoldable pub radio_commands : ℕ → Build (Unit {0})
unfolding ajouter_commande definir_booleen definir_entier definir_texte definir_choix
    ajouter_parametres_alarme
radio_commands root = do
  group ← ajouter_commande root "Radio" "Consulter ou modifier la radio"
  command ← ajouter_commande group "Enable" "Activer ou désactiver la radio"
  definir_booleen command
  ajouter_commande group "<<" "Sélectionner la station détectée précédente"
  ajouter_commande group "<" "Diminuer la fréquence de 0,1 MHz"
  ajouter_commande group ">" "Augmenter la fréquence de 0,1 MHz"
  ajouter_commande group ">>" "Sélectionner la station détectée suivante"
  command ← ajouter_commande group "Channel" "Sélectionner un canal radio"
  definir_entier command 1 10
  command ← ajouter_commande group "Volume" "Volume de la radio"
  definir_entier command 1 10
  command ← ajouter_commande group "Sleep timer" "Activer ou désactiver l'arrêt programmé"
  definir_booleen command
  command ← ajouter_commande group "Timer duration" "Durée avant l'arrêt en minutes"
  definir_entier command 1 60

-- The part of `aml_commands_init` under media player.
unfoldable pub media_player_commands : ℕ → Build (Unit {0})
unfolding ajouter_commande definir_booleen definir_entier definir_texte definir_choix
    ajouter_parametres_alarme
media_player_commands root = do
  group ← ajouter_commande root "Media Player" "Utiliser l'AML comme haut-parleur"
  command ← ajouter_commande group "Enable" "Activer ou désactiver le haut-parleur Bluetooth"
  definir_booleen command

-- The parts, under the root.
unfoldable pub all_commands : Build (Unit {0})
unfolding settings_commands alarms_commands light_commands mood_commands radio_commands
    media_player_commands
all_commands = do
  settings_commands 0
  alarms_commands 0
  light_commands 0
  mood_commands 0
  radio_commands 0
  media_player_commands 0

-- `aml_commands_init`: the commands, or none for -1.
unfoldable pub aml_commands_init : Option (Unit {0} × List Command)
unfolding all_commands
aml_commands_init = elim registry_init [ none ↦ none | some root ↦ all_commands (root ∷ []) ]
