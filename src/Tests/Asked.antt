-- ===== src/Tests/Asked.antt =====
-- Requests to the tree of the AML005 with its handlers.
use sweet_dawn.Base.{ℕ, ◌≡◌, Bool, true, false, Option, none, some, List, [], ◌∷◌, refl}
use sweet_dawn.Command.{Command, at}
use sweet_dawn.Command.Registry.{registry_find_path}
use sweet_dawn.Handlers.{handlers_attach, handlers_request, refused}
use sweet_dawn.Handlers.Allowed.{IsAllowed, request-IsAllowed}
use sweet_dawn.Tests.Served.{documents, text}
use sweet_dawn.Tests.Commands.{tree, command_of, hundred}

abbrev or_empty : Option (List Command) → List Command
or_empty none = []
or_empty (some s) = s

unfoldable tied : List Command
unfolding handlers_attach tree
tied = or_empty (handlers_attach tree)

abbrev is_some : Option (List Command) → Bool
is_some none = false
is_some (some s) = true

-- Every path of the table is found.
all_tied : is_some (handlers_attach tree) ≡ true
unfolding handlers_attach tree
all_tied = refl

abbrev brightness : Command
unfolding tied
brightness = command_of (at tied 34)

request-IsAllowed_example :
    (i : ℕ) × (command : Command) × (registry_find_path tied "Light/Brightness" ≡ some i)
    × (at tied i ≡ some command)
    × IsAllowed documents hundred command (text "100" ∷ []) 8 brightness ("100" ∷ [])
unfolding handlers_request registry_find_path tied
request-IsAllowed_example =
    request-IsAllowed documents hundred tied "Light/Brightness" (text "100" ∷ []) 8 brightness
      ("100" ∷ []) refl

no_value :
    handlers_request documents hundred tied "Light/Brightness" []
    ≡ refused "INVALID_ARGUMENTS" (some "Cette commande attend une valeur")
unfolding handlers_request registry_find_path tied
no_value = refl
