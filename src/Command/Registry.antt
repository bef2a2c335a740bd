-- ===== src/Command/Registry.antt =====
-- The root of the tree and the search by path (src/command/registry.c). A path is cut at each '/'; the root is
-- the command at address 0.
use sweet_dawn.Base.{
  ℕ, Bool, false, ◌&&◌, ◌||◌, Option, none, some, List, [], ◌∷◌, String, same, if◌then◌else◌, ◌==◌,
}
use Prim.Native.Char.{Char, code}
use sweet_dawn.Command.{Command, command_init, command_add_child, command_find_child, at}

-- A letter in front of the first segment.
abbrev pub prefixed : Char → List String → List String
prefixed c [] = String.◌∷◌ c String.[] ∷ []
prefixed c (s ∷ ss) = String.◌∷◌ c s ∷ ss

-- The segments of a path, which the loop finds with strchr().
unfoldable pub segments_of : String → List String
segments_of String.[] = String.[] ∷ []
segments_of (String.◌∷◌ c s) =
    let more = segments_of s in if code c == 0x2F then String.[] ∷ more else prefixed c more

-- `registry_init`; none is -1.
unfoldable pub registry_init : Option Command
unfolding command_init
registry_init = command_init "AML" "Racine des commandes AML"

-- `registry_add`
unfoldable pub registry_add : ℕ → List Command → ℕ → Option (Option (List Command))
unfolding command_add_child
registry_add fuel store command = command_add_child fuel store 0 command

-- `registry_find`
unfoldable pub registry_find : List Command → String → Option ℕ
unfolding command_find_child
registry_find store name = command_find_child store 0 name

-- Whether a segment names the root, where the search stands on it.
abbrev pub is_root : List Command → ℕ → String → Bool
is_root store current name =
    current == 0 && elim (at store 0) [ none ↦ false | some root ↦ same root.name name ]

-- The loop of `registry_find_path`.
unfoldable pub find_path_loop : List Command → ℕ → List String → Option ℕ
unfolding command_find_child
find_path_loop store current [] = none
find_path_loop store current (name ∷ []) =
    if same name "" || is_root store current name
    then none
    else command_find_child store current name
find_path_loop store current (name ∷ next ∷ more) =
    if same name ""
    then none
    else if is_root store current name
    then find_path_loop store current (next ∷ more)
    else elim (command_find_child store current name) [
      | none ↦ none
      | some child ↦ find_path_loop store child (next ∷ more)
    ]

-- `registry_find_path` of a path that is there.
unfoldable pub registry_find_path : List Command → String → Option ℕ
unfolding find_path_loop segments_of
registry_find_path store path = find_path_loop store 0 (segments_of path)
