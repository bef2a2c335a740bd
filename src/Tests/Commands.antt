-- ===== src/Tests/Commands.antt =====
-- The tree of the commands, as it is built.
use sweet_dawn.Base.{
  ℕ, zero, suc, ◌≡◌, ◌↔◌, inl, inr, subst, refl, sym, arith, true, false, Option, none, some, List,
  [], ◌∷◌, String, length, ltb,
}
use sweet_dawn.Command.{Command, no_value, at, nom_correspond, command_add_alias, command_add_child}
use sweet_dawn.Command.Tree.{In, Apart, Ends, over, up, IsTree}
use sweet_dawn.Command.Grow.{add_child-IsTree}
use sweet_dawn.Command.Alias.{add_alias-IsTree}
use sweet_dawn.Command.Built.{aml_commands-IsTree}
use sweet_dawn.Command.Paths.{path_of, last, down, find_path-Leads}
use sweet_dawn.Command.Validate.{
  Numbers, natural, opposite, IsAccepted, command_validate_value, validate_value_iff,
}
use sweet_dawn.Command.Registry.{registry_find, registry_find_path, registry_init}
use sweet_dawn.Command.Aml.{aml_commands_init}

abbrev pub built : Option (Unit {0} × List Command) → List Command
built none = []
built (some (u, s)) = s

unfoldable pub tree : List Command
unfolding aml_commands_init registry_init
tree = built aml_commands_init

tree_size : length tree ≡ 56
unfolding tree
tree_size = refl

tree_built : aml_commands_init ≡ some (tt, tree)
unfolding aml_commands_init registry_init tree
tree_built = refl

days : registry_find_path tree "AML/Alarm/2/Days" ≡ some 23
unfolding registry_find_path tree
days = refl

no_such : registry_find_path tree "Light//Enable" ≡ none
unfolding registry_find_path tree
no_such = refl

light : registry_find tree "Light" ≡ some 32
unfolding registry_find tree
light = refl

brightness : registry_find_path tree "Light/Brightness" ≡ some 34
unfolding registry_find_path tree
brightness = refl

abbrev pub command_of : Option Command → Command
command_of none = record {
  name = "";
  description = "";
  aliases = [];
  children = [];
  parent = none;
  value_spec = no_value;
  handler = none;
}
command_of (some c) = c

abbrev there : ℕ → Command
unfolding tree
there i = command_of (at tree i)

pub tree-IsTree : IsTree tree
unfolding tree
tree-IsTree = aml_commands-IsTree tree tree_built

find_path-Leads_example : registry_find_path tree (path_of "Light" ("Brightness" ∷ [])) ≡ some 34
unfolding tree nom_correspond
find_path-Leads_example =
    find_path-Leads tree tree-IsTree (there 0) refl refl "Light" ("Brightness" ∷ []) 34
      (down {p = 0} {k = 34} {j = 32} {name = "Light"} {next = "Brightness"} {more = []} (there 0)
        (there 32) refl (inr (inr (inl refl))) refl refl
        (last {p = 32} {k = 34} {name = "Brightness"} (there 32) (there 34) refl (inr (inl refl))
          refl refl))
      refl (refl, refl, (refl, refl, tt))

-- Two commands that are not tied yet.
abbrev alone : String → Command
alone name = record (command_of none) { name = name }

abbrev pair : List Command
pair = alone "AML" ∷ alone "Light" ∷ []

pair_alone : (i : ℕ) (c : Command) → at pair i ≡ some c → (c.children ≡ []) × (c.parent ≡ none)
pair_alone zero c h = ground arith
pair_alone (suc zero) c h = ground arith
pair_alone (suc (suc i)) c h = absurd (ground arith)

pair-IsTree : IsTree pair
pair-IsTree = record {
  linked =
      λ p c e j i. let none_there = subst (In j) (pair_alone p c e).0 i in absurd (ground arith);
  distinct = λ p c e. subst (Apart pair) (sym (pair_alone p c e).0) tt;
  ends = λ i c e. up i c e (subst (Ends pair) (sym (pair_alone i c e).1) over);
}

abbrev tied : List Command
tied = record (alone "AML") { children = 1 ∷ [] } ∷ record (alone "Light") { parent = some 0 } ∷ []

add_child-IsTree_example : IsTree tied
unfolding command_add_child
add_child-IsTree_example = add_child-IsTree 2 pair 0 1 tied pair-IsTree refl

tied-IsTree : IsTree tied
unfolding command_add_child
tied-IsTree = add_child-IsTree 2 pair 0 1 tied pair-IsTree refl

add_alias-IsTree_example : IsTree (
    record (alone "AML") { children = 1 ∷ [] }
    ∷ record (alone "Light") { parent = some 0; aliases = "Lamp" ∷ [] }
    ∷ [])
unfolding command_add_alias
add_alias-IsTree_example = add_alias-IsTree tied 1 "Lamp" _ tied-IsTree refl

-- Every text reads as 100.
abbrev pub hundred : Numbers
hundred = record {
  strtoll =
      λ s. record { out_of_range = false; something = true; whole = true; value = natural 100 };
  Double = ℕ;
  to_double = λ v. elim v [ natural n ↦ n | opposite n ↦ 0 ];
  strtod = λ s. record { out_of_range = false; something = true; whole = true; value = 100 };
  is_finite = λ d. true;
  below = ltb;
  above = λ d n. ltb n d;
}

validate_value_iff_example :
    (command_validate_value hundred (there 34) "100" ≡ none)
    ↔ IsAccepted hundred (there 34).value_spec "100"
validate_value_iff_example = validate_value_iff hundred (there 34) "100"
