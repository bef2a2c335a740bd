-- ===== src/Command.antt =====
-- The tree of commands (src/command/command.c). The commands stand in a list, and the address of one is its
-- position: NULL is `none`. The arrays of aliases and of children are lists, which always find the memory to grow;
-- the limits of a value are naturals, as every use of them is.
pub mod Validate
pub mod Registry
pub mod Aml
pub mod Tree
pub mod Depth
pub mod Grow
pub mod Alias
pub mod Built
pub mod Paths
use sweet_dawn.Base.{
  ℕ, zero, suc, ◌+◌, Bool, true, false, not, ◌&&◌, ◌||◌, Option, none, some, List, [], ◌∷◌, ◌++◌,
  String, same, ltb, leb, ◌==◌, if◌then◌else◌, length,
}

-- `CommandValueType`
pub data CommandValueType : Type 0 where
  value_none value_bool value_integer value_number value_string : CommandValueType

-- `CommandValueSpec`; `range` is none where `has_range` is 0.
pub record CommandValueSpec : Type 0 where
  pub type : CommandValueType
  pub range : Option (ℕ × ℕ)
  pub choices : List String

-- `struct Command`, less its state; a handler is a number.
pub record Command : Type 0 where
  pub name : String
  pub description : String
  pub aliases : List String
  pub children : List ℕ
  pub parent : Option ℕ
  pub value_spec : CommandValueSpec
  pub handler : Option ℕ

abbrev pub no_value : CommandValueSpec
no_value = record { type = value_none; range = none; choices = [] }

-- The command at an address, and what a write to it leaves.
abbrev pub at {ℓ} : {A : Type ℓ} → List A → ℕ → Option A
at [] i = none
at (x ∷ xs) zero = some x
at (x ∷ xs) (suc i) = at xs i

abbrev pub put {ℓ} : {A : Type ℓ} → List A → ℕ → A → List A
put [] i y = []
put (x ∷ xs) zero y = y ∷ xs
put (x ∷ xs) (suc i) y = x ∷ put xs i y

-- Whether a text is one of some.
abbrev pub among : String → List String → Bool
among s [] = false
among s (t ∷ ts) = same t s || among s ts

-- `nom_correspond`
unfoldable pub nom_correspond : Command → String → Bool
nom_correspond command name = same command.name name || among name command.aliases

-- Whether a command answers to one of some names.
unfoldable pub answers_one : Command → List String → Bool
unfolding nom_correspond
answers_one b [] = false
answers_one b (name ∷ more) = nom_correspond b name || answers_one b more

-- `identifiants_en_collision`
unfoldable pub identifiants_en_collision : Command → Command → Bool
unfolding answers_one
identifiants_en_collision a b = nom_correspond b a.name || answers_one b a.aliases

-- `command_init`, without a handler; none is -1.
unfoldable pub command_init : String → String → Option Command
command_init name description =
    if same name ""
    then none
    else some (record {
      name = name;
      description = description;
      aliases = [];
      children = [];
      parent = none;
      value_spec = no_value;
      handler = none;
    })

abbrev pub is_numeric : CommandValueType → Bool
is_numeric value_integer = true
is_numeric value_number = true
is_numeric _ = false

abbrev pub is_text : CommandValueType → Bool
is_text value_string = true
is_text _ = false

abbrev pub range_ok : CommandValueType → Option (ℕ × ℕ) → Bool
range_ok type none = true
range_ok type (some (minimum, maximum)) = is_numeric type && leb minimum maximum

-- `command_set_value_spec`; none is -1.
unfoldable pub command_set_value_spec : Command → CommandValueSpec → Option Command
command_set_value_spec command spec =
    if not (range_ok spec.type spec.range)
    then none
    else if ltb 0 (length spec.choices) && not (is_text spec.type)
    then none
    else some (record command { value_spec = spec })

-- Whether a child other than `command` answers to a name.
unfoldable pub sibling_answers : List Command → ℕ → String → List ℕ → Bool
unfolding nom_correspond
sibling_answers store command alias [] = false
sibling_answers store command alias (sibling ∷ more) =
    let further = sibling_answers store command alias more in
    if sibling == command
    then further
    else elim (at store sibling) [ none ↦ further | some s ↦ nom_correspond s alias || further ]

-- Whether a command of the same parent answers to a name.
unfoldable pub taken_by_sibling : List Command → ℕ → Option ℕ → String → Bool
unfolding sibling_answers
taken_by_sibling store command none alias = false
taken_by_sibling store command (some p) alias = elim (at store p) [
  | none ↦ false
  | some parent ↦ sibling_answers store command alias parent.children
]

-- `command_add_alias`; none is -1.
unfoldable pub command_add_alias : List Command → ℕ → String → Option (List Command)
unfolding taken_by_sibling
command_add_alias store i alias = elim (at store i) [
  | none ↦ none
  | some command ↦
      if same alias ""
        || nom_correspond command alias
        || taken_by_sibling store i command.parent alias
      then none
      else some (put store i (record command { aliases = command.aliases ++ (alias ∷ []) }))
]

-- Whether `child` is one of the ancestors of a command, or itself; none is out of fuel.
unfoldable pub is_ancestor : ℕ → List Command → ℕ → Option ℕ → Option Bool
is_ancestor fuel store child none = some false
is_ancestor zero store child (some a) = none
is_ancestor (suc fuel) store child (some a) =
    if a == child
    then some true
    else elim (at store a) [ none ↦ none | some c ↦ is_ancestor fuel store child c.parent ]

-- Whether the identifiers of a command are those of one of some children.
unfoldable pub child_collides : List Command → Command → List ℕ → Bool
unfolding identifiants_en_collision
child_collides store command [] = false
child_collides store command (other ∷ more) =
    let further = child_collides store command more in
    elim (at store other) [
      | none ↦ further
      | some o ↦ identifiants_en_collision command o || further
    ]

-- `command_add_child` once both are there and the child has no parent.
unfoldable pub add_orphan : List Command → ℕ → Command → ℕ → Command → Bool → Option (List Command)
unfolding child_collides
add_orphan store p parent c child ancestor =
    if ancestor || child_collides store child parent.children
    then none
    else some (
        put (put store p (record parent { children = parent.children ++ (c ∷ []) })) c
          (record child { parent = some p }))

-- `command_add_child`: the outer none is out of fuel or no command there, the inner one is -1.
unfoldable pub command_add_child : ℕ → List Command → ℕ → ℕ → Option (Option (List Command))
unfolding add_orphan is_ancestor
command_add_child fuel store p c = elim (at store p) [
  | none ↦ none
  | some parent ↦ elim (at store c) [
    | none ↦ none
    | some child ↦ if p == c then some none else elim child.parent [
      | some other ↦ some none
      | none ↦ elim (is_ancestor fuel store c (some p)) [
        | none ↦ none
        | some ancestor ↦ some (add_orphan store p parent c child ancestor)
      ]
    ]
  ]
]

-- `command_find_child`, among the children that are left.
unfoldable pub find_among : List Command → List ℕ → String → Option ℕ
unfolding nom_correspond
find_among store [] name = none
find_among store (c ∷ more) name =
    let further = find_among store more name in
    elim (at store c) [
      | none ↦ further
      | some child ↦ if nom_correspond child name then some c else further
    ]

unfoldable pub command_find_child : List Command → ℕ → String → Option ℕ
unfolding find_among
command_find_child store p name = elim (at store p) [
  | none ↦ none
  | some parent ↦ find_among store parent.children name
]

-- `command_execute`: -1 is none; `run` calls the handler of a number.
unfoldable pub command_execute :
    {Context Result : Type 0}
    → (ℕ → Command → List String → Context → Result)
    → Command
    → List String
    → Context
    → Option Result
command_execute run command argv context = elim command.handler [
  | none ↦ none
  | some handler ↦ some (run handler command argv context)
]
