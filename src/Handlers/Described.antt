-- ===== src/Handlers/Described.antt =====
-- What the command "commands" (commande_json of src/app/handlers.c) tells of a tree, and that it ends.
use sweet_dawn.Base.{
  ℕ, zero, suc, ◌+◌, ◌≤◌, ◌≡◌, ◌∙◌, inl, inr, refl, ap, arith, Bool, true, false, Option, none,
  some, List, [], ◌∷◌, ◌++◌, String, length,
}
use sweet_dawn.Json.{JsonLib, object_kind}
use sweet_dawn.Json.Built.{Builds, member}
use sweet_dawn.Command.{
  Command, at, CommandValueType, value_none, value_bool, value_integer, value_number, value_string,
}
use sweet_dawn.Command.Tree.{In, IsTree}
use sweet_dawn.Command.Registry.{registry_find_path}
use sweet_dawn.Command.Depth.{Rank, under, Ends-Rank, Rank-pos, Rank-bound}
use sweet_dawn.Os.{Os}
use sweet_dawn.Link.{SweetDawn}
use sweet_dawn.Events.{Evenements}
use sweet_dawn.Command.Validate.{Numbers}
use sweet_dawn.Handlers.{commands, handlers_request}
use sweet_dawn.Handlers.Json.{
  type_name, is_some, strings, range_members, choices_member, children_member, commande_object,
  enfants_json, commande_json,
}
use sweet_dawn.Handlers.Run.{Libc, accepted, repondre, repondre_a}

-- The texts of the types, and what a member of a description is where it is there.
abbrev pub type_text : CommandValueType → String
type_text value_none = "none"
type_text value_bool = "bool"
type_text value_integer = "integer"
type_text value_number = "number"
type_text value_string = "string"

abbrev pub is_there : {A : Type 0} → Option A → Bool
is_there none = false
is_there (some a) = true

same_text : (t : CommandValueType) → type_name t ≡ type_text t
same_text value_none = refl
same_text value_bool = refl
same_text value_integer = refl
same_text value_number = refl
same_text value_string = refl

same_presence : (handler : Option ℕ) → is_some handler ≡ is_there handler
same_presence none = refl
same_presence (some h) = refl

module _ (json : JsonLib) where
  open json use {Value}

  abbrev pub texts : List String → List Value
  texts [] = []
  texts (t ∷ ts) = json.new_string t ∷ texts ts

  abbrev pub limit_of : (ℕ × ℕ → ℕ) → Option (ℕ × ℕ) → Option Value
  limit_of side none = none
  limit_of side (some range) = some (json.new_int (side range))

  abbrev pub array_of : List Value → Option Value
  array_of [] = none
  array_of (v ∷ vs) = some (json.new_array (v ∷ vs))

  -- The object of a command whose children have the objects `vs`.
  pub record IsObject (command : Command) (vs : List Value) (v : Value) : Type 0 where
    pub kind : json.kind v ≡ object_kind
    pub name : json.get_ex v "name" ≡ some (json.new_string command.name)
    pub description : json.get_ex v "description" ≡ some (json.new_string command.description)
    pub type : json.get_ex v "type" ≡ some (json.new_string (type_text command.value_spec.type))
    pub minimum : json.get_ex v "min" ≡ limit_of (λ r. r.0) command.value_spec.range
    pub maximum : json.get_ex v "max" ≡ limit_of (λ r. r.1) command.value_spec.range
    pub choices : json.get_ex v "choices" ≡ array_of (texts command.value_spec.choices)
    pub implemented :
        json.get_ex v "implemented" ≡ some (json.new_boolean (is_there command.handler))
    pub children : json.get_ex v "children" ≡ array_of vs

  -- A value describes the command at an address, with all that is below it.
  module _ (s : List Command) where
    mutual
      pub data Describes : ℕ → Value → Type 0 where
        described :
            (i : ℕ) (command : Command) (vs : List Value) (v : Value)
            → at s i ≡ some command
            → DescribesAll command.children vs
            → IsObject command vs v
            → Describes i v

      pub data DescribesAll : List ℕ → List Value → Type 0 where
        no_child : DescribesAll [] []
        child :
            (i : ℕ) (is : List ℕ) (v : Value) (vs : List Value)
            → Describes i v
            → DescribesAll is vs
            → DescribesAll (i ∷ is) (v ∷ vs)

  texts_strings : (ts : List String) → strings json ts ≡ texts ts
  texts_strings [] = refl
  texts_strings (t ∷ ts) = ap (λ x. json.new_string t ∷ x) (texts_strings ts)

  -- The members of a description, one by one.
  members_found :
      (name description type implemented : Value) (range : Option (ℕ × ℕ)) (choices : List String)
      (vs : List Value)
      → let ms =
          ("name", name)
          ∷ ("description", description)
          ∷ ("type", type)
          ∷ (range_members json range
              ++ (choices_member json choices
                  ++ (("implemented", implemented) ∷ children_member json vs))) in
        (member "name" ms ≡ some name)
        × (member "description" ms ≡ some description)
        × (member "type" ms ≡ some type)
        × (member "min" ms ≡ limit_of (λ r. r.0) range)
        × (member "max" ms ≡ limit_of (λ r. r.1) range)
        × (member "choices" ms ≡ array_of (texts choices))
        × (member "implemented" ms ≡ some implemented)
        × (member "children" ms ≡ array_of vs)
  members_found n d t h none [] [] = (refl, refl, refl, refl, refl, refl, refl, refl)
  members_found n d t h none [] (v ∷ vs) = (refl, refl, refl, refl, refl, refl, refl, refl)
  members_found n d t h none (c ∷ cs) [] = (
    refl,
    refl,
    refl,
    refl,
    refl,
    ap (λ x. some (json.new_array x)) (texts_strings (c ∷ cs)),
    refl,
    refl,
  )
  members_found n d t h none (c ∷ cs) (v ∷ vs) = (
    refl,
    refl,
    refl,
    refl,
    refl,
    ap (λ x. some (json.new_array x)) (texts_strings (c ∷ cs)),
    refl,
    refl,
  )
  members_found n d t h (some r) [] [] = (refl, refl, refl, refl, refl, refl, refl, refl)
  members_found n d t h (some r) [] (v ∷ vs) = (refl, refl, refl, refl, refl, refl, refl, refl)
  members_found n d t h (some r) (c ∷ cs) [] = (
    refl,
    refl,
    refl,
    refl,
    refl,
    ap (λ x. some (json.new_array x)) (texts_strings (c ∷ cs)),
    refl,
    refl,
  )
  members_found n d t h (some r) (c ∷ cs) (v ∷ vs) = (
    refl,
    refl,
    refl,
    refl,
    refl,
    ap (λ x. some (json.new_array x)) (texts_strings (c ∷ cs)),
    refl,
    refl,
  )

module _ (json : JsonLib) (builds : Builds json) where
  open json use {Value}

  commande_object-IsObject :
      (command : Command) (vs : List Value)
      → IsObject json command vs (commande_object json command vs)
  unfolding commande_object
  commande_object-IsObject command vs =
      let (n, d, t, a, b, c, h, l) =
        members_found json (json.new_string command.name) (json.new_string command.description)
          (json.new_string (type_name command.value_spec.type))
          (json.new_boolean (is_some command.handler)) command.value_spec.range
          command.value_spec.choices vs in
      record {
        kind = builds.objects _;
        name = builds.members _ "name" ∙ n;
        description = builds.members _ "description" ∙ d;
        type =
            builds.members _ "type"
            ∙ (t ∙ ap (λ x. some (json.new_string x)) (same_text command.value_spec.type));
        minimum = builds.members _ "min" ∙ a;
        maximum = builds.members _ "max" ∙ b;
        choices = builds.members _ "choices" ∙ c;
        implemented =
            builds.members _ "implemented"
            ∙ (h ∙ ap (λ x. some (json.new_boolean x)) (same_presence command.handler));
        children = builds.members _ "children" ∙ l;
      }

  module _ (s : List Command) (tree : IsTree s) where
    -- Every child is described.
    children_described :
        (object_of : ℕ → Option Value) (cs : List ℕ)
        → ((j : ℕ) → In j cs → (v : Value) × (object_of j ≡ some v) × Describes json s j v)
        → (vs : List Value) × (enfants_json json object_of cs ≡ some vs) × DescribesAll json s cs vs
    unfolding enfants_json
    children_described object_of [] h = ([], refl, no_child)
    children_described object_of (c ∷ cs) h =
        let (v, e, f) = h c (inl refl) in
        let (vs, k, g) = children_described object_of cs (λ j i. h j (inr i)) in
        (v ∷ vs, rw (e, enfants_json) (rw k refl), child c cs v vs f g)

    described_at :
        (fuel i n : ℕ) (command : Command)
        → at s i ≡ some command
        → Rank s (some i) n
        → length s + 1 ≤ fuel + n
        → (v : Value) × (commande_json json fuel s i ≡ some v) × Describes json s i v
    unfolding commande_json
    described_at zero i n command e r h = absurd (omega (arith, h, Rank-bound s r))
    described_at (suc fuel) i n command e r h =
        let (vs, k, f) = children_described (commande_json json fuel s) command.children (λ j c.
          let (below, g, parent) = tree.linked i command e j c in
          described_at fuel j (suc n) below g (under j n below g (rw parent r))
            (omega (arith, h))) in
        let v = commande_object json command vs in
        (
          v,
          rw (e, commande_json) (rw k refl),
          described i command vs v e f (commande_object-IsObject command vs),
        )

    -- Every command of a tree is described, with as much fuel as there are commands.
    commande_json_total :
        (i : ℕ) (command : Command)
        → at s i ≡ some command
        → (v : Value) × (commande_json json (length s) s i ≡ some v) × Describes json s i v
    commande_json_total i command e =
        let (n, r) = Ends-Rank s (tree.ends i command e) in
        described_at (length s) i n command e r (omega (arith, Rank-pos s r))

asks_commands :
    (json : JsonLib) (numbers : Numbers) (s : List Command)
    → handlers_request json numbers s "commands" [] ≡ commands
unfolding handlers_request
asks_commands json numbers s = refl

module _ (os : Os) (libc : Libc os) (s : List Command) (fuel : ℕ) (app : SweetDawn Evenements)
    (w : os.World) where
  description_answers :
      (found : Option ℕ) (v : libc.json.Value)
      → commande_json libc.json (length s) s 0 ≡ some v
      → repondre_a os libc s fuel app found w commands ≡ some (accepted os libc v, app, w)
  unfolding repondre_a
  description_answers found v k = rw (k, repondre_a) refl

  -- In a tree with a root, the request "commands" without arguments is accepted with a value that
  -- describes the root and all that is below it: of each command its name, its description, its
  -- type, its limits if it has some, its choices if there are any, whether it has a handler, and
  -- the descriptions of its children in their order if it has any. As many turns as there are
  -- commands are enough, and the program and the world stay as they were. This is provided that
  -- json-c gives back what it was given to build, of a key the value that was added last.
  pub commands_described :
      (root : Command)
      → Builds libc.json
      → IsTree s
      → at s 0 ≡ some root
      → (v : libc.json.Value) × (repondre os libc s fuel app "commands" [] w
          ≡ some (accepted os libc v, app, w))
        × Describes libc.json s 0 v
  unfolding repondre
  commands_described root builds tree e =
      let (v, k, f) = commande_json_total libc.json builds s tree 0 root e in
      (
        v,
        rw (asks_commands libc.json libc.numbers s)
            (description_answers (registry_find_path s "commands") v k),
        f,
      )
