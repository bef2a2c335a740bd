-- ===== src/Json/Built.antt =====
-- What json-c gives back of the values that it is asked to build.
use sweet_dawn.Base.{ℕ, ◌≡◌, Option, none, some, List, [], ◌∷◌, String, same, if◌then◌else◌}
use sweet_dawn.Json.{JsonLib, object_kind, int_kind, string_kind, array_kind}

-- The value of a key once the members were added in their order: json_object_object_add() replaces the value of a
-- key that is there.
abbrev pub member : {V : Type 0} → String → List (String × V) → Option V
member key [] = none
member key ((k, v) ∷ more) =
    let later = member key more in
    elim later [ none ↦ if same k key then some v else none | some last ↦ some last ]

-- What json-c says of what it builds.
pub record Builds (json : JsonLib) : Type 0 where
  pub objects : (ms : List (String × json.Value)) → json.kind (json.new_object ms) ≡ object_kind
  pub members :
      (ms : List (String × json.Value)) (key : String)
      → json.get_ex (json.new_object ms) key ≡ member key ms
  pub strings : (s : String) → json.kind (json.new_string s) ≡ string_kind
  pub texts : (s : String) → json.get_string (json.new_string s) ≡ s
  pub ints : (n : ℕ) → json.kind (json.new_int n) ≡ int_kind
  pub arrays : (vs : List json.Value) → json.kind (json.new_array vs) ≡ array_kind
  pub items : (vs : List json.Value) → json.array (json.new_array vs) ≡ vs
