-- ===== src/Command/Validate.antt =====
-- Whether a text is a value that a command accepts (`command_validate_value` of src/command/command.c). strtoll() and
-- strtod() are a parameter.
use sweet_dawn.Base.{
  ℕ, ◌≡◌, ◌⊎◌, ◌↔◌, inl, refl, arith, Bool, true, false, not, ◌||◌, Option, none, some, List, [],
  ◌∷◌, String, same, if◌then◌else◌,
}
use sweet_dawn.Command.{
  Command, CommandValueSpec, CommandValueType, value_none, value_bool, value_integer, value_number,
  value_string, among,
}

-- An integer of C: a natural, or the opposite of one that is not 0.
pub data Signed : Type 0 where
  natural opposite : ℕ → Signed

-- What strtoll() or strtod() found in a text: whether errno is ERANGE, whether it read anything, whether it
-- stopped at the end of the text, and the value.
pub record Parsed (N : Type 0) : Type 0 where
  pub out_of_range : Bool
  pub something : Bool
  pub whole : Bool
  pub value : N

pub record Numbers : Type 1 where
  pub strtoll : String → Parsed Signed
  pub Double : Type 0
  -- (double)entier
  pub to_double : Signed → Double
  pub strtod : String → Parsed Double
  pub is_finite : Double → Bool
  -- Whether a double is less than a natural, and greater.
  pub below : Double → ℕ → Bool
  pub above : Double → ℕ → Bool

abbrev pub outside : {N : Type 0} → (N → ℕ → Bool) → (N → ℕ → Bool) → N → Option (ℕ × ℕ) → Bool
outside below above v none = false
outside below above v (some (minimum, maximum)) = below v minimum || above v maximum

module _ (numbers : Numbers) where
  -- The text of an integer; none is no error.
  unfoldable pub validate_integer : Option (ℕ × ℕ) → String → Option String
  validate_integer range value =
      if same value ""
      then some "Un entier est attendu."
      else let r = numbers.strtoll value in
        if r.out_of_range || not r.something || not r.whole
        then some "Valeur entière invalide."
        else if outside numbers.below numbers.above (numbers.to_double r.value) range
        then some "L'entier est hors des limites autorisées."
        else none

  -- The text of a decimal number.
  unfoldable pub validate_number : Option (ℕ × ℕ) → String → Option String
  validate_number range value =
      if same value ""
      then some "Un nombre est attendu."
      else let r = numbers.strtod value in
        if r.out_of_range || not r.something || not r.whole || not (numbers.is_finite r.value)
        then some "Valeur numérique invalide."
        else if outside numbers.below numbers.above r.value range
        then some "Le nombre est hors des limites autorisées."
        else none

  -- A text, among the choices if there are any.
  unfoldable pub validate_choice : List String → String → Option String
  validate_choice [] value = none
  validate_choice (choice ∷ more) value =
      if among value (choice ∷ more)
      then none
      else some "La valeur ne fait pas partie des choix autorisés."

  unfoldable pub validate_bool : String → Option String
  validate_bool value =
      if same value "true" || same value "false"
      then none
      else some "Valeur booléenne attendue : true ou false."

  -- The switch of `command_validate_value`: the message, or none for 0.
  unfoldable pub validate_as :
      CommandValueType → Option (ℕ × ℕ) → List String → String → Option String
  unfolding validate_integer validate_number validate_choice validate_bool
  validate_as value_none range choices value = some "Cette commande n'accepte pas de valeur."
  validate_as value_bool range choices value = validate_bool value
  validate_as value_integer range choices value = validate_integer range value
  validate_as value_number range choices value = validate_number range value
  validate_as value_string range choices value = validate_choice choices value

  -- `command_validate_value` of a command and a value that are there.
  unfoldable pub command_validate_value : Command → String → Option String
  unfolding validate_as
  command_validate_value command value =
      let spec = command.value_spec in validate_as spec.type spec.range spec.choices value

  -- A range holds a double: it is neither less than the minimum nor greater than the maximum.
  abbrev pub IsWithin : Option (ℕ × ℕ) → numbers.Double → Type 0
  IsWithin none d = Unit
  IsWithin (some (minimum, maximum)) d =
      (numbers.below d minimum ≡ false) × (numbers.above d maximum ≡ false)

  -- A text that was read to its end.
  abbrev pub IsRead : {N : Type 0} → String → Parsed N → Type 0
  IsRead value r =
      (same value "" ≡ false) × (r.out_of_range ≡ false) × (r.something ≡ true) × (r.whole ≡ true)

  -- What a text is that a specification accepts.
  abbrev pub AcceptsAs : CommandValueType → Option (ℕ × ℕ) → List String → String → Type 0
  AcceptsAs value_none range choices value = false ≡ true
  AcceptsAs value_bool range choices value = (same value "true" || same value "false") ≡ true
  AcceptsAs value_integer range choices value =
      IsRead value (numbers.strtoll value)
      × IsWithin range (numbers.to_double (numbers.strtoll value).value)
  AcceptsAs value_number range choices value =
      IsRead value (numbers.strtod value)
      × (numbers.is_finite (numbers.strtod value).value ≡ true)
      × IsWithin range (numbers.strtod value).value
  AcceptsAs value_string range choices value = (choices ≡ []) ⊎ (among value choices ≡ true)

  within :
      (range : Option (ℕ × ℕ)) (d : numbers.Double)
      → (outside numbers.below numbers.above d range ≡ false) ↔ IsWithin range d
  within none d = (λ _. tt, λ _. refl)
  within (some (a, b)) d = ground arith

  integer_iff :
      (range : Option (ℕ × ℕ)) (value : String)
      → (validate_integer range value ≡ none) ↔ (
          IsRead value (numbers.strtoll value)
          × IsWithin range (numbers.to_double (numbers.strtoll value).value))
  unfolding validate_integer
  integer_iff range value =
      let (to, from) = within range (numbers.to_double (numbers.strtoll value).value) in
      (λ h. (ground arith, to (ground arith)), λ (r, v). let e = from v in ground arith)

  number_iff :
      (range : Option (ℕ × ℕ)) (value : String)
      → (validate_number range value ≡ none) ↔ (
          IsRead value (numbers.strtod value)
          × (numbers.is_finite (numbers.strtod value).value ≡ true)
          × IsWithin range (numbers.strtod value).value)
  unfolding validate_number
  number_iff range value =
      let (to, from) = within range (numbers.strtod value).value in
      (
        λ h. (ground arith, ground arith, to (ground arith)),
        λ (r, f, v). let e = from v in ground arith,
      )

  choice_iff :
      (choices : List String) (value : String)
      → (validate_choice choices value ≡ none) ↔ ((choices ≡ []) ⊎ (among value choices ≡ true))
  unfolding validate_choice
  choice_iff [] value = (λ _. inl refl, λ _. refl)
  choice_iff (c ∷ more) value = ground arith

  as_iff :
      (type : CommandValueType) (range : Option (ℕ × ℕ)) (choices : List String) (value : String)
      → (validate_as type range choices value ≡ none) ↔ AcceptsAs type range choices value
  unfolding validate_as
  as_iff value_none range choices value = ground arith
  as_iff value_bool range choices value = unfold validate_bool in ground arith
  as_iff value_integer range choices value = integer_iff range value
  as_iff value_number range choices value = number_iff range value
  as_iff value_string range choices value = choice_iff choices value

  abbrev pub IsAccepted : CommandValueSpec → String → Type 0
  IsAccepted spec value = AcceptsAs spec.type spec.range spec.choices value

  -- A text is accepted as a value exactly when the specification of the command describes it:
  -- never without a value, true or false for a boolean, a text that is read to its end as a number
  -- that is, as a double, neither less than the minimum nor greater than the maximum, if there are
  -- limits, and one of the choices, if there are any, for a text.
  pub validate_value_iff :
      (command : Command) (value : String)
      → (command_validate_value command value ≡ none) ↔ IsAccepted command.value_spec value
  unfolding command_validate_value
  validate_value_iff command value =
      let spec = command.value_spec in as_iff spec.type spec.range spec.choices value
