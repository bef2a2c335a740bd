-- ===== src/Handlers/Allowed.antt =====
-- What reaches a handler (handlers_request of src/app/handlers.c), and what the byte of a choice stands for.
use sweet_dawn.Base.{
  ℕ, suc, ◌≡◌, ◌<◌, ◌⊎◌, inl, inr, refl, ap, arith, subst, true, false, not, ◌||◌, some, List, [],
  ◌∷◌, String, same, same_iff, length, ◌==◌, Bool-cases, if_intro, option_intro,
}
use sweet_dawn.Json.{JsonLib}
use sweet_dawn.Command.{Command, at, among}
use sweet_dawn.Command.Registry.{registry_find_path}
use sweet_dawn.Command.Validate.{Numbers, IsAccepted, command_validate_value, validate_value_iff}
use sweet_dawn.Handlers.{
  index_choix, Dispatch, status, commands, refused, execute, expects_value, call_step, value_step,
  handlers_request,
}

-- The index of a text that is one of the choices of a command is below their number, and the
-- choice at this index is that text.
pub among-index_choix :
    (choices : List String) (value : String)
    → among value choices ≡ true
    → (i : ℕ) × (index_choix choices value ≡ some i)
      × (i < length choices)
      × (at choices i ≡ some value)
unfolding index_choix
among-index_choix [] value h = absurd (ground arith)
among-index_choix (choice ∷ more) value h = elim (Bool-cases (same choice value)) [
  | inl e ↦ (0, rw (e, index_choix) refl, omega arith, ap some ((same_iff choice value).0 e))
  | inr e ↦
      let k : among value more ≡ true = ground arith in
      let (i, f, l, g) = among-index_choix more value k in
      (suc i, rw (e, index_choix) (rw f refl), omega (arith, l), g)
]

module _ (json : JsonLib) (numbers : Numbers) where
  open json use {Value}

  -- The arguments with which a handler may be called.
  pub record IsAllowed (command : Command) (args : List Value) (handler : ℕ) (called : Command)
      (argv : List String) : Type 0 where
    pub same_command : called ≡ command
    pub tied : command.handler ≡ some handler
    pub checked :
        ((argv ≡ []) × (args ≡ []) × (expects_value command.value_spec.type ≡ false))
        ⊎ ((value : String) × (argv ≡ value ∷ []) × IsAccepted numbers command.value_spec value)

  -- What a dispatch of some arguments for a command may be.
  abbrev Allows : Command → List Value → Dispatch → Type 0
  Allows command args (execute handler called argv) = IsAllowed command args handler called argv
  Allows command args _ = Unit

  call-Allows :
      (command : Command) (args : List Value) (argv : List String)
      → (((argv ≡ []) × (args ≡ []) × (expects_value command.value_spec.type ≡ false))
          ⊎ ((value : String) × (argv ≡ value ∷ []) × IsAccepted numbers command.value_spec value))
      → Allows command args (call_step json numbers command argv)
  unfolding call_step
  call-Allows command args argv v =
      option_intro (Allows command args) command.handler (λ _. tt)
        (λ handler e. record { same_command = refl; tied = e; checked = v })

  value-Allows :
      (command : Command) (args : List Value)
      → Allows command args (value_step json numbers command args)
  unfolding value_step
  value-Allows command [] =
      if_intro (Allows command []) (not (expects_value command.value_spec.type))
        (λ h. call-Allows command [] [] (inl (refl, refl, ground arith))) (λ _. tt)
  value-Allows command (arg ∷ b ∷ more) =
      if_intro (Allows command (arg ∷ b ∷ more)) (not (expects_value command.value_spec.type))
        (λ _. tt) (λ _. tt)
  value-Allows command (arg ∷ []) =
      if_intro (Allows command (arg ∷ [])) (not (expects_value command.value_spec.type)) (λ _. tt)
        (λ _.
          option_intro (Allows command (arg ∷ [])) (json.text_of arg) (λ _. tt)
            (λ value _.
              option_intro (Allows command (arg ∷ []))
                (command_validate_value numbers command value)
                (λ k.
                  call-Allows command (arg ∷ []) (value ∷ [])
                    (inr (value, refl, (validate_value_iff numbers command value).0 k)))
                (λ message _. tt)))

  -- A dispatch of a request.
  abbrev Finds : List Command → String → List Value → Dispatch → Type 0
  Finds store name args (execute handler called argv) =
      (i : ℕ) × (command : Command) × (registry_find_path store name ≡ some i)
      × (at store i ≡ some command)
      × IsAllowed command args handler called argv
  Finds store name args _ = Unit

  found-Finds :
      (store : List Command) (name : String) (args : List Value) (i : ℕ) (command : Command)
      (d : Dispatch)
      → registry_find_path store name ≡ some i
      → at store i ≡ some command
      → Allows command args d
      → Finds store name args d
  found-Finds store name args i command (execute handler called argv) e f v = (i, command, e, f, v)
  found-Finds store name args i command status e f v = tt
  found-Finds store name args i command commands e f v = tt
  found-Finds store name args i command (refused c m) e f v = tt

  request-Finds :
      (store : List Command) (name : String) (args : List Value)
      → Finds store name args (handlers_request json numbers store name args)
  unfolding handlers_request
  request-Finds store name args =
      if_intro (Finds store name args) (same name "status" || same name "commands")
        (λ _.
          if_intro (Finds store name args) (not (length args == 0)) (λ _. tt)
            (λ _. if_intro (Finds store name args) (same name "status") (λ _. tt) (λ _. tt)))
        (λ _.
          option_intro (Finds store name args) (registry_find_path store name) (λ _. tt)
            (λ i e.
              option_intro (Finds store name args) (at store i) (λ _. tt)
                (λ command f.
                  found-Finds store name args i command (value_step json numbers command args) e f
                    (value-Allows command args))))

  -- A handler is called for a request only if the path of the request leads to a command that has
  -- this handler, and then with that command and either no argument, for a command without a
  -- value, or one value that the specification of the command accepts.
  pub request-IsAllowed :
      (store : List Command) (name : String) (args : List Value) (handler : ℕ) (called : Command)
      (argv : List String)
      → handlers_request json numbers store name args ≡ execute handler called argv
      → (i : ℕ) × (command : Command) × (registry_find_path store name ≡ some i)
        × (at store i ≡ some command)
        × IsAllowed command args handler called argv
  request-IsAllowed store name args handler called argv h =
      subst (Finds store name args) h (request-Finds store name args)
