-- ===== src/Command/Tree.antt =====
-- What holds of the tree of commands (src/command/command.c): children know their parent, no two of them answer to a
-- name, and every chain of parents ends.
use sweet_dawn.Base.{
  ℕ, zero, suc, ◌≡◌, ◌≢◌, ◌⊎◌, inl, inr, refl, sym, ap, arith, subst, true, false, ◌||◌, Option,
  none, some, List, [], ◌∷◌, String, same, same_iff, ◌==◌, Bool-cases, Option-cases,
}
use sweet_dawn.Command.{
  Command, at, put, among, nom_correspond, answers_one, identifiants_en_collision, find_among,
  command_find_child,
}

-- An address among some.
abbrev pub In : ℕ → List ℕ → Type 0
In j [] = false ≡ true
In j (c ∷ cs) = (j ≡ c) ⊎ In j cs

-- The commands at two addresses answer to no common name.
abbrev pub ApartAt : List Command → ℕ → ℕ → Type 0
ApartAt s j k =
    (a b : Command)
    → at s j ≡ some a
    → at s k ≡ some b
    → (name : String) → nom_correspond a name ≡ true
    → nom_correspond b name ≡ false

abbrev pub Apart : List Command → List ℕ → Type 0
Apart s [] = Unit
Apart s (j ∷ js) = ((k : ℕ) → In k js → ApartAt s j k) × Apart s js

-- The chain of parents from an address ends.
pub data Ends (s : List Command) : Option ℕ → Type 0 where
  over : Ends s none
  up : (a : ℕ) (x : Command) → at s a ≡ some x → Ends s x.parent → Ends s (some a)

pub record IsTree (s : List Command) : Type 0 where
  pub linked :
      (p : ℕ) (c : Command)
      → at s p ≡ some c
      → (j : ℕ) → In j c.children
      → (d : Command) × (at s j ≡ some d) × (d.parent ≡ some p)
  pub distinct : (p : ℕ) (c : Command) → at s p ≡ some c → Apart s c.children
  pub ends : (i : ℕ) (c : Command) → at s i ≡ some c → Ends s (some i)

module _ {ℓ} {A : Type ℓ} where
  pub at-put : (s : List A) (i : ℕ) (x y : A) → at s i ≡ some x → at (put s i y) i ≡ some y
  at-put [] i x y h = absurd (ground arith)
  at-put (z ∷ s) zero x y h = refl
  at-put (z ∷ s) (suc i) x y h = at-put s i x y h

  pub at-put_other : (s : List A) (i j : ℕ) (y : A) → j ≢ i → at (put s i y) j ≡ at s j
  at-put_other [] i j y h = refl
  at-put_other (z ∷ s) zero zero y h = absurd (h refl)
  at-put_other (z ∷ s) zero (suc j) y h = refl
  at-put_other (z ∷ s) (suc i) zero y h = refl
  at-put_other (z ∷ s) (suc i) (suc j) y h = at-put_other s i j y (omega arith)

pub same_address : (i j : ℕ) → (i ≡ j) ⊎ (i ≢ j)
same_address i j = elim (Bool-cases (i == j)) [
  | inl e ↦ inl (ground arith)
  | inr e ↦ inr (ground arith)
]

-- A command answers to none of the names of another that it does not collide with.
answers_apart :
    (b : Command) (names : List String) (name : String)
    → answers_one b names ≡ false
    → among name names ≡ true
    → nom_correspond b name ≡ false
unfolding answers_one
answers_apart b [] name h k = absurd (ground arith)
answers_apart b (t ∷ ts) name h k = elim (Bool-cases (same t name)) [
  | inl e ↦ subst (λ x. nom_correspond b x ≡ false) ((same_iff t name).0 e) (ground arith)
  | inr e ↦ answers_apart b ts name (ground arith) (ground arith)
]

pub collide_apart :
    (a b : Command) (name : String)
    → identifiants_en_collision a b ≡ false
    → nom_correspond a name ≡ true
    → nom_correspond b name ≡ false
unfolding identifiants_en_collision
collide_apart a b name h k = elim (Bool-cases (same a.name name)) [
  | inl e ↦ subst (λ x. nom_correspond b x ≡ false) ((same_iff a.name name).0 e) (ground arith)
  | inr e ↦ answers_apart b a.aliases name (ground arith) (
      let v : (same a.name name || among name a.aliases) ≡ true = unfold nom_correspond in k in
      ground arith)
]

among-Apart :
    (s : List Command) (k : ℕ) (b : Command) (name : String)
    → at s k ≡ some b
    → nom_correspond b name ≡ true
    → (l : List ℕ) → Apart s l
    → In k l
    → find_among s l name ≡ some k
unfolding find_among
among-Apart s k b name f h [] a i = absurd (ground arith)
among-Apart s k b name f h (j ∷ js) (apart, a) (inl m) =
    let e : at s j ≡ some b = subst (λ x. at s x ≡ some b) m f in
    rw (e, find_among) (rw h (ap some (sym m)))
among-Apart s k b name f h (j ∷ js) (apart, a) (inr m) = elim (Option-cases (at s j)) [
  | inl e ↦ rw (e, find_among) (among-Apart s k b name f h js a m)
  | inr (d, e) ↦ elim (Bool-cases (nom_correspond d name)) [
    | inl t ↦ absurd (ground (arith, apart k m d b e f name t, h))
    | inr t ↦ rw (e, find_among) (rw t (among-Apart s k b name f h js a m))
  ]
]

-- In a tree, command_find_child finds a child by any name that it answers to, its own or an alias.
pub find_child_unique :
    (s : List Command) (p : ℕ) (c : Command) (k : ℕ) (b : Command) (name : String)
    → IsTree s
    → at s p ≡ some c
    → In k c.children
    → at s k ≡ some b
    → nom_correspond b name ≡ true
    → command_find_child s p name ≡ some k
unfolding command_find_child
find_child_unique s p c k b name v e i f h =
    rw (e, command_find_child) (among-Apart s k b name f h c.children (v.distinct p c e) i)
