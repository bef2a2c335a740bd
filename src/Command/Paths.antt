-- ===== src/Command/Paths.antt =====
-- That the search by path (src/command/registry.c) finds what stands at the end of a path.
use sweet_dawn.Base.{
  ℕ, ◌≡◌, inl, inr, refl, sym, ◌∙◌, ap, arith, Bool, true, false, not, ◌&&◌, none, some, List, [],
  ◌∷◌, String, same, ◌==◌, ==_iff, some-eq, Bool-cases,
}
use Prim.Native.Char.{code}
use sweet_dawn.Command.{Command, at, nom_correspond}
use sweet_dawn.Command.Registry.{prefixed, segments_of, is_root, find_path_loop, registry_find_path}
use sweet_dawn.Command.Tree.{In, IsTree, find_child_unique}

-- A text that holds no '/'.
abbrev pub whole : String → Bool
whole String.[] = true
whole (String.◌∷◌ c s) = not (code c == 0x2F) && whole s

-- A text, a '/' and another text.
abbrev separated : String → String → String
separated String.[] t = String.◌∷◌ "/" t
separated (String.◌∷◌ c s) t = String.◌∷◌ c (separated s t)

-- Names joined with '/'.
abbrev pub path_of : String → List String → String
path_of name [] = name
path_of name (next ∷ more) = separated name (path_of next more)

abbrev pub AllNames : List String → Type 0
AllNames [] = Unit
AllNames (name ∷ more) = (whole name ≡ true) × (same name "" ≡ false) × AllNames more

segments_whole : (s : String) → whole s ≡ true → segments_of s ≡ s ∷ []
unfolding segments_of
segments_whole String.[] h = refl
segments_whole (String.◌∷◌ c s) h =
    let slash : (code c == 0x2F) ≡ false = ground arith in
    let rest : whole s ≡ true = ground arith in
    rw (slash, segments_of) (ap (prefixed c) (segments_whole s rest))

segments_join : (s t : String) → whole s ≡ true → segments_of (separated s t) ≡ s ∷ segments_of t
unfolding segments_of
segments_join String.[] t h = refl
segments_join (String.◌∷◌ c s) t h =
    let slash : (code c == 0x2F) ≡ false = ground arith in
    let rest : whole s ≡ true = ground arith in
    rw (slash, segments_of) (ap (prefixed c) (segments_join s t rest))

segments_path :
    (name : String) (more : List String)
    → AllNames (name ∷ more)
    → segments_of (path_of name more) ≡ name ∷ more
segments_path name [] (w, n, v) = segments_whole name w
segments_path name (next ∷ more) (w, n, v) =
    segments_join name (path_of next more) w ∙ ap (λ x. name ∷ x) (segments_path next more v)

-- A chain of children, each one answering to its name.
pub data Leads (s : List Command) : ℕ → String → List String → ℕ → Type 0 where
  last :
      {p k : ℕ} {name : String} (c b : Command)
      → at s p ≡ some c
      → In k c.children
      → at s k ≡ some b
      → nom_correspond b name ≡ true
      → Leads s p name [] k
  down :
      {p k j : ℕ} {name next : String} {more : List String} (c b : Command)
      → at s p ≡ some c
      → In j c.children
      → at s j ≡ some b
      → nom_correspond b name ≡ true
      → Leads s j next more k
      → Leads s p name (next ∷ more) k

module _ (s : List Command) (tree : IsTree s) (root : Command) (there : at s 0 ≡ some root)
    (top : root.parent ≡ none) where
  not_root :
      (p j : ℕ) (c : Command) (name : String)
      → at s p ≡ some c
      → In j c.children
      → is_root s j name ≡ false
  not_root p j c name e i =
      let (d, f, l) = tree.linked p c e j i in
      elim (Bool-cases (j == 0)) [
        | inl k ↦
            let same_one = some-eq root d (sym there ∙ ap (at s) (sym ((==_iff j 0).0 k)) ∙ f) in
            absurd (ground (arith, ap (λ (x : Command). x.parent) same_one))
        | inr k ↦ ground arith
      ]

  Leads-found :
      (p k : ℕ) (name : String) (more : List String)
      → Leads s p name more k
      → is_root s p name ≡ false
      → AllNames (name ∷ more)
      → find_path_loop s p (name ∷ more) ≡ some k
  unfolding find_path_loop
  Leads-found p k name more (last c b e i f h) r (w, n, v) =
      rw (n, find_path_loop) (rw r (find_child_unique s p c k b name tree e i f h))
  Leads-found p k name more (down {j = j} {next = next} {more = more'} c b e i f h l) r (w, n, v) =
      rw (n, find_path_loop)
        (rw r (
          rw (find_child_unique s p c j b name tree e i f h)
            (Leads-found j k next more' l (not_root p j c next e i) v)))

  -- In a tree whose root has no parent, the search by path finds the command at the end of a chain
  -- of children, each of which answers to its segment by its name or an alias, provided that no
  -- segment is empty or holds a slash and that the first one is not the name of the root.
  pub find_path-Leads :
      (name : String) (more : List String) (k : ℕ)
      → Leads s 0 name more k
      → same root.name name ≡ false
      → AllNames (name ∷ more)
      → registry_find_path s (path_of name more) ≡ some k
  unfolding registry_find_path
  find_path-Leads name more k l r v =
      ap (find_path_loop s 0) (segments_path name more v)
      ∙ Leads-found 0 k name more l (rw there r) v
