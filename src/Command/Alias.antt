-- ===== src/Command/Alias.antt =====
-- That `command_add_alias` (src/command/command.c) keeps the tree.
use sweet_dawn.Base.{
  ℕ, ◌≡◌, ◌≢◌, inl, inr, refl, sym, ◌∙◌, ap, arith, subst, true, false, ◌&&◌, ◌||◌, Option, none,
  some, List, [], ◌∷◌, ◌++◌, String, same, same_iff, ◌==◌, ==_iff, some-eq, Bool-cases,
  Option-cases, if_intro, option_intro,
}
use sweet_dawn.Command.{
  Command, at, put, among, nom_correspond, sibling_answers, taken_by_sibling, command_add_alias,
}
use sweet_dawn.Command.Tree.{
  In, ApartAt, Apart, Ends, over, up, IsTree, at-put, at-put_other, same_address,
}

among_append :
    (name : String) (l : List String) (alias : String)
    → among name (l ++ (alias ∷ [])) ≡ (among name l || same alias name)
among_append name [] alias = ground arith
among_append name (t ∷ ts) alias = ground (arith, among_append name ts alias)

-- What no sibling answers to, none of the commands under the parent does, but perhaps `i` itself.
siblings_free :
    (s : List Command) (i : ℕ) (alias : String) (l : List ℕ)
    → sibling_answers s i alias l ≡ false
    → (k : ℕ) → In k l
    → k ≢ i
    → (b : Command) → at s k ≡ some b
    → nom_correspond b alias ≡ false
unfolding sibling_answers
siblings_free s i alias [] h k m d b e = absurd (ground arith)
siblings_free s i alias (j ∷ js) h k (inr m) d b e = elim (Bool-cases (j == i)) [
  | inl x ↦ siblings_free s i alias js (rw (x, sibling_answers) at h) k m d b e
  | inr x ↦ elim (Option-cases (at s j)) [
    | inl f ↦ siblings_free s i alias js (rw f at (rw (x, sibling_answers) at h)) k m d b e
    | inr (y, f) ↦
        let g : (nom_correspond y alias || sibling_answers s i alias js) ≡ false =
          rw f at (rw (x, sibling_answers) at h) in
        siblings_free s i alias js (ground arith) k m d b e
  ]
]
siblings_free s i alias (j ∷ js) h k (inl m) d b e =
    let x : (j == i) ≡ false = ground arith in
    let f : at s j ≡ some b = ap (at s) (sym m) ∙ e in
    let g : (nom_correspond b alias || sibling_answers s i alias js) ≡ false =
      rw f at (rw (x, sibling_answers) at h) in
    ground arith

-- Nothing is apart from itself.
two_places :
    (s : List Command) (j k : ℕ) (a : Command)
    → at s j ≡ some a
    → j ≡ k
    → ApartAt s j k
    → false ≡ true
two_places s j k a e m h =
    let own : nom_correspond a a.name ≡ true =
      unfold nom_correspond in (let r = (same_iff a.name a.name).1 refl in ground arith) in
    sym (h a a e (ap (at s) (sym m) ∙ e) a.name own) ∙ own

module _ (s : List Command) (i : ℕ) (command : Command) (alias : String) (tree : IsTree s)
    (there : at s i ≡ some command) (free : taken_by_sibling s i command.parent alias ≡ false) where
  abbrev named : Command
  named = record command { aliases = command.aliases ++ (alias ∷ []) }

  abbrev renamed : List Command
  renamed = put s i named

  -- What stands at an address is as before but for the aliases.
  forth :
      (j : ℕ) (x : Command)
      → at s j ≡ some x
      → (y : Command) × (at renamed j ≡ some y) × (y.parent ≡ x.parent)
  forth j x e = elim (same_address j i) [
    | inl m ↦
        let v : x ≡ command = some-eq x command (sym e ∙ ap (at s) m ∙ there) in
        (
          named,
          ap (at renamed) m ∙ at-put s i command named there,
          ap (λ (z : Command). z.parent) (sym v),
        )
    | inr m ↦ (x, at-put_other s i j named m ∙ e, refl)
  ]

  back :
      (j : ℕ) (x : Command)
      → at renamed j ≡ some x
      → (y : Command) × (at s j ≡ some y)
        × (x.parent ≡ y.parent)
        × (x.children ≡ y.children)
        × ((name : String)
            → nom_correspond x name ≡ (nom_correspond y name || (j == i && same alias name)))
  unfolding nom_correspond
  back j x e = elim (same_address j i) [
    | inl m ↦
        let v : x ≡ named =
          some-eq x named (sym e ∙ ap (at renamed) m ∙ at-put s i command named there) in
        let here : (j == i) ≡ true = ground arith in
        (
          command,
          ap (at s) m ∙ there,
          ap (λ (z : Command). z.parent) v,
          ap (λ (z : Command). z.children) v,
          λ name.
              ap (λ z. nom_correspond z name) v
              ∙ ground (arith, among_append name command.aliases alias),
        )
    | inr m ↦
        let there' : (j == i) ≡ false = ground arith in
        (x, sym (at-put_other s i j named m) ∙ e, refl, refl, λ name. ground arith)
  ]

  -- The other children of the parent of `i` do not answer to the alias.
  free_under :
      (q : ℕ) (c : Command)
      → at s q ≡ some c
      → In i c.children
      → (k : ℕ) → In k c.children
      → k ≢ i
      → (b : Command) → at s k ≡ some b
      → nom_correspond b alias ≡ false
  unfolding taken_by_sibling
  free_under q c e m k n d b f =
      let (x, g, p) = tree.linked q c e i m in
      let p' : command.parent ≡ some q =
        ap (λ (z : Command). z.parent) (some-eq command x (sym there ∙ g)) ∙ p in
      siblings_free s i alias c.children (rw e at (rw (p', taken_by_sibling) at free)) k n d b f

  -- Two children whose identifiers were apart stay so.
  pair_kept :
      (q : ℕ) (c : Command)
      → at s q ≡ some c
      → (j k : ℕ) → In j c.children
      → In k c.children
      → ApartAt s j k
      → ApartAt renamed j k
  pair_kept q c e j k mj mk h a b f g name t =
      let (a', f', pa, ca, names) = back j a f in
      let (b', g', pb, cb, names') = back k b g in
      let t' : (nom_correspond a' name || (j == i && same alias name)) ≡ true =
        sym (names name) ∙ t in
      names' name ∙ elim (Bool-cases (same alias name)) [
        | inr x ↦ let u = h a' b' f' g' name (ground arith) in ground arith
        | inl x ↦
            let is_alias = (same_iff alias name).0 x in
            elim (Bool-cases (j == i)) [
              | inl y ↦
                  let i_child = subst (λ z. In z c.children) ((==_iff j i).0 y) mj in
                  let other : k ≢ i = λ z.
                    absurd (ground (arith, two_places s j k a' f' ((==_iff j i).0 y ∙ sym z) h)) in
                  let u =
                    subst (λ z. nom_correspond b' z ≡ false) is_alias
                      (free_under q c e i_child k mk other b' g') in
                  ground arith
              | inr y ↦ elim (Bool-cases (k == i)) [
                | inr z ↦ let u = h a' b' f' g' name (ground arith) in ground arith
                | inl z ↦
                    let i_child = subst (λ z. In z c.children) ((==_iff k i).0 z) mk in
                    let u =
                      subst (λ z. nom_correspond a' z ≡ false) is_alias
                        (free_under q c e i_child j mj (ground arith) a' f') in
                    absurd (ground arith)
              ]
            ]
      ]

  Apart-kept :
      (q : ℕ) (c : Command)
      → at s q ≡ some c
      → (l : List ℕ) → ((k : ℕ) → In k l → In k c.children)
      → Apart s l
      → Apart renamed l
  Apart-kept q c e [] sub v = tt
  Apart-kept q c e (j ∷ js) sub (h, v) = (
    λ k m. pair_kept q c e j k (sub j (inl refl)) (sub k (inr m)) (h k m),
    Apart-kept q c e js (λ k m. sub k (inr m)) v,
  )

  Ends-kept : (o : Option ℕ) → Ends s o → Ends renamed o
  Ends-kept o over = over
  Ends-kept o (up a x e r) =
      let (y, f, p) = forth a x e in up a y f (subst (Ends renamed) (sym p) (Ends-kept x.parent r))

  renamed-IsTree : IsTree renamed
  renamed-IsTree = record {
    linked = linked';
    distinct = λ q x e.
        let (y, f, p, c, names) = back q x e in
        subst (Apart renamed) (sym c)
          (Apart-kept q y f y.children (λ k m. m) (tree.distinct q y f));
    ends = λ j x e. let (y, f, p, c, names) = back j x e in Ends-kept (some j) (tree.ends j y f);
  }
    where
      linked' :
          (q : ℕ) (x : Command)
          → at renamed q ≡ some x
          → (j : ℕ) → In j x.children
          → (d : Command) × (at renamed j ≡ some d) × (d.parent ≡ some q)
      linked' q x e j m =
          let (y, f, p, c, names) = back q x e in
          let (d, g, l) = tree.linked q y f j (subst (In j) c m) in
          let (d', g', l') = forth j d g in (d', g', l' ∙ l)

abbrev Renames : Option (List Command) → Type 0
Renames none = Unit
Renames (some s) = IsTree s

-- A call of command_add_alias that returns 0 keeps the tree: each child knows its parent, no two
-- children of a command answer to the same name, and every chain of parents ends.
pub add_alias-IsTree :
    (s : List Command) (i : ℕ) (alias : String) (s' : List Command)
    → IsTree s
    → command_add_alias s i alias ≡ some s'
    → IsTree s'
unfolding command_add_alias
add_alias-IsTree s i alias s' v h = subst Renames h (
    option_intro Renames (at s i) (λ _. tt)
      (λ command e.
        if_intro Renames
          (same alias ""
            || nom_correspond command alias
            || taken_by_sibling s i command.parent alias)
          (λ _. tt) (λ k. renamed-IsTree s i command alias v e (ground arith))))
