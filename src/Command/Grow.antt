-- ===== src/Command/Grow.antt =====
-- That `command_add_child` (src/command/command.c) keeps the tree, and that its walk up the parents ends.
use sweet_dawn.Base.{
  ℕ, zero, suc, ◌≡◌, ◌≢◌, ◌⊎◌, inl, inr, refl, sym, ◌∙◌, ap, arith, subst, Bool, true, false, ◌||◌,
  Option, none, some, List, [], ◌∷◌, ◌++◌, String, ◌==◌, some-eq, Bool-cases, Option-cases,
  if_intro, option_intro,
}
use sweet_dawn.Command.{
  Command, at, put, nom_correspond, identifiants_en_collision, is_ancestor, child_collides,
  add_orphan, command_add_child,
}
use sweet_dawn.Command.Tree.{
  In, ApartAt, Apart, Ends, over, up, IsTree, at-put, at-put_other, same_address, collide_apart,
}

In-append : (k : ℕ) (l : List ℕ) {c : ℕ} → In k (l ++ (c ∷ [])) → In k l ⊎ (k ≡ c)
In-append k [] (inl m) = inr m
In-append k [] (inr m) = absurd (ground arith)
In-append k (j ∷ js) (inl m) = inl (inl m)
In-append k (j ∷ js) (inr m) = elim (In-append k js m) [ inl x ↦ inl (inr x) | inr x ↦ inr x ]

module _ (s : List Command) (p c : ℕ) (parent child : Command) (tree : IsTree s)
    (there : at s p ≡ some parent) (orphan_there : at s c ≡ some child)
    (orphan : child.parent ≡ none) (differ : p ≢ c) where
  abbrev grown_parent : Command
  grown_parent = record parent { children = parent.children ++ (c ∷ []) }

  abbrev grown_child : Command
  grown_child = record child { parent = some p }

  abbrev grown : List Command
  grown = put (put s p grown_parent) c grown_child

  at_child : at grown c ≡ some grown_child
  at_child =
      at-put (put s p grown_parent) c child grown_child
        (at-put_other s p c grown_parent (λ e. differ (sym e)) ∙ orphan_there)

  at_parent : at grown p ≡ some grown_parent
  at_parent =
      at-put_other (put s p grown_parent) c p grown_child differ
      ∙ at-put s p parent grown_parent there

  at_other : (i : ℕ) → i ≢ c → i ≢ p → at grown i ≡ at s i
  at_other i h k =
      at-put_other (put s p grown_parent) c i grown_child h ∙ at-put_other s p i grown_parent k

  -- What stands where a command stood that has a parent.
  kept_link :
      (j : ℕ) (d : Command) (q : ℕ)
      → at s j ≡ some d
      → d.parent ≡ some q
      → (x : Command) × (at grown j ≡ some x) × (x.parent ≡ some q)
  kept_link j d q e h = elim (same_address j c) [
    | inl m ↦
        let same_child : d ≡ child = some-eq d child (sym e ∙ ap (at s) m ∙ orphan_there) in
        absurd (ground (arith, ap (λ (x : Command). x.parent) same_child))
    | inr m ↦ elim (same_address j p) [
      | inl n ↦
          let same_parent : d ≡ parent = some-eq d parent (sym e ∙ ap (at s) n ∙ there) in
          (
            grown_parent,
            ap (at grown) n ∙ at_parent,
            sym (ap (λ (x : Command). x.parent) same_parent) ∙ h,
          )
      | inr n ↦ (d, at_other j m n ∙ e, h)
    ]
  ]

  -- What answered to a name before.
  old_names :
      (i : ℕ) (x : Command)
      → at grown i ≡ some x
      → (y : Command) × (at s i ≡ some y)
        × ((name : String) → nom_correspond x name ≡ nom_correspond y name)
  unfolding nom_correspond
  old_names i x e = elim (same_address i c) [
    | inl m ↦
        let v : x ≡ grown_child = some-eq x grown_child (sym e ∙ ap (at grown) m ∙ at_child) in
        (child, ap (at s) m ∙ orphan_there, λ name. ap (λ z. nom_correspond z name) v)
    | inr m ↦ elim (same_address i p) [
      | inl n ↦
          let v : x ≡ grown_parent = some-eq x grown_parent (sym e ∙ ap (at grown) n ∙ at_parent) in
          (parent, ap (at s) n ∙ there, λ name. ap (λ z. nom_correspond z name) v)
      | inr n ↦ (x, sym (at_other i m n) ∙ e, λ name. refl)
    ]
  ]

  ApartAt-kept : (j k : ℕ) → ApartAt s j k → ApartAt grown j k
  ApartAt-kept j k h a b e f name v =
      let (a', e', names) = old_names j a e in
      let (b', f', names') = old_names k b f in
      names' name ∙ h a' b' e' f' name (sym (names name) ∙ v)

  Apart-kept : (l : List ℕ) → Apart s l → Apart grown l
  Apart-kept [] v = v
  Apart-kept (j ∷ js) (h, v) = (λ k i. ApartAt-kept j k (h k i), Apart-kept js v)

  child_free :
      (l : List ℕ)
      → child_collides s child l ≡ false
      → (k : ℕ) → In k l
      → (y : Command) → at s k ≡ some y
      → identifiants_en_collision child y ≡ false
  unfolding child_collides
  child_free [] h k i y e = absurd (ground arith)
  child_free (j ∷ js) h k i y e = elim (Option-cases (at s j)) [
    | inl f ↦ elim i [
      | inl m ↦ absurd (ground (arith, sym f ∙ ap (at s) (sym m) ∙ e))
      | inr m ↦ child_free js (rw (f, child_collides) at h) k m y e
    ]
    | inr (d, f) ↦
        let g : (identifiants_en_collision child d || child_collides s child js) ≡ false =
          rw (f, child_collides) at h in
        elim i [
          | inl m ↦
              let same_one : d ≡ y = some-eq d y (sym f ∙ ap (at s) (sym m) ∙ e) in
              subst (λ z. identifiants_en_collision child z ≡ false) same_one (ground arith)
          | inr m ↦ child_free js (ground arith) k m y e
        ]
  ]

  free_of : (l : List ℕ) → child_collides s child l ≡ false → (k : ℕ) → In k l → ApartAt grown k c
  free_of l h k i a b e f name v =
      let (y, e', names) = old_names k a e in
      let (z, f', names') = old_names c b f in
      let same_child : z ≡ child = some-eq z child (sym f' ∙ orphan_there) in
      let answers : nom_correspond y name ≡ true = sym (names name) ∙ v in
      names' name
      ∙ ap (λ x. nom_correspond x name) same_child
      ∙ elim (Bool-cases (nom_correspond child name)) [
        | inl t ↦
            let u = collide_apart child y name (child_free l h k i y e') t in absurd (ground arith)
        | inr t ↦ t
      ]

  Apart-append :
      (l : List ℕ)
      → Apart grown l
      → ((k : ℕ) → In k l → ApartAt grown k c)
      → Apart grown (l ++ (c ∷ []))
  Apart-append [] v h = (λ k i. absurd (ground arith), tt)
  Apart-append (j ∷ js) (a, v) h = (
    λ k i. elim (In-append k js i) [
      | inl m ↦ a k m
      | inr m ↦ subst (ApartAt grown j) (sym m) (h j (inl refl))
    ],
    Apart-append js v (λ k i. h k (inr i)),
  )

  -- Up the parents that are not the child.
  chain_kept :
      (a : ℕ) (x : Command) → at s a ≡ some x → a ≢ c → Ends grown x.parent → Ends grown (some a)
  chain_kept a x e m r = elim (same_address a p) [
    | inl n ↦
        let same_parent : x ≡ parent = some-eq x parent (sym e ∙ ap (at s) n ∙ there) in
        up a grown_parent (ap (at grown) n ∙ at_parent)
          (subst (λ (z : Command). Ends grown z.parent) same_parent r)
    | inr n ↦ up a x (at_other a m n ∙ e) r
  ]

  above-Ends : (fuel : ℕ) (o : Option ℕ) → is_ancestor fuel s c o ≡ some false → Ends grown o
  unfolding is_ancestor
  above-Ends fuel none h = over
  above-Ends zero (some a) h = absurd (ground arith)
  above-Ends (suc fuel) (some a) h = elim (Bool-cases (a == c)) [
    | inl e ↦ absurd (ground arith)
    | inr e ↦ elim (Option-cases (at s a)) [
      | inl f ↦ absurd (ground arith)
      | inr (x, f) ↦
          chain_kept a x f (ground arith)
            (above-Ends fuel x.parent (rw f at (rw (e, is_ancestor) at h)))
    ]
  ]

  Ends-kept : (o : Option ℕ) → Ends grown (some p) → Ends s o → Ends grown o
  Ends-kept o r over = over
  Ends-kept o r (up a x e t) = elim (same_address a c) [
    | inl m ↦ up a grown_child (ap (at grown) m ∙ at_child) r
    | inr m ↦ chain_kept a x e m (Ends-kept x.parent r t)
  ]

  grown-IsTree : child_collides s child parent.children ≡ false → Ends grown (some p) → IsTree grown
  grown-IsTree free r = record {
    linked = linked';
    distinct = distinct';
    ends = λ i x e. ends' i x e;
  }
    where
      linked' :
          (q : ℕ) (x : Command)
          → at grown q ≡ some x
          → (j : ℕ) → In j x.children
          → (d : Command) × (at grown j ≡ some d) × (d.parent ≡ some q)
      linked' q x e j i = elim (same_address q c) [
        | inl m ↦
            let v : x ≡ grown_child = some-eq x grown_child (sym e ∙ ap (at grown) m ∙ at_child) in
            let (d, f, l) =
              tree.linked c child orphan_there j (subst (λ (z : Command). In j z.children) v i) in
            let (d', f', l') = kept_link j d c f l in (d', f', l' ∙ ap some (sym m))
        | inr m ↦ elim (same_address q p) [
          | inl n ↦
              let v : x ≡ grown_parent =
                some-eq x grown_parent (sym e ∙ ap (at grown) n ∙ at_parent) in
              elim (In-append j parent.children (subst (λ (z : Command). In j z.children) v i)) [
                | inl old ↦
                    let (d, f, l) = tree.linked p parent there j old in
                    let (d', f', l') = kept_link j d p f l in (d', f', l' ∙ ap some (sym n))
                | inr new ↦ (grown_child, ap (at grown) new ∙ at_child, ap some (sym n))
              ]
          | inr n ↦
              let (d, f, l) = tree.linked q x (sym (at_other q m n) ∙ e) j i in kept_link j d q f l
        ]
      ]

      distinct' : (q : ℕ) (x : Command) → at grown q ≡ some x → Apart grown x.children
      distinct' q x e = elim (same_address q c) [
        | inl m ↦
            let v : x ≡ grown_child = some-eq x grown_child (sym e ∙ ap (at grown) m ∙ at_child) in
            subst (λ (z : Command). Apart grown z.children) (sym v)
              (Apart-kept child.children (tree.distinct c child orphan_there))
        | inr m ↦ elim (same_address q p) [
          | inl n ↦
              let v : x ≡ grown_parent =
                some-eq x grown_parent (sym e ∙ ap (at grown) n ∙ at_parent) in
              subst (λ (z : Command). Apart grown z.children) (sym v)
                (Apart-append parent.children
                  (Apart-kept parent.children (tree.distinct p parent there))
                  (free_of parent.children free))
          | inr n ↦ Apart-kept x.children (tree.distinct q x (sym (at_other q m n) ∙ e))
        ]
      ]

      ends' : (i : ℕ) (x : Command) → at grown i ≡ some x → Ends grown (some i)
      ends' i x e = let (y, f, names) = old_names i x e in Ends-kept (some i) r (tree.ends i y f)

abbrev pub Grows : Option (Option (List Command)) → Type 0
Grows none = Unit
Grows (some none) = Unit
Grows (some (some s)) = IsTree s

orphan-Grows :
    (fuel : ℕ) (s : List Command) (p c : ℕ) (parent child : Command) (ancestor : Bool)
    → IsTree s
    → at s p ≡ some parent
    → at s c ≡ some child
    → child.parent ≡ none
    → (p == c) ≡ false
    → is_ancestor fuel s c (some p) ≡ some ancestor
    → Grows (some (add_orphan s p parent c child ancestor))
unfolding add_orphan
orphan-Grows fuel s p c parent child ancestor v e f o d h =
    let apart : p ≢ c = ground arith in
    if_intro (λ r. Grows (some r)) (ancestor || child_collides s child parent.children) (λ _. tt)
      (λ k.
        let none_above : ancestor ≡ false = ground arith in
        grown-IsTree s p c parent child v e f o apart (ground arith)
          (above-Ends s p c parent child v e f o apart fuel (some p) (h ∙ ap some none_above)))

pub add_child-Grows :
    (fuel : ℕ) (s : List Command) (p c : ℕ) → IsTree s → Grows (command_add_child fuel s p c)
unfolding command_add_child
add_child-Grows fuel s p c v =
    option_intro Grows (at s p) (λ _. tt)
      (λ parent e.
        option_intro Grows (at s c) (λ _. tt)
          (λ child f.
            if_intro Grows (p == c) (λ _. tt)
              (λ d.
                option_intro Grows child.parent
                  (λ o.
                    option_intro Grows (is_ancestor fuel s c (some p)) (λ _. tt)
                      (λ ancestor h. orphan-Grows fuel s p c parent child ancestor v e f o d h))
                  (λ other _. tt))))

-- A call of command_add_child that returns 0 keeps the tree: each child knows its parent, no two
-- children of a command answer to the same name, and every chain of parents ends.
pub add_child-IsTree :
    (fuel : ℕ) (s : List Command) (p c : ℕ) (s' : List Command)
    → IsTree s
    → command_add_child fuel s p c ≡ some (some s')
    → IsTree s'
add_child-IsTree fuel s p c s' v h = subst Grows h (add_child-Grows fuel s p c v)

walk-Ends :
    (s : List Command) (c : ℕ) (o : Option ℕ)
    → Ends s o
    → (fuel : ℕ) × (b : Bool) × (is_ancestor fuel s c o ≡ some b)
unfolding is_ancestor
walk-Ends s c o over = (0, false, refl)
walk-Ends s c o (up a x e r) =
    let (fuel, b, h) = walk-Ends s c x.parent r in
    elim (Bool-cases (a == c)) [
      | inl k ↦ (1, true, rw (k, is_ancestor) refl)
      | inr k ↦ (suc fuel, b, rw (k, is_ancestor) (rw e h))
    ]

-- In a tree, command_add_child of two commands that are there returns: its walk up the parents
-- ends with some fuel.
pub add_child_ends :
    (s : List Command) (p c : ℕ) (parent child : Command)
    → IsTree s
    → at s p ≡ some parent
    → at s c ≡ some child
    → (fuel : ℕ) × (r : Option (List Command)) × (command_add_child fuel s p c ≡ some r)
unfolding command_add_child
add_child_ends s p c parent child v e f =
    let (fuel, b, h) = walk-Ends s c (some p) (v.ends p parent e) in
    elim (Bool-cases (p == c)) [
      | inl k ↦ (fuel, none, rw (e, command_add_child) (rw f (rw k refl)))
      | inr k ↦ elim (Option-cases child.parent) [
        | inl o ↦ (
          fuel,
          add_orphan s p parent c child b,
          rw (e, command_add_child) (rw f (rw k (rw o (rw h refl)))),
        )
        | inr (q, o) ↦ (fuel, none, rw (e, command_add_child) (rw f (rw k (rw o refl))))
      ]
    ]
