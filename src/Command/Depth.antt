-- ===== src/Command/Depth.antt =====
-- How deep a command stands in the tree (src/command/command.c): no deeper than there are commands.
use sweet_dawn.Base.{
  ℕ, zero, suc, ◌≤◌, ◌<◌, ◌≡◌, inl, inr, refl, sym, ◌∙◌, ap, arith, subst, Option, none, some, List,
  [], ◌∷◌, length, ◌==◌, Bool-cases, some-eq, if◌then◌else◌,
}
use sweet_dawn.Command.{Command, at}
use sweet_dawn.Command.Tree.{Ends}

-- The chain of parents has so many commands.
pub data Rank (s : List Command) : Option ℕ → ℕ → Type 0 where
  top : Rank s none 0
  under : (a n : ℕ) (x : Command) → at s a ≡ some x → Rank s x.parent n → Rank s (some a) (suc n)

pub at_below : {A : Type 0} (s : List A) (i : ℕ) (x : A) → at s i ≡ some x → i < length s
at_below [] i x h = absurd (ground arith)
at_below (y ∷ s) zero x h = omega arith
at_below (y ∷ s) (suc i) x h = omega (arith, at_below s i x h)

without : ℕ → List ℕ → List ℕ
without n [] = []
without n (a ∷ l) = let rest = without n l in if a == n then rest else a ∷ rest

abbrev Below : ℕ → List ℕ → Type 0
Below n [] = Unit
Below n (a ∷ l) = (a < n) × Below n l

module _ (s : List Command) where
  pub Ends-Rank : {o : Option ℕ} → Ends s o → (n : ℕ) × Rank s o n
  Ends-Rank Ends.over = (0, top)
  Ends-Rank (Ends.up a x e v) = let (n, r) = Ends-Rank v in (suc n, under a n x e r)

  -- Commands one above the other, all of them at less than a depth.
  abbrev Falling : ℕ → List ℕ → Type 0
  Falling n [] = Unit
  Falling n (a ∷ l) = (m : ℕ) × (m < n) × Rank s (some a) m × Falling m l

  none-Rank : {n : ℕ} → Rank s none n → n ≡ 0
  none-Rank top = refl

  some-Rank :
      {a n : ℕ}
      → Rank s (some a) n
      → (m : ℕ) × (x : Command) × (at s a ≡ some x) × Rank s x.parent m × (n ≡ suc m)
  some-Rank (under a m x e r) = (m, x, e, r, refl)

  pub Rank-pos : {a n : ℕ} → Rank s (some a) n → 1 ≤ n
  Rank-pos (under a m x e r) = omega arith

  Rank-unique : {o : Option ℕ} {m n : ℕ} → Rank s o m → Rank s o n → m ≡ n
  Rank-unique top q = sym (none-Rank q)
  Rank-unique (under a m x e r) q =
      let (k, y, f, t, h) = some-Rank q in
      let same_command : y ≡ x = some-eq y x (sym f ∙ e) in
      let deeper : m ≡ k = Rank-unique r (subst (λ c. Rank s c.parent k) same_command t) in
      omega (arith, deeper, h)

  -- The commands from one up to the top.
  climb :
      {o : Option ℕ} {n : ℕ}
      → Rank s o n
      → (l : List ℕ) × (length l ≡ n) × Falling (suc n) l × Below (length s) l
  climb top = ([], refl, tt, tt)
  climb (under a n x e r) =
      let (l, k, f, b) = climb r in
      (a ∷ l, ap suc k, (suc n, omega arith, under a n x e r, f), (at_below s a x e, b))

  wider : (m n : ℕ) (l : List ℕ) → m ≤ n → Falling m l → Falling n l
  wider m n [] h v = tt
  wider m n (a ∷ l) h (k, lt, r, v) = (k, omega arith, r, v)

  -- A command is not above itself.
  without-Falling :
      (a m n : ℕ) (l : List ℕ) → Rank s (some a) m → n ≤ m → Falling n l → without a l ≡ l
  unfolding without
  without-Falling a m n [] r h v = refl
  without-Falling a m n (b ∷ l) r h (k, lt, q, v) = elim (Bool-cases (b == a)) [
    | inl e ↦
        let same_rank : k ≡ m =
          Rank-unique (subst (λ z. Rank s (some z) k) (ground (arith, e)) q) r in
        absurd (omega (arith, same_rank))
    | inr e ↦ rw (e, without) (ap (λ x. b ∷ x) (without-Falling a m k l r (omega arith) v))
  ]

  Falling-without : (a n : ℕ) (l : List ℕ) → Falling n l → Falling n (without a l)
  unfolding without
  Falling-without a n [] v = tt
  Falling-without a n (b ∷ l) (k, lt, q, v) = elim (Bool-cases (b == a)) [
    | inl e ↦ rw (e, without) (wider k n (without a l) (omega arith) (Falling-without a k l v))
    | inr e ↦ rw (e, without) (k, lt, q, Falling-without a k l v)
  ]

  Below-without : (n : ℕ) (l : List ℕ) → Below (suc n) l → Below n (without n l)
  unfolding without
  Below-without n [] v = tt
  Below-without n (b ∷ l) (lt, v) = elim (Bool-cases (b == n)) [
    | inl e ↦ rw (e, without) (Below-without n l v)
    | inr e ↦ rw (e, without) (ground (arith, e, lt), Below-without n l v)
  ]

  length-without : (a n : ℕ) (l : List ℕ) → Falling n l → length l ≤ suc (length (without a l))
  unfolding without
  length-without a n [] v = omega arith
  length-without a n (b ∷ l) (k, lt, q, v) = elim (Bool-cases (b == a)) [
    | inl e ↦
        let r : Rank s (some a) k = subst (λ z. Rank s (some z) k) (ground (arith, e)) q in
        rw (e, without) (rw (without-Falling a k k l r (omega arith) v) (omega arith))
    | inr e ↦ rw (e, without) (omega (arith, length-without a k l v))
  ]

  few : (n m : ℕ) (l : List ℕ) → Falling m l → Below n l → length l ≤ n
  few zero m [] v b = omega arith
  few zero m (a ∷ l) v b = absurd (omega (arith, b.0))
  few (suc n) m l v b =
      let rest = few n m (without n l) (Falling-without n m l v) (Below-without n l b) in
      omega (arith, rest, length-without n m l v)

  -- No chain of parents has more commands than there are.
  pub Rank-bound : {o : Option ℕ} {n : ℕ} → Rank s o n → n ≤ length s
  Rank-bound r = let (l, k, f, b) = climb r in let h = few (length s) _ l f b in omega (arith, h, k)
