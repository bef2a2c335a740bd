-- ===== src/Protocol/Extract.antt =====
-- What `protocol_parser_next` (src/aml/protocol.c) extracts, and that it finds every frame.
use sweet_dawn.Base.{
  ℕ, ◌+◌, ◌-◌, ◌≤◌, ◌&&◌, some, [], ◌∷◌, ◌++◌, ◌≡◌, ◌≢◌, ◌⊎◌, refl, ap, inl, inr, arith, ◌==◌,
  length, get_or, take, drop, Bool-cases, get_or-append, length-append, subst, take-append-drop,
  take-length-append, drop-length-append, length-take, get_or-take, drop-length,
}
use sweet_dawn.Protocol.{
  Bytes, max_frame_size, Verdict, wait, reject, no_room, accept, Next, extracted, expected_header,
  candidate, check_end, parser_consume, parser_next,
}
use sweet_dawn.Protocol.Scan.{scan, act, parser_next-scan}

-- A frame, as the head of protocol.h describes it, the checksum apart.
pub record IsFrame (f : Bytes) : Type 0 where
  pub long : 12 ≤ length f
  pub short : length f ≤ max_frame_size
  pub start_1 : get_or f 0 0 ≡ 0xFE
  pub start_2 : get_or f 1 0 ≡ 0xEF
  pub direction : (get_or f 2 0 ≡ 0x0A) ⊎ (get_or f 2 0 ≡ 0x0C)
  pub declared : get_or f 3 0 + 4 ≡ length f
  pub header : get_or f 4 0 ≡ 0xAB
  pub header_direction : get_or f 5 0 ≡ expected_header (get_or f 2 0)
  pub end : get_or f (length f - 3) 0 ≡ 0x55
  pub cr : get_or f (length f - 2) 0 ≡ 0x0D
  pub lf : get_or f (length f - 1) 0 ≡ 0x0A

-- A buffer that begins with a frame.
record Begins (n : ℕ) (p : Bytes) : Type 0 where
  long : 12 ≤ n
  short : n ≤ max_frame_size
  fits : n ≤ length p
  direction : (get_or p 2 0 ≡ 0x0A) ⊎ (get_or p 2 0 ≡ 0x0C)
  declared : get_or p 3 0 + 4 ≡ n
  header : get_or p 4 0 ≡ 0xAB
  header_direction : get_or p 5 0 ≡ expected_header (get_or p 2 0)
  end : get_or p (n - 3) 0 ≡ 0x55
  cr : get_or p (n - 2) 0 ≡ 0x0D
  lf : get_or p (n - 1) 0 ≡ 0x0A

check_end-accept :
    (capacity n m : ℕ) (p : Bytes)
    → check_end capacity n p ≡ accept m
    → (m ≡ n)
      × (12 ≤ n)
      × (n ≤ max_frame_size)
      × (n ≤ length p)
      × (n ≤ capacity)
      × (get_or p (n - 3) 0 ≡ 0x55)
      × (get_or p (n - 2) 0 ≡ 0x0D)
      × (get_or p (n - 1) 0 ≡ 0x0A)
unfolding check_end
check_end-accept capacity n m p h = ground arith

candidate-accept :
    (capacity n : ℕ) (p : Bytes) → candidate capacity p ≡ accept n → Begins n p × (n ≤ capacity)
unfolding candidate
candidate-accept capacity n p h = ground (arith, check_end-accept capacity (get_or p 3 0 + 4) n p)

candidate-Begins :
    (capacity n : ℕ) (p : Bytes) → Begins n p → n ≤ capacity → candidate capacity p ≡ accept n
unfolding candidate check_end
candidate-Begins capacity n p b h = ground arith

Begins-append : (n : ℕ) (p c : Bytes) → Begins n p → Begins n (p ++ c)
Begins-append n p c b = ground (
  arith,
  length-append p c,
  get_or-append p c 2 0,
  get_or-append p c 3 0,
  get_or-append p c 4 0,
  get_or-append p c 5 0,
  get_or-append p c (n - 3) 0,
  get_or-append p c (n - 2) 0,
  get_or-append p c (n - 1) 0,
)

-- A rejection does not depend on what follows.
pub candidate-append :
    (capacity : ℕ) (p c : Bytes)
    → candidate capacity p ≡ reject
    → candidate capacity (p ++ c) ≡ reject
unfolding candidate check_end
candidate-append capacity p c h = ground (
  arith,
  length-append p c,
  get_or-append p c 2 0,
  get_or-append p c 3 0,
  get_or-append p c 4 0,
  get_or-append p c 5 0,
  get_or-append p c (get_or p 3 0 + 4 - 3) 0,
  get_or-append p c (get_or p 3 0 + 4 - 2) 0,
  get_or-append p c (get_or p 3 0 + 4 - 1) 0,
)

-- Neither does an acceptance, and an accepted frame lies in the buffer.
pub candidate-extends :
    (capacity n : ℕ) (p c : Bytes)
    → candidate capacity p ≡ accept n
    → (candidate capacity (p ++ c) ≡ accept n) × (n ≤ length p)
candidate-extends capacity n p c h =
    let (b, fits) = candidate-accept capacity n p h in
    (candidate-Begins capacity n (p ++ c) (Begins-append n p c b) fits, b.fits)

Begins-take :
    (n : ℕ) (p : Bytes)
    → Begins n p
    → get_or p 0 0 ≡ 0xFE
    → get_or p 1 0 ≡ 0xEF
    → IsFrame (take n p)
Begins-take n p b s1 s2 = ground (
  arith,
  length-take n p,
  get_or-take n p 0 0,
  get_or-take n p 1 0,
  get_or-take n p 2 0,
  get_or-take n p 3 0,
  get_or-take n p 4 0,
  get_or-take n p 5 0,
  get_or-take n p (n - 3) 0,
  get_or-take n p (n - 2) 0,
  get_or-take n p (n - 1) 0,
)

IsFrame-Begins : (f : Bytes) → IsFrame f → Begins (length f) f
IsFrame-Begins f v = ground arith

pub consume-drop : (p : Bytes) (n : ℕ) → parser_consume p n ≡ drop n p
unfolding parser_consume
consume-drop p n = ground (arith, drop-length p n)

-- A frame at the front, whatever the candidate was taken from.
record Found (capacity : ℕ) (p f q : Bytes) : Type 0 where
  frame : IsFrame f
  fits : length f ≤ capacity
  noise : Bytes
  whole : p ≡ noise ++ (f ++ q)

here-Found :
    (capacity n : ℕ) (p f q : Bytes)
    → candidate capacity p ≡ accept n
    → get_or p 0 0 ≡ 0xFE
    → get_or p 1 0 ≡ 0xEF
    → extracted (take n p) (parser_consume p n) ≡ extracted f q
    → Found capacity p f q
here-Found capacity n p f q h s1 s2 e =
    let b : Begins n p = (candidate-accept capacity n p h).0 in
    let taken : take n p ≡ f = ground arith in
    let left : parser_consume p n ≡ q = ground arith in
    record {
      frame = subst IsFrame taken (Begins-take n p b s1 s2);
      fits = ground (arith, candidate-accept capacity n p h, length-take n p);
      noise = [];
      whole = rw (← taken, ← left, consume-drop, take-append-drop);
    }

-- A frame found behind the first byte.
later-Found : (capacity a : ℕ) (p f q : Bytes) → Found capacity p f q → Found capacity (a ∷ p) f q
later-Found capacity a p f q w = record {
  frame = w.frame;
  fits = w.fits;
  noise = a ∷ w.noise;
  whole = ap (λ t. a ∷ t) w.whole;
}

-- The two ways in which a start gives a frame.
pub act-extracted :
    (v : Verdict) (p : Bytes) (later : Next) (f q : Bytes)
    → act v p later ≡ extracted f q
    → ((v ≡ reject) × (later ≡ extracted f q))
      ⊎ ((n : ℕ) × (v ≡ accept n) × (extracted (take n p) (parser_consume p n) ≡ extracted f q))
act-extracted wait p later f q h = ground arith
act-extracted reject p later f q h = inl (refl, h)
act-extracted no_room p later f q h = ground arith
act-extracted (accept n) p later f q h = inr (n, refl, h)

scan-Found : (capacity : ℕ) (p f q : Bytes) → scan capacity p ≡ extracted f q → Found capacity p f q
unfolding scan
scan-Found capacity [] f q h = ground arith
scan-Found capacity (a ∷ []) f q h = ground arith
scan-Found capacity (a ∷ b ∷ rest) f q h = elim (Bool-cases (a == 0xFE && b == 0xEF)) [
  | inl e ↦
      elim (act-extracted (candidate capacity (a ∷ b ∷ rest)) (a ∷ b ∷ rest)
        (scan capacity (b ∷ rest)) f q (rw e at h)) [
          | inl r ↦ later-Found capacity a (b ∷ rest) f q (scan-Found capacity (b ∷ rest) f q r.1)
          | inr (n, v, x) ↦
              here-Found capacity n (a ∷ b ∷ rest) f q v (ground arith) (ground arith) x
        ]
  | inr e ↦ later-Found capacity a (b ∷ rest) f q (scan-Found capacity (b ∷ rest) f q (rw e at h))
]

-- Whatever protocol_parser_next returns as a frame is a whole, well-formed frame that fits the
-- output, and the buffer was some skipped bytes, that frame, and what the parser keeps.
pub extracted-IsFrame :
    (capacity : ℕ) (p f q : Bytes)
    → parser_next capacity p ≡ some (extracted f q)
    → IsFrame f × (length f ≤ capacity) × ((noise : Bytes) × (p ≡ noise ++ (f ++ q)))
extracted-IsFrame capacity p f q h =
    let w = scan-Found capacity p f q (ground (arith, parser_next-scan capacity p)) in
    (w.frame, w.fits, (w.noise, w.whole))

-- Bytes that hold no FE EF and do not end in FE.
abbrev pub IsNoise : Bytes → Type 0
IsNoise [] = Unit
IsNoise (a ∷ []) = a ≢ 0xFE
IsNoise (a ∷ b ∷ rest) = ((a ≢ 0xFE) ⊎ (b ≢ 0xEF)) × IsNoise (b ∷ rest)

scan-frame :
    (capacity : ℕ) (f q : Bytes)
    → IsFrame f
    → length f ≤ capacity
    → scan capacity (f ++ q) ≡ extracted f q
unfolding scan
scan-frame capacity [] q v h = absurd (omega arith)
scan-frame capacity (a ∷ []) q v h = absurd (omega arith)
scan-frame capacity (a ∷ b ∷ rest) q v h = ground (
  arith,
  candidate-Begins capacity (length (a ∷ b ∷ rest)) (a ∷ b ∷ rest ++ q)
      (Begins-append (length (a ∷ b ∷ rest)) (a ∷ b ∷ rest) q (IsFrame-Begins (a ∷ b ∷ rest) v)) h,
  take-length-append (a ∷ b ∷ rest) q,
  drop-length-append (a ∷ b ∷ rest) q,
  consume-drop (a ∷ b ∷ rest ++ q) (length (a ∷ b ∷ rest)),
)

scan-noise :
    (capacity : ℕ) (noise p : Bytes) → IsNoise noise → scan capacity (noise ++ p) ≡ scan capacity p
unfolding scan
scan-noise capacity [] p h = refl
scan-noise capacity (a ∷ []) [] h = ground arith
scan-noise capacity (a ∷ []) (b ∷ p) h = ground arith
scan-noise capacity (a ∷ b ∷ rest) p h = ground (arith, scan-noise capacity (b ∷ rest) p)

-- A well-formed frame that fits the output is found whole behind bytes that hold no FE EF and do
-- not end in FE, and all that follows it stays in the parser.
pub next_frame :
    (capacity : ℕ) (noise f q : Bytes)
    → IsNoise noise
    → IsFrame f
    → length f ≤ capacity
    → parser_next capacity (noise ++ (f ++ q)) ≡ some (extracted f q)
next_frame capacity noise f q n v h =
    rw (parser_next-scan, scan-noise capacity noise (f ++ q) n, scan-frame capacity f q v h)
