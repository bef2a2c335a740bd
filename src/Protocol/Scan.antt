-- ===== src/Protocol/Scan.antt =====
-- The extraction of frames (src/aml/protocol.c) as one pass over the buffer, and how the code's
-- search loop and calls of itself come to it.
use sweet_dawn.Base.{
  ℕ, zero, suc, ◌+◌, ◌≤◌, ◌<◌, ◌&&◌, some, [], ◌∷◌, ◌≡◌, refl, inl, inr, arith, ltb, ◌==◌,
  if◌then◌else◌, length, length-drop, take, drop, Bool-cases,
}
use sweet_dawn.Protocol.{
  Bytes, Verdict, wait, reject, no_room, accept, Next, extracted, waiting, overflow, keep_last,
  find_start, candidate, parser_consume, next_fuel, parser_next,
}

-- What becomes of a buffer that begins with FE EF; `later` is what its tail gives.
abbrev pub act : Verdict → Bytes → Next → Next
act wait p later = waiting p
act reject p later = later
act no_room p later = overflow p
act (accept n) p later = extracted (take n p) (parser_consume p n)

-- The reference: at each byte in turn, try a candidate.
unfoldable pub scan : ℕ → Bytes → Next
scan capacity [] = waiting []
scan capacity (a ∷ []) = waiting (if a == 0xFE then 0xFE ∷ [] else [])
scan capacity (a ∷ b ∷ rest) =
    let later = scan capacity (b ∷ rest) in
    if a == 0xFE && b == 0xEF
    then act (candidate capacity (a ∷ b ∷ rest)) (a ∷ b ∷ rest) later
    else later

-- The search loop stops at the end, and then nothing but a last FE is kept.
scan-end :
    (capacity a : ℕ) (p : Bytes)
    → length (a ∷ p) ≤ find_start (a ∷ p) + 1
    → scan capacity (a ∷ p) ≡ waiting (keep_last (a ∷ p))
unfolding scan find_start
scan-end capacity a [] h = refl
scan-end capacity a (b ∷ rest) h = ground (arith, scan-end capacity b rest)

-- The search loop stops before the end: at a FE EF, and what precedes it is skipped.
scan-start :
    (capacity a b : ℕ) (rest : Bytes)
    → find_start (a ∷ b ∷ rest) + 1 < length (a ∷ b ∷ rest)
    → scan capacity (a ∷ b ∷ rest)
      ≡ act
          (candidate capacity (drop (find_start (a ∷ b ∷ rest)) (a ∷ b ∷ rest)))
          (drop (find_start (a ∷ b ∷ rest)) (a ∷ b ∷ rest))
          (scan capacity (drop (suc (find_start (a ∷ b ∷ rest))) (a ∷ b ∷ rest)))
unfolding scan find_start
scan-start capacity a b [] h = ground arith
scan-start capacity a b (c ∷ rest) h = elim (Bool-cases (a == 0xFE && b == 0xEF)) [
  | inl e ↦ rw e
  | inr e ↦ rw e (scan-start capacity b c rest (ground arith))
]

-- What the code consumes at a start is what lies before it.
consume-lem : (p : Bytes) (i : ℕ) → i < length p → parser_consume p i ≡ drop i p
unfolding parser_consume
consume-lem p i h = ground arith

skipped :
    (p : Bytes) (i : ℕ) → i < length p → (if ltb 0 i then parser_consume p i else p) ≡ drop i p
skipped p zero h = refl
skipped p (suc i) h = ground (arith, consume-lem p (suc i))

drop_tail : (p : Bytes) (i : ℕ) → i + 1 < length p → parser_consume (drop i p) 1 ≡ drop (suc i) p
unfolding parser_consume
drop_tail [] i h = elim h [ ]
drop_tail (a ∷ []) i h = absurd (omega arith)
drop_tail (a ∷ b ∷ p) zero h = ground arith
drop_tail (a ∷ b ∷ p) (suc i) h = drop_tail (b ∷ p) i (omega arith)

pub scan_nil : (capacity : ℕ) → scan capacity [] ≡ waiting []
unfolding scan
scan_nil capacity = refl

find_start_one : (a : ℕ) → find_start (a ∷ []) ≡ 0
unfolding find_start
find_start_one a = refl

-- The code, given more fuel than the buffer is long, returns what the one pass returns.
next_fuel-scan :
    (fuel capacity : ℕ) (p : Bytes)
    → length p < fuel
    → next_fuel fuel capacity p ≡ some (scan capacity p)
unfolding next_fuel
next_fuel-scan zero capacity p h = elim h [ ]
next_fuel-scan (suc fuel) capacity [] h = ground (arith, scan_nil capacity)
next_fuel-scan (suc fuel) capacity (a ∷ []) h =
    ground (arith, scan-end capacity a [], find_start_one a)
next_fuel-scan (suc fuel) capacity (a ∷ b ∷ p) h = ground (
  arith,
  scan-end capacity a (b ∷ p),
  scan-start capacity a b p,
  skipped (a ∷ b ∷ p) (find_start (a ∷ b ∷ p)),
  drop_tail (a ∷ b ∷ p) (find_start (a ∷ b ∷ p)),
  length-drop (suc (find_start (a ∷ b ∷ p))) (a ∷ b ∷ p),
  next_fuel-scan fuel capacity (drop (suc (find_start (a ∷ b ∷ p))) (a ∷ b ∷ p)),
)

-- protocol_parser_next, whose calls of itself are given fuel, never runs out of it, and is a
-- single pass over the buffer.
pub parser_next-scan : (capacity : ℕ) (p : Bytes) → parser_next capacity p ≡ some (scan capacity p)
unfolding parser_next
parser_next-scan capacity p = next_fuel-scan (length p + 1) capacity p (omega arith)
