-- ===== src/Protocol/Stream.antt =====
-- The receive buffer as a stream (src/aml/protocol.c): how the bytes are cut into reads does not
-- change which frames come out, and a drained buffer always has room for the next read.
use sweet_dawn.Base.{
  some-eq, ℕ, zero, suc, ◌≤◌, ◌<◌, ◌&&◌, some, List, [], ◌∷◌, ◌++◌, ◌≡◌, refl, sym, ◌∙◌, ap, inl,
  inr, arith, ◌==◌, length, take, drop, Bool-cases,
}
use sweet_dawn.Protocol.{
  Bytes, max_frame_size, Next, extracted, waiting, candidate, check_end, parser_consume,
  parser_feed, parser_next,
}
use sweet_dawn.Protocol.Scan.{scan, parser_next-scan}
use sweet_dawn.Protocol.Extract.{act-extracted, candidate-append, candidate-extends, consume-drop}

-- What a scan returns stays, with the bytes that follow put behind what is left.
pub scan_waiting-append :
    (capacity : ℕ) (p q c : Bytes)
    → scan capacity p ≡ waiting q
    → scan capacity (q ++ c) ≡ scan capacity (p ++ c)
unfolding scan
scan_waiting-append capacity [] q c h = ground arith
scan_waiting-append capacity (a ∷ []) q [] h = ground arith
scan_waiting-append capacity (a ∷ []) q (x ∷ c) h = ground arith
scan_waiting-append capacity (a ∷ b ∷ rest) q c h =
    ground (
      arith,
      scan_waiting-append capacity (b ∷ rest) q c,
      candidate-append capacity (a ∷ b ∷ rest) c,
    )

drop-append : (n : ℕ) (p c : Bytes) → n ≤ length p → drop n (p ++ c) ≡ drop n p ++ c
drop-append zero p c h = refl
drop-append (suc n) [] c h = elim h [ ]
drop-append (suc n) (x ∷ p) c h = drop-append n p c (omega arith)

take-append : (n : ℕ) (p c : Bytes) → n ≤ length p → take n (p ++ c) ≡ take n p
take-append zero p c h = refl
take-append (suc n) [] c h = elim h [ ]
take-append (suc n) (x ∷ p) c h = ap (λ t. x ∷ t) (take-append n p c (omega arith))

accepted-append :
    (n : ℕ) (p f q c : Bytes)
    → n ≤ length p
    → extracted (take n p) (parser_consume p n) ≡ extracted f q
    → extracted (take n (p ++ c)) (parser_consume (p ++ c) n) ≡ extracted f (q ++ c)
accepted-append n p f q c h x =
    ground (arith, consume-drop p n, consume-drop (p ++ c) n, drop-append n p c, take-append n p c)

pub scan_extracted-append :
    (capacity : ℕ) (p f q c : Bytes)
    → scan capacity p ≡ extracted f q
    → scan capacity (p ++ c) ≡ extracted f (q ++ c)
unfolding scan
scan_extracted-append capacity [] f q c h = ground arith
scan_extracted-append capacity (a ∷ []) f q c h = ground arith
scan_extracted-append capacity (a ∷ b ∷ rest) f q c h = elim (Bool-cases (a == 0xFE && b == 0xEF)) [
  | inl e ↦
      elim (act-extracted (candidate capacity (a ∷ b ∷ rest)) (a ∷ b ∷ rest)
        (scan capacity (b ∷ rest)) f q (rw e at h)) [
          | inl r ↦
              rw (e, candidate-append capacity (a ∷ b ∷ rest) c r.0)
                (scan_extracted-append capacity (b ∷ rest) f q c r.1)
          | inr (n, v, x) ↦
              rw (e, (candidate-extends capacity n (a ∷ b ∷ rest) c v).0)
                (accepted-append n (a ∷ b ∷ rest) f q c
                  (candidate-extends capacity n (a ∷ b ∷ rest) c v).1 x)
        ]
  | inr e ↦ rw e (scan_extracted-append capacity (b ∷ rest) f q c (rw e at h))
]

pub scan_waiting-short :
    (capacity : ℕ) (p q : Bytes) → scan capacity p ≡ waiting q → length q < max_frame_size
unfolding scan candidate check_end
scan_waiting-short capacity [] q h = ground arith
scan_waiting-short capacity (a ∷ []) q h = ground arith
scan_waiting-short capacity (a ∷ b ∷ rest) q h =
    ground (arith, scan_waiting-short capacity (b ∷ rest) q)

pub to_scan :
    (capacity : ℕ) (p : Bytes) (r : Next) → parser_next capacity p ≡ some r → scan capacity p ≡ r
to_scan capacity p r h = some-eq _ _ (sym (parser_next-scan capacity p) ∙ h)

-- `protocol_parser_next` always returns: it never runs out of calls, on any buffer.
pub parser_next_total : (capacity : ℕ) (p : Bytes) → (r : Next) × (parser_next capacity p ≡ some r)
parser_next_total capacity p = (scan capacity p, parser_next-scan capacity p)

-- Draining a buffer: the frames that repeated calls return, until one returns 0.
pub data Drains (capacity : ℕ) : Bytes → List Bytes → Bytes → Type 0 where
  dry : {p q : Bytes} → parser_next capacity p ≡ some (waiting q) → Drains capacity p [] q
  more :
      {p f r q : Bytes} {fs : List Bytes}
      → parser_next capacity p ≡ some (extracted f r)
      → Drains capacity r fs q
      → Drains capacity p (f ∷ fs) q

-- The bytes of several reads, in order.
abbrev pub joined : List Bytes → Bytes
joined [] = []
joined (bytes ∷ reads) = bytes ++ joined reads

-- A connection that receives reads one after the other, each fed and then drained.
pub data Receives (capacity : ℕ) : Bytes → List Bytes → List Bytes → Bytes → Type 0 where
  idle : {p : Bytes} → Receives capacity p [] [] p
  read :
      {p q r s bytes : Bytes} {reads fs gs : List Bytes}
      → parser_feed p bytes ≡ some q
      → Drains capacity q fs r
      → Receives capacity r reads gs s
      → Receives capacity p (bytes ∷ reads) (fs ++ gs) s
