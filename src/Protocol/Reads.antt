-- ===== src/Protocol/Reads.antt =====
-- How reads cut the stream (src/aml/protocol.c under the loop of aml_receive, src/aml/transport.c):
-- the frames depend on the bytes alone, and with the buffers that the program uses no read is
-- ever refused.
use sweet_dawn.Base.{
  ℕ, zero, suc, ◌+◌, ◌≤◌, ◌<◌, some, List, [], ◌∷◌, ◌++◌, ◌≡◌, ◌≢◌, ◌⊎◌, refl, sym, ◌∙◌, ap, inl,
  inr, arith, length, length-append, append_assoc, append-nil, subst,
}
use sweet_dawn.Protocol.{
  Bytes, max_frame_size, buffer_size, parser_init, Next, extracted, waiting, overflow, candidate,
  check_end, parser_feed, parser_next,
}
use sweet_dawn.Protocol.Scan.{scan, scan_nil, parser_next-scan}
use sweet_dawn.Protocol.Extract.{IsFrame, extracted-IsFrame}
use sweet_dawn.Protocol.Stream.{
  Drains, dry, more, Receives, joined, idle, read, to_scan, scan_waiting-append,
  scan_extracted-append, scan_waiting-short,
}

of_scan :
    (capacity : ℕ) (p : Bytes) (r : Next) → scan capacity p ≡ r → parser_next capacity p ≡ some r
of_scan capacity p r h = parser_next-scan capacity p ∙ ap some h

Drains-same :
    (capacity : ℕ) {p p' q : Bytes} {fs : List Bytes}
    → scan capacity p ≡ scan capacity p'
    → Drains capacity p fs q
    → Drains capacity p' fs q
Drains-same capacity e (dry h) = dry (of_scan _ _ _ (sym e ∙ to_scan _ _ _ h))
Drains-same capacity e (more h d) = more (of_scan _ _ _ (sym e ∙ to_scan _ _ _ h)) d

Drains-append :
    (capacity : ℕ) (c : Bytes) {p q r : Bytes} {fs gs : List Bytes}
    → Drains capacity p fs q
    → Drains capacity (q ++ c) gs r
    → Drains capacity (p ++ c) (fs ++ gs) r
Drains-append capacity c (dry h) e =
    Drains-same capacity (scan_waiting-append _ _ _ c (to_scan _ _ _ h)) e
Drains-append capacity c (more h d) e =
    more (of_scan _ _ _ (scan_extracted-append _ _ _ _ c (to_scan _ _ _ h)))
      (Drains-append capacity c d e)

-- A drained buffer gives nothing more.
still : (capacity : ℕ) (p q : Bytes) → scan capacity p ≡ waiting q → scan capacity q ≡ waiting q
still capacity p q h =
    ground (arith, scan_waiting-append capacity p q [] h, append-nil p, append-nil q)

drained :
    (capacity : ℕ) {p q : Bytes} {fs : List Bytes} → Drains capacity p fs q → Drains capacity q [] q
drained capacity (dry h) = dry (of_scan _ _ _ (still _ _ _ (to_scan _ _ _ h)))
drained capacity (more h d) = drained capacity d

Drains-unique :
    (capacity : ℕ) {p q r : Bytes} {fs gs : List Bytes}
    → Drains capacity p fs q
    → Drains capacity p gs r
    → (fs ≡ gs) × (q ≡ r)
Drains-unique capacity (dry h) (dry k) = (refl, ground (arith, sym h ∙ k))
Drains-unique capacity (dry h) (more k e) = ground (arith, sym h ∙ k)
Drains-unique capacity (more h d) (dry k) = ground (arith, sym h ∙ k)
Drains-unique capacity {q = q} (more {r = a} {fs = fs} h d) (more {r = b} k e) =
    let same : a ≡ b = ground (arith, sym h ∙ k) in
    let ih = Drains-unique capacity (subst (λ x. Drains capacity x fs q) same d) e in
    ground (arith, sym h ∙ k, ih.0, ih.1)

feed-eq : (p bytes q : Bytes) → parser_feed p bytes ≡ some q → p ++ bytes ≡ q
unfolding parser_feed
feed-eq p [] q h = ground (arith, append-nil p)
feed-eq p (b ∷ bytes) q h = ground arith

Receives-Drains :
    (capacity : ℕ) {p s : Bytes} {reads fs : List Bytes}
    → Drains capacity p [] p
    → Receives capacity p reads fs s
    → Drains capacity (p ++ joined reads) fs s
Receives-Drains capacity {p} d idle = subst (λ x. Drains capacity x [] p) (sym (append-nil p)) d
Receives-Drains capacity {p} {s} d
      (read {q = q} {bytes = bytes} {reads = reads} {fs = fs} {gs = gs} h e r) =
    let fed : p ++ bytes ≡ q = feed-eq p bytes q h in
    subst (λ x. Drains capacity x (fs ++ gs) s)
      (ap (λ x. x ++ joined reads) (sym fed) ∙ append_assoc p bytes (joined reads))
      (Drains-append capacity (joined reads) e (Receives-Drains capacity (drained capacity e) r))

-- However the same bytes are cut into reads, two runs that start from an empty parser and read all
-- of them yield the same frames and keep the same bytes.
pub Receives-unique :
    (capacity : ℕ) (reads reads' fs gs : List Bytes) (q r : Bytes)
    → joined reads ≡ joined reads'
    → Receives capacity parser_init reads fs q
    → Receives capacity parser_init reads' gs r
    → (fs ≡ gs) × (q ≡ r)
Receives-unique capacity reads reads' fs gs q r same a b =
    let empty : Drains capacity [] [] [] =
      dry (of_scan capacity [] (waiting []) (scan_nil capacity)) in
    Drains-unique capacity
      (subst (λ x. Drains capacity x fs q) same (Receives-Drains capacity empty a))
      (Receives-Drains capacity empty b)

-- With an output as large as the largest frame nothing is left for lack of room.
scan-ne-overflow :
    (capacity : ℕ) (p q : Bytes) → max_frame_size ≤ capacity → scan capacity p ≢ overflow q
unfolding scan candidate check_end
scan-ne-overflow capacity [] q c h = ground arith
scan-ne-overflow capacity (a ∷ []) q c h = ground arith
scan-ne-overflow capacity (a ∷ b ∷ rest) q c h =
    ground (arith, scan-ne-overflow capacity (b ∷ rest) q c)

extracted-shorter :
    (capacity : ℕ) (p f q : Bytes)
    → parser_next capacity p ≡ some (extracted f q)
    → length q < length p
extracted-shorter capacity p f q h =
    let (v, fits, (noise, e)) = extracted-IsFrame capacity p f q h in
    omega (
      arith,
      v.long,
      ap (λ (x : Bytes). length x) e,
      length-append noise (f ++ q),
      length-append f q,
    )

Drained : ℕ → Bytes → Type 0
Drained capacity p =
    (fs : List Bytes) × (q : Bytes) × Drains capacity p fs q × (length q < max_frame_size)

Next-cases :
    (r : Next)
    → ((f : Bytes) × (q : Bytes) × (r ≡ extracted f q))
      ⊎ ((q : Bytes) × (r ≡ waiting q))
      ⊎ ((q : Bytes) × (r ≡ overflow q))
Next-cases (extracted f q) = inl (f, q, refl)
Next-cases (waiting q) = inr (inl (q, refl))
Next-cases (overflow q) = inr (inr (q, refl))

drain-Drained :
    (n capacity : ℕ) (p : Bytes) → length p < n → max_frame_size ≤ capacity → Drained capacity p
unfolding Drained
drain-Drained zero capacity p h c = elim h [ ]
drain-Drained (suc n) capacity p h c = elim (Next-cases (scan capacity p)) [
  | inl (f, q, e) ↦
      let step = of_scan capacity p (extracted f q) e in
      let (fs, r, d, short) =
        drain-Drained n capacity q (omega (arith, extracted-shorter capacity p f q step)) c in
      (f ∷ fs, r, more step d, short)
  | inr (inl (q, e)) ↦
      ([], q, dry (of_scan capacity p (waiting q) e), scan_waiting-short capacity p q e)
  | inr (inr (q, e)) ↦ absurd (scan-ne-overflow capacity p q c e)
]

pub feed-room :
    (p bytes : Bytes)
    → length p + length bytes ≤ buffer_size
    → parser_feed p bytes ≡ some (p ++ bytes)
unfolding parser_feed
feed-room p [] h = ground (arith, append-nil p)
feed-room p (b ∷ bytes) h = ground arith

-- Reads of at most `AML_RX_BUFFER_SIZE` bytes.
abbrev pub IsRead : List Bytes → Type 0
IsRead [] = Unit
IsRead (bytes ∷ reads) = (length bytes ≤ 256) × IsRead reads

-- With an output of 259 bytes or more, a parser that holds fewer than 259 bytes takes any reads of
-- at most 256 bytes each, drained one after the other: none is refused, every drain ends, and
-- fewer than 259 bytes stay.
pub Receives-total :
    (capacity : ℕ) (p : Bytes) (reads : List Bytes)
    → max_frame_size ≤ capacity
    → length p < max_frame_size
    → IsRead reads
    → (fs : List Bytes) × (q : Bytes) × Receives capacity p reads fs q × (length q < max_frame_size)
unfolding Drained
Receives-total capacity p [] c h ok = ([], p, idle, h)
Receives-total capacity p (bytes ∷ reads) c h ok =
    let (fs, q, d, short) =
      drain-Drained (length (p ++ bytes) + 1) capacity (p ++ bytes) (omega arith) c in
    let (gs, s, r, small) = Receives-total capacity q reads c short ok.1 in
    (fs ++ gs, s, read (feed-room p bytes (omega arith)) d r, small)

-- What a call returns when the output has room for any frame: a frame, and fewer bytes than
-- before, or a wait for more with few bytes kept.
pub next_summary :
    (capacity : ℕ) (p : Bytes)
    → max_frame_size ≤ capacity
    → ((f : Bytes) × (q : Bytes) × (parser_next capacity p ≡ some (extracted f q))
        × IsFrame f
        × (length f ≤ capacity)
        × (length q < length p))
      ⊎ ((q : Bytes) × (parser_next capacity p ≡ some (waiting q)) × (length q < max_frame_size))
next_summary capacity p c = elim (Next-cases (scan capacity p)) [
  | inl (f, q, e) ↦
      let step = of_scan capacity p (extracted f q) e in
      let (v, fits, _) = extracted-IsFrame capacity p f q step in
      inl (f, q, step, v, fits, extracted-shorter capacity p f q step)
  | inr (inl (q, e)) ↦ inr (q, of_scan capacity p (waiting q) e, scan_waiting-short capacity p q e)
  | inr (inr (q, e)) ↦ absurd (scan-ne-overflow capacity p q c e)
]
