-- ===== src/Ctl/Stream.antt =====
-- The lines that the client (src/app/ctl.c) reads from the service, whatever the cuts between reads.
use sweet_dawn.Base.{
  ℕ, zero, suc, ◌+◌, ◌-◌, ◌≤◌, ◌≡◌, ◌∙◌, inl, inr, refl, sym, ap, ap₂, arith, Option, none, some,
  List, [], ◌∷◌, ◌++◌, length, take, drop, leb, if_intro, option_intro, subst, append_assoc,
  append-nil, Option-cases, length-drop,
}
use sweet_dawn.Protocol.{Bytes}
use sweet_dawn.Ipc.{find_newline}
use sweet_dawn.Ipc.Lines.{lines_of, partial_of, newline_cut}
use sweet_dawn.Ctl.{
  Net, Sortie, buffer_size, after_recv, ligne_lue, lire_ligne, couper, lignes_recues, suivre,
}

-- The bytes that some calls of recv() gave, one after the other, up to one that failed.
pub data Reads (net : Net) (fd : ℕ) : net.World → Bytes → net.World → Type 0 where
  nothing : {w : net.World} → Reads net fd w [] w
  failed :
      {w : net.World} (n : ℕ)
      → after_recv (net.recv fd n w).0 ≡ none
      → Reads net fd w [] (net.recv fd n w).1
  more :
      {w w' : net.World} {bytes : Bytes} (n : ℕ) (b : Bytes)
      → after_recv (net.recv fd n w).0 ≡ some b
      → Reads net fd (net.recv fd n w).1 bytes w'
      → Reads net fd w (b ++ bytes) w'

partial_whole : (a : Bytes) → lines_of a ≡ [] → partial_of a ≡ a
partial_whole [] h = refl
partial_whole (x ∷ a) h = ground (arith, partial_whole a)

lines-append : (a b : Bytes) → lines_of (a ++ b) ≡ lines_of a ++ lines_of (partial_of a ++ b)
lines-append [] b = refl
lines-append (x ∷ a) b = ground (arith, lines-append a b, partial_whole a)

partial-lines : (a : Bytes) → lines_of (partial_of a) ≡ []
partial-lines [] = refl
partial-lines (x ∷ a) = ground (arith, partial-lines a, partial_whole a)

no_newline : (b : Bytes) → find_newline b ≡ none → (lines_of b ≡ []) × (partial_of b ≡ b)
unfolding find_newline
no_newline [] h = (refl, refl)
no_newline (x ∷ b) h = ground (arith, no_newline b)

module _ (net : Net) where
  open net use {World}

  couper_lem :
      (fuel : ℕ) (b : Bytes) → length b ≤ fuel → couper net fuel b ≡ (lines_of b, partial_of b)
  unfolding couper
  couper_lem zero [] h = refl
  couper_lem zero (x ∷ b) h = absurd (omega (arith, h))
  couper_lem (suc fuel) b h = elim (Option-cases (find_newline b)) [
    | inl e ↦
        rw (e, couper) (ap₂ (λ ls p. (ls, p)) (sym (no_newline b e).0) (sym (no_newline b e).1))
    | inr (n, e) ↦
        let (lines, partial, lt) = newline_cut b [] n e in
        let again =
          couper_lem fuel (drop (n + 1) b) (omega (arith, h, lt, length-drop (n + 1) b)) in
        rw (e, couper)
          (ap₂ (λ ls p. (ls, p))
            (ap (λ (r : List Bytes × Bytes). take n b ∷ r.0) again ∙ sym (simp append-nil at lines))
            (ap (λ (r : List Bytes × Bytes). r.1) again ∙ sym (simp append-nil at partial)))
  ]

  -- What the loop of the events has treated, from some lines and a beginning of the next one: the
  -- lines of the stream.
  abbrev Follows : ℕ → List Bytes → Bytes → World → Option (List Bytes × Sortie × World) → Type 0
  Follows fd treated buffer w none = Unit
  Follows fd treated buffer w (some (lines, why, w')) =
      (bytes : Bytes) × Reads net fd w bytes w' × (lines ≡ treated ++ lines_of (buffer ++ bytes))

  -- One read in front of what follows.
  read-Follows :
      (fd n : ℕ) (treated : List Bytes) (buffer b : Bytes) (w : World)
      (r : Option (List Bytes × Sortie × World))
      → after_recv (net.recv fd n w).0 ≡ some b
      → Follows fd
          (treated ++ lines_of (buffer ++ b))
          (partial_of (buffer ++ b))
          (net.recv fd n w).1
          r
      → Follows fd treated buffer w r
  read-Follows fd n treated buffer b w none e v = tt
  read-Follows fd n treated buffer b w (some (lines, why, w')) e (bytes, reads, k) = (
    b ++ bytes,
    more n b e reads,
    k
        ∙ append_assoc treated _ _
        ∙ ap (λ x. treated ++ x) (sym (lines-append (buffer ++ b) bytes))
        ∙ ap (λ x. treated ++ lines_of x) (append_assoc buffer b bytes),
  )

  silent-Follows :
      (fd n : ℕ) (treated : List Bytes) (buffer : Bytes) (w : World)
      (r : Option (List Bytes × Sortie × World))
      → after_recv (net.recv fd n w).0 ≡ some []
      → Follows fd treated buffer (net.recv fd n w).1 r
      → Follows fd treated buffer w r
  silent-Follows fd n treated buffer w none e v = tt
  silent-Follows fd n treated buffer w (some (lines, why, w')) e (bytes, reads, k) =
      (bytes, more n [] e reads, k)

  behind-Follows :
      (again : List Bytes → Bytes → World → Option (List Bytes × Sortie × World)) (fd n : ℕ)
      (treated : List Bytes) (buffer : Bytes) (w : World) (r : Option Bytes)
      → ((t : List Bytes) (p : Bytes) (u : World)
          → lines_of p ≡ []
          → Follows fd t p u (again t p u))
      → lines_of buffer ≡ []
      → after_recv (net.recv fd n w).0 ≡ r
      → Follows fd treated buffer w (lignes_recues net again treated buffer r (net.recv fd n w).1)
  unfolding lignes_recues
  behind-Follows again fd n treated buffer w none v h e =
      ([], failed n e, simp (append-nil, h) refl)
  behind-Follows again fd n treated buffer w (some []) v h e =
      silent-Follows fd n treated buffer w _ e (v treated buffer (net.recv fd n w).1 h)
  behind-Follows again fd n treated buffer w (some (b ∷ bs)) v h e =
      let all = buffer ++ (b ∷ bs) in
      let w' = (net.recv fd n w).1 in
      rw (couper_lem (length all) all (omega arith)) (
        if_intro (Follows fd treated buffer w) (leb (buffer_size - 1) (length (partial_of all)))
          (λ _. (
            (b ∷ bs) ++ [],
            more n (b ∷ bs) e nothing,
            ap (λ x. treated ++ lines_of (buffer ++ x)) (sym (append-nil (b ∷ bs))),
          ))
          (λ _.
            read-Follows fd n treated buffer (b ∷ bs) w _ e
              (v (treated ++ lines_of all) (partial_of all) w' (partial-lines all))))

  suivre-Follows :
      (fuel fd : ℕ) (treated : List Bytes) (buffer : Bytes) (w : World)
      → lines_of buffer ≡ []
      → Follows fd treated buffer w (suivre net fuel fd treated buffer w)
  unfolding suivre
  suivre-Follows zero fd treated buffer w h = tt
  suivre-Follows (suc fuel) fd treated buffer w h =
      behind-Follows (suivre net fuel fd) fd (buffer_size - 1 - length buffer) treated buffer w
        (after_recv (net.recv fd (buffer_size - 1 - length buffer) w).0)
        (λ t p u k. suivre-Follows fuel fd t p u k) h refl

  -- The lines of which the mode "events" of the client shows the events are the lines of the bytes
  -- that the service sent, in their order, however these are cut into reads, up to the end of the
  -- connection or a line that is too long.
  pub suivre-lines :
      (fuel fd : ℕ) (w : World) (lines : List Bytes) (why : Sortie) (w' : World)
      → suivre net fuel fd [] [] w ≡ some (lines, why, w')
      → (bytes : Bytes) × Reads net fd w bytes w' × (lines ≡ lines_of bytes)
  suivre-lines fuel fd w lines why w' h =
      subst (Follows fd [] [] w) h (suivre-Follows fuel fd [] [] w refl)

  -- What a reading of a response returns, from a beginning of the line.
  abbrev Starts : ℕ → Bytes → World → Option (Option Bytes × World) → Type 0
  Starts fd buffer w none = Unit
  Starts fd buffer w (some (none, w')) = Unit
  Starts fd buffer w (some (some line, w')) =
      (bytes : Bytes) × (others : List Bytes) × Reads net fd w bytes w'
      × (lines_of (buffer ++ bytes) ≡ line ∷ others)

  grown-Starts :
      (fd n : ℕ) (buffer b : Bytes) (w : World) (r : Option (Option Bytes × World))
      → after_recv (net.recv fd n w).0 ≡ some b
      → Starts fd (buffer ++ b) (net.recv fd n w).1 r
      → Starts fd buffer w r
  grown-Starts fd n buffer b w none e v = tt
  grown-Starts fd n buffer b w (some (none, w')) e v = tt
  grown-Starts fd n buffer b w (some (some line, w')) e (bytes, others, reads, k) =
      (b ++ bytes, others, more n b e reads, ap lines_of (sym (append_assoc buffer b bytes)) ∙ k)

  behind-Starts :
      (again : Bytes → World → Option (Option Bytes × World)) (fd n : ℕ) (buffer : Bytes)
      (w : World) (r : Option Bytes)
      → ((p : Bytes) (u : World) → Starts fd p u (again p u))
      → after_recv (net.recv fd n w).0 ≡ r
      → Starts fd buffer w (ligne_lue net again buffer r (net.recv fd n w).1)
  unfolding ligne_lue
  behind-Starts again fd n buffer w none v e = tt
  behind-Starts again fd n buffer w (some []) v e = grown-Starts fd n buffer [] w _ e (
      subst (λ x. Starts fd x (net.recv fd n w).1 (again buffer (net.recv fd n w).1))
        (sym (append-nil buffer)) (v buffer (net.recv fd n w).1))
  behind-Starts again fd n buffer w (some (b ∷ bs)) v e =
      let all = buffer ++ (b ∷ bs) in
      option_intro (Starts fd buffer w) (find_newline all)
        (λ _. grown-Starts fd n buffer (b ∷ bs) w _ e (v all (net.recv fd n w).1))
        (λ i k.
          let (lines, partial, lt) = newline_cut all [] i k in
          (
            b ∷ bs,
            lines_of (drop (i + 1) all),
            subst (λ x. Reads net fd w x (net.recv fd n w).1) (append-nil (b ∷ bs))
                (more n (b ∷ bs) e nothing),
            simp append-nil at lines,
          ))

  lire-Starts :
      (fuel fd : ℕ) (buffer : Bytes) (w : World)
      → Starts fd buffer w (lire_ligne net fuel fd buffer w)
  unfolding lire_ligne
  lire-Starts zero fd buffer w = tt
  lire-Starts (suc fuel) fd buffer w =
      if_intro (Starts fd buffer w) (leb buffer_size (length buffer + 1)) (λ _. tt)
        (λ _.
          behind-Starts (lire_ligne net fuel fd) fd (buffer_size - 1 - length buffer) buffer w
            (after_recv (net.recv fd (buffer_size - 1 - length buffer) w).0)
            (λ p u. lire-Starts fuel fd p u) refl)

  -- A response that was read is the first line of what the service sent.
  pub lire_ligne-first :
      (fuel fd : ℕ) (w : World) (line : Bytes) (w' : World)
      → lire_ligne net fuel fd [] w ≡ some (some line, w')
      → (bytes : Bytes) × (others : List Bytes) × Reads net fd w bytes w'
        × (lines_of bytes ≡ line ∷ others)
  lire_ligne-first fuel fd w line w' h = subst (Starts fd [] w) h (lire-Starts fuel fd [] w)
