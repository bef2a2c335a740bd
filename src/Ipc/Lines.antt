-- ===== src/Ipc/Lines.antt =====
-- The lines that a client sent, whatever the cuts between reads (src/ipc/ipc_server.c).
use sweet_dawn.Base.{
  ℕ, zero, suc, ◌+◌, ◌<◌, ◌≤◌, ◌≡◌, ◌⊎◌, inl, inr, Option, none, some, List, [], ◌∷◌, ◌++◌, String,
  refl, sym, ◌∙◌, ap, arith, length, take, drop, ◌==◌, if◌then◌else◌, Option-cases, ap₂,
  append_assoc, append-nil, subst, some-eq,
}
use sweet_dawn.Os.{recv_bytes}
use sweet_dawn.Protocol.{Bytes}
use sweet_dawn.Protocol.Stream.{joined}
use sweet_dawn.Json.{JsonLib}
use sweet_dawn.Ipc.{
  IpcClient, Handled, client_append, find_newline, line_of, process_message,
  process_buffered_message,
}
use sweet_dawn.Ipc.Sockets.{
  Sockets, after_read, write_client, write_intro, write_on, unsent, go_on, later, broken,
}
use sweet_dawn.Ipc.Answers.{message-IsAnswered}

-- A byte in front of the first line.
abbrev pub grown : ℕ → List Bytes → List Bytes
grown b [] = []
grown b (l ∷ ls) = (b ∷ l) ∷ ls

-- The complete lines of some bytes, and the bytes behind the last one.
abbrev pub lines_of : Bytes → List Bytes
lines_of [] = []
lines_of (b ∷ rest) = let more = lines_of rest in if b == 0x0A then [] ∷ more else grown b more

abbrev pub partial_of : Bytes → Bytes
partial_of [] = []
partial_of (b ∷ rest) =
    let more = partial_of rest in
    if b == 0x0A then more else elim (lines_of rest) [ [] ↦ b ∷ more | _ ∷ _ ↦ more ]

-- A line less a final CR.
abbrev pub stripped : Bytes → Bytes
stripped [] = []
stripped (b ∷ []) = if b == 0x0D then [] else b ∷ []
stripped (b ∷ c ∷ rest) = b ∷ stripped (c ∷ rest)

abbrev pub messages_of : List Bytes → List Bytes
messages_of [] = []
messages_of (l ∷ ls) = stripped l ∷ messages_of ls

pub newline_cut :
    (i c : Bytes) (n : ℕ)
    → find_newline i ≡ some n
    → (lines_of (i ++ c) ≡ take n i ∷ lines_of (drop (n + 1) i ++ c))
      × (partial_of (i ++ c) ≡ partial_of (drop (n + 1) i ++ c))
      × (n < length i)
unfolding find_newline
newline_cut [] c n h = absurd (ground arith)
newline_cut (b ∷ i) c zero h = ground arith
newline_cut (b ∷ i) c (suc n) h = ground (arith, newline_cut i c n)

stripped_line : (i : Bytes) (n : ℕ) → n ≤ length i → line_of i n ≡ stripped (take n i)
unfolding line_of
stripped_line i zero h = refl
stripped_line [] (suc n) h = elim h [ ]
stripped_line (b ∷ i) (suc zero) h = ground arith
stripped_line (b ∷ []) (suc (suc n)) h = absurd (omega arith)
stripped_line (b ∷ c ∷ i) (suc (suc n)) h = ground (arith, stripped_line (c ∷ i) (suc n))

read_input :
    (c c' : IpcClient) (bytes : Bytes)
    → after_read c (recv_bytes bytes) ≡ some c'
    → c.input ++ bytes ≡ c'.input
unfolding after_read
read_input c c' bytes h = ground arith

-- A read changes the input alone.
read_alone :
    (c c' : IpcClient) (bytes : Bytes)
    → after_read c (recv_bytes bytes) ≡ some c'
    → record c { input = c'.input } ≡ c'
unfolding after_read
read_alone c c' bytes h =
    let e = some-eq (record c { input = c.input ++ bytes }) c' h in
    subst (λ (x : IpcClient). record c { input = x.input } ≡ x) e refl

append_input :
    (c c' : IpcClient) (text : Bytes) → client_append c text ≡ some c' → c'.input ≡ c.input
unfolding client_append
append_input c c' text h = ground arith

-- What else happens to a client between its reads: it is written to, something is queued for it, or the context of
-- the handler changes on behalf of others.
pub data Other (World Ctx : Type 0) : Type 0 where
  wrote : (fuel fd : ℕ) (before after : World) → Other World Ctx
  queued : Bytes → Other World Ctx
  elsewhere : Ctx → Other World Ctx

module _ (sockets : Sockets) (json : JsonLib) {Ctx : Type 0}
    (handler : Option (Ctx → String → json.Value → Handled json.Value × Ctx)) where
  -- A client of the server, from one state to another: what it sent in reads, a call of
  -- `process_buffered_message` at any time, and what else happens.
  pub data Serves
      : IpcClient
        → Ctx
        → List Bytes
        → List (Other sockets.World Ctx)
        → IpcClient
        → Ctx
        → Type 0 where
    idle : {c : IpcClient} {ctx : Ctx} → Serves c ctx [] [] c ctx
    reads :
        {c c' d : IpcClient} {ctx ctx' : Ctx} {bytes : Bytes} {rs : List Bytes}
        {es : List (Other sockets.World Ctx)}
        → after_read c (recv_bytes bytes) ≡ some c'
        → Serves c' ctx rs es d ctx'
        → Serves c ctx (bytes ∷ rs) es d ctx'
    treats :
        {c c' d : IpcClient} {ctx ctx' ctx'' : Ctx} {rs : List Bytes}
        {es : List (Other sockets.World Ctx)}
        → process_buffered_message json handler c ctx ≡ (some c', ctx')
        → Serves c' ctx' rs es d ctx''
        → Serves c ctx rs es d ctx''
    writes :
        {c c' d : IpcClient} {ctx ctx' : Ctx} {rs : List Bytes}
        {es : List (Other sockets.World Ctx)} (fuel fd : ℕ) (w w' : sockets.World)
        → write_client sockets fuel fd c w ≡ some (some c', w')
        → Serves c' ctx rs es d ctx'
        → Serves c ctx rs (wrote fuel fd w w' ∷ es) d ctx'
    appends :
        {c c' d : IpcClient} {ctx ctx' : Ctx} {rs : List Bytes}
        {es : List (Other sockets.World Ctx)} (text : Bytes)
        → client_append c text ≡ some c'
        → Serves c' ctx rs es d ctx'
        → Serves c ctx rs (queued text ∷ es) d ctx'
    others :
        {c d : IpcClient} {ctx ctx'' : Ctx} {rs : List Bytes} {es : List (Other sockets.World Ctx)}
        (ctx' : Ctx)
        → Serves c ctx' rs es d ctx''
        → Serves c ctx rs (elsewhere ctx' ∷ es) d ctx''

  -- The same client of a server that is given whole messages: it treats each with `process_message`, whatever is in
  -- the buffer.
  pub data Treats
      : IpcClient
        → Ctx
        → List Bytes
        → List (Other sockets.World Ctx)
        → IpcClient
        → Ctx
        → Type 0 where
    rest : {c : IpcClient} {ctx : Ctx} → Treats c ctx [] [] c ctx
    buffers :
        {c d : IpcClient} {ctx ctx' : Ctx} {ms : List Bytes} {es : List (Other sockets.World Ctx)}
        (input : Bytes)
        → Treats (record c { input = input }) ctx ms es d ctx'
        → Treats c ctx ms es d ctx'
    message :
        {c c' d : IpcClient} {ctx ctx' ctx'' : Ctx} {ms : List Bytes}
        {es : List (Other sockets.World Ctx)} (m : Bytes)
        → process_message json handler c m ctx ≡ (some c', ctx')
        → Treats c' ctx' ms es d ctx''
        → Treats c ctx (m ∷ ms) es d ctx''
    writes :
        {c c' d : IpcClient} {ctx ctx' : Ctx} {ms : List Bytes}
        {es : List (Other sockets.World Ctx)} (fuel fd : ℕ) (w w' : sockets.World)
        → write_client sockets fuel fd c w ≡ some (some c', w')
        → Treats c' ctx ms es d ctx'
        → Treats c ctx ms (wrote fuel fd w w' ∷ es) d ctx'
    appends :
        {c c' d : IpcClient} {ctx ctx' : Ctx} {ms : List Bytes}
        {es : List (Other sockets.World Ctx)} (text : Bytes)
        → client_append c text ≡ some c'
        → Treats c' ctx ms es d ctx'
        → Treats c ctx ms (queued text ∷ es) d ctx'
    others :
        {c d : IpcClient} {ctx ctx'' : Ctx} {ms : List Bytes} {es : List (Other sockets.World Ctx)}
        (ctx' : Ctx)
        → Treats c ctx' ms es d ctx''
        → Treats c ctx ms (elsewhere ctx' ∷ es) d ctx''

  abbrev Keeps : Bytes → Option (Option IpcClient × sockets.World) → Type 0
  Keeps input none = Unit
  Keeps input (some (none, w)) = Unit
  Keeps input (some (some c, w)) = c.input ≡ input

  write-Keeps :
      (fuel fd : ℕ) (c : IpcClient) (w : sockets.World)
      → Keeps c.input (write_client sockets fuel fd c w)
  unfolding write_client
  write-Keeps zero fd c w = tt
  write-Keeps (suc fuel) fd c w =
      let w' = (sockets.send fd (unsent c) w).1 in
      write_intro sockets (Keeps c.input) fuel fd c w (λ _. refl)
        (λ x _ _.
          elim x as (λ x. Keeps c.input (write_on sockets (write_client sockets fuel fd) c x w')) [
            | broken ↦ tt
            | later ↦ refl
            | go_on n ↦ write-Keeps fuel fd (record c { output_offset = c.output_offset + n }) w'
          ])

  -- What a call of `process_buffered_message` does: nothing, or the treatment of the first line, which it takes off.
  Treated : IpcClient → Ctx → IpcClient → Ctx → Type 0
  Treated c ctx c' ctx' =
      ((c' ≡ c) × (ctx' ≡ ctx))
      ⊎ ((n : ℕ) × (find_newline c.input ≡ some n)
          × (process_message json handler (record c { input = drop (n + 1) c.input })
                (line_of c.input n) ctx
              ≡ (some c', ctx'))
          × (c'.input ≡ drop (n + 1) c.input))

  Treated-cases :
      (c c' : IpcClient) (ctx ctx' : Ctx)
      → process_buffered_message json handler c ctx ≡ (some c', ctx')
      → Treated c ctx c' ctx'
  unfolding process_buffered_message Treated
  Treated-cases c c' ctx ctx' h = elim (Option-cases (find_newline c.input)) [
    | inl e ↦
        let k : (some c, ctx) ≡ (some c', ctx') = rw (e, process_buffered_message) at h in
        inl (
          some-eq c' c (sym (ap (λ (r : Option IpcClient × Ctx). r.0) k)),
          sym (ap (λ (r : Option IpcClient × Ctx). r.1) k),
        )
    | inr (n, e) ↦
        let k : process_message json handler (record c { input = drop (n + 1) c.input })
              (line_of c.input n) ctx
            ≡ (some c', ctx') =
          rw (e, process_buffered_message) at h in
        inr (
          n,
          e,
          k,
          (message-IsAnswered json handler (record c { input = drop (n + 1) c.input })
              (line_of c.input n) ctx c' ctx' k).same_input,
        )
  ]

  -- The run of messages that a run of reads comes to: their messages, with those still in the buffer, are the lines
  -- of the bytes.
  pub Follows : IpcClient → Ctx → Bytes → List (Other sockets.World Ctx) → IpcClient → Ctx → Type 0
  Follows c ctx bytes es d ctx' =
      (ms : List Bytes) × Treats c ctx ms es d ctx'
      × (messages_of (lines_of bytes) ≡ ms ++ messages_of (lines_of d.input))
      × (partial_of bytes ≡ partial_of d.input)

  -- One treatment takes the first line off what was received.
  treated-Follows :
      (c c' d : IpcClient) (ctx ctx' ctx'' : Ctx) (more : Bytes)
      (es : List (Other sockets.World Ctx))
      → Treated c ctx c' ctx'
      → Follows c' ctx' (c'.input ++ more) es d ctx''
      → Follows c ctx (c.input ++ more) es d ctx''
  unfolding Treated Follows
  treated-Follows c c' d ctx ctx' ctx'' more es (inl (e, k)) f =
      subst (λ x. Follows c x (c.input ++ more) es d ctx'') k
        (subst (λ (x : IpcClient). Follows x ctx' (x.input ++ more) es d ctx'') e f)
  treated-Follows c c' d ctx ctx' ctx'' more es (inr (n, e, k, i)) (ms, t, l, p) =
      let (cut, behind, short) = newline_cut c.input more n e in
      let same : drop (n + 1) c.input ++ more ≡ c'.input ++ more = ap (λ x. x ++ more) (sym i) in
      (
        line_of c.input n ∷ ms,
        buffers (drop (n + 1) c.input) (message (line_of c.input n) k t),
        ap messages_of cut
            ∙ ap₂ (λ l ls. l ∷ ls) (sym (stripped_line c.input n (omega (arith, short))))
                (ap (λ x. messages_of (lines_of x)) same ∙ l),
        behind ∙ ap (λ x. partial_of x) same ∙ p,
      )

  -- What leaves the input alone.
  same_bytes :
      (c c' d : IpcClient) (ctx ctx' : Ctx) (more : Bytes) (es : List (Other sockets.World Ctx))
      (e : List (Other sockets.World Ctx))
      → c'.input ≡ c.input
      → ((ms : List Bytes) → Treats c' ctx ms es d ctx' → Treats c ctx ms e d ctx')
      → Follows c' ctx (c'.input ++ more) es d ctx'
      → Follows c ctx (c.input ++ more) e d ctx'
  unfolding Follows
  same_bytes c c' d ctx ctx' more es e i step (ms, t, l, p) =
      let b : c.input ++ more ≡ c'.input ++ more = ap (λ x. x ++ more) (sym i) in
      (ms, step ms t, ap (λ x. messages_of (lines_of x)) b ∙ l, ap (λ x. partial_of x) b ∙ p)

  -- However the bytes that a client sends are cut into reads, and whatever is written to it,
  -- queued for it or done for others in between, the client goes through what it would if each
  -- whole message were given to process_message, with the same writing and queueing; the messages
  -- that are so treated, followed by those of the lines still in the buffer, are the lines of all
  -- the bytes, in their order and less a final CR, and the buffer holds the unfinished line behind
  -- them.
  pub Serves-lines :
      {c d : IpcClient} {ctx ctx' : Ctx} {rs : List Bytes} {es : List (Other sockets.World Ctx)}
      → Serves c ctx rs es d ctx'
      → Follows c ctx (c.input ++ joined rs) es d ctx'
  unfolding Follows
  Serves-lines {c} idle = (
    [],
    rest,
    ap (λ x. messages_of (lines_of x)) (append-nil c.input),
    ap (λ x. partial_of x) (append-nil c.input),
  )
  Serves-lines {c} {d} {ctx} {ctx'} (reads {c' = c'} {bytes = bytes} {rs = rs} {es = es} h s) =
      let e : c.input ++ (bytes ++ joined rs) ≡ c'.input ++ joined rs =
        sym (append_assoc c.input bytes (joined rs))
        ∙ ap (λ x. x ++ joined rs) (read_input c c' bytes h) in
      let (ms, t, l, p) = Serves-lines s in
      (
        ms,
        buffers c'.input (subst (λ x. Treats x ctx ms es d ctx') (sym (read_alone c c' bytes h)) t),
        ap (λ x. messages_of (lines_of x)) e ∙ l,
        ap (λ x. partial_of x) e ∙ p,
      )
  Serves-lines {c} {d} {ctx} {ctx'} {rs} {es} (treats {c' = c'} {ctx' = mid} h s) =
      treated-Follows c c' d ctx mid ctx' (joined rs) es (Treated-cases c c' ctx mid h)
        (Serves-lines s)
  Serves-lines {c} {d} {ctx} {ctx'} {rs} (writes {c' = c'} {es = es} fuel fd w w' h s) =
      same_bytes c c' d ctx ctx' (joined rs) es (wrote fuel fd w w' ∷ es)
        (subst (Keeps c.input) h (write-Keeps fuel fd c w)) (λ ms t. Treats.writes fuel fd w w' h t)
        (Serves-lines s)
  Serves-lines {c} {d} {ctx} {ctx'} {rs} (appends {c' = c'} {es = es} text h s) =
      same_bytes c c' d ctx ctx' (joined rs) es (queued text ∷ es) (append_input c c' text h)
        (λ ms t. Treats.appends text h t) (Serves-lines s)
  Serves-lines (others ctx' s) =
      let (ms, t, l, p) = Serves-lines s in (ms, Treats.others ctx' t, l, p)
