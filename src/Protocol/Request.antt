-- ===== src/Protocol/Request.antt =====
-- The requests that `protocol_build_request` (src/aml/protocol.c) builds.
use sweet_dawn.Base.{
  ℕ, zero, suc, ◌+◌, ◌-◌, ◌%◌, ◌≤◌, some, [], ◌∷◌, ◌++◌, ◌≡◌, ◌↔◌, refl, sym, ◌∙◌, ap, ap₂, arith,
  length, get_or, take, drop, length-append, append_assoc, subst, bit_xor, bit_xor_self,
  take-length-append,
}
use sweet_dawn.Protocol.{
  Bytes, max_frame_size, extracted, checksum_of, covered, request_frame, build_request, parser_next,
}
use sweet_dawn.Protocol.Extract.{IsFrame, next_frame}

-- A read behind what was put in front.
get_or-append_right :
    (xs ys : Bytes) (k i d : ℕ) → k ≡ length xs + i → get_or (xs ++ ys) k d ≡ get_or ys i d
get_or-append_right [] ys k i d h = ap (λ j. get_or ys j d) (omega arith)
get_or-append_right (x ∷ xs) ys zero i d h = absurd (omega arith)
get_or-append_right (x ∷ xs) ys (suc k) i d h = get_or-append_right xs ys k i d (omega arith)

checksum-append :
    (acc : ℕ) (xs ys : Bytes) → checksum_of acc (xs ++ ys) ≡ checksum_of (checksum_of acc xs) ys
unfolding checksum_of
checksum-append acc [] ys = refl
checksum-append acc (x ∷ xs) ys = checksum-append (bit_xor acc x) xs ys

length-request_frame :
    (code : ℕ) (arguments : Bytes) → length (request_frame code arguments) ≡ length arguments + 12
unfolding request_frame
length-request_frame code arguments = omega (
  arith,
  length-append arguments (checksum_of 0 (covered code arguments) ∷ 0x55 ∷ 0x0D ∷ 0x0A ∷ []),
)

build-request_frame :
    (code : ℕ) (arguments f : Bytes) (capacity : ℕ)
    → build_request code arguments capacity ≡ some f
    → (request_frame code arguments ≡ f)
      × (length arguments ≤ 249)
      × (length arguments + 12 ≤ capacity)
unfolding build_request
build-request_frame code arguments f capacity h = ground arith

-- The last four bytes stand behind the arguments.
request_tail :
    (code : ℕ) (arguments : Bytes) (k i : ℕ)
    → k ≡ length arguments + 8 + i
    → get_or (request_frame code arguments) k 0
      ≡ get_or (checksum_of 0 (covered code arguments) ∷ 0x55 ∷ 0x0D ∷ 0x0A ∷ []) i 0
unfolding request_frame
request_tail code arguments k i h =
    get_or-append_right
      (0xFE
        ∷ 0xEF
        ∷ 0x0A
        ∷ (length arguments + 4 + 8 - 4) % 256
        ∷ 0xAB
        ∷ 0xAA
        ∷ covered code arguments)
      (checksum_of 0 (covered code arguments) ∷ 0x55 ∷ 0x0D ∷ 0x0A ∷ []) k i 0 (omega arith)

request_head :
    (code : ℕ) (arguments : Bytes)
    → (get_or (request_frame code arguments) 0 0 ≡ 0xFE)
      × (get_or (request_frame code arguments) 1 0 ≡ 0xEF)
      × (get_or (request_frame code arguments) 2 0 ≡ 0x0A)
      × (get_or (request_frame code arguments) 3 0 ≡ (length arguments + 8) % 256)
      × (get_or (request_frame code arguments) 4 0 ≡ 0xAB)
      × (get_or (request_frame code arguments) 5 0 ≡ 0xAA)
unfolding request_frame
request_head code arguments = (refl, refl, refl, omega arith, refl, refl)

request_frame-IsFrame :
    (code : ℕ) (arguments : Bytes) → length arguments ≤ 247 → IsFrame (request_frame code arguments)
request_frame-IsFrame code arguments h = ground (
  arith,
  length-request_frame code arguments,
  request_head code arguments,
  request_tail code arguments (length (request_frame code arguments) - 3) 1,
  request_tail code arguments (length (request_frame code arguments) - 2) 2,
  request_tail code arguments (length (request_frame code arguments) - 1) 3,
)

-- A built request is a well-formed frame exactly when it has at most 247 bytes of arguments.
pub build-IsFrame_iff :
    (code capacity : ℕ) (arguments f : Bytes)
    → build_request code arguments capacity ≡ some f
    → IsFrame f ↔ (length arguments ≤ 247)
build-IsFrame_iff code capacity arguments f h =
    let (same, short, fits) = build-request_frame code arguments f capacity h in
    (
      λ v. ground (
        arith,
        v.declared,
        request_head code arguments,
        length-request_frame code arguments,
        same,
      ),
      λ le. subst IsFrame same (request_frame-IsFrame code arguments le),
    )

-- A request built for an output of 259 bytes is extracted again, whole, from a parser that holds
-- it before any other bytes.
pub next-build :
    (code : ℕ) (arguments f q : Bytes)
    → build_request code arguments max_frame_size ≡ some f
    → parser_next max_frame_size (f ++ q) ≡ some (extracted f q)
next-build code arguments f q h =
    let (same, short, fits) = build-request_frame code arguments f max_frame_size h in
    next_frame max_frame_size [] f q tt
      (subst IsFrame same (request_frame-IsFrame code arguments (omega arith)))
      (subst (λ (x : Bytes). length x ≤ max_frame_size) same
        (omega (arith, length-request_frame code arguments)))

-- The arguments, and the bytes that the checksum closes, where a request holds them.
request_arguments :
    (code : ℕ) (arguments : Bytes)
    → take (length arguments) (drop 8 (request_frame code arguments)) ≡ arguments
unfolding request_frame
request_arguments code arguments =
    take-length-append arguments (checksum_of 0 (covered code arguments) ∷ 0x55 ∷ 0x0D ∷ 0x0A ∷ [])

request_checked :
    (code : ℕ) (arguments : Bytes)
    → take (length arguments + 3) (drop 6 (request_frame code arguments))
      ≡ covered code arguments ++ (checksum_of 0 (covered code arguments) ∷ [])
unfolding request_frame
request_checked code arguments =
    let sum = checksum_of 0 (covered code arguments) in
    let closed : Bytes = covered code arguments ++ (sum ∷ []) in
    let count : length arguments + 3 ≡ length closed =
      omega (arith, length-append (covered code arguments) (sum ∷ [])) in
    ap₂ take count
      (sym (append_assoc (covered code arguments) (sum ∷ []) (0x55 ∷ 0x0D ∷ 0x0A ∷ [])))
    ∙ take-length-append closed (0x55 ∷ 0x0D ∷ 0x0A ∷ [])

checksum_closes : (xs : Bytes) → checksum_of 0 (xs ++ (checksum_of 0 xs ∷ [])) ≡ 0
unfolding checksum_of
checksum_closes xs = checksum-append 0 xs (checksum_of 0 xs ∷ []) ∙ bit_xor_self (checksum_of 0 xs)

-- A built request holds its arguments from byte 8 on, the code in byte 7, the number of arguments
-- and three in byte 6, and a checksum with which the bytes from the sixth to it cancel out.
pub build_carries :
    (code capacity : ℕ) (arguments f : Bytes)
    → build_request code arguments capacity ≡ some f
    → (take (length arguments) (drop 8 f) ≡ arguments)
      × (get_or f 7 0 ≡ code)
      × (get_or f 6 0 ≡ length arguments + 3)
      × (checksum_of 0 (take (length arguments + 3) (drop 6 f)) ≡ 0)
unfolding request_frame
build_carries code capacity arguments f h =
    let (same, short, fits) = build-request_frame code arguments f capacity h in
    (
      subst (λ x. take (length arguments) (drop 8 x) ≡ arguments) same
          (request_arguments code arguments),
      subst (λ x. get_or x 7 0 ≡ code) same refl,
      subst (λ x. get_or x 6 0 ≡ length arguments + 3) same (omega arith),
      subst (λ x. checksum_of 0 (take (length arguments + 3) (drop 6 x)) ≡ 0) same
          (rw request_checked (checksum_closes (covered code arguments))),
    )
