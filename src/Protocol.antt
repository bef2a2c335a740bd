-- ===== src/Protocol.antt =====
-- The frames of the AML005 (src/aml/protocol.c and protocol.h): building a request, and the
-- receive buffer from which complete frames are extracted. A byte is a number, the `length`
-- first bytes of the buffer `data` are a list, and the return codes 0 and -1 are an Option.
pub mod Scan
pub mod Extract
pub mod Stream
pub mod Reads
pub mod Request
use sweet_dawn.Base.{
  ℕ, zero, suc, ◌+◌, ◌-◌, ◌%◌, ◌^◌, bit_xor, not, ◌&&◌, ◌||◌, Option, none, some, List, [], ◌∷◌,
  ◌++◌, ltb, leb, ◌==◌, if◌then◌else◌, length, get_or, take, drop,
}

abbrev pub Bytes : Type 0
Bytes = List ℕ

-- `AML_PROTOCOL_MAX_FRAME_SIZE` and `AML_PROTOCOL_BUFFER_SIZE`
abbrev pub max_frame_size : ℕ
max_frame_size = 259

abbrev pub buffer_size : ℕ
buffer_size = 1024

-- `size_t` subtraction wraps.
abbrev pub sub_size : ℕ → ℕ → ℕ
sub_size a b = (a + 2 ^ 64 - b) % 2 ^ 64

-- The loop `checksum ^= output[i]`.
unfoldable pub checksum_of : ℕ → Bytes → ℕ
checksum_of acc [] = acc
checksum_of acc (b ∷ bs) = checksum_of (bit_xor acc b) bs

-- The bytes from the internal length to the last argument, which the checksum covers.
abbrev pub covered : ℕ → Bytes → Bytes
covered code arguments = (length arguments + 4 - 1) % 256 ∷ code ∷ arguments

-- `output[0 .. frame_length)`, written in order.
unfoldable pub request_frame : ℕ → Bytes → Bytes
request_frame code arguments =
    0xFE
    ∷ 0xEF
    ∷ 0x0A
    ∷ (length arguments + 4 + 8 - 4) % 256
    ∷ 0xAB
    ∷ 0xAA
    ∷ (covered code arguments ++ (checksum_of 0 (covered code arguments) ∷ 0x55 ∷ 0x0D ∷ 0x0A ∷ []))

-- `protocol_build_request`, at pointers that are not null; `none` is -1.
unfoldable pub build_request : ℕ → Bytes → ℕ → Option Bytes
build_request code arguments capacity =
    if ltb (2 ^ 64 - 1 - 4) (length arguments)
    then none
    else if ltb 255 (length arguments + 4 - 1)
    then none
    else if ltb (255 - 2) (length arguments + 4)
    then none
    else if ltb (2 ^ 64 - 1 - 8) (length arguments + 4)
    then none
    else if ltb capacity (length arguments + 4 + 8)
    then none
    else some (request_frame code arguments)

-- `protocol_parser_init`
abbrev pub parser_init : Bytes
parser_init = []

-- `protocol_parser_feed`; `none` is -1, which leaves the parser as it was.
unfoldable pub parser_feed : Bytes → Bytes → Option Bytes
parser_feed parser bytes =
    if ltb (sub_size buffer_size (length parser)) (length bytes)
    then none
    else if ltb 0 (length bytes)
    then some (parser ++ bytes)
    else some parser

-- `protocol_parser_consume`
unfoldable pub parser_consume : Bytes → ℕ → Bytes
parser_consume parser count = if leb (length parser) count then [] else drop count parser

-- The search loop of `protocol_parser_next`: where `i` stands when it ends.
pub find_start : Bytes → ℕ
find_start [] = 0
find_start (a ∷ []) = 0
find_start (a ∷ b ∷ rest) =
    let further = find_start (b ∷ rest) in if a == 0xFE && b == 0xEF then 0 else suc further

-- What the checks say of a candidate that begins with FE EF.
pub data Verdict : Type 0 where
  wait reject no_room : Verdict
  accept : ℕ → Verdict

-- Bytes 4 and 5: AB AA in a request, AB BB in a response.
abbrev pub expected_header : ℕ → ℕ
expected_header type = if type == 0x0A then 0xAA else 0xBB

-- The checks once `frame_length` is known.
pub check_end : ℕ → ℕ → Bytes → Verdict
check_end capacity frame_length p =
    if ltb frame_length 12 || ltb max_frame_size frame_length
    then reject
    else if ltb (length p) frame_length
    then wait
    else if not (get_or p (frame_length - 3) 0 == 0x55)
        || not (get_or p (frame_length - 2) 0 == 0x0D)
        || not (get_or p (frame_length - 1) 0 == 0x0A)
    then reject
    else if ltb capacity frame_length
    then no_room
    else accept frame_length

pub candidate : ℕ → Bytes → Verdict
candidate capacity p =
    if ltb (length p) 4
    then wait
    else if not (get_or p 2 0 == 0x0A) && not (get_or p 2 0 == 0x0C)
    then reject
    else if not (leb 6 (length p))
    then wait
    else if not (get_or p 4 0 == 0xAB) || not (get_or p 5 0 == expected_header (get_or p 2 0))
    then reject
    else check_end capacity (get_or p 3 0 + 4) p

-- Returns 1, 0 and -1 of `protocol_parser_next`, with the parser that is left.
pub data Next : Type 0 where
  extracted : Bytes → Bytes → Next
  waiting : Bytes → Next
  overflow : Bytes → Next

-- What is kept when the buffer holds no FE EF: a final FE, which EF may yet follow.
abbrev pub keep_last : Bytes → Bytes
keep_last p = if get_or p (length p - 1) 0 == 0xFE then 0xFE ∷ [] else []

-- `protocol_parser_next`. Its call of itself takes one unit of fuel; `none` is out of fuel.
next_fuel : ℕ → ℕ → Bytes → Option Next
next_fuel zero capacity p = none
next_fuel (suc fuel) capacity p =
    let i = find_start p in
    let q = if ltb 0 i then parser_consume p i else p in
    let again = next_fuel fuel capacity (parser_consume q 1) in
    if length p == 0
    then some (waiting p)
    else if leb (length p) (i + 1)
    then some (waiting (keep_last p))
    else elim (candidate capacity q) [
      | wait ↦ some (waiting q)
      | reject ↦ again
      | no_room ↦ some (overflow q)
      | accept n ↦ some (extracted (take n q) (parser_consume q n))
    ]

-- The buffer shrinks at each call, so its length and one is enough fuel.
unfoldable pub parser_next : ℕ → Bytes → Option Next
unfolding next_fuel find_start candidate check_end parser_consume
parser_next capacity p = next_fuel (length p + 1) capacity p
