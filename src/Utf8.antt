-- ===== src/Utf8.antt =====
-- `Utf8Decoder` of src/repl_contract.rs: bytes of UTF-8 come in pieces, and go out as UTF-16; what a
-- piece leaves unfinished is carried to the next one.
pub mod Scalars
pub mod Reading
pub mod Decoding
pub mod Pieces
pub mod Encoded
mod Tests
use promptboot.Prelude.{
  ℕ, zero, suc, ◌+◌, ◌-◌, ◌*◌, ◌/◌, ◌^◌, Bool, true, false, not, ◌&&◌, ◌||◌, List, [], ◌∷◌, ◌++◌,
  Option, none, some, bit_and, bit_or, ltb, leb, ◌==◌, if◌then◌else◌, length, take, drop, get_or,
  replicate, Result, ok, err, ◌>>=◌, ◌>>◌, fail_if,
}

pub data Utf8Error : Type 0 where
  invalid incomplete nul capacity : Utf8Error

pub record Utf8Decoder : Type 0 where
  pub carry : List ℕ
  pub carry_len : ℕ

unfoldable pub new : Utf8Decoder
new = record { carry = 0 ∷ 0 ∷ 0 ∷ []; carry_len = 0 }

-- `reset`, on whichever decoder.
abbrev pub reset : Utf8Decoder → Utf8Decoder
reset d = record { carry = 0 ∷ 0 ∷ 0 ∷ []; carry_len = 0 }

unfoldable pub finish : Utf8Decoder → Result Utf8Error (Unit {0})
finish d = if d.carry_len == 0 then ok tt else err incomplete

-- `self.carry[..old_carry]`
abbrev pub carried : Utf8Decoder → List ℕ
carried d = take d.carry_len d.carry

-- The first `match` of the loop.
unfoldable pub classify : ℕ → Result Utf8Error ℕ
classify first =
    if first == 0
    then err nul
    else if leb first 0x7f
    then ok 1
    else if leb 0xc2 first && leb first 0xdf
    then ok 2
    else if leb 0xe0 first && leb first 0xef
    then ok 3
    else if leb 0xf0 first && leb first 0xf4
    then ok 4
    else err invalid

-- `byte & 0xc0 == 0x80`
unfoldable pub is_continuation : ℕ → Bool
is_continuation byte = bit_and byte 0xc0 == 0x80

abbrev pub all_continuations : List ℕ → Bool
all_continuations [] = true
all_continuations (byte ∷ bytes) = is_continuation byte && all_continuations bytes

-- The tests that `first` makes of `second` for three bytes, and for four.
abbrev pub bad_three : ℕ → ℕ → Bool
bad_three first second = first == 0xe0 && ltb second 0xa0 || first == 0xed && leb 0xa0 second

abbrev pub bad_four : ℕ → ℕ → Bool
bad_four first second = first == 0xf0 && ltb second 0x90 || first == 0xf4 && leb 0x90 second

-- The early test on the second byte, where there is one.
unfoldable pub bad_second : ℕ → List ℕ → Bool
bad_second first [] = false
bad_second first (second ∷ tail) =
    not (is_continuation second) || (bad_three first second || bad_four first second)

-- The second `match`, on the bytes behind the first one; `classify` gives no other number than
-- those from one to four.
unfoldable pub point_of : ℕ → ℕ → List ℕ → Result Utf8Error ℕ
point_of needed first tail =
    let b1 = get_or tail 0 0 in
    let b2 = get_or tail 1 0 in
    let b3 = get_or tail 2 0 in
    if needed == 1
    then ok first
    else if needed == 2
    then ok (bit_or (bit_and first 0x1f * 2 ^ 6) (bit_and b1 0x3f))
    else if needed == 3
    then (if bad_three first b1
        then err invalid
        else ok (
            bit_or (bit_or (bit_and first 0x0f * 2 ^ 12) (bit_and b1 0x3f * 2 ^ 6))
              (bit_and b2 0x3f)))
    else (if bad_four first b1
        then err invalid
        else ok (
            bit_or
              (bit_or (bit_or (bit_and first 7 * 2 ^ 18) (bit_and b1 0x3f * 2 ^ 12))
                (bit_and b2 0x3f * 2 ^ 6))
              (bit_and b3 0x3f)))

-- The last test on the code point.
unfoldable pub checked_point : ℕ → Result Utf8Error ℕ
checked_point point =
    if point == 0 || (leb 0xd800 point && leb point 0xdfff || ltb 0x10ffff point)
    then err (if point == 0 then nul else invalid)
    else ok point

-- One turn of the loop up to the code point: the point with its number of bytes, or none where the
-- bytes end before it does.
unfoldable pub read_point : ℕ → List ℕ → Result Utf8Error (Option (ℕ × ℕ))
read_point first tail = do
  needed ← classify first
  fail_if (leb 2 needed && bad_second first tail) invalid
  if ltb (1 + length tail) needed
      then (fail_if (not (all_continuations tail)) invalid >> ok none)
      else (do
        fail_if (not (all_continuations (take (needed - 1) tail))) invalid
        point ← point_of needed first tail
        checked ← checked_point point
        ok (some (checked, needed)))

-- The units of a code point go into `staged`, which has room for 132.
unfoldable pub stage : List ℕ → ℕ → Result Utf8Error (List ℕ)
stage units point =
    if leb point 0xffff
    then (if length units == 132 then err capacity else ok (units ++ point ∷ []))
    else let value = point - 0x10000 in
      if ltb 132 (length units + 2)
      then err capacity
      else ok (units ++ (bit_or 0xd800 (value / 2 ^ 10) ∷ bit_or 0xdc00 (bit_and value 0x3ff) ∷ []))

-- The loop of `push`: the units, and the bytes to carry. Each turn takes a byte at least, so their
-- number is enough fuel.
unfoldable pub decode : ℕ → List ℕ → List ℕ → Result Utf8Error (List ℕ × List ℕ)
decode fuel [] units = ok (units, [])
decode zero (first ∷ tail) units = ok (units, first ∷ tail)
decode (suc fuel) (first ∷ tail) units = read_point first tail >>= λ read. elim read [
  | none ↦ ok (units, first ∷ tail)
  | some (point, needed) ↦
      stage units point >>= λ staged. decode fuel (drop (needed - 1) tail) staged
]

-- The carry is padded with zeros to three bytes.
abbrev pub carrying : List ℕ → Utf8Decoder
carrying rest = record { carry = rest ++ replicate (3 - length rest) 0; carry_len = length rest }

-- `push`, into an output of `room` units: the units written and the new decoder.
unfoldable pub push : Utf8Decoder → List ℕ → ℕ → Result Utf8Error (List ℕ × Utf8Decoder)
push d piece room = do
  fail_if (ltb 128 (length piece)) capacity
  let bytes = carried d ++ piece
  decoded ← decode (length bytes) bytes []
  fail_if (ltb room (length decoded.0)) capacity
  ok (decoded.0, carrying decoded.1)

-- Pieces in their order, with all their units.
unfoldable pub push_all : Utf8Decoder → List (List ℕ) → ℕ → Result Utf8Error (List ℕ × Utf8Decoder)
push_all d [] room = ok ([], d)
push_all d (piece ∷ pieces) room = push d piece room >>= λ first.
    push_all first.1 pieces room >>= λ rest. ok (first.0 ++ rest.0, rest.1)
