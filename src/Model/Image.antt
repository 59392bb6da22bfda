-- ===== src/Model/Image.antt =====
-- The bytes of a model file as crates/promptboot-core/src/model.rs reads them, its frozen tables, and
-- its loops.
use promptboot.Prelude.{ℕ, zero, suc, ◌+◌, ◌-◌, ◌*◌, ◌^◌, ◌&&◌, List, [], ◌∷◌, leb, if◌then◌else◌}

-- `&'bytes [u8]`: its address, its length and its bytes. An index at or past the length panics.
pub record Image : Type 0 where
  pub address : ℕ
  pub byte_count : ℕ
  pub byte : ℕ → ℕ

-- A slice that is lent out of the image, by its bounds.
pub record Slice : Type 0 where
  pub start : ℕ
  pub stop : ℕ

-- `count` bytes from `start`.
unfoldable pub read : Image → ℕ → ℕ → List ℕ
read m start zero = []
read m start (suc count) = m.byte start ∷ read m (start + 1) count

abbrev pub content : Image → Slice → List ℕ
content m s = read m s.start (s.stop - s.start)

unfoldable pub u16_at : Image → ℕ → ℕ
u16_at m at = m.byte at + m.byte (at + 1) * 2 ^ 8

unfoldable pub u32_at : Image → ℕ → ℕ
u32_at m at =
    m.byte at + m.byte (at + 1) * 2 ^ 8 + m.byte (at + 2) * 2 ^ 16 + m.byte (at + 3) * 2 ^ 24

unfoldable pub u64_at : Image → ℕ → ℕ
u64_at m at = u32_at m at + u32_at m (at + 4) * 2 ^ 32

abbrev pub model_bytes : ℕ
model_bytes = 426762944

abbrev pub vocab_count : ℕ
vocab_count = 151936

abbrev pub merge_count : ℕ
merge_count = 151387

abbrev pub tensor_count : ℕ
tensor_count = 291

-- `CONTEXT_LIMIT` of crates/promptboot-core/src/inference.rs
abbrev pub context_limit : ℕ
context_limit = 32768

pub record Section : Type 0 where
  pub offset : ℕ
  pub length : ℕ

abbrev pub section_offsets : List ℕ
section_offsets = 704 ∷ 608512 ∷ 1981312 ∷ 2133248 ∷ 3949952 ∷ 3952512 ∷ 3980480 ∷ []

abbrev pub section_lengths : List ℕ
section_lengths = 607748 ∷ 1372758 ∷ 151936 ∷ 1816644 ∷ 2509 ∷ 27936 ∷ 422782464 ∷ []

abbrev pub section_counts : List ℕ
section_counts = 151937 ∷ 1372758 ∷ 151936 ∷ 151387 ∷ 2509 ∷ 291 ∷ 422782464 ∷ []

abbrev pub section_types : List ℕ
section_types = 1 ∷ 2 ∷ 2 ∷ 3 ∷ 2 ∷ 4 ∷ 2 ∷ []

-- A digit by its ASCII code.
unfoldable pub hex_nibble : ℕ → ℕ
hex_nibble byte =
    if leb 48 byte && leb byte 57
    then byte - 48
    else if leb 97 byte && leb byte 102
    then byte - 97 + 10
    else 0

unfoldable pub hex32 : List ℕ → List ℕ
hex32 (high ∷ low ∷ digits) = (hex_nibble high * 2 ^ 4 + hex_nibble low) ∷ hex32 digits
hex32 digits = []

unfoldable pub source_hash : List ℕ
source_hash = hex32 (
    55 ∷ 54 ∷ 55 ∷ 49 ∷ 99 ∷ 48 ∷ 99 ∷ 51 ∷ 48 ∷ 52 ∷ 101 ∷ 54 ∷ 99 ∷ 101 ∷ 53 ∷ 97 ∷ 55 ∷ 102 ∷ 99
    ∷ 53 ∷ 55 ∷ 55 ∷ 98 ∷ 99 ∷ 98 ∷ 49 ∷ 50 ∷ 97 ∷ 98 ∷ 97 ∷ 48 ∷ 49 ∷ 101 ∷ 50 ∷ 99 ∷ 49 ∷ 53 ∷ 53
    ∷ 99 ∷ 99 ∷ 50 ∷ 101 ∷ 102 ∷ 100 ∷ 50 ∷ 57 ∷ 98 ∷ 50 ∷ 50 ∷ 49 ∷ 51 ∷ 99 ∷ 57 ∷ 53 ∷ 98 ∷ 49
    ∷ 56 ∷ 101 ∷ 100 ∷ 97 ∷ 102 ∷ 54 ∷ 101 ∷ 100 ∷ [])

unfoldable pub token_digest : List ℕ
token_digest = hex32 (
    56 ∷ 54 ∷ 53 ∷ 54 ∷ 101 ∷ 48 ∷ 55 ∷ 57 ∷ 52 ∷ 55 ∷ 51 ∷ 98 ∷ 56 ∷ 53 ∷ 55 ∷ 55 ∷ 50 ∷ 57 ∷ 99
    ∷ 102 ∷ 52 ∷ 52 ∷ 52 ∷ 102 ∷ 55 ∷ 55 ∷ 50 ∷ 51 ∷ 54 ∷ 56 ∷ 99 ∷ 100 ∷ 54 ∷ 52 ∷ 50 ∷ 56 ∷ 100
    ∷ 99 ∷ 100 ∷ 54 ∷ 52 ∷ 53 ∷ 49 ∷ 51 ∷ 100 ∷ 52 ∷ 54 ∷ 97 ∷ 97 ∷ 99 ∷ 51 ∷ 102 ∷ 54 ∷ 57 ∷ 52
    ∷ 98 ∷ 50 ∷ 102 ∷ 54 ∷ 57 ∷ 53 ∷ 50 ∷ 56 ∷ 50 ∷ [])

unfoldable pub type_digest : List ℕ
type_digest = hex32 (
    102 ∷ 51 ∷ 55 ∷ 54 ∷ 48 ∷ 101 ∷ 55 ∷ 102 ∷ 98 ∷ 102 ∷ 99 ∷ 57 ∷ 54 ∷ 100 ∷ 51 ∷ 56 ∷ 56 ∷ 102
    ∷ 53 ∷ 98 ∷ 56 ∷ 100 ∷ 55 ∷ 99 ∷ 100 ∷ 54 ∷ 55 ∷ 99 ∷ 53 ∷ 99 ∷ 100 ∷ 52 ∷ 54 ∷ 53 ∷ 51 ∷ 53
    ∷ 99 ∷ 56 ∷ 54 ∷ 56 ∷ 50 ∷ 102 ∷ 102 ∷ 56 ∷ 52 ∷ 101 ∷ 98 ∷ 99 ∷ 57 ∷ 56 ∷ 49 ∷ 55 ∷ 99 ∷ 100
    ∷ 97 ∷ 54 ∷ 49 ∷ 98 ∷ 99 ∷ 57 ∷ 56 ∷ 102 ∷ 52 ∷ 100 ∷ [])

unfoldable pub merge_digest : List ℕ
merge_digest = hex32 (
    57 ∷ 48 ∷ 55 ∷ 57 ∷ 56 ∷ 49 ∷ 97 ∷ 51 ∷ 49 ∷ 51 ∷ 97 ∷ 54 ∷ 101 ∷ 55 ∷ 56 ∷ 101 ∷ 102 ∷ 50 ∷ 50
    ∷ 50 ∷ 51 ∷ 50 ∷ 50 ∷ 57 ∷ 48 ∷ 52 ∷ 50 ∷ 54 ∷ 55 ∷ 52 ∷ 97 ∷ 51 ∷ 57 ∷ 99 ∷ 100 ∷ 52 ∷ 57 ∷ 57
    ∷ 53 ∷ 101 ∷ 101 ∷ 52 ∷ 99 ∷ 52 ∷ 101 ∷ 100 ∷ 52 ∷ 48 ∷ 97 ∷ 51 ∷ 49 ∷ 98 ∷ 53 ∷ 56 ∷ 55 ∷ 53
    ∷ 52 ∷ 101 ∷ 56 ∷ 50 ∷ 99 ∷ 50 ∷ 54 ∷ 99 ∷ [])
