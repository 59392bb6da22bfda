-- ===== src/Tokenizer/Alphabet.antt =====
-- The alphabet in which crates/promptboot-core/src/tokenizer.rs spells bytes as characters.
pub mod Injective
use promptboot.Prelude.{
  ℕ, zero, suc, ◌+◌, ◌/◌, ◌%◌, ◌^◌, Bool, ◌&&◌, ◌||◌, List, [], ◌∷◌, bit_and, bit_or, leb, ltb,
  if◌then◌else◌,
}

-- The bytes that stand for themselves.
unfoldable pub stands_for_itself : ℕ → Bool
stands_for_itself byte =
    leb 0x21 byte && leb byte 0x7e
    || (leb 0xa1 byte && leb byte 0xac || leb 0xae byte && leb byte 0xff)

-- The loop of `gpt2_codepoint`: how many of the next candidates do not.
unfoldable pub ordinal_from : ℕ → ℕ → ℕ
ordinal_from candidate zero = 0
ordinal_from candidate (suc rounds) =
    (if stands_for_itself candidate then 0 else 1) + ordinal_from (candidate + 1) rounds

unfoldable pub gpt2_codepoint : ℕ → ℕ
gpt2_codepoint byte = if stands_for_itself byte then byte else 256 + ordinal_from 0 byte

-- The bytes that `encoded_byte` writes, which are the UTF-8 of the code point.
unfoldable pub encoded_byte : ℕ → List ℕ
encoded_byte byte =
    let point = gpt2_codepoint byte in
    if ltb point 0x80
    then point ∷ []
    else bit_or 0xc0 (point / 2 ^ 6 % 256) ∷ bit_or 0x80 (bit_and point 63) ∷ []
