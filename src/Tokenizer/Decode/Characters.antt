-- ===== src/Tokenizer/Decode/Characters.antt =====
-- The characters in which crates/promptboot-core/src/tokenizer.rs spells bytes, as UTF-8.
use promptboot.Prelude.{
  length-append, subst, drop, ℕ, zero, suc, ◌+◌, ◌-◌, ◌*◌, ◌/◌, ◌%◌, ◌^◌, ◌≤◌, ◌<◌, ◌≡◌, refl, ap,
  ◌∙◌, Bool, true, false, ◌&&◌, ◌||◌, List, [], ◌∷◌, ◌++◌, map, none, bit_and, bit_or, ltb, leb,
  ◌==◌, length, arith,
}
use native.Mathlib.Decide.{dec_lt}
use promptboot.Prelude.Bits.{everywhere, everywhere_sound}
use promptboot.Utf8.{bad_four, bad_three, is_continuation, point_of, bad_second}
use promptboot.Model.Text.{lead_width, scalar_width, utf8_error}
use promptboot.Tokenizer.Alphabet.{ordinal_from, stands_for_itself, gpt2_codepoint, encoded_byte}
use promptboot.Tokenizer.Encode.Spelling.{Bytes, spelled}
use promptboot.Tokenizer.Decode.{read_char, chars}

abbrev lead : ℕ → ℕ
lead byte = bit_or 0xc0 (gpt2_codepoint byte / 2 ^ 6 % 256)

abbrev trail : ℕ → ℕ
trail byte = bit_or 0x80 (bit_and (gpt2_codepoint byte) 63)

-- The two bytes of a character that has two, tested.
abbrev well_formed : ℕ → Bool
well_formed byte =
    (leb 0xc2 (lead byte) && leb (lead byte) 0xdf)
    && is_continuation (trail byte)
    && (bit_or (bit_and (lead byte) 0x1f * 2 ^ 6) (bit_and (trail byte) 0x3f)
        == gpt2_codepoint byte)

abbrev wide_or_well_formed : ℕ → Bool
wide_or_well_formed byte = ltb (gpt2_codepoint byte) 0x80 || well_formed byte

all_well_formed : everywhere wide_or_well_formed 256 ≡ true
unfolding everywhere gpt2_codepoint stands_for_itself ordinal_from is_continuation
all_well_formed = refl

encoded_byte-narrow :
    (byte : ℕ) → gpt2_codepoint byte < 0x80 → encoded_byte byte ≡ gpt2_codepoint byte ∷ []
unfolding encoded_byte
encoded_byte-narrow byte l =
    let e : ltb (gpt2_codepoint byte) 0x80 ≡ true = ground arith in rw e refl

encoded_byte-wide :
    (byte : ℕ) → ¬ (gpt2_codepoint byte < 0x80) → encoded_byte byte ≡ lead byte ∷ trail byte ∷ []
unfolding encoded_byte
encoded_byte-wide byte n =
    let e : ltb (gpt2_codepoint byte) 0x80 ≡ false = ground arith in rw e refl

-- A character of one byte, and one of two.
lead_width-one : (first : ℕ) → first < 0x80 → lead_width first ≡ 1
unfolding lead_width
lead_width-one first l = ground arith

lead_width-two : (first : ℕ) → 0xc2 ≤ first → first ≤ 0xdf → lead_width first ≡ 2
unfolding lead_width
lead_width-two first l h = ground arith

chars-one :
    (fuel first : ℕ) (rest : List ℕ)
    → first < 0x80
    → chars (suc fuel) (first ∷ rest) ≡ first ∷ chars fuel rest
unfolding chars point_of
chars-one fuel first rest l =
    ap (λ (w : ℕ). read_char (point_of w first rest) (chars fuel (drop (w - 1) rest)))
      (lead_width-one first l)

chars-two :
    (fuel first second : ℕ) (rest : List ℕ)
    → 0xc2 ≤ first
    → first ≤ 0xdf
    → chars (suc fuel) (first ∷ second ∷ rest)
      ≡ bit_or (bit_and first 0x1f * 2 ^ 6) (bit_and second 0x3f) ∷ chars fuel rest
unfolding chars point_of
chars-two fuel first second rest l h =
    ap
      (λ (w : ℕ).
        read_char (point_of w first (second ∷ rest)) (chars fuel (drop (w - 1) (second ∷ rest))))
      (lead_width-two first l h)

scalar_width-one : (first : ℕ) (rest : List ℕ) → first < 0x80 → scalar_width first rest ≡ 1
unfolding scalar_width
scalar_width-one first rest l =
    let c : ltb (1 + length rest) 1 ≡ false = ground arith in rw (lead_width-one first l, c) refl

scalar_width-two :
    (first second : ℕ) (rest : List ℕ)
    → 0xc2 ≤ first
    → first ≤ 0xdf
    → is_continuation second ≡ true
    → scalar_width first (second ∷ rest) ≡ 2
unfolding scalar_width bad_second
scalar_width-two first second rest l h d =
    let c : ltb (1 + length (second ∷ rest)) 2 ≡ false = ground arith in
    let e : (bad_three first second || bad_four first second) ≡ false = ground arith in
    rw (lead_width-two first l h, c, d, e) refl

utf8_error-one :
    (fuel at first : ℕ) (rest : List ℕ)
    → first < 0x80
    → utf8_error (suc fuel) at (first ∷ rest) ≡ utf8_error fuel (at + 1) rest
unfolding utf8_error
utf8_error-one fuel at first rest l = rw (utf8_error, scalar_width-one first rest l) refl

utf8_error-two :
    (fuel at first second : ℕ) (rest : List ℕ)
    → 0xc2 ≤ first
    → first ≤ 0xdf
    → is_continuation second ≡ true
    → utf8_error (suc fuel) at (first ∷ second ∷ rest) ≡ utf8_error fuel (at + 2) rest
unfolding utf8_error
utf8_error-two fuel at first second rest l h d =
    rw (utf8_error, scalar_width-two first second rest l h d) refl

wide-well_formed :
    (byte : ℕ) → byte < 256 → ¬ (gpt2_codepoint byte < 0x80) → well_formed byte ≡ true
wide-well_formed byte b n =
    let t : wide_or_well_formed byte ≡ true =
      everywhere_sound wide_or_well_formed 256 all_well_formed byte b in
    let e : ltb (gpt2_codepoint byte) 0x80 ≡ false = ground arith in
    subst (λ (x : Bool). (x || well_formed byte) ≡ true) e t

-- The first character of an encoded byte and what follows it.
chars-encoded_byte :
    (fuel byte : ℕ) (rest : List ℕ)
    → byte < 256
    → chars (suc fuel) (encoded_byte byte ++ rest) ≡ gpt2_codepoint byte ∷ chars fuel rest
chars-encoded_byte fuel byte rest b = elim (dec_lt (gpt2_codepoint byte) 0x80) [
  | yes n ↦
      ap (λ (xs : List ℕ). chars (suc fuel) (xs ++ rest)) (encoded_byte-narrow byte n)
      ∙ chars-one fuel (gpt2_codepoint byte) rest n
  | no n ↦
      let w : well_formed byte ≡ true = wide-well_formed byte b n in
      ap (λ (xs : List ℕ). chars (suc fuel) (xs ++ rest)) (encoded_byte-wide byte n)
      ∙ chars-two fuel (lead byte) (trail byte) rest (ground arith) (ground arith)
      ∙ ap (λ (p : ℕ). p ∷ chars fuel rest) (ground arith)
]

utf8_error-encoded_byte :
    (fuel at byte : ℕ) (rest : List ℕ)
    → byte < 256
    → (next : ℕ) × (utf8_error (suc fuel) at (encoded_byte byte ++ rest)
        ≡ utf8_error fuel next rest)
utf8_error-encoded_byte fuel at byte rest b = elim (dec_lt (gpt2_codepoint byte) 0x80) [
  | yes n ↦ (
    at + 1,
    ap (λ (xs : List ℕ). utf8_error (suc fuel) at (xs ++ rest)) (encoded_byte-narrow byte n)
        ∙ utf8_error-one fuel at (gpt2_codepoint byte) rest n,
  )
  | no n ↦
      let w : well_formed byte ≡ true = wide-well_formed byte b n in
      (
        at + 2,
        ap (λ (xs : List ℕ). utf8_error (suc fuel) at (xs ++ rest)) (encoded_byte-wide byte n)
            ∙ utf8_error-two fuel at (lead byte) (trail byte) rest (ground arith) (ground arith)
                (ground arith),
      )
]

length-encoded_byte : (byte : ℕ) → 1 ≤ length (encoded_byte byte)
unfolding encoded_byte
length-encoded_byte byte = ground arith

-- The characters of a text are those of its bytes, and it is well-formed.
pub chars-encoded :
    (bytes : List ℕ) (fuel : ℕ)
    → Bytes bytes
    → length (spelled encoded_byte bytes) ≤ fuel
    → chars fuel (spelled encoded_byte bytes) ≡ map gpt2_codepoint bytes
unfolding spelled chars
chars-encoded [] fuel b l = refl
chars-encoded (byte ∷ bytes) zero (b, bs) l = absurd (
    omega (
      arith,
      length-encoded_byte byte,
      length-append (encoded_byte byte) (spelled encoded_byte bytes),
    ))
chars-encoded (byte ∷ bytes) (suc fuel) (b, bs) l =
    chars-encoded_byte fuel byte (spelled encoded_byte bytes) b
    ∙ ap (gpt2_codepoint byte ∷◌) (
        chars-encoded bytes fuel bs (
          omega (
            arith,
            length-encoded_byte byte,
            length-append (encoded_byte byte) (spelled encoded_byte bytes),
          )))

pub utf8_error-encoded :
    (bytes : List ℕ) (fuel at : ℕ)
    → Bytes bytes
    → length (spelled encoded_byte bytes) ≤ fuel
    → utf8_error fuel at (spelled encoded_byte bytes) ≡ none
unfolding spelled utf8_error
utf8_error-encoded [] fuel at b l = refl
utf8_error-encoded (byte ∷ bytes) zero at (b, bs) l = absurd (
    omega (
      arith,
      length-encoded_byte byte,
      length-append (encoded_byte byte) (spelled encoded_byte bytes),
    ))
utf8_error-encoded (byte ∷ bytes) (suc fuel) at (b, bs) l =
    let (next, e) = utf8_error-encoded_byte fuel at byte (spelled encoded_byte bytes) b in
    e
    ∙ utf8_error-encoded bytes fuel next bs (
        omega (
          arith,
          length-encoded_byte byte,
          length-append (encoded_byte byte) (spelled encoded_byte bytes),
        ))
