-- ===== src/Utf8/Scalars.antt =====
-- The two encodings of a code point, as the Unicode standard has them: the reference for the decoder
-- of src/repl_contract.rs.
use promptboot.Prelude.{
  ℕ, ◌+◌, ◌-◌, ◌*◌, ◌/◌, ◌%◌, ◌<◌, ◌≤◌, ◌≡◌, ◌⊎◌, refl, ap, sym, ◌∙◌, List, [], ◌∷◌, ◌++◌, ltb,
  if◌then◌else◌, length, length-append, arith,
}
use mathlib.Core.List.{append_assoc}

-- A code point that is no surrogate, and not zero, which the decoder refuses.
abbrev pub IsScalar : ℕ → Type 0
IsScalar c = (0 < c) × ((c < 0xd800) ⊎ ((0xe000 ≤ c) × (c ≤ 0x10ffff)))

unfoldable pub utf8 : ℕ → List ℕ
utf8 c =
    if ltb c 0x80
    then c ∷ []
    else if ltb c 0x800
    then (0xc0 + c / 64) ∷ (0x80 + c % 64) ∷ []
    else if ltb c 0x10000
    then (0xe0 + c / 4096) ∷ (0x80 + c / 64 % 64) ∷ (0x80 + c % 64) ∷ []
    else (0xf0 + c / 262144) ∷ (0x80 + c / 4096 % 64) ∷ (0x80 + c / 64 % 64) ∷ (0x80 + c % 64) ∷ []

unfoldable pub utf16 : ℕ → List ℕ
utf16 c =
    if ltb c 0x10000
    then c ∷ []
    else (0xd800 + (c - 0x10000) / 1024) ∷ (0xdc00 + (c - 0x10000) % 1024) ∷ []

abbrev pub encode8 : List ℕ → List ℕ
encode8 [] = []
encode8 (c ∷ cs) = utf8 c ++ encode8 cs

abbrev pub encode16 : List ℕ → List ℕ
encode16 [] = []
encode16 (c ∷ cs) = utf16 c ++ encode16 cs

pub encode8-append : (xs ys : List ℕ) → encode8 (xs ++ ys) ≡ encode8 xs ++ encode8 ys
encode8-append [] ys = refl
encode8-append (x ∷ xs) ys =
    ap (utf8 x ++◌) (encode8-append xs ys) ∙ sym (append_assoc (utf8 x) (encode8 xs) (encode8 ys))

pub encode16-append : (xs ys : List ℕ) → encode16 (xs ++ ys) ≡ encode16 xs ++ encode16 ys
encode16-append [] ys = refl
encode16-append (x ∷ xs) ys =
    ap (utf16 x ++◌) (encode16-append xs ys)
    ∙ sym (append_assoc (utf16 x) (encode16 xs) (encode16 ys))

-- A code point has no more units than bytes.
length-utf16-le : (c : ℕ) → length (utf16 c) ≤ length (utf8 c)
unfolding utf16 utf8
length-utf16-le c = ground arith

pub length-encode16-le : (cs : List ℕ) → length (encode16 cs) ≤ length (encode8 cs)
length-encode16-le [] = omega arith
length-encode16-le (c ∷ cs) = omega (
  arith,
  length-utf16-le c,
  length-encode16-le cs,
  length-append (utf16 c) (encode16 cs),
  length-append (utf8 c) (encode8 cs),
)

-- The bytes of a code point, by their number.
pub utf8_one : (f : ℕ) → f < 0x80 → utf8 f ≡ f ∷ []
unfolding utf8
utf8_one f h = ground arith

pub utf8_two :
    (f b : ℕ) → 0xc2 ≤ f → f ≤ 0xdf → 0x80 ≤ b → b < 0xc0 → utf8 (f % 32 * 64 + b % 64) ≡ f ∷ b ∷ []
unfolding utf8
utf8_two f b h k l m = ground arith

pub utf8_three :
    (f b c : ℕ)
    → 0xe0 ≤ f
    → f ≤ 0xef
    → 0x80 ≤ b
    → b < 0xc0
    → (f ≡ 0xe0 → 0xa0 ≤ b)
    → 0x80 ≤ c
    → c < 0xc0
    → utf8 (f % 16 * 4096 + b % 64 * 64 + c % 64) ≡ f ∷ b ∷ c ∷ []
unfolding utf8
utf8_three f b c h k l m n o p = ground arith

pub utf8_four :
    (f b c d : ℕ)
    → 0xf0 ≤ f
    → f ≤ 0xf4
    → 0x80 ≤ b
    → b < 0xc0
    → (f ≡ 0xf0 → 0x90 ≤ b)
    → 0x80 ≤ c
    → c < 0xc0
    → 0x80 ≤ d
    → d < 0xc0
    → utf8 (f % 8 * 262144 + b % 64 * 4096 + c % 64 * 64 + d % 64) ≡ f ∷ b ∷ c ∷ d ∷ []
unfolding utf8
utf8_four f b c d h k l m n o p q r = ground arith
