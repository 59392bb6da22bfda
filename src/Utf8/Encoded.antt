-- ===== src/Utf8/Encoded.antt =====
-- The decoder of src/repl_contract.rs reads back what is encoded.
use promptboot.Prelude.{
  ℕ, zero, suc, ◌+◌, ◌-◌, ◌/◌, ◌%◌, ◌<◌, ◌≤◌, ◌≡◌, refl, ap, sym, ◌∙◌, true, false, ◌&&◌, List, [],
  ◌∷◌, ◌++◌, some, leb, le→ltb, length, take, drop, drop-append, All, ok, ◌>>=◌, length-append,
  arith,
}
use native.Mathlib.Decide.{dec_lt}
use mathlib.Core.List.{append_assoc, append-nil}
use promptboot.Utf8.{
  Utf8Decoder, reset, classify, bad_second, bad_three, bad_four, is_continuation, all_continuations,
  point_of, checked_point, read_point, stage, decode, push, carried,
}
use promptboot.Utf8.Decoding.{surrogates}
use promptboot.Utf8.Scalars.{IsScalar, utf8, utf16, encode8, encode16, length-encode16-le}
use promptboot.Utf8.Reading.{two_fields, three_fields, four_fields, range-continuation}

checked_point-IsScalar : (c : ℕ) → IsScalar c → checked_point c ≡ ok c
unfolding checked_point
checked_point-IsScalar c h = ground arith

-- A turn of the loop whose tests all pass.
read_point-passes :
    (first needed c : ℕ) (tail : List ℕ)
    → classify first ≡ ok needed
    → (leb 2 needed && bad_second first tail) ≡ false
    → needed ≤ 1 + length tail
    → all_continuations (take (needed - 1) tail) ≡ true
    → point_of needed first tail ≡ ok c
    → IsScalar c
    → read_point first tail ≡ ok (some (c, needed))
unfolding read_point ◌>>=◌
read_point-passes first needed c tail w g n k p h =
    rw (w, g, le→ltb (1 + length tail) needed n, k, p, checked_point-IsScalar c h) refl

-- The bytes of a scalar are read back, whatever follows.
abbrev ReadsBack : ℕ → List ℕ → Type 0
ReadsBack c rest =
    (f : ℕ) × (t : List ℕ) × (utf8 c ≡ f ∷ t)
    × (read_point f (t ++ rest) ≡ ok (some (c, 1 + length t)))

ReadsBack-one : (c : ℕ) (rest : List ℕ) → IsScalar c → c < 0x80 → ReadsBack c rest
unfolding utf8 classify point_of
ReadsBack-one c rest h l = (
  c,
  [],
  ground arith,
  read_point-passes c 1 c rest (ground arith) refl (omega arith) refl refl h,
)

ReadsBack-two : (c : ℕ) (rest : List ℕ) → IsScalar c → 0x80 ≤ c → c < 0x800 → ReadsBack c rest
unfolding utf8 classify point_of bad_second
ReadsBack-two c rest h l m =
    let f : ℕ = 0xc0 + c / 64 in
    let b : ℕ = 0x80 + c % 64 in
    let k : is_continuation b ≡ true = range-continuation b (omega arith) (omega arith) in
    (
      f,
      b ∷ [],
      ground arith,
      read_point-passes f 2 c (b ∷ rest) (ground arith) (ground arith) (omega arith) (ground arith)
          (ap ok (two_fields f b ∙ omega arith)) h,
    )

ReadsBack-three : (c : ℕ) (rest : List ℕ) → IsScalar c → 0x800 ≤ c → c < 0x10000 → ReadsBack c rest
unfolding utf8 classify point_of bad_second
ReadsBack-three c rest h l m =
    let f : ℕ = 0xe0 + c / 4096 in
    let b : ℕ = 0x80 + c / 64 % 64 in
    let d : ℕ = 0x80 + c % 64 in
    let k : is_continuation b ≡ true = range-continuation b (omega arith) (omega arith) in
    let k' : is_continuation d ≡ true = range-continuation d (omega arith) (omega arith) in
    let good : bad_three f b ≡ false = ground arith in
    let good' : bad_four f b ≡ false = ground arith in
    (
      f,
      b ∷ d ∷ [],
      ground arith,
      read_point-passes f 3 c (b ∷ d ∷ rest) (ground arith) (rw (k, good, good') refl) (omega arith)
          (rw (k, k') refl) (rw good (ap ok (three_fields f b d ∙ omega arith))) h,
    )

ReadsBack-four : (c : ℕ) (rest : List ℕ) → IsScalar c → 0x10000 ≤ c → ReadsBack c rest
unfolding utf8 classify point_of bad_second
ReadsBack-four c rest h l =
    let f : ℕ = 0xf0 + c / 262144 in
    let b : ℕ = 0x80 + c / 4096 % 64 in
    let d : ℕ = 0x80 + c / 64 % 64 in
    let e : ℕ = 0x80 + c % 64 in
    let m : c ≤ 0x10ffff = ground arith in
    let k : is_continuation b ≡ true = range-continuation b (omega arith) (omega arith) in
    let k' : is_continuation d ≡ true = range-continuation d (omega arith) (omega arith) in
    let k'' : is_continuation e ≡ true = range-continuation e (omega arith) (omega arith) in
    let good : bad_three f b ≡ false = ground arith in
    let good' : bad_four f b ≡ false = ground arith in
    (
      f,
      b ∷ d ∷ e ∷ [],
      ground arith,
      read_point-passes f 4 c (b ∷ d ∷ e ∷ rest) (ground arith) (rw (k, good, good') refl)
          (omega arith) (rw (k, k', k'') refl)
          (rw good' (ap ok (four_fields f b d e ∙ omega arith))) h,
    )

read_point-ReadsBack : (c : ℕ) (rest : List ℕ) → IsScalar c → ReadsBack c rest
read_point-ReadsBack c rest h = elim (dec_lt c 0x80) [
  | yes a ↦ ReadsBack-one c rest h a
  | no a ↦ elim (dec_lt c 0x800) [
    | yes b ↦ ReadsBack-two c rest h (omega arith) b
    | no b ↦ elim (dec_lt c 0x10000) [
      | yes d ↦ ReadsBack-three c rest h (omega arith) d
      | no d ↦ ReadsBack-four c rest h (omega arith)
    ]
  ]
]

-- With room for them the units of a scalar are staged.
stage-fits :
    (units : List ℕ) (c : ℕ)
    → IsScalar c
    → length units + length (utf16 c) ≤ 132
    → stage units c ≡ ok (units ++ utf16 c)
unfolding stage utf16
stage-fits units c h l = elim (dec_lt c 0x10000) [
  | yes a ↦ ground arith
  | no a ↦ let e = surrogates (c - 0x10000) (ground arith) in rw (e.0, e.1) (ground arith)
]

decode-encode8 :
    (fuel : ℕ) (cs units : List ℕ)
    → All IsScalar cs
    → length (encode8 cs) ≤ fuel
    → length units + length (encode16 cs) ≤ 132
    → decode fuel (encode8 cs) units ≡ ok (units ++ encode16 cs, [])
unfolding decode ◌>>=◌
decode-encode8 zero [] units h l m = ap (λ (u : List ℕ). ok (u, [])) (sym (append-nil units))
decode-encode8 (suc fuel) [] units h l m = ap (λ (u : List ℕ). ok (u, [])) (sym (append-nil units))
decode-encode8 zero (c ∷ cs) units (h, hs) l m =
    let (f, t, e, r) = read_point-ReadsBack c (encode8 cs) h in
    absurd (omega (arith, length-append (utf8 c) (encode8 cs), ap length e))
decode-encode8 (suc fuel) (c ∷ cs) units (h, hs) l m =
    let (f, t, e, r) = read_point-ReadsBack c (encode8 cs) h in
    let room : length units + length (utf16 c) + length (encode16 cs) ≤ 132 =
      omega (arith, length-append (utf16 c) (encode16 cs)) in
    let rest : drop (1 + length t - 1) (t ++ encode8 cs) ≡ encode8 cs =
      ap (λ (n : ℕ). drop n (t ++ encode8 cs)) (omega arith) ∙ drop-append t (encode8 cs) in
    let step : decode (suc fuel) (f ∷ (t ++ encode8 cs)) units
        ≡ decode fuel (encode8 cs) (units ++ utf16 c) =
      rw (r, stage-fits units c h (omega arith), rest) refl in
    ap (λ (b : List ℕ). decode (suc fuel) (b ++ encode8 cs) units) e
    ∙ (step
        ∙ (decode-encode8 fuel cs (units ++ utf16 c) hs
              (omega (arith, length-append (utf8 c) (encode8 cs), ap length e))
              (omega (arith, length-append units (utf16 c)))
            ∙ ap (λ (u : List ℕ). ok (u, [])) (append_assoc units (utf16 c) (encode16 cs))))

-- Scalars whose UTF-8 is one piece, pushed on a decoder that carries nothing and with room for their
-- UTF-16, come out as just this UTF-16, and nothing is carried.
pub push-encode8 :
    (d : Utf8Decoder) (cs : List ℕ) (room : ℕ)
    → carried d ≡ []
    → All IsScalar cs
    → length (encode8 cs) ≤ 128
    → length (encode16 cs) ≤ room
    → push d (encode8 cs) room ≡ ok (encode16 cs, reset d)
unfolding push ◌>>=◌
push-encode8 d cs room c h l m =
    rw
      (
        c,
        le→ltb 128 (length (encode8 cs)) l,
        decode-encode8 (length (encode8 cs)) cs [] h (omega arith)
            (omega (arith, length-encode16-le cs)),
        le→ltb room (length (encode16 cs)) m,
      )
      refl
