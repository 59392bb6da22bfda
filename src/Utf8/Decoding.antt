-- ===== src/Utf8/Decoding.antt =====
-- The loop of the decoder in src/repl_contract.rs, and one call of `push`.
use promptboot.Prelude.{
  ℕ, zero, suc, ◌+◌, ◌-◌, ◌/◌, ◌%◌, ◌^◌, ◌<◌, ◌≤◌, ◌≡◌, refl, ap, sym, ◌∙◌, List, [], ◌∷◌, ◌++◌,
  Option, none, some, bit_and, bit_or, ltb, leb, ◌==◌, if-cases, length, drop, All, All-append,
  All-drop, take-append-drop, take-append, length-drop, replicate, ok, Ends, ends_ok, ends_err,
  bind-Ends, fail_if-Ends, Ends-weaken, arith, ◌>>=◌,
}
use promptboot.Prelude.Bits.{and_low, or_fields}
use mathlib.Core.List.{append_assoc, append-nil}
use promptboot.Utf8.{Utf8Error, Utf8Decoder, stage, decode, carried, push}
use promptboot.Utf8.Scalars.{IsScalar, utf8, utf16, encode8, encode16}
use promptboot.Utf8.Reading.{Bytes, ReadsPoint, reads_none, reads_some, read_point-ReadsPoint}

abbrev pub Any : Utf8Error → Type 0
Any e = Unit

-- The units that are staged for a scalar are its encoding.
pub surrogates :
    (v : ℕ)
    → v < 2 ^ 20
    → (bit_or 0xd800 (v / 2 ^ 10) ≡ 0xd800 + v / 1024)
      × (bit_or 0xdc00 (bit_and v 0x3ff) ≡ 0xdc00 + v % 1024)
surrogates v h = (
  or_fields 10 54 (v / 1024) (omega arith),
  rw (and_low 10 v) (or_fields 10 55 (v % 1024) (omega arith)),
)

stage-Ends :
    (units : List ℕ) (point : ℕ)
    → IsScalar point
    → Ends Any (λ s. s ≡ units ++ utf16 point) (stage units point)
unfolding stage utf16
stage-Ends units point h =
    if-cases (Ends Any (λ s. s ≡ units ++ utf16 point)) (leb point 0xffff) _ _
      (λ t.
        if-cases (Ends Any (λ s. s ≡ units ++ utf16 point)) (length units == 132) _ _
          (λ _. ends_err tt) (λ _. ends_ok (ground arith)))
      (λ f.
        if-cases (Ends Any (λ s. s ≡ units ++ utf16 point)) (ltb 132 (length units + 2)) _ _
          (λ _. ends_err tt)
          (λ _.
            (let e = surrogates (point - 0x10000) (ground arith) in
              ends_ok (rw (e.0, e.1) (ground arith)))))

-- The bytes are encoded scalars and a rest of at most three bytes; the units encode the scalars.
pub record Decoded (bytes units : List ℕ) (r : List ℕ × List ℕ) : Type 0 where
  pub scalars : List ℕ
  pub all_scalars : All IsScalar scalars
  pub bytes_split : bytes ≡ encode8 scalars ++ r.1
  pub units_are : r.0 ≡ units ++ encode16 scalars
  pub rest_short : length r.1 ≤ 3

Decoded-none : (bytes units : List ℕ) → length bytes ≤ 3 → Decoded bytes units (units, bytes)
Decoded-none bytes units h = record {
  scalars = [];
  all_scalars = tt;
  bytes_split = refl;
  units_are = sym (append-nil units);
  rest_short = h;
}

-- One more scalar before what the loop decodes.
Decoded-cons :
    (bytes rest units staged : List ℕ) (point : ℕ) (r : List ℕ × List ℕ)
    → IsScalar point
    → bytes ≡ utf8 point ++ rest
    → staged ≡ units ++ utf16 point
    → Decoded rest staged r
    → Decoded bytes units r
Decoded-cons bytes rest units staged point r h e s d = record {
  scalars = point ∷ d.scalars;
  all_scalars = (h, d.all_scalars);
  bytes_split =
      e
      ∙ (ap (utf8 point ++◌) d.bytes_split
          ∙ sym (append_assoc (utf8 point) (encode8 d.scalars) r.1));
  units_are =
      d.units_are
      ∙ (ap (◌++ encode16 d.scalars) s ∙ append_assoc units (utf16 point) (encode16 d.scalars));
  rest_short = d.rest_short;
}

decode-Decoded :
    (fuel : ℕ) (bytes units : List ℕ)
    → Bytes bytes
    → length bytes ≤ fuel
    → Ends Any (Decoded bytes units) (decode fuel bytes units)
unfolding decode
decode-Decoded zero [] units b h = ends_ok (Decoded-none [] units (omega arith))
decode-Decoded (suc fuel) [] units b h = ends_ok (Decoded-none [] units (omega arith))
decode-Decoded zero (first ∷ tail) units b h = absurd (omega arith)
decode-Decoded (suc fuel) (first ∷ tail) units (b0, b) h =
    bind-Ends (read_point-ReadsPoint first tail b) (
      go λ n staged.
        decode-Decoded fuel (drop n tail) staged (All-drop (λ b. b < 256) tail 0 n (omega arith) b)
          (omega (arith, length-drop n tail)))
  where
    go :
        ((n : ℕ) (staged : List ℕ)
          → Ends Any (Decoded (drop n tail) staged) (decode fuel (drop n tail) staged))
        → (o : Option (ℕ × ℕ)) → ReadsPoint first tail o
        → Ends Any (Decoded (first ∷ tail) units) (elim o [
          | none ↦ ok (units, first ∷ tail)
          | some (point, needed) ↦
              (stage units point >>= λ staged. decode fuel (drop (needed - 1) tail) staged)
        ])
    go ih none (reads_none l) = ends_ok (Decoded-none (first ∷ tail) units (omega arith))
    go ih (some (point, needed)) (reads_some s l n e) =
        bind-Ends (stage-Ends units point s) λ staged t. Ends-weaken (ih (needed - 1) staged) λ r d.
          Decoded-cons (first ∷ tail) (drop (needed - 1) tail) units staged point r s
            (ap (first ∷◌) (sym (take-append-drop (needed - 1) tail))
              ∙ ap (◌++ drop (needed - 1) tail) e)
            t d

-- What one call leaves.
pub record Pushed (d : Utf8Decoder) (piece : List ℕ) (room : ℕ) (r : List ℕ × Utf8Decoder)
    : Type 0 where
  pub read : List ℕ
  pub all_read : All IsScalar read
  pub bytes_are : carried d ++ piece ≡ encode8 read ++ carried r.1
  pub units_are : r.0 ≡ encode16 read
  pub fits : length r.0 ≤ room
  pub short : length (carried r.1) ≤ 3

-- A call of `push` that succeeds reads scalars out of the bytes carried and the piece, in UTF-8,
-- writes exactly their UTF-16, which fits, and carries the at most three bytes that are left.
pub push-Pushed :
    (d : Utf8Decoder) (piece : List ℕ) (room : ℕ)
    → Bytes (carried d)
    → Bytes piece
    → Ends Any (Pushed d piece room) (push d piece room)
unfolding push
push-Pushed d piece room b c = bind-Ends (fail_if-Ends (ltb 128 (length piece)) _ tt) λ _ _.
    bind-Ends
      (decode-Decoded (length (carried d ++ piece)) (carried d ++ piece) []
        (All-append (λ b. b < 256) (carried d) piece (b, c)) (omega arith))
      λ r h. bind-Ends (fail_if-Ends (ltb room (length r.0)) _ tt) λ _ f. ends_ok (record {
        read = h.scalars;
        all_read = h.all_scalars;
        bytes_are =
            h.bytes_split
            ∙ ap (encode8 h.scalars ++◌) (sym (take-append r.1 (replicate (3 - length r.1) 0)));
        units_are = h.units_are;
        fits = ground arith;
        short =
            omega (arith, ap length (take-append r.1 (replicate (3 - length r.1) 0)), h.rest_short);
      })
