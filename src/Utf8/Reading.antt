-- ===== src/Utf8/Reading.antt =====
-- One turn of the decoder's loop in src/repl_contract.rs: it reads the bytes of one code point.
use promptboot.Prelude.{
  ℕ, ◌+◌, ◌-◌, ◌*◌, ◌/◌, ◌%◌, ◌^◌, ◌<◌, ◌≤◌, ◌≡◌, refl, ap, sym, subst, ◌∙◌, Bool, true, false, not,
  ◌&&◌, ◌||◌, List, [], ◌∷◌, Option, none, some, bit_and, bit_or, ltb, leb, ◌==◌, if-cases, length,
  take, All, Ends, ends_ok, ends_err, bind-Ends, fail_if-Ends, arith,
}
use promptboot.Prelude.Bits.{and_low, and_shift, or_fields}
use promptboot.Utf8.{
  Utf8Error, classify, is_continuation, all_continuations, bad_second, bad_three, bad_four,
  point_of, checked_point, read_point,
}
use promptboot.Utf8.Scalars.{IsScalar, utf8, utf8_one, utf8_two, utf8_three, utf8_four}

abbrev pub Bytes : List ℕ → Type 0
Bytes = All (λ b. b < 256)

-- A continuation byte lies between 0x80 and 0xbf.
continuation-range : (b : ℕ) → b < 256 → is_continuation b ≡ true → (0x80 ≤ b) × (b < 0xc0)
unfolding is_continuation
continuation-range b h e =
    let high : bit_and b 0xc0 ≡ b / 64 % 4 * 64 =
      and_shift 6 3 b ∙ ap (λ (t : ℕ). t * 64) (and_low 2 (b / 64)) in
    ground arith

pub range-continuation : (b : ℕ) → 0x80 ≤ b → b < 0xc0 → is_continuation b ≡ true
unfolding is_continuation
range-continuation b h k =
    let high : bit_and b 0xc0 ≡ b / 64 % 4 * 64 =
      and_shift 6 3 b ∙ ap (λ (t : ℕ). t * 64) (and_low 2 (b / 64)) in
    ground arith

-- The masks and shifts of a code point are its digits.
pub two_fields : (f b : ℕ) → bit_or (bit_and f 0x1f * 2 ^ 6) (bit_and b 0x3f) ≡ f % 32 * 64 + b % 64
two_fields f b = rw (and_low 5 f, and_low 6 b) (or_fields 6 (f % 32) (b % 64) (omega arith))

pub three_fields :
    (f b c : ℕ)
    → bit_or (bit_or (bit_and f 0x0f * 2 ^ 12) (bit_and b 0x3f * 2 ^ 6)) (bit_and c 0x3f)
      ≡ f % 16 * 4096 + b % 64 * 64 + c % 64
three_fields f b c =
    let high : bit_or (f % 16 * 2 ^ 12) (b % 64 * 2 ^ 6) ≡ (f % 16 * 64 + b % 64) * 2 ^ 6 =
      or_fields 12 (f % 16) (b % 64 * 2 ^ 6) (omega arith) ∙ omega arith in
    rw (and_low 4 f, and_low 6 b, and_low 6 c, high)
      (or_fields 6 (f % 16 * 64 + b % 64) (c % 64) (omega arith) ∙ omega arith)

pub four_fields :
    (f b c d : ℕ)
    → bit_or
        (bit_or (bit_or (bit_and f 7 * 2 ^ 18) (bit_and b 0x3f * 2 ^ 12)) (bit_and c 0x3f * 2 ^ 6))
        (bit_and d 0x3f)
      ≡ f % 8 * 262144 + b % 64 * 4096 + c % 64 * 64 + d % 64
four_fields f b c d =
    let top : bit_or (f % 8 * 2 ^ 18) (b % 64 * 2 ^ 12) ≡ (f % 8 * 64 + b % 64) * 2 ^ 12 =
      or_fields 18 (f % 8) (b % 64 * 2 ^ 12) (omega arith) ∙ omega arith in
    let high : bit_or ((f % 8 * 64 + b % 64) * 2 ^ 12) (c % 64 * 2 ^ 6)
        ≡ ((f % 8 * 64 + b % 64) * 64 + c % 64) * 2 ^ 6 =
      or_fields 12 (f % 8 * 64 + b % 64) (c % 64 * 2 ^ 6) (omega arith) ∙ omega arith in
    rw (and_low 3 f, and_low 6 b, and_low 6 c, and_low 6 d, top, high)
      (or_fields 6 ((f % 8 * 64 + b % 64) * 64 + c % 64) (d % 64) (omega arith) ∙ omega arith)

-- What `classify` tells of the first byte.
pub data Width (first needed : ℕ) : Type 0 where
  one : needed ≡ 1 → 0 < first → first < 0x80 → Width first needed
  two : needed ≡ 2 → 0xc2 ≤ first → first ≤ 0xdf → Width first needed
  three : needed ≡ 3 → 0xe0 ≤ first → first ≤ 0xef → Width first needed
  four : needed ≡ 4 → 0xf0 ≤ first → first ≤ 0xf4 → Width first needed

abbrev Any : Utf8Error → Type 0
Any e = Unit

classify-Ends : (first : ℕ) → Ends Any (Width first) (classify first)
unfolding classify
classify-Ends first =
    if-cases (Ends Any (Width first)) (first == 0) _ _ (λ _. ends_err tt)
      λ z.
        if-cases (Ends Any (Width first)) (leb first 0x7f) _ _
          (λ a. ends_ok (one refl (ground arith) (ground arith)))
          λ _.
            if-cases (Ends Any (Width first)) (leb 0xc2 first && leb first 0xdf) _ _
              (λ a. ends_ok (two refl (ground arith) (ground arith)))
              λ _.
                if-cases (Ends Any (Width first)) (leb 0xe0 first && leb first 0xef) _ _
                  (λ a. ends_ok (three refl (ground arith) (ground arith)))
                  λ _.
                    if-cases (Ends Any (Width first)) (leb 0xf0 first && leb first 0xf4) _ _
                      (λ a. ends_ok (four refl (ground arith) (ground arith))) (λ _. ends_err tt)

-- The bytes of a code point are its encoding.
abbrev Spells : ℕ → List ℕ → ℕ → ℕ → Type 0
Spells first tail needed point = first ∷ take (needed - 1) tail ≡ utf8 point

-- What the loop knows when it comes to `point_of`.
abbrev Reads : ℕ → List ℕ → ℕ → Type 0
Reads first tail needed =
    (leb 2 needed && bad_second first tail) ≡ false
    → all_continuations (take (needed - 1) tail) ≡ true
    → needed ≤ 1 + length tail
    → Ends Any (Spells first tail needed) (point_of needed first tail)

and-both : (a b : Bool) → (a && b) ≡ true → (a ≡ true) × (b ≡ true)
and-both true b h = (refl, h)
and-both false b h = cc

Reads-two : (f : ℕ) (tail : List ℕ) → 0xc2 ≤ f → f ≤ 0xdf → Bytes tail → Reads f tail 2
unfolding point_of
Reads-two f [] l h b g k n = absurd (omega arith)
Reads-two f (x ∷ t) l h (bx, b) g k n =
    let (lo, hi) = continuation-range x bx (and-both _ _ k).0 in
    ends_ok (rw (two_fields f x) (sym (utf8_two f x l h lo hi)))

Reads-three : (f : ℕ) (tail : List ℕ) → 0xe0 ≤ f → f ≤ 0xef → Bytes tail → Reads f tail 3
unfolding point_of
Reads-three f [] l h b g k n = absurd (omega arith)
Reads-three f (x ∷ []) l h b g k n = absurd (omega arith)
Reads-three f (x ∷ y ∷ t) l h (bx, (by, b)) g k n =
    let (kx, k') = and-both _ _ k in
    let (lo, hi) = continuation-range x bx kx in
    let (lo', hi') = continuation-range y by (and-both _ _ k').0 in
    if-cases (Ends Any (Spells f (x ∷ y ∷ t) 3)) (bad_three f x) _ _ (λ _. ends_err tt)
      (λ ok_three.
        ends_ok
          (rw (three_fields f x y) (sym (utf8_three f x y l h lo hi (λ e. ground arith) lo' hi'))))

Reads-four : (f : ℕ) (tail : List ℕ) → 0xf0 ≤ f → f ≤ 0xf4 → Bytes tail → Reads f tail 4
unfolding point_of
Reads-four f [] l h b g k n = absurd (omega arith)
Reads-four f (x ∷ []) l h b g k n = absurd (omega arith)
Reads-four f (x ∷ y ∷ []) l h b g k n = absurd (omega arith)
Reads-four f (x ∷ y ∷ z ∷ t) l h (bx, (by, (bz, b))) g k n =
    let (kx, k') = and-both _ _ k in
    let (ky, k'') = and-both _ _ k' in
    let (lo, hi) = continuation-range x bx kx in
    let (lo', hi') = continuation-range y by ky in
    let (lo'', hi'') = continuation-range z bz (and-both _ _ k'').0 in
    if-cases (Ends Any (Spells f (x ∷ y ∷ z ∷ t) 4)) (bad_four f x) _ _ (λ _. ends_err tt)
      (λ ok_four. ends_ok (
        rw (four_fields f x y z)
          (sym (utf8_four f x y z l h lo hi (λ e. ground arith) lo' hi' lo'' hi''))))

point_of-Ends :
    (first needed : ℕ) (tail : List ℕ) → Width first needed → Bytes tail → Reads first tail needed
unfolding point_of
point_of-Ends first needed tail (one e l h) b =
    subst (Reads first tail) (sym e) (λ g k n. ends_ok (sym (utf8_one first h)))
point_of-Ends first needed tail (two e l h) b =
    subst (Reads first tail) (sym e) (Reads-two first tail l h b)
point_of-Ends first needed tail (three e l h) b =
    subst (Reads first tail) (sym e) (Reads-three first tail l h b)
point_of-Ends first needed tail (four e l h) b =
    subst (Reads first tail) (sym e) (Reads-four first tail l h b)

Width-bounds : (first needed : ℕ) → Width first needed → (1 ≤ needed) × (needed ≤ 4)
Width-bounds first needed (one e l h) = omega arith
Width-bounds first needed (two e l h) = omega arith
Width-bounds first needed (three e l h) = omega arith
Width-bounds first needed (four e l h) = omega arith

checked_point-Ends : (point : ℕ) → Ends Any (λ p. (p ≡ point) × IsScalar p) (checked_point point)
unfolding checked_point
checked_point-Ends point =
    if-cases (Ends Any (λ p. (p ≡ point) × IsScalar p))
      (point == 0 || (leb 0xd800 point && leb point 0xdfff || ltb 0x10ffff point)) _ _
      (λ _. ends_err tt) (λ f. ends_ok (refl, ground arith))

-- What one turn of the loop reads: the encoding of a scalar, or the beginning of a code point that
-- the bytes do not end.
pub data ReadsPoint (first : ℕ) (tail : List ℕ) : Option (ℕ × ℕ) → Type 0 where
  reads_none : 1 + length tail ≤ 3 → ReadsPoint first tail none
  reads_some :
      {point needed : ℕ}
      → IsScalar point
      → 1 ≤ needed
      → needed ≤ 1 + length tail
      → first ∷ take (needed - 1) tail ≡ utf8 point
      → ReadsPoint first tail (some (point, needed))

pub read_point-ReadsPoint :
    (first : ℕ) (tail : List ℕ)
    → Bytes tail
    → Ends Any (ReadsPoint first tail) (read_point first tail)
unfolding read_point
read_point-ReadsPoint first tail b = bind-Ends (classify-Ends first) λ needed w.
    bind-Ends (fail_if-Ends (leb 2 needed && bad_second first tail) _ tt) λ _ g.
      if-cases (Ends Any (ReadsPoint first tail)) (ltb (1 + length tail) needed) _ _
        (λ t.
          bind-Ends (fail_if-Ends (not (all_continuations tail)) _ tt)
            λ _ _. ends_ok (reads_none (let l = Width-bounds first needed w in ground arith)))
        (λ f.
          bind-Ends (fail_if-Ends (not (all_continuations (take (needed - 1) tail))) _ tt) λ _ k.
            let l = Width-bounds first needed w in
            let n : needed ≤ 1 + length tail = ground arith in
            bind-Ends (point_of-Ends first needed tail w b g (ground arith) n) λ point p.
              bind-Ends (checked_point-Ends point)
                λ checked q. ends_ok (reads_some q.1 l.0 n (p ∙ ap utf8 (sym q.0))))
