-- ===== src/Repl/Rendering.antt =====
-- `render_console_text` of src/repl_contract.rs: a carriage return before each bare line feed.
use promptboot.Utf8.{Utf8Error, capacity}
use promptboot.Prelude.{
  ◌^◌, ◌-◌, ℕ, suc, ◌+◌, ◌≤◌, ◌≡◌, refl, ap, ◌∙◌, Bool, not, ◌&&◌, Bool-cases, inl, inr, List, [],
  ◌∷◌, ◌++◌, ltb, ◌==◌, if◌then◌else◌, if-cases, length, Result, ok, err, ok_or, checked_add,
  u64_max, ◌>>=◌, arith, le→ltb,
}

-- `unit == b'\n' as u16 && !preceding_cr`
abbrev pub is_bare : Bool → ℕ → Bool
is_bare preceding_cr unit = unit == b'\n' && not preceding_cr

-- The first loop: the units needed, from `needed` on.
unfoldable pub count_needed : ℕ → Bool → List ℕ → Result Utf8Error ℕ
count_needed needed preceding_cr [] = ok needed
count_needed needed preceding_cr (unit ∷ units) =
    if is_bare preceding_cr unit
    then (ok_or (checked_add needed 1) capacity >>= λ more. count_needed more (unit == b'\r') units)
    else count_needed needed (unit == b'\r') units

-- The second loop: the units written.
unfoldable pub write_units : Bool → List ℕ → List ℕ
write_units preceding_cr [] = []
write_units preceding_cr (unit ∷ units) =
    let rest = write_units (unit == b'\r') units in
    if is_bare preceding_cr unit then b'\r' ∷ unit ∷ rest else unit ∷ rest

-- `preceding_cr` behind the loops.
unfoldable pub ends_in_cr : Bool → List ℕ → Bool
ends_in_cr preceding_cr [] = preceding_cr
ends_in_cr preceding_cr (unit ∷ units) = ends_in_cr (unit == b'\r') units

abbrev rendered : Bool → List ℕ → List ℕ × Bool
rendered previous_was_cr input =
    (write_units previous_was_cr input, ends_in_cr previous_was_cr input)

-- The units written to an output of `room` units, and the new `previous_was_cr`.
unfoldable pub render_console_text : List ℕ → Bool → ℕ → Result Utf8Error (List ℕ × Bool)
render_console_text input previous_was_cr room = do
  needed ← count_needed (length input) previous_was_cr input
  if ltb room needed then err capacity else ok (rendered previous_was_cr input)

-- How many line feeds are bare.
unfoldable pub bare_count : Bool → List ℕ → ℕ
bare_count cr [] = 0
bare_count cr (unit ∷ units) =
    let rest = bare_count (unit == b'\r') units in if is_bare cr unit then 1 + rest else rest

bare_count-length : (cr : Bool) (units : List ℕ) → bare_count cr units ≤ length units
unfolding bare_count
bare_count-length cr [] = omega arith
bare_count-length cr (unit ∷ units) =
    let ih = bare_count-length (unit == b'\r') units in
    if-cases (λ n. n ≤ suc (length units)) (is_bare cr unit) _ _ (λ _. omega arith)
      (λ _. omega arith)

length-write_units :
    (cr : Bool) (units : List ℕ)
    → length (write_units cr units) ≡ length units + bare_count cr units
unfolding write_units bare_count
length-write_units cr [] = refl
length-write_units cr (unit ∷ units) =
    let ih = length-write_units (unit == b'\r') units in
    elim (Bool-cases (is_bare cr unit)) [
      | inl e ↦ simp e (omega arith)
      | inr e ↦ simp e (omega arith)
    ]

checked_more : (n : ℕ) → n + 1 ≤ u64_max → ok_or (checked_add n 1) capacity ≡ ok (n + 1)
checked_more n h = rw (le→ltb u64_max (n + 1) h) refl

count_needed-bare_count :
    (needed : ℕ) (cr : Bool) (units : List ℕ)
    → needed + bare_count cr units ≤ u64_max
    → count_needed needed cr units ≡ ok (needed + bare_count cr units)
unfolding count_needed bare_count ◌>>=◌
count_needed-bare_count needed cr [] h = ap ok (omega arith)
count_needed-bare_count needed cr (unit ∷ units) h = elim (Bool-cases (is_bare cr unit)) [
  | inl e ↦
      let l : needed + (1 + bare_count (unit == b'\r') units) ≤ u64_max = simp e at h in
      simp e (
        rw (checked_more needed (omega arith)) (
          count_needed-bare_count (needed + 1) (unit == b'\r') units (omega arith)
          ∙ ap ok (omega arith)))
  | inr e ↦
      let l : needed + bare_count (unit == b'\r') units ≤ u64_max = simp e at h in
      simp e (count_needed-bare_count needed (unit == b'\r') units l)
]

-- A text of at most 2^63 - 1 units is rendered whenever the output has room for it, into exactly as
-- many units as the first pass has counted, and is otherwise refused for its size alone.
pub render_console_text-Exact :
    (input : List ℕ) (cr : Bool) (room : ℕ)
    → length input ≤ 2 ^ 63 - 1
    → render_console_text input cr room ≡ (
        if ltb room (length (write_units cr input))
        then err capacity
        else ok (write_units cr input, ends_in_cr cr input))
unfolding render_console_text ◌>>=◌
render_console_text-Exact input cr room h =
    let b = bare_count-length cr input in
    rw (count_needed-bare_count (length input) cr input (omega arith), length-write_units cr input)
      refl

write_units-append :
    (cr : Bool) (xs ys : List ℕ)
    → write_units cr (xs ++ ys) ≡ write_units cr xs ++ write_units (ends_in_cr cr xs) ys
unfolding write_units ends_in_cr
write_units-append cr [] ys = refl
write_units-append cr (x ∷ xs) ys =
    rw (write_units-append (x == b'\r') xs ys)
      (elim (Bool-cases (is_bare cr x)) [ inl e ↦ simp e | inr e ↦ simp e ])

ends_in_cr-append :
    (cr : Bool) (xs ys : List ℕ) → ends_in_cr cr (xs ++ ys) ≡ ends_in_cr (ends_in_cr cr xs) ys
unfolding ends_in_cr
ends_in_cr-append cr [] ys = refl
ends_in_cr-append cr (x ∷ xs) ys = ends_in_cr-append (x == b'\r') xs ys

-- Where a text is rendered in two pieces, the second one with the flag that the first one leaves,
-- the whole text is rendered at once to the two outputs one behind the other, with the same flag, if
-- it has at most 2^63 - 1 units.
pub render_console_text-append :
    (xs ys : List ℕ) (cr : Bool) (room : ℕ)
    → length (xs ++ ys) ≤ 2 ^ 63 - 1
    → length (write_units cr xs ++ write_units (ends_in_cr cr xs) ys) ≤ room
    → render_console_text (xs ++ ys) cr room
      ≡ ok
          (write_units cr xs ++ write_units (ends_in_cr cr xs) ys, ends_in_cr (ends_in_cr cr xs) ys)
render_console_text-append xs ys cr room h l =
    render_console_text-Exact (xs ++ ys) cr room h
    ∙ rw (write_units-append cr xs ys, ends_in_cr-append cr xs ys, le→ltb room _ l) refl
