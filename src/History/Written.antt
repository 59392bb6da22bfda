-- ===== src/History/Written.antt =====
-- What `write` of src/console_history.rs puts on the page in view.
use promptboot.Prelude.{
  ℕ, ◌+◌, ◌-◌, ◌*◌, ◌%◌, ◌^◌, ◌<◌, ◌≤◌, ◌≡◌, ◌≢◌, refl, sym, ap, subst, ◌∙◌, max, List, length, set,
  get_or, get_or-set_self, get_or-set_ne, false, ◌==◌, arith,
}
use native.Mathlib.Nat.{mod-eq_of_lt, add-mod_right}
use promptboot.History.{ConsoleHistory, max_columns, put_unit, viewport_len, viewport_line}
use promptboot.History.Ring.{IsValid, put_unit-IsValid, row_within}
use promptboot.History.View.{RowShown, viewport_line-Shown}

-- The last row of the view, at the bottom, is the current line.
bottom-place :
    (lines : ℕ) (h : ConsoleHistory)
    → IsValid lines h
    → h.view_offset ≡ 0
    → 0 < viewport_len h
    → (h.head + lines + 1 + (viewport_len h - 1) - (h.view_offset + viewport_len h)) % lines
      ≡ h.head
bottom-place lines h v z l =
    let e : h.head + lines + 1 + (viewport_len h - 1) - (h.view_offset + viewport_len h)
        ≡ h.head + lines =
      omega arith in
    ap (λ (n : ℕ). n % lines) e ∙ add-mod_right h.head lines ∙ mod-eq_of_lt v.head_in

some_row : (lines : ℕ) (h : ConsoleHistory) → IsValid lines h → 0 < viewport_len h
unfolding viewport_len
some_row lines h v = omega (arith, v.view_in, v.nonempty, v.some_rows)

bottom-RowShown :
    (lines : ℕ) (h : ConsoleHistory)
    → IsValid lines h
    → h.view_offset ≡ 0
    → RowShown lines h (viewport_len h - 1) h.head
bottom-RowShown lines h v z =
    let l = some_row lines h v in
    subst (RowShown lines h (viewport_len h - 1)) (bottom-place lines h v z l)
      (viewport_line-Shown lines h (viewport_len h - 1) v (omega (arith, l)))

-- The last row of the view.
abbrev pub bottom : ℕ → ConsoleHistory → List ℕ
bottom lines h = (viewport_line lines h (viewport_len h - 1)).0

-- The row shows the value in the column of the cursor and is as it was in the other columns, and the
-- cursor is one column further.
pub record Appears (lines value : ℕ) (h after : ConsoleHistory) : Type 0 where
  pub shows :
      (h.column < length (bottom lines after)) × (get_or (bottom lines after) h.column 0 ≡ value)
  pub others :
      (column : ℕ)
      → column < length (bottom lines h)
      → column ≢ h.column
      → get_or (bottom lines after) column 0 ≡ get_or (bottom lines h) column 0
  pub moved : after.column ≡ h.column + 1

module _ (lines : ℕ) (h : ConsoleHistory) (value : ℕ) (v : IsValid lines h)
    (at_bottom : h.view_offset ≡ 0) (room : h.column + 1 < h.width) where
  -- the length of the line behind the unit, and the history
  abbrev longest : ℕ
  longest = max (get_or h.lengths h.head 0) ((h.column + 1) % 2 ^ 16)

  abbrev after : ConsoleHistory
  after = record h {
    cells = set h.cells (h.head * max_columns + h.column) value;
    column = h.column + 1;
    lengths = set h.lengths h.head longest;
  }

  put_unit-after : put_unit lines h value ≡ after
  unfolding put_unit
  put_unit-after = let e : (h.column + 1 == h.width) ≡ false = ground arith in rw e refl

  after-IsValid : IsValid lines after
  after-IsValid = subst (IsValid lines) put_unit-after (put_unit-IsValid lines h value v)

  after-Appears : Appears lines value h after
  after-Appears =
      let (w, len, cells, flag) = bottom-RowShown lines h v at_bottom in
      let (w', len', cells', flag') = bottom-RowShown lines after after-IsValid at_bottom in
      let new_length : get_or (set h.lengths h.head longest) h.head 0 ≡ longest =
        get_or-set_self h.lengths h.head longest 0 (omega (arith, v.head_in, v.lengths_all)) in
      let reached : h.column < longest = omega (arith, v.narrow) in
      let old : get_or h.lengths h.head 0 ≤ longest = omega arith in
      let place = cells' h.column (omega (arith, new_length, reached)) in
      record {
        shows = (
          omega (arith, len', new_length, reached),
          place.1
              ∙ get_or-set_self h.cells (h.head * max_columns + h.column) value 0
                  (omega (arith, v.cells_all, row_within h.head lines w, v.narrow)),
        );
        others = λ column c n.
            (cells' column (omega (arith, new_length, old, len, c))).1
            ∙ get_or-set_ne h.cells (h.head * max_columns + h.column)
                (h.head * max_columns + column) value 0 (λ e. n (omega (arith, e)))
            ∙ sym (cells column (omega (arith, len, c))).1;
        moved = refl;
      }

  -- A unit put on the current line of a valid history whose view is at the bottom, not in the last
  -- column, is shown in the last row of the view, in the column of the cursor. The other columns of that
  -- row show what they did, and the cursor is one column further.
  pub put_unit-Appears : Appears lines value h (put_unit lines h value)
  put_unit-Appears = subst (Appears lines value h) (sym put_unit-after) after-Appears
