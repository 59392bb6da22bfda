-- ===== src/History/View.antt =====
-- The page in view of src/console_history.rs: its size, its cursor and its lines.
use promptboot.Prelude.{
  refl, subst, drop, false, ℕ, ◌+◌, ◌-◌, ◌*◌, ◌%◌, ◌<◌, ◌≤◌, ◌≡◌, ap, ◌∙◌, not, min, ◌==◌, if-cases,
  length, length-take, length-drop, get_or, arith,
}
use native.Mathlib.Nat.{mod-lt, mod-add-mod}
use promptboot.Prelude.Reading.{get_or-take, get_or-drop}
use promptboot.History.{
  ConsoleHistory, max_columns, viewport_len, physical_line, viewport_line, viewport_cursor,
}
use promptboot.History.Ring.{IsValid, Short-get_or, row_within}

-- The view of a valid history has as many lines as fit into the rows and have been shown, at least
-- one, and its cursor is in view, within the width.
pub viewport_cursor-InView :
    (lines : ℕ) (h : ConsoleHistory)
    → IsValid lines h
    → (viewport_len h ≡ min h.rows h.count)
      × ((viewport_cursor lines h).1 < viewport_len h)
      × ((viewport_cursor lines h).0 < h.width)
unfolding viewport_len viewport_cursor
viewport_cursor-InView lines h v = (
  omega (arith, v.view_in),
  if-cases (λ (c : ℕ × ℕ). c.1 < viewport_len h) (not (h.view_offset == 0)) _ _
      (λ _. omega (arith, v.view_in, v.nonempty, v.some_rows))
      (λ _. omega (arith, v.view_in, v.nonempty, v.some_rows)),
  if-cases (λ (c : ℕ × ℕ). c.0 < h.width) (not (h.view_offset == 0)) _ _
      (λ _. omega (arith, v.wide)) (λ _. v.column_in),
)

physical_line-within :
    (lines : ℕ) (h : ConsoleHistory) (row : ℕ) → 0 < lines → physical_line lines h row < lines
unfolding physical_line
physical_line-within lines h row l = mod-lt _ l

physical_line-place :
    (lines : ℕ) (h : ConsoleHistory) (row : ℕ)
    → IsValid lines h
    → row < viewport_len h
    → physical_line lines h row
      ≡ (h.head + lines + 1 + row - (h.view_offset + viewport_len h)) % lines
unfolding physical_line viewport_len
physical_line-place lines h row v r =
    mod-add-mod (h.head + lines + 1 - h.count) lines _
    ∙ ap (λ (n : ℕ). n % lines) (omega (arith, v.view_in, v.count_in, v.head_in))

-- A row of the view shows the line of the ring with an index.
abbrev pub RowShown : ℕ → ConsoleHistory → ℕ → ℕ → Type 0
RowShown lines h row p =
    (p < lines)
    × (length (viewport_line lines h row).0 ≡ get_or h.lengths p 0)
    × ((column : ℕ)
        → column < get_or h.lengths p 0
        → (p * max_columns + column < length h.cells)
          × (get_or (viewport_line lines h row).0 column 0
              ≡ get_or h.cells (p * max_columns + column) 0))
    × ((viewport_line lines h row).1 ≡ get_or h.hard_breaks p false)

-- A row of the view of a valid history is the line of the ring that was written as many lines
-- before the current one as the row lies above the bottom of the view, plus the view's offset: it
-- has the length of that line, shows at each column the cell that the array holds for that line and
-- column, all within the array, and carries the break of that line.
pub viewport_line-Shown :
    (lines : ℕ) (h : ConsoleHistory) (row : ℕ)
    → IsValid lines h
    → row < viewport_len h
    → RowShown lines h row ((h.head + lines + 1 + row - (h.view_offset + viewport_len h)) % lines)
unfolding viewport_line
viewport_line-Shown lines h row v r =
    subst (RowShown lines h row) (physical_line-place lines h row v r) (
      within,
      (length-take (get_or h.lengths p 0) _
          ∙ omega (
            arith,
            length-drop (p * max_columns) h.cells,
            v.cells_all,
            row_within p lines within,
            narrow,
            v.narrow,
          )),
      (λ column c. (
        omega (arith, v.cells_all, row_within p lines within, narrow, v.narrow, c),
        get_or-take (drop (p * max_columns) h.cells) (get_or h.lengths p 0) column 0 c
            ∙ get_or-drop h.cells (p * max_columns) column (p * max_columns + column) 0 refl,
      )),
      refl,
    )
  where
    p : ℕ
    p = physical_line lines h row

    within : p < lines
    within = physical_line-within lines h row v.some_lines

    narrow : get_or h.lengths p 0 ≤ h.width
    narrow = Short-get_or h.width h.lengths p v.short
