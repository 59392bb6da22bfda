-- ===== src/History/Ring.antt =====
-- The invariant of the ring of src/console_history.rs: every index that its operations use lies
-- within its arrays.
use promptboot.Prelude.{
  ◌^◌, ℕ, zero, suc, ◌+◌, ◌-◌, ◌*◌, ◌%◌, ◌<◌, ◌≤◌, ◌≡◌, ◌∙◌, true, false, min, max, List, [], ◌∷◌,
  ltb, ◌==◌, if-cases, length, length-set, length-replicate, set, get_or, replicate, All, arith,
}
use promptboot.Prelude.Slices.{length-splice}
use native.Mathlib.Nat.{mod-lt}
use promptboot.History.{
  ConsoleHistory, max_columns, new, reset, configure, return_to_bottom, advance_line, put_unit,
  write_unit, write, page_up, page_down,
}

abbrev pub Short : ℕ → List ℕ → Type 0
Short width = All (λ n. n ≤ width)

pub record IsValid (lines : ℕ) (h : ConsoleHistory) : Type 0 where
  pub some_lines : 0 < lines
  pub cells_all : length h.cells ≡ max_columns * lines
  pub lengths_all : length h.lengths ≡ lines
  pub breaks_all : length h.hard_breaks ≡ lines
  pub wide : 0 < h.width
  pub narrow : h.width ≤ max_columns
  pub some_rows : 0 < h.rows
  pub head_in : h.head < lines
  pub nonempty : 0 < h.count
  pub count_in : h.count ≤ lines
  pub column_in : h.column < h.width
  pub view_in : h.view_offset ≤ h.count - h.rows
  pub short : Short h.width h.lengths

Short-set :
    (width : ℕ) (xs : List ℕ) (i n : ℕ) → n ≤ width → Short width xs → Short width (set xs i n)
Short-set width [] i n l s = tt
Short-set width (x ∷ xs) zero n l (p, s) = (l, s)
Short-set width (x ∷ xs) (suc i) n l (p, s) = (p, Short-set width xs i n l s)

pub Short-get_or : (width : ℕ) (xs : List ℕ) (i : ℕ) → Short width xs → get_or xs i 0 ≤ width
Short-get_or width [] i s = omega arith
Short-get_or width (x ∷ xs) zero (p, s) = p
Short-get_or width (x ∷ xs) (suc i) (p, s) = Short-get_or width xs i s

Short-replicate : (width n : ℕ) → Short width (replicate n 0)
Short-replicate width zero = tt
Short-replicate width (suc n) = (omega arith, Short-replicate width n)

pub row_within : (row lines : ℕ) → row < lines → row * 256 + 256 ≤ 256 * lines
row_within row lines h = omega arith

advance_line-IsValid :
    (lines : ℕ) (h : ConsoleHistory)
    → IsValid lines (record h { column = 0 })
    → IsValid lines (advance_line lines h)
unfolding advance_line
advance_line-IsValid lines h v = record {
  some_lines = v.some_lines;
  cells_all =
      length-splice h.cells (replicate max_columns 0) ((h.head + 1) % lines * max_columns) _
        (omega (arith, length-replicate {A = ℕ} max_columns 0))
        (omega (
          arith,
          v.cells_all,
          row_within ((h.head + 1) % lines) lines (mod-lt (h.head + 1) v.some_lines),
        ))
      ∙ v.cells_all;
  lengths_all = length-set h.lengths ((h.head + 1) % lines) 0 ∙ v.lengths_all;
  breaks_all = length-set h.hard_breaks ((h.head + 1) % lines) false ∙ v.breaks_all;
  wide = v.wide;
  narrow = v.narrow;
  some_rows = v.some_rows;
  head_in = mod-lt (h.head + 1) v.some_lines;
  nonempty = if-cases (λ n. 0 < n) (ltb h.count lines) _ _ (λ _. omega arith) (λ _. v.nonempty);
  count_in =
      if-cases (λ n. n ≤ lines) (ltb h.count lines) _ _ (λ t. ground arith) (λ _. v.count_in);
  column_in = v.wide;
  view_in =
      if-cases (λ n. h.view_offset ≤ n - h.rows) (ltb h.count lines) _ _
        (λ _. omega (arith, v.view_in)) (λ _. v.view_in);
  short = Short-set h.width h.lengths ((h.head + 1) % lines) 0 (omega arith) v.short;
}

-- A unit that is shown, before the line ends.
pub put_unit-IsValid :
    (lines : ℕ) (h : ConsoleHistory) (value : ℕ)
    → IsValid lines h
    → IsValid lines (put_unit lines h value)
unfolding put_unit
put_unit-IsValid lines h value v =
    if-cases (IsValid lines) (h.column + 1 == h.width) _ _
      (λ _. advance_line-IsValid lines _ (shown-IsValid 0 v.wide))
      (λ f. shown-IsValid (h.column + 1) (let l = v.column_in in ground arith))
  where
    shown-IsValid :
        (column : ℕ)
        → column < h.width
        → IsValid lines (record h {
          cells = set h.cells (h.head * max_columns + h.column) value;
          column = column;
          lengths =
              set h.lengths h.head (max (get_or h.lengths h.head 0) ((h.column + 1) % 2 ^ 16));
        })
    shown-IsValid column l = record {
      some_lines = v.some_lines;
      cells_all = length-set h.cells (h.head * max_columns + h.column) value ∙ v.cells_all;
      lengths_all = length-set h.lengths h.head _ ∙ v.lengths_all;
      breaks_all = v.breaks_all;
      wide = v.wide;
      narrow = v.narrow;
      some_rows = v.some_rows;
      head_in = v.head_in;
      nonempty = v.nonempty;
      count_in = v.count_in;
      column_in = l;
      view_in = v.view_in;
      short =
          Short-set h.width h.lengths h.head _
            (omega (arith, v.column_in, v.narrow, Short-get_or h.width h.lengths h.head v.short))
            v.short;
    }

with_column-IsValid :
    (lines : ℕ) (h : ConsoleHistory) (column : ℕ)
    → IsValid lines h
    → column < h.width
    → IsValid lines (record h { column = column })
with_column-IsValid lines h column v l = ground arith

write_unit-IsValid :
    (lines : ℕ) (h : ConsoleHistory) (unit : ℕ)
    → IsValid lines h
    → IsValid lines (write_unit lines h unit)
unfolding write_unit
write_unit-IsValid lines h unit v =
    if-cases (IsValid lines) (unit == 0x8) _ _
      (λ _. with_column-IsValid lines h (h.column - 1) v (omega (arith, v.column_in)))
      λ _.
        if-cases (IsValid lines) (unit == 0xd) _ _ (λ _. with_column-IsValid lines h 0 v v.wide)
          λ _.
            if-cases (IsValid lines) (unit == 0xa) _ _ (λ _. advance_line-IsValid lines _ broken)
              (λ _. put_unit-IsValid lines h unit v)
  where
    broken : IsValid lines (record h { hard_breaks = set h.hard_breaks h.head true; column = 0 })
    broken = ground (arith, length-set h.hard_breaks h.head true)

-- Whatever is written to a valid history leaves it valid: all indices stay within the arrays, and
-- the cursor within the line.
pub write-IsValid :
    (lines : ℕ) (h : ConsoleHistory) (units : List ℕ)
    → IsValid lines h
    → IsValid lines (write lines h units)
unfolding write
write-IsValid lines h [] v = v
write-IsValid lines h (unit ∷ units) v =
    write-IsValid lines (write_unit lines h unit) units (write_unit-IsValid lines h unit v)

reset-IsValid :
    (lines : ℕ) (h : ConsoleHistory)
    → IsValid lines h
    → (w r : ℕ) → 0 < w
    → w ≤ max_columns
    → 0 < r
    → IsValid lines (reset (record h { width = w; rows = r }))
unfolding reset
reset-IsValid lines h v w r a b c = record {
  some_lines = v.some_lines;
  cells_all = length-replicate {A = ℕ} (length h.cells) 0 ∙ v.cells_all;
  lengths_all = length-replicate {A = ℕ} (length h.lengths) 0 ∙ v.lengths_all;
  breaks_all = length-replicate (length h.hard_breaks) false ∙ v.breaks_all;
  wide = a;
  narrow = b;
  some_rows = c;
  head_in = v.some_lines;
  nonempty = omega arith;
  count_in = v.some_lines;
  column_in = a;
  view_in = omega arith;
  short = Short-replicate w (length h.lengths);
}

pub new-IsValid : (lines : ℕ) → 0 < lines → IsValid lines (new lines)
unfolding new
new-IsValid lines l = record {
  some_lines = l;
  cells_all = length-replicate {A = ℕ} (max_columns * lines) 0;
  lengths_all = length-replicate {A = ℕ} lines 0;
  breaks_all = length-replicate lines false;
  wide = omega arith;
  narrow = omega arith;
  some_rows = omega arith;
  head_in = l;
  nonempty = omega arith;
  count_in = l;
  column_in = omega arith;
  view_in = omega arith;
  short = Short-replicate 80 lines;
}

-- One call on a history.
pub data Step (lines : ℕ) (h : ConsoleHistory) : ConsoleHistory → Type 0 where
  configures : (columns rows : ℕ) → Step lines h (configure h columns rows)
  resets : Step lines h (reset h)
  returns : Step lines h (return_to_bottom h).0
  writes : (units : List ℕ) → Step lines h (write lines h units)
  pages_up : Step lines h (page_up h).0
  pages_down : Step lines h (page_down h).0

pub data Reach (lines : ℕ) : ConsoleHistory → Type 0 where
  begins : Reach lines (new lines)
  goes_on : {h h' : ConsoleHistory} → Reach lines h → Step lines h h' → Reach lines h'

moved-IsValid :
    (lines : ℕ) (h : ConsoleHistory) (offset : ℕ)
    → IsValid lines h
    → offset ≤ h.count - h.rows
    → IsValid lines (record h { view_offset = offset })
moved-IsValid lines h offset v l = ground arith

Step-IsValid :
    (lines : ℕ) (h : ConsoleHistory) {h' : ConsoleHistory}
    → IsValid lines h
    → Step lines h h'
    → IsValid lines h'
unfolding configure return_to_bottom page_up page_down
Step-IsValid lines h v (configures columns rows) =
    reset-IsValid lines h v (min (max columns 1) max_columns) (max rows 1) (omega arith)
      (omega arith) (omega arith)
Step-IsValid lines h v resets = reset-IsValid lines h v h.width h.rows v.wide v.narrow v.some_rows
Step-IsValid lines h v returns = moved-IsValid lines h 0 v (omega arith)
Step-IsValid lines h v (writes units) = write-IsValid lines h units v
Step-IsValid lines h v pages_up = moved-IsValid lines h _ v (omega arith)
Step-IsValid lines h v pages_down = moved-IsValid lines h _ v (omega (arith, v.view_in))

-- Any calls on a new history of at least one line leave it valid: the ring's head, the number of
-- lines, the cursor, the lengths and the view stay within their bounds.
pub Reach-IsValid : (lines : ℕ) {h : ConsoleHistory} → 0 < lines → Reach lines h → IsValid lines h
Reach-IsValid lines l begins = new-IsValid lines l
Reach-IsValid lines l (goes_on {h} r s) = Step-IsValid lines h (Reach-IsValid lines l r) s
