-- ===== src/History.antt =====
-- `ConsoleHistory` of src/console_history.rs: the lines that the console has shown, in a ring, and
-- the page of them that is in view. `HISTORY_LINES`, which the code sets by its build, is the first
-- argument.
pub mod Ring
pub mod View
pub mod Written
mod Tests
use promptboot.Prelude.{
  ℕ, ◌+◌, ◌-◌, ◌*◌, ◌%◌, ◌^◌, min, max, Bool, true, false, not, List, [], ◌∷◌, ltb, ◌==◌,
  if◌then◌else◌, length, set, get_or, replicate,
}
use promptboot.Prelude.Slices.{slice, splice}

abbrev pub max_columns : ℕ
max_columns = 256

pub record ConsoleHistory : Type 0 where
  pub cells : List ℕ
  pub lengths : List ℕ
  pub hard_breaks : List Bool
  pub width : ℕ
  pub rows : ℕ
  pub head : ℕ
  pub count : ℕ
  pub column : ℕ
  pub view_offset : ℕ

unfoldable pub new : ℕ → ConsoleHistory
new lines = record {
  cells = replicate (max_columns * lines) 0;
  lengths = replicate lines 0;
  hard_breaks = replicate lines false;
  width = 80;
  rows = 25;
  head = 0;
  count = 1;
  column = 0;
  view_offset = 0;
}

unfoldable pub reset : ConsoleHistory → ConsoleHistory
reset h = record h {
  cells = replicate (length h.cells) 0;
  lengths = replicate (length h.lengths) 0;
  hard_breaks = replicate (length h.hard_breaks) false;
  head = 0;
  count = 1;
  column = 0;
  view_offset = 0;
}

-- `columns.clamp(1, MAX_COLUMNS)`, `rows.max(1)`
unfoldable pub configure : ConsoleHistory → ℕ → ℕ → ConsoleHistory
unfolding reset
configure h columns rows =
    reset (record h { width = min (max columns 1) max_columns; rows = max rows 1 })

unfoldable pub return_to_bottom : ConsoleHistory → ConsoleHistory × Bool
return_to_bottom h = (record h { view_offset = 0 }, not (h.view_offset == 0))

unfoldable pub advance_line : ℕ → ConsoleHistory → ConsoleHistory
advance_line lines h =
    let head = (h.head + 1) % lines in
    record h {
      head = head;
      count = if ltb h.count lines then h.count + 1 else h.count;
      cells =
          splice (head * max_columns) (head * max_columns + max_columns) (replicate max_columns 0)
            h.cells;
      lengths = set h.lengths head 0;
      hard_breaks = set h.hard_breaks head false;
      column = 0;
    }

-- A unit that is shown: `self.column as u16` keeps its low sixteen bits.
unfoldable pub put_unit : ℕ → ConsoleHistory → ℕ → ConsoleHistory
put_unit lines h value =
    let column = h.column + 1 in
    let shown = record h {
      cells = set h.cells (h.head * max_columns + h.column) value;
      column = column;
      lengths = set h.lengths h.head (max (get_or h.lengths h.head 0) (column % 2 ^ 16));
    } in
    if column == h.width then advance_line lines shown else shown

-- One unit in the loop of `write`.
unfoldable pub write_unit : ℕ → ConsoleHistory → ℕ → ConsoleHistory
write_unit lines h unit =
    if unit == 0x8
    then record h { column = h.column - 1 }
    else if unit == 0xd
    then record h { column = 0 }
    else if unit == 0xa
    then advance_line lines (record h { hard_breaks = set h.hard_breaks h.head true })
    else put_unit lines h unit

unfoldable pub write : ℕ → ConsoleHistory → List ℕ → ConsoleHistory
write lines h [] = h
write lines h (unit ∷ units) = write lines (write_unit lines h unit) units

-- `saturating_add` does not saturate on what fits into 64 bits, as `rows` and `view_offset` do.
unfoldable pub page_up : ConsoleHistory → ConsoleHistory × Bool
page_up h =
    let next = min (h.count - h.rows) (h.view_offset + h.rows) in
    (record h { view_offset = next }, not (next == h.view_offset))

unfoldable pub page_down : ConsoleHistory → ConsoleHistory × Bool
page_down h =
    let next = h.view_offset - h.rows in
    (record h { view_offset = next }, not (next == h.view_offset))

unfoldable pub viewport_len : ConsoleHistory → ℕ
viewport_len h = let end = h.count - h.view_offset in end - (end - h.rows)

-- The index in the ring of a row in view.
unfoldable pub physical_line : ℕ → ConsoleHistory → ℕ → ℕ
physical_line lines h row =
    let end = h.count - h.view_offset in
    let logical = end - h.rows + row in
    let oldest = (h.head + lines + 1 - h.count) % lines in (oldest + logical) % lines

unfoldable pub viewport_line : ℕ → ConsoleHistory → ℕ → List ℕ × Bool
viewport_line lines h row =
    let physical = physical_line lines h row in
    (
      slice (physical * max_columns) (get_or h.lengths physical 0) h.cells,
      get_or h.hard_breaks physical false,
    )

unfoldable pub viewport_cursor : ℕ → ConsoleHistory → ℕ × ℕ
viewport_cursor lines h =
    let last = viewport_len h - 1 in
    let shown = length (viewport_line lines h last).0 in
    if not (h.view_offset == 0) then (min shown (h.width - 1), last) else (h.column, last)
