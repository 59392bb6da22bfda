-- ===== src/History/Tests.antt =====
-- Runs of the console history on a ring of four lines, for src/console_history.rs.
use promptboot.Prelude.{ℕ, ◌≡◌, ◌<◌, ◌+◌, ◌-◌, ◌%◌, refl, false, [], ◌∷◌, List, arith}
use promptboot.History.{
  new, configure, write, write_unit, put_unit, advance_line, page_up, viewport_len, viewport_line,
  physical_line,
}
use promptboot.History.Ring.{
  IsValid, new-IsValid, write-IsValid, begins, goes_on, configures, writes, pages_up, Reach-IsValid,
}
use promptboot.History.Written.{Appears, put_unit-Appears}
use promptboot.History.View.{RowShown, viewport_line-Shown}

-- "a", a line feed, "b"
abbrev units : List ℕ
units = 97 ∷ 13 ∷ 10 ∷ 98 ∷ []

written_IsValid : IsValid 4 (write 4 (new 4) units)
written_IsValid = write-IsValid 4 (new 4) units (new-IsValid 4 (omega arith))

newest_line : viewport_line 4 (write 4 (new 4) units) 1 ≡ (98 ∷ [], false)
unfolding viewport_line physical_line write write_unit put_unit advance_line new
newest_line = refl

Reach-IsValid_example : IsValid 4 (page_up (write 4 (configure (new 4) 8 1) units)).0
Reach-IsValid_example =
    Reach-IsValid 4 (omega arith)
      (goes_on (goes_on (goes_on begins (configures 8 1)) (writes units)) pages_up)

shown_rows : 1 < viewport_len (write 4 (new 4) units)
unfolding viewport_len write write_unit put_unit advance_line new
shown_rows = omega arith

viewport_line-Shown_example :
    let h = write 4 (new 4) units in
    RowShown 4 h 1 ((h.head + 4 + 1 + 1 - (h.view_offset + viewport_len h)) % 4)
viewport_line-Shown_example =
    viewport_line-Shown 4 (write 4 (new 4) units) 1 written_IsValid shown_rows

written_bottom : (write 4 (new 4) units).view_offset ≡ 0
unfolding write write_unit put_unit advance_line new
written_bottom = refl

written_room : (write 4 (new 4) units).column + 1 < (write 4 (new 4) units).width
unfolding write write_unit put_unit advance_line new
written_room = omega arith

put_unit-Appears_example :
    Appears 4 99 (write 4 (new 4) units) (put_unit 4 (write 4 (new 4) units) 99)
put_unit-Appears_example =
    put_unit-Appears 4 (write 4 (new 4) units) 99 written_IsValid written_bottom written_room
