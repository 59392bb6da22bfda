-- ===== src/Model/Text.antt =====
-- `core::str::from_utf8`, as crates/promptboot-core/src/model.rs uses it: where the longest prefix of
-- whole characters ends, if that is not the whole text.
use promptboot.Prelude.{
  ℕ, zero, suc, ◌+◌, ◌-◌, not, ◌&&◌, ◌||◌, List, [], ◌∷◌, Option, none, some, ltb, leb, ◌==◌,
  if◌then◌else◌, length, take, drop,
}
use promptboot.Utf8.{bad_second, all_continuations}

-- The length that the first byte announces, and 0 where it announces none.
unfoldable pub lead_width : ℕ → ℕ
lead_width first =
    if leb first 0x7f
    then 1
    else if leb 0xc2 first && leb first 0xdf
    then 2
    else if leb 0xe0 first && leb first 0xef
    then 3
    else if leb 0xf0 first && leb first 0xf4
    then 4
    else 0

-- The length of the character that stands here, and 0 where none does.
unfoldable pub scalar_width : ℕ → List ℕ → ℕ
scalar_width first tail =
    let width = lead_width first in
    let cut = ltb (1 + length tail) width in
    let bad = leb 2 width && bad_second first tail in
    let open_end = not (all_continuations (take (width - 1) tail)) in
    if cut || (bad || open_end) then 0 else width

-- `valid_up_to`; each turn takes a byte at least.
unfoldable pub utf8_error : ℕ → ℕ → List ℕ → Option ℕ
utf8_error fuel at [] = none
utf8_error zero at (first ∷ tail) = some at
utf8_error (suc fuel) at (first ∷ tail) =
    let width = scalar_width first tail in
    let rest = utf8_error fuel (at + width) (drop (width - 1) tail) in
    if width == 0 then some at else rest

unfoldable pub from_utf8 : List ℕ → Option ℕ
from_utf8 bytes = utf8_error (length bytes) 0 bytes
