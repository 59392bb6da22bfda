-- ===== src/Tokenizer/Pretoken.antt =====
-- How crates/promptboot-core/src/tokenizer.rs cuts a text: at the tool tags, and into the fragments that
-- are merged one by one.
pub mod Tags
pub mod Bounds
use promptboot.Prelude.{
  ℕ, ◌+◌, ◌-◌, Bool, true, false, not, ◌&&◌, ◌||◌, List, [], ◌∷◌, ltb, leb, ◌==◌, if◌then◌else◌,
  length, take, drop, get_or,
}

abbrev pub tool_call : List ℕ
tool_call = 60 ∷ 116 ∷ 111 ∷ 111 ∷ 108 ∷ 95 ∷ 99 ∷ 97 ∷ 108 ∷ 108 ∷ 62 ∷ []

abbrev pub tool_end : List ℕ
tool_end = 60 ∷ 47 ∷ 116 ∷ 111 ∷ 111 ∷ 108 ∷ 95 ∷ 99 ∷ 97 ∷ 108 ∷ 108 ∷ 62 ∷ []

-- `starts_with`, on slices of bytes.
unfoldable pub starts_with : List ℕ → List ℕ → Bool
starts_with text [] = true
starts_with [] (p ∷ ps) = false
starts_with (b ∷ bs) (p ∷ ps) = b == p && starts_with bs ps

-- The place of the first tag, its token and its length; token 0 where there is none.
pub record Tag : Type 0 where
  pub at : ℕ
  pub token : ℕ
  pub size : ℕ

unfoldable pub next_from : ℕ → List ℕ → Tag
next_from at [] = record { at = at; token = 0; size = 0 }
next_from at (byte ∷ bytes) =
    let rest = next_from (at + 1) bytes in
    if starts_with (byte ∷ bytes) tool_call
    then record { at = at; token = 151657; size = length tool_call }
    else if starts_with (byte ∷ bytes) tool_end
    then record { at = at; token = 151658; size = length tool_end }
    else rest

unfoldable pub next_user_defined : List ℕ → Tag
next_user_defined text = next_from 0 text

unfoldable pub is_letter : ℕ → Bool
is_letter byte = leb 65 byte && leb byte 90 || leb 97 byte && leb byte 122

unfoldable pub is_digit : ℕ → Bool
is_digit byte = leb 48 byte && leb byte 57

unfoldable pub is_space : ℕ → Bool
is_space byte =
    byte == 32 || (byte == 9 || (byte == 10 || (byte == 13 || (byte == 0x0b || byte == 0x0c))))

unfoldable pub is_punctuation : ℕ → Bool
is_punctuation byte = not (is_space byte) && (not (is_letter byte) && not (is_digit byte))

-- `b'\r' | b'\n'`
unfoldable pub is_newline : ℕ → Bool
is_newline byte = byte == 13 || byte == 10

-- A letter of either case, by its capital.
abbrev pub either_case : ℕ → ℕ → Bool
either_case byte capital = byte == capital + 32 || byte == capital

unfoldable pub contraction_matches : List ℕ → Bool
contraction_matches (q ∷ a ∷ []) =
    q == 39 && (either_case a 83 || (either_case a 84 || (either_case a 77 || either_case a 68)))
contraction_matches (q ∷ a ∷ b ∷ []) =
    q == 39
    && (either_case a 82 && either_case b 69
        || (either_case a 86 && either_case b 69 || either_case a 76 && either_case b 76))
contraction_matches text = false

-- The loop over the lengths of the contractions; 0 where none stands here.
unfoldable pub contraction_length : List ℕ → List ℕ → ℕ
contraction_length text [] = 0
contraction_length text (size ∷ sizes) =
    let rest = contraction_length text sizes in
    if leb size (length text) && contraction_matches (take size text) then size else rest

-- The `while` loops: how many bytes from here on pass a test.
unfoldable pub run_of : (ℕ → Bool) → List ℕ → ℕ
run_of test [] = 0
run_of test (byte ∷ bytes) = let rest = 1 + run_of test bytes in if test byte then rest else 0

-- Behind the last line end of a run; `at` counts the bytes before it, `last` is the one found so far.
unfoldable pub last_newline_end : ℕ → ℕ → List ℕ → ℕ
last_newline_end last at [] = last
last_newline_end last at (byte ∷ bytes) =
    last_newline_end (if is_newline byte then at + 1 else last) (at + 1) bytes

-- The last branch but one, for a text that starts with a space.
unfoldable pub space_length : List ℕ → ℕ
space_length text =
    let run = run_of is_space text in
    let newline = last_newline_end 0 0 (take run text) in
    if not (newline == 0)
    then newline
    else if run == length text
    then run
    else if ltb 1 run
    then run - 1
    else run

-- Letters, with one byte before them where `optional` is 1.
unfoldable pub letters_length : ℕ → List ℕ → ℕ
letters_length optional text = optional + run_of is_letter (drop optional text)

-- Punctuation behind an optional space, with the line ends behind it.
unfoldable pub punctuation_length : ℕ → List ℕ → ℕ
punctuation_length optional text =
    let end = optional + run_of is_punctuation (drop optional text) in
    end + run_of is_newline (drop end text)

-- `optional < text.len() && test(text[optional])`
abbrev pub follows : (ℕ → Bool) → ℕ → List ℕ → Bool
follows test optional text = ltb optional (length text) && test (get_or text optional 0)

-- `pretoken_length` reads the first byte, and is called on texts that have one.
unfoldable pub pretoken_length : List ℕ → ℕ
pretoken_length [] = 0
pretoken_length (first ∷ rest) =
    let text = first ∷ rest in
    let contraction = contraction_length text (2 ∷ 2 ∷ 3 ∷ 3 ∷ 2 ∷ 3 ∷ 2 ∷ []) in
    let optional =
      if not (is_newline first) && (not (is_letter first) && not (is_digit first)) then 1 else 0 in
    let optional_space = if first == 32 then 1 else 0 in
    if not (contraction == 0)
    then contraction
    else if follows is_letter optional text
    then letters_length optional text
    else if is_digit first
    then 1
    else if follows is_punctuation optional_space text
    then punctuation_length optional_space text
    else if is_space first
    then space_length text
    else 1
