-- ===== src/Editor/Tests.antt =====
-- Runs of the editor, and the theorems about it at concrete inputs.
use promptboot.Prelude.{ℕ, ◌≡◌, refl, List, [], ◌∷◌, arith, inl, All, u64_max}
use promptboot.Editor.{
  Editor, continue, live_ascii, erase_last, accepted, prompt, prompt_index_overflow, new, run,
  process_key, plain_key, enter_key, printable_key, backspace_key, clear,
}
use promptboot.Editor.Invariant.{IsValid, IsPrintable, new-IsValid, process_key-IsValid, line}
use promptboot.Editor.Sessions.{Shows, run-Shows}
use promptboot.Editor.Lines.{Entered, type_line, backspace_undoes}

-- "/new"
abbrev command : List ℕ
command = 47 ∷ 110 ∷ 101 ∷ 119 ∷ []

-- "a", backspace, "/new", return
abbrev keys : List ℕ
keys = 97 ∷ 8 ∷ 47 ∷ 110 ∷ 101 ∷ 119 ∷ 13 ∷ []

run-keys :
    (run new keys).2
    ≡ live_ascii 97
      ∷ erase_last
      ∷ live_ascii 47
      ∷ live_ascii 110
      ∷ live_ascii 101
      ∷ live_ascii 119
      ∷ accepted 1 command
      ∷ prompt 2
      ∷ []
unfolding run new process_key plain_key enter_key printable_key backspace_key clear
run-keys = refl

run-keys_flow : (run new keys).1 ≡ continue
unfolding run new process_key plain_key enter_key printable_key backspace_key clear
run-keys_flow = refl

command-IsPrintable : All IsPrintable command
command-IsPrintable = omega arith

process_key-IsValid_example : IsValid (process_key new 97).0
process_key-IsValid_example = process_key-IsValid new 97 new-IsValid

run-Shows_example :
    Shows new.prompt_index
      (line new)
      (run new keys).2
      (run new keys).0.prompt_index
      (line (run new keys).0)
run-Shows_example = run-Shows keys new new-IsValid run-keys_flow

type_line_example : Entered new command (run new (47 ∷ 110 ∷ 101 ∷ 119 ∷ 13 ∷ []))
unfolding new
type_line_example =
    type_line new command new-IsValid refl (omega arith) refl (omega arith) command-IsPrintable
      (omega arith)

backspace_undoes_example :
    run new (97 ∷ 8 ∷ [])
    ≡ (record new { pending_terminator = 0 }, continue, live_ascii 97 ∷ erase_last ∷ [])
unfolding new
backspace_undoes_example = backspace_undoes new 97 new-IsValid refl (omega arith) (omega arith)

abbrev last : Editor
last = record new { prompt_index = u64_max }

last-IsValid : IsValid last
unfolding new
last-IsValid = record {
  sized = new-IsValid.sized;
  within = omega arith;
  printable = tt;
  clean = new-IsValid.clean;
  first_index = omega arith;
  last_index = omega arith;
  discards = λ d. cc;
  pending = inl refl;
}

last_ends : (process_key last 13).1 ≡ prompt_index_overflow
unfolding new process_key plain_key enter_key clear
last_ends = refl
