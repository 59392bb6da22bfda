-- ===== src/Repl/Tests.antt =====
-- Runs of the REPL contracts, for src/repl_contract.rs and crates/promptboot-core/src/lib.rs.
use promptboot.Prelude.{
  ℕ, List, ◌≡◌, ◌++◌, refl, true, false, ok, err, [], ◌∷◌, ltb, length, if◌then◌else◌, arith, ◌>>=◌,
}
use promptboot.ModelContract.{codes}
use promptboot.Repl.{commit_eos, im_end, is_help_command}
use promptboot.Repl.{context_tokens}
use promptboot.Repl.Commit.{Committed, commit_eos-Committed}
use promptboot.Prelude.{replicate, length-replicate}
use promptboot.Utf8.{capacity}
use promptboot.Repl.Rendering.{
  render_console_text, count_needed, write_units, ends_in_cr, render_console_text-Exact,
  render_console_text-append,
}

help_command : is_help_command (codes "/help") ≡ true
unfolding is_help_command
help_command = refl

help_command_longer : is_help_command (codes "/help ") ≡ false
unfolding is_help_command
help_command_longer = refl

renders :
    render_console_text (97 ∷ 10 ∷ 13 ∷ 10 ∷ []) false 8 ≡ ok (97 ∷ 13 ∷ 10 ∷ 13 ∷ 10 ∷ [], false)
unfolding render_console_text count_needed write_units ends_in_cr ◌>>=◌
renders = refl

render_console_text-Exact_example : render_console_text (97 ∷ 10 ∷ []) false 2 ≡ (
    if ltb 2 (length (write_units false (97 ∷ 10 ∷ [])))
    then err capacity
    else ok (write_units false (97 ∷ 10 ∷ []), ends_in_cr false (97 ∷ 10 ∷ [])))
render_console_text-Exact_example = render_console_text-Exact (97 ∷ 10 ∷ []) false 2 (omega arith)

-- A carriage return at the end of the first piece.
render_console_text-append_example :
    render_console_text ((97 ∷ 13 ∷ []) ++ (10 ∷ [])) false 4
    ≡ ok (
      write_units false (97 ∷ 13 ∷ []) ++ write_units (ends_in_cr false (97 ∷ 13 ∷ [])) (10 ∷ []),
      ends_in_cr (ends_in_cr false (97 ∷ 13 ∷ [])) (10 ∷ []),
    )
unfolding write_units ends_in_cr
render_console_text-append_example =
    render_console_text-append (97 ∷ 13 ∷ []) (10 ∷ []) false 4 (omega arith) (omega arith)

-- A buffer that holds one token, the end mark.
unfoldable one_turn : List ℕ
one_turn = im_end ∷ replicate 32767 0

one_turn_full : length one_turn ≡ context_tokens
unfolding one_turn
one_turn_full = omega (arith, length-replicate {A = ℕ} 32767 0)

-- The tokens of a longer history, which the new one replaces.
unfoldable stale : List ℕ
stale = replicate 32768 7

stale_full : length stale ≡ context_tokens
unfolding stale
stale_full = length-replicate {A = ℕ} 32768 7

commit_eos-Committed_example : Committed stale one_turn 1 (commit_eos stale one_turn 1)
commit_eos-Committed_example = commit_eos-Committed stale one_turn 1 stale_full one_turn_full
