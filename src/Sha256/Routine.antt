-- ===== src/Sha256/Routine.antt =====
-- What the instructions that `promptboot_sha256_rounds` of crates/promptboot-core/src/sha256.rs uses are
-- documented to do, as one routine that can stand for it.
use promptboot.Prelude.{◌∙◌, ap, arith, ℕ, ◌≡◌, refl, List, [], ◌∷◌}
use mathlib.Core.Path.{fun_ext}
use promptboot.Sha256.Compress.{
  round_by, ◌⊞◌, add_chain, add_constants, rounds, round_words, round_constants, Chain,
  compress_scalar,
}

-- A routine that does what the instructions are documented to do: each round adds its word.
unfoldable rounds_by_words : List ℕ → Chain → Chain
rounds_by_words [] s = s
rounds_by_words (w ∷ ws) s = rounds_by_words ws (round_by (λ t. t ⊞ w) s)

unfoldable pub routine : Chain → List ℕ → Chain
unfolding rounds_by_words
routine chain words = add_chain chain (rounds_by_words words chain)

add_either : (k w : ℕ) → Path (ℕ → ℕ) (λ t. t ⊞ (w ⊞ k)) (λ t. t ⊞ k ⊞ w)
add_either k w = fun_ext (λ t. omega arith)

rounds_by_words-rounds :
    (ks ws : List ℕ) (s : Chain) → rounds_by_words (add_constants ks ws) s ≡ rounds ks ws s
unfolding rounds_by_words add_constants rounds
rounds_by_words-rounds [] ws s = refl
rounds_by_words-rounds (k ∷ ks) [] s = refl
rounds_by_words-rounds (k ∷ ks) (w ∷ ws) s =
    rounds_by_words-rounds ks ws (round_by (λ t. t ⊞ (w ⊞ k)) s)
    ∙ ap (λ (f : ℕ → ℕ). rounds ks ws (round_by f s)) (add_either k w)

pub routine-compress_scalar :
    (c : Chain) (w : List ℕ) → routine c (round_words w) ≡ compress_scalar c w
unfolding routine round_words compress_scalar
routine-compress_scalar c w = ap (add_chain c) (rounds_by_words-rounds round_constants w c)
