-- ===== src/Sha256/Padding.antt =====
-- The hash of a whole message, as the standard has it: the reference for the streaming code of
-- crates/promptboot-core/src/sha256.rs.
use promptboot.Prelude.{
  flatten, ℕ, zero, suc, ◌-◌, ◌*◌, ◌/◌, ◌%◌, ◌^◌, ◌≡◌, refl, ap, sym, List, [], ◌∷◌, ◌++◌, length,
  take, drop, replicate, All, length-append, take-append, drop-append, arith,
}
use promptboot.Sha256.Compress.{
  Chain, initial, message_schedule, compress_scalar, be_bytes, chain_bytes,
}

-- The message, a byte 0x80, zeros up to 8 bytes before the end of a block, the length in bits.
unfoldable pub padded : List ℕ → List ℕ
padded msg =
    msg
    ++ (0x80 ∷ replicate ((119 - length msg % 64) % 64) 0 ++ be_bytes 8 (length msg * 8 % 2 ^ 64))

-- The first `n` blocks of 64 bytes.
unfoldable pub blocks : ℕ → List ℕ → List (List ℕ)
blocks zero bytes = []
blocks (suc n) bytes = take 64 bytes ∷ blocks n (drop 64 bytes)

unfoldable pub step_block : Chain → List ℕ → Chain
step_block s block = compress_scalar s (message_schedule block)

unfoldable pub chain_blocks : Chain → List (List ℕ) → Chain
chain_blocks s [] = s
chain_blocks s (b ∷ bs) = chain_blocks (step_block s b) bs

unfoldable pub sha256 : List ℕ → List ℕ
sha256 msg = chain_bytes (chain_blocks initial (blocks (length (padded msg) / 64) (padded msg)))

abbrev pub Whole : List (List ℕ) → Type 0
Whole = All (λ b. length b ≡ 64)

pub chain_blocks-append :
    (s : Chain) (xs ys : List (List ℕ))
    → chain_blocks s (xs ++ ys) ≡ chain_blocks (chain_blocks s xs) ys
unfolding chain_blocks
chain_blocks-append s [] ys = refl
chain_blocks-append s (x ∷ xs) ys = chain_blocks-append (step_block s x) xs ys

pub length-flatten : (bs : List (List ℕ)) → Whole bs → length (flatten bs) ≡ 64 * length bs
length-flatten [] h = refl
length-flatten (b ∷ bs) (h, k) = omega (arith, length-append b (flatten bs), length-flatten bs k)

-- A list of whole blocks is read back from its bytes.
blocks-flatten : (bs : List (List ℕ)) → Whole bs → blocks (length bs) (flatten bs) ≡ bs
unfolding blocks
blocks-flatten [] h = refl
blocks-flatten (b ∷ bs) (h, k) =
    rw (← h) (rw (take-append b (flatten bs), drop-append b (flatten bs), blocks-flatten bs k) refl)

-- The hash by any division of the padded message into whole blocks.
pub sha256-of_blocks :
    (msg : List ℕ) (bs : List (List ℕ))
    → Whole bs
    → flatten bs ≡ padded msg
    → chain_bytes (chain_blocks initial bs) ≡ sha256 msg
unfolding sha256
sha256-of_blocks msg bs h e =
    let n : length (padded msg) / 64 ≡ length bs = rw (← e) (omega (arith, length-flatten bs h)) in
    ap (λ (l : List (List ℕ)). chain_bytes (chain_blocks initial l))
      (sym (rw (n, ← e) (blocks-flatten bs h)))
