-- ===== src/Arena/Align.antt =====
-- The alignment arithmetic of `allocate` in crates/promptboot-core/src/arena.rs.
use promptboot.Prelude.{
  ℕ, ◌+◌, ◌-◌, ◌*◌, ◌/◌, ◌%◌, ◌^◌, ◌≤◌, ◌<◌, ◌≡◌, refl, Bool, true, false, ◌||◌, ◌==◌, arith, ◌⊎◌,
  inl, inr, u64_max,
}
use native.Mathlib.Nat.{mod-eq_of_lt, mul-mod_left}
use promptboot.Prelude.Bits.{everywhere, everywhere_sound, low_ones, and_shift, and_low}
use promptboot.Arena.{bad_alignment, clear_bits}

accepted : ℕ → Bool
accepted n =
    bad_alignment n
    || (n == 1 || (n == 2 || (n == 4 || (n == 8 || (n == 16 || (n == 32 || n == 64))))))

accepted_table : everywhere accepted 65 ≡ true
unfolding everywhere accepted bad_alignment
accepted_table = refl

pub bad_alignment-lt : (n : ℕ) → bad_alignment n ≡ false → n < 65
unfolding bad_alignment
bad_alignment-lt n h = ground arith

-- The alignments that `allocate` accepts.
abbrev pub IsAlignment : ℕ → Type 0
IsAlignment n = (n ≡ 1) ⊎ (n ≡ 2) ⊎ (n ≡ 4) ⊎ (n ≡ 8) ⊎ (n ≡ 16) ⊎ (n ≡ 32) ⊎ (n ≡ 64)

read_cases : (n : ℕ) → bad_alignment n ≡ false → accepted n ≡ true → IsAlignment n
unfolding accepted
read_cases n g h = ground arith

pub bad_alignment-IsAlignment : (n : ℕ) → bad_alignment n ≡ false → IsAlignment n
bad_alignment-IsAlignment n h =
    read_cases n h (everywhere_sound accepted 65 accepted_table n (bad_alignment-lt n h))

-- `k` and `l` make up the 64 bits.
clear_low :
    (k l x : ℕ)
    → low_ones l * 2 ^ k ≡ u64_max - low_ones k
    → x / 2 ^ k < 2 ^ l
    → clear_bits x (low_ones k) ≡ x / 2 ^ k * 2 ^ k
unfolding clear_bits
clear_low k l x e h = rw (← e, and_shift k (low_ones l) x, and_low l (x / 2 ^ k), mod-eq_of_lt h)

-- `x & !(n - 1)` rounds down to a multiple of `n`.
pub clear_bits-alignment :
    (n x : ℕ) → IsAlignment n → x ≤ u64_max → clear_bits x (n - 1) ≡ x / n * n
clear_bits-alignment n x (inl e) h = rw e (clear_low 0 64 x refl (omega arith))
clear_bits-alignment n x (inr (inl e)) h = rw e (clear_low 1 63 x refl (omega arith))
clear_bits-alignment n x (inr (inr (inl e))) h = rw e (clear_low 2 62 x refl (omega arith))
clear_bits-alignment n x (inr (inr (inr (inl e)))) h = rw e (clear_low 3 61 x refl (omega arith))
clear_bits-alignment n x (inr (inr (inr (inr (inl e))))) h =
    rw e (clear_low 4 60 x refl (omega arith))
clear_bits-alignment n x (inr (inr (inr (inr (inr (inl e)))))) h =
    rw e (clear_low 5 59 x refl (omega arith))
clear_bits-alignment n x (inr (inr (inr (inr (inr (inr e)))))) h =
    rw e (clear_low 6 58 x refl (omega arith))

IsAlignment-pos : (n : ℕ) → IsAlignment n → 0 < n
IsAlignment-pos n h = omega arith

-- What `allocate` computes for its offset.
abbrev pub align_up : ℕ → ℕ → ℕ
align_up x n = clear_bits (x + (n - 1)) (n - 1)

-- Rounding up gives a multiple of `n`, at least `x`, and less than `n` past it.
pub align_up_lem :
    (n x : ℕ)
    → IsAlignment n
    → x + (n - 1) ≤ u64_max
    → (align_up x n % n ≡ 0) × (x ≤ align_up x n) × (align_up x n < x + n)
align_up_lem n x a h = rw (clear_bits-alignment n (x + (n - 1)) a h) (
    (
      mul-mod_left ((x + (n - 1)) / n) n,
      omega (arith, IsAlignment-pos n a),
      omega (arith, IsAlignment-pos n a),
    ))
