-- ===== src/Primitive/Memory.antt =====
-- The memory that the pointers of a primitive request point to, for crates/promptboot-core/src/lib.rs:
-- a byte at each address.
use promptboot.Prelude.{
  ℕ, zero, suc, ◌+◌, ◌-◌, ◌<◌, ◌≤◌, ◌≡◌, ◌≢◌, ap, refl, false, ◌&&◌, List, [], ◌∷◌, Option, some,
  ltb, leb, if-cases, if◌then◌else◌, length, ok, ◌>>=◌, arith,
}
use promptboot.Primitive.{AddressRange, overlaps, fixed_range, declared_range}

abbrev pub Memory : Type 0
Memory = ℕ → ℕ

-- The bytes from an address on.
unfoldable pub load : Memory → ℕ → ℕ → List ℕ
load memory at zero = []
load memory at (suc n) = memory at ∷ load memory (at + 1) n

-- The memory with `n` bytes from `start` on written.
unfoldable pub store : ℕ → ℕ → (ℕ → ℕ) → Memory → Memory
store start n bytes memory at =
    if leb start at && ltb at (start + n) then bytes (at - start) else memory at

-- `ptr::copy_nonoverlapping(from, to, n)` on bytes
unfoldable pub copy_bytes : ℕ → ℕ → ℕ → Memory → Memory
copy_bytes from to n memory = store to n (λ i. memory (from + i)) memory

pub length-load : (memory : Memory) (at n : ℕ) → length (load memory at n) ≡ n
unfolding load
length-load memory at zero = refl
length-load memory at (suc n) = ap suc (length-load memory (at + 1) n)

pub store-inside :
    (start n : ℕ) (bytes : ℕ → ℕ) (memory : Memory) (i : ℕ)
    → i < n
    → store start n bytes memory (start + i) ≡ bytes i
unfolding store
store-inside start n bytes memory i h =
    if-cases (λ (b : ℕ). b ≡ bytes i) (leb start (start + i) && ltb (start + i) (start + n)) _ _
      (λ _. let e : start + i - start ≡ i = omega arith in ap bytes e) (λ f. absurd (ground arith))

pub store-outside :
    (start n : ℕ) (bytes : ℕ → ℕ) (memory : Memory) (at : ℕ)
    → ((i : ℕ) → i < n → at ≢ start + i)
    → store start n bytes memory at ≡ memory at
unfolding store
store-outside start n bytes memory at h =
    if-cases (λ (b : ℕ). b ≡ memory at) (leb start at && ltb at (start + n)) _ _
      (λ t.
        let low : start ≤ at = ground arith in
        let high : at < start + n = ground arith in
        absurd (h (at - start) (omega arith) (omega arith)))
      (λ _. refl)

-- No byte of the first `n` from `p` on is one of the first `m` from `q` on.
abbrev pub Apart : ℕ → ℕ → ℕ → ℕ → Type 0
Apart p n q m = (i j : ℕ) → i < n → j < m → p + i ≢ q + j

-- The same bytes before and after.
abbrev pub Same : Memory → Memory → ℕ → ℕ → Type 0
Same before after p n = (i : ℕ) → i < n → after (p + i) ≡ before (p + i)

pub fixed_range-eq :
    (p n : ℕ) {a : AddressRange} → fixed_range p n ≡ ok a → a ≡ record { start = p; end = p + n }
unfolding fixed_range ◌>>=◌
fixed_range-eq p n e = ground arith

pub declared_range-eq :
    (p n : ℕ) {a : Option AddressRange}
    → declared_range p n ≡ ok a
    → p ≢ 0
    → 0 < n
    → a ≡ some (record { start = p; end = p + n })
unfolding declared_range fixed_range ◌>>=◌
declared_range-eq p n e h l = ground arith

pub overlaps-Apart :
    (p n q m : ℕ)
    → overlaps (record { start = p; end = p + n }) (record { start = q; end = q + m }) ≡ false
    → Apart p n q m
unfolding overlaps
overlaps-Apart p n q m o i j h k e = ground arith
