-- ===== src/ModelContract/Decimal.antt =====
-- `push_decimal` of src/model_contract.rs: the digits that it pushes read back as the number.
use promptboot.Prelude.{
  ℕ, zero, suc, ◌+◌, ◌-◌, ◌*◌, ◌/◌, ◌%◌, ◌^◌, ◌<◌, ◌≤◌, ◌≡◌, refl, sym, ap, ◌∙◌, Bool-cases, inl,
  inr, List, [], ◌∷◌, ◌++◌, ◌==◌, All, All-append, arith, ==→eq,
}
use Prim.Native.Nat.pow
use mathlib.Core.List.{append_assoc, append-nil}
use promptboot.ModelContract.Record.{ModelRecord, digits, push_back, push_decimal}
use promptboot.ModelContract.Emission.{Shows, push-Shows}

-- The reading of a decimal numeral, behind the digits that make `acc`.
unfoldable pub read_from : ℕ → List ℕ → ℕ
read_from acc [] = acc
read_from acc (d ∷ ds) = read_from (acc * 10 + (d - 48)) ds

abbrev pub IsDigit : ℕ → Type 0
IsDigit d = (48 ≤ d) × (d ≤ 57)

-- These bytes are digits that spell the number.
pub record Spells (value : ℕ) (ds : List ℕ) : Type 0 where
  pub digits_only : All IsDigit ds
  pub reads : read_from 0 ds ≡ value

unfoldable pub spelled : List ℕ → List ℕ
spelled [] = []
spelled (d ∷ ds) = spelled ds ++ (d ∷ [])

read_from-append :
    (acc : ℕ) (xs ys : List ℕ) → read_from acc (xs ++ ys) ≡ read_from (read_from acc xs) ys
unfolding read_from
read_from-append acc [] ys = refl
read_from-append acc (x ∷ xs) ys = read_from-append (acc * 10 + (x - 48)) xs ys

tenth : (fuel value : ℕ) → value < 10 ^ suc fuel → value / 10 < 10 ^ fuel
tenth fuel value h = let e : 10 ^ suc fuel ≡ 10 ^ fuel * 10 = pow.suc 10 fuel in omega (arith, e)

-- One more digit behind the numeral of a tenth.
digit-Spells :
    (value : ℕ) (ds : List ℕ)
    → Spells (value / 10) ds
    → Spells value (ds ++ ((48 + value % 10) ∷ []))
unfolding read_from
digit-Spells value ds h = record {
  digits_only = All-append IsDigit ds _ (h.digits_only, ((omega arith, omega arith), tt));
  reads =
      read_from-append 0 ds _
      ∙ (ap (λ (n : ℕ). n * 10 + (48 + value % 10 - 48)) h.reads ∙ omega arith);
}

digits-Spells : (fuel value : ℕ) → value < 10 ^ fuel → Spells value (spelled (digits fuel value))
unfolding digits spelled read_from
digits-Spells zero value h = record { digits_only = tt; reads = omega arith }
digits-Spells (suc fuel) value h = elim (Bool-cases (value == 0)) [
  | inl e ↦ simp e (record { digits_only = tt; reads = sym (==→eq value 0 e) })
  | inr e ↦ simp e (
      digit-Spells value (spelled (digits fuel (value / 10)))
        (digits-Spells fuel (value / 10) (tenth fuel value h)))
]

push_back-Shows :
    (r : ModelRecord) (bs ds : List ℕ) → Shows r bs → Shows (push_back r ds) (bs ++ spelled ds)
unfolding push_back spelled
push_back-Shows r bs [] h = simp (append-nil bs) h
push_back-Shows r bs (d ∷ ds) h =
    rw (sym (append_assoc bs (spelled ds) (d ∷ [])))
      (push-Shows (push_back r ds) (bs ++ spelled ds) (d ∷ []) (push_back-Shows r bs ds h))

-- Behind a record that has been given some bytes, `push_decimal` of a 64-bit word gives it digits
-- that spell the word: it prints both if they fit together, and the fatal line if they do not.
pub push_decimal-Shows :
    (r : ModelRecord) (bs : List ℕ) (value : ℕ)
    → Shows r bs
    → value < 2 ^ 64
    → (ds : List ℕ) × Spells value ds × Shows (push_decimal r value) (bs ++ ds)
unfolding push_decimal read_from
push_decimal-Shows r bs value h l = elim (Bool-cases (value == 0)) [
  | inl e ↦ simp e (
    48 ∷ [],
    record { digits_only = ((omega arith, omega arith), tt); reads = sym (==→eq value 0 e) },
    push-Shows r bs (48 ∷ []) h,
  )
  | inr e ↦
      simp e (_, digits-Spells 20 value (omega arith), push_back-Shows r bs (digits 20 value) h)
]
