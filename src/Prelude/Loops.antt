-- ===== src/Prelude/Loops.antt =====
-- Loops whose body may return early, and chains of checks that decide a property.
use native.Mathlib.Omega.{arith}
use Prim.Native.Nat.{ℕ, zero, suc, ◌+◌, ◌≤◌, ◌<◌}
use native.Mathlib.Decide.{dec_lt}
use mathlib.Core.Path.{◌≡◌, refl, subst}
use mathlib.Core.Bool.{Bool, true, false, not}
use mathlib.Core.Option.{Option, some}
use mathlib.Core.List.{List, [], ◌∷◌}
use promptboot.Prelude.Tests.{◌==◌}
use promptboot.Prelude.Lists.{All}
use promptboot.Prelude.Results.{Result, ok, err, ◌>>=◌, ◌>>◌, fail_if, ok_or}

-- `for at in start..start + count`, with the state that the body changes.
unfoldable pub loop {ℓ κ} :
    {E : Type ℓ} {S : Type κ} → (S → ℕ → Result E S) → ℕ → ℕ → S → Result E S
loop body start zero s = ok s
loop body start (suc count) s = body s start >>= loop body (start + 1) count

-- `for x in xs`, with a body that only checks.
unfoldable pub each {ℓ κ} :
    {E : Type ℓ} {A : Type κ} → (A → Result E (Unit {0})) → List A → Result E (Unit {0})
each body [] = ok tt
each body (x ∷ xs) = body x >> each body xs

-- The call fails where `P` does not hold, and gives `v` where it does.
pub data Decides {ℓ κ} {E : Type ℓ} {A : Type κ} (P : Type 0) (v : A)
    : Result E A → Type (ℓ ⊔ κ) where
  decides_ok : P → Decides P v (ok v)
  decides_err : {e : E} → ¬ P → Decides P v (err e)

-- Every number of a range.
abbrev pub Within : (ℕ → Type 0) → ℕ → ℕ → Type 0
Within P start stop = (i : ℕ) → start ≤ i → i < stop → P i

pub Within-cons :
    (P : ℕ → Type 0) (start stop : ℕ) → P start → Within P (start + 1) stop → Within P start stop
Within-cons P start stop p w i a b = elim (dec_lt start i) [
  | yes l ↦ w i (omega arith) b
  | no n ↦ let e : start ≡ i = omega arith in subst P e p
]

module _ {ℓ} {E : Type ℓ} where
  pub fail_if-Decides : (b : Bool) (e : E) → Decides (b ≡ false) tt (fail_if b e)
  fail_if-Decides true e = decides_err λ h. cc
  fail_if-Decides false e = decides_ok refl

  pub Decides-iff {κ} :
      {A : Type κ} {P Q : Type 0} {v : A} {m : Result E A}
      → (P → Q)
      → (Q → P)
      → Decides P v m
      → Decides Q v m
  Decides-iff f g (decides_ok p) = decides_ok (f p)
  Decides-iff f g (decides_err n) = decides_err λ q. n (g q)

  -- A test that asks for an equation.
  pub fail_unless-Decides : (a b : ℕ) (e : E) → Decides (a ≡ b) tt (fail_if (not (a == b)) e)
  fail_unless-Decides a b e =
      Decides-iff (λ h. ground arith) (λ h. ground arith) (fail_if-Decides (not (a == b)) e)

  -- An option that has a value.
  pub ok_or-Decides {κ} :
      {A : Type κ} (o : Option A) (e : E) {v : A} → o ≡ some v → Decides (Unit {0}) v (ok_or o e)
  ok_or-Decides o e h = rw h (decides_ok tt)

  pub bind-Decides {κ μ} :
      {A : Type κ} {B : Type μ} {P Q : Type 0} {v : A} {w : B} {m : Result E A} (f : A → Result E B)
      → Decides P v m
      → (P → Decides Q w (f v))
      → Decides (P × Q) w (m >>= f)
  unfolding ◌>>=◌
  bind-Decides f (decides_ok p) g = Decides-iff (λ q. (p, q)) (λ h. h.1) (g p)
  bind-Decides f (decides_err n) g = decides_err λ h. n h.0

  pub each-Decides {κ} :
      {A : Type κ} (P : A → Type 0) (body : A → Result E (Unit {0})) (xs : List A)
      → ((x : A) → Decides (P x) tt (body x))
      → Decides (All P xs) tt (each body xs)
  unfolding each
  each-Decides P body [] d = decides_ok tt
  each-Decides P body (x ∷ xs) d = bind-Decides _ (d x) λ _. each-Decides P body xs d

  -- A loop that takes the states `f` decides its property at every index.
  pub loop-Decides {κ} :
      {S : Type κ} (P : ℕ → Type 0) (f : ℕ → S) (body : S → ℕ → Result E S) (start count : ℕ)
      → ((i : ℕ)
          → start ≤ i
          → i < start + count
          → Within P start i
          → Decides (P i) (f (i + 1)) (body (f i) i))
      → Decides
          (Within P start (start + count))
          (f (start + count))
          (loop body start count (f start))
  unfolding loop
  loop-Decides P f body start zero d =
      let e : start ≡ start + 0 = omega arith in
      subst (λ (stop : ℕ). Decides {E = E} (Within P start stop) (f stop) (ok (f start))) e
        (decides_ok λ i a b. absurd (omega arith))
  loop-Decides P f body start (suc count) d =
      let e : start + 1 + count ≡ start + suc count = omega arith in
      subst
        (λ (stop : ℕ).
          Decides (Within P start stop) (f stop)
            (body (f start) start >>= loop body (start + 1) count))
        e
        (Decides-iff (λ h. Within-cons P start (start + 1 + count) h.0 h.1)
          (λ w. (w start (omega arith) (omega arith), λ i a b. w i (omega arith) b))
          (bind-Decides _ (d start (omega arith) (omega arith) (λ i a b. absurd (omega arith))) λ p.
            loop-Decides P f body (start + 1) count
              λ i a b w. d i (omega arith) (omega arith) (Within-cons P start i p w)))

  -- Where the body keeps no state.
  pub checks-Decides :
      (P : ℕ → Type 0) (body : ℕ → Result E (Unit {0})) (start count : ℕ)
      → ((i : ℕ) → Decides (P i) tt (body i))
      → Decides (Within P start (start + count)) tt (loop (λ _ i. body i) start count tt)
  checks-Decides P body start count d =
      loop-Decides P (λ _. tt) (λ _ i. body i) start count λ i _ _ _. d i
