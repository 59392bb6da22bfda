-- ===== src/Prelude/Results.antt =====
-- Results with an error type, their `do` notation, and checked arithmetic on machine words.
use native.Mathlib.Omega.{arith}
use Prim.Native.Nat.{◌≤◌, ℕ, ◌+◌, ◌-◌, ◌*◌, ◌^◌}
use mathlib.Core.Path.{◌≡◌, refl, subst}
use mathlib.Core.Bool.{Bool, true, false}
use mathlib.Core.Option.{Option, none, some}
use promptboot.Prelude.Tests.{ltb, if◌then◌else◌}

-- Rust's `Result<A, E>`.
pub data Result {ℓ κ} (E : Type ℓ) (A : Type κ) : Type (ℓ ⊔ κ) where
  ok : A → Result E A
  err : E → Result E A

-- `?` on a result. It is shut, so that the rules for chains below find its two sides.
infixl 5 ◌>>=◌ ◌>>◌
unfoldable pub ◌>>=◌ {ℓ κ μ} :
    {E : Type ℓ} {A : Type κ} {B : Type μ} → Result E A → (A → Result E B) → Result E B
ok a >>= f = f a
err e >>= f = err e

abbrev pub ◌>>◌ {ℓ κ} : {E : Type ℓ} {B : Type κ} → Result E (Unit {0}) → Result E B → Result E B
m >> k = m >>= λ _. k

-- `if bad { return Err(e) }`.
abbrev pub fail_if {ℓ} : {E : Type ℓ} → Bool → E → Result E (Unit {0})
fail_if true e = err e
fail_if false e = ok tt

-- `ok_or`.
abbrev pub ok_or {ℓ κ} : {E : Type ℓ} {A : Type κ} → Option A → E → Result E A
ok_or (some a) e = ok a
ok_or none e = err e

abbrev pub u32_max : ℕ
u32_max = 2 ^ 32 - 1

-- Also `usize::MAX`: the targets have 64-bit addresses.
abbrev pub u64_max : ℕ
u64_max = 2 ^ 64 - 1

-- `checked_add` and `checked_mul` on `u64` and on `usize`.
abbrev pub checked_add : ℕ → ℕ → Option ℕ
checked_add a b = if ltb u64_max (a + b) then none else some (a + b)

abbrev pub checked_mul : ℕ → ℕ → Option ℕ
checked_mul a b = if ltb u64_max (a * b) then none else some (a * b)

-- Inversion of a chain that succeeds.
pub bind-ok {ℓ κ μ} :
    {E : Type ℓ} {A : Type κ} {B : Type μ} (m : Result E A) (f : A → Result E B) {b : B}
    → (m >>= f) ≡ ok b
    → (a : A) × (m ≡ ok a) × (f a ≡ ok b)
unfolding ◌>>=◌
bind-ok (ok a) f h = (a, refl, h)
bind-ok (err e) f h = cc

-- What is known of a chain's value, by `Q`, and of its error, by `P`.
pub data Ends {ℓ κ} {E : Type ℓ} {A : Type κ} (P : E → Type 0) (Q : A → Type 0)
    : Result E A → Type (ℓ ⊔ κ) where
  ends_ok : {a : A} → Q a → Ends P Q (ok a)
  ends_err : {e : E} → P e → Ends P Q (err e)

ok-injective {ℓ κ} :
    {E : Type ℓ} {A : Type κ} {a b : A} → ◌≡◌ {A = Result E A} (ok a) (ok b) → a ≡ b
ok-injective h = cc

module _ {ℓ} {E : Type ℓ} {P : E → Type 0} where
  pub bind-Ends {κ μ} :
      {A : Type κ} {B : Type μ} {R : A → Type 0} {Q : B → Type 0} {m : Result E A}
      {f : A → Result E B}
      → Ends P R m
      → ((a : A) → R a → Ends P Q (f a))
      → Ends P Q (m >>= f)
  unfolding ◌>>=◌
  bind-Ends (ends_ok {a} h) g = g a h
  bind-Ends (ends_err h) g = ends_err h

  pub Ends-weaken {κ} :
      {A : Type κ} {Q R : A → Type 0} {m : Result E A}
      → Ends P Q m
      → ((a : A) → Q a → R a)
      → Ends P R m
  Ends-weaken (ends_ok {a} h) g = ends_ok (g a h)
  Ends-weaken (ends_err h) g = ends_err h

  pub fail_if-Ends : (b : Bool) (e : E) → P e → Ends P (λ (t : Unit {0}). b ≡ false) (fail_if b e)
  fail_if-Ends true e h = ends_err h
  fail_if-Ends false e h = ends_ok refl

  -- The value of a chain that succeeds.
  pub Ends-ok {κ} :
      {A : Type κ} {Q : A → Type 0} {m : Result E A} {a : A} → Ends P Q m → m ≡ ok a → Q a
  Ends-ok {Q = Q} (ends_ok q) h = subst Q (ok-injective h) q
  Ends-ok (ends_err p) h = cc

  -- The error has to be explained only where the test fails.
  pub fail_if-Ends_when :
      (b : Bool) (e : E) → (b ≡ true → P e) → Ends P (λ (t : Unit {0}). b ≡ false) (fail_if b e)
  fail_if-Ends_when true e h = ends_err (h refl)
  fail_if-Ends_when false e h = ends_ok refl

  pub ok_or-Ends : {A : Type 0} (o : Option A) (e : E) → P e → Ends P (λ a. o ≡ some a) (ok_or o e)
  ok_or-Ends (some a) e h = ends_ok refl
  ok_or-Ends none e h = ends_err h

-- What the checked operations give.
pub checked_add-eq : (a b : ℕ) {c : ℕ} → checked_add a b ≡ some c → (c ≡ a + b) × (c ≤ u64_max)
checked_add-eq a b h = ground arith

pub checked_mul-eq : (a b : ℕ) {c : ℕ} → checked_mul a b ≡ some c → (c ≡ a * b) × (c ≤ u64_max)
checked_mul-eq a b h = ground arith
