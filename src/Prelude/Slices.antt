-- ===== src/Prelude/Slices.antt =====
-- A slice of a list, and a list with a slice written anew.
use Prim.Native.Nat.{ℕ, zero, suc, ◌+◌, ◌≤◌}
use mathlib.Core.Path.{◌≡◌, refl, ap, sym, ◌∙◌}
use mathlib.Core.List.{append_assoc, List, [], ◌∷◌, ◌++◌}
use native.Mathlib.Omega.{arith}
use promptboot.Prelude.Lists.{
  length-append, length-take, length-drop, length, take, drop, take-append,
}

module _ {ℓ} {A : Type ℓ} where
  -- `xs[s..s + n]`
  abbrev pub slice : ℕ → ℕ → List A → List A
  slice s n xs = take n (drop s xs)

  -- `xs[s..s + new.len()].copy_from_slice(new)`, the end of the slice being `e`
  abbrev pub splice : ℕ → ℕ → List A → List A → List A
  splice s e new xs = take s xs ++ (new ++ drop e xs)

module _ {ℓ} {A : Type ℓ} where
  slice-append_here :
      (xs new rest : List A) (s : ℕ)
      → s ≤ length xs
      → slice s (length new) (take s xs ++ (new ++ rest)) ≡ new
  slice-append_here xs new rest zero h = take-append new rest
  slice-append_here [] new rest (suc s) h = absurd (omega arith)
  slice-append_here (x ∷ xs) new rest (suc s) h = slice-append_here xs new rest s (omega arith)

  pub slice-splice_self :
      (xs new : List A) (s e : ℕ) → s ≤ length xs → slice s (length new) (splice s e new xs) ≡ new
  slice-splice_self xs new s e h = slice-append_here xs new (drop e xs) s h

  take-take_append :
      (xs rest : List A) (n s : ℕ) → n ≤ s → s ≤ length xs → take n (take s xs ++ rest) ≡ take n xs
  take-take_append xs rest zero s h l = refl
  take-take_append xs rest (suc n) zero h l = absurd (omega arith)
  take-take_append [] rest (suc n) (suc s) h l = absurd (omega arith)
  take-take_append (x ∷ xs) rest (suc n) (suc s) h l =
      ap (x ∷◌) (take-take_append xs rest n s (omega arith) (omega arith))

  -- What ends before the written slice keeps its content,
  pub slice-append_before :
      (xs rest : List A) (i n s : ℕ)
      → i + n ≤ s
      → s ≤ length xs
      → slice i n (take s xs ++ rest) ≡ slice i n xs
  slice-append_before xs rest zero n s h l = take-take_append xs rest n s (omega arith) l
  slice-append_before xs rest (suc i) n zero h l = absurd (omega arith)
  slice-append_before [] rest (suc i) n (suc s) h l = absurd (omega arith)
  slice-append_before (x ∷ xs) rest (suc i) n (suc s) h l =
      slice-append_before xs rest i n s (omega arith) (omega arith)

  drop-append_past :
      (new xs : List A) (i : ℕ)
      → length new ≤ i
      → length new ≤ length xs
      → drop i (new ++ drop (length new) xs) ≡ drop i xs
  drop-append_past [] xs i h l = refl
  drop-append_past (y ∷ new) xs zero h l = absurd (omega arith)
  drop-append_past (y ∷ new) [] (suc i) h l = absurd (omega arith)
  drop-append_past (y ∷ new) (x ∷ xs) (suc i) h l =
      drop-append_past new xs i (omega arith) (omega arith)

  -- and so does what begins behind it.
  pub drop-splice_past :
      (xs new : List A) (i s e : ℕ)
      → e ≡ s + length new
      → e ≤ i
      → e ≤ length xs
      → drop i (splice s e new xs) ≡ drop i xs
  drop-splice_past xs new i zero e p h l =
      let q : e ≡ length new = omega arith in
      rw q (drop-append_past new xs i (omega arith) (omega arith))
  drop-splice_past [] new i (suc s) e p h l = absurd (omega arith)
  drop-splice_past (x ∷ xs) new i (suc s) zero p h l = absurd (omega arith)
  drop-splice_past (x ∷ xs) new zero (suc s) (suc e) p h l = absurd (omega arith)
  drop-splice_past (x ∷ xs) new (suc i) (suc s) (suc e) p h l =
      drop-splice_past xs new i s e (omega arith) (omega arith) (omega arith)

  pub length-splice :
      (xs new : List A) (s e : ℕ)
      → e ≡ s + length new
      → e ≤ length xs
      → length (splice s e new xs) ≡ length xs
  length-splice xs new s e p h = omega (
    arith,
    length-append (take s xs) (new ++ drop e xs),
    length-append new (drop e xs),
    length-take s xs,
    length-drop e xs,
  )

  pub take-splice :
      (xs new : List A) (s : ℕ)
      → s ≤ length xs
      → take (s + length new) (splice s (s + length new) new xs) ≡ take s xs ++ new
  take-splice xs new s h =
      let e : s + length new ≡ length (take s xs ++ new) =
        sym (length-append (take s xs) new ∙ ap (◌+ length new) (length-take s xs ∙ omega arith)) in
      ap (λ (t : List A). take (s + length new) t)
        (sym (append_assoc (take s xs) new (drop (s + length new) xs)))
      ∙ (ap (λ (n : ℕ). take n ((take s xs ++ new) ++ drop (s + length new) xs)) e
          ∙ take-append (take s xs ++ new) (drop (s + length new) xs))
