-- ===== src/Editor/Invariant.antt =====
-- The invariant of the editor of src/editor.rs.
use native.Mathlib.Numerals.{add-one}
use promptboot.Prelude.{
  zero, suc, length-replicate, replicate, inl, length-replicate, replicate, ◌-◌, inr, inl, ◌==◌,
  All-drop, subst, drop-suc-set, drop-set_self, All-append, All-take, take-suc-set, take-set,
  Bool-cases, length-set, set, ◌∙◌, suc, ℕ, ◌≤◌, ◌<◌, ◌≡◌, ◌⊎◌, refl, ap, true, false, List, [],
  ◌∷◌, arith, length, take, drop, All, map, u64_max,
}
use promptboot.Editor.{
  new, current_of, process_key, plain_key, printable_key, backspace_key, is_terminator, Editor,
  Reply, clear, discard_key, enter_key, line_capacity,
}

abbrev pub IsPrintable : ℕ → Type 0
IsPrintable c = (0x20 ≤ c) × (c ≤ 0x7e)

abbrev pub IsZero : ℕ → Type 0
IsZero c = c ≡ 0

-- The line typed so far.
abbrev pub line : Editor → List ℕ
line e = take e.length e.buffer

-- The line is printable and within the buffer, all else in the buffer is zero, and while a line is
-- discarded the buffer is empty and the next index exists.
pub record IsValid (e : Editor) : Type 0 where
  pub sized : length e.buffer ≡ line_capacity
  pub within : e.length ≤ line_capacity
  pub printable : All IsPrintable (take e.length e.buffer)
  pub clean : All IsZero (drop e.length e.buffer)
  pub first_index : 1 ≤ e.prompt_index
  pub last_index : e.prompt_index ≤ u64_max
  pub discards : e.discard_until_enter ≡ true → (e.length ≡ 0) × (e.prompt_index < u64_max)
  pub pending :
      (e.pending_terminator ≡ 0) ⊎ (e.pending_terminator ≡ 13) ⊎ (e.pending_terminator ≡ 10)

zeros : (xs : List ℕ) → All IsZero (map (λ _. 0) xs)
zeros [] = tt
zeros (x ∷ xs) = (refl, zeros xs)

length-zeros : (xs : List ℕ) → length {A = ℕ} (map (λ _. 0) xs) ≡ length xs
length-zeros [] = refl
length-zeros (x ∷ xs) = ap suc (length-zeros xs)

pub clear-IsValid : {e : Editor} → IsValid e → IsValid (clear e)
unfolding clear
clear-IsValid {e} v = record {
  sized = length-zeros e.buffer ∙ v.sized;
  within = omega arith;
  printable = tt;
  clean = zeros e.buffer;
  first_index = v.first_index;
  last_index = v.last_index;
  discards = λ d. (refl, (v.discards d).1);
  pending = v.pending;
}

-- A reply whose editor is valid.
abbrev pub Keeps : Reply → Type 0
Keeps r = IsValid r.0

discard_key-IsValid : (e : Editor) (c : ℕ) → IsValid e → Keeps (discard_key e c)
unfolding discard_key
discard_key-IsValid e c v = ground arith

enter_key-IsValid :
    (e : Editor) (c : ℕ)
    → is_terminator c ≡ true
    → IsValid e
    → e.discard_until_enter ≡ false
    → Keeps (enter_key e c)
unfolding enter_key clear
enter_key-IsValid e c t v d = ground (arith, clear-IsValid v)

-- One cell less: the line loses its last byte, and the cell is zero again.
shrunk-IsValid :
    (e : Editor) (n : ℕ)
    → IsValid e
    → e.length ≡ suc n
    → IsValid (record e { length = n; buffer = set e.buffer n 0 })
shrunk-IsValid e n v h = record {
  sized = length-set e.buffer n 0 ∙ v.sized;
  within = omega arith;
  printable =
      rw (take-set e.buffer n 0)
        (All-take IsPrintable e.buffer n e.length (omega arith) v.printable);
  clean =
      rw (drop-set_self e.buffer n 0 (omega arith))
        (refl, subst (λ (t : ℕ). All IsZero (drop t e.buffer)) h v.clean);
  first_index = v.first_index;
  last_index = v.last_index;
  discards = λ d. absurd (omega (arith, (v.discards d).0));
  pending = v.pending;
}

-- One cell more.
grown-IsValid :
    (e : Editor) (c : ℕ)
    → IsValid e
    → e.length < line_capacity
    → e.discard_until_enter ≡ false
    → IsPrintable c
    → IsValid (record e { length = suc e.length; buffer = set e.buffer e.length c })
grown-IsValid e c v h d p = record {
  sized = length-set e.buffer e.length c ∙ v.sized;
  within = h;
  printable =
      rw (take-suc-set e.buffer e.length c (omega (arith, v.sized)))
        (All-append IsPrintable (take e.length e.buffer) (c ∷ []) (v.printable, (p, tt)));
  clean =
      rw (drop-suc-set e.buffer e.length c)
        (All-drop IsZero e.buffer e.length (suc e.length) (omega arith) v.clean);
  first_index = v.first_index;
  last_index = v.last_index;
  discards = λ t. cc;
  pending = v.pending;
}

backspace_key-IsValid : (e : Editor) → IsValid e → Keeps (backspace_key e)
unfolding backspace_key
backspace_key-IsValid e v = elim (Bool-cases (e.length == 0)) [
  | inl z ↦ rw z v
  | inr s ↦ rw s (shrunk-IsValid e (e.length - 1) v (ground arith))
]

printable_key-IsValid :
    (e : Editor) (c : ℕ)
    → IsPrintable c
    → IsValid e
    → e.discard_until_enter ≡ false
    → Keeps (printable_key e c)
unfolding printable_key clear
printable_key-IsValid e c p v d = elim (Bool-cases (e.length == line_capacity)) [
  | inl full ↦ rw full (ground (arith, clear-IsValid v))
  | inr room ↦ rw (room, add-one) (grown-IsValid e c v (ground arith) d p)
]

plain_key-IsValid : (e : Editor) (u : ℕ) → IsValid e → Keeps (plain_key e u)
unfolding plain_key
plain_key-IsValid e u v = ground (
  arith,
  discard_key-IsValid e (current_of u) v,
  enter_key-IsValid e (current_of u),
  backspace_key-IsValid e v,
  printable_key-IsValid e (current_of u),
)

-- Every key takes a valid editor to a valid one.
pub process_key-IsValid : (e : Editor) (u : ℕ) → IsValid e → IsValid (process_key e u).0
unfolding process_key
process_key-IsValid e u v =
    let quiet : IsValid (record e { pending_terminator = 0 }) = ground arith in
    ground (arith, plain_key-IsValid (record e { pending_terminator = 0 }) u quiet)

All-IsZero-replicate : (n : ℕ) → All IsZero (replicate n 0)
All-IsZero-replicate zero = tt
All-IsZero-replicate (suc n) = (refl, All-IsZero-replicate n)

-- A new editor is valid.
pub new-IsValid : IsValid new
unfolding new
new-IsValid = record {
  sized = length-replicate {A = ℕ} line_capacity 0;
  within = omega arith;
  printable = tt;
  clean = All-IsZero-replicate line_capacity;
  first_index = omega arith;
  last_index = omega arith;
  discards = λ d. cc;
  pending = inl refl;
}
