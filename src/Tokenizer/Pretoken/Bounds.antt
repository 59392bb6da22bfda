-- ===== src/Tokenizer/Pretoken/Bounds.antt =====
-- The lengths of the fragments in crates/promptboot-core/src/tokenizer.rs.
use promptboot.Prelude.{
  ℕ, zero, suc, ◌+◌, ◌-◌, ◌≤◌, ◌<◌, ◌≡◌, Bool, true, not, ◌&&◌, List, [], ◌∷◌, leb, ◌==◌,
  if◌then◌else◌, if-cases, length, take, drop, get_or, length-take, length-drop, arith,
}
use promptboot.Tokenizer.Pretoken.{
  is_newline, is_letter, is_digit, is_space, is_punctuation, contraction_matches,
  contraction_length, follows, run_of, last_newline_end, space_length, letters_length,
  punctuation_length, pretoken_length,
}

run_of-length : (test : ℕ → Bool) (text : List ℕ) → run_of test text ≤ length text
unfolding run_of
run_of-length test [] = omega arith
run_of-length test (byte ∷ bytes) =
    if-cases (λ (n : ℕ). n ≤ suc (length bytes)) (test byte) _ _
      (λ t. omega (arith, run_of-length test bytes)) (λ f. omega arith)

-- A run from the place of a byte that passes has that byte.
run_of-drop :
    (test : ℕ → Bool) (at : ℕ) (text : List ℕ)
    → at < length text
    → test (get_or text at 0) ≡ true
    → 1 ≤ run_of test (drop at text)
unfolding run_of
run_of-drop test at [] l t = absurd (omega arith)
run_of-drop test zero (byte ∷ bytes) l t = rw t (omega arith)
run_of-drop test (suc at) (byte ∷ bytes) l t = run_of-drop test at bytes (omega arith) t

contraction_length-length : (text sizes : List ℕ) → contraction_length text sizes ≤ length text
unfolding contraction_length
contraction_length-length text [] = omega arith
contraction_length-length text (size ∷ sizes) =
    if-cases (λ (n : ℕ). n ≤ length text)
      (leb size (length text) && contraction_matches (take size text)) _ _ (λ t. ground arith)
      (λ f. contraction_length-length text sizes)

last_newline_end-length :
    (text : List ℕ) (last at : ℕ) → last ≤ at → last_newline_end last at text ≤ at + length text
unfolding last_newline_end
last_newline_end-length [] last at l = omega arith
last_newline_end-length (byte ∷ bytes) last at l =
    let next : ℕ = if is_newline byte then at + 1 else last in
    let n : next ≤ at + 1 =
      if-cases (λ (n : ℕ). n ≤ at + 1) (is_newline byte) _ _ (λ t. omega arith)
        (λ f. omega arith) in
    omega (arith, last_newline_end-length bytes next (at + 1) n)

-- A fragment is not empty, and does not go past the text.
abbrev pub Fragment : List ℕ → ℕ → Type 0
Fragment text size = (1 ≤ size) × (size ≤ length text)

space_length-Fragment :
    (first : ℕ) (rest : List ℕ)
    → is_space first ≡ true
    → Fragment (first ∷ rest) (space_length (first ∷ rest))
unfolding space_length
space_length-Fragment first rest h =
    let text : List ℕ = first ∷ rest in
    let run : ℕ = run_of is_space text in
    let a : run ≤ length text = run_of-length is_space text in
    let b : 1 ≤ run = run_of-drop is_space 0 text (omega arith) h in
    let c : last_newline_end 0 0 (take run text) ≤ 0 + length (take run text) =
      last_newline_end-length (take run text) 0 0 (omega arith) in
    let d : length (take run text) ≤ run = omega (arith, length-take run text) in ground arith

letters_length-Fragment :
    (optional : ℕ) (text : List ℕ)
    → follows is_letter optional text ≡ true
    → Fragment text (letters_length optional text)
unfolding letters_length
letters_length-Fragment optional text h =
    let a : run_of is_letter (drop optional text) ≤ length (drop optional text) =
      run_of-length is_letter (drop optional text) in
    let b : 1 ≤ run_of is_letter (drop optional text) =
      run_of-drop is_letter optional text (ground arith) (ground arith) in
    let c : length (drop optional text) ≡ length text - optional = length-drop optional text in
    (omega arith, omega arith)

punctuation_length-Fragment :
    (optional : ℕ) (text : List ℕ)
    → follows is_punctuation optional text ≡ true
    → Fragment text (punctuation_length optional text)
unfolding punctuation_length
punctuation_length-Fragment optional text h =
    let run : ℕ = run_of is_punctuation (drop optional text) in
    let a : run ≤ length (drop optional text) = run_of-length is_punctuation (drop optional text) in
    let b : 1 ≤ run = run_of-drop is_punctuation optional text (ground arith) (ground arith) in
    let c : length (drop optional text) ≡ length text - optional = length-drop optional text in
    let d : run_of is_newline (drop (optional + run) text) ≤ length (drop (optional + run) text) =
      run_of-length is_newline (drop (optional + run) text) in
    let e : length (drop (optional + run) text) ≡ length text - (optional + run) =
      length-drop (optional + run) text in
    (omega arith, omega arith)

counted : (n bound : ℕ) → n ≤ bound → not (n == 0) ≡ true → (1 ≤ n) × (n ≤ bound)
counted n bound l h = ground arith

one-Fragment : (first : ℕ) (rest : List ℕ) → Fragment (first ∷ rest) 1
one-Fragment first rest = (omega arith, omega arith)

-- The fragment of a text that is not empty has a byte at least, and does not go past the text.
pub pretoken_length-Fragment :
    (first : ℕ) (rest : List ℕ) → Fragment (first ∷ rest) (pretoken_length (first ∷ rest))
unfolding pretoken_length
pretoken_length-Fragment first rest =
    if-cases (Fragment (first ∷ rest)) _ _ _
      (counted _ _ (contraction_length-length (first ∷ rest) _))
      λ _. if-cases (Fragment (first ∷ rest)) _ _ _ (letters_length-Fragment _ (first ∷ rest)) λ _.
        if-cases (Fragment (first ∷ rest)) (is_digit first) _ _ (λ t. one-Fragment first rest)
          λ _.
            if-cases (Fragment (first ∷ rest)) _ _ _ (punctuation_length-Fragment _ (first ∷ rest))
              λ _.
                if-cases (Fragment (first ∷ rest)) _ _ _ (space_length-Fragment first rest)
                  λ _. one-Fragment first rest
