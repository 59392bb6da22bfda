-- ===== src/Tokenizer/Conversation/Suffix.antt =====
-- The place of the suffix in `render_conversation_and_tokenize` of
-- crates/promptboot-core/src/tokenizer.rs: where the second turn of a fresh prompt begins.
use promptboot.Prelude.{
  ℕ, zero, suc, ◌+◌, ◌≡◌, refl, ap, subst, ◌∙◌, ◌&&◌, List, [], ◌∷◌, Option, none, some, ◌==◌,
  if◌then◌else◌, if-cases, take, drop, get_or, arith,
}
use promptboot.Tokenizer.Encode.{im_start}
use promptboot.Tokenizer.Conversation.{second_start, suffix_before, suffix_start}

-- The number of start marks among the tokens.
unfoldable pub starts : List ℕ → ℕ
starts [] = 0
starts (token ∷ tokens) = let rest = starts tokens in if token == im_start then rest + 1 else rest

-- A prompt is split where its tokens are to follow those of the history: behind no history it is not
-- split at all, else before the line end that stands before the second start mark.
abbrev pub Split : List ℕ → List ℕ → List ℕ → Type 0
Split [] front fresh = front ≡ []
Split (token ∷ history) front fresh =
    (starts front ≡ 1) × ((rest : List ℕ) × (fresh ≡ 198 ∷ im_start ∷ rest))

-- The second start mark, `seen` of them standing before the tokens.
record Found (at seen : ℕ) (tokens : List ℕ) (k : ℕ) : Type 0 where
  index : ℕ
  place : k ≡ at + index
  one_before : starts (take index tokens) + seen ≡ 1
  rest : List ℕ
  mark : drop index tokens ≡ im_start ∷ rest

Found-skip :
    (at seen token : ℕ) (tokens : List ℕ) (k : ℕ)
    → Found (at + 1) (if token == im_start then seen + 1 else seen) tokens k
    → Found at seen (token ∷ tokens) k
unfolding starts
Found-skip at seen token tokens k f = record {
  index = suc f.index;
  place = omega (arith, f.place);
  one_before = (let o = f.one_before in ground arith);
  rest = f.rest;
  mark = f.mark;
}

second_start-Found :
    (at seen : ℕ) (tokens : List ℕ) {k : ℕ}
    → second_start at seen tokens ≡ some k
    → Found at seen tokens k
unfolding second_start starts
second_start-Found at seen [] e = cc e
second_start-Found at seen (token ∷ tokens) {k} found =
    if-cases (λ (o : Option ℕ). o ≡ some k → Found at seen (token ∷ tokens) k)
      ((token == im_start) && (seen + 1 == 2)) _ _
      (λ t e. record {
        index = 0;
        place = ground arith;
        one_before = ground arith;
        rest = tokens;
        mark = (let m : token ≡ im_start = ground arith in ap (λ (n : ℕ). n ∷ tokens) m);
      })
      (λ f e. Found-skip at seen token tokens k (second_start-Found (at + 1) _ tokens e)) found

-- A line end is no start mark.
line_end :
    (tokens : List ℕ) (j : ℕ)
    → get_or tokens j 0 ≡ 198
    → (drop j tokens ≡ 198 ∷ drop (suc j) tokens)
      × (starts (take (suc j) tokens) ≡ starts (take j tokens))
unfolding starts
line_end [] j h = absurd (omega arith)
line_end (x ∷ xs) zero h = (ap (λ (n : ℕ). n ∷ xs) h, ground arith)
line_end (x ∷ xs) (suc j) h =
    let (d, s) = line_end xs j h in (d, ap (λ (n : ℕ). if x == im_start then n + 1 else n) s)

suffix_before-Split :
    (tokens : List ℕ) (second : Option ℕ) {start : ℕ}
    → second_start 0 0 tokens ≡ second
    → suffix_before tokens second ≡ some start
    → (starts (take start tokens) ≡ 1)
      × ((rest : List ℕ) × (drop start tokens ≡ 198 ∷ im_start ∷ rest))
unfolding suffix_before
suffix_before-Split tokens none s e = cc e
suffix_before-Split tokens (some zero) s e = cc e
suffix_before-Split tokens (some (suc j)) {start} s e =
    let f = second_start-Found 0 0 tokens s in
    let i : f.index ≡ suc j = omega (arith, f.place) in
    let one : starts (take (suc j) tokens) + 0 ≡ 1 =
      subst (λ (n : ℕ). starts (take n tokens) + 0 ≡ 1) i f.one_before in
    let mark : drop (suc j) tokens ≡ im_start ∷ f.rest =
      subst (λ (n : ℕ). drop n tokens ≡ im_start ∷ f.rest) i f.mark in
    let line : get_or tokens j 0 ≡ 198 = ground (arith, e) in
    let same : j ≡ start = ground (arith, e) in
    let (d, c) = line_end tokens j line in
    subst
      (λ (n : ℕ).
        (starts (take n tokens) ≡ 1) × ((rest : List ℕ) × (drop n tokens ≡ 198 ∷ im_start ∷ rest)))
      same (omega (arith, one, c), (f.rest, d ∙ ap (198 ∷◌) mark))

-- Where the suffix starts, the prompt is split.
pub suffix_start-Split :
    (history tokens : List ℕ) {start : ℕ}
    → suffix_start history tokens ≡ some start
    → Split history (take start tokens) (drop start tokens)
unfolding suffix_start
suffix_start-Split [] tokens {start} e =
    let z : 0 ≡ start = ground arith in subst (λ (n : ℕ). take n tokens ≡ []) z refl
suffix_start-Split (token ∷ history) tokens e = suffix_before-Split tokens _ refl e
