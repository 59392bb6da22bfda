-- ===== src/Tokenizer/Pretoken/Tags.antt =====
-- The search for the tool tags in crates/promptboot-core/src/tokenizer.rs.
use promptboot.Prelude.{
  ap₂, ℕ, zero, suc, ◌+◌, ◌<◌, ◌≡◌, refl, ap, true, false, List, [], ◌∷◌, ◌++◌, ◌⊎◌, inl, inr,
  if-cases, length, drop, arith,
}
use promptboot.Tokenizer.Pretoken.{
  Tag, tool_call, tool_end, starts_with, next_from, next_user_defined,
}

-- A token and the tag that it stands for.
abbrev pub IsTag : ℕ → List ℕ → Type 0
IsTag token word = ((token ≡ 151657) × (word ≡ tool_call)) ⊎ ((token ≡ 151658) × (word ≡ tool_end))

-- Where the first tag of a text stands, if it has one.
pub data FirstTag (text : List ℕ) (start : ℕ) : Tag → Type 0 where
  no_tag :
      {tag : Tag}
      → tag.token ≡ 0
      → tag.at ≡ start + length text
      → tag.size ≡ 0
      → FirstTag text start tag
  first_tag :
      {tag : Tag} (front word back : List ℕ)
      → text ≡ front ++ (word ++ back)
      → tag.at ≡ start + length front
      → tag.size ≡ length word
      → IsTag tag.token word
      → FirstTag text start tag

-- No tag starts at the first `count` places of a text.
abbrev pub NoTagBefore : ℕ → List ℕ → Type 0
NoTagBefore count text =
    (i : ℕ)
    → i < count
    → (starts_with (drop i text) tool_call ≡ false) × (starts_with (drop i text) tool_end ≡ false)

starts_with-append :
    (text word : List ℕ) → starts_with text word ≡ true → text ≡ word ++ drop (length word) text
unfolding starts_with
starts_with-append text [] h = refl
starts_with-append [] (p ∷ ps) h = cc
starts_with-append (b ∷ bs) (p ∷ ps) h =
    let e : b ≡ p = ground arith in
    let t : starts_with bs ps ≡ true = ground arith in
    ap₂ (λ (x : ℕ) (xs : List ℕ). x ∷ xs) e (starts_with-append bs ps t)

FirstTag-cons :
    (byte : ℕ) (bytes : List ℕ) (start : ℕ) (tag : Tag)
    → FirstTag bytes (start + 1) tag
    → FirstTag (byte ∷ bytes) start tag
FirstTag-cons byte bytes start tag (no_tag t a z) = no_tag t (omega arith) z
FirstTag-cons byte bytes start tag (first_tag front word back e a z w) =
    first_tag (byte ∷ front) word back (ap (byte ∷◌) e) (omega arith) z w

next_from-FirstTag : (text : List ℕ) (start : ℕ) → FirstTag text start (next_from start text)
unfolding next_from
next_from-FirstTag [] start = no_tag refl (omega arith) refl
next_from-FirstTag (byte ∷ bytes) start =
    if-cases (FirstTag (byte ∷ bytes) start) (starts_with (byte ∷ bytes) tool_call) _ _
      (λ t.
        first_tag [] tool_call _ (starts_with-append (byte ∷ bytes) tool_call t) (omega arith) refl
          (inl (refl, refl)))
      (λ f.
        if-cases (FirstTag (byte ∷ bytes) start) (starts_with (byte ∷ bytes) tool_end) _ _
          (λ t.
            first_tag [] tool_end _ (starts_with-append (byte ∷ bytes) tool_end t) (omega arith)
              refl (inr (refl, refl)))
          (λ g. FirstTag-cons byte bytes start _ (next_from-FirstTag bytes (start + 1))))

-- The tests at the first byte, and those behind it.
behind_first :
    (byte : ℕ) (bytes : List ℕ) (start i : ℕ) {at : ℕ}
    → starts_with (byte ∷ bytes) tool_call ≡ false
    → starts_with (byte ∷ bytes) tool_end ≡ false
    → ((j : ℕ)
        → start + 1 + j < at
        → (starts_with (drop j bytes) tool_call ≡ false)
          × (starts_with (drop j bytes) tool_end ≡ false))
    → start + i < at
    → (starts_with (drop i (byte ∷ bytes)) tool_call ≡ false)
      × (starts_with (drop i (byte ∷ bytes)) tool_end ≡ false)
behind_first byte bytes start zero f g h l = (f, g)
behind_first byte bytes start (suc i) f g h l = h i (omega arith)

-- What is before the place found is no tag: the places before `start` are not looked at.
next_from-NoTagBefore :
    (text : List ℕ) (start i : ℕ)
    → start + i < (next_from start text).at
    → (starts_with (drop i text) tool_call ≡ false) × (starts_with (drop i text) tool_end ≡ false)
unfolding next_from
next_from-NoTagBefore [] start i = λ l. absurd (omega arith)
next_from-NoTagBefore (byte ∷ bytes) start i =
    if-cases
      (λ (tag : Tag).
        start + i < tag.at
        → (starts_with (drop i (byte ∷ bytes)) tool_call ≡ false)
          × (starts_with (drop i (byte ∷ bytes)) tool_end ≡ false))
      (starts_with (byte ∷ bytes) tool_call) _ _ (λ t l. absurd (omega arith))
      (λ f.
        if-cases
          (λ (tag : Tag).
            start + i < tag.at
            → (starts_with (drop i (byte ∷ bytes)) tool_call ≡ false)
              × (starts_with (drop i (byte ∷ bytes)) tool_end ≡ false))
          (starts_with (byte ∷ bytes) tool_end) _ _ (λ t l. absurd (omega arith))
          (λ g. behind_first byte bytes start i f g (next_from-NoTagBefore bytes (start + 1))))

-- The place found is that of a tag, with its token and its length, and no tag starts before it; where
-- there is no tag, the token is 0 and the place is the end of the text.
pub next_user_defined_lem :
    (text : List ℕ)
    → FirstTag text 0 (next_user_defined text) × NoTagBefore (next_user_defined text).at text
unfolding next_user_defined
next_user_defined_lem text =
    (next_from-FirstTag text 0, λ i l. next_from-NoTagBefore text 0 i (omega arith))
