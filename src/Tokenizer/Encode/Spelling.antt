-- ===== src/Tokenizer/Encode/Spelling.antt =====
-- What the tokens of crates/promptboot-core/src/tokenizer.rs spell, and the merges of a segment.
use promptboot.Prelude.{
  ℕ, zero, suc, ◌+◌, ◌<◌, ◌≡◌, refl, ap, sym, ◌∙◌, List, [], ◌∷◌, ◌++◌, Option, none, some, length,
  All, arith,
}
use mathlib.Core.List.{append_assoc}
use promptboot.Tokenizer.Table.{Index, byte_map, lookup}
use promptboot.Tokenizer.Encode.{byte_segment, merge_at}

-- The bytes of a text.
abbrev pub Bytes : List ℕ → Type 0
Bytes text = All (λ byte. byte < 256) text

-- The texts of some tokens, one after the other.
unfoldable pub spelled : (ℕ → List ℕ) → List ℕ → List ℕ
spelled spelling [] = []
spelled spelling (token ∷ tokens) = spelling token ++ spelled spelling tokens

-- The merge of the tokens at `at` and behind it: its result and its rank.
unfoldable pub candidate : Index → List ℕ → ℕ → Option (ℕ × ℕ)
candidate index [] at = none
candidate index (left ∷ []) at = none
candidate index (left ∷ right ∷ rest) zero = (lookup index left right).0
candidate index (left ∷ right ∷ rest) (suc at) = candidate index (right ∷ rest) at

pub spelled-append :
    (spelling : ℕ → List ℕ) (xs ys : List ℕ)
    → spelled spelling (xs ++ ys) ≡ spelled spelling xs ++ spelled spelling ys
unfolding spelled
spelled-append spelling [] ys = refl
spelled-append spelling (x ∷ xs) ys =
    ap (λ (zs : List ℕ). spelling x ++ zs) (spelled-append spelling xs ys)
    ∙ sym (append_assoc (spelling x) (spelled spelling xs) (spelled spelling ys))

pub spelled-byte_segment :
    (encode spelling : ℕ → List ℕ) (index : Index)
    → ((byte : ℕ) → byte < 256 → spelling (index (byte_map + byte)) ≡ encode byte)
    → (text : List ℕ) → Bytes text
    → spelled spelling (byte_segment index text) ≡ spelled encode text
unfolding spelled byte_segment
spelled-byte_segment encode spelling index h [] b = refl
spelled-byte_segment encode spelling index h (byte ∷ text) (b, bs) =
    rw (h byte b, spelled-byte_segment encode spelling index h text bs) refl

-- A merge behind the first token leaves that token.
merge_at-cons :
    (token : ℕ) (segment : List ℕ) (at result : ℕ)
    → merge_at (token ∷ segment) (suc at) result ≡ token ∷ merge_at segment at result
unfolding merge_at
merge_at-cons token segment at result = let e : suc at + 2 ≡ suc (at + 2) = omega arith in rw e refl

pub spelled-merge_at :
    (spelling : ℕ → List ℕ) (index : Index)
    → ((left right result rank : ℕ)
        → (lookup index left right).0 ≡ some (result, rank)
        → spelling result ≡ spelling left ++ spelling right)
    → (segment : List ℕ) (at result rank : ℕ) → candidate index segment at ≡ some (result, rank)
    → spelled spelling (merge_at segment at result) ≡ spelled spelling segment
unfolding spelled merge_at candidate
spelled-merge_at spelling index h [] at result rank c = cc
spelled-merge_at spelling index h (left ∷ []) at result rank c = cc
spelled-merge_at spelling index h (left ∷ right ∷ rest) zero result rank c =
    ap (λ (xs : List ℕ). xs ++ spelled spelling rest) (h left right result rank c)
    ∙ append_assoc (spelling left) (spelling right) (spelled spelling rest)
spelled-merge_at spelling index h (left ∷ right ∷ rest) (suc at) result rank c =
    ap (spelled spelling) (merge_at-cons left (right ∷ rest) at result)
    ∙ ap (λ (xs : List ℕ). spelling left ++ xs)
        (spelled-merge_at spelling index h (right ∷ rest) at result rank c)

length-merge_at_head :
    (left right : ℕ) (rest : List ℕ) (result : ℕ)
    → length (merge_at (left ∷ right ∷ rest) zero result) + 1 ≡ length (left ∷ right ∷ rest)
unfolding merge_at
length-merge_at_head left right rest result = omega arith

pub length-merge_at :
    (index : Index) (segment : List ℕ) (at result rank : ℕ)
    → candidate index segment at ≡ some (result, rank)
    → length (merge_at segment at result) + 1 ≡ length segment
unfolding candidate
length-merge_at index [] at result rank c = cc
length-merge_at index (left ∷ []) at result rank c = cc
length-merge_at index (left ∷ right ∷ rest) zero result rank c =
    length-merge_at_head left right rest result
length-merge_at index (left ∷ right ∷ rest) (suc at) result rank c =
    let e : length (merge_at (left ∷ right ∷ rest) (suc at) result)
        ≡ suc (length (merge_at (right ∷ rest) at result)) =
      ap length (merge_at-cons left (right ∷ rest) at result) in
    omega (arith, e, length-merge_at index (right ∷ rest) at result rank c)
