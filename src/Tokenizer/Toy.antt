-- ===== src/Tokenizer/Toy.antt =====
-- A small tokenizer for the examples of crates/promptboot-core/src/tokenizer.rs: a vocabulary of the
-- bytes, with two merges.
use promptboot.Prelude.{
  ◌&&◌, leb, ◌≢◌, Ends-ok, Bool, inr, inl, ap₂, true, ℕ, zero, suc, ◌+◌, ◌-◌, ◌*◌, ◌≤◌, ◌<◌, ◌≡◌,
  refl, sym, ap, ◌∙◌, List, [], ◌∷◌, ◌++◌, some, ltb, ◌==◌, if◌then◌else◌, get_or, u32_max, ok,
  ◌>>=◌, loop, arith,
}
use promptboot.Model.Image.{u32_at, Image, Section}
use promptboot.Model.View.{ModelView, Merge, merge, config}
use promptboot.Tokenizer.Table.{
  Index, byte_map, put_entry, lookup, insert_merge, place, entry_word, hash_slot,
}
use promptboot.Tokenizer.Table.Merges.{MapsMerges, fill-MapsMerges}
use promptboot.ModelContract.{codes}
use promptboot.Tokenizer.Pretoken.{tool_call, tool_end}
use promptboot.Tokenizer.Pretoken.Tags.{IsTag}
use promptboot.Tokenizer.Encode.{im_start, im_end}
use promptboot.Tokenizer.Encode.Spelling.{spelled}
use promptboot.Tokenizer.Opened.{merge-fields}
use promptboot.Tokenizer.Table.Filling.{ok_injective}

-- Two merges: 97 and 98 give 256, 97 and 97 give 257.
abbrev pub merge_bytes : List ℕ
merge_bytes =
    97 ∷ 0 ∷ 0 ∷ 0 ∷ 98 ∷ 0 ∷ 0 ∷ 0 ∷ 0 ∷ 1 ∷ 0 ∷ 0 ∷ 97 ∷ 0 ∷ 0 ∷ 0 ∷ 97 ∷ 0 ∷ 0 ∷ 0 ∷ 1 ∷ 1 ∷ 0
    ∷ 0 ∷ []

abbrev pub toy_image : Image
toy_image = record { address = 0; byte_count = 24; byte = λ at. get_or merge_bytes at 0 }

abbrev pub at_start : Section
at_start = record { offset = 0; length = 24 }

abbrev pub toy : ModelView
toy = record {
  image = toy_image;
  sections = at_start ∷ at_start ∷ at_start ∷ at_start ∷ [];
  settings = config;
}

abbrev pub toy_merge : Merge
toy_merge = record { left = 97; right = 98; result = 256; rank = 0 }

abbrev pub toy_start : Index
toy_start k = if ltb k byte_map then u32_max else k - byte_map

abbrev pub toy_index : Index
toy_index = put_entry toy_start (entry_word (hash_slot 97 98) 0) toy_merge

pub merge-toy : merge toy 0 ≡ ok toy_merge
unfolding merge u32_at
merge-toy = refl

pub toy_filled : loop (insert_merge toy) 0 1 (toy_start, 0) ≡ ok (toy_index, 0)
unfolding loop insert_merge place ◌>>=◌ hash_slot merge u32_at
toy_filled = refl

-- Bytes that are at most 98, tested.
abbrev pub are_small : List ℕ → Bool
are_small [] = true
are_small (x ∷ xs) = leb x 98 && are_small xs

pub get_or-small : (xs : List ℕ) (i : ℕ) → are_small xs ≡ true → get_or xs i 0 ≤ 98
get_or-small [] i h = omega arith
get_or-small (x ∷ xs) zero h = ground arith
get_or-small (x ∷ xs) (suc i) h = get_or-small xs i (ground arith)

pub toy_byte : (at : ℕ) → toy_image.byte at ≤ 98
toy_byte at = get_or-small merge_bytes at refl

pub toy_ordinary : (rank : ℕ) (m : Merge) → merge toy rank ≡ ok m → m.left < u32_max
unfolding u32_at
toy_ordinary rank m h =
    let (l, _, _) = merge-fields toy rank m h in
    omega (
      arith,
      l,
      toy_byte (0 + rank * 12),
      toy_byte (0 + rank * 12 + 1),
      toy_byte (0 + rank * 12 + 2),
      toy_byte (0 + rank * 12 + 3),
    )

abbrev pub toy_second : Merge
toy_second = record { left = 97; right = 97; result = 257; rank = 1 }

pub merge-toy_second : merge toy 1 ≡ ok toy_second
unfolding merge u32_at
merge-toy_second = refl

pub toy_distinct :
    (i j : ℕ) (a b : Merge)
    → i < j
    → j < 2
    → merge toy i ≡ ok a
    → merge toy j ≡ ok b
    → a.left ≡ b.left
    → a.right ≢ b.right
toy_distinct i j a b l k g h e r =
    let x : 0 ≡ i = omega arith in
    let y : 1 ≡ j = omega arith in
    let p : toy_merge ≡ a = ok_injective (sym merge-toy ∙ ap (merge toy) x ∙ g) in
    let q : toy_second ≡ b = ok_injective (sym merge-toy_second ∙ ap (merge toy) y ∙ h) in
    let u : 98 ≡ a.right = ap (λ (m : Merge). m.right) p in
    let w : 97 ≡ b.right = ap (λ (m : Merge). m.right) q in omega arith

pub toy_maps : MapsMerges toy 1 toy_index 0
toy_maps =
    elim (Ends-ok
      (fill-MapsMerges toy toy_start toy_ordinary (λ k l. ground arith) 1 (omega arith)
        (λ i j a b l k. toy_distinct i j a b l (omega arith)))
      toy_filled) [ inl h ↦ absurd (omega arith) | inr m ↦ m ]

-- The texts of the tokens.
abbrev pub toy_spelling : ℕ → List ℕ
toy_spelling token =
    if ltb token 256
    then token ∷ []
    else if token == 256
    then 97 ∷ 98 ∷ []
    else if token == 151657
    then tool_call
    else if token == 151658
    then tool_end
    else if token == im_start
    then codes "<|im_start|>"
    else if token == im_end
    then codes "<|im_end|>"
    else []

abbrev pub itself : ℕ → List ℕ
itself byte = byte ∷ []

pub toy_bytes : (byte : ℕ) → byte < 256 → toy_spelling (toy_index (byte_map + byte)) ≡ itself byte
unfolding hash_slot
toy_bytes byte l =
    let e : toy_index (byte_map + byte) ≡ byte = ground arith in
    ap toy_spelling e ∙ (let f : ltb byte 256 ≡ true = ground arith in rw f refl)

pub toy_joins :
    (left right result rank : ℕ)
    → (lookup toy_index left right).0 ≡ some (result, rank)
    → toy_spelling result ≡ toy_spelling left ++ toy_spelling right
toy_joins left right result rank h =
    let (m, b, g, l, r, s) = toy_maps.only left right result rank h in
    let z : 0 ≡ rank = omega arith in
    let e : toy_merge ≡ m = ok_injective (sym merge-toy ∙ ap (merge toy) z ∙ g) in
    ap toy_spelling (sym s)
    ∙ ap (λ (n : Merge). toy_spelling n.result) (sym e)
    ∙ ap (λ (n : Merge). toy_spelling n.left ++ toy_spelling n.right) e
    ∙ ap₂ (λ (x y : ℕ). toy_spelling x ++ toy_spelling y) l r

pub toy_tags :
    (token : ℕ) (word : List ℕ) → IsTag token word → toy_spelling token ≡ spelled itself word
unfolding spelled
toy_tags token word (inl (t, w)) = ap toy_spelling t ∙ ap (spelled itself) (sym w)
toy_tags token word (inr (t, w)) = ap toy_spelling t ∙ ap (spelled itself) (sym w)
