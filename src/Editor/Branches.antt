-- ===== src/Editor/Branches.antt =====
-- The branches of `process_key` in src/editor.rs, one equation for each.
use promptboot.Prelude.{
  ℕ, ◌+◌, ◌-◌, ◌<◌, ◌≡◌, true, false, [], ◌∷◌, arith, le→ltb, eq→==, ne→==, set, take, some, none,
  checked_add, u64_max, ◌≢◌,
}
use promptboot.Editor.{
  Editor, continue, prompt_index_overflow, live_ascii, erase_last, accepted, rejected, prompt,
  clear, discard_key, enter_key, backspace_key, printable_key, is_terminator, line_capacity,
}

checked_next : (i : ℕ) → i < u64_max → checked_add i 1 ≡ some (i + 1)
checked_next i h = rw (le→ltb u64_max (i + 1) (omega arith))

checked_last : (i : ℕ) → i ≡ u64_max → checked_add i 1 ≡ none
checked_last i h = rw h

module _ (e : Editor) where
  pub discard_key_enter :
      (c : ℕ)
      → is_terminator c ≡ true
      → e.prompt_index < u64_max
      → discard_key e c ≡ (
        record e {
          pending_terminator = c;
          discard_until_enter = false;
          prompt_index = e.prompt_index + 1;
        },
        continue,
        prompt (e.prompt_index + 1) ∷ [],
      )
  unfolding discard_key
  discard_key_enter c t h = rw (t, checked_next e.prompt_index h)

  pub discard_key_other : (c : ℕ) → is_terminator c ≡ false → discard_key e c ≡ (e, continue, [])
  unfolding discard_key
  discard_key_other c t = rw t

  pub enter_key_next :
      (c : ℕ)
      → e.prompt_index < u64_max
      → enter_key e c ≡ (
        record (clear e) { prompt_index = e.prompt_index + 1; pending_terminator = c },
        continue,
        accepted e.prompt_index (take e.length e.buffer) ∷ prompt (e.prompt_index + 1) ∷ [],
      )
  unfolding enter_key
  enter_key_next c h = rw (checked_next e.prompt_index h, enter_key)

  pub enter_key_last :
      (c : ℕ) → e.prompt_index ≡ u64_max → enter_key e c ≡ (clear e, prompt_index_overflow, [])
  unfolding enter_key
  enter_key_last c h = rw (checked_last e.prompt_index h, enter_key)

  pub backspace_key_empty : e.length ≡ 0 → backspace_key e ≡ (e, continue, [])
  unfolding backspace_key
  backspace_key_empty h = simp (eq→== e.length 0 h)

  pub backspace_key_some :
      e.length ≢ 0
      → backspace_key e ≡ (
        record e { length = e.length - 1; buffer = set e.buffer (e.length - 1) 0 },
        continue,
        erase_last ∷ [],
      )
  unfolding backspace_key
  backspace_key_some h = simp (ne→== e.length 0 h)

  pub printable_key_room :
      (c : ℕ)
      → e.length ≢ line_capacity
      → printable_key e c ≡ (
        record e { buffer = set e.buffer e.length c; length = e.length + 1 },
        continue,
        live_ascii c ∷ [],
      )
  unfolding printable_key
  printable_key_room c h = simp (ne→== e.length line_capacity h)

  pub printable_key_full :
      (c : ℕ)
      → e.length ≡ line_capacity
      → e.prompt_index < u64_max
      → printable_key e c
        ≡ (record (clear e) { discard_until_enter = true }, continue, rejected e.prompt_index ∷ [])
  unfolding printable_key
  printable_key_full c h i = simp (eq→== e.length line_capacity h, checked_next e.prompt_index i)

  pub printable_key_last :
      (c : ℕ)
      → e.length ≡ line_capacity
      → e.prompt_index ≡ u64_max
      → printable_key e c ≡ (clear e, prompt_index_overflow, [])
  unfolding printable_key
  printable_key_last c h i = simp (eq→== e.length line_capacity h, checked_last e.prompt_index i)
