-- ===== src/Editor/Limits.antt =====
-- Pairs of terminators, lines that are too long, and the end of the prompt index, at the editor of
-- src/editor.rs.
use promptboot.Prelude.{
  ℕ, ◌<◌, ◌≡◌, ◌≢◌, ◌⊎◌, refl, true, false, [], ◌∷◌, leb, ◌==◌, ◌&&◌, arith, u64_max, if-cases,
}
use promptboot.Editor.{
  Editor, Reply, continue, prompt_index_overflow, clear, process_key, plain_key, discard_key,
  enter_key, backspace_key, printable_key, is_printable, is_terminator, completes_pair, current_of,
  run, chain,
}
use promptboot.Editor.Invariant.{IsValid}

-- The two orders of a pair.
abbrev pub IsPair : ℕ → ℕ → Type 0
IsPair a b = ((a ≡ 13) × (b ≡ 10)) ⊎ ((a ≡ 10) × (b ≡ 13))

second_half :
    (e : Editor) (a b : ℕ)
    → IsPair a b
    → e.pending_terminator ≡ a
    → process_key e b ≡ (record e { pending_terminator = 0 }, continue, [])
unfolding process_key
second_half e a b p h = ground arith

first_half :
    (e : Editor) (a b : ℕ)
    → IsPair a b
    → e.pending_terminator ≢ b
    → e.prompt_index < u64_max
    → ((process_key e a).0.pending_terminator ≡ a) × ((process_key e a).1 ≡ continue)
unfolding process_key plain_key discard_key enter_key
first_half e a b p n i = ground arith

-- A return and a line feed, in either order, count as one terminator: the second is swallowed, with
-- no event and no change but that nothing is pending any more. So too where the first one ends the
-- discarding of a line.
pub pair_is_one :
    (e : Editor) (a b : ℕ)
    → IsPair a b
    → e.pending_terminator ≢ b
    → e.prompt_index < u64_max
    → let (e', flow, events) = run e (a ∷ []) in
      (flow ≡ continue)
      × (run e (a ∷ b ∷ []) ≡ (record e' { pending_terminator = 0 }, continue, events))
unfolding run
pair_is_one e a b p n i = let h = first_half e a b p n i in attach (process_key e a) h.0 h.1
  where
    attach :
        (r : Reply)
        → r.0.pending_terminator ≡ a
        → r.1 ≡ continue
        → ((chain r (r.0, continue, [])).1 ≡ continue)
          × (chain r (let s = process_key r.0 b in chain s (s.0, continue, [])) ≡ (
            record (chain r (r.0, continue, [])).0 { pending_terminator = 0 },
            continue,
            (chain r (r.0, continue, [])).2,
          ))
    attach (e', continue, es) h f = (refl, rw (second_half e' a b p h) refl)
    attach (e', prompt_index_overflow, es) h f = absurd (cc f)

-- The index runs out.
abbrev pub Exhausts : Editor → Reply → Type 0
Exhausts e (e', flow, events) =
    flow ≡ prompt_index_overflow
    → (e.prompt_index ≡ u64_max)
      × (events ≡ [])
      × (e'.length ≡ 0)
      × (e'.discard_until_enter ≡ false)

enter_key-Exhausts :
    (e : Editor) (c : ℕ) → IsValid e → e.discard_until_enter ≡ false → Exhausts e (enter_key e c)
unfolding enter_key clear
enter_key-Exhausts e c v d f = ground arith

discard_key-Exhausts :
    (e : Editor) (c : ℕ) → IsValid e → e.discard_until_enter ≡ true → Exhausts e (discard_key e c)
unfolding discard_key
discard_key-Exhausts e c v d f = ground arith

backspace_key-Exhausts : (e : Editor) → Exhausts e (backspace_key e)
unfolding backspace_key
backspace_key-Exhausts e f = ground arith

printable_key-Exhausts :
    (e : Editor) (c : ℕ)
    → IsValid e
    → e.discard_until_enter ≡ false
    → Exhausts e (printable_key e c)
unfolding printable_key clear
printable_key-Exhausts e c v d f = ground arith

plain_key-Exhausts : (e : Editor) (u : ℕ) → IsValid e → Exhausts e (plain_key e u)
unfolding plain_key
plain_key-Exhausts e u v =
    if-cases (Exhausts e) e.discard_until_enter _ _ (discard_key-Exhausts e c v) λ d.
      if-cases (Exhausts e) (is_terminator c) _ _ (λ _. enter_key-Exhausts e c v d)
        λ _.
          if-cases (Exhausts e) (c == 0x08) _ _ (λ _. backspace_key-Exhausts e)
            λ _.
              if-cases (Exhausts e) (is_printable c && leb u 0xff) _ _
                (λ _. printable_key-Exhausts e c v d) (λ _ f. absurd (cc f))
  where
    c : ℕ
    c = current_of u

-- A key that ends the session of a valid editor finds the prompt index at the largest 64-bit word,
-- emits nothing, and leaves an empty line and no discarding.
pub overflow_only_at_end :
    (e : Editor) (u : ℕ)
    → IsValid e
    → (process_key e u).1 ≡ prompt_index_overflow
    → (e.prompt_index ≡ u64_max)
      × ((process_key e u).2 ≡ [])
      × ((process_key e u).0.length ≡ 0)
      × ((process_key e u).0.discard_until_enter ≡ false)
unfolding process_key
overflow_only_at_end e u v =
    if-cases (Exhausts e) (completes_pair e.pending_terminator (current_of u)) _ _
      (λ _ f. absurd (cc f))
      (λ _. plain_key-Exhausts (record e { pending_terminator = 0 }) u (ground arith))
