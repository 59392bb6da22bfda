-- ===== src/Editor/Sessions.antt =====
-- What a session with the editor of src/editor.rs shows: its events against the line that it holds.
use native.Mathlib.Numerals.{add-one}
use native.Mathlib.Decide.{ℕ_discrete}
use promptboot.Prelude.{
  ◌&&◌, if-cases, take-set, take-take, ◌∙◌, take-suc-set, sym, ==→eq, length-take, inr, inl, ◌++◌,
  Bool-cases, ℕ, ◌+◌, ◌-◌, ◌≤◌, ◌<◌, ◌≡◌, ◌≢◌, ◌⊎◌, refl, ap, true, false, List, [], ◌∷◌, leb, ◌==◌,
  arith, length, set, take, All, u64_max,
}
use promptboot.Editor.{
  chain, current_of, completes_pair, is_terminator, Editor, Reply, continue, prompt_index_overflow,
  Event, live_ascii, erase_last, accepted, rejected, prompt, clear, process_key, plain_key,
  discard_key, enter_key, backspace_key, printable_key, is_printable, line_capacity, run,
}
use promptboot.Editor.Branches.{
  discard_key_enter, discard_key_other, enter_key_next, enter_key_last, backspace_key_empty,
  backspace_key_some, printable_key_room, printable_key_full, printable_key_last,
}
use promptboot.Editor.Invariant.{IsValid, IsPrintable, line, process_key-IsValid}

-- all but the last
abbrev pub drop_last {ℓ} : {A : Type ℓ} → List A → List A
drop_last xs = take (length xs - 1) xs

-- The events take the prompt index from `i` to `j`, and the echoed line from `s` to `t`: a
-- printable byte is echoed at the end, an erasure takes the last echoed byte away, an accepted line
-- is the line echoed, under the index of its prompt, and is no longer than the buffer, and each
-- prompt has the next index and an empty line.
abbrev pub Shows : ℕ → List ℕ → List Event → ℕ → List ℕ → Type 0
Shows i s [] j t = (i ≡ j) × (s ≡ t)
Shows i s (live_ascii c ∷ es) j t = IsPrintable c × Shows i (s ++ c ∷ []) es j t
Shows i s (erase_last ∷ es) j t = (s ≢ []) × Shows i (drop_last s) es j t
Shows i s (accepted k l ∷ es) j t =
    (k ≡ i) × (l ≡ s) × (length l ≤ line_capacity) × All IsPrintable l × Shows i s es j t
Shows i s (rejected k ∷ es) j t = (k ≡ i) × (length s ≡ line_capacity) × Shows i [] es j t
Shows i s (prompt k ∷ es) j t = (k ≡ i + 1) × Shows k [] es j t

Shows-append :
    (es fs : List Event) (i j k : ℕ) (s t u : List ℕ)
    → Shows i s es j t
    → Shows j t fs k u
    → Shows i s (es ++ fs) k u
Shows-append [] fs i j k s t u (p, q) h = rw (p, q) h
Shows-append (live_ascii c ∷ es) fs i j k s t u (p, r) h = (p, Shows-append es fs i j k _ t u r h)
Shows-append (erase_last ∷ es) fs i j k s t u (p, r) h = (p, Shows-append es fs i j k _ t u r h)
Shows-append (accepted n l ∷ es) fs i j k s t u (p, q, b, c, r) h =
    (p, q, b, c, Shows-append es fs i j k _ t u r h)
Shows-append (rejected n ∷ es) fs i j k s t u (p, b, r) h =
    (p, b, Shows-append es fs i j k _ t u r h)
Shows-append (prompt n ∷ es) fs i j k s t u (p, r) h = (p, Shows-append es fs n j k _ t u r h)

clear-line : (e : Editor) → line (clear e) ≡ []
unfolding clear
clear-line e = refl

-- One reply that continues.
abbrev pub Echoes : Editor → Reply → Type 0
Echoes e (e', flow, events) =
    flow ≡ continue → Shows e.prompt_index (line e) events e'.prompt_index (line e')

next_index : (e : Editor) → IsValid e → (e.prompt_index < u64_max) ⊎ (e.prompt_index ≡ u64_max)
next_index e v = omega arith

empty_line : (e : Editor) → e.length ≡ 0 → line e ≡ []
empty_line e h = rw h

discard_key-Echoes :
    (e : Editor) (c : ℕ) → IsValid e → e.discard_until_enter ≡ true → Echoes e (discard_key e c)
discard_key-Echoes e c v d = elim (Bool-cases (is_terminator c)) [
  | inl t ↦
      rw (discard_key_enter e c t (v.discards d).1)
        (λ _. (refl, (refl, sym (empty_line e (v.discards d).0))))
  | inr t ↦ rw (discard_key_other e c t) (λ _. (refl, refl))
]

enter_key-Echoes : (e : Editor) (c : ℕ) → IsValid e → Echoes e (enter_key e c)
enter_key-Echoes e c v = elim (next_index e v) [
  | inl h ↦
      rw (enter_key_next e c h) (λ _. (refl, refl, short, v.printable, (refl, (refl, sym cleared))))
  | inr h ↦ rw (enter_key_last e c h) (λ f. cc)
]
  where
    short : length (line e) ≤ line_capacity
    short = omega (arith, length-take e.length e.buffer, v.within)

    cleared : line (clear e) ≡ []
    cleared = clear-line e

backspace_key-Echoes : (e : Editor) → IsValid e → Echoes e (backspace_key e)
backspace_key-Echoes e v = elim (Bool-cases (e.length == 0)) [
  | inl z ↦ rw (backspace_key_empty e (==→eq _ _ z)) (λ _. (refl, refl))
  | inr s ↦ rw (backspace_key_some e (ground arith)) (λ _. (held s, (refl, shorter)))
]
  where
    size : length (line e) ≡ e.length
    size = omega (arith, length-take e.length e.buffer, v.within, v.sized)

    held : (e.length == 0) ≡ false → line e ≢ []
    held s nil = ground (arith, ap length nil, size)

    shorter : drop_last (line e) ≡ take (e.length - 1) (set e.buffer (e.length - 1) 0)
    shorter =
        ap (λ (t : ℕ). take (t - 1) (line e)) size
        ∙ take-take e.buffer (e.length - 1) e.length (omega arith)
        ∙ sym (take-set e.buffer (e.length - 1) 0)

printable_key-Echoes :
    (e : Editor) (c : ℕ) → IsPrintable c → IsValid e → Echoes e (printable_key e c)
unfolding clear
printable_key-Echoes e c p v = elim (ℕ_discrete e.length line_capacity) [
  | yes full ↦ elim (next_index e v) [
    | inl i ↦
        rw (printable_key_full e c full i)
          (λ _. (refl, at_capacity full, (refl, sym (clear-line e))))
    | inr i ↦ rw (printable_key_last e c full i) (λ f. cc)
  ]
  | no room ↦ rw (printable_key_room e c room) (λ _. (p, (refl, longer room)))
]
  where
    at_capacity : e.length ≡ line_capacity → length (line e) ≡ line_capacity
    at_capacity full = omega (arith, length-take e.length e.buffer, v.sized)

    longer :
        e.length ≢ line_capacity → line e ++ c ∷ [] ≡ take (e.length + 1) (set e.buffer e.length c)
    longer room =
        rw add-one (sym (take-suc-set e.buffer e.length c (omega (arith, v.sized, v.within))))

plain_key-Echoes : (e : Editor) (u : ℕ) → IsValid e → Echoes e (plain_key e u)
unfolding plain_key
plain_key-Echoes e u v =
    if-cases (Echoes e) e.discard_until_enter _ _ (discard_key-Echoes e c v) λ _.
      if-cases (Echoes e) (is_terminator c) _ _ (λ _. enter_key-Echoes e c v)
        λ _.
          if-cases (Echoes e) (c == 0x08) _ _ (λ _. backspace_key-Echoes e v)
            λ _.
              if-cases (Echoes e) (is_printable c && leb u 0xff) _ _
                (λ p. printable_key-Echoes e c (ground arith) v) (λ _ _. (refl, refl))
  where
    c : ℕ
    c = current_of u

process_key-Echoes : (e : Editor) (u : ℕ) → IsValid e → Echoes e (process_key e u)
unfolding process_key
process_key-Echoes e u v = elim (Bool-cases (completes_pair e.pending_terminator (current_of u))) [
  | inl b ↦ rw b (λ _. (refl, refl))
  | inr b ↦ rw b (plain_key-Echoes (record e { pending_terminator = 0 }) u (ground arith))
]

-- Whatever the keys, from a valid editor on, if the session goes on to their end, which it does
-- unless the prompt index runs out: the events of a session show exactly the
-- line that the editor holds, and every accepted line is the line echoed since its prompt.
pub run-Shows :
    (keys : List ℕ) (e : Editor)
    → IsValid e
    → let (e', flow, events) = run e keys in
      flow ≡ continue → Shows e.prompt_index (line e) events e'.prompt_index (line e')
unfolding run
run-Shows [] e v = λ _. (refl, refl)
run-Shows (k ∷ keys) e v =
    chained (process_key e k) (process_key-Echoes e k v)
      (run-Shows keys (process_key e k).0 (process_key-IsValid e k v))
  where
    chained :
        (r : Reply) → Echoes e r → Echoes r.0 (run r.0 keys) → Echoes e (chain r (run r.0 keys))
    chained (e', continue, events) s later f =
        Shows-append events (run e' keys).2 e.prompt_index e'.prompt_index _ (line e) (line e') _
          (s refl) (later f)
    chained (e', prompt_index_overflow, events) s later f = cc
