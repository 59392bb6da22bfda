-- ===== src/Editor/Lines.antt =====
-- Typing at the editor of src/editor.rs: whole lines, corrections, pairs of terminators, and the end
-- of the prompt index.
use mathlib.Core.List.{append_assoc, append-nil}
use native.Mathlib.Numerals.{add-one}
use promptboot.Prelude.{
  set-set_back, take, ◌-◌, u64_max, take-suc-set, refl, subst, ◌∙◌, ap₂, set, ◌≤◌, [], sym, ◌∷◌,
  length, ◌+◌, ◌++◌, map, ap, ◌<◌, All, List, ℕ, ◌≡◌, ◌≢◌, false, arith,
}
use promptboot.Editor.{
  clear, prompt, accepted, erase_last, live_ascii, Event, line_capacity, continue,
  prompt_index_overflow, chain, run, Reply, Editor, process_key, plain_key, enter_key,
  backspace_key, printable_key,
}
use promptboot.Editor.Branches.{printable_key_room, enter_key_next, backspace_key_some}
use promptboot.Editor.Invariant.{IsZero, process_key-IsValid, line, IsValid, IsPrintable}

-- A printable key is handed to its branch.
process_printable :
    (e : Editor) (c : ℕ)
    → IsPrintable c
    → e.discard_until_enter ≡ false
    → process_key e c ≡ printable_key (record e { pending_terminator = 0 }) c
unfolding process_key plain_key
process_printable e c p d = ground arith

process_backspace :
    (e : Editor)
    → e.discard_until_enter ≡ false
    → process_key e 8 ≡ backspace_key (record e { pending_terminator = 0 })
unfolding process_key plain_key
process_backspace e d = ground arith

process_return :
    (e : Editor)
    → e.pending_terminator ≢ 10
    → e.discard_until_enter ≡ false
    → process_key e 13 ≡ enter_key (record e { pending_terminator = 0 }) 13
unfolding process_key plain_key
process_return e n d = ground arith

chain_assoc : (r s t : Reply) → chain r (chain s t) ≡ chain (chain r s) t
chain_assoc (e, continue, es) (f, continue, fs) (g, flow, gs) =
    ap (λ (l : List Event). (g, flow, l)) (sym (append_assoc es fs gs))
chain_assoc (e, continue, es) (f, prompt_index_overflow, fs) t = refl
chain_assoc (e, prompt_index_overflow, es) (f, continue, fs) t = refl
chain_assoc (e, prompt_index_overflow, es) (f, prompt_index_overflow, fs) t = refl

-- Keys in two lots.
run-append :
    (xs ys : List ℕ) (e : Editor) → run e (xs ++ ys) ≡ chain (run e xs) (run (run e xs).0 ys)
unfolding run
run-append [] ys e = refl
run-append (x ∷ xs) ys e =
    split (process_key e x) (run (process_key e x).0 xs) _ (λ f. run f ys)
      (run-append xs ys (process_key e x).0)
  where
    split :
        (r s : Reply) (all : Reply) (rest : Editor → Reply)
        → all ≡ chain s (rest s.0)
        → chain r all ≡ chain (chain r s) (rest (chain r s).0)
    split (e', continue, es) s all rest h =
        ap (chain (e', continue, es)) h ∙ chain_assoc (e', continue, es) s (rest s.0)
    split (e', prompt_index_overflow, es) s all rest h = refl

-- The printable bytes `cs` typed at `e`.
record Typed (e : Editor) (cs : List ℕ) (r : Reply) : Type 0 where
  flows : r.1 ≡ continue
  echo : r.2 ≡ map live_ascii cs
  text : line r.0 ≡ line e ++ cs
  size : r.0.length ≡ e.length + length cs
  index : r.0.prompt_index ≡ e.prompt_index
  calm : e.pending_terminator ≢ 10 → r.0.pending_terminator ≢ 10
  open_still : r.0.discard_until_enter ≡ false
  valid : IsValid r.0

key_step :
    (e : Editor) (c : ℕ)
    → IsPrintable c
    → IsValid e
    → e.discard_until_enter ≡ false
    → e.length < line_capacity
    → process_key e c ≡ (
      record e { pending_terminator = 0; buffer = set e.buffer e.length c; length = e.length + 1 },
      continue,
      live_ascii c ∷ [],
    )
key_step e c p v d h =
    process_printable e c p d
    ∙ printable_key_room (record e { pending_terminator = 0 }) c (omega arith)

key-Typed :
    (e : Editor) (c : ℕ)
    → IsPrintable c
    → IsValid e
    → e.discard_until_enter ≡ false
    → e.length < line_capacity
    → Typed e (c ∷ []) (process_key e c)
key-Typed e c p v d h =
    let step = key_step e c p v d h in
    subst (Typed e (c ∷ [])) (sym step) (record {
      flows = refl;
      echo = refl;
      text = rw add-one (take-suc-set e.buffer e.length c (omega (arith, v.sized)));
      size = refl;
      index = refl;
      calm = λ _. omega arith;
      open_still = d;
      valid = subst IsValid (ap (λ (r : Reply). r.0) step) (process_key-IsValid e c v);
    })

run-Typed :
    (cs : List ℕ) (e : Editor)
    → All IsPrintable cs
    → IsValid e
    → e.discard_until_enter ≡ false
    → e.length + length cs ≤ line_capacity
    → Typed e cs (run e cs)
unfolding run
run-Typed [] e p v d h = record {
  flows = refl;
  echo = refl;
  text = sym (append-nil (line e));
  size = omega arith;
  index = refl;
  calm = λ n. n;
  open_still = d;
  valid = v;
}
run-Typed (c ∷ cs) e p v d h =
    let t = key-Typed e c p.0 v d (omega arith) in
    let u = run-Typed cs (process_key e c).0 p.1 t.valid t.open_still (omega (arith, t.size)) in
    chained (process_key e c) (run (process_key e c).0 cs) t u
  where
    chained : (r s : Reply) → Typed e (c ∷ []) r → Typed r.0 cs s → Typed e (c ∷ cs) (chain r s)
    chained (e', continue, es) s t u = record {
      flows = u.flows;
      echo = ap₂ ◌++◌ t.echo u.echo;
      text = u.text ∙ ap (λ (l : List ℕ). l ++ cs) t.text ∙ append_assoc (line e) (c ∷ []) cs;
      size = omega (arith, t.size, u.size);
      index = u.index ∙ t.index;
      calm = λ n. u.calm (t.calm n);
      open_still = u.open_still;
      valid = u.valid;
    }
    chained (e', prompt_index_overflow, es) s t u = absurd (cc t.flows)

-- After the line `cs` and a return.
abbrev pub Entered : Editor → List ℕ → Reply → Type 0
Entered e cs (e', flow, events) =
    (flow ≡ continue)
    × (events ≡ map live_ascii cs ++ accepted e.prompt_index cs ∷ prompt (e.prompt_index + 1) ∷ [])
    × (e'.length ≡ 0)
    × (e'.prompt_index ≡ e.prompt_index + 1)
    × IsValid e'

return-Entered :
    (e : Editor) (cs : List ℕ)
    → e.pending_terminator ≢ 10
    → e.length ≡ 0
    → e.prompt_index < u64_max
    → (r : Reply) → Typed e cs r
    → Entered e cs (chain r (run r.0 (13 ∷ [])))
unfolding run clear
return-Entered e cs n z i (e', prompt_index_overflow, events) t = absurd (cc t.flows)
return-Entered e cs n z i (e', continue, events) t = rw step (
    (
      refl,
      ap₂ (λ (l : List Event) (m : List Event). l ++ m) t.echo
          (ap₂ (λ (k : ℕ) (m : List ℕ). accepted k m ∷ prompt (k + 1) ∷ []) t.index whole),
      refl,
      ap (λ (k : ℕ). k + 1) t.index,
      subst IsValid (ap (λ (r : Reply). r.0) step) (process_key-IsValid e' 13 t.valid),
    ))
  where
    whole : line e' ≡ cs
    whole = t.text ∙ ap (λ (k : ℕ). take k e.buffer ++ cs) z

    step : process_key e' 13 ≡ (
      record (clear e') { prompt_index = e'.prompt_index + 1; pending_terminator = 13 },
      continue,
      accepted e'.prompt_index (line e') ∷ prompt (e'.prompt_index + 1) ∷ [],
    )
    step =
        process_return e' (t.calm n) t.open_still
        ∙ enter_key_next (record e' { pending_terminator = 0 }) 13 (omega (arith, t.index))

-- A whole line of at most 512 printable bytes, typed at an empty prompt of a valid editor that neither
-- discards nor waits for a line feed and whose prompt index is not the last, and ended by a return, is
-- echoed byte by byte, accepted as it was typed, under the index of its prompt, and followed by the
-- next prompt. The editor is then valid, empty and at the next index.
pub type_line :
    (e : Editor) (cs : List ℕ)
    → IsValid e
    → e.discard_until_enter ≡ false
    → e.pending_terminator ≢ 10
    → e.length ≡ 0
    → e.prompt_index < u64_max
    → All IsPrintable cs
    → length cs ≤ line_capacity
    → Entered e cs (run e (cs ++ 13 ∷ []))
type_line e cs v d n z i p h =
    subst (Entered e cs) (sym (run-append cs (13 ∷ []) e))
      (return-Entered e cs n z i (run e cs) (run-Typed cs e p v d (omega arith)))

-- On a valid editor that does not discard and has room in its line, a printable key and then a
-- backspace give back the editor that there was before, its buffer included, except that no
-- terminator is pending; the character is shown and rubbed out again.
pub backspace_undoes :
    (e : Editor) (c : ℕ)
    → IsValid e
    → e.discard_until_enter ≡ false
    → e.length < line_capacity
    → IsPrintable c
    → run e (c ∷ 8 ∷ [])
      ≡ (record e { pending_terminator = 0 }, continue, live_ascii c ∷ erase_last ∷ [])
unfolding run
backspace_undoes e c v d h p = rw (key_step e c p v d h) (
    rw (process_backspace typed d)
      (rw (backspace_key_some typed (omega arith)) (rw (one_less, restored) refl)))
  where
    typed : Editor
    typed = record e {
      pending_terminator = 0;
      buffer = set e.buffer e.length c;
      length = e.length + 1;
    }

    one_less : e.length + 1 - 1 ≡ e.length
    one_less = omega arith

    restored : set (set e.buffer e.length c) e.length 0 ≡ e.buffer
    restored = set-set_back IsZero 0 (λ a z. z) e.buffer e.length c v.clean
