-- ===== src/Sha256/Stream.antt =====
-- What the streaming state of crates/promptboot-core/src/sha256.rs holds: the chain of the whole
-- blocks, and the bytes that wait.
use promptboot.Prelude.{
  flatten, flatten-append, subst, ℕ, zero, suc, ◌+◌, ◌-◌, ◌%◌, ◌^◌, ◌<◌, ◌≤◌, ◌≡◌, refl, ap, sym,
  ◌∙◌, min, Bool, true, false, List, [], ◌∷◌, ◌++◌, length, take, drop, All-append, length-append,
  length-take, length-drop, take-append-drop, take-length, take-append, leb, ◌==◌, ==→eq, if-cases,
  arith,
}
use promptboot.Prelude.Slices.{splice, length-splice, take-splice}
use mathlib.Core.List.{append_assoc, append-nil}
use promptboot.Sha256.{
  Sha256, Backend, unresolved, scalar, sha_ni, new, resolved, compress_by, compress, absorb,
  keep_rest, update_aligned, update_waiting, update,
}
use promptboot.Sha256.Compress.{Chain, initial, message_schedule, compress_scalar, round_words}
use promptboot.Sha256.Padding.{Whole, step_block, chain_blocks, chain_blocks-append}

-- The blocks that were compressed, and the bytes that wait, make the message.
pub record Holds (s : Sha256) (msg : List ℕ) : Type 0 where
  pub done : List (List ℕ)
  pub rest : List ℕ
  pub whole : Whole done
  pub split : msg ≡ flatten done ++ rest
  pub chained : s.chain ≡ chain_blocks initial done
  pub used_is : s.used ≡ length rest
  pub short : length rest < 64
  pub waiting : take s.used s.block ≡ rest
  pub full : length s.block ≡ 64
  pub counted : s.byte_count ≡ length msg % 2 ^ 64

-- What the loop of `update` leaves: its blocks are compressed in their order.
record Absorbs (s : Sha256) (input : List ℕ) (r : Sha256 × List ℕ) : Type 0 where
  more : List (List ℕ)
  more_whole : Whole more
  input_split : input ≡ flatten more ++ r.1
  left_short : length r.1 < 64
  more_chained : r.0.chain ≡ chain_blocks s.chain more
  same_block : r.0.block ≡ s.block
  same_count : r.0.byte_count ≡ s.byte_count

pub new-Holds : Holds new []
unfolding new chain_blocks
new-Holds = record {
  done = [];
  rest = [];
  whole = tt;
  split = refl;
  chained = refl;
  used_is = refl;
  short = omega arith;
  waiting = refl;
  full = refl;
  counted = refl;
}

module _ (available : Bool) (rounds_ni : Chain → List ℕ → Chain)
    (agrees : (c : Chain) (w : List ℕ) → rounds_ni c (round_words w) ≡ compress_scalar c w) where
  compress_by-scalar :
      (b : Backend) (c : Chain) (w : List ℕ)
      → compress_by available rounds_ni b c w ≡ compress_scalar c w
  unfolding compress_by
  compress_by-scalar unresolved c w = refl
  compress_by-scalar scalar c w = refl
  compress_by-scalar sha_ni c w = agrees c w

  -- Whatever the backend, a compression is that of the standard.
  pub compress-step_block :
      (s : Sha256) (b : List ℕ) → (compress available rounds_ni s b).chain ≡ step_block s.chain b
  unfolding compress step_block
  compress-step_block s b =
      compress_by-scalar (resolved available rounds_ni s.backend) s.chain (message_schedule b)

  -- One more block before what the loop absorbs.
  Absorbs-cons :
      (s : Sha256) (input : List ℕ)
      → 64 ≤ length input
      → {r : Sha256 × List ℕ}
      → Absorbs (compress available rounds_ni s (take 64 input)) (drop 64 input) r
      → Absorbs s input r
  unfolding chain_blocks compress
  Absorbs-cons s input l {r} a = record {
    more = take 64 input ∷ a.more;
    more_whole = (omega (arith, length-take 64 input), a.more_whole);
    input_split =
        sym (take-append-drop 64 input)
        ∙ (ap (take 64 input ++◌) a.input_split
            ∙ sym (append_assoc (take 64 input) (flatten a.more) r.1));
    left_short = a.left_short;
    more_chained =
        a.more_chained
        ∙ ap (λ (c : Chain). chain_blocks c a.more) (compress-step_block s (take 64 input));
    same_block = a.same_block;
    same_count = a.same_count;
  }

  Absorbs-none : (s : Sha256) (input : List ℕ) → length input < 64 → Absorbs s input (s, input)
  unfolding chain_blocks
  Absorbs-none s input l = record {
    more = [];
    more_whole = tt;
    input_split = refl;
    left_short = l;
    more_chained = refl;
    same_block = refl;
    same_count = refl;
  }

  -- The loop ends with its fuel to spare: what is left is no whole block.
  absorb-Absorbs :
      (fuel : ℕ) (s : Sha256) (input : List ℕ)
      → length input ≤ fuel
      → Absorbs s input (absorb available rounds_ni fuel s input)
  unfolding absorb
  absorb-Absorbs zero s input h = Absorbs-none s input (omega arith)
  absorb-Absorbs (suc fuel) s input h =
      if-cases (Absorbs s input) (leb 64 (length input)) _ _
        (λ t.
          (let l : 64 ≤ length input = ground arith in
            Absorbs-cons s input l (
              absorb-Absorbs fuel (compress available rounds_ni s (take 64 input)) (drop 64 input)
                (omega (arith, length-drop 64 input)))))
        (λ f. Absorbs-none s input (ground arith))

  -- The end of a message that begins at a block's start.
  module _ (msg : List ℕ) (s : Sha256) (done : List (List ℕ)) (w : Whole done)
      (c : s.chain ≡ chain_blocks initial done) (n : length s.block ≡ 64)
      (k : s.byte_count ≡ length msg % 2 ^ 64) where
    keep_rest-Holds :
        (input : List ℕ) (r : Sha256 × List ℕ)
        → msg ≡ flatten done ++ input
        → Absorbs s input r
        → Holds (keep_rest available rounds_ni r) msg
    unfolding keep_rest
    keep_rest-Holds input r e a = record {
      done = done ++ a.more;
      rest = r.1;
      whole = All-append (λ b. length b ≡ 64) done a.more (w, a.more_whole);
      split =
          e
          ∙ (ap (flatten done ++◌) a.input_split
              ∙ (sym (append_assoc (flatten done) (flatten a.more) r.1)
                  ∙ ap (◌++ r.1) (sym (flatten-append done a.more))));
      chained =
          a.more_chained
          ∙ (ap (λ (t : Chain). chain_blocks t a.more) c
              ∙ sym (chain_blocks-append initial done a.more));
      used_is = refl;
      short = a.left_short;
      waiting = take-append r.1 (drop (length r.1) r.0.block);
      full =
          length-splice r.0.block r.1 0 (length r.1) (omega arith)
            (let b = ap length a.same_block in omega (arith, a.left_short))
          ∙ (ap length a.same_block ∙ n);
      counted = a.same_count ∙ k;
    }

    update_aligned-Holds :
        (input : List ℕ)
        → msg ≡ flatten done ++ input
        → Holds (update_aligned available rounds_ni s input) msg
    unfolding update_aligned
    update_aligned-Holds input e =
        keep_rest-Holds input (absorb available rounds_ni (length input) s input) e
          (absorb-Absorbs (length input) s input (omega arith))

  -- The first `if` of `update`, on a state that holds a message.
  module _ (s : Sha256) (msg input : List ℕ) (h : Holds s msg) where
    abbrev taken : ℕ
    taken = min (64 - s.used) (length input)

    abbrev filled_block : List ℕ
    filled_block = splice s.used (s.used + taken) (take taken input) s.block

    length-taken : length (take taken input) ≡ taken
    length-taken = length-take taken input ∙ omega arith

    length-filled_block : length filled_block ≡ 64
    length-filled_block =
        length-splice s.block (take taken input) s.used (s.used + taken)
          (omega (arith, length-taken)) (omega (arith, h.full, h.used_is, h.short))
        ∙ h.full

    filled_block-rest : take (s.used + taken) filled_block ≡ h.rest ++ take taken input
    filled_block-rest =
        subst
          (λ (n : ℕ).
            take (s.used + n) (splice s.used (s.used + n) (take taken input) s.block)
            ≡ take s.used s.block ++ take taken input)
          length-taken
          (take-splice s.block (take taken input) s.used
            (omega (arith, h.full, h.used_is, h.short)))
        ∙ ap (◌++ take taken input) h.waiting

    abbrev with_count : Sha256
    with_count = record s { byte_count = (s.byte_count + length input) % 2 ^ 64 }

    with_count-counted : (s.byte_count + length input) % 2 ^ 64 ≡ length (msg ++ input) % 2 ^ 64
    with_count-counted = omega (arith, h.counted, length-append msg input)

    full_split :
        filled_block ≡ h.rest ++ take taken input
        → msg ++ input ≡ flatten (h.done ++ filled_block ∷ []) ++ drop taken input
    full_split b =
        let inner : h.rest ++ input ≡ filled_block ++ drop taken input =
          ap (h.rest ++◌) (sym (take-append-drop taken input))
          ∙ (sym (append_assoc h.rest (take taken input) (drop taken input))
              ∙ ap (◌++ drop taken input) (sym b)) in
        let outer : flatten h.done ++ filled_block ≡ flatten (h.done ++ filled_block ∷ []) =
          ap (flatten h.done ++◌) (sym (append-nil filled_block))
          ∙ sym (flatten-append h.done (filled_block ∷ [])) in
        ap (◌++ input) h.split
        ∙ (append_assoc (flatten h.done) h.rest input
            ∙ (ap (flatten h.done ++◌) inner
                ∙ (sym (append_assoc (flatten h.done) filled_block (drop taken input))
                    ∙ ap (◌++ drop taken input) outer)))

    -- The block is full: it is compressed, and the rest of the input begins at a block's start.
    block_full-Holds :
        s.used + taken ≡ 64
        → Holds
            (update_aligned available rounds_ni
              (record (compress available rounds_ni
                (record with_count { block = filled_block; used = s.used + taken })
                filled_block) { used = 0 })
              (drop taken input))
            (msg ++ input)
    unfolding compress chain_blocks
    block_full-Holds e =
        let b : filled_block ≡ h.rest ++ take taken input =
          sym (take-length filled_block)
          ∙ (ap (λ (n : ℕ). take n filled_block) (omega (arith, length-filled_block, e))
              ∙ filled_block-rest) in
        update_aligned-Holds (msg ++ input) _ (h.done ++ filled_block ∷ [])
          (All-append (λ b. length b ≡ 64) h.done (filled_block ∷ [])
            (h.whole, (length-filled_block, tt)))
          (compress-step_block (record with_count { block = filled_block; used = s.used + taken })
              filled_block
            ∙ (ap (λ (c : Chain). step_block c filled_block) h.chained
                ∙ sym (chain_blocks-append initial h.done (filled_block ∷ []))))
          length-filled_block with_count-counted (drop taken input) (full_split b)

    -- The block is not full: the input waits behind what waited.
    block_open-Holds :
        (s.used + taken == 64) ≡ false
        → Holds (record with_count { block = filled_block; used = s.used + taken }) (msg ++ input)
    block_open-Holds f =
        let u : s.used < 64 = omega (arith, h.used_is, h.short) in
        let all : taken ≡ length input = ground arith in
        let room : s.used + length input < 64 = ground arith in
        record {
          done = h.done;
          rest = h.rest ++ input;
          whole = h.whole;
          split = ap (◌++ input) h.split ∙ append_assoc (flatten h.done) h.rest input;
          chained = h.chained;
          used_is = omega (arith, length-append h.rest input, h.used_is, all);
          short = omega (arith, length-append h.rest input, h.used_is, room);
          waiting =
              filled_block-rest
              ∙ ap (h.rest ++◌) (ap (λ (n : ℕ). take n input) all ∙ take-length input);
          full = length-filled_block;
          counted = with_count-counted;
        }

  -- `update` appends its input to the message.
  pub update-Holds :
      (s : Sha256) (msg input : List ℕ)
      → Holds s msg
      → Holds (update available rounds_ni s input) (msg ++ input)
  unfolding update update_waiting
  update-Holds s msg input h =
      if-cases (λ (t : Sha256). Holds t (msg ++ input)) (s.used == 0) _ _
        (λ t.
          update_aligned-Holds (msg ++ input) (with_count s msg input h) h.done h.whole h.chained
            h.full (with_count-counted s msg input h) input
            (ap (◌++ input)
              (h.split ∙ ap (flatten h.done ++◌) (no_rest t) ∙ append-nil (flatten h.done))))
        (λ f.
          if-cases (λ (t : Sha256). Holds t (msg ++ input)) (s.used + taken s msg input h == 64) _ _
            (λ e. block_full-Holds s msg input h (==→eq _ 64 e))
            (λ e. block_open-Holds s msg input h e))
    where
      no_rest : (s.used == 0) ≡ true → h.rest ≡ []
      no_rest t = sym h.waiting ∙ ap (λ (n : ℕ). take n s.block) (==→eq s.used 0 t)
