-- ===== src/Sha256/Digest.antt =====
-- The digest of crates/promptboot-core/src/sha256.rs is the standard's hash of the whole message.
use promptboot.Prelude.{
  flatten, flatten-append, ltb→lt, subst, ap₂, ℕ, zero, suc, ◌+◌, ◌-◌, ◌*◌, ◌%◌, ◌^◌, ◌<◌, ◌≤◌, ◌≡◌,
  refl, ap, sym, ◌∙◌, Bool, List, [], ◌∷◌, ◌++◌, length, take, replicate, set, All-append,
  length-append, length-set, length-replicate, take-suc-set, drop_all, replicate-add, ltb, if-cases,
  arith,
}
use promptboot.Prelude.Slices.{splice, take-splice, length-splice}
use mathlib.Core.List.{append_assoc, append-nil}
use promptboot.Sha256.{update_all, Sha256, new, compress, close_full, close_room, finish, update}
use promptboot.Sha256.Compress.{Chain, initial, compress_scalar, round_words, be_bytes, chain_bytes}
use promptboot.Sha256.Padding.{
  Whole, length-flatten, step_block, chain_blocks, chain_blocks-append, padded, sha256,
  sha256-of_blocks,
}
use promptboot.Sha256.Stream.{Holds, new-Holds, compress-step_block, update-Holds}

length-be_bytes : (n x : ℕ) → length (be_bytes n x) ≡ n
unfolding be_bytes
length-be_bytes zero x = refl
length-be_bytes (suc n) x = ap suc (length-be_bytes n x)

-- A block whose end is written anew.
splice_end :
    (xs new : List ℕ) (p : ℕ)
    → length xs ≡ 64
    → p + length new ≡ 64
    → splice p 64 new xs ≡ take p xs ++ new
splice_end xs new p h e =
    ap (λ (t : List ℕ). take p xs ++ (new ++ t)) (drop_all 64 xs (omega arith))
    ∙ ap (take p xs ++◌) (append-nil new)

-- The bytes behind the message.
abbrev length_bytes : List ℕ → List ℕ
length_bytes msg = be_bytes 8 (length msg * 8 % 2 ^ 64)

module _ (available : Bool) (rounds_ni : Chain → List ℕ → Chain)
    (agrees : (c : Chain) (w : List ℕ) → rounds_ni c (round_words w) ≡ compress_scalar c w) where
  module _ (s : Sha256) (msg : List ℕ) (h : Holds s msg) where
    abbrev marked_block : List ℕ
    marked_block = set s.block s.used 0x80

    length-marked_block : length marked_block ≡ 64
    length-marked_block = length-set s.block s.used 0x80 ∙ h.full

    used-lt : s.used < 64
    used-lt = omega (arith, h.used_is, h.short)

    marked_block-rest : take (s.used + 1) marked_block ≡ h.rest ++ 0x80 ∷ []
    marked_block-rest =
        ap (λ (n : ℕ). take n marked_block) (let e : s.used + 1 ≡ suc s.used = omega arith in e)
        ∙ (take-suc-set s.block s.used 0x80 (omega (arith, h.full, used-lt))
            ∙ ap (◌++ 0x80 ∷ []) h.waiting)

    abbrev count_bytes : List ℕ
    count_bytes = be_bytes 8 (s.byte_count * 8 % 2 ^ 64)

    count_bytes-length_bytes : count_bytes ≡ length_bytes msg
    count_bytes-length_bytes = ap (be_bytes 8) (omega (arith, h.counted))

    length-msg : length msg ≡ 64 * length h.done + s.used
    length-msg =
        ap length h.split
        ∙ omega
            (arith, length-append (flatten h.done) h.rest, length-flatten h.done h.whole, h.used_is)

    closing :
        (bs : List (List ℕ)) (zeros : List ℕ)
        → flatten bs ≡ (h.rest ++ 0x80 ∷ []) ++ (zeros ++ count_bytes)
        → zeros ≡ replicate ((119 - length msg % 64) % 64) 0
        → flatten (h.done ++ bs) ≡ padded msg
    unfolding padded
    closing bs zeros e z =
        flatten-append h.done bs
        ∙ (ap (flatten h.done ++◌) (e ∙ append_assoc h.rest (0x80 ∷ []) (zeros ++ count_bytes))
            ∙ (sym (append_assoc (flatten h.done) h.rest (0x80 ∷ zeros ++ count_bytes))
                ∙ ap₂ (λ (m t : List ℕ). m ++ (0x80 ∷ t)) (sym h.split)
                    (ap₂ (λ (a b : List ℕ). a ++ b) z count_bytes-length_bytes)))

    -- Blocks that are added behind the compressed ones close the message.
    closes :
        (bs : List (List ℕ)) (zeros : List ℕ)
        → Whole bs
        → flatten bs ≡ (h.rest ++ 0x80 ∷ []) ++ (zeros ++ count_bytes)
        → zeros ≡ replicate ((119 - length msg % 64) % 64) 0
        → chain_bytes (chain_blocks s.chain bs) ≡ sha256 msg
    closes bs zeros w e z =
        ap (λ (c : Chain). chain_bytes (chain_blocks c bs)) h.chained
        ∙ (ap chain_bytes (sym (chain_blocks-append initial h.done bs))
            ∙ sha256-of_blocks msg (h.done ++ bs)
                (All-append (λ b. length b ≡ 64) h.done bs (h.whole, w)) (closing bs zeros e z))

    -- The mark leaves room for the length in the same block.
    abbrev room_zeros : List ℕ
    room_zeros = replicate (56 - (s.used + 1)) 0

    abbrev room_block : List ℕ
    room_block = splice (s.used + 1) 56 room_zeros marked_block

    length-room_zeros : s.used + 1 ≤ 56 → s.used + 1 + length room_zeros ≡ 56
    length-room_zeros l = omega (arith, length-replicate {A = ℕ} (56 - (s.used + 1)) 0)

    length-room_block : s.used + 1 ≤ 56 → length room_block ≡ 64
    length-room_block l =
        length-splice marked_block room_zeros (s.used + 1) 56 (sym (length-room_zeros l))
          (omega (arith, length-marked_block))
        ∙ length-marked_block

    take-room_block : s.used + 1 ≤ 56 → take 56 room_block ≡ (h.rest ++ 0x80 ∷ []) ++ room_zeros
    take-room_block l =
        subst
          (λ (n : ℕ).
            take n (splice (s.used + 1) n room_zeros marked_block)
            ≡ take (s.used + 1) marked_block ++ room_zeros)
          (length-room_zeros l)
          (take-splice marked_block room_zeros (s.used + 1)
            (omega (arith, length-marked_block, used-lt)))
        ∙ ap (◌++ room_zeros) marked_block-rest

    abbrev last_block : List ℕ → List ℕ
    last_block xs = splice 56 64 count_bytes xs

    last_block_lem : (xs : List ℕ) → length xs ≡ 64 → last_block xs ≡ take 56 xs ++ count_bytes
    last_block_lem xs e =
        splice_end xs count_bytes 56 e
          (omega (arith, length-be_bytes 8 (s.byte_count * 8 % 2 ^ 64)))

    length-last_block : (xs : List ℕ) → length xs ≡ 64 → length (last_block xs) ≡ 64
    length-last_block xs e =
        length-splice xs count_bytes 56 64
          (omega (arith, length-be_bytes 8 (s.byte_count * 8 % 2 ^ 64))) (omega (arith, e))
        ∙ e

    closes_room :
        s.used + 1 ≤ 56 → chain_bytes (step_block s.chain (last_block room_block)) ≡ sha256 msg
    unfolding chain_blocks
    closes_room l =
        closes (last_block room_block ∷ []) room_zeros
          (length-last_block room_block (length-room_block l), tt)
          (append-nil (last_block room_block)
            ∙ (last_block_lem room_block (length-room_block l)
                ∙ (ap (◌++ count_bytes) (take-room_block l)
                    ∙ append_assoc (h.rest ++ 0x80 ∷ []) room_zeros count_bytes)))
          (ap (λ (n : ℕ). replicate n 0) (omega (arith, length-msg)))

    -- The mark leaves no such room: its block is filled, and the length goes into one more.
    abbrev full_zeros : List ℕ
    full_zeros = replicate (64 - (s.used + 1)) 0

    abbrev full_block : List ℕ
    full_block = splice (s.used + 1) 64 full_zeros marked_block

    full_block_lem : full_block ≡ (h.rest ++ 0x80 ∷ []) ++ full_zeros
    full_block_lem =
        splice_end marked_block full_zeros (s.used + 1) length-marked_block
          (omega (arith, length-replicate {A = ℕ} (64 - (s.used + 1)) 0, used-lt))
        ∙ ap (◌++ full_zeros) marked_block-rest

    length-full_block : length full_block ≡ 64
    length-full_block =
        length-splice marked_block full_zeros (s.used + 1) 64
          (omega (arith, length-replicate {A = ℕ} (64 - (s.used + 1)) 0, used-lt))
          (omega (arith, length-marked_block))
        ∙ length-marked_block

    closes_full :
        56 < s.used + 1
        → chain_bytes (step_block (step_block s.chain full_block) (last_block (replicate 64 0)))
          ≡ sha256 msg
    unfolding chain_blocks
    closes_full l =
        closes (full_block ∷ last_block (replicate 64 0) ∷ []) (full_zeros ++ replicate 56 0)
          (length-full_block, (length-last_block (replicate 64 0) refl, tt))
          (ap₂ (λ (a b : List ℕ). a ++ b) full_block_lem
              (append-nil (last_block (replicate 64 0)) ∙ last_block_lem (replicate 64 0) refl)
            ∙ (append_assoc (h.rest ++ 0x80 ∷ []) full_zeros (replicate 56 0 ++ count_bytes)
                ∙ ap ((h.rest ++ 0x80 ∷ []) ++◌)
                    (sym (append_assoc full_zeros (replicate 56 0) count_bytes))))
          (sym (replicate-add (64 - (s.used + 1)) 56 _ 0 (omega (arith, length-msg, used-lt))))

    -- `finish` gives the hash of the message.
    pub finish-Holds : finish available rounds_ni s ≡ sha256 msg
    unfolding finish close_full close_room
    finish-Holds =
        if-cases
          (λ (c : Sha256).
            chain_bytes (compress available rounds_ni c (last_block c.block)).chain ≡ sha256 msg)
          (ltb 56 (s.used + 1)) _ _
          (λ t.
            ap chain_bytes (
              compress-step_block available rounds_ni agrees filled (last_block (replicate 64 0))
              ∙ ap (λ (c : Chain). step_block c (last_block (replicate 64 0)))
                  (compress-step_block available rounds_ni agrees marked full_block))
            ∙ closes_full (ltb→lt 56 (s.used + 1) t))
          (λ f.
            ap chain_bytes (
              compress-step_block available rounds_ni agrees (record marked { block = room_block })
                (last_block room_block))
            ∙ closes_room (ground arith))
      where
        marked : Sha256
        marked = record s { block = marked_block; used = s.used + 1 }

        filled : Sha256
        filled = record (compress available rounds_ni marked full_block) { block = replicate 64 0 }

  update_all-Holds :
      (s : Sha256) (msg : List ℕ) (pieces : List (List ℕ))
      → Holds s msg
      → Holds (update_all available rounds_ni s pieces) (msg ++ flatten pieces)
  unfolding update_all
  update_all-Holds s msg [] h = subst (Holds s) (sym (append-nil msg)) h
  update_all-Holds s msg (piece ∷ pieces) h =
      subst (Holds (update_all available rounds_ni (update available rounds_ni s piece) pieces))
        (append_assoc msg piece (flatten pieces))
        (update_all-Holds (update available rounds_ni s piece) (msg ++ piece) pieces
          (update-Holds available rounds_ni agrees s msg piece h))

  -- However a message is divided into calls of `update`, and whether or not the processor has the
  -- SHA instructions, `finish` gives the hash of the whole message, provided that the assembly
  -- routine computes on the round words what the scalar code computes.
  pub finish-update_all :
      (pieces : List (List ℕ))
      → finish available rounds_ni (update_all available rounds_ni new pieces)
        ≡ sha256 (flatten pieces)
  finish-update_all pieces =
      finish-Holds (update_all available rounds_ni new pieces) (flatten pieces)
        (update_all-Holds new [] pieces new-Holds)
