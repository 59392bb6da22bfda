-- ===== src/Sha256/Compress.antt =====
-- The compression function of crates/promptboot-core/src/sha256.rs, in its scalar form. The array
-- `[u32; 8]` is a record of its words.
use promptboot.Prelude.{
  ℕ, zero, suc, ◌+◌, ◌-◌, ◌*◌, ◌/◌, ◌%◌, ◌^◌, List, [], ◌∷◌, ◌++◌, get_or, set, replicate, bit_and,
  bit_xor, u32_max,
}

pub record Chain : Type 0 where
  pub a : ℕ
  pub b : ℕ
  pub c : ℕ
  pub d : ℕ
  pub e : ℕ
  pub f : ℕ
  pub g : ℕ
  pub h : ℕ

abbrev pub chain_of : ℕ → ℕ → ℕ → ℕ → ℕ → ℕ → ℕ → ℕ → Chain
chain_of a b c d e f g h = record { a = a; b = b; c = c; d = d; e = e; f = f; g = g; h = h }

unfoldable pub initial : Chain
initial =
    chain_of 0x6a09e667 0xbb67ae85 0x3c6ef372 0xa54ff53a 0x510e527f 0x9b05688c 0x1f83d9ab 0x5be0cd19

-- The array `K`.
unfoldable pub round_constants : List ℕ
round_constants =
    0x428a2f98 ∷ 0x71374491 ∷ 0xb5c0fbcf ∷ 0xe9b5dba5 ∷ 0x3956c25b ∷ 0x59f111f1 ∷ 0x923f82a4
    ∷ 0xab1c5ed5 ∷ 0xd807aa98 ∷ 0x12835b01 ∷ 0x243185be ∷ 0x550c7dc3 ∷ 0x72be5d74 ∷ 0x80deb1fe
    ∷ 0x9bdc06a7 ∷ 0xc19bf174 ∷ 0xe49b69c1 ∷ 0xefbe4786 ∷ 0x0fc19dc6 ∷ 0x240ca1cc ∷ 0x2de92c6f
    ∷ 0x4a7484aa ∷ 0x5cb0a9dc ∷ 0x76f988da ∷ 0x983e5152 ∷ 0xa831c66d ∷ 0xb00327c8 ∷ 0xbf597fc7
    ∷ 0xc6e00bf3 ∷ 0xd5a79147 ∷ 0x06ca6351 ∷ 0x14292967 ∷ 0x27b70a85 ∷ 0x2e1b2138 ∷ 0x4d2c6dfc
    ∷ 0x53380d13 ∷ 0x650a7354 ∷ 0x766a0abb ∷ 0x81c2c92e ∷ 0x92722c85 ∷ 0xa2bfe8a1 ∷ 0xa81a664b
    ∷ 0xc24b8b70 ∷ 0xc76c51a3 ∷ 0xd192e819 ∷ 0xd6990624 ∷ 0xf40e3585 ∷ 0x106aa070 ∷ 0x19a4c116
    ∷ 0x1e376c08 ∷ 0x2748774c ∷ 0x34b0bcb5 ∷ 0x391c0cb3 ∷ 0x4ed8aa4a ∷ 0x5b9cca4f ∷ 0x682e6ff3
    ∷ 0x748f82ee ∷ 0x78a5636f ∷ 0x84c87814 ∷ 0x8cc70208 ∷ 0x90befffa ∷ 0xa4506ceb ∷ 0xbef9a3f7
    ∷ 0xc67178f2 ∷ []

-- `wrapping_add`
infixl 65 ◌⊞◌
abbrev pub ◌⊞◌ : ℕ → ℕ → ℕ
x ⊞ y = (x + y) % 2 ^ 32

unfoldable pub rotate_right : ℕ → ℕ → ℕ
rotate_right x n = x / 2 ^ n + x % 2 ^ n * 2 ^ (32 - n)

-- `u32::from_be_bytes`
abbrev pub from_be_bytes : ℕ → ℕ → ℕ → ℕ → ℕ
from_be_bytes b0 b1 b2 b3 = b0 * 2 ^ 24 + b1 * 2 ^ 16 + b2 * 2 ^ 8 + b3

-- `chunks_exact(4)`, and the word of each chunk
unfoldable pub be_words : List ℕ → List ℕ
be_words (b0 ∷ b1 ∷ b2 ∷ b3 ∷ rest) = from_be_bytes b0 b1 b2 b3 ∷ be_words rest
be_words rest = []

-- The word of the second loop at `index`.
unfoldable pub next_word : List ℕ → ℕ → ℕ
unfolding rotate_right
next_word schedule index =
    let w15 = get_or schedule (index - 15) 0 in
    let w2 = get_or schedule (index - 2) 0 in
    let s0 = bit_xor (bit_xor (rotate_right w15 7) (rotate_right w15 18)) (w15 / 2 ^ 3) in
    let s1 = bit_xor (bit_xor (rotate_right w2 17) (rotate_right w2 19)) (w2 / 2 ^ 10) in
    get_or schedule (index - 16) 0 ⊞ s0 ⊞ get_or schedule (index - 7) 0 ⊞ s1

-- The second loop, with the rounds that are left.
unfoldable pub extend_schedule : ℕ → ℕ → List ℕ → List ℕ
extend_schedule zero index schedule = schedule
extend_schedule (suc rounds) index schedule =
    extend_schedule rounds (index + 1) (set schedule index (next_word schedule index))

unfoldable pub message_schedule : List ℕ → List ℕ
unfolding be_words extend_schedule next_word
message_schedule block = extend_schedule 48 16 (be_words block ++ replicate 48 0)

-- One round, with the word that it adds to `h`, `s1` and `choice`.
unfoldable pub round_by : (ℕ → ℕ) → Chain → Chain
unfolding rotate_right
round_by add_words s =
    let s1 = bit_xor (bit_xor (rotate_right s.e 6) (rotate_right s.e 11)) (rotate_right s.e 25) in
    let choice = bit_xor (bit_and s.e s.f) (bit_and (u32_max - s.e) s.g) in
    let t1 = add_words (s.h ⊞ s1 ⊞ choice) in
    let s0 = bit_xor (bit_xor (rotate_right s.a 2) (rotate_right s.a 13)) (rotate_right s.a 22) in
    let majority = bit_xor (bit_xor (bit_and s.a s.b) (bit_and s.a s.c)) (bit_and s.b s.c) in
    let t2 = s0 ⊞ majority in chain_of (t1 ⊞ t2) s.a s.b s.c (s.d ⊞ t1) s.e s.f s.g

-- The loop over the 64 rounds, along both arrays.
unfoldable pub rounds : List ℕ → List ℕ → Chain → Chain
unfolding round_by
rounds (k ∷ ks) (w ∷ ws) s = rounds ks ws (round_by (λ t. t ⊞ k ⊞ w) s)
rounds ks ws s = s

-- The last loop: each word of the state grows by that of the rounds.
unfoldable pub add_chain : Chain → Chain → Chain
add_chain s t =
    chain_of (s.a ⊞ t.a) (s.b ⊞ t.b) (s.c ⊞ t.c) (s.d ⊞ t.d) (s.e ⊞ t.e) (s.f ⊞ t.f) (s.g ⊞ t.g)
      (s.h ⊞ t.h)

unfoldable pub compress_scalar : Chain → List ℕ → Chain
unfolding rounds add_chain round_constants
compress_scalar state schedule = add_chain state (rounds round_constants schedule state)

-- The loop of `compress_sha_ni`.
unfoldable pub add_constants : List ℕ → List ℕ → List ℕ
add_constants (k ∷ ks) (w ∷ ws) = (w ⊞ k) ∷ add_constants ks ws
add_constants ks ws = []

unfoldable pub round_words : List ℕ → List ℕ
unfolding add_constants round_constants
round_words schedule = add_constants round_constants schedule

-- `to_be_bytes`, of a word of `n` bytes
unfoldable pub be_bytes : ℕ → ℕ → List ℕ
be_bytes zero x = []
be_bytes (suc n) x = x / 2 ^ (8 * n) % 2 ^ 8 ∷ be_bytes n x

unfoldable pub chain_bytes : Chain → List ℕ
unfolding be_bytes
chain_bytes s =
    be_bytes 4 s.a
    ++ (be_bytes 4 s.b
        ++ (be_bytes 4 s.c
            ++ (be_bytes 4 s.d
                ++ (be_bytes 4 s.e ++ (be_bytes 4 s.f ++ (be_bytes 4 s.g ++ be_bytes 4 s.h))))))
