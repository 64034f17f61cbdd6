-- ===== src/Hash/Reference.antt =====
-- The published definitions of the hashes, by arithmetic on octets, and where the code meets them.
use Prim.Native.Nat.{bit_or, bit_xor-bitwise}
use python_ctools.Bits.{bit_or_shifted}
use python_ctools.Base.{
  ℕ, ◌+◌, ◌*◌, ◌/◌, ◌%◌, ◌^◌, ◌<◌, ◌≡◌, refl, ap, ◌∙◌, bit_xor, List, [], ◌∷◌, length, arith, ok,
  ◌>>=◌,
}
use python_ctools.Hash.{
  char_u32, add32, mul32, shl32, fnv_shifts, fnv1a_from, fnv1a, fnv1_from, fnv1, djb2_from, djb2,
  murmur_word, murmur_mix, murmur_tail, murmur_from, murmur_finish, murmur_hash2,
}

-- every octet is below 128
abbrev pub Ascii : List ℕ → Type 0
Ascii [] = Unit {0}
Ascii (c ∷ s) = (c < 128) × Ascii s

-- The shifts and sums are a product with the FNV prime.
fnv_shifts-mul : (h : ℕ) → fnv_shifts h ≡ mul32 h 16777619
unfolding fnv_shifts
fnv_shifts-mul h = omega arith

-- FNV-1a and FNV-1 as published, from a hash on
pub fnv1a_reference : ℕ → List ℕ → ℕ
fnv1a_reference hash [] = hash
fnv1a_reference hash (c ∷ s) = fnv1a_reference (mul32 (bit_xor hash c) 16777619) s

pub fnv1_reference : ℕ → List ℕ → ℕ
fnv1_reference hash [] = hash
fnv1_reference hash (c ∷ s) = fnv1_reference (bit_xor (mul32 hash 16777619) c) s

fnv1a_from-reference :
    (hash : ℕ) (s : List ℕ) → Ascii s → fnv1a_from hash s ≡ fnv1a_reference hash s
unfolding fnv1a_from fnv1a_reference
fnv1a_from-reference hash [] h = refl
fnv1a_from-reference hash (c ∷ s) h = ground (
  arith,
  fnv_shifts-mul (bit_xor hash c),
  fnv1a_from-reference (mul32 (bit_xor hash c) 16777619) s,
)

fnv1_from-reference : (hash : ℕ) (s : List ℕ) → Ascii s → fnv1_from hash s ≡ fnv1_reference hash s
unfolding fnv1_from fnv1_reference
fnv1_from-reference hash [] h = refl
fnv1_from-reference hash (c ∷ s) h =
    ground (arith, fnv_shifts-mul hash, fnv1_from-reference (bit_xor (mul32 hash 16777619) c) s)

-- On ASCII strings `fnv1a` is FNV-1a and `fnv1` is FNV-1, as published for 32 bits.
pub fnv_reference_lem :
    (s : List ℕ)
    → Ascii s
    → (fnv1a s ≡ fnv1a_reference 2166136261 s) × (fnv1 s ≡ fnv1_reference 2166136261 s)
unfolding fnv1a fnv1
fnv_reference_lem s h = (fnv1a_from-reference 2166136261 s h, fnv1_from-reference 2166136261 s h)

-- hash * 33 + c, without a wrap
pub djb2_reference : ℕ → List ℕ → ℕ
djb2_reference hash [] = hash
djb2_reference hash (c ∷ s) = djb2_reference (hash * 33 + c) s

djb2_from-reference :
    (a b : ℕ) (s : List ℕ) → Ascii s → a ≡ b % 2 ^ 32 → djb2_from a s ≡ djb2_reference b s % 2 ^ 32
unfolding djb2_from djb2_reference
djb2_from-reference a b [] h e = e
djb2_from-reference a b (c ∷ s) h e =
    djb2_from-reference (add32 (add32 (shl32 a 5) a) (char_u32 c)) (b * 33 + c) s h.1 step
  where
    same : char_u32 c ≡ c
    same = ground (arith, h.0)

    step : add32 (add32 (shl32 a 5) a) (char_u32 c) ≡ (b * 33 + c) % 2 ^ 32
    step = rw (same, e) (omega arith)

-- On ASCII strings `djb2` is the polynomial in 33 with the octets for coefficients, reduced to 32
-- bits once at the end.
pub djb2_reference_lem : (s : List ℕ) → Ascii s → djb2 s ≡ djb2_reference 5381 s % 2 ^ 32
unfolding djb2
djb2_reference_lem s h = djb2_from-reference 5381 5381 s h refl

-- A word of four octets, the lowest first.
abbrev little_endian : ℕ → ℕ → ℕ → ℕ → ℕ
little_endian a b c d = a + b * 2 ^ 8 + c * 2 ^ 16 + d * 2 ^ 24

murmur_word-little_endian :
    (a b c d : ℕ)
    → a < 128
    → b < 128
    → c < 128
    → d < 128
    → murmur_word a b c d ≡ ok (little_endian a b c d)
unfolding murmur_word
murmur_word-little_endian a b c d ha hb hc hd =
    let low : bit_or (char_u32 a) (shl32 (char_u32 b) 8) ≡ a + b * 2 ^ 8 =
      ground (arith, bit_or_shifted 8 a b) in
    let middle : bit_or (a + b * 2 ^ 8) (shl32 (char_u32 c) 16) ≡ a + b * 2 ^ 8 + c * 2 ^ 16 =
      ground (arith, bit_or_shifted 16 (a + b * 2 ^ 8) c) in
    let high : bit_or (a + b * 2 ^ 8 + c * 2 ^ 16) (shl32 (char_u32 d) 24) ≡ little_endian a b c d =
      ground (arith, bit_or_shifted 24 (a + b * 2 ^ 8 + c * 2 ^ 16) d) in
    ground (arith, low, middle, high)

-- MurmurHash2 as published, with m = 0x5bd1e995 and r = 24, on octets: the mixing of a word, the
-- tail, the words, the last mixing, and the whole with seed 0.
mix_reference : ℕ → ℕ
mix_reference k =
    let k = k * 0x5bd1e995 % 2 ^ 32 in let k = bit_xor k (k / 2 ^ 24) in k * 0x5bd1e995 % 2 ^ 32

tail_reference : ℕ → List ℕ → ℕ
tail_reference hash (a ∷ b ∷ c ∷ []) =
    bit_xor (bit_xor (bit_xor hash (c * 2 ^ 16)) (b * 2 ^ 8)) a * 0x5bd1e995 % 2 ^ 32
tail_reference hash (a ∷ b ∷ []) = bit_xor (bit_xor hash (b * 2 ^ 8)) a * 0x5bd1e995 % 2 ^ 32
tail_reference hash (a ∷ []) = bit_xor hash a * 0x5bd1e995 % 2 ^ 32
tail_reference hash _ = hash

pub words_reference : ℕ → List ℕ → ℕ
words_reference hash (a ∷ b ∷ c ∷ d ∷ s) =
    words_reference (bit_xor (hash * 0x5bd1e995 % 2 ^ 32) (mix_reference (little_endian a b c d))) s
words_reference hash s = tail_reference hash s

pub finish_reference : ℕ → ℕ
finish_reference h =
    let h = bit_xor h (h / 2 ^ 13) in let h = h * 0x5bd1e995 % 2 ^ 32 in bit_xor h (h / 2 ^ 15)

abbrev pub murmur_reference : List ℕ → ℕ
murmur_reference s = finish_reference (words_reference (length s % 2 ^ 32) s)

murmur_mix-reference : (k : ℕ) → murmur_mix k ≡ mix_reference k
unfolding murmur_mix mix_reference
murmur_mix-reference k = refl

murmur_finish-reference : (h : ℕ) → murmur_finish h ≡ finish_reference h
unfolding murmur_finish finish_reference
murmur_finish-reference h = refl

murmur_from-reference :
    (hash : ℕ) (s : List ℕ) → Ascii s → murmur_from hash s ≡ ok (words_reference hash s)
unfolding murmur_from words_reference murmur_tail tail_reference
murmur_from-reference hash (a ∷ b ∷ c ∷ d ∷ s) h =
    let word = little_endian a b c d in
    ap (λ w. w >>= (λ key. murmur_from (bit_xor (mul32 hash 0x5bd1e995) (murmur_mix key)) s))
      (murmur_word-little_endian a b c d h.0 h.1.0 h.1.1.0 h.1.1.1.0)
    ∙ ap (λ k. murmur_from (bit_xor (mul32 hash 0x5bd1e995) k) s) (murmur_mix-reference word)
    ∙ murmur_from-reference (bit_xor (mul32 hash 0x5bd1e995) (mix_reference word)) s h.1.1.1.1
murmur_from-reference hash [] h = refl
murmur_from-reference hash (a ∷ []) h = ground arith
murmur_from-reference hash (a ∷ b ∷ []) h = ground arith
murmur_from-reference hash (a ∷ b ∷ c ∷ []) h = ground arith

-- On ASCII strings `murmur_hash2` is MurmurHash2 with seed 0, as published for words whose lowest
-- octet comes first.
pub murmur_reference_lem : (s : List ℕ) → Ascii s → murmur_hash2 s ≡ ok (murmur_reference s)
unfolding murmur_hash2
murmur_reference_lem s h =
    rw
      (
        bit_xor-bitwise 0 (length s % 2 ^ 32),
        murmur_from-reference (length s % 2 ^ 32) s h,
        murmur_finish-reference (words_reference (length s % 2 ^ 32) s),
      )
      refl
