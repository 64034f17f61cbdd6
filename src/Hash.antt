-- ===== src/Hash.antt =====
-- The string hashes of src/functions.c: fnv1a, fnv1, djb2, murmur_hash2 and `strhash`.
-- A string is the list of its bytes, each below 256; `unsigned int` has 32 bits, and `char` is
-- signed, as on x86: a byte from 128 on is read as a negative number.
pub mod Reference
pub mod Methods
mod Tests
use python_ctools.Base.{
  ℕ, ◌+◌, ◌-◌, ◌*◌, ◌/◌, ◌%◌, ◌^◌, bit_and, bit_or, bit_xor, Option, none, some, List, [], ◌∷◌, ltb,
  leb, ◌||◌, ◌==◌, if◌then◌else◌, length, Result, ok, raise, fault, ◌>>=◌, value_error,
  negative_shift,
}

-- A byte as a `char`, converted to `unsigned int`.
abbrev pub char_u32 : ℕ → ℕ
char_u32 b = if ltb b 128 then b else b + (2 ^ 32 - 256)

abbrev pub add32 : ℕ → ℕ → ℕ
add32 a b = (a + b) % 2 ^ 32

abbrev pub mul32 : ℕ → ℕ → ℕ
mul32 a b = (a * b) % 2 ^ 32

-- a << k
abbrev pub shl32 : ℕ → ℕ → ℕ
shl32 a k = (a * 2 ^ k) % 2 ^ 32

-- a >> k
abbrev shr32 : ℕ → ℕ → ℕ
shr32 a k = a / 2 ^ k

abbrev fnv_offset : ℕ
fnv_offset = 2166136261

-- hash += (hash << 1) + (hash << 4) + (hash << 7) + (hash << 8) + (hash << 24)
pub fnv_shifts : ℕ → ℕ
fnv_shifts hash = add32 hash (
    add32 (add32 (add32 (add32 (shl32 hash 1) (shl32 hash 4)) (shl32 hash 7)) (shl32 hash 8))
      (shl32 hash 24))

-- The loops run over the bytes that are left.
pub fnv1a_from : ℕ → List ℕ → ℕ
fnv1a_from hash [] = hash
fnv1a_from hash (c ∷ s) = fnv1a_from (fnv_shifts (bit_xor hash (char_u32 c))) s

pub fnv1a : List ℕ → ℕ
fnv1a s = fnv1a_from fnv_offset s

pub fnv1_from : ℕ → List ℕ → ℕ
fnv1_from hash [] = hash
fnv1_from hash (c ∷ s) = fnv1_from (bit_xor (fnv_shifts hash) (char_u32 c)) s

pub fnv1 : List ℕ → ℕ
fnv1 s = fnv1_from fnv_offset s

pub djb2_from : ℕ → List ℕ → ℕ
djb2_from hash [] = hash
djb2_from hash (c ∷ s) = djb2_from (add32 (add32 (shl32 hash 5) hash) (char_u32 c)) s

pub djb2 : List ℕ → ℕ
djb2 s = djb2_from 5381 s

abbrev murmur_m : ℕ
murmur_m = 0x5bd1e995

-- key = str[0]; key |= str[1] << 8; key |= str[2] << 16; key |= str[3] << 24
-- A left shift of a negative `char` is undefined.
pub murmur_word : ℕ → ℕ → ℕ → ℕ → Result ℕ
murmur_word a b c d =
    if leb 128 b || leb 128 c || leb 128 d
    then fault negative_shift
    else ok (
        bit_or (bit_or (bit_or (char_u32 a) (shl32 (char_u32 b) 8)) (shl32 (char_u32 c) 16))
          (shl32 (char_u32 d) 24))

pub murmur_mix : ℕ → ℕ
murmur_mix key =
    let key = mul32 key murmur_m in let key = bit_xor key (shr32 key 24) in mul32 key murmur_m

-- The `switch` on the length that is left, with its fall through.
pub murmur_tail : ℕ → List ℕ → Result ℕ
murmur_tail hash (a ∷ b ∷ c ∷ []) =
    if leb 128 b || leb 128 c
    then fault negative_shift
    else ok (
        mul32
          (bit_xor (bit_xor (bit_xor hash (shl32 (char_u32 c) 16)) (shl32 (char_u32 b) 8))
            (char_u32 a))
          murmur_m)
murmur_tail hash (a ∷ b ∷ []) =
    if leb 128 b
    then fault negative_shift
    else ok (mul32 (bit_xor (bit_xor hash (shl32 (char_u32 b) 8)) (char_u32 a)) murmur_m)
murmur_tail hash (a ∷ []) = ok (mul32 (bit_xor hash (char_u32 a)) murmur_m)
murmur_tail hash _ = ok hash

-- `while (len >= 4)`, and the tail
pub murmur_from : ℕ → List ℕ → Result ℕ
murmur_from hash (a ∷ b ∷ c ∷ d ∷ s) =
    murmur_word a b c d >>= (λ key. murmur_from (bit_xor (mul32 hash murmur_m) (murmur_mix key)) s)
murmur_from hash s = murmur_tail hash s

pub murmur_finish : ℕ → ℕ
murmur_finish hash =
    let hash = bit_xor hash (shr32 hash 13) in
    let hash = mul32 hash murmur_m in bit_xor hash (shr32 hash 15)

pub murmur_hash2 : List ℕ → Result ℕ
murmur_hash2 s = murmur_from (bit_xor 0 (length s % 2 ^ 32)) s >>= (λ hash. ok (murmur_finish hash))

-- The method is a string, of which an empty one starts with its terminating 0.
pub strhash_method : List ℕ → List ℕ → Result ℕ
strhash_method s [] = raise value_error
strhash_method s (c ∷ rest) =
    if c == b'f'
    then (if length (c ∷ rest) == 5 then ok (fnv1a s) else ok (fnv1 s))
    else if c == b'd'
    then ok (djb2 s)
    else if c == b'm'
    then murmur_hash2 s
    else raise value_error

-- `Ctools__strhash`, with the method if there is one
pub strhash : List ℕ → Option (List ℕ) → Result ℕ
strhash s none = ok (fnv1a s)
strhash s (some method) = strhash_method s method
