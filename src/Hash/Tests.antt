-- ===== src/Hash/Tests.antt =====
-- The hashes of short strings, and the theorems at such strings.
use python_ctools.Base.{
  ℕ, ◌^◌, ◌%◌, ◌≡◌, refl, none, some, List, [], ◌∷◌, ok, raise, fault, value_error, negative_shift,
  arith,
}
use python_ctools.Hash.{
  fnv_shifts, fnv1a_from, fnv1a, fnv1_from, fnv1, djb2_from, djb2, murmur_word, murmur_mix,
  murmur_tail, murmur_from, murmur_finish, murmur_hash2, strhash_method, strhash,
}
use python_ctools.Hash.Reference.{
  fnv1a_reference, fnv1_reference, djb2_reference, murmur_reference, fnv_reference_lem,
  djb2_reference_lem, murmur_reference_lem,
}
use python_ctools.Hash.Methods.{strhash_lem}

program : Unit {0}
unfolding fnv_shifts fnv1a_from fnv1a fnv1_from fnv1 djb2_from djb2 murmur_word murmur_mix
    murmur_tail murmur_from murmur_finish murmur_hash2 strhash_method strhash
program = tt

abbrev letter : List ℕ
letter = b'a' ∷ []

abbrev letters : List ℕ
letters = b'a' ∷ b'b' ∷ b'c' ∷ b'd' ∷ b'e' ∷ b'f' ∷ b'g' ∷ []

-- the published values
of_letter : (fnv1a letter ≡ 0xe40c292c) × (fnv1 letter ≡ 0x050c5d7e) × (djb2 letter ≡ 177670)
unfolding program
of_letter = (refl, refl, refl)

default_is_fnv1a :
    strhash letter none ≡ strhash letter (some (b'f' ∷ b'n' ∷ b'v' ∷ b'1' ∷ b'a' ∷ []))
unfolding program
default_is_fnv1a = refl

-- a name of no hash, which starts as one
unknown_method : strhash letter (some (b'd' ∷ b'o' ∷ b'g' ∷ [])) ≡ ok 177670
unfolding program
unknown_method = refl

empty_method : strhash letter (some []) ≡ raise value_error
unfolding program
empty_method = refl

fnv_reference_lem_example :
    (fnv1a letter ≡ fnv1a_reference 2166136261 letter)
    × (fnv1 letter ≡ fnv1_reference 2166136261 letter)
fnv_reference_lem_example = fnv_reference_lem letter (omega arith, tt)

djb2_reference_lem_example : djb2 letter ≡ djb2_reference 5381 letter % 2 ^ 32
djb2_reference_lem_example = djb2_reference_lem letter (omega arith, tt)

murmur_reference_lem_example : murmur_hash2 letters ≡ ok (murmur_reference letters)
murmur_reference_lem_example = murmur_reference_lem letters (
  omega arith,
  (omega arith, (omega arith, (omega arith, (omega arith, (omega arith, (omega arith, tt)))))),
)

strhash_lem_example :
    (strhash letter none ≡ ok (fnv1a_reference 2166136261 letter))
    × (strhash letter (some (b'f' ∷ b'n' ∷ b'v' ∷ b'1' ∷ b'a' ∷ []))
        ≡ ok (fnv1a_reference 2166136261 letter))
    × (strhash letter (some (b'f' ∷ b'n' ∷ b'v' ∷ b'1' ∷ []))
        ≡ ok (fnv1_reference 2166136261 letter))
    × (strhash letter (some (b'd' ∷ letter)) ≡ ok (djb2_reference 5381 letter % 2 ^ 32))
    × (strhash letter (some (b'm' ∷ letter)) ≡ ok (murmur_reference letter))
    × (strhash letter (some (b'a' ∷ letter)) ≡ raise value_error)
    × (strhash letter (some []) ≡ raise value_error)
strhash_lem_example =
    strhash_lem letter letter b'a' (omega arith, tt) (λ e. omega (arith, e)) (λ e. omega (arith, e))
      (λ e. omega (arith, e))

-- the value that the published C code gives
murmur_of_letters : murmur_hash2 letters ≡ ok 0xf9a1cef3
unfolding program
murmur_of_letters = refl

-- a byte from 128 on that is shifted
murmur_negative : murmur_hash2 (b'a' ∷ 200 ∷ []) ≡ fault negative_shift
unfolding program
murmur_negative = refl
