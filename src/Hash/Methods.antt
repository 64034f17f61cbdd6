-- ===== src/Hash/Methods.antt =====
-- Which hash `strhash` computes for a method.
use python_ctools.Base.{
  ℕ, ◌%◌, ◌^◌, ◌≡◌, ◌≢◌, refl, none, some, List, [], ◌∷◌, arith, ok, raise, value_error,
}
use python_ctools.Hash.{strhash_method, strhash}
use python_ctools.Hash.Reference.{
  Ascii, fnv1a_reference, fnv1_reference, djb2_reference, murmur_reference, fnv_reference_lem,
  djb2_reference_lem, murmur_reference_lem,
}

-- For an ASCII string `strhash` returns the published hash that its documented method names: FNV-1a
-- for 'fnv1a' and with no method, FNV-1 for 'fnv1', and the 32-bit djb2 for 'djb2' and MurmurHash2
-- with seed 0 for 'murmur'; the latter two for every method with the same first letter. A method
-- that is empty or starts with a letter other than f, d and m is a ValueError.
pub strhash_lem :
    (s rest : List ℕ) (c : ℕ)
    → Ascii s
    → c ≢ b'f'
    → c ≢ b'd'
    → c ≢ b'm'
    → (strhash s none ≡ ok (fnv1a_reference 2166136261 s))
      × (strhash s (some (b'f' ∷ b'n' ∷ b'v' ∷ b'1' ∷ b'a' ∷ []))
          ≡ ok (fnv1a_reference 2166136261 s))
      × (strhash s (some (b'f' ∷ b'n' ∷ b'v' ∷ b'1' ∷ [])) ≡ ok (fnv1_reference 2166136261 s))
      × (strhash s (some (b'd' ∷ rest)) ≡ ok (djb2_reference 5381 s % 2 ^ 32))
      × (strhash s (some (b'm' ∷ rest)) ≡ ok (murmur_reference s))
      × (strhash s (some (c ∷ rest)) ≡ raise value_error)
      × (strhash s (some []) ≡ raise value_error)
unfolding strhash strhash_method
strhash_lem s rest c h not_f not_d not_m =
    let (a, one) = fnv_reference_lem s h in
    (
      rw a refl,
      rw a refl,
      rw one refl,
      rw (djb2_reference_lem s h) refl,
      murmur_reference_lem s h,
      ground (arith, not_f, not_d, not_m),
      refl,
    )
