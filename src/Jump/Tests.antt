-- ===== src/Jump/Tests.antt =====
-- Jump hashing with exact fractions for the doubles.
use native.Mathlib.Nat.{le-div_iff_mul-le}
use python_ctools.Base.{ℕ, ◌*◌, ◌/◌, ◌≤◌, ◌<◌, ◌≡◌, ◌⊎◌, refl, some, arith}
use python_ctools.Base.Int.{pos, negsuc}
use python_ctools.Jump.{Doubles, next_key, next_j, jump_loop, jump_hash}
use python_ctools.Jump.Laws.{jump_hash_bucket, jump_hash_consistent}

-- a numerator and a denominator
record Fraction : Type 0 where
  num : ℕ
  den : ℕ

-- The greater one has a denominator that is not zero.
abbrev AtMost : Fraction → Fraction → Type 0
AtMost x y = (0 < y.den) × (x.num * y.den ≤ y.num * x.den)

mul_at_least : (n d c : ℕ) → 1 * d ≤ c * 1 → n * (1 * d) ≤ (n * c) * 1
mul_at_least n d c h = grind arith

fractions : Doubles
fractions = record {
  Double = Fraction;
  of_int = λ n. record { num = n; den = 1 };
  div = λ x y. record { num = x.num * y.den; den = x.den * y.num };
  mul = λ x y. record { num = x.num * y.num; den = x.den * y.den };
  to_int = λ x. x.num / x.den;
  AtMost = AtMost;
  one-le-div = λ n m positive le small. (omega arith, omega arith);
  le-mul = λ n q small h. (omega (arith, h.0), mul_at_least n q.den q.num h.1);
  le-to_int = λ n x small h. (le-div_iff_mul-le h.0).1 (omega (arith, h.1));
}

-- a key and its bucket
jump_128 : jump_hash fractions 1 (pos 128) ≡ some (pos 55)
unfolding fractions next_key next_j jump_loop jump_hash
jump_128 = refl

no_buckets : jump_hash fractions 1 (pos 0) ≡ some (negsuc 0)
unfolding jump_loop jump_hash
no_buckets = refl

jump_hash_bucket_example : (r : ℕ) × (jump_hash fractions 1 (pos 128) ≡ some (pos r)) × (r < 128)
jump_hash_bucket_example = jump_hash_bucket fractions 1 128 (omega arith) (omega arith)

jump_hash_consistent_example :
    (jump_hash fractions 1 (pos 56) ≡ some (pos 55))
    ⊎ (jump_hash fractions 1 (pos 56) ≡ jump_hash fractions 1 (pos 55))
jump_hash_consistent_example = jump_hash_consistent fractions 1 55 (omega arith)
