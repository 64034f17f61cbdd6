-- ===== src/Base/Results.antt =====
-- What a call from Python ends in, and the monad of calls on one object.
use mathlib.Core.Path.{◌≡◌}

-- The exceptions that the extension sets itself, and `raised`, one that a callback, a hash or a
-- comparison of the caller's objects set.
pub data Exception : Type 0 where
  value_error type_error index_error runtime_error key_error raised : Exception

-- What C leaves undefined or aborts on: a failed `assert`, a signed overflow, a division by zero, a
-- left shift of a negative number, an access out of bounds, and a NULL result with no exception set, which the interpreter reports as SystemError.
-- `starved` is a loop over the outputs of `rand()` that the outputs at hand do not end, or a loop that
-- runs out of its fuel.
pub data Fault : Type 0 where
  assertion signed_overflow division_by_zero negative_shift out_of_bounds : Fault
  null_without_error starved : Fault

pub data Result {ℓ} (A : Type ℓ) : Type ℓ where
  ok : A → Result A
  raise : Exception → Result A
  fault : Fault → Result A

pub ok-injective {ℓ} : {A : Type ℓ} {a b : A} → ok a ≡ ok b → a ≡ b
ok-injective h = cc

infixl 5 ◌>>=◌
abbrev pub ◌>>=◌ {ℓ κ} : {A : Type ℓ} {B : Type κ} → Result A → (A → Result B) → Result B
ok a >>= f = f a
raise e >>= f = raise e
fault f >>= k = fault f
