-- ===== src/DateInt.antt =====
-- `Ctools__int8_to_datetime` of src/functions.c. `PyDateTime_FromDate`, of the interpreter's
-- datetime module, is a parameter.
mod Tests
use python_ctools.Base.{
  ℕ, ◌+◌, ◌*◌, ◌/◌, ◌%◌, ◌≤◌, ◌<◌, ◌≡◌, ◌≢◌, ◌⊎◌, ltb, if◌then◌else◌, Result, raise, value_error,
  arith,
}
use python_ctools.Base.Int.{ℤ, pos, negsuc}

module _ {ℓ} {D : Type ℓ} (from_date : ℕ → ℕ → ℕ → Result D) where
  -- The argument is the long that the Python object stands for.
  pub int8_to_datetime : ℤ → Result D
  int8_to_datetime (negsuc n) = raise value_error
  int8_to_datetime (pos date) =
      if ltb 99990101 date
      then raise value_error
      else if ltb date 101
      then raise value_error
      else from_date (date / 10000) (date % 10000 / 100) (date % 100)

  -- The digits YYYYMMDD of a number in the accepted range, with two digits each for the month and
  -- the day, are handed on as year, month and day.
  pub int8_to_datetime_digits :
      (year month day : ℕ)
      → month < 100
      → day < 100
      → 101 ≤ year * 10000 + month * 100 + day
      → year * 10000 + month * 100 + day ≤ 99990101
      → int8_to_datetime (pos (year * 10000 + month * 100 + day)) ≡ from_date year month day
  unfolding int8_to_datetime
  int8_to_datetime_digits year month day hm hd lo hi =
      let date : ℕ = year * 10000 + month * 100 + day in
      let years : date / 10000 ≡ year = omega arith in
      let months : date % 10000 / 100 ≡ month = omega arith in
      let days : date % 100 ≡ day = omega arith in ground (arith, years, months, days)

  -- Every day of the year 9999 but its first is rejected with ValueError.
  pub int8_to_datetime_9999 :
      (month day : ℕ)
      → 1 ≤ month
      → 1 ≤ day
      → (1 < month) ⊎ (1 < day)
      → int8_to_datetime (pos (9999 * 10000 + month * 100 + day)) ≡ raise value_error
  unfolding int8_to_datetime
  int8_to_datetime_9999 month day hm hd later = ground arith
