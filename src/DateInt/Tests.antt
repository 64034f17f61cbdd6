-- ===== src/DateInt/Tests.antt =====
-- The conversion of some dates, with the three numbers themselves for a date.
use python_ctools.Base.{ℕ, ◌+◌, ◌*◌, ◌≡◌, refl, inl, Result, ok, raise, value_error, arith}
use python_ctools.Base.Int.{pos}
use python_ctools.DateInt.{int8_to_datetime, int8_to_datetime_digits, int8_to_datetime_9999}

abbrev triple : ℕ → ℕ → ℕ → Result (ℕ × ℕ × ℕ)
triple year month day = ok (year, month, day)

documented : int8_to_datetime triple (pos 20010101) ≡ ok (2001, 1, 1)
unfolding int8_to_datetime
documented = refl

int8_to_datetime_digits_example :
    int8_to_datetime triple (pos (2018 * 10000 + 12 * 100 + 31)) ≡ triple 2018 12 31
int8_to_datetime_digits_example =
    int8_to_datetime_digits triple 2018 12 31 (omega arith) (omega arith) (omega arith)
      (omega arith)

int8_to_datetime_9999_example :
    int8_to_datetime triple (pos (9999 * 10000 + 12 * 100 + 31)) ≡ raise value_error
int8_to_datetime_9999_example =
    int8_to_datetime_9999 triple 12 31 (omega arith) (omega arith) (inl (omega arith))
