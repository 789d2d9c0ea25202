-- ===== src/Go/Int64.antt =====
-- `int64`: what is kept of an integer after an operation that may overflow.
use xuperchain.Prelude.{
  ℕ, ◌-◌, ◌%◌, ◌<◌, ◌≡◌, ltb, if◌then◌else◌, ℤ, pos, negsuc, two_63, two_64, arith,
}

-- Two's complement: the words from 2^63 on stand for the negative numbers.
abbrev pub of_word : ℕ → ℤ
of_word w = if ltb w two_63 then pos w else negsuc (two_64 - 1 - w)

unfoldable pub wrap_int64 : ℤ → ℤ
wrap_int64 (pos n) = of_word (n % two_64)
wrap_int64 (negsuc n) = of_word (two_64 - 1 - n % two_64)

-- Within range nothing is lost.
pub wrap_int64_pos : (n : ℕ) → n < two_63 → wrap_int64 (pos n) ≡ pos n
unfolding wrap_int64
wrap_int64_pos n h = ground arith
