-- ===== src/Go/Decimal.antt =====
-- Decimal numerals: `big.Int.String`, `big.Int.SetString(s, 10)` and `strconv.ParseInt(s, 10, 64)`.
pub mod RoundTrip
pub mod Parse
use xuperchain.Prelude.{
  ℕ, zero, suc, ◌+◌, ◌-◌, ◌*◌, ◌/◌, ◌%◌, Bool, true, false, ◌&&◌, Option, none, some, [], ◌∷◌, ltb,
  leb, ◌==◌, if◌then◌else◌, ℤ, pos, negsuc, neg_ℕ, two_63, two_64,
}
use xuperchain.Go.Text.{Text}

abbrev pub is_digit : ℕ → Bool
is_digit c = leb b'0' c && leb c b'9'

-- The digits of `n` before `acc`; `suc n` rounds of fuel reach the first digit.
unfoldable pub itoa_from : ℕ → ℕ → Text → Text
itoa_from zero n acc = acc
itoa_from (suc f) n acc =
    let rest = itoa_from f (n / 10) ((b'0' + n % 10) ∷ acc) in
    if ltb n 10 then (b'0' + n) ∷ acc else rest

unfoldable pub itoa : ℕ → Text
unfolding itoa_from
itoa n = itoa_from (suc n) n []

-- `z.String()`
unfoldable pub print_int : ℤ → Text
unfolding itoa
print_int (pos n) = itoa n
print_int (negsuc n) = b'-' ∷ itoa (suc n)

unfoldable pub digits_from : ℕ → Text → Option ℕ
digits_from acc [] = some acc
digits_from acc (c ∷ s) =
    let rest = digits_from (acc * 10 + (c - b'0')) s in if is_digit c then rest else none

unfoldable pub digits : Text → Option ℕ
unfolding digits_from
digits [] = none
digits (c ∷ s) = digits_from 0 (c ∷ s)

abbrev pub negate : Option ℕ → Option ℤ
negate none = none
negate (some n) = some (neg_ℕ n)

abbrev pub positive : Option ℕ → Option ℤ
positive none = none
positive (some n) = some (pos n)

-- `new(big.Int).SetString(s, 10)`: an optional sign, then digits and nothing else.
unfoldable pub set_string : Text → Option ℤ
set_string [] = none
set_string (c ∷ s) =
    if c == b'-'
    then negate (digits s)
    else if c == b'+'
    then positive (digits s)
    else positive (digits (c ∷ s))

-- What `strconv.ParseUint(s, 10, 64)` returns.
pub data Uint : Type 0 where
  value : ℕ → Uint
  bad_syntax out_of_range : Uint

-- Its loop: an overflow is reported at once, before the bytes behind it are looked at.
unfoldable pub uint_from : ℕ → Text → Uint
uint_from acc [] = Uint.value acc
uint_from acc (c ∷ s) =
    let rest = uint_from (acc * 10 + (c - b'0')) s in
    if is_digit c
    then if ltb (acc * 10 + (c - b'0')) two_64 then rest else Uint.out_of_range
    else Uint.bad_syntax

unfoldable pub parse_uint : Text → Uint
unfolding uint_from
parse_uint [] = Uint.bad_syntax
parse_uint (c ∷ s) = uint_from 0 (c ∷ s)

-- A value, and whether an error came with it.
pub record Parsed : Type 0 where
  pub number : ℤ
  pub failed : Bool

abbrev pub signed_int : Bool → Uint → Parsed
signed_int minus Uint.bad_syntax = record { number = pos 0; failed = true }
signed_int true (Uint.value n) =
    if ltb two_63 n
    then record { number = neg_ℕ two_63; failed = true }
    else record { number = neg_ℕ n; failed = false }
signed_int false (Uint.value n) =
    if ltb n two_63
    then record { number = pos n; failed = false }
    else record { number = pos (two_63 - 1); failed = true }
signed_int true Uint.out_of_range = record { number = neg_ℕ two_63; failed = true }
signed_int false Uint.out_of_range = record { number = pos (two_63 - 1); failed = true }

-- `strconv.ParseInt(s, 10, 64)`: out of range it returns the nearest `int64` beside the error.
unfoldable pub parse_int : Text → Parsed
parse_int [] = record { number = pos 0; failed = true }
parse_int (c ∷ s) =
    if c == b'-'
    then signed_int true (parse_uint s)
    else if c == b'+'
    then signed_int false (parse_uint s)
    else signed_int false (parse_uint (c ∷ s))
