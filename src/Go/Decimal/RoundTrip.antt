-- ===== src/Go/Decimal/RoundTrip.antt =====
-- What `String` prints, `SetString` reads back.
use xuperchain.Prelude.{
  ℕ, zero, suc, ◌≡◌, ◌≤◌, ◌<◌, refl, some, [], ◌∷◌, arith, ℤ, pos, negsuc, ◌/◌, ◌%◌, ◌+◌, inl, inr,
  Bool-cases, ltb,
}
use xuperchain.Go.Text.{Text}
use xuperchain.Go.Decimal.{itoa_from, itoa, print_int, digits_from, digits, set_string, negate}

digits-itoa_from :
    (f n : ℕ) (acc : Text) → n < f → digits_from 0 (itoa_from f n acc) ≡ digits_from n acc
unfolding itoa_from digits_from
digits-itoa_from zero n acc h = elim h [ ]
digits-itoa_from (suc f) n acc h =
    ground (arith, digits-itoa_from f (n / 10) ((b'0' + n % 10) ∷ acc))

-- A printed number begins with a digit.
abbrev StartsWithDigit : Text → Type 0
StartsWithDigit [] = ⊥
StartsWithDigit (c ∷ s) = (b'0' ≤ c) × (c ≤ b'9')

itoa_from-StartsWithDigit : (f n : ℕ) (acc : Text) → n < f → StartsWithDigit (itoa_from f n acc)
unfolding itoa_from
itoa_from-StartsWithDigit zero n acc h = elim h [ ]
itoa_from-StartsWithDigit (suc f) n acc h = elim (Bool-cases (ltb n 10)) [
  | inl last ↦ rw last (ground arith)
  | inr more ↦ rw more (itoa_from-StartsWithDigit f (n / 10) ((b'0' + n % 10) ∷ acc) (ground arith))
]

-- After a first digit no sign is looked for.
positive-digits :
    (s : Text) {n : ℕ} → StartsWithDigit s → digits_from 0 s ≡ some n → set_string s ≡ some (pos n)
unfolding set_string digits
positive-digits [] h e = absurd h
positive-digits (c ∷ s) h e = ground arith

digits-digits_from :
    (s : Text) {n : ℕ} → StartsWithDigit s → digits_from 0 s ≡ some n → digits s ≡ some n
unfolding digits
digits-digits_from [] h e = absurd h
digits-digits_from (c ∷ s) h e = e

set_string_minus : (s : Text) → set_string (b'-' ∷ s) ≡ negate (digits s)
unfolding set_string
set_string_minus s = refl

pub set_string-print_int : (z : ℤ) → set_string (print_int z) ≡ some z
unfolding print_int digits_from
set_string-print_int (pos n) =
    positive-digits (itoa n) (itoa_from-StartsWithDigit (suc n) n [] (omega arith))
      (digits-itoa_from (suc n) n [] (omega arith))
set_string-print_int (negsuc n) = simp (
  set_string_minus,
  digits-digits_from (itoa (suc n))
      (itoa_from-StartsWithDigit (suc (suc n)) (suc n) [] (omega arith))
      (digits-itoa_from (suc (suc n)) (suc n) [] (omega arith)),
)
