-- ===== src/Go/Big.antt =====
-- `big.Int.Bytes` and `SetBytes`: the absolute value, big end first, with no leading zero.
use xuperchain.Prelude.{
  ℕ, zero, suc, ◌+◌, ◌*◌, ◌/◌, ◌%◌, ◌<◌, ◌≡◌, [], ◌∷◌, ◌==◌, if◌then◌else◌, ℤ, abs, arith, ap,
}
use xuperchain.Go.Text.{Text}

-- The bytes of `n` before `acc`; `n` rounds of fuel reach the first byte.
unfoldable pub bytes_from : ℕ → ℕ → Text → Text
bytes_from zero n acc = acc
bytes_from (suc f) n acc =
    let rest = bytes_from f (n / 256) ((n % 256) ∷ acc) in if n == 0 then acc else rest

-- `z.Bytes()`
unfoldable pub bytes : ℤ → Text
unfolding bytes_from
bytes z = bytes_from (abs z) (abs z) []

unfoldable pub value_from : ℕ → Text → ℕ
value_from acc [] = acc
value_from acc (b ∷ s) = value_from (acc * 256 + b) s

-- `new(big.Int).SetBytes(s)`, which is never negative
unfoldable pub set_bytes : Text → ℕ
unfolding value_from
set_bytes s = value_from 0 s

value-bytes_from :
    (f n : ℕ) (acc : Text) → n < suc f → value_from 0 (bytes_from f n acc) ≡ value_from n acc
unfolding bytes_from value_from
value-bytes_from zero n acc h = ap (λ (k : ℕ). value_from k acc) (omega arith)
value-bytes_from (suc f) n acc h = ground (arith, value-bytes_from f (n / 256) ((n % 256) ∷ acc))

-- Writing an amount as bytes loses its sign and nothing else.
pub set_bytes-bytes : (z : ℤ) → set_bytes (bytes z) ≡ abs z
unfolding set_bytes bytes value_from
set_bytes-bytes z = value-bytes_from (abs z) (abs z) [] (omega arith)
