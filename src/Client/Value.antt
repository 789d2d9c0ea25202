-- ===== src/Client/Value.antt =====
-- The worth of lists of inputs, outputs and utxos: the sum of their amounts.
use xuperchain.Prelude.{ℕ, ◌+◌, ◌≡◌, List, [], ◌∷◌, ◌++◌, arith}
use xuperchain.Go.Big.{set_bytes}
use xuperchain.Pb.{TxInput, TxOutput, Utxo, Transaction}

abbrev pub output_sum : List TxOutput → ℕ
output_sum [] = 0
output_sum (o ∷ outs) = set_bytes o.amount + output_sum outs

abbrev pub input_sum : List TxInput → ℕ
input_sum [] = 0
input_sum (i ∷ ins) = set_bytes i.amount + input_sum ins

abbrev pub utxo_sum : List Utxo → ℕ
utxo_sum [] = 0
utxo_sum (u ∷ us) = set_bytes u.amount + utxo_sum us

-- What is spent is what is paid.
abbrev pub IsBalanced : Transaction → Type 0
IsBalanced tx = input_sum tx.tx_inputs ≡ output_sum tx.tx_outputs

pub output_sum-append :
    (xs ys : List TxOutput) → output_sum (xs ++ ys) ≡ output_sum xs + output_sum ys
output_sum-append [] ys = omega arith
output_sum-append (x ∷ xs) ys = omega (arith, output_sum-append xs ys)

pub input_sum-append : (xs ys : List TxInput) → input_sum (xs ++ ys) ≡ input_sum xs + input_sum ys
input_sum-append [] ys = omega arith
input_sum-append (x ∷ xs) ys = omega (arith, input_sum-append xs ys)
