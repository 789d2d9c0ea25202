-- ===== src/Client/Outputs/Value.antt =====
-- The outputs that `GenTxOutputs` makes are positive, sum to what it asks the node for, and pay a fee
-- that covers the gas.
use xuperchain.Prelude.{
  ℕ, zero, suc, ◌<◌, ◌≡◌, List, [], ◌∷◌, ◌++◌, ℤ, pos, negsuc, ◌+ℤ◌, arith, All, Option-cases, inl,
  inr, refl,
}
use xuperchain.Go.Big.{set_bytes, bytes, set_bytes-bytes}
use xuperchain.Go.Decimal.{set_string}
use xuperchain.Pb.{TxDataAccount, TxOutput}
use xuperchain.Exec.{ok, Ensures, Ensures-ok, Ensures-and_then, Ensures-and_then_any}
use xuperchain.Client.Trans.{CommTrans}
use xuperchain.Client.Env.{Env}
use xuperchain.Client.Value.{output_sum, output_sum-append}
use xuperchain.Client.Outputs.{add_account, read_account, pay_all, gen_tx_outputs, pay_accounts}

-- Each output is worth something, and the total is their sum.
abbrev pub IsPositive : TxOutput → Type 0
IsPositive o = 0 < set_bytes o.amount

abbrev pub IsPaid : List TxOutput × ℤ → Type 0
IsPaid (outs, need) = (need ≡ pos (output_sum outs)) × All IsPositive outs

abbrev pay_to : TxDataAccount → ℤ → TxOutput
pay_to acc amount = record {
  amount = bytes amount;
  to_addr = acc.address;
  frozen_height = acc.frozen_height;
}

All-append_one :
    (outs : List TxOutput) (o : TxOutput)
    → All IsPositive outs
    → IsPositive o
    → All IsPositive (outs ++ o ∷ [])
All-append_one [] o h p = (p, tt)
All-append_one (x ∷ outs) o h p = (h.0, All-append_one outs o h.1 p)

-- The state of the loop after one more output.
one_more_output :
    (outs : List TxOutput) (need : ℤ) (acc : TxDataAccount) (n : ℕ)
    → IsPaid (outs, need)
    → 0 < n
    → IsPaid (outs ++ pay_to acc (pos n) ∷ [], need +ℤ pos n)
unfolding ◌+ℤ◌
one_more_output outs need acc n h p = (
  rw (h.0, output_sum-append outs (pay_to acc (pos n) ∷ []), set_bytes-bytes (pos n))
      (ground arith),
  All-append_one outs (pay_to acc (pos n)) h.1 (rw (set_bytes-bytes (pos n)) p),
)

add_account-IsPaid :
    (p : List TxOutput × ℤ) (acc : TxDataAccount) (amount : ℤ)
    → IsPaid p
    → Ensures IsPaid (add_account p acc amount)
add_account-IsPaid (outs, need) acc (pos zero) h = h
add_account-IsPaid (outs, need) acc (pos (suc n)) h =
    one_more_output outs need acc (suc n) h (omega arith)
add_account-IsPaid (outs, need) acc (negsuc n) h = tt

read_account-IsPaid :
    (p : List TxOutput × ℤ) (acc : TxDataAccount) → IsPaid p → Ensures IsPaid (read_account p acc)
unfolding read_account
read_account-IsPaid p acc h = elim (Option-cases (set_string acc.amount)) [
  | inl e ↦ rw (e, Ensures) tt
  | inr (amount, e) ↦ rw (e, Ensures) (add_account-IsPaid p acc amount h)
]

pay_all-IsPaid :
    (p : List TxOutput × ℤ) (accs : List TxDataAccount) → IsPaid p → Ensures IsPaid (pay_all p accs)
unfolding pay_all
pay_all-IsPaid p [] h = h
pay_all-IsPaid p (acc ∷ accs) h =
    Ensures-and_then IsPaid IsPaid (read_account p acc) (λ q. pay_all q accs)
      (read_account-IsPaid p acc h) (λ q. pay_all-IsPaid q accs)

-- The outputs that `GenTxOutputs` returns are each worth more than zero, and `totalNeed` is their sum.
pub gen_tx_outputs-IsPaid :
    (env : Env) (t : CommTrans) (gas_used : ℤ) (outs : List TxOutput) (need : ℤ)
    → gen_tx_outputs env t gas_used ≡ ok (outs, need)
    → (need ≡ pos (output_sum outs)) × All IsPositive outs
unfolding gen_tx_outputs
gen_tx_outputs-IsPaid env t gas_used outs need e =
    Ensures-ok IsPaid _
      (Ensures-and_then_any IsPaid (pay_accounts env t gas_used) _
        (λ accs _. pay_all-IsPaid ([], pos 0) accs (refl, tt)))
      e
