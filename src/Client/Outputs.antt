-- ===== src/Client/Outputs.antt =====
-- `GenTxOutputs` of cmd/client/cmd/comm_trans.go: the outputs that pay the receiver and the fee.
pub mod Value
pub mod Gas
use xuperchain.Prelude.{
  Bool, true, false, not, ◌||◌, ◌&&◌, Option, none, some, List, [], ◌∷◌, ◌++◌, if◌then◌else◌, ℤ,
  pos, ◌+ℤ◌, ltb_ℤ, leb_ℤ, is_negative, is_zero,
}
use xuperchain.Go.Text.{Text, text_eq, is_empty}
use xuperchain.Go.Decimal.{set_string, parse_int}
use xuperchain.Go.Big.{bytes}
use xuperchain.Pb.{TxDataAccount, TxOutput}
use xuperchain.Exec.{Failure, Message, Result, ok, err, and_then}
use xuperchain.Client.Trans.{CommTrans, zero_text}
use xuperchain.Client.Env.{Env}

-- `newFeeAccount` of cmd/client/cmd/transfer.go
abbrev pub new_fee_account : Env → Text → TxDataAccount
new_fee_account env fee = record {
  address = env.fee_placeholder;
  amount = fee;
  frozen_height = pos 0;
}

-- `fee != "" && fee != "0"`
abbrev pub has_fee : Text → Bool
has_fee fee = not (is_empty fee) && not (text_eq fee zero_text)

abbrev receivers : CommTrans → List TxDataAccount
receivers t =
    if is_empty t.to
    then []
    else record { address = t.to; amount = t.amount; frozen_height = t.frozen_height } ∷ []

-- The accounts to pay: a fee that is due must be given and cover the gas.
unfoldable pub pay_accounts : Env → CommTrans → ℤ → Result (List TxDataAccount)
pay_accounts env t gas_used =
    if ltb_ℤ (pos 0) gas_used
    then (if has_fee t.fee
        then (if ltb_ℤ (parse_int t.fee).number gas_used
            then err (Failure.said Message.fee_not_enough)
            else ok (receivers t ++ new_fee_account env t.fee ∷ []))
        else err (Failure.said Message.need_add_fee))
    else if has_fee t.fee
    then ok (receivers t ++ new_fee_account env t.fee ∷ [])
    else ok (receivers t)

-- One round of the loop over the accounts: an output of zero is left out.
abbrev pub add_account : List TxOutput × ℤ → TxDataAccount → ℤ → Result (List TxOutput × ℤ)
add_account (outs, need) acc amount =
    if is_negative amount
    then err (Failure.said Message.negative_amount)
    else if is_zero amount
    then ok (outs, need)
    else ok (
      outs
          ++ record {
            amount = bytes amount;
            to_addr = acc.address;
            frozen_height = acc.frozen_height;
          }
            ∷ [],
      need +ℤ amount,
    )

unfoldable pub read_account : List TxOutput × ℤ → TxDataAccount → Result (List TxOutput × ℤ)
read_account p acc = elim (set_string acc.amount) [
  | none ↦ err (Failure.said Message.invalid_amount)
  | some amount ↦ add_account p acc amount
]

unfoldable pub pay_all : List TxOutput × ℤ → List TxDataAccount → Result (List TxOutput × ℤ)
unfolding read_account
pay_all p [] = ok p
pay_all p (acc ∷ accs) = and_then (read_account p acc) (λ q. pay_all q accs)

-- `CommTrans.GenTxOutputs`: the outputs, and their sum `totalNeed`
unfoldable pub gen_tx_outputs : Env → CommTrans → ℤ → Result (List TxOutput × ℤ)
gen_tx_outputs env t gas_used = and_then (pay_accounts env t gas_used) (pay_all ([], pos 0))
