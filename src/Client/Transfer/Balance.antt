-- ===== src/Client/Transfer/Balance.antt =====
-- The transactions that `Cli.Transfer` builds spend what they pay.
use xuperchain.Prelude.{
  ℕ, ◌≡◌, List, [], ◌∷◌, ◌++◌, none, some, Option, ℤ, pos, negsuc, ◌+ℤ◌, arith, Option-cases, inl,
  inr, refl,
}
use xuperchain.Go.Big.{bytes, set_bytes-bytes}
use xuperchain.Go.Decimal.{set_string}
use xuperchain.Go.Decimal.RoundTrip.{set_string-print_int}
use xuperchain.Pb.{TxDataAccount, TxInput, TxOutput, Transaction, TxStatus, InvokeResponse}
use xuperchain.Exec.{History, ok, Ensures, Ensures-ok, Ensures-and_then}
use xuperchain.Exec.Yields.{
  Yields, Yields-pure, Yields-lift, Yields-ask, Yields-replace, Yields-bind, Yields-next,
  Yields-or_fail, Yields-ok,
}
use xuperchain.Client.Env.{Env}
use xuperchain.Client.Keys.{AkInfo}
use xuperchain.Client.Value.{output_sum, input_sum, IsBalanced, output_sum-append}
use xuperchain.Client.Inputs.{one_or_none, ask_utxo}
use xuperchain.Client.Inputs.Change.{SelectsEnough, IsSelection, Covers, selected-Covers}
use xuperchain.Client.Transfer.{
  TransferOptions, pay_amount, pay_account, pay_each, accounts_of, with_response, assemble_inputs,
  assemble_tx,
}

-- The total is the sum of the outputs.
abbrev IsSummed : List TxOutput × ℤ → Type 0
IsSummed (outs, total) = total ≡ pos (output_sum outs)

pay_amount-IsSummed :
    (p : List TxOutput × ℤ) (acc : TxDataAccount) (amount : ℤ)
    → IsSummed p
    → Ensures IsSummed (pay_amount p acc amount)
unfolding ◌+ℤ◌
pay_amount-IsSummed (outs, total) acc (pos n) h =
    rw
      (
        h,
        output_sum-append outs (
            record {
              amount = bytes (pos n);
              to_addr = acc.address;
              frozen_height = acc.frozen_height;
            }
            ∷ []),
        set_bytes-bytes (pos n),
      )
      (ground arith)
pay_amount-IsSummed (outs, total) acc (negsuc n) h = tt

pay_account-IsSummed :
    (p : List TxOutput × ℤ) (acc : TxDataAccount)
    → IsSummed p
    → Ensures IsSummed (pay_account p acc)
unfolding pay_account
pay_account-IsSummed p acc h = elim (Option-cases (set_string acc.amount)) [
  | inl e ↦ rw (e, Ensures) tt
  | inr (amount, e) ↦ rw (e, Ensures) (pay_amount-IsSummed p acc amount h)
]

pay_each-IsSummed :
    (p : List TxOutput × ℤ) (accs : List TxDataAccount)
    → IsSummed p
    → Ensures IsSummed (pay_each p accs)
unfolding pay_each
pay_each-IsSummed p [] h = h
pay_each-IsSummed p (acc ∷ accs) h =
    Ensures-and_then IsSummed IsSummed (pay_account p acc) (λ q. pay_each q accs)
      (pay_account-IsSummed p acc h) (λ q. pay_each-IsSummed q accs)

assemble_inputs-Covers :
    (env : Env) (opt : TransferOptions) (need : ℕ) (initiator : AkInfo)
    → SelectsEnough env
    → Yields (Covers need) (assemble_inputs env opt (pos need) initiator)
unfolding assemble_inputs ask_utxo
assemble_inputs-Covers env opt need initiator s = Yields-next _ _ λ sign.
    Yields-bind {Q = IsSelection need} _ _
      (Yields-replace _ _ (
        Yields-ask _ _ (λ h outs e. s.selection h _ need outs (set_string-print_int (pos need)) e)))
      λ outs sel. Yields-next _ _ λ _.
        Yields-or_fail _ _ _
          λ total e. Yields-pure _ (selected-Covers opt.from outs need total sel e)

-- The transaction of a status is there, and it is balanced.
abbrev pub HoldsBalanced : Option Transaction → Type 0
HoldsBalanced none = ⊥
HoldsBalanced (some tx) = input_sum tx.tx_inputs ≡ output_sum tx.tx_outputs

with_response-HoldsBalanced :
    (res : Option InvokeResponse) (tx : Transaction)
    → IsBalanced tx
    → HoldsBalanced (some (with_response res tx))
with_response-HoldsBalanced none tx h = h
with_response-HoldsBalanced (some res) tx h = h

balance :
    (outs : List TxOutput) (ins : List TxInput) (change : Option TxOutput)
    → Covers (output_sum outs) (ins, change)
    → input_sum ins ≡ output_sum (outs ++ one_or_none change)
balance outs ins change c = omega (arith, output_sum-append outs (one_or_none change))

assemble_tx-Yields :
    (env : Env) (opt : TransferOptions) (initiator : AkInfo)
    → SelectsEnough env
    → Yields (λ (s : TxStatus). HoldsBalanced s.tx) (assemble_tx env opt initiator)
unfolding assemble_tx
assemble_tx-Yields env opt initiator s = Yields-next _ _ λ nonce. Yields-next _ _ λ timestamp.
    Yields-bind {Q = IsSummed} _ _ (Yields-lift _ (λ p e. Ensures-paid p e)) λ paid sums.
      Yields-bind {Q = Covers (output_sum paid.0)} _ _
        (rw sums (assemble_inputs-Covers env opt (output_sum paid.0) initiator s))
        λ spent c. Yields-next _ _ λ auth. Yields-next _ _ λ logid. Yields-next _ _ λ res.
          Yields-next _ _ λ logid'.
            Yields-pure _
              (with_response-HoldsBalanced res.response _ (balance paid.0 spent.0 spent.1 c))
  where
    Ensures-paid :
        (p : List TxOutput × ℤ) → pay_each ([], pos 0) (accounts_of env opt) ≡ ok p → IsSummed p
    Ensures-paid p e =
        Ensures-ok IsSummed _ (pay_each-IsSummed ([], pos 0) (accounts_of env opt) refl) e

-- If the node selects at least what it is asked for, then every status that `assembleTxSupportAccount`
-- returns holds a transaction, and that pays exactly what it spends.
pub assemble_tx-IsBalanced :
    (env : Env) (opt : TransferOptions) (initiator : AkInfo) (h h' : History) (status : TxStatus)
    → SelectsEnough env
    → assemble_tx env opt initiator h ≡ (ok status, h')
    → HoldsBalanced status.tx
assemble_tx-IsBalanced env opt initiator h h' status s e =
    Yields-ok _ h (assemble_tx-Yields env opt initiator s) e
