-- ===== src/Client/Compliance/Balance.antt =====
-- The transaction of a transfer with a compliance check pays what it spends.
use xuperchain.Prelude.{Option, List, ◌++◌, map, ◌≡◌, sym, ℕ, ℤ, pos, ◌≤ℤ◌, ◌-ℤ◌, arith}
use xuperchain.Go.Text.{Text}
use xuperchain.Go.Decimal.{print_int}
use xuperchain.Pb.{Transaction, TxOutput, Utxo, InvokeResponse, PreExecWithSelectUtxoResponse}
use xuperchain.Exec.{History, ok, >>=-eq-ok}
use xuperchain.Exec.Yields.{
  Yields, Yields-pure, Yields-lift, Yields-wrap, Yields-bind, Yields-next, Yields-ok,
}
use xuperchain.Client.Env.{Env}
use xuperchain.Client.Trans.{CommTrans}
use xuperchain.Client.RawTx.Post.{lift-eq-ok}
use xuperchain.Client.Value.{
  output_sum, input_sum, utxo_sum, IsBalanced, output_sum-append, input_sum-append,
}
use xuperchain.Client.Inputs.{gen_initiator, generate_pure_tx_inputs, to_input}
use xuperchain.Client.Inputs.Change.{input_sum-to_input}
use xuperchain.Client.RawTx.{utxo_inputs_of, utxo_outputs_of}
use xuperchain.Client.RawTx.Balance.{with_contract-IsBalanced}
use xuperchain.Client.Compliance.{
  utxos_to, real_need, generate_multi_tx_outputs, sign_and_id, gen_real_tx,
}
use xuperchain.Client.Compliance.Sums.{IsPayable, total_selected-utxo_sum, multi_outputs-output_sum}

sign_and_id-IsBalanced :
    (env : Env) (t : CommTrans) (tx : Transaction)
    → IsBalanced tx
    → Yields IsBalanced (sign_and_id env t tx)
unfolding sign_and_id
sign_and_id-IsBalanced env t tx h = Yields-next _ _ λ signs. Yields-pure _ h

abbrev IsWorth : ℕ → List TxOutput → Type 0
IsWorth total outs = output_sum outs ≡ total

generate_multi_tx_outputs-IsWorth :
    (env : Env) (t : CommTrans) (total : ℕ) (need : ℤ)
    → IsPayable t.amount
    → real_need t ≡ ok need
    → need ≤ℤ pos total
    → Yields (IsWorth total) (generate_multi_tx_outputs env t (print_int (pos total -ℤ need)) t.fee)
unfolding generate_multi_tx_outputs
generate_multi_tx_outputs-IsWorth env t total need payable n le = Yields-next _ _ λ self_addr.
    Yields-lift _ λ outs e. multi_outputs-output_sum t self_addr total need outs payable n le e

spent_and_paid :
    (us : List Utxo) (outs : List TxOutput) (res : Option InvokeResponse)
    → input_sum (utxo_inputs_of res) ≡ output_sum (utxo_outputs_of res)
    → output_sum outs ≡ utxo_sum us
    → input_sum (map to_input us ++ utxo_inputs_of res) ≡ output_sum (outs ++ utxo_outputs_of res)
spent_and_paid us outs res b w = omega (
  arith,
  input_sum-to_input us,
  input_sum-append (map to_input us) (utxo_inputs_of res),
  output_sum-append outs (utxo_outputs_of res),
)

-- If the outputs of the check transaction that go to the initiator are worth at least the fee and the
-- amount together, the amount is empty or a number that is not negative, and what the pre-executed
-- contract spends it also pays, then every transaction that `GenRealTx` returns pays exactly what it
-- spends.
pub gen_real_tx-IsBalanced :
    (env : Env) (t : CommTrans) (response : PreExecWithSelectUtxoResponse) (check_tx : Transaction)
    (h k h' : History) (initiator : Text) (need : ℤ) (tx : Transaction)
    → gen_initiator env t h ≡ (ok initiator, k)
    → real_need t ≡ ok need
    → need ≤ℤ pos (utxo_sum (utxos_to initiator check_tx.txid 0 check_tx.tx_outputs))
    → IsPayable t.amount
    → input_sum (utxo_inputs_of response.response) ≡ output_sum (utxo_outputs_of response.response)
    → gen_real_tx env t response check_tx h ≡ (ok tx, h')
    → input_sum tx.tx_inputs ≡ output_sum tx.tx_outputs
unfolding gen_real_tx generate_pure_tx_inputs
gen_real_tx-IsBalanced env t response check_tx h k h' initiator need tx i n le payable b e =
    let (initiator', k1, e1, f1) = >>=-eq-ok _ _ h e in
    let (need', k2, e2, f2) = >>=-eq-ok _ _ k1 f1 in
    let same_initiator : initiator ≡ initiator' = cc (i, e1) in
    let n' : real_need t ≡ ok need' = (lift-eq-ok _ _ e2).0 in
    let same_need : need ≡ need' = cc (n, n') in
    let us = utxos_to initiator' check_tx.txid 0 check_tx.tx_outputs in
    let le' : need' ≤ℤ pos (utxo_sum us) = rw (sym same_initiator, sym same_need) le in
    Yields-ok {P = IsBalanced} _ k2
      (Yields-bind {Q = IsWorth (utxo_sum us)} _ _
        (Yields-wrap _ _ (
          rw (total_selected-utxo_sum us)
            (generate_multi_tx_outputs-IsWorth env t (utxo_sum us) need' payable n' le')))
        λ outs worth. Yields-next _ _ λ timestamp. Yields-next _ _ λ nonce. Yields-next _ _ λ desc.
          Yields-next _ _ λ from_addr. sign_and_id-IsBalanced env t _ (
            with_contract-IsBalanced response.response _ _
              (spent_and_paid us outs response.response b worth)))
      f2
