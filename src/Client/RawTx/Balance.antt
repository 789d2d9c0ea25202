-- ===== src/Client/RawTx/Balance.antt =====
-- The transactions that `GenRawTx` builds spend what they pay.
use xuperchain.Prelude.{◌≡◌, List, ◌++◌, some, none, Option, arith}
use xuperchain.Go.Text.{Text}
use xuperchain.Pb.{TxInput, TxOutput, Transaction, InvokeRequest, InvokeResponse}
use xuperchain.Exec.{History, ok}
use xuperchain.Exec.Yields.{Yields, Yields-pure, Yields-lift, Yields-bind, Yields-next, Yields-ok}
use xuperchain.Client.Env.{Env}
use xuperchain.Client.Trans.{CommTrans}
use xuperchain.Client.Value.{output_sum, input_sum, IsBalanced, output_sum-append, input_sum-append}
use xuperchain.Client.Outputs.Value.{IsPaid, gen_tx_outputs-IsPaid}
use xuperchain.Client.Inputs.{one_or_none}
use xuperchain.Client.Inputs.Change.{SelectsEnough, Covers, gen_tx_inputs-Covers}
use xuperchain.Client.RawTx.{gen_raw_tx, utxo_inputs_of, utxo_outputs_of, with_contract}

balance :
    (res : Option InvokeResponse) (outs : List TxOutput) (ins : List TxInput)
    (change : Option TxOutput)
    → input_sum (utxo_inputs_of res) ≡ output_sum (utxo_outputs_of res)
    → Covers (output_sum outs) (ins, change)
    → input_sum (utxo_inputs_of res ++ ins)
      ≡ output_sum ((utxo_outputs_of res ++ outs) ++ one_or_none change)
balance res outs ins change h c = omega (
  arith,
  input_sum-append (utxo_inputs_of res) ins,
  output_sum-append (utxo_outputs_of res) outs,
  output_sum-append (utxo_outputs_of res ++ outs) (one_or_none change),
)

pub with_contract-IsBalanced :
    (res : Option InvokeResponse) (reqs : List InvokeRequest) (tx : Transaction)
    → IsBalanced tx
    → IsBalanced (with_contract res reqs tx)
with_contract-IsBalanced none reqs tx h = h
with_contract-IsBalanced (some res) reqs tx h = h

gen_raw_tx-Yields :
    (env : Env) (t : CommTrans) (desc : Text) (res : Option InvokeResponse)
    (reqs : List InvokeRequest)
    → SelectsEnough env
    → input_sum (utxo_inputs_of res) ≡ output_sum (utxo_outputs_of res)
    → Yields IsBalanced (gen_raw_tx env t desc res reqs)
unfolding gen_raw_tx
gen_raw_tx-Yields env t desc res reqs s h = Yields-next _ _ λ nonce. Yields-next _ _ λ timestamp.
    Yields-bind {Q = IsPaid} _ _ (Yields-lift _ (λ p e. gen_tx_outputs-IsPaid env t _ p.0 p.1 e))
      λ paid sums.
        Yields-bind {Q = Covers (output_sum paid.0)} _ _
          (rw (sums.0) (gen_tx_inputs-Covers env t (output_sum paid.0) s))
          λ spent c. Yields-next _ _ λ from_addr.
            Yields-pure _
              (with_contract-IsBalanced res reqs _ (balance res paid.0 spent.0 spent.1 h c))

-- If the node selects at least what it is asked for, and what the pre-executed contract spends it
-- also pays, then every transaction that `GenRawTx` returns pays exactly what it spends.
pub gen_raw_tx-IsBalanced :
    (env : Env) (t : CommTrans) (desc : Text) (res : Option InvokeResponse)
    (reqs : List InvokeRequest) (h h' : History) (tx : Transaction)
    → SelectsEnough env
    → input_sum (utxo_inputs_of res) ≡ output_sum (utxo_outputs_of res)
    → gen_raw_tx env t desc res reqs h ≡ (ok tx, h')
    → input_sum tx.tx_inputs ≡ output_sum tx.tx_outputs
gen_raw_tx-IsBalanced env t desc res reqs h h' tx s b e =
    Yields-ok _ h (gen_raw_tx-Yields env t desc res reqs s b) e
