-- ===== src/Node/Transfer.antt =====
-- Transfers of a client that is connected to a node.
use mathlib.Core.Path.{subst}
use xuperchain.Prelude.{Option, none, some, List, ◌≡◌, refl, sym, ℕ, pos}
use xuperchain.Go.Text.{Text}
use xuperchain.Go.Decimal.{set_string}
use xuperchain.Pb.{Header, UtxoInput, UtxoOutput, Transaction, InvokeRequest, InvokeResponse}
use xuperchain.Exec.{History, ok}
use xuperchain.Client.Env.{Env}
use xuperchain.Client.Trans.{CommTrans}
use xuperchain.Client.Value.{input_sum, output_sum}
use xuperchain.Client.Inputs.Change.{IsSelection, SelectsEnough}
use xuperchain.Client.RawTx.{gen_raw_tx, utxo_inputs_of, utxo_outputs_of}
use xuperchain.Client.RawTx.Balance.{gen_raw_tx-IsBalanced}
use xuperchain.Server.Handle.{StdError}
use xuperchain.Server.Intercept.{unary_interceptor, stamp}
use xuperchain.Server.Rpc.{Calls, Answer}
use xuperchain.Server.Rpc.Select.Ledger.{LedgerSelects, select-IsSelection}
use xuperchain.Node.{Node, output_header, delivered, node_select, connected}

module _ (node : Node) where
  -- A header that is set changes nothing of the selection.
  stamp-IsSelection :
      (o : Option Header) (header : Header) (need : ℕ) (outs : UtxoOutput)
      → IsSelection need outs
      → IsSelection need (stamp node.intercept output_header o header outs)
  stamp-IsSelection none header need outs s = s
  stamp-IsSelection (some kept) header need outs s = s

  node_select-IsSelection :
      (input : UtxoInput) (h : Calls) (need : ℕ)
      → LedgerSelects node.rpc
      → set_string input.total_need ≡ some (pos need)
      → (node_select node input h).0.error ≡ none
      → IsSelection need (node_select node input h).0.response
  unfolding node_select unary_interceptor
  node_select-IsSelection input h need ledger reads fine =
      stamp-IsSelection _ _ need _ (select-IsSelection node.rpc input h need ledger reads fine)

  delivered-ok :
      (a : Answer UtxoOutput) (o : Option StdError) (outs : UtxoOutput)
      → delivered node.error_text a o ≡ ok outs
      → (o ≡ none) × (outs ≡ a.response)
  delivered-ok a none outs e = (refl, cc e)
  delivered-ok a (some x) outs e = absurd (cc e)

  pub connected-SelectsEnough :
      (env : Env) → LedgerSelects node.rpc → SelectsEnough (connected env node)
  unfolding connected
  connected-SelectsEnough env ledger = record {
    selection = λ h request need outs reads e.
        let a = (node_select node request (node.calls h)).0 in
        let (fine, same) = delivered-ok a a.error outs e in
        subst (IsSelection need) (sym same)
          (node_select-IsSelection request (node.calls h) need ledger reads fine);
  }

  -- If the ledger selects at least what it is asked for and the wire form of a utxo is the same in both
  -- protocols, and what the pre-executed contract spends it also pays, then every transaction that
  -- `GenRawTx` returns to a client that is connected to the node pays exactly what it spends.
  pub connected-gen_raw_tx :
      (env : Env) (t : CommTrans) (desc : Text) (res : Option InvokeResponse)
      (reqs : List InvokeRequest) (h h' : History) (tx : Transaction)
      → LedgerSelects node.rpc
      → input_sum (utxo_inputs_of res) ≡ output_sum (utxo_outputs_of res)
      → gen_raw_tx (connected env node) t desc res reqs h ≡ (ok tx, h')
      → input_sum tx.tx_inputs ≡ output_sum tx.tx_outputs
  connected-gen_raw_tx env t desc res reqs h h' tx ledger b e =
      gen_raw_tx-IsBalanced (connected env node) t desc res reqs h h' tx
        (connected-SelectsEnough env ledger) b e
