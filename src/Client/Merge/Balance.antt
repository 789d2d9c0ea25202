-- ===== src/Client/Merge/Balance.antt =====
-- A merge pays to one output what all of its inputs are worth.
use xuperchain.Prelude.{
  Bool, true, false, not, Option, none, length, refl, ◌≡◌, List, [], ◌∷◌, pos, arith, some,
}
use xuperchain.Go.Text.{Text}
use xuperchain.Go.Decimal.{set_string}
use xuperchain.Go.Big.{set_bytes-bytes}
use xuperchain.Pb.{
  InvokeRequest, InvokeResponse, TxInput, TxOutput, Transaction, UtxoInput, UtxoOutput,
}
use xuperchain.Exec.{History, ok}
use xuperchain.Exec.Yields.{
  Yields, Yields-pure, Yields-ask, Yields-wrap, Yields-bind, Yields-next, Yields-or_fail,
  Yields-guard, Yields-ok,
}
use xuperchain.Client.Env.{Env}
use xuperchain.Client.Trans.{CommTrans}
use xuperchain.Client.Value.{output_sum, input_sum, utxo_sum}
use xuperchain.Client.Inputs.{gen_tx_inputs_with_merge_utxo}
use xuperchain.Client.Inputs.Change.{input_sum-to_input}
use xuperchain.Client.RawTx.{with_contract}
use xuperchain.Client.Merge.{MergeUtxoCommand, is_nil, merge_tx}

not_nil : (b : Bool) → not b ≡ true → b ≡ false
not_nil true h = absurd (cc h)
not_nil false h = refl

-- What a merge relies on in the node's selection by size: the total is that of the utxos.
abbrev pub IsTotalled : UtxoOutput → Type 0
IsTotalled outs = set_string outs.total_selected ≡ some (pos (utxo_sum outs.utxo_list))

pub record SelectsBySize (env : Env) : Type 0 where
  pub totalled :
      (h : History) (request : UtxoInput) (outs : UtxoOutput)
      → env.select_utxo_by_size h request ≡ ok outs
      → IsTotalled outs

abbrev IsMerged : List TxInput × TxOutput → Type 0
IsMerged (ins, out) = input_sum ins ≡ output_sum (out ∷ [])

gen_tx_inputs_with_merge_utxo-IsMerged :
    (env : Env) (t : CommTrans)
    → SelectsBySize env
    → Yields IsMerged (gen_tx_inputs_with_merge_utxo env t)
unfolding gen_tx_inputs_with_merge_utxo
gen_tx_inputs_with_merge_utxo-IsMerged env t s = Yields-next _ _ λ from_addr.
    Yields-next _ _ λ signature.
      Yields-bind {Q = IsTotalled} _ _
        (Yields-wrap _ _ (Yields-ask _ _ (λ h outs e. s.totalled h _ outs e)))
        λ outs sel. Yields-next _ _ λ _. Yields-or_fail _ _ _ λ total e.
          let found : total ≡ pos (utxo_sum outs.utxo_list) = cc sel in
          Yields-pure _ (
            rw
              (
                found,
                input_sum-to_input outs.utxo_list,
                set_bytes-bytes (pos (utxo_sum outs.utxo_list)),
              )
              (omega arith))

abbrev IsMerge : Transaction → Type 0
IsMerge tx =
    (input_sum tx.tx_inputs ≡ output_sum tx.tx_outputs)
    × (is_nil tx.tx_inputs ≡ false)
    × (length tx.tx_outputs ≡ 1)

merged :
    (res : Option InvokeResponse) (reqs : List InvokeRequest) (tx : Transaction)
    → IsMerge tx
    → IsMerge (with_contract res reqs tx)
merged none reqs tx h = h
merged (some res) reqs tx h = h

-- A transaction that `mergeUtxo` builds spends at least one input and pays exactly what it spends, to
-- one output, if the total that the node gives for the utxos it selects by size is theirs.
pub merge_tx-IsBalanced :
    (env : Env) (c : MergeUtxoCommand) (initiator account : Text) (h h' : History)
    (tx : Transaction)
    → SelectsBySize env
    → merge_tx env c initiator account h ≡ (ok tx, h')
    → (input_sum tx.tx_inputs ≡ output_sum tx.tx_outputs)
      × (is_nil tx.tx_inputs ≡ false)
      × (length tx.tx_outputs ≡ 1)
unfolding merge_tx
merge_tx-IsBalanced env c initiator account h h' tx s e =
    Yields-ok {P = IsMerge} _ h
      (Yields-next _ _ λ nonce. Yields-next _ _ λ timestamp.
        Yields-bind {Q = IsMerged} _ _ (gen_tx_inputs_with_merge_utxo-IsMerged env _ s)
          λ spent sums. Yields-guard _ _ _ λ some_input. Yields-next _ _ λ auth.
            Yields-next _ _
              λ res. Yields-pure _ (merged res _ _ (sums, not_nil _ some_input, refl)))
      e
