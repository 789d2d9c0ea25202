-- ===== src/Client/Inputs/Change.antt =====
-- The inputs of a transaction are worth what it needs and what it gives back.
use xuperchain.Prelude.{
  ℕ, ◌+◌, ◌-◌, ◌≤◌, ◌<◌, ◌≡◌, List, [], ◌∷◌, ℤ, pos, some, none, Option, arith, refl, map, ◌-ℤ◌,
  sym,
}
use native.Mathlib.Decide.{dec_lt}
use xuperchain.Go.Text.{Text}
use xuperchain.Go.Big.{set_bytes-bytes}
use xuperchain.Go.Decimal.{set_string}
use xuperchain.Go.Decimal.RoundTrip.{set_string-print_int}
use xuperchain.Pb.{TxInput, TxOutput, Utxo, UtxoInput, UtxoOutput}
use xuperchain.Exec.{History, ok}
use xuperchain.Exec.Yields.{
  Yields, Yields-pure, Yields-ask, Yields-wrap, Yields-bind, Yields-next, Yields-or_fail,
}
use xuperchain.Client.Env.{Env}
use xuperchain.Client.Trans.{CommTrans}
use xuperchain.Client.Value.{output_sum, input_sum, utxo_sum}
use xuperchain.Client.Inputs.{
  to_input, change_output, gen_tx_inputs, ask_utxo, one_or_none, plain_output, gen_initiator,
}

-- What the client relies on in the node's selection: the total is that of the utxos, and it is at
-- least what was asked for.
abbrev pub IsSelection : ℕ → UtxoOutput → Type 0
IsSelection need outs =
    (set_string outs.total_selected ≡ some (pos (utxo_sum outs.utxo_list)))
    × (need ≤ utxo_sum outs.utxo_list)

pub record SelectsEnough (env : Env) : Type 0 where
  pub selection :
      (h : History) (request : UtxoInput) (need : ℕ) (outs : UtxoOutput)
      → set_string request.total_need ≡ some (pos need)
      → env.select_utxo h request ≡ ok outs
      → IsSelection need outs

pub input_sum-to_input : (us : List Utxo) → input_sum (map to_input us) ≡ utxo_sum us
input_sum-to_input [] = refl
input_sum-to_input (u ∷ us) = omega (arith, input_sum-to_input us)

change_output_more :
    (from_addr : Text) (total need : ℕ)
    → need < total
    → change_output from_addr (pos total) (pos need)
      ≡ some (plain_output from_addr (pos (total - need)))
unfolding change_output ◌-ℤ◌
change_output_more from_addr total need h = ground arith

change_output-none :
    (from_addr : Text) (total need : ℕ)
    → total ≤ need
    → change_output from_addr (pos total) (pos need) ≡ none
unfolding change_output
change_output-none from_addr total need h = ground arith

pub change_output_sum :
    (from_addr : Text) (total need : ℕ)
    → need ≤ total
    → output_sum (one_or_none (change_output from_addr (pos total) (pos need))) + need ≡ total
change_output_sum from_addr total need h = elim (dec_lt need total) [
  | yes more ↦
      rw (change_output_more from_addr total need more, set_bytes-bytes (pos (total - need)))
        (omega arith)
  | no enough ↦ rw (change_output-none from_addr total need (omega arith)) (omega arith)
]

-- Inputs and change that balance a need.
abbrev pub Covers : ℕ → List TxInput × Option TxOutput → Type 0
Covers need (ins, change) = input_sum ins ≡ output_sum (one_or_none change) + need

pub selected-Covers :
    (from_addr : Text) (outs : UtxoOutput) (need : ℕ) (total : ℤ)
    → IsSelection need outs
    → set_string outs.total_selected ≡ some total
    → Covers need (map to_input outs.utxo_list, change_output from_addr total (pos need))
selected-Covers from_addr outs need total sel e =
    let found : total ≡ pos (utxo_sum outs.utxo_list) = cc (sel.0) in
    rw (found, input_sum-to_input outs.utxo_list)
      (sym (change_output_sum from_addr (utxo_sum outs.utxo_list) need sel.1))

-- Where the node selects enough, the inputs that `GenTxInputs` returns are worth the need and the
-- change together.
pub gen_tx_inputs-Covers :
    (env : Env) (t : CommTrans) (need : ℕ)
    → SelectsEnough env
    → Yields (Covers need) (gen_tx_inputs env t (pos need))
unfolding gen_tx_inputs ask_utxo
gen_tx_inputs-Covers env t need s = Yields-next (gen_initiator env t) _ λ from_addr.
    Yields-bind {Q = IsSelection need} _ _
      (Yields-wrap _ _ (
        Yields-ask _ _ (λ h outs e. s.selection h _ need outs (set_string-print_int (pos need)) e)))
      λ outs sel. Yields-next _ _ λ _.
        Yields-or_fail _ _ _
          λ total e. Yields-pure _ (selected-Covers from_addr outs need total sel e)
