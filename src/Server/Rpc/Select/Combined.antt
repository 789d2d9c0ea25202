-- ===== src/Server/Rpc/Select/Combined.antt =====
-- What `PreExecWithSelectUTXO` answers.
use mathlib.Core.Path.{subst}
use xuperchain.Prelude.{
  Bool, true, false, Option, none, some, ◌≡◌, refl, ap, sym, ◌∙◌, ◌⊎◌, inl, inr, ℕ, ◌+◌, ◌≤◌, ◌<◌,
  ℤ, pos, negsuc, ◌<ℤ◌, ◌+ℤ◌, ltb_ℤ, Bool-cases, if◌then◌else◌, arith, two_63,
}
use xuperchain.Go.Decimal.RoundTrip.{set_string-print_int}
use xuperchain.Go.Int64.{wrap_int64}
use xuperchain.Pb.{
  InvokeResponse, InvokeRpcResponse, UtxoOutput, PreExecWithSelectUtxoRequest,
  PreExecWithSelectUtxoResponse,
}
use xuperchain.Client.Inputs.Change.{IsSelection}
use xuperchain.Server.Handle.{StdError}
use xuperchain.Server.Rpc.{Calls, RpcEnv, Answer}
use xuperchain.Server.Rpc.Submit.{pre_exec}
use xuperchain.Server.Rpc.Select.{
  select, utxo_input, with_response, selected, select_after, after_pre_exec, total_amount,
  pre_exec_with_select_utxo,
}
use xuperchain.Server.Rpc.Select.Ledger.{LedgerSelects, select-IsSelection}

abbrev Combined : Type 0
Combined = Answer PreExecWithSelectUtxoResponse

-- The utxos of an answer, by the amount that they are to cover
abbrev pub IsCovered : ℤ → Option UtxoOutput → Type 0
IsCovered total utxos =
    ((total <ℤ pos 1) × (utxos ≡ none))
    ⊎ ((need : ℕ) × (outs : UtxoOutput) × (total ≡ pos need)
        × (0 < need)
        × (utxos ≡ some outs)
        × IsSelection need outs)

module _ (env : RpcEnv) (req : PreExecWithSelectUtxoRequest) where
  with_utxos :
      (resp : PreExecWithSelectUtxoResponse) (outs : UtxoOutput) (o : Option StdError) (need : ℕ)
      → (o ≡ none → IsSelection need outs)
      → (selected env req resp outs o).error ≡ none
      → ((selected env req resp outs o).response.response ≡ resp.response)
        × ((found : UtxoOutput) × ((selected env req resp outs o).response.utxo_output ≡ some found)
            × IsSelection need found)
  with_utxos resp outs (some e) need sel fine = absurd (cc fine)
  with_utxos resp outs none need sel fine = (refl, (_, refl, sel refl))

  positive :
      (total : ℤ) → ltb_ℤ total (pos 1) ≡ false → (need : ℕ) × (total ≡ pos need) × (0 < need)
  positive (pos n) h = (n, refl, ground arith)
  positive (negsuc n) h = absurd (ground arith)

  select_after-IsCovered :
      (res : Option InvokeResponse) (h : Calls)
      → LedgerSelects env
      → (select_after env req res h).0.error ≡ none
      → ((select_after env req res h).0.response.response ≡ res)
        × IsCovered (total_amount env req res) (select_after env req res h).0.response.utxo_output
  unfolding select_after
  select_after-IsCovered res h ledger fine =
      elim (Bool-cases (ltb_ℤ (total_amount env req res) (pos 1))) [
        | inl small ↦ rw small (refl, inl (ground arith, refl))
        | inr large ↦
            let (need, is_need, due) = positive (total_amount env req res) large in
            let input = utxo_input env req (total_amount env req res) in
            let a = (select env (some input) h).0 in
            let (same, (found, given, sel)) =
              with_utxos (with_response env req res) a.response a.error need
                (select-IsSelection env input h need ledger
                  (set_string-print_int (total_amount env req res) ∙ ap some is_need))
                (rw large at fine) in
            rw large (same, inr (need, found, is_need, due, given, sel))
      ]

  after-select :
      (resp : InvokeRpcResponse) (o : Option StdError) (h : Calls)
      → (after_pre_exec env req resp o h).0.error ≡ none
      → (o ≡ none) × (after_pre_exec env req resp o h ≡ select_after env req resp.response h)
  after-select resp none h fine = (refl, refl)
  after-select resp (some e) h fine = absurd (cc fine)

  guarded :
      (b : Bool) (x y : Combined × Calls) (e : StdError)
      → y.0.error ≡ some e
      → (if b then x else y).0.error ≡ none
      → (if b then x else y) ≡ x
  guarded true x y e bad fine = refl
  guarded false x y e bad fine = absurd (cc (bad, fine))

  small_sum : (z : ℤ) → z <ℤ pos 1 → ltb_ℤ z (pos 1) ≡ true
  small_sum z h = ground arith

  -- If the ledger selects at least what it is asked for, and the wire form of a utxo is the same in both
  -- protocols, then an answer of `PreExecWithSelectUTXO` without an error follows an execution without
  -- an error, whose response it gives; and with the amount of the request and the gas of that response
  -- added as `int64`, it has no utxos if the sum is below one, and otherwise utxos that are worth at
  -- least the sum.
  pub pre_exec_with_select_utxo_covers :
      (h : Calls)
      → LedgerSelects env
      → (pre_exec_with_select_utxo env (some req) h).0.error ≡ none
      → let done_by = pre_exec env req.request h in
        let answer = (pre_exec_with_select_utxo env (some req) h).0 in
        (done_by.0.error ≡ none)
        × (answer.response.response ≡ done_by.0.response.response)
        × IsCovered (total_amount env req done_by.0.response.response) answer.response.utxo_output
  unfolding pre_exec_with_select_utxo
  pre_exec_with_select_utxo_covers h ledger fine =
      let done_by = pre_exec env req.request h in
      let passed = guarded _ _ _ _ refl fine in
      let (no_error, same) =
        after-select done_by.0.response done_by.0.error done_by.1
          (ap (λ p. p.0.error) (sym passed) ∙ fine) in
      let q = passed ∙ same in
      let (gives, covered) =
        select_after-IsCovered done_by.0.response.response done_by.1 ledger
          (ap (λ p. p.0.error) (sym q) ∙ fine) in
      (
        no_error,
        ap (λ p. p.0.response.response) q ∙ gives,
        subst (IsCovered (total_amount env req done_by.0.response.response))
            (sym (ap (λ p. p.0.response.utxo_output) q)) covered,
      )

  wraps_below :
      (a g : ℕ) → a < two_63 → g < two_63 → two_63 ≤ a + g → wrap_int64 (pos a +ℤ pos g) <ℤ pos 1
  unfolding wrap_int64 ◌+ℤ◌
  wraps_below a g ha hg h = ground arith

  -- If the amount of the request and the gas of the execution are `int64` whose sum is not, then
  -- `PreExecWithSelectUTXO` selects nothing after the execution and answers without an error and without
  -- utxos.
  pub select_after_overflow :
      (res : InvokeResponse) (a g : ℕ) (h : Calls)
      → req.total_amount ≡ pos a
      → res.gas_used ≡ pos g
      → a < two_63
      → g < two_63
      → two_63 ≤ a + g
      → select_after env req (some res) h
        ≡ (record { response = with_response env req (some res); error = none }, h)
  unfolding select_after total_amount
  select_after_overflow res a g h is_a is_g ha hg over =
      let low : ltb_ℤ (wrap_int64 (req.total_amount +ℤ res.gas_used)) (pos 1) ≡ true =
        simp (is_a, is_g) (small_sum _ (wraps_below a g ha hg over)) in
      rw low refl
