-- ===== src/Server/Rpc/Select/Ledger.antt =====
-- What `SelectUTXO` answers, by what the ledger selects.
use mathlib.Core.Path.{subst}
use xuperchain.Prelude.{
  Bool, false, Option, none, some, List, [], ◌∷◌, ◌≡◌, refl, ap, sym, ◌∙◌, Option-cases, Bool-cases,
  inl, inr, ℕ, ◌≤◌, ℤ, pos, map,
}
use xuperchain.Go.Text.{Text}
use xuperchain.Go.Decimal.{set_string}
use xuperchain.Pb.{Utxo, UtxoInput, UtxoOutput}
use xuperchain.Client.Inputs.Change.{IsSelection}
use xuperchain.Client.Value.{utxo_sum}
use xuperchain.Server.Convert.{Wire, converted, via_wire, convert_all, utxo_list_to_xchain}
use xuperchain.Server.Convert.Lists.{push_converted-eq-some}
use xuperchain.Server.Handle.{StdError, done, ChainEnv, select_utxo, check_select_utxo_sign}
use xuperchain.Server.Rpc.{Calls, RpcEnv, Answer}
use xuperchain.Server.Rpc.Leads.{
  Leads-pure, Leads-param, Leads-lift, Leads-call, Leads-handle, Leads-respond, or_fail-done,
}
use xuperchain.Server.Rpc.Select.{
  empty_output, converted_list, output_of, select_utxo_steps, select,
}

-- What an answer says of the request `input`
abbrev pub Selected : RpcEnv → UtxoInput → Calls → Answer UtxoOutput → Type 0
Selected env input h answer = elim answer.error [
  | none ↦
      (need : ℤ) × (outs : UtxoOutput) × (set_string input.total_need ≡ some need)
      × (select_utxo (env.chain h input.bcname) input.bcname input.address need input.need_lock
            false input.publickey input.user_sign
          ≡ done outs)
      × (answer.response.total_selected ≡ outs.total_selected)
      × (output_of env outs ≡ done answer.response.utxo_list)
  | some e ↦ answer.response ≡ empty_output
]

pub select-Selected :
    (env : RpcEnv) (input : UtxoInput) (h : Calls)
    → Selected env input h (select env (some input) h).0
unfolding select select_utxo_steps
select-Selected env input h =
    Leads-respond (λ a _. Selected env input h a) empty_output _ h
      (Leads-lift _ _ h (λ e _. refl)
        λ input' same.
          Leads-param _ _ h (λ _. refl)
            λ _.
              Leads-lift _ _ h (λ e _. refl)
                λ need reads.
                  Leads-handle env _ _ h (λ e _. refl)
                    λ name.
                      Leads-call _ _ _ h (λ e _. refl)
                        λ outs found.
                          Leads-lift _ _ _ (λ e _. refl)
                            λ utxos converts. Leads-pure _ _ (
                              subst (λ i. Selects i utxos outs) (cc same)
                                (need, outs, or_fail-done _ _ reads, found, refl, converts)))
  where
    Selects : UtxoInput → List Utxo → UtxoOutput → Type 0
    Selects i utxos outs = Selected env i h (record {
      response = record { header = none; utxo_list = utxos; total_selected = outs.total_selected };
      error = none;
    })

-- A message that is read back from its wire form is the message that was written.
abbrev pub IsRoundTrip : Wire Utxo Utxo → Type 0
IsRoundTrip wire =
    (u v : Utxo) (buf : Text) → wire.marshal u ≡ some buf → wire.unmarshal buf ≡ some v → v ≡ u

-- What the node promises on top of the ledger: the ledger selects at least what is asked for and sums it
-- up, and the two protocols have the same wire form of a utxo.
pub record LedgerSelects (env : RpcEnv) : Type 0 where
  pub selection :
      (h : Calls) (name account : Text) (need : ℕ) (is_lock is_exclude : Bool) (outs : UtxoOutput)
      → (env.chain h name).select account (pos need) is_lock is_exclude ≡ done outs
      → IsSelection need outs
  pub round_trip : IsRoundTrip env.utxo_wire

via_wire_same :
    (wire : Wire Utxo Utxo) (u v : Utxo)
    → IsRoundTrip wire
    → via_wire wire (some u) ≡ some v
    → v ≡ u
unfolding via_wire
via_wire_same wire u v r e = elim (Option-cases (wire.marshal u)) [
  | inl missing ↦ absurd (cc (missing, e))
  | inr (buf, written) ↦ r u v buf written (rw (written, via_wire) at e)
]

converts_same :
    (wire : Wire Utxo Utxo) (us vs : List Utxo)
    → IsRoundTrip wire
    → convert_all wire (map some us) ≡ some vs
    → vs ≡ us
unfolding convert_all
converts_same wire [] vs r e = cc e
converts_same wire (u ∷ us) vs r e =
    let (v, vs', p, q, made) =
      push_converted-eq-some (via_wire wire (some u)) (convert_all wire (map some us)) vs e in
    cc (made, via_wire_same wire u v r p, converts_same wire us vs' r q)

converted_list-same :
    (wire : Wire Utxo Utxo) (o : Option (List Utxo)) (vs : List Utxo)
    → converted_list (converted wire o) ≡ done vs
    → o ≡ some vs
converted_list-same wire none vs e = absurd (cc e)
converted_list-same wire (some us) vs e = cc e

output_of-same :
    (env : RpcEnv) (outs : UtxoOutput) (vs : List Utxo)
    → IsRoundTrip env.utxo_wire
    → output_of env outs ≡ done vs
    → vs ≡ outs.utxo_list
unfolding output_of utxo_list_to_xchain
output_of-same env outs vs r e =
    converts_same env.utxo_wire outs.utxo_list vs r (converted_list-same env.utxo_wire _ vs e)

allowed :
    (env : ChainEnv) (name account : Text) (need : ℤ) (is_lock is_exclude : Bool) (key sign : Text)
    (outs : UtxoOutput)
    → select_utxo env name account need is_lock is_exclude key sign ≡ done outs
    → env.select account need is_lock is_exclude ≡ done outs
unfolding select_utxo
allowed env name account need is_lock is_exclude key sign outs e =
    elim (Bool-cases (check_select_utxo_sign env name account key sign is_lock need)) [
      | inl good ↦ rw good at e
      | inr bad ↦ absurd (cc (rw bad at e))
    ]

-- What the client relies on holds of every answer of `SelectUTXO` without an error, if the ledger
-- selects at least what is asked for and sums it up, and the wire form of a utxo is the same in both
-- protocols: the answered total is that of the answered utxos, and at least the need of the request.
pub select-IsSelection :
    (env : RpcEnv) (input : UtxoInput) (h : Calls) (need : ℕ)
    → LedgerSelects env
    → set_string input.total_need ≡ some (pos need)
    → (select env (some input) h).0.error ≡ none
    → IsSelection need (select env (some input) h).0.response
select-IsSelection env input h need ledger reads fine =
    meets (select env (some input) h).0 (select-Selected env input h) fine
  where
    meets :
        (a : Answer UtxoOutput)
        → Selected env input h a
        → a.error ≡ none
        → IsSelection need a.response
    meets a s fine =
        let found_by : Option StdError → Type 0 =
          λ o. Selected env input h (record { response = a.response; error = o }) in
        let (need', outs, reads', found, total, converts) = subst found_by fine s in
        let same_need : need' ≡ pos need = cc (reads, reads') in
        let same = output_of-same env outs a.response.utxo_list ledger.round_trip converts in
        let sel = ledger.selection h input.bcname input.address need input.need_lock false outs (
          allowed _ input.bcname input.address (pos need) input.need_lock false input.publickey
            input.user_sign outs (rw same_need at found)) in
        (
          ap set_string total ∙ sel.0 ∙ ap (λ us. some (pos (utxo_sum us))) (sym same),
          subst (λ us. need ≤ utxo_sum us) (sym same) sel.1,
        )
