-- ===== src/Client/Types/Shown.antt =====
-- What the printed forms keep.
use xuperchain.Pb
use xuperchain.Pb.Chain
use xuperchain.Prelude.{
  false, Option, none, some, List, [], ◌∷◌, ◌≡◌, ◌≢◌, ◌↔◌, refl, ◌⊎◌, inl, inr, ℕ, ◌+◌, ℤ, map,
  Bool-cases, arith, pos_part,
}
use xuperchain.Go.Text.{Text, lit, text_eq, text_eq→eq, eq→text_eq}
use xuperchain.Exec.{Result, ok, err, Failure, and_then}
use xuperchain.Client.Value.{input_sum, output_sum}
use xuperchain.Client.Types.{
  TxInput, TxOutput, from_input, from_output, from_pb_tx, signed_justify, from_pb_justify,
  from_internal_block_pb,
}
use xuperchain.Client.Types.Status.{ChainStatus, from_chain, chains_named, from_system_status_pb}

-- The sums of the amounts that are shown
abbrev pub shown_inputs : List TxInput → ℕ
shown_inputs [] = 0
shown_inputs (i ∷ ins) = pos_part i.amount + shown_inputs ins

abbrev pub shown_outputs : List TxOutput → ℕ
shown_outputs [] = 0
shown_outputs (o ∷ outs) = pos_part o.amount + shown_outputs outs

inputs_shown : (ins : List Pb.TxInput) → shown_inputs (map from_input ins) ≡ input_sum ins
inputs_shown [] = refl
inputs_shown (i ∷ ins) = omega (arith, inputs_shown ins)

outputs_shown : (outs : List Pb.TxOutput) → shown_outputs (map from_output outs) ≡ output_sum outs
outputs_shown [] = refl
outputs_shown (o ∷ outs) = omega (arith, outputs_shown outs)

-- The form in which `FromPBTx` shows a transaction has the same worth of inputs and the same worth of
-- outputs as the transaction.
pub from_pb_tx_keeps_worth :
    (type_name : ℤ → Text) (tx : Pb.Transaction)
    → (shown_inputs (from_pb_tx type_name tx).tx_inputs ≡ input_sum tx.tx_inputs)
      × (shown_outputs (from_pb_tx type_name tx).tx_outputs ≡ output_sum tx.tx_outputs)
unfolding from_pb_tx
from_pb_tx_keeps_worth type_name tx = (inputs_shown tx.tx_inputs, outputs_shown tx.tx_outputs)

-- A certificate without its list of signatures
abbrev pub IsUnsigned : Option Chain.QuorumCert → Type 0
IsUnsigned none = ⊥
IsUnsigned (some qc) = qc.sign_infos ≡ none

justify-panics :
    (qc : Chain.QuorumCert) (signs : Option (List Chain.SignInfo))
    → (signed_justify qc signs ≡ err Failure.panic) ↔ (signs ≡ none)
justify-panics qc none = (λ _. refl, λ _. refl)
justify-panics qc (some signs) = (λ e. absurd (cc e), λ e. absurd (cc e))

from_pb_justify-panics :
    (o : Option Chain.QuorumCert) → (from_pb_justify o ≡ err Failure.panic) ↔ IsUnsigned o
unfolding from_pb_justify
from_pb_justify-panics none = (λ e. absurd (cc e), λ e. absurd e)
from_pb_justify-panics (some qc) = justify-panics qc qc.sign_infos

then-panics :
    {A B : Type 0} (r : Result A) (f : A → B)
    → (and_then r (λ a. ok (f a)) ≡ err Failure.panic) ↔ (r ≡ err Failure.panic)
then-panics (ok a) f = (λ e. absurd (cc e), λ e. absurd (cc e))
then-panics (err x) f = (λ e. cc e, λ e. cc e)

-- `FromInternalBlockPB` panics on exactly the blocks whose quorum certificate is there and has no list of
-- signatures; every other block is shown.
pub from_internal_block_pb_panics :
    (type_name : ℤ → Text) (block : Chain.InternalBlock)
    → (from_internal_block_pb type_name block ≡ err Failure.panic) ↔ IsUnsigned block.justify
unfolding from_internal_block_pb
from_internal_block_pb_panics type_name block =
    let (down, up) = then-panics (from_pb_justify block.justify) _ in
    let (bad, worse) = from_pb_justify-panics block.justify in
    (λ e. bad (down e), λ e. up (worse e))

-- The chains that are shown, in their order, and those that are left out
pub data Picks (cname : Text) : List Chain.BcStatus → List ChainStatus → Type 0 where
  picks_none : Picks cname [] []
  shown :
      (chain : Chain.BcStatus) {chains : List Chain.BcStatus} {shown : List ChainStatus}
      → ((cname ≡ lit "xuper") ⊎ (chain.bcname ≡ cname))
      → Picks cname chains shown
      → Picks cname (chain ∷ chains) (from_chain chain ∷ shown)
  hidden :
      (chain : Chain.BcStatus) {chains : List Chain.BcStatus} {shown : List ChainStatus}
      → cname ≢ lit "xuper"
      → chain.bcname ≢ cname
      → Picks cname chains shown
      → Picks cname (chain ∷ chains) shown

differs : (s t : Text) → text_eq s t ≡ false → s ≢ t
differs s t h e = absurd (cc (h, eq→text_eq s t e))

chains_named-Picks :
    (cname : Text) (chains : List Chain.BcStatus) → Picks cname chains (chains_named cname chains)
unfolding chains_named
chains_named-Picks cname [] = picks_none
chains_named-Picks cname (chain ∷ chains) = elim (Bool-cases (text_eq cname (lit "xuper"))) [
  | inl root ↦
      rw root
        (shown chain (inl (text_eq→eq cname (lit "xuper") root)) (chains_named-Picks cname chains))
  | inr other ↦ elim (Bool-cases (text_eq chain.bcname cname)) [
    | inl same ↦
        rw (other, same)
          (shown chain (inr (text_eq→eq chain.bcname cname same)) (chains_named-Picks cname chains))
    | inr differ ↦
        rw (other, differ)
          (hidden chain (differs cname (lit "xuper") other) (differs chain.bcname cname differ)
            (chains_named-Picks cname chains))
  ]
]

-- `FromSystemStatusPB` shows, in the order of the answer, exactly the chains that have the name asked
-- for, or all chains where that name is `xuper`, and the peers of the answer.
pub from_system_status_pb-Picks :
    (status : Chain.SystemsStatus) (cname : Text)
    → Picks cname status.bcs_status (from_system_status_pb status cname).chain_status
      × ((from_system_status_pb status cname).peers ≡ status.peer_urls)
unfolding from_system_status_pb
from_system_status_pb-Picks status cname = (chains_named-Picks cname status.bcs_status, refl)
