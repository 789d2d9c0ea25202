-- ===== src/Client/Transfer/Frozen.antt =====
-- The frozen heights of what `Cli.Transfer` pays.
use xuperchain.Prelude.{
  ◌≡◌, refl, ap, List, [], ◌∷◌, ◌++◌, none, some, Option, ℤ, pos, Bool, true, false, if◌then◌else◌,
  ltb_ℤ, Option-cases, Bool-cases, inl, inr, All, is_negative,
}
use xuperchain.Go.Text.{Text}
use xuperchain.Go.Big.{bytes}
use xuperchain.Go.Decimal.{set_string}
use xuperchain.Pb.{TxDataAccount, TxInput, TxOutput, Transaction, TxStatus, InvokeResponse}
use xuperchain.Exec.{History, ok, Ensures, Ensures-ok, Ensures-and_then}
use xuperchain.Exec.Yields.{
  Yields, Yields-pure, Yields-lift, Yields-bind, Yields-next, Yields-or_fail, Yields-ok,
}
use xuperchain.Client.Env.{Env}
use xuperchain.Client.Keys.{AkInfo}
use xuperchain.Client.Outputs.{new_fee_account, has_fee}
use xuperchain.Client.Inputs.{one_or_none, change_output}
use xuperchain.Client.Transfer.{
  TransferOptions, pay_account, pay_each, accounts_of, with_response, assemble_inputs, assemble_tx,
}

abbrev pub IsPlain : List TxOutput → Type 0
IsPlain outs = All (λ (o : TxOutput). o.frozen_height ≡ pos 0) outs

-- What a transfer pays to its receiver
abbrev pub frozen_output : TransferOptions → ℤ → TxOutput
frozen_output opt amount = record {
  amount = bytes amount;
  to_addr = opt.to;
  frozen_height = opt.frozen_height;
}

-- The first output pays the receiver as the options ask, and no other is frozen.
abbrev pub IsFrozenFor : TransferOptions → List TxOutput → Type 0
IsFrozenFor opt outs =
    (amount : ℤ) × (rest : List TxOutput) × (set_string opt.amount ≡ some amount)
    × (is_negative amount ≡ false)
    × (outs ≡ frozen_output opt amount ∷ rest)
    × IsPlain rest

IsPlain-append : (xs ys : List TxOutput) → IsPlain xs → IsPlain ys → IsPlain (xs ++ ys)
IsPlain-append [] ys p q = q
IsPlain-append (x ∷ xs) ys p q = (p.0, IsPlain-append xs ys p.1 q)

module _ (opt : TransferOptions) where
  IsFrozenFor-append :
      (outs more : List TxOutput)
      → IsFrozenFor opt outs
      → IsPlain more
      → IsFrozenFor opt (outs ++ more)
  IsFrozenFor-append outs more (amount, rest, reads, fine, same, plain) q = (
    amount,
    rest ++ more,
    reads,
    fine,
    ap (λ xs. xs ++ more) same,
    IsPlain-append rest more plain q,
  )

  pay_account-keeps :
      (p : List TxOutput × ℤ) (acc : TxDataAccount)
      → acc.frozen_height ≡ pos 0
      → IsFrozenFor opt p.0
      → Ensures (λ q. IsFrozenFor opt q.0) (pay_account p acc)
  unfolding pay_account
  pay_account-keeps p acc plain h = elim (Option-cases (set_string acc.amount)) [
    | inl e ↦ rw (e, Ensures) tt
    | inr (amount, e) ↦ elim (Bool-cases (is_negative amount)) [
      | inl negative ↦ rw (e, negative, Ensures) tt
      | inr fine ↦ rw (e, fine, Ensures) (IsFrozenFor-append p.0 _ h (plain, tt))
    ]
  ]

  pay_each-keeps :
      (p : List TxOutput × ℤ) (accs : List TxDataAccount)
      → All (λ (acc : TxDataAccount). acc.frozen_height ≡ pos 0) accs
      → IsFrozenFor opt p.0
      → Ensures (λ q. IsFrozenFor opt q.0) (pay_each p accs)
  unfolding pay_each
  pay_each-keeps p [] plain h = h
  pay_each-keeps p (acc ∷ accs) (plain, plains) h =
      Ensures-and_then (λ q. IsFrozenFor opt q.0) (λ q. IsFrozenFor opt q.0) (pay_account p acc)
        (λ q. pay_each q accs) (pay_account-keeps p acc plain h) (λ q. pay_each-keeps q accs plains)

  abbrev receiver : TxDataAccount
  receiver = record { address = opt.to; amount = opt.amount; frozen_height = opt.frozen_height }

  pay_account-IsFrozenFor : Ensures (λ q. IsFrozenFor opt q.0) (pay_account ([], pos 0) receiver)
  unfolding pay_account
  pay_account-IsFrozenFor = elim (Option-cases (set_string opt.amount)) [
    | inl e ↦ rw (e, Ensures) tt
    | inr (amount, e) ↦ elim (Bool-cases (is_negative amount)) [
      | inl negative ↦ rw (e, negative, Ensures) tt
      | inr fine ↦ rw (e, fine, Ensures) (amount, [], e, fine, refl, tt)
    ]
  ]

  fee_is_plain :
      (env : Env) (b : Bool)
      → All
          (λ (acc : TxDataAccount). acc.frozen_height ≡ pos 0)
          (if b then new_fee_account env opt.fee ∷ [] else [])
  fee_is_plain env true = (refl, tt)
  fee_is_plain env false = tt

  pay_each-IsFrozenFor :
      (env : Env) → Ensures (λ q. IsFrozenFor opt q.0) (pay_each ([], pos 0) (accounts_of env opt))
  unfolding pay_each
  pay_each-IsFrozenFor env =
      Ensures-and_then (λ q. IsFrozenFor opt q.0) (λ q. IsFrozenFor opt q.0)
        (pay_account ([], pos 0) receiver)
        (λ q. pay_each q (if has_fee opt.fee then new_fee_account env opt.fee ∷ [] else []))
        pay_account-IsFrozenFor (λ q. pay_each-keeps q _ (fee_is_plain env (has_fee opt.fee)))

change_output-IsPlain :
    (from_addr : Text) (total need : ℤ) → IsPlain (one_or_none (change_output from_addr total need))
unfolding change_output
change_output-IsPlain from_addr total need = elim (Bool-cases (ltb_ℤ need total)) [
  | inl more ↦ rw more (refl, tt)
  | inr enough ↦ rw enough tt
]

assemble_inputs-IsPlain :
    (env : Env) (opt : TransferOptions) (need : ℤ) (initiator : AkInfo)
    → Yields
        (λ (p : List TxInput × Option TxOutput). IsPlain (one_or_none p.1))
        (assemble_inputs env opt need initiator)
unfolding assemble_inputs
assemble_inputs-IsPlain env opt need initiator = Yields-next _ _ λ sign. Yields-next _ _ λ outs.
    Yields-next _ _
      λ _. Yields-or_fail _ _ _ λ total e. Yields-pure _ (change_output-IsPlain opt.from total need)

-- The transaction of a status is there, and its outputs are frozen as the options ask.
abbrev pub HoldsFrozen : TransferOptions → Option Transaction → Type 0
HoldsFrozen opt none = ⊥
HoldsFrozen opt (some tx) = IsFrozenFor opt tx.tx_outputs

with_response-HoldsFrozen :
    (opt : TransferOptions) (res : Option InvokeResponse) (tx : Transaction)
    → IsFrozenFor opt tx.tx_outputs
    → HoldsFrozen opt (some (with_response res tx))
with_response-HoldsFrozen opt none tx h = h
with_response-HoldsFrozen opt (some res) tx h = h

assemble_tx-Yields :
    (env : Env) (opt : TransferOptions) (initiator : AkInfo)
    → Yields (λ (s : TxStatus). HoldsFrozen opt s.tx) (assemble_tx env opt initiator)
unfolding assemble_tx
assemble_tx-Yields env opt initiator = Yields-next _ _ λ nonce. Yields-next _ _ λ timestamp.
    Yields-bind {Q = λ (p : List TxOutput × ℤ). IsFrozenFor opt p.0} _ _
      (Yields-lift _ (λ p e.
        Ensures-ok (λ (q : List TxOutput × ℤ). IsFrozenFor opt q.0) _ (pay_each-IsFrozenFor opt env)
          e))
      λ paid first. Yields-bind _ _ (assemble_inputs-IsPlain env opt paid.1 initiator) λ spent c.
        Yields-next _ _ λ auth. Yields-next _ _ λ logid. Yields-next _ _ λ res.
          Yields-next _ _ λ logid'. Yields-pure _ (
            with_response-HoldsFrozen opt res.response _
              (IsFrozenFor-append opt paid.0 (one_or_none spent.1) first c))

-- Every status that `assembleTxSupportAccount` returns holds a transaction whose first output pays the
-- receiver of the options their amount, a number that is not negative, frozen up to their height; the
-- outputs after it, which are the fee and the change, are not frozen.
pub assemble_tx-HoldsFrozen :
    (env : Env) (opt : TransferOptions) (initiator : AkInfo) (h h' : History) (status : TxStatus)
    → assemble_tx env opt initiator h ≡ (ok status, h')
    → HoldsFrozen opt status.tx
assemble_tx-HoldsFrozen env opt initiator h h' status e =
    Yields-ok _ h (assemble_tx-Yields env opt initiator) e
