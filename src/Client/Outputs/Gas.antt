-- ===== src/Client/Outputs/Gas.antt =====
-- The fee that `GenTxOutputs` pays covers the gas that the contract used.
use xuperchain.Prelude.{
  ℕ, zero, suc, ◌≡◌, ◌≤ℤ◌, ◌<ℤ◌, List, [], ◌∷◌, ◌++◌, ℤ, pos, negsuc, some, none, arith,
  Option-cases, inl, inr, refl, ◌∙◌, sym, ap,
}
use mathlib.Core.Path.{fun_ext}
use xuperchain.Go.Text.{Text}
use xuperchain.Go.Big.{bytes}
use xuperchain.Go.Decimal.{set_string, parse_int}
use xuperchain.Go.Decimal.Parse.{parse_int-le}
use xuperchain.Pb.{TxDataAccount, TxOutput}
use xuperchain.Exec.{Result, ok, err, and_then, and_then-eq-ok, and_then_assoc}
use xuperchain.Client.Trans.{CommTrans}
use xuperchain.Client.Env.{Env}
use xuperchain.Client.Outputs.{
  add_account, read_account, pay_all, gen_tx_outputs, pay_accounts, new_fee_account, receivers,
}

-- The output that pays a fee.
abbrev pub fee_output : Env → ℕ → TxOutput
fee_output env fee = record {
  amount = bytes (pos fee);
  to_addr = env.fee_placeholder;
  frozen_height = pos 0;
}

pay_all-append :
    (p : List TxOutput × ℤ) (xs ys : List TxDataAccount)
    → pay_all p (xs ++ ys) ≡ and_then (pay_all p xs) (λ q. pay_all q ys)
unfolding pay_all
pay_all-append p [] ys = refl
pay_all-append p (x ∷ xs) ys =
    ap (and_then (read_account p x)) (fun_ext (λ q. pay_all-append q xs ys))
    ∙ sym (and_then_assoc (read_account p x) (λ q. pay_all q xs) (λ q. pay_all q ys))

pay_accounts_gas :
    (env : Env) (t : CommTrans) (gas_used : ℤ) (accs : List TxDataAccount)
    → pos 0 <ℤ gas_used
    → pay_accounts env t gas_used ≡ ok accs
    → (accs ≡ receivers t ++ new_fee_account env t.fee ∷ [])
      × (gas_used ≤ℤ (parse_int t.fee).number)
unfolding pay_accounts
pay_accounts_gas env t gas_used accs h e = ground arith

-- What the last account, the fee's, adds to the outputs.
abbrev PaysFee : Env → Text → ℤ → List TxOutput → Type 0
PaysFee env text gas_used outs =
    (fee : ℕ) × (set_string text ≡ some (pos fee))
    × (gas_used ≤ℤ pos fee)
    × ((front : List TxOutput) × (outs ≡ front ++ fee_output env fee ∷ []))

add_fee :
    (env : Env) (p : List TxOutput × ℤ) (text : Text) (gas_used amount : ℤ) (outs : List TxOutput)
    (need : ℤ)
    → pos 0 <ℤ gas_used
    → gas_used ≤ℤ amount
    → set_string text ≡ some amount
    → add_account p (new_fee_account env text) amount ≡ ok (outs, need)
    → PaysFee env text gas_used outs
add_fee env p text gas_used (pos (suc n)) outs need h le s e = (suc n, s, le, (p.0, ground arith))
add_fee env p text gas_used (pos zero) outs need h le s e = absurd (omega arith)
add_fee env p text gas_used (negsuc n) outs need h le s e = cc

and_then-ok : {A : Type 0} (r : Result A) → and_then r ok ≡ r
and_then-ok (ok a) = refl
and_then-ok (err e) = refl

read_account-some :
    (p : List TxOutput × ℤ) (acc : TxDataAccount) (amount : ℤ)
    → set_string acc.amount ≡ some amount
    → read_account p acc ≡ add_account p acc amount
unfolding read_account
read_account-some p acc amount e = rw (e, read_account)

read_account-none :
    (p q : List TxOutput × ℤ) (acc : TxDataAccount)
    → set_string acc.amount ≡ none
    → read_account p acc ≡ ok q
    → ⊥
unfolding read_account
read_account-none p q acc e h = ground arith

pay_fee :
    (env : Env) (p : List TxOutput × ℤ) (text : Text) (gas_used : ℤ) (outs : List TxOutput)
    (need : ℤ)
    → pos 0 <ℤ gas_used
    → gas_used ≤ℤ (parse_int text).number
    → pay_all p (new_fee_account env text ∷ []) ≡ ok (outs, need)
    → PaysFee env text gas_used outs
unfolding pay_all
pay_fee env p text gas_used outs need h le e =
    let acc = new_fee_account env text in
    let e' = sym (and_then-ok (read_account p acc)) ∙ e in
    elim (Option-cases (set_string text)) [
      | inl s ↦ absurd (read_account-none p (outs, need) acc s e')
      | inr (amount, s) ↦
          add_fee env p text gas_used amount outs need h (omega (arith, parse_int-le text amount s))
            s (sym (read_account-some p acc amount s) ∙ e')
    ]

-- When the contract used gas, `GenTxOutputs` succeeds only with a fee that is a number covering it,
-- and the last output pays exactly that fee to the fee placeholder.
pub gen_tx_outputs_covers_gas :
    (env : Env) (t : CommTrans) (gas_used : ℤ) (outs : List TxOutput) (need : ℤ)
    → pos 0 <ℤ gas_used
    → gen_tx_outputs env t gas_used ≡ ok (outs, need)
    → (fee : ℕ) × (set_string t.fee ≡ some (pos fee))
      × (gas_used ≤ℤ pos fee)
      × ((front : List TxOutput) × (outs ≡ front ++ fee_output env fee ∷ []))
unfolding gen_tx_outputs
gen_tx_outputs_covers_gas env t gas_used outs need h e =
    let (accs, found, paid) =
      and_then-eq-ok (pay_accounts env t gas_used) (pay_all ([], pos 0)) e in
    let (shape, le) = pay_accounts_gas env t gas_used accs h found in
    let (q, _, last) = and_then-eq-ok (pay_all ([], pos 0) (receivers t)) _ (
      sym (pay_all-append ([], pos 0) (receivers t) (new_fee_account env t.fee ∷ []))
      ∙ ap (pay_all ([], pos 0)) (sym shape)
      ∙ paid) in
    pay_fee env q t.fee gas_used outs need h le last
