-- ===== src/Client/Compliance/Sums.antt =====
-- What the outputs of `GenerateMultiTxOutputs` are worth: a sign is dropped, and nothing else.
use xuperchain.Prelude.{
  true, false, none, some, List, [], ◌∷◌, ◌++◌, ◌≡◌, refl, ◌⊎◌, inl, inr, ℕ, ◌+◌, ℤ, pos, negsuc,
  ◌+ℤ◌, ◌-ℤ◌, ◌≤ℤ◌, abs, arith, Bool-cases, Option-cases, ap, sym, ◌∙◌,
}
use mathlib.Core.Path.{subst}
use xuperchain.Go.Text.{Text, lit, is_empty, text_eq, text_eq→eq}
use xuperchain.Go.Decimal.{set_string, print_int, digits}
use xuperchain.Go.Decimal.RoundTrip.{set_string-print_int}
use xuperchain.Go.Big.{set_bytes-bytes}
use xuperchain.Pb.{TxOutput, Utxo}
use xuperchain.Exec.{ok, and_then-eq-ok}
use xuperchain.Client.Trans.{CommTrans, zero_text}
use xuperchain.Client.Value.{output_sum, utxo_sum, output_sum-append}
use xuperchain.Client.Inputs.{plain_output}
use xuperchain.Client.Outputs.{has_fee}
use xuperchain.Client.Compliance.{
  total_selected, real_need, self_outputs, fee_outputs, contract_outputs, multi_outputs,
}

pub total_selected-utxo_sum : (us : List Utxo) → total_selected us ≡ pos (utxo_sum us)
unfolding total_selected ◌+ℤ◌
total_selected-utxo_sum [] = refl
total_selected-utxo_sum (u ∷ us) = rw (total_selected-utxo_sum us) (ground arith)

no_fee : (fee : Text) → has_fee fee ≡ false → (fee ≡ []) ⊎ (fee ≡ zero_text)
no_fee [] h = inl refl
no_fee (c ∷ cs) h = elim (Bool-cases (text_eq (c ∷ cs) zero_text)) [
  | inl same ↦ inr (text_eq→eq (c ∷ cs) zero_text same)
  | inr other ↦ absurd (cc (other, h))
]

set_string-empty : set_string [] ≡ none
unfolding set_string digits
set_string-empty = refl

set_string-zero : set_string zero_text ≡ some (pos 0)
unfolding set_string digits
set_string-zero = refl

one_output_sum :
    (addr : Text) (z : ℤ) (outs : List TxOutput)
    → ok (plain_output addr z ∷ []) ≡ ok outs
    → output_sum outs ≡ abs z
one_output_sum addr z outs e =
    let made : plain_output addr z ∷ [] ≡ outs = cc e in
    rw (sym made, set_bytes-bytes z) (omega arith)

self_outputs_found :
    (addr text : Text) (z : ℤ)
    → set_string text ≡ some z
    → self_outputs addr text ≡ ok (plain_output addr z ∷ [])
unfolding self_outputs
self_outputs_found addr text z p = rw (p, self_outputs)

self_outputs_sum :
    (addr : Text) (z : ℤ) (outs : List TxOutput)
    → self_outputs addr (print_int z) ≡ ok outs
    → output_sum outs ≡ abs z
self_outputs_sum addr z outs e =
    one_output_sum addr z outs
      (sym (self_outputs_found addr (print_int z) z (set_string-print_int z)) ∙ e)

-- The outputs of a fee, by the fee
fee_outputs_none : (fee : Text) → has_fee fee ≡ false → fee_outputs fee ≡ ok []
unfolding fee_outputs
fee_outputs_none fee h = rw (h, fee_outputs)

fee_outputs_due :
    (fee : Text) (n : ℕ)
    → has_fee fee ≡ true
    → set_string fee ≡ some (pos n)
    → fee_outputs fee ≡ ok (plain_output (lit "$") (pos n) ∷ [])
unfolding fee_outputs
fee_outputs_due fee n h p = rw (h, p, fee_outputs)

fee_outputs_negative :
    (fee : Text) (n : ℕ) (outs : List TxOutput)
    → has_fee fee ≡ true
    → set_string fee ≡ some (negsuc n)
    → fee_outputs fee ≡ ok outs
    → ⊥
unfolding fee_outputs
fee_outputs_negative fee n outs h p e = ground arith

no_fee-zero : (fee : Text) (z : ℤ) → has_fee fee ≡ false → set_string fee ≡ some z → z ≡ pos 0
no_fee-zero fee z h p = elim (no_fee fee h) [
  | inl e ↦ absurd (cc (p, ap set_string e, set_string-empty))
  | inr e ↦ cc (p, ap set_string e, set_string-zero)
]

fee_outputs_sum :
    (fee : Text) (z : ℤ) (outs : List TxOutput)
    → set_string fee ≡ some z
    → fee_outputs fee ≡ ok outs
    → z ≡ pos (output_sum outs)
fee_outputs_sum fee z outs p e = elim (Bool-cases (has_fee fee)) [
  | inl due ↦ due_sum z due p
  | inr free ↦
      let made : [] ≡ outs = cc (fee_outputs_none fee free, e) in
      rw (sym made) (no_fee-zero fee z free p)
]
  where
    due_sum : (z : ℤ) → has_fee fee ≡ true → set_string fee ≡ some z → z ≡ pos (output_sum outs)
    due_sum (pos n) due p =
        ap pos (sym (one_output_sum (lit "$") (pos n) outs (sym (fee_outputs_due fee n due p) ∙ e)))
    due_sum (negsuc n) due p = absurd (fee_outputs_negative fee n outs due p e)

-- An amount that is given must be a number that is not negative.
abbrev pub IsPayable : Text → Type 0
IsPayable amount = is_empty amount ≡ false → (n : ℕ) × (set_string amount ≡ some (pos n))

contract_outputs_none :
    (name amount : Text) → is_empty amount ≡ true → contract_outputs name amount ≡ ok []
unfolding contract_outputs
contract_outputs_none name amount h = rw (h, contract_outputs)

contract_outputs_due :
    (name amount : Text) (n : ℕ)
    → is_empty amount ≡ false
    → set_string amount ≡ some (pos n)
    → contract_outputs name amount ≡ ok (plain_output name (pos n) ∷ [])
unfolding contract_outputs
contract_outputs_due name amount n h p = rw (h, p, contract_outputs)

-- What a transfer needs, from its fee and its amount
real_need_fee :
    (t : CommTrans) (fee : ℤ)
    → is_empty t.amount ≡ true
    → set_string t.fee ≡ some fee
    → real_need t ≡ ok fee
unfolding real_need
real_need_fee t fee h p = rw (p, real_need) (rw h refl)

real_need_both :
    (t : CommTrans) (fee amount : ℤ)
    → is_empty t.amount ≡ false
    → set_string t.fee ≡ some fee
    → set_string t.amount ≡ some amount
    → real_need t ≡ ok (fee +ℤ amount)
unfolding real_need
real_need_both t fee amount h p q = rw (p, real_need) (rw (h, q, real_need) refl)

real_need_no_fee : (t : CommTrans) (z : ℤ) → set_string t.fee ≡ none → real_need t ≡ ok z → ⊥
unfolding real_need
real_need_no_fee t z p e = ground arith

plus : (fee : ℤ) (a b c : ℕ) → fee ≡ pos b → c ≡ a → fee +ℤ pos a ≡ pos (b + c)
unfolding ◌+ℤ◌
plus fee a b c p q = rw (p, q) (ground arith)

change_sum : (total n : ℕ) → pos n ≤ℤ pos total → abs (pos total -ℤ pos n) + n ≡ total
unfolding ◌-ℤ◌
change_sum total n le = ground arith

-- The fee and the amount together, with the outputs of both
need_sum :
    (t : CommTrans) (need : ℤ) (fees paid : List TxOutput)
    → IsPayable t.amount
    → real_need t ≡ ok need
    → fee_outputs t.fee ≡ ok fees
    → contract_outputs t.contract_name t.amount ≡ ok paid
    → need ≡ pos (output_sum fees + output_sum paid)
need_sum t need fees paid payable n f c = elim (Option-cases (set_string t.fee)) [
  | inl missing ↦ absurd (real_need_no_fee t need missing n)
  | inr (fee, found) ↦
      let is_fee = fee_outputs_sum t.fee fee fees found f in
      elim (Bool-cases (is_empty t.amount)) [
        | inl free ↦
            let made : [] ≡ paid = cc (contract_outputs_none t.contract_name t.amount free, c) in
            let same : need ≡ fee = cc (real_need_fee t fee free found, n) in
            rw (sym made) (same ∙ is_fee ∙ ap pos (omega arith))
        | inr due ↦
            let (a, given) = payable due in
            let worth =
              one_output_sum t.contract_name (pos a) paid
                (sym (contract_outputs_due t.contract_name t.amount a due given) ∙ c) in
            let same : need ≡ fee +ℤ pos a = cc (real_need_both t fee (pos a) due found given, n) in
            same ∙ plus fee a (output_sum fees) (output_sum paid) is_fee worth
      ]
]

-- With the change as the amount to itself, the outputs are worth what was selected.
pub multi_outputs-output_sum :
    (t : CommTrans) (addr : Text) (total : ℕ) (need : ℤ) (outs : List TxOutput)
    → IsPayable t.amount
    → real_need t ≡ ok need
    → need ≤ℤ pos total
    → multi_outputs t addr (print_int (pos total -ℤ need)) t.fee ≡ ok outs
    → output_sum outs ≡ total
unfolding multi_outputs
multi_outputs-output_sum t addr total need outs payable n le e =
    let (self, e1, f1) = and_then-eq-ok (self_outputs addr (print_int (pos total -ℤ need))) _ e in
    let (fees, e2, f2) = and_then-eq-ok (fee_outputs t.fee) _ f1 in
    let (paid, e3, f3) = and_then-eq-ok (contract_outputs t.contract_name t.amount) _ f2 in
    let worth = self_outputs_sum addr (pos total -ℤ need) self e1 in
    let needed = need_sum t need fees paid payable n e2 e3 in
    let made : self ++ (fees ++ paid) ≡ outs = cc f3 in
    rw (sym made, output_sum-append self (fees ++ paid), output_sum-append fees paid, worth, needed)
      (change_sum total (output_sum fees + output_sum paid) (subst (λ z. z ≤ℤ pos total) needed le))
