-- ===== src/Client/Split/Shares.antt =====
-- The outputs of a split: as many as asked for, equal but for the last, and worth the whole balance.
use xuperchain.Prelude.{
  ℕ, zero, suc, ◌+◌, ◌-◌, ◌*◌, ◌/◌, ◌≤◌, ◌<◌, ◌≡◌, List, [], ◌∷◌, ◌++◌, ℤ, pos, negsuc, arith, refl,
  replicate, length, length-append, length-replicate,
}
use xuperchain.Go.Text.{Text}
use xuperchain.Go.Big.{set_bytes-bytes}
use xuperchain.Pb.{TxOutput}
use xuperchain.Exec.{ok}
use xuperchain.Client.Value.{output_sum, output_sum-append}
use xuperchain.Client.Inputs.{plain_output}
use xuperchain.Client.Split.{split_loop, gen_split_outputs}

-- While more than a share is left the loop takes a share each round.
split_loop_lem :
    (account : Text) (share left rest : ℕ)
    → 0 < share
    → left * share + share ≤ rest
    → split_loop account (pos share) left rest
      ≡ (replicate left (plain_output account (pos share)), rest - left * share)
unfolding split_loop
split_loop_lem account share zero rest h le = ground arith
split_loop_lem account share (suc left) rest h le =
    rw (split_loop_lem account share left (rest - share) h (ground arith)) (ground arith)

shares_fit : (total num : ℕ) → 0 < num → (num - 1) * (total / num) + total / num ≤ total
shares_fit total zero h = elim h [ ]
shares_fit total (suc k) h = grind arith

share_pos : (total num : ℕ) → 0 < num → num ≤ total → 0 < total / num
share_pos total num h le = grind arith

-- A balance of at least as many tokens as shares, one share or more, is cut into that many outputs to
-- the account: each
-- but the last gets the quotient, rounded down, and the last gets what is left.
pub gen_split_outputs_lem :
    (account : Text) (num total : ℕ)
    → 0 < num
    → num ≤ total
    → gen_split_outputs account num (pos total)
      ≡ ok (
          replicate (num - 1) (plain_output account (pos (total / num)))
          ++ plain_output account (pos (total - (num - 1) * (total / num))) ∷ [])
unfolding gen_split_outputs
gen_split_outputs_lem account num total h le =
    rw
      (split_loop_lem account (total / num) (num - 1) total (share_pos total num h le)
        (shares_fit total num h))
      (ground arith)

output_sum-replicate :
    (account : Text) (share n : ℕ)
    → output_sum (replicate n (plain_output account (pos share))) ≡ n * share
output_sum-replicate account share zero = omega arith
output_sum-replicate account share (suc n) =
    rw (output_sum-replicate account share n, set_bytes-bytes (pos share)) (omega arith)

shares_sum :
    (account : Text) (share n last : ℕ)
    → output_sum
        (replicate n (plain_output account (pos share)) ++ plain_output account (pos last) ∷ [])
      ≡ n * share + last
shares_sum account share n last =
    rw
      (
        output_sum-append (replicate n (plain_output account (pos share)))
            (plain_output account (pos last) ∷ []),
        output_sum-replicate account share n,
        set_bytes-bytes (pos last),
      )
      (omega arith)

shares_count :
    (account : Text) (share n last : ℕ)
    → length
        (replicate n (plain_output account (pos share)) ++ plain_output account (pos last) ∷ [])
      ≡ n + 1
shares_count account share n last =
    rw
      (
        length-append (replicate n (plain_output account (pos share)))
            (plain_output account (pos last) ∷ []),
        length-replicate n (plain_output account (pos share)),
      )
      refl

too_many_shares :
    (account : Text) (num total : ℕ) (outs : List TxOutput)
    → gen_split_outputs account num (pos total) ≡ ok outs
    → num ≤ total
unfolding gen_split_outputs
too_many_shares account num total outs e = ground arith

negative_balance :
    (account : Text) (num n : ℕ) (outs : List TxOutput)
    → gen_split_outputs account num (negsuc n) ≡ ok outs
    → ⊥
unfolding gen_split_outputs
negative_balance account num n outs e = cc

-- Whatever the balance, a split that succeeds, into one output or more, has the number of outputs that
-- was asked for, and they are worth the whole balance.
pub gen_split_outputs_conserves :
    (account : Text) (num : ℕ) (need : ℤ) (outs : List TxOutput)
    → 0 < num
    → gen_split_outputs account num need ≡ ok outs
    → (need ≡ pos (output_sum outs)) × (length outs ≡ num)
gen_split_outputs_conserves account num (pos total) outs h e =
    let le = too_many_shares account num total outs e in
    let made : outs
        ≡ replicate (num - 1) (plain_output account (pos (total / num)))
          ++ plain_output account (pos (total - (num - 1) * (total / num))) ∷ [] =
      cc (gen_split_outputs_lem account num total h le) in
    rw
      (
        made,
        shares_sum account (total / num) (num - 1) (total - (num - 1) * (total / num)),
        shares_count account (total / num) (num - 1) (total - (num - 1) * (total / num)),
      )
      (ground (arith, shares_fit total num h))
gen_split_outputs_conserves account num (negsuc n) outs h e =
    absurd (negative_balance account num n outs e)
