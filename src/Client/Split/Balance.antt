-- ===== src/Client/Split/Balance.antt =====
-- A split spends what it pays: the shares, and the change of the selection.
use xuperchain.Prelude.{ℕ, ◌<◌, ◌≡◌, List, ◌++◌, ℤ, pos, negsuc, Option, arith}
use xuperchain.Go.Text.{Text}
use xuperchain.Pb.{TxInput, TxOutput, Transaction}
use xuperchain.Exec.{History, ok}
use xuperchain.Exec.Yields.{
  Yields, Yields-pure, Yields-any, Yields-lift, Yields-bind, Yields-next, Yields-ok,
}
use xuperchain.Client.Env.{Env}
use xuperchain.Client.Trans.{CommTrans}
use xuperchain.Client.Value.{output_sum, input_sum, IsBalanced, output_sum-append}
use xuperchain.Client.Inputs.{one_or_none, gen_tx_inputs}
use xuperchain.Client.Inputs.Change.{SelectsEnough, Covers, gen_tx_inputs-Covers}
use xuperchain.Client.RawTx.Balance.{with_contract-IsBalanced}
use xuperchain.Client.Split.{SplitUtxoCommand, fill_split, split_tx}
use xuperchain.Client.Split.Shares.{gen_split_outputs_conserves}

-- The same for a need of any sign; a negative one is never covered, since the shares then fail.
abbrev CoversNeed : ℤ → List TxInput × Option TxOutput → Type 0
CoversNeed (pos need) spent = Covers need spent
CoversNeed (negsuc n) spent = Unit

gen_tx_inputs-CoversNeed :
    (env : Env) (t : CommTrans) (need : ℤ)
    → SelectsEnough env
    → Yields (CoversNeed need) (gen_tx_inputs env t need)
gen_tx_inputs-CoversNeed env t (pos need) s = gen_tx_inputs-Covers env t need s
gen_tx_inputs-CoversNeed env t (negsuc n) s = Yields-any (gen_tx_inputs env t (negsuc n))

split_balance :
    (need : ℤ) (outs : List TxOutput) (spent : List TxInput × Option TxOutput)
    → CoversNeed need spent
    → need ≡ pos (output_sum outs)
    → input_sum spent.0 ≡ output_sum (outs ++ one_or_none spent.1)
split_balance (pos need) outs spent c e =
    ground (arith, output_sum-append outs (one_or_none spent.1))
split_balance (negsuc n) outs spent c e = cc

abbrev IsSplit : CommTrans × Transaction → Type 0
IsSplit (_, tx) = IsBalanced tx

fill_split-IsSplit :
    (env : Env) (c : SplitUtxoCommand) (num : ℕ) (initiator account : Text) (ct : CommTrans)
    (need : ℤ) (tx : Transaction)
    → SelectsEnough env
    → 0 < num
    → Yields IsSplit (fill_split env c num initiator account (ct, need) tx)
unfolding fill_split
fill_split-IsSplit env c num initiator account ct need tx s h =
    Yields-bind {Q = CoversNeed need} _ _ (gen_tx_inputs-CoversNeed env ct need s) λ spent covers.
      Yields-bind {Q = λ outs. need ≡ pos (output_sum outs)} _ _
        (Yields-lift _ (λ outs e. (gen_split_outputs_conserves account num need outs h e).0))
        λ outs sum. Yields-next _ _ λ auth. Yields-next _ _ λ res.
          Yields-pure _
            (with_contract-IsBalanced res _ _ (split_balance need outs spent covers sum))

-- If the node selects at least what it is asked for, the transaction of a split into one output or
-- more pays exactly what it spends.
pub split_tx-IsBalanced :
    (env : Env) (c : SplitUtxoCommand) (num : ℕ) (initiator account : Text) (h h' : History)
    (ct : CommTrans) (tx : Transaction)
    → SelectsEnough env
    → 0 < num
    → split_tx env c num initiator account h ≡ (ok (ct, tx), h')
    → input_sum tx.tx_inputs ≡ output_sum tx.tx_outputs
unfolding split_tx
split_tx-IsBalanced env c num initiator account h h' ct tx s pos_num e =
    Yields-ok {P = IsSplit} _ h
      (Yields-next _ _ λ nonce. Yields-next _ _ λ timestamp.
        Yields-next _ _
          λ base. fill_split-IsSplit env c num initiator account base.0 base.1 _ s pos_num)
      e
