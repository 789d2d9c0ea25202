-- ===== src/Client/Commands/Checked.antt =====
-- Which commands ask the endorser before they post a transaction.
use xuperchain.Prelude.{Bool, true, false, ◌≡◌, refl, ◌∙◌, if◌then◌else◌, arith}
use xuperchain.Go.Text.{Text}
use xuperchain.Pb.{Transaction}
use xuperchain.Exec.{History, ok, >>=-eq-ok}
use mathlib.Core.Path.{subst}
use xuperchain.Client.Trans.{CommTrans}
use xuperchain.Client.RawTx.{send_tx}
use xuperchain.Client.RawTx.Post.{required, signed_by, IsPosted, send_tx-IsPosted}
use xuperchain.Client.Compliance.{transfer}
use xuperchain.Client.Commands.Endorsed.{IsEndorsed, transfer-IsEndorsed}
use xuperchain.Exec.Yields.{Yields, Yields-next, Yields-pure, Yields-ok}
use xuperchain.Client.Trans.{ComplianceCheck}
use xuperchain.Client.Split.{no_compliance}
use xuperchain.Client.Commands.{CommandEnv, Cli, submit}
use xuperchain.Client.Commands.Contract.{fill_invoke, fill_deploy, fill_upgrade}
use xuperchain.Client.Commands.Govern.{
  fill_new_account, fill_propose, fill_vote_proposal, fill_thaw, fill_init_govern_token,
  fill_transfer_govern_token,
}
use xuperchain.Client.Commands.Consensus.{fill_tdpos, fill_xpoa}
use xuperchain.Client.Commands.Run.{
  Command, invoke_contract, deploy_contract, upgrade_contract, new_account, propose, vote_proposal,
  thaw_proposal, init_govern_token, transfer_govern_token, tdpos, xpoa, fill, is_multisig,
  run_command,
}

-- The commands whose `CommTrans` carries the `RootOptions`
abbrev pub has_root_options : Command → Bool
has_root_options (vote_proposal _ _ _) = false
has_root_options (init_govern_token _) = false
has_root_options (tdpos _) = false
has_root_options (xpoa _) = false
has_root_options _ = true

-- Whether the command only prints its transaction
abbrev prints_only : Command → Bool
prints_only (invoke_contract f _) = f.debug
prints_only (new_account _ _ _ debug) = debug
prints_only _ = false

module _ (c : CommandEnv) (cli : Cli) where
  abbrev compliance_of : Command → ComplianceCheck
  compliance_of cmd = if has_root_options cmd then cli.compliance_check else no_compliance

  -- What a command fills in of the chain, of the compliance check and of the debug flag.
  abbrev IsFilled : Command → CommTrans → Type 0
  IsFilled cmd t =
      (t.compliance_check ≡ compliance_of cmd)
      × (t.chain_name ≡ cli.name)
      × (t.debug_tx ≡ prints_only cmd)

  fill-IsFilled : (cmd : Command) → Yields (IsFilled cmd) (fill c cli cmd)
  unfolding fill_invoke fill_deploy fill_upgrade fill_new_account fill_propose fill_vote_proposal
      fill_thaw fill_init_govern_token fill_transfer_govern_token fill_tdpos fill_xpoa
  fill-IsFilled (invoke_contract f code_name) =
      Yields-next _ _ λ a. Yields-next _ _ λ b. Yields-pure _ (ground arith)
  fill-IsFilled (deploy_contract f codepath) = Yields-next _ _ λ a. Yields-next _ _ λ b.
      Yields-next _ _
        λ d. Yields-next _ _ λ e. Yields-next _ _ λ g. Yields-pure _ (refl, refl, refl)
  fill-IsFilled (upgrade_contract f codepath) =
      Yields-next _ _ λ a. Yields-next _ _ λ b. Yields-pure _ (refl, refl, refl)
  fill-IsFilled (new_account name descfile fee debug) =
      Yields-next _ _ λ a. Yields-next _ _ λ b. Yields-pure _ (ground arith)
  fill-IsFilled (propose file fee) =
      Yields-next _ _
        λ a. Yields-next _ _ λ b. Yields-next _ _ λ d. Yields-pure _ (refl, refl, refl)
  fill-IsFilled (vote_proposal id amount fee) =
      Yields-next _ _ λ a. Yields-next _ _ λ b. Yields-pure _ (refl, refl, refl)
  fill-IsFilled (thaw_proposal id fee) =
      Yields-next _ _ λ a. Yields-next _ _ λ b. Yields-pure _ (refl, refl, refl)
  fill-IsFilled (init_govern_token fee) = Yields-next _ _ λ a. Yields-pure _ (refl, refl, refl)
  fill-IsFilled (transfer_govern_token to amount fee) =
      Yields-next _ _ λ a. Yields-pure _ (ground arith)
  fill-IsFilled (tdpos f) = Yields-next _ _ λ a. Yields-next _ _ λ b.
      Yields-next _ _
        λ d. Yields-next _ _ λ e. Yields-next _ _ λ g. Yields-pure _ (refl, refl, refl)
  fill-IsFilled (xpoa f) = Yields-next _ _ λ a. Yields-next _ _ λ b. Yields-next _ _ λ d.
      Yields-next _ _ λ e. Yields-next _ _ λ g. Yields-next _ _ λ i. Yields-next _ _ λ j.
        Yields-next _ _
          λ k. Yields-next _ _ λ l. Yields-next _ _ λ m. Yields-pure _ (refl, refl, refl)

  alone :
      (b : Bool) (t : CommTrans) (k : History) {txid : Text} {h' : History}
      → b ≡ false
      → submit c b t k ≡ (ok txid, h')
      → transfer c.env t k ≡ (ok txid, h')
  unfolding submit
  alone false t k one e = e
  alone true t k one e = absurd (cc one)

  submitted :
      (cmd : Command) (h : History) {txid : Text} {h' : History}
      → is_multisig c cli cmd ≡ false
      → run_command c cli cmd h ≡ (ok txid, h')
      → (t : CommTrans) × (k : History) × IsFilled cmd t × (transfer c.env t k ≡ (ok txid, h'))
  unfolding run_command
  submitted cmd h one e =
      let (t, k, e1, f1) = >>=-eq-ok _ _ h e in
      (t, k, Yields-ok _ h (fill-IsFilled cmd) e1, alone (is_multisig c cli cmd) t k one f1)

  checked :
      (b : Bool) {x : ComplianceCheck}
      → x ≡ (if b then cli.compliance_check else no_compliance)
      → b ≡ true
      → cli.compliance_check.is_need_compliance_check ≡ true
      → x.is_need_compliance_check ≡ true
  checked true e r needed = rw e needed
  checked false e r needed = absurd (cc r)

  -- If the configuration asks for a compliance check, a command that carries the `RootOptions`, is not
  -- for several signers and returns an id has asked the endorser about its transaction, and has posted
  -- that transaction with the signature of the answer, as its last calls.
  pub run_command-IsEndorsed :
      (cmd : Command) (h : History) {txid : Text} {h' : History}
      → cli.compliance_check.is_need_compliance_check ≡ true
      → has_root_options cmd ≡ true
      → is_multisig c cli cmd ≡ false
      → run_command c cli cmd h ≡ (ok txid, h')
      → IsEndorsed c.env cli.name h'
  run_command-IsEndorsed cmd h {h'} needed rooted one e =
      let (t, k, filled, f) = submitted cmd h one e in
      subst (λ name. IsEndorsed c.env name h') filled.1
        (transfer-IsEndorsed c.env t k (checked (has_root_options cmd) filled.0 rooted needed) f)

  unchecked :
      (b : Bool) {x : ComplianceCheck}
      → x ≡ (if b then cli.compliance_check else no_compliance)
      → b ≡ false
      → x.is_need_compliance_check ≡ false
  unchecked true e r = absurd (cc r)
  unchecked false e r = rw e refl

  unrooted_posts : (cmd : Command) → has_root_options cmd ≡ false → prints_only cmd ≡ false
  unrooted_posts cmd h = ground arith

  sent :
      (t : CommTrans) (k : History) {txid : Text} {h' : History}
      → t.compliance_check.is_need_compliance_check ≡ false
      → t.debug_tx ≡ false
      → transfer c.env t k ≡ (ok txid, h')
      → (tx : Transaction) × (l : History) × (send_tx c.env t tx l ≡ (ok txid, h'))
  unfolding transfer
  sent t k free posts e =
      let (tx, l, e1, f1) = >>=-eq-ok _ _ k (simp (free, posts) at e) in (tx, l, f1)

  -- A vote on a proposal, the initialisation of the governance token, and a call of the tdpos or xpos
  -- consensus do not carry the `RootOptions`: when one of them returns an id, it has posted a transaction
  -- with the initiator's signatures and no other, whatever compliance check the configuration asks for.
  pub run_command_is_unchecked :
      (cmd : Command) (h : History) {txid : Text} {h' : History}
      → has_root_options cmd ≡ false
      → is_multisig c cli cmd ≡ false
      → run_command c cli cmd h ≡ (ok txid, h')
      → (tx : Transaction) × (tx.auth_require_signs ≡ tx.initiator_signs)
        × IsPosted c.env cli.name tx h'
  run_command_is_unchecked cmd h {txid} {h'} bare one e =
      let (t, k, filled, f) = submitted cmd h one e in
      let free = unchecked (has_root_options cmd) filled.0 bare in
      let posts = filled.2 ∙ unrooted_posts cmd bare in
      let (tx, l, g) = sent t k free posts f in
      let (from_addr, signs, k1, k2, a, p, q, posted) = send_tx-IsPosted c.env t tx l h' txid g in
      let tx' : Transaction = record (signed_by signs (required t from_addr tx)) { txid = txid } in
      (tx', refl, subst (λ name. IsPosted c.env name tx' h') filled.1 posted)
