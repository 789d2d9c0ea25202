-- ===== src/Client/Commands/Run.antt =====
-- The commands that end in a transaction: what each one fills in, and its end.
use xuperchain.Prelude.{Bool, true, false, not, if◌then◌else◌}
use xuperchain.Go.Text.{Text, is_empty}
use xuperchain.Exec.{Message, Failure, Effect, Io, ◌>>=◌, ◌>>◌, pure, ask, or_fail}
use xuperchain.Client.Trans.{CommTrans}
use xuperchain.Client.Commands.{CommandEnv, Cli, submit}
use xuperchain.Client.Commands.Contract.{ContractFlags, fill_invoke, fill_deploy, fill_upgrade}
use xuperchain.Client.Commands.Govern.{
  fill_new_account, fill_propose, fill_vote_proposal, fill_thaw, fill_init_govern_token,
  fill_transfer_govern_token,
}
use xuperchain.Client.Commands.Consensus.{ConsensusFlags, fill_tdpos, fill_xpoa}

-- A command with its flags and its argument
pub data Command : Type 0 where
  invoke_contract deploy_contract upgrade_contract : ContractFlags → Text → Command
  -- the account, the file of the request, the fee, and whether to print only
  new_account : Text → Text → Text → Bool → Command
  propose : Text → Text → Command
  vote_proposal : Text → Text → Text → Command
  thaw_proposal : Text → Text → Command
  init_govern_token : Text → Command
  transfer_govern_token : Text → Text → Text → Command
  tdpos xpoa : ConsensusFlags → Command

module _ (c : CommandEnv) (cli : Cli) where
  abbrev pub fill : Command → Io CommTrans
  fill (invoke_contract f code_name) = fill_invoke c cli f code_name
  fill (deploy_contract f codepath) = fill_deploy c cli f codepath
  fill (upgrade_contract f codepath) = fill_upgrade c cli f codepath
  fill (new_account name descfile fee debug) = fill_new_account c cli name descfile fee debug
  fill (propose file fee) = fill_propose c cli file fee
  fill (vote_proposal id amount fee) = fill_vote_proposal c cli id amount fee
  fill (thaw_proposal id fee) = fill_thaw c cli id fee
  fill (init_govern_token fee) = fill_init_govern_token c cli fee
  fill (transfer_govern_token to amount fee) = fill_transfer_govern_token c cli to amount fee
  fill (tdpos f) = fill_tdpos c cli f
  fill (xpoa f) = fill_xpoa c cli f

  -- Whether the command writes a file for several to sign
  abbrev pub is_multisig : Command → Bool
  is_multisig (invoke_contract f _) = f.is_multi
  is_multisig (deploy_contract f _) = f.is_multi
  is_multisig (upgrade_contract f _) = f.is_multi
  is_multisig (tdpos f) = f.is_multi
  is_multisig (xpoa _) = true
  is_multisig _ = false

  unfoldable pub run_command : Command → Io Text
  run_command cmd = fill cmd >>= submit c (is_multisig cmd)

  -- `printRealAccountName` reads the file again when there is no name.
  unfoldable pub print_real_account_name : Text → Text → Io (Unit {0})
  print_real_account_name name descfile = if not (is_empty name) then pure tt else do
    desc ← ask (Effect.read_file descfile) (λ h. c.env.read_file h descfile)
    request ← or_fail (c.env.unmarshal_request desc) (Failure.said Message.unmarshal_error)
    pure tt

  -- `newAccount`
  unfoldable pub run_new_account : Text → Text → Text → Bool → Io Text
  unfolding run_command print_real_account_name
  run_new_account name descfile fee debug = do
    txid ← run_command (new_account name descfile fee debug)
    print_real_account_name name descfile
    pure txid
