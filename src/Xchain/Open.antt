-- ===== src/Xchain/Open.antt =====
-- How the commands open a chain: `createEnvConfig` and `createHandle` of cmd/xchain/cmd/offlinequery.go,
-- and the same steps in cmd/xchain/cmd/pruneledger.go and cmd/xchain/cmd/createchains.go.
use xuperchain.Prelude.{Bool, true, false, not, ◌||◌, Option, none, some, if◌then◌else◌}
use xuperchain.Go.Text.{Text}
use xuperchain.Exec.{Failure, Message, Result, ok, err, and_then}

-- Files, and the constructors of xupercore
pub record HandleWorld : Type 0 where
  pub file_is_exist : Text → Bool
  pub load_env_conf : Text → Option Failure
  pub path_exists : Text → Bool
  pub new_ledger_ctx : Text → Option Failure
  pub open_ledger : Text → Option Failure
  pub create_crypto_client : Text → Option Failure
  pub new_state_ctx : Text → Option Failure
  pub new_state : Text → Option Failure
  pub create_ledger : Text → Text → Option Failure

abbrev pub check : Option Failure → Result (Unit {0})
check none = ok tt
check (some e) = err e

abbrev pub require : Bool → Failure → Result (Unit {0})
require true e = ok tt
require false e = err e

-- `return fmt.Errorf(…)` behind `err != nil`
abbrev pub replaced : Message → Option Failure → Result (Unit {0})
replaced m none = ok tt
replaced m (some e) = err (Failure.said m)

module _ (w : HandleWorld) where
  -- `createEnvConfig`, and `genEnvConfig` of the prune command
  unfoldable pub create_env_config : Text → Result (Unit {0})
  create_env_config path =
      and_then (require (w.file_is_exist path) (Failure.said Message.config_not_exist))
        (λ _. replaced Message.load_config_error (w.load_env_conf path))

  -- `createHandle`
  unfoldable pub create_handle : Text → Text → Result (Unit {0})
  create_handle name crypto = and_then (check (w.new_ledger_ctx name)) (λ _.
      and_then (require (w.path_exists name) (Failure.said Message.invalid_name)) (λ _.
        and_then (check (w.open_ledger name)) (λ _.
          and_then (check (w.create_crypto_client crypto))
            (λ _. and_then (check (w.new_state_ctx name)) (λ _. check (w.new_state name))))))

  -- `createChain`
  unfoldable pub create_chain : Text → Text → Text → Result (Unit {0})
  create_chain name genesis_conf env_conf =
      if not (w.file_is_exist genesis_conf) || not (w.file_is_exist env_conf)
      then err (Failure.said Message.config_not_exist)
      else and_then (replaced Message.load_config_error (w.load_env_conf env_conf))
          (λ _. replaced Message.create_ledger_error (w.create_ledger name genesis_conf))
