-- ===== src/Client/Commands/Contract.antt =====
-- cmd/client/cmd/contract_deploy.go, contract_upgrade.go, contract_invoke.go and contract_query.go
use xuperchain.Prelude.{Bool, Option, List, [], ◌∷◌, if◌then◌else◌}
use xuperchain.Go.Text.{Text, lit, is_empty, text_eq}
use xuperchain.Exec.{Result, Effect, Io, ◌>>=◌, pure, lift, ask}
use xuperchain.Client.Trans.{CommTrans}
use xuperchain.Client.Keys.{read_address}
use xuperchain.Client.Commands.{
  CommandEnv, Cli, JsonArgs, zero_trans, cli_trans, entries, convert_to_xuper3_args,
  convert_to_xuper3_evm_args, query,
}

-- The flags of the commands on contracts, and the module that they are made for
pub record ContractFlags : Type 0 where
  pub module_name : Text
  pub account : Text
  pub contract_name : Text
  pub method_name : Text
  pub args : Text
  pub runtime : Text
  pub amount : Text
  pub fee : Text
  pub is_multi : Bool
  pub multi_addrs : Text
  pub output : Text
  pub abi_file : Text
  pub debug : Bool

-- The contract pays the amount to itself.
abbrev pay_contract : Text → CommTrans → CommTrans
pay_contract amount t =
    if is_empty amount then t else record t { to = t.contract_name; amount = amount }

module _ (c : CommandEnv) (cli : Cli) (f : ContractFlags) where
  abbrev is_evm : Bool
  is_evm = text_eq f.module_name (lit "evm")

  abbrev convert : Option JsonArgs → Result (List (Text × Text))
  convert args =
      if is_evm then convert_to_xuper3_evm_args c args else convert_to_xuper3_args (entries args)

  abbrev invoke_trans : Text → CommTrans
  invoke_trans code_name = pay_contract f.amount (record (cli_trans c cli) {
    amount = [];
    fee = f.fee;
    from = f.account;
    module_name = f.module_name;
    contract_name = code_name;
    method_name = f.method_name;
    multi_addrs = f.multi_addrs;
    is_quick = f.is_multi;
    output = f.output;
    debug_tx = f.debug;
    compliance_check = cli.compliance_check;
  })

  -- `invoke` of a contract, up to its end
  unfoldable pub fill_invoke : Text → Io CommTrans
  fill_invoke code_name = do
    args ← lift (c.unmarshal_args f.args)
    converted ← lift (convert args)
    pure (record (invoke_trans code_name) { args = converted })

  -- `query` of a contract
  unfoldable pub query_contract : Text → Io Text
  query_contract code_name = do
    args ← lift (c.unmarshal_args f.args)
    converted ← lift (convert args)
    query c (record zero_trans {
      module_name = f.module_name;
      contract_name = code_name;
      method_name = f.method_name;
      args = converted;
      is_quick = f.is_multi;
      keys = cli.keys;
      multi_addrs = f.multi_addrs;
      chain_name = cli.name;
    })

  unfoldable pub read_command_file : Text → Io Text
  read_command_file file = ask (Effect.read_file file) (λ h. c.env.read_file h file)

  abbrev kernel_trans : Text → CommTrans
  kernel_trans method = record (cli_trans c cli) {
    fee = f.fee;
    module_name = lit "xkernel";
    contract_name = lit "$contract";
    method_name = method;
    multi_addrs = f.multi_addrs;
    from = f.account;
    output = f.output;
    is_quick = f.is_multi;
    compliance_check = cli.compliance_check;
  }

  -- The file of the interface is read for the EVM only.
  abbrev read_abi : Io Text
  read_abi = if is_evm then read_command_file f.abi_file else pure []

  -- `deploy`, up to its end, with `prepareCodeDesc`
  unfoldable pub fill_deploy : Text → Io CommTrans
  fill_deploy codepath = do
    to ← read_address c.env cli.keys
    args ← lift (c.unmarshal_args f.args)
    abi ← read_abi
    converted ← lift (convert args)
    code_buf ← read_command_file codepath
    pure (record (kernel_trans (lit "deployContract")) {
      to = to;
      args =
          (lit "account_name", f.account)
          ∷ (lit "contract_name", f.contract_name)
          ∷ (lit "contract_code", code_buf)
          ∷ (lit "contract_desc", c.marshal_code_desc f.runtime f.module_name)
          ∷ (lit "init_args", c.marshal_args converted)
          ∷ (lit "contract_abi", abi)
          ∷ [];
    })

  -- `upgrade`, up to its end
  unfoldable pub fill_upgrade : Text → Io CommTrans
  fill_upgrade codepath = do
    to ← read_address c.env cli.keys
    code_buf ← read_command_file codepath
    pure (record (kernel_trans (lit "upgradeContract")) {
      to = to;
      args = (lit "contract_name", f.contract_name) ∷ (lit "contract_code", code_buf) ∷ [];
    })
