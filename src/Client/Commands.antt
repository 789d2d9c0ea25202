-- ===== src/Client/Commands.antt =====
-- The commands of the client that fill in a `CommTrans` and hand it on: contracts, accounts, proposals,
-- the governance token and the consensus.
pub mod Contract
pub mod Govern
pub mod Consensus
pub mod Run
pub mod Endorsed
pub mod Checked
use xuperchain.Prelude.{Bool, false, Option, none, some, List, [], ◌∷◌, ℤ, pos, if◌then◌else◌}
use xuperchain.Go.Text.{Text, lit}
use xuperchain.Pb.Chain.{SystemsStatus}
use xuperchain.Exec.{Failure, Message, Result, ok, err, History, Io, ◌>>=◌, pure, and_then}
use xuperchain.Client.Env.{Env}
use xuperchain.Client.Trans.{ComplianceCheck, CommTrans}
use xuperchain.Client.Split.{no_compliance}
use xuperchain.Client.Requests.{gen_pre_exe_res}
use xuperchain.Client.RawTx.{generate_multisig_gen_raw_tx}
use xuperchain.Client.Compliance.{transfer}

-- `RootOptions`, as far as the commands use it
pub record Cli : Type 0 where
  pub name : Text
  pub keys : Text
  pub crypto : Text
  pub compliance_check : ComplianceCheck

-- A JSON object: its values, `none` where one is no string. `Option` round it is for the JSON null,
-- which makes a nil map.
abbrev pub JsonArgs : Type 0
JsonArgs = List (Text × Option Text)

-- `pb.Acl`: the permission model, with its value printed and its rule, and the weights of the keys
pub record Acl : Type 0 where
  pub pm : Option (Text × Text)
  pub aks_weight : List (Text × Text)

-- What the commands call beyond what a transfer does.
pub record CommandEnv : Type 0 where
  pub env : Env
  -- encoding/json and protobuf
  pub unmarshal_args : Text → Result (Option JsonArgs)
  pub marshal_evm_args : Option JsonArgs → Result Text
  pub marshal_args : List (Text × Text) → Text
  pub marshal_code_desc : Text → Text → Text
  pub unmarshal_stop_height : Text → Result Text
  pub marshal_weights : List (Text × Text) → Result Text
  -- the gRPC stub XchainClient
  pub get_system_status : History → Result (Option SystemsStatus)
  pub query_acl : History → Text → Text → Result (Option Acl)

-- A `CommTrans` as its literal leaves it when nothing is given
abbrev pub zero_trans : CommTrans
zero_trans = record {
  to = [];
  amount = [];
  descfile = [];
  fee = [];
  frozen_height = pos 0;
  version = pos 0;
  from = [];
  module_name = [];
  contract_name = [];
  method_name = [];
  args = [];
  multi_addrs = [];
  output = [];
  is_quick = false;
  is_print = false;
  chain_name = [];
  keys = [];
  crypto_type = [];
  compliance_check = no_compliance;
  debug_tx = false;
}

-- What every literal takes from the command line tool, without its `RootOptions`
abbrev pub cli_trans : CommandEnv → Cli → CommTrans
cli_trans c cli = record zero_trans {
  amount = lit "0";
  version = c.env.tx_version;
  chain_name = cli.name;
  keys = cli.keys;
  crypto_type = cli.crypto;
}

-- `convertToXuper3Args`
unfoldable pub convert_to_xuper3_args : JsonArgs → Result (List (Text × Text))
convert_to_xuper3_args [] = ok []
convert_to_xuper3_args ((k, none) ∷ args) = err (Failure.said Message.bad_argument)
convert_to_xuper3_args ((k, some v) ∷ args) =
    and_then (convert_to_xuper3_args args) (λ rest. ok ((k, v) ∷ rest))

-- A nil map has no keys.
abbrev pub entries : Option JsonArgs → JsonArgs
entries none = []
entries (some args) = args

module _ (c : CommandEnv) where
  -- `convertToXuper3EvmArgs`
  unfoldable pub convert_to_xuper3_evm_args : Option JsonArgs → Result (List (Text × Text))
  convert_to_xuper3_evm_args args =
      and_then (c.marshal_evm_args args)
        (λ input. ok ((lit "input", input) ∷ (lit "jsonEncoded", lit "true") ∷ []))

  -- The end of most commands: a file to be signed by several, or a transfer
  unfoldable pub submit : Bool → CommTrans → Io Text
  submit is_multi t =
      if is_multi then generate_multisig_gen_raw_tx c.env t >>= (λ _. pure []) else transfer c.env t

  -- The end of a query, without what is printed
  unfoldable pub query : CommTrans → Io Text
  query t = gen_pre_exe_res c.env t >>= (λ _. pure [])
