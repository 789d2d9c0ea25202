-- ===== src/Server/Rpc.antt =====
-- service/rpc/api.go: what the handlers of the node's interface share. A handler runs with the list of
-- the calls that it has made on the chains so far; what the ledger answers may depend on them.
pub mod Leads
pub mod Submit
pub mod Select
pub mod Accounts
pub mod Blocks
pub mod ReadOnly
use xuperchain.Prelude.{
  Bool, Option, none, some, List, [], ◌∷◌, if◌then◌else◌, ℤ, ◌≡◌, refl, ap, sym,
}
use xuperchain.Go.Text.{Text}
use xuperchain.Pb.{Transaction, InvokeRequest, InvokeResponse, TransactionStatus, Utxo, UtxoOutput}
use xuperchain.Pb.Chain.{InternalBlock, BlockStatus, LedgerMeta, UtxoMeta}
use xuperchain.Pb.Query.{TokenFrozenDetail, ContractStatData}
use xuperchain.Server.Convert.{Wire, UtxoRecord}
use xuperchain.Server.Handle.{ChainEnv, StdError, Outcome, done, failed, new_chain_handle}

-- What a handler reads from a chain, by the method of the handle
pub data Read : Type 0 where
  query_tx block get_balance get_frozen_balance get_balance_detail is_trunk_tip_block : Text → Read
  account_acl account_contracts account_by_ak : Text → Read
  contract_method_acl : Text → Text → Read
  utxo_record : Text → ℤ → Read
  block_by_height : ℤ → Read
  chain_status consensus_status contract_stat_data : Read

-- A call on a chain; a transaction and a request are in the ledger's form, which is kept as bytes.
pub data Call : Type 0 where
  submit_tx send_message : Text → Text → Call
  pre_exec : Text → List Text → Text → List Text → Call
  select_utxo : Text → Text → ℤ → Bool → Call
  select_utxo_by_size : Text → Text → Bool → Call
  read : Text → Read → Call

abbrev pub Calls : Type 0
Calls = List Call

-- The ledger's `TxInfo`, `BlockInfo` and `ChainStatus`; its block has the fields of the message.
pub record TxInfo : Type 0 where
  pub tx : Option Text
  pub status : TransactionStatus
  pub distance : ℤ

pub record BlockInfo : Type 0 where
  pub block : Option InternalBlock
  pub status : BlockStatus

pub record ChainStatus : Type 0 where
  pub ledger_meta : Option LedgerMeta
  pub utxo_meta : Option UtxoMeta
  pub block : Option InternalBlock
  pub branch_ids : List Text

-- `UtxoRecordDetail` of the ledger: the open, the locked and the frozen records
pub record UtxoRecords : Type 0 where
  pub open_utxo : Option UtxoRecord
  pub locked_utxo : Option UtxoRecord
  pub frozen_utxo : Option UtxoRecord

-- `protos.PeerInfo`, of which the code reads these fields
pub record Peer : Type 0 where
  pub address : Text

pub record PeerInfo : Type 0 where
  pub address : Text
  pub peer : List Peer

pub record ConsensusInfo : Type 0 where
  pub consensus_name : Text
  pub version : Text
  pub start_height : Text
  pub validators_info : Text

-- The engine, the chains and the protobuf library
pub record RpcEnv : Type 0 where
  pub chain : Calls → Text → ChainEnv
  pub submit : Calls → Text → Text → Option StdError
  pub pre_exec : Calls → Text → List Text → Text → List Text → Outcome (Option Text)
  pub query_tx : Calls → Text → Text → Outcome TxInfo
  pub query_block : Calls → Text → Text → Outcome BlockInfo
  pub query_block_by_height : Calls → Text → ℤ → Outcome BlockInfo
  pub query_chain_status : Calls → Text → Outcome ChainStatus
  pub is_trunk_tip_block : Calls → Text → Text → Outcome Bool
  pub get_balance : Calls → Text → Text → Outcome Text
  pub get_frozen_balance : Calls → Text → Text → Outcome Text
  pub get_balance_detail : Calls → Text → Text → Outcome (Option (List (Option Text)))
  pub query_account_acl : Calls → Text → Text → Outcome (Option Text)
  pub query_method_acl : Calls → Text → Text → Text → Outcome (Option Text)
  pub get_account_contracts : Calls → Text → Text → Outcome (Option (List (Option Text)))
  pub get_account_by_ak : Calls → Text → Text → Outcome (Option (List Text))
  pub query_utxo_record : Calls → Text → Text → ℤ → Outcome UtxoRecords
  pub query_contract_stat_data : Calls → Text → Outcome ContractStatData
  pub query_consensus_status : Calls → Text → Outcome ConsensusInfo
  pub get_chains : Calls → List Text
  pub peer_info : Calls → PeerInfo
  -- the wire forms that service/common/convert.go goes through
  pub tx_wire : Wire Transaction Text
  pub ledger_tx_wire : Wire Text Transaction
  pub request_wire : Wire InvokeRequest Text
  pub response_wire : Wire Text InvokeResponse
  pub utxo_wire : Wire Utxo Utxo
  pub acl_wire : Wire Text Text
  pub contract_status_wire : Wire Text Text
  pub balance_detail_wire : Wire Text TokenFrozenDetail
  pub block_wire : Wire InternalBlock InternalBlock
  pub ledger_meta_wire : Wire LedgerMeta LedgerMeta
  pub utxo_meta_wire : Wire UtxoMeta UtxoMeta

-- The response and the error that a handler returns; the response is there beside an error too.
pub record Answer (A : Type 0) : Type 0 where
  pub response : A
  pub error : Option StdError

abbrev pub Rpc : Type 0 → Type 0
Rpc A = Calls → Outcome A × Calls

abbrev pub then_rpc : {A B : Type 0} → (A → Rpc B) → Outcome A → Rpc B
then_rpc f (done a) h = f a h
then_rpc f (failed e) h = (failed e, h)

unfoldable pub pure : {A : Type 0} → A → Rpc A
pure a h = (done a, h)

unfoldable pub fail : {A : Type 0} → StdError → Rpc A
fail e h = (failed e, h)

-- A step that calls no chain
unfoldable pub lift : {A : Type 0} → Outcome A → Rpc A
lift r h = (r, h)

-- A call on a chain
unfoldable pub call : {A : Type 0} → Call → (Calls → Outcome A) → Rpc A
call c f h = (f h, c ∷ h)

-- The calls so far, for a lookup that is no call
unfoldable pub get : Rpc Calls
get h = (done h, h)

-- Steps that always give a result
unfoldable pub run : {A : Type 0} → (Calls → A × Calls) → Rpc A
run s h = let (a, h') = s h in (done a, h')

infixl 5 ◌>>=◌ ◌>>◌
unfoldable pub ◌>>=◌ : {A B : Type 0} → Rpc A → (A → Rpc B) → Rpc B
unfolding pure fail lift call get run
◌>>=◌ m f h = let (r, h') = m h in then_rpc f r h'

abbrev pub ◌>>◌ : {A B : Type 0} → Rpc A → Rpc B → Rpc B
m >> k = m >>= λ _. k

-- `if … { return resp, ecom.ErrParameter }`
unfoldable pub param : Bool → Rpc (Unit {0})
unfolding pure fail
param b = if b then pure tt else fail StdError.err_parameter

abbrev pub or_fail : {A : Type 0} → Option A → StdError → Outcome A
or_fail none e = failed e
or_fail (some a) e = done a

-- A handler that leaves its response as it was made when it returns an error
abbrev pub answer : {A : Type 0} → A → Outcome A → Answer A
answer empty (done a) = record { response = a; error = none }
answer empty (failed e) = record { response = empty; error = some e }

unfoldable pub respond : {A : Type 0} → A → Rpc A → Calls → Answer A × Calls
respond empty m h = let (r, h') = m h in (answer empty r, h')

module _ (env : RpcEnv) where
  -- `models.NewChainHandle(name, rctx)`
  unfoldable pub handle : Text → Rpc Text
  handle name h = (new_chain_handle (env.chain h name) name, h)
