-- ===== src/Server/Rpc/Blocks.antt =====
-- The handlers of service/rpc/api.go that read transactions and blocks.
pub mod Chains
pub mod Consensus
pub mod Status
pub mod Found
use xuperchain.Prelude.{
  Bool, true, false, not, ◌&&◌, ◌||◌, Option, none, some, List, [], ◌∷◌, if◌then◌else◌, ℤ, pos, map,
}
use xuperchain.Go.Text.{Text, is_empty}
use xuperchain.Pb.{Transaction, TransactionStatus, TxStatus}
use xuperchain.Pb.Chain.{
  InternalBlock, BlockStatus, Block, LedgerMeta, UtxoMeta, BcStatus, SystemsStatus,
  SystemsStatusReply,
}
use xuperchain.Pb.Query.{
  BlockId, BlockHeight, BcTipStatus, ConsensusStatus, ViewOption, CommonIn, BlockChains, RawUrl,
}
use xuperchain.Server.Convert.Messages.{
  tx_to_xchain, block_to_xchain, ledger_meta_to_xchain, utxo_meta_to_xchain,
}
use xuperchain.Server.Handle.{StdError, Outcome, done, failed, new_chain_handle}
use xuperchain.Server.Rpc.{
  Read, Call, Calls, Peer, PeerInfo, ChainStatus, RpcEnv, Answer, Rpc, ◌>>=◌, ◌>>◌, pure, fail,
  lift, call, run, get, param, or_fail, respond, handle,
}

abbrev pub empty_tx_status : TxStatus
empty_tx_status = record {
  header = none;
  bcname = [];
  txid = [];
  status = TransactionStatus.undefine;
  distance = pos 0;
  tx = none;
}

abbrev pub empty_block : Block
empty_block = record {
  header = none;
  bcname = [];
  blockid = [];
  status = BlockStatus.error;
  block = none;
}

-- Any error becomes `ErrInternal`, or `ErrForbidden`.
abbrev pub as_error : {A : Type 0} → StdError → Outcome A → Outcome A
as_error e (done a) = done a
as_error e (failed x) = failed e

abbrev pub blockid_of : Option InternalBlock → Text
blockid_of none = []
blockid_of (some block) = block.blockid

module _ (env : RpcEnv) where
  unfoldable pub query_tx_steps : Option TxStatus → Rpc TxStatus
  query_tx_steps req = do
    request ← lift (or_fail req StdError.err_parameter)
    param (not (is_empty request.bcname) && not (is_empty request.txid))
    calls ← get
    lift (
        as_error StdError.err_internal
          (new_chain_handle (env.chain calls request.bcname) request.bcname))
    info ←
        call (Call.read request.bcname (Read.query_tx request.txid))
          (λ h. env.query_tx h request.bcname request.txid)
    tx ← lift (or_fail (tx_to_xchain env.ledger_tx_wire info.tx) StdError.err_internal)
    pure (record {
      header = none;
      bcname = request.bcname;
      txid = request.txid;
      status = info.status;
      distance = info.distance;
      tx = some tx;
    })

  -- `QueryTx`
  unfoldable pub query_tx : Option TxStatus → Calls → Answer TxStatus × Calls
  query_tx req = respond empty_tx_status (query_tx_steps req)

  unfoldable pub get_block_steps : Option BlockId → Rpc Block
  get_block_steps req = do
    request ← lift (or_fail req StdError.err_parameter)
    param (not (is_empty request.bcname) && not (is_empty request.blockid))
    handle env request.bcname
    info ←
        call (Call.read request.bcname (Read.block request.blockid))
          (λ h. env.query_block h request.bcname request.blockid)
    block ← lift (or_fail (block_to_xchain env.block_wire info.block) StdError.err_internal)
    pure (record {
      header = none;
      bcname = request.bcname;
      blockid = request.blockid;
      status = info.status;
      block = some block;
    })

  -- `GetBlock`
  unfoldable pub get_block : Option BlockId → Calls → Answer Block × Calls
  get_block req = respond empty_block (get_block_steps req)

  unfoldable pub get_block_by_height_steps : Option BlockHeight → Rpc Block
  get_block_by_height_steps req = do
    request ← lift (or_fail req StdError.err_parameter)
    param (not (is_empty request.bcname))
    handle env request.bcname
    info ←
        call (Call.read request.bcname (Read.block_by_height request.height))
          (λ h. env.query_block_by_height h request.bcname request.height)
    block ← lift (or_fail (block_to_xchain env.block_wire info.block) StdError.err_internal)
    pure (record {
      header = none;
      bcname = request.bcname;
      blockid = blockid_of info.block;
      status = info.status;
      block = some block;
    })

  -- `GetBlockByHeight`
  unfoldable pub get_block_by_height : Option BlockHeight → Calls → Answer Block × Calls
  get_block_by_height req = respond empty_block (get_block_by_height_steps req)
