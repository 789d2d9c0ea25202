-- ===== src/Server/Rpc/Blocks/Chains.antt =====
-- The handlers of service/rpc/api.go that read the state of chains and of the node.
use xuperchain.Prelude.{
  Bool, true, false, not, Option, none, some, List, [], ◌∷◌, if◌then◌else◌, map,
}
use xuperchain.Go.Text.{Text, is_empty}
use xuperchain.Pb.Chain.{
  InternalBlock, LedgerMeta, UtxoMeta, BcStatus, SystemsStatus, SystemsStatusReply,
}
use xuperchain.Pb.Query.{BcTipStatus, ViewOption, CommonIn, BlockChains, RawUrl}
use xuperchain.Server.Convert.Messages.{block_to_xchain, ledger_meta_to_xchain, utxo_meta_to_xchain}
use xuperchain.Server.Handle.{StdError}
use xuperchain.Server.Rpc.{
  Read, Call, Calls, Peer, PeerInfo, ChainStatus, RpcEnv, Answer, Rpc, ◌>>=◌, ◌>>◌, pure, lift,
  call, run, get, param, or_fail, respond, handle,
}
use xuperchain.Server.Rpc.Blocks.{blockid_of}

abbrev pub empty_chain_status : BcStatus
empty_chain_status = record {
  header = none;
  bcname = [];
  meta = none;
  block = none;
  utxo_meta = none;
  branch_blockid = [];
}

abbrev pub empty_tip : BcTipStatus
empty_tip = record { header = none; is_trunk_tip = false }

abbrev pub empty_chains : BlockChains
empty_chains = record { header = none; blockchains = [] }

abbrev pub with_peers : ViewOption → Bool
with_peers ViewOption.none_ = true
with_peers ViewOption.peers = true
with_peers ViewOption.ledger = false
with_peers ViewOption.utxoinfo = false
with_peers ViewOption.branchinfo = false

abbrev pub peer_info_to_strings : PeerInfo → List Text
peer_info_to_strings info = map (λ (p : Peer). p.address) info.peer

abbrev pub empty_systems : SystemsStatusReply
empty_systems = record { header = none; systems_status = none }

abbrev pub empty_url : RawUrl
empty_url = record { header = none; raw_url = [] }

module _ (env : RpcEnv) where
  -- Where a part of the status does not convert, the response stays empty and there is no error.
  abbrev pub chain_status :
      Text → List Text → Option InternalBlock → Option LedgerMeta → Option UtxoMeta → BcStatus
  chain_status bcname branches (some block) (some meta) (some utxo_meta) = record {
    header = none;
    bcname = bcname;
    meta = some meta;
    block = some block;
    utxo_meta = some utxo_meta;
    branch_blockid = branches;
  }
  chain_status bcname branches none _ _ = empty_chain_status
  chain_status bcname branches (some block) none _ = empty_chain_status
  chain_status bcname branches (some block) (some meta) none = empty_chain_status

  abbrev pub chain_status_of : Text → ChainStatus → BcStatus
  chain_status_of bcname status =
      chain_status bcname status.branch_ids (block_to_xchain env.block_wire status.block)
        (ledger_meta_to_xchain env.ledger_meta_wire status.ledger_meta)
        (utxo_meta_to_xchain env.utxo_meta_wire status.utxo_meta)

  unfoldable pub get_block_chain_status_steps : Option BcStatus → Rpc BcStatus
  get_block_chain_status_steps req = do
    request ← lift (or_fail req StdError.err_parameter)
    param (not (is_empty request.bcname))
    handle env request.bcname
    status ←
        call (Call.read request.bcname Read.chain_status)
          (λ h. env.query_chain_status h request.bcname)
    pure (chain_status_of request.bcname status)

  -- `GetBlockChainStatus`
  unfoldable pub get_block_chain_status : Option BcStatus → Calls → Answer BcStatus × Calls
  get_block_chain_status req = respond empty_chain_status (get_block_chain_status_steps req)

  unfoldable pub confirm_block_chain_status_steps : Option BcStatus → Rpc BcTipStatus
  confirm_block_chain_status_steps req = do
    request ← lift (or_fail req StdError.err_parameter)
    param (not (is_empty request.bcname))
    handle env request.bcname
    is_tip ←
        call (Call.read request.bcname (Read.is_trunk_tip_block (blockid_of request.block)))
          (λ h. env.is_trunk_tip_block h request.bcname (blockid_of request.block))
    pure (record { header = none; is_trunk_tip = is_tip })

  -- `ConfirmBlockChainStatus`
  unfoldable pub confirm_block_chain_status : Option BcStatus → Calls → Answer BcTipStatus × Calls
  confirm_block_chain_status req = respond empty_tip (confirm_block_chain_status_steps req)

  unfoldable pub get_block_chains_steps : Option CommonIn → Rpc BlockChains
  get_block_chains_steps req = do
    request ← lift (or_fail req StdError.err_parameter)
    calls ← get
    pure (record { header = none; blockchains = env.get_chains calls })

  -- `GetBlockChains`
  unfoldable pub get_block_chains : Option CommonIn → Calls → Answer BlockChains × Calls
  get_block_chains req = respond empty_chains (get_block_chains_steps req)

  -- The loop of `GetSystemStatus`, which keeps the response of a chain that answers with an error
  unfoldable pub chain_statuses : CommonIn → List Text → Calls → List BcStatus × Calls
  unfolding get_block_chain_status
  chain_statuses req [] h = ([], h)
  chain_statuses req (bc_name ∷ bc_names) h =
      let asked : BcStatus = record empty_chain_status { header = req.header; bcname = bc_name } in
      let (status, k) = get_block_chain_status (some asked) h in
      let (rest, k') = chain_statuses req bc_names k in (status.response ∷ rest, k')

  unfoldable pub get_system_status_steps : Option CommonIn → Rpc SystemsStatusReply
  get_system_status_steps req = do
    request ← lift (or_fail req StdError.err_parameter)
    calls ← get
    statuses ← run (chain_statuses request (env.get_chains calls))
    calls' ← get
    let peer_urls : List Text =
        if with_peers request.view_option then peer_info_to_strings (env.peer_info calls') else []
    let status : SystemsStatus = record { bcs_status = statuses; peer_urls = peer_urls }
    pure (record { header = none; systems_status = some status })

  -- `GetSystemStatus`
  unfoldable pub get_system_status : Option CommonIn → Calls → Answer SystemsStatusReply × Calls
  get_system_status req = respond empty_systems (get_system_status_steps req)

  unfoldable pub get_net_url_steps : Option CommonIn → Rpc RawUrl
  get_net_url_steps req = do
    request ← lift (or_fail req StdError.err_parameter)
    calls ← get
    pure (record { header = none; raw_url = (env.peer_info calls).address })

  -- `GetNetURL`
  unfoldable pub get_net_url : Option CommonIn → Calls → Answer RawUrl × Calls
  get_net_url req = respond empty_url (get_net_url_steps req)
