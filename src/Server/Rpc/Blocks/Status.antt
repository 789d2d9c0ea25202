-- ===== src/Server/Rpc/Blocks/Status.antt =====
-- What `GetBlockChainStatus` and `GetSystemStatus` answer.
use mathlib.Core.Path.{subst}
use xuperchain.Prelude.{
  Option, none, some, List, [], ◌∷◌, ◌≡◌, refl, sym, if◌then◌else◌, Pairwise, pairwise_nil,
  pairwise_cons,
}
use xuperchain.Go.Text.{Text}
use xuperchain.Pb.Chain.{
  InternalBlock, LedgerMeta, UtxoMeta, BcStatus, SystemsStatus, SystemsStatusReply,
}
use xuperchain.Pb.Query.{CommonIn}
use xuperchain.Server.Convert.Messages.{block_to_xchain, ledger_meta_to_xchain, utxo_meta_to_xchain}
use xuperchain.Server.Handle.{StdError, done}
use xuperchain.Server.Rpc.{Calls, ChainStatus, RpcEnv, Answer, ◌>>=◌, respond}
use xuperchain.Server.Rpc.Leads.{
  Leads-pure, Leads-param, Leads-lift, Leads-call, Leads-handle, Leads-respond,
}
use xuperchain.Server.Rpc.Blocks.Chains.{
  empty_chain_status, chain_status, chain_status_of, get_block_chain_status_steps,
  get_block_chain_status, chain_statuses, with_peers, peer_info_to_strings, empty_systems,
  get_system_status_steps, get_system_status,
}

module _ (env : RpcEnv) where
  -- A status is what the chain answered, converted part by part, or it is empty.
  pub data IsStatus (name : Text) : BcStatus → Type 0 where
    whole :
        (h : Calls) (found : ChainStatus) (block : InternalBlock) (meta : LedgerMeta)
        (utxo_meta : UtxoMeta)
        → env.query_chain_status h name ≡ done found
        → block_to_xchain env.block_wire found.block ≡ some block
        → ledger_meta_to_xchain env.ledger_meta_wire found.ledger_meta ≡ some meta
        → utxo_meta_to_xchain env.utxo_meta_wire found.utxo_meta ≡ some utxo_meta
        → IsStatus name (record {
          header = none;
          bcname = name;
          meta = some meta;
          block = some block;
          utxo_meta = some utxo_meta;
          branch_blockid = found.branch_ids;
        })
    empty : IsStatus name empty_chain_status

  converted :
      (name : Text) (h : Calls) (found : ChainStatus) (block : Option InternalBlock)
      (meta : Option LedgerMeta) (utxo_meta : Option UtxoMeta)
      → env.query_chain_status h name ≡ done found
      → block_to_xchain env.block_wire found.block ≡ block
      → ledger_meta_to_xchain env.ledger_meta_wire found.ledger_meta ≡ meta
      → utxo_meta_to_xchain env.utxo_meta_wire found.utxo_meta ≡ utxo_meta
      → IsStatus name (chain_status env name found.branch_ids block meta utxo_meta)
  converted name h found (some b) (some m) (some u) q p r s = whole h found b m u q p r s
  converted name h found none m u q p r s = empty
  converted name h found (some b) none u q p r s = empty
  converted name h found (some b) (some m) none q p r s = empty

  get_block_chain_status-IsStatus :
      (req : BcStatus) (h : Calls)
      → IsStatus req.bcname (get_block_chain_status env (some req) h).0.response
  unfolding get_block_chain_status get_block_chain_status_steps
  get_block_chain_status-IsStatus req h =
      Leads-respond (λ a k. IsStatus req.bcname a.response) empty_chain_status _ h
        (Leads-lift _ _ h (λ e _. empty)
          λ request is_req.
            let same : req ≡ request = cc is_req in
            Leads-param _ _ h (λ _. empty)
              λ _.
                Leads-handle env _ _ h (λ e _. empty)
                  λ name.
                    Leads-call _ _ _ h (λ e _. empty)
                      λ found is_found. Leads-pure _ _ (
                        subst
                          (λ (r : BcStatus).
                            IsStatus r.bcname (chain_status_of env request.bcname found))
                          (sym same)
                          (converted request.bcname h found _ _ _ is_found refl refl refl)))

  chain_statuses-IsStatus :
      (req : CommonIn) (names : List Text) (h : Calls)
      → Pairwise IsStatus names (chain_statuses env req names h).0
  unfolding chain_statuses
  chain_statuses-IsStatus req [] h = pairwise_nil
  chain_statuses-IsStatus req (name ∷ names) h =
      pairwise_cons
        (get_block_chain_status-IsStatus
          (record empty_chain_status { header = req.header; bcname = name }) h)
        (chain_statuses-IsStatus req names _)

  -- What a request for the status of the node is answered
  abbrev pub IsSystems : Option CommonIn → Calls → Answer SystemsStatusReply → Calls → Type 0
  IsSystems none h answer h' =
      (answer.error ≡ some StdError.err_parameter) × (answer.response ≡ empty_systems)
  IsSystems (some req) h answer h' =
      (status : SystemsStatus) × (answer.error ≡ none)
      × (answer.response.systems_status ≡ some status)
      × Pairwise IsStatus (env.get_chains h) status.bcs_status
      × (status.peer_urls
          ≡ (if with_peers req.view_option then peer_info_to_strings (env.peer_info h') else []))

  -- `GetSystemStatus` answers every request, but the one that is nil, without an error, and with one
  -- status for each chain of the engine, in their order. A status has the name of its chain and all of
  -- the parts that the chain gave, or it is empty; the response has the addresses of the peers
  -- exactly if the request asks for them or for nothing special.
  pub get_system_status_lists :
      (req : Option CommonIn) (h : Calls)
      → IsSystems req h (get_system_status env req h).0 (get_system_status env req h).1
  unfolding get_system_status get_system_status_steps respond ◌>>=◌
  get_system_status_lists none h = (refl, refl)
  get_system_status_lists (some req) h =
      (_, refl, refl, chain_statuses-IsStatus req (env.get_chains h) h, refl)
