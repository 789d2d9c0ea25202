-- ===== src/Server/Rpc/Blocks/Found.antt =====
-- What `GetBlock`, `GetBlockByHeight` and `QueryTx` answer.
use xuperchain.Prelude.{Option, none, some, ◌≡◌, refl}
use xuperchain.Go.Text.{Text}
use xuperchain.Pb.{Transaction, TxStatus}
use xuperchain.Pb.Chain.{InternalBlock, Block}
use xuperchain.Pb.Query.{BlockId, BlockHeight}
use xuperchain.Server.Convert.Messages.{tx_to_xchain, block_to_xchain}
use xuperchain.Server.Handle.{StdError, done}
use xuperchain.Server.Rpc.{Calls, TxInfo, BlockInfo, RpcEnv}
use xuperchain.Server.Rpc.Leads.{
  Leads-pure, Leads-param, Leads-lift, Leads-call, Leads-handle, Leads-get, Leads-respond,
  or_fail-done,
}
use xuperchain.Server.Rpc.Blocks.{
  empty_block, empty_tx_status, blockid_of, get_block_steps, get_block, get_block_by_height_steps,
  get_block_by_height, query_tx_steps, query_tx,
}

module _ (env : RpcEnv) where
  -- A block that the chain `bcname` answered, under the identifier `id`
  abbrev pub IsBlock : Text → Text → BlockInfo → Block → Type 0
  IsBlock bcname id info answer =
      (block : InternalBlock) × (block_to_xchain env.block_wire info.block ≡ some block)
      × (answer ≡ record {
        header = none;
        bcname = bcname;
        blockid = id;
        status = info.status;
        block = some block;
      })

  abbrev pub BlockById : Option BlockId → Calls → Option StdError → Block → Type 0
  BlockById req h (some e) answer = answer ≡ empty_block
  BlockById req h none answer =
      (asked : BlockId) × (info : BlockInfo) × (req ≡ some asked)
      × (env.query_block h asked.bcname asked.blockid ≡ done info)
      × IsBlock asked.bcname asked.blockid info answer

  abbrev pub BlockByHeight : Option BlockHeight → Calls → Option StdError → Block → Type 0
  BlockByHeight req h (some e) answer = answer ≡ empty_block
  BlockByHeight req h none answer =
      (asked : BlockHeight) × (info : BlockInfo) × (req ≡ some asked)
      × (env.query_block_by_height h asked.bcname asked.height ≡ done info)
      × IsBlock asked.bcname (blockid_of info.block) info answer

  by_id :
      (req : Option BlockId) (h : Calls)
      → BlockById req h (get_block env req h).0.error (get_block env req h).0.response
  unfolding get_block get_block_steps
  by_id req h =
      Leads-respond (λ a k. BlockById req h a.error a.response) empty_block _ h
        (Leads-lift _ _ h (λ e _. refl)
          λ asked is_req.
            Leads-param _ _ h (λ _. refl)
              λ _.
                Leads-handle env _ _ h (λ e _. refl)
                  λ name.
                    Leads-call _ _ _ h (λ e _. refl)
                      λ info found.
                        Leads-lift _ _ _ (λ e _. refl)
                          λ block converts. Leads-pure _ _ (
                            asked,
                            info,
                            or_fail-done req _ is_req,
                            found,
                            (block, or_fail-done _ _ converts, refl),
                          ))

  by_height :
      (req : Option BlockHeight) (h : Calls)
      → BlockByHeight req h
          (get_block_by_height env req h).0.error
          (get_block_by_height env req h).0.response
  unfolding get_block_by_height get_block_by_height_steps
  by_height req h =
      Leads-respond (λ a k. BlockByHeight req h a.error a.response) empty_block _ h
        (Leads-lift _ _ h (λ e _. refl)
          λ asked is_req.
            Leads-param _ _ h (λ _. refl)
              λ _.
                Leads-handle env _ _ h (λ e _. refl)
                  λ name.
                    Leads-call _ _ _ h (λ e _. refl)
                      λ info found.
                        Leads-lift _ _ _ (λ e _. refl)
                          λ block converts. Leads-pure _ _ (
                            asked,
                            info,
                            or_fail-done req _ is_req,
                            found,
                            (block, or_fail-done _ _ converts, refl),
                          ))

  -- Where `GetBlock` and `GetBlockByHeight` answer without an error, the answer is the block that the chain
  -- of the request gave for its identifier, or its height, in the interface's form and with the status
  -- and the identifier that belong to it; where they answer with an error, the block is empty.
  pub blocks_are_found :
      (by : Option BlockId) (at : Option BlockHeight) (h : Calls)
      → BlockById by h (get_block env by h).0.error (get_block env by h).0.response
        × BlockByHeight at h
            (get_block_by_height env at h).0.error
            (get_block_by_height env at h).0.response
  blocks_are_found by at h = (by_id by h, by_height at h)

  -- What `QueryTx` answers, by its error
  abbrev pub FoundTx : Option TxStatus → Calls → Option StdError → TxStatus → Type 0
  FoundTx req h (some e) answer = answer ≡ empty_tx_status
  FoundTx req h none answer =
      (asked : TxStatus) × (info : TxInfo) × (tx : Transaction) × (req ≡ some asked)
      × (env.query_tx h asked.bcname asked.txid ≡ done info)
      × (tx_to_xchain env.ledger_tx_wire info.tx ≡ some tx)
      × (answer ≡ record {
        header = none;
        bcname = asked.bcname;
        txid = asked.txid;
        status = info.status;
        distance = info.distance;
        tx = some tx;
      })

  -- Where `QueryTx` answers without an error, the answer is the transaction that the chain of the request
  -- gave for its identifier, in the interface's form and with its status and distance; where it answers
  -- with an error, the answer is empty.
  pub query_tx_finds :
      (req : Option TxStatus) (h : Calls)
      → FoundTx req h (query_tx env req h).0.error (query_tx env req h).0.response
  unfolding query_tx query_tx_steps
  query_tx_finds req h =
      Leads-respond (λ a k. FoundTx req h a.error a.response) empty_tx_status _ h
        (Leads-lift _ _ h (λ e _. refl)
          λ asked is_req.
            Leads-param _ _ h (λ _. refl)
              λ _. Leads-get _ h (
                Leads-lift _ _ h (λ e _. refl)
                  λ name _.
                    Leads-call _ _ _ h (λ e _. refl)
                      λ info found.
                        Leads-lift _ _ _ (λ e _. refl)
                          λ tx converts. Leads-pure _ _ (
                            asked,
                            info,
                            tx,
                            or_fail-done req _ is_req,
                            found,
                            or_fail-done _ _ converts,
                            refl,
                          )))
