-- ===== src/Pb/Chain.antt =====
-- The messages of service/pb/xchain.proto and service/pb/event.proto on blocks and chains. A Go map is
-- the list of its entries.
use xuperchain.Prelude.{Bool, Option, List, ℤ}
use xuperchain.Go.Text.{Text}
use xuperchain.Pb.{Header, Transaction, InvokeRequest}

pub record SignInfo : Type 0 where
  pub address : Text
  pub public_key : Text
  pub sign : Text

-- service/pb/chainedbft.proto; `sign_infos` is the message QCSignInfos, which may be nil
pub record QuorumCert : Type 0 where
  pub proposal_id : Text
  pub proposal_msg : Text
  pub qc_state : ℤ
  pub view_number : ℤ
  pub sign_infos : Option (List SignInfo)

pub record InternalBlock : Type 0 where
  pub version : ℤ
  pub nonce : ℤ
  pub blockid : Text
  pub pre_hash : Text
  pub proposer : Text
  pub sign : Text
  pub pubkey : Text
  pub merkle_root : Text
  pub height : ℤ
  pub timestamp : ℤ
  pub transactions : List Transaction
  pub tx_count : ℤ
  pub merkle_tree : List Text
  pub in_trunk : Bool
  pub next_hash : Text
  pub cur_term : ℤ
  pub cur_block_num : ℤ
  pub failed_txs : List (Text × Text)
  pub target_bits : ℤ
  pub justify : Option QuorumCert

-- `Block.EBlockStatus`
pub data BlockStatus : Type 0 where
  error trunk branch noexist : BlockStatus

pub record Block : Type 0 where
  pub header : Option Header
  pub bcname : Text
  pub blockid : Text
  pub status : BlockStatus
  pub block : Option InternalBlock

pub record LedgerMeta : Type 0 where
  pub root_blockid : Text
  pub tip_blockid : Text
  pub trunk_height : ℤ

pub record GasPrice : Type 0 where
  pub cpu_rate : ℤ
  pub mem_rate : ℤ
  pub disk_rate : ℤ
  pub xfee_rate : ℤ

pub record UtxoMeta : Type 0 where
  pub latest_blockid : Text
  pub lock_key_list : List Text
  pub utxo_total : Text
  pub avg_delay : ℤ
  pub unconfirm_tx_amount : ℤ
  pub max_block_size : ℤ
  pub reserved_contracts : List InvokeRequest
  pub forbidden_contract : Option InvokeRequest
  pub new_account_resource_amount : ℤ
  pub irreversible_block_height : ℤ
  pub irreversible_slide_window : ℤ
  pub gas_price : Option GasPrice
  pub group_chain_contract : Option InvokeRequest

pub record BcStatus : Type 0 where
  pub header : Option Header
  pub bcname : Text
  pub meta : Option LedgerMeta
  pub block : Option InternalBlock
  pub utxo_meta : Option UtxoMeta
  pub branch_blockid : List Text

-- `speeds` is left out: the code sends it empty and hands it on.
pub record SystemsStatus : Type 0 where
  pub bcs_status : List BcStatus
  pub peer_urls : List Text

pub record SystemsStatusReply : Type 0 where
  pub header : Option Header
  pub systems_status : Option SystemsStatus

pub record ContractEvent : Type 0 where
  pub contract : Text
  pub name : Text
  pub body : Text

pub record FilteredTransaction : Type 0 where
  pub txid : Text
  pub events : List ContractEvent

pub record FilteredBlock : Type 0 where
  pub bcname : Text
  pub blockid : Text
  pub block_height : ℤ
  pub txs : List FilteredTransaction
