-- ===== src/Pb.antt =====
-- The messages of service/pb/xchain.proto and service/pb/xendorser.proto that the modelled code
-- handles. A `string` and a `bytes` field are byte sequences, an integer field a signed integer, a
-- pointer to a message that the code may find nil an option.
pub mod Chain
pub mod Query
use xuperchain.Prelude.{Bool, Option, List, ℤ}
use xuperchain.Go.Text.{Text}

-- enum XChainErrorEnum
pub data XChainError : Type 0 where
  success unknow_error connect_refuse not_enough_utxo_error utxovm_already_unconfirm_error
        utxovm_not_found_error input_output_not_equal_error tx_not_found_error tx_sign_error
        blockchain_notexist validate_error cannot_sync_block_error confirm_block_error
        utxovm_play_error walk_error not_ready_error block_exist_error root_block_exist_error
        tx_duplicate_error service_refused_error txdata_sign_error tx_sle_error
        tx_fee_not_enough_error utxo_sign_error dpos_query_error rwset_invalid_error
        rwacl_invalid_error gas_not_enough_error tx_version_invalid_error
        compliance_check_not_approved account_contract_status_error tx_verification_error :
      XChainError

abbrev pub is_success : XChainError → Bool
is_success XChainError.success = Bool.true
is_success _ = Bool.false

pub data TransactionStatus : Type 0 where
  undefine noexist confirm furcation unconfirm failed : TransactionStatus

pub record Header : Type 0 where
  pub logid : Text
  pub from_node : Text
  pub error : XChainError

pub record TxDataAccount : Type 0 where
  pub address : Text
  pub amount : Text
  pub frozen_height : ℤ

pub record TxInput : Type 0 where
  pub ref_txid : Text
  pub ref_offset : ℤ
  pub from_addr : Text
  pub amount : Text
  pub frozen_height : ℤ

pub record TxOutput : Type 0 where
  pub amount : Text
  pub to_addr : Text
  pub frozen_height : ℤ

pub record TxInputExt : Type 0 where
  pub bucket : Text
  pub key : Text
  pub ref_txid : Text
  pub ref_offset : ℤ

pub record TxOutputExt : Type 0 where
  pub bucket : Text
  pub key : Text
  pub value : Text

pub record InvokeRequest : Type 0 where
  pub module_name : Text
  pub contract_name : Text
  pub method_name : Text
  pub args : List (Text × Text)
  pub resource_limits : List (ℤ × ℤ)
  pub amount : Text

pub record ContractResponse : Type 0 where
  pub status : ℤ
  pub message : Text
  pub body : Text

pub record InvokeResponse : Type 0 where
  pub inputs : List TxInputExt
  pub outputs : List TxOutputExt
  pub response : List Text
  pub gas_used : ℤ
  pub requests : List InvokeRequest
  pub responses : List ContractResponse
  pub utxo_inputs : List TxInput
  pub utxo_outputs : List TxOutput

pub record SignatureInfo : Type 0 where
  pub public_key : Text
  pub sign : Text

pub record XuperSignature : Type 0 where
  pub public_keys : List Text
  pub signature : Text

pub record ModifyBlock : Type 0 where
  pub effective_txid : Text
  pub marked : Bool
  pub effective_height : ℤ
  pub public_key : Text
  pub sign : Text

-- `HD_info` is left out: no modelled code reads or writes it.
pub record Transaction : Type 0 where
  pub txid : Text
  pub blockid : Text
  pub tx_inputs : List TxInput
  pub tx_outputs : List TxOutput
  pub desc : Text
  pub coinbase : Bool
  pub nonce : Text
  pub timestamp : ℤ
  pub version : ℤ
  pub autogen : Bool
  pub tx_inputs_ext : List TxInputExt
  pub tx_outputs_ext : List TxOutputExt
  pub contract_requests : List InvokeRequest
  pub initiator : Text
  pub auth_require : List Text
  pub initiator_signs : List SignatureInfo
  pub auth_require_signs : List SignatureInfo
  pub received_timestamp : ℤ
  pub xuper_sign : Option XuperSignature
  pub modify_block : Option ModifyBlock

pub record TxStatus : Type 0 where
  pub header : Option Header
  pub bcname : Text
  pub txid : Text
  pub status : TransactionStatus
  pub distance : ℤ
  pub tx : Option Transaction

pub record CommonReply : Type 0 where
  pub header : Option Header

pub record Utxo : Type 0 where
  pub amount : Text
  pub to_addr : Text
  pub ref_txid : Text
  pub ref_offset : ℤ

pub record UtxoInput : Type 0 where
  pub bcname : Text
  pub address : Text
  pub publickey : Text
  pub total_need : Text
  pub user_sign : Text
  pub need_lock : Bool

pub record UtxoOutput : Type 0 where
  pub header : Option Header
  pub utxo_list : List Utxo
  pub total_selected : Text

pub record InvokeRpcRequest : Type 0 where
  pub header : Option Header
  pub bcname : Text
  pub requests : List InvokeRequest
  pub initiator : Text
  pub auth_require : List Text

pub record InvokeRpcResponse : Type 0 where
  pub header : Option Header
  pub bcname : Text
  pub response : Option InvokeResponse

pub record PreExecWithSelectUtxoRequest : Type 0 where
  pub header : Option Header
  pub bcname : Text
  pub address : Text
  pub total_amount : ℤ
  pub sign_info : Option SignatureInfo
  pub need_lock : Bool
  pub request : Option InvokeRpcRequest

pub record PreExecWithSelectUtxoResponse : Type 0 where
  pub header : Option Header
  pub bcname : Text
  pub response : Option InvokeResponse
  pub utxo_output : Option UtxoOutput

pub record EndorserRequest : Type 0 where
  pub header : Option Header
  pub request_name : Text
  pub bc_name : Text
  pub fee : Option Transaction
  pub request_data : Option Text

pub record EndorserResponse : Type 0 where
  pub header : Option Header
  pub response_name : Text
  pub endorser_address : Text
  pub endorser_sign : Option SignatureInfo
  pub response_data : Text
