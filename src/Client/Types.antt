-- ===== src/Client/Types.antt =====
-- cmd/client/cmd/types.go: the forms in which the client prints transactions and blocks. A Go map
-- is the list of its entries; how the forms become JSON is left out.
pub mod Status
pub mod Shown
use xuperchain.Pb
use xuperchain.Pb.Chain
use xuperchain.Prelude.{
  Bool, true, false, not, ◌&&◌, Option, none, some, List, [], ◌∷◌, ◌++◌, if◌then◌else◌, ℕ, ◌+◌, ◌/◌,
  ◌%◌, ℤ, pos, ltb, map,
}
use xuperchain.Go.Text.{Text, lit, text_eq}
use xuperchain.Go.Big.{set_bytes}
use xuperchain.Exec.{Result, ok, err, Failure, and_then}

pub record TxInput : Type 0 where
  pub ref_txid : Text
  pub ref_offset : ℤ
  pub from_addr : Text
  pub amount : ℤ

pub record TxOutput : Type 0 where
  pub amount : ℤ
  pub to_addr : Text

pub record ResourceLimit : Type 0 where
  pub type_ : Text
  pub limit : ℤ

pub record InvokeRequest : Type 0 where
  pub module_name : Text
  pub contract_name : Text
  pub method_name : Text
  pub args : List (Text × Text)
  pub resouce_limits : List ResourceLimit

pub record ModifyBlock : Type 0 where
  pub marked : Bool
  pub effective_height : ℤ
  pub effective_txid : Text

-- The extensions, the signatures and the requirements have the fields of the messages.
pub record Transaction : Type 0 where
  pub txid : Text
  pub blockid : Text
  pub tx_inputs : List TxInput
  pub tx_outputs : List TxOutput
  pub desc : Text
  pub nonce : Text
  pub timestamp : ℤ
  pub version : ℤ
  pub autogen : Bool
  pub coinbase : Bool
  pub tx_inputs_ext : List Pb.TxInputExt
  pub tx_outputs_ext : List Pb.TxOutputExt
  pub contract_requests : List InvokeRequest
  pub initiator : Text
  pub auth_require : List Text
  pub initiator_signs : List Pb.SignatureInfo
  pub auth_require_signs : List Pb.SignatureInfo
  pub received_timestamp : ℤ
  pub modify_block : ModifyBlock

pub record QuorumCert : Type 0 where
  pub proposal_id : Text
  pub proposal_msg : Text
  pub qc_state : ℤ
  pub view_number : ℤ
  pub sign_infos : Option (List Chain.SignInfo)

pub record InternalBlock : Type 0 where
  pub version : ℤ
  pub blockid : Text
  pub pre_hash : Text
  pub proposer : Text
  pub sign : Text
  pub pubkey : Text
  pub merkle_root : Text
  pub height : ℤ
  pub timestamp : ℤ
  pub transactions : List Transaction
  pub tx_count : ℤ
  pub merkle_tree : List Text
  pub in_trunk : Bool
  pub next_hash : Text
  pub failed_txs : List (Text × Text)
  pub cur_term : ℤ
  pub cur_block_num : ℤ
  pub justify : QuorumCert

-- `FromAmountBytes`
abbrev pub from_amount_bytes : Text → ℤ
from_amount_bytes buf = pos (set_bytes buf)

abbrev hex_digit : ℕ → ℕ
hex_digit n = if ltb n 10 then 48 + n else 87 + n

-- `hex.EncodeToString`
abbrev pub encode_to_string : Text → Text
encode_to_string [] = []
encode_to_string (b ∷ bs) = hex_digit (b / 16) ∷ hex_digit (b % 16) ∷ encode_to_string bs

abbrev pub from_input : Pb.TxInput → TxInput
from_input input = record {
  ref_txid = input.ref_txid;
  ref_offset = input.ref_offset;
  from_addr = input.from_addr;
  amount = from_amount_bytes input.amount;
}

abbrev pub from_output : Pb.TxOutput → TxOutput
from_output output = record { amount = from_amount_bytes output.amount; to_addr = output.to_addr }

abbrev pub from_input_ext : Pb.TxInputExt → Pb.TxInputExt
from_input_ext ext = record {
  bucket = ext.bucket;
  key = ext.key;
  ref_txid = ext.ref_txid;
  ref_offset = ext.ref_offset;
}

abbrev pub from_output_ext : Pb.TxOutputExt → Pb.TxOutputExt
from_output_ext ext = record { bucket = ext.bucket; key = ext.key; value = ext.value }

abbrev pub copy_args : List (Text × Text) → List (Text × Text)
copy_args args = map (λ (a : Text × Text). (a.0, a.1)) args

abbrev pub from_sign : Pb.SignatureInfo → Pb.SignatureInfo
from_sign s = record { public_key = s.public_key; sign = s.sign }

-- A block that modifies nothing shows the zero value.
abbrev pub from_modify_block : Option Pb.ModifyBlock → ModifyBlock
from_modify_block none = record { marked = false; effective_height = pos 0; effective_txid = [] }
from_modify_block (some m) = record {
  marked = m.marked;
  effective_height = m.effective_height;
  effective_txid = m.effective_txid;
}

-- `FromPBJustify`: with a certificate, its list of signatures is dereferenced.
abbrev pub from_sign_info : Chain.SignInfo → Chain.SignInfo
from_sign_info s = record { address = s.address; public_key = s.public_key; sign = s.sign }

abbrev pub signed_justify : Chain.QuorumCert → Option (List Chain.SignInfo) → Result QuorumCert
signed_justify qc none = err Failure.panic
signed_justify qc (some signs) = ok (record {
  proposal_id = encode_to_string qc.proposal_id;
  proposal_msg = qc.proposal_msg;
  qc_state = qc.qc_state;
  view_number = qc.view_number;
  sign_infos = some (map from_sign_info signs);
})

unfoldable pub from_pb_justify : Option Chain.QuorumCert → Result QuorumCert
from_pb_justify none = ok (record {
  proposal_id = [];
  proposal_msg = [];
  qc_state = pos 0;
  view_number = pos 0;
  sign_infos = none;
})
from_pb_justify (some qc) = signed_justify qc qc.sign_infos

-- The name of a resource type is that of the generated enum.
module _ (type_name : ℤ → Text) where
  abbrev pub from_request : Pb.InvokeRequest → InvokeRequest
  from_request req = record {
    module_name = req.module_name;
    contract_name = req.contract_name;
    method_name = req.method_name;
    args = copy_args req.args;
    resouce_limits =
        map (λ (l : ℤ × ℤ). record { type_ = type_name l.0; limit = l.1 }) req.resource_limits;
  }

  -- `FromPBTx`
  unfoldable pub from_pb_tx : Pb.Transaction → Transaction
  from_pb_tx tx = record {
    txid = tx.txid;
    blockid = tx.blockid;
    tx_inputs = map from_input tx.tx_inputs;
    tx_outputs = map from_output tx.tx_outputs;
    desc = tx.desc;
    nonce = tx.nonce;
    timestamp = tx.timestamp;
    version = tx.version;
    autogen = tx.autogen;
    coinbase = tx.coinbase;
    tx_inputs_ext = map from_input_ext tx.tx_inputs_ext;
    tx_outputs_ext = map from_output_ext tx.tx_outputs_ext;
    contract_requests = map from_request tx.contract_requests;
    initiator = tx.initiator;
    auth_require = tx.auth_require;
    initiator_signs = map from_sign tx.initiator_signs;
    auth_require_signs = map from_sign tx.auth_require_signs;
    received_timestamp = tx.received_timestamp;
    modify_block = from_modify_block tx.modify_block;
  }

  -- `FromInternalBlockPB`
  unfoldable pub from_internal_block_pb : Chain.InternalBlock → Result InternalBlock
  from_internal_block_pb block = and_then (from_pb_justify block.justify) λ justify. ok (record {
    version = block.version;
    blockid = block.blockid;
    pre_hash = block.pre_hash;
    proposer = block.proposer;
    sign = block.sign;
    pubkey = block.pubkey;
    merkle_root = block.merkle_root;
    height = block.height;
    timestamp = block.timestamp;
    transactions = map from_pb_tx block.transactions;
    tx_count = block.tx_count;
    merkle_tree = block.merkle_tree;
    in_trunk = block.in_trunk;
    next_hash = block.next_hash;
    failed_txs = block.failed_txs;
    cur_term = block.cur_term;
    cur_block_num = block.cur_block_num;
    justify = justify;
  })
