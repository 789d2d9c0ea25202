-- ===== src/Client/Types/Status.antt =====
-- The forms of states and of filtered blocks in cmd/client/cmd/types.go.
use xuperchain.Pb
use xuperchain.Pb.Chain
use xuperchain.Prelude.{not, ◌&&◌, Option, none, some, List, [], ◌∷◌, if◌then◌else◌, ℤ, pos, map}
use xuperchain.Go.Text.{Text, lit, text_eq}
use xuperchain.Client.Types.{InvokeRequest, copy_args}

pub record UtxoMeta : Type 0 where
  pub latest_blockid : Text
  pub lock_key_list : List Text
  pub utxo_total : Text
  pub avg_delay : ℤ
  pub unconfirm_tx_amount : ℤ
  pub max_block_size : ℤ
  pub reserved_contracts : List InvokeRequest
  pub forbidden_contract : InvokeRequest
  pub new_account_resource_amount : ℤ
  pub irreversible_block_height : ℤ
  pub irreversible_slide_window : ℤ
  pub gas_price : Chain.GasPrice

pub record ChainStatus : Type 0 where
  pub name : Text
  pub ledger_meta : Chain.LedgerMeta
  pub utxo_meta : UtxoMeta
  pub branch_blockid : List Text

pub record SystemStatus : Type 0 where
  pub chain_status : List ChainStatus
  pub peers : List Text

-- A contract of the state, whose limits are not copied
abbrev pub from_contract : Pb.InvokeRequest → InvokeRequest
from_contract req = record {
  module_name = req.module_name;
  contract_name = req.contract_name;
  method_name = req.method_name;
  args = copy_args req.args;
  resouce_limits = [];
}

abbrev pub or_empty_contract : Option Pb.InvokeRequest → InvokeRequest
or_empty_contract none = record {
  module_name = [];
  contract_name = [];
  method_name = [];
  args = [];
  resouce_limits = [];
}
or_empty_contract (some req) = from_contract req

abbrev pub or_no_price : Option Chain.GasPrice → Chain.GasPrice
or_no_price none = record {
  cpu_rate = pos 0;
  mem_rate = pos 0;
  disk_rate = pos 0;
  xfee_rate = pos 0;
}
or_no_price (some price) = price

abbrev pub or_empty_ledger : Option Chain.LedgerMeta → Chain.LedgerMeta
or_empty_ledger none = record { root_blockid = []; tip_blockid = []; trunk_height = pos 0 }
or_empty_ledger (some meta) = meta

abbrev pub from_utxo_meta : Option Chain.UtxoMeta → UtxoMeta
from_utxo_meta none = record {
  latest_blockid = [];
  lock_key_list = [];
  utxo_total = [];
  avg_delay = pos 0;
  unconfirm_tx_amount = pos 0;
  max_block_size = pos 0;
  reserved_contracts = [];
  forbidden_contract = or_empty_contract none;
  new_account_resource_amount = pos 0;
  irreversible_block_height = pos 0;
  irreversible_slide_window = pos 0;
  gas_price = or_no_price none;
}
from_utxo_meta (some meta) = record {
  latest_blockid = meta.latest_blockid;
  lock_key_list = meta.lock_key_list;
  utxo_total = meta.utxo_total;
  avg_delay = meta.avg_delay;
  unconfirm_tx_amount = meta.unconfirm_tx_amount;
  max_block_size = meta.max_block_size;
  reserved_contracts = map from_contract meta.reserved_contracts;
  forbidden_contract = or_empty_contract meta.forbidden_contract;
  new_account_resource_amount = meta.new_account_resource_amount;
  irreversible_block_height = meta.irreversible_block_height;
  irreversible_slide_window = meta.irreversible_slide_window;
  gas_price = or_no_price meta.gas_price;
}

abbrev pub from_chain : Chain.BcStatus → ChainStatus
from_chain chain = record {
  name = chain.bcname;
  ledger_meta = or_empty_ledger chain.meta;
  utxo_meta = from_utxo_meta chain.utxo_meta;
  branch_blockid = chain.branch_blockid;
}

-- The loop of `FromSystemStatusPB`: the name of the root chain stands for every chain.
unfoldable pub chains_named : Text → List Chain.BcStatus → List ChainStatus
chains_named cname [] = []
chains_named cname (chain ∷ chains) =
    let rest = chains_named cname chains in
    if not (text_eq cname (lit "xuper")) && not (text_eq chain.bcname cname)
    then rest
    else from_chain chain ∷ rest

-- `FromSystemStatusPB`
unfoldable pub from_system_status_pb : Chain.SystemsStatus → Text → SystemStatus
from_system_status_pb status cname = record {
  chain_status = chains_named cname status.bcs_status;
  peers = status.peer_urls;
}

abbrev pub from_event : Chain.ContractEvent → Chain.ContractEvent
from_event event = record { contract = event.contract; name = event.name; body = event.body }

abbrev pub from_filtered_tx : Chain.FilteredTransaction → Chain.FilteredTransaction
from_filtered_tx tx = record { txid = tx.txid; events = map from_event tx.events }

-- `FromFilteredBlockPB`
unfoldable pub from_filtered_block_pb : Chain.FilteredBlock → Chain.FilteredBlock
from_filtered_block_pb block = record {
  bcname = block.bcname;
  blockid = block.blockid;
  block_height = block.block_height;
  txs = map from_filtered_tx block.txs;
}
