-- ===== src/Server/Convert/Messages.antt =====
-- service/common/convert.go: the functions for each message type, which are the same but for the types.
use xuperchain.Prelude.{Option, List}
use xuperchain.Go.Text.{Text}
use xuperchain.Pb.{Transaction, InvokeResponse, Utxo}
use xuperchain.Pb.Chain.{InternalBlock, LedgerMeta, UtxoMeta}
use xuperchain.Pb.Query.{TokenFrozenDetail}
use xuperchain.Server.Convert.{Wire, Converted, via_wire, utxo_list_to_xchain}

-- `TxToXledger` and `TxToXchain`; the ledger's transaction is kept as its bytes.
abbrev pub tx_to_xledger : Wire Transaction Text → Option Transaction → Option Text
tx_to_xledger wire tx = via_wire wire tx

abbrev pub tx_to_xchain : Wire Text Transaction → Option Text → Option Transaction
tx_to_xchain wire tx = via_wire wire tx

abbrev pub block_to_xchain :
    Wire InternalBlock InternalBlock → Option InternalBlock → Option InternalBlock
block_to_xchain wire block = via_wire wire block

abbrev pub convert_invoke_resp : Wire Text InvokeResponse → Option Text → Option InvokeResponse
convert_invoke_resp wire resp = via_wire wire resp

abbrev pub utxo_to_xchain : Wire Utxo Utxo → Option Utxo → Option Utxo
utxo_to_xchain wire utxo = via_wire wire utxo

abbrev pub acl_to_xchain : Wire Text Text → Option Text → Option Text
acl_to_xchain wire acl = via_wire wire acl

abbrev pub contract_status_list_to_xchain :
    Wire Text Text → Option (List (Option Text)) → Converted Text
contract_status_list_to_xchain wire statuses = utxo_list_to_xchain wire statuses

abbrev pub balance_details_to_xchain :
    Wire Text TokenFrozenDetail → Option (List (Option Text)) → Converted TokenFrozenDetail
balance_details_to_xchain wire details = utxo_list_to_xchain wire details

abbrev pub ledger_meta_to_xchain :
    Wire LedgerMeta LedgerMeta → Option LedgerMeta → Option LedgerMeta
ledger_meta_to_xchain wire meta = via_wire wire meta

abbrev pub utxo_meta_to_xchain : Wire UtxoMeta UtxoMeta → Option UtxoMeta → Option UtxoMeta
utxo_meta_to_xchain wire meta = via_wire wire meta

-- The element conversions of the two lists above, and the directions that the service does not take itself
abbrev pub contract_status_to_xchain : Wire Text Text → Option Text → Option Text
contract_status_to_xchain wire status = via_wire wire status

abbrev pub balance_detail_to_xchain :
    Wire Text TokenFrozenDetail → Option Text → Option TokenFrozenDetail
balance_detail_to_xchain wire detail = via_wire wire detail

abbrev pub block_to_xledger :
    Wire InternalBlock InternalBlock → Option InternalBlock → Option InternalBlock
block_to_xledger wire block = via_wire wire block

abbrev pub utxo_to_xledger : Wire Utxo Utxo → Option Utxo → Option Utxo
utxo_to_xledger wire utxo = via_wire wire utxo
