-- ===== src/Server/Convert.antt =====
-- service/common/convert.go: messages pass between the old and the new protocol by their wire form.
pub mod Lists
pub mod Messages
use xuperchain.Prelude.{Option, none, some, List, [], ◌∷◌, ℤ, map}
use xuperchain.Go.Text.{Text}

-- proto.Marshal of one message type and proto.Unmarshal into another
pub record Wire (A B : Type 0) : Type 0 where
  pub marshal : A → Option Text
  pub unmarshal : Text → Option B

-- A list with an error beside it
pub data Converted (A : Type 0) : Type 0 where
  list : Option (List A) → Converted A
  convert_failed : Converted A

abbrev pub push_converted : {B : Type 0} → Option B → Option (List B) → Option (List B)
push_converted none rest = none
push_converted (some b) none = none
push_converted (some b) (some rest) = some (b ∷ rest)

module _ {A B : Type 0} (wire : Wire A B) where
  -- `TxToXledger`, and each function of the file that converts one message: nil gives nil, and so
  -- does an error
  unfoldable pub via_wire : Option A → Option B
  via_wire none = none
  via_wire (some a) = elim (wire.marshal a) [ none ↦ none | some buf ↦ wire.unmarshal buf ]

  -- the loop of a list: one message that fails fails the list
  unfoldable pub convert_all : List (Option A) → Option (List B)
  unfolding via_wire
  convert_all [] = some []
  convert_all (a ∷ as_) = push_converted (via_wire a) (convert_all as_)

  abbrev pub converted : Option (List B) → Converted B
  converted none = convert_failed
  converted (some bs) = list (some bs)

  -- `UtxoListToXchain`, `ContractStatusListToXchain`, `BalanceDetailsToXchain`: a nil list stays nil
  unfoldable pub utxo_list_to_xchain : Option (List (Option A)) → Converted B
  unfolding convert_all
  utxo_list_to_xchain none = list none
  utxo_list_to_xchain (some as_) = converted (convert_all as_)

-- The body of the loop of `ConvertInvokeReq`, whose elements the decoder never leaves nil
module _ {A B : Type 0} (wire : Wire A B) where
  abbrev pub through : A → Option B
  through a = elim (wire.marshal a) [ none ↦ none | some buf ↦ wire.unmarshal buf ]

  -- `ConvertInvokeReq`
  unfoldable pub convert_invoke_req : List A → Option (List B)
  convert_invoke_req [] = some []
  convert_invoke_req (a ∷ as_) = push_converted (through a) (convert_invoke_req as_)

-- `UtxoKey` of a record
pub record UtxoKey : Type 0 where
  pub ref_txid : Text
  pub offset : Text
  pub amount : Text

pub record UtxoRecord : Type 0 where
  pub utxo_count : Text
  pub utxo_amount : Text
  pub item : Option (List UtxoKey)

-- `UtxoRecordToXchain`: the two record types have the same fields, which are copied one by one
abbrev copy_key : UtxoKey → UtxoKey
copy_key k = record { ref_txid = k.ref_txid; offset = k.offset; amount = k.amount }

abbrev copy_items : Option (List UtxoKey) → Option (List UtxoKey)
copy_items none = none
copy_items (some items) = some (map copy_key items)

unfoldable pub utxo_record_to_xchain : Option UtxoRecord → Option UtxoRecord
utxo_record_to_xchain none = none
utxo_record_to_xchain (some r) =
    some
      (record { utxo_count = r.utxo_count; utxo_amount = r.utxo_amount; item = copy_items r.item })
