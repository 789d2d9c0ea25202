-- ===== src/Xchain/Offline.antt =====
-- cmd/xchain/cmd/offlinequery.go: queries of a ledger on disk. A query only reads; it gives the lines
-- that it prints, or an error.
pub mod Agree
use xuperchain.Prelude.{
  Bool, true, false, Option, none, some, List, [], ◌∷◌, ℤ, pos, leb_ℤ, if◌then◌else◌,
}
use xuperchain.Go.Text.{Text, lit, text_eq, is_empty}
use xuperchain.Pb.{Transaction}
use xuperchain.Pb.Chain.{InternalBlock, LedgerMeta}
use xuperchain.Exec.{Failure, Message, Result, ok, err, and_then, wrap_result}
use xuperchain.Client.Types
use xuperchain.Client.Types.{encode_to_string, from_pb_tx, from_internal_block_pb}
use xuperchain.Xchain.Open.{HandleWorld, create_env_config, create_handle}

-- The flags of `offlineQuery`
pub record OfflineFlags : Type 0 where
  pub chain_name : Text
  pub env_conf : Text
  pub crypto_type : Text

-- What the ledger and the state on disk answer, and the libraries.
pub record OfflineWorld : Type 0 where
  pub handles : HandleWorld
  pub get_meta : LedgerMeta
  pub query_block : Text → Result InternalBlock
  pub query_block_by_height : ℤ → Result InternalBlock
  -- the block id in a header
  pub query_block_header_by_height : ℤ → Result Text
  -- `none` where the state has no such transaction
  pub query_tx : Text → Result (Option Transaction)
  -- a reader of the state at a block
  pub create_xm_snapshot_reader : Text → Result (Text → Text → Result Text)
  -- `CreateXMReader`
  pub get_latest : Text → Text → Result Text
  pub decode_hex : Text → Result Text
  pub atoi : Text → Result ℤ
  -- encoding/json, and what is printed of a decoded map
  pub marshal_meta : LedgerMeta → Result Text
  pub marshal_block : Types.InternalBlock → Result Text
  pub marshal_tx : Types.Transaction → Result Text
  pub unmarshal_map : Text → Text × Option Text
  pub type_name : ℤ → Text

pub data Printed : Type 0 where
  line : Text → Printed
  txid_not_found : Text → Printed
  val_is_nil : Printed

module _ (w : OfflineWorld) (flags : OfflineFlags) where
  -- `createLedgerAndStateHandle`
  unfoldable pub create_ledger_and_state_handle : Result (Unit {0})
  create_ledger_and_state_handle =
      and_then (create_env_config w.handles flags.env_conf)
        (λ _. create_handle w.handles flags.chain_name flags.crypto_type)

  -- `QueryStatus`
  unfoldable pub query_status : Result (List Printed)
  query_status =
      and_then create_ledger_and_state_handle
        (λ _. and_then (w.marshal_meta w.get_meta) (λ output. ok (line output ∷ [])))

  unfoldable pub show_block : InternalBlock → Result (List Printed)
  show_block block =
      and_then (from_internal_block_pb w.type_name block)
        (λ shown. and_then (w.marshal_block shown) (λ output. ok (line output ∷ [])))

  -- `QueryByBlockId`
  unfoldable pub query_by_block_id : Text → Result (List Printed)
  unfolding show_block
  query_by_block_id blockid = and_then create_ledger_and_state_handle (λ _.
      and_then (w.decode_hex blockid)
        (λ id. and_then (wrap_result Message.query_block_error (w.query_block id)) show_block))

  -- `QueryByBlockHeight`
  unfoldable pub query_by_block_height : ℤ → Result (List Printed)
  unfolding show_block
  query_by_block_height height = and_then create_ledger_and_state_handle (λ _.
      and_then (wrap_result Message.query_block_error (w.query_block_by_height height)) show_block)

  -- The command `block`
  unfoldable pub query_block_command : Bool → List Text → Result (List Printed)
  unfolding query_by_block_id query_by_block_height
  query_block_command by_height [] = err (Failure.said Message.expect_argument)
  query_block_command by_height (arg ∷ args) =
      if by_height then and_then (w.atoi arg) query_by_block_height else query_by_block_id arg

  abbrev show_tx : Text → Option Transaction → Result (List Printed)
  show_tx txid none = ok (txid_not_found txid ∷ [])
  show_tx txid (some tx) =
      and_then (w.marshal_tx (from_pb_tx w.type_name tx)) (λ output. ok (line output ∷ []))

  -- `QueryByTxId`
  unfoldable pub query_by_tx_id : Text → Result (List Printed)
  query_by_tx_id txid =
      and_then create_ledger_and_state_handle
        (λ _. and_then (w.decode_hex txid) (λ id. and_then (w.query_tx id) (show_tx txid)))

  -- The command `tx query`
  unfoldable pub query_tx_command : List Text → Result (List Printed)
  unfolding query_by_tx_id
  query_tx_command [] = err (Failure.said Message.expect_argument)
  query_tx_command (arg ∷ args) = query_by_tx_id arg

  -- The value of a key, at a height or the latest
  unfoldable pub read_value : Text → Text → ℤ → Result Text
  read_value bucket key height =
      if leb_ℤ (pos 0) height
      then and_then (w.query_block_header_by_height height)
          (λ blockid. and_then (w.create_xm_snapshot_reader blockid) (λ reader. reader bucket key))
      else w.get_latest bucket key

  abbrev show_json : Text × Option Text → List Printed
  show_json (shown, none) = line shown ∷ []
  show_json (shown, some e) = line e ∷ line shown ∷ []

  unfoldable pub show_value : Text → Text → List Printed
  show_value decode_type val =
      if is_empty val
      then val_is_nil ∷ []
      else if text_eq decode_type (lit "json")
      then show_json (w.unmarshal_map val)
      else if text_eq decode_type (lit "hex")
      then line (encode_to_string val) ∷ []
      else line val ∷ []

  -- `Get`
  unfoldable pub get : Text → Text → Text → ℤ → Result (List Printed)
  unfolding read_value show_value
  get decode_type bucket key height =
      and_then create_ledger_and_state_handle
        (λ _. and_then (read_value bucket key height) (λ val. ok (show_value decode_type val)))

  -- The command `get`
  unfoldable pub get_command : Text → Bool → Text → Text → ℤ → Result (List Printed)
  unfolding get
  get_command decode_type hex_key bucket key height =
      if is_empty bucket
      then err (Failure.said Message.expect_argument)
      else if is_empty key
      then err (Failure.said Message.expect_argument)
      else if hex_key
      then and_then (w.decode_hex key) (λ bytes. get decode_type bucket bytes height)
      else get decode_type bucket key height
