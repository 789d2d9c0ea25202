-- ===== src/Xchain/Offline/Agree.antt =====
-- Offline queries that ask for the same thing in two ways print the same.
use xuperchain.Prelude.{true, false, [], ◌∷◌, ◌≡◌, refl, ℤ, pos, negsuc, ℕ, leb_ℤ, arith}
use xuperchain.Go.Text.{Text}
use xuperchain.Pb.Chain.{InternalBlock}
use xuperchain.Exec.{Result, ok}
use xuperchain.Xchain.Offline.{
  OfflineFlags, OfflineWorld, query_by_block_id, query_by_block_height, query_block_command,
  read_value, get,
}

leb_ℤ-pos : (h : ℕ) → leb_ℤ (pos 0) (pos h) ≡ true
leb_ℤ-pos h = ground arith

module _ (w : OfflineWorld) (flags : OfflineFlags) where
  -- When the ledger gives the same block for a height and for an id, the command `block` prints the same
  -- for the text of the height and for the text of the id, or fails in the same way.
  pub query_block_command_agrees :
      (height id : Text) (h : ℤ) (blockid : Text) (block : InternalBlock)
      → w.atoi height ≡ ok h
      → w.decode_hex id ≡ ok blockid
      → w.query_block_by_height h ≡ ok block
      → w.query_block blockid ≡ ok block
      → query_block_command w flags true (height ∷ []) ≡ query_block_command w flags false (id ∷ [])
  unfolding query_block_command query_by_block_id query_by_block_height
  query_block_command_agrees height id h blockid block e f g k = rw (e, f, g, k) refl

  -- When a snapshot at the block of a height reads what is the latest, the command `get` prints the same
  -- at that height and with no height.
  pub get_agrees :
      (decode_type bucket key : Text) (h : ℕ) (blockid : Text) (reader : Text → Text → Result Text)
      → w.query_block_header_by_height (pos h) ≡ ok blockid
      → w.create_xm_snapshot_reader blockid ≡ ok reader
      → reader bucket key ≡ w.get_latest bucket key
      → get w flags decode_type bucket key (pos h) ≡ get w flags decode_type bucket key (negsuc 0)
  unfolding get read_value
  get_agrees decode_type bucket key h blockid reader e f g = rw (leb_ℤ-pos h, e, f, g) refl
