-- ===== src/Tests/World.antt =====
-- A small world outside the client: one utxo that is worth five more than what is asked for, and key
-- files that all hold the same address.
use mathlib.Core.Path.{subst}
use xuperchain.Prelude.{
  false, Option, none, some, [], ◌∷◌, ◌++◌, ◌≡◌, ℕ, ◌+◌, arith, ℤ, pos, negsuc,
}
use xuperchain.Go.Text.{Text, lit}
use xuperchain.Go.Big.{bytes, set_bytes-bytes}
use xuperchain.Go.Decimal.{print_int, set_string}
use xuperchain.Go.Decimal.RoundTrip.{set_string-print_int}
use xuperchain.Pb.{Header, XChainError, UtxoOutput}
use xuperchain.Exec.{Result, ok, err, Failure, Message}
use xuperchain.Client.Env.{Env}
use xuperchain.Client.Inputs.Change.{SelectsEnough, IsSelection}
use xuperchain.Client.Value.{utxo_sum}

abbrev pub down : {A : Type 0} → Result A
down = err (Failure.said Message.select_utxo_error)

abbrev pub good_header : Option Header
good_header = some (record { logid = []; from_node = []; error = XChainError.success })

abbrev pub one_utxo : Text → ℕ → UtxoOutput
one_utxo addr n = record {
  header = good_header;
  utxo_list =
      record { amount = bytes (pos n); to_addr = addr; ref_txid = lit "t"; ref_offset = pos 0 }
      ∷ [];
  total_selected = print_int (pos n);
}

abbrev pub select_for : Text → Option ℤ → Result UtxoOutput
select_for addr none = down
select_for addr (some (pos n)) = ok (one_utxo addr (n + 5))
select_for addr (some (negsuc n)) = down

abbrev pub world : Env
world = record {
  fee_placeholder = lit "$";
  tx_version = pos 3;
  status_error_threshold = pos 400;
  join_path = λ a b. a ++ lit "/" ++ b;
  read_file = λ h file. ok (lit "alice");
  write_file = λ h file text. ok tt;
  read_dir = λ h dir. ok [];
  stat = λ h file. ok tt;
  nonce = λ h. lit "n";
  log_id = λ h. lit "l";
  clock = λ h. pos 9;
  create_crypto_client = λ name. ok tt;
  process_sign_tx = λ h tx key. ok (lit "s");
  make_transaction_id = λ tx. ok (lit "id");
  ecdsa_private_key = λ key. ok key;
  sign_ecdsa = λ h key digest. ok (lit "s");
  double_sha256 = λ text. text;
  s_using_all_si = λ si. [];
  multi_sign_signature = λ s r. ok (lit "m");
  crypto_client_of_public_key = λ key. ok tt;
  ecdsa_public_key = λ key. ok key;
  address_of_public_key = λ key. ok key;
  marshal_tx = λ tx. some (lit "tx");
  unmarshal_xledger_tx = λ text. some text;
  unmarshal_tx = λ text. none;
  unmarshal_request = λ text. none;
  unmarshal_signature = λ text. none;
  unmarshal_multisig = λ text. down;
  unmarshal_partial_sign = λ text. down;
  crypto_client_of_private_key = λ key. ok tt;
  random_32_bytes = λ h. ok (lit "k");
  ri_using_random_bytes = λ key k. lit "ri";
  r_using_all_ri = λ key ris. lit "r";
  shared_public_key = λ keys. ok (lit "c");
  si_using_kcrm = λ key k c r digest. lit "si";
  make_tx_digest_hash = λ tx. ok (lit "digest");
  marshal_partial_sign = λ psd. ok (lit "partial");
  marshal_signature = λ info. ok (lit "signature");
  marshal_tx_status = λ status. ok (lit "status");
  select_utxo = λ h request. select_for request.address (set_string request.total_need);
  select_utxo_by_size = λ h request. ok (one_utxo request.address 5);
  pre_exec =
      λ h request. ok (record { header = good_header; bcname = request.bcname; response = none });
  pre_exec_with_select_utxo = λ h request. down;
  get_balance = λ h name addr. ok (lit "10" ∷ []);
  post_tx = λ h status. ok (record { header = good_header });
  endorser_call = λ h request. down;
  address_type = λ addr. some false;
}

pub selected : (addr : Text) (n : ℕ) → IsSelection n (one_utxo addr (n + 5))
selected addr n =
    let worth : utxo_sum (one_utxo addr (n + 5)).utxo_list ≡ n + 5 =
      omega (arith, set_bytes-bytes (pos (n + 5))) in
    rw worth (set_string-print_int (pos (n + 5)), omega arith)

select_for-IsSelection :
    (addr : Text) (o : Option ℤ) (need : ℕ) (outs : UtxoOutput)
    → o ≡ some (pos need)
    → select_for addr o ≡ ok outs
    → IsSelection need outs
select_for-IsSelection addr none need outs p e = absurd (cc p)
select_for-IsSelection addr (some (pos n)) need outs p e =
    let found : one_utxo addr (need + 5) ≡ outs = cc in
    subst (λ o. IsSelection need o) found (selected addr need)
select_for-IsSelection addr (some (negsuc n)) need outs p e = absurd (cc e)

pub world-SelectsEnough : SelectsEnough world
world-SelectsEnough = record {
  selection = λ h request need outs p e.
      select_for-IsSelection request.address (set_string request.total_need) need outs p e;
}
