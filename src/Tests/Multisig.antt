-- ===== src/Tests/Multisig.antt =====
-- The multisig commands and the transfer of cli.go in a world of two parties.
use xuperchain.Prelude.{
  Bool, true, false, Option, none, some, List, [], ◌∷◌, ◌++◌, ◌≡◌, ◌≢◌, refl, ℕ, ◌<◌, ℤ, pos,
  negsuc, All, length, get_elem?, set, replicate, sym, pos_part, arith, if◌then◌else◌,
}
use xuperchain.Go.Text.{Text, lit, text_eq, split}
use xuperchain.Pb.{XChainError, Transaction, TxStatus, TransactionStatus}
use xuperchain.Exec.{Effect, History, Result, ok, err, ok-inj, Failure, ◌>>=◌}
use xuperchain.Client.Env.{Env, MultisigData, PartialSign}
use xuperchain.Client.Keys.{AkInfo, KeyPair, make_tx_id, sign_utxo, gen_auth_requirement}
use xuperchain.Client.RawTx.{empty_tx, post_tx, draw_nonce, read_clock}
use xuperchain.Client.Requests.{draw_log_id}
use xuperchain.Client.RawTx.Post.{status_of}
use xuperchain.Client.Multisig.{
  in_range, key_address, find_from, find_k_from_k_list, send_xuper, load_tx, load_multisig,
  read_shares, load_partial_sign, post_multi_signed, sign_multi,
}
use xuperchain.Client.Multisig.Gen.{
  IsCalm, random_32_bytes, collect, get_multi_sign_data, get_multi_sign_data_lem,
}
use xuperchain.Client.Multisig.Shares.{fill, InRange, Loads, read_shares_places}
use xuperchain.Client.Multisig.RoundTrip.{
  KeepsFiles, DecodesShares, IsShare, read_shares-sign_multi,
}
use xuperchain.Client.Multisig.Keys.{IsFound, find_k_from_k_list-IsFound}
use xuperchain.Client.Multisig.Post.{IsLoaded, files_read, IsSignedAndPosted, send_xuper-IsPosted}
use xuperchain.Client.Transfer.{TransferOptions, assemble_tx, pay_each, assemble_inputs}
use xuperchain.Client.Transfer.Balance.{HoldsBalanced, assemble_tx-IsBalanced}
use xuperchain.Client.Transfer.Frozen.{frozen_output, HoldsFrozen, assemble_tx-HoldsFrozen}
use xuperchain.Client.Inputs.{plain_output, ask_utxo, change_output}
use xuperchain.Go.Decimal.{set_string}
use xuperchain.Tests.Client.{alice_input}
use xuperchain.Tests.World.{world, world-SelectsEnough}

abbrev share : ℕ → Text → PartialSign
share i si = record { si = si; index = pos i }

abbrev two_shares : List PartialSign
two_shares = share 1 (lit "1") ∷ share 0 (lit "0") ∷ []

zero_is_not_one : (n : ℕ) → n ≡ 0 → n ≢ 1
zero_is_not_one n z e = absurd (omega (arith, z, e))

-- The two parties are called a and b, and so are their keys.
abbrev parties : MultisigData
parties = record {
  r = lit "r";
  c = lit "c";
  k_list = lit "ka" ∷ lit "kb" ∷ [];
  pub_keys = lit "a" ∷ lit "b" ∷ [];
}

found_b : find_k_from_k_list world parties (lit "b") ≡ ok (lit "kb", 1)
unfolding find_k_from_k_list find_from text_eq
found_b = refl

find_k_from_k_list-IsFound_run :
    (addr : Text) × (key_address world (lit "b") ≡ ok addr)
    × IsFound world addr parties.k_list parties.pub_keys 1 (lit "kb")
    × (in_range (pos 1) (length parties.k_list) ≡ true)
find_k_from_k_list-IsFound_run =
    find_k_from_k_list-IsFound world parties (lit "b") (lit "kb") 1 found_b

-- Each file holds its own name; the files 0 and 1 are those of the parties.
abbrev share_of : Text → PartialSign
share_of name = if text_eq name (lit "1") then share 1 name else share 0 name

abbrev files : Env
files = record world {
  read_file = λ h file. ok file;
  unmarshal_tx = λ buf. some empty_tx;
  unmarshal_multisig = λ buf. ok parties;
  unmarshal_partial_sign = λ buf. ok (share_of buf);
}

abbrev sent_history : History
sent_history =
    Effect.post_tx (
      status_of (lit "l") (lit "xuper") (record empty_tx {
        xuper_sign = some (record { public_keys = parties.pub_keys; signature = lit "m" });
        txid = lit "id";
      }))
    ∷ Effect.draw_log_id
    ∷ Effect.read_file (lit "0")
    ∷ Effect.read_file (lit "1")
    ∷ Effect.read_file (lit "tx.ext")
    ∷ Effect.read_file (lit "tx")
    ∷ []

sent : send_xuper files (lit "xuper") (lit "tx") (lit "1,0") [] ≡ (ok (lit "id"), sent_history)
unfolding send_xuper ◌>>=◌ load_tx load_multisig split read_shares load_partial_sign
    xuperchain.Prelude.◌-ℤ◌ text_eq post_multi_signed make_tx_id post_tx draw_log_id
sent = refl

read_shares_places_example :
    (slots : List Text) × (h' : History) × (read_shares files 2
        (lit "1" ∷ lit "0" ∷ [])
        (replicate 2 [])
        []
      ≡ (ok slots, h'))
    × (length slots ≡ 2)
    × All (λ (p : PartialSign). get_elem? slots (pos_part p.index) ≡ some p.si) two_shares
unfolding xuperchain.Prelude.◌-ℤ◌ text_eq
read_shares_places_example =
    read_shares_places files 2 (lit "1" ∷ lit "0" ∷ []) two_shares []
      (lit "1", refl, refl, (lit "0", refl, refl, tt)) (refl, (refl, tt))
      ((zero_is_not_one 0 refl, tt), (tt, tt))

send_xuper-IsPosted_example :
    (tx : Transaction) × (msd : MultisigData) × (ps : List PartialSign) × (sign : Text) × IsLoaded
      files
      (lit "tx")
      []
      tx
      msd
    × Loads files (split 44 (lit "1,0")) ps (files_read files (lit "tx") [])
    × (1 < length msd.k_list)
    × (length ps ≡ length msd.k_list)
    × InRange (length msd.k_list) ps
    × IsSignedAndPosted files
        (lit "xuper")
        msd
        tx
        (fill ps (replicate (length msd.k_list) []))
        sign
        (lit "id")
        sent_history
send_xuper-IsPosted_example =
    send_xuper-IsPosted files (lit "xuper") (lit "tx") (lit "1,0") [] sent_history (lit "id") sent

-- A disk of one file, which holds what was written last, and before that its own name
last_written : History → Text → Result Text
last_written [] file = ok file
last_written (Effect.write_file name text ∷ h) file = ok text
last_written (call ∷ h) file = ok file

-- The index of a partial signature comes first, and its share after it.
encode : ℤ → Text → Result Text
encode (pos i) si = ok (i ∷ si)
encode (negsuc i) si = err Failure.panic

decode : Text → Result PartialSign
decode [] = err Failure.panic
decode (i ∷ si) = ok (record { si = si; index = pos i })

abbrev disk : Env
disk = record files {
  read_file = last_written;
  marshal_partial_sign = λ p. encode p.index p.si;
  unmarshal_partial_sign = decode;
}

disk-KeepsFiles : KeepsFiles disk
unfolding last_written
disk-KeepsFiles h file text written = refl

decode-encode :
    (i : ℤ) (si text : Text)
    → encode i si ≡ ok text
    → decode text ≡ ok (record { si = si; index = i })
unfolding encode decode
decode-encode (pos i) si text e = rw (sym (ok-inj e)) refl
decode-encode (negsuc i) si text e = absurd (cc e)

disk-DecodesShares : DecodesShares disk
disk-DecodesShares p text e = decode-encode p.index p.si text e

abbrev b_pair : KeyPair
b_pair = record { public_key = lit "b"; secret_key = lit "s" }

abbrev b_history : History
b_history = (sign_multi disk (lit "tx") (lit "out") b_pair empty_tx []).1

b_signs : sign_multi disk (lit "tx") (lit "out") b_pair empty_tx [] ≡ (ok tt, b_history)
unfolding sign_multi ◌>>=◌ load_multisig find_k_from_k_list find_from text_eq encode last_written
    xuperchain.Client.Multisig.make_tx_digest_hash
b_signs = refl

read_shares-sign_multi_example :
    (msd : MultisigData) × (i : ℕ) × (si : Text) × IsShare disk
      (lit "tx")
      b_pair
      empty_tx
      []
      msd
      i
      si
    × (read_shares disk (length msd.k_list) (lit "out" ∷ []) (replicate 2 []) b_history
        ≡ (ok (set (replicate 2 []) i si), Effect.read_file (lit "out") ∷ b_history))
read_shares-sign_multi_example =
    read_shares-sign_multi disk (lit "tx") (lit "out") b_pair empty_tx (replicate 2 []) [] b_history
      disk-KeepsFiles disk-DecodesShares b_signs

-- 7 to bob and a fee of 3, to be frozen until the height 100
abbrev frozen_to_bob : TransferOptions
frozen_to_bob = record {
  blockchain_name = lit "xuper";
  key_path = lit "keys";
  crypto_type = [];
  to = lit "bob";
  amount = lit "7";
  fee = lit "3";
  desc = [];
  frozen_height = pos 100;
  version = pos 3;
  from = lit "alice";
  account_path = [];
  debug = false;
}

abbrev alice_ak : AkInfo
alice_ak = record {
  address = lit "alice";
  key_pair = record { public_key = lit "p"; secret_key = lit "s" };
}

-- 15 selected, 10 paid and 5 back
abbrev bob_status : TxStatus
bob_status = record {
  header = some (record { logid = lit "l"; from_node = []; error = XChainError.success });
  bcname = lit "xuper";
  txid = [];
  status = TransactionStatus.unconfirm;
  distance = pos 0;
  tx = some (record empty_tx {
    nonce = lit "n";
    timestamp = pos 9;
    version = pos 3;
    tx_inputs = alice_input 15 ∷ [];
    tx_outputs =
        frozen_output frozen_to_bob (pos 7)
        ∷ plain_output (lit "$") (pos 3)
        ∷ plain_output (lit "alice") (pos 5)
        ∷ [];
    initiator = lit "alice";
    auth_require = lit "alice" ∷ [];
  });
}

abbrev after_assembly : History
after_assembly = (assemble_tx world frozen_to_bob alice_ak []).1

assembled : assemble_tx world frozen_to_bob alice_ak [] ≡ (ok bob_status, after_assembly)
unfolding assemble_tx ◌>>=◌ draw_nonce read_clock pay_each set_string xuperchain.Go.Decimal.digits
    text_eq assemble_inputs sign_utxo ask_utxo xuperchain.Go.Decimal.print_int
    xuperchain.Prelude.◌+ℤ◌ gen_auth_requirement draw_log_id change_output xuperchain.Prelude.◌-ℤ◌
assembled = refl

assemble_tx-IsBalanced_example : HoldsBalanced bob_status.tx
assemble_tx-IsBalanced_example =
    assemble_tx-IsBalanced world frozen_to_bob alice_ak [] after_assembly bob_status
      world-SelectsEnough assembled

assemble_tx-HoldsFrozen_example : HoldsFrozen frozen_to_bob bob_status.tx
assemble_tx-HoldsFrozen_example =
    assemble_tx-HoldsFrozen world frozen_to_bob alice_ak [] after_assembly bob_status assembled

world-IsCalm : IsCalm world
world-IsCalm = (λ key e. absurd (cc e), λ key e. absurd (cc e))

abbrev made_data : MultisigData
made_data = record {
  r = lit "r";
  c = lit "c";
  k_list = lit "k" ∷ lit "k" ∷ [];
  pub_keys = lit "a" ∷ lit "b" ∷ [];
}

made :
    get_multi_sign_data world (lit "a" ∷ lit "b" ∷ []) []
    ≡ (ok made_data, Effect.draw_random ∷ Effect.draw_random ∷ [])
unfolding get_multi_sign_data ◌>>=◌ collect random_32_bytes
made = refl

get_multi_sign_data_lem_run :
    (made_data.pub_keys ≡ lit "a" ∷ lit "b" ∷ [])
    × (1 < length made_data.k_list)
    × (length made_data.k_list ≡ length made_data.pub_keys)
    × (find_k_from_k_list world made_data (lit "b") ≢ err Failure.panic)
get_multi_sign_data_lem_run =
    get_multi_sign_data_lem world (lit "a" ∷ lit "b" ∷ []) (lit "b") []
      (Effect.draw_random ∷ Effect.draw_random ∷ []) made_data world-IsCalm made
