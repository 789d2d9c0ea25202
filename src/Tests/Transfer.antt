-- ===== src/Tests/Transfer.antt =====
-- The theorems on merges and on transfers with a compliance check, at one of each.
use mathlib.Core.Path.{subst}
use xuperchain.Prelude.{
  true, false, Option, none, some, List, [], ◌∷◌, ◌≡◌, refl, arith, ◌≤ℤ◌, ℤ, pos, length,
}
use xuperchain.Go.Text.{Text, lit}
use xuperchain.Go.Big.{bytes}
use xuperchain.Go.Decimal.{set_string}
use xuperchain.Pb.{UtxoOutput, Transaction, SignatureInfo, PreExecWithSelectUtxoResponse}
use xuperchain.Exec.{History, Result, ok, Effect, ◌>>=◌}
use xuperchain.Client.Value.{utxo_sum, output_sum, input_sum}
use xuperchain.Client.Inputs.{gen_initiator, plain_output}
use xuperchain.Client.Keys.{make_tx_id, read_address}
use xuperchain.Client.RawTx.Post.{IsPosted, required, signed_by, send_tx-IsPosted}
use xuperchain.Client.RawTx.{send_tx, sign_tx_for_initiator, empty_tx}
use xuperchain.Client.Compliance.{gen_real_tx, real_need, utxos_to}
use xuperchain.Client.Compliance.Sums.{IsPayable}
use xuperchain.Client.Compliance.Balance.{gen_real_tx-IsBalanced}
use xuperchain.Client.Merge.{MergeUtxoCommand, is_nil, merge_tx}
use xuperchain.Client.Merge.Balance.{IsTotalled, SelectsBySize, merge_tx-IsBalanced}
use xuperchain.Tests.World.{world, good_header, one_utxo, selected}
use xuperchain.Tests.Client.{bob_tx, to_bob, alice_input}

totalled : (addr : Text) (outs : UtxoOutput) → ok (one_utxo addr 5) ≡ ok outs → IsTotalled outs
totalled addr outs e =
    let found : one_utxo addr 5 ≡ outs = cc e in subst IsTotalled found (selected addr 0).0

world-SelectsBySize : SelectsBySize world
world-SelectsBySize = record { totalled = λ h request outs e. totalled request.address outs e }

abbrev merging : MergeUtxoCommand
merging = record {
  account = lit "alice";
  account_path = [];
  name = lit "xuper";
  keys = lit "keys";
  crypto = [];
}

abbrev run_merge : Result Transaction × History
run_merge = merge_tx world merging (lit "alice") (lit "alice") []

abbrev checked : Transaction
checked = record empty_tx { txid = lit "c"; tx_outputs = plain_output (lit "alice") (pos 20) ∷ [] }

abbrev nothing_run : PreExecWithSelectUtxoResponse
nothing_run = record {
  header = good_header;
  bcname = lit "xuper";
  response = none;
  utxo_output = none;
}

abbrev run_real : Result Transaction × History
run_real = gen_real_tx world to_bob nothing_run checked []

abbrev merged_tx : Transaction
merged_tx = record empty_tx {
  nonce = lit "n";
  timestamp = pos 9;
  version = pos 3;
  tx_inputs = alice_input 5 ∷ [];
  tx_outputs = plain_output (lit "alice") (pos 5) ∷ [];
  initiator = lit "alice";
  auth_require = lit "alice" ∷ [];
}

merge_of_one : merge_tx world merging (lit "alice") (lit "alice") [] ≡ (ok merged_tx, run_merge.1)
unfolding merge_tx ◌>>=◌ xuperchain.Client.RawTx.draw_nonce xuperchain.Client.RawTx.read_clock
    xuperchain.Client.Inputs.gen_tx_inputs_with_merge_utxo gen_initiator
    xuperchain.Client.Merge.merge_trans xuperchain.Client.Inputs.sign_lock_utxo
    xuperchain.Client.Keys.key_pair xuperchain.Client.Keys.read_public_key
    xuperchain.Client.Keys.read_keys xuperchain.Client.Keys.read_private_key
    xuperchain.Client.Keys.sign_utxo set_string xuperchain.Go.Decimal.print_int
    xuperchain.Go.Decimal.digits xuperchain.Client.Keys.gen_auth_requirement
    xuperchain.Client.Split.pre_exec_nothing xuperchain.Client.Requests.draw_log_id
    xuperchain.Client.Keys.locked_utxo_hash xuperchain.Go.Scan.trim_space
merge_of_one = refl

merge_tx-IsBalanced_example :
    (input_sum merged_tx.tx_inputs ≡ output_sum merged_tx.tx_outputs)
    × (is_nil merged_tx.tx_inputs ≡ false)
    × (length merged_tx.tx_outputs ≡ 1)
merge_tx-IsBalanced_example =
    merge_tx-IsBalanced world merging (lit "alice") (lit "alice") [] run_merge.1 merged_tx
      world-SelectsBySize merge_of_one

abbrev sign_of_alice : SignatureInfo
sign_of_alice = record { public_key = lit "alice"; sign = lit "s" }

abbrev real_tx : Transaction
real_tx = record empty_tx {
  txid = lit "id";
  desc = lit "Maybe common transfer transaction";
  nonce = lit "n";
  timestamp = pos 9;
  version = pos 3;
  tx_inputs = record (alice_input 20) { ref_txid = lit "c" } ∷ [];
  tx_outputs =
      plain_output (lit "alice") (pos 10)
      ∷ plain_output (lit "$") (pos 3)
      ∷ plain_output [] (pos 7)
      ∷ [];
  initiator = lit "alice";
  auth_require = lit "alice/alice" ∷ [] ∷ [];
  initiator_signs = sign_of_alice ∷ [];
  auth_require_signs = sign_of_alice ∷ [];
}

real_of_checked : gen_real_tx world to_bob nothing_run checked [] ≡ (ok real_tx, run_real.1)
unfolding gen_real_tx ◌>>=◌ gen_initiator real_need set_string xuperchain.Go.Decimal.digits
    xuperchain.Client.Compliance.generate_multi_tx_outputs
    xuperchain.Client.Compliance.multi_outputs xuperchain.Client.Compliance.self_outputs
    xuperchain.Go.Decimal.print_int xuperchain.Prelude.◌-ℤ◌
    xuperchain.Client.Compliance.total_selected utxos_to xuperchain.Go.Text.text_eq
    xuperchain.Prelude.◌+ℤ◌ xuperchain.Go.Big.set_bytes bytes
    xuperchain.Client.Compliance.fee_outputs xuperchain.Client.Compliance.contract_outputs
    xuperchain.Client.Inputs.generate_pure_tx_inputs xuperchain.Client.RawTx.desc_or_empty
    xuperchain.Client.Requests.get_desc xuperchain.Client.RawTx.draw_nonce
    xuperchain.Client.RawTx.read_clock xuperchain.Client.Requests.auth_of
    xuperchain.Client.Compliance.sign_and_id xuperchain.Client.Compliance.tx_id_or_empty
    xuperchain.Client.RawTx.sign_tx_for_initiator xuperchain.Client.Keys.make_tx_id
    xuperchain.Client.Keys.tx_to_xledger xuperchain.Client.Keys.key_pair
    xuperchain.Client.Keys.read_public_key xuperchain.Client.Keys.read_private_key
    xuperchain.Client.Keys.read_keys xuperchain.Client.Keys.read_address
    xuperchain.Client.Keys.sign_tx_for_ak xuperchain.Client.Keys.sign_tx_with
    xuperchain.Client.Keys.compute_tx_sign xuperchain.Go.Scan.trim_space
real_of_checked = refl

alice_initiates : gen_initiator world to_bob [] ≡ (ok (lit "alice"), [])
unfolding gen_initiator xuperchain.Exec.pure
alice_initiates = refl

need_of_bob : real_need to_bob ≡ ok (pos 10)
unfolding real_need set_string xuperchain.Go.Decimal.digits xuperchain.Prelude.◌+ℤ◌
need_of_bob = refl

bob-IsPayable : IsPayable to_bob.amount
unfolding set_string xuperchain.Go.Decimal.digits
bob-IsPayable e = (7, refl)

enough_checked : pos 10 ≤ℤ pos (utxo_sum (utxos_to (lit "alice") checked.txid 0 checked.tx_outputs))
unfolding utxos_to xuperchain.Go.Text.text_eq xuperchain.Go.Big.set_bytes bytes
enough_checked = omega arith

gen_real_tx-IsBalanced_example : input_sum real_tx.tx_inputs ≡ output_sum real_tx.tx_outputs
gen_real_tx-IsBalanced_example =
    gen_real_tx-IsBalanced world to_bob nothing_run checked [] [] run_real.1 (lit "alice") (pos 10)
      real_tx alice_initiates need_of_bob enough_checked bob-IsPayable refl real_of_checked

abbrev run_send : Result Text × History
run_send = send_tx world to_bob bob_tx []

sent_to_bob : send_tx world to_bob bob_tx [] ≡ (ok (lit "id"), run_send.1)
unfolding send_tx ◌>>=◌ xuperchain.Client.Keys.read_address xuperchain.Client.Keys.read_keys
    xuperchain.Go.Scan.trim_space xuperchain.Client.RawTx.sign_tx_for_initiator
    xuperchain.Client.Keys.key_pair xuperchain.Client.Keys.read_public_key
    xuperchain.Client.Keys.read_private_key xuperchain.Client.Keys.sign_tx_for_ak
    xuperchain.Client.Keys.sign_tx_with xuperchain.Client.Keys.compute_tx_sign
    xuperchain.Client.Keys.make_tx_id xuperchain.Client.Keys.tx_to_xledger
    xuperchain.Client.RawTx.post_tx xuperchain.Client.Requests.draw_log_id
    xuperchain.Client.Requests.auth_of
sent_to_bob = refl

send_tx-IsPosted_example :
    (from_addr : Text) × (signs : List SignatureInfo) × (k k' : History) × (read_address world
        to_bob.keys []
      ≡ (ok from_addr, k))
    × (sign_tx_for_initiator world to_bob (required to_bob from_addr bob_tx) k ≡ (ok signs, k'))
    × (make_tx_id world (signed_by signs (required to_bob from_addr bob_tx)) ≡ ok (lit "id"))
    × IsPosted world to_bob.chain_name
        (record (signed_by signs (required to_bob from_addr bob_tx)) { txid = lit "id" })
        run_send.1
send_tx-IsPosted_example = send_tx-IsPosted world to_bob bob_tx [] run_send.1 (lit "id") sent_to_bob
