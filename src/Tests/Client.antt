-- ===== src/Tests/Client.antt =====
-- The client's theorems at small transfers and splits.
use xuperchain.Prelude.{
  true, false, Option, none, some, List, [], ◌∷◌, ◌≡◌, refl, ℕ, ◌≤◌, arith, ℤ, pos, ◌≤ℤ◌, ◌++◌,
  length, ◌<◌, replicate, ◌-◌, ◌*◌, ◌/◌, All,
}
use xuperchain.Go.Text.{lit, text_eq}
use xuperchain.Go.Big.{bytes}
use xuperchain.Go.Decimal.{print_int, set_string, parse_int}
use xuperchain.Pb.{XChainError, Transaction, TxInput, TxOutput}
use xuperchain.Exec.{History, ok, Effect, ◌>>=◌}
use xuperchain.Client.Trans.{CommTrans}
use xuperchain.Client.Value.{output_sum, input_sum}
use xuperchain.Client.Keys.{read_keys, read_address}
use xuperchain.Client.Outputs.{pay_accounts, pay_all, read_account, gen_tx_outputs}
use xuperchain.Client.Outputs.Value.{IsPositive, gen_tx_outputs-IsPaid}
use xuperchain.Client.Outputs.Gas.{fee_output, gen_tx_outputs_covers_gas}
use xuperchain.Client.Inputs.{change_output, gen_initiator, ask_utxo, gen_tx_inputs, plain_output}
use xuperchain.Client.RawTx.{empty_tx, draw_nonce, read_clock, gen_raw_tx}
use xuperchain.Client.RawTx.Balance.{gen_raw_tx-IsBalanced}
use xuperchain.Client.Split.{
  gen_split_outputs, split_loop, split_tx, split_trans, no_compliance, SplitUtxoCommand,
}
use xuperchain.Client.Split.Shares.{gen_split_outputs_lem, gen_split_outputs_conserves}
use xuperchain.Client.Split.Balance.{split_tx-IsBalanced}
use xuperchain.Tests.World.{world, world-SelectsEnough}

-- 7 to bob, and a fee of 3.
abbrev pub to_bob : CommTrans
to_bob = record {
  to = lit "bob";
  amount = lit "7";
  descfile = [];
  fee = lit "3";
  frozen_height = pos 0;
  version = pos 3;
  from = lit "alice";
  module_name = [];
  contract_name = [];
  method_name = [];
  args = [];
  multi_addrs = [];
  output = [];
  is_quick = false;
  is_print = false;
  chain_name = lit "xuper";
  keys = lit "keys";
  crypto_type = [];
  compliance_check = no_compliance;
  debug_tx = false;
}

abbrev bob_outputs : List TxOutput
bob_outputs =
    record { amount = bytes (pos 7); to_addr = lit "bob"; frozen_height = pos 0 }
    ∷ fee_output world 3
    ∷ []

to_bob_outputs : gen_tx_outputs world to_bob (pos 2) ≡ ok (bob_outputs, pos 10)
unfolding gen_tx_outputs pay_accounts pay_all read_account text_eq parse_int set_string
    xuperchain.Go.Decimal.parse_uint xuperchain.Go.Decimal.digits xuperchain.Prelude.◌+ℤ◌
to_bob_outputs = refl

gen_tx_outputs-IsPaid_example : (pos 10 ≡ pos (output_sum bob_outputs)) × All IsPositive bob_outputs
gen_tx_outputs-IsPaid_example =
    gen_tx_outputs-IsPaid world to_bob (pos 2) bob_outputs (pos 10) to_bob_outputs

gen_tx_outputs_covers_gas_example :
    (fee : ℕ) × (set_string to_bob.fee ≡ some (pos fee))
    × (pos 2 ≤ℤ pos fee)
    × ((front : List TxOutput) × (bob_outputs ≡ front ++ fee_output world fee ∷ []))
gen_tx_outputs_covers_gas_example =
    gen_tx_outputs_covers_gas world to_bob (pos 2) bob_outputs (pos 10) (omega arith) to_bob_outputs

abbrev pub alice_input : ℕ → TxInput
alice_input n = record {
  ref_txid = lit "t";
  ref_offset = pos 0;
  from_addr = lit "alice";
  amount = bytes (pos n);
  frozen_height = pos 0;
}

abbrev pub bob_tx : Transaction
bob_tx = record empty_tx {
  desc = lit "d";
  nonce = lit "n";
  timestamp = pos 9;
  version = pos 3;
  tx_inputs = alice_input 15 ∷ [];
  tx_outputs = bob_outputs ++ plain_output (lit "alice") (pos 5) ∷ [];
  initiator = lit "alice";
}

abbrev pub bob_history : History
bob_history =
    Effect.select_utxo (record {
      bcname = lit "xuper";
      address = lit "alice";
      publickey = [];
      total_need = lit "10";
      user_sign = [];
      need_lock = false;
    })
    ∷ Effect.read_clock
    ∷ Effect.draw_nonce
    ∷ []

to_bob_tx : gen_raw_tx world to_bob (lit "d") none [] [] ≡ (ok bob_tx, bob_history)
unfolding gen_raw_tx ◌>>=◌ draw_nonce read_clock gen_tx_outputs pay_accounts text_eq pay_all
    set_string xuperchain.Go.Decimal.digits gen_tx_inputs gen_initiator ask_utxo print_int
    xuperchain.Prelude.◌+ℤ◌ change_output xuperchain.Prelude.◌-ℤ◌
to_bob_tx = refl

gen_raw_tx-IsBalanced_example : input_sum bob_tx.tx_inputs ≡ output_sum bob_tx.tx_outputs
gen_raw_tx-IsBalanced_example =
    gen_raw_tx-IsBalanced world to_bob (lit "d") none [] [] bob_history bob_tx world-SelectsEnough
      refl to_bob_tx

abbrev alice_share : ℕ → TxOutput
alice_share n = plain_output (lit "alice") (pos n)

three_shares :
    gen_split_outputs (lit "alice") 3 (pos 10)
    ≡ ok (alice_share 3 ∷ alice_share 3 ∷ alice_share 4 ∷ [])
unfolding gen_split_outputs
three_shares = refl

gen_split_outputs_lem_run :
    gen_split_outputs (lit "alice") 3 (pos 10)
    ≡ ok (replicate (3 - 1) (alice_share (10 / 3)) ++ alice_share (10 - (3 - 1) * (10 / 3)) ∷ [])
gen_split_outputs_lem_run = gen_split_outputs_lem (lit "alice") 3 10 (omega arith) (omega arith)

gen_split_outputs_conserves_example :
    (pos 10 ≡ pos (output_sum (alice_share 3 ∷ alice_share 3 ∷ alice_share 4 ∷ [])))
    × (length (alice_share 3 ∷ alice_share 3 ∷ alice_share 4 ∷ []) ≡ 3)
gen_split_outputs_conserves_example =
    gen_split_outputs_conserves (lit "alice") 3 (pos 10)
      (alice_share 3 ∷ alice_share 3 ∷ alice_share 4 ∷ []) (omega arith) three_shares

abbrev in_three : SplitUtxoCommand
in_three = record {
  account = lit "alice";
  num = pos 3;
  account_path = [];
  is_gen_raw_tx = false;
  multi_addrs = [];
  output = [];
  name = lit "xuper";
  keys = lit "keys";
  crypto = [];
}

abbrev split_history : History
split_history =
    Effect.pre_exec (record {
      header = some (record { logid = lit "l"; from_node = []; error = XChainError.success });
      bcname = lit "xuper";
      requests = [];
      initiator = lit "alice";
      auth_require = lit "alice" ∷ [];
    })
    ∷ Effect.draw_log_id
    ∷ Effect.select_utxo (record {
      bcname = lit "xuper";
      address = lit "alice";
      publickey = [];
      total_need = lit "10";
      user_sign = [];
      need_lock = false;
    })
    ∷ Effect.get_balance (lit "xuper") (lit "alice")
    ∷ Effect.read_clock
    ∷ Effect.draw_nonce
    ∷ []

abbrev alice_tx : Transaction
alice_tx = record empty_tx {
  nonce = lit "n";
  timestamp = pos 9;
  version = pos 3;
  tx_inputs = alice_input 15 ∷ [];
  tx_outputs = alice_share 3 ∷ alice_share 3 ∷ alice_share 4 ∷ alice_share 5 ∷ [];
  initiator = lit "alice";
  auth_require = lit "alice" ∷ [];
}

split_in_three :
    split_tx world in_three 3 (lit "alice") (lit "alice") []
    ≡ (ok (split_trans world in_three (lit "alice") (lit "10"), alice_tx), split_history)
unfolding split_tx ◌>>=◌ draw_nonce read_clock xuperchain.Client.Split.base_common_trans
    xuperchain.Client.Split.get_balance_helper set_string xuperchain.Go.Decimal.digits
    xuperchain.Client.Split.fill_split gen_tx_inputs gen_initiator split_trans ask_utxo print_int
    gen_split_outputs xuperchain.Client.Keys.gen_auth_requirement
    xuperchain.Client.Split.pre_exec_nothing xuperchain.Client.Requests.draw_log_id change_output
    xuperchain.Prelude.◌-ℤ◌
split_in_three = refl

split_tx-IsBalanced_example : input_sum alice_tx.tx_inputs ≡ output_sum alice_tx.tx_outputs
split_tx-IsBalanced_example =
    split_tx-IsBalanced world in_three 3 (lit "alice") (lit "alice") [] split_history
      (split_trans world in_three (lit "alice") (lit "10")) alice_tx world-SelectsEnough
      (omega arith) split_in_three
