-- ===== src/Tests/Commands.antt =====
-- A proposal that is thawed with a compliance check, and a vote that skips it.
use xuperchain.Prelude.{true, false, none, some, [], ◌∷◌, ◌++◌, ◌≡◌, refl, pos}
use xuperchain.Go.Text.{Text, lit}
use xuperchain.Pb.{Transaction, InvokeResponse}
use xuperchain.Exec.{ok, History, Result, Io}
use xuperchain.Client.Env.{Env}
use xuperchain.Client.RawTx.Post.{IsPosted}
use xuperchain.Client.Commands.{CommandEnv, Cli}
use xuperchain.Client.Commands.Run.{Command, thaw_proposal, vote_proposal, run_command}
use xuperchain.Client.Commands.Endorsed.{IsEndorsed}
use xuperchain.Client.Commands.Checked.{run_command-IsEndorsed, run_command_is_unchecked}
use xuperchain.Tests.World.{world, down, good_header, one_utxo}

abbrev no_gas : InvokeResponse
no_gas = record {
  inputs = [];
  outputs = [];
  utxo_inputs = [];
  utxo_outputs = [];
  gas_used = pos 0;
  requests = [];
  responses = [];
  response = [];
}

abbrev checking : Env
checking = record world {
  pre_exec = λ h request.
      ok (record { header = good_header; bcname = request.bcname; response = some no_gas });
  pre_exec_with_select_utxo = λ h request. ok (record {
    header = good_header;
    bcname = request.bcname;
    response = some no_gas;
    utxo_output = some (one_utxo (lit "alice") 20);
  });
  endorser_call = λ h request. ok (record {
    header = good_header;
    response_name = request.request_name;
    endorser_address = lit "e";
    endorser_sign = some (record { public_key = lit "e"; sign = lit "s" });
    response_data = [];
  });
}

abbrev commands : CommandEnv
commands = record {
  env = checking;
  unmarshal_args = λ text. down;
  marshal_evm_args = λ args. down;
  marshal_args = λ args. [];
  marshal_code_desc = λ runtime module_name. [];
  unmarshal_stop_height = λ text. down;
  marshal_weights = λ weights. down;
  get_system_status = λ h. down;
  query_acl = λ h name account. down;
}

abbrev cli : Cli
cli = record {
  name = lit "xuper";
  keys = lit "keys";
  crypto = lit "default";
  compliance_check = record {
    is_need_compliance_check = true;
    endorse_service_fee = pos 10;
    endorse_service_fee_addr = lit "fee";
    endorse_service_addr = lit "e";
  };
}

abbrev thaw : Command
thaw = thaw_proposal (lit "1") (lit "0")

abbrev vote : Command
vote = vote_proposal (lit "1") (lit "5") (lit "0")

abbrev thawed : Result Text × History
thawed = run_command commands cli thaw []

abbrev voted : Result Text × History
voted = run_command commands cli vote []

thaw_succeeds : thawed ≡ (ok (lit "id"), thawed.1)
unfolding run_command xuperchain.Exec.◌>>=◌ xuperchain.Client.Commands.Govern.fill_thaw
    xuperchain.Client.Keys.read_address xuperchain.Client.Keys.read_keys
    xuperchain.Client.Commands.submit xuperchain.Client.Compliance.transfer
    xuperchain.Client.Requests.gen_pre_exe_with_select_utxo_res
    xuperchain.Client.Requests.pre_exec_with_select_utxo_req xuperchain.Client.Requests.invoke_req
    xuperchain.Client.Requests.draw_log_id xuperchain.Client.Inputs.gen_initiator
    xuperchain.Client.Requests.pre_exec_auth xuperchain.Client.Requests.gen_auth_require_quick
    xuperchain.Client.Requests.extra_amount xuperchain.Go.Text.text_eq
    xuperchain.Go.Decimal.parse_int xuperchain.Go.Decimal.parse_uint
    xuperchain.Client.Requests.check_responses xuperchain.Client.Requests.check_fee
    xuperchain.Client.Compliance.gen_complete_tx_and_post
    xuperchain.Client.Compliance.gen_compliance_check_tx xuperchain.Client.Inputs.generate_tx_input
    xuperchain.Go.Decimal.set_string xuperchain.Go.Decimal.print_int xuperchain.Go.Decimal.digits
    xuperchain.Client.Compliance.generate_tx_output xuperchain.Client.Outputs.pay_all
    xuperchain.Client.RawTx.read_clock xuperchain.Client.RawTx.draw_nonce
    xuperchain.Client.Compliance.sign_and_id xuperchain.Client.RawTx.sign_tx_for_initiator
    xuperchain.Client.Keys.key_pair xuperchain.Client.Keys.read_public_key
    xuperchain.Client.Keys.read_private_key xuperchain.Client.Keys.sign_tx_for_ak
    xuperchain.Client.Keys.sign_tx_with xuperchain.Client.Keys.compute_tx_sign
    xuperchain.Client.Compliance.gen_real_tx xuperchain.Client.Compliance.real_need
    xuperchain.Client.Compliance.generate_multi_tx_outputs
    xuperchain.Client.Compliance.multi_outputs xuperchain.Client.Compliance.self_outputs
    xuperchain.Prelude.◌-ℤ◌ xuperchain.Client.Compliance.total_selected
    xuperchain.Client.Compliance.utxos_to xuperchain.Go.Scan.trim_space
    xuperchain.Client.Inputs.change_output xuperchain.Prelude.◌+ℤ◌ xuperchain.Go.Big.set_bytes
    xuperchain.Go.Big.bytes xuperchain.Client.Compliance.fee_outputs
    xuperchain.Client.Compliance.contract_outputs xuperchain.Client.RawTx.desc_or_empty
    xuperchain.Client.Requests.get_desc xuperchain.Client.Compliance.compliance_check
    xuperchain.Client.RawTx.post_tx xuperchain.Client.Compliance.tx_id_or_empty
    xuperchain.Client.Keys.make_tx_id
thaw_succeeds = refl

vote_succeeds : voted ≡ (ok (lit "id"), voted.1)
unfolding run_command xuperchain.Exec.◌>>=◌ xuperchain.Client.Commands.Govern.fill_vote_proposal
    xuperchain.Client.Keys.read_address xuperchain.Client.Keys.read_keys
    xuperchain.Client.Commands.submit xuperchain.Client.Compliance.transfer
    xuperchain.Client.RawTx.generate_tx xuperchain.Client.Requests.gen_pre_exe_res
    xuperchain.Client.Requests.invoke_req xuperchain.Client.Requests.draw_log_id
    xuperchain.Client.Inputs.gen_initiator xuperchain.Client.Requests.pre_exec_auth
    xuperchain.Client.Requests.gen_auth_require_quick xuperchain.Client.Requests.check_responses
    xuperchain.Client.RawTx.desc_or_empty xuperchain.Client.Requests.get_desc
    xuperchain.Client.RawTx.gen_raw_tx xuperchain.Client.RawTx.draw_nonce
    xuperchain.Client.RawTx.read_clock xuperchain.Client.Outputs.gen_tx_outputs
    xuperchain.Client.Outputs.pay_accounts xuperchain.Go.Text.text_eq
    xuperchain.Client.Outputs.pay_all xuperchain.Go.Scan.trim_space xuperchain.Go.Decimal.set_string
    xuperchain.Go.Decimal.digits xuperchain.Client.Inputs.gen_tx_inputs
    xuperchain.Client.Inputs.ask_utxo xuperchain.Go.Decimal.print_int
    xuperchain.Client.RawTx.send_tx xuperchain.Client.RawTx.sign_tx_for_initiator
    xuperchain.Client.Keys.key_pair xuperchain.Client.Keys.read_public_key
    xuperchain.Client.Keys.read_private_key xuperchain.Client.Keys.sign_tx_for_ak
    xuperchain.Client.Keys.sign_tx_with xuperchain.Client.Keys.compute_tx_sign
    xuperchain.Client.Keys.make_tx_id xuperchain.Client.RawTx.post_tx
vote_succeeds = refl

run_command-IsEndorsed_example : IsEndorsed checking (lit "xuper") thawed.1
run_command-IsEndorsed_example =
    run_command-IsEndorsed commands cli thaw [] refl refl refl thaw_succeeds

run_command_is_unchecked_example :
    (tx : Transaction) × (tx.auth_require_signs ≡ tx.initiator_signs)
    × IsPosted checking (lit "xuper") tx voted.1
run_command_is_unchecked_example =
    run_command_is_unchecked commands cli vote [] refl refl vote_succeeds
