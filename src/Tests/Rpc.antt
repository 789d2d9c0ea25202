-- ===== src/Tests/Rpc.antt =====
-- The theorems on the interface of the node, at requests to the small node.
use xuperchain.Prelude.{
  Bool, true, false, Option, none, some, List, [], ◌∷◌, ◌≡◌, refl, ◌↔◌, ◌⊎◌, inl, inr, ℕ, ◌≤◌, ◌<◌,
  ℤ, pos, two_63, arith,
}
use xuperchain.Go.Text.{Text, lit}
use xuperchain.Go.Decimal.{set_string}
use xuperchain.Pb.{
  XChainError, TransactionStatus, TxStatus, UtxoInput, InvokeRpcRequest,
  PreExecWithSelectUtxoRequest,
}
use xuperchain.Pb.Query.{AddressStatus, CommonIn, ViewOption, BlockId, BlockHeight}
use xuperchain.Client.Inputs.Change.{IsSelection}
use xuperchain.Client.RawTx.{empty_tx}
use xuperchain.Server.Handle.{StdError}
use xuperchain.Server.Rpc.{Read, Call, Calls}
use xuperchain.Server.Rpc.Submit.{post_tx, pre_exec, pre_exec_steps}
use xuperchain.Server.Rpc.Submit.Post.{
  Broadcast, PreExecuted, post_tx_broadcasts_accepted, pre_exec_answers,
}
use xuperchain.Server.Rpc.Select.{
  select, select_utxo_steps, output_of, pre_exec_with_select_utxo, select_after, with_response,
  total_amount,
}
use xuperchain.Server.Rpc.Select.Ledger.{select-IsSelection}
use xuperchain.Server.Rpc.Select.Combined.{
  IsCovered, pre_exec_with_select_utxo_covers, select_after_overflow,
}
use xuperchain.Server.Rpc.Blocks.{get_block, get_block_by_height, query_tx}
use xuperchain.Server.Rpc.Blocks.Chains.{get_system_status}
use xuperchain.Server.Rpc.Blocks.Found.{
  BlockById, BlockByHeight, FoundTx, blocks_are_found, query_tx_finds,
}
use xuperchain.Server.Rpc.Blocks.Status.{IsSystems, get_system_status_lists}
use xuperchain.Server.Rpc.ReadOnly.{OnlyReads}
use xuperchain.Server.Rpc.ReadOnly.Queries.{calls_after, get_balance_of, queries_only_read}
use xuperchain.Tests.Node.{alice, rpc_world, rpc_world-LedgerSelects, three_gas}

abbrev xuper : Text
xuper = lit "xuper"

abbrev posted : TxStatus
posted = record {
  header = none;
  bcname = xuper;
  txid = lit "id";
  status = TransactionStatus.unconfirm;
  distance = pos 0;
  tx = some empty_tx;
}

post_tx_broadcasts_accepted_example :
    Broadcast rpc_world
      (some posted)
      []
      (post_tx rpc_world (some posted) []).0.error
      (post_tx rpc_world (some posted) []).1
post_tx_broadcasts_accepted_example = post_tx_broadcasts_accepted rpc_world (some posted) []

abbrev executed : InvokeRpcRequest
executed = record {
  header = none;
  bcname = xuper;
  requests = [];
  initiator = alice;
  auth_require = [];
}

pre_exec_answers_run :
    PreExecuted rpc_world
      (some executed)
      []
      (pre_exec rpc_world (some executed) []).0
      (pre_exec rpc_world (some executed) []).1
pre_exec_answers_run = pre_exec_answers rpc_world (some executed) []

abbrev asked : UtxoInput
asked = record {
  bcname = xuper;
  address = alice;
  publickey = [];
  total_need = lit "7";
  user_sign = [];
  need_lock = false;
}

asked_amount : set_string asked.total_need ≡ some (pos 7)
unfolding set_string xuperchain.Go.Decimal.digits
asked_amount = refl

asked_fine : (select rpc_world (some asked) []).0.error ≡ none
unfolding select set_string xuperchain.Go.Decimal.digits xuperchain.Server.Rpc.respond
    select_utxo_steps xuperchain.Server.Rpc.◌>>=◌ xuperchain.Server.Rpc.param
    xuperchain.Server.Rpc.handle xuperchain.Server.Handle.new_chain_handle
    xuperchain.Go.Text.text_eq xuperchain.Server.Handle.select_utxo
    xuperchain.Server.Handle.check_select_utxo_sign output_of
    xuperchain.Server.Convert.utxo_list_to_xchain
asked_fine = refl

select-IsSelection_example : IsSelection 7 (select rpc_world (some asked) []).0.response
select-IsSelection_example =
    select-IsSelection rpc_world asked [] 7 rpc_world-LedgerSelects asked_amount asked_fine

abbrev combined : PreExecWithSelectUtxoRequest
combined = record {
  header = none;
  bcname = xuper;
  address = alice;
  total_amount = pos 4;
  sign_info = none;
  need_lock = false;
  request = some executed;
}

combined_fine : (pre_exec_with_select_utxo rpc_world (some combined) []).0.error ≡ none
unfolding pre_exec_with_select_utxo pre_exec xuperchain.Server.Rpc.respond pre_exec_steps
    xuperchain.Server.Rpc.◌>>=◌ xuperchain.Server.Rpc.param
    xuperchain.Server.Convert.convert_invoke_req xuperchain.Server.Rpc.handle
    xuperchain.Server.Handle.new_chain_handle xuperchain.Go.Text.text_eq select_after total_amount
    xuperchain.Go.Int64.wrap_int64 xuperchain.Prelude.◌+ℤ◌ xuperchain.Server.Convert.via_wire select
    select_utxo_steps xuperchain.Go.Decimal.print_int xuperchain.Go.Decimal.digits set_string
    xuperchain.Server.Convert.utxo_list_to_xchain xuperchain.Server.Handle.check_select_utxo_sign
    xuperchain.Server.Handle.select_utxo output_of
combined_fine = refl

pre_exec_with_select_utxo_covers_example :
    let done_by = pre_exec rpc_world (some executed) [] in
    let answer = (pre_exec_with_select_utxo rpc_world (some combined) []).0 in
    (done_by.0.error ≡ none)
    × (answer.response.response ≡ done_by.0.response.response)
    × IsCovered
        (total_amount rpc_world combined done_by.0.response.response)
        answer.response.utxo_output
pre_exec_with_select_utxo_covers_example =
    pre_exec_with_select_utxo_covers rpc_world combined [] rpc_world-LedgerSelects combined_fine

abbrev too_much : PreExecWithSelectUtxoRequest
too_much = record combined { total_amount = pos 9223372036854775807 }

select_after_overflow_example :
    select_after rpc_world too_much (some three_gas) []
    ≡ (record { response = with_response rpc_world too_much (some three_gas); error = none }, [])
select_after_overflow_example =
    select_after_overflow rpc_world too_much three_gas 9223372036854775807 3 [] refl refl
      (omega arith) (omega arith) (omega arith)

abbrev balance_request : AddressStatus
balance_request = record {
  header = none;
  address = alice;
  bcs =
      record { bcname = xuper; balance = []; error = XChainError.success }
      ∷ record { bcname = lit "lost"; balance = []; error = XChainError.success }
      ∷ [];
}

queries_only_read_example :
    OnlyReads [] (calls_after rpc_world (get_balance_of (some balance_request)) [])
queries_only_read_example = queries_only_read rpc_world (get_balance_of (some balance_request)) []

abbrev pub everything : CommonIn
everything = record { header = none; view_option = ViewOption.none_ }

get_system_status_lists_example :
    IsSystems rpc_world
      (some everything)
      []
      (get_system_status rpc_world (some everything) []).0
      (get_system_status rpc_world (some everything) []).1
get_system_status_lists_example = get_system_status_lists rpc_world (some everything) []

abbrev block_b : BlockId
block_b = record { header = none; bcname = xuper; blockid = lit "b" }

abbrev fourth : BlockHeight
fourth = record { header = none; bcname = xuper; height = pos 4 }

blocks_are_found_example :
    BlockById rpc_world
      (some block_b)
      []
      (get_block rpc_world (some block_b) []).0.error
      (get_block rpc_world (some block_b) []).0.response
    × BlockByHeight rpc_world
        (some fourth)
        []
        (get_block_by_height rpc_world (some fourth) []).0.error
        (get_block_by_height rpc_world (some fourth) []).0.response
blocks_are_found_example = blocks_are_found rpc_world (some block_b) (some fourth) []

query_tx_finds_run :
    FoundTx rpc_world
      (some posted)
      []
      (query_tx rpc_world (some posted) []).0.error
      (query_tx rpc_world (some posted) []).0.response
query_tx_finds_run = query_tx_finds rpc_world (some posted) []
