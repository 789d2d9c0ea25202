-- ===== src/Tests/Connected.antt =====
-- A client that is connected to the small node, and the interceptor of that node.
use xuperchain.Prelude.{Option, none, some, [], ◌≡◌, refl, ◌↔◌}
use xuperchain.Go.Text.{lit}
use xuperchain.Pb.{Header, XChainError}
use xuperchain.Exec.{ok}
use xuperchain.Client.Value.{output_sum, input_sum}
use xuperchain.Client.RawTx.{gen_raw_tx}
use xuperchain.Server.Intercept.{unary_interceptor, req_header}
use xuperchain.Server.Intercept.Code.{unary_interceptor-success}
use xuperchain.Server.Rpc.Blocks.Chains.{get_block_chains, get_block_chains_steps}
use xuperchain.Server.Intercept.{HasHeader}
use xuperchain.Pb.Query.{CommonIn, BlockChains}
use xuperchain.Server.Rpc.{Calls, Answer, respond, ◌>>=◌}
use xuperchain.Node.{connected}
use xuperchain.Node.Transfer.{connected-gen_raw_tx}
use xuperchain.Tests.World.{world}
use xuperchain.Tests.Node.{
  rpc_world, rpc_world-LedgerSelects, intercept_world, intercept_world-SuccessIsOwn, one_node,
}
use xuperchain.Tests.Rpc.{everything}
use xuperchain.Tests.Client.{to_bob, bob_tx, bob_history}

connected-to_bob :
    gen_raw_tx (connected world one_node) to_bob (lit "d") none [] [] ≡ (ok bob_tx, bob_history)
unfolding gen_raw_tx connected xuperchain.Exec.◌>>=◌ xuperchain.Client.RawTx.draw_nonce
    xuperchain.Client.RawTx.read_clock xuperchain.Client.Outputs.gen_tx_outputs
    xuperchain.Client.Outputs.pay_accounts xuperchain.Go.Text.text_eq
    xuperchain.Client.Outputs.pay_all xuperchain.Go.Decimal.set_string xuperchain.Go.Decimal.digits
    xuperchain.Client.Inputs.gen_tx_inputs xuperchain.Client.Inputs.gen_initiator
    xuperchain.Client.Inputs.ask_utxo xuperchain.Node.node_select unary_interceptor
    xuperchain.Server.Rpc.Select.select respond xuperchain.Server.Rpc.Select.select_utxo_steps ◌>>=◌
    xuperchain.Server.Rpc.param xuperchain.Server.Rpc.handle
    xuperchain.Server.Handle.new_chain_handle xuperchain.Server.Handle.select_utxo
    xuperchain.Server.Handle.check_select_utxo_sign xuperchain.Server.Rpc.Select.output_of
    xuperchain.Server.Convert.utxo_list_to_xchain xuperchain.Go.Decimal.print_int
    xuperchain.Prelude.◌+ℤ◌ xuperchain.Client.Inputs.change_output xuperchain.Prelude.◌-ℤ◌
    xuperchain.Server.Intercept.resp_header xuperchain.Server.Intercept.convert_err
    xuperchain.Server.Intercept.find_code
connected-to_bob = refl

connected-gen_raw_tx_example : input_sum bob_tx.tx_inputs ≡ output_sum bob_tx.tx_outputs
connected-gen_raw_tx_example =
    connected-gen_raw_tx one_node world to_bob (lit "d") none [] [] bob_history bob_tx
      rpc_world-LedgerSelects refl connected-to_bob

abbrev common_header : HasHeader CommonIn
common_header = record {
  header_of = λ req. req.header;
  set_header = λ req header. record req { header = some header };
}

abbrev chains_header : HasHeader BlockChains
chains_header = record {
  header_of = λ res. res.header;
  set_header = λ res header. record res { header = some header };
}

abbrev chains : CommonIn → Calls → Answer BlockChains × Calls
chains req h = get_block_chains rpc_world (some req) h

chains_no_header :
    (a : CommonIn) (h : Calls) → chains_header.header_of (chains a h).0.response ≡ none
unfolding get_block_chains get_block_chains_steps respond ◌>>=◌
chains_no_header a h = refl

unary_interceptor-success_example :
    let answer =
      (unary_interceptor intercept_world common_header chains_header chains everything []).0 in
    let given =
      (chains
        (common_header.set_header everything
          (req_header intercept_world [] (common_header.header_of everything)))
        []).0 in
    (answer.error ≡ given.error)
    × ((header : Header) × (chains_header.header_of answer.response ≡ some header)
        × ((header.error ≡ XChainError.success) ↔ (given.error ≡ none)))
unary_interceptor-success_example =
    unary_interceptor-success intercept_world intercept_world-SuccessIsOwn common_header
      chains_header chains everything [] (λ a. chains_no_header a []) (λ b header. refl)
