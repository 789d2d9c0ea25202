-- ===== src/Tests/Types.antt =====
-- The printed forms, and an access control list, at small values.
use xuperchain.Pb.Chain.{InternalBlock, SystemsStatus}
use xuperchain.Pb.Query.{AclStatus}
use xuperchain.Prelude.{false, none, some, [], ◌∷◌, ◌≡◌, ◌↔◌, ℤ, pos}
use xuperchain.Go.Text.{Text, lit}
use xuperchain.Exec.{err, Failure}
use xuperchain.Client.Value.{input_sum, output_sum}
use xuperchain.Client.Types.{from_pb_tx, from_internal_block_pb}
use xuperchain.Client.Types.Status.{from_system_status_pb}
use xuperchain.Client.Types.Shown.{
  shown_inputs, shown_outputs, from_pb_tx_keeps_worth, IsUnsigned, from_internal_block_pb_panics,
  Picks, from_system_status_pb-Picks,
}
use xuperchain.Server.Rpc.Accounts.{query_acl}
use xuperchain.Server.Rpc.Accounts.Acl.{AclAnswer, query_acl_answers}
use xuperchain.Server.Rpc.Blocks.Chains.{empty_chain_status}
use xuperchain.Tests.Client.{bob_tx}
use xuperchain.Tests.Node.{alice, rpc_world, block}

abbrev cpu : ℤ → Text
cpu t = lit "CPU"

from_pb_tx_keeps_worth_run :
    (shown_inputs (from_pb_tx cpu bob_tx).tx_inputs ≡ input_sum bob_tx.tx_inputs)
    × (shown_outputs (from_pb_tx cpu bob_tx).tx_outputs ≡ output_sum bob_tx.tx_outputs)
from_pb_tx_keeps_worth_run = from_pb_tx_keeps_worth cpu bob_tx

-- A certificate whose signatures are missing
abbrev certified : InternalBlock
certified = record block {
  justify = some (record {
    proposal_id = lit "p";
    proposal_msg = [];
    qc_state = pos 0;
    view_number = pos 3;
    sign_infos = none;
  });
}

from_internal_block_pb_panics_example :
    (from_internal_block_pb cpu certified ≡ err Failure.panic) ↔ IsUnsigned certified.justify
from_internal_block_pb_panics_example = from_internal_block_pb_panics cpu certified

abbrev two_chains : SystemsStatus
two_chains = record {
  bcs_status =
      record empty_chain_status { bcname = lit "xuper" }
      ∷ record empty_chain_status { bcname = lit "side" }
      ∷ [];
  peer_urls = lit "you" ∷ [];
}

from_system_status_pb-Picks_run :
    Picks
      (lit "side")
      two_chains.bcs_status
      (from_system_status_pb two_chains (lit "side")).chain_status
    × ((from_system_status_pb two_chains (lit "side")).peers ≡ two_chains.peer_urls)
from_system_status_pb-Picks_run = from_system_status_pb-Picks two_chains (lit "side")

abbrev acl_of_alice : AclStatus
acl_of_alice = record {
  header = none;
  bcname = lit "xuper";
  account_name = alice;
  contract_name = [];
  method_name = [];
  confirmed = false;
  acl = none;
}

query_acl_answers_run :
    AclAnswer rpc_world
      (some acl_of_alice)
      []
      (query_acl rpc_world (some acl_of_alice) []).0.error
      (query_acl rpc_world (some acl_of_alice) []).0.response
query_acl_answers_run = query_acl_answers rpc_world (some acl_of_alice) []
