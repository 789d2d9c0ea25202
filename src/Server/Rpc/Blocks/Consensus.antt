-- ===== src/Server/Rpc/Blocks/Consensus.antt =====
-- The handlers of service/rpc/api.go for the consensus, most of which answer no request.
use xuperchain.Prelude.{not, ◌||◌, Option, none, some, [], if◌then◌else◌}
use xuperchain.Go.Text.{Text, is_empty}
use xuperchain.Pb.Query.{ConsensusStatus}
use xuperchain.Server.Handle.{StdError, new_chain_handle}
use xuperchain.Server.Rpc.{
  Read, Call, Calls, RpcEnv, Answer, Rpc, ◌>>=◌, ◌>>◌, pure, lift, call, get, param, or_fail,
  respond,
}
use xuperchain.Server.Rpc.Blocks.{as_error}

abbrev pub empty_consensus : ConsensusStatus
empty_consensus = record {
  header = none;
  version = [];
  consensus_name = [];
  start_height = [];
  validators_info = [];
}

-- The handlers of the consensus refuse every request. A request is the name of a chain and an address;
-- a response is empty.
unfoldable pub refuse_chain : Option Text → Option StdError
refuse_chain none = some StdError.err_parameter
refuse_chain (some bcname) =
    if is_empty bcname then some StdError.err_parameter else some StdError.err_forbidden

unfoldable pub refuse_address : Option (Text × Text) → Option StdError
refuse_address none = some StdError.err_parameter
refuse_address (some (bcname, address)) =
    if is_empty bcname || is_empty address
    then some StdError.err_parameter
    else some StdError.err_forbidden

-- `DposCandidates`, `DposCheckResults`, `DposStatus`
abbrev pub dpos_candidates : Option Text → Option StdError
dpos_candidates req = refuse_chain req

abbrev pub dpos_check_results : Option Text → Option StdError
dpos_check_results req = refuse_chain req

abbrev pub dpos_status : Option Text → Option StdError
dpos_status req = refuse_chain req

-- `DposNominateRecords`, `DposNomineeRecords`, `DposVoteRecords`, `DposVotedRecords`
abbrev pub dpos_nominate_records : Option (Text × Text) → Option StdError
dpos_nominate_records req = refuse_address req

abbrev pub dpos_nominee_records : Option (Text × Text) → Option StdError
dpos_nominee_records req = refuse_address req

abbrev pub dpos_vote_records : Option (Text × Text) → Option StdError
dpos_vote_records req = refuse_address req

abbrev pub dpos_voted_records : Option (Text × Text) → Option StdError
dpos_voted_records req = refuse_address req

module _ (env : RpcEnv) where
  -- The request has no field but the name of the chain and the header. An error of the chain is
  -- recorded as a call, and answered as `ErrForbidden`.
  unfoldable pub get_consensus_status_steps : Option Text → Rpc ConsensusStatus
  get_consensus_status_steps req = do
    bcname ← lift (or_fail req StdError.err_parameter)
    param (not (is_empty bcname))
    calls ← get
    lift (as_error StdError.err_forbidden (new_chain_handle (env.chain calls bcname) bcname))
    status ←
        call (Call.read bcname Read.consensus_status)
          (λ h. as_error StdError.err_forbidden (env.query_consensus_status h bcname))
    pure (record {
      header = none;
      version = status.version;
      consensus_name = status.consensus_name;
      start_height = status.start_height;
      validators_info = status.validators_info;
    })

  -- `GetConsensusStatus`
  unfoldable pub get_consensus_status : Option Text → Calls → Answer ConsensusStatus × Calls
  get_consensus_status req = respond empty_consensus (get_consensus_status_steps req)
