-- ===== src/Server/Rpc/Submit.antt =====
-- `PostTx` and `PreExec` of service/rpc/api.go.
pub mod Post
use xuperchain.Prelude.{
  Bool, true, false, not, ◌&&◌, Option, none, some, List, [], ◌∷◌, if◌then◌else◌,
}
use xuperchain.Go.Text.{Text, is_empty}
use xuperchain.Pb.{
  Transaction, TxStatus, CommonReply, InvokeRpcRequest, InvokeRpcResponse, InvokeRequest,
}
use xuperchain.Server.Convert.{via_wire, convert_invoke_req}
use xuperchain.Server.Handle.{StdError, Outcome, done, failed}
use xuperchain.Server.Rpc.{
  Call, Calls, RpcEnv, Answer, Rpc, ◌>>=◌, ◌>>◌, pure, lift, call, param, or_fail, respond, handle,
}

abbrev pub is_some : {A : Type 0} → Option A → Bool
is_some none = false
is_some (some a) = true

abbrev pub without_error : Option StdError → Outcome (Unit {0})
without_error none = done tt
without_error (some e) = failed e

-- A response with no field set
abbrev pub empty_reply : CommonReply
empty_reply = record { header = none }

abbrev pub empty_pre_exec : InvokeRpcResponse
empty_pre_exec = record { header = none; bcname = []; response = none }

module _ (env : RpcEnv) where
  -- The message to the other nodes is sent in the background, and what becomes of it is not awaited.
  unfoldable pub post_tx_steps : Option TxStatus → Rpc CommonReply
  post_tx_steps req = do
    status ← lift (or_fail req StdError.err_parameter)
    param (is_some status.tx && not (is_empty status.bcname))
    tx ← lift (or_fail (via_wire env.tx_wire status.tx) StdError.err_parameter)
    handle env status.bcname
    call (Call.submit_tx status.bcname tx) (λ h. without_error (env.submit h status.bcname tx))
    call (Call.send_message status.bcname tx) (λ h. done tt)
    pure empty_reply

  -- `PostTx`
  unfoldable pub post_tx : Option TxStatus → Calls → Answer CommonReply × Calls
  post_tx req = respond empty_reply (post_tx_steps req)

  unfoldable pub pre_exec_steps : Option InvokeRpcRequest → Rpc InvokeRpcResponse
  pre_exec_steps req = do
    request ← lift (or_fail req StdError.err_parameter)
    param (not (is_empty request.bcname))
    reqs ←
        lift (or_fail (convert_invoke_req env.request_wire request.requests) StdError.err_parameter)
    handle env request.bcname
    res ←
        call (Call.pre_exec request.bcname reqs request.initiator request.auth_require)
          (λ h. env.pre_exec h request.bcname reqs request.initiator request.auth_require)
    pure (record {
      header = none;
      bcname = request.bcname;
      response = via_wire env.response_wire res;
    })

  -- `PreExec`
  unfoldable pub pre_exec : Option InvokeRpcRequest → Calls → Answer InvokeRpcResponse × Calls
  pre_exec req = respond empty_pre_exec (pre_exec_steps req)
