-- ===== src/Client/Requests.antt =====
-- The requests that cmd/client/cmd/comm_trans.go makes of the node before a transaction:
-- `GenPreExeRes`, `invokeReq`, `preExecWithSelectUTXOReq` and `GenPreExeWithSelectUtxoRes`.
use xuperchain.Prelude.{
  false, not, Option, none, some, List, [], ◌∷◌, ◌++◌, if◌then◌else◌, ℤ, pos, ◌+ℤ◌, ltb_ℤ, leb_ℤ,
}
use xuperchain.Go.Text.{Text, lit, is_empty, text_eq}
use xuperchain.Go.Scan.{scan_lines}
use xuperchain.Go.Decimal.{parse_int}
use xuperchain.Go.Int64.{wrap_int64}
use xuperchain.Pb.{
  InvokeRequest, InvokeRpcRequest, InvokeResponse, ContractResponse, Header, XChainError,
  PreExecWithSelectUtxoRequest, PreExecWithSelectUtxoResponse,
}
use xuperchain.Exec.{
  Failure, Message, Result, ok, err, Effect, Io, ◌>>=◌, ◌>>◌, pure, lift, ask, wrap, guard, or_fail,
  and_then,
}
use xuperchain.Client.Env.{Env}
use xuperchain.Client.Trans.{CommTrans}
use xuperchain.Client.Keys.{read_address}
use xuperchain.Client.Inputs.{gen_initiator}
use xuperchain.Client.Outputs.{has_fee}

-- The loop over the contract's responses: the first one at the threshold is an error.
unfoldable pub check_responses : ℤ → List ContractResponse → Result (Unit {0})
check_responses threshold [] = ok tt
check_responses threshold (res ∷ rest) =
    let later = check_responses threshold rest in
    if leb_ℤ threshold res.status then err (Failure.said Message.contract_error) else later

-- An account name before the address that signs for it
unfoldable pub auth_of : Text → Text → Text
auth_of from from_addr = if is_empty from then from_addr else from ++ lit "/" ++ from_addr

-- The request for the contract that the fields of `CommTrans` name
unfoldable pub invoke_of : CommTrans → InvokeRequest
invoke_of t =
    let plain : InvokeRequest = record {
      module_name = t.module_name;
      contract_name = t.contract_name;
      method_name = t.method_name;
      args = t.args;
      resource_limits = [];
      amount = [];
    } in
    if text_eq t.module_name (lit "xkernel")
    then plain
    else if text_eq t.to t.contract_name
    then record plain { amount = t.amount }
    else plain

module _ (env : Env) where
  -- `GetDesc`
  unfoldable pub get_desc : CommTrans → Io Text
  get_desc t =
      if is_empty t.descfile
      then pure (lit "Maybe common transfer transaction")
      else ask (Effect.read_file t.descfile) (λ h. env.read_file h t.descfile)

  -- `ReadPreExeReq`: a text that is no request is no error
  unfoldable pub read_pre_exe_req : Text → Option InvokeRequest
  read_pre_exe_req buf = elim (env.unmarshal_request buf) [
    | none ↦ none
    | some (req, args) ↦
        if is_empty req.module_name then none else some (record req { args = args })
  ]

  -- `GetInvokeRequestFromDesc`
  unfoldable pub get_invoke_request_from_desc : CommTrans → Io (Option InvokeRequest)
  get_invoke_request_from_desc t = do
    desc ← wrap Message.get_request_error (get_desc t)
    pure (read_pre_exe_req desc)

  -- `invokeReq`
  unfoldable pub invoke_req : CommTrans → Io (Option InvokeRequest)
  invoke_req t =
      if is_empty t.module_name
      then wrap Message.get_request_error (get_invoke_request_from_desc t)
      else pure (some (invoke_of t))

  -- `genAuthRequireQuick`
  unfoldable pub gen_auth_require_quick : CommTrans → Io (List Text)
  gen_auth_require_quick t = do
    from_addr ← read_address env t.keys
    pure (auth_of t.from from_addr ∷ [])

  unfoldable pub drop_empty : List Text → List Text
  drop_empty [] = []
  drop_empty (line ∷ lines) =
      let rest = drop_empty lines in if is_empty line then rest else line ∷ rest

  -- `GenAuthRequire`: the lines of a file that are not empty
  unfoldable pub gen_auth_require : Text → Io (List Text)
  gen_auth_require filename = do
    buf ← ask (Effect.read_file filename) (λ h. env.read_file h filename)
    let (lines, too_long) = scan_lines buf
    guard (not too_long) (Failure.outside (lit "bufio.Scanner: token too long"))
    pure (drop_empty lines)

  unfoldable pub draw_log_id : Io Text
  draw_log_id = ask Effect.draw_log_id (λ h. ok (env.log_id h))

  abbrev header_of : Text → Option Header
  header_of logid = some (record { logid = logid; from_node = []; error = XChainError.success })

  -- Which authorisations a pre-execution asks for
  unfoldable pub pre_exec_auth : CommTrans → Io (List Text)
  pre_exec_auth t =
      if not t.is_quick
      then wrap Message.get_auth_require_error (gen_auth_require_quick t)
      else wrap Message.get_auth_require_error (gen_auth_require t.multi_addrs)

  abbrev some_request : Option InvokeRequest → List InvokeRequest
  some_request none = []
  some_request (some req) = req ∷ []

  -- `GenPreExeRes`: the response, and the requests that it resolved to
  unfoldable pub gen_pre_exe_res : CommTrans → Io (InvokeResponse × List InvokeRequest)
  gen_pre_exe_res t = do
    req ← invoke_req t
    logid ← draw_log_id
    initiator ← wrap Message.get_initiator_error (gen_initiator env t)
    auth ← pre_exec_auth t
    let request : InvokeRpcRequest = record {
      header = header_of logid;
      bcname = t.chain_name;
      requests = some_request req;
      initiator = initiator;
      auth_require = auth;
    }
    res ← wrap Message.pre_exec_error (ask (Effect.pre_exec request) (λ h. env.pre_exec h request))
    response ← or_fail res.response Failure.panic
    lift (check_responses env.status_error_threshold response.responses)
    pure (response, response.requests)

  -- What `strconv.ParseInt` adds to the amount to select, or an error
  unfoldable pub add_amount : ℤ → Text → Result ℤ
  add_amount extra text =
      if (parse_int text).failed
      then err (Failure.said Message.invalid_fee)
      else ok (wrap_int64 (extra +ℤ (parse_int text).number))

  -- The compliance fee, the fee and the amount, in `int64`
  unfoldable pub extra_amount : CommTrans → Result ℤ
  unfolding add_amount
  extra_amount t =
      and_then
        (if has_fee t.fee
          then add_amount t.compliance_check.endorse_service_fee t.fee
          else ok t.compliance_check.endorse_service_fee)
        (λ extra. if is_empty t.amount then ok extra else add_amount extra t.amount)

  -- `preExecWithSelectUTXOReq`
  unfoldable pub pre_exec_with_select_utxo_req : CommTrans → Io PreExecWithSelectUtxoRequest
  pre_exec_with_select_utxo_req t = do
    req ← invoke_req t
    logid ← draw_log_id
    initiator ← wrap Message.get_initiator_error (gen_initiator env t)
    auth ← pre_exec_auth t
    extra ← lift (extra_amount t)
    let request : InvokeRpcRequest = record {
      header = header_of logid;
      bcname = t.chain_name;
      requests = some_request req;
      initiator = initiator;
      auth_require = auth ++ t.compliance_check.endorse_service_addr ∷ [];
    }
    pure (record {
      header = none;
      bcname = t.chain_name;
      address = initiator;
      total_amount = extra;
      sign_info = none;
      need_lock = false;
      request = some request;
    })

  abbrev gas_of : Option InvokeResponse → ℤ
  gas_of none = pos 0
  gas_of (some response) = response.gas_used

  abbrev responses_of : Option InvokeResponse → List ContractResponse
  responses_of none = []
  responses_of (some response) = response.responses

  -- Whether the fee covers the gas, where there is any
  unfoldable pub check_fee : CommTrans → ℤ → Result (Unit {0})
  check_fee t gas_used =
      if ltb_ℤ (pos 0) gas_used
      then (if has_fee t.fee
          then (if ltb_ℤ (parse_int t.fee).number gas_used
              then err (Failure.said Message.fee_not_enough)
              else ok tt)
          else err (Failure.said Message.need_add_fee))
      else ok tt

  -- `GenPreExeWithSelectUtxoRes`
  unfoldable pub gen_pre_exe_with_select_utxo_res : CommTrans → Io PreExecWithSelectUtxoResponse
  gen_pre_exe_with_select_utxo_res t = do
    request ← pre_exec_with_select_utxo_req t
    res ←
        ask (Effect.pre_exec_with_select_utxo request)
          (λ h. env.pre_exec_with_select_utxo h request)
    lift (check_responses env.status_error_threshold (responses_of res.response))
    lift (check_fee t (gas_of res.response))
    pure res
