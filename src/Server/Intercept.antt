-- ===== src/Server/Intercept.antt =====
-- service/rpc/rpc.go and service/common/error.go: what happens around each handler of the interface.
pub mod Code
use xuperchain.Prelude.{
  Bool, true, false, Option, none, some, List, [], ◌∷◌, if◌then◌else◌, ℤ, pos, negsuc, ◌==◌,
}
use xuperchain.Go.Text.{Text, is_empty}
use xuperchain.Pb.{Header, XChainError}
use xuperchain.Server.Handle.{StdError}
use xuperchain.Server.Rpc.{Calls, Answer}

-- The standard errors that the table names
pub data StdName : Type 0 where
  err_success err_internal err_unknown err_forbidden err_unauthorized err_parameter
        err_new_engine_ctx_failed err_not_engine_type err_load_eng_conf_failed err_new_log_failed
        err_new_chain_ctx_failed err_chain_exist err_chain_not_exist err_chain_already_exist
        err_chain_status err_root_chain_not_exist err_load_chain_failed err_contract_new_ctx_failed
        err_contract_invoke_failed err_contract_new_sandbox_failed err_tx_verify_failed
        err_tx_already_exist err_tx_not_exist err_tx_not_enough err_submit_tx_failed
        err_block_not_exist err_proc_block_failed err_new_net_event_failed err_new_network_failed
        err_send_message_failed err_network_no_response :
      StdName

-- `StdErrToXchainErrMap`, by the name of the error
abbrev pub xchain_err_of : StdName → XChainError
xchain_err_of StdName.err_success = XChainError.success
xchain_err_of StdName.err_internal = XChainError.unknow_error
xchain_err_of StdName.err_unknown = XChainError.unknow_error
xchain_err_of StdName.err_forbidden = XChainError.connect_refuse
xchain_err_of StdName.err_unauthorized = XChainError.connect_refuse
xchain_err_of StdName.err_parameter = XChainError.connect_refuse
xchain_err_of StdName.err_new_engine_ctx_failed = XChainError.unknow_error
xchain_err_of StdName.err_not_engine_type = XChainError.connect_refuse
xchain_err_of StdName.err_load_eng_conf_failed = XChainError.unknow_error
xchain_err_of StdName.err_new_log_failed = XChainError.unknow_error
xchain_err_of StdName.err_new_chain_ctx_failed = XChainError.unknow_error
xchain_err_of StdName.err_chain_exist = XChainError.connect_refuse
xchain_err_of StdName.err_chain_not_exist = XChainError.blockchain_notexist
xchain_err_of StdName.err_chain_already_exist = XChainError.connect_refuse
xchain_err_of StdName.err_chain_status = XChainError.not_ready_error
xchain_err_of StdName.err_root_chain_not_exist = XChainError.connect_refuse
xchain_err_of StdName.err_load_chain_failed = XChainError.unknow_error
xchain_err_of StdName.err_contract_new_ctx_failed = XChainError.unknow_error
xchain_err_of StdName.err_contract_invoke_failed = XChainError.unknow_error
xchain_err_of StdName.err_contract_new_sandbox_failed = XChainError.unknow_error
xchain_err_of StdName.err_tx_verify_failed = XChainError.tx_verification_error
xchain_err_of StdName.err_tx_already_exist = XChainError.tx_duplicate_error
xchain_err_of StdName.err_tx_not_exist = XChainError.tx_not_found_error
xchain_err_of StdName.err_tx_not_enough = XChainError.not_enough_utxo_error
xchain_err_of StdName.err_submit_tx_failed = XChainError.unknow_error
xchain_err_of StdName.err_block_not_exist = XChainError.block_exist_error
xchain_err_of StdName.err_proc_block_failed = XChainError.unknow_error
xchain_err_of StdName.err_new_net_event_failed = XChainError.unknow_error
xchain_err_of StdName.err_new_network_failed = XChainError.unknow_error
xchain_err_of StdName.err_send_message_failed = XChainError.unknow_error
xchain_err_of StdName.err_network_no_response = XChainError.unknow_error

-- the entries in their order
abbrev pub std_names : List StdName
std_names =
    StdName.err_success ∷ StdName.err_internal ∷ StdName.err_unknown ∷ StdName.err_forbidden
    ∷ StdName.err_unauthorized ∷ StdName.err_parameter ∷ StdName.err_new_engine_ctx_failed
    ∷ StdName.err_not_engine_type ∷ StdName.err_load_eng_conf_failed ∷ StdName.err_new_log_failed
    ∷ StdName.err_new_chain_ctx_failed ∷ StdName.err_chain_exist ∷ StdName.err_chain_not_exist
    ∷ StdName.err_chain_already_exist ∷ StdName.err_chain_status ∷ StdName.err_root_chain_not_exist
    ∷ StdName.err_load_chain_failed ∷ StdName.err_contract_new_ctx_failed
    ∷ StdName.err_contract_invoke_failed ∷ StdName.err_contract_new_sandbox_failed
    ∷ StdName.err_tx_verify_failed ∷ StdName.err_tx_already_exist ∷ StdName.err_tx_not_exist
    ∷ StdName.err_tx_not_enough ∷ StdName.err_submit_tx_failed ∷ StdName.err_block_not_exist
    ∷ StdName.err_proc_block_failed ∷ StdName.err_new_net_event_failed
    ∷ StdName.err_new_network_failed ∷ StdName.err_send_message_failed
    ∷ StdName.err_network_no_response ∷ []

-- `ecom.Error.Code` of each name, the code of `ecom.CastError` of an error, the name of the host, and
-- `utils.GenLogId`
pub record InterceptEnv : Type 0 where
  pub code : StdName → ℤ
  pub cast_error : StdError → ℤ
  pub host_name : Text
  pub gen_log_id : Calls → Text

abbrev pub same_code : ℤ → ℤ → Bool
same_code (pos a) (pos b) = a == b
same_code (negsuc a) (negsuc b) = a == b
same_code (pos a) (negsuc b) = false
same_code (negsuc a) (pos b) = false

-- A message whose field `Header` can be read and set
pub record HasHeader (A : Type 0) : Type 0 where
  pub header_of : A → Option Header
  pub set_header : A → Header → A

module _ (env : InterceptEnv) where
  -- A later entry of a map literal replaces an earlier one of the same key.
  unfoldable pub find_code : ℤ → List StdName → Option XChainError
  find_code c [] = none
  find_code c (n ∷ ns) = elim (find_code c ns) [
    | some e ↦ some e
    | none ↦ if same_code (env.code n) c then some (xchain_err_of n) else none
  ]

  abbrev pub or_unknown : Option XChainError → XChainError
  or_unknown none = XChainError.unknow_error
  or_unknown (some e) = e

  -- `convertErr`, at an error that is not nil
  unfoldable pub convert_err : ℤ → XChainError
  convert_err c = or_unknown (find_code c std_names)

  -- `defReqHeader`
  abbrev pub def_req_header : Calls → Header
  def_req_header h = record {
    logid = env.gen_log_id h;
    from_node = [];
    error = XChainError.unknow_error;
  }

  abbrev pub with_logid : Calls → Header → Header
  with_logid h header =
      if is_empty header.logid then record header { logid = env.gen_log_id h } else header

  abbrev pub req_header : Calls → Option Header → Header
  req_header h none = with_logid h (def_req_header h)
  req_header h (some header) = with_logid h header

  -- `ecom.ErrSuccess`, or `ecom.CastError` of the error
  abbrev pub code_of : Option StdError → ℤ
  code_of none = env.code StdName.err_success
  code_of (some e) = env.cast_error e

  unfoldable pub resp_header : Header → Option StdError → Header
  resp_header header e = record {
    logid = header.logid;
    from_node = env.host_name;
    error = convert_err (code_of e);
  }

  -- A header that the handler has set is kept.
  abbrev pub stamp : {A : Type 0} → HasHeader A → Option Header → Header → A → A
  stamp fields none header response = fields.set_header response header
  stamp fields (some kept) header response = response

  module _ {A B : Type 0} (req_fields : HasHeader A) (resp_fields : HasHeader B) where
    -- `UnaryInterceptor`, at a handler that does not panic
    unfoldable pub unary_interceptor : (A → Calls → Answer B × Calls) → A → Calls → Answer B × Calls
    unary_interceptor handler req h =
        let header = req_header h (req_fields.header_of req) in
        let (answer, h') = handler (req_fields.set_header req header) h in
        (
          record {
            response =
                stamp resp_fields (resp_fields.header_of answer.response)
                  (resp_header header answer.error) answer.response;
            error = answer.error;
          },
          h',
        )
