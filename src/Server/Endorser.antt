-- ===== src/Server/Endorser.antt =====
-- `DefaultXEndorser` of service/rpc/endorser_service.go: requests that the endorser answers and signs.
-- The child modules prove what an answer of the endorser says.
mod Steps
pub mod Compliance
pub mod Query
pub mod Signed
pub mod Proxy
use xuperchain.Prelude.{
  Bool, true, false, not, ◌||◌, Option, none, some, List, [], ◌∷◌, ◌++◌, if◌then◌else◌, pos, ◌≡◌,
  refl,
}
use xuperchain.Go.Text.{Text, lit, text_eq}
use xuperchain.Pb.{
  Header, XChainError, is_success, Transaction, TxStatus, TransactionStatus, CommonReply,
  InvokeRpcRequest, InvokeRpcResponse, InvokeResponse, InvokeRequest, ContractResponse,
  PreExecWithSelectUtxoRequest, PreExecWithSelectUtxoResponse, SignatureInfo, EndorserRequest,
  EndorserResponse,
}
use mathlib.Core.Path.{ap}
use xuperchain.Exec.{Failure, Message, Result, ok, err, Effect, History}
unfoldable pub use xuperchain.Server.Endorser.Steps.{lift, ask, pure, settle, serve, ◌>>=◌}
pub use xuperchain.Server.Endorser.Steps.{
  Coded, Call, then_call, refused, ◌>>◌, >>=-eq-good, lift-eq-good, ask-eq-good, settle-eq-good,
  serve-eq-good, pure-eq-good, good, bad,
}

-- `pb.CrossQueryRequest`, as far as it is used
pub record CrossQueryRequest : Type 0 where
  pub bcname : Text
  pub initiator : Text
  pub auth_require : List Text
  pub request : InvokeRequest

-- What a Go function of two results returns: a message that is there beside an error too.
pub record Reply (A : Type 0) : Type 0 where
  pub message : A
  pub error : Option Failure

-- What lies outside: the node's own server, the key files, cryptography, JSON, the request context.
pub record EndorserEnv : Type 0 where
  -- XEndorserServer
  pub post_tx : History → TxStatus → Reply CommonReply
  pub query_tx : History → TxStatus → Reply TxStatus
  pub pre_exec : History → InvokeRpcRequest → Reply InvokeRpcResponse
  pub pre_exec_with_select_utxo :
      History → PreExecWithSelectUtxoRequest → Reply PreExecWithSelectUtxoResponse
  -- the peer of the context, and sctx.NewReqCtx
  pub create_req_ctx : Option Header → Option Failure
  -- os.ReadFile
  pub read_file : History → Text → Result Text
  -- CreateCryptoClientFromJSONPrivateKey and GetEcdsaPrivateKeyFromJsonStr, SignECDSA
  pub private_key : Text → Result Text
  pub sign_ecdsa : History → Text → Text → Result Text
  -- hash.UsingSha256, and txhash.MakeTxDigestHash behind TxToXledger
  pub sha256 : Text → Text
  pub tx_digest : Option Transaction → Result Text
  -- encoding/json
  pub unmarshal_tx_status : Text → Result TxStatus
  pub unmarshal_pre_exec : Text → Result PreExecWithSelectUtxoRequest
  pub unmarshal_cross_query : Text → Result CrossQueryRequest
  pub marshal_common_reply : CommonReply → Result Text
  pub marshal_pre_exec : PreExecWithSelectUtxoResponse → Result Text
  pub marshal_cross_query : Option ContractResponse → Result Text
  pub marshal_tx : Transaction → Result Text

-- `GetHeader().GetError()`, which reads a missing header as success
abbrev pub code_of : Option Header → XChainError
code_of none = XChainError.success
code_of (some header) = header.error

-- A reply of the server: its error, with the code of its header, or else its message
abbrev pub answered : {A : Type 0} → Option Failure → XChainError → A → Coded A
answered (some e) code a = bad code e
answered none code a = good a

-- The code of a reply must be success too.
abbrev pub succeeded : {A : Type 0} → XChainError → Message → A → Coded A
succeeded code m a = if is_success code then good a else bad code (Failure.said m)

abbrev pub found : XChainError → Option Transaction → Coded Transaction
found code none = bad code (Failure.said Message.tx_not_found)
found code (some tx) = good tx

abbrev key_path : Text
key_path = lit "./data/endorser/keys/"

abbrev is_supported : Text → Bool
is_supported name =
    text_eq name (lit "PreExecWithFee")
    || (text_eq name (lit "ComplianceCheck")
        || (text_eq name (lit "CrossQueryPreExec") || text_eq name (lit "TxQuery")))

abbrev pub fee_status : EndorserRequest → Transaction → TxStatus
fee_status req fee = record {
  header = none;
  bcname = req.bc_name;
  txid = fee.txid;
  status = TransactionStatus.undefine;
  distance = pos 0;
  tx = some fee;
}

-- The last response, where a contract gave several
abbrev last_response : List ContractResponse → Option ContractResponse
last_response [] = none
last_response (r ∷ []) = some r
last_response (r ∷ s ∷ rs) = last_response (s ∷ rs)

abbrev responses_of : Option InvokeResponse → List ContractResponse
responses_of none = []
responses_of (some res) = res.responses

abbrev text_or_empty : Option Text → Text
text_or_empty none = []
text_or_empty (some s) = s

pub record Answer : Type 0 where
  pub response : Option EndorserResponse
  pub error : Option Failure

abbrev header_of : XChainError → Option Header
header_of code = some (record { logid = []; from_node = []; error = code })

-- `generateErrorResponse`
abbrev pub error_response : EndorserRequest → XChainError → Failure → Answer
error_response req code e = record {
  response = some (record {
    header = header_of code;
    response_name = req.request_name;
    endorser_address = [];
    endorser_sign = none;
    response_data = [];
  });
  error = some e;
}

-- `generateSuccessResponse`
abbrev pub success_response :
    EndorserRequest → Text → Text → Option SignatureInfo → XChainError → Answer
success_response req res_data addr sign code = record {
  response = some (record {
    header = header_of code;
    response_name = req.request_name;
    endorser_address = addr;
    endorser_sign = sign;
    response_data = res_data;
  });
  error = none;
}

module _ (env : EndorserEnv) where
  unfoldable pub read_key : Text → Call Text
  read_key file = ask (Effect.read_file file) (λ h. env.read_file h file)

  -- `signData`, with `getEndorserKey`
  unfoldable pub sign_data : Text → Call (Text × SignatureInfo)
  sign_data digest = do
    sk ← read_key (key_path ++ lit "private.key")
    ak ← read_key (key_path ++ lit "public.key")
    addr ← read_key (key_path ++ lit "address")
    key ← lift (env.private_key sk)
    sign ← ask (Effect.sign_data key digest) (λ h. env.sign_ecdsa h key digest)
    pure (addr, record { public_key = ak; sign = sign })

  -- `processFee`, with a fee and without one
  unfoldable pub pay_fee : TxStatus → Call (Unit {0})
  pay_fee status = do
    res ← serve (Effect.post_tx status) (λ h. env.post_tx h status)
    settle (answered res.error (code_of res.message.header) tt)
    settle (succeeded (code_of res.message.header) Message.failed_to_post_tx tt)

  unfoldable pub process_fee : EndorserRequest → Call (Unit {0})
  process_fee req = elim req.fee [ none ↦ pure tt | some fee ↦ pay_fee (fee_status req fee) ]

  -- `generateTxSign`
  unfoldable pub generate_tx_sign : EndorserRequest → Call (Text × SignatureInfo)
  generate_tx_sign req = do
    text ← lift (elim req.request_data [
      | none ↦ err (Failure.said Message.empty_request_data)
      | some text ↦ ok text
    ])
    status ← lift (env.unmarshal_tx_status text)
    digest ← lift (env.tx_digest status.tx)
    sign_data digest

  -- `getPreExecResult`
  unfoldable pub get_pre_exec_result : EndorserRequest → Call Text
  get_pre_exec_result req = do
    request ← lift (env.unmarshal_pre_exec (text_or_empty req.request_data))
    res ←
        serve (Effect.pre_exec_with_select_utxo request)
          (λ h. env.pre_exec_with_select_utxo h request)
    message ← settle (answered res.error (code_of res.message.header) res.message)
    lift (env.marshal_pre_exec message)

  -- `getCrossQueryResult`
  unfoldable pub get_cross_query_result : EndorserRequest → Call Text
  get_cross_query_result req = do
    query ← lift (env.unmarshal_cross_query (text_or_empty req.request_data))
    let request : InvokeRpcRequest = record {
      header = req.header;
      bcname = query.bcname;
      requests = query.request ∷ [];
      initiator = query.initiator;
      auth_require = query.auth_require;
    }
    res ← serve (Effect.pre_exec request) (λ h. env.pre_exec h request)
    settle (answered res.error (code_of res.message.header) tt)
    settle (succeeded (code_of res.message.header) Message.pre_exec_error tt)
    lift (env.marshal_cross_query (last_response (responses_of res.message.response)))

  -- `getTxResult`
  unfoldable pub get_tx_result : EndorserRequest → Call Text
  get_tx_result req = do
    request ← lift (env.unmarshal_tx_status (text_or_empty req.request_data))
    res ← serve (Effect.query_tx request) (λ h. env.query_tx h request)
    settle (answered res.error (code_of res.message.header) tt)
    settle (succeeded (code_of res.message.header) Message.query_tx_error tt)
    tx ← settle (found (code_of res.message.header) res.message.tx)
    lift (env.marshal_tx tx)

  -- The answer of a request, once its work is done
  abbrev finish_signed : EndorserRequest → Text → Coded (Text × SignatureInfo) → Answer
  finish_signed req data_out (good (addr, sign)) =
      success_response req data_out addr (some sign) XChainError.success
  finish_signed req data_out (bad code e) = error_response req XChainError.success e

  -- `genSignedResp`: a failure to sign is answered under the code of the work before it
  unfoldable pub gen_signed_resp : EndorserRequest → Coded Text → History → Answer × History
  gen_signed_resp req (bad code e) h = (error_response req code e, h)
  gen_signed_resp req (good res_data) h =
      let (r, h') = sign_data (env.sha256 (text_or_empty req.request_data ++ res_data)) h in
      (finish_signed req res_data r, h')

  abbrev finish_plain : EndorserRequest → Coded Text → Answer
  finish_plain req (good res_data) = success_response req res_data [] none XChainError.success
  finish_plain req (bad code e) = error_response req code e

  abbrev finish_check : EndorserRequest → Coded (Text × Text × SignatureInfo) → Answer
  finish_check req (good (res_data, addr, sign)) =
      success_response req res_data addr (some sign) XChainError.success
  finish_check req (bad code e) = error_response req code e

  -- The branch `ComplianceCheck`: the fee is posted before the transaction is signed
  unfoldable pub compliance_check : EndorserRequest → Call (Text × Text × SignatureInfo)
  compliance_check req = do
    process_fee req
    signed ← generate_tx_sign req
    res_data ← lift (env.marshal_common_reply (record { header = header_of XChainError.success }))
    pure (res_data, signed.0, signed.1)

  -- The branches of `EndorserCall`, by the name of the request
  unfoldable pub dispatch : EndorserRequest → History → Answer × History
  dispatch req h =
      if text_eq req.request_name (lit "ComplianceCheck")
      then (let (r, h') = compliance_check req h in (finish_check req r, h'))
      else if text_eq req.request_name (lit "PreExecWithFee")
      then (let (r, h') = get_pre_exec_result req h in (finish_plain req r, h'))
      else if text_eq req.request_name (lit "CrossQueryPreExec")
      then (let (r, h') = get_cross_query_result req h in gen_signed_resp req r h')
      else let (r, h') = get_tx_result req h in gen_signed_resp req r h'

  -- `EndorserCall`
  unfoldable pub endorser_call : EndorserRequest → History → Answer × History
  endorser_call req h =
      if is_supported req.request_name
      then (elim (env.create_req_ctx req.header) [
        | some e ↦ (record { response = none; error = some e }, h)
        | none ↦ dispatch req h
      ])
      else (
        error_response req XChainError.service_refused_error
            (Failure.said Message.request_name_not_supported),
        h,
      )
