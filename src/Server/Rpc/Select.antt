-- ===== src/Server/Rpc/Select.antt =====
-- `SelectUTXO`, `SelectUTXOBySize` and `PreExecWithSelectUTXO` of service/rpc/api.go.
pub mod Ledger
pub mod Combined
use xuperchain.Prelude.{
  Bool, true, false, not, ◌&&◌, Option, none, some, List, [], ◌∷◌, if◌then◌else◌, ℤ, pos, ◌+ℤ◌,
  ltb_ℤ, map,
}
use xuperchain.Go.Text.{Text, is_empty}
use xuperchain.Go.Decimal.{set_string, print_int}
use xuperchain.Go.Int64.{wrap_int64}
use xuperchain.Pb.{
  Header, Utxo, UtxoInput, UtxoOutput, SignatureInfo, InvokeResponse, InvokeRpcRequest,
  InvokeRpcResponse, PreExecWithSelectUtxoRequest, PreExecWithSelectUtxoResponse,
}
use xuperchain.Server.Convert.{Converted, list, convert_failed, utxo_list_to_xchain}
use xuperchain.Server.Handle.{StdError, Outcome, done, failed, select_utxo, select_utxo_by_size}
use xuperchain.Server.Rpc.{
  Call, Calls, RpcEnv, Answer, Rpc, ◌>>=◌, ◌>>◌, pure, lift, call, param, or_fail, respond, handle,
}
use xuperchain.Server.Rpc.Submit.{is_some, pre_exec}

abbrev pub empty_output : UtxoOutput
empty_output = record { header = none; utxo_list = []; total_selected = [] }

-- A converted list, where nil and empty are the same message
abbrev pub converted_list : {A : Type 0} → Converted A → Outcome (List A)
converted_list (list none) = done []
converted_list (list (some as_)) = done as_
converted_list convert_failed = failed StdError.err_internal

module _ (env : RpcEnv) where
  -- The utxos that were found, in the other protocol
  unfoldable pub output_of : UtxoOutput → Outcome (List Utxo)
  output_of outs =
      converted_list (utxo_list_to_xchain env.utxo_wire (some (map some outs.utxo_list)))

  unfoldable pub select_utxo_steps : Option UtxoInput → Rpc UtxoOutput
  select_utxo_steps req = do
    input ← lift (or_fail req StdError.err_parameter)
    param (not (is_empty input.bcname) && not (is_empty input.total_need))
    total_need ← lift (or_fail (set_string input.total_need) StdError.err_parameter)
    handle env input.bcname
    outs ← call (Call.select_utxo input.bcname input.address total_need input.need_lock) (λ h.
        select_utxo (env.chain h input.bcname) input.bcname input.address total_need input.need_lock
          false input.publickey input.user_sign)
    utxos ← lift (output_of outs)
    pure (record { header = none; utxo_list = utxos; total_selected = outs.total_selected })

  -- `SelectUTXO`
  unfoldable pub select : Option UtxoInput → Calls → Answer UtxoOutput × Calls
  select req = respond empty_output (select_utxo_steps req)

  unfoldable pub select_utxo_by_size_steps : Option UtxoInput → Rpc UtxoOutput
  select_utxo_by_size_steps req = do
    input ← lift (or_fail req StdError.err_parameter)
    param (not (is_empty input.bcname))
    handle env input.bcname
    outs ← call (Call.select_utxo_by_size input.bcname input.address input.need_lock) (λ h.
        select_utxo_by_size (env.chain h input.bcname) input.bcname input.address input.need_lock
          false input.publickey input.user_sign)
    utxos ← lift (output_of outs)
    pure (record { header = none; utxo_list = utxos; total_selected = outs.total_selected })

  -- `SelectUTXOBySize`
  unfoldable pub select_by_size : Option UtxoInput → Calls → Answer UtxoOutput × Calls
  select_by_size req = respond empty_output (select_utxo_by_size_steps req)

  abbrev pub empty_combined : PreExecWithSelectUtxoResponse
  empty_combined = record { header = none; bcname = []; response = none; utxo_output = none }

  -- getters of messages that may be nil
  abbrev gas_of : Option InvokeResponse → ℤ
  gas_of none = pos 0
  gas_of (some res) = res.gas_used

  abbrev public_key_of : Option SignatureInfo → Text
  public_key_of none = []
  public_key_of (some info) = info.public_key

  abbrev sign_of : Option SignatureInfo → Text
  sign_of none = []
  sign_of (some info) = info.sign

  -- The sum of two `int64`
  unfoldable pub total_amount : PreExecWithSelectUtxoRequest → Option InvokeResponse → ℤ
  total_amount req res = wrap_int64 (req.total_amount +ℤ gas_of res)

  abbrev pub utxo_input : PreExecWithSelectUtxoRequest → ℤ → UtxoInput
  utxo_input req total = record {
    bcname = req.bcname;
    address = req.address;
    publickey = public_key_of req.sign_info;
    total_need = print_int total;
    user_sign = sign_of req.sign_info;
    need_lock = req.need_lock;
  }

  abbrev pub with_response :
      PreExecWithSelectUtxoRequest → Option InvokeResponse → PreExecWithSelectUtxoResponse
  with_response req res = record {
    header = none;
    bcname = req.bcname;
    response = res;
    utxo_output = none;
  }

  -- The last steps: with an error of the selection, the response of the contract is kept
  abbrev pub selected :
      PreExecWithSelectUtxoRequest
      → PreExecWithSelectUtxoResponse
      → UtxoOutput
      → Option StdError
      → Answer PreExecWithSelectUtxoResponse
  selected req resp outs (some e) = record { response = resp; error = some e }
  selected req resp outs none = record {
    response = record resp { utxo_output = some (record outs { header = req.header }) };
    error = none;
  }

  unfoldable pub select_after :
      PreExecWithSelectUtxoRequest
      → Option InvokeResponse
      → Calls
      → Answer PreExecWithSelectUtxoResponse × Calls
  select_after req res h =
      let total = total_amount req res in
      if ltb_ℤ total (pos 1)
      then (record { response = with_response req res; error = none }, h)
      else let (answer, h') = select (some (utxo_input req total)) h in
        (selected req (with_response req res) answer.response answer.error, h')

  abbrev pub after_pre_exec :
      PreExecWithSelectUtxoRequest
      → InvokeRpcResponse
      → Option StdError
      → Calls
      → Answer PreExecWithSelectUtxoResponse × Calls
  after_pre_exec req resp (some e) h = (record { response = empty_combined; error = some e }, h)
  after_pre_exec req resp none h = select_after req resp.response h

  -- `PreExecWithSelectUTXO`
  unfoldable pub pre_exec_with_select_utxo :
      Option PreExecWithSelectUtxoRequest → Calls → Answer PreExecWithSelectUtxoResponse × Calls
  pre_exec_with_select_utxo none h =
      (record { response = empty_combined; error = some StdError.err_parameter }, h)
  pre_exec_with_select_utxo (some req) h =
      if not (is_empty req.bcname) && is_some req.request
      then (let (answer, h') = pre_exec env req.request h in
          after_pre_exec req answer.response answer.error h')
      else (record { response = empty_combined; error = some StdError.err_parameter }, h)
