-- ===== src/Client/Compliance.antt =====
-- The transfer that an endorser has to approve, in cmd/client/cmd/comm_trans.go:
-- `GenComplianceCheckTx`, `GenRealTx`, `ComplianceCheck`, `GenCompleteTxAndPost` and `Transfer`.
pub mod Balance
pub mod Sums
use xuperchain.Prelude.{
  Option, none, some, List, [], ◌∷◌, ◌++◌, if◌then◌else◌, ℕ, ◌+◌, ℤ, pos, ◌+ℤ◌, ◌-ℤ◌, is_negative,
}
use xuperchain.Go.Text.{Text, lit, is_empty, text_eq}
use xuperchain.Go.Decimal.{print_int, set_string}
use xuperchain.Go.Big.{set_bytes}
use xuperchain.Pb.{
  Transaction, TxOutput, TxDataAccount, Utxo, UtxoOutput, InvokeResponse, InvokeRequest,
  SignatureInfo, PreExecWithSelectUtxoResponse, TxStatus, TransactionStatus, EndorserRequest,
}
use xuperchain.Exec.{
  Failure, Message, Result, ok, err, Effect, Io, ◌>>=◌, pure, lift, ask, wrap, or_fail, and_then,
}
use xuperchain.Client.Env.{Env}
use xuperchain.Client.Trans.{CommTrans, zero_text}
use xuperchain.Client.Keys.{read_address, make_tx_id}
use xuperchain.Client.Outputs.{has_fee, pay_all}
use xuperchain.Client.Inputs.{
  gen_initiator, generate_tx_input, generate_pure_tx_inputs, plain_output, one_or_none,
}
use xuperchain.Client.Requests.{auth_of, gen_pre_exe_with_select_utxo_res}
use xuperchain.Client.RawTx.{
  empty_tx, draw_nonce, read_clock, sign_tx_for_initiator, post_tx, generate_tx, send_tx,
  utxo_inputs_of, utxo_outputs_of, desc_or_empty, with_contract,
}

-- `GenerateTxOutput`: the accounts are those of `GenTxOutputs`, but an empty fee is not skipped, and the
-- error for a negative amount has another text
abbrev output_accounts : Text → Text → Text → List TxDataAccount
output_accounts to amount fee =
    (if is_empty to
      then []
      else record { address = to; amount = amount; frozen_height = pos 0 } ∷ [])
    ++ (if text_eq fee zero_text
        then []
        else record { address = lit "$"; amount = fee; frozen_height = pos 0 } ∷ [])

unfoldable pub generate_tx_output : Text → Text → Text → Result (List TxOutput)
generate_tx_output to amount fee =
    and_then (pay_all ([], pos 0) (output_accounts to amount fee)) (λ paid. ok paid.0)

-- The utxos that a transaction leaves to `addr`, numbered by their place among its outputs
unfoldable pub utxos_to : Text → Text → ℕ → List TxOutput → List Utxo
utxos_to addr txid index [] = []
utxos_to addr txid index (out ∷ outs) =
    let rest = utxos_to addr txid (index + 1) outs in
    if text_eq out.to_addr addr
    then record {
      amount = out.amount;
      to_addr = out.to_addr;
      ref_txid = txid;
      ref_offset = pos index;
    }
      ∷ rest
    else rest

unfoldable pub total_selected : List Utxo → ℤ
total_selected [] = pos 0
total_selected (u ∷ us) = pos (set_bytes u.amount) +ℤ total_selected us

-- The fee, and the amount if there is one
unfoldable pub real_need : CommTrans → Result ℤ
real_need t = elim (set_string t.fee) [
  | none ↦ err (Failure.said Message.invalid_amount)
  | some fee ↦ if is_empty t.amount then ok fee else elim (set_string t.amount) [
    | none ↦ err (Failure.said Message.invalid_amount)
    | some amount ↦ ok (fee +ℤ amount)
  ]
]

-- The three outputs of `GenerateMultiTxOutputs`; `Bytes` drops a sign without a word.
unfoldable pub self_outputs : Text → Text → Result (List TxOutput)
self_outputs self_addr self_amount = elim (set_string self_amount) [
  | none ↦ err (Failure.said Message.invalid_amount)
  | some amount ↦ ok (plain_output self_addr amount ∷ [])
]

unfoldable pub fee_outputs : Text → Result (List TxOutput)
fee_outputs fee =
    if has_fee fee
    then (elim (set_string fee) [
      | none ↦ err (Failure.said Message.invalid_amount)
      | some amount ↦
          if is_negative amount
          then err (Failure.said Message.invalid_amount)
          else ok (plain_output (lit "$") amount ∷ [])
    ])
    else ok []

unfoldable pub contract_outputs : Text → Text → Result (List TxOutput)
contract_outputs contract_name amount =
    if is_empty amount then ok [] else elim (set_string amount) [
      | none ↦ err (Failure.said Message.invalid_amount)
      | some n ↦ ok (plain_output contract_name n ∷ [])
    ]

unfoldable pub multi_outputs : CommTrans → Text → Text → Text → Result (List TxOutput)
multi_outputs t self_addr self_amount fee = and_then (self_outputs self_addr self_amount) λ self.
    and_then (fee_outputs fee) λ paid_fee.
      and_then (contract_outputs t.contract_name t.amount) λ paid. ok (self ++ (paid_fee ++ paid))

abbrev requests_of : Option InvokeResponse → List InvokeRequest
requests_of none = []
requests_of (some res) = res.requests

module _ (env : Env) where
  -- `GenerateMultiTxOutputs`
  unfoldable pub generate_multi_tx_outputs : CommTrans → Text → Text → Io (List TxOutput)
  generate_multi_tx_outputs t self_amount fee = do
    self_addr ← gen_initiator env t
    lift (multi_outputs t self_addr self_amount fee)

  -- an error of `MakeTxId` leaves the id empty
  unfoldable pub tx_id_or_empty : Transaction → Text
  tx_id_or_empty tx = elim (make_tx_id env tx) [ ok txid ↦ txid | err _ ↦ [] ]

  -- Sign for the initiator and fill in the id
  unfoldable pub sign_and_id : CommTrans → Transaction → Io Transaction
  sign_and_id t tx = do
    signs ← sign_tx_for_initiator env t tx
    let signed : Transaction = record tx { initiator_signs = signs; auth_require_signs = signs }
    pure (record signed { txid = tx_id_or_empty signed })

  -- `GenComplianceCheckTx`: pays the endorser's fee
  unfoldable pub gen_compliance_check_tx : CommTrans → UtxoOutput → Io Transaction
  gen_compliance_check_tx t utxo_output = do
    let fee = t.compliance_check.endorse_service_fee
    spent ← wrap Message.gen_tx_input_error (generate_tx_input env t utxo_output fee)
    outs ← wrap Message.gen_tx_output_error (
        lift (
          generate_tx_output t.compliance_check.endorse_service_fee_addr (print_int fee) zero_text))
    timestamp ← read_clock env
    nonce ← draw_nonce env
    initiator ← gen_initiator env t
    from_addr ← read_address env t.keys
    sign_and_id t (record empty_tx {
      version = env.tx_version;
      timestamp = timestamp;
      nonce = nonce;
      tx_inputs = spent.0;
      tx_outputs = outs ++ one_or_none spent.1;
      initiator = initiator;
      auth_require = auth_of t.from from_addr ∷ [];
    })

  -- `GenRealTx`: spends what the compliance transaction leaves to the initiator
  unfoldable pub gen_real_tx :
      CommTrans → PreExecWithSelectUtxoResponse → Transaction → Io Transaction
  gen_real_tx t response check_tx = do
    initiator ← gen_initiator env t
    let utxos = utxos_to initiator check_tx.txid 0 check_tx.tx_outputs
    need ← lift (real_need t)
    outs ←
        wrap Message.gen_tx_output_error
          (generate_multi_tx_outputs t (print_int (total_selected utxos -ℤ need)) t.fee)
    timestamp ← read_clock env
    nonce ← draw_nonce env
    desc ← desc_or_empty env t
    from_addr ← read_address env t.keys
    sign_and_id t (
        with_contract response.response (requests_of response.response) (record empty_tx {
          version = env.tx_version;
          timestamp = timestamp;
          nonce = nonce;
          tx_inputs =
              generate_pure_tx_inputs
                (record { header = none; utxo_list = utxos; total_selected = [] })
              ++ utxo_inputs_of response.response;
          tx_outputs = outs ++ utxo_outputs_of response.response;
          desc = desc;
          initiator = initiator;
          auth_require = auth_of t.from from_addr ∷ t.compliance_check.endorse_service_addr ∷ [];
        }))

  -- `ComplianceCheck`: ask the endorser for its signature
  unfoldable pub compliance_check :
      CommTrans → Transaction → Transaction → Io (Option SignatureInfo)
  compliance_check t tx fee = do
    let status : TxStatus = record {
      header = none;
      bcname = t.chain_name;
      txid = [];
      status = TransactionStatus.undefine;
      distance = pos 0;
      tx = some tx;
    }
    request_data ← lift (env.marshal_tx_status status)
    let request : EndorserRequest = record {
      header = none;
      request_name = lit "ComplianceCheck";
      bc_name = t.chain_name;
      fee = some fee;
      request_data = some request_data;
    }
    response ←
        wrap Message.endorser_call_error
          (ask (Effect.endorser_call request) (λ h. env.endorser_call h request))
    pure response.endorser_sign

  -- A nil signature is appended too, and travels as an empty message.
  abbrev pub append_sign : Option SignatureInfo → List SignatureInfo → List SignatureInfo
  append_sign none signs = signs ++ record { public_key = []; sign = [] } ∷ []
  append_sign (some sign) signs = signs ++ sign ∷ []

  -- `GenCompleteTxAndPost`
  unfoldable pub gen_complete_tx_and_post : CommTrans → PreExecWithSelectUtxoResponse → Io Text
  gen_complete_tx_and_post t response = do
    utxo_output ← or_fail response.utxo_output Failure.panic
    check_tx ← gen_compliance_check_tx t utxo_output
    tx ← gen_real_tx t response check_tx
    endorser_sign ← compliance_check t tx check_tx
    let endorsed : Transaction = record tx {
      auth_require_signs = append_sign endorser_sign tx.auth_require_signs;
    }
    post_tx env t.chain_name (record endorsed { txid = tx_id_or_empty endorsed })

  -- `Transfer`; the printed transaction of the debug mode is left to the printer
  unfoldable pub transfer : CommTrans → Io Text
  transfer t =
      if t.compliance_check.is_need_compliance_check
      then (do
        response ← gen_pre_exe_with_select_utxo_res env t
        gen_complete_tx_and_post t response)
      else (do tx ← generate_tx env t; if t.debug_tx then pure [] else send_tx env t tx)
