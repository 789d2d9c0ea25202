-- ===== src/Tests/Endorser.antt =====
-- The endorser's theorems at one compliance check and one transaction query.
use xuperchain.Prelude.{none, some, [], ◌∷◌, ◌≡◌, refl, pos}
use xuperchain.Go.Text.{Text, lit, text_eq}
use xuperchain.Pb.{
  XChainError, Transaction, TxStatus, TransactionStatus, SignatureInfo, EndorserRequest,
}
use xuperchain.Exec.{Effect, History, ok}
use xuperchain.Client.RawTx.{empty_tx}
use xuperchain.Server.Endorser.{
  EndorserEnv, Answer, endorser_call, dispatch, compliance_check, process_fee, pay_fee,
  generate_tx_sign, get_tx_result, gen_signed_resp, sign_data, read_key, fee_status,
  success_response, ◌>>=◌,
}
use xuperchain.Server.Endorser.Signed.{signing, IsSigned}
use xuperchain.Server.Endorser.Compliance.{IsFeeTaken, endorser_call_takes_fee_first}
use xuperchain.Server.Endorser.Query.{IsFound, endorser_call_vouches_for_tx}
use xuperchain.Tests.World.{good_header, down}

abbrev paid_tx : Transaction
paid_tx = record empty_tx { txid = lit "fee" }

abbrev wanted : TxStatus
wanted = record {
  header = none;
  bcname = lit "xuper";
  txid = lit "t";
  status = TransactionStatus.undefine;
  distance = pos 0;
  tx = some empty_tx;
}

abbrev node : EndorserEnv
node = record {
  post_tx = λ h status. record { message = record { header = good_header }; error = none };
  query_tx = λ h status. record { message = record wanted { header = good_header }; error = none };
  pre_exec = λ h request. record {
    message = record { header = good_header; bcname = []; response = none };
    error = none;
  };
  pre_exec_with_select_utxo = λ h request. record {
    message = record { header = good_header; bcname = []; response = none; utxo_output = none };
    error = none;
  };
  create_req_ctx = λ header. none;
  read_file = λ h file. ok (lit "k");
  private_key = λ key. ok key;
  sign_ecdsa = λ h key digest. ok digest;
  sha256 = λ text. text;
  tx_digest = λ tx. ok (lit "d");
  unmarshal_tx_status = λ text. ok wanted;
  unmarshal_pre_exec = λ text. down;
  unmarshal_cross_query = λ text. down;
  marshal_common_reply = λ reply. ok (lit "{}");
  marshal_pre_exec = λ reply. down;
  marshal_cross_query = λ reply. down;
  marshal_tx = λ tx. ok (lit "tx");
}

abbrev request_for : Text → EndorserRequest
request_for name = record {
  header = none;
  request_name = name;
  bc_name = lit "xuper";
  fee = some paid_tx;
  request_data = some (lit "q");
}

abbrev check : EndorserRequest
check = request_for (lit "ComplianceCheck")

abbrev signed_by_k : Text → SignatureInfo
signed_by_k digest = record { public_key = lit "k"; sign = digest }

abbrev approved : Answer
approved =
    success_response check (lit "{}") (lit "k") (some (signed_by_k (lit "d"))) XChainError.success

check-approved :
    endorser_call node check []
    ≡ (approved, signing (lit "k") (lit "d") (Effect.post_tx (fee_status check paid_tx) ∷ []))
unfolding endorser_call dispatch compliance_check process_fee pay_fee generate_tx_sign sign_data
    read_key text_eq ◌>>=◌
check-approved = refl

endorser_call_takes_fee_first_example :
    IsFeeTaken node check paid_tx []
    × (text : Text) × (status : TxStatus) × (digest : Text) × (key : Text) × (check.request_data
        ≡ some text)
    × (node.unmarshal_tx_status text ≡ ok status)
    × (node.tx_digest status.tx ≡ ok digest)
    × (signing (lit "k") (lit "d") (Effect.post_tx (fee_status check paid_tx) ∷ [])
        ≡ signing key digest (Effect.post_tx (fee_status check paid_tx) ∷ []))
endorser_call_takes_fee_first_example =
    endorser_call_takes_fee_first node check paid_tx [] approved _ refl refl check-approved refl

abbrev query : EndorserRequest
query = request_for (lit "TxQuery")

abbrev vouched : Answer
vouched =
    success_response query (lit "tx") (lit "k") (some (signed_by_k (lit "qtx"))) XChainError.success

abbrev query_history : History
query_history = signing (lit "k") (lit "qtx") (Effect.query_tx wanted ∷ [])

query-vouched : endorser_call node query [] ≡ (vouched, query_history)
unfolding endorser_call dispatch get_tx_result gen_signed_resp sign_data read_key text_eq ◌>>=◌
query-vouched = refl

endorser_call_vouches_for_tx_example :
    (request : TxStatus) × (tx : Transaction) × (data_out : Text) × IsFound node query [] request tx
      data_out
    × IsSigned node query data_out (Effect.query_tx request ∷ []) vouched query_history
endorser_call_vouches_for_tx_example =
    endorser_call_vouches_for_tx node query [] vouched query_history refl query-vouched refl
