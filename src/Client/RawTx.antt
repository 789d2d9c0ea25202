-- ===== src/Client/RawTx.antt =====
-- Building, signing and posting a transaction in cmd/client/cmd/comm_trans.go: `GenerateTx`,
-- `GenRawTx`, `SendTx`, `postTx`, `signTx` and `GenTxFile`.
pub mod Balance
pub mod Post
use xuperchain.Prelude.{
  Bool, true, false, Option, none, some, List, [], ◌∷◌, ◌++◌, if◌then◌else◌, ℤ, pos,
}
use xuperchain.Go.Text.{Text, is_empty}
use xuperchain.Pb.{
  Transaction, InvokeRequest, InvokeResponse, TxInput, TxOutput, TxStatus, TransactionStatus,
  CommonReply, Header, XChainError, is_success, SignatureInfo,
}
use xuperchain.Exec.{
  Failure, Message, Result, ok, err, Effect, Io, ◌>>=◌, ◌>>◌, pure, raise, lift, ask, wrap, replace,
  guard, or_fail, then_run,
}
use xuperchain.Client.Env.{Env}
use xuperchain.Client.Trans.{CommTrans}
use xuperchain.Client.Keys.{read_address, key_pair, sign_tx_for_ak, sign_tx_for_account, make_tx_id}
use xuperchain.Client.Outputs.{gen_tx_outputs}
use xuperchain.Client.Inputs.{gen_initiator, gen_tx_inputs, one_or_none}
use xuperchain.Client.Requests.{draw_log_id, get_desc, gen_pre_exe_res, gen_auth_require, auth_of}

abbrev pub utxo_inputs_of : Option InvokeResponse → List TxInput
utxo_inputs_of none = []
utxo_inputs_of (some res) = res.utxo_inputs

abbrev pub utxo_outputs_of : Option InvokeResponse → List TxOutput
utxo_outputs_of none = []
utxo_outputs_of (some res) = res.utxo_outputs

abbrev gas_of : Option InvokeResponse → ℤ
gas_of none = pos 0
gas_of (some res) = res.gas_used

-- A transaction with no field set, as `&pb.Transaction{}`
abbrev pub empty_tx : Transaction
empty_tx = record {
  txid = [];
  blockid = [];
  tx_inputs = [];
  tx_outputs = [];
  desc = [];
  coinbase = false;
  nonce = [];
  timestamp = pos 0;
  version = pos 0;
  autogen = false;
  tx_inputs_ext = [];
  tx_outputs_ext = [];
  contract_requests = [];
  initiator = [];
  auth_require = [];
  initiator_signs = [];
  auth_require_signs = [];
  received_timestamp = pos 0;
  xuper_sign = none;
  modify_block = none;
}

-- What the pre-execution of a contract leaves in a transaction
abbrev pub with_contract : Option InvokeResponse → List InvokeRequest → Transaction → Transaction
with_contract none reqs tx = tx
with_contract (some res) reqs tx = record tx {
  tx_inputs_ext = res.inputs;
  tx_outputs_ext = res.outputs;
  contract_requests = reqs;
}

module _ (env : Env) where
  unfoldable pub draw_nonce : Io Text
  draw_nonce = ask Effect.draw_nonce (λ h. ok (env.nonce h))

  unfoldable pub read_clock : Io ℤ
  read_clock = ask Effect.read_clock (λ h. ok (env.clock h))

  -- `GenRawTx`
  unfoldable pub gen_raw_tx :
      CommTrans → Text → Option InvokeResponse → List InvokeRequest → Io Transaction
  gen_raw_tx t desc res reqs = do
    nonce ← draw_nonce
    timestamp ← read_clock
    paid ← lift (gen_tx_outputs env t (gas_of res))
    spent ← gen_tx_inputs env t paid.1
    from_addr ← gen_initiator env t
    pure (
        with_contract res reqs (record empty_tx {
          desc = desc;
          nonce = nonce;
          timestamp = timestamp;
          version = env.tx_version;
          tx_inputs = utxo_inputs_of res ++ spent.0;
          tx_outputs = (utxo_outputs_of res ++ paid.0) ++ one_or_none spent.1;
          initiator = from_addr;
        }))

  -- an error of `GetDesc` leaves an empty description
  unfoldable pub desc_or_empty : CommTrans → Io Text
  desc_or_empty t h =
      let (r, h') = get_desc env t h in (elim r [ ok desc ↦ ok desc | err _ ↦ ok [] ], h')

  -- `GenerateTx`
  unfoldable pub generate_tx : CommTrans → Io Transaction
  generate_tx t = do
    res ← gen_pre_exe_res env t
    desc ← desc_or_empty t
    gen_raw_tx t desc (some res.0) res.1

  -- `signTxForInitiator`
  unfoldable pub sign_tx_for_initiator : CommTrans → Transaction → Io (List SignatureInfo)
  sign_tx_for_initiator t tx = do
    pair ← key_pair env t.keys
    replace Message.crypto_client_error (lift (env.create_crypto_client t.crypto_type))
    sign_tx_for_ak env tx pair

  -- `signTx` of the struct, with its method `signTxForAccount`
  unfoldable pub sign_tx : CommTrans → Transaction → Text → Io (List SignatureInfo)
  sign_tx t tx path = if is_empty path then sign_tx_for_initiator t tx else do
    replace Message.crypto_client_error (lift (env.create_crypto_client t.crypto_type))
    sign_tx_for_account env tx path

  abbrev pub reply_ok : Option Header → Io (Unit {0})
  reply_ok none = raise Failure.panic
  reply_ok (some header) = guard (is_success header.error) (Failure.said Message.failed_to_post_tx)

  -- `postTx`, and `sendTx` of multisig_send.go; the hexadecimal form of the id is left to the printer
  unfoldable pub post_tx : Text → Transaction → Io Text
  post_tx chain_name tx = do
    logid ← draw_log_id env
    let status : TxStatus = record {
      header = some (record { logid = logid; from_node = []; error = XChainError.success });
      bcname = chain_name;
      txid = tx.txid;
      status = TransactionStatus.unconfirm;
      distance = pos 0;
      tx = some tx;
    }
    reply ← ask (Effect.post_tx status) (λ h. env.post_tx h status)
    reply_ok reply.header
    pure tx.txid

  -- `SendTx`
  unfoldable pub send_tx : CommTrans → Transaction → Io Text
  send_tx t tx = do
    from_addr ← read_address env t.keys
    let required : Transaction = record tx {
      auth_require = tx.auth_require ++ auth_of t.from from_addr ∷ [];
    }
    signs ← sign_tx_for_initiator t required
    let signed : Transaction = record required {
      initiator_signs = signs;
      auth_require_signs = signs;
    }
    txid ← replace Message.tx_id_error (lift (make_tx_id env signed))
    post_tx t.chain_name (record signed { txid = txid })

  -- `GenTxFile`, without the optional print
  unfoldable pub gen_tx_file : CommTrans → Transaction → Io (Unit {0})
  gen_tx_file t tx = do
    buf ← or_fail (env.marshal_tx tx) (Failure.said Message.tx_marshal_error)
    replace Message.write_file_error
        (ask (Effect.write_file t.output buf) (λ h. env.write_file h t.output buf))

  -- `GenerateMultisigGenRawTx`
  unfoldable pub generate_multisig_gen_raw_tx : CommTrans → Io (Unit {0})
  generate_multisig_gen_raw_tx t = do
    tx ← generate_tx t
    addrs ← gen_auth_require env t.multi_addrs
    gen_tx_file t (record tx { auth_require = addrs })
