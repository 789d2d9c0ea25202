-- ===== src/Client/Transfer.antt =====
-- `Cli.Transfer` of cmd/client/cmd/cli.go: a transfer that an account may make, which does not go through
-- `CommTrans`. What it prints is left out.
pub mod Balance
pub mod Frozen
use xuperchain.Prelude.{
  Bool, true, false, Option, none, some, List, [], ◌∷◌, ◌++◌, if◌then◌else◌, ℤ, pos, ◌+ℤ◌,
  is_negative, map,
}
use xuperchain.Go.Text.{Text, is_empty}
use xuperchain.Go.Decimal.{set_string, print_int}
use xuperchain.Go.Big.{bytes}
use xuperchain.Pb.{
  Header, XChainError, TxInput, TxOutput, TxDataAccount, Transaction, TransactionStatus, TxStatus,
  UtxoInput, UtxoOutput, InvokeRpcRequest, InvokeResponse, SignatureInfo,
}
use xuperchain.Exec.{
  Failure, Message, Result, ok, err, and_then, Effect, Io, ◌>>=◌, ◌>>◌, pure, lift, ask, wrap,
  replace, or_fail,
}
use xuperchain.Client.Env.{Env}
use xuperchain.Client.Keys.{
  KeyPair, AkInfo, ak_info, sign_tx_with, sign_utxo, sign_tx_for_ak, sign_tx_for_account,
  gen_auth_requirement, make_tx_id,
}
use xuperchain.Client.Outputs.{new_fee_account, has_fee}
use xuperchain.Client.Inputs.{to_input, change_output, one_or_none, header_ok, ask_utxo}
use xuperchain.Client.Requests.{draw_log_id}
use xuperchain.Client.RawTx.{empty_tx, draw_nonce, read_clock, reply_ok}

pub record TransferOptions : Type 0 where
  pub blockchain_name : Text
  pub key_path : Text
  pub crypto_type : Text
  pub to : Text
  pub amount : Text
  pub fee : Text
  pub desc : Text
  pub frozen_height : ℤ
  pub version : ℤ
  pub from : Text
  pub account_path : Text
  pub debug : Bool

-- One round of the loop of `assembleTxSupportAccount`
abbrev pub pay_amount : List TxOutput × ℤ → TxDataAccount → ℤ → Result (List TxOutput × ℤ)
pay_amount (outs, total) acc amount =
    if is_negative amount
    then err (Failure.said Message.negative_amount)
    else ok (
      outs
          ++ record {
            amount = bytes amount;
            to_addr = acc.address;
            frozen_height = acc.frozen_height;
          }
            ∷ [],
      total +ℤ amount,
    )

unfoldable pub pay_account : List TxOutput × ℤ → TxDataAccount → Result (List TxOutput × ℤ)
pay_account p acc = elim (set_string acc.amount) [
  | none ↦ err (Failure.said Message.invalid_amount)
  | some amount ↦ pay_amount p acc amount
]

unfoldable pub pay_each : List TxOutput × ℤ → List TxDataAccount → Result (List TxOutput × ℤ)
unfolding pay_account
pay_each p [] = ok p
pay_each p (acc ∷ accs) = and_then (pay_account p acc) (λ q. pay_each q accs)

-- The receiver, and the fee where there is one
abbrev pub accounts_of : Env → TransferOptions → List TxDataAccount
accounts_of env opt =
    record { address = opt.to; amount = opt.amount; frozen_height = opt.frozen_height }
    ∷ (if has_fee opt.fee then new_fee_account env opt.fee ∷ [] else [])

-- What a pre-execution of no request leaves in a transaction
abbrev pub with_response : Option InvokeResponse → Transaction → Transaction
with_response none tx = tx
with_response (some res) tx = record tx {
  contract_requests = res.requests;
  tx_inputs_ext = res.inputs;
  tx_outputs_ext = res.outputs;
}

module _ (env : Env) where
  -- `assembleTxInputsSupportAccount`
  unfoldable pub assemble_inputs :
      TransferOptions → ℤ → AkInfo → Io (List TxInput × Option TxOutput)
  assemble_inputs opt total_need initiator = do
    sign ←
        sign_utxo env initiator.key_pair (record {
          bc_name = opt.blockchain_name;
          address = initiator.address;
          amount = total_need;
        })
    let request : UtxoInput = record {
      bcname = opt.blockchain_name;
      address = opt.from;
      publickey = initiator.key_pair.public_key;
      total_need = print_int total_need;
      user_sign = sign.sign;
      need_lock = true;
    }
    outs ← replace Message.select_utxo_error (ask_utxo env request)
    header_ok outs.header
    total ← or_fail (set_string outs.total_selected) (Failure.said Message.select_utxo_error)
    pure (map to_input outs.utxo_list, change_output opt.from total total_need)

  -- `assembleTxSupportAccount`
  unfoldable pub assemble_tx : TransferOptions → AkInfo → Io TxStatus
  assemble_tx opt initiator = do
    nonce ← draw_nonce env
    timestamp ← read_clock env
    paid ← lift (pay_each ([], pos 0) (accounts_of env opt))
    spent ← assemble_inputs opt paid.1 initiator
    auth ← gen_auth_requirement env opt.from opt.account_path
    logid ← draw_log_id env
    let request : InvokeRpcRequest = record {
      header = some (record { logid = logid; from_node = []; error = XChainError.success });
      bcname = opt.blockchain_name;
      requests = [];
      initiator = initiator.address;
      auth_require = auth;
    }
    res ← ask (Effect.pre_exec request) (λ h. env.pre_exec h request)
    let tx : Transaction = record empty_tx {
      version = opt.version;
      desc = opt.desc;
      nonce = nonce;
      timestamp = timestamp;
      initiator = initiator.address;
      tx_outputs = paid.0 ++ one_or_none spent.1;
      tx_inputs = spent.0;
      auth_require = auth;
    }
    logid' ← draw_log_id env
    pure (record {
      header = some (record { logid = logid'; from_node = []; error = XChainError.success });
      bcname = opt.blockchain_name;
      txid = [];
      status = TransactionStatus.unconfirm;
      distance = pos 0;
      tx = some (with_response res.response tx);
    })

  -- `signTx`
  unfoldable pub sign_transfer : TransferOptions → Transaction → KeyPair → Io (List SignatureInfo)
  sign_transfer opt tx initiator =
      if is_empty opt.account_path
      then sign_tx_for_ak env tx initiator
      else sign_tx_for_account env tx opt.account_path

  -- The signatures and the id of `transferSupportAccount`
  unfoldable pub sign_status : TransferOptions → Transaction → AkInfo → Io Transaction
  sign_status opt tx initiator = do
    info ← sign_tx_with env initiator.key_pair tx
    let initiated : Transaction = record tx { initiator_signs = tx.initiator_signs ++ info ∷ [] }
    signs ← wrap Message.sign_error (sign_transfer opt initiated initiator.key_pair)
    let signed : Transaction = record initiated { auth_require_signs = signs }
    txid ← wrap Message.tx_id_error (lift (make_tx_id env signed))
    pure (record signed { txid = txid })

  unfoldable pub post_status : TxStatus → Io Text
  post_status status = do
    reply ← wrap Message.send_tx_error (ask (Effect.post_tx status) (λ h. env.post_tx h status))
    reply_ok env reply.header
    pure status.txid

  abbrev pub post_unless : Bool → TxStatus → Io Text
  post_unless true status = pure status.txid
  post_unless false status = post_status status

  -- `transferSupportAccount`; with the debug option the transaction is printed and not posted.
  unfoldable pub transfer_support_account : TransferOptions → AkInfo → Io Text
  transfer_support_account opt initiator = do
    status ← assemble_tx opt initiator
    tx ← or_fail status.tx Failure.panic
    signed ← sign_status opt tx initiator
    post_unless opt.debug (record status { tx = some signed; txid = signed.txid })

  -- `transfer`
  abbrev pub from_of : TransferOptions → AkInfo → TransferOptions
  from_of opt initiator = if is_empty opt.from then record opt { from = initiator.address } else opt

  -- `Transfer`
  unfoldable pub transfer : TransferOptions → Io Text
  transfer opt = do
    initiator ← ak_info env opt.key_path
    lift (env.create_crypto_client opt.crypto_type)
    transfer_support_account (from_of opt initiator) initiator
