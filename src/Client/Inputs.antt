-- ===== src/Client/Inputs.antt =====
-- The input side of a transaction in cmd/client/cmd/comm_trans.go: `genInitiator`, `GenTxInputs`,
-- `GenTxInputsWithMergeUTXO`, `GenerateTxInput`, `GeneratePureTxInputs` and `signLockUtxo`.

pub mod Change
use xuperchain.Prelude.{
  Bool, true, false, not, Option, none, some, List, [], ◌∷◌, if◌then◌else◌, ℤ, pos, ◌-ℤ◌, ltb_ℤ,
  map,
}
use xuperchain.Go.Text.{Text, is_empty}
use xuperchain.Go.Decimal.{print_int, set_string}
use xuperchain.Go.Big.{bytes}
use xuperchain.Pb.{
  TxInput, TxOutput, Utxo, UtxoInput, UtxoOutput, Header, is_success, SignatureInfo,
}
use xuperchain.Exec.{
  Failure, Message, Result, ok, err, Effect, Io, ◌>>=◌, ◌>>◌, pure, raise, lift, ask, wrap, replace,
  guard, or_fail,
}
use xuperchain.Client.Env.{Env}
use xuperchain.Client.Trans.{CommTrans}
use xuperchain.Client.Keys.{read_address, key_pair, sign_utxo}

-- The body of the loops that turn utxos into inputs
abbrev pub to_input : Utxo → TxInput
to_input u = record {
  ref_txid = u.ref_txid;
  ref_offset = u.ref_offset;
  from_addr = u.to_addr;
  amount = u.amount;
  frozen_height = pos 0;
}

-- `GeneratePureTxInputs`
unfoldable pub generate_pure_tx_inputs : UtxoOutput → List TxInput
generate_pure_tx_inputs outs = map to_input outs.utxo_list

-- An output with no frozen height
abbrev pub plain_output : Text → ℤ → TxOutput
plain_output addr amount = record { amount = bytes amount; to_addr = addr; frozen_height = pos 0 }

abbrev pub one_or_none : Option TxOutput → List TxOutput
one_or_none none = []
one_or_none (some o) = o ∷ []

-- What is selected beyond the need goes back to the sender.
unfoldable pub change_output : Text → ℤ → ℤ → Option TxOutput
change_output from_addr total need =
    if ltb_ℤ need total then some (plain_output from_addr (total -ℤ need)) else none

abbrev pub header_ok : Option Header → Io (Unit {0})
header_ok none = raise Failure.panic
header_ok (some header) = guard (is_success header.error) (Failure.said Message.select_utxo_error)

module _ (env : Env) where
  -- `genInitiator`
  unfoldable pub gen_initiator : CommTrans → Io Text
  gen_initiator t = if is_empty t.from then read_address env t.keys else pure t.from

  unfoldable pub ask_utxo : UtxoInput → Io UtxoOutput
  ask_utxo request = ask (Effect.select_utxo request) (λ h. env.select_utxo h request)

  -- `GenTxInputs`
  unfoldable pub gen_tx_inputs : CommTrans → ℤ → Io (List TxInput × Option TxOutput)
  gen_tx_inputs t total_need = do
    from_addr ← gen_initiator t
    let request : UtxoInput = record {
      bcname = t.chain_name;
      address = from_addr;
      publickey = [];
      total_need = print_int total_need;
      user_sign = [];
      need_lock = false;
    }
    outs ← wrap Message.select_utxo_error (ask_utxo request)
    header_ok outs.header
    total ← or_fail (set_string outs.total_selected) (Failure.said Message.select_utxo_error)
    pure (map to_input outs.utxo_list, change_output from_addr total total_need)

  -- `signLockUtxo`: the signature is over the whole balance of the address
  unfoldable pub sign_lock_utxo : CommTrans → UtxoInput → Io SignatureInfo
  sign_lock_utxo t utxo = do
    pair ← key_pair env t.keys
    replace Message.crypto_client_error (lift (env.create_crypto_client t.crypto_type))
    sign_utxo env pair (record { bc_name = utxo.bcname; address = utxo.address; amount = pos 0 })

  -- `GenTxInputsWithMergeUTXO`
  unfoldable pub gen_tx_inputs_with_merge_utxo : CommTrans → Io (List TxInput × TxOutput)
  gen_tx_inputs_with_merge_utxo t = do
    from_addr ← gen_initiator t
    let unsigned : UtxoInput = record {
      bcname = t.chain_name;
      address = from_addr;
      publickey = [];
      total_need = [];
      user_sign = [];
      need_lock = true;
    }
    signature ← sign_lock_utxo t unsigned
    let request : UtxoInput = record unsigned {
      publickey = signature.public_key;
      user_sign = signature.sign;
    }
    outs ←
        wrap Message.select_utxo_error
          (ask (Effect.select_utxo_by_size request) (λ h. env.select_utxo_by_size h request))
    header_ok outs.header
    total ← or_fail (set_string outs.total_selected) (Failure.said Message.select_utxo_error)
    pure (map to_input outs.utxo_list, plain_output from_addr total)

  -- `GenerateTxInput`: the same from utxos that the node has selected already
  unfoldable pub generate_tx_input :
      CommTrans → UtxoOutput → ℤ → Io (List TxInput × Option TxOutput)
  generate_tx_input t outs total_need = do
    total ← or_fail (set_string outs.total_selected) (Failure.said Message.gen_tx_input_error)
    from_addr ← gen_initiator t
    pure (map to_input outs.utxo_list, change_output from_addr total total_need)
