-- ===== src/Client/Multisig/Files.antt =====
-- The commands of cmd/client/cmd/multisig_gen.go, multisig_get.go and multisig_check.go as a whole: what
-- they read, ask for and write.
use xuperchain.Prelude.{
  true, false, Option, none, some, List, [], ◌∷◌, ◌++◌, ◌≡◌, sym, ℤ, pos, if◌then◌else◌,
}
use mathlib.Core.Path.{subst}
use xuperchain.Go.Text.{Text, lit, is_empty, text_eq}
use xuperchain.Go.Decimal.{print_int}
use xuperchain.Pb.{
  is_success, Transaction, SignatureInfo, TxStatus, TransactionStatus, UtxoInput, EndorserRequest,
  EndorserResponse,
}
use xuperchain.Exec.{
  Failure, Message, Result, ok, err, Effect, History, Io, ◌>>=◌, ◌>>◌, pure, raise, lift, ask,
  replace, guard, or_fail, >>=-eq-ok,
}
use xuperchain.Client.Env.{Env, MultisigData}
use xuperchain.Client.Trans.{CommTrans}
use xuperchain.Client.Types
use xuperchain.Client.Types.{from_pb_tx}
use xuperchain.Client.Inputs.{gen_initiator, ask_utxo}
use xuperchain.Client.RawTx.{generate_multisig_gen_raw_tx}
use xuperchain.Client.RawTx.Post.{
  replace-ask-eq-ok, or_fail-eq-ok, ask-eq-ok, lift-eq-ok, guard-eq-ok, IsSuccess,
}
use xuperchain.Client.Compliance.{gen_compliance_check_tx}
use xuperchain.Client.Multisig.Gen.{read_public_keys_from_file, get_multi_sign_data}

module _ (env : Env) where
  unfoldable pub write_output : Text → Text → Io (Unit {0})
  write_output file text =
      replace Message.write_file_error
        (ask (Effect.write_file file text) (λ h. env.write_file h file text))

  module _ (marshal_multisig : MultisigData → Result Text)
      (unmarshal_args : Text → Result (List (Text × Text))) where
    -- The multisig data, where they are asked for
    unfoldable pub multisig_data : Text → Text → Io (Option MultisigData)
    multisig_data sign_type pubkeys_file =
        if text_eq sign_type (lit "multi")
        then (do
          pubkeys ← read_public_keys_from_file env pubkeys_file
          msd ← get_multi_sign_data env pubkeys
          pure (some msd))
        else if is_empty sign_type
        then pure none
        else raise (Failure.said Message.sign_type_not_supported)

    unfoldable pub write_multisig : Text → Option MultisigData → Io (Unit {0})
    write_multisig output none = pure tt
    write_multisig output (some msd) =
        lift (marshal_multisig msd) >>= λ text. write_output (output ++ lit ".ext") text

    abbrev read_args : Text → List (Text × Text) → Io (List (Text × Text))
    read_args args old = if is_empty args then pure old else lift (unmarshal_args args)

    -- `generateTx`, from the literal that the flags fill in
    unfoldable pub generate_tx : CommTrans → Text → Text → Text → Io (Unit {0})
    generate_tx t sign_type pubkeys_file args = do
      msd ← multisig_data sign_type pubkeys_file
      filled ← read_args args t.args
      write_multisig t.output msd
      generate_multisig_gen_raw_tx env
          (record t { args = filled; is_print = true; is_quick = true })

  -- `check`: an error of the printer is printed, and an empty text is written.
  unfoldable pub check :
      (ℤ → Text) → (Types.Transaction → Result Text) → Text → Text → Io (Unit {0})
  check type_name marshal_shown input output = do
    data_read ← ask (Effect.read_file input) (λ h. env.read_file h input)
    tx ← or_fail (env.unmarshal_tx data_read) (Failure.said Message.unmarshal_error)
    write_output output
        (elim (marshal_shown (from_pb_tx type_name tx)) [ ok text ↦ text | err e ↦ [] ])

  abbrev sign_text : Option SignatureInfo → Result Text
  sign_text none = ok (lit "null")
  sign_text (some sign) = env.marshal_signature sign

  -- The literals of the request for utxos and of the endorser's request
  abbrev fee_utxos : CommTrans → Text → UtxoInput
  fee_utxos t from_addr = record {
    bcname = t.chain_name;
    address = from_addr;
    total_need = print_int t.compliance_check.endorse_service_fee;
    publickey = [];
    user_sign = [];
    need_lock = false;
  }

  abbrev pub asked_status : Text → Transaction → TxStatus
  asked_status chain_name tx = record {
    header = none;
    bcname = chain_name;
    txid = [];
    status = TransactionStatus.undefine;
    distance = pos 0;
    tx = some tx;
  }

  abbrev pub sign_request : Text → Transaction → Text → EndorserRequest
  sign_request chain_name fee text = record {
    header = none;
    request_name = lit "ComplianceCheck";
    bc_name = chain_name;
    fee = some fee;
    request_data = some text;
  }

  -- The end of `get`
  unfoldable pub write_sign : Text → EndorserResponse → Io (Unit {0})
  write_sign output reply = do
    header ← or_fail reply.header Failure.panic
    guard (is_success header.error) (Failure.said Message.sign_error)
    text ← lift (sign_text reply.endorser_sign)
    write_output output text

  -- `get`
  unfoldable pub get : CommTrans → Text → Io (Unit {0})
  get t file = do
    text ←
        replace Message.open_tx_file_error (ask (Effect.read_file file) (λ h. env.read_file h file))
    tx ← or_fail (env.unmarshal_tx text) (Failure.said Message.unmarshal_error)
    from_addr ← gen_initiator env t
    utxos ← ask_utxo env (fee_utxos t from_addr)
    fee ← gen_compliance_check_tx env t utxos
    request_data ← lift (env.marshal_tx_status (asked_status t.chain_name tx))
    let request = sign_request t.chain_name fee request_data
    reply ← ask (Effect.endorser_call request) (λ h. env.endorser_call h request)
    write_sign t.output reply

  -- What `get` has got when it returns: the endorser answered a request about the transaction of the
  -- file with success, and the last call wrote its signature to the output.
  pub record HasSign (t : CommTrans) (file : Text) (h' : History) : Type 0 where
    pub text : Text
    pub tx : Transaction
    pub fee : Transaction
    pub data_text : Text
    pub reply : EndorserResponse
    pub sign : Text
    pub read_at : History
    pub asked_at : History
    pub written_at : History
    pub was_read : env.read_file read_at file ≡ ok text
    pub decoded : env.unmarshal_tx text ≡ some tx
    pub encoded : env.marshal_tx_status (asked_status t.chain_name tx) ≡ ok data_text
    pub answered : env.endorser_call asked_at (sign_request t.chain_name fee data_text) ≡ ok reply
    pub succeeded : IsSuccess reply.header
    pub signed : sign_text reply.endorser_sign ≡ ok sign
    pub wrote : h' ≡ Effect.write_file t.output sign ∷ written_at

  write_sign-eq-ok :
      (output : Text) (reply : EndorserResponse) (h : History) {h' : History}
      → write_sign output reply h ≡ (ok tt, h')
      → IsSuccess reply.header
        × (sign : Text) × (k : History) × (sign_text reply.endorser_sign ≡ ok sign)
        × (h' ≡ Effect.write_file output sign ∷ k)
  unfolding write_sign write_output
  write_sign-eq-ok output reply h e =
      let (header, k1, e1, f1) = >>=-eq-ok _ _ h e in
      let (u, k2, e2, f2) = >>=-eq-ok _ _ k1 f1 in
      let (sign, k3, e3, f3) = >>=-eq-ok _ _ k2 f2 in
      let there = (or_fail-eq-ok reply.header _ h e1).0 in
      (
        subst IsSuccess (sym there) (guard-eq-ok (is_success header.error) _ k1 e2).0,
        sign,
        k3,
        (lift-eq-ok _ k2 e3).0,
        (replace-ask-eq-ok _ _ _ k3 f3).1,
      )

  -- When `get` returns, the endorser has answered a request about the transaction of the file with
  -- success, and the last call has written the signature of that answer to the output.
  pub get-HasSign :
      (t : CommTrans) (file : Text) (h : History) {h' : History}
      → get t file h ≡ (ok tt, h')
      → HasSign t file h'
  unfolding get
  get-HasSign t file h e =
      let (text, k1, e1, f1) = >>=-eq-ok _ _ h e in
      let (tx, k2, e2, f2) = >>=-eq-ok _ _ k1 f1 in
      let (from_addr, k3, e3, f3) = >>=-eq-ok _ _ k2 f2 in
      let (utxos, k4, e4, f4) = >>=-eq-ok _ _ k3 f3 in
      let (fee, k5, e5, f5) = >>=-eq-ok _ _ k4 f4 in
      let (data_text, k6, e6, f6) = >>=-eq-ok _ _ k5 f5 in
      let (reply, k7, e7, f7) = >>=-eq-ok _ _ k6 f6 in
      let (good, sign, k8, made, wrote) = write_sign-eq-ok t.output reply k7 f7 in
      record {
        text = text;
        tx = tx;
        fee = fee;
        data_text = data_text;
        reply = reply;
        sign = sign;
        read_at = h;
        asked_at = k6;
        written_at = k8;
        was_read = (replace-ask-eq-ok _ _ _ h e1).0;
        decoded = (or_fail-eq-ok _ _ k1 e2).0;
        encoded = (lift-eq-ok _ k5 e6).0;
        answered = (ask-eq-ok _ _ k6 e7).0;
        succeeded = good;
        signed = made;
        wrote = wrote;
      }
