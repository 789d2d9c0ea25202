-- ===== src/Client/Commands/Endorsed.antt =====
-- What a transfer that needs a compliance check has done when it returns.
use xuperchain.Prelude.{true, Option, none, some, [], ◌∷◌, ◌≡◌, refl, ap, ◌∙◌, pos}
use xuperchain.Go.Text.{Text, lit}
use xuperchain.Pb.{
  Transaction, TransactionStatus, EndorserRequest, EndorserResponse, SignatureInfo,
  PreExecWithSelectUtxoResponse,
}
use xuperchain.Exec.{Effect, ok, History, >>=-eq-ok}
use xuperchain.Client.Env.{Env}
use xuperchain.Client.Trans.{CommTrans}
use mathlib.Core.Path.{subst}
use xuperchain.Client.RawTx.{post_tx}
use xuperchain.Client.Requests.{draw_log_id}
use xuperchain.Client.RawTx.Post.{
  ask-eq-ok, pure-eq-ok, lift-eq-ok, wrap-eq-ok, reply_ok-eq-ok, status_of,
}
use xuperchain.Client.Compliance.{
  append_sign, tx_id_or_empty, compliance_check, gen_complete_tx_and_post, transfer,
}

-- The request for the endorser's signature under a transaction
abbrev pub IsAskedFor : Env → Text → Transaction → Transaction → EndorserRequest → Type 0
IsAskedFor env chain_name tx fee request =
    (request.request_name ≡ lit "ComplianceCheck")
    × (request.fee ≡ some fee)
    × (text : Text) × (request.request_data ≡ some text)
    × (env.marshal_tx_status (record {
      header = none;
      bcname = chain_name;
      txid = [];
      status = TransactionStatus.undefine;
      distance = pos 0;
      tx = some tx;
    })
        ≡ ok text)

abbrev asking : Text → Transaction → Text → EndorserRequest
asking chain_name fee text = record {
  header = none;
  request_name = lit "ComplianceCheck";
  bc_name = chain_name;
  fee = some fee;
  request_data = some text;
}

-- The transaction with the endorser's signature behind the others
abbrev pub with_sign : Env → Transaction → Option SignatureInfo → Transaction
with_sign env tx sign = record tx {
  auth_require_signs = append_sign env sign tx.auth_require_signs;
}

-- What is posted with it
abbrev pub endorsed : Env → Transaction → Option SignatureInfo → Transaction
endorsed env tx sign = record (with_sign env tx sign) {
  txid = tx_id_or_empty env (with_sign env tx sign);
}

-- The last calls: the endorser was asked about a transaction, and the transaction was posted with the
-- signature of its answer.
pub record IsEndorsed (env : Env) (chain_name : Text) (h' : History) : Type 0 where
  pub tx : Transaction
  pub fee : Transaction
  pub request : EndorserRequest
  pub response : EndorserResponse
  pub logid : Text
  pub before : History
  pub asked_for : IsAskedFor env chain_name tx fee request
  pub answered : env.endorser_call before request ≡ ok response
  pub calls :
      h'
      ≡ Effect.post_tx (status_of logid chain_name (endorsed env tx response.endorser_sign))
        ∷ Effect.draw_log_id
        ∷ Effect.endorser_call request
        ∷ before

module _ (env : Env) where
  post_tx-eq-ok :
      (chain_name : Text) (tx : Transaction) (h : History) {txid : Text} {h' : History}
      → post_tx env chain_name tx h ≡ (ok txid, h')
      → (logid : Text) × (h'
          ≡ Effect.post_tx (status_of logid chain_name tx) ∷ Effect.draw_log_id ∷ h)
  unfolding post_tx draw_log_id
  post_tx-eq-ok chain_name tx h e =
      let (logid, k1, e1, f1) = >>=-eq-ok _ _ h e in
      let (reply, k2, e2, f2) = >>=-eq-ok _ _ k1 f1 in
      let (u, k3, e3, f3) = >>=-eq-ok _ _ k2 f2 in
      let q1 = (ask-eq-ok _ _ h e1).1 in
      let q2 = (ask-eq-ok _ _ k1 e2).1 in
      let q3 = (reply_ok-eq-ok env reply.header k2 e3).1 in
      let q4 = (pure-eq-ok _ k3 f3).1 in
      (logid, q4 ∙ q3 ∙ q2 ∙ ap (λ k. Effect.post_tx (status_of logid chain_name tx) ∷ k) q1)

  assembled :
      (chain_name : Text) (tx fee : Transaction) (request : EndorserRequest)
      (response : EndorserResponse) (logid : Text) (before : History) {sign : Option SignatureInfo}
      {k h' : History}
      → IsAskedFor env chain_name tx fee request
      → env.endorser_call before request ≡ ok response
      → response.endorser_sign ≡ sign
      → k ≡ Effect.endorser_call request ∷ before
      → h'
        ≡ Effect.post_tx (status_of logid chain_name (endorsed env tx sign))
          ∷ Effect.draw_log_id
          ∷ k
      → IsEndorsed env chain_name h'
  assembled chain_name tx fee request response logid before asked_for answered same q p = record {
    tx = tx;
    fee = fee;
    request = request;
    response = response;
    logid = logid;
    before = before;
    asked_for = asked_for;
    answered = answered;
    calls = cc (same, q, p);
  }

  module _ (t : CommTrans) where
    compliance_check-eq-ok :
        (tx fee : Transaction) (h : History) {sign : Option SignatureInfo} {h' : History}
        → compliance_check env t tx fee h ≡ (ok sign, h')
        → (request : EndorserRequest) × (response : EndorserResponse) × IsAskedFor env t.chain_name
            tx fee request
          × (env.endorser_call h request ≡ ok response)
          × (response.endorser_sign ≡ sign)
          × (h' ≡ Effect.endorser_call request ∷ h)
    unfolding compliance_check
    compliance_check-eq-ok tx fee h e =
        let (text, k1, e1, f1) = >>=-eq-ok _ _ h e in
        let (response, k2, e2, f2) = >>=-eq-ok _ _ k1 f1 in
        let (made, q1) = lift-eq-ok _ h e1 in
        let (answered, q2) = ask-eq-ok _ _ k1 (wrap-eq-ok _ _ k1 e2) in
        let (same, q3) = pure-eq-ok _ k2 f2 in
        (
          asking t.chain_name fee text,
          response,
          (refl, refl, text, refl, made),
          subst (λ k. env.endorser_call k (asking t.chain_name fee text) ≡ ok response) q1 answered,
          same,
          q3 ∙ q2 ∙ ap (λ k. Effect.endorser_call (asking t.chain_name fee text) ∷ k) q1,
        )

    gen_complete_tx_and_post-IsEndorsed :
        (response : PreExecWithSelectUtxoResponse) (h : History) {txid : Text} {h' : History}
        → gen_complete_tx_and_post env t response h ≡ (ok txid, h')
        → IsEndorsed env t.chain_name h'
    unfolding gen_complete_tx_and_post
    gen_complete_tx_and_post-IsEndorsed response h e =
        let (utxos, k1, e1, f1) = >>=-eq-ok _ _ h e in
        let (check_tx, k2, e2, f2) = >>=-eq-ok _ _ k1 f1 in
        let (tx, k3, e3, f3) = >>=-eq-ok _ _ k2 f2 in
        let (sign, k4, e4, f4) = >>=-eq-ok _ _ k3 f3 in
        let (request, reply, asked_for, answered, same, q) =
          compliance_check-eq-ok tx check_tx k3 e4 in
        let (logid, p) = post_tx-eq-ok t.chain_name _ k4 f4 in
        assembled t.chain_name tx check_tx request reply logid k3 asked_for answered same q p

    -- A transfer that needs a compliance check and returns an id has asked the endorser about a
    -- transaction, and has posted that transaction with the signature of the answer, as its last calls.
    pub transfer-IsEndorsed :
        (h : History) {txid : Text} {h' : History}
        → t.compliance_check.is_need_compliance_check ≡ true
        → transfer env t h ≡ (ok txid, h')
        → IsEndorsed env t.chain_name h'
    unfolding transfer
    transfer-IsEndorsed h needed e =
        let (response, k1, e1, f1) = >>=-eq-ok _ _ h (simp needed at e) in
        gen_complete_tx_and_post-IsEndorsed response k1 f1
