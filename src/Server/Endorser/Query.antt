-- ===== src/Server/Endorser/Query.antt =====
-- The branch `TxQuery` of `EndorserCall`: which transaction the endorser vouches for.
use mathlib.Core.Path.{ap, sym, ◌∙◌, subst}
use xuperchain.Prelude.{true, ◌≡◌, refl, ◌∷◌, Option, none, some}
use xuperchain.Go.Text.{Text, lit, text_eq}
use xuperchain.Pb.{XChainError, is_success, Transaction, TxStatus, EndorserRequest}
use xuperchain.Exec.{Effect, History, ok}
use xuperchain.Server.Endorser.{
  EndorserEnv, Answer, good, >>=-eq-good, lift-eq-good, settle-eq-good, serve-eq-good, found,
  code_of, get_tx_result, gen_signed_resp, dispatch, endorser_call, is_supported, text_or_empty,
}
use xuperchain.Server.Endorser.Signed.{
  answered-eq-good, if-eq-good, dispatched, IsSigned, gen_signed_resp-IsSigned,
}

found-eq-good :
    (code : XChainError) (o : Option Transaction) {tx : Transaction}
    → found code o ≡ good tx
    → o ≡ some tx
found-eq-good code none e = absurd (cc e)
found-eq-good code (some tx) e = cc e

module _ (env : EndorserEnv) (req : EndorserRequest) where
  -- The node has the transaction `tx` that the request asks for, and `data_out` is its JSON.
  abbrev pub IsFound : History → TxStatus → Transaction → Text → Type 0
  IsFound h request tx data_out =
      (env.unmarshal_tx_status (text_or_empty req.request_data) ≡ ok request)
      × ((env.query_tx h request).error ≡ none)
      × (is_success (code_of (env.query_tx h request).message.header) ≡ true)
      × ((env.query_tx h request).message.tx ≡ some tx)
      × (env.marshal_tx tx ≡ ok data_out)

  get_tx_result-eq-good :
      (h : History) {data_out : Text} {k : History}
      → get_tx_result env req h ≡ (good data_out, k)
      → (request : TxStatus) × (tx : Transaction) × IsFound h request tx data_out
        × (k ≡ Effect.query_tx request ∷ h)
  unfolding get_tx_result
  get_tx_result-eq-good h e =
      let (request, h1, e1, f1) = >>=-eq-good _ _ _ e in
      let (res, h2, e2, f2) = >>=-eq-good _ _ _ f1 in
      let (_, h3, e3, f3) = >>=-eq-good _ _ _ f2 in
      let (_, h4, e4, f4) = >>=-eq-good _ _ _ f3 in
      let (tx, h5, e5, f5) = >>=-eq-good _ _ _ f4 in
      let (p1, q1) = lift-eq-good _ _ e1 in
      let (p2, q2) = serve-eq-good _ _ _ e2 in
      let (p3, q3) = settle-eq-good _ _ e3 in
      let (p4, q4) = settle-eq-good _ _ e4 in
      let (p5, q5) = settle-eq-good _ _ e5 in
      let (p6, q6) = lift-eq-good _ _ f5 in
      let r : res ≡ env.query_tx h request = sym p2 ∙ ap (λ k. env.query_tx k request) q1 in
      (
        request,
        tx,
        (
          p1,
          subst (λ r. r.error ≡ none) r (answered-eq-good _ _ _ p3),
          subst (λ r. is_success (code_of r.message.header) ≡ true) r (if-eq-good _ _ _ _ p4),
          subst (λ r. r.message.tx ≡ some tx) r (found-eq-good _ _ p5),
          p6,
        ),
        cc,
      )

  query-is_supported : req.request_name ≡ lit "TxQuery" → is_supported req.request_name ≡ true
  unfolding text_eq
  query-is_supported named = simp named refl

  dispatch_query :
      (h : History)
      → req.request_name ≡ lit "TxQuery"
      → dispatch env req h
        ≡ gen_signed_resp env req (get_tx_result env req h).0 (get_tx_result env req h).1
  unfolding dispatch text_eq
  dispatch_query h named = simp named refl

  -- A transaction query that is answered without an error gives the JSON of the transaction that the node
  -- has found for the request, under the code of success, with the signature that the private key of the
  -- endorser's file makes of the hash of the request and of that JSON, and with the public key and the
  -- address of the files beside it; it has made no call but the query, and those of the signature after
  -- it.
  pub endorser_call_vouches_for_tx :
      (h : History) (ans : Answer) (h' : History)
      → req.request_name ≡ lit "TxQuery"
      → endorser_call env req h ≡ (ans, h')
      → ans.error ≡ none
      → (request : TxStatus) × (tx : Transaction) × (data_out : Text) × IsFound h request tx
          data_out
        × IsSigned env req data_out (Effect.query_tx request ∷ h) ans h'
  endorser_call_vouches_for_tx h ans h' named e fine =
      let d = dispatched env req h ans h' (query-is_supported named) e fine in
      let (r, k) = get_tx_result env req h in
      let (data_out, q, signed) =
        gen_signed_resp-IsSigned env req r k ans h' (sym (dispatch_query h named) ∙ d) fine in
      let (request, tx, is_found, t) = get_tx_result-eq-good h (λ i. (q i, k)) in
      (request, tx, data_out, is_found, subst (λ k. IsSigned env req data_out k ans h') t signed)
