-- ===== src/Server/Endorser/Compliance.antt =====
-- The branch `ComplianceCheck` of `EndorserCall`: the fee comes before the signature.
use mathlib.Core.Path.{ap, sym, ◌∙◌, subst}
use xuperchain.Prelude.{true, ◌≡◌, refl, ◌∷◌, Option, none, some}
use xuperchain.Go.Text.{Text, lit, text_eq}
use xuperchain.Pb.{Transaction, CommonReply, is_success, TxStatus, SignatureInfo, EndorserRequest}
use xuperchain.Exec.{Effect, Failure, Message, History, Result, ok, err}
use xuperchain.Server.Endorser.{
  EndorserEnv, Answer, Reply, Call, Coded, good, bad, pure, >>=-eq-good, lift-eq-good,
  settle-eq-good, serve-eq-good, pure-eq-good, code_of, fee_status, pay_fee, process_fee,
  generate_tx_sign, compliance_check, dispatch, endorser_call, finish_check, is_supported,
}
use xuperchain.Server.Endorser.Signed.{
  signing, sign_data-eq-good, answered-eq-good, if-eq-good, dispatched,
}

data_text : Option Text → Result Text
data_text o = elim o [ none ↦ err (Failure.said Message.empty_request_data) | some text ↦ ok text ]

data_text-eq-ok : (o : Option Text) {text : Text} → data_text o ≡ ok text → o ≡ some text
unfolding data_text
data_text-eq-ok none e = absurd (cc e)
data_text-eq-ok (some t) e = cc e

module _ (env : EndorserEnv) (req : EndorserRequest) where
  abbrev reply : Transaction → History → Reply CommonReply
  reply fee h = env.post_tx h (fee_status req fee)

  abbrev pub IsFeeTaken : Transaction → History → Type 0
  IsFeeTaken fee h =
      ((reply fee h).error ≡ none) × (is_success (code_of (reply fee h).message.header) ≡ true)

  pay_fee-eq-good :
      (fee : Transaction) (h : History) {h' : History}
      → pay_fee env (fee_status req fee) h ≡ (good tt, h')
      → IsFeeTaken fee h × (h' ≡ Effect.post_tx (fee_status req fee) ∷ h)
  unfolding pay_fee
  pay_fee-eq-good fee h e =
      let (res, h1, e1, f1) = >>=-eq-good _ _ _ e in
      let (_, h2, e2, f2) = >>=-eq-good _ _ _ f1 in
      let (p1, q1) = serve-eq-good _ _ _ e1 in
      let (p2, q2) = settle-eq-good _ _ e2 in
      let (p3, q3) = settle-eq-good _ _ f2 in
      (
        (
          subst (λ r. r.error ≡ none) (sym p1) (answered-eq-good _ _ _ p2),
          subst (λ r. is_success (code_of r.message.header) ≡ true) (sym p1)
              (if-eq-good _ _ _ _ p3),
        ),
        cc,
      )

  process_fee-eq-good :
      (fee : Transaction) (h : History) {h' : History}
      → req.fee ≡ some fee
      → process_fee env req h ≡ (good tt, h')
      → IsFeeTaken fee h × (h' ≡ Effect.post_tx (fee_status req fee) ∷ h)
  unfolding process_fee
  process_fee-eq-good fee h {h'} has_fee e = pay_fee-eq-good fee h (subst by_fee has_fee e)
    where
      by_fee : Option Transaction → Type 0
      by_fee o =
          (elim o as (λ _. Call (Unit {0})) [
            | none ↦ pure tt
            | some fee' ↦ pay_fee env (fee_status req fee')
          ])
            h
          ≡ (good tt, h')

  generate_tx_sign-eq-good :
      (h : History) {p : Text × SignatureInfo} {h' : History}
      → generate_tx_sign env req h ≡ (good p, h')
      → (text : Text) × (status : TxStatus) × (digest : Text) × (key : Text) × (req.request_data
          ≡ some text)
        × (env.unmarshal_tx_status text ≡ ok status)
        × (env.tx_digest status.tx ≡ ok digest)
        × (h' ≡ signing key digest h)
  unfolding generate_tx_sign data_text
  generate_tx_sign-eq-good h e =
      let (text, h1, e1, f1) = >>=-eq-good _ _ _ e in
      let (status, h2, e2, f2) = >>=-eq-good _ _ _ f1 in
      let (digest, h3, e3, f3) = >>=-eq-good _ _ _ f2 in
      let (p1, q1) = lift-eq-good _ _ e1 in
      let (p2, q2) = lift-eq-good _ _ e2 in
      let (p3, q3) = lift-eq-good _ _ e3 in
      let (key, q4, _) = sign_data-eq-good env digest h3 f3 in
      (text, status, digest, key, data_text-eq-ok _ p1, p2, p3, cc)

  -- What an approved check did, from the history `h` to `h'`.
  compliance_check-eq-good :
      (fee : Transaction) (h : History) {p : Text × Text × SignatureInfo} {h' : History}
      → req.fee ≡ some fee
      → compliance_check env req h ≡ (good p, h')
      → IsFeeTaken fee h
        × (text : Text) × (status : TxStatus) × (digest : Text) × (key : Text) × (req.request_data
            ≡ some text)
        × (env.unmarshal_tx_status text ≡ ok status)
        × (env.tx_digest status.tx ≡ ok digest)
        × (h' ≡ signing key digest (Effect.post_tx (fee_status req fee) ∷ h))
  unfolding compliance_check
  compliance_check-eq-good fee h has_fee e =
      let (_, h1, e1, f1) = >>=-eq-good _ _ _ e in
      let (signed, h2, e2, f2) = >>=-eq-good _ _ _ f1 in
      let (data_out, h3, e3, f3) = >>=-eq-good _ _ _ f2 in
      let (_, q3) = lift-eq-good _ _ e3 in
      let (_, q4) = pure-eq-good _ _ f3 in
      let (p1, q1) = process_fee-eq-good fee h has_fee e1 in
      let (text, status, digest, key, r1, r2, r3, q2) = generate_tx_sign-eq-good h1 e2 in
      (p1, text, status, digest, key, r1, r2, r3, cc)

  finished :
      (r : Coded (Text × Text × SignatureInfo))
      → (finish_check env req r).error ≡ none
      → (p : Text × Text × SignatureInfo) × (r ≡ good p)
  finished (good (a, b, c)) e = ((a, b, c), refl)
  finished (bad c x) e = absurd (cc e)

  check-is_supported :
      req.request_name ≡ lit "ComplianceCheck" → is_supported req.request_name ≡ true
  unfolding text_eq
  check-is_supported named = simp named refl

  dispatch_check :
      (h : History)
      → req.request_name ≡ lit "ComplianceCheck"
      → dispatch env req h
        ≡ (finish_check env req (compliance_check env req h).0, (compliance_check env req h).1)
  unfolding dispatch text_eq
  dispatch_check h named = simp named refl

  -- A compliance check with a fee that is answered without an error has posted the fee before anything
  -- else, with a reply that has no error and the code of success; then it has read the three key files
  -- and signed the digest of the transaction of the request; it has made no other call.
  pub endorser_call_takes_fee_first :
      (fee : Transaction) (h : History) (ans : Answer) (h' : History)
      → req.request_name ≡ lit "ComplianceCheck"
      → req.fee ≡ some fee
      → endorser_call env req h ≡ (ans, h')
      → ans.error ≡ none
      → IsFeeTaken fee h
        × (text : Text) × (status : TxStatus) × (digest : Text) × (key : Text) × (req.request_data
            ≡ some text)
        × (env.unmarshal_tx_status text ≡ ok status)
        × (env.tx_digest status.tx ≡ ok digest)
        × (h' ≡ signing key digest (Effect.post_tx (fee_status req fee) ∷ h))
  endorser_call_takes_fee_first fee h ans h' named has_fee e fine =
      let d =
        sym (dispatch_check h named)
        ∙ dispatched env req h ans h' (check-is_supported named) e fine in
      let (p, q) = finished (compliance_check env req h).0 (ap (λ p. p.0.error) d ∙ fine) in
      compliance_check-eq-good fee h has_fee (λ i. (q i, (ap (λ p. p.1) d) i))
