-- ===== src/Server/Endorser/Signed.antt =====
-- What the branches of `EndorserCall` share: the calls of a signature, and the way to a branch.
use mathlib.Core.Path.{ap, sym, ◌∙◌, subst}
use xuperchain.Prelude.{Bool, true, false, if◌then◌else◌, ◌≡◌, refl, ◌∷◌, ◌++◌, Option, none, some}
use xuperchain.Go.Text.{Text, lit}
use xuperchain.Pb.{XChainError, SignatureInfo, EndorserRequest}
use xuperchain.Exec.{Failure, Effect, History, ok}
use xuperchain.Server.Endorser.{
  EndorserEnv, Answer, is_supported, answered, dispatch, endorser_call, finish_signed,
  gen_signed_resp, success_response, text_or_empty, bad, sign_data, good, >>=-eq-good, ask-eq-good,
  lift-eq-good, pure-eq-good, Coded, read_key, key_path,
}

-- The three key files are read one after the other.
abbrev private_read : History → History
private_read h = Effect.read_file (key_path ++ lit "private.key") ∷ h

abbrev public_read : History → History
public_read h = Effect.read_file (key_path ++ lit "public.key") ∷ private_read h

abbrev address_read : History → History
address_read h = Effect.read_file (key_path ++ lit "address") ∷ public_read h

-- The calls of a signature: the three key files, then the signer.
abbrev pub signing : Text → Text → History → History
signing key digest h = Effect.sign_data key digest ∷ address_read h

-- The private key of the endorser's file has signed the digest with the result that the signature
-- holds, beside the public key and the address of the other two files.
abbrev pub IsSignature : EndorserEnv → Text → Text → History → Text × SignatureInfo → Type 0
IsSignature env key digest h (addr, sign) =
    (secret : Text) × (env.read_file h (key_path ++ lit "private.key") ≡ ok secret)
    × (env.private_key secret ≡ ok key)
    × (env.read_file (private_read h) (key_path ++ lit "public.key") ≡ ok sign.public_key)
    × (env.read_file (public_read h) (key_path ++ lit "address") ≡ ok addr)
    × (env.sign_ecdsa (address_read h) key digest ≡ ok sign.sign)

pub sign_data-eq-good :
    (env : EndorserEnv) (digest : Text) (h : History) {p : Text × SignatureInfo} {h' : History}
    → sign_data env digest h ≡ (good p, h')
    → (key : Text) × (h' ≡ signing key digest h) × IsSignature env key digest h p
unfolding sign_data read_key
sign_data-eq-good env digest h {p} {h'} e =
    let (sk, h1, e1, f1) = >>=-eq-good _ _ _ e in
    let (ak, h2, e2, f2) = >>=-eq-good _ _ _ f1 in
    let (addr, h3, e3, f3) = >>=-eq-good _ _ _ f2 in
    let (key, h4, e4, f4) = >>=-eq-good _ _ _ f3 in
    let (sign, h5, e5, f5) = >>=-eq-good _ _ _ f4 in
    let (p1, q1) = ask-eq-good _ _ _ e1 in
    let (p2, q2) = ask-eq-good _ _ _ e2 in
    let (p3, q3) = ask-eq-good _ _ _ e3 in
    let (p4, q4) = lift-eq-good _ _ e4 in
    let (p5, q5) = ask-eq-good _ _ _ e5 in
    let (p6, q6) = pure-eq-good _ _ f5 in
    let at3 : h2 ≡ public_read h =
      q2 ∙ ap (λ k. Effect.read_file (key_path ++ lit "public.key") ∷ k) q1 in
    let at4 : h4 ≡ address_read h =
      q4 ∙ q3 ∙ ap (λ k. Effect.read_file (key_path ++ lit "address") ∷ k) at3 in
    (
      key,
      q6 ∙ q5 ∙ ap (λ k. Effect.sign_data key digest ∷ k) at4,
      subst (IsSignature env key digest h) p6 (
        sk,
        p1,
        p4,
        subst (λ k. env.read_file k (key_path ++ lit "public.key") ≡ ok ak) q1 p2,
        subst (λ k. env.read_file k (key_path ++ lit "address") ≡ ok addr) at3 p3,
        subst (λ k. env.sign_ecdsa k key digest ≡ ok sign) at4 p5,
      ),
    )

pub answered-eq-good :
    {A : Type 0} (o : Option Failure) (c : XChainError) (a : A) {b : A}
    → answered o c a ≡ good b
    → o ≡ none
answered-eq-good none c a e = refl
answered-eq-good (some x) c a e = absurd (cc e)

pub if-eq-good :
    {A : Type 0} (b : Bool) (c : XChainError) (x : Failure) (a : A) {a' : A}
    → (if b then good a else bad c x) ≡ good a'
    → b ≡ true
if-eq-good true c x a e = refl
if-eq-good false c x a e = absurd (cc e)

module _ (env : EndorserEnv) (req : EndorserRequest) where
  abbrev called : Option Failure → History → Answer × History
  called o h = elim o [
    | some e ↦ (record { response = none; error = some e }, h)
    | none ↦ dispatch env req h
  ]

  past_ctx :
      (o : Option Failure) (h : History) (ans : Answer) (h' : History)
      → called o h ≡ (ans, h')
      → ans.error ≡ none
      → dispatch env req h ≡ (ans, h')
  past_ctx none h ans h' e fine = e
  past_ctx (some x) h ans h' e fine =
      let q : some x ≡ none = ap (λ p. p.0.error) e ∙ fine in absurd (cc q)

  -- An answer without an error comes from one of the branches.
  pub dispatched :
      (h : History) (ans : Answer) (h' : History)
      → is_supported req.request_name ≡ true
      → endorser_call env req h ≡ (ans, h')
      → ans.error ≡ none
      → dispatch env req h ≡ (ans, h')
  unfolding endorser_call
  dispatched h ans h' named e fine =
      past_ctx (env.create_req_ctx req.header) h ans h' (sym (simp named refl) ∙ e) fine

  signed_fine :
      (data_out : Text) (r : Coded (Text × SignatureInfo))
      → (finish_signed env req data_out r).error ≡ none
      → (p : Text × SignatureInfo) × (r ≡ good p)
  signed_fine data_out (good (addr, sign)) e = ((addr, sign), refl)
  signed_fine data_out (bad c x) e = absurd (cc e)

  -- A signed answer gives the data, and the endorser's signature of the request and the data.
  abbrev pub IsSigned : Text → History → Answer → History → Type 0
  IsSigned data_out k ans h' =
      (addr : Text) × (sign : SignatureInfo) × (key : Text) × (ans
        ≡ success_response req data_out addr (some sign) XChainError.success)
      × (h' ≡ signing key (env.sha256 (text_or_empty req.request_data ++ data_out)) k)
      × IsSignature env key (env.sha256 (text_or_empty req.request_data ++ data_out)) k (addr, sign)

  pub gen_signed_resp-IsSigned :
      (r : Coded Text) (k : History) (ans : Answer) (h' : History)
      → gen_signed_resp env req r k ≡ (ans, h')
      → ans.error ≡ none
      → (data_out : Text) × (r ≡ good data_out) × IsSigned data_out k ans h'
  unfolding gen_signed_resp
  gen_signed_resp-IsSigned (bad c x) k ans h' e fine =
      let q : some x ≡ none = ap (λ p. p.0.error) e ∙ fine in absurd (cc q)
  gen_signed_resp-IsSigned (good data_out) k ans h' e fine =
      let digest = env.sha256 (text_or_empty req.request_data ++ data_out) in
      let (p, q) = signed_fine data_out (sign_data env digest k).0 (ap (λ x. x.0.error) e ∙ fine) in
      let (key, t, signature) = sign_data-eq-good env digest k (λ i. (q i, (ap (λ x. x.1) e) i)) in
      (
        data_out,
        refl,
        (
          p.0,
          p.1,
          key,
          sym (ap (λ x. x.0) e) ∙ ap (finish_signed env req data_out) q,
          t,
          signature,
        ),
      )
