-- ===== src/Server/Intercept/Code.antt =====
-- The code in the header of a response tells whether the handler gave an error.
use xuperchain.Prelude.{
  Bool, true, false, ◌&&◌, Option, none, some, List, [], ◌∷◌, ℤ, pos, negsuc, ◌≡◌, ◌≢◌, refl, sym,
  ap, ◌∙◌, inl, inr, arith, Bool-cases, Option-cases, ◌↔◌,
}
use xuperchain.Pb.{Header, XChainError}
use xuperchain.Server.Handle.{StdError}
use xuperchain.Server.Rpc.{Calls, Answer}
use xuperchain.Server.Intercept.{
  StdName, xchain_err_of, std_names, InterceptEnv, same_code, HasHeader, find_code, convert_err,
  or_unknown, req_header, code_of, resp_header, unary_interceptor,
}

-- The code of `ErrSuccess` belongs to no other standard error, and no error is cast to it.
pub record SuccessIsOwn (env : InterceptEnv) : Type 0 where
  pub of_name : (n : StdName) → env.code n ≡ env.code StdName.err_success → n ≡ StdName.err_success
  pub of_error : (e : StdError) → env.cast_error e ≢ env.code StdName.err_success

same_code_refl : (c : ℤ) → same_code c c ≡ true
same_code_refl (pos a) = ground arith
same_code_refl (negsuc a) = ground arith

same_code-eq : (a b : ℤ) → same_code a b ≡ true → a ≡ b
same_code-eq (pos a) (pos b) h = ap pos (ground arith)
same_code-eq (negsuc a) (negsuc b) h = ap negsuc (ground arith)
same_code-eq (pos a) (negsuc b) h = absurd (cc h)
same_code-eq (negsuc a) (pos b) h = absurd (cc h)

success_only : (n : StdName) → xchain_err_of n ≡ XChainError.success → n ≡ StdName.err_success
success_only n e =
    elim n as (λ k. xchain_err_of k ≡ XChainError.success → k ≡ StdName.err_success) [
      | StdName.err_success ↦ λ _. refl
      | _ ↦ λ bad. absurd (cc bad)
    ]
      e

abbrev is_other : StdName → Bool
is_other StdName.err_success = false
is_other _ = true

abbrev all_other : List StdName → Bool
all_other [] = true
all_other (n ∷ ns) = is_other n && all_other ns

other-differs : (n : StdName) → is_other n ≡ true → n ≢ StdName.err_success
other-differs n h e = absurd (cc (h, ap is_other e))

module _ (env : InterceptEnv) where
  -- Only the entry of `ErrSuccess` gives `SUCCESS`.
  found_success :
      (c : ℤ) (ns : List StdName)
      → find_code env c ns ≡ some XChainError.success
      → env.code StdName.err_success ≡ c
  unfolding find_code
  found_success c [] e = absurd (cc e)
  found_success c (n ∷ ns) e = elim (Option-cases (find_code env c ns)) [
    | inr (x, later) ↦ found_success c ns (later ∙ rw later at e)
    | inl missing ↦ elim (Bool-cases (same_code (env.code n) c)) [
      | inl same ↦
          let is_n = success_only n (cc (rw (missing, same) at e)) in
          ap env.code (sym is_n) ∙ same_code-eq (env.code n) c same
      | inr other ↦ absurd (cc (rw (missing, other) at e))
    ]
  ]

  module _ (own : SuccessIsOwn env) where
    absent :
        (n : StdName)
        → is_other n ≡ true
        → same_code (env.code n) (env.code StdName.err_success) ≡ false
    absent n h = elim (Bool-cases (same_code (env.code n) (env.code StdName.err_success))) [
      | inl same ↦ absurd (other-differs n h (own.of_name n (same_code-eq _ _ same)))
      | inr other ↦ other
    ]

    absent_all :
        (ns : List StdName)
        → all_other ns ≡ true
        → find_code env (env.code StdName.err_success) ns ≡ none
    unfolding find_code
    absent_all [] h = refl
    absent_all (n ∷ ns) h = elim (Bool-cases (is_other n)) [
      | inl other ↦ rw (absent_all ns (rw other at h), absent n other) refl
      | inr same ↦ absurd (cc (rw same at h))
    ]

    finds_success :
        (ns : List StdName)
        → all_other ns ≡ true
        → find_code env (env.code StdName.err_success) (StdName.err_success ∷ ns)
          ≡ some XChainError.success
    unfolding find_code
    finds_success ns h = rw (absent_all ns h, same_code_refl (env.code StdName.err_success)) refl

    or_unknown-success :
        (o : Option XChainError)
        → or_unknown env o ≡ XChainError.success
        → o ≡ some XChainError.success
    or_unknown-success none h = absurd (cc h)
    or_unknown-success (some x) h = ap some h

    code_of-success :
        (e : Option StdError) → env.code StdName.err_success ≡ code_of env e → e ≡ none
    code_of-success none h = refl
    code_of-success (some e) h = absurd (own.of_error e (sym h))

    resp_header-success :
        (header : Header) (e : Option StdError)
        → ((resp_header env header e).error ≡ XChainError.success) ↔ (e ≡ none)
    unfolding resp_header convert_err
    resp_header-success header e = (
      λ good. code_of-success e (found_success _ std_names (or_unknown-success _ good)),
      λ fine. rw fine (ap (or_unknown env) (finds_success _ refl)),
    )

    -- If no other standard error has the code of `ErrSuccess` and no error is cast to that code, then, for
    -- a handler that sets no header and for messages whose header is read as it is set, the header of
    -- the response has the code `SUCCESS` exactly if the handler gave no error, and the error that the
    -- handler gave is returned beside the response.
    pub unary_interceptor-success :
        {A B : Type 0} (req_fields : HasHeader A) (resp_fields : HasHeader B)
        (handler : A → Calls → Answer B × Calls) (req : A) (h : Calls)
        → ((a : A) → resp_fields.header_of (handler a h).0.response ≡ none)
        → ((b : B) (header : Header)
            → resp_fields.header_of (resp_fields.set_header b header) ≡ some header)
        → let answer = (unary_interceptor env req_fields resp_fields handler req h).0 in
          let given =
            (handler
              (req_fields.set_header req (req_header env h (req_fields.header_of req)))
              h).0 in
          (answer.error ≡ given.error)
          × ((header : Header) × (resp_fields.header_of answer.response ≡ some header)
              × ((header.error ≡ XChainError.success) ↔ (given.error ≡ none)))
    unfolding unary_interceptor
    unary_interceptor-success req_fields resp_fields handler req h no_header reads =
        let header = req_header env h (req_fields.header_of req) in
        let given = (handler (req_fields.set_header req header) h).0 in
        (
          refl,
          (
            resp_header env header given.error,
            rw (no_header (req_fields.set_header req header)) (reads _ _),
            resp_header-success header given.error,
          ),
        )
