-- ===== src/Server/Rpc/Accounts/Acl.antt =====
-- What `QueryACL` asks for and what it answers.
use xuperchain.Prelude.{
  Bool, true, false, not, ◌&&◌, ◌||◌, Option, none, some, ◌≡◌, refl, ◌⊎◌, inl, inr, Bool-cases,
}
use xuperchain.Go.Text.{Text, is_empty}
use xuperchain.Pb.Query.{AclStatus}
use xuperchain.Server.Convert.Messages.{acl_to_xchain}
use xuperchain.Server.Handle.{StdError, Outcome, done, failed}
use xuperchain.Server.Rpc.{Calls, RpcEnv, Rpc, ◌>>=◌}
use xuperchain.Server.Rpc.Leads.{
  Leads, Leads-param, Leads-lift, Leads-call, Leads-handle, Leads-respond, Leads-last, or_fail-done,
}
use xuperchain.Server.Rpc.Accounts.{empty_acl, acl_of, confirmed_acl, query_acl_steps, query_acl}

-- What was found for a request: of its account where it has one, and of its method otherwise
abbrev pub FoundAcl : RpcEnv → AclStatus → Calls → Option Text → Type 0
FoundAcl env req h found =
    ((is_empty req.account_name ≡ false)
      × (env.query_account_acl h req.bcname req.account_name ≡ done found))
    ⊎ ((is_empty req.account_name ≡ true)
        × (env.query_method_acl h req.bcname req.contract_name req.method_name ≡ done found))

-- An answer that confirms nothing, and one that confirms what was found
abbrev pub IsAcl : RpcEnv → AclStatus → Option Text → AclStatus → Type 0
IsAcl env req none answer = answer ≡ empty_acl
IsAcl env req (some found) answer =
    (acl : Text) × (acl_to_xchain env.acl_wire (some found) ≡ some acl)
    × (answer ≡ record {
      header = none;
      bcname = req.bcname;
      account_name = req.account_name;
      contract_name = req.contract_name;
      method_name = req.method_name;
      confirmed = true;
      acl = some acl;
    })

abbrev pub AclAnswer : RpcEnv → Option AclStatus → Calls → Option StdError → AclStatus → Type 0
AclAnswer env req h (some e) answer = answer ≡ empty_acl
AclAnswer env req h none answer =
    (asked : AclStatus) × (found : Option Text) × (req ≡ some asked)
    × FoundAcl env asked h found
    × IsAcl env asked found answer

unnamed : (a c m : Bool) → not (a && (c || m)) ≡ true → a ≡ true → (not c && not m) ≡ false → ⊥
unnamed false c m h p q = cc p
unnamed true true m h p q = cc h
unnamed true false true h p q = cc h
unnamed true false false h p q = cc q

module _ (env : RpcEnv) where
  confirmed_acl-IsAcl :
      (req : AclStatus) (found converted : Option Text) (answer : AclStatus)
      → acl_to_xchain env.acl_wire found ≡ converted
      → confirmed_acl env req found converted ≡ done answer
      → IsAcl env req found answer
  confirmed_acl-IsAcl req none converted answer p e = cc e
  confirmed_acl-IsAcl req (some found) none answer p e = absurd (cc e)
  confirmed_acl-IsAcl req (some found) (some acl) answer p e = (acl, p, cc e)

  -- The calls of `acl_of`, under the guard that a name is set
  Leads-acl_of :
      {B : Type 0} {R : Outcome B → Calls → Type 0} (f : Option Text → Rpc B) (req : AclStatus)
      (h : Calls)
      → not (is_empty req.account_name && (is_empty req.contract_name || is_empty req.method_name))
        ≡ true
      → ((e : StdError) (k : Calls) → R (failed e) k)
      → ((found : Option Text) (k : Calls) → FoundAcl env req h found → Leads R (f found) k)
      → Leads R (acl_of env req >>= f) h
  unfolding acl_of
  Leads-acl_of f req h named p q = elim (Bool-cases (is_empty req.account_name)) [
    | inr account ↦
        rw account (Leads-call f _ _ h (λ e _. p e _) (λ found is. q found _ (inl (account, is))))
    | inl none_ ↦
        elim (Bool-cases (not (is_empty req.contract_name) && not (is_empty req.method_name))) [
          | inl method ↦
              rw (none_, method)
                (Leads-call f _ _ h (λ e _. p e _) (λ found is. q found _ (inr (none_, is))))
          | inr neither ↦ absurd (unnamed _ _ _ named none_ neither)
        ]
  ]

  -- `QueryACL` answers with an error and an empty response, or without an error what the chain of the
  -- request gave: of the account where the request names one, and of the contract's method otherwise. Where
  -- there is no list, the response is empty and confirms nothing; where there is one, the response
  -- confirms it, in the interface's form and with the names of the request.
  pub query_acl_answers :
      (req : Option AclStatus) (h : Calls)
      → AclAnswer env req h (query_acl env req h).0.error (query_acl env req h).0.response
  unfolding query_acl query_acl_steps
  query_acl_answers req h =
      Leads-respond (λ a k. AclAnswer env req h a.error a.response) empty_acl _ h
        (Leads-lift _ _ h (λ e _. refl)
          λ asked is_req.
            Leads-param _ _ h (λ _. refl)
              λ _.
                Leads-param _ _ h (λ _. refl)
                  λ named.
                    Leads-handle env _ _ h (λ e _. refl)
                      λ name.
                        Leads-acl_of _ asked h named (λ e k. refl)
                          λ found k is_found.
                            Leads-last _ k (λ e _. refl)
                              λ answer is. (
                                asked,
                                found,
                                or_fail-done req _ is_req,
                                is_found,
                                confirmed_acl-IsAcl asked found _ answer refl is,
                              ))
