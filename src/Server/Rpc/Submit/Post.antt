-- ===== src/Server/Rpc/Submit/Post.antt =====
-- What `PostTx` and `PreExec` do on every path.
use xuperchain.Prelude.{Option, none, some, List, ◌∷◌, ◌≡◌, refl, ◌⊎◌, inl, inr}
use xuperchain.Go.Text.{Text}
use xuperchain.Pb.{TxStatus, InvokeRpcRequest, InvokeRpcResponse}
use xuperchain.Server.Convert.{via_wire, convert_invoke_req}
use xuperchain.Server.Handle.{StdError, done, failed}
use xuperchain.Server.Rpc.{Call, Calls, RpcEnv, Answer, answer}
use xuperchain.Server.Rpc.Leads.{
  Leads-pure, Leads-param, Leads-lift, Leads-call, Leads-handle, Leads-respond, or_fail-done,
}
use xuperchain.Server.Rpc.Submit.{
  empty_reply, empty_pre_exec, without_error, post_tx_steps, post_tx, pre_exec_steps, pre_exec,
}

without_error-done : (o : Option StdError) {u : Unit {0}} → without_error o ≡ done u → o ≡ none
without_error-done none e = refl
without_error-done (some x) e = absurd (cc e)

without_error-failed :
    (o : Option StdError) {x : StdError} → without_error o ≡ failed x → o ≡ some x
without_error-failed none e = absurd (cc e)
without_error-failed (some y) e = cc e

-- Whether the transaction was taken, and what the chain and the other nodes saw of it
abbrev pub Broadcast : RpcEnv → Option TxStatus → Calls → Option StdError → Calls → Type 0
Broadcast env req h none h' =
    (status : TxStatus) × (tx : Text) × (req ≡ some status)
    × (via_wire env.tx_wire status.tx ≡ some tx)
    × (env.submit h status.bcname tx ≡ none)
    × (h' ≡ Call.send_message status.bcname tx ∷ Call.submit_tx status.bcname tx ∷ h)
Broadcast env req h (some e) h' =
    (h' ≡ h)
    ⊎ ((status : TxStatus) × (tx : Text) × (env.submit h status.bcname tx ≡ some e)
        × (h' ≡ Call.submit_tx status.bcname tx ∷ h))

-- `PostTx` sends a transaction to the other nodes exactly if its chain has taken it, right after that.
-- Where the answer has no error, the transaction of the request was converted, taken and sent, in this
-- order, and nothing else was called; where it has one, nothing was called, or the chain alone was and
-- gave that error.
pub post_tx_broadcasts_accepted :
    (env : RpcEnv) (req : Option TxStatus) (h : Calls)
    → Broadcast env req h (post_tx env req h).0.error (post_tx env req h).1
unfolding post_tx post_tx_steps
post_tx_broadcasts_accepted env req h =
    Leads-respond (λ a k. Broadcast env req h a.error k) empty_reply _ h
      (Leads-lift _ _ h (λ e _. inl refl)
        λ status is_req.
          Leads-param _ _ h (λ _. inl refl)
            λ _.
              Leads-lift _ _ h (λ e _. inl refl)
                λ tx converts.
                  Leads-handle env _ _ h (λ e _. inl refl)
                    λ name.
                      Leads-call _ _ _ h
                        (λ e refused. inr (status, tx, without_error-failed _ refused, refl))
                        λ taken accepted.
                          Leads-call _ _ _ _ (λ e never. absurd (cc never))
                            λ sent _. Leads-pure _ _ (
                              status,
                              tx,
                              or_fail-done req _ is_req,
                              or_fail-done _ _ converts,
                              without_error-done _ accepted,
                              refl,
                            ))

-- What was pre-executed, and what of it is answered
abbrev pub PreExecuted :
    RpcEnv → Option InvokeRpcRequest → Calls → Answer InvokeRpcResponse → Calls → Type 0
PreExecuted env req h answer h' = elim answer.error [
  | none ↦
      (request : InvokeRpcRequest) × (reqs : List Text) × (res : Option Text) × (req ≡ some request)
      × (convert_invoke_req env.request_wire request.requests ≡ some reqs)
      × (env.pre_exec h request.bcname reqs request.initiator request.auth_require ≡ done res)
      × (answer.response.bcname ≡ request.bcname)
      × (answer.response.response ≡ via_wire env.response_wire res)
      × (h' ≡ Call.pre_exec request.bcname reqs request.initiator request.auth_require ∷ h)
  | some e ↦ answer.response ≡ empty_pre_exec
]

-- `PreExec` answers without an error exactly what the chain of the request gives for the converted
-- requests, the initiator and the authorisations of the request, by one call; with an error its
-- response is empty.
pub pre_exec_answers :
    (env : RpcEnv) (req : Option InvokeRpcRequest) (h : Calls)
    → PreExecuted env req h (pre_exec env req h).0 (pre_exec env req h).1
unfolding pre_exec pre_exec_steps
pre_exec_answers env req h = Leads-respond (PreExecuted env req h) empty_pre_exec _ h (
    Leads-lift _ _ h (λ e _. refl)
      λ request is_req.
        Leads-param _ _ h (λ _. refl)
          λ _.
            Leads-lift _ _ h (λ e _. refl)
              λ reqs converts.
                Leads-handle env _ _ h (λ e _. refl)
                  λ name.
                    Leads-call _ _ _ h (λ e _. refl)
                      λ res executed. Leads-pure _ _ (
                        request,
                        reqs,
                        res,
                        or_fail-done req _ is_req,
                        or_fail-done _ _ converts,
                        executed,
                        refl,
                        refl,
                        refl,
                      ))
