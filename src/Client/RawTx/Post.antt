-- ===== src/Client/RawTx/Post.antt =====
-- What `SendTx` posts: the transaction that it has signed, under the id of what it has signed.
use mathlib.Core.Path.{subst}
use xuperchain.Prelude.{
  Bool, true, false, Option, none, some, List, [], ◌∷◌, ◌++◌, ◌≡◌, refl, pos, ap, sym, ◌∙◌,
}
use xuperchain.Go.Text.{Text}
use xuperchain.Pb.{
  Header, Transaction, TxStatus, TransactionStatus, CommonReply, XChainError, is_success,
  SignatureInfo,
}
use xuperchain.Exec.{
  Effect, Failure, Message, History, Io, Result, ok, err, lift, ask, pure, replace, replace_result,
  wrap, wrap_result, guard, raise, or_fail, >>=-eq-ok,
}
use xuperchain.Client.Env.{Env}
use xuperchain.Client.Trans.{CommTrans}
use xuperchain.Client.Keys.{make_tx_id, read_address}
use xuperchain.Client.Requests.{auth_of}
use xuperchain.Client.RawTx.{sign_tx_for_initiator, reply_ok, post_tx, send_tx}

pub replaced-eq-ok :
    {A : Type 0} (m : Message) (r : Result A) {a : A} → replace_result m r ≡ ok a → r ≡ ok a
replaced-eq-ok m (ok b) e = e
replaced-eq-ok m (err x) e = absurd (cc e)

module _ {A : Type 0} {a : A} {h' : History} where
  pub replace-lift-eq-ok :
      (m : Message) (r : Result A) (h : History) → replace m (lift r) h ≡ (ok a, h') → r ≡ ok a
  unfolding replace lift
  replace-lift-eq-ok m r h e = replaced-eq-ok m r (ap (λ p. p.0) e)

  pub ask-eq-ok :
      (x : Effect) (f : History → Result A) (h : History)
      → ask x f h ≡ (ok a, h')
      → (f h ≡ ok a) × (h' ≡ x ∷ h)
  unfolding ask
  ask-eq-ok x f h e = (ap (λ p. p.0) e, sym (ap (λ p. p.1) e))

  pub replace-ask-eq-ok :
      (m : Message) (x : Effect) (f : History → Result A) (h : History)
      → replace m (ask x f) h ≡ (ok a, h')
      → (f h ≡ ok a) × (h' ≡ x ∷ h)
  unfolding replace ask
  replace-ask-eq-ok m x f h e = (replaced-eq-ok m (f h) (ap (λ p. p.0) e), sym (ap (λ p. p.1) e))

  pub or_fail-eq-ok :
      (o : Option A) (x : Failure) (h : History)
      → or_fail o x h ≡ (ok a, h')
      → (o ≡ some a) × (h' ≡ h)
  unfolding or_fail
  or_fail-eq-ok none x h e = absurd (cc (ap (λ p. p.0) e))
  or_fail-eq-ok (some b) x h e = (cc (ap (λ p. p.0) e), cc e)

  pub pure-eq-ok : (b : A) (h : History) → pure b h ≡ (ok a, h') → (b ≡ a) × (h' ≡ h)
  unfolding pure
  pure-eq-ok b h e = (cc e, cc e)

pub lift-eq-ok :
    {A : Type 0} (r : Result A) (h : History) {a : A} {h' : History}
    → lift r h ≡ (ok a, h')
    → (r ≡ ok a) × (h' ≡ h)
unfolding lift
lift-eq-ok r h e = (ap (λ p. p.0) e, sym (ap (λ p. p.1) e))

pub wrapped-eq-ok :
    {A : Type 0} (m : Message) (r : Result A) {a : A} → wrap_result m r ≡ ok a → r ≡ ok a
wrapped-eq-ok m (ok b) e = e
wrapped-eq-ok m (err x) e = absurd (cc e)

pub wrap-eq-ok :
    {A : Type 0} (m : Message) (io : Io A) (h : History) {a : A} {h' : History}
    → wrap m io h ≡ (ok a, h')
    → io h ≡ (ok a, h')
unfolding wrap
wrap-eq-ok m io h e = cc (wrapped-eq-ok m (io h).0 (ap (λ p. p.0) e), ap (λ p. p.1) e)

abbrev pub IsSuccess : Option Header → Type 0
IsSuccess none = ⊥
IsSuccess (some header) = is_success header.error ≡ true

pub guard-eq-ok :
    (b : Bool) (x : Failure) (h : History) {h' : History}
    → guard b x h ≡ (ok tt, h')
    → (b ≡ true) × (h' ≡ h)
unfolding guard
guard-eq-ok true x h e = (refl, sym (ap (λ p. p.1) e))
guard-eq-ok false x h e = absurd (cc (ap (λ p. p.0) e))

pub reply_ok-eq-ok :
    (env : Env) (o : Option Header) (h : History) {h' : History}
    → reply_ok env o h ≡ (ok tt, h')
    → IsSuccess o × (h' ≡ h)
unfolding raise
reply_ok-eq-ok env none h e = absurd (cc (ap (λ p. p.0) e))
reply_ok-eq-ok env (some header) h e = guard-eq-ok (is_success header.error) _ h e

-- The status that `postTx` sends
abbrev pub status_of : Text → Text → Transaction → TxStatus
status_of logid chain_name tx = record {
  header = some (record { logid = logid; from_node = []; error = XChainError.success });
  bcname = chain_name;
  txid = tx.txid;
  status = TransactionStatus.unconfirm;
  distance = pos 0;
  tx = some tx;
}

-- From `k` to `h'` the transaction is posted, and the node answers success.
abbrev pub IsPosted : Env → Text → Transaction → History → Type 0
IsPosted env chain_name tx h' =
    (logid : Text) × (k : History) × (reply : CommonReply) × (h'
      ≡ Effect.post_tx (status_of logid chain_name tx) ∷ k)
    × (env.post_tx k (status_of logid chain_name tx) ≡ ok reply)
    × IsSuccess reply.header

pub post_tx-IsPosted :
    (env : Env) (chain_name : Text) (tx : Transaction) (h : History) {txid : Text} {h' : History}
    → post_tx env chain_name tx h ≡ (ok txid, h')
    → (tx.txid ≡ txid) × IsPosted env chain_name tx h'
unfolding post_tx
post_tx-IsPosted env chain_name tx h {txid} {h'} e =
    let (logid, k1, e1, f1) = >>=-eq-ok _ _ h e in
    let (reply, k2, e2, f2) = >>=-eq-ok _ _ k1 f1 in
    let (_, k3, e3, f3) = >>=-eq-ok _ _ k2 f2 in
    let (answered, q2) = ask-eq-ok _ _ k1 e2 in
    let (good, q3) = reply_ok-eq-ok env reply.header k2 e3 in
    let (same, q4) = pure-eq-ok _ k3 f3 in (same, (logid, k1, reply, q4 ∙ q3 ∙ q2, answered, good))

abbrev pub required : CommTrans → Text → Transaction → Transaction
required t from_addr tx = record tx {
  auth_require = tx.auth_require ++ auth_of t.from from_addr ∷ [];
}

abbrev pub signed_by : List SignatureInfo → Transaction → Transaction
signed_by signs tx = record tx { initiator_signs = signs; auth_require_signs = signs }

-- If `SendTx` returns an id, then it has read an address from the files of its keys and has added the
-- authorisation of that address to the transaction, has signed the result, with both lists of signatures the same, and has computed the id
-- from what it signed, signatures included; its last call has posted this transaction under that id,
-- and the node has answered it with the code of success.
pub send_tx-IsPosted :
    (env : Env) (t : CommTrans) (tx : Transaction) (h h' : History) (txid : Text)
    → send_tx env t tx h ≡ (ok txid, h')
    → (from_addr : Text) × (signs : List SignatureInfo) × (k k' : History) × (read_address env
          t.keys h
        ≡ (ok from_addr, k))
      × (sign_tx_for_initiator env t (required t from_addr tx) k ≡ (ok signs, k'))
      × (make_tx_id env (signed_by signs (required t from_addr tx)) ≡ ok txid)
      × IsPosted env t.chain_name
          (record (signed_by signs (required t from_addr tx)) { txid = txid })
          h'
unfolding send_tx
send_tx-IsPosted env t tx h h' txid e =
    let (from_addr, k1, e1, f1) = >>=-eq-ok _ _ h e in
    let (signs, k2, e2, f2) = >>=-eq-ok _ _ k1 f1 in
    let (made, k3, e3, f3) = >>=-eq-ok _ _ k2 f2 in
    let made_id = replace-lift-eq-ok _ _ k2 e3 in
    let tx' = signed_by signs (required t from_addr tx) in
    let (same, posted) = post_tx-IsPosted env t.chain_name (record tx' { txid = made }) k3 f3 in
    (
      from_addr,
      signs,
      k1,
      k2,
      e1,
      e2,
      made_id ∙ ap ok same,
      subst (λ id. IsPosted env t.chain_name (record tx' { txid = id }) h') same posted,
    )
