-- ===== src/Server/Rpc/Leads.antt =====
-- Where a handler leads from the calls `h`: one rule for each step, errors included.
use xuperchain.Prelude.{Option, none, some, Bool, true, false, ◌∷◌, ◌≡◌, refl}
use xuperchain.Go.Text.{Text}
use xuperchain.Server.Handle.{StdError, Outcome, done, failed, new_chain_handle}
use xuperchain.Server.Rpc.{
  Call, Calls, RpcEnv, Answer, Rpc, ◌>>=◌, then_rpc, pure, lift, call, run, get, param, answer,
  or_fail, respond, handle,
}

-- What `m` returns from `h`, and the calls after it, satisfy `R`.
pub record Leads {A : Type 0} (R : Outcome A → Calls → Type 0) (m : Rpc A) (h : Calls)
    : Type 0 where
  pub at : R (m h).0 (m h).1

module _ {B : Type 0} {R : Outcome B → Calls → Type 0} where
  pub Leads-pure : (b : B) (h : Calls) → R (done b) h → Leads R (pure b) h
  unfolding pure
  Leads-pure b h p = record { at = p }

  pub Leads-param :
      (b : Bool) (f : Unit {0} → Rpc B) (h : Calls)
      → (b ≡ false → R (failed StdError.err_parameter) h)
      → (b ≡ true → Leads R (f tt) h)
      → Leads R (param b >>= f) h
  unfolding param ◌>>=◌
  Leads-param true f h p q = record { at = (q refl).at }
  Leads-param false f h p q = record { at = p refl }

module _ {A B : Type 0} {R : Outcome B → Calls → Type 0} (f : A → Rpc B) where
  go_on :
      (r : Outcome A) (h : Calls)
      → ((e : StdError) → r ≡ failed e → R (failed e) h)
      → ((a : A) → r ≡ done a → Leads R (f a) h)
      → Leads R (then_rpc f r) h
  go_on (done a) h p q = record { at = (q a refl).at }
  go_on (failed e) h p q = record { at = p e refl }

  pub Leads-lift :
      (r : Outcome A) (h : Calls)
      → ((e : StdError) → r ≡ failed e → R (failed e) h)
      → ((a : A) → r ≡ done a → Leads R (f a) h)
      → Leads R (lift r >>= f) h
  unfolding ◌>>=◌
  Leads-lift r h p q = record { at = (go_on r h p q).at }

  pub Leads-call :
      (c : Call) (g : Calls → Outcome A) (h : Calls)
      → ((e : StdError) → g h ≡ failed e → R (failed e) (c ∷ h))
      → ((a : A) → g h ≡ done a → Leads R (f a) (c ∷ h))
      → Leads R (call c g >>= f) h
  unfolding ◌>>=◌
  Leads-call c g h p q = record { at = (go_on (g h) (c ∷ h) p q).at }

  pub Leads-run :
      (s : Calls → A × Calls) (h : Calls) → Leads R (f (s h).0) (s h).1 → Leads R (run s >>= f) h
  unfolding ◌>>=◌
  Leads-run s h l = record { at = l.at }

module _ {B : Type 0} {R : Outcome B → Calls → Type 0} where
  pub Leads-get : (f : Calls → Rpc B) (h : Calls) → Leads R (f h) h → Leads R (get >>= f) h
  unfolding ◌>>=◌
  Leads-get f h l = record { at = l.at }

  pub Leads-handle :
      (env : RpcEnv) (name : Text) (f : Text → Rpc B) (h : Calls)
      → ((e : StdError) → new_chain_handle (env.chain h name) name ≡ failed e → R (failed e) h)
      → ((a : Text) → Leads R (f a) h)
      → Leads R (handle env name >>= f) h
  unfolding ◌>>=◌ handle
  Leads-handle env name f h p q = record {
    at = (go_on f (new_chain_handle (env.chain h name) name) h p (λ a _. q a)).at;
  }

-- A last step that calls no chain
pub Leads-last :
    {B : Type 0} {R : Outcome B → Calls → Type 0} (r : Outcome B) (h : Calls)
    → ((e : StdError) → r ≡ failed e → R (failed e) h)
    → ((b : B) → r ≡ done b → R (done b) h)
    → Leads R (lift r) h
unfolding lift
Leads-last (done b) h p q = record { at = q b refl }
Leads-last (failed e) h p q = record { at = p e refl }

-- What a handler answers
pub Leads-respond :
    {B : Type 0} (S : Answer B → Calls → Type 0) (empty : B) (m : Rpc B) (h : Calls)
    → Leads (λ r k. S (answer empty r) k) m h
    → S (respond empty m h).0 (respond empty m h).1
unfolding respond
Leads-respond S empty m h l = l.at

pub or_fail-done :
    {A : Type 0} (o : Option A) (e : StdError) {a : A} → or_fail o e ≡ done a → o ≡ some a
or_fail-done none e p = absurd (cc p)
or_fail-done (some b) e p = cc p
