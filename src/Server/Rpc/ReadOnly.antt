-- ===== src/Server/Rpc/ReadOnly.antt =====
-- The calls that only read chains, and the handlers that make no others.
pub mod Queries
use xuperchain.Prelude.{Bool, true, false, ◌∷◌, if◌then◌else◌}
use xuperchain.Go.Text.{Text}
use xuperchain.Server.Handle.{Outcome, done, failed}
use xuperchain.Server.Rpc.{
  Read, Call, Calls, RpcEnv, Rpc, ◌>>=◌, then_rpc, pure, fail, lift, call, run, get, param, respond,
  handle,
}

-- The calls `k` are those of `h` and reads after them.
pub data OnlyReads (h : Calls) : Calls → Type 0 where
  same : OnlyReads h h
  one_more :
      {k : Calls} {name : Text} {r : Read} → OnlyReads h k → OnlyReads h (Call.read name r ∷ k)

pub OnlyReads-trans : {h k l : Calls} → OnlyReads h k → OnlyReads k l → OnlyReads h l
OnlyReads-trans p same = p
OnlyReads-trans p (one_more q) = one_more (OnlyReads-trans p q)

pub record IsReadOnly {A : Type 0} (s : Calls → A × Calls) : Type 0 where
  pub reads : (h : Calls) → OnlyReads h (s h).1

module _ {A : Type 0} where
  pub IsReadOnly-pure : (a : A) → IsReadOnly (pure a)
  unfolding pure
  IsReadOnly-pure a = record { reads = λ h. same }

  pub IsReadOnly-lift : (r : Outcome A) → IsReadOnly (lift r)
  unfolding lift
  IsReadOnly-lift r = record { reads = λ h. same }

  pub IsReadOnly-call :
      (name : Text) (r : Read) (f : Calls → Outcome A) → IsReadOnly (call (Call.read name r) f)
  unfolding call
  IsReadOnly-call name r f = record { reads = λ h. one_more same }

  pub IsReadOnly-run : (s : Calls → A × Calls) → IsReadOnly s → IsReadOnly (run s)
  unfolding run
  IsReadOnly-run s p = record { reads = p.reads }

pub IsReadOnly-get : IsReadOnly get
unfolding get
IsReadOnly-get = record { reads = λ h. same }

pub IsReadOnly-param : (b : Bool) → IsReadOnly (param b)
unfolding param pure fail
IsReadOnly-param true = record { reads = λ h. same }
IsReadOnly-param false = record { reads = λ h. same }

pub IsReadOnly-handle : (env : RpcEnv) (name : Text) → IsReadOnly (handle env name)
unfolding handle
IsReadOnly-handle env name = record { reads = λ h. same }

module _ {A B : Type 0} where
  go_on :
      (f : A → Rpc B) (r : Outcome A) (h : Calls)
      → ((a : A) → IsReadOnly (f a))
      → OnlyReads h (then_rpc f r h).1
  go_on f (done a) h p = (p a).reads h
  go_on f (failed e) h p = same

  pub IsReadOnly-bind :
      (m : Rpc A) (f : A → Rpc B)
      → IsReadOnly m
      → ((a : A) → IsReadOnly (f a))
      → IsReadOnly (m >>= f)
  unfolding ◌>>=◌
  IsReadOnly-bind m f p q = record {
    reads = λ h. OnlyReads-trans (p.reads h) (go_on f (m h).0 (m h).1 q);
  }

pub IsReadOnly-respond :
    {A : Type 0} (empty : A) (m : Rpc A) → IsReadOnly m → IsReadOnly (respond empty m)
unfolding respond
IsReadOnly-respond empty m p = record { reads = p.reads }

pub IsReadOnly-if :
    {A : Type 0} (b : Bool) (m k : Rpc A)
    → IsReadOnly m
    → IsReadOnly k
    → IsReadOnly (if b then m else k)
IsReadOnly-if true m k p q = p
IsReadOnly-if false m k p q = q

pub ruleset read_only = (
  IsReadOnly-pure, IsReadOnly-lift, IsReadOnly-call, IsReadOnly-run, IsReadOnly-get,
  IsReadOnly-param, IsReadOnly-handle, IsReadOnly-bind, IsReadOnly-respond, IsReadOnly-if,
)
