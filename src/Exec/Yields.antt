-- ===== src/Exec/Yields.antt =====
-- What a run returns, from any history and with any answers from outside: one rule for each step.
use xuperchain.Prelude.{Bool, true, false, Option, none, some, ◌≡◌, refl, if◌then◌else◌}
use xuperchain.Exec.{
  Failure, Message, Result, ok, err, Effect, History, Io, ◌>>=◌, pure, lift, ask, wrap, replace,
  wrap_result, replace_result, then_run, or_fail, guard, Ensures,
}
use mathlib.Core.Path.{subst}

-- If `m` returns, its result satisfies `P`.
pub record Yields {A : Type 0} (P : A → Type 0) (m : Io A) : Type 0 where
  pub at : (h : History) → Ensures P (m h).0

wrapped :
    {A : Type 0} (P : A → Type 0) (m : Message) (r : Result A)
    → Ensures P r
    → Ensures P (wrap_result m r)
wrapped P m (ok a) p = p
wrapped P m (err e) p = tt

replaced :
    {A : Type 0} (P : A → Type 0) (m : Message) (r : Result A)
    → Ensures P r
    → Ensures P (replace_result m r)
replaced P m (ok a) p = p
replaced P m (err e) p = tt

pub Yields-any : {A : Type 0} (m : Io A) → Yields (λ _. Unit {0}) m
Yields-any {A} m = record { at = λ h. go (m h).0 }
  where
    go : (r : Result A) → Ensures (λ _. Unit {0}) r
    go (ok a) = tt
    go (err e) = tt

module _ {A : Type 0} {P : A → Type 0} where
  pub Yields-pure : (a : A) → P a → Yields P (pure a)
  unfolding pure
  Yields-pure a p = record { at = λ h. p }

  pub Yields-lift : (r : Result A) → ((a : A) → r ≡ ok a → P a) → Yields P (lift r)
  unfolding lift
  Yields-lift (ok a) p = record { at = λ h. p a refl }
  Yields-lift (err e) p = record { at = λ h. tt }

  pub Yields-if : (b : Bool) (m n : Io A) → Yields P m → Yields P n → Yields P (if b then m else n)
  Yields-if true m n p q = p
  Yields-if false m n p q = q

  pub Yields-ask :
      (e : Effect) (f : History → Result A)
      → ((h : History) (a : A) → f h ≡ ok a → P a)
      → Yields P (ask e f)
  unfolding ask
  Yields-ask e f p = record { at = λ h. go h (f h) refl }
    where
      go : (h : History) (r : Result A) → f h ≡ r → Ensures P r
      go h (ok a) q = p h a q
      go h (err x) q = tt

  pub Yields-wrap : (m : Message) (io : Io A) → Yields P io → Yields P (wrap m io)
  unfolding wrap
  Yields-wrap m io p = record { at = λ h. wrapped P m (io h).0 (p.at h) }

  pub Yields-replace : (m : Message) (io : Io A) → Yields P io → Yields P (replace m io)
  unfolding replace
  Yields-replace m io p = record { at = λ h. replaced P m (io h).0 (p.at h) }

  pub Yields-ok :
      (m : Io A) (h : History) {a : A} {h' : History} → Yields P m → m h ≡ (ok a, h') → P a
  Yields-ok m h y e = subst (λ (r : Result A × History). Ensures P r.0) e (y.at h)

module _ {A B : Type 0} {Q : A → Type 0} {P : B → Type 0} where
  continued :
      (f : A → Io B) (r : Result A) (h : History)
      → Ensures Q r
      → ((a : A) → Q a → Yields P (f a))
      → Ensures P (then_run f r h).0
  continued f (ok a) h q k = (k a q).at h
  continued f (err e) h q k = tt

  pub Yields-bind :
      (m : Io A) (f : A → Io B) → Yields Q m → ((a : A) → Q a → Yields P (f a)) → Yields P (m >>= f)
  unfolding ◌>>=◌
  Yields-bind m f q k = record { at = λ h. let (r, h') = m h in continued f r h' (q.at h) k }

module _ {A B : Type 0} {P : B → Type 0} where
  proceeded :
      (f : A → Io B) (r : Result A) (h : History)
      → ((a : A) → Yields P (f a))
      → Ensures P (then_run f r h).0
  proceeded f (ok a) h k = (k a).at h
  proceeded f (err e) h k = tt

  pub Yields-next : (m : Io A) (f : A → Io B) → ((a : A) → Yields P (f a)) → Yields P (m >>= f)
  unfolding ◌>>=◌
  Yields-next m f k = record { at = λ h. let (r, h') = m h in proceeded f r h' k }

  pub Yields-or_fail :
      (o : Option A) (e : Failure) (f : A → Io B)
      → ((a : A) → o ≡ some a → Yields P (f a))
      → Yields P (or_fail o e >>= f)
  unfolding ◌>>=◌
  Yields-or_fail none e f k = record { at = λ h. tt }
  Yields-or_fail (some a) e f k = record { at = (k a refl).at }

module _ {B : Type 0} {P : B → Type 0} where
  pub Yields-guard :
      (b : Bool) (e : Failure) (f : Unit {0} → Io B)
      → (b ≡ true → Yields P (f tt))
      → Yields P (guard b e >>= f)
  unfolding ◌>>=◌
  Yields-guard true e f k = record { at = (k refl).at }
  Yields-guard false e f k = record { at = λ h. tt }
