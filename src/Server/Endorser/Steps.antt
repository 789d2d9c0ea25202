-- ===== src/Server/Endorser/Steps.antt =====
-- A call of the endorser: a value, or an error with the code that it is answered with, and the calls
-- made outside.
use xuperchain.Prelude.{◌∷◌, ◌≡◌, refl}
use xuperchain.Pb.{XChainError}
use mathlib.Core.Path.{ap}
use xuperchain.Exec.{Failure, Result, ok, err, Effect, History}

-- A value, or an error with the code that goes into the response header.
pub data Coded (A : Type 0) : Type 0 where
  good : A → Coded A
  bad : XChainError → Failure → Coded A

abbrev pub Call : Type 0 → Type 0
Call A = History → Coded A × History

abbrev pub then_call : {A B : Type 0} → (A → Call B) → Coded A → Call B
then_call f (good a) h = f a h
then_call f (bad c e) h = (bad c e, h)

abbrev pub refused : {A : Type 0} → Result A → Coded A
refused (ok a) = good a
refused (err e) = bad XChainError.service_refused_error e

-- A step that makes no call outside; its error is answered as a refusal.
unfoldable pub lift : {A : Type 0} → Result A → Call A
lift r h = (refused r, h)

-- A call whose error is answered as a refusal
unfoldable pub ask : {A : Type 0} → Effect → (History → Result A) → Call A
ask e f h = (refused (f h), e ∷ h)

unfoldable pub pure : {A : Type 0} → A → Call A
pure a h = (good a, h)

-- The outcome of a check, and a call whose reply is taken apart by the next steps
unfoldable pub settle : {A : Type 0} → Coded A → Call A
settle r h = (r, h)

unfoldable pub serve : {A : Type 0} → Effect → (History → A) → Call A
serve e f h = (good (f h), e ∷ h)

infixl 5 ◌>>=◌ ◌>>◌
unfoldable pub ◌>>=◌ : {A B : Type 0} → Call A → (A → Call B) → Call B
unfolding pure lift ask settle serve
◌>>=◌ m f h = let (r, h') = m h in then_call f r h'

abbrev pub ◌>>◌ : {B : Type 0} → Call (Unit {0}) → Call B → Call B
m >> k = m >>= λ _. k

-- What a block of steps did first, when it succeeded
pub >>=-eq-good :
    {A B : Type 0} (m : Call A) (f : A → Call B) (h : History) {b : B} {h' : History}
    → (m >>= f) h ≡ (good b, h')
    → (a : A) × (k : History) × (m h ≡ (good a, k)) × (f a k ≡ (good b, h'))
unfolding ◌>>=◌
>>=-eq-good {A} {B} m f h {b} {h'} e = go (m h).0 (m h).1 refl e
  where
    go :
        (r : Coded A) (k : History)
        → m h ≡ (r, k)
        → then_call f r k ≡ (good b, h')
        → (a : A) × (k : History) × (m h ≡ (good a, k)) × (f a k ≡ (good b, h'))
    go (good a) k p q = (a, k, p, q)
    go (bad c x) k p q = absurd (cc q)

refused-eq-good : {A : Type 0} (r : Result A) {a : A} → refused r ≡ good a → r ≡ ok a
refused-eq-good (ok b) e = cc e
refused-eq-good (err x) e = absurd (cc e)

module _ {A : Type 0} {a : A} {h' : History} where
  pub lift-eq-good : (r : Result A) (h : History) → lift r h ≡ (good a, h') → (r ≡ ok a) × (h' ≡ h)
  unfolding lift
  lift-eq-good r h e = (refused-eq-good r (ap (λ p. p.0) e), cc e)

  pub ask-eq-good :
      (x : Effect) (f : History → Result A) (h : History)
      → ask x f h ≡ (good a, h')
      → (f h ≡ ok a) × (h' ≡ x ∷ h)
  unfolding ask
  ask-eq-good x f h e = (refused-eq-good (f h) (ap (λ p. p.0) e), cc e)

  pub settle-eq-good :
      (r : Coded A) (h : History) → settle r h ≡ (good a, h') → (r ≡ good a) × (h' ≡ h)
  unfolding settle
  settle-eq-good r h e = (ap (λ p. p.0) e, cc e)

  pub serve-eq-good :
      (x : Effect) (f : History → A) (h : History)
      → serve x f h ≡ (good a, h')
      → (f h ≡ a) × (h' ≡ x ∷ h)
  unfolding serve
  serve-eq-good x f h e = (cc e, cc e)

  pub pure-eq-good : (b : A) (h : History) → pure b h ≡ (good a, h') → (b ≡ a) × (h' ≡ h)
  unfolding pure
  pure-eq-good b h e = (cc e, cc e)
