-- ===== src/Server/Event/Counter.antt =====
-- The counter as a map, and a permit undone by its release.
use xuperchain.Prelude.{none, some, [], ◌∷◌, ◌≡◌, if◌then◌else◌, ℕ, arith}
use xuperchain.Go.Text.{Text, text_eq, text_eq→eq, eq→text_eq}
use xuperchain.Server.Event.{ConnCounter, lookup, delete, store}

pub lookup-delete :
    (ip other : Text) (m : ConnCounter)
    → lookup other (delete ip m) ≡ (if text_eq ip other then none else lookup other m)
unfolding lookup delete
lookup-delete ip other [] = ground arith
lookup-delete ip other ((key, n) ∷ m) = ground (
  arith,
  lookup-delete ip other m,
  text_eq→eq key ip,
  text_eq→eq key other,
  text_eq→eq ip other,
  eq→text_eq key other,
  eq→text_eq key ip,
  eq→text_eq ip other,
)

pub lookup-store :
    (ip other : Text) (n : ℕ) (m : ConnCounter)
    → lookup other (store ip n m) ≡ (if text_eq ip other then some n else lookup other m)
unfolding lookup store
lookup-store ip other n m = ground (arith, lookup-delete ip other m)
