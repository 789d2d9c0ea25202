-- ===== src/Server/Event.antt =====
-- service/rpc/event_service.go: subscriptions to events, with a limit on the connections from one
-- address. The counter is kept under a mutex, so each of its updates is one step.
pub mod Counter
pub mod Live
pub mod Lifetime
use xuperchain.Prelude.{
  Bool, true, false, not, Option, none, some, List, [], ◌∷◌, ◌++◌, ◌≡◌, if◌then◌else◌, ℕ, zero, suc,
  ◌+◌, ◌-◌, leb, ◌==◌, ℤ, pos, leb_ℤ, is_zero,
}
use xuperchain.Go.Text.{Text, text_eq}

-- `map[string]int`
abbrev pub ConnCounter : Type 0
ConnCounter = List (Text × ℕ)

unfoldable pub lookup : Text → ConnCounter → Option ℕ
lookup ip [] = none
lookup ip ((key, n) ∷ m) = if text_eq key ip then some n else lookup ip m

-- `delete(m, ip)`
unfoldable pub delete : Text → ConnCounter → ConnCounter
delete ip [] = []
delete ip ((key, n) ∷ m) =
    let rest = delete ip m in if text_eq key ip then rest else (key, n) ∷ rest

-- `m[ip] = n`
unfoldable pub store : Text → ℕ → ConnCounter → ConnCounter
unfolding delete
store ip n m = (ip, n) ∷ delete ip m

pub data EventError : Type 0 where
  event_disabled no_remote_address too_many_connections : EventError
  -- an error of `net.SplitHostPort`, of the router, or of the iterator
  outside : Text → EventError

pub data Outcome (A : Type 0) : Type 0 where
  done : A → Outcome A
  failed : EventError → Outcome A

-- `ServConf`, as far as it is used here
pub record EventConf : Type 0 where
  pub enable_event : Bool
  pub event_addr_max_conn : ℤ

-- `connPermit` once the address is known
unfoldable pub count_conn : EventConf → Text → Option ℕ → ConnCounter → Outcome Text × ConnCounter
count_conn cfg ip none m = (done ip, store ip 1 m)
count_conn cfg ip (some n) m =
    if leb_ℤ cfg.event_addr_max_conn (pos n)
    then (failed too_many_connections, m)
    else (done ip, store ip (n + 1) m)

unfoldable pub permit : EventConf → Text → ConnCounter → Outcome Text × ConnCounter
unfolding count_conn
permit cfg ip m =
    if is_zero cfg.event_addr_max_conn then (done ip, m) else count_conn cfg ip (lookup ip m) m

-- `connPermit`: the peer of the stream, if there is one, and its host by `net.SplitHostPort`
unfoldable pub conn_permit :
    EventConf → (Text → Option Text) → Option Text → ConnCounter → Outcome Text × ConnCounter
conn_permit cfg split_host none m = (failed no_remote_address, m)
conn_permit cfg split_host (some addr) m = elim (split_host addr) [
  | none ↦ (failed (outside addr), m)
  | some ip ↦ permit cfg ip m
]

-- A missing key reads as zero.
abbrev or_zero : Option ℕ → ℕ
or_zero none = 0
or_zero (some n) = n

-- `releaseConn`
unfoldable pub release_conn : EventConf → Text → ConnCounter → ConnCounter
release_conn cfg ip m =
    if is_zero cfg.event_addr_max_conn
    then m
    else if leb (or_zero (lookup ip m)) 1
    then delete ip m
    else store ip (or_zero (lookup ip m) - 1) m

-- What the router gives for a filter: an error, or the payloads that the iterator will yield and the
-- error that it ends with, if any.
pub data Route : Type 0 where
  refused : Text → Route
  events : List Text → Option Text → Route

-- The loop of `Subscribe`: payloads go out until one cannot be sent.
unfoldable pub send_all : (Text → Bool) → List Text → List Text
send_all send [] = []
send_all send (payload ∷ payloads) =
    let rest = send_all send payloads in if send payload then payload ∷ rest else []

abbrev pub ended : Option Text → Outcome (Unit {0})
ended none = done tt
ended (some e) = failed (outside e)

abbrev pub served : Route → (Text → Bool) → Outcome (Unit {0}) × List Text
served (refused e) send = (failed (outside e), [])
served (events payloads e) send = (ended e, send_all send payloads)

abbrev pub release_after :
    EventConf
    → Route
    → (Text → Bool)
    → Outcome Text × ConnCounter
    → Outcome (Unit {0}) × List Text × ConnCounter
release_after cfg route send (failed e, m) = (failed e, [], m)
release_after cfg route send (done ip, m) =
    ((served route send).0, (served route send).1, release_conn cfg ip m)

-- `Subscribe` with no other connection in between: the outcome, what was sent, and the counter; the
-- deferred `releaseConn` runs on every path behind a permit.
unfoldable pub subscribe :
    EventConf
    → (Text → Option Text)
    → Option Text
    → Route
    → (Text → Bool)
    → ConnCounter
    → Outcome (Unit {0}) × List Text × ConnCounter
subscribe cfg split_host peer route send m =
    if not cfg.enable_event
    then (failed event_disabled, [], m)
    else release_after cfg route send (conn_permit cfg split_host peer m)
