-- ===== src/Server/Endorser/Proxy.antt =====
-- `ProxyXEndorser` of service/rpc/endorser_service.go: calls passed on to a remote endorser, with one
-- connection kept for each host. Goroutines share the cache and the mutex; a goroutine moves by one
-- access of them at a time.
pub mod Cache
pub mod Answers
use xuperchain.Prelude.{
  Bool, true, false, Option, none, some, List, [], ◌∷◌, ◌≡◌, ◌≢◌, if◌then◌else◌, ℕ, zero, suc, ◌+◌,
  set_at,
}
use xuperchain.Go.Text.{Text, lit, text_eq, is_empty}
use xuperchain.Pb.{EndorserRequest, EndorserResponse}
use xuperchain.Exec.{Failure, Message, Result, ok, err}
use xuperchain.Server.Endorser.{Answer}

-- What the configuration asks for.
pub data Endorser : Type 0 where
  default_endorser proxy_endorser : Endorser

-- `newEndorserService`, by `EndorserModule`
unfoldable pub new_endorser_service : Text → Result Endorser
new_endorser_service name =
    if text_eq name (lit "default")
    then ok default_endorser
    else if text_eq name (lit "proxy")
    then ok proxy_endorser
    else err (Failure.said Message.unknown_endorser_module)

-- The hosts with their connections, the latest first. A connection is a number.
abbrev pub Clients : Type 0
Clients = List (Text × ℕ)

-- `clientCache.Load`
unfoldable pub load : Text → Clients → Option ℕ
load host [] = none
load host ((key, client) ∷ cache) = if text_eq key host then some client else load host cache

-- What the goroutines share.
pub record Shared : Type 0 where
  pub cache : Clients
  -- the mutex, with the goroutine that holds it
  pub holder : Option ℕ
  -- every connection that `grpc.Dial` opened, the latest first
  pub dialed : Clients

-- Where a goroutine stands in `getClient`, with the local variables that are live there.
pub data Pc : Type 0 where
  idle : Pc
  looking : Text → Pc
  waiting : Text → Pc
  looking_again : Text → Pc
  dialing : Text → Pc
  storing : Text → ℕ → Pc
  leaving : Text → Result ℕ → Pc
  returned : Text → Result ℕ → Pc

-- One step of goroutine `i`. What `grpc.Dial` answers is left open.
pub data Move (i : ℕ) (m : Shared) : Pc → Shared → Pc → Type 0 where
  call : {host : Text} → Move i m idle m (looking host)
  no_host : Move i m (looking []) m (returned [] (err (Failure.said Message.empty_host)))
  hit :
      {host : Text} {client : ℕ}
      → host ≢ []
      → load host m.cache ≡ some client
      → Move i m (looking host) m (returned host (ok client))
  miss :
      {host : Text}
      → host ≢ []
      → load host m.cache ≡ none
      → Move i m (looking host) m (waiting host)
  acquire :
      {host : Text}
      → m.holder ≡ none
      → Move i m (waiting host) (record m { holder = some i }) (looking_again host)
  hit_again :
      {host : Text} {client : ℕ}
      → load host m.cache ≡ some client
      → Move i m (looking_again host) m (leaving host (ok client))
  miss_again :
      {host : Text} → load host m.cache ≡ none → Move i m (looking_again host) m (dialing host)
  dial_failed : {host : Text} {e : Failure} → Move i m (dialing host) m (leaving host (err e))
  dial_done :
      {host : Text} {client : ℕ}
      → Move i m
          (dialing host)
          (record m { dialed = (host, client) ∷ m.dialed })
          (storing host client)
  store :
      {host : Text} {client : ℕ}
      → Move i m
          (storing host client)
          (record m { cache = (host, client) ∷ m.cache })
          (leaving host (ok client))
  release :
      {host : Text} {r : Result ℕ}
      → Move i m (leaving host r) (record m { holder = none }) (returned host r)
  again : {host : Text} {r : Result ℕ} → Move i m (returned host r) m idle

pub record Proxy : Type 0 where
  pub mem : Shared
  pub pc : ℕ → Pc

abbrev pub fresh_proxy : Proxy
fresh_proxy = record { mem = record { cache = []; holder = none; dialed = [] }; pc = λ _. idle }

-- The goroutines of the calls, interleaved in any order.
pub data Step (s : Proxy) : Proxy → Type 0 where
  pick :
      (i : ℕ) {m : Shared} {p : Pc}
      → Move i s.mem (s.pc i) m p
      → Step s (record { mem = m; pc = set_at i p s.pc })

pub data Reach : Proxy → Type 0 where
  start : Reach fresh_proxy
  next : {s t : Proxy} → Reach s → Step s t → Reach t

-- `getClient` with no other goroutine: the behaviour behind the lock, and the whole call
abbrev pub dialed_to : Text → Result ℕ → Shared → Result ℕ × Shared
dialed_to host (err e) m = (err e, m)
dialed_to host (ok client) m =
    (ok client, record m { cache = (host, client) ∷ m.cache; dialed = (host, client) ∷ m.dialed })

unfoldable pub client_or_dial : (Text → Result ℕ) → Text → Option ℕ → Shared → Result ℕ × Shared
client_or_dial dial host (some client) m = (ok client, m)
client_or_dial dial host none m = dialed_to host (dial host) m

unfoldable pub get_client : (Text → Result ℕ) → Text → Shared → Result ℕ × Shared
unfolding client_or_dial
get_client dial host m =
    if is_empty host
    then (err (Failure.said Message.empty_host), m)
    else client_or_dial dial host (load host m.cache) m

abbrev pub nth_host : List Text → ℕ → Text
nth_host [] i = []
nth_host (host ∷ hosts) zero = host
nth_host (host ∷ hosts) (suc i) = nth_host hosts i

abbrev pub host_count : List Text → ℕ
host_count [] = 0
host_count (host ∷ hosts) = suc (host_count hosts)

-- `getHost`, with `rand.Intn`
unfoldable pub get_host : (ℕ → ℕ) → List Text → Text
get_host intn [] = []
get_host intn (host ∷ hosts) = nth_host (host ∷ hosts) (intn (host_count (host ∷ hosts)))

abbrev empty_response : EndorserResponse
empty_response = record {
  header = none;
  response_name = [];
  endorser_address = [];
  endorser_sign = none;
  response_data = [];
}

abbrev failed_with : Failure → Answer
failed_with e = record { response = some empty_response; error = some e }

-- The reply of the remote endorser: four fields of it are copied.
abbrev pub passed_on : Result EndorserResponse → Answer
passed_on (err e) = failed_with e
passed_on (ok res) = record {
  response = some (record empty_response {
    endorser_address = res.endorser_address;
    response_name = res.response_name;
    response_data = res.response_data;
    endorser_sign = res.endorser_sign;
  });
  error = none;
}

abbrev pub forwarded :
    (ℕ → EndorserRequest → Result EndorserResponse) → EndorserRequest → Result ℕ → Answer
forwarded remote req (err e) = failed_with e
forwarded remote req (ok client) = passed_on (remote client req)

-- `EndorserCall` of the proxy
unfoldable pub proxy_endorser_call :
    (ℕ → ℕ)
    → (Text → Result ℕ)
    → (ℕ → EndorserRequest → Result EndorserResponse)
    → List Text
    → EndorserRequest
    → Shared
    → Answer × Shared
unfolding get_client get_host
proxy_endorser_call intn dial remote hosts req m =
    let (r, m') = get_client dial (get_host intn hosts) m in (forwarded remote req r, m')
