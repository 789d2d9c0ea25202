-- ===== src/Server/Endorser/Proxy/Answers.antt =====
-- What a call of the proxy answers, and that `getClient` alone is a run of the goroutines' steps.
use xuperchain.Prelude.{
  Option, none, some, List, [], ◌∷◌, ◌≡◌, refl, ◌≢◌, ℕ, zero, suc, ◌<◌, arith, inl, inr, ◌⊎◌,
}
use xuperchain.Go.Text.{Text, text_eq_refl}
use xuperchain.Pb.{EndorserRequest, EndorserResponse}
use xuperchain.Exec.{Result, ok, err}
use xuperchain.Server.Endorser.Proxy.{
  Clients, load, Shared, Pc, looking, dialing, returned, Move, no_host, hit, miss, acquire,
  miss_again, dial_failed, dial_done, store, release, get_client, client_or_dial, dialed_to,
  nth_host, host_count, get_host, proxy_endorser_call, forwarded, passed_on,
}
use xuperchain.Server.Endorser.{Answer}

-- Steps of one goroutine with no other in between.
pub data Run (i : ℕ) (m : Shared) (p : Pc) : Shared → Pc → Type 0 where
  done : Run i m p m p
  more : {m₁ m₂ : Shared} {p₁ p₂ : Pc} → Run i m p m₁ p₁ → Move i m₁ p₁ m₂ p₂ → Run i m p m₂ p₂

abbrev pub Runs : ℕ → Shared → Text → Result ℕ × Shared → Type 0
Runs i m host (r, m') = Run i m (looking host) m' (returned host r)

-- The mutex is free.
abbrev pub unlocked : Clients → Clients → Shared
unlocked cache dialed = record { cache = cache; holder = none; dialed = dialed }

module _ (i : ℕ) (cache dialed : Clients) where
  before_dial :
      (host : Text)
      → host ≢ []
      → load host cache ≡ none
      → Run i
          (unlocked cache dialed)
          (looking host)
          (record { cache = cache; holder = some i; dialed = dialed })
          (dialing host)
  before_dial host h absent =
      more (more (more done (miss h absent)) (acquire refl)) (miss_again absent)

  dialed_to-Runs :
      (host : Text) (r : Result ℕ)
      → host ≢ []
      → load host cache ≡ none
      → Runs i (unlocked cache dialed) host (dialed_to host r (unlocked cache dialed))
  dialed_to-Runs host (ok client) h absent =
      more (more (more (before_dial host h absent) dial_done) store) release
  dialed_to-Runs host (err e) h absent = more (more (before_dial host h absent) dial_failed) release

  client_or_dial-Runs :
      (dial : Text → Result ℕ) (host : Text) (found : Option ℕ)
      → host ≢ []
      → load host cache ≡ found
      → Runs i (unlocked cache dialed) host (client_or_dial dial host found (unlocked cache dialed))
  unfolding client_or_dial
  client_or_dial-Runs dial host (some client) h e = more done (hit h e)
  client_or_dial-Runs dial host none h e = dialed_to-Runs host (dial host) h e

  -- When the mutex is free, `getClient` as one call is a run of one goroutine's steps, with the same
  -- result, cache and connections.
  pub get_client-Runs :
      (dial : Text → Result ℕ) (host : Text)
      → Runs i (unlocked cache dialed) host (get_client dial host (unlocked cache dialed))
  unfolding get_client
  get_client-Runs dial [] = more done no_host
  get_client-Runs dial (c ∷ host) =
      client_or_dial-Runs dial (c ∷ host) (load (c ∷ host) cache) (λ e. cc) refl

abbrev pub IsOneOf : Text → List Text → Type 0
IsOneOf host [] = ⊥
IsOneOf host (other ∷ hosts) = (host ≡ other) ⊎ IsOneOf host hosts

nth_host-IsOneOf :
    (hosts : List Text) (i : ℕ) → i < host_count hosts → IsOneOf (nth_host hosts i) hosts
nth_host-IsOneOf [] i lt = absurd (omega arith)
nth_host-IsOneOf (host ∷ hosts) zero lt = inl refl
nth_host-IsOneOf (host ∷ hosts) (suc i) lt = inr (nth_host-IsOneOf hosts i (omega arith))

-- What the proxy answers without an error: the reply of an endorser that is configured and cached.
pub record IsPassedOn (remote : ℕ → EndorserRequest → Result EndorserResponse) (hosts : List Text)
    (req : EndorserRequest) (answer : Answer) (m : Shared) : Type 0 where
  pub host : Text
  pub client : ℕ
  pub reply : EndorserResponse
  pub configured : IsOneOf host hosts
  pub cached : load host m.cache ≡ some client
  pub replied : remote client req ≡ ok reply
  pub answered : answer.response ≡ some (record reply { header = none })

module _ (dial : Text → Result ℕ) where
  dialed_to-load :
      (host : Text) (m : Shared) (r : Result ℕ) {client : ℕ} {m' : Shared}
      → dialed_to host r m ≡ (ok client, m')
      → load host m'.cache ≡ some client
  unfolding load
  dialed_to-load host m (ok c) e = ground (arith, text_eq_refl host)
  dialed_to-load host m (err x) e = absurd (cc e)

  client_or_dial-load :
      (host : Text) (m : Shared) (found : Option ℕ) {client : ℕ} {m' : Shared}
      → load host m.cache ≡ found
      → client_or_dial dial host found m ≡ (ok client, m')
      → load host m'.cache ≡ some client
  unfolding client_or_dial
  client_or_dial-load host m none f e = dialed_to-load host m (dial host) e
  client_or_dial-load host m (some c) f e = ground (arith, f, e)

  get_client-load :
      (host : Text) (m : Shared) {client : ℕ} {m' : Shared}
      → get_client dial host m ≡ (ok client, m')
      → (host ≢ []) × (load host m'.cache ≡ some client)
  unfolding get_client
  get_client-load [] m e = absurd (cc e)
  get_client-load (c ∷ host) m e =
      ((λ q. cc), client_or_dial-load (c ∷ host) m (load (c ∷ host) m.cache) refl e)

get_host-IsOneOf :
    (intn : ℕ → ℕ) (hosts : List Text)
    → ((n : ℕ) → 0 < n → intn n < n)
    → get_host intn hosts ≢ []
    → IsOneOf (get_host intn hosts) hosts
unfolding get_host
get_host-IsOneOf intn [] h named = absurd (named refl)
get_host-IsOneOf intn (host ∷ hosts) h named = nth_host-IsOneOf (host ∷ hosts) _ (h _ (omega arith))

module _ (intn : ℕ → ℕ) (dial : Text → Result ℕ)
    (remote : ℕ → EndorserRequest → Result EndorserResponse) (hosts : List Text)
    (in_range : (n : ℕ) → 0 < n → intn n < n) (req : EndorserRequest) (m : Shared) where
  forwarded-IsPassedOn :
      (r : Result ℕ) (m' : Shared)
      → get_client dial (get_host intn hosts) m ≡ (r, m')
      → (forwarded remote req r).error ≡ none
      → IsPassedOn remote hosts req (forwarded remote req r) m'
  forwarded-IsPassedOn (err e) m' got fine = absurd (cc fine)
  forwarded-IsPassedOn (ok client) m' got fine = go (remote client req) refl fine
    where
      load_ok : (get_host intn hosts ≢ []) × (load (get_host intn hosts) m'.cache ≡ some client)
      load_ok = get_client-load dial (get_host intn hosts) m got

      go :
          (reply : Result EndorserResponse)
          → remote client req ≡ reply
          → (passed_on reply).error ≡ none
          → IsPassedOn remote hosts req (passed_on reply) m'
      go (err e) said fine = absurd (cc fine)
      go (ok res) said fine = record {
        host = get_host intn hosts;
        client = client;
        reply = res;
        configured = get_host-IsOneOf intn hosts in_range load_ok.0;
        cached = load_ok.1;
        replied = said;
        answered = refl;
      }

  -- When `rand.Intn` stays in range, an answer of the proxy without an error is the reply that a
  -- connection of the cache gave to the very request, all but its header; the connection is cached
  -- under one of the hosts of the configuration.
  pub proxy_endorser_call-IsPassedOn :
      (proxy_endorser_call intn dial remote hosts req m).0.error ≡ none
      → IsPassedOn remote hosts req
          (proxy_endorser_call intn dial remote hosts req m).0
          (proxy_endorser_call intn dial remote hosts req m).1
  unfolding proxy_endorser_call
  proxy_endorser_call-IsPassedOn fine =
      forwarded-IsPassedOn (get_client dial (get_host intn hosts) m).0
        (get_client dial (get_host intn hosts) m).1 refl fine
