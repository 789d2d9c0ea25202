-- ===== src/Tests/Proxy.antt =====
-- Two goroutines that ask the proxy endorser for the same host, and one call.
use xuperchain.Prelude.{none, some, [], ◌∷◌, ◌≡◌, ◌≢◌, refl, ℕ, ◌≤◌, ◌⊎◌}
use xuperchain.Go.Text.{Text, lit}
use xuperchain.Pb.{EndorserRequest, EndorserResponse}
use xuperchain.Exec.{Result, ok}
use xuperchain.Server.Endorser.{Answer}
use xuperchain.Server.Endorser.Proxy.{
  load, Shared, call, miss, acquire, miss_again, dial_done, Proxy, pick, Reach, start, next,
  get_client, proxy_endorser_call,
}
use xuperchain.Server.Endorser.Proxy.Cache.{
  dial_count, hosts_are_dialed_once, CanMove, mutex_is_never_stuck,
}
use xuperchain.Server.Endorser.Proxy.Answers.{
  unlocked, Runs, get_client-Runs, IsPassedOn, proxy_endorser_call-IsPassedOn,
}

abbrev host : Text
host = lit "h"

named : host ≢ []
named e = cc e

-- Both miss the cache; the first one dials, and the second one waits.
abbrev waiting_for_dial : (s : Proxy) × Reach s
unfolding load native.Mathlib.Decide.ℕ_discrete
waiting_for_dial = (
  _,
  next
      (next
        (next
          (next
            (next (next (next start (pick 0 (call {host = host}))) (pick 1 (call {host = host})))
              (pick 0 (miss named refl)))
            (pick 1 (miss named refl)))
          (pick 0 (acquire refl)))
        (pick 0 (miss_again refl)))
      (pick 0 (dial_done {client = 7})),
)

hosts_are_dialed_once_example : dial_count host waiting_for_dial.0.mem.dialed ≤ 1
hosts_are_dialed_once_example = hosts_are_dialed_once waiting_for_dial.1 host

mutex_is_never_stuck_example :
    CanMove waiting_for_dial.0 1
    ⊎ ((j : ℕ) × (waiting_for_dial.0.mem.holder ≡ some j) × CanMove waiting_for_dial.0 j)
mutex_is_never_stuck_example = mutex_is_never_stuck waiting_for_dial.1 1

abbrev dial : Text → Result ℕ
dial to = ok 5

get_client-Runs_example : Runs 3 (unlocked [] []) host (get_client dial host (unlocked [] []))
get_client-Runs_example = get_client-Runs 3 [] [] dial host

abbrev reply : EndorserResponse
reply = record {
  header = none;
  response_name = lit "TxQuery";
  endorser_address = lit "e";
  endorser_sign = none;
  response_data = lit "tx";
}

abbrev remote : ℕ → EndorserRequest → Result EndorserResponse
remote client req = ok reply

abbrev request : EndorserRequest
request = record {
  header = none;
  request_name = lit "TxQuery";
  bc_name = lit "xuper";
  fee = none;
  request_data = none;
}

abbrev answer : Answer × Shared
answer = proxy_endorser_call (λ n. 0) dial remote (host ∷ []) request (unlocked [] [])

proxy_endorser_call-IsPassedOn_example : IsPassedOn remote (host ∷ []) request answer.0 answer.1
unfolding proxy_endorser_call get_client load
proxy_endorser_call-IsPassedOn_example =
    proxy_endorser_call-IsPassedOn (λ n. 0) dial remote (host ∷ []) (λ n lt. lt) request
      (unlocked [] []) refl
