-- ===== src/Tests/Server.antt =====
-- The server's theorems: three connections under a limit of two, a locked utxo, a list of messages.
use xuperchain.Prelude.{true, false, Option, none, some, [], ◌∷◌, ◌≡◌, refl, ◌↔◌, ◌≤◌, pos, map}
use xuperchain.Go.Text.{Text, lit, text_eq}
use xuperchain.Server.Event.{
  lookup, store, EventConf, done, failed, EventError, permit, Route, subscribe,
}
use xuperchain.Server.Event.Live.{
  live_count, entry, Service, enter, Reach, start, next, Reach-Tracks, permit_by_count,
}
use xuperchain.Server.Event.Lifetime.{lookup-subscribe}
use xuperchain.Server.Handle
use xuperchain.Server.Handle.{
  ChainEnv, select_utxo, check_select_utxo_sign, verify_lock, locked_hash,
}
use xuperchain.Server.Handle.Lock.{select_utxo_locks_for_owner}
use xuperchain.Server.Convert.{Wire, list, via_wire, utxo_list_to_xchain}
use xuperchain.Server.Convert.Lists.{utxo_list_to_xchain_all_or_none}
use xuperchain.Tests.World.{one_utxo}

abbrev two_conns : EventConf
two_conns = record { enable_event = true; event_addr_max_conn = pos 2 }

abbrev a : Text
a = lit "10.0.0.1"

abbrev b : Text
b = lit "10.0.0.2"

first : permit two_conns a [] ≡ (done a, (a, 1) ∷ [])
unfolding permit lookup store
first = refl

second : permit two_conns a ((a, 1) ∷ []) ≡ (done a, (a, 2) ∷ [])
unfolding permit lookup store text_eq
second = refl

abbrev busy : Service
busy = record { conns = (a, 2) ∷ []; live = a ∷ a ∷ [] }

busy_is_reached : Reach two_conns busy
busy_is_reached =
    next (next start (enter _ a _ first))
      (enter (record { conns = (a, 1) ∷ []; live = a ∷ [] }) a _ second)

Reach-Tracks_example :
    (lookup a busy.conns ≡ entry (live_count a busy.live)) × (live_count a busy.live ≤ 2)
Reach-Tracks_example = Reach-Tracks two_conns 1 refl busy_is_reached a

permit_by_count_run :
    (live_count a busy.live ≤ 1 → (permit two_conns a busy.conns).0 ≡ done a)
    × (live_count a busy.live ≡ 2
        → permit two_conns a busy.conns ≡ (failed EventError.too_many_connections, busy.conns))
permit_by_count_run = permit_by_count two_conns 1 refl a busy_is_reached

abbrev host : Text → Option Text
host addr = some b

lookup-subscribe_example :
    lookup b
      (subscribe two_conns host
        (some b)
        (Route.events (lit "p" ∷ []) none)
        (λ p. true)
        busy.conns).2
    ≡ lookup b busy.conns
lookup-subscribe_example =
    lookup-subscribe two_conns 1 refl host (some b) (Route.events (lit "p" ∷ []) none) (λ p. true) b
      busy_is_reached

-- A chain on which every signature is that of the key's own text.
abbrev chain : ChainEnv
chain = record {
  has_chain = λ name. true;
  is_account = λ name. false;
  public_key = λ key. some key;
  verify_ecdsa = λ key sign digest. some (text_eq key sign);
  verify_address = λ account key. text_eq account key;
  double_sha256 = λ text. text;
  select = λ account need lock exclude. Handle.done (one_utxo account 5);
  select_by_size = λ account lock exclude. Handle.done (one_utxo account 5);
}

locks_for_bob :
    select_utxo chain (lit "xuper") (lit "bob") (pos 5) true false (lit "bob") (lit "bob")
    ≡ Handle.done (one_utxo (lit "bob") 5)
unfolding select_utxo check_select_utxo_sign text_eq
locks_for_bob = refl

select_utxo_locks_for_owner_example :
    (key : Text) × (chain.public_key (lit "bob") ≡ some key)
    × (chain.verify_ecdsa key (lit "bob") (locked_hash chain (lit "xuper") (lit "bob") (pos 5))
        ≡ some true)
    × (chain.verify_address (lit "bob") key ≡ true)
select_utxo_locks_for_owner_example =
    select_utxo_locks_for_owner chain (lit "xuper") (lit "bob") (pos 5) false (lit "bob")
      (lit "bob") (one_utxo (lit "bob") 5) refl locks_for_bob

-- A message that is its own wire form
abbrev same_wire : Wire Text Text
same_wire = record { marshal = λ a. some a; unmarshal = λ b. some b }

utxo_list_to_xchain_all_or_none_run :
    (utxo_list_to_xchain same_wire (some (some a ∷ some b ∷ [])) ≡ list (some (a ∷ b ∷ [])))
    ↔ (map (via_wire same_wire) (some a ∷ some b ∷ []) ≡ map some (a ∷ b ∷ []))
utxo_list_to_xchain_all_or_none_run =
    utxo_list_to_xchain_all_or_none same_wire (some a ∷ some b ∷ []) (a ∷ b ∷ [])
