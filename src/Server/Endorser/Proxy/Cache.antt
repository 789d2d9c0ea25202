-- ===== src/Server/Endorser/Proxy/Cache.antt =====
-- The cache of connections and its mutex, over all orders of the goroutines.
use xuperchain.Prelude.{
  Bool, true, false, none, some, [], ◌∷◌, ◌++◌, ◌≡◌, refl, if◌then◌else◌, ℕ, suc, ◌≤◌, arith,
  set_at, ◌⊎◌, inl, inr, Option-cases,
}
use xuperchain.Go.Text.{Text, text_eq, text_eq→eq, text_eq_refl}
use xuperchain.Exec.{ok}
use xuperchain.Server.Endorser.Proxy.{
  Clients, load, Shared, Pc, idle, looking, waiting, looking_again, dialing, storing, leaving,
  returned, Move, call, no_host, hit, miss, acquire, hit_again, miss_again, dial_done, store,
  release, again, Proxy, fresh_proxy, pick, Reach, start, next,
}

-- How often a host was dialed.
abbrev pub dial_count : Text → Clients → ℕ
dial_count host [] = 0
dial_count host ((key, client) ∷ dialed) =
    let rest = dial_count host dialed in if text_eq key host then suc rest else rest

dial_count-load :
    (host : Text) (cache : Clients) → load host cache ≡ none → dial_count host cache ≡ 0
unfolding load
dial_count-load host [] h = refl
dial_count-load host (entry ∷ cache) h = ground (arith, dial_count-load host cache)

-- Between `mutex.Lock` and the deferred `mutex.Unlock`.
abbrev pub critical : Pc → Bool
critical (looking_again _) = true
critical (dialing _) = true
critical (storing _ _) = true
critical (leaving _ _) = true
critical _ = false

-- A connection that is open and not yet in the cache.
abbrev unstored : Pc → Clients
unstored (storing host client) = (host, client) ∷ []
unstored _ = []

-- What the locals of a goroutine say about the cache.
abbrev IsSound : Clients → Pc → Type 0
IsSound cache (dialing host) = load host cache ≡ none
IsSound cache (storing host client) = load host cache ≡ none
IsSound cache (leaving host (ok client)) = load host cache ≡ some client
IsSound cache (returned host (ok client)) = load host cache ≡ some client
IsSound cache _ = Unit

record Inv (m : Shared) (pc : ℕ → Pc) : Type 0 where
  held : (i : ℕ) → critical (pc i) ≡ true → m.holder ≡ some i
  inside : (i : ℕ) → m.holder ≡ some i → critical (pc i) ≡ true
  free : m.holder ≡ none → m.dialed ≡ m.cache
  busy : (i : ℕ) → m.holder ≡ some i → m.dialed ≡ unstored (pc i) ++ m.cache
  once : (host : Text) → dial_count host m.cache ≤ 1
  sound : (i : ℕ) → IsSound m.cache (pc i)

-- The premise of a move.
abbrev Guard : {i : ℕ} {m m' : Shared} {p p' : Pc} → Move i m p m' p' → Type 0
Guard {m} (acquire _) = m.holder ≡ none
Guard {m} (hit {host} {client} _ _) = load host m.cache ≡ some client
Guard {m} (hit_again {host} {client} _) = load host m.cache ≡ some client
Guard {m} (miss_again {host} _) = load host m.cache ≡ none
Guard _ = Unit

premise : {i : ℕ} {m m' : Shared} {p p' : Pc} (mv : Move i m p m' p') → Guard mv
premise (acquire g) = g
premise (hit _ g) = g
premise (hit_again g) = g
premise (miss_again g) = g
premise _ = tt

module _ {m : Shared} {pc : ℕ → Pc} (inv : Inv m pc) (i : ℕ) where
  open inv use {held, inside, free, busy, once, sound}

  -- Goroutine `i` goes from `p` to `p'`.
  record Mover (p : Pc) : Type 0 where
    here : pc i ≡ p
    own : IsSound m.cache p
    owed : m.holder ≡ some i → m.dialed ≡ unstored p ++ m.cache

  mover : Mover (pc i)
  mover = record { here = refl; own = sound i; owed = busy i }

  Move-held :
      {p p' : Pc} {m' : Shared}
      → Move i m p m' p'
      → Mover p
      → (j : ℕ) → critical (set_at i p' pc j) ≡ true
      → m'.holder ≡ some j
  Move-held (acquire g) f j c = ground (arith, held i, held j, f.here)
  Move-held mv f j c = ground (arith, premise mv, held i, held j, f.here)

  Move-inside :
      {p p' : Pc} {m' : Shared}
      → Move i m p m' p'
      → Mover p
      → (j : ℕ) → m'.holder ≡ some j
      → critical (set_at i p' pc j) ≡ true
  Move-inside (acquire g) f j c = ground (arith, inside i, inside j, f.here)
  Move-inside mv f j c = ground (arith, premise mv, inside i, inside j, f.here)

  Move-free :
      {p p' : Pc} {m' : Shared}
      → Move i m p m' p'
      → Mover p
      → m'.holder ≡ none
      → m'.dialed ≡ m'.cache
  Move-free (acquire g) f e = ground (arith, f.here)
  Move-free mv f e = ground (arith, premise mv, held i, free, f.owed, f.here)

  Move-busy :
      {p p' : Pc} {m' : Shared}
      → Move i m p m' p'
      → Mover p
      → (j : ℕ) → m'.holder ≡ some j
      → m'.dialed ≡ unstored (set_at i p' pc j) ++ m'.cache
  Move-busy (acquire g) f j e = ground (arith, free, f.here)
  Move-busy mv f j e = ground (arith, premise mv, held i, held j, free, busy j, f.owed, f.here)

  Move-once :
      {p p' : Pc} {m' : Shared}
      → Move i m p m' p'
      → Mover p
      → (host : Text) → dial_count host m'.cache ≤ 1
  Move-once (store {host = key}) f host =
      ground (arith, once host, f.own, dial_count-load host m.cache, text_eq→eq key host)
  Move-once mv f host = ground (arith, once host)

  -- What a stored connection leaves true of a goroutine that is not inside
  kept :
      (q : Pc) (key : Text) (client : ℕ)
      → critical q ≡ false
      → load key m.cache ≡ none
      → IsSound m.cache q
      → IsSound ((key, client) ∷ m.cache) q
  unfolding load
  kept (returned host (ok c)) key client out absent h = ground (arith, text_eq→eq key host)
  kept q key client out absent h = ground arith

  stored : (key : Text) (client : ℕ) → IsSound ((key, client) ∷ m.cache) (leaving key (ok client))
  unfolding load
  stored key client = rw (text_eq_refl key) refl

  Move-IsSound :
      {p p' : Pc} {m' : Shared}
      → Move i m p m' p'
      → Mover p
      → (j : ℕ) → IsSound m'.cache (set_at i p' pc j)
  Move-IsSound (store {host = key} {client}) f j =
      ground
        (arith, kept (pc j) key client, stored key client, sound j, f.own, f.here, held i, held j)
  Move-IsSound (acquire g) f j = ground (arith, sound j)
  Move-IsSound mv f j = ground (arith, sound j, f.own, premise mv)

  Move-Inv : {p' : Pc} {m' : Shared} → Move i m (pc i) m' p' → Inv m' (set_at i p' pc)
  Move-Inv mv = record {
    held = Move-held mv mover;
    inside = Move-inside mv mover;
    free = Move-free mv mover;
    busy = Move-busy mv mover;
    once = Move-once mv mover;
    sound = Move-IsSound mv mover;
  }

fresh-Inv : Inv fresh_proxy.mem fresh_proxy.pc
fresh-Inv = record {
  held = λ i e. cc;
  inside = λ i e. cc;
  free = λ e. refl;
  busy = λ i e. cc;
  once = λ host. omega arith;
  sound = λ i. tt;
}

Reach-Inv : {s : Proxy} → Reach s → Inv s.mem s.pc
Reach-Inv start = fresh-Inv
Reach-Inv (next r (pick i mv)) = Move-Inv (Reach-Inv r) i mv

pending_once :
    (q : Pc) (cache : Clients) (host : Text)
    → dial_count host cache ≤ 1
    → IsSound cache q
    → dial_count host (unstored q ++ cache) ≤ 1
pending_once (storing key client) cache host few absent =
    ground (arith, text_eq→eq key host, dial_count-load key cache)
pending_once idle cache host few absent = few
pending_once q cache host few absent = ground arith

-- However the calls interleave, every host was dialed with success at most once, connections that are
-- not in the cache yet counted.
pub hosts_are_dialed_once : {s : Proxy} → Reach s → (host : Text) → dial_count host s.mem.dialed ≤ 1
hosts_are_dialed_once {s} r host = elim (Option-cases s.mem.holder) [
  | inl open_to_all ↦ rw ((Reach-Inv r).free open_to_all) ((Reach-Inv r).once host)
  | inr (i, e) ↦
      rw ((Reach-Inv r).busy i e)
        (pending_once (s.pc i) s.mem.cache host ((Reach-Inv r).once host) ((Reach-Inv r).sound i))
]

-- Two calls for the same host that have both been given a connection were given the same one.
pub same_host_same_client :
    {s : Proxy} {host : Text} {a b : ℕ}
    → Reach s
    → (i j : ℕ) → s.pc i ≡ returned host (ok a)
    → s.pc j ≡ returned host (ok b)
    → a ≡ b
same_host_same_client r i j e f = ground (arith, (Reach-Inv r).sound i, (Reach-Inv r).sound j)

-- Some step of goroutine `i` is possible.
abbrev pub CanMove : Proxy → ℕ → Type 0
CanMove s i = (m : Shared) × (p : Pc) × Move i s.mem (s.pc i) m p

abbrev Moves : ℕ → Shared → Pc → Type 0
Moves i m p = (m' : Shared) × (p' : Pc) × Move i m p m' p'

looked : (i : ℕ) (m : Shared) (host : Text) → Moves i m (looking host)
looked i m [] = (m, returned [] _, no_host)
looked i m (c ∷ host) = elim (Option-cases (load (c ∷ host) m.cache)) [
  | inl absent ↦ (m, waiting (c ∷ host), miss (λ e. cc) absent)
  | inr (client, found) ↦ (m, returned (c ∷ host) (ok client), hit (λ e. cc) found)
]

looked_again : (i : ℕ) (m : Shared) (host : Text) → Moves i m (looking_again host)
looked_again i m host = elim (Option-cases (load host m.cache)) [
  | inl absent ↦ (m, dialing host, miss_again absent)
  | inr (client, found) ↦ (m, leaving host (ok client), hit_again found)
]

-- A goroutine moves unless the mutex keeps it waiting.
moves :
    (i : ℕ) (m : Shared) (p : Pc)
    → ((host : Text) → p ≡ waiting host → m.holder ≡ none)
    → Moves i m p
moves i m idle free = (m, looking [], call)
moves i m (looking host) free = looked i m host
moves i m (waiting host) free = (_, _, acquire (free host refl))
moves i m (looking_again host) free = looked_again i m host
moves i m (dialing host) free = (_, _, dial_done {client = 0})
moves i m (storing host client) free = (_, _, store)
moves i m (leaving host r) free = (_, _, release)
moves i m (returned host r) free = (_, _, again)

-- A goroutine is never stuck: it can move, or it waits for the mutex and the goroutine that holds the
-- mutex can move.
pub mutex_is_never_stuck :
    {s : Proxy}
    → Reach s
    → (i : ℕ) → CanMove s i ⊎ ((j : ℕ) × (s.mem.holder ≡ some j) × CanMove s j)
mutex_is_never_stuck {s} r i = elim (Option-cases s.mem.holder) [
  | inl open_to_all ↦ inl (moves i s.mem (s.pc i) (λ host e. open_to_all))
  | inr (j, e) ↦ inr (j, e, moves j s.mem (s.pc j) (λ host w. holder_is_in j host e w))
]
  where
    holder_is_in :
        (j : ℕ) (host : Text) → s.mem.holder ≡ some j → s.pc j ≡ waiting host → s.mem.holder ≡ none
    holder_is_in j host e w = ground (arith, (Reach-Inv r).inside j)
