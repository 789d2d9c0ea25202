-- ===== src/Server/Event/Live.antt =====
-- Connections that come and go: every reachable counter counts the live connections of each address,
-- and never lets one address have more than the limit.
use xuperchain.Prelude.{
  Option, none, some, List, [], ◌∷◌, ◌≡◌, refl, if◌then◌else◌, ℕ, zero, suc, ◌+◌, ◌-◌, ◌<◌, ◌≤◌,
  arith, pos, Bool-cases, inl, inr, ◌∙◌, ap,
}
use native.Mathlib.Decide.{dec_lt}
use xuperchain.Go.Text.{Text, text_eq, text_eq→eq, eq→text_eq}
use xuperchain.Server.Event.{
  ConnCounter, lookup, store, EventConf, EventError, Outcome, done, failed, permit, release_conn,
}
use xuperchain.Server.Event.Counter.{lookup-delete, lookup-store}

-- How many live connections come from an address.
abbrev pub live_count : Text → List Text → ℕ
live_count ip [] = 0
live_count ip (other ∷ live) =
    let rest = live_count ip live in if text_eq other ip then suc rest else rest

abbrev pub hang_up : Text → List Text → List Text
hang_up ip [] = []
hang_up ip (other ∷ live) =
    let rest = hang_up ip live in if text_eq other ip then live else other ∷ rest

pub live_count-hang_up :
    (ip other : Text) (live : List Text)
    → 0 < live_count ip live
    → live_count other (hang_up ip live)
      ≡ (if text_eq ip other then live_count other live - 1 else live_count other live)
live_count-hang_up ip other [] h = elim h [ ]
live_count-hang_up ip other (x ∷ live) h = ground (
  arith,
  live_count-hang_up ip other live,
  text_eq→eq x ip,
  text_eq→eq x other,
  text_eq→eq ip other,
  eq→text_eq x other,
  eq→text_eq x ip,
  eq→text_eq ip other,
)

pub record Service : Type 0 where
  pub conns : ConnCounter
  pub live : List Text

-- What may happen to the service next: a connection is let in or refused, or one that is live ends.
pub data Step (cfg : EventConf) : Service → Service → Type 0 where
  enter :
      (s : Service) (ip : Text) (conns : ConnCounter)
      → permit cfg ip s.conns ≡ (done ip, conns)
      → Step cfg s (record { conns = conns; live = ip ∷ s.live })
  refuse :
      (s : Service) (ip : Text) (e : EventError) (conns : ConnCounter)
      → permit cfg ip s.conns ≡ (failed e, conns)
      → Step cfg s (record { conns = conns; live = s.live })
  leave :
      (s : Service) (ip : Text)
      → 0 < live_count ip s.live
      → Step cfg s (record { conns = release_conn cfg ip s.conns; live = hang_up ip s.live })

pub data Reach (cfg : EventConf) : Service → Type 0 where
  start : Reach cfg (record { conns = []; live = [] })
  next : {s t : Service} → Reach cfg s → Step cfg s t → Reach cfg t

-- What the counter stores for a number of connections: no key for none.
abbrev pub entry : ℕ → Option ℕ
entry zero = none
entry (suc n) = some (suc n)

-- With a limit of one or more
module _ (cfg : EventConf) (limit : ℕ) (limited : cfg.event_addr_max_conn ≡ pos (suc limit)) where
  abbrev Tracks : Service → Type 0
  Tracks s =
      (ip : Text)
      → (lookup ip s.conns ≡ entry (live_count ip s.live)) × (live_count ip s.live ≤ suc limit)

  -- a permit, by the number of connections that the address has
  permit_first :
      (ip : Text) (m : ConnCounter) → lookup ip m ≡ none → permit cfg ip m ≡ (done ip, store ip 1 m)
  unfolding permit
  permit_first ip m e = rw (limited, e)

  permit_more :
      (ip : Text) (m : ConnCounter) (n : ℕ)
      → lookup ip m ≡ some n
      → n ≤ limit
      → permit cfg ip m ≡ (done ip, store ip (n + 1) m)
  unfolding permit
  permit_more ip m n e h = rw (limited, e) (ground arith)

  permit_full :
      (ip : Text) (m : ConnCounter) (n : ℕ)
      → lookup ip m ≡ some n
      → limit < n
      → permit cfg ip m ≡ (failed EventError.too_many_connections, m)
  unfolding permit
  permit_full ip m n e h = rw (limited, e) (ground arith)

  store-Tracks :
      (s : Service) (ip : Text) (n : ℕ)
      → Tracks s
      → live_count ip s.live ≡ n
      → n ≤ limit
      → Tracks (record { conns = store ip (n + 1) s.conns; live = ip ∷ s.live })
  store-Tracks s ip n t e h other = elim (Bool-cases (text_eq ip other)) [
    | inl same ↦
        let found : ip ≡ other = text_eq→eq ip other same in
        rw (lookup-store ip other (n + 1) s.conns, same)
          (ground (arith, ap (λ x. live_count x s.live) found))
    | inr distinct ↦ rw (lookup-store ip other (n + 1) s.conns, distinct) (t other)
  ]

  enter-Tracks :
      (s : Service) (ip : Text) (conns : ConnCounter) (n : ℕ)
      → Tracks s
      → live_count ip s.live ≡ n
      → permit cfg ip s.conns ≡ (done ip, conns)
      → Tracks (record { conns = conns; live = ip ∷ s.live })
  enter-Tracks s ip conns zero t e p =
      let missing : lookup ip s.conns ≡ none = (t ip).0 ∙ ap entry e in
      let made : conns ≡ store ip 1 s.conns = cc (permit_first ip s.conns missing) in
      rw made (store-Tracks s ip 0 t e (omega arith))
  enter-Tracks s ip conns (suc n) t e p =
      let present : lookup ip s.conns ≡ some (suc n) = (t ip).0 ∙ ap entry e in
      elim (dec_lt limit (suc n)) [
        | yes full ↦ absurd (cc (permit_full ip s.conns (suc n) present full))
        | no room ↦
            let made : conns ≡ store ip (suc n + 1) s.conns =
              cc (permit_more ip s.conns (suc n) present (omega arith)) in
            rw made (store-Tracks s ip (suc n) t e (omega arith))
      ]

  refuse-Tracks :
      (s : Service) (ip : Text) (err : EventError) (conns : ConnCounter) (n : ℕ)
      → Tracks s
      → live_count ip s.live ≡ n
      → permit cfg ip s.conns ≡ (failed err, conns)
      → Tracks (record { conns = conns; live = s.live })
  refuse-Tracks s ip err conns zero t e p =
      absurd (cc (permit_first ip s.conns ((t ip).0 ∙ ap entry e)))
  refuse-Tracks s ip err conns (suc n) t e p =
      let present : lookup ip s.conns ≡ some (suc n) = (t ip).0 ∙ ap entry e in
      elim (dec_lt limit (suc n)) [
        | yes full ↦
            let same : conns ≡ s.conns = cc (permit_full ip s.conns (suc n) present full) in
            rw same t
        | no room ↦ absurd (cc (permit_more ip s.conns (suc n) present (omega arith)))
      ]

  release_more :
      (ip : Text) (m : ConnCounter) (n : ℕ)
      → lookup ip m ≡ some (suc (suc n))
      → release_conn cfg ip m ≡ store ip (suc n) m
  unfolding release_conn
  release_more ip m n e = rw (limited, e) (ground arith)

  lookup-release_conn :
      (ip other : Text) (m : ConnCounter) (n : ℕ)
      → lookup ip m ≡ some (suc n)
      → lookup other (release_conn cfg ip m)
        ≡ (if text_eq ip other then entry n else lookup other m)
  unfolding release_conn
  lookup-release_conn ip other m zero e = rw (limited, e) (lookup-delete ip other m)
  lookup-release_conn ip other m (suc n) e =
      rw (release_more ip m n e) (lookup-store ip other (suc n) m)

  leave-Tracks :
      (s : Service) (ip : Text) (n : ℕ)
      → Tracks s
      → live_count ip s.live ≡ suc n
      → Tracks (record { conns = release_conn cfg ip s.conns; live = hang_up ip s.live })
  leave-Tracks s ip n t e other =
      let present : lookup ip s.conns ≡ some (suc n) = (t ip).0 ∙ ap entry e in
      let held : 0 < live_count ip s.live = omega arith in
      elim (Bool-cases (text_eq ip other)) [
        | inl same ↦
            let found : ip ≡ other = text_eq→eq ip other same in
            rw
              (
                lookup-release_conn ip other s.conns n present,
                live_count-hang_up ip other s.live held,
                same,
              )
              (let fewer : live_count other s.live - 1 ≡ n =
                  omega (arith, ap (λ x. live_count x s.live) found) in
                rw fewer (refl, omega (arith, (t ip).1)))
        | inr distinct ↦
            rw
              (
                lookup-release_conn ip other s.conns n present,
                live_count-hang_up ip other s.live held,
                distinct,
              )
              (t other)
      ]

  Step-Tracks : {s t : Service} → Step cfg s t → Tracks s → Tracks t
  Step-Tracks (enter s ip conns p) t = enter-Tracks s ip conns (live_count ip s.live) t refl p
  Step-Tracks (refuse s ip e conns p) t = refuse-Tracks s ip e conns (live_count ip s.live) t refl p
  Step-Tracks (leave s ip h) t = leave-Tracks s ip (live_count ip s.live - 1) t (omega arith)

  -- Under a limit of at least one connection, in every state that connections coming and going can
  -- reach, the counter stores for each address the number of its live connections, and no key where
  -- there is none, and that number is at most the limit.
  pub Reach-Tracks :
      {s : Service}
      → Reach cfg s
      → (ip : Text)
      → (lookup ip s.conns ≡ entry (live_count ip s.live)) × (live_count ip s.live ≤ suc limit)
  unfolding lookup
  Reach-Tracks start ip = (refl, omega arith)
  Reach-Tracks (next r step) ip = Step-Tracks step (Reach-Tracks r) ip

  abbrev PermitByCount : Service → Text → ℕ → Type 0
  PermitByCount s ip n =
      (n ≤ limit → (permit cfg ip s.conns).0 ≡ done ip)
      × (n ≡ suc limit → permit cfg ip s.conns ≡ (failed EventError.too_many_connections, s.conns))

  Tracks-PermitByCount :
      (s : Service) (ip : Text) (n : ℕ) → Tracks s → live_count ip s.live ≡ n → PermitByCount s ip n
  Tracks-PermitByCount s ip zero t e = (
    λ h.
        ap (λ (p : Outcome Text × ConnCounter). p.0)
          (permit_first ip s.conns ((t ip).0 ∙ ap entry e)),
    λ h. absurd (omega arith),
  )
  Tracks-PermitByCount s ip (suc n) t e =
      let present : lookup ip s.conns ≡ some (suc n) = (t ip).0 ∙ ap entry e in
      (
        λ h.
            ap (λ (p : Outcome Text × ConnCounter). p.0) (permit_more ip s.conns (suc n) present h),
        λ h. permit_full ip s.conns (suc n) present (omega arith),
      )

  -- Under a limit of at least one connection, in every reachable state an address with fewer live
  -- connections than the
  -- limit is let in, and one with as many is refused, which leaves the counter as it is.
  pub permit_by_count :
      {s : Service} (ip : Text)
      → Reach cfg s
      → (live_count ip s.live ≤ limit → (permit cfg ip s.conns).0 ≡ done ip)
        × (live_count ip s.live ≡ suc limit
            → permit cfg ip s.conns ≡ (failed EventError.too_many_connections, s.conns))
  permit_by_count {s} ip r =
      Tracks-PermitByCount s ip (live_count ip s.live) (λ other. Reach-Tracks r other) refl
