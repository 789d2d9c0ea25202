-- ===== src/Server/Event/Lifetime.antt =====
-- A subscription gives back the place that it took, however it ends.
use xuperchain.Prelude.{
  Bool, Option, none, some, ◌∷◌, ◌≡◌, refl, sym, ◌∙◌, ap, ℕ, suc, ◌<◌, arith, pos, is_zero, leb_ℤ,
  Bool-cases, Option-cases, inl, inr,
}
use mathlib.Core.Path.{subst}
use xuperchain.Go.Text.{Text, text_eq_refl}
use xuperchain.Server.Event.{
  ConnCounter, lookup, EventConf, EventError, Outcome, done, failed, permit, conn_permit,
  count_conn, release_conn, release_after, Route, subscribe,
}
use xuperchain.Server.Event.Live.{
  Service, Reach, enter, leave, next, Reach-Tracks, hang_up, live_count, entry,
}

-- A permit is for the address that asked, and a refusal changes nothing.
abbrev Answers : Text → ConnCounter → Outcome Text × ConnCounter → Type 0
Answers ip m (done a, m') = a ≡ ip
Answers ip m (failed e, m') = m' ≡ m

count_conn-Answers :
    (cfg : EventConf) (ip : Text) (found : Option ℕ) (m : ConnCounter)
    → Answers ip m (count_conn cfg ip found m)
unfolding count_conn
count_conn-Answers cfg ip none m = refl
count_conn-Answers cfg ip (some n) m = elim (Bool-cases (leb_ℤ cfg.event_addr_max_conn (pos n))) [
  | inl full ↦ rw full refl
  | inr room ↦ rw room refl
]

permit-Answers : (cfg : EventConf) (ip : Text) (m : ConnCounter) → Answers ip m (permit cfg ip m)
unfolding permit
permit-Answers cfg ip m = elim (Bool-cases (is_zero cfg.event_addr_max_conn)) [
  | inl off ↦ rw off refl
  | inr on ↦ rw on (count_conn-Answers cfg ip (lookup ip m) m)
]

conn_permit_found :
    (cfg : EventConf) (split_host : Text → Option Text) (addr ip : Text) (m : ConnCounter)
    → split_host addr ≡ some ip
    → conn_permit cfg split_host (some addr) m ≡ permit cfg ip m
unfolding conn_permit
conn_permit_found cfg split_host addr ip m e = rw (e, conn_permit)

conn_permit_no_peer :
    (cfg : EventConf) (split_host : Text → Option Text) (m : ConnCounter)
    → conn_permit cfg split_host none m ≡ (failed EventError.no_remote_address, m)
unfolding conn_permit
conn_permit_no_peer cfg split_host m = refl

conn_permit_failed :
    (cfg : EventConf) (split_host : Text → Option Text) (addr : Text) (m : ConnCounter)
    → split_host addr ≡ none
    → conn_permit cfg split_host (some addr) m ≡ (failed (EventError.outside addr), m)
unfolding conn_permit
conn_permit_failed cfg split_host addr m e = rw (e, conn_permit)

module _ (cfg : EventConf) (limit : ℕ) (limited : cfg.event_addr_max_conn ≡ pos (suc limit)) where
  -- A permit and its release put every count back.
  release-permit :
      {s : Service} (ip : Text) (conns : ConnCounter) (other : Text)
      → Reach cfg s
      → permit cfg ip s.conns ≡ (done ip, conns)
      → lookup other (release_conn cfg ip conns) ≡ lookup other s.conns
  release-permit {s} ip conns other r p =
      let entered : Reach cfg (record { conns = conns; live = ip ∷ s.live }) =
        next r (enter s ip conns p) in
      let held : 0 < live_count ip (ip ∷ s.live) = rw (text_eq_refl ip) (omega arith) in
      let gone : hang_up ip (ip ∷ s.live) ≡ s.live = rw (text_eq_refl ip) refl in
      (Reach-Tracks cfg limit limited
        (next entered (leave (record { conns = conns; live = ip ∷ s.live }) ip held)) other).0
      ∙ ap (λ live. entry (live_count other live)) gone
      ∙ sym (Reach-Tracks cfg limit limited r other).0

  release_after-lookup :
      (s : Service) (ip : Text) (route : Route) (send : Text → Bool) (other : Text)
      (answer : Outcome Text × ConnCounter)
      → Reach cfg s
      → Answers ip s.conns answer
      → permit cfg ip s.conns ≡ answer
      → lookup other (release_after cfg route send answer).2 ≡ lookup other s.conns
  release_after-lookup s ip route send other (done a, m) r same p =
      release-permit a m other r (subst (λ b. permit cfg b s.conns ≡ (done a, m)) (sym same) p)
  release_after-lookup s ip route send other (failed e, m) r same p = ap (lookup other) same

  conn_permit-lookup :
      (s : Service) (split_host : Text → Option Text) (peer : Option Text) (route : Route)
      (send : Text → Bool) (other : Text)
      → Reach cfg s
      → lookup other (release_after cfg route send (conn_permit cfg split_host peer s.conns)).2
        ≡ lookup other s.conns
  conn_permit-lookup s split_host none route send other r =
      rw (conn_permit_no_peer cfg split_host s.conns) refl
  conn_permit-lookup s split_host (some addr) route send other r =
      elim (Option-cases (split_host addr)) [
        | inl missing ↦ rw (conn_permit_failed cfg split_host addr s.conns missing) refl
        | inr (ip, found) ↦ rw (conn_permit_found cfg split_host addr ip s.conns found) (
            release_after-lookup s ip route send other (permit cfg ip s.conns) r
              (permit-Answers cfg ip s.conns) refl)
      ]

  -- Under a limit of at least one connection, a subscription in a reachable state leaves the count of
  -- every address as it was: disabled, refused, ended by the router, by the iterator or by a payload
  -- that could not be sent.
  pub lookup-subscribe :
      {s : Service} (split_host : Text → Option Text) (peer : Option Text) (route : Route)
      (send : Text → Bool) (other : Text)
      → Reach cfg s
      → lookup other (subscribe cfg split_host peer route send s.conns).2 ≡ lookup other s.conns
  unfolding subscribe
  lookup-subscribe {s} split_host peer route send other r = elim (Bool-cases cfg.enable_event) [
    | inl on ↦ simp on (conn_permit-lookup s split_host peer route send other r)
    | inr off ↦ simp off refl
  ]
