-- ===== src/Service/Startup/Ends.antt =====
-- How a node ends: the states in which it has nothing left to do.
use xuperchain.Prelude.{true, false, ◌≡◌, refl, ◌⊎◌, inl, inr, ℕ, zero, suc, arith, Bool-cases}
use xuperchain.Service.Serv.{
  Phase, starting, built, serving, ended, reported, Seat, Must, build, serve, finish, exit,
  IsMissed,
}
use xuperchain.Service.Startup.{
  Stage, running, sending, received, Node, Advance, rpc_runs, gateway_runs, take_rpc, take_gateway,
  manager_ends, engine_ends, take_engine, take_serv, take_signal, Reach,
}
use xuperchain.Service.Startup.Invariant.{gone, all_asked, Inv, Reach-Inv}

-- The node has nothing left to do of itself.
abbrev pub IsAtRest : Node → Type 0
IsAtRest s = (t : Node) → Advance s t → ⊥

-- Nothing has asked the node to exit, and a server is up.
pub record IsUp (s : Node) : Type 0 where
  pub engine_runs : s.engine ≡ running tt
  pub engine_untold : s.engine_told ≡ false
  pub no_signal : s.sig_chan ≡ false
  pub serves : (s.rpc.server.phase ≡ serving) ⊎ (s.gateway.server.phase ≡ serving)

-- What a server at rest may be: one that serves and was not stopped, or one that ended.
data Resting (q : Seat) : Type 0 where
  stays : q.server.phase ≡ serving → q.server.stopped ≡ false → q.told ≡ 0 → Resting q
  over : q.server.phase ≡ ended → Resting q
  away : q.server.phase ≡ reported → Resting q

untold : (q : Seat) → ((r : Seat) → Must q r → ⊥) → q.told ≡ 0
untold q rest = go q.told refl
  where
    go : (n : ℕ) → q.told ≡ n → q.told ≡ 0
    go zero e = e
    go (suc n) e = absurd (rest _ (exit e))

at_rest-Resting : (q : Seat) → q.server.is_init ≡ true → ((r : Seat) → Must q r → ⊥) → Resting q
at_rest-Resting q init rest = go q.server.phase refl
  where
    go : (p : Phase) → q.server.phase ≡ p → Resting q
    go starting e = absurd (rest _ (build init e))
    go built e = absurd (rest _ (serve e))
    go serving e = elim (Bool-cases q.server.stopped) [
      | inl stop ↦ absurd (rest _ (finish e stop))
      | inr live ↦ stays e live (untold q rest)
    ]
    go ended e = over e
    go reported e = away e

-- What a node at rest is.
pub data AtRest (s : Node) : Type 0 where
  returned : s.wg ≡ 0 → AtRest s
  rpc_missed : IsMissed s.rpc → AtRest s
  gateway_missed : IsMissed s.gateway → AtRest s
  up : IsUp s → AtRest s

module _ {s : Node} (inv : Inv s) (rest : IsAtRest s) where
  no_signal_left : s.sig_chan ≡ false
  no_signal_left = elim (Bool-cases s.sig_chan) [
    | inl full ↦ absurd (rest _ (take_signal full))
    | inr none_there ↦ none_there
  ]

  -- An untold engine runs when nobody was asked.
  engine_up :
      s.engine_told ≡ false
      → all_asked s ≡ false
      → (e : Stage (Unit {0})) → s.engine ≡ e
      → s.engine ≡ running tt
  engine_up untold_engine unasked (running tt) e = e
  engine_up untold_engine unasked sending e = absurd (rest _ (take_engine e))
  engine_up untold_engine unasked received e = absurd (ground (arith, inv.engine_gone))

  unasked-IsUp :
      gone s.manager ≡ 0
      → all_asked s ≡ false
      → (s.rpc.server.phase ≡ serving) ⊎ (s.gateway.server.phase ≡ serving)
      → IsUp s
  unasked-IsUp there unasked serves = elim (Bool-cases s.engine_told) [
    | inl yes_told ↦ elim (inv.told yes_told) [
      | inl all ↦ absurd (cc all)
      | inr manager_gone ↦ absurd (omega arith)
    ]
    | inr not_told ↦ record {
      engine_runs = engine_up not_told unasked s.engine refl;
      engine_untold = not_told;
      no_signal = no_signal_left;
      serves = serves;
    }
  ]

  rpc_stays :
      gone s.manager ≡ 0
      → s.rpc.server.phase ≡ serving
      → s.rpc.server.stopped ≡ false
      → s.rpc.told ≡ 0
      → AtRest s
  rpc_stays there e live quiet = elim (Bool-cases s.rpc.server.exit_used) [
    | inl used ↦ rpc_missed (record { up = e; used = used; left = live })
    | inr unused ↦ up (unasked-IsUp there (ground arith) (inl e))
  ]

  gateway_stays :
      gone s.manager ≡ 0
      → s.gateway.server.phase ≡ serving
      → s.gateway.server.stopped ≡ false
      → s.gateway.told ≡ 0
      → AtRest s
  gateway_stays there e live quiet = elim (Bool-cases s.gateway.server.exit_used) [
    | inl used ↦ gateway_missed (record { up = e; used = used; left = live })
    | inr unused ↦ up (unasked-IsUp there (ground arith) (inr e))
  ]

  collecting : (n : ℕ) → s.manager ≡ running n → Resting s.rpc → Resting s.gateway → AtRest s
  collecting n e (stays p q r) w = rpc_stays (rw e refl) p q r
  collecting n e (over p) w = absurd (rest _ (take_rpc e p))
  collecting n e (away p) (stays f q r) = gateway_stays (rw e refl) f q r
  collecting n e (away p) (over q) = absurd (rest _ (take_gateway e q))
  collecting n e (away p) (away q) = absurd (rest _ (manager_ends e (ground (arith, inv.counted))))

  engine_waited : s.manager ≡ received → (e : Stage (Unit {0})) → s.engine ≡ e → AtRest s
  engine_waited m (running tt) e =
      absurd (rest _ (engine_ends e (ground (arith, inv.manager_gone))))
  engine_waited m sending e = absurd (rest _ (take_engine e))
  engine_waited m received e = returned (ground (arith, inv.waits))

  at_rest : (m : Stage ℕ) → s.manager ≡ m → AtRest s
  at_rest (running n) e =
      collecting n e (at_rest-Resting s.rpc inv.init.0 (λ q m. rest _ (rpc_runs m)))
        (at_rest-Resting s.gateway inv.init.1 (λ q m. rest _ (gateway_runs m)))
  at_rest sending e = absurd (rest _ (take_serv e))
  at_rest received e = engine_waited e s.engine refl

-- A reachable node that can do nothing more of itself has taken both ends, so that `main` returns; or one
-- of its servers serves on, with its exit used up and never stopped; or nothing has asked the node to
-- exit and a server is up.
pub node_at_rest-AtRest : {k n : ℕ} {s : Node} → Reach k n s → IsAtRest s → AtRest s
node_at_rest-AtRest {s} r rest = at_rest (Reach-Inv r) rest s.manager refl
