-- ===== src/Service/Startup/Invariant.antt =====
-- What holds in every reachable state of a node: how many ends were taken, and who was asked to exit.
use xuperchain.Prelude.{Bool, true, ◌&&◌, ◌||◌, ◌≡◌, refl, ◌⊎◌, inl, inr, ℕ, ◌+◌, leb, arith}
use xuperchain.Service.Serv.{
  Phase, reported, Seat, Must, not_init, build, serve, finish, exit, May, fail_to_build,
  fail_to_serve, fail,
}
use xuperchain.Service.Startup.{
  Stage, running, received, Node, started, Advance, rpc_runs, gateway_runs, take_rpc, take_gateway,
  manager_ends, engine_ends, take_engine, take_serv, take_signal, Happen, rpc_fails, gateway_fails,
  engine_fails, signal, Reach, start, advance, happen,
}

abbrev pub report_count : Phase → ℕ
report_count reported = 1
report_count _ = 0

-- Both servers' results that `ServMG.Run` has taken
abbrev pub reports : Node → ℕ
reports s = report_count s.rpc.server.phase + report_count s.gateway.server.phase

abbrev pub gone : {A : Type 0} → Stage A → ℕ
gone received = 1
gone _ = 0

-- A server has been, or is about to be, told to exit.
abbrev pub asked : Seat → Bool
asked q = leb 1 q.told || q.server.exit_used

abbrev pub all_asked : Node → Bool
all_asked s = asked s.rpc && asked s.gateway

abbrev pub IsCounted : Stage ℕ → ℕ → Type 0
IsCounted (running n) m = n ≡ m
IsCounted _ m = m ≡ 2

pub record Inv (s : Node) : Type 0 where
  pub init : (s.rpc.server.is_init ≡ true) × (s.gateway.server.is_init ≡ true)
  pub counted : IsCounted s.manager (reports s)
  pub waits : s.wg + gone s.engine + gone s.manager ≡ 2
  pub engine_gone : gone s.engine ≡ 1 → all_asked s ≡ true
  pub manager_gone : gone s.manager ≡ 1 → s.engine_told ≡ true
  pub told : s.engine_told ≡ true → (all_asked s ≡ true) ⊎ (gone s.manager ≡ 1)

-- What the steps of a server keep.
record Keeps (q r : Seat) : Type 0 where
  init : q.server.is_init ≡ true → r.server.is_init ≡ true
  count : report_count r.server.phase ≡ report_count q.server.phase
  still : q.server.is_init ≡ true → asked q ≡ true → asked r ≡ true

Must-Keeps : {q r : Seat} → Must q r → Keeps q r
Must-Keeps (not_init e f) = record { init = λ h. h; count = ground arith; still = λ h a. a }
Must-Keeps (build e f) = record { init = λ h. h; count = ground arith; still = λ h a. a }
Must-Keeps (serve e) = record { init = λ h. h; count = ground arith; still = λ h a. a }
Must-Keeps (finish e f) = record { init = λ h. h; count = ground arith; still = λ h a. a }
Must-Keeps (exit e) = record {
  init = λ h. ground arith;
  count = ground arith;
  still = λ h a. ground arith;
}

May-Keeps : {q r : Seat} → May q r → Keeps q r
May-Keeps (fail_to_build e) = record { init = λ h. h; count = ground arith; still = λ h a. a }
May-Keeps (fail_to_serve e) = record { init = λ h. h; count = ground arith; still = λ h a. a }
May-Keeps (fail e) = record { init = λ h. h; count = ground arith; still = λ h a. a }

module _ {s : Node} (inv : Inv s) where
  rpc-Inv : {q : Seat} → Keeps s.rpc q → Inv (record s { rpc = q })
  rpc-Inv k = record {
    init = (k.init inv.init.0, inv.init.1);
    counted = rw k.count inv.counted;
    waits = inv.waits;
    engine_gone = λ e. ground (arith, inv.engine_gone e, k.still inv.init.0);
    manager_gone = inv.manager_gone;
    told = λ e. ground (arith, inv.told e, k.still inv.init.0);
  }

  gateway-Inv : {q : Seat} → Keeps s.gateway q → Inv (record s { gateway = q })
  gateway-Inv k = record {
    init = (inv.init.0, k.init inv.init.1);
    counted = rw k.count inv.counted;
    waits = inv.waits;
    engine_gone = λ e. ground (arith, inv.engine_gone e, k.still inv.init.1);
    manager_gone = inv.manager_gone;
    told = λ e. ground (arith, inv.told e, k.still inv.init.1);
  }

  Advance-Inv : {t : Node} → Advance s t → Inv t
  Advance-Inv (rpc_runs m) = rpc-Inv (Must-Keeps m)
  Advance-Inv (gateway_runs m) = gateway-Inv (Must-Keeps m)
  Advance-Inv (take_rpc e f) = record {
    init = inv.init;
    counted = ground (arith, inv.counted);
    waits = ground (arith, inv.waits);
    engine_gone = λ x. ground (arith, inv.engine_gone x);
    manager_gone = λ x. absurd (ground arith);
    told = λ x. ground (arith, inv.told x);
  }
  Advance-Inv (take_gateway e f) = record {
    init = inv.init;
    counted = ground (arith, inv.counted);
    waits = ground (arith, inv.waits);
    engine_gone = λ x. ground (arith, inv.engine_gone x);
    manager_gone = λ x. absurd (ground arith);
    told = λ x. ground (arith, inv.told x);
  }
  Advance-Inv (manager_ends e f) = record {
    init = inv.init;
    counted = ground (arith, inv.counted);
    waits = ground (arith, inv.waits);
    engine_gone = inv.engine_gone;
    manager_gone = λ x. absurd (omega arith);
    told = λ x. ground (arith, inv.told x);
  }
  Advance-Inv (engine_ends e f) = record {
    init = inv.init;
    counted = inv.counted;
    waits = ground (arith, inv.waits);
    engine_gone = λ x. absurd (omega arith);
    manager_gone = inv.manager_gone;
    told = inv.told;
  }
  Advance-Inv (take_engine e) = record {
    init = inv.init;
    counted = inv.counted;
    waits = ground (arith, inv.waits);
    engine_gone = λ x. ground arith;
    manager_gone = inv.manager_gone;
    told = λ x. inl (ground arith);
  }
  Advance-Inv (take_serv e) = record {
    init = inv.init;
    counted = ground (arith, inv.counted);
    waits = ground (arith, inv.waits);
    engine_gone = inv.engine_gone;
    manager_gone = λ x. refl;
    told = λ x. inr refl;
  }
  Advance-Inv (take_signal e) = record {
    init = inv.init;
    counted = inv.counted;
    waits = inv.waits;
    engine_gone = λ x. ground arith;
    manager_gone = λ x. refl;
    told = λ x. inl (ground arith);
  }

  Happen-Inv : {t : Node} → Happen s t → Inv t
  Happen-Inv (rpc_fails m) = rpc-Inv (May-Keeps m)
  Happen-Inv (gateway_fails m) = gateway-Inv (May-Keeps m)
  Happen-Inv (engine_fails e) = record {
    init = inv.init;
    counted = inv.counted;
    waits = ground (arith, inv.waits);
    engine_gone = λ x. absurd (omega arith);
    manager_gone = inv.manager_gone;
    told = inv.told;
  }
  Happen-Inv (signal e) = record {
    init = inv.init;
    counted = inv.counted;
    waits = inv.waits;
    engine_gone = inv.engine_gone;
    manager_gone = inv.manager_gone;
    told = inv.told;
  }

started-Inv : (k : ℕ) → Inv (started k)
started-Inv k = record {
  init = (refl, refl);
  counted = refl;
  waits = refl;
  engine_gone = λ e. absurd (omega arith);
  manager_gone = λ e. absurd (omega arith);
  told = λ e. cc;
}

pub Reach-Inv : {k n : ℕ} {s : Node} → Reach k n s → Inv s
Reach-Inv {k} start = started-Inv k
Reach-Inv (advance r m) = Advance-Inv (Reach-Inv r) m
Reach-Inv (happen r m) = Happen-Inv (Reach-Inv r) m

-- `wg` is two less the ends that the loop has taken, and never less: no `wg.Done` is one too many, so
-- the counter never turns negative, and `main` returns just when both ends are taken.
pub wait_group-Inv : {k n : ℕ} {s : Node} → Reach k n s → s.wg + gone s.engine + gone s.manager ≡ 2
wait_group-Inv r = (Reach-Inv r).waits
