-- ===== src/Service/Startup.antt =====
-- `StartupXchain` of cmd/xchain/cmd/startup.go with `ServMG` of service/manage.go: the goroutines of
-- the engine, of the servers, of the loop that takes their ends and the signals, and of `main`, which
-- waits for two ends.
pub mod Finite
pub mod Invariant
pub mod Ends
use xuperchain.Prelude.{Bool, true, false, ◌≡◌, ℕ, zero, suc, ◌+◌, ◌-◌, ◌≤◌, leb}
use xuperchain.Service.Serv.{Phase, Seat, Must, May, new_server, tell, report, ended}

-- `runEngine` and `runServ`: running, at the send on their channel, and behind it. `ServMG.Run` counts
-- the servers that have ended.
pub data Stage (A : Type 0) : Type 0 where
  running : A → Stage A
  sending received : Stage A

pub record Node : Type 0 where
  -- `ServMG.servers`
  pub rpc : Seat
  pub gateway : Seat
  -- `ServMG.Run`, with `exitCnt`
  pub manager : Stage ℕ
  pub engine : Stage (Unit {0})
  -- `engine.Exit` was called.
  pub engine_told : Bool
  -- A signal waits in `sigChan`.
  pub sig_chan : Bool
  -- the signals that will still be sent to the process
  pub signals : ℕ
  -- `wg`
  pub wg : ℕ

abbrev new_seat : Seat
new_seat = record { server = new_server; told = 0 }

-- A node that has just started, and is going to be sent `n` signals
abbrev pub started : ℕ → Node
started n = record {
  rpc = new_seat;
  gateway = new_seat;
  manager = running 0;
  engine = running tt;
  engine_told = false;
  sig_chan = false;
  signals = n;
  wg = 2;
}

-- `len(t.servers)`
abbrev server_count : ℕ
server_count = 2

-- `serv.Exit()`, `ServMG.Exit`
abbrev pub serv_exit : Node → Node
serv_exit s = record s { rpc = tell s.rpc; gateway = tell s.gateway }

-- `engine.Exit()`
abbrev pub engine_exit : Node → Node
engine_exit s = record s { engine_told = true }

-- `wg.Done()`
abbrev pub done : Node → Node
done s = record s { wg = s.wg - 1 }

-- The three cases of the `select`
abbrev pub on_engine : Node → Node
on_engine s = serv_exit (done (record s { engine = received }))

abbrev pub on_serv : Node → Node
on_serv s = engine_exit (done (record s { manager = received }))

abbrev pub on_signal : Node → Node
on_signal s = engine_exit (serv_exit (record s { sig_chan = false }))

-- What the node does next of itself.
pub data Advance (s : Node) : Node → Type 0 where
  rpc_runs : {q : Seat} → Must s.rpc q → Advance s (record s { rpc = q })
  gateway_runs : {q : Seat} → Must s.gateway q → Advance s (record s { gateway = q })
  take_rpc :
      {n : ℕ}
      → s.manager ≡ running n
      → s.rpc.server.phase ≡ ended
      → Advance s (record s { manager = running (suc n); rpc = report s.rpc })
  take_gateway :
      {n : ℕ}
      → s.manager ≡ running n
      → s.gateway.server.phase ≡ ended
      → Advance s (record s { manager = running (suc n); gateway = report s.gateway })
  manager_ends :
      {n : ℕ}
      → s.manager ≡ running n
      → leb server_count n ≡ true
      → Advance s (record s { manager = sending })
  engine_ends :
      s.engine ≡ running tt → s.engine_told ≡ true → Advance s (record s { engine = sending })
  take_engine : s.engine ≡ sending → Advance s (on_engine s)
  take_serv : s.manager ≡ sending → Advance s (on_serv s)
  take_signal : s.sig_chan ≡ true → Advance s (on_signal s)

-- What may happen to it: a server or the engine fails, or a signal arrives. A signal that finds
-- `sigChan` full is dropped.
pub data Happen (s : Node) : Node → Type 0 where
  rpc_fails : {q : Seat} → May s.rpc q → Happen s (record s { rpc = q })
  gateway_fails : {q : Seat} → May s.gateway q → Happen s (record s { gateway = q })
  engine_fails : s.engine ≡ running tt → Happen s (record s { engine = sending })
  signal : {n : ℕ} → s.signals ≡ suc n → Happen s (record s { signals = n; sig_chan = true })

-- The states after a number of steps.
pub data Reach (signals : ℕ) : ℕ → Node → Type 0 where
  start : Reach signals 0 (started signals)
  advance : {n : ℕ} {s t : Node} → Reach signals n s → Advance s t → Reach signals (suc n) t
  happen : {n : ℕ} {s t : Node} → Reach signals n s → Happen s t → Reach signals (suc n) t
