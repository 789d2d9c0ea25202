-- ===== src/Service/Startup/Finite.antt =====
-- How many steps a run of a node may take.
use xuperchain.Prelude.{Bool, true, false, ℕ, ◌+◌, ◌*◌, ◌≤◌, ◌<◌, arith}
use xuperchain.Service.Serv.{
  Phase, starting, built, serving, ended, reported, Seat, Must, not_init, build, serve, finish,
  exit, May, fail_to_build, fail_to_serve, fail,
}
use xuperchain.Service.Startup.{
  Stage, running, sending, received, Node, Advance, rpc_runs, gateway_runs, take_rpc, take_gateway,
  manager_ends, engine_ends, take_engine, take_serv, take_signal, Happen, rpc_fails, gateway_fails,
  engine_fails, signal, Reach, start, advance, happen,
}

-- How many steps a state can still make, at most
abbrev rank : Phase → ℕ
rank starting = 4
rank built = 3
rank serving = 2
rank ended = 1
rank reported = 0

abbrev seat_size : Seat → ℕ
seat_size s = rank s.server.phase + s.told

abbrev stage_size : {A : Type 0} → Stage A → ℕ
stage_size (running a) = 4
stage_size sending = 3
stage_size received = 0

abbrev bit_size : Bool → ℕ
bit_size true = 3
bit_size false = 0

abbrev size : Node → ℕ
size s =
    seat_size s.rpc
    + seat_size s.gateway
    + stage_size s.manager
    + stage_size s.engine
    + bit_size s.sig_chan
    + 4 * s.signals

Must-size : {s q : Seat} → Must s q → seat_size q < seat_size s
Must-size (not_init e f) = ground arith
Must-size (build e f) = ground arith
Must-size (serve e) = ground arith
Must-size (finish e f) = ground arith
Must-size (exit e) = ground arith

May-size : {s q : Seat} → May s q → seat_size q < seat_size s
May-size (fail_to_build e) = ground arith
May-size (fail_to_serve e) = ground arith
May-size (fail e) = ground arith

Advance-size : {s t : Node} → Advance s t → size t < size s
Advance-size (rpc_runs m) = omega (arith, Must-size m)
Advance-size (gateway_runs m) = omega (arith, Must-size m)
Advance-size (take_rpc e f) = ground arith
Advance-size (take_gateway e f) = ground arith
Advance-size (manager_ends e f) = ground arith
Advance-size (engine_ends e f) = ground arith
Advance-size (take_engine e) = ground arith
Advance-size (take_serv e) = ground arith
Advance-size (take_signal e) = ground arith

Happen-size : {s t : Node} → Happen s t → size t < size s
Happen-size (rpc_fails m) = omega (arith, May-size m)
Happen-size (gateway_fails m) = omega (arith, May-size m)
Happen-size (engine_fails e) = ground arith
Happen-size (signal e) = ground arith

steps-size : {k n : ℕ} {s : Node} → Reach k n s → n + size s ≤ 16 + 4 * k
steps-size start = omega arith
steps-size (advance r m) = omega (arith, Advance-size m, steps-size r)
steps-size (happen r m) = omega (arith, Happen-size m, steps-size r)

-- A node that is sent `k` signals makes at most `16 + 4 * k` steps, those of its failures included: no
-- run goes on for ever, whatever the order of the steps.
pub node_runs_are_finite : {k n : ℕ} {s : Node} → Reach k n s → n ≤ 16 + 4 * k
node_runs_are_finite r = omega (arith, steps-size r)
