-- ===== src/Tests/Service.antt =====
-- A node that comes up, and one whose signal comes before its server is built.
use xuperchain.Prelude.{true, false, none, [], refl, ◌+◌, ◌*◌, ◌≤◌, arith, pos}
use xuperchain.Go.Text.{Text, lit}
use xuperchain.Exec.{ok}
use xuperchain.Service.Serv.{Must, not_init, build, serve, exit, finish, IsMissed, Seat}
use xuperchain.Service.Startup.{
  Node, rpc_runs, gateway_runs, take_rpc, take_gateway, manager_ends, engine_ends, take_engine,
  take_serv, take_signal, signal, Reach, start, advance, happen,
}
use xuperchain.Service.Startup.Finite.{node_runs_are_finite}
use xuperchain.Service.Startup.Ends.{IsAtRest, AtRest, node_at_rest-AtRest}
use xuperchain.Service.Rpc.{RpcConf, RpcWorld}

-- Both servers serve.
abbrev up : (s : Node) × Reach 1 4 s
up = (
  _,
  advance
      (advance (advance (advance start (rpc_runs (build refl refl))) (rpc_runs (serve refl)))
        (gateway_runs (build refl refl)))
      (gateway_runs (serve refl)),
)

node_runs_are_finite_example : 4 ≤ 16 + 4 * 1
node_runs_are_finite_example = node_runs_are_finite up.1

rpc_rests : (q : Seat) → Must up.0.rpc q → ⊥
rpc_rests q (not_init e f) = cc e
rpc_rests q (build e f) = cc f
rpc_rests q (serve e) = cc e
rpc_rests q (finish e f) = cc f
rpc_rests q (exit e) = cc e

up_rests : IsAtRest up.0
up_rests t (rpc_runs m) = rpc_rests _ m
up_rests t (gateway_runs m) = rpc_rests _ m
up_rests t (take_rpc e f) = cc f
up_rests t (take_gateway e f) = cc f
up_rests t (manager_ends e f) = ground (arith, e, f)
up_rests t (engine_ends e f) = cc f
up_rests t (take_engine e) = cc e
up_rests t (take_serv e) = cc e
up_rests t (take_signal e) = cc e

node_at_rest-AtRest_example : AtRest up.0
node_at_rest-AtRest_example = node_at_rest-AtRest up.1 up_rests

-- The signal is taken and the server told to exit before it has built its handle: it serves on.
exit_too_early : (s : Node) × Reach 1 5 s × IsMissed s.rpc
exit_too_early = (
  _,
  advance
      (advance
        (advance (advance (happen start (signal refl)) (take_signal refl)) (rpc_runs (exit refl)))
        (rpc_runs (build refl refl)))
      (rpc_runs (serve refl)),
  record { up = refl; used = refl; left = refl },
)

abbrev conf : RpcConf
conf = record {
  enable_tls = true;
  enable_metric = false;
  enable_endorser = true;
  endorser_module = lit "proxy";
  tls_server_name = lit "n";
  rpc_port = pos 37101;
  metric_port = pos 0;
  max_recv_msg_size = pos 1;
  read_buf_size = pos 1;
  write_buf_size = pos 1;
  init_window_size = pos 1;
  init_conn_window_size = pos 1;
}

-- A certificate file that holds no certificate
abbrev outside : RpcWorld
outside = record {
  tls_file = λ name. name;
  read_file = λ file. ok [];
  append_certs = λ bs. false;
  load_key_pair = λ cert key. ok cert;
  listen = λ port. none;
  serve = λ server. none;
}
