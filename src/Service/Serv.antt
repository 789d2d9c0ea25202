-- ===== src/Service/Serv.antt =====
-- One server of the node, `RpcServMG` of service/rpc/manage.go or `Gateway` of
-- service/gateway/gateway.go: both run and exit in the same way. `Run` and `Exit` are called by
-- different goroutines, so they are steps on a shared state.
use xuperchain.Prelude.{Bool, true, false, not, ◌||◌, ◌≡◌, if◌then◌else◌, ℕ, suc, ◌+◌}

-- Where `Run` stands: before the handle (`servHD`, `server`) is set, behind it, in `Serve` or
-- `ListenAndServe`, at its end with the result not yet taken, and when `ServMG.Run` has taken it.
pub data Phase : Type 0 where
  starting built serving ended reported : Phase

pub record Server : Type 0 where
  pub is_init : Bool
  pub phase : Phase
  -- `servHD != nil`, `server != nil`
  pub handle : Bool
  -- `exitOnce` has run.
  pub exit_used : Bool
  -- `GracefulStop` or `Shutdown` was called.
  pub stopped : Bool

-- `NewRpcServMG`, `NewGateway`
abbrev pub new_server : Server
new_server = record {
  is_init = true;
  phase = starting;
  handle = false;
  exit_used = false;
  stopped = false;
}

-- `stopRpcServ`, `stopGateway`
abbrev pub stop_server : Server → Server
stop_server s = record s { stopped = s.handle || s.stopped }

-- `Exit`
abbrev pub exit_server : Server → Server
exit_server s =
    if not s.is_init
    then s
    else if s.exit_used
    then s
    else record (stop_server s) { exit_used = true }

-- A server, with the goroutines that `ServMG.Exit` has started for it and that have not run yet.
pub record Seat : Type 0 where
  pub server : Server
  pub told : ℕ

-- What a server does next of itself. A stopped handle makes `Serve` return.
pub data Must (s : Seat) : Seat → Type 0 where
  not_init :
      s.server.is_init ≡ false
      → s.server.phase ≡ starting
      → Must s (record s { server = record s.server { phase = ended } })
  build :
      s.server.is_init ≡ true
      → s.server.phase ≡ starting
      → Must s (record s { server = record s.server { phase = built; handle = true } })
  serve :
      s.server.phase ≡ built → Must s (record s { server = record s.server { phase = serving } })
  -- `GracefulStop` waits for the calls in progress, which are taken to end.
  finish :
      s.server.phase ≡ serving
      → s.server.stopped ≡ true
      → Must s (record s { server = record s.server { phase = ended } })
  exit : {n : ℕ} → s.told ≡ suc n → Must s (record { server = exit_server s.server; told = n })

-- What may happen to it: an error before the handle is set, behind it, or while it serves.
pub data May (s : Seat) : Seat → Type 0 where
  fail_to_build :
      s.server.phase ≡ starting → May s (record s { server = record s.server { phase = ended } })
  fail_to_serve :
      s.server.phase ≡ built → May s (record s { server = record s.server { phase = ended } })
  fail : s.server.phase ≡ serving → May s (record s { server = record s.server { phase = ended } })

-- One goroutine of `ServMG.Exit`
abbrev pub tell : Seat → Seat
tell s = record s { told = s.told + 1 }

-- The result of `Run` is taken.
abbrev pub report : Seat → Seat
report s = record s { server = record s.server { phase = reported } }

-- `exitOnce` was used up before there was a handle: no later `Exit` stops the server.
pub record IsMissed (s : Seat) : Type 0 where
  pub up : s.server.phase ≡ serving
  pub used : s.server.exit_used ≡ true
  pub left : s.server.stopped ≡ false
