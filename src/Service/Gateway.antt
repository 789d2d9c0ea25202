-- ===== src/Service/Gateway.antt =====
-- service/gateway/gateway.go: the setup of the HTTP gateway, and what it adds to each request.
pub mod Cors
use xuperchain.Prelude.{
  Bool, true, false, not, ◌&&◌, Option, none, some, List, [], ◌∷◌, ℤ, if◌then◌else◌,
}
use xuperchain.Go.Text.{Text, lit, text_eq, is_empty}
use xuperchain.Exec.{Failure, Message}

-- `ServConf`, as far as it is used here
pub record GatewayConf : Type 0 where
  pub enable_endorser : Bool
  pub adapter_allow_cros : Bool
  pub rpc_port : ℤ
  pub gw_port : ℤ

-- A request, by the parts that the gateway reads. A missing header reads as the empty text.
pub record HttpRequest : Type 0 where
  pub method : Text
  pub origin : Text
  pub requested_method : Text

-- The headers that the gateway set, the latest first, and whether the request went on to the handler.
pub record Intercepted : Type 0 where
  pub headers : List (Text × Text)
  pub handled : Bool

abbrev pub allow_origin : Text
allow_origin = lit "Access-Control-Allow-Origin"

abbrev pub allow_headers : Text
allow_headers = lit "Access-Control-Allow-Headers"

abbrev pub allow_methods : Text
allow_methods = lit "Access-Control-Allow-Methods"

-- `preflightHandler`, behind the header of the origin
abbrev pub preflight : List (Text × Text) → List (Text × Text)
preflight headers =
    (allow_methods, lit "GET,HEAD,POST,PUT,DELETE")
    ∷ (allow_headers, lit "Content-Type,Accept")
    ∷ headers

abbrev pub is_preflight : HttpRequest → Bool
is_preflight r = text_eq r.method (lit "OPTIONS") && not (is_empty r.requested_method)

-- `interrupt`
unfoldable pub interrupt : GatewayConf → HttpRequest → Intercepted
interrupt cfg r =
    if cfg.adapter_allow_cros && not (is_empty r.origin)
    then (if is_preflight r
        then record { headers = preflight ((allow_origin, r.origin) ∷ []); handled = false }
        else record { headers = (allow_origin, r.origin) ∷ []; handled = true })
    else record { headers = []; handled = true }

-- How `ListenAndServe` ends: closed by `Shutdown`, or with another error.
pub data Ended : Type 0 where
  server_closed : Ended
  failed : Failure → Ended

pub record GatewayWorld : Type 0 where
  -- `RegisterXchainHandlerFromEndpoint`, `RegisterXendorserHandlerFromEndpoint`, by the port of the
  -- local endpoint
  pub register_xchain : ℤ → Option Failure
  pub register_xendorser : ℤ → Option Failure
  pub listen_and_serve : ℤ → Ended

-- Whether `server` was set, and what `Run` returns.
pub record GatewayRun : Type 0 where
  pub handle : Bool
  pub error : Option Failure

module _ (cfg : GatewayConf) (world : GatewayWorld) where
  abbrev closed : Ended → Option Failure
  closed server_closed = none
  closed (failed e) = some e

  abbrev gateway_serves : Option Failure → GatewayRun
  gateway_serves (some e) = record { handle = false; error = some e }
  gateway_serves none = record {
    handle = true;
    error = closed (world.listen_and_serve cfg.gw_port);
  }

  abbrev gateway_endorses : Option Failure → GatewayRun
  gateway_endorses (some e) = record { handle = false; error = some e }
  gateway_endorses none =
      gateway_serves (if cfg.enable_endorser then world.register_xendorser cfg.rpc_port else none)

  -- `runGateway`
  unfoldable pub run_gateway : GatewayRun
  run_gateway = gateway_endorses (world.register_xchain cfg.rpc_port)

  -- `Run`
  unfoldable pub run : Bool → GatewayRun
  unfolding run_gateway
  run is_init =
      if not is_init
      then record { handle = false; error = some (Failure.said Message.not_init) }
      else run_gateway
