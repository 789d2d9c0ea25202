-- ===== src/Service/Gateway/Cors.antt =====
-- Which requests the gateway answers itself, and to whom it opens the node.
use xuperchain.Prelude.{Bool, true, not, ◌&&◌, none, List, [], ◌∷◌, ◌≡◌, arith, if◌then◌else◌}
use xuperchain.Go.Text.{Text, text_eq, is_empty}
use xuperchain.Service.Gateway.{
  GatewayConf, HttpRequest, Intercepted, allow_origin, is_preflight, interrupt, GatewayWorld,
  server_closed, run, run_gateway,
}

-- What the headers open the node to.
abbrev opened_to : Intercepted → List Text
opened_to i = go i.headers
  where
    go : List (Text × Text) → List Text
    go [] = []
    go ((name, value) ∷ headers) =
        let rest = go headers in if text_eq name allow_origin then value ∷ rest else rest

-- With requests from elsewhere forbidden, every request goes to the handler with no header added. With
-- them allowed the node is opened to the very origin that the request names, or to nobody when it names
-- none; a request is kept from the handler just if it is a preflight of an origin.
pub interrupt_lem :
    (cfg : GatewayConf) (r : HttpRequest)
    → (opened_to (interrupt cfg r)
        ≡ (if cfg.adapter_allow_cros && not (is_empty r.origin) then r.origin ∷ [] else []))
      × ((interrupt cfg r).handled
          ≡ not (cfg.adapter_allow_cros && (not (is_empty r.origin) && is_preflight r)))
unfolding interrupt text_eq
interrupt_lem cfg r = ground arith

-- A gateway that ends without an error registered the handlers, those of the endorser too if it is
-- enabled, and was shut down.
pub run-Closed :
    (cfg : GatewayConf) (world : GatewayWorld) (is_init : Bool)
    → (run cfg world is_init).error ≡ none
    → (world.register_xchain cfg.rpc_port ≡ none)
      × (cfg.enable_endorser ≡ true → world.register_xendorser cfg.rpc_port ≡ none)
      × (world.listen_and_serve cfg.gw_port ≡ server_closed)
unfolding run run_gateway
run-Closed cfg world is_init e = ground arith
