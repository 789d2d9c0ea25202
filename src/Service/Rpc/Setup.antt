-- ===== src/Service/Rpc/Setup.antt =====
-- What a grpc server that ran without an error served, and how.
use xuperchain.Prelude.{Bool, true, false, none, some, List, [], ◌∷◌, ◌≡◌, ◌⊎◌}
use xuperchain.Go.Text.{Text, lit}
use xuperchain.Exec.{ok}
use xuperchain.Server.Endorser.Proxy.{Endorser, new_endorser_service}
use xuperchain.Service.Rpc.{
  RpcConf, ServerOption, creds, Registered, xchain, event_service, xendorser, GrpcServer, RpcWorld,
  RpcRun,
}

-- Whether the server asks for TLS: the last credentials count, and nil is none.
abbrev pub is_secured : List ServerOption → Bool
is_secured [] = false
is_secured (creds (some c) ∷ []) = true
is_secured (option ∷ options) = is_secured options

abbrev pub IsServed : Registered → List Registered → Type 0
IsServed s [] = ⊥
IsServed s (t ∷ ts) = (s ≡ t) ⊎ IsServed s ts

module _ (cfg : RpcConf) (world : RpcWorld) where
  -- The file of the certificates holds none.
  abbrev pub HasNoCerts : Type 0
  HasNoCerts =
      (bs : Text) × (world.read_file (world.tls_file (lit "cert.crt")) ≡ ok bs)
      × (world.append_certs bs ≡ false)

  -- A server that ran to its end without an error: what it is made of.
  pub record IsServing (r : RpcRun) : Type 0 where
    pub server : GrpcServer
    pub started : r.handle ≡ some server
    pub open_port : world.listen cfg.rpc_port ≡ none
    pub ran : world.serve server ≡ none
    pub has_xchain : IsServed xchain server.services
    pub has_events : IsServed event_service server.services
    pub endorses :
        cfg.enable_endorser ≡ true
        → (kind : Endorser) × (new_endorser_service cfg.endorser_module ≡ ok kind)
          × IsServed (xendorser kind) server.services
    pub endorses_only :
        cfg.enable_endorser ≡ false
        → (kind : Endorser) → IsServed (xendorser kind) server.services
        → ⊥
    pub secured : cfg.enable_tls ≡ true → (is_secured server.options ≡ true) ⊎ HasNoCerts
    pub in_clear : cfg.enable_tls ≡ false → is_secured server.options ≡ false

  -- What the options say of TLS.
  record IsTls (options : List ServerOption) : Type 0 where
    secured : cfg.enable_tls ≡ true → (is_secured options ≡ true) ⊎ HasNoCerts
    in_clear : cfg.enable_tls ≡ false → is_secured options ≡ false

  -- What a server that is ready to listen is made of.
  record IsMade (s : GrpcServer) : Type 0 where
    tls : IsTls s.options
    has_xchain : IsServed xchain s.services
    has_events : IsServed event_service s.services
    endorses :
        cfg.enable_endorser ≡ true
        → (kind : Endorser) × (new_endorser_service cfg.endorser_module ≡ ok kind)
          × IsServed (xendorser kind) s.services
    endorses_only :
        cfg.enable_endorser ≡ false → (kind : Endorser) → IsServed (xendorser kind) s.services → ⊥
