-- ===== src/Service/Rpc.antt =====
-- `runRpcServ` and `newTls` of service/rpc/manage.go: the setup of the grpc server, in its order, up to
-- the end of `Serve`.
pub mod Setup
use xuperchain.Prelude.{
  Bool, true, false, not, Option, none, some, List, [], ◌∷◌, ◌++◌, ℤ, if◌then◌else◌,
}
use xuperchain.Go.Text.{Text, lit}
use xuperchain.Exec.{Failure, Message, Result, ok, err, and_then}
use xuperchain.Server.Endorser.Proxy.{Endorser, new_endorser_service}

-- `ServConf`, as far as it is used here
pub record RpcConf : Type 0 where
  pub enable_tls : Bool
  pub enable_metric : Bool
  pub enable_endorser : Bool
  pub endorser_module : Text
  pub tls_server_name : Text
  pub rpc_port : ℤ
  pub metric_port : ℤ
  pub max_recv_msg_size : ℤ
  pub read_buf_size : ℤ
  pub write_buf_size : ℤ
  pub init_window_size : ℤ
  pub init_conn_window_size : ℤ

pub data Interceptor : Type 0 where
  own_interceptor metric_interceptor : Interceptor

-- `tls.Config`, with the client certificate always required
pub record TlsConfig : Type 0 where
  pub server_name : Text
  pub certificate : Text
  -- both `RootCAs` and `ClientCAs`
  pub cert_pool : Text

pub data ServerOption : Type 0 where
  unary_chain : List Interceptor → ServerOption
  max_recv_msg read_buffer initial_window initial_conn_window write_buffer : ℤ → ServerOption
  -- `grpc.Creds`, which takes nil too
  creds : Option TlsConfig → ServerOption

pub data Registered : Type 0 where
  xchain event_service : Registered
  xendorser : Endorser → Registered

pub record GrpcServer : Type 0 where
  pub options : List ServerOption
  pub services : List Registered
  -- the listener of the metrics, where there is one
  pub metrics : Option ℤ
  -- `reflection.Register`
  pub reflected : Bool

-- What lies outside: files, certificates, sockets, and `Serve`.
pub record RpcWorld : Type 0 where
  pub tls_file : Text → Text
  pub read_file : Text → Result Text
  -- `AppendCertsFromPEM` on a new pool
  pub append_certs : Text → Bool
  pub load_key_pair : Text → Text → Result Text
  pub listen : ℤ → Option Failure
  pub serve : GrpcServer → Option Failure

-- What a run of the server leaves in `servHD`, and what it returns.
pub record RpcRun : Type 0 where
  pub handle : Option GrpcServer
  pub error : Option Failure

module _ (cfg : RpcConf) (world : RpcWorld) where
  abbrev key_pair : Result Text
  key_pair =
      world.load_key_pair (world.tls_file (lit "key.pem")) (world.tls_file (lit "private.key"))

  abbrev tls_config : Text → Text → TlsConfig
  tls_config bs certificate = record {
    server_name = cfg.tls_server_name;
    certificate = certificate;
    cert_pool = bs;
  }

  -- `newTls`: a file without a certificate gives neither credentials nor an error.
  unfoldable pub new_tls : Result (Option TlsConfig)
  new_tls = and_then (world.read_file (world.tls_file (lit "cert.crt"))) (λ bs.
      if not (world.append_certs bs)
      then ok none
      else and_then key_pair (λ certificate. ok (some (tls_config bs certificate))))

  abbrev interceptors : List Interceptor
  interceptors =
      Interceptor.own_interceptor
      ∷ (if cfg.enable_metric then Interceptor.metric_interceptor ∷ [] else [])

  abbrev base_options : List ServerOption
  base_options =
      ServerOption.unary_chain interceptors
      ∷ ServerOption.max_recv_msg cfg.max_recv_msg_size
      ∷ ServerOption.read_buffer cfg.read_buf_size
      ∷ ServerOption.initial_window cfg.init_window_size
      ∷ ServerOption.initial_conn_window cfg.init_conn_window_size
      ∷ ServerOption.write_buffer cfg.write_buf_size
      ∷ []

  -- `rpcOptions`
  unfoldable pub server_options : Result (List ServerOption)
  unfolding new_tls
  server_options =
      if cfg.enable_tls
      then and_then new_tls (λ c. ok (base_options ++ ServerOption.creds c ∷ []))
      else ok base_options

  -- `grpc.NewServer`, with the services that are always there
  abbrev pub with_services : List ServerOption → GrpcServer
  with_services options = record {
    options = options;
    services = Registered.xchain ∷ Registered.event_service ∷ [];
    metrics = none;
    reflected = false;
  }

  abbrev pub register : GrpcServer → Result Endorser → Result GrpcServer
  register s (err e) = err (Failure.said Message.register_endorser_error)
  register s (ok kind) = ok (record s { services = s.services ++ Registered.xendorser kind ∷ [] })

  unfoldable pub register_endorser : GrpcServer → Result GrpcServer
  register_endorser s =
      if cfg.enable_endorser then register s (new_endorser_service cfg.endorser_module) else ok s

  abbrev pub with_metrics : GrpcServer → GrpcServer
  with_metrics s = record s { metrics = if cfg.enable_metric then some cfg.metric_port else none }

  -- `net.Listen` and `Serve`
  abbrev pub listened : GrpcServer → Option Failure → RpcRun
  listened s (some e) = record { handle = some s; error = some (Failure.said Message.listen_error) }
  listened s none =
      let s' : GrpcServer = record s { reflected = true } in
      record { handle = some s'; error = world.serve s' }

  abbrev pub registered : GrpcServer → Result GrpcServer → RpcRun
  registered s (err e) = record { handle = some s; error = some e }
  registered s (ok s') = listened (with_metrics s') (world.listen cfg.rpc_port)

  abbrev pub configured : Result (List ServerOption) → RpcRun
  configured (err e) = record { handle = none; error = some e }
  configured (ok options) =
      registered (with_services options) (register_endorser (with_services options))

  -- `runRpcServ`
  unfoldable pub run_rpc_serv : RpcRun
  unfolding server_options register_endorser
  run_rpc_serv = configured server_options

  -- `Run`
  unfoldable pub run : Bool → RpcRun
  unfolding run_rpc_serv
  run is_init =
      if not is_init
      then record { handle = none; error = some (Failure.said Message.not_init) }
      else run_rpc_serv
