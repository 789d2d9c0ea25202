-- ===== src/Service.antt =====
-- How a node's services are started and stopped: cmd/xchain/cmd/startup.go, service/manage.go,
-- service/rpc/manage.go and service/gateway/gateway.go.
pub mod Serv
pub mod Rpc
pub mod Gateway
pub mod Startup
