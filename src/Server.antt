-- ===== src/Server.antt =====
-- The node's service layer, service/ and models/chain_handle.go.
pub mod Event
pub mod Endorser
pub mod Convert
pub mod Handle
pub mod Rpc
pub mod Intercept
