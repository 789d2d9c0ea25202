-- ===== src/Tests.antt =====
-- Runs of the modelled code at concrete inputs.
pub mod World
pub mod Client
pub mod Transfer
pub mod Server
pub mod Endorser
pub mod Node
pub mod Rpc
pub mod Connected
pub mod Multisig
pub mod Types
pub mod Proxy
pub mod Service
pub mod Xchain
pub mod Commands
