-- ===== src/Xchain.antt =====
-- The commands of the node's own program, cmd/xchain/cmd, that work on a ledger while the node is down.
pub mod Open
pub mod Prune
pub mod Offline
