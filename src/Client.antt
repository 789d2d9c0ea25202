-- ===== src/Client.antt =====
-- The command line client, cmd/client/cmd: the world that it runs in, and the struct that most
-- commands fill in.
pub mod Env
pub mod Trans
pub mod Value
pub mod Keys
pub mod Outputs
pub mod Inputs
pub mod Requests
pub mod RawTx
pub mod Compliance
pub mod Split
pub mod Merge
pub mod Multisig
pub mod Transfer
pub mod Types
pub mod Commands
