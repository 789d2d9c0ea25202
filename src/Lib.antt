-- ===== src/Lib.antt =====
-- The transactions that the command line client of XuperChain builds, and the parts of the node's
-- service layer that decide for themselves.
--
-- The client (cmd/client/cmd) asks a node for utxos, pre-executes a contract there, builds a
-- transaction from the answers, signs it and posts it. The node's service layer (service/rpc,
-- service/common, models) takes such calls: it locks utxos for their owner, counts the subscribers
-- to its events, and, as an endorser, checks and signs what clients send to it. The ledger, the
-- consensus and the contract machines stand in another repository.
--
-- Prelude holds lists, options, Boolean tests and signed integers over the native numbers. Go models
-- what the code uses of Go's standard library: byte strings, strings.TrimSpace and bufio's lines,
-- strconv and big.Int in decimal, big.Int's bytes, and the wrap of int64. Pb holds the messages of
-- the .proto files of service/pb, those on blocks in Pb.Chain and those of the queries in Pb.Query.
-- Exec is the monad of the client: a run takes the history of the calls that left the process and
-- gives a result or an error, and the longer history; Exec.Yields has one rule for each step of it,
-- to show what a run that returns has made.
--
-- Client.Env has a field for each function outside the repository: files, clock, nonce, gRPC stubs,
-- cryptography, JSON and protobuf. One that takes the history may answer each call differently.
-- Client.Keys models cmd/client/cmd/ak.go, the readers of transfer.go, signatures and authorisations
-- of cli.go, and service/common/utils.go. comm_trans.go is in Client.Outputs (`GenTxOutputs`),
-- Client.Inputs (`GenTxInputs` and its variants), Client.Requests (what is sent to be pre-executed),
-- Client.RawTx (`GenRawTx`, `SendTx`, `postTx`) and Client.Compliance (`GenComplianceCheckTx`,
-- `GenRealTx`, `Transfer`). Client.Split and Client.Merge model utxo_split.go and utxo_merge.go,
-- Client.Transfer the transfer of cli.go, Client.Commands what the commands on contracts, accounts,
-- proposals, the governance token and the consensus fill into a CommTrans (contract_deploy.go,
-- account_new.go, proposal_propose.go, govern_token_transfer.go, consensus_invoke.go and the files
-- beside them), Client.Multisig multisig_gen.go, multisig_send.go, multisig_sign.go, multisig_get.go
-- and multisig_check.go, and Client.Types the forms for printing of types.go.
--
-- Server.Event models service/rpc/event_service.go. The counter is kept under a mutex, so permits
-- and releases are single steps, and Server.Event.Live is a step relation over any order of them.
-- Server.Endorser models `DefaultXEndorser` of service/rpc/endorser_service.go,
-- Server.Endorser.Proxy its `ProxyXEndorser`, where goroutines share a cache and a mutex and move by
-- one access at a time, Server.Handle the utxo locks of models/chain_handle.go, and Server.Convert
-- the messages and lists of service/common/convert.go.
--
-- Server.Rpc models the handlers of service/rpc/api.go. A handler runs with the list of the calls
-- that it has made on the chains, and what a chain answers may depend on it; RpcEnv has the engine,
-- the chains and the wire forms as fields. Submit has `PostTx` and `PreExec`, Select the selections
-- of utxos, Accounts and Blocks the queries; Leads has one rule for each step of a handler, ReadOnly
-- one for each step that only reads. Server.Intercept models the interceptor of service/rpc/rpc.go
-- and the table of service/common/error.go. Node puts the parts together: a client whose calls of
-- `SelectUTXO` reach the intercepted handler of a node, where gRPC hands over the response or else
-- the error.
--
-- Service models how a node starts and stops. Service.Serv has one server with its `Run` and `Exit`
-- (service/rpc/manage.go, service/gateway/gateway.go), Service.Startup the goroutines of
-- cmd/xchain/cmd/startup.go and service/manage.go as a step relation: steps that the node takes of
-- itself stand apart from failures and signals, of which any number may come, fixed at the start.
-- Service.Rpc is `runRpcServ` in its order, Service.Gateway `runGateway` and the headers that the
-- gateway sets. Xchain models the commands on a ledger on disk: cmd/xchain/cmd/pruneledger.go,
-- offlinequery.go and createchains.go, over any ledger and any state.
--
-- Amounts are big.Int, so integers without bounds; int64 sums wrap by Go.Int64. A message field that
-- the code may find nil is an option, and a nil dereference is the error `panic`. The loops are
-- structural; decimal digits and bytes are written on fuel, the number itself, which exceeds its
-- digits. A Go map of counters is an association list. What is printed on the way, and the debug
-- output of a transfer, is left out. Of the ledger's messages those that no handler takes apart are
-- kept as bytes. Not modelled: the registration of flags, the commands that only print the answer of
-- one call, the reading of configuration files, and generated code.
pub mod Prelude
pub mod Go
pub mod Pb
pub mod Exec
pub mod Client
pub mod Server
pub mod Node
pub mod Service
pub mod Xchain
pub mod Tests
