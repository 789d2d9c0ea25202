-- ===== src/Node.antt =====
-- A client whose node runs the interface of service/rpc/api.go behind the interceptor of
-- service/rpc/rpc.go. gRPC hands a request to the handler, and to the client either the response or,
-- where the handler returns an error, that error alone.
pub mod Transfer
use xuperchain.Prelude.{Option, none, some}
use xuperchain.Go.Text.{Text}
use xuperchain.Pb.{Header, UtxoInput, UtxoOutput}
use xuperchain.Exec.{History, Failure, Result, ok, err}
use xuperchain.Client.Env.{Env}
use xuperchain.Server.Handle.{StdError}
use xuperchain.Server.Intercept.{InterceptEnv, HasHeader, unary_interceptor}
use xuperchain.Server.Rpc.{Calls, RpcEnv, Answer}
use xuperchain.Server.Rpc.Select.{select}

-- The client's request has no header field in the model, which the handler does not read.
abbrev pub input_header : HasHeader UtxoInput
input_header = record { header_of = λ input. none; set_header = λ input header. input }

abbrev pub output_header : HasHeader UtxoOutput
output_header = record {
  header_of = λ outs. outs.header;
  set_header = λ outs header. record outs { header = some header };
}

-- The node, what it has called when the client has the history `h`, and the text of an error
pub record Node : Type 0 where
  pub rpc : RpcEnv
  pub intercept : InterceptEnv
  pub calls : History → Calls
  pub error_text : StdError → Text

abbrev pub delivered : {A : Type 0} → (StdError → Text) → Answer A → Option StdError → Result A
delivered text answer none = ok answer.response
delivered text answer (some e) = err (Failure.outside (text e))

-- `SelectUTXO` of the node, intercepted
unfoldable pub node_select : Node → UtxoInput → Calls → Answer UtxoOutput × Calls
node_select node input h =
    unary_interceptor node.intercept input_header output_header (λ req. select node.rpc (some req))
      input h

-- The environment of a client that asks the node for utxos
unfoldable pub connected : Env → Node → Env
connected env node = record env {
  select_utxo = λ h input.
      let answer = (node_select node input (node.calls h)).0 in
      delivered node.error_text answer answer.error;
}
