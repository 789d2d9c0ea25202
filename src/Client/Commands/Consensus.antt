-- ===== src/Client/Commands/Consensus.antt =====
-- cmd/client/cmd/consensus_invoke.go: calls of the kernel contract of the consensus.
use xuperchain.Prelude.{Bool, true, Option, none, some, [], ◌∷◌, ◌++◌, not, ◌||◌, if◌then◌else◌}
use xuperchain.Go.Text.{Text, lit, is_empty, text_eq}
use xuperchain.Exec.{Failure, Message, ok, Effect, Io, ◌>>=◌, ◌>>◌, pure, lift, ask, guard, or_fail}
use xuperchain.Client.Trans.{CommTrans}
use xuperchain.Client.Keys.{read_address}
use xuperchain.Client.Requests.{draw_log_id}
use xuperchain.Client.Commands.{
  CommandEnv, Cli, JsonArgs, cli_trans, entries, convert_to_xuper3_args, query, submit,
}

pub record ConsensusFlags : Type 0 where
  pub bucket : Text
  pub method : Text
  pub desc_file : Text
  pub account : Text
  pub fee : Text
  pub is_multi : Bool
  pub multi_addrs : Text
  pub output : Text

-- `args[key] = value`
unfoldable pub put : Text → Text → JsonArgs → JsonArgs
put key value [] = (key, some value) ∷ []
put key value ((k, v) ∷ args) =
    let rest = put key value args in if text_eq k key then (k, some value) ∷ args else (k, v) ∷ rest

-- The entries of `invokeMap`
pub data Invoker : Type 0 where
  tdpos_invoker xpoa_invoker : Invoker

unfoldable pub invoker_of : Text → Option Invoker
invoker_of bucket =
    if text_eq bucket (lit "tdpos") || text_eq bucket (lit "xpos")
    then some Invoker.tdpos_invoker
    else if text_eq bucket (lit "poa") || text_eq bucket (lit "xpoa")
    then some Invoker.xpoa_invoker
    else none

module _ (c : CommandEnv) (cli : Cli) (f : ConsensusFlags) where
  -- The literal of `invoke`, which has no `RootOptions`
  abbrev pub consensus_trans : CommTrans
  consensus_trans = record (cli_trans c cli) {
    from = f.account;
    module_name = lit "xkernel";
    contract_name = lit "$" ++ f.bucket;
    method_name = f.method;
    multi_addrs = f.multi_addrs;
    is_quick = f.is_multi;
    fee = f.fee;
    output = f.output;
  }

  unfoldable pub read_desc_args : Io (Option JsonArgs)
  read_desc_args = do
    desc ← ask (Effect.read_file f.desc_file) (λ h. c.env.read_file h f.desc_file)
    lift (c.unmarshal_args desc)

  -- The address that stands in for a missing account: it is read, and its error dropped, but the
  -- `CommTrans` is already made without it.
  unfoldable pub read_unused_address : Io (Unit {0})
  read_unused_address h =
      if is_empty f.account then (ok tt, (read_address c.env cli.keys h).1) else (ok tt, h)

  -- `tdposInvoke` of a method that writes, up to its end
  unfoldable pub fill_tdpos : Io CommTrans
  fill_tdpos = do
    guard (not (is_empty f.desc_file)) (Failure.said Message.tdpos_needs_desc)
    args ← read_desc_args
    converted ← lift (convert_to_xuper3_args (entries args))
    to ← read_address c.env cli.keys
    read_unused_address
    pure (record consensus_trans { args = converted; to = to })

  -- What `xpoaInvoke` takes from the access control list
  abbrev with_acl : JsonArgs → Text → Text × Text → JsonArgs
  with_acl args weights pm =
      put (lit "rule") pm.1 (put (lit "acceptValue") pm.0 (put (lit "aksWeight") weights args))

  -- `xpoaInvoke` of a method that writes, up to its end
  unfoldable pub fill_xpoa : Io CommTrans
  fill_xpoa = do
    guard (not (is_empty f.account)) (Failure.said Message.xpoa_needs_account)
    logid ← draw_log_id c.env
    reply ← ask (Effect.query_acl cli.name f.account) (λ h. c.query_acl h cli.name f.account)
    args ← read_desc_args
    acl ← or_fail reply (Failure.said Message.acl_error)
    weights ← lift (c.marshal_weights acl.aks_weight)
    -- a nil map cannot be written to
    known ← or_fail args Failure.panic
    pm ← or_fail acl.pm (Failure.said Message.acl_error)
    converted ← lift (convert_to_xuper3_args (with_acl known weights pm))
    to ← read_address c.env cli.keys
    pure (record consensus_trans { args = converted; to = to; from = f.account })

  -- `tdposInvoke`
  unfoldable pub tdpos_invoke : Io Text
  tdpos_invoke =
      if text_eq f.method (lit "getTdposInfos")
      then query c consensus_trans
      else fill_tdpos >>= submit c f.is_multi

  -- `xpoaInvoke`
  unfoldable pub xpoa_invoke : Io Text
  xpoa_invoke =
      if text_eq f.method (lit "getValidates")
      then query c consensus_trans
      else fill_xpoa >>= submit c true

  -- `invoke`: an unknown consensus is printed, and is no error.
  unfoldable pub invoke : Io Text
  invoke = elim (invoker_of f.bucket) [
    | none ↦ pure []
    | some tdpos_invoker ↦ tdpos_invoke
    | some xpoa_invoker ↦ xpoa_invoke
  ]
