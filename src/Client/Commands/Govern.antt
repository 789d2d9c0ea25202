-- ===== src/Client/Commands/Govern.antt =====
-- cmd/client/cmd/account_new.go, proposal_propose.go, proposal_vote.go, proposal_thaw.go,
-- proposal_query.go, govern_token_init.go, govern_token_transfer.go and govern_token_query.go
use xuperchain.Prelude.{
  Bool, none, some, List, [], ◌∷◌, ◌++◌, not, ◌&&◌, ◌||◌, if◌then◌else◌, ℤ, leb_ℤ,
}
use xuperchain.Go.Text.{Text, lit, is_empty, text_eq}
use xuperchain.Go.Decimal.{set_string}
use xuperchain.Pb.Chain.{BcStatus}
use xuperchain.Exec.{
  Failure, Message, Result, ok, err, Effect, Io, ◌>>=◌, ◌>>◌, pure, lift, ask, guard, or_fail,
}
use xuperchain.Client.Trans.{CommTrans}
use xuperchain.Client.Keys.{read_address}
use xuperchain.Client.Commands.{CommandEnv, Cli, zero_trans, cli_trans, query}

-- `simpleACL`: the key of the creator alone has the weight that is asked for
abbrev pub simple_acl : Text → Text
simple_acl to =
    lit
      "\n        {\n            \"pm\": {\n                \"rule\": 1,\n                \"acceptValue\": 1.0\n            },\n            \"aksWeight\": {\n                \""
    ++ to
    ++ lit "\": 1.0\n            }\n        }\n        "

-- The loop over the chains: the first one of that name decides.
unfoldable pub check_stop_height : Text → ℤ → List BcStatus → Result (Unit {0})
check_stop_height bcname stop [] = ok tt
check_stop_height bcname stop (s ∷ statuses) =
    let rest = check_stop_height bcname stop statuses in
    if text_eq s.bcname bcname
    then (elim s.meta [
      | none ↦ err Failure.panic
      | some meta ↦
          if leb_ℤ stop meta.trunk_height
          then err (Failure.said Message.stop_height_too_low)
          else ok tt
    ])
    else rest

module _ (c : CommandEnv) (cli : Cli) where
  -- The literal of these commands, with `RootOptions` or without it
  abbrev plain_trans : Text → Text → CommTrans
  plain_trans method fee = record (cli_trans c cli) { method_name = method; fee = fee }

  abbrev rooted_trans : Text → Text → CommTrans
  rooted_trans method fee = record (plain_trans method fee) {
    compliance_check = cli.compliance_check;
  }

  abbrev on_kernel : Text → Text → List (Text × Text) → CommTrans → CommTrans
  on_kernel contract to args t = record t {
    module_name = lit "xkernel";
    contract_name = contract;
    to = to;
    args = args;
  }

  abbrev with_acl : Text → Text → CommTrans → CommTrans
  with_acl account_name to t =
      if is_empty account_name
      then record t { to = to }
      else on_kernel (lit "$acl") to
          ((lit "account_name", account_name) ∷ (lit "acl", simple_acl to) ∷ []) t

  -- `newAccount`, up to its transfer
  unfoldable pub fill_new_account : Text → Text → Text → Bool → Io CommTrans
  fill_new_account account_name descfile fee debug = do
    guard (not (is_empty descfile && is_empty account_name))
        (Failure.said Message.account_name_required)
    to ← read_address c.env cli.keys
    pure (
        with_acl account_name to
          (record (rooted_trans (lit "NewAccount") fee) { descfile = descfile; debug_tx = debug }))

  -- `getProposal`
  unfoldable pub get_proposal : Text → Io Text
  get_proposal file =
      if is_empty file
      then pure (lit "no proposal")
      else ask (Effect.read_file file) (λ h. c.env.read_file h file)

  -- `validateProposal`
  unfoldable pub validate_proposal : Text → Io (Unit {0})
  validate_proposal proposal = do
    text ← lift (c.unmarshal_stop_height proposal)
    reply ← ask Effect.get_system_status c.get_system_status
    stop ← or_fail (set_string text) (Failure.said Message.invalid_stop_height)
    status ← or_fail reply Failure.panic
    lift (check_stop_height cli.name stop status.bcs_status)

  -- `proposeProposal`, up to its transfer
  unfoldable pub fill_propose : Text → Text → Io CommTrans
  fill_propose file fee = do
    to ← read_address c.env cli.keys
    proposal ← get_proposal file
    validate_proposal proposal
    pure (
        on_kernel (lit "$proposal") to ((lit "proposal", proposal) ∷ [])
          (rooted_trans (lit "Propose") fee))

  -- `voteProposal`, up to its transfer: its literal has no `RootOptions`
  unfoldable pub fill_vote_proposal : Text → Text → Text → Io CommTrans
  fill_vote_proposal proposal_id amount fee = do
    to ← read_address c.env cli.keys
    guard (not (is_empty proposal_id || is_empty amount))
        (Failure.said Message.proposal_id_required)
    pure (
        on_kernel (lit "$proposal") to
          ((lit "proposal_id", proposal_id) ∷ (lit "amount", amount) ∷ [])
          (plain_trans (lit "Vote") fee))

  -- `thawProposal`, up to its transfer
  unfoldable pub fill_thaw : Text → Text → Io CommTrans
  fill_thaw proposal_id fee = do
    to ← read_address c.env cli.keys
    guard (not (is_empty proposal_id)) (Failure.said Message.proposal_id_required)
    pure (
        on_kernel (lit "$proposal") to ((lit "proposal_id", proposal_id) ∷ [])
          (rooted_trans (lit "Thaw") fee))

  -- `initGovernToken`, up to its transfer: its literal has no `RootOptions`
  unfoldable pub fill_init_govern_token : Text → Io CommTrans
  fill_init_govern_token fee = do
    to ← read_address c.env cli.keys
    pure (on_kernel (lit "$govern_token") to [] (plain_trans (lit "Init") fee))

  -- `transferGovernToken`, up to its transfer
  unfoldable pub fill_transfer_govern_token : Text → Text → Text → Io CommTrans
  fill_transfer_govern_token receiver amount fee = do
    to ← read_address c.env cli.keys
    let t = rooted_trans (lit "Transfer") fee
    pure (
        if is_empty receiver
        then record t { to = to }
        else on_kernel (lit "$govern_token") to ((lit "to", receiver) ∷ (lit "amount", amount) ∷ [])
            t)

  abbrev query_trans : Text → Text → Bool → Text → List (Text × Text) → CommTrans
  query_trans contract method is_multi multi_addrs args = record zero_trans {
    module_name = lit "xkernel";
    contract_name = contract;
    method_name = method;
    args = args;
    is_quick = is_multi;
    keys = cli.keys;
    multi_addrs = multi_addrs;
    chain_name = cli.name;
  }

  -- `query` of the governance token, whose contract is named by xupercore
  unfoldable pub query_govern_token : Text → Text → Bool → Text → Io Text
  query_govern_token kernel_contract account is_multi multi_addrs = do
    guard (not (is_empty account)) (Failure.said Message.no_account)
    query c (
        query_trans kernel_contract (lit "Query") is_multi multi_addrs
          ((lit "account", account) ∷ []))

  -- `query` of a proposal
  unfoldable pub query_proposal : Text → Text → Bool → Text → Io Text
  query_proposal kernel_contract proposal_id is_multi multi_addrs = do
    guard (not (is_empty proposal_id)) (Failure.said Message.no_proposal_id)
    query c (
        query_trans kernel_contract (lit "Query") is_multi multi_addrs
          ((lit "proposal_id", proposal_id) ∷ []))
