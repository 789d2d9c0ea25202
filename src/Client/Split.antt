-- ===== src/Client/Split.antt =====
-- cmd/client/cmd/utxo_split.go: cut a balance into equal outputs of one account.

pub mod Shares
pub mod Balance
use xuperchain.Prelude.{
  Bool, true, false, not, ◌&&◌, Option, none, some, List, [], ◌∷◌, ◌++◌, if◌then◌else◌, ℕ, zero,
  suc, ◌-◌, ◌/◌, ltb, ℤ, pos, negsuc, leb_ℤ, pos_part, abs,
}
use xuperchain.Go.Text.{Text, is_empty, text_eq}
use xuperchain.Go.Decimal.{set_string}
use xuperchain.Pb.{
  Transaction, TxInput, TxOutput, InvokeRpcRequest, InvokeRpcResponse, InvokeResponse,
  InvokeRequest, Header, XChainError,
}
use xuperchain.Exec.{
  Failure, Message, Result, ok, err, Effect, Io, ◌>>=◌, ◌>>◌, pure, raise, lift, ask, wrap, replace,
  guard, or_fail,
}
use xuperchain.Client.Env.{Env}
use xuperchain.Client.Trans.{CommTrans, ComplianceCheck}
use xuperchain.Client.Keys.{read_address, gen_auth_requirement, make_tx_id}
use xuperchain.Client.Inputs.{gen_tx_inputs, plain_output, one_or_none}
use xuperchain.Client.Requests.{draw_log_id, gen_auth_require}
use xuperchain.Client.RawTx.{
  empty_tx, draw_nonce, read_clock, sign_tx_for_initiator, sign_tx, post_tx, gen_tx_file,
  with_contract,
}

-- `SplitUtxoCommand`, with the root options that it uses
pub record SplitUtxoCommand : Type 0 where
  pub account : Text
  pub num : ℤ
  pub account_path : Text
  pub is_gen_raw_tx : Bool
  pub multi_addrs : Text
  pub output : Text
  pub name : Text
  pub keys : Text
  pub crypto : Text

abbrev pub requests_of : Option InvokeResponse → List InvokeRequest
requests_of none = []
requests_of (some res) = res.requests

-- The loop of `genSplitOutputs`: `left` rounds remain, and what `rest` points to shrinks.
unfoldable pub split_loop : Text → ℤ → ℕ → ℕ → List TxOutput × ℕ
split_loop account amount zero rest = ([], rest)
split_loop account amount (suc left) rest =
    let more = split_loop account amount left (rest - abs amount) in
    if ltb (abs amount) rest then (plain_output account amount ∷ more.0, more.1) else ([], rest)

-- `genSplitOutputs`, for a number of shares that `splitUtxo` has found positive
unfoldable pub gen_split_outputs : Text → ℕ → ℤ → Result (List TxOutput)
unfolding split_loop
gen_split_outputs account num (negsuc n) = err (Failure.said Message.illegal_split_utxo)
gen_split_outputs account num (pos total_need) =
    if ltb total_need num
    then err (Failure.said Message.illegal_split_utxo)
    else let amount = pos (total_need / num) in
      let (outs, rest) = split_loop account amount (num - 1) total_need in
      ok (outs ++ plain_output account (pos rest) ∷ [])

-- `SetUpAccount`: the account to split, by what it is
abbrev check_account : SplitUtxoCommand → Text → Text → Option Bool → Result Text
check_account c initiator account none = err (Failure.said Message.empty_account)
check_account c initiator account (some true) =
    if is_empty c.account_path then err (Failure.said Message.account_path_required) else ok account
check_account c initiator account (some false) =
    if text_eq account initiator then ok account else err (Failure.said Message.parse_account_error)

abbrev pub no_compliance : ComplianceCheck
no_compliance = record {
  is_need_compliance_check = false;
  endorse_service_fee = pos 0;
  endorse_service_fee_addr = [];
  endorse_service_addr = [];
}

abbrev first_balance : List Text → Result Text
first_balance [] = err Failure.panic
first_balance (balance ∷ _) = ok balance

module _ (env : Env) where
  unfoldable pub set_up_account : SplitUtxoCommand → Text → Result Text
  set_up_account c initiator =
      let account = if is_empty c.account then initiator else c.account in
      check_account c initiator account (env.address_type account)

  -- `getBalanceHelper`
  unfoldable pub get_balance_helper : SplitUtxoCommand → Text → Io Text
  get_balance_helper c account = do
    balances ← ask (Effect.get_balance c.name account) (λ h. env.get_balance h c.name account)
    lift (first_balance balances)

  -- `baseCommonTrans`
  unfoldable pub split_trans : SplitUtxoCommand → Text → Text → CommTrans
  split_trans c account amount = record {
    to = [];
    amount = amount;
    descfile = [];
    fee = [];
    frozen_height = pos 0;
    version = env.tx_version;
    from = account;
    module_name = [];
    contract_name = [];
    method_name = [];
    args = [];
    multi_addrs = c.multi_addrs;
    output = c.output;
    is_quick = false;
    is_print = false;
    chain_name = c.name;
    keys = c.keys;
    crypto_type = c.crypto;
    compliance_check = no_compliance;
    debug_tx = false;
  }

  unfoldable pub base_common_trans : SplitUtxoCommand → Text → Io (CommTrans × ℤ)
  base_common_trans c account = do
    amount ← get_balance_helper c account
    total_need ← or_fail (set_string amount) (Failure.said Message.get_total_need_error)
    pure (split_trans c account amount, total_need)

  -- The pre-execution of no contract, which both commands on utxos make
  unfoldable pub pre_exec_nothing : Text → Text → List Text → Io (Option InvokeResponse)
  pre_exec_nothing name initiator auth = do
    logid ← draw_log_id env
    let request : InvokeRpcRequest = record {
      header = some (record { logid = logid; from_node = []; error = XChainError.success });
      bcname = name;
      requests = [];
      initiator = initiator;
      auth_require = auth;
    }
    res ← ask (Effect.pre_exec request) (λ h. env.pre_exec h request)
    pure res.response

  -- The last steps of both commands: sign, fill in the id, post
  unfoldable pub sign_and_post : CommTrans → Text → Text → Transaction → Io Text
  sign_and_post ct path name tx = do
    initiator_signs ← sign_tx_for_initiator env ct tx
    let initiated : Transaction = record tx { initiator_signs = initiator_signs }
    auth_signs ← sign_tx env ct initiated path
    let signed : Transaction = record initiated { auth_require_signs = auth_signs }
    txid ← lift (make_tx_id env signed)
    post_tx env name (record signed { txid = txid })

  -- The middle of `splitUtxo`: the inputs, the shares, the authorisations and the pre-execution
  unfoldable pub fill_split :
      SplitUtxoCommand
      → ℕ
      → Text
      → Text
      → CommTrans × ℤ
      → Transaction
      → Io (CommTrans × Transaction)
  fill_split c num initiator account (ct, total_need) tx = do
    spent ← gen_tx_inputs env ct total_need
    outs ← lift (gen_split_outputs account num total_need)
    auth ← wrap Message.auth_requirement_error (
        if c.is_gen_raw_tx
        then gen_auth_require env c.multi_addrs
        else gen_auth_requirement env account c.account_path)
    res ← pre_exec_nothing c.name initiator auth
    pure (
      ct,
      with_contract res (requests_of res) (record tx {
        tx_inputs = spent.0;
        tx_outputs = outs ++ one_or_none spent.1;
        auth_require = auth;
      }),
    )

  -- The transaction of `splitUtxo`, before it is signed or written to a file
  unfoldable pub split_tx : SplitUtxoCommand → ℕ → Text → Text → Io (CommTrans × Transaction)
  split_tx c num initiator account = do
    nonce ← draw_nonce env
    timestamp ← read_clock env
    base ← base_common_trans c account
    fill_split c num initiator account base (record empty_tx {
      version = env.tx_version;
      nonce = nonce;
      timestamp = timestamp;
      initiator = initiator;
    })

  -- A raw transaction goes to a file, any other is signed and posted.
  unfoldable pub finish_split : SplitUtxoCommand → CommTrans × Transaction → Io Text
  finish_split c (ct, tx) =
      if c.is_gen_raw_tx
      then gen_tx_file env ct tx >>= (λ _. pure [])
      else sign_and_post ct c.account_path c.name tx

  -- `splitUtxo`; the id of the posted transaction, or nothing where a file is written
  unfoldable pub split_utxo : SplitUtxoCommand → Io Text
  split_utxo c = do
    guard (not (leb_ℤ c.num (pos 0))) (Failure.said Message.illegal_split_num)
    initiator ← wrap Message.read_init_ak_error (read_address env c.keys)
    account ← lift (set_up_account c initiator)
    made ← split_tx c (pos_part c.num) initiator account
    finish_split c made
