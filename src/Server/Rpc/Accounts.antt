-- ===== src/Server/Rpc/Accounts.antt =====
-- The handlers of service/rpc/api.go that read balances and access control lists.
pub mod Contracts
pub mod Balance
pub mod Acl
use xuperchain.Prelude.{
  Bool, true, false, not, ◌&&◌, ◌||◌, Option, none, some, List, [], ◌∷◌, if◌then◌else◌, ℤ, map,
}
use xuperchain.Go.Text.{Text, is_empty, text_eq}
use xuperchain.Pb.{Header, XChainError}
use xuperchain.Pb.Query.{
  TokenDetail, AddressStatus, TokenFrozenDetail, TokenFrozenDetails, AddressBalanceStatus,
  AclStatus, AddressRequest, Ak2AccountResponse, GetAccountContractsResponse,
  AddressContractsResponse, ContractStatDataResponse,
}
use xuperchain.Server.Convert.{Converted, list, convert_failed, UtxoRecord, utxo_record_to_xchain}
use xuperchain.Server.Convert.Messages.{
  acl_to_xchain, contract_status_list_to_xchain, balance_details_to_xchain,
}
use xuperchain.Server.Handle.{StdError, Outcome, done, failed, new_chain_handle}
use xuperchain.Server.Rpc.{
  Read, Call, Calls, RpcEnv, Answer, Rpc, ◌>>=◌, ◌>>◌, pure, lift, call, run, param, or_fail,
  respond, handle,
}

abbrev pub empty_balances : AddressStatus
empty_balances = record { header = none; address = []; bcs = [] }

abbrev pub empty_details : AddressBalanceStatus
empty_details = record { header = none; address = []; tfds = [] }

abbrev pub empty_acl : AclStatus
empty_acl = record {
  header = none;
  bcname = [];
  account_name = [];
  contract_name = [];
  method_name = [];
  confirmed = false;
  acl = none;
}

abbrev pub token_detail : Text → Outcome Text → TokenDetail
token_detail name (done balance) = record {
  bcname = name;
  balance = balance;
  error = XChainError.success;
}
token_detail name (failed e) = record {
  bcname = name;
  balance = [];
  error = XChainError.unknow_error;
}

module _ (env : RpcEnv) where
  -- The loops of `GetBalance` and `GetFrozenBalance`, by the query that they make on a chain
  module _ (reading : Text → Read) (query : Calls → Text → Text → Outcome Text) where
    abbrev pub balance_at : Text → Text → Outcome Text → Calls → TokenDetail × Calls
    balance_at address name (failed e) h =
        (record { bcname = name; balance = []; error = XChainError.blockchain_notexist }, h)
    balance_at address name (done chain) h =
        (token_detail name (query h chain address), Call.read chain (reading address) ∷ h)

    unfoldable pub balances : Text → List TokenDetail → Calls → List TokenDetail × Calls
    balances address [] h = ([], h)
    balances address (t ∷ ts) h =
        let (entry, k) =
          balance_at address t.bcname (new_chain_handle (env.chain h t.bcname) t.bcname) h in
        let (rest, k') = balances address ts k in (entry ∷ rest, k')

    unfoldable pub balance_steps : Option AddressStatus → Rpc AddressStatus
    balance_steps req = do
      status ← lift (or_fail req StdError.err_parameter)
      param (not (is_empty status.address))
      bcs ← run (balances status.address status.bcs)
      pure (record { header = none; address = status.address; bcs = bcs })

  -- `GetBalance`
  unfoldable pub get_balance : Option AddressStatus → Calls → Answer AddressStatus × Calls
  get_balance req = respond empty_balances (balance_steps Read.get_balance env.get_balance req)

  -- `GetFrozenBalance`
  unfoldable pub get_frozen_balance : Option AddressStatus → Calls → Answer AddressStatus × Calls
  get_frozen_balance req =
      respond empty_balances (balance_steps Read.get_frozen_balance env.get_frozen_balance req)

  -- A list that fails to convert is nil, and the error beside it is overwritten.
  abbrev pub details_or_nil : Converted TokenFrozenDetail → List TokenFrozenDetail
  details_or_nil convert_failed = []
  details_or_nil (list none) = []
  details_or_nil (list (some details)) = details

  abbrev pub frozen_details : Text → Outcome (Option (List (Option Text))) → TokenFrozenDetails
  frozen_details name (failed e) = record {
    bcname = name;
    tfd = [];
    error = XChainError.unknow_error;
  }
  frozen_details name (done details) = record {
    bcname = name;
    tfd = details_or_nil (balance_details_to_xchain env.balance_detail_wire details);
    error = XChainError.success;
  }

  abbrev pub detail_at : Text → Text → Outcome Text → Calls → TokenFrozenDetails × Calls
  detail_at address name (failed e) h =
      (record { bcname = name; tfd = []; error = XChainError.blockchain_notexist }, h)
  detail_at address name (done chain) h = (
    frozen_details name (env.get_balance_detail h chain address),
    Call.read chain (Read.get_balance_detail address) ∷ h,
  )

  unfoldable pub details : Text → List TokenFrozenDetails → Calls → List TokenFrozenDetails × Calls
  details address [] h = ([], h)
  details address (t ∷ ts) h =
      let (entry, k) =
        detail_at address t.bcname (new_chain_handle (env.chain h t.bcname) t.bcname) h in
      let (rest, k') = details address ts k in (entry ∷ rest, k')

  unfoldable pub balance_detail_steps : Option AddressBalanceStatus → Rpc AddressBalanceStatus
  balance_detail_steps req = do
    status ← lift (or_fail req StdError.err_parameter)
    param (not (is_empty status.address))
    tfds ← run (details status.address status.tfds)
    pure (record { header = none; address = status.address; tfds = tfds })

  -- `GetBalanceDetail`
  unfoldable pub get_balance_detail :
      Option AddressBalanceStatus → Calls → Answer AddressBalanceStatus × Calls
  get_balance_detail req = respond empty_details (balance_detail_steps req)

  -- An account's list where an account is named, and a method's otherwise
  unfoldable pub acl_of : AclStatus → Rpc (Option Text)
  acl_of req =
      if not (is_empty req.account_name)
      then call (Call.read req.bcname (Read.account_acl req.account_name))
          (λ h. env.query_account_acl h req.bcname req.account_name)
      else if not (is_empty req.contract_name) && not (is_empty req.method_name)
      then call (Call.read req.bcname (Read.contract_method_acl req.contract_name req.method_name))
          (λ h. env.query_method_acl h req.bcname req.contract_name req.method_name)
      else pure none

  -- The answer for what was found and for its converted form
  abbrev pub confirmed_acl : AclStatus → Option Text → Option Text → Outcome AclStatus
  confirmed_acl req none converted = done empty_acl
  confirmed_acl req (some found) none = failed StdError.err_internal
  confirmed_acl req (some found) (some acl) = done (record {
    header = none;
    bcname = req.bcname;
    account_name = req.account_name;
    contract_name = req.contract_name;
    method_name = req.method_name;
    confirmed = true;
    acl = some acl;
  })

  unfoldable pub query_acl_steps : Option AclStatus → Rpc AclStatus
  query_acl_steps req = do
    status ← lift (or_fail req StdError.err_parameter)
    param (not (is_empty status.bcname))
    param (
        not (
          is_empty status.account_name
          && (is_empty status.contract_name || is_empty status.method_name)))
    handle env status.bcname
    found ← acl_of status
    lift (confirmed_acl status found (acl_to_xchain env.acl_wire found))

  -- `QueryACL`
  unfoldable pub query_acl : Option AclStatus → Calls → Answer AclStatus × Calls
  query_acl req = respond empty_acl (query_acl_steps req)
