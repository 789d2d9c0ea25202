-- ===== src/Server/Rpc/Accounts/Contracts.antt =====
-- The handlers of service/rpc/api.go that read the contracts and the utxo records of accounts.
use xuperchain.Prelude.{not, ◌&&◌, Option, none, some, List, [], ◌∷◌, if◌then◌else◌, ℤ}
use xuperchain.Go.Text.{Text, is_empty, text_eq}
use xuperchain.Pb.{Header}
use xuperchain.Pb.Query.{
  AddressRequest, Ak2AccountResponse, GetAccountContractsResponse, AddressContractsResponse,
  ContractStatDataResponse,
}
use xuperchain.Server.Convert.{Converted, list, convert_failed, UtxoRecord, utxo_record_to_xchain}
use xuperchain.Server.Convert.Messages.{contract_status_list_to_xchain}
use xuperchain.Server.Handle.{StdError, Outcome, done, failed}
use xuperchain.Server.Rpc.{
  Read, Call, Calls, RpcEnv, Answer, Rpc, ◌>>=◌, ◌>>◌, pure, lift, call, run, param, or_fail,
  respond, handle,
}

-- `UtxoRecordDetail`
pub record UtxoRecordDetail : Type 0 where
  pub header : Option Header
  pub bcname : Text
  pub account_name : Text
  pub open_utxo_record : Option UtxoRecord
  pub locked_utxo_record : Option UtxoRecord
  pub frozen_utxo_record : Option UtxoRecord
  pub display_count : ℤ

-- The contracts by account: a later write to an account replaces an earlier one.
unfoldable pub put : Text → List Text → List (Text × List Text) → List (Text × List Text)
put account contracts [] = (account, contracts) ∷ []
put account contracts (entry ∷ rest) =
    let replaced = put account contracts rest in
    if text_eq entry.0 account then (account, contracts) ∷ rest else entry ∷ replaced

module _ (env : RpcEnv) where
  abbrev pub some_contracts : Converted Text → Outcome (List Text)
  some_contracts (list (some contracts)) = done contracts
  some_contracts (list none) = failed StdError.err_internal
  some_contracts convert_failed = failed StdError.err_internal

  abbrev pub empty_contracts : GetAccountContractsResponse
  empty_contracts = record { header = none; contracts_status = [] }

  unfoldable pub get_account_contracts_steps :
      Option AddressRequest → Rpc GetAccountContractsResponse
  get_account_contracts_steps req = do
    request ← lift (or_fail req StdError.err_parameter)
    param (not (is_empty request.bcname) && not (is_empty request.address))
    handle env request.bcname
    res ←
        call (Call.read request.bcname (Read.account_contracts request.address))
          (λ h. env.get_account_contracts h request.bcname request.address)
    contracts ← lift (some_contracts (contract_status_list_to_xchain env.contract_status_wire res))
    pure (record { header = none; contracts_status = contracts })

  -- `GetAccountContracts`
  unfoldable pub get_account_contracts :
      Option AddressRequest → Calls → Answer GetAccountContractsResponse × Calls
  get_account_contracts req = respond empty_contracts (get_account_contracts_steps req)

  abbrev pub empty_accounts : Ak2AccountResponse
  empty_accounts = record { header = none; bcname = []; account = [] }

  -- Where there are no accounts, the response stays empty and there is no error.
  abbrev pub accounts_found : Text → Option (List Text) → Ak2AccountResponse
  accounts_found bcname none = empty_accounts
  accounts_found bcname (some accounts) = record {
    header = none;
    bcname = bcname;
    account = accounts;
  }

  unfoldable pub get_account_by_ak_steps : Option AddressRequest → Rpc Ak2AccountResponse
  get_account_by_ak_steps req = do
    request ← lift (or_fail req StdError.err_parameter)
    param (not (is_empty request.bcname) && not (is_empty request.address))
    handle env request.bcname
    accounts ←
        call (Call.read request.bcname (Read.account_by_ak request.address))
          (λ h. env.get_account_by_ak h request.bcname request.address)
    pure (accounts_found request.bcname accounts)

  -- `GetAccountByAK`
  unfoldable pub get_account_by_ak :
      Option AddressRequest → Calls → Answer Ak2AccountResponse × Calls
  get_account_by_ak req = respond empty_accounts (get_account_by_ak_steps req)

  abbrev pub empty_address_contracts : AddressContractsResponse
  empty_address_contracts = record { header = none; contracts = [] }

  abbrev pub converted_contracts :
      Text → Converted Text → List (Text × List Text) → List (Text × List Text)
  converted_contracts account (list (some contracts)) found = put account contracts found
  converted_contracts account (list none) found = found
  converted_contracts account convert_failed found = found

  -- An account whose contracts cannot be read or converted, or that has none, is passed over.
  abbrev pub add_contracts :
      Text
      → Outcome (Option (List (Option Text)))
      → List (Text × List Text)
      → List (Text × List Text)
  add_contracts account (failed e) found = found
  add_contracts account (done none) found = found
  add_contracts account (done (some [])) found = found
  add_contracts account (done (some (c ∷ cs))) found =
      converted_contracts account
        (contract_status_list_to_xchain env.contract_status_wire (some (c ∷ cs))) found

  unfoldable pub contracts_of_accounts :
      Text → List Text → List (Text × List Text) → Calls → List (Text × List Text) × Calls
  unfolding put
  contracts_of_accounts bcname [] found h = (found, h)
  contracts_of_accounts bcname (account ∷ accounts) found h =
      contracts_of_accounts bcname accounts
        (add_contracts account (env.get_account_contracts h bcname account) found)
        (Call.read bcname (Read.account_contracts account) ∷ h)

  abbrev pub or_no_accounts : Option (List Text) → List Text
  or_no_accounts none = []
  or_no_accounts (some accounts) = accounts

  unfoldable pub get_address_contracts_steps : Option AddressRequest → Rpc AddressContractsResponse
  get_address_contracts_steps req = do
    request ← lift (or_fail req StdError.err_parameter)
    param (not (is_empty request.bcname) && not (is_empty request.address))
    handle env request.bcname
    accounts ←
        call (Call.read request.bcname (Read.account_by_ak request.address))
          (λ h. env.get_account_by_ak h request.bcname request.address)
    contracts ← run (contracts_of_accounts request.bcname (or_no_accounts accounts) [])
    pure (record { header = none; contracts = contracts })

  -- `GetAddressContracts`, at a request whose header the interceptor has set
  unfoldable pub get_address_contracts :
      Option AddressRequest → Calls → Answer AddressContractsResponse × Calls
  get_address_contracts req = respond empty_address_contracts (get_address_contracts_steps req)

  abbrev pub empty_records : UtxoRecordDetail
  empty_records = record {
    header = none;
    bcname = [];
    account_name = [];
    open_utxo_record = none;
    locked_utxo_record = none;
    frozen_utxo_record = none;
    display_count = ℤ.pos 0;
  }

  unfoldable pub query_utxo_record_steps : Option UtxoRecordDetail → Rpc UtxoRecordDetail
  query_utxo_record_steps req = do
    request ← lift (or_fail req StdError.err_parameter)
    param (not (is_empty request.bcname))
    handle env request.bcname
    res ←
        call
          (Call.read request.bcname (Read.utxo_record request.account_name request.display_count))
          (λ h. env.query_utxo_record h request.bcname request.account_name request.display_count)
    pure (record {
      header = none;
      bcname = request.bcname;
      account_name = request.account_name;
      open_utxo_record = utxo_record_to_xchain res.open_utxo;
      locked_utxo_record = utxo_record_to_xchain res.locked_utxo;
      frozen_utxo_record = utxo_record_to_xchain res.frozen_utxo;
      display_count = request.display_count;
    })

  -- `QueryUtxoRecord`
  unfoldable pub query_utxo_record :
      Option UtxoRecordDetail → Calls → Answer UtxoRecordDetail × Calls
  query_utxo_record req = respond empty_records (query_utxo_record_steps req)

  abbrev pub empty_stat : ContractStatDataResponse
  empty_stat = record { header = none; bcname = []; data_ = none }

  -- The request has no field but the name of the chain and the header.
  unfoldable pub query_contract_stat_data_steps : Option Text → Rpc ContractStatDataResponse
  query_contract_stat_data_steps req = do
    bcname ← lift (or_fail req StdError.err_parameter)
    param (not (is_empty bcname))
    handle env bcname
    res ←
        call (Call.read bcname Read.contract_stat_data) (λ h. env.query_contract_stat_data h bcname)
    pure (record { header = none; bcname = bcname; data_ = some res })

  -- `QueryContractStatData`
  unfoldable pub query_contract_stat_data :
      Option Text → Calls → Answer ContractStatDataResponse × Calls
  query_contract_stat_data req = respond empty_stat (query_contract_stat_data_steps req)
