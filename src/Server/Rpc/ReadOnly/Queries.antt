-- ===== src/Server/Rpc/ReadOnly/Queries.antt =====
-- The queries of the interface call nothing on a chain but its readers.
use xuperchain.Prelude.{Option, List, [], ◌∷◌}
use xuperchain.Go.Text.{Text}
use xuperchain.Pb.{TxStatus}
use xuperchain.Pb.Chain.{BcStatus}
use xuperchain.Pb.Query.{
  TokenDetail, TokenFrozenDetails, AddressStatus, AddressBalanceStatus, AclStatus, AddressRequest,
  BlockId, BlockHeight, CommonIn,
}
use xuperchain.Server.Handle.{Outcome, done, failed}
use xuperchain.Server.Rpc.{Read, Calls, RpcEnv}
use xuperchain.Server.Rpc.Accounts.Contracts.{
  UtxoRecordDetail, get_account_contracts_steps, get_account_by_ak_steps, contracts_of_accounts,
  get_address_contracts_steps, query_utxo_record_steps, query_contract_stat_data_steps,
  get_account_contracts, get_account_by_ak, get_address_contracts, query_utxo_record,
  query_contract_stat_data,
}
use xuperchain.Server.Rpc.Accounts.{
  balance_at, balances, balance_steps, detail_at, details, balance_detail_steps, acl_of,
  query_acl_steps, get_balance, get_frozen_balance, get_balance_detail, query_acl,
}
use xuperchain.Server.Rpc.Blocks.{
  query_tx_steps, get_block_steps, get_block_by_height_steps, query_tx, get_block,
  get_block_by_height,
}
use xuperchain.Server.Rpc.Blocks.Chains.{
  get_block_chain_status_steps, confirm_block_chain_status_steps, get_block_chains_steps,
  chain_statuses, get_system_status_steps, get_net_url_steps, get_block_chain_status,
  confirm_block_chain_status, get_block_chains, get_system_status, get_net_url,
}
use xuperchain.Server.Rpc.Blocks.Consensus.{get_consensus_status_steps, get_consensus_status}
use xuperchain.Server.Rpc.ReadOnly.{
  OnlyReads, same, one_more, OnlyReads-trans, IsReadOnly, read_only,
}

-- A query of the interface, with its request
pub data Query : Type 0 where
  get_balance_of get_frozen_balance_of : Option AddressStatus → Query
  get_balance_detail_of : Option AddressBalanceStatus → Query
  query_acl_of : Option AclStatus → Query
  get_account_contracts_of get_account_by_ak_of get_address_contracts_of :
      Option AddressRequest → Query
  query_utxo_record_of : Option UtxoRecordDetail → Query
  query_contract_stat_data_of get_consensus_status_of : Option Text → Query
  query_tx_of : Option TxStatus → Query
  get_block_of : Option BlockId → Query
  get_block_by_height_of : Option BlockHeight → Query
  get_block_chain_status_of confirm_block_chain_status_of : Option BcStatus → Query
  get_block_chains_of get_system_status_of get_net_url_of : Option CommonIn → Query

module _ (env : RpcEnv) where
  -- The calls after a query was answered
  abbrev pub calls_after : Query → Calls → Calls
  calls_after (get_balance_of req) h = (get_balance env req h).1
  calls_after (get_frozen_balance_of req) h = (get_frozen_balance env req h).1
  calls_after (get_balance_detail_of req) h = (get_balance_detail env req h).1
  calls_after (query_acl_of req) h = (query_acl env req h).1
  calls_after (get_account_contracts_of req) h = (get_account_contracts env req h).1
  calls_after (get_account_by_ak_of req) h = (get_account_by_ak env req h).1
  calls_after (get_address_contracts_of req) h = (get_address_contracts env req h).1
  calls_after (query_utxo_record_of req) h = (query_utxo_record env req h).1
  calls_after (query_contract_stat_data_of req) h = (query_contract_stat_data env req h).1
  calls_after (get_consensus_status_of req) h = (get_consensus_status env req h).1
  calls_after (query_tx_of req) h = (query_tx env req h).1
  calls_after (get_block_of req) h = (get_block env req h).1
  calls_after (get_block_by_height_of req) h = (get_block_by_height env req h).1
  calls_after (get_block_chain_status_of req) h = (get_block_chain_status env req h).1
  calls_after (confirm_block_chain_status_of req) h = (confirm_block_chain_status env req h).1
  calls_after (get_block_chains_of req) h = (get_block_chains env req h).1
  calls_after (get_system_status_of req) h = (get_system_status env req h).1
  calls_after (get_net_url_of req) h = (get_net_url env req h).1

  balance_at-IsReadOnly :
      (reading : Text → Read) (query : Calls → Text → Text → Outcome Text) (address name : Text)
      (r : Outcome Text)
      → IsReadOnly (balance_at env reading query address name r)
  balance_at-IsReadOnly reading query address name (done chain) = record {
    reads = λ h. one_more same;
  }
  balance_at-IsReadOnly reading query address name (failed e) = record { reads = λ h. same }

  balances-IsReadOnly :
      (reading : Text → Read) (query : Calls → Text → Text → Outcome Text) (address : Text)
      (ts : List TokenDetail)
      → IsReadOnly (balances env reading query address ts)
  unfolding balances
  balances-IsReadOnly reading query address [] = record { reads = λ h. same }
  balances-IsReadOnly reading query address (t ∷ ts) = record {
    reads = λ h.
        OnlyReads-trans ((balance_at-IsReadOnly reading query address t.bcname _).reads h)
          ((balances-IsReadOnly reading query address ts).reads _);
  }

  detail_at-IsReadOnly :
      (address name : Text) (r : Outcome Text) → IsReadOnly (detail_at env address name r)
  detail_at-IsReadOnly address name (done chain) = record { reads = λ h. one_more same }
  detail_at-IsReadOnly address name (failed e) = record { reads = λ h. same }

  details-IsReadOnly :
      (address : Text) (ts : List TokenFrozenDetails) → IsReadOnly (details env address ts)
  unfolding details
  details-IsReadOnly address [] = record { reads = λ h. same }
  details-IsReadOnly address (t ∷ ts) = record {
    reads = λ h.
        OnlyReads-trans ((detail_at-IsReadOnly address t.bcname _).reads h)
          ((details-IsReadOnly address ts).reads _);
  }

  contracts_of_accounts-IsReadOnly :
      (bcname : Text) (accounts : List Text) (found : List (Text × List Text))
      → IsReadOnly (contracts_of_accounts env bcname accounts found)
  unfolding contracts_of_accounts
  contracts_of_accounts-IsReadOnly bcname [] found = record { reads = λ h. same }
  contracts_of_accounts-IsReadOnly bcname (account ∷ accounts) found = record {
    reads = λ h.
        OnlyReads-trans (one_more same)
          ((contracts_of_accounts-IsReadOnly bcname accounts _).reads _);
  }

  get_block_chain_status-IsReadOnly :
      (req : Option BcStatus) → IsReadOnly (get_block_chain_status env req)
  unfolding get_block_chain_status get_block_chain_status_steps
  get_block_chain_status-IsReadOnly req = search read_only depth 16

  chain_statuses-IsReadOnly :
      (req : CommonIn) (names : List Text) → IsReadOnly (chain_statuses env req names)
  unfolding chain_statuses
  chain_statuses-IsReadOnly req [] = record { reads = λ h. same }
  chain_statuses-IsReadOnly req (name ∷ names) = record {
    reads = λ h.
        OnlyReads-trans ((get_block_chain_status-IsReadOnly _).reads h)
          ((chain_statuses-IsReadOnly req names).reads _);
  }

  ruleset loops = (
    read_only, balances-IsReadOnly, details-IsReadOnly, contracts_of_accounts-IsReadOnly,
    chain_statuses-IsReadOnly,
  )

  get_balance-IsReadOnly : (req : Option AddressStatus) → IsReadOnly (get_balance env req)
  unfolding get_balance balance_steps
  get_balance-IsReadOnly req = search loops depth 16

  get_frozen_balance-IsReadOnly :
      (req : Option AddressStatus) → IsReadOnly (get_frozen_balance env req)
  unfolding get_frozen_balance balance_steps
  get_frozen_balance-IsReadOnly req = search loops depth 16

  get_balance_detail-IsReadOnly :
      (req : Option AddressBalanceStatus) → IsReadOnly (get_balance_detail env req)
  unfolding get_balance_detail balance_detail_steps
  get_balance_detail-IsReadOnly req = search loops depth 16

  query_acl-IsReadOnly : (req : Option AclStatus) → IsReadOnly (query_acl env req)
  unfolding query_acl query_acl_steps acl_of
  query_acl-IsReadOnly req = search loops depth 20

  get_account_contracts-IsReadOnly :
      (req : Option AddressRequest) → IsReadOnly (get_account_contracts env req)
  unfolding get_account_contracts get_account_contracts_steps
  get_account_contracts-IsReadOnly req = search loops depth 16

  get_account_by_ak-IsReadOnly :
      (req : Option AddressRequest) → IsReadOnly (get_account_by_ak env req)
  unfolding get_account_by_ak get_account_by_ak_steps
  get_account_by_ak-IsReadOnly req = search loops depth 16

  get_address_contracts-IsReadOnly :
      (req : Option AddressRequest) → IsReadOnly (get_address_contracts env req)
  unfolding get_address_contracts get_address_contracts_steps
  get_address_contracts-IsReadOnly req = search loops depth 16

  query_utxo_record-IsReadOnly :
      (req : Option UtxoRecordDetail) → IsReadOnly (query_utxo_record env req)
  unfolding query_utxo_record query_utxo_record_steps
  query_utxo_record-IsReadOnly req = search loops depth 16

  query_contract_stat_data-IsReadOnly :
      (req : Option Text) → IsReadOnly (query_contract_stat_data env req)
  unfolding query_contract_stat_data query_contract_stat_data_steps
  query_contract_stat_data-IsReadOnly req = search loops depth 16

  get_consensus_status-IsReadOnly : (req : Option Text) → IsReadOnly (get_consensus_status env req)
  unfolding get_consensus_status get_consensus_status_steps
  get_consensus_status-IsReadOnly req = search loops depth 16

  query_tx-IsReadOnly : (req : Option TxStatus) → IsReadOnly (query_tx env req)
  unfolding query_tx query_tx_steps
  query_tx-IsReadOnly req = search loops depth 16

  get_block-IsReadOnly : (req : Option BlockId) → IsReadOnly (get_block env req)
  unfolding get_block get_block_steps
  get_block-IsReadOnly req = search loops depth 16

  get_block_by_height-IsReadOnly :
      (req : Option BlockHeight) → IsReadOnly (get_block_by_height env req)
  unfolding get_block_by_height get_block_by_height_steps
  get_block_by_height-IsReadOnly req = search loops depth 16

  confirm_block_chain_status-IsReadOnly :
      (req : Option BcStatus) → IsReadOnly (confirm_block_chain_status env req)
  unfolding confirm_block_chain_status confirm_block_chain_status_steps
  confirm_block_chain_status-IsReadOnly req = search loops depth 16

  get_block_chains-IsReadOnly : (req : Option CommonIn) → IsReadOnly (get_block_chains env req)
  unfolding get_block_chains get_block_chains_steps
  get_block_chains-IsReadOnly req = search loops depth 16

  get_system_status-IsReadOnly : (req : Option CommonIn) → IsReadOnly (get_system_status env req)
  unfolding get_system_status get_system_status_steps
  get_system_status-IsReadOnly req = search loops depth 16

  get_net_url-IsReadOnly : (req : Option CommonIn) → IsReadOnly (get_net_url env req)
  unfolding get_net_url get_net_url_steps
  get_net_url-IsReadOnly req = search loops depth 16

  -- No query of the interface, whatever its request and its answer, changes a chain: the calls that it
  -- makes after those of `h` are reads. None of them submits or sends a transaction, executes a contract
  -- or selects utxos.
  pub queries_only_read : (q : Query) (h : Calls) → OnlyReads h (calls_after q h)
  queries_only_read (get_balance_of req) = (get_balance-IsReadOnly req).reads
  queries_only_read (get_frozen_balance_of req) = (get_frozen_balance-IsReadOnly req).reads
  queries_only_read (get_balance_detail_of req) = (get_balance_detail-IsReadOnly req).reads
  queries_only_read (query_acl_of req) = (query_acl-IsReadOnly req).reads
  queries_only_read (get_account_contracts_of req) = (get_account_contracts-IsReadOnly req).reads
  queries_only_read (get_account_by_ak_of req) = (get_account_by_ak-IsReadOnly req).reads
  queries_only_read (get_address_contracts_of req) = (get_address_contracts-IsReadOnly req).reads
  queries_only_read (query_utxo_record_of req) = (query_utxo_record-IsReadOnly req).reads
  queries_only_read (query_contract_stat_data_of req) =
      (query_contract_stat_data-IsReadOnly req).reads
  queries_only_read (get_consensus_status_of req) = (get_consensus_status-IsReadOnly req).reads
  queries_only_read (query_tx_of req) = (query_tx-IsReadOnly req).reads
  queries_only_read (get_block_of req) = (get_block-IsReadOnly req).reads
  queries_only_read (get_block_by_height_of req) = (get_block_by_height-IsReadOnly req).reads
  queries_only_read (get_block_chain_status_of req) = (get_block_chain_status-IsReadOnly req).reads
  queries_only_read (confirm_block_chain_status_of req) =
      (confirm_block_chain_status-IsReadOnly req).reads
  queries_only_read (get_block_chains_of req) = (get_block_chains-IsReadOnly req).reads
  queries_only_read (get_system_status_of req) = (get_system_status-IsReadOnly req).reads
  queries_only_read (get_net_url_of req) = (get_net_url-IsReadOnly req).reads
