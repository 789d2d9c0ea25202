-- ===== src/Pb/Query.antt =====
-- The messages of service/pb/xchain.proto that ask a node for balances, accounts, contracts and blocks.
-- The access control list and the contract status, which no modelled code takes apart, are kept as bytes.
use xuperchain.Prelude.{Bool, Option, List, ℤ}
use xuperchain.Go.Text.{Text}
use xuperchain.Pb.{Header, XChainError}

pub record TokenDetail : Type 0 where
  pub bcname : Text
  pub balance : Text
  pub error : XChainError

pub record AddressStatus : Type 0 where
  pub header : Option Header
  pub address : Text
  pub bcs : List TokenDetail

pub record TokenFrozenDetail : Type 0 where
  pub balance : Text
  pub is_frozen : Bool

pub record TokenFrozenDetails : Type 0 where
  pub bcname : Text
  pub tfd : List TokenFrozenDetail
  pub error : XChainError

pub record AddressBalanceStatus : Type 0 where
  pub header : Option Header
  pub address : Text
  pub tfds : List TokenFrozenDetails

pub record AclStatus : Type 0 where
  pub header : Option Header
  pub bcname : Text
  pub account_name : Text
  pub contract_name : Text
  pub method_name : Text
  pub confirmed : Bool
  pub acl : Option Text

pub record BlockId : Type 0 where
  pub header : Option Header
  pub bcname : Text
  pub blockid : Text

pub record BlockHeight : Type 0 where
  pub header : Option Header
  pub bcname : Text
  pub height : ℤ

pub record BcTipStatus : Type 0 where
  pub header : Option Header
  pub is_trunk_tip : Bool

-- `AK2AccountRequest`, `AddressContractsRequest` and `GetAccountContractsRequest`: a chain, and an address
-- or an account on it
pub record AddressRequest : Type 0 where
  pub header : Option Header
  pub bcname : Text
  pub address : Text

pub record Ak2AccountResponse : Type 0 where
  pub header : Option Header
  pub bcname : Text
  pub account : List Text

pub record GetAccountContractsResponse : Type 0 where
  pub header : Option Header
  pub contracts_status : List Text

pub record AddressContractsResponse : Type 0 where
  pub header : Option Header
  pub contracts : List (Text × List Text)

pub record ContractStatData : Type 0 where
  pub account_count : ℤ
  pub contract_count : ℤ

pub record ContractStatDataResponse : Type 0 where
  pub header : Option Header
  pub bcname : Text
  pub data_ : Option ContractStatData

pub record ConsensusStatus : Type 0 where
  pub header : Option Header
  pub version : Text
  pub consensus_name : Text
  pub start_height : Text
  pub validators_info : Text

pub data ViewOption : Type 0 where
  none_ ledger utxoinfo branchinfo peers : ViewOption

pub record CommonIn : Type 0 where
  pub header : Option Header
  pub view_option : ViewOption

pub record BlockChains : Type 0 where
  pub header : Option Header
  pub blockchains : List Text

pub record RawUrl : Type 0 where
  pub header : Option Header
  pub raw_url : Text
