-- ===== src/Client/Trans.antt =====
-- The fields of `CommTrans` in cmd/client/cmd/comm_trans.go.
use xuperchain.Prelude.{Bool, List, ℤ}
use xuperchain.Go.Text.{Text, lit}

-- `ComplianceCheckConfig`, with the host of the endorser beside it
pub record ComplianceCheck : Type 0 where
  pub is_need_compliance_check : Bool
  pub endorse_service_fee : ℤ
  pub endorse_service_fee_addr : Text
  pub endorse_service_addr : Text

pub record CommTrans : Type 0 where
  pub to : Text
  pub amount : Text
  pub descfile : Text
  pub fee : Text
  pub frozen_height : ℤ
  pub version : ℤ
  pub from : Text
  pub module_name : Text
  pub contract_name : Text
  pub method_name : Text
  pub args : List (Text × Text)
  pub multi_addrs : Text
  pub output : Text
  pub is_quick : Bool
  pub is_print : Bool
  pub chain_name : Text
  pub keys : Text
  pub crypto_type : Text
  pub compliance_check : ComplianceCheck
  pub debug_tx : Bool

-- The literal that stands for no fee, as the empty text does
abbrev pub zero_text : Text
zero_text = lit "0"
