-- ===== src/Client/Merge.antt =====
-- cmd/client/cmd/utxo_merge.go: gather the utxos of one account in a single output.
pub mod Balance
use xuperchain.Prelude.{
  Bool, true, false, not, ◌&&◌, Option, none, some, List, [], ◌∷◌, if◌then◌else◌, pos,
}
use xuperchain.Go.Text.{Text, is_empty}
use xuperchain.Pb.{Transaction, TxInput}
use xuperchain.Exec.{Failure, Message, ok, err, Io, ◌>>=◌, ◌>>◌, pure, wrap, guard}
use xuperchain.Client.Env.{Env}
use xuperchain.Client.Trans.{CommTrans}
use xuperchain.Client.Keys.{read_address, gen_auth_requirement}
use xuperchain.Client.Inputs.{gen_tx_inputs_with_merge_utxo}
use xuperchain.Client.RawTx.{empty_tx, draw_nonce, read_clock, with_contract}
use xuperchain.Client.Split.{no_compliance, pre_exec_nothing, sign_and_post, requests_of}

-- `MergeUtxoCommand`, with the root options that it uses
pub record MergeUtxoCommand : Type 0 where
  pub account : Text
  pub account_path : Text
  pub name : Text
  pub keys : Text
  pub crypto : Text

abbrev pub is_nil : List TxInput → Bool
is_nil [] = true
is_nil (_ ∷ _) = false

abbrev is_account : Option Bool → Bool
is_account (some true) = true
is_account (some false) = false
is_account none = false

module _ (env : Env) where
  -- an error of `readAddress` leaves the address empty
  unfoldable pub address_or_empty : Text → Io Text
  address_or_empty keys h =
      let (r, h') = read_address env keys h in (elim r [ ok a ↦ ok a | err _ ↦ ok [] ], h')

  unfoldable pub merge_trans : MergeUtxoCommand → Text → CommTrans
  merge_trans c account = record {
    to = [];
    amount = [];
    descfile = [];
    fee = [];
    frozen_height = pos 0;
    version = env.tx_version;
    from = account;
    module_name = [];
    contract_name = [];
    method_name = [];
    args = [];
    multi_addrs = [];
    output = [];
    is_quick = false;
    is_print = false;
    chain_name = c.name;
    keys = c.keys;
    crypto_type = c.crypto;
    compliance_check = no_compliance;
    debug_tx = false;
  }

  -- The transaction of `mergeUtxo`, before it is signed
  unfoldable pub merge_tx : MergeUtxoCommand → Text → Text → Io Transaction
  merge_tx c initiator account = do
    nonce ← draw_nonce env
    timestamp ← read_clock env
    spent ← gen_tx_inputs_with_merge_utxo env (merge_trans c account)
    guard (not (is_nil spent.0)) (Failure.said Message.not_enough_utxo_to_merge)
    auth ← wrap Message.auth_requirement_error (gen_auth_requirement env account c.account_path)
    res ← pre_exec_nothing env c.name initiator auth
    pure (
        with_contract res (requests_of res) (record empty_tx {
          version = env.tx_version;
          nonce = nonce;
          timestamp = timestamp;
          initiator = initiator;
          tx_inputs = spent.0;
          tx_outputs = spent.1 ∷ [];
          auth_require = auth;
        }))

  -- `mergeUtxo`
  unfoldable pub merge_utxo : MergeUtxoCommand → Io Text
  merge_utxo c = do
    guard (not (is_account (env.address_type c.account) && is_empty c.account_path))
        (Failure.said Message.account_path_required)
    initiator ← address_or_empty c.keys
    let account = if is_empty c.account then initiator else c.account
    tx ← merge_tx c initiator account
    sign_and_post env (merge_trans c account) c.account_path c.name tx
