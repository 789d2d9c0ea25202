-- ===== src/Client/Keys.antt =====
-- cmd/client/cmd/ak.go, the readers of key files in transfer.go, the account helpers of cli.go, and
-- service/common/utils.go: key directories, authorisations, signatures and transaction ids.

use xuperchain.Prelude.{
  Bool, true, false, Option, none, some, List, [], ◌∷◌, ◌++◌, if◌then◌else◌, ℤ,
}
use xuperchain.Go.Text.{Text, lit, is_empty}
use xuperchain.Go.Scan.{trim_space}
use xuperchain.Go.Decimal.{print_int}
use xuperchain.Pb.{SignatureInfo, Transaction}
use xuperchain.Exec.{
  Failure, Message, Result, ok, err, Effect, Io, ◌>>=◌, pure, raise, lift, ask, wrap,
}
use xuperchain.Client.Env.{Env}

pub record KeyPair : Type 0 where
  pub public_key : Text
  pub secret_key : Text

pub record AkInfo : Type 0 where
  pub address : Text
  pub key_pair : KeyPair

-- `LockedUtxo` of models/utxo.go
pub record LockedUtxo : Type 0 where
  pub bc_name : Text
  pub address : Text
  pub amount : ℤ

module _ (env : Env) where
  -- `readKeys`
  unfoldable pub read_keys : Text → Io Text
  read_keys file = do
    buf ← ask (Effect.read_file file) (λ h. env.read_file h file)
    pure (trim_space buf)

  unfoldable pub read_address : Text → Io Text
  read_address path = read_keys (env.join_path path (lit "address"))

  unfoldable pub read_public_key : Text → Io Text
  read_public_key path = read_keys (env.join_path path (lit "public.key"))

  unfoldable pub read_private_key : Text → Io Text
  read_private_key path = read_keys (env.join_path path (lit "private.key"))

  -- `AK.keyPair`
  unfoldable pub key_pair : Text → Io KeyPair
  key_pair path = do
    pk ← read_public_key path
    sk ← read_private_key path
    pure (record { public_key = pk; secret_key = sk })

  -- `AK.Info`
  unfoldable pub ak_info : Text → Io AkInfo
  ak_info path = do
    address ← read_address path
    pair ← key_pair path
    pure (record { address = address; key_pair = pair })

  -- `AK.AuthRequirementFrom`
  unfoldable pub auth_requirement_from : Text → Text → Io Text
  auth_requirement_from path account = do
    address ← read_address path
    pure (account ++ lit "/" ++ address)

  -- `AK.IsAKDir`: whether the file `address` is there
  unfoldable pub is_ak_dir : Text → Io Bool
  is_ak_dir path h =
      let file = env.join_path path (lit "address") in
      (elim (env.stat h file) [ ok _ ↦ ok true | err _ ↦ ok false ], Effect.stat file ∷ h)

  -- the loop of `listAKs` over the entries of the directory
  unfoldable pub keep_aks : Text → List (Text × Bool) → Io (List Text)
  keep_aks root [] = pure []
  keep_aks root ((name, false) ∷ dirs) = keep_aks root dirs
  keep_aks root ((name, true) ∷ dirs) = do
    is_ak ← is_ak_dir (env.join_path root name)
    rest ← keep_aks root dirs
    pure (if is_ak then env.join_path root name ∷ rest else rest)

  unfoldable pub list_aks : Text → Io (List Text)
  list_aks root = do
    dirs ← ask (Effect.read_dir root) (λ h. env.read_dir h root)
    keep_aks root dirs

  -- `TxToXledger` of service/common/convert.go, at a transaction that is not nil
  unfoldable pub tx_to_xledger : Transaction → Option Text
  tx_to_xledger tx = elim (env.marshal_tx tx) [
    | none ↦ none
    | some buf ↦ env.unmarshal_xledger_tx buf
  ]

  -- `MakeTxId` of service/common/utils.go
  unfoldable pub make_tx_id : Transaction → Result Text
  unfolding tx_to_xledger
  make_tx_id tx = elim (tx_to_xledger tx) [
    | none ↦ err (Failure.said Message.tx_convert_fail)
    | some x ↦ env.make_transaction_id x
  ]

  -- `ComputeTxSign` of service/common/utils.go
  unfoldable pub compute_tx_sign : Transaction → Text → Io Text
  unfolding tx_to_xledger
  compute_tx_sign tx sk = elim (tx_to_xledger tx) [
    | none ↦ raise (Failure.said Message.tx_convert_fail)
    | some x ↦ ask (Effect.sign_tx sk tx) (λ h. env.process_sign_tx h sk x)
  ]

  -- `KeyPair.SignTx`
  unfoldable pub sign_tx_with : KeyPair → Transaction → Io SignatureInfo
  sign_tx_with pair tx = do
    sign ← compute_tx_sign tx pair.secret_key
    pure (record { public_key = pair.public_key; sign = sign })

  -- `LockedUtxo.Hash` of models/utxo.go
  unfoldable pub locked_utxo_hash : LockedUtxo → Text
  locked_utxo_hash o =
      env.double_sha256 (o.bc_name ++ (o.address ++ (print_int o.amount ++ lit "true")))

  -- `KeyPair.SignUtxo`
  unfoldable pub sign_utxo : KeyPair → LockedUtxo → Io SignatureInfo
  sign_utxo pair utxo = do
    key ← lift (env.ecdsa_private_key pair.secret_key)
    let digest = locked_utxo_hash utxo
    sign ← ask (Effect.sign_data key digest) (λ h. env.sign_ecdsa h key digest)
    pure (record { public_key = pair.public_key; sign = sign })

  -- `signTxForAK` of cli.go
  unfoldable pub sign_tx_for_ak : Transaction → KeyPair → Io (List SignatureInfo)
  sign_tx_for_ak tx pair = do sign ← sign_tx_with pair tx; pure (sign ∷ [])

  -- the loop of `signTxForAccount` of cli.go over the key directories
  unfoldable pub sign_by_all : Transaction → List Text → Io (List SignatureInfo)
  sign_by_all tx [] = pure []
  sign_by_all tx (path ∷ paths) = do
    sign ← wrap Message.sign_error (key_pair path >>= λ pair. sign_tx_with pair tx)
    rest ← sign_by_all tx paths
    pure (sign ∷ rest)

  unfoldable pub sign_tx_for_account : Transaction → Text → Io (List SignatureInfo)
  sign_tx_for_account tx path = do paths ← list_aks path; sign_by_all tx paths

  -- the loop of `genAuthRequirement` of cli.go
  unfoldable pub require_all : Text → List Text → Io (List Text)
  require_all from [] = pure []
  require_all from (path ∷ paths) = do
    requirement ← wrap Message.auth_requirement_error (auth_requirement_from path from)
    rest ← require_all from paths
    pure (requirement ∷ rest)

  unfoldable pub gen_auth_requirement : Text → Text → Io (List Text)
  gen_auth_requirement from path =
      if is_empty path then pure (from ∷ []) else (list_aks path >>= require_all from)
