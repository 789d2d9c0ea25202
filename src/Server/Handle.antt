-- ===== src/Server/Handle.antt =====
-- models/chain_handle.go: the chain behind a request, and who may lock utxos of an account.
pub mod Lock
use xuperchain.Prelude.{
  Bool, true, false, not, ◌||◌, Option, none, some, List, if◌then◌else◌, ℤ, pos, ◌++◌,
}
use xuperchain.Go.Text.{Text, lit, is_empty}
use xuperchain.Go.Decimal.{print_int}
use xuperchain.Pb.{UtxoOutput}

-- The standard errors of `ecom` that this layer returns or passes on
pub data StdError : Type 0 where
  err_parameter err_chain_not_exist err_unauthorized err_forbidden err_internal : StdError
  -- any other error, of the chain behind the handle
  from_chain : Text → StdError

pub data Outcome (A : Type 0) : Type 0 where
  done : A → Outcome A
  failed : StdError → Outcome A

abbrev pub and_then : {A B : Type 0} → Outcome A → (A → Outcome B) → Outcome B
and_then (done a) f = f a
and_then (failed e) f = failed e

-- The chain and the crypto library that a handle calls
pub record ChainEnv : Type 0 where
  -- engine.Get
  pub has_chain : Text → Bool
  -- aclUtils.IsAccount
  pub is_account : Text → Bool
  -- GetEcdsaPublicKeyFromJsonStr, VerifyECDSA, VerifyAddressUsingPublicKey, hash.DoubleSha256
  pub public_key : Text → Option Text
  pub verify_ecdsa : Text → Text → Text → Option Bool
  pub verify_address : Text → Text → Bool
  pub double_sha256 : Text → Text
  -- the utxo reader
  pub select : Text → ℤ → Bool → Bool → Outcome UtxoOutput
  pub select_by_size : Text → Bool → Bool → Outcome UtxoOutput

abbrev holds : Option Bool → Bool
holds none = false
holds (some b) = b

module _ (env : ChainEnv) where
  -- `NewChainHandle`, at a request context that is not nil
  unfoldable pub new_chain_handle : Text → Outcome Text
  new_chain_handle bc_name =
      if is_empty bc_name
      then failed err_parameter
      else if env.has_chain bc_name
      then done bc_name
      else failed err_chain_not_exist

  -- `NewLockedUtxo(bcName, address, amount).Hash()` of models/utxo.go
  unfoldable pub locked_hash : Text → Text → ℤ → Text
  locked_hash bc_name address amount =
      env.double_sha256 (bc_name ++ (address ++ (print_int amount ++ lit "true")))

  -- The signature over the utxo to lock, and then the address that the key belongs to
  unfoldable pub verify_lock : Text → Text → Text → Text → ℤ → Bool
  unfolding locked_hash
  verify_lock key bc_name account sign need =
      if holds (env.verify_ecdsa key sign (locked_hash bc_name account need))
      then env.verify_address account key
      else false

  -- `checkSelectUtxoSign`
  unfoldable pub check_select_utxo_sign : Text → Text → Text → Text → Bool → ℤ → Bool
  unfolding verify_lock
  check_select_utxo_sign bc_name account pub_key sign is_lock need =
      if env.is_account account || not is_lock then true else elim (env.public_key pub_key) [
        | none ↦ false
        | some key ↦ verify_lock key bc_name account sign need
      ]

  -- `SelectUtxo`
  unfoldable pub select_utxo : Text → Text → ℤ → Bool → Bool → Text → Text → Outcome UtxoOutput
  select_utxo bc_name account need is_lock is_exclude pub_key sign =
      if check_select_utxo_sign bc_name account pub_key sign is_lock need
      then env.select account need is_lock is_exclude
      else failed err_unauthorized

  -- `SelectUTXOBySize`, where the signature is over an amount of zero
  unfoldable pub select_utxo_by_size : Text → Text → Bool → Bool → Text → Text → Outcome UtxoOutput
  select_utxo_by_size bc_name account is_lock is_exclude pub_key sign =
      if check_select_utxo_sign bc_name account pub_key sign is_lock (pos 0)
      then env.select_by_size account is_lock is_exclude
      else failed err_unauthorized
