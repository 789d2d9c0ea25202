-- ===== src/Client/Env.antt =====
-- What the client calls outside the repository: files, the clock, the node's gRPC interface, the
-- endorser, and the cryptographic, JSON and protobuf libraries. A function that takes a history may
-- answer the same call differently each time.
use xuperchain.Prelude.{Bool, Option, List, ℤ}
use xuperchain.Go.Text.{Text}
use xuperchain.Pb.{
  Transaction, InvokeRequest, TxStatus, CommonReply, UtxoInput, UtxoOutput, InvokeRpcRequest,
  InvokeRpcResponse, PreExecWithSelectUtxoRequest, PreExecWithSelectUtxoResponse, EndorserRequest,
  EndorserResponse, SignatureInfo,
}
use xuperchain.Exec.{Result, History}

-- `MultisigData` of cmd/client/cmd/multisig.go
pub record MultisigData : Type 0 where
  pub r : Text
  pub c : Text
  pub k_list : List Text
  pub pub_keys : List Text

-- `PartialSign` of cmd/client/cmd/multisig.go
pub record PartialSign : Type 0 where
  pub si : Text
  pub index : ℤ

pub record Env : Type 0 where
  -- utxo.FeePlaceholder, the receiver of every fee; utxo.TxVersion; contract.StatusErrorThreshold
  pub fee_placeholder : Text
  pub tx_version : ℤ
  pub status_error_threshold : ℤ
  -- path/filepath.Join
  pub join_path : Text → Text → Text
  -- os.ReadFile, os.WriteFile, os.ReadDir (names, and which are directories), os.Stat
  pub read_file : History → Text → Result Text
  pub write_file : History → Text → Text → Result (Unit {0})
  pub read_dir : History → Text → Result (List (Text × Bool))
  pub stat : History → Text → Result (Unit {0})
  -- utils.GenNonce, utils.GenLogId, time.Now
  pub nonce : History → Text
  pub log_id : History → Text
  pub clock : History → ℤ
  -- client.CreateCryptoClient, txhash.ProcessSignTx, txhash.MakeTransactionID
  pub create_crypto_client : Text → Result (Unit {0})
  pub process_sign_tx : History → Text → Text → Result Text
  pub make_transaction_id : Text → Result Text
  -- GetEcdsaPrivateKeyFromJsonStr, SignECDSA, hash.DoubleSha256
  pub ecdsa_private_key : Text → Result Text
  pub sign_ecdsa : History → Text → Text → Result Text
  pub double_sha256 : Text → Text
  -- GetSUsingAllSi, GenerateMultiSignSignature, CreateCryptoClientFromJSONPublicKey
  pub s_using_all_si : List Text → Text
  pub multi_sign_signature : Text → Text → Result Text
  pub crypto_client_of_public_key : Text → Result (Unit {0})
  -- CreateCryptoClientFromJSONPrivateKey, GetSiUsingKCRM, txhash.MakeTxDigestHash
  pub crypto_client_of_private_key : Text → Result (Unit {0})
  -- GetRandom32Bytes, GetRiUsingRandomBytes, GetRUsingAllRi, GetSharedPublicKeyForPublicKeys
  pub random_32_bytes : History → Result Text
  pub ri_using_random_bytes : Text → Text → Text
  pub r_using_all_ri : Text → List Text → Text
  pub shared_public_key : List Text → Result Text
  pub si_using_kcrm : Text → Text → Text → Text → Text → Text
  pub make_tx_digest_hash : Text → Result Text
  -- GetEcdsaPublicKeyFromJsonStr, GetAddressFromPublicKey
  pub ecdsa_public_key : Text → Result Text
  pub address_of_public_key : Text → Result Text
  -- proto.Marshal of a transaction, proto.Unmarshal into an xldgpb.Transaction, which the model
  -- keeps as its wire form, and into a pb.Transaction
  pub marshal_tx : Transaction → Option Text
  pub unmarshal_xledger_tx : Text → Option Text
  pub unmarshal_tx : Text → Option Transaction
  -- encoding/json
  pub unmarshal_request : Text → Option (InvokeRequest × List (Text × Text))
  pub unmarshal_signature : Text → Option SignatureInfo
  pub unmarshal_multisig : Text → Result MultisigData
  pub unmarshal_partial_sign : Text → Result PartialSign
  pub marshal_partial_sign : PartialSign → Result Text
  pub marshal_signature : SignatureInfo → Result Text
  pub marshal_tx_status : TxStatus → Result Text
  -- the gRPC stubs XchainClient and XendorserClient
  pub select_utxo : History → UtxoInput → Result UtxoOutput
  pub select_utxo_by_size : History → UtxoInput → Result UtxoOutput
  pub pre_exec : History → InvokeRpcRequest → Result InvokeRpcResponse
  pub pre_exec_with_select_utxo :
      History → PreExecWithSelectUtxoRequest → Result PreExecWithSelectUtxoResponse
  pub get_balance : History → Text → Text → Result (List Text)
  pub post_tx : History → TxStatus → Result CommonReply
  pub endorser_call : History → EndorserRequest → Result EndorserResponse
  -- aclUtils.ParseAddressType: `some true` for an account name, `some false` for an address
  pub address_type : Text → Option Bool
