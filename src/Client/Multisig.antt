-- ===== src/Client/Multisig.antt =====
-- The multisig commands of cmd/client/cmd: multisig.go, multisig_send.go and multisig_sign.go, without
-- what they print.
pub mod Gen
pub mod Shares
pub mod Post
pub mod Keys
pub mod Files
pub mod RoundTrip
use xuperchain.Prelude.{
  Bool, true, false, not, ◌&&◌, ◌||◌, Option, none, some, List, [], ◌∷◌, ◌++◌, if◌then◌else◌, ℕ,
  suc, ℤ, pos, ◌-ℤ◌, ltb_ℤ, is_negative, pos_part, length, set, replicate, ltb, ◌==◌,
}
use xuperchain.Go.Text.{Text, lit, is_empty, text_eq, split}
use xuperchain.Pb.{Transaction, XuperSignature, SignatureInfo}
use xuperchain.Exec.{
  Failure, Message, Result, ok, err, and_then, Effect, Io, ◌>>=◌, ◌>>◌, pure, raise, lift, ask,
  wrap, replace, guard, or_fail,
}
use xuperchain.Client.Env.{Env, MultisigData, PartialSign}
use xuperchain.Client.Keys.{KeyPair, key_pair, tx_to_xledger, make_tx_id, sign_tx_with}
use xuperchain.Client.RawTx.{post_tx}

-- `psi.Index > needLen-1 || psi.Index < 0`, negated
abbrev pub in_range : ℤ → ℕ → Bool
in_range index need = not (ltb_ℤ (pos need -ℤ pos 1) index || is_negative index)

-- `msd.PubKeys[0]`
abbrev pub first_key : List Text → Io Text
first_key [] = raise Failure.panic
first_key (key ∷ keys) = pure key

module _ (env : Env) where
  -- `loadMultisig`
  unfoldable pub load_multisig : Text → Io MultisigData
  load_multisig tx_file = do
    let file = tx_file ++ lit ".ext"
    sign_data ← ask (Effect.read_file file) (λ h. env.read_file h file)
    wrap Message.unmarshal_error (lift (env.unmarshal_multisig sign_data))

  -- `loadPartialSign`
  unfoldable pub load_partial_sign : Text → Io PartialSign
  load_partial_sign file = do
    sign ←
        replace Message.open_sign_file_error
          (ask (Effect.read_file file) (λ h. env.read_file h file))
    wrap Message.unmarshal_error (lift (env.unmarshal_partial_sign sign))

  -- `loadTx`
  unfoldable pub load_tx : Text → Io Transaction
  load_tx file = do
    sign_data ←
        replace Message.open_tx_file_error (ask (Effect.read_file file) (λ h. env.read_file h file))
    or_fail (env.unmarshal_tx sign_data) (Failure.said Message.unmarshal_error)

  -- the loop of `getSigns`
  unfoldable pub get_signs_of : List Text → Io (List SignatureInfo)
  get_signs_of [] = pure []
  get_signs_of (file ∷ files) = do
    buf ←
        replace Message.open_sign_file_error
          (ask (Effect.read_file file) (λ h. env.read_file h file))
    sign ← or_fail (env.unmarshal_signature buf) (Failure.said Message.unmarshal_error)
    rest ← get_signs_of files
    pure (sign ∷ rest)

  -- `getSigns`; 44 is the comma.
  unfoldable pub get_signs : Text → Io (List SignatureInfo)
  get_signs path = get_signs_of (split 44 path)

  -- `send`
  unfoldable pub send : Text → Text → Text → Text → Io Text
  send name tx_file init_path auth_path = do
    tx ← load_tx tx_file
    signs ← get_signs init_path
    sign_auths ← get_signs auth_path
    let signed : Transaction = record tx {
      initiator_signs = signs;
      auth_require_signs = sign_auths;
    }
    txid ← replace Message.tx_id_error (lift (make_tx_id env signed))
    post_tx env name (record signed { txid = txid })

  -- the loop of `sendXuper` over the files, which fills the slots of the partial signatures
  unfoldable pub read_shares : ℕ → List Text → List Text → Io (List Text)
  read_shares need [] si_list = pure si_list
  read_shares need (file ∷ files) si_list = do
    psi ← load_partial_sign file
    guard (in_range psi.index need) (Failure.said Message.partial_sign_invalid)
    read_shares need files (set si_list (pos_part psi.index) psi.si)

  -- The end of `sendXuper`, from the filled slots on
  unfoldable pub post_multi_signed : Text → MultisigData → Transaction → List Text → Io Text
  post_multi_signed name msd tx si_list = do
    key ← first_key msd.pub_keys
    wrap Message.crypto_client_error (lift (env.crypto_client_of_public_key key))
    final_sign ←
        wrap Message.sign_error (lift (env.multi_sign_signature (env.s_using_all_si si_list) msd.r))
    let signed : Transaction = record tx {
      xuper_sign = some (record { public_keys = msd.pub_keys; signature = final_sign });
    }
    txid ← replace Message.tx_id_error (lift (make_tx_id env signed))
    wrap Message.send_tx_error (post_tx env name (record signed { txid = txid }))

  -- `sendXuper`
  unfoldable pub send_xuper : Text → Text → Text → Io Text
  send_xuper name tx_file signs = do
    tx ← load_tx tx_file
    msd ← load_multisig tx_file
    guard (ltb 1 (length msd.k_list)) (Failure.said Message.too_few_parties)
    let sign_files = split 44 signs
    guard (length sign_files == length msd.k_list) (Failure.said Message.sign_count_error)
    si_list ← read_shares (length msd.k_list) sign_files (replicate (length msd.k_list) [])
    post_multi_signed name msd tx si_list

  -- The address of a public key
  abbrev pub key_address : Text → Result Text
  key_address key = and_then (env.ecdsa_public_key key) env.address_of_public_key

  -- A key that cannot be read is passed over.
  abbrev pub pick : Text → Text → ℕ → Result Text → Result (Text × ℕ) → Result (Text × ℕ)
  pick addr ki idx (err e) rest = rest
  pick addr ki idx (ok a) rest = if text_eq addr a then ok (ki, idx) else rest

  -- the loop of `findKFromKList`
  unfoldable pub find_from : Text → ℕ → List Text → List Text → Result (Text × ℕ)
  find_from addr idx [] keys = err (Failure.said Message.key_not_found)
  find_from addr idx (ki ∷ ks) [] = err Failure.panic
  find_from addr idx (ki ∷ ks) (key ∷ keys) =
      pick addr ki idx (key_address key) (find_from addr (suc idx) ks keys)

  -- `findKFromKList`
  unfoldable pub find_k_from_k_list : MultisigData → Text → Result (Text × ℕ)
  find_k_from_k_list msd pub_json =
      and_then (env.crypto_client_of_public_key pub_json)
        λ client. and_then (key_address pub_json) λ addr. find_from addr 0 msd.k_list msd.pub_keys

  -- `MakeTxDigestHash` of service/common/utils.go
  unfoldable pub make_tx_digest_hash : Transaction → Result Text
  unfolding tx_to_xledger
  make_tx_digest_hash tx = elim (tx_to_xledger env tx) [
    | none ↦ err (Failure.said Message.tx_convert_fail)
    | some x ↦ env.make_tx_digest_hash x
  ]

  -- `signMulti`
  unfoldable pub sign_multi : Text → Text → KeyPair → Transaction → Io (Unit {0})
  sign_multi tx_file output from tx = do
    msd ← load_multisig tx_file
    lift (env.crypto_client_of_private_key from.secret_key)
    key ← lift (env.ecdsa_private_key from.secret_key)
    digest ← lift (make_tx_digest_hash tx)
    found ← lift (find_k_from_k_list msd from.public_key)
    let psd : PartialSign = record {
      si = env.si_using_kcrm key found.0 msd.c msd.r digest;
      index = pos found.1;
    }
    json ← lift (env.marshal_partial_sign psd)
    replace Message.write_file_error
        (ask (Effect.write_file output json) (λ h. env.write_file h output json))

  -- `genSignFile`
  unfoldable pub gen_sign_file : Text → SignatureInfo → Io (Unit {0})
  gen_sign_file output info = do
    json ← lift (env.marshal_signature info)
    replace Message.write_file_error
        (ask (Effect.write_file output json) (λ h. env.write_file h output json))

  -- `signDefault`
  unfoldable pub sign_default : Text → Text → KeyPair → Transaction → Io (Unit {0})
  sign_default crypto output from tx = do
    lift (env.create_crypto_client crypto)
    info ← sign_tx_with env from tx
    gen_sign_file output info

  -- The end of `sign`, where the test for a sign type comes before the one for `multi`
  unfoldable pub sign_as : Text → Text → Text → Text → KeyPair → Transaction → Io (Unit {0})
  sign_as sign_type tx_file crypto output from tx =
      if not (is_empty sign_type)
      then raise (Failure.said Message.sign_type_not_supported)
      else if text_eq sign_type (lit "multi")
      then sign_multi tx_file output from tx
      else sign_default crypto output from tx

  -- `sign`
  unfoldable pub sign : Text → Text → Text → Text → Text → Io (Unit {0})
  sign sign_type tx_file keys crypto output = do
    buf ← ask (Effect.read_file tx_file) (λ h. env.read_file h tx_file)
    tx ← or_fail (env.unmarshal_tx buf) (Failure.outside (lit "proto"))
    from ← key_pair env keys
    sign_as sign_type tx_file crypto output from tx
