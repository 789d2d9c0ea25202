-- ===== src/Client/Multisig/RoundTrip.antt =====
-- From `signMulti` of multisig_sign.go to `sendXuper` of multisig_send.go, through the file between them.
-- `sign` refuses every sign type before it would call `signMulti`, which is taken here as it stands.
use mathlib.Core.Path.{subst}
use xuperchain.Prelude.{true, List, [], ◌∷◌, ◌≡◌, refl, sym, ℕ, length, set, pos_part}
use xuperchain.Go.Text.{Text}
use xuperchain.Pb.{Transaction}
use xuperchain.Exec.{Effect, History, ok, >>=-eq-ok, ◌>>=◌, guard, pure}
use xuperchain.Client.Env.{Env, MultisigData, PartialSign}
use xuperchain.Client.Keys.{KeyPair}
use xuperchain.Client.RawTx.Post.{lift-eq-ok, replace-ask-eq-ok}
use xuperchain.Client.Multisig.{in_range, key_address, make_tx_digest_hash, read_shares, sign_multi}
use xuperchain.Client.Multisig.Shares.{load_partial_sign-ok}
use xuperchain.Client.Multisig.Post.{multisig_file, load_multisig-eq-ok}
use xuperchain.Client.Multisig.Keys.{IsFound, find_k_from_k_list-IsFound}

module _ (env : Env) where
  -- A file that was written, and nothing after it, is read as it was written.
  abbrev pub KeepsFiles : Type 0
  KeepsFiles =
      (h : History) (file text : Text)
      → env.write_file h file text ≡ ok tt
      → env.read_file (Effect.write_file file text ∷ h) file ≡ ok text

  -- json.Unmarshal reads what json.Marshal makes of a partial signature.
  abbrev pub DecodesShares : Type 0
  DecodesShares =
      (p : PartialSign) (text : Text)
      → env.marshal_partial_sign p ≡ ok text
      → env.unmarshal_partial_sign text ≡ ok p

  read_shares-one :
      (need : ℕ) (file : Text) (slots : List Text) (h : History) (buf : Text) (p : PartialSign)
      → env.read_file h file ≡ ok buf
      → env.unmarshal_partial_sign buf ≡ ok p
      → in_range p.index need ≡ true
      → read_shares env need (file ∷ []) slots h
        ≡ (ok (set slots (pos_part p.index) p.si), Effect.read_file file ∷ h)
  unfolding read_shares ◌>>=◌ guard pure
  read_shares-one need file slots h buf p reads decodes inside =
      rw (load_partial_sign-ok env file h buf p reads decodes, inside) refl

  -- What `signMulti` has found: the multisig data in the second file of the transaction, and in them the
  -- party with the address of the signer's public key, at the index `i`; and the share it has made from
  -- the entry of that party, the signer's private key and the digest of the transaction.
  abbrev pub IsShare : Text → KeyPair → Transaction → History → MultisigData → ℕ → Text → Type 0
  IsShare tx_file from tx h msd i si =
      (text addr k key digest : Text) × (env.read_file h (multisig_file tx_file) ≡ ok text)
      × (env.unmarshal_multisig text ≡ ok msd)
      × (key_address env from.public_key ≡ ok addr)
      × IsFound env addr msd.k_list msd.pub_keys i k
      × (env.ecdsa_private_key from.secret_key ≡ ok key)
      × (make_tx_digest_hash env tx ≡ ok digest)
      × (si ≡ env.si_using_kcrm key k msd.c msd.r digest)

  -- Where a written file is read as it was written and a partial signature is decoded as it was encoded,
  -- the file that `signMulti` writes is accepted by the loop of `sendXuper` for the parties of the same
  -- multisig data: it stores the share that was made, and in the slot of the party whose public key has
  -- the address of the signer's.
  pub read_shares-sign_multi :
      (tx_file output : Text) (from : KeyPair) (tx : Transaction) (slots : List Text)
      (h h' : History)
      → KeepsFiles
      → DecodesShares
      → sign_multi env tx_file output from tx h ≡ (ok tt, h')
      → (msd : MultisigData) × (i : ℕ) × (si : Text) × IsShare tx_file from tx h msd i si
        × (read_shares env (length msd.k_list) (output ∷ []) slots h'
            ≡ (ok (set slots i si), Effect.read_file output ∷ h'))
  unfolding sign_multi
  read_shares-sign_multi tx_file output from tx slots h h' keeps decodes e =
      let (msd, k1, e1, f1) = >>=-eq-ok _ _ h e in
      let (_, k2, e2, f2) = >>=-eq-ok _ _ k1 f1 in
      let (key, k3, e3, f3) = >>=-eq-ok _ _ k2 f2 in
      let (digest, k4, e4, f4) = >>=-eq-ok _ _ k3 f3 in
      let (entry, k5, e5, f5) = >>=-eq-ok _ _ k4 f4 in
      let (json, k6, e6, f6) = >>=-eq-ok _ _ k5 f5 in
      let (text, reads, decoded, q1) = load_multisig-eq-ok env tx_file h e1 in
      let (addr, own, found, inside) =
        find_k_from_k_list-IsFound env msd from.public_key entry.0 entry.1 (lift-eq-ok _ k4 e5).0 in
      let si = env.si_using_kcrm key entry.0 msd.c msd.r digest in
      let (written, last) = replace-ask-eq-ok _ _ _ k6 f6 in
      let rereads : env.read_file h' output ≡ ok json =
        subst (λ l. env.read_file l output ≡ ok json) (sym last) (keeps k6 output json written) in
      (
        msd,
        entry.1,
        si,
        (
          text,
          addr,
          entry.0,
          key,
          digest,
          reads,
          decoded,
          own,
          found,
          (lift-eq-ok _ k2 e3).0,
          (lift-eq-ok _ k3 e4).0,
          refl,
        ),
        read_shares-one (length msd.k_list) output slots h' json _ rereads
            (decodes _ json (lift-eq-ok _ k5 e6).0) inside,
      )
