-- ===== src/Client/Multisig/Gen.antt =====
-- cmd/client/cmd/multisig_gen.go: the multisig data of the parties, from their public keys.
use xuperchain.Prelude.{
  true, not, List, [], ◌∷◌, ◌≡◌, ◌≢◌, ap, sym, ◌∙◌, ℕ, suc, ◌<◌, ltb, length, arith, Bool-cases,
  inl, inr,
}
use xuperchain.Go.Text.{Text, lit, text_eq}
use xuperchain.Go.Scan.{scan_lines}
use xuperchain.Exec.{
  Failure, Message, Result, ok, err, and_then, Effect, Io, ◌>>=◌, ◌>>◌, pure, lift, ask, guard,
  History, >>=-eq-ok,
}
use xuperchain.Client.Env.{Env, MultisigData}
use xuperchain.Client.RawTx.Post.{pure-eq-ok, guard-eq-ok}
use xuperchain.Client.Multisig.{first_key, key_address, pick, find_from, find_k_from_k_list}

-- What the loop collects: `klist`, `pklist` and `rlist`
pub record Lists : Type 0 where
  pub k_list : List Text
  pub pk_list : List Text
  pub r_list : List Text

module _ (env : Env) where
  unfoldable pub random_32_bytes : Io Text
  random_32_bytes = ask Effect.draw_random (λ h. env.random_32_bytes h)

  -- `readPublicKeysFromFile`; at a file that fits the buffer of the scanner, whose
  -- slices it keeps.
  unfoldable pub read_public_keys_from_file : Text → Io (List Text)
  read_public_keys_from_file file = do
    buf ← ask (Effect.read_file file) (λ h. env.read_file h file)
    let found = scan_lines buf
    guard (not found.1) (Failure.outside (lit "bufio.Scanner: token too long"))
    pure found.0

  -- the loop of `getMultiSignData`
  unfoldable pub collect : List Text → Io Lists
  collect [] = pure (record { k_list = []; pk_list = []; r_list = [] })
  collect (pubkey ∷ pubkeys) = do
    ki ← random_32_bytes
    pki ← lift (env.ecdsa_public_key pubkey)
    rest ← collect pubkeys
    pure (record {
      k_list = ki ∷ rest.k_list;
      pk_list = pki ∷ rest.pk_list;
      r_list = env.ri_using_random_bytes pki ki ∷ rest.r_list;
    })

  -- `getMultiSignData`
  unfoldable pub get_multi_sign_data : List Text → Io MultisigData
  get_multi_sign_data pubkeys = do
    guard (not (ltb (length pubkeys) 2)) (Failure.said Message.invalid_public_keys)
    key ← first_key pubkeys
    lift (env.crypto_client_of_public_key key)
    lists ← collect pubkeys
    pk ← first_key lists.pk_list
    spk ← lift (env.shared_public_key lists.pk_list)
    pure (record {
      r = env.r_using_all_ri pk lists.r_list;
      c = spk;
      k_list = lists.k_list;
      pub_keys = pubkeys;
    })

  collect-length :
      (keys : List Text) (h : History) {lists : Lists} {h' : History}
      → collect keys h ≡ (ok lists, h')
      → length lists.k_list ≡ length keys
  unfolding collect
  collect-length [] h e = ap (λ (l : Lists). length l.k_list) (sym (pure-eq-ok _ h e).0)
  collect-length (key ∷ keys) h e =
      let (ki, k1, _, f1) = >>=-eq-ok _ _ h e in
      let (pki, k2, _, f2) = >>=-eq-ok _ _ k1 f1 in
      let (rest, k3, e3, f3) = >>=-eq-ok _ _ k2 f2 in
      ap (λ (l : Lists). length l.k_list) (sym (pure-eq-ok _ k3 f3).0)
      ∙ ap suc (collect-length keys k2 e3)

  -- The code outside never panics in an answer of its own.
  abbrev pub IsCalm : Type 0
  IsCalm =
      ((key : Text) → env.crypto_client_of_public_key key ≢ err Failure.panic)
      × ((key : Text) → key_address env key ≢ err Failure.panic)

  picked-calm :
      (addr ki : Text) (idx : ℕ) (r : Result Text) (rest : Result (Text × ℕ))
      → rest ≢ err Failure.panic
      → pick env addr ki idx r rest ≢ err Failure.panic
  picked-calm addr ki idx (err e) rest calm = calm
  picked-calm addr ki idx (ok a) rest calm = elim (Bool-cases (text_eq addr a)) [
    | inl same ↦ rw same (λ e. absurd (cc e))
    | inr other ↦ rw other calm
  ]

  find_from-calm :
      (addr : Text) (idx : ℕ) (ks keys : List Text)
      → length ks ≡ length keys
      → find_from env addr idx ks keys ≢ err Failure.panic
  unfolding find_from
  find_from-calm addr idx [] keys same = λ e. absurd (cc e)
  find_from-calm addr idx (k ∷ ks) [] same = absurd (omega (arith, same))
  find_from-calm addr idx (k ∷ ks) (key ∷ keys) same =
      picked-calm addr k idx (key_address env key) _
        (find_from-calm addr (suc idx) ks keys (omega (arith, same)))

  at_least_two : (n m : ℕ) → not (ltb n 2) ≡ true → m ≡ n → 1 < m
  at_least_two n m h same = ground arith

  then-calm :
      {A B : Type 0} (r : Result A) (f : A → Result B)
      → r ≢ err Failure.panic
      → ((a : A) → f a ≢ err Failure.panic)
      → and_then r f ≢ err Failure.panic
  then-calm (ok a) f p q = q a
  then-calm (err x) f p q = λ e. p (cc e)

  finds_calm :
      (msd : MultisigData) (pub_json : Text)
      → IsCalm
      → length msd.k_list ≡ length msd.pub_keys
      → find_k_from_k_list env msd pub_json ≢ err Failure.panic
  unfolding find_k_from_k_list
  finds_calm msd pub_json calm same =
      then-calm (env.crypto_client_of_public_key pub_json) _ (calm.0 pub_json) λ client.
        then-calm (key_address env pub_json) _ (calm.1 pub_json)
          λ addr. find_from-calm addr 0 msd.k_list msd.pub_keys same

  -- The multisig data that `getMultiSignData` makes has the public keys that it was given, at least two of
  -- them, and one random value for each; whatever public key a signer then looks for,
  -- `findKFromKList` does not run over the end of the public keys.
  pub get_multi_sign_data_lem :
      (pubkeys : List Text) (pub_json : Text) (h h' : History) (msd : MultisigData)
      → IsCalm
      → get_multi_sign_data pubkeys h ≡ (ok msd, h')
      → (msd.pub_keys ≡ pubkeys)
        × (1 < length msd.k_list)
        × (length msd.k_list ≡ length msd.pub_keys)
        × (find_k_from_k_list env msd pub_json ≢ err Failure.panic)
  unfolding get_multi_sign_data
  get_multi_sign_data_lem pubkeys pub_json h h' msd calm e =
      let (_, k1, e1, f1) = >>=-eq-ok _ _ h e in
      let (key, k2, _, f2) = >>=-eq-ok _ _ k1 f1 in
      let (_, k3, _, f3) = >>=-eq-ok _ _ k2 f2 in
      let (lists, k4, e4, f4) = >>=-eq-ok _ _ k3 f3 in
      let (pk, k5, _, f5) = >>=-eq-ok _ _ k4 f4 in
      let (spk, k6, _, f6) = >>=-eq-ok _ _ k5 f5 in
      let made = (pure-eq-ok _ k6 f6).0 in
      let count = collect-length pubkeys k3 e4 in
      let keys = ap (λ (m : MultisigData). m.pub_keys) made in
      let ks = ap (λ (m : MultisigData). length m.k_list) made in
      let same = sym ks ∙ count ∙ ap (λ (l : List Text). length l) keys in
      (
        sym keys,
        at_least_two _ _ (guard-eq-ok _ _ h e1).0 (sym ks ∙ count),
        same,
        finds_calm msd pub_json calm same,
      )
