-- ===== src/Client/Multisig/Post.antt =====
-- What `sendXuper` posts.
use mathlib.Core.Path.{subst}
use xuperchain.Prelude.{
  true, some, List, [], ◌∷◌, ◌++◌, ◌≡◌, ap, sym, ◌∙◌, ℕ, ◌<◌, length, replicate, ltb, ◌==◌, arith,
}
use xuperchain.Go.Text.{Text, lit, split}
use xuperchain.Pb.{Transaction}
use xuperchain.Exec.{Message, Effect, Result, ok, History, wrap, lift, >>=-eq-ok}
use xuperchain.Client.Env.{Env, MultisigData, PartialSign}
use xuperchain.Client.Keys.{make_tx_id}
use xuperchain.Client.RawTx.Post.{
  wrapped-eq-ok, wrap-eq-ok, ask-eq-ok, lift-eq-ok, replace-ask-eq-ok, or_fail-eq-ok, IsPosted,
  post_tx-IsPosted, replace-lift-eq-ok, pure-eq-ok, guard-eq-ok,
}
use xuperchain.Client.Multisig.{load_tx, load_multisig, read_shares, post_multi_signed, send_xuper}
use xuperchain.Client.Multisig.Shares.{fill, InRange, Loads, length-Loads, load_partial_sign-eq-ok}

wrap-lift-eq-ok :
    {A : Type 0} (m : Message) (r : Result A) (h : History) {a : A} {h' : History}
    → wrap m (lift r) h ≡ (ok a, h')
    → r ≡ ok a
unfolding wrap lift
wrap-lift-eq-ok m r h e = wrapped-eq-ok m r (ap (λ p. p.0) e)

more_than_one : (n : ℕ) → ltb 1 n ≡ true → 1 < n
more_than_one n h = ground arith

same_count : (m n : ℕ) → (m == n) ≡ true → m ≡ n
same_count m n h = ground arith

-- The file beside that of a transaction, which holds the multisig data
abbrev pub multisig_file : Text → Text
multisig_file tx_file = tx_file ++ lit ".ext"

module _ (env : Env) where
  -- What the files hold, and what is in the slots after them
  read_shares-fill :
      (need : ℕ) (files slots : List Text) (h : History) {out : List Text} {h' : History}
      → read_shares env need files slots h ≡ (ok out, h')
      → (ps : List PartialSign) × Loads env files ps h × InRange need ps × (out ≡ fill ps slots)
  unfolding read_shares
  read_shares-fill need [] slots h e = ([], tt, tt, sym (pure-eq-ok slots h e).0)
  read_shares-fill need (file ∷ files) slots h e =
      let (psi, k1, e1, f1) = >>=-eq-ok _ _ h e in
      let (_, k2, e2, f2) = >>=-eq-ok _ _ k1 f1 in
      let (buf, reads, decodes, q1) = load_partial_sign-eq-ok env file h e1 in
      let (inside, q2) = guard-eq-ok _ _ k1 e2 in
      let (ps, loads, range, filled) = read_shares-fill need files _ k2 f2 in
      (
        psi ∷ ps,
        (buf, reads, decodes, subst (Loads env files ps) (q2 ∙ q1) loads),
        (inside, range),
        filled,
      )

  abbrev pub files_read : Text → History → History
  files_read tx_file h = Effect.read_file (multisig_file tx_file) ∷ Effect.read_file tx_file ∷ h

  -- The first holds the transaction, and the second the multisig data.
  abbrev pub IsLoaded : Text → History → Transaction → MultisigData → Type 0
  IsLoaded tx_file h tx msd =
      (tx_text : Text) × (msd_text : Text) × (env.read_file h tx_file ≡ ok tx_text)
      × (env.unmarshal_tx tx_text ≡ some tx)
      × (env.read_file (Effect.read_file tx_file ∷ h) (multisig_file tx_file) ≡ ok msd_text)
      × (env.unmarshal_multisig msd_text ≡ ok msd)

  load_tx-eq-ok :
      (tx_file : Text) (h : History) {tx : Transaction} {h' : History}
      → load_tx env tx_file h ≡ (ok tx, h')
      → (text : Text) × (env.read_file h tx_file ≡ ok text)
        × (env.unmarshal_tx text ≡ some tx)
        × (h' ≡ Effect.read_file tx_file ∷ h)
  unfolding load_tx
  load_tx-eq-ok tx_file h e =
      let (text, k1, e1, f1) = >>=-eq-ok _ _ h e in
      let (reads, q1) = replace-ask-eq-ok _ _ _ h e1 in
      let (decodes, q2) = or_fail-eq-ok _ _ k1 f1 in (text, reads, decodes, q2 ∙ q1)

  pub load_multisig-eq-ok :
      (tx_file : Text) (h : History) {msd : MultisigData} {h' : History}
      → load_multisig env tx_file h ≡ (ok msd, h')
      → (text : Text) × (env.read_file h (multisig_file tx_file) ≡ ok text)
        × (env.unmarshal_multisig text ≡ ok msd)
        × (h' ≡ Effect.read_file (multisig_file tx_file) ∷ h)
  unfolding load_multisig
  load_multisig-eq-ok tx_file h e =
      let (text, k1, e1, f1) = >>=-eq-ok _ _ h e in
      let (reads, q1) = ask-eq-ok _ _ h e1 in
      let (decodes, q2) = lift-eq-ok _ k1 (wrap-eq-ok _ _ k1 f1) in (text, reads, decodes, q2 ∙ q1)

  loaded :
      (tx_file : Text) (h k k' : History) (tx : Transaction) (msd : MultisigData)
      → load_tx env tx_file h ≡ (ok tx, k)
      → load_multisig env tx_file k ≡ (ok msd, k')
      → IsLoaded tx_file h tx msd × (k' ≡ files_read tx_file h)
  loaded tx_file h k k' tx msd e e' =
      let (tx_text, reads, decodes, q) = load_tx-eq-ok tx_file h e in
      let (msd_text, reads', decodes', q') = load_multisig-eq-ok tx_file k e' in
      (
        (
          tx_text,
          msd_text,
          reads,
          decodes,
          subst (λ l. env.read_file l (multisig_file tx_file) ≡ ok msd_text) q reads',
          decodes',
        ),
        q' ∙ ap (λ l. Effect.read_file (multisig_file tx_file) ∷ l) q,
      )

  abbrev pub with_sign : List Text → Text → Transaction → Transaction
  with_sign keys sign tx = record tx {
    xuper_sign = some (record { public_keys = keys; signature = sign });
  }

  -- The signature made from the slots, and the transaction posted with it
  abbrev pub IsSignedAndPosted :
      Text → MultisigData → Transaction → List Text → Text → Text → History → Type 0
  IsSignedAndPosted name msd tx slots sign txid h' =
      (env.multi_sign_signature (env.s_using_all_si slots) msd.r ≡ ok sign)
      × (make_tx_id env (with_sign msd.pub_keys sign tx) ≡ ok txid)
      × IsPosted env name (record (with_sign msd.pub_keys sign tx) { txid = txid }) h'

  post_multi_signed-IsPosted :
      (name : Text) (msd : MultisigData) (tx : Transaction) (slots : List Text) (h h' : History)
      (txid : Text)
      → post_multi_signed env name msd tx slots h ≡ (ok txid, h')
      → (sign : Text) × IsSignedAndPosted name msd tx slots sign txid h'
  unfolding post_multi_signed
  post_multi_signed-IsPosted name msd tx slots h h' txid e =
      let (key, k1, _, f1) = >>=-eq-ok _ _ h e in
      let (_, k2, _, f2) = >>=-eq-ok _ _ k1 f1 in
      let (sign, k3, e3, f3) = >>=-eq-ok _ _ k2 f2 in
      let (id, k4, e4, f4) = >>=-eq-ok _ _ k3 f3 in
      let (same, posted) =
        post_tx-IsPosted env name _ k4 (wrap-eq-ok Message.send_tx_error _ k4 f4) in
      let signed = with_sign msd.pub_keys sign tx in
      (
        sign,
        (
          wrap-lift-eq-ok _ _ k2 e3,
          replace-lift-eq-ok _ _ k3 e4 ∙ ap ok same,
          subst (λ i. IsPosted env name (record signed { txid = i }) h') same posted,
        ),
      )

  -- If `sendXuper` returns an id, then it has decoded the transaction and the multisig data from their
  -- two files, and a partial signature from each of the files named, read in the order given after those
  -- two; there are at least two parties, as many partial signatures as parties, and the index of each
  -- names a party; the signature is made from the slots that they fill, the id is computed from the
  -- transaction with this signature and the public keys of the multisig data, and the last call has
  -- posted this transaction under that id, which the node has answered with the code of success.
  pub send_xuper-IsPosted :
      (name tx_file signs : Text) (h h' : History) (txid : Text)
      → send_xuper env name tx_file signs h ≡ (ok txid, h')
      → (tx : Transaction) × (msd : MultisigData) × (ps : List PartialSign) × (sign : Text)
        × IsLoaded tx_file h tx msd
        × Loads env (split 44 signs) ps (files_read tx_file h)
        × (1 < length msd.k_list)
        × (length ps ≡ length msd.k_list)
        × InRange (length msd.k_list) ps
        × IsSignedAndPosted name msd tx (fill ps (replicate (length msd.k_list) [])) sign txid h'
  unfolding send_xuper
  send_xuper-IsPosted name tx_file signs h h' txid e =
      let (tx, k1, e1, f1) = >>=-eq-ok _ _ h e in
      let (msd, k2, e2, f2) = >>=-eq-ok _ _ k1 f1 in
      let (_, k3, e3, f3) = >>=-eq-ok _ _ k2 f2 in
      let (_, k4, e4, f4) = >>=-eq-ok _ _ k3 f3 in
      let (slots, k5, e5, f5) = >>=-eq-ok _ _ k4 f4 in
      let (held, q2) = loaded tx_file h k1 k2 tx msd e1 e2 in
      let (more, q3) = guard-eq-ok _ _ k2 e3 in
      let (as_many, q4) = guard-eq-ok _ _ k3 e4 in
      let (ps, loads, range, filled) = read_shares-fill _ _ _ k4 e5 in
      let (sign, posted) = post_multi_signed-IsPosted name msd tx slots k5 h' txid f5 in
      (
        tx,
        msd,
        ps,
        sign,
        held,
        subst (Loads env (split 44 signs) ps) (q4 ∙ q3 ∙ q2) loads,
        more_than_one _ more,
        length-Loads env (split 44 signs) ps k4 loads ∙ same_count _ _ as_many,
        range,
        subst (λ s. IsSignedAndPosted name msd tx s sign txid h') filled posted,
      )
