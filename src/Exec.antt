-- ===== src/Exec.antt =====
-- How the program runs: calls of the world outside, each recorded in a history, and errors as values.
-- The answer of a call may depend on the whole history before it.
pub mod Yields
use xuperchain.Prelude.{Bool, true, false, Option, none, some, List, ◌∷◌, ◌≡◌, refl}
use mathlib.Core.Path.{subst}
use xuperchain.Go.Text.{Text}
use xuperchain.Pb.{
  TxStatus, UtxoInput, InvokeRpcRequest, PreExecWithSelectUtxoRequest, EndorserRequest, Transaction,
}

-- The errors that the code makes itself, by what they say.
pub data Message : Type 0 where
  invalid_amount negative_amount select_utxo_error fee_not_enough need_add_fee contract_error
        get_initiator_error get_auth_require_error pre_exec_error get_request_error invalid_fee
        tx_id_error crypto_client_error failed_to_post_tx write_file_error tx_marshal_error
        illegal_split_num illegal_split_utxo read_init_ak_error empty_account account_path_required
        parse_account_error auth_requirement_error get_total_need_error not_enough_utxo_to_merge
        gen_tx_output_error gen_tx_input_error sign_error endorser_call_error tx_convert_fail
        open_sign_file_error unmarshal_error sign_count_error partial_sign_invalid too_few_parties
        sign_type_not_supported invalid_public_keys key_not_found too_few_arguments
        open_tx_file_error send_tx_error empty_request_data query_tx_error tx_not_found
        request_name_not_supported empty_host unknown_endorser_module register_endorser_error
        listen_error not_init bad_argument account_name_required proposal_id_required
        invalid_stop_height stop_height_too_low tdpos_needs_desc xpoa_needs_account acl_error
        no_account no_proposal_id create_ledger_error query_block_error expect_argument
        config_not_exist load_config_error invalid_name :
      Message

pub data Failure : Type 0 where
  -- an error that code outside the repository returned
  outside : Text → Failure
  -- `errors.New`
  said : Message → Failure
  -- `fmt.Errorf` round another error
  within : Message → Failure → Failure
  -- a nil dereference or an index out of range
  panic : Failure

pub data Result {ℓ} (A : Type ℓ) : Type ℓ where
  ok : A → Result A
  err : Failure → Result A

-- A step that makes no call.
abbrev pub and_then {ℓ κ} : {A : Type ℓ} {B : Type κ} → Result A → (A → Result B) → Result B
and_then (ok a) f = f a
and_then (err e) f = err e

-- What holds of the value, if there is one.
abbrev pub Ensures {ℓ κ} : {A : Type ℓ} → (A → Type κ) → Result A → Type κ
Ensures P (ok a) = P a
Ensures P (err e) = Unit

pub Ensures-ok {ℓ κ} :
    {A : Type ℓ} (P : A → Type κ) (r : Result A) {a : A} → Ensures P r → r ≡ ok a → P a
Ensures-ok P r h e = subst (Ensures P) e h

pub Ensures-and_then {ℓ κ μ} :
    {A : Type ℓ} {B : Type κ} (P : A → Type μ) (Q : B → Type μ) (r : Result A) (f : A → Result B)
    → Ensures P r
    → ((a : A) → P a → Ensures Q (f a))
    → Ensures Q (and_then r f)
Ensures-and_then P Q (ok a) f h k = k a h
Ensures-and_then P Q (err e) f h k = tt

pub Ensures-and_then_any {ℓ κ μ} :
    {A : Type ℓ} {B : Type κ} (Q : B → Type μ) (r : Result A) (f : A → Result B)
    → ((a : A) → r ≡ ok a → Ensures Q (f a))
    → Ensures Q (and_then r f)
Ensures-and_then_any Q (ok a) f k = k a refl
Ensures-and_then_any Q (err e) f k = tt

-- A call that leaves the process, or that may answer differently the next time.
pub data Effect : Type 0 where
  read_file read_dir stat : Text → Effect
  write_file : Text → Text → Effect
  draw_nonce draw_log_id draw_random read_clock : Effect
  sign_tx : Text → Transaction → Effect
  sign_data : Text → Text → Effect
  select_utxo select_utxo_by_size : UtxoInput → Effect
  pre_exec : InvokeRpcRequest → Effect
  pre_exec_with_select_utxo : PreExecWithSelectUtxoRequest → Effect
  get_balance : Text → Text → Effect
  post_tx query_tx : TxStatus → Effect
  endorser_call : EndorserRequest → Effect
  -- the chain and the account
  query_acl : Text → Text → Effect
  get_system_status : Effect

-- The latest call first.
abbrev pub History : Type 0
History = List Effect

abbrev pub Io : Type 0 → Type 0
Io A = History → Result A × History

abbrev pub then_run : {A B : Type 0} → (A → Io B) → Result A → Io B
then_run f (ok a) h = f a h
then_run f (err e) h = (err e, h)

unfoldable pub pure : {A : Type 0} → A → Io A
pure a h = (ok a, h)

unfoldable pub raise : {A : Type 0} → Failure → Io A
raise e h = (err e, h)

unfoldable pub lift : {A : Type 0} → Result A → Io A
lift r h = (r, h)

unfoldable pub ask : {A : Type 0} → Effect → (History → Result A) → Io A
ask e f h = (f h, e ∷ h)

-- `if err != nil { return fmt.Errorf(…, err) }`
abbrev pub wrap_result : {A : Type 0} → Message → Result A → Result A
wrap_result m (ok a) = ok a
wrap_result m (err e) = err (Failure.within m e)

unfoldable pub wrap : {A : Type 0} → Message → Io A → Io A
wrap m io h = let (r, h') = io h in (wrap_result m r, h')

-- `if err != nil { return errors.New(…) }`
abbrev pub replace_result : {A : Type 0} → Message → Result A → Result A
replace_result m (ok a) = ok a
replace_result m (err e) = err (Failure.said m)

unfoldable pub replace : {A : Type 0} → Message → Io A → Io A
replace m io h = let (r, h') = io h in (replace_result m r, h')

unfoldable pub guard : Bool → Failure → Io (Unit {0})
guard true e h = (ok tt, h)
guard false e h = (err e, h)

unfoldable pub or_fail : {A : Type 0} → Option A → Failure → Io A
or_fail none e h = (err e, h)
or_fail (some a) e h = (ok a, h)

infixl 5 ◌>>=◌ ◌>>◌
-- To open this is to open every step.
unfoldable pub ◌>>=◌ : {A B : Type 0} → Io A → (A → Io B) → Io B
unfolding pure raise lift ask wrap replace guard or_fail
◌>>=◌ m f h = let (r, h') = m h in then_run f r h'

abbrev pub ◌>>◌ : {B : Type 0} → Io (Unit {0}) → Io B → Io B
m >> k = m >>= λ _. k

pub ok-inj {ℓ} : {A : Type ℓ} {a b : A} → ok a ≡ ok b → a ≡ b
ok-inj e = cc e

pub and_then-eq-ok {ℓ κ} :
    {A : Type ℓ} {B : Type κ} (r : Result A) (f : A → Result B) {b : B}
    → and_then r f ≡ ok b
    → (a : A) × (r ≡ ok a) × (f a ≡ ok b)
and_then-eq-ok (ok a) f h = (a, refl, h)
and_then-eq-ok (err e) f h = cc

pub and_then_assoc {ℓ κ μ} :
    {A : Type ℓ} {B : Type κ} {C : Type μ} (r : Result A) (f : A → Result B) (g : B → Result C)
    → and_then (and_then r f) g ≡ and_then r (λ a. and_then (f a) g)
and_then_assoc (ok a) f g = refl
and_then_assoc (err e) f g = refl

-- What a successful block of steps did first.
pub >>=-eq-ok :
    {A B : Type 0} (m : Io A) (f : A → Io B) (h : History) {b : B} {h' : History}
    → (m >>= f) h ≡ (ok b, h')
    → (a : A) × (k : History) × (m h ≡ (ok a, k)) × (f a k ≡ (ok b, h'))
unfolding ◌>>=◌
>>=-eq-ok {A} {B} m f h {b} {h'} e = go (m h).0 (m h).1 refl e
  where
    go :
        (r : Result A) (k : History)
        → m h ≡ (r, k)
        → then_run f r k ≡ (ok b, h')
        → (a : A) × (k : History) × (m h ≡ (ok a, k)) × (f a k ≡ (ok b, h'))
    go (ok a) k p q = (a, k, p, q)
    go (err x) k p q = absurd (cc q)
