-- ===== src/Tests/Node.antt =====
-- A small node: one chain, whose ledger finds one utxo that is worth five more than what is asked for.
use xuperchain.Prelude.{
  Bool, true, false, ◌&&◌, none, some, [], ◌∷◌, ◌≡◌, refl, ℕ, ◌+◌, ℤ, pos, negsuc, is_zero,
  if◌then◌else◌, Bool-cases, inl, inr,
}
use mathlib.Core.Path.{subst}
use xuperchain.Go.Text.{Text, lit, text_eq, text_eq→eq}
use xuperchain.Pb.{TransactionStatus, Utxo, UtxoOutput, InvokeResponse}
use xuperchain.Pb.Chain.{InternalBlock, BlockStatus, LedgerMeta, UtxoMeta}
use xuperchain.Client.Inputs.Change.{IsSelection}
use xuperchain.Client.RawTx.{empty_tx}
use xuperchain.Server.Handle.{ChainEnv, StdError, Outcome}
use xuperchain.Server.Convert.{Wire}
use xuperchain.Server.Rpc.{RpcEnv}
use xuperchain.Server.Rpc.Select.Ledger.{IsRoundTrip, LedgerSelects}
use xuperchain.Server.Intercept.{InterceptEnv, StdName}
use xuperchain.Server.Intercept.Code.{SuccessIsOwn}
use xuperchain.Node.{Node}
use xuperchain.Tests.World.{one_utxo, selected}

abbrev pub alice : Text
alice = lit "alice"

abbrev pub found_for : Text → ℤ → Outcome UtxoOutput
found_for addr (pos n) = Outcome.done (one_utxo addr (n + 5))
found_for addr (negsuc n) = Outcome.failed StdError.err_internal

abbrev pub one_chain : ChainEnv
one_chain = record {
  has_chain = λ name. text_eq name (lit "xuper");
  is_account = λ name. true;
  public_key = λ key. none;
  verify_ecdsa = λ key sign digest. none;
  verify_address = λ addr key. false;
  double_sha256 = λ text. text;
  select = λ addr need lock exclude. found_for addr need;
  select_by_size = λ addr lock exclude. Outcome.done (one_utxo addr 5);
}

-- A wire that carries no more than one message
abbrev pub always : {A B : Type 0} → B → Wire A B
always b = record { marshal = λ a. some []; unmarshal = λ buf. some b }

-- The wire of the utxos of alice, which differ by their amounts
abbrev pub is_sample : Utxo → Bool
is_sample u = text_eq u.to_addr alice && (text_eq u.ref_txid (lit "t") && is_zero u.ref_offset)

abbrev pub utxo_wire : Wire Utxo Utxo
utxo_wire = record {
  marshal = λ u. if is_sample u then some u.amount else none;
  unmarshal = λ buf.
      some (record { amount = buf; to_addr = alice; ref_txid = lit "t"; ref_offset = pos 0 });
}

abbrev pub block : InternalBlock
block = record {
  version = pos 1;
  nonce = pos 0;
  blockid = lit "b";
  pre_hash = [];
  proposer = alice;
  sign = [];
  pubkey = [];
  merkle_root = [];
  height = pos 4;
  timestamp = pos 9;
  transactions = [];
  tx_count = pos 0;
  merkle_tree = [];
  in_trunk = true;
  next_hash = [];
  cur_term = pos 0;
  cur_block_num = pos 0;
  failed_txs = [];
  target_bits = pos 0;
  justify = none;
}

abbrev pub ledger_meta : LedgerMeta
ledger_meta = record { root_blockid = lit "r"; tip_blockid = lit "b"; trunk_height = pos 4 }

abbrev pub utxo_meta : UtxoMeta
utxo_meta = record {
  latest_blockid = lit "b";
  lock_key_list = [];
  utxo_total = lit "20";
  avg_delay = pos 0;
  unconfirm_tx_amount = pos 0;
  max_block_size = pos 0;
  reserved_contracts = [];
  forbidden_contract = none;
  new_account_resource_amount = pos 0;
  irreversible_block_height = pos 0;
  irreversible_slide_window = pos 0;
  gas_price = none;
  group_chain_contract = none;
}

abbrev pub three_gas : InvokeResponse
three_gas = record {
  inputs = [];
  outputs = [];
  response = [];
  gas_used = pos 3;
  requests = [];
  responses = [];
  utxo_inputs = [];
  utxo_outputs = [];
}

abbrev pub rpc_world : RpcEnv
rpc_world = record {
  chain = λ h name. one_chain;
  submit = λ h name tx. none;
  pre_exec = λ h name reqs initiator auth. Outcome.done (some []);
  query_tx = λ h name txid.
      Outcome.done (record { tx = some []; status = TransactionStatus.confirm; distance = pos 2 });
  query_block =
      λ h name id. Outcome.done (record { block = some block; status = BlockStatus.trunk });
  query_block_by_height =
      λ h name height. Outcome.done (record { block = some block; status = BlockStatus.trunk });
  query_chain_status = λ h name. Outcome.done (record {
    ledger_meta = some ledger_meta;
    utxo_meta = some utxo_meta;
    block = some block;
    branch_ids = [];
  });
  is_trunk_tip_block = λ h name id. Outcome.done true;
  get_balance = λ h name addr. Outcome.done (lit "20");
  get_frozen_balance = λ h name addr. Outcome.failed StdError.err_internal;
  get_balance_detail = λ h name addr. Outcome.done (some []);
  query_account_acl = λ h name account. Outcome.done (some []);
  query_method_acl = λ h name contract method. Outcome.done none;
  get_account_contracts = λ h name account. Outcome.done none;
  get_account_by_ak = λ h name ak. Outcome.done none;
  query_utxo_record = λ h name account count. Outcome.failed StdError.err_internal;
  query_contract_stat_data = λ h name. Outcome.failed StdError.err_internal;
  query_consensus_status = λ h name. Outcome.failed StdError.err_internal;
  get_chains = λ h. lit "xuper" ∷ lit "lost" ∷ [];
  peer_info = λ h. record { address = lit "me"; peer = record { address = lit "you" } ∷ [] };
  tx_wire = always (lit "tx");
  ledger_tx_wire = always empty_tx;
  request_wire = always (lit "request");
  response_wire = always three_gas;
  utxo_wire = utxo_wire;
  acl_wire = always (lit "acl");
  contract_status_wire = always (lit "status");
  balance_detail_wire = always (record { balance = lit "20"; is_frozen = false });
  block_wire = always block;
  ledger_meta_wire = always ledger_meta;
  utxo_meta_wire = always utxo_meta;
}

found_for-IsSelection :
    (addr : Text) (need : ℕ) (outs : UtxoOutput)
    → found_for addr (pos need) ≡ Outcome.done outs
    → IsSelection need outs
found_for-IsSelection addr need outs e =
    let found : one_utxo addr (need + 5) ≡ outs = cc e in
    subst (λ o. IsSelection need o) found (selected addr need)

is_zero-eq : (z : ℤ) → is_zero z ≡ true → z ≡ pos 0
is_zero-eq (pos ℕ.zero) e = refl
is_zero-eq (pos (ℕ.suc n)) e = absurd (cc e)
is_zero-eq (negsuc n) e = absurd (cc e)

and-true : (a b : Bool) → (a && b) ≡ true → (a ≡ true) × (b ≡ true)
and-true true b e = (refl, e)
and-true false b e = absurd (cc e)

utxo_wire-IsRoundTrip : IsRoundTrip utxo_wire
utxo_wire-IsRoundTrip u v buf w r = elim (Bool-cases (is_sample u)) [
  | inr other ↦ absurd (cc (rw other at w))
  | inl good ↦
      let (to, rest) = and-true (text_eq u.to_addr alice) _ good in
      let (txid, offset) = and-true (text_eq u.ref_txid (lit "t")) (is_zero u.ref_offset) rest in
      cc (
        r,
        rw good at w,
        text_eq→eq u.to_addr alice to,
        text_eq→eq u.ref_txid (lit "t") txid,
        is_zero-eq u.ref_offset offset,
      )
]

pub rpc_world-LedgerSelects : LedgerSelects rpc_world
rpc_world-LedgerSelects = record {
  selection = λ h name account need lock exclude outs e. found_for-IsSelection account need outs e;
  round_trip = λ u v buf w r. utxo_wire-IsRoundTrip u v buf w r;
}

abbrev pub code_number : StdName → ℤ
code_number StdName.err_success = pos 0
code_number _ = pos 1

abbrev pub intercept_world : InterceptEnv
intercept_world = record {
  code = code_number;
  cast_error = λ e. pos 1;
  host_name = lit "host";
  gen_log_id = λ h. lit "log";
}

own_code : (n : StdName) → code_number n ≡ pos 0 → n ≡ StdName.err_success
own_code n e =
    elim n as (λ k. code_number k ≡ pos 0 → k ≡ StdName.err_success) [
      | StdName.err_success ↦ λ _. refl
      | _ ↦ λ bad. absurd (cc bad)
    ]
      e

pub intercept_world-SuccessIsOwn : SuccessIsOwn intercept_world
intercept_world-SuccessIsOwn = record {
  of_name = λ n e. own_code n e;
  of_error = λ e same. absurd (cc same);
}

abbrev pub one_node : Node
one_node = record {
  rpc = rpc_world;
  intercept = intercept_world;
  calls = λ h. [];
  error_text = λ e. [];
}
