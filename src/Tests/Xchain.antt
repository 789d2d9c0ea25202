-- ===== src/Tests/Xchain.antt =====
-- A ledger with one branch beside the trunk, cut back to a block.
use xuperchain.Prelude.{true, none, some, List, [], ◌∷◌, pos}
use xuperchain.Go.Text.{Text, lit}
use xuperchain.Exec.{ok}
use xuperchain.Xchain.Open.{HandleWorld}
use xuperchain.Xchain.Prune.{
  PruneWorld, PruneFlags, Disk, Op, outside_write, kv_not_found, run_prune,
}
use xuperchain.Xchain.Prune.Atomic.{Ends, run_prune-Ends}

abbrev opens : HandleWorld
opens = record {
  file_is_exist = λ file. true;
  load_env_conf = λ file. none;
  path_exists = λ name. true;
  new_ledger_ctx = λ name. none;
  open_ledger = λ name. none;
  create_crypto_client = λ crypto. none;
  new_state_ctx = λ name. none;
  new_state = λ name. none;
  create_ledger = λ name conf. none;
}

-- The state is the block that it stands at; the ledger is the batches that were written to it.
abbrev one_branch : PruneWorld Text (List (List Op))
one_branch = record {
  handles = opens;
  decode_hex = λ text. ok text;
  query_block = λ l id. ok (record { blockid = id; height = pos 3 });
  walk = λ s id. (none, id);
  get_meta = λ l. record { tip_blockid = lit "tip"; trunk_height = pos 9; other_fields = [] };
  handle_fork = λ l tip id. (outside_write tip ∷ [], none);
  marshal_meta = λ meta. none;
  batch_put = λ meta. none;
  get_branch_info = λ l id height. ok (lit "branch" ∷ []);
  get_common_parent = λ l id head. ([], some kv_not_found);
  remove_blocks = λ l head parent. (outside_write head ∷ [], none);
  batch_delete = λ head. none;
  batch_write = λ l batch. (none, batch ∷ l);
}

abbrev flags : PruneFlags
flags = record { name = lit "xuper"; target = lit "b"; env_conf = []; crypto = [] }

abbrev on_disk : Disk Text (List (List Op))
on_disk = record { state = lit "tip"; ledger = [] }

run_prune-Ends_example : Ends one_branch flags on_disk (run_prune one_branch flags on_disk)
run_prune-Ends_example = run_prune-Ends one_branch flags on_disk
