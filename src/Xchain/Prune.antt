-- ===== src/Xchain/Prune.antt =====
-- cmd/xchain/cmd/pruneledger.go: a ledger cut back to a target block. The state is moved first; all
-- that changes in the ledger goes into one batch, which is written last.
pub mod Atomic
use xuperchain.Prelude.{Option, none, some, List, [], ◌∷◌, ◌++◌, ℤ}
use xuperchain.Go.Text.{Text}
use xuperchain.Exec.{Failure, Message, Result, ok, err, and_then}
use xuperchain.Xchain.Open.{HandleWorld, check, create_env_config, create_handle}

-- `LedgerMeta`, as far as it is used; the other fields are copied.
pub record LedgerMeta : Type 0 where
  pub tip_blockid : Text
  pub trunk_height : ℤ
  pub other_fields : Text

pub record Block : Type 0 where
  pub blockid : Text
  pub height : ℤ

-- What a batch holds: the writes of `HandleFork` and of `RemoveBlocks`, the meta entry, the branch heads
-- to delete.
pub data Op : Type 0 where
  outside_write : Text → Op
  put_meta : LedgerMeta → Op
  delete_branch : Text → Op

-- An error of the ledger, by what the command tests.
pub data LedgerError : Type 0 where
  kv_not_found block_not_exist : LedgerError
  other_error : Text → LedgerError

-- The ledger and the state of a chain, with what they answer.
pub record PruneWorld (S L : Type 0) : Type 0 where
  pub handles : HandleWorld
  pub decode_hex : Text → Result Text
  pub query_block : L → Text → Result Block
  -- what the state is after the walk, and its error
  pub walk : S → Text → Option Failure × S
  pub get_meta : L → LedgerMeta
  -- the writes that went into the batch, and the error
  pub handle_fork : L → Text → Text → List Op × Option Failure
  pub marshal_meta : LedgerMeta → Option Failure
  pub batch_put : LedgerMeta → Option Failure
  pub get_branch_info : L → Text → ℤ → Result (List Text)
  pub get_common_parent : L → Text → Text → Text × Option LedgerError
  pub remove_blocks : L → Text → Text → List Op × Option LedgerError
  pub batch_delete : Text → Option Failure
  pub batch_write : L → List Op → Option Failure × L

-- The flags of the command
pub record PruneFlags : Type 0 where
  pub name : Text
  pub target : Text
  pub env_conf : Text
  pub crypto : Text

-- What is on disk.
pub record Disk (S L : Type 0) : Type 0 where
  pub state : S
  pub ledger : L

-- The errors that the loop goes on after
abbrev pub fatal : Option LedgerError → Option Failure
fatal (some (other_error e)) = some (Failure.outside e)
fatal _ = none

module _ {S L : Type 0} (w : PruneWorld S L) where
  abbrev pub common_parent : L → Block → Text → Text × Option LedgerError
  common_parent l target head = w.get_common_parent l target.blockid head

  abbrev pub removed : L → Block → Text → List Op × Option LedgerError
  removed l target head = w.remove_blocks l head (common_parent l target head).0

  -- The body of the loop in `pruneInvalidBranch`
  unfoldable pub prune_branch : L → Block → Text → Result (List Op)
  prune_branch l target head = and_then (check (fatal (common_parent l target head).1)) (λ _.
      and_then (check (fatal (removed l target head).1)) (λ _.
        and_then (check (w.batch_delete head))
          (λ _. ok ((removed l target head).0 ++ delete_branch head ∷ []))))

  unfoldable pub prune_branches : L → Block → List Text → Result (List Op)
  unfolding prune_branch
  prune_branches l target [] = ok []
  prune_branches l target (head ∷ heads) =
      and_then (prune_branch l target head)
        (λ ops. and_then (prune_branches l target heads) (λ more. ok (ops ++ more)))

  -- `pruneInvalidBranch`
  unfoldable pub prune_invalid_branch : L → Block → Result (List Op)
  unfolding prune_branches
  prune_invalid_branch l target =
      and_then (w.get_branch_info l target.blockid target.height) (prune_branches l target)

  abbrev pub new_meta : L → Block → LedgerMeta
  new_meta l target = record (w.get_meta l) {
    trunk_height = target.height;
    tip_blockid = target.blockid;
  }

  abbrev pub forked : L → Text → List Op × Option Failure
  forked l id = w.handle_fork l (w.get_meta l).tip_blockid id

  -- All that goes into the batch, in its order
  unfoldable pub fill_batch : L → Text → Block → Result (List Op)
  unfolding prune_invalid_branch
  fill_batch l id target = and_then (check (forked l id).1) (λ _.
      and_then (check (w.marshal_meta (new_meta l target))) (λ _.
        and_then (check (w.batch_put (new_meta l target))) (λ _.
          and_then (prune_invalid_branch l target)
            (λ ops. ok ((forked l id).0 ++ put_meta (new_meta l target) ∷ ops)))))

  -- What comes before the walk
  unfoldable pub find_target : PruneFlags → L → Result (Text × Block)
  find_target c l = and_then (create_handle w.handles c.name c.crypto) (λ _.
      and_then (w.decode_hex c.target)
        (λ id. and_then (w.query_block l id) (λ target. ok (id, target))))

  abbrev pub written : S → Result (List Op) → L → Option Failure × Disk S L
  written s (err e) l = (some e, record { state = s; ledger = l })
  written s (ok batch) l =
      let (e, l') = w.batch_write l batch in (e, record { state = s; ledger = l' })

  abbrev pub walked : Text → Block → Option Failure × S → L → Option Failure × Disk S L
  walked id target (some e, s) l = (some e, record { state = s; ledger = l })
  walked id target (none, s) l = written s (fill_batch l id target) l

  abbrev pub pruned : Disk S L → Result (Text × Block) → Option Failure × Disk S L
  pruned d (err e) = (some e, d)
  pruned d (ok (id, target)) = walked id target (w.walk d.state id) d.ledger

  -- `pruneLedger`
  unfoldable pub prune_ledger : PruneFlags → Disk S L → Option Failure × Disk S L
  unfolding find_target fill_batch create_handle
  prune_ledger c d = pruned d (find_target c d.ledger)

  abbrev configured : Disk S L → PruneFlags → Result (Unit {0}) → Option Failure × Disk S L
  configured d c (err e) = (some e, d)
  configured d c (ok _) = prune_ledger c d

  -- The command
  unfoldable pub run_prune : PruneFlags → Disk S L → Option Failure × Disk S L
  unfolding prune_ledger
  run_prune c d = configured d c (create_env_config w.handles c.env_conf)
