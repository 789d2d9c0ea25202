-- ===== src/Xchain/Prune/Atomic.antt =====
-- What pruning leaves on disk, however it ends.
use xuperchain.Prelude.{Option, none, some, List, [], ◌∷◌, ◌++◌, ◌≡◌, refl, ◌⊎◌, inl, inr}
use mathlib.Core.Path.{subst}
use xuperchain.Go.Text.{Text}
use xuperchain.Exec.{Failure, Result, ok, err, and_then-eq-ok, ok-inj}
use xuperchain.Xchain.Open.{check, create_env_config}
use xuperchain.Xchain.Prune.{
  Block, Op, put_meta, delete_branch, PruneWorld, PruneFlags, Disk, fatal, common_parent, removed,
  forked, prune_branch, prune_branches, prune_invalid_branch, new_meta, fill_batch, find_target,
  walked, written, pruned, prune_ledger, run_prune, configured,
}

abbrev pub Holds : Op → List Op → Type 0
Holds op [] = ⊥
Holds op (other ∷ ops) = (op ≡ other) ⊎ Holds op ops

abbrev pub HoldsAll : List Text → List Op → Type 0
HoldsAll [] ops = Unit
HoldsAll (head ∷ heads) ops = Holds (delete_branch head) ops × HoldsAll heads ops

Holds-left : (op : Op) (ops more : List Op) → Holds op ops → Holds op (ops ++ more)
Holds-left op [] more h = elim h [ ]
Holds-left op (other ∷ ops) more (inl e) = inl e
Holds-left op (other ∷ ops) more (inr h) = inr (Holds-left op ops more h)

Holds-right : (op : Op) (ops more : List Op) → Holds op more → Holds op (ops ++ more)
Holds-right op [] more h = h
Holds-right op (other ∷ ops) more h = inr (Holds-right op ops more h)

HoldsAll-right :
    (heads : List Text) (ops more : List Op) → HoldsAll heads more → HoldsAll heads (ops ++ more)
HoldsAll-right [] ops more h = tt
HoldsAll-right (head ∷ heads) ops more (h, hs) =
    (Holds-right (delete_branch head) ops more h, HoldsAll-right heads ops more hs)

module _ {S L : Type 0} (w : PruneWorld S L) where
  prune_branch-Holds :
      (l : L) (target : Block) (head : Text) (ops : List Op)
      → prune_branch w l target head ≡ ok ops
      → Holds (delete_branch head) ops
  unfolding prune_branch
  prune_branch-Holds l target head ops e =
      let (_, _, e₁) = and_then-eq-ok (check (fatal (common_parent w l target head).1)) _ e in
      let (_, _, e₂) = and_then-eq-ok (check (fatal (removed w l target head).1)) _ e₁ in
      let (_, _, e₃) = and_then-eq-ok (check (w.batch_delete head)) _ e₂ in
      subst (Holds (delete_branch head)) (ok-inj e₃) (
        Holds-right (delete_branch head) (removed w l target head).0 (delete_branch head ∷ [])
          (inl refl))

  prune_branches-HoldsAll :
      (l : L) (target : Block) (heads : List Text) (ops : List Op)
      → prune_branches w l target heads ≡ ok ops
      → HoldsAll heads ops
  unfolding prune_branches
  prune_branches-HoldsAll l target [] ops e = tt
  prune_branches-HoldsAll l target (head ∷ heads) ops e =
      let (first, e₁, f₁) = and_then-eq-ok (prune_branch w l target head) _ e in
      let (more, e₂, f₂) = and_then-eq-ok (prune_branches w l target heads) _ f₁ in
      subst (HoldsAll (head ∷ heads)) (ok-inj f₂) (
        Holds-left (delete_branch head) first more (prune_branch-Holds l target head first e₁),
        HoldsAll-right heads first more (prune_branches-HoldsAll l target heads more e₂),
      )

  -- A batch that makes the target the tip and deletes every branch head that the ledger listed.
  pub record IsCut (l : L) (target : Block) (batch : List Op) : Type 0 where
    pub heads : List Text
    pub listed : w.get_branch_info l target.blockid target.height ≡ ok heads
    pub deletes : HoldsAll heads batch
    pub moves_tip : Holds (put_meta (new_meta w l target)) batch

  fill_batch-IsCut :
      (l : L) (id : Text) (target : Block) (batch : List Op)
      → fill_batch w l id target ≡ ok batch
      → IsCut l target batch
  unfolding fill_batch prune_invalid_branch
  fill_batch-IsCut l id target batch e =
      let (_, _, e₁) = and_then-eq-ok (check (forked w l id).1) _ e in
      let (_, _, e₂) = and_then-eq-ok (check (w.marshal_meta (new_meta w l target))) _ e₁ in
      let (_, _, e₃) = and_then-eq-ok (check (w.batch_put (new_meta w l target))) _ e₂ in
      let (ops, f, e₄) = and_then-eq-ok (prune_invalid_branch w l target) _ e₃ in
      let (heads, listed, g) =
        and_then-eq-ok (w.get_branch_info l target.blockid target.height) _ f in
      subst (IsCut l target) (ok-inj e₄) (record {
        heads = heads;
        listed = listed;
        deletes = HoldsAll-right heads (forked w l id).0 (put_meta (new_meta w l target) ∷ ops) (
            HoldsAll-right heads (put_meta (new_meta w l target) ∷ []) ops
              (prune_branches-HoldsAll l target heads ops g));
        moves_tip =
            Holds-right (put_meta (new_meta w l target)) (forked w l id).0
              (put_meta (new_meta w l target) ∷ ops) (inl refl);
      })

  -- How pruning ends.
  pub data Ends (c : PruneFlags) (d : Disk S L) : Option Failure × Disk S L → Type 0 where
    -- before the walk: nothing on disk has changed
    untouched : (e : Failure) → Ends c d (some e, d)
    -- in the walk or behind it: the state may have moved, the ledger has not changed
    moved :
        (e : Failure) (id : Text) (target : Block)
        → find_target w c d.ledger ≡ ok (id, target)
        → Ends c d (some e, record { state = (w.walk d.state id).1; ledger = d.ledger })
    -- the walk succeeded, and one batch that cuts the ledger was written
    wrote :
        (id : Text) (target : Block) (batch : List Op)
        → find_target w c d.ledger ≡ ok (id, target)
        → (w.walk d.state id).0 ≡ none
        → IsCut d.ledger target batch
        → Ends c d (
          (w.batch_write d.ledger batch).0,
          record { state = (w.walk d.state id).1; ledger = (w.batch_write d.ledger batch).1 },
        )

  module _ (c : PruneFlags) (d : Disk S L) where
    written-Ends :
        (id : Text) (target : Block) (r : Result (List Op))
        → find_target w c d.ledger ≡ ok (id, target)
        → (w.walk d.state id).0 ≡ none
        → fill_batch w d.ledger id target ≡ r
        → Ends c d (written w (w.walk d.state id).1 r d.ledger)
    written-Ends id target (err e) found walked_well filled = moved e id target found
    written-Ends id target (ok batch) found walked_well filled =
        wrote id target batch found walked_well (fill_batch-IsCut d.ledger id target batch filled)

    walked-Ends :
        (id : Text) (target : Block) (e : Option Failure)
        → find_target w c d.ledger ≡ ok (id, target)
        → (w.walk d.state id).0 ≡ e
        → Ends c d (walked w id target (e, (w.walk d.state id).1) d.ledger)
    walked-Ends id target (some e) found walk = moved e id target found
    walked-Ends id target none found walk =
        written-Ends id target (fill_batch w d.ledger id target) found walk refl

    pruned-Ends :
        (r : Result (Text × Block)) → find_target w c d.ledger ≡ r → Ends c d (pruned w d r)
    pruned-Ends (err e) found = untouched e
    pruned-Ends (ok (id, target)) found = walked-Ends id target (w.walk d.state id).0 found refl

    prune_ledger-Ends : Ends c d (prune_ledger w c d)
    unfolding prune_ledger
    prune_ledger-Ends = pruned-Ends (find_target w c d.ledger) refl

    configured-Ends : (r : Result (Unit {0})) → Ends c d (configured w d c r)
    configured-Ends (err e) = untouched e
    configured-Ends (ok u) = prune_ledger-Ends

    -- However the command ends, the ledger on disk is as it was, with an error, or it is what the write
    -- of a single batch made of it. That batch makes the target block the tip, at the target's height
    -- and with the other meta fields kept, and deletes the head of every branch that the ledger listed
    -- for it. The state is as it was, or as the walk to the target left it; it is moved even if the
    -- ledger is not written in the end.
    pub run_prune-Ends : Ends c d (run_prune w c d)
    unfolding run_prune
    run_prune-Ends = configured-Ends (create_env_config w.handles c.env_conf)
