-- ===== src/Client/Multisig/Shares.antt =====
-- The slots of the partial signatures, which `sendXuper` fills.
use mathlib.Core.Path.{subst}
use xuperchain.Prelude.{
  true, some, List, [], ◌∷◌, ◌≡◌, ◌≢◌, refl, ap, sym, ◌∙◌, ℕ, zero, suc, ◌<◌, ℤ, pos, negsuc, ◌-ℤ◌,
  pos_part, length, get_elem?, set, replicate, length-set, length-replicate, All, arith,
}
use xuperchain.Go.Text.{Text}
use xuperchain.Exec.{Effect, History, ok, >>=-eq-ok, ◌>>=◌, replace, ask, wrap, lift, guard, pure}
use xuperchain.Client.Env.{Env, PartialSign}
use xuperchain.Client.RawTx.Post.{replace-ask-eq-ok, lift-eq-ok, wrap-eq-ok}
use xuperchain.Client.Multisig.{in_range, load_partial_sign, read_shares}

-- The writes to the slots, in their order
abbrev pub fill : List PartialSign → List Text → List Text
fill [] slots = slots
fill (p ∷ ps) slots = fill ps (set slots (pos_part p.index) p.si)

-- Each index is that of a slot, and no two are the same.
abbrev pub InRange : ℕ → List PartialSign → Type 0
InRange need ps = All (λ (p : PartialSign). in_range p.index need ≡ true) ps

abbrev pub Distinct : List PartialSign → Type 0
Distinct [] = Unit
Distinct (p ∷ ps) = All (λ (q : PartialSign). pos_part q.index ≢ pos_part p.index) ps × Distinct ps

-- `sendXuper` stores a partial signature of an index that its guard has passed inside the list.
pub in_range-pos_part : (i : ℤ) (need : ℕ) → in_range i need ≡ true → pos_part i < need
unfolding ◌-ℤ◌
in_range-pos_part (pos i) need h = ground arith
in_range-pos_part (negsuc i) need h = absurd (ground arith)

get_elem?-set :
    (xs : List Text) (i : ℕ) (v : Text) → i < length xs → get_elem? (set xs i v) i ≡ some v
get_elem?-set [] i v h = absurd (omega (arith, h))
get_elem?-set (x ∷ xs) zero v h = refl
get_elem?-set (x ∷ xs) (suc i) v h = get_elem?-set xs i v (omega (arith, h))

get_elem?-set_other :
    (xs : List Text) (i j : ℕ) (v : Text) → j ≢ i → get_elem? (set xs i v) j ≡ get_elem? xs j
get_elem?-set_other [] i j v h = refl
get_elem?-set_other (x ∷ xs) zero zero v h = absurd (h refl)
get_elem?-set_other (x ∷ xs) zero (suc j) v h = refl
get_elem?-set_other (x ∷ xs) (suc i) zero v h = refl
get_elem?-set_other (x ∷ xs) (suc i) (suc j) v h = get_elem?-set_other xs i j v (λ e. h (ap suc e))

-- A slot that no later write names keeps what it has.
kept :
    (ps : List PartialSign) (slots : List Text) (j : ℕ)
    → All (λ (q : PartialSign). pos_part q.index ≢ j) ps
    → get_elem? (fill ps slots) j ≡ get_elem? slots j
kept [] slots j h = refl
kept (p ∷ ps) slots j (differs, h) =
    kept ps _ j h ∙ get_elem?-set_other slots (pos_part p.index) j p.si (λ e. differs (sym e))

length-fill : (ps : List PartialSign) (slots : List Text) → length (fill ps slots) ≡ length slots
length-fill [] slots = refl
length-fill (p ∷ ps) slots = length-fill ps _ ∙ length-set slots (pos_part p.index) p.si

filled :
    (ps : List PartialSign) (slots : List Text)
    → InRange (length slots) ps
    → Distinct ps
    → All (λ (p : PartialSign). get_elem? (fill ps slots) (pos_part p.index) ≡ some p.si) ps
filled [] slots range distinct = tt
filled (p ∷ ps) slots (inside, range) (differ, distinct) = (
  kept ps _ (pos_part p.index) differ
      ∙ get_elem?-set slots (pos_part p.index) p.si
          (in_range-pos_part p.index (length slots) inside),
  filled ps _ (subst (λ n. InRange n ps) (sym (length-set slots (pos_part p.index) p.si)) range)
      distinct,
)

module _ (env : Env) where
  -- Each file, read in its turn after `h`, holds the partial signature at its place.
  abbrev pub Loads : List Text → List PartialSign → History → Type 0
  Loads [] [] h = Unit
  Loads [] (p ∷ ps) h = ⊥
  Loads (file ∷ files) [] h = ⊥
  Loads (file ∷ files) (p ∷ ps) h =
      (buf : Text) × (env.read_file h file ≡ ok buf)
      × (env.unmarshal_partial_sign buf ≡ ok p)
      × Loads files ps (Effect.read_file file ∷ h)

  pub length-Loads :
      (files : List Text) (ps : List PartialSign) (h : History)
      → Loads files ps h
      → length ps ≡ length files
  length-Loads [] [] h loads = refl
  length-Loads [] (p ∷ ps) h loads = absurd loads
  length-Loads (file ∷ files) [] h loads = absurd loads
  length-Loads (file ∷ files) (p ∷ ps) h (buf, reads, decodes, loads) =
      ap suc (length-Loads files ps _ loads)

  pub load_partial_sign-eq-ok :
      (file : Text) (h : History) {p : PartialSign} {h' : History}
      → load_partial_sign env file h ≡ (ok p, h')
      → (buf : Text) × (env.read_file h file ≡ ok buf)
        × (env.unmarshal_partial_sign buf ≡ ok p)
        × (h' ≡ Effect.read_file file ∷ h)
  unfolding load_partial_sign
  load_partial_sign-eq-ok file h e =
      let (buf, k1, e1, f1) = >>=-eq-ok _ _ h e in
      let (reads, q1) = replace-ask-eq-ok _ _ _ h e1 in
      let (decodes, q2) = lift-eq-ok _ k1 (wrap-eq-ok _ _ k1 f1) in (buf, reads, decodes, q2 ∙ q1)

  pub load_partial_sign-ok :
      (file : Text) (h : History) (buf : Text) (p : PartialSign)
      → env.read_file h file ≡ ok buf
      → env.unmarshal_partial_sign buf ≡ ok p
      → load_partial_sign env file h ≡ (ok p, Effect.read_file file ∷ h)
  unfolding load_partial_sign ◌>>=◌ replace ask wrap lift
  load_partial_sign-ok file h buf p reads decodes = simp (reads, decodes) refl

  read_shares-ok :
      (need : ℕ) (files : List Text) (ps : List PartialSign) (slots : List Text) (h : History)
      → Loads files ps h
      → InRange need ps
      → (h' : History) × (read_shares env need files slots h ≡ (ok (fill ps slots), h'))
  unfolding read_shares ◌>>=◌ guard pure
  read_shares-ok need [] [] slots h loads range = (h, refl)
  read_shares-ok need [] (p ∷ ps) slots h loads range = absurd loads
  read_shares-ok need (file ∷ files) [] slots h loads range = absurd loads
  read_shares-ok need (file ∷ files) (p ∷ ps) slots h (buf, reads, decodes, loads) (inside, range) =
      let (h', e) =
        read_shares-ok need files ps (set slots (pos_part p.index) p.si) _ loads range in
      (h', rw (load_partial_sign-ok file h buf p reads decodes, inside) e)

  -- If every file holds a partial signature when the loop of `sendXuper` comes to it, and their indices
  -- pass its guard for a number of parties and are all different, then the loop runs through the files
  -- without an error, and leaves one slot for each party, with the share of every file in the slot of
  -- its index.
  pub read_shares_places :
      (need : ℕ) (files : List Text) (ps : List PartialSign) (h : History)
      → Loads files ps h
      → InRange need ps
      → Distinct ps
      → (slots : List Text) × (h' : History) × (read_shares env need files (replicate need []) h
          ≡ (ok slots, h'))
        × (length slots ≡ need)
        × All (λ (p : PartialSign). get_elem? slots (pos_part p.index) ≡ some p.si) ps
  read_shares_places need files ps h loads range distinct =
      let slots = replicate need [] in
      let size : length slots ≡ need = length-replicate need [] in
      let (h', e) = read_shares-ok need files ps slots h loads range in
      (
        fill ps slots,
        h',
        e,
        length-fill ps slots ∙ size,
        filled ps slots (subst (λ n. InRange n ps) (sym size) range) distinct,
      )
