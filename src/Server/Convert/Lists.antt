-- ===== src/Server/Convert/Lists.antt =====
-- When a list passes to the other protocol: all of its messages, or none.
use mathlib.Core.Path.{ap}
use xuperchain.Prelude.{◌↔◌, ◌≡◌, refl, Option, none, some, List, [], ◌∷◌, map}
use xuperchain.Server.Convert.{
  Wire, list, via_wire, push_converted, converted, convert_all, utxo_list_to_xchain,
}

pub push_converted-eq-some :
    {B : Type 0} (o : Option B) (rest : Option (List B)) (bs : List B)
    → push_converted o rest ≡ some bs
    → (b : B) × (bs' : List B) × (o ≡ some b) × (rest ≡ some bs') × (bs ≡ b ∷ bs')
push_converted-eq-some none rest bs e = absurd (cc e)
push_converted-eq-some (some b) none bs e = absurd (cc e)
push_converted-eq-some (some b) (some rest) bs e = (b, rest, refl, refl, cc e)

module _ {A B : Type 0} (wire : Wire A B) where
  converts_each :
      (as_ : List (Option A)) (bs : List B)
      → convert_all wire as_ ≡ some bs
      → map (via_wire wire) as_ ≡ map some bs
  unfolding convert_all
  converts_each [] [] e = refl
  converts_each [] (b ∷ bs) e = absurd (cc e)
  converts_each (a ∷ as_) bs e =
      let (b, bs', p, q, r) =
        push_converted-eq-some (via_wire wire a) (convert_all wire as_) bs e in
      cc (p, converts_each as_ bs' q, ap (map some) r)

  each_converts :
      (as_ : List (Option A)) (bs : List B)
      → map (via_wire wire) as_ ≡ map some bs
      → convert_all wire as_ ≡ some bs
  unfolding convert_all
  each_converts [] [] e = refl
  each_converts [] (b ∷ bs) e = absurd (cc e)
  each_converts (a ∷ as_) [] e = absurd (cc e)
  each_converts (a ∷ as_) (b ∷ bs) e =
      let p : via_wire wire a ≡ some b = cc e in
      let q : convert_all wire as_ ≡ some bs = each_converts as_ bs (cc e) in simp (p, q) refl

  pub converted-eq-list :
      (o : Option (List B)) (bs : List B) → converted wire o ≡ list (some bs) → o ≡ some bs
  converted-eq-list none bs e = absurd (cc e)
  converted-eq-list (some cs) bs e = cc e

  -- A list that is there passes to the other protocol, as the list `bs`, exactly if each of its messages
  -- does, in its place: one message that is nil or cannot be converted fails the list.
  pub utxo_list_to_xchain_all_or_none :
      (as_ : List (Option A)) (bs : List B)
      → (utxo_list_to_xchain wire (some as_) ≡ list (some bs))
        ↔ (map (via_wire wire) as_ ≡ map some bs)
  unfolding utxo_list_to_xchain
  utxo_list_to_xchain_all_or_none as_ bs = (
    λ e. converts_each as_ bs (converted-eq-list _ _ e),
    λ e. ap (converted wire) (each_converts as_ bs e),
  )
