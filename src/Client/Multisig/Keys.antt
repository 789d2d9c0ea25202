-- ===== src/Client/Multisig/Keys.antt =====
-- The key that a signer finds in the multisig data.
use mathlib.Core.Path.{subst}
use xuperchain.Prelude.{
  true, some, List, [], ◌∷◌, ◌≡◌, refl, ap, sym, ◌⊎◌, inl, inr, ℕ, zero, suc, ◌+◌, ◌<◌, pos, ◌-ℤ◌,
  length, get_elem?, Bool-cases, arith,
}
use xuperchain.Go.Text.{Text, text_eq, text_eq→eq}
use xuperchain.Exec.{Result, ok, err, and_then-eq-ok}
use xuperchain.Client.Env.{Env, MultisigData}
use xuperchain.Client.Multisig.{in_range, key_address, pick, find_from, find_k_from_k_list}

-- The entry at `d` is `k`, and the key there has the address `addr`.
abbrev pub IsFound : Env → Text → List Text → List Text → ℕ → Text → Type 0
IsFound env addr ks keys d k =
    (key : Text) × (get_elem? ks d ≡ some k)
    × (get_elem? keys d ≡ some key)
    × (key_address env key ≡ ok addr)

module _ (env : Env) (addr : Text) where
  picked :
      (ki : Text) (idx : ℕ) (r : Result Text) (rest : Result (Text × ℕ)) (k : Text) (j : ℕ)
      → pick env addr ki idx r rest ≡ ok (k, j)
      → ((r ≡ ok addr) × (k ≡ ki) × (j ≡ idx)) ⊎ (rest ≡ ok (k, j))
  picked ki idx (err e) rest k j p = inr p
  picked ki idx (ok a) rest k j p = elim (Bool-cases (text_eq addr a)) [
    | inl same ↦ let q = rw same at p in inl (ap ok (sym (text_eq→eq addr a same)), cc q, cc q)
    | inr other ↦ inr (rw other at p)
  ]

  find_from-IsFound :
      (idx : ℕ) (ks keys : List Text) (k : Text) (j : ℕ)
      → find_from env addr idx ks keys ≡ ok (k, j)
      → (d : ℕ) × (j ≡ idx + d) × IsFound env addr ks keys d k
  unfolding find_from
  find_from-IsFound idx [] keys k j e = absurd (cc e)
  find_from-IsFound idx (ki ∷ ks) [] k j e = absurd (cc e)
  find_from-IsFound idx (ki ∷ ks) (key ∷ keys) k j e =
      elim (picked ki idx (key_address env key) _ k j e) [
        | inl (reads, is_k, is_j) ↦ (0, omega (arith, is_j), (key, ap some (sym is_k), refl, reads))
        | inr later ↦
            let (d, is_j, found) = find_from-IsFound (suc idx) ks keys k j later in
            (suc d, omega (arith, is_j), found)
      ]

get_elem?-some : (xs : List Text) (i : ℕ) {x : Text} → get_elem? xs i ≡ some x → i < length xs
get_elem?-some [] i e = absurd (cc e)
get_elem?-some (x ∷ xs) zero e = omega arith
get_elem?-some (x ∷ xs) (suc i) e = omega (arith, get_elem?-some xs i e)

in_range-lt : (i need : ℕ) → i < need → in_range (pos i) need ≡ true
unfolding ◌-ℤ◌
in_range-lt i need h = ground arith

-- If `findKFromKList` finds an entry for a public key, then the public key of the multisig data at the
-- found index has the address of the given one, the found entry is the one at that index, and
-- `sendXuper` accepts that index for the number of parties of the multisig data.
pub find_k_from_k_list-IsFound :
    (env : Env) (msd : MultisigData) (pub_json k : Text) (j : ℕ)
    → find_k_from_k_list env msd pub_json ≡ ok (k, j)
    → (addr : Text) × (key_address env pub_json ≡ ok addr)
      × IsFound env addr msd.k_list msd.pub_keys j k
      × (in_range (pos j) (length msd.k_list) ≡ true)
unfolding find_k_from_k_list
find_k_from_k_list-IsFound env msd pub_json k j e =
    let (client, made, e1) = and_then-eq-ok (env.crypto_client_of_public_key pub_json) _ e in
    let (addr, reads, e2) = and_then-eq-ok (key_address env pub_json) _ e1 in
    let (d, is_d, (key, at_d, key_at, same)) =
      find_from-IsFound env addr 0 msd.k_list msd.pub_keys k j e2 in
    let is_j : d ≡ j = omega (arith, is_d) in
    (
      addr,
      reads,
      (
        key,
        subst (λ i. get_elem? msd.k_list i ≡ some k) is_j at_d,
        subst (λ i. get_elem? msd.pub_keys i ≡ some key) is_j key_at,
        same,
      ),
      in_range-lt j (length msd.k_list)
          (subst (λ i. i < length msd.k_list) is_j (get_elem?-some msd.k_list d at_d)),
    )
