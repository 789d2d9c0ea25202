-- ===== src/Go/Decimal/Parse.antt =====
-- How `ParseInt` and `SetString` agree on one text.
use xuperchain.Prelude.{
  ℕ, ◌≡◌, ◌≤◌, refl, some, Bool, true, false, Option, none, Option-cases, Bool-cases, ◌==◌, inl,
  inr, [], ◌∷◌, arith, ℤ, pos, neg_ℕ, ◌+◌, ◌*◌, ◌-◌, ◌≤ℤ◌, two_64,
}
use xuperchain.Go.Text.{Text}
use xuperchain.Go.Decimal.{
  Uint, uint_from, parse_uint, parse_int, digits_from, digits, set_string, Parsed, signed_int,
  negate, positive,
}

uint_from_value :
    (acc : ℕ) (s : Text) (n : ℕ) → uint_from acc s ≡ Uint.value n → digits_from acc s ≡ some n
unfolding uint_from digits_from
uint_from_value acc [] n h = ground arith
uint_from_value acc (c ∷ s) n h = ground (arith, uint_from_value (acc * 10 + (c - b'0')) s n)

digits_from-le : (acc : ℕ) (s : Text) (n : ℕ) → digits_from acc s ≡ some n → acc ≤ n
unfolding digits_from
digits_from-le acc [] n h = ground arith
digits_from-le acc (c ∷ s) n h = ground (arith, digits_from-le (acc * 10 + (c - b'0')) s n)

uint_from_range :
    (acc : ℕ) (s : Text) (n : ℕ)
    → uint_from acc s ≡ Uint.out_of_range
    → digits_from acc s ≡ some n
    → two_64 ≤ n
unfolding uint_from digits_from
uint_from_range acc [] n h k = cc
uint_from_range acc (c ∷ s) n h k =
    ground (
      arith,
      uint_from_range (acc * 10 + (c - b'0')) s n,
      digits_from-le (acc * 10 + (c - b'0')) s n,
    )

uint_from_syntax :
    (acc : ℕ) (s : Text) (n : ℕ)
    → uint_from acc s ≡ Uint.bad_syntax
    → digits_from acc s ≡ some n
    → ⊥
unfolding uint_from digits_from
uint_from_syntax acc [] n h k = cc
uint_from_syntax acc (c ∷ s) n h k = ground (arith, uint_from_syntax (acc * 10 + (c - b'0')) s n)

-- What `ParseUint` says of a text of digits.
abbrev Reads : Uint → Text → Type 0
Reads (Uint.value n) s = digits s ≡ some n
Reads Uint.out_of_range s = (n : ℕ) → digits s ≡ some n → two_64 ≤ n
Reads Uint.bad_syntax s = (n : ℕ) → digits s ≡ some n → ⊥

uint_from-Reads : (c : ℕ) (s : Text) (u : Uint) → uint_from 0 (c ∷ s) ≡ u → Reads u (c ∷ s)
unfolding digits
uint_from-Reads c s (Uint.value n) e = uint_from_value 0 (c ∷ s) n e
uint_from-Reads c s Uint.out_of_range e = λ n. uint_from_range 0 (c ∷ s) n e
uint_from-Reads c s Uint.bad_syntax e = λ n. uint_from_syntax 0 (c ∷ s) n e

parse_uint-Reads : (s : Text) → Reads (parse_uint s) s
unfolding parse_uint digits
parse_uint-Reads [] = λ n e. cc
parse_uint-Reads (c ∷ s) = uint_from-Reads c s (uint_from 0 (c ∷ s)) refl

-- A number that `ParseInt` got from digits is at most the number that they spell.
abbrev Below : Bool → Parsed → Option ℕ → Type 0
Below minus p none = p.failed ≡ true
Below true p (some n) = (p.failed ≡ false → p.number ≡ neg_ℕ n) × (p.number ≤ℤ pos 0)
Below false p (some n) = (p.failed ≡ false → p.number ≡ pos n) × (p.number ≤ℤ pos n)

signed_int-Below :
    (minus : Bool) (u : Uint) (s : Text) → Reads u s → Below minus (signed_int minus u) (digits s)
signed_int-Below true (Uint.value n) s r = rw r (ground arith)
signed_int-Below false (Uint.value n) s r = rw r (ground arith)
signed_int-Below true Uint.out_of_range s r = elim (Option-cases (digits s)) [
  | inl e ↦ rw e refl
  | inr (n, e) ↦ rw e (ground (arith, r n e))
]
signed_int-Below false Uint.out_of_range s r = elim (Option-cases (digits s)) [
  | inl e ↦ rw e refl
  | inr (n, e) ↦ rw e (ground (arith, r n e))
]
signed_int-Below true Uint.bad_syntax s r = elim (Option-cases (digits s)) [
  | inl e ↦ rw e (ground arith)
  | inr (n, e) ↦ absurd (r n e)
]
signed_int-Below false Uint.bad_syntax s r = elim (Option-cases (digits s)) [
  | inl e ↦ rw e (ground arith)
  | inr (n, e) ↦ absurd (r n e)
]

-- Where `SetString` reads a number, an accepted `ParseInt` is that number, and a positive result of
-- `ParseInt`, accepted or not, is at most that number.
abbrev Agrees : Parsed → Option ℤ → Type 0
Agrees p none = p.failed ≡ true
Agrees p (some z) = (p.failed ≡ false → p.number ≡ z) × (pos 1 ≤ℤ p.number → p.number ≤ℤ z)

negative-Agrees : (p : Parsed) (o : Option ℕ) → Below true p o → Agrees p (negate o)
negative-Agrees p none h = h
negative-Agrees p (some n) h = (h.0, λ k. absurd (omega arith))

positive-Agrees : (p : Parsed) (o : Option ℕ) → Below false p o → Agrees p (positive o)
positive-Agrees p none h = h
positive-Agrees p (some n) h = (h.0, λ k. h.1)

pub parse_int-Agrees : (s : Text) → Agrees (parse_int s) (set_string s)
unfolding parse_int set_string
parse_int-Agrees [] = refl
parse_int-Agrees (c ∷ s) = elim (Bool-cases (c == b'-')) [
  | inl e ↦ rw e (negative-Agrees _ _ (signed_int-Below true _ s (parse_uint-Reads s)))
  | inr e ↦ rw e (elim (Bool-cases (c == b'+')) [
    | inl d ↦ rw d (positive-Agrees _ _ (signed_int-Below false _ s (parse_uint-Reads s)))
    | inr d ↦
        rw d (positive-Agrees _ _ (signed_int-Below false _ (c ∷ s) (parse_uint-Reads (c ∷ s))))
  ])
]

pub parse_int_accepted :
    (s : Text) → (parse_int s).failed ≡ false → set_string s ≡ some (parse_int s).number
parse_int_accepted s h = ground (arith, parse_int-Agrees s)

pub parse_int-le :
    (s : Text) (z : ℤ)
    → set_string s ≡ some z
    → pos 1 ≤ℤ (parse_int s).number
    → (parse_int s).number ≤ℤ z
parse_int-le s z e h = let a : Agrees (parse_int s) (some z) = rw e at (parse_int-Agrees s) in a.1 h
