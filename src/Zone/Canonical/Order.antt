-- ===== src/Zone/Canonical/Order.antt =====
-- Type bitmaps are compared as sets.
use dnssec_auditor.Common.{
  ℕ, nat_eq, ◌==◌, true, false, List, [], ◌∷◌, contains, leb, ltb, All, ◌≡◌, ◌↔◌, ◌∙◌, sym, refl,
  arith, Bool-cases, inl, inr,
}
use dnssec_auditor.Common.Sort.{sort_by, compact, Rising, contains-sort_by, sort_by-Rising}
use dnssec_auditor.Zone.Canonical.{nats_eqb, bitmap_equal}

-- Each element is below all that follow.
abbrev Strict : List ℕ → Type 0
Strict [] = Unit
Strict (x ∷ xs) = All (λ y. ltb x y ≡ true) xs × Strict xs

lower_all :
    (x y : ℕ) (ys : List ℕ) → ltb x y ≡ true → Rising (y ∷ ys) → All (λ z. ltb x z ≡ true) (y ∷ ys)
lower_all x y [] h r = (h, tt)
lower_all x y (z ∷ zs) h r = (h, lower_all x z zs (ground (arith, r.0)) r.1)

compact-All : (P : ℕ → Type 0) (xs : List ℕ) → All P xs → All P (compact xs)
unfolding compact
compact-All P [] h = tt
compact-All P (x ∷ []) h = h
compact-All P (x ∷ y ∷ ys) h = elim (Bool-cases (x == y)) [
  | inl same ↦ rw same (compact-All P (y ∷ ys) h.1)
  | inr other ↦ rw other (h.0, compact-All P (y ∷ ys) h.1)
]

contains-compact : (t : ℕ) (xs : List ℕ) → contains t (compact xs) ≡ contains t xs
unfolding compact
contains-compact t [] = refl
contains-compact t (x ∷ []) = refl
contains-compact t (x ∷ y ∷ ys) = ground (arith, contains-compact t (y ∷ ys))

compact-Strict : (xs : List ℕ) → Rising xs → Strict (compact xs)
unfolding compact
compact-Strict [] r = tt
compact-Strict (x ∷ []) r = (tt, tt)
compact-Strict (x ∷ y ∷ ys) r = elim (Bool-cases (x == y)) [
  | inl same ↦ rw same (compact-Strict (y ∷ ys) r.1)
  | inr other ↦
      let below : ltb x y ≡ true = ground (arith, other, r.0) in
      rw other (
        compact-All (λ z. ltb x z ≡ true) (y ∷ ys) (lower_all x y ys below r.1),
        compact-Strict (y ∷ ys) r.1,
      )
]

above :
    (x t : ℕ) (xs : List ℕ) → All (λ y. ltb x y ≡ true) xs → contains t xs ≡ true → ltb x t ≡ true
above x t [] h e = cc
above x t (y ∷ ys) h e = ground (arith, h.0, above x t ys h.1)

absent : (x : ℕ) (xs : List ℕ) → All (λ y. ltb x y ≡ true) xs → contains x xs ≡ false
absent x [] h = refl
absent x (y ∷ ys) h = ground (arith, h.0, absent x ys h.1)

nats_eqb-Strict :
    (xs ys : List ℕ)
    → Strict xs
    → Strict ys
    → ((t : ℕ) → contains t xs ≡ contains t ys)
    → nats_eqb xs ys ≡ true
unfolding nats_eqb
nats_eqb-Strict [] [] sx sy h = refl
nats_eqb-Strict [] (y ∷ ys) sx sy h = ground (arith, h y)
nats_eqb-Strict (x ∷ xs) [] sx sy h = ground (arith, h x)
nats_eqb-Strict (x ∷ xs) (y ∷ ys) sx sy h =
    let same : x ≡ y = ground (arith, h x, h y, above x y xs sx.0, above y x ys sy.0) in
    let rest : nats_eqb xs ys ≡ true =
      nats_eqb-Strict xs ys sx.1 sy.1
        (λ t. ground (arith, h t, same, absent x xs sx.0, absent y ys sy.0)) in
    ground (arith, same, rest)

contains-nats_eqb : (t : ℕ) (xs ys : List ℕ) → nats_eqb xs ys ≡ true → contains t xs ≡ contains t ys
unfolding nats_eqb
contains-nats_eqb t [] [] h = refl
contains-nats_eqb t [] (y ∷ ys) h = cc
contains-nats_eqb t (x ∷ xs) [] h = cc
contains-nats_eqb t (x ∷ xs) (y ∷ ys) h = ground (arith, h, contains-nats_eqb t xs ys)

members : (t : ℕ) (xs : List ℕ) → contains t (compact (sort_by leb xs)) ≡ contains t xs
members t xs = contains-compact t (sort_by leb xs) ∙ contains-sort_by t xs

-- Two bitmaps are equal exactly if they have the same types, in whatever order and however often.
pub bitmap_equal_iff :
    (a b : List ℕ) → (bitmap_equal a b ≡ true) ↔ ((t : ℕ) → contains t a ≡ contains t b)
unfolding bitmap_equal
bitmap_equal_iff a b = (
  λ h t.
      sym (members t a)
      ∙ contains-nats_eqb t (compact (sort_by leb a)) (compact (sort_by leb b)) h
      ∙ members t b,
  λ h.
      nats_eqb-Strict (compact (sort_by leb a)) (compact (sort_by leb b))
        (compact-Strict (sort_by leb a) (sort_by-Rising a))
        (compact-Strict (sort_by leb b) (sort_by-Rising b))
        (λ t. members t a ∙ h t ∙ sym (members t b)),
)
