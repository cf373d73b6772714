-- ===== src/Common/Map.antt =====
-- Go's built-in maps as association lists. The order of the entries stands for one of the
-- iteration orders that a `range` loop may take.
use mathlib.Core.Path.{◌≡◌, refl, sym, subst, subst₂}
use mathlib.Core.Logic.{inl, inr}
use mathlib.Core.Option.{Option, none, some}
use mathlib.Core.List.{List, [], ◌∷◌}
use Prim.Native.Nat.{ℕ, ◌+◌}
use native.Mathlib.Omega.{arith}
use dnssec_auditor.Common.Tests.{Bool-cases, if◌then◌else◌}
use dnssec_auditor.Common.Lists.{sum_by, All}
use dnssec_auditor.Common.Equality.{Eq, ◌==◌}

abbrev pub Map {ℓ κ} : Type ℓ → Type κ → Type (ℓ ⊔ κ)
Map K V = List (K × V)

-- What a sum over the entries takes from one key.
abbrev pub at_key {ℓ} : {V : Type ℓ} → (V → ℕ) → Option V → ℕ
at_key f none = 0
at_key f (some v) = f v

module _ {ℓ κ} {K : Type ℓ} {V : Type κ} ⦃e : Eq K⦄ where
  unfoldable pub get : K → Map K V → Option V
  get k [] = none
  get k ((j, v) ∷ m) = if j == k then some v else get k m

  -- m[k] = v
  unfoldable pub put : K → V → Map K V → Map K V
  put k v [] = (k, v) ∷ []
  put k v ((j, w) ∷ m) = if j == k then (j, v) ∷ m else (j, w) ∷ put k v m

  -- delete(m, k)
  unfoldable pub delete : K → Map K V → Map K V
  delete k [] = []
  delete k ((j, w) ∷ m) = let rest = delete k m in if j == k then rest else (j, w) ∷ rest

  -- No key stands twice.
  abbrev pub Distinct : Map K V → Type κ
  Distinct [] = Unit
  Distinct ((k, v) ∷ m) = (get k m ≡ none) × Distinct m

  pub get-put :
      (k j : K) (v : V) (m : Map K V) → get j (put k v m) ≡ (if k == j then some v else get j m)
  unfolding get put
  get-put k j v [] = refl
  get-put k j v ((i, w) ∷ m) =
      ground (arith, e.beq_iff k j, e.beq_iff i k, e.beq_iff i j, get-put k j v m)

  pub get-delete : (k j : K) (m : Map K V) → get j (delete k m) ≡ (if k == j then none else get j m)
  unfolding get delete
  get-delete k j [] = ground arith
  get-delete k j ((i, w) ∷ m) =
      ground (arith, e.beq_iff k j, e.beq_iff i k, e.beq_iff i j, get-delete k j m)

  pub put-Distinct : (k : K) (v : V) (m : Map K V) → Distinct m → Distinct (put k v m)
  unfolding put get
  put-Distinct k v [] h = ground arith
  put-Distinct k v ((i, w) ∷ m) h =
      ground (arith, e.beq_iff i k, e.beq_iff k i, get-put k i v m, put-Distinct k v m h.1)

  pub delete-Distinct : (k : K) (m : Map K V) → Distinct m → Distinct (delete k m)
  unfolding delete get
  delete-Distinct k [] h = tt
  delete-Distinct k ((i, w) ∷ m) h =
      ground (arith, e.beq_iff i k, e.beq_iff k i, get-delete k i m, delete-Distinct k m h.1)

  pub sum_by-put :
      (f : V → ℕ) (k : K) (v : V) (m : Map K V)
      → sum_by (λ x. f x.1) (put k v m) + at_key f (get k m) ≡ sum_by (λ x. f x.1) m + f v
  unfolding put get
  sum_by-put f k v [] = ground arith
  sum_by-put f k v ((i, w) ∷ m) = ground (arith, sum_by-put f k v m)

  sum_by-delete_absent :
      (f : V → ℕ) (k : K) (m : Map K V)
      → get k m ≡ none
      → sum_by (λ x. f x.1) (delete k m) ≡ sum_by (λ x. f x.1) m
  unfolding delete get
  sum_by-delete_absent f k [] h = refl
  sum_by-delete_absent f k ((i, w) ∷ m) h = ground (arith, sum_by-delete_absent f k m)

  pub sum_by-delete :
      (f : V → ℕ) (k : K) (m : Map K V)
      → Distinct m
      → sum_by (λ x. f x.1) (delete k m) + at_key f (get k m) ≡ sum_by (λ x. f x.1) m
  unfolding delete get
  sum_by-delete f k [] h = omega arith
  sum_by-delete f k ((i, w) ∷ m) h =
      ground (arith, e.beq_iff i k, sum_by-delete_absent f k m, sum_by-delete f k m h.1)

  -- What holds of every entry holds of the one that `get` finds.
  pub All-get {μ} :
      (P : K × V → Type μ) (k : K) (m : Map K V) {v : V} → All P m → get k m ≡ some v → P (k, v)
  unfolding get
  All-get P k [] h g = cc
  All-get P k ((i, w) ∷ m) {v} h g = elim (Bool-cases (i == k)) [
    | inl same ↦
        let value : w ≡ v = ground arith in
        subst₂ (λ a b. P (a, b)) ((e.beq_iff i k).0 same) value h.0
    | inr other ↦ All-get P k m h.1 (rw other at g)
  ]

  pub put-All {μ} :
      (P : K × V → Type μ) (k : K) (v : V) (m : Map K V) → P (k, v) → All P m → All P (put k v m)
  unfolding put
  put-All P k v [] p h = (p, tt)
  put-All P k v ((i, w) ∷ m) p h = elim (Bool-cases (i == k)) [
    | inl same ↦ rw same (subst (λ a. P (a, v)) (sym ((e.beq_iff i k).0 same)) p, h.1)
    | inr other ↦ rw other (h.0, put-All P k v m p h.1)
  ]

  pub delete-All {μ} : (P : K × V → Type μ) (k : K) (m : Map K V) → All P m → All P (delete k m)
  unfolding delete
  delete-All P k [] h = tt
  delete-All P k ((i, w) ∷ m) h = elim (Bool-cases (i == k)) [
    | inl same ↦ rw same (delete-All P k m h.1)
    | inr other ↦ rw other (h.0, delete-All P k m h.1)
  ]

pub ruleset map_laws = (get-put, get-delete)
