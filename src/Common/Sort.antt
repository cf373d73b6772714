-- ===== src/Common/Sort.antt =====
-- The functions of Go's `slices` package that the program uses: sorting by a comparison, of which only
-- the sign counts, and dropping repeated neighbours.
use Prim.Native.Nat.{ℕ}
use mathlib.Core.Path.{◌≡◌, refl}
use mathlib.Core.Bool.{Bool, true, ◌||◌}
use mathlib.Core.List.{List, [], ◌∷◌}
use native.Mathlib.Omega.{arith}
use dnssec_auditor.Common.Tests.{leb, if◌then◌else◌}
use dnssec_auditor.Common.Equality.{nat_eq, ◌==◌, contains}

module _ {ℓ} {A : Type ℓ} (le : A → A → Bool) where
  -- Before the first element that is not below it.
  unfoldable pub insert_by : A → List A → List A
  insert_by x [] = x ∷ []
  insert_by x (y ∷ ys) = let rest = insert_by x ys in if le x y then x ∷ y ∷ ys else y ∷ rest

  -- slices.SortFunc, and slices.Sort with the order of the elements
  unfoldable pub sort_by : List A → List A
  unfolding insert_by
  sort_by [] = []
  sort_by (x ∷ xs) = insert_by x (sort_by xs)

-- slices.Compact
unfoldable pub compact : List ℕ → List ℕ
compact [] = []
compact (x ∷ []) = x ∷ []
compact (x ∷ y ∷ ys) = let rest = compact (y ∷ ys) in if x == y then rest else x ∷ rest

-- Each element is below the next.
abbrev pub Rising : List ℕ → Type 0
Rising [] = Unit
Rising (x ∷ []) = Unit
Rising (x ∷ y ∷ ys) = (leb x y ≡ true) × Rising (y ∷ ys)

pub contains-insert_by :
    (x y : ℕ) (ys : List ℕ) → contains y (insert_by leb x ys) ≡ ((x == y) || contains y ys)
unfolding insert_by
contains-insert_by x y [] = ground arith
contains-insert_by x y (z ∷ ys) = ground (arith, contains-insert_by x y ys)

pub contains-sort_by : (y : ℕ) (xs : List ℕ) → contains y (sort_by leb xs) ≡ contains y xs
unfolding sort_by
contains-sort_by y [] = refl
contains-sort_by y (x ∷ xs) =
    ground (arith, contains-insert_by x y (sort_by leb xs), contains-sort_by y xs)

insert_by-Rising : (x : ℕ) (ys : List ℕ) → Rising ys → Rising (insert_by leb x ys)
unfolding insert_by
insert_by-Rising x [] h = tt
insert_by-Rising x (y ∷ []) h = ground arith
insert_by-Rising x (y ∷ z ∷ ys) h = ground (arith, insert_by-Rising x (z ∷ ys))

pub sort_by-Rising : (xs : List ℕ) → Rising (sort_by leb xs)
unfolding sort_by
sort_by-Rising [] = tt
sort_by-Rising (x ∷ xs) = insert_by-Rising x (sort_by leb xs) (sort_by-Rising xs)
