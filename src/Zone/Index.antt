-- ===== src/Zone/Index.antt =====
-- The ordered map of github.com/tidwall/btree, as the interface that the store uses: what it
-- documents is stated by the entries in the order of a scan. A visitor that stops at once sees the
-- head of a list. Below, a sorted association list meets the interface.
pub mod Sorted
pub mod Last
use dnssec_auditor.Common.{
  ℕ, Str, str_eq, ◌==◌, Bool, true, false, not, Option, none, some, List, [], ◌∷◌, ◌≡◌, refl, arith,
  if◌then◌else◌, ltb, nat_eq, length, select,
}
use dnssec_auditor.Common.Map
use dnssec_auditor.Common.Map.{Map}
use mathlib.Core.List.{reverse}

-- The order of Go strings.
unfoldable pub str_ltb : Str → Str → Bool
str_ltb [] [] = false
str_ltb [] (b ∷ t) = true
str_ltb (a ∷ s) [] = false
str_ltb (a ∷ s) (b ∷ t) = if ltb a b then true else (if a == b then str_ltb s t else false)

abbrev pub str_leb : Str → Str → Bool
str_leb s t = not (str_ltb t s)

-- Keys rise from each entry to the next.
abbrev pub Ascending {ℓ} : {V : Type ℓ} → Map Str V → Type 0
Ascending [] = Unit
Ascending ((k, v) ∷ []) = Unit
Ascending ((k, v) ∷ (j, w) ∷ m) = (str_ltb k j ≡ true) × Ascending ((j, w) ∷ m)

pub record OrderedMap (V : Type 0) : Type 1 where
  pub Carrier : Type 0
  pub empty : Carrier
  pub set : Str → V → Carrier → Carrier
  pub delete : Str → Carrier → Carrier
  pub get : Str → Carrier → Option V
  pub len : Carrier → ℕ
  -- Scan, Reverse, and Ascend and Descend from a pivot
  pub scan : Carrier → Map Str V
  pub reverse_scan : Carrier → Map Str V
  pub ascend : Str → Carrier → Map Str V
  pub descend : Str → Carrier → Map Str V
  pub get-empty : (k : Str) → get k empty ≡ none
  pub get-set :
      (k j : Str) (v : V) (m : Carrier) → get j (set k v m) ≡ (if k == j then some v else get j m)
  pub get-delete :
      (k j : Str) (m : Carrier) → get j (delete k m) ≡ (if k == j then none else get j m)
  pub get-scan : (k : Str) (m : Carrier) → get k m ≡ Map.get k (scan m)
  pub scan-Ascending : (m : Carrier) → Ascending (scan m)
  pub len-scan : (m : Carrier) → len m ≡ length (scan m)
  pub reverse_scan-scan : (m : Carrier) → reverse_scan m ≡ reverse (scan m)
  pub ascend-scan : (p : Str) (m : Carrier) → ascend p m ≡ select (λ e. str_leb p e.0) (scan m)
  pub descend-scan :
      (p : Str) (m : Carrier) → descend p m ≡ select (λ e. str_leb e.0 p) (reverse (scan m))
