-- ===== src/Zone/Index/Sorted.antt =====
-- Sorted association lists meet the interface of the ordered map.
use dnssec_auditor.Common.{
  Str, str_eq, ◌==◌, true, false, none, some, inl, inr, Bool-cases, [], ◌∷◌, ◌≡◌, refl, arith,
  if◌then◌else◌, nat_eq, length, select,
}
use dnssec_auditor.Common.Map
use dnssec_auditor.Common.Map.{Map}
use mathlib.Core.List.{reverse}
use dnssec_auditor.Zone.Index.{str_ltb, str_leb, Ascending, OrderedMap}

pub str_ltb_trans : (a b c : Str) → str_ltb a b ≡ true → str_ltb b c ≡ true → str_ltb a c ≡ true
unfolding str_ltb
str_ltb_trans [] [] c h k = cc
str_ltb_trans [] (y ∷ b) [] h k = cc
str_ltb_trans [] (y ∷ b) (z ∷ c) h k = refl
str_ltb_trans (x ∷ a) [] c h k = cc
str_ltb_trans (x ∷ a) (y ∷ b) [] h k = cc
str_ltb_trans (x ∷ a) (y ∷ b) (z ∷ c) h k = ground (arith, str_ltb_trans a b c)

pub str_ltb_total : (a b : Str) → (a == b) ≡ false → str_ltb a b ≡ false → str_ltb b a ≡ true
unfolding str_ltb
str_ltb_total [] [] e h = cc
str_ltb_total [] (y ∷ b) e h = cc
str_ltb_total (x ∷ a) [] e h = refl
str_ltb_total (x ∷ a) (y ∷ b) e h = ground (arith, str_ltb_total a b)

module _ {V : Type 0} where
  unfoldable pub insert : Str → V → Map Str V → Map Str V
  insert k v [] = (k, v) ∷ []
  insert k v ((j, w) ∷ m) =
      if j == k
      then (j, v) ∷ m
      else (if str_ltb k j then (k, v) ∷ (j, w) ∷ m else (j, w) ∷ insert k v m)

  pub insert-Ascending : (k : Str) (v : V) (m : Map Str V) → Ascending m → Ascending (insert k v m)
  unfolding insert
  insert-Ascending k v [] h = tt
  insert-Ascending k v ((j, w) ∷ []) h =
      ground (arith, str_ltb_total k j, str_eq.beq_iff j k, str_eq.beq_iff k j)
  insert-Ascending k v ((j, w) ∷ (i, u) ∷ m) h = ground (
    arith,
    str_ltb_total k j,
    str_eq.beq_iff j k,
    str_eq.beq_iff k j,
    insert-Ascending k v ((i, u) ∷ m) h.1,
  )

  pub get-insert :
      (k j : Str) (v : V) (m : Map Str V)
      → Map.get j (insert k v m) ≡ (if k == j then some v else Map.get j m)
  unfolding insert Map.get
  get-insert k j v [] = refl
  get-insert k j v ((i, w) ∷ m) =
      ground (arith, str_eq.beq_iff k j, str_eq.beq_iff i k, str_eq.beq_iff i j, get-insert k j v m)

  -- Every key of the list is above `k`.
  Above : Str → Map Str V → Type 0
  Above k [] = Unit
  Above k ((j, w) ∷ m) = str_ltb k j ≡ true

  Above-trans : (k j : Str) (m : Map Str V) → str_ltb k j ≡ true → Above j m → Above k m
  unfolding Above
  Above-trans k j [] h a = tt
  Above-trans k j ((i, w) ∷ m) h a = str_ltb_trans k j i h a

  Ascending-cons :
      (k : Str) (v : V) (m : Map Str V) → Above k m → Ascending m → Ascending ((k, v) ∷ m)
  unfolding Above
  Ascending-cons k v [] a h = tt
  Ascending-cons k v ((j, w) ∷ m) a h = (a, h)

  uncons : (k : Str) (v : V) (m : Map Str V) → Ascending ((k, v) ∷ m) → Above k m × Ascending m
  unfolding Above
  uncons k v [] h = (tt, tt)
  uncons k v ((j, w) ∷ m) h = h

  delete-Above : (k j : Str) (m : Map Str V) → Above j m → Ascending m → Above j (Map.delete k m)
  unfolding Above Map.delete
  delete-Above k j [] a h = tt
  delete-Above k j ((i, w) ∷ m) a h =
      let (above, rest) = uncons i w m h in
      elim (Bool-cases (i == k)) [
        | inl same ↦ rw same (delete-Above k j m (Above-trans j i m a above) rest)
        | inr other ↦ rw other a
      ]

  pub delete-Ascending : (k : Str) (m : Map Str V) → Ascending m → Ascending (Map.delete k m)
  unfolding Map.delete
  delete-Ascending k [] h = tt
  delete-Ascending k ((j, w) ∷ m) h =
      let (above, rest) = uncons j w m h in
      elim (Bool-cases (j == k)) [
        | inl same ↦ rw same (delete-Ascending k m rest)
        | inr other ↦ rw other (
            Ascending-cons j w (Map.delete k m) (delete-Above k j m above rest)
              (delete-Ascending k m rest))
      ]

pub record SortedMap (V : Type 0) : Type 0 where
  pub entries : Map Str V
  pub sorted : Ascending entries

pub get-nil : (V : Type 0) (k : Str) → Map.get {V = V} k [] ≡ none
unfolding Map.get
get-nil V k = refl

abbrev pub sorted_map : (V : Type 0) → OrderedMap V
sorted_map V = record {
  Carrier = SortedMap V;
  empty = record { entries = []; sorted = tt };
  set = λ k v m. record {
    entries = insert k v m.entries;
    sorted = insert-Ascending k v m.entries m.sorted;
  };
  delete = λ k m. record {
    entries = Map.delete k m.entries;
    sorted = delete-Ascending k m.entries m.sorted;
  };
  get = λ k m. Map.get k m.entries;
  len = λ m. length m.entries;
  scan = λ m. m.entries;
  reverse_scan = λ m. reverse m.entries;
  ascend = λ p m. select (λ e. str_leb p e.0) m.entries;
  descend = λ p m. select (λ e. str_leb e.0 p) (reverse m.entries);
  get-empty = get-nil V;
  get-set = λ k j v m. get-insert k j v m.entries;
  get-delete = λ k j m. Map.get-delete k j m.entries;
  get-scan = λ k m. refl;
  scan-Ascending = λ m. m.sorted;
  len-scan = λ m. refl;
  reverse_scan-scan = λ m. refl;
  ascend-scan = λ p m. refl;
  descend-scan = λ p m. refl;
}
