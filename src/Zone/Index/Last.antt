-- ===== src/Zone/Index/Last.antt =====
-- The last entry of an ascending list whose key passes a test: what a visitor sees first that goes
-- backwards.
use dnssec_auditor.Common.{
  Str, str_eq, ◌==◌, Bool, true, false, Option, none, some, inl, inr, Bool-cases, Option-cases, [],
  ◌∷◌, ◌++◌, ◌≡◌, ◌∙◌, ap, refl, arith, if◌then◌else◌, nat_eq, select,
}
use dnssec_auditor.Common.Map
use dnssec_auditor.Common.Map.{Map}
use mathlib.Core.List.{reverse, reverse-cons}
use dnssec_auditor.Zone.Index.{str_ltb, str_leb, Ascending}
use dnssec_auditor.Zone.Index.Sorted.{str_ltb_trans}

pub str_ltb_irrefl : (k : Str) → str_ltb k k ≡ false
unfolding str_ltb
str_ltb_irrefl [] = refl
str_ltb_irrefl (c ∷ k) = ground (arith, str_ltb_irrefl k)

pub str_ltb_asym : (a b : Str) → str_ltb a b ≡ true → str_ltb b a ≡ false
str_ltb_asym a b h = ground (arith, str_ltb_trans a b a h, str_ltb_irrefl a)

module _ {V : Type 0} where
  -- The entry that a visitor is called with first, if it stops at once.
  unfoldable pub first : Map Str V → Option (Str × V)
  first [] = none
  first (e ∷ m) = some e

  pub last_by : (Str → Bool) → Map Str V → Option (Str × V)
  last_by q [] = none
  last_by q ((k, v) ∷ m) = elim (last_by q m) [
    | some e ↦ some e
    | none ↦ if q k then some (k, v) else none
  ]

  first-append :
      (q : Str → Bool) (m : Map Str V) (k : Str) (v : V)
      → first (select (λ e. q e.0) (m ++ (k, v) ∷ [])) ≡ elim (first (select (λ e. q e.0) m)) [
        | some e ↦ some e
        | none ↦ if q k then some (k, v) else none
      ]
  unfolding first
  first-append q [] k v = ground arith
  first-append q ((j, w) ∷ m) k v = ground (arith, first-append q m k v)

  pub first-reverse :
      (q : Str → Bool) (m : Map Str V) → first (select (λ e. q e.0) (reverse m)) ≡ last_by q m
  unfolding last_by first
  first-reverse q [] = refl
  first-reverse q ((k, v) ∷ m) =
      rw reverse-cons (first-append q (reverse m) k v ∙ rw (first-reverse q m) refl)

  tail-Ascending : (k : Str) (v : V) (m : Map Str V) → Ascending ((k, v) ∷ m) → Ascending m
  tail-Ascending k v [] h = tt
  tail-Ascending k v ((j, w) ∷ m) h = h.1

  -- The keys after the first one are above it.
  lt_of_get :
      (i : Str) (w : V) (k : Str) (v : V) (m : Map Str V)
      → Ascending ((i, w) ∷ m)
      → Map.get k m ≡ some v
      → str_ltb i k ≡ true
  unfolding Map.get
  lt_of_get i w k v [] h e = absurd (ground arith)
  lt_of_get i w k v ((a, b) ∷ m) h e = elim (Bool-cases (a == k)) [
    | inl same ↦ ground (arith, same, h.0, str_eq.beq_iff a k)
    | inr other ↦ str_ltb_trans i a k h.0 (lt_of_get a b k v m h.1 (ground (arith, other)))
  ]

  -- The last entry that passes is there, and it passes.
  pub last_by-get :
      (q : Str → Bool) (m : Map Str V) (k : Str) (v : V)
      → Ascending m
      → last_by q m ≡ some (k, v)
      → (q k ≡ true) × (Map.get k m ≡ some v)
  unfolding last_by Map.get
  last_by-get q [] k v h e = absurd (ground arith)
  last_by-get q ((i, w) ∷ m) k v h e = elim (Option-cases (last_by q m)) [
    | inl nothing ↦ ground (arith, nothing, str_eq.beq_iff i k)
    | inr ((j, u), found) ↦
        let same : (j, u) ≡ (k, v) = ground (arith, found) in
        let (ok, there) : (q k ≡ true) × (Map.get k m ≡ some v) =
          last_by-get q m k v (tail-Ascending i w m h) (found ∙ ap some same) in
        let above : str_ltb i k ≡ true = lt_of_get i w k v m h there in
        (ok, ground (arith, there, above, str_ltb_irrefl k, str_eq.beq_iff i k))
  ]

  -- An entry that passes is not above the last one that does.
  pub last_by-max :
      (q : Str → Bool) (m : Map Str V) (j : Str) (u : V)
      → Ascending m
      → Map.get j m ≡ some u
      → q j ≡ true
      → (k : Str) × (v : V) × (last_by q m ≡ some (k, v)) × (str_leb j k ≡ true)
  unfolding last_by Map.get
  last_by-max q [] j u h e ok = absurd (ground arith)
  last_by-max q ((i, w) ∷ m) j u h e ok = elim (Bool-cases (i == j)) [
    | inl same ↦
        let here : i ≡ j = (str_eq.beq_iff i j).0 same in
        elim (Option-cases (last_by q m)) [
          | inl nothing ↦
              (i, w, ground (arith, nothing, here, ok), ground (arith, here, str_ltb_irrefl j))
          | inr ((k, v), found) ↦
              let (_, there) : (q k ≡ true) × (Map.get k m ≡ some v) =
                last_by-get q m k v (tail-Ascending i w m h) found in
              (
                k,
                v,
                rw found refl,
                ground (arith, here, str_ltb_asym i k (lt_of_get i w k v m h there)),
              )
        ]
    | inr other ↦
        let (k, v, found, below) =
          last_by-max q m j u (tail-Ascending i w m h) (ground (arith, other)) ok in
        (k, v, rw found refl, below)
  ]
