-- ===== src/Zone/Store/Ring/Covering.antt =====
-- What CoveringNSEC3 finds on the ring.
use dnssec_auditor.Common.{
  Str, str_eq, Bool, true, ◌||◌, none, some, inl, inr, Bool-cases, Option-cases, [], ◌∷◌, ◌≡◌, ◌⊎◌,
  refl, arith, select,
}
use dnssec_auditor.Common.Map
use dnssec_auditor.Common.Map.{Map}
use mathlib.Core.List.{reverse}
use dnssec_auditor.Zone.Index.{OrderedMap, str_ltb, str_leb, Ascending}
use dnssec_auditor.Zone.Index.Last.{
  first, last_by, first-reverse, last_by-get, last_by-max, str_ltb_irrefl,
}
use dnssec_auditor.Zone.Entries.{Nsec3Rec}
use dnssec_auditor.Zone.Store.{Libs, Store}
use dnssec_auditor.Zone.Store.Ring.{covering_nsec3, value_of, or_else}

select-all : {V : Type 0} (m : Map Str V) → select (λ (e : Str × V). true) m ≡ m
select-all [] = refl
select-all (e ∷ m) = rw (select-all m) refl

module _ {V : Type 0} (r : OrderedMap V) where
  up_to : Str → Str → Bool
  up_to p k = str_leb k p

  first-descend : (p : Str) (c : r.Carrier) → first (r.descend p c) ≡ last_by (up_to p) (r.scan c)
  unfolding up_to
  first-descend p c = rw (r.descend-scan p c) (first-reverse (λ k. str_leb k p) (r.scan c))

  first-reverse_scan : (c : r.Carrier) → first (r.reverse_scan c) ≡ last_by (λ k. true) (r.scan c)
  first-reverse_scan c =
      let all : first (select (λ (e : Str × V). true) (reverse (r.scan c)))
          ≡ last_by (λ k. true) (r.scan c) =
        first-reverse {V = V} (λ k. true) (r.scan c) in
      rw (r.reverse_scan-scan c) (rw (select-all (reverse (r.scan c))) at all)

-- No entry lies between the last one that is at most the hash, and the hash.
below :
    (hash j k : Str) (other rec : Nsec3Rec) (m : Map Str Nsec3Rec)
    → Ascending m
    → Map.get j m ≡ some other
    → last_by (λ k. str_leb k hash) m ≡ some (k, rec)
    → (str_leb j k || str_ltb hash j) ≡ true
below hash j k other rec m asc there found = elim (Bool-cases (str_leb j hash)) [
  | inl ok ↦
      let (k', rec', found', at_most) = last_by-max (λ k. str_leb k hash) m j other asc there ok in
      ground (arith, found, found', at_most)
  | inr above ↦ ground (arith, above)
]

-- If no entry is at most the hash, every entry is above it.
beyond :
    (hash j : Str) (other : Nsec3Rec) (m : Map Str Nsec3Rec)
    → Ascending m
    → Map.get j m ≡ some other
    → last_by (λ k. str_leb k hash) m ≡ none
    → str_ltb hash j ≡ true
beyond hash j other m asc there nothing = elim (Bool-cases (str_leb j hash)) [
  | inl ok ↦
      let (k', rec', found', at_most) = last_by-max (λ k. str_leb k hash) m j other asc there ok in
      absurd (ground (arith, nothing, found'))
  | inr above ↦ ground (arith, above)
]

-- Wherever the ring has an entry `j`, CoveringNSEC3 finds a record of the ring, under a key `k`: either
-- `k` is at most the hash, and `j` is at most `k` or above the hash; or `j` is above the hash, and `k`
-- is at least `j`.
pub covering_nsec3-nearest :
    {l : Libs} (hash j : Str) (other : Nsec3Rec) (s : Store l)
    → l.ring.get j s.nsec3 ≡ some other
    → (k : Str) × (rec : Nsec3Rec) × (covering_nsec3 l hash s ≡ some rec)
      × (l.ring.get k s.nsec3 ≡ some rec)
      × (((str_leb k hash ≡ true) × ((str_leb j k || str_ltb hash j) ≡ true))
          ⊎ ((str_ltb hash j ≡ true) × (str_leb j k ≡ true)))
unfolding covering_nsec3 value_of or_else up_to
covering_nsec3-nearest {l} hash j other s e =
    let m = l.ring.scan s.nsec3 in
    let asc : Ascending m = l.ring.scan-Ascending s.nsec3 in
    let there : Map.get j m ≡ some other = rw (l.ring.get-scan j s.nsec3) at e in
    elim (Option-cases (l.ring.get hash s.nsec3)) [
      | inr (rec, here) ↦
          (hash, rec, rw here refl, here, inl (ground (arith, str_ltb_irrefl hash), ground arith))
      | inl absent ↦ elim (Option-cases (last_by (λ k. str_leb k hash) m)) [
        | inr ((k, rec), found) ↦
            let (fits, got) : (str_leb k hash ≡ true) × (Map.get k m ≡ some rec) =
              last_by-get (λ k. str_leb k hash) m k rec asc found in
            (
              k,
              rec,
              rw (absent, first-descend l.ring hash s.nsec3, found) refl,
              rw (l.ring.get-scan k s.nsec3) got,
              inl (fits, below hash j k other rec m asc there found),
            )
        | inl none_below ↦
            let (k, rec, found, at_most) = last_by-max (λ k. true) m j other asc there refl in
            let (_, got) : (true ≡ true) × (Map.get k m ≡ some rec) =
              last_by-get (λ k. true) m k rec asc found in
            (
              k,
              rec,
              rw
                  (
                    absent,
                    first-descend l.ring hash s.nsec3,
                    none_below,
                    first-reverse_scan l.ring s.nsec3,
                    found,
                  )
                  refl,
              rw (l.ring.get-scan k s.nsec3) got,
              inr (beyond hash j other m asc there none_below, at_most),
            )
      ]
    ]
