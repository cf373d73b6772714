-- ===== src/Dnssec/Denial/Chain.antt =====
-- The chain of NSEC3 records: what the check of the sorted hashes says of the ring.
use dnssec_auditor.Common.{
  Str, str_eq, nat_eq, ◌==◌, true, false, not, ◌||◌, some, List, [], ◌∷◌, map, any, any-append, All,
  ◌≡◌, ◌∙◌, ap, subst, refl, arith, Bool-cases, inl, inr, beq_refl,
}
use dnssec_auditor.Common.Map
use dnssec_auditor.Common.Map.{Map}
use dnssec_auditor.Common.Sort.{sort_by, insert_by}
use dnssec_auditor.Dns.{Nsec3Param}
use dnssec_auditor.Zone.Entries.{Nsec3Rec}
use dnssec_auditor.Zone.Index.{str_ltb, str_leb, Ascending}
use dnssec_auditor.Zone.Index.Last.{str_ltb_asym, str_ltb_irrefl}
use dnssec_auditor.Zone.Index.Sorted.{str_ltb_trans}
use dnssec_auditor.Zone.Store.{Libs, Store}
use dnssec_auditor.Zone.Store.Ring.{nsec3_by_hash}
use dnssec_auditor.Dnssec.Findings.{Time, new_finding}
use dnssec_auditor.Dnssec.Findings.Errors.{errors}
use dnssec_auditor.Dnssec.Crypto.{Crypto}
use dnssec_auditor.Dnssec.Denial.{
  with_next, successors, nsec3_recs, nsec3_hashes, broken_nsec3, nsec3_links, param_mismatch,
  verify_nsec3_chain,
}

-- The keys of an ascending list are in order already.
insert_by-low :
    {V : Type 0} (k : Str) (v : V) (m : Map Str V)
    → Ascending ((k, v) ∷ m)
    → insert_by str_leb k (map (λ e. e.0) m) ≡ k ∷ map (λ e. e.0) m
unfolding insert_by
insert_by-low k v [] h = refl
insert_by-low k v ((j, w) ∷ m) h = rw (str_ltb_asym k j h.0) refl

tail-Ascending :
    {V : Type 0} (k : Str) (v : V) (m : Map Str V) → Ascending ((k, v) ∷ m) → Ascending m
tail-Ascending k v [] h = tt
tail-Ascending k v ((j, w) ∷ m) h = h.1

sort_by-Ascending :
    {V : Type 0} (m : Map Str V)
    → Ascending m
    → sort_by str_leb (map (λ e. e.0) m) ≡ map (λ e. e.0) m
unfolding sort_by
sort_by-Ascending [] h = refl
sort_by-Ascending ((k, v) ∷ m) h =
    ap (insert_by str_leb k) (sort_by-Ascending m (tail-Ascending k v m h)) ∙ insert_by-low k v m h

-- A key below the first one is not there.
low_absent :
    {V : Type 0} (k : Str) (v : V) (m : Map Str V)
    → Ascending ((k, v) ∷ m)
    → All (λ (e : Str × V). (k == e.0) ≡ false) m
low_absent k v [] h = tt
low_absent k v ((j, w) ∷ m) h = (apart k j h.0, low_absent k v m (lower k j m h.0 h.1))
  where
    apart : (a b : Str) → str_ltb a b ≡ true → (a == b) ≡ false
    apart a b h = elim (Bool-cases (a == b)) [
      | inr other ↦ other
      | inl same ↦
          let e : a ≡ b = (str_eq.beq_iff a b).0 same in
          absurd (ground (arith, str_ltb_irrefl b, (rw e at h)))
    ]

    lower :
        (a b : Str) (m : Map Str _)
        → str_ltb a b ≡ true
        → Ascending ((b, w) ∷ m)
        → Ascending ((a, v) ∷ m)
    lower a b [] h r = tt
    lower a b ((i, u) ∷ m) h r = (str_ltb_trans a b i h r.0, r.1)

still_found :
    {V : Type 0} (k : Str) (v : V) (m rest : Map Str V)
    → All (λ (e : Str × V). (k == e.0) ≡ false) rest
    → All (λ (e : Str × V). Map.get e.0 m ≡ some e.1) rest
    → All (λ (e : Str × V). Map.get e.0 ((k, v) ∷ m) ≡ some e.1) rest
unfolding Map.get
still_found k v m [] h g = tt
still_found k v m (e ∷ rest) h g = (rw h.0 g.0, still_found k v m rest h.1 g.1)

found_all :
    {V : Type 0} (m : Map Str V) → Ascending m → All (λ (e : Str × V). Map.get e.0 m ≡ some e.1) m
unfolding Map.get
found_all [] h = tt
found_all ((k, v) ∷ m) h = (
  rw beq_refl refl,
  still_found k v m m (low_absent k v m h) (found_all m (tail-Ascending k v m h)),
)

with_next-map :
    (a : Nsec3Rec) (xs : List Nsec3Rec)
    → with_next a.hash (map (λ rec. rec.hash) xs) ≡ map (λ p. (p.0.hash, p.1.hash)) (with_next a xs)
unfolding with_next
with_next-map a [] = refl
with_next-map a (x ∷ []) = refl
with_next-map a (x ∷ y ∷ ys) = ap (λ ps. (x.hash, y.hash) ∷ ps) (with_next-map a (y ∷ ys))

successors-map :
    (xs : List Nsec3Rec)
    → successors (map (λ rec. rec.hash) xs) ≡ map (λ p. (p.0.hash, p.1.hash)) (successors xs)
unfolding successors
successors-map [] = refl
successors-map (x ∷ xs) = with_next-map x (x ∷ xs)

with_next-All :
    (P : Nsec3Rec → Type 0) (a : Nsec3Rec) (xs : List Nsec3Rec)
    → All P xs
    → All (λ p. P p.0) (with_next a xs)
unfolding with_next
with_next-All P a [] h = tt
with_next-All P a (x ∷ []) h = (h.0, tt)
with_next-All P a (x ∷ y ∷ ys) h = (h.0, with_next-All P a (y ∷ ys) h.1)

successors-All :
    (P : Nsec3Rec → Type 0) (xs : List Nsec3Rec) → All P xs → All (λ p. P p.0) (successors xs)
unfolding successors
successors-All P [] h = tt
successors-All P (x ∷ xs) h = with_next-All P x (x ∷ xs) h

-- Every record of the ring stands under its hash.
abbrev pub IsHashed : Map Str Nsec3Rec → Type 0
IsHashed m = All (λ e. e.0 ≡ (e.1).hash) m

hashes_of :
    (m : Map Str Nsec3Rec)
    → IsHashed m
    → map (λ rec. rec.hash) (map (λ e. e.1) m) ≡ map (λ e. e.0) m
hashes_of [] h = refl
hashes_of ((k, rec) ∷ m) h = rw (h.0, hashes_of m h.1) refl

recs_found :
    (l : Libs) (st : Store l) (m : Map Str Nsec3Rec)
    → IsHashed m
    → All (λ e. Map.get e.0 (l.ring.scan st.nsec3) ≡ some e.1) m
    → All (λ rec. nsec3_by_hash l rec.hash st ≡ some rec) (map (λ e. e.1) m)
unfolding nsec3_by_hash
recs_found l st [] h g = tt
recs_found l st ((k, rec) ∷ m) h g = (
  l.ring.get-scan rec.hash st.nsec3
      ∙ subst (λ x. Map.get x (l.ring.scan st.nsec3) ≡ some rec) h.0 g.0,
  recs_found l st m h.1 g.1,
)

module _ (l : Libs) (c : Crypto) (now : Time) where
  errors-nsec3_links :
      (st : Store l) (ps : List (Nsec3Rec × Nsec3Rec))
      → All (λ p. nsec3_by_hash l p.0.hash st ≡ some p.0) ps
      → errors (nsec3_links l c now st (map (λ p. (p.0.hash, p.1.hash)) ps))
        ≡ any (λ p. not (p.0.next == p.1.hash)) ps
  unfolding nsec3_links broken_nsec3 new_finding
  errors-nsec3_links st [] h = refl
  errors-nsec3_links st (p ∷ ps) h = rw h.0 (ground (arith, errors-nsec3_links st ps h.1))

  errors-param_mismatch :
      (st : Store l) (p : Nsec3Param)
      → errors (param_mismatch l c now st p)
        ≡ any (λ rec. not (rec.iterations == p.iterations)) (nsec3_recs l c now st)
  unfolding param_mismatch new_finding
  errors-param_mismatch st p = ground arith

  -- Where every record of the ring stands under its hash, the check of the chain reports an error exactly
  -- if a record has other iterations than NSEC3PARAM, or its next hash is not that of the record that
  -- follows in the order of hashes, the first one following the last.
  pub errors-verify_nsec3_chain :
      (st : Store l) (p : Nsec3Param)
      → IsHashed (l.ring.scan st.nsec3)
      → errors (verify_nsec3_chain l c now st p)
        ≡ any (λ rec. not (rec.iterations == p.iterations)) (nsec3_recs l c now st)
          || any (λ e. not (e.0.next == e.1.hash)) (successors (nsec3_recs l c now st))
  unfolding verify_nsec3_chain param_mismatch nsec3_hashes nsec3_recs new_finding
  errors-verify_nsec3_chain st p h =
      let m = l.ring.scan st.nsec3 in
      let asc : Ascending m = l.ring.scan-Ascending st.nsec3 in
      let recs = map (λ (e : Str × Nsec3Rec). e.1) m in
      let sorted : sort_by str_leb (map (λ (rec : Nsec3Rec). rec.hash) recs)
          ≡ map (λ rec. rec.hash) recs =
        rw (hashes_of m h) (sort_by-Ascending m asc) in
      let found = recs_found l st m h (found_all m asc) in
      rw
        (
          any-append,
          sorted,
          successors-map recs,
          errors-nsec3_links st (successors recs)
              (successors-All (λ rec. nsec3_by_hash l rec.hash st ≡ some rec) recs found),
        )
        (rw (errors-param_mismatch st p) refl)
