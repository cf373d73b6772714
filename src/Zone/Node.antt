-- ===== src/Zone/Node.antt =====
-- internal/zone/node.go: the RRsets at one owner name.
pub mod Laws
use dnssec_auditor.Common.{
  ℕ, ◌+◌, Str, str_eq, nat_eq, ◌==◌, Bool, true, false, not, ◌&&◌, Option, none, some, is_some,
  List, [], ◌∷◌, ◌++◌, map, if◌then◌else◌, length, contains, sum_by,
}
use dnssec_auditor.Dns.{
  DnsLib, Rr, RData, Rrsig, rrsig, type_ns, type_ds, type_rrsig, soa, nsec, nsec3, nsec3param,
  dnskey, zonemd, ptr, txt, other,
}
use dnssec_auditor.Zone.RrSet.{RrSet, clone, unpack, parse_rrsig}

pub record Node : Type 0 where
  pub name : Str
  pub sets : List RrSet
  pub nsec3_hash : Str
  pub has_nsec3_hash : Bool
  pub is_delegation : Bool
  pub has_ds : Bool

abbrev pub empty_node : Str → Node
empty_node name = record {
  name = name;
  sets = [];
  nsec3_hash = [];
  has_nsec3_hash = false;
  is_delegation = false;
  has_ds = false;
}

pub find_set : ℕ → List RrSet → Option RrSet
find_set t [] = none
find_set t (s ∷ ss) = if s.rrtype == t then some s else find_set t ss

-- Node.Set, Node.Has and Node.Types
unfoldable pub set : Node → ℕ → Option RrSet
unfolding find_set
set n t = find_set t n.sets

unfoldable pub has : Node → ℕ → Bool
unfolding set
has n t = is_some (set n t)

unfoldable types : Node → List ℕ
types n = map (λ s. s.rrtype) n.sets

abbrev pub set_size : RrSet → ℕ
set_size s = length s.rdata

-- Node.RecordCount
unfoldable pub record_count : Node → ℕ
record_count n = sum_by set_size n.sets

add_rdata : ℕ → Str → RrSet → RrSet
add_rdata ttl rd s =
    let t = if s.ttl == 0 then record s { ttl = ttl } else s in
    if contains rd s.rdata then t else record t { rdata = s.rdata ++ rd ∷ [] }

pub add_to : ℕ → ℕ → Str → List RrSet → List RrSet
unfolding add_rdata
add_to rrtype ttl rd [] = record { rrtype = rrtype; ttl = ttl; rdata = rd ∷ [] } ∷ []
add_to rrtype ttl rd (s ∷ ss) =
    if s.rrtype == rrtype then add_rdata ttl rd s ∷ ss else s ∷ add_to rrtype ttl rd ss

-- Node.addPacked
unfoldable pub add_packed : Node → ℕ → ℕ → Str → Node
unfolding add_to
add_packed n rrtype ttl rd = record n { sets = add_to rrtype ttl rd n.sets }

-- The inner loop of removePacked: the rdata without the first copy of `rd`.
drop_first : Str → List Str → List Str
drop_first rd [] = []
drop_first rd (x ∷ xs) = if x == rd then xs else x ∷ drop_first rd xs

-- The RRset without `rd`, or no RRset if nothing is left.
shrink : Str → RrSet → List RrSet → List RrSet
unfolding drop_first
shrink rd s ss =
    let kept = drop_first rd s.rdata in
    if length kept == 0 then ss else record s { rdata = kept } ∷ ss

pub remove_from : ℕ → Str → List RrSet → List RrSet × Bool
unfolding shrink
remove_from rrtype rd [] = ([], false)
remove_from rrtype rd (s ∷ ss) =
    let (ss', removed) = remove_from rrtype rd ss in
    if not (s.rrtype == rrtype)
    then (s ∷ ss', removed)
    else (if contains rd s.rdata then (shrink rd s ss, true) else (s ∷ ss, false))

-- Node.removePacked
unfoldable pub remove_packed : Node → ℕ → Str → Node × Bool
unfolding remove_from
remove_packed n rrtype rd =
    let (sets', removed) = remove_from rrtype rd n.sets in (record n { sets = sets' }, removed)

-- Node.recomputeFlags
unfoldable pub recompute_flags : Str → Node → Node
unfolding has
recompute_flags origin n = record n {
  is_delegation = not (n.name == origin) && has n type_ns;
  has_ds = has n type_ds;
}

-- Node.Clone
unfoldable clone_node : Node → Node
unfolding clone
clone_node n = record {
  name = n.name;
  sets = map clone n.sets;
  nsec3_hash = n.nsec3_hash;
  has_nsec3_hash = n.has_nsec3_hash;
  is_delegation = n.is_delegation;
  has_ds = n.has_ds;
}

-- The concrete type of a record, where it is an RRSIG.
as_rrsig : RData → Option Rrsig
as_rrsig (rrsig r) = some r
as_rrsig (soa _) = none
as_rrsig _ = none

module _ (d : DnsLib) where
  -- Node.UnpackType
  unfoldable pub unpack_type : Node → ℕ → Option (List Rr)
  unpack_type n t = elim (set n t) [ none ↦ some [] | some s ↦ unpack d s n.name ]

  all_from : Str → List RrSet → Option (List Rr)
  all_from name [] = some []
  all_from name (s ∷ ss) =
      let rest = all_from name ss in
      elim (unpack d s name) [
        | none ↦ none
        | some rrs ↦ elim rest [ none ↦ none | some more ↦ some (rrs ++ more) ]
      ]

  -- Node.AllRRs
  unfoldable pub all_rrs : Node → Option (List Rr)
  unfolding all_from
  all_rrs n = all_from n.name n.sets

  covering : ℕ → List Rr → List Rrsig
  unfolding as_rrsig
  covering t [] = []
  covering t (rr ∷ rrs) =
      let rest = covering t rrs in
      elim (as_rrsig rr.rdata) [
        | none ↦ rest
        | some sig ↦ if sig.type_covered == t then parse_rrsig d sig ∷ rest else rest
      ]

  or_none : Option (List Rr) → List Rr
  or_none none = []
  or_none (some rrs) = rrs

  -- Node.RRSIGsCovering
  unfoldable pub rrsigs_covering : Node → ℕ → List Rrsig
  unfolding covering or_none unpack_type
  rrsigs_covering n t = covering t (or_none (unpack_type n type_rrsig))
