-- ===== src/Zone/Store/Records.antt =====
-- internal/zone/store.go: what a store hands out: its nodes, names and records, and the apex records
-- that the verifier reads. Go's order over a map is that of the entries.
use Prim.Native.Nat.{Ordering}
use dnssec_auditor.Common.{
  ℕ, ◌+◌, Str, str_eq, nat_eq, Bool, true, false, Option, none, some, List, [], ◌∷◌, ◌++◌, map,
  length, sum_by,
}
use dnssec_auditor.Common.Map.{Map}
use dnssec_auditor.Common.Sort.{sort_by}
use dnssec_auditor.Dns.{
  DnsLib, Rr, RData, Dnskey, Nsec3Param, dnskey, nsec3param, soa, type_dnskey, type_nsec3param,
}
use dnssec_auditor.Zone.RrSet.{RrSet}
use dnssec_auditor.Zone.Node.{Node, unpack_type}
use dnssec_auditor.Zone.Node
use dnssec_auditor.Zone.Canonical.{canonical_cmp}
use dnssec_auditor.Zone.Store.{Libs, Store, apex}

-- rr.(*dns.DNSKEY) and rr.(*dns.NSEC3PARAM)
as_dnskey : RData → Option Dnskey
as_dnskey (dnskey k) = some k
as_dnskey (soa _) = none
as_dnskey _ = none

as_nsec3param : RData → Option Nsec3Param
as_nsec3param (nsec3param p) = some p
as_nsec3param (soa _) = none
as_nsec3param _ = none

keys_of : List Rr → List Dnskey
unfolding as_dnskey
keys_of [] = []
keys_of (rr ∷ rrs) =
    let rest = keys_of rrs in elim (as_dnskey rr.rdata) [ none ↦ rest | some k ↦ k ∷ rest ]

param_of : Option (List Rr) → Option Nsec3Param
unfolding as_nsec3param
param_of (some (rr ∷ rrs)) = as_nsec3param rr.rdata
param_of (some []) = none
param_of none = none

-- Not greater, for sorting.
not_gt : Ordering → Bool
not_gt Ordering.gt = false
not_gt _ = true

pub name_leb : DnsLib → Str → Str → Bool
unfolding not_gt
name_leb d a b = not_gt (canonical_cmp d a b)

rdata_bytes : List Str → ℕ
rdata_bytes rds = sum_by (λ rd. length rd + 16) rds

set_bytes : List RrSet → ℕ
unfolding rdata_bytes
set_bytes ss = sum_by (λ s. 16 + rdata_bytes s.rdata) ss

module _ (l : Libs) where
  open l use {dns}

  -- ForEachNode, with a visitor that does not stop
  unfoldable pub nodes_of : Store l → List Node
  nodes_of s = map (λ e. e.1) s.nodes

  -- NodeCount
  unfoldable pub node_count : Store l → ℕ
  node_count s = length s.nodes

  -- EstimateBytes
  unfoldable pub estimate_bytes : Store l → ℕ
  unfolding set_bytes
  estimate_bytes s = sum_by (λ e. length e.0 + 64 + set_bytes (e.1).sets) s.nodes

  -- SortedNames
  unfoldable pub sorted_names : Store l → List Str
  sorted_names s = sort_by (name_leb dns) (map (λ e. e.0) s.nodes)

  -- DNSKEYs; `none` is an error
  unfoldable pub dnskeys : Store l → Option (List Dnskey)
  unfolding keys_of
  dnskeys s = elim (apex l s) [
    | none ↦ some []
    | some n ↦ elim (unpack_type dns n type_dnskey) [ none ↦ none | some rrs ↦ some (keys_of rrs) ]
  ]

  -- NSEC3PARAM
  unfoldable pub nsec3param_of : Store l → Option Nsec3Param
  unfolding param_of
  nsec3param_of s = elim (apex l s) [
    | none ↦ none
    | some n ↦ param_of (unpack_type dns n type_nsec3param)
  ]

  all_of : Map Str Node → Option (List Rr)
  all_of [] = some []
  all_of ((k, n) ∷ m) =
      let rest = all_of m in
      elim (Node.all_rrs dns n) [
        | none ↦ none
        | some rrs ↦ elim rest [ none ↦ none | some more ↦ some (rrs ++ more) ]
      ]

  -- AllRRs
  unfoldable pub all_rrs : Store l → Option (List Rr)
  unfolding all_of
  all_rrs s = all_of s.nodes
