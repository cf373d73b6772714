-- ===== src/Zone/Store.antt =====
-- internal/zone/store.go: the zone, its NSEC3 ring and its expiry index. The lock is not modelled: an
-- operation runs whole. `nil` and an error are `none`; an operation that fails half-way returns the
-- state that it leaves.
pub mod Frame
pub mod View
pub mod Count
pub mod Changes
pub mod Ring
pub mod Records
pub mod Snapshot
use dnssec_auditor.Common.{
  ℕ, zero, suc, ◌+◌, ◌-◌, ◌*◌, Str, str_eq, nat_eq, ◌==◌, Bool, true, false, not, ◌&&◌, ◌||◌,
  Option, none, some, is_some, List, [], ◌∷◌, ◌++◌, map, if◌then◌else◌, length, contains, codes,
  leb, ltb,
}
use dnssec_auditor.Common.Map
use dnssec_auditor.Common.Map.{Map}
use dnssec_auditor.Common.Decimal.{decimal}
use dnssec_auditor.Dns.{
  DnsLib, Rr, RData, Soa, Nsec3, Rrsig, Dnskey, Nsec3Param, soa, nsec, nsec3, nsec3param, rrsig,
  dnskey, zonemd, ptr, txt, other, class_inet, type_soa, type_nsec, type_nsec3, type_nsec3param,
  type_dnskey,
}
use dnssec_auditor.DnsName.{canonical}
use dnssec_auditor.Zone.RrSet.{RrSet, pack_rr}
use dnssec_auditor.Zone.Node.{
  Node, empty_node, has, record_count, add_packed, remove_packed, recompute_flags, unpack_type,
  all_rrs,
}
use dnssec_auditor.Zone.Hash.{hash_from_owner, hash_from_base32}
use dnssec_auditor.Zone.Index.{OrderedMap}
use dnssec_auditor.Zone.Entries.{Nsec3Rec, ExpiryRec, expiry_key, nsec3_rec, expiry_rec}

-- The libraries that the store stands on.
pub record Libs : Type 1 where
  pub dns : DnsLib
  pub ring : OrderedMap Nsec3Rec
  pub expiries : OrderedMap ExpiryRec

pub record Store (l : Libs) : Type 0 where
  pub origin : Str
  pub serial : ℕ
  pub nodes : Map Str Node
  pub nsec3 : l.ring.Carrier
  pub expiry : l.expiries.Carrier
  pub rrs : ℕ

-- Touched
pub record Touched : Type 0 where
  pub names : List Str
  pub nsec3 : List Str
  pub dnskey : Bool
  pub nsec3param : Bool
  pub soa : Bool
  pub added : ℕ
  pub removed : ℕ

module _ (l : Libs) where
  open l use {dns, ring, expiries}

  unfoldable pub new_store : Str → Store l
  new_store origin = record {
    origin = canonical dns origin;
    serial = 0;
    nodes = [];
    nsec3 = ring.empty;
    expiry = expiries.empty;
    rrs = 0;
  }

  -- Apex and Lookup
  unfoldable pub apex : Store l → Option Node
  apex s = Map.get s.origin s.nodes

  unfoldable pub lookup : Str → Store l → Option Node
  lookup name s = Map.get (canonical dns name) s.nodes

  unfoldable pub index_rr : Str → RData → Store l → Store l
  index_rr name (nsec3 v) s =
      let rec = nsec3_rec dns name v in record s { nsec3 = ring.set rec.hash rec s.nsec3 }
  index_rr name (rrsig v) s = record s {
    expiry =
        expiries.set (expiry_key v.expiration name v.type_covered v.key_tag) (expiry_rec name v)
          s.expiry;
  }
  index_rr name _ s = s

  unfoldable pub deindex_rr : Str → RData → Store l → Store l
  deindex_rr name (nsec3 v) s = elim (hash_from_owner dns name) [
    | none ↦ s
    | some hash ↦ record s { nsec3 = ring.delete hash s.nsec3 }
  ]
  deindex_rr name (rrsig v) s = record s {
    expiry = expiries.delete (expiry_key v.expiration name v.type_covered v.key_tag) s.expiry;
  }
  deindex_rr name _ s = s

  unfoldable pub serial_of : ℕ → RData → ℕ
  serial_of old (soa v) = v.serial
  serial_of old _ = old

  unfoldable pub node_or_new : Str → Store l → Node
  node_or_new name s = elim (Map.get name s.nodes) [ none ↦ empty_node name | some n ↦ n ]

  -- addRRLocked after `PackRR`: the node, the count, the flags
  unfoldable pub add_node : Str → ℕ → ℕ → Str → Store l → Store l
  unfolding node_or_new
  add_node name rrtype ttl rdata s =
      let node = node_or_new name s in
      let node' = add_packed node rrtype ttl rdata in
      record s {
        nodes = Map.put name (recompute_flags s.origin node') s.nodes;
        rrs = s.rrs + (record_count node' - record_count node);
      }

  -- addRRLocked once the record is packed
  unfoldable pub store_rr : Rr → Str → Store l → Store l
  unfolding serial_of
  store_rr rr rdata s =
      let name = canonical dns rr.name in
      let t = add_node name rr.rrtype rr.ttl rdata s in
      let u = record t {
        serial = if rr.rrtype == type_soa then serial_of t.serial rr.rdata else t.serial;
      } in
      index_rr name rr.rdata u

  -- addRRLocked
  unfoldable pub add_rr : Rr → Store l → Option (Store l)
  add_rr rr s =
      if not (rr.class == class_inet) && not (rr.class == 0)
      then some s
      else elim (pack_rr dns rr) [ none ↦ none | some rdata ↦ some (store_rr rr rdata s) ]

  first_soa : Option (List Rr) → Option Soa
  first_soa (some (rr ∷ rrs)) = elim rr.rdata [ soa v ↦ some v | _ ↦ none ]
  first_soa _ = none

  -- soaLocked
  unfoldable pub soa_locked : Store l → Option Soa
  unfolding first_soa
  soa_locked s = elim (Map.get s.origin s.nodes) [
    | none ↦ none
    | some n ↦ first_soa (unpack_type dns n type_soa)
  ]

  -- removeRRLocked after `PackRR`: the node, the count, the flags
  unfoldable pub remove_node : Str → Node → ℕ → Str → Store l → Store l
  remove_node name node rrtype rdata s =
      let (node', removed) = remove_packed node rrtype rdata in
      let t = record s { rrs = if removed then s.rrs - 1 else s.rrs } in
      if record_count node' == 0
      then record t { nodes = Map.delete name t.nodes }
      else record t { nodes = Map.put name (recompute_flags t.origin node') t.nodes }

  unfoldable pub refresh_serial : Store l → Store l
  refresh_serial s = elim (soa_locked s) [ none ↦ s | some v ↦ record s { serial = v.serial } ]

  -- removeRRLocked once the record is packed
  unfoldable pub drop_rr : Rr → Node → Str → Store l → Store l
  drop_rr rr node rdata s =
      let name = canonical dns rr.name in
      let t = deindex_rr name rr.rdata (remove_node name node rr.rrtype rdata s) in
      if rr.rrtype == type_soa then refresh_serial t else t

  -- removeRRLocked
  unfoldable pub remove_rr : Rr → Store l → Option (Store l)
  remove_rr rr s = elim (Map.get (canonical dns rr.name) s.nodes) [
    | none ↦ some s
    | some node ↦ elim (pack_rr dns rr) [
      | none ↦ none
      | some rdata ↦ some (drop_rr rr node rdata s)
    ]
  ]

  -- FromAXFR
  pub from_rrs : List Rr → Store l → Option (Store l)
  from_rrs [] s = some s
  from_rrs (rr ∷ rrs) s = elim (add_rr rr s) [ none ↦ none | some t ↦ from_rrs rrs t ]

  unfoldable pub from_axfr : Str → List Rr → Option (Store l)
  unfolding from_rrs new_store
  from_axfr origin rrs = from_rrs rrs (new_store origin)

  note_hash : Option Str → Touched → Touched
  note_hash none t = t
  note_hash (some h) t = record t { nsec3 = if contains h t.nsec3 then t.nsec3 else h ∷ t.nsec3 }

  -- Touched.note
  note : Rr → Touched → Touched
  unfolding note_hash
  note rr t =
      if rr.rrtype == type_dnskey
      then record t { dnskey = true }
      else (if rr.rrtype == type_nsec3param
          then record t { nsec3param = true }
          else (if rr.rrtype == type_soa
              then record t { soa = true }
              else (if rr.rrtype == type_nsec3
                  then note_hash (hash_from_owner dns rr.name) t
                  else t)))

  touch : Rr → Touched → Touched
  unfolding note
  touch rr t =
      let name = canonical dns rr.name in
      note rr (record t { names = if contains name t.names then t.names else name ∷ t.names })

  unfoldable pub apply_removes : List Rr → Store l → Touched → Store l × Touched × Bool
  unfolding touch
  apply_removes [] s t = (s, t, true)
  apply_removes (rr ∷ rrs) s t =
      let u = touch rr t in
      elim (remove_rr rr s) [
        | none ↦ (s, u, false)
        | some s' ↦ apply_removes rrs s' (record u { removed = u.removed + 1 })
      ]

  unfoldable pub apply_adds : List Rr → Store l → Touched → Store l × Touched × Bool
  unfolding touch
  apply_adds [] s t = (s, t, true)
  apply_adds (rr ∷ rrs) s t =
      let u = touch rr t in
      elim (add_rr rr s) [
        | none ↦ (s, u, false)
        | some s' ↦ apply_adds rrs s' (record u { added = u.added + 1 })
      ]

  abbrev pub untouched : Touched
  untouched = record {
    names = [];
    nsec3 = [];
    dnskey = false;
    nsec3param = false;
    soa = false;
    added = 0;
    removed = 0;
  }

  unfoldable pub apply_changes : List Rr → List Rr → Store l → Store l × Touched × Bool
  apply_changes adds removes s =
      let (s', t, done) = apply_removes removes s untouched in
      if done then apply_adds adds s' t else (s', t, false)
