-- ===== src/Zone/Store/Frame.antt =====
-- What `addRRLocked` and `removeRRLocked` come to, once the indexes and the serial are left out.
use dnssec_auditor.Common.{
  ℕ, Str, str_eq, nat_eq, ◌==◌, Bool, true, false, not, ◌&&◌, none, some, ◌≡◌, refl, ◌∙◌, subst,
  arith, if◌then◌else◌, Bool-cases, Option-cases, ◌⊎◌, inl, inr,
}
use dnssec_auditor.Common.Map
use dnssec_auditor.Dns.{Rr, RData, nsec3, class_inet, type_soa}
use dnssec_auditor.DnsName.{canonical}
use dnssec_auditor.Zone.RrSet.{pack_rr}
use dnssec_auditor.Zone.Node.{Node}
use dnssec_auditor.Zone.Hash.{hash_from_owner}
use dnssec_auditor.Zone.Store.{
  Libs, Store, add_rr, remove_rr, store_rr, drop_rr, add_node, remove_node, index_rr, deindex_rr,
  refresh_serial, soa_locked, serial_of,
}

-- The same zone, up to its indexes and serial.
pub record SameNodes {l : Libs} (s t : Store l) : Type 0 where
  pub origin : t.origin ≡ s.origin
  pub nodes : t.nodes ≡ s.nodes
  pub rrs : t.rrs ≡ s.rrs

-- A record of another class is skipped.
abbrev pub is_ignored : Rr → Bool
is_ignored rr = not (rr.class == class_inet) && not (rr.class == 0)

module _ {l : Libs} where
  SameNodes-refl : (s : Store l) → SameNodes s s
  SameNodes-refl s = record { origin = refl; nodes = refl; rrs = refl }

  SameNodes-trans : {s t u : Store l} → SameNodes s t → SameNodes t u → SameNodes s u
  SameNodes-trans p q = record {
    origin = q.origin ∙ p.origin;
    nodes = q.nodes ∙ p.nodes;
    rrs = q.rrs ∙ p.rrs;
  }

  index_rr-SameNodes : (name : Str) (r : RData) (s : Store l) → SameNodes s (index_rr l name r s)
  unfolding index_rr
  index_rr-SameNodes name (nsec3 v) s = record { origin = refl; nodes = refl; rrs = refl }
  index_rr-SameNodes name _ s = record { origin = refl; nodes = refl; rrs = refl }

  deindex_rr-SameNodes :
      (name : Str) (r : RData) (s : Store l) → SameNodes s (deindex_rr l name r s)
  unfolding deindex_rr
  deindex_rr-SameNodes name (nsec3 v) s = elim (Option-cases (hash_from_owner l.dns name)) [
    | inl bad ↦ rw (bad, deindex_rr) (SameNodes-refl s)
    | inr (h, good) ↦ rw (good, deindex_rr) (record { origin = refl; nodes = refl; rrs = refl })
  ]
  deindex_rr-SameNodes name _ s = record { origin = refl; nodes = refl; rrs = refl }

  refresh_serial-SameNodes : (s : Store l) → SameNodes s (refresh_serial l s)
  unfolding refresh_serial
  refresh_serial-SameNodes s = elim (Option-cases (soa_locked l s)) [
    | inl none_there ↦ rw (none_there, refresh_serial) (SameNodes-refl s)
    | inr (v, there) ↦
        rw (there, refresh_serial) (record { origin = refl; nodes = refl; rrs = refl })
  ]

  store_rr-SameNodes :
      (rr : Rr) (rd : Str) (s : Store l)
      → SameNodes (add_node l (canonical l.dns rr.name) rr.rrtype rr.ttl rd s) (store_rr l rr rd s)
  unfolding store_rr
  store_rr-SameNodes rr rd s =
      let name : Str = canonical l.dns rr.name in
      let t : Store l = add_node l name rr.rrtype rr.ttl rd s in
      let serial' : ℕ = if rr.rrtype == type_soa then serial_of l t.serial rr.rdata else t.serial in
      SameNodes-trans {t = record t { serial = serial' }}
        (record { origin = refl; nodes = refl; rrs = refl })
        (index_rr-SameNodes name rr.rdata (record t { serial = serial' }))

  drop_rr-SameNodes :
      (rr : Rr) (node : Node) (rd : Str) (s : Store l)
      → SameNodes
          (remove_node l (canonical l.dns rr.name) node rr.rrtype rd s)
          (drop_rr l rr node rd s)
  unfolding drop_rr
  drop_rr-SameNodes rr node rd s =
      let name : Str = canonical l.dns rr.name in
      let t : Store l = remove_node l name node rr.rrtype rd s in
      let u : Store l = deindex_rr l name rr.rdata t in
      let same : SameNodes t u = deindex_rr-SameNodes name rr.rdata t in
      elim (Bool-cases (rr.rrtype == type_soa)) [
        | inl soa ↦ rw soa (SameNodes-trans same (refresh_serial-SameNodes u))
        | inr other ↦ rw other same
      ]

  -- A record that is added was skipped, or its wire form went into the node of its name.
  pub add_rr_inv :
      (rr : Rr) (s t : Store l)
      → add_rr l rr s ≡ some t
      → ((is_ignored rr ≡ true) × (t ≡ s))
        ⊎ ((rd : Str) × (is_ignored rr ≡ false)
            × (pack_rr l.dns rr ≡ some rd)
            × SameNodes (add_node l (canonical l.dns rr.name) rr.rrtype rr.ttl rd s) t)
  unfolding add_rr
  add_rr_inv rr s t e = elim (Bool-cases (is_ignored rr)) [
    | inl skip ↦ inl (skip, ground arith)
    | inr keep ↦ elim (Option-cases (pack_rr l.dns rr)) [
      | inl bad ↦ absurd (ground arith)
      | inr (rd, packed) ↦
          let same : store_rr l rr rd s ≡ t = ground arith in
          let before : Store l = add_node l (canonical l.dns rr.name) rr.rrtype rr.ttl rd s in
          inr (rd, keep, packed, subst (λ u. SameNodes before u) same (store_rr-SameNodes rr rd s))
    ]
  ]

  -- A record that is removed has no node, or its wire form was taken from the node of its name.
  pub remove_rr_inv :
      (rr : Rr) (s t : Store l)
      → remove_rr l rr s ≡ some t
      → ((Map.get (canonical l.dns rr.name) s.nodes ≡ none) × (t ≡ s))
        ⊎ ((node : Node) × (rd : Str) × (Map.get (canonical l.dns rr.name) s.nodes ≡ some node)
            × (pack_rr l.dns rr ≡ some rd)
            × SameNodes (remove_node l (canonical l.dns rr.name) node rr.rrtype rd s) t)
  unfolding remove_rr
  remove_rr_inv rr s t e = elim (Option-cases (Map.get (canonical l.dns rr.name) s.nodes)) [
    | inl absent ↦ inl (absent, ground arith)
    | inr (node, found) ↦ elim (Option-cases (pack_rr l.dns rr)) [
      | inl bad ↦ absurd (ground arith)
      | inr (rd, packed) ↦
          let same : drop_rr l rr node rd s ≡ t = ground arith in
          let before : Store l = remove_node l (canonical l.dns rr.name) node rr.rrtype rd s in
          inr (
            node,
            rd,
            found,
            packed,
            subst (λ u. SameNodes before u) same (drop_rr-SameNodes rr node rd s),
          )
    ]
  ]
