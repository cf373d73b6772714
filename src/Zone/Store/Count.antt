-- ===== src/Zone/Store/Count.antt =====
-- What holds of a store between two operations: the record count, the nodes and their flags.
use dnssec_auditor.Common.{
  ℕ, ◌+◌, ◌<◌, Str, str_eq, nat_eq, ◌==◌, not, ◌&&◌, some, ◌≡◌, refl, arith, if◌then◌else◌, All,
  sum_by, Bool-cases, Option-cases, inl, inr,
}
use dnssec_auditor.Common.Map
use dnssec_auditor.Common.Map.{Map, at_key}
use dnssec_auditor.Dns.{Rr, type_ns, type_ds}
use dnssec_auditor.DnsName.{canonical}
use dnssec_auditor.Zone.Node.{Node, has, record_count, add_packed, remove_packed, recompute_flags}
use dnssec_auditor.Zone.Node.Laws.{
  WellFormed, member, member-lt-count, add_to-WellFormed, remove_from-WellFormed, count-add_to,
  count-remove_from, removed-remove_from,
}
use dnssec_auditor.Zone.Store.Frame.{SameNodes, add_rr_inv, remove_rr_inv}
use dnssec_auditor.Zone.Store.{
  Libs, Store, new_store, add_rr, remove_rr, add_node, remove_node, node_or_new,
}

-- A node under its name: one RRset for each type, at least one record, and flags that are right.
pub record NodeIsOk (origin name : Str) (n : Node) : Type 0 where
  pub named : n.name ≡ name
  pub formed : WellFormed n.sets
  pub busy : 0 < record_count n
  pub delegation : n.is_delegation ≡ (not (name == origin) && has n type_ns)
  pub ds : n.has_ds ≡ has n type_ds

pub record IsConsistent {l : Libs} (s : Store l) : Type 0 where
  pub distinct : Map.Distinct s.nodes
  pub each : All (λ e. NodeIsOk s.origin e.0 e.1) s.nodes
  pub total : s.rrs ≡ sum_by (λ e. record_count e.1) s.nodes

record_count-add_packed :
    (n : Node) (t ttl : ℕ) (rd : Str)
    → record_count (add_packed n t ttl rd) ≡ record_count n + (if member t rd n.sets then 0 else 1)
unfolding record_count add_packed
record_count-add_packed n t ttl rd = count-add_to t ttl rd n.sets

-- Flags computed anew are right, and nothing else changes.
recompute-NodeIsOk :
    (origin name : Str) (n : Node)
    → n.name ≡ name
    → WellFormed n.sets
    → 0 < record_count n
    → NodeIsOk origin name (recompute_flags origin n)
unfolding recompute_flags has record_count
recompute-NodeIsOk origin name n p w b = record {
  named = p;
  formed = w;
  busy = b;
  delegation = rw p;
  ds = refl;
}

record_count-recompute :
    (origin : Str) (n : Node) → record_count (recompute_flags origin n) ≡ record_count n
unfolding recompute_flags record_count
record_count-recompute origin n = refl

record_count-remove_packed :
    (n : Node) (t : ℕ) (rd : Str)
    → record_count (remove_packed n t rd).0 + (if (remove_packed n t rd).1 then 1 else 0)
      ≡ record_count n
unfolding record_count remove_packed
record_count-remove_packed n t rd =
    ground (arith, count-remove_from t rd n.sets, removed-remove_from t rd n.sets)

busy_of_member : (t ttl : ℕ) (rd : Str) (n : Node) → 0 < record_count (add_packed n t ttl rd)
unfolding record_count add_packed
busy_of_member t ttl rd n =
    ground (arith, count-add_to t ttl rd n.sets, member-lt-count t rd n.sets)

module _ {l : Libs} where
  node_or_new-formed :
      (name : Str) (s : Store l)
      → IsConsistent s
      → (WellFormed (node_or_new l name s).sets)
        × ((node_or_new l name s).name ≡ name)
        × (record_count (node_or_new l name s) ≡ at_key record_count (Map.get name s.nodes))
  unfolding node_or_new record_count
  node_or_new-formed name s h = elim (Option-cases (Map.get name s.nodes)) [
    | inl absent ↦ rw (absent, node_or_new) (tt, refl, refl)
    | inr (n, found) ↦
        let ok : NodeIsOk s.origin name n =
          Map.All-get (λ e. NodeIsOk s.origin e.0 e.1) name s.nodes h.each found in
        rw (found, node_or_new) (ok.formed, ok.named, refl)
  ]

  add_node-IsConsistent :
      (name : Str) (t ttl : ℕ) (rd : Str) (s : Store l)
      → IsConsistent s
      → IsConsistent (add_node l name t ttl rd s)
  unfolding add_node
  add_node-IsConsistent name t ttl rd s h =
      let node : Node = node_or_new l name s in
      let (formed, named, size) = node_or_new-formed name s h in
      let node' : Node = add_packed node t ttl rd in
      record {
        distinct = Map.put-Distinct name (recompute_flags s.origin node') s.nodes h.distinct;
        each =
            Map.put-All (λ e. NodeIsOk s.origin e.0 e.1) name (recompute_flags s.origin node')
              s.nodes
              (recompute-NodeIsOk s.origin name node' (unfold add_packed in named)
                (unfold add_packed in add_to-WellFormed t ttl rd node.sets formed)
                (busy_of_member t ttl rd node))
              h.each;
        total = ground (
          arith,
          h.total,
          size,
          record_count-recompute s.origin node',
          Map.sum_by-put record_count name (recompute_flags s.origin node') s.nodes,
          record_count-add_packed node t ttl rd,
        );
      }

  remove_node-IsConsistent :
      (name : Str) (node : Node) (t : ℕ) (rd : Str) (s : Store l)
      → IsConsistent s
      → Map.get name s.nodes ≡ some node
      → IsConsistent (remove_node l name node t rd s)
  unfolding remove_node
  remove_node-IsConsistent name node t rd s h found =
      let ok : NodeIsOk s.origin name node =
        Map.All-get (λ e. NodeIsOk s.origin e.0 e.1) name s.nodes h.each found in
      let node' : Node = (remove_packed node t rd).0 in
      let size = record_count-remove_packed node t rd in
      let at_name : at_key record_count (Map.get name s.nodes) ≡ record_count node = rw found in
      elim (Bool-cases (record_count node' == 0)) [
        | inl gone ↦ rw gone (record {
          distinct = Map.delete-Distinct name s.nodes h.distinct;
          each = Map.delete-All (λ e. NodeIsOk s.origin e.0 e.1) name s.nodes h.each;
          total = ground (
            arith,
            h.total,
            at_name,
            size,
            gone,
            Map.sum_by-delete record_count name s.nodes h.distinct,
          );
        })
        | inr left ↦ rw left (record {
          distinct = Map.put-Distinct name (recompute_flags s.origin node') s.nodes h.distinct;
          each =
              Map.put-All (λ e. NodeIsOk s.origin e.0 e.1) name (recompute_flags s.origin node')
                s.nodes
                (recompute-NodeIsOk s.origin name node' (unfold remove_packed in ok.named)
                  (unfold remove_packed in remove_from-WellFormed t rd node.sets ok.formed)
                  (ground (arith, left)))
                h.each;
          total = ground (
            arith,
            h.total,
            at_name,
            size,
            left,
            ok.busy,
            record_count-recompute s.origin node',
            Map.sum_by-put record_count name (recompute_flags s.origin node') s.nodes,
          );
        })
      ]

  SameNodes-IsConsistent : (s t : Store l) → SameNodes s t → IsConsistent s → IsConsistent t
  SameNodes-IsConsistent s t same h = record {
    distinct = rw same.nodes h.distinct;
    each = rw (same.nodes, same.origin) h.each;
    total = rw (same.nodes, same.rrs) h.total;
  }

  pub new_store-IsConsistent : (origin : Str) → IsConsistent (new_store l origin)
  unfolding new_store
  new_store-IsConsistent origin = record { distinct = tt; each = tt; total = refl }

  -- Adding a record keeps the store consistent: its counter is the number of its records, each
  -- node is well formed and under its name, and the delegation flags are right.
  pub add_rr-IsConsistent :
      (rr : Rr) (s t : Store l) → IsConsistent s → add_rr l rr s ≡ some t → IsConsistent t
  add_rr-IsConsistent rr s t h e = elim (add_rr_inv rr s t e) [
    | inl (skip, same) ↦ rw same h
    | inr (rd, keep, packed, same) ↦
        let name : Str = canonical l.dns rr.name in
        SameNodes-IsConsistent (add_node l name rr.rrtype rr.ttl rd s) t same
          (add_node-IsConsistent name rr.rrtype rr.ttl rd s h)
  ]

  -- So does removing one.
  pub remove_rr-IsConsistent :
      (rr : Rr) (s t : Store l) → IsConsistent s → remove_rr l rr s ≡ some t → IsConsistent t
  remove_rr-IsConsistent rr s t h e = elim (remove_rr_inv rr s t e) [
    | inl (absent, same) ↦ rw same h
    | inr (node, rd, found, packed, same) ↦
        let name : Str = canonical l.dns rr.name in
        SameNodes-IsConsistent (remove_node l name node rr.rrtype rd s) t same
          (remove_node-IsConsistent name node rr.rrtype rd s h found)
  ]
