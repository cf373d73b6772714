-- ===== src/Zone/Store/View.antt =====
-- The store as a set of records, each an owner, a type and a wire form: what the operations do to
-- it, whatever the nodes, the RRsets and the indexes look like.
use dnssec_auditor.Common.{
  ℕ, ◌+◌, Str, str_eq, nat_eq, ◌==◌, Bool, true, false, not, ◌&&◌, ◌||◌, Option, none, some, List,
  [], ◌∷◌, ◌≡◌, refl, arith, Option-cases, inl, inr, any,
}
use dnssec_auditor.Common.Map
use dnssec_auditor.Common.Map.{Map}
use dnssec_auditor.Dns.{Rr, DnsLib}
use dnssec_auditor.DnsName.{canonical}
use dnssec_auditor.Zone.RrSet.{pack_rr}
use dnssec_auditor.Zone.Node.{
  Node, record_count, add_packed, remove_packed, recompute_flags, remove_from,
}
use dnssec_auditor.Zone.Node.Laws.{member, member-add_to, member-remove_from, member-lt-count}
use dnssec_auditor.Zone.Store.{
  Libs, Store, Touched, new_store, add_rr, remove_rr, add_node, remove_node, node_or_new, from_rrs,
  from_axfr, apply_removes, apply_adds, apply_changes, touch, untouched,
}
use dnssec_auditor.Zone.Store.Frame.{SameNodes, add_rr_inv, remove_rr_inv, is_ignored}
use dnssec_auditor.Zone.Store.Count.{IsConsistent, NodeIsOk, remove_rr-IsConsistent}

-- The zone has this record.
unfoldable pub at : ℕ → Str → Option Node → Bool
at t rd none = false
at t rd (some n) = member t rd n.sets

abbrev pub holds : {l : Libs} → Store l → Str → ℕ → Str → Bool
holds s name t rd = at t rd (Map.get name s.nodes)

unfoldable pub wire_is : Option Str → Str → Bool
wire_is none rd = false
wire_is (some x) rd = x == rd

-- The record that `rr` denotes.
unfoldable pub denotes : DnsLib → Rr → Str → ℕ → Str → Bool
denotes d rr name t rd =
    canonical d rr.name == name && (rr.rrtype == t && wire_is (pack_rr d rr) rd)

-- What `rr` denotes, unless it is of a class other than the internet's.
unfoldable pub stored : DnsLib → Rr → Str → ℕ → Str → Bool
stored d rr name t rd = not (is_ignored rr) && denotes d rr name t rd

pub holds-new_store :
    (l : Libs) (origin j : Str) (u : ℕ) (x : Str) → holds (new_store l origin) j u x ≡ false
unfolding new_store at Map.get
holds-new_store l origin j u x = refl

module _ {l : Libs} where
  holds-add_node :
      (name : Str) (t ttl : ℕ) (rd : Str) (s : Store l) (j : Str) (u : ℕ) (x : Str)
      → holds (add_node l name t ttl rd s) j u x
        ≡ holds s j u x || (name == j && (t == u && rd == x))
  unfolding add_node node_or_new at add_packed recompute_flags member
  holds-add_node name t ttl rd s j u x = ground (
    arith,
    Option-cases (Map.get name s.nodes),
    str_eq.beq_iff name j,
    Map.get-put name j (recompute_flags s.origin (add_packed (node_or_new l name s) t ttl rd))
        s.nodes,
    member-add_to t ttl rd u x (node_or_new l name s).sets,
  )

  holds-remove_node :
      (name : Str) (node : Node) (t : ℕ) (rd : Str) (s : Store l) (j : Str) (u : ℕ) (x : Str)
      → IsConsistent s
      → Map.get name s.nodes ≡ some node
      → holds (remove_node l name node t rd s) j u x
        ≡ holds s j u x && not (name == j && (t == u && rd == x))
  unfolding remove_node at remove_packed recompute_flags record_count
  holds-remove_node name node t rd s j u x h found =
      let ok : NodeIsOk s.origin name node =
        Map.All-get (λ e. NodeIsOk s.origin e.0 e.1) name s.nodes h.each found in
      let node' : Node = (remove_packed node t rd).0 in
      ground (
        arith,
        found,
        str_eq.beq_iff name j,
        Map.get-delete name j s.nodes,
        Map.get-put name j (recompute_flags s.origin node') s.nodes,
        member-remove_from t rd u x node.sets ok.formed,
        member-lt-count u x (remove_from t rd node.sets).0,
      )

  SameNodes-holds :
      (s t : Store l) (j : Str) (u : ℕ) (x : Str) → SameNodes s t → holds t j u x ≡ holds s j u x
  SameNodes-holds s t j u x same = rw same.nodes

  -- Adding a record adds what it denotes, if its class is the internet's or none, and nothing else.
  pub holds-add_rr :
      (rr : Rr) (s t : Store l) (j : Str) (u : ℕ) (x : Str)
      → add_rr l rr s ≡ some t
      → holds t j u x ≡ holds s j u x || stored l.dns rr j u x
  unfolding stored denotes wire_is
  holds-add_rr rr s t j u x e = elim (add_rr_inv rr s t e) [
    | inl (skip, same) ↦ rw same (ground arith)
    | inr (rd, keep, packed, same) ↦
        let name : Str = canonical l.dns rr.name in
        ground (
          arith,
          keep,
          packed,
          SameNodes-holds (add_node l name rr.rrtype rr.ttl rd s) t j u x same,
          holds-add_node name rr.rrtype rr.ttl rd s j u x,
        )
  ]

  -- Removing a record from a consistent store removes what it denotes, and nothing else.
  pub holds-remove_rr :
      (rr : Rr) (s t : Store l) (j : Str) (u : ℕ) (x : Str)
      → IsConsistent s
      → remove_rr l rr s ≡ some t
      → holds t j u x ≡ holds s j u x && not (denotes l.dns rr j u x)
  unfolding denotes wire_is at
  holds-remove_rr rr s t j u x h e = elim (remove_rr_inv rr s t e) [
    | inl (absent, same) ↦ rw same (
        ground (
          arith,
          absent,
          str_eq.beq_iff (canonical l.dns rr.name) j,
          Option-cases (Map.get j s.nodes),
        ))
    | inr (node, rd, found, packed, same) ↦
        let name : Str = canonical l.dns rr.name in
        ground (
          arith,
          packed,
          SameNodes-holds (remove_node l name node rr.rrtype rd s) t j u x same,
          holds-remove_node name node rr.rrtype rd s j u x h found,
        )
  ]

  holds-apply_removes :
      (rrs : List Rr) (s : Store l) (t : Touched) (j : Str) (u : ℕ) (x : Str)
      → IsConsistent s
      → (apply_removes l rrs s t).2 ≡ true
      → holds (apply_removes l rrs s t).0 j u x
        ≡ holds s j u x && not (any (λ rr. denotes l.dns rr j u x) rrs)
  unfolding apply_removes
  holds-apply_removes [] s t j u x h done = ground arith
  holds-apply_removes (rr ∷ rrs) s t j u x h done = elim (Option-cases (remove_rr l rr s)) [
    | inl bad ↦ absurd (ground arith)
    | inr (s', good) ↦
        let k : Touched = touch l rr t in
        let t' : Touched = record k { removed = k.removed + 1 } in
        ground (
          arith,
          good,
          holds-remove_rr rr s s' j u x h good,
          holds-apply_removes rrs s' t' j u x (remove_rr-IsConsistent rr s s' h good),
        )
  ]

  holds-apply_adds :
      (rrs : List Rr) (s : Store l) (t : Touched) (j : Str) (u : ℕ) (x : Str)
      → (apply_adds l rrs s t).2 ≡ true
      → holds (apply_adds l rrs s t).0 j u x
        ≡ holds s j u x || any (λ rr. stored l.dns rr j u x) rrs
  unfolding apply_adds
  holds-apply_adds [] s t j u x done = ground arith
  holds-apply_adds (rr ∷ rrs) s t j u x done = elim (Option-cases (add_rr l rr s)) [
    | inl bad ↦ absurd (ground arith)
    | inr (s', good) ↦
        let k : Touched = touch l rr t in
        let t' : Touched = record k { added = k.added + 1 } in
        ground (arith, good, holds-add_rr rr s s' j u x good, holds-apply_adds rrs s' t' j u x)
  ]

  -- Changes that are applied whole to a consistent store give the zone without what the removals
  -- denote, and then with what the additions denote.
  pub holds-apply_changes :
      (adds removes : List Rr) (s : Store l) (j : Str) (u : ℕ) (x : Str)
      → IsConsistent s
      → (apply_changes l adds removes s).2 ≡ true
      → holds (apply_changes l adds removes s).0 j u x
        ≡ (holds s j u x && not (any (λ rr. denotes l.dns rr j u x) removes))
          || any (λ rr. stored l.dns rr j u x) adds
  unfolding apply_changes
  holds-apply_changes adds removes s j u x h done =
      let (s', t, all) = apply_removes l removes s (untouched l) in
      ground (
        arith,
        holds-apply_removes removes s (untouched l) j u x h,
        holds-apply_adds adds s' t j u x,
      )

  holds-from_rrs :
      (rrs : List Rr) (s t : Store l) (j : Str) (u : ℕ) (x : Str)
      → from_rrs l rrs s ≡ some t
      → holds t j u x ≡ holds s j u x || any (λ rr. stored l.dns rr j u x) rrs
  unfolding from_rrs
  holds-from_rrs [] s t j u x e = let same : s ≡ t = ground arith in rw same (ground arith)
  holds-from_rrs (rr ∷ rrs) s t j u x e = elim (Option-cases (add_rr l rr s)) [
    | inl bad ↦ absurd (ground arith)
    | inr (s', good) ↦
        ground (arith, good, holds-add_rr rr s s' j u x good, holds-from_rrs rrs s' t j u x)
  ]

  -- A zone built from a full transfer has exactly what the records of the transfer denote.
  pub holds-from_axfr :
      (origin : Str) (rrs : List Rr) (s : Store l) (j : Str) (u : ℕ) (x : Str)
      → from_axfr l origin rrs ≡ some s
      → holds s j u x ≡ any (λ rr. stored l.dns rr j u x) rrs
  unfolding from_axfr
  holds-from_axfr origin rrs s j u x e =
      ground
        (arith, holds-new_store l origin j u x, holds-from_rrs rrs (new_store l origin) s j u x e)
