-- ===== src/Dnssec/Incremental/Codes.antt =====
-- The codes that an incremental pass uses.
use dnssec_auditor.Common.{
  ℕ, Str, str_eq, false, Option, none, some, List, [], ◌∷◌, ◌≡◌, refl, arith,
}
use dnssec_auditor.Dns.{type_nsec3}
use dnssec_auditor.Zone.RrSet.{RrSet}
use dnssec_auditor.Zone.Node.{Node}
use dnssec_auditor.Zone.Node
use dnssec_auditor.Zone.Entries.{Nsec3Rec}
use dnssec_auditor.Zone.Store.{Libs, Store, lookup}
use dnssec_auditor.Zone.Store.Ring.{nsec3_by_hash, next_nsec3, pred_nsec3}
use dnssec_auditor.Dnssec.Findings.{Time, new_finding}
use dnssec_auditor.Dnssec.Crypto.{Crypto}
use dnssec_auditor.Dnssec.Keys.{CachedKey}
use dnssec_auditor.Dnssec.Codes.{Table, outside, outside-append, HasNodeCodes}
use dnssec_auditor.Dnssec.Verify.{Config}
use dnssec_auditor.Dnssec.Verify.Codes.{outside-verify_rrset}
use dnssec_auditor.Dnssec.Full.Codes.{outside-verify_node}
use dnssec_auditor.Dnssec.Incremental.{
  broken, at_name, verify_names, next_link, pred_link, nsec3_set, nsec3_owner, at_hash,
  verify_hashes,
}

module _ (l : Libs) (c : Crypto) (cfg : Config) (now : Time) (clock : ℕ) (p : Table)
    (h : HasNodeCodes p) where
  outside-at_name :
      (st : Store l) (n : Option Node) (keys : List CachedKey)
      → outside p (at_name l c cfg now clock st n keys).findings ≡ false
  unfolding at_name
  outside-at_name st none keys = refl
  outside-at_name st (some n) keys = outside-verify_node l c cfg now clock p h st n keys

  pub outside-verify_names :
      (st : Store l) (names : List Str) (keys : List CachedKey)
      → outside p (verify_names l c cfg now clock st names keys).findings ≡ false
  unfolding verify_names
  outside-verify_names st [] keys = refl
  outside-verify_names st (name ∷ names) keys = rw outside-append (
      ground (
        arith,
        outside-at_name st (lookup l name st) keys,
        outside-verify_names st names (at_name l c cfg now clock st (lookup l name st) keys).keys,
      ))

  outside-next_link :
      (rec : Nsec3Rec) (next : Option Nsec3Rec)
      → outside p (next_link l c cfg now clock rec next) ≡ false
  unfolding next_link broken new_finding
  outside-next_link rec none = ground (arith, h.nsec3_chain)
  outside-next_link rec (some next) = ground (arith, h.nsec3_chain)

  outside-pred_link :
      (rec : Nsec3Rec) (pred : Option Nsec3Rec)
      → outside p (pred_link l c cfg now clock rec pred) ≡ false
  unfolding pred_link broken new_finding
  outside-pred_link rec none = refl
  outside-pred_link rec (some pred) = ground (arith, h.nsec3_chain)

  outside-nsec3_set :
      (n : Node) (set : Option RrSet) (keys : List CachedKey)
      → outside p (nsec3_set l c cfg now clock n set keys).findings ≡ false
  unfolding nsec3_set
  outside-nsec3_set n none keys = refl
  outside-nsec3_set n (some set) keys =
      outside-verify_rrset l.dns c cfg now clock p h.signatures n set keys

  outside-nsec3_owner :
      (n : Option Node) (keys : List CachedKey)
      → outside p (nsec3_owner l c cfg now clock n keys).findings ≡ false
  unfolding nsec3_owner
  outside-nsec3_owner none keys = refl
  outside-nsec3_owner (some n) keys = outside-nsec3_set n (Node.set n type_nsec3) keys

  outside-at_hash :
      (st : Store l) (hash : Str) (rec : Option Nsec3Rec) (keys : List CachedKey)
      → outside p (at_hash l c cfg now clock st hash rec keys).findings ≡ false
  unfolding at_hash broken new_finding
  outside-at_hash st hash none keys = ground (arith, h.nsec3_chain)
  outside-at_hash st hash (some rec) keys =
      rw (outside-append, outside-append)
        (ground (
          arith,
          outside-next_link rec (next_nsec3 l hash st),
          outside-pred_link rec (pred_nsec3 l hash st),
          outside-nsec3_owner (lookup l rec.owner st) keys,
        ))

  pub outside-verify_hashes :
      (st : Store l) (hashes : List Str) (keys : List CachedKey)
      → outside p (verify_hashes l c cfg now clock st hashes keys).findings ≡ false
  unfolding verify_hashes
  outside-verify_hashes st [] keys = refl
  outside-verify_hashes st (hash ∷ hashes) keys =
      let one = at_hash l c cfg now clock st hash (nsec3_by_hash l hash st) keys in
      rw outside-append (
        ground (
          arith,
          outside-at_hash st hash (nsec3_by_hash l hash st) keys,
          outside-verify_hashes st hashes one.keys,
        ))
