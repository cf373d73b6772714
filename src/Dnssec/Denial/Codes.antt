-- ===== src/Dnssec/Denial/Codes.antt =====
-- The codes of the checks of denial of existence.
use dnssec_auditor.Common.{
  Str, str_eq, nat_eq, false, Option, none, some, List, [], ◌∷◌, ◌≡◌, refl, arith, Option-cases,
  inl, inr,
}
use dnssec_auditor.Dns.{Nsec3Param}
use dnssec_auditor.Zone.Node.{Node}
use dnssec_auditor.Zone.Entries.{Nsec3Rec}
use dnssec_auditor.Zone.Store.{Libs, Store, lookup}
use dnssec_auditor.Zone.Store.Ring.{nsec3_by_hash}
use dnssec_auditor.Dnssec.Findings.{Time, new_finding}
use dnssec_auditor.Dnssec.Crypto.{Crypto}
use dnssec_auditor.Dnssec.Codes.{Table, outside, outside-append, HasNodeCodes, HasZoneCodes}
use dnssec_auditor.Dnssec.Denial.{
  NsecAt, unreadable, not_nsec, nsec_at, read_nsec, nsec_missing, nsec_bitmap, check_nsec_presence,
  nsec3_absent, nsec3_bitmap, nsec3_found, hash_at, check_nsec3_presence, broken_nsec, nsec_link,
  nsec_links, nsec_names, verify_nsec_chain, broken_nsec3, nsec3_links, nsec3_hashes,
  param_mismatch, verify_nsec3_chain, successors,
}

module _ (l : Libs) (c : Crypto) (now : Time) (p : Table) where
  module _ (h : HasNodeCodes p) where
    outside-nsec_bitmap : (n : Node) (at : NsecAt) → outside p (nsec_bitmap l c now n at) ≡ false
    unfolding nsec_bitmap nsec_missing new_finding
    outside-nsec_bitmap n unreadable = ground (arith, h.nsec_missing)
    outside-nsec_bitmap n not_nsec = refl
    outside-nsec_bitmap n (nsec_at next types) = ground (arith, h.nsec_bitmap)

    pub outside-check_nsec_presence :
        (st : Store l) (n : Node) → outside p (check_nsec_presence l c now st n) ≡ false
    unfolding check_nsec_presence nsec_missing new_finding
    outside-check_nsec_presence st n =
        ground (arith, h.nsec_missing, outside-nsec_bitmap n (read_nsec l.dns n))

    outside-nsec3_found :
        (st : Store l) (n : Node) (hash : Str) (found : Option Nsec3Rec)
        → outside p (nsec3_found l c now st n hash found) ≡ false
    unfolding nsec3_found nsec3_absent nsec3_bitmap new_finding
    outside-nsec3_found st n hash none = ground (arith, h.optout_violation, h.nsec3_missing)
    outside-nsec3_found st n hash (some rec) = ground (arith, h.nsec3_bitmap)

    pub outside-check_nsec3_presence :
        (st : Store l) (n : Node) (param : Nsec3Param)
        → outside p (check_nsec3_presence l c now st n param) ≡ false
    unfolding check_nsec3_presence
    outside-check_nsec3_presence st n param =
        let hash = hash_at l c now n param in
        ground (arith, outside-nsec3_found st n hash (nsec3_by_hash l hash st))

  module _ (h : HasZoneCodes p) where
    outside-broken_nsec :
        (name next : Str) (at : NsecAt) → outside p (broken_nsec l c now name next at) ≡ false
    unfolding broken_nsec new_finding
    outside-broken_nsec name next unreadable = refl
    outside-broken_nsec name next not_nsec = refl
    outside-broken_nsec name next (nsec_at to types) = ground (arith, h.nsec_chain)

    outside-nsec_link :
        (st : Store l) (name next : Str) → outside p (nsec_link l c now st (name, next)) ≡ false
    unfolding nsec_link
    outside-nsec_link st name next = elim (Option-cases (lookup l name st)) [
      | inl absent ↦ rw (absent, nsec_link) refl
      | inr (n, found) ↦ rw (found, nsec_link) (outside-broken_nsec name next (read_nsec l.dns n))
    ]

    outside-nsec_links :
        (st : Store l) (ps : List (Str × Str)) → outside p (nsec_links l c now st ps) ≡ false
    unfolding nsec_links
    outside-nsec_links st [] = refl
    outside-nsec_links st ((name, next) ∷ ps) =
        rw outside-append (ground (arith, outside-nsec_link st name next, outside-nsec_links st ps))

    pub outside-verify_nsec_chain :
        (st : Store l) → outside p (verify_nsec_chain l c now st) ≡ false
    unfolding verify_nsec_chain
    outside-verify_nsec_chain st = outside-nsec_links st (successors (nsec_names l c now st))

    outside-broken_nsec3 :
        (next : Str) (found : Option Nsec3Rec) → outside p (broken_nsec3 l c now next found) ≡ false
    unfolding broken_nsec3 new_finding
    outside-broken_nsec3 next none = refl
    outside-broken_nsec3 next (some rec) = ground (arith, h.nsec3_chain)

    outside-nsec3_links :
        (st : Store l) (ps : List (Str × Str)) → outside p (nsec3_links l c now st ps) ≡ false
    unfolding nsec3_links
    outside-nsec3_links st [] = refl
    outside-nsec3_links st ((hash, next) ∷ ps) = rw outside-append (
        ground
          (arith, outside-broken_nsec3 next (nsec3_by_hash l hash st), outside-nsec3_links st ps))

    pub outside-verify_nsec3_chain :
        (st : Store l) (param : Nsec3Param)
        → outside p (verify_nsec3_chain l c now st param) ≡ false
    unfolding verify_nsec3_chain param_mismatch new_finding
    outside-verify_nsec3_chain st param =
        rw (outside-append, outside-nsec3_links st (successors (nsec3_hashes l c now st)))
          (ground (arith, h.param_mismatch))
