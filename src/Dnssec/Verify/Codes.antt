-- ===== src/Dnssec/Verify/Codes.antt =====
-- The codes of the check of an RRset.
use dnssec_auditor.Common.{
  ℕ, str_eq, nat_eq, false, Option, none, some, List, [], ◌∷◌, ◌++◌, length, ◌≡◌, refl, arith,
}
use dnssec_auditor.Dns.{DnsLib, Rr, Rrsig}
use dnssec_auditor.Zone.RrSet.{RrSet, unpack}
use dnssec_auditor.Zone.Node.{Node, rrsigs_covering}
use dnssec_auditor.Dnssec.Findings.{Time, new_finding}
use dnssec_auditor.Dnssec.Crypto.{Crypto}
use dnssec_auditor.Dnssec.Keys.{CachedKey}
use dnssec_auditor.Dnssec.Codes.{Table, outside, outside-append, HasSignatureCodes}
use dnssec_auditor.Dnssec.Verify.{
  Config, Signing, find_in, labels_finding, ttl_finding, soon_finding, early_finding, late_finding,
  try_sig, sig_step, sig_loop, last_finding, conclude, unsigned_rrset, signed_rrset,
  signed_unpacked, unsettled, verify_rrset,
}

module _ (d : DnsLib) (c : Crypto) (cfg : Config) (now : Time) (clock : ℕ) (p : Table)
    (h : HasSignatureCodes p) where
  module _ (n : Node) (set : RrSet) where
    outside-labels_finding :
        (sig : Rrsig) → outside p (labels_finding d c cfg now clock n set sig) ≡ false
    unfolding labels_finding find_in new_finding
    outside-labels_finding sig = ground (arith, h.labels_mismatch)

    outside-ttl_finding :
        (sig : Rrsig) → outside p (ttl_finding d c cfg now clock n set sig) ≡ false
    unfolding ttl_finding find_in new_finding
    outside-ttl_finding sig = ground (arith, h.ttl_mismatch)

    outside-soon_finding :
        (sig : Rrsig) → outside p (soon_finding d c cfg now clock n set sig) ≡ false
    unfolding soon_finding find_in new_finding
    outside-soon_finding sig = ground (arith, h.expiring_soon)

    outside-sig_step :
        (rrs : List Rr) (sig : Rrsig) (s : Signing)
        → outside p (sig_step d c cfg now clock n set rrs sig s).findings ≡ outside p s.findings
    unfolding sig_step try_sig early_finding late_finding find_in new_finding
    outside-sig_step rrs sig s =
        let labels = labels_finding d c cfg now clock n set sig in
        let labelled = s.findings ++ labels in
        let early = early_finding d c cfg now clock n set sig in
        let late = late_finding d c cfg now clock n set sig in
        let ttl = ttl_finding d c cfg now clock n set sig in
        let soon = soon_finding d c cfg now clock n set sig in
        ground (
          arith,
          h.not_yet_valid,
          h.expired,
          outside-append p s.findings labels,
          outside-labels_finding sig,
          outside-append p labelled (early ∷ []),
          outside-append p labelled (late ∷ []),
          outside-append p labelled (ttl ++ soon),
          outside-append p ttl soon,
          outside-ttl_finding sig,
          outside-soon_finding sig,
        )

    outside-sig_loop :
        (rrs : List Rr) (sigs : List Rrsig) (s : Signing)
        → outside p (sig_loop d c cfg now clock n set rrs sigs s).findings ≡ outside p s.findings
    unfolding sig_loop
    outside-sig_loop rrs [] s = refl
    outside-sig_loop rrs (sig ∷ sigs) s = ground (
      arith,
      outside-sig_step rrs sig s,
      outside-sig_loop rrs sigs (sig_step d c cfg now clock n set rrs sig s),
    )

    outside-conclude :
        (count : ℕ) (s : Signing)
        → outside p (conclude d c cfg now clock n set count s).findings ≡ outside p s.findings
    unfolding conclude last_finding find_in new_finding
    outside-conclude count s = ground (
      arith,
      h.unknown_key,
      h.invalid,
      outside-append p s.findings (last_finding d c cfg now clock n set count s),
    )

    outside-signed_unpacked :
        (unpacked : Option (List Rr)) (sigs : List Rrsig) (keys : List CachedKey)
        → outside p (signed_unpacked d c cfg now clock unpacked n set sigs keys).findings ≡ false
    unfolding signed_unpacked find_in new_finding
    outside-signed_unpacked none sigs keys = ground (arith, h.invalid)
    outside-signed_unpacked (some rrs) sigs keys =
        let start = unsettled d c cfg now clock keys in
        ground (
          arith,
          outside-sig_loop rrs sigs start,
          outside-conclude (length sigs) (sig_loop d c cfg now clock n set rrs sigs start),
        )

    outside-unsigned_rrset :
        (keys : List CachedKey)
        → outside p (unsigned_rrset d c cfg now clock n set keys).findings ≡ false
    unfolding unsigned_rrset find_in new_finding
    outside-unsigned_rrset keys = ground (arith, h.missing)

    pub outside-verify_rrset :
        (keys : List CachedKey)
        → outside p (verify_rrset d c cfg now clock n set keys).findings ≡ false
    unfolding verify_rrset signed_rrset
    outside-verify_rrset keys = ground (
      arith,
      outside-unsigned_rrset keys,
      outside-signed_unpacked (unpack d set n.name) (rrsigs_covering d n set.rrtype) keys,
    )
