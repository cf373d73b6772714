-- ===== src/Dnssec/Full/Codes.antt =====
-- The codes that the verification of a node and of a zone uses.
use dnssec_auditor.Common.{ℕ, false, Option, none, some, List, [], ◌∷◌, ◌≡◌, refl, arith}
use dnssec_auditor.Dns.{Nsec3Param}
use dnssec_auditor.Zone.RrSet.{RrSet}
use dnssec_auditor.Zone.Node.{Node}
use dnssec_auditor.Zone.Store.{Libs, Store}
use dnssec_auditor.Zone.Store.Records.{nsec3param_of}
use dnssec_auditor.Dnssec.Findings.{Time}
use dnssec_auditor.Dnssec.Crypto.{Crypto}
use dnssec_auditor.Dnssec.Keys.{CachedKey}
use dnssec_auditor.Dnssec.Codes.{Table, outside, outside-append, HasNodeCodes, HasZoneCodes}
use dnssec_auditor.Dnssec.Verify.{Config, verify_rrset}
use dnssec_auditor.Dnssec.Verify.Codes.{outside-verify_rrset}
use dnssec_auditor.Dnssec.Denial.Codes.{
  outside-check_nsec_presence, outside-check_nsec3_presence, outside-verify_nsec_chain,
  outside-verify_nsec3_chain,
}
use dnssec_auditor.Dnssec.Full.{verify_sets, denial, signatures, verify_node, work, chain}

module _ (l : Libs) (c : Crypto) (cfg : Config) (now : Time) (clock : ℕ) (p : Table) where
  module _ (h : HasNodeCodes p) where
    outside-verify_sets :
        (n : Node) (sets : List RrSet) (keys : List CachedKey)
        → outside p (verify_sets l c cfg now clock n sets keys).findings ≡ false
    unfolding verify_sets
    outside-verify_sets n [] keys = refl
    outside-verify_sets n (set ∷ sets) keys =
        let one = verify_rrset l.dns c cfg now clock n set keys in
        ground (
          arith,
          outside-append p one.findings (verify_sets l c cfg now clock n sets one.keys).findings,
          outside-verify_rrset l.dns c cfg now clock p h.signatures n set keys,
          outside-verify_sets n sets one.keys,
          outside-verify_sets n sets keys,
        )

    outside-denial :
        (st : Store l) (n : Node) (param : Option Nsec3Param)
        → outside p (denial l c cfg now clock st n param) ≡ false
    unfolding denial
    outside-denial st n none = ground (arith, outside-check_nsec_presence l c now p h st n)
    outside-denial st n (some param) = outside-check_nsec3_presence l c now p h st n param

    pub outside-verify_node :
        (st : Store l) (n : Node) (keys : List CachedKey)
        → outside p (verify_node l c cfg now clock st n keys).findings ≡ false
    unfolding verify_node signatures
    outside-verify_node st n keys =
        rw (outside-append, outside-denial st n (nsec3param_of l st))
          (ground (arith, outside-verify_sets n n.sets keys))

    pub outside-work :
        (st : Store l) (ns : List Node) (keys : List CachedKey)
        → outside p (work l c cfg now clock st ns keys).findings ≡ false
    unfolding work
    outside-work st [] keys = refl
    outside-work st (n ∷ ns) keys = rw outside-append (
        ground (
          arith,
          outside-verify_node st n keys,
          outside-work st ns (verify_node l c cfg now clock st n keys).keys,
        ))

  pub outside-chain :
      HasZoneCodes p
      → (st : Store l) (param : Option Nsec3Param)
      → outside p (chain l c cfg now clock st param) ≡ false
  unfolding chain
  outside-chain h st none = outside-verify_nsec_chain l c now p h st
  outside-chain h st (some param) = outside-verify_nsec3_chain l c now p h st param
