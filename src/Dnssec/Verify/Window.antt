-- ===== src/Dnssec/Verify/Window.antt =====
-- The window of a signature where the 32-bit sum with the clock skew wraps.
use dnssec_auditor.Common.{
  ℕ, ◌+◌, ◌-◌, ◌≤◌, ◌<◌, true, List, ◌∷◌, if◌then◌else◌, ltb, ◌≡◌, arith, str_eq,
}
use dnssec_auditor.Dns.{DnsLib, Rrsig}
use dnssec_auditor.Zone.RrSet.{RrSet}
use dnssec_auditor.Zone.Node.{Node, rrsigs_covering}
use dnssec_auditor.Dnssec.Findings.{Time}
use dnssec_auditor.Dnssec.Findings.Errors.{errors}
use dnssec_auditor.Dnssec.Crypto.{Crypto}
use dnssec_auditor.Dnssec.Keys.{CachedKey}
use dnssec_auditor.Dnssec.Verify.{Config, u32, clock32, skew32, too_late, verify_rrset}
use dnssec_auditor.Dnssec.Verify.Signed.{late-is_bad, errors-verify_rrset}

module _ (d : DnsLib) (c : Crypto) (cfg : Config) (now : Time) (clock : ℕ) where
  late_iff :
      (sig : Rrsig)
      → sig.expiration < u32
      → too_late d c cfg now clock sig ≡ (
          if ltb (sig.expiration + skew32 d c cfg now clock) u32
          then ltb (sig.expiration + skew32 d c cfg now clock) (clock32 d c cfg now clock)
          else ltb (sig.expiration + skew32 d c cfg now clock - u32) (clock32 d c cfg now clock))
  unfolding too_late skew32 clock32
  late_iff sig h = ground arith

  -- An RRset whose first signature has not expired gets an error all the same if the expiration and the
  -- skew sum up to 2^32 or more, and the sum less 2^32 is below the clock.
  pub unexpired_rejected :
      (n : Node) (set : RrSet) (keys : List CachedKey) (sig : Rrsig) (sigs : List Rrsig)
      → rrsigs_covering d n set.rrtype ≡ sig ∷ sigs
      → sig.expiration < u32
      → clock32 d c cfg now clock ≤ sig.expiration
      → u32 ≤ sig.expiration + skew32 d c cfg now clock
      → sig.expiration + skew32 d c cfg now clock - u32 < clock32 d c cfg now clock
      → errors (verify_rrset d c cfg now clock n set keys).findings ≡ true
  unexpired_rejected n set keys sig sigs covering small unexpired wraps below =
      let late : too_late d c cfg now clock sig ≡ true = ground (arith, late_iff sig small) in
      ground (
        arith,
        errors-verify_rrset d c cfg now clock n set keys,
        covering,
        late-is_bad d c cfg now clock n sig late,
      )
