-- ===== src/Dnssec/Verify/Signed/Marks.antt =====
-- The checks of RRsets change nothing of the keys but their marks of use, and the marks change no check.
use dnssec_auditor.Common.{
  ℕ, str_eq, nat_eq, false, Option, none, some, List, [], ◌∷◌, map, any, ◌≡◌, ◌∙◌, sym, ap, refl,
  arith,
}
use dnssec_auditor.Dns.{DnsLib, Rr, Rrsig}
use dnssec_auditor.Zone.RrSet.{RrSet, unpack}
use dnssec_auditor.Zone.Node.{Node, rrsigs_covering}
use dnssec_auditor.Dnssec.Findings.{Time}
use dnssec_auditor.Dnssec.Crypto.{Crypto}
use dnssec_auditor.Dnssec.Keys.{CachedKey}
use dnssec_auditor.Dnssec.Verify.{
  Config, Signing, may_sign, verifies, try_keys, try_sig, sig_step, sig_loop, conclude,
  unsigned_rrset, signed_rrset, signed_unpacked, unsettled, verify_rrset,
}
use dnssec_auditor.Dnssec.Verify.Signed.{signs, signed_by, signed_as, is_secure}

abbrev unmark : CachedKey → CachedKey
unmark k = record k { used = false }

abbrev pub unmarked : List CachedKey → List CachedKey
unmarked keys = map unmark keys

module _ (d : DnsLib) (c : Crypto) (cfg : Config) (now : Time) (clock : ℕ) where
  module _ (n : Node) (set : RrSet) where
    unmarked-try_keys :
        (rrs : List Rr) (sig : Rrsig) (keys : List CachedKey)
        → unmarked (try_keys d c cfg now clock n set rrs sig keys).0 ≡ unmarked keys
    unfolding try_keys
    unmarked-try_keys rrs sig [] = refl
    unmarked-try_keys rrs sig (k ∷ ks) = ground (arith, unmarked-try_keys rrs sig ks)

    unmarked-sig_step :
        (rrs : List Rr) (sig : Rrsig) (s : Signing)
        → unmarked (sig_step d c cfg now clock n set rrs sig s).keys ≡ unmarked s.keys
    unfolding sig_step try_sig
    unmarked-sig_step rrs sig s = ground (arith, unmarked-try_keys rrs sig s.keys)

    unmarked-sig_loop :
        (rrs : List Rr) (sigs : List Rrsig) (s : Signing)
        → unmarked (sig_loop d c cfg now clock n set rrs sigs s).keys ≡ unmarked s.keys
    unfolding sig_loop
    unmarked-sig_loop rrs [] s = refl
    unmarked-sig_loop rrs (sig ∷ sigs) s =
        unmarked-sig_loop rrs sigs (sig_step d c cfg now clock n set rrs sig s)
        ∙ unmarked-sig_step rrs sig s

    unmarked-signed_unpacked :
        (unpacked : Option (List Rr)) (sigs : List Rrsig) (keys : List CachedKey)
        → unmarked (signed_unpacked d c cfg now clock unpacked n set sigs keys).keys ≡ unmarked keys
    unfolding signed_unpacked conclude
    unmarked-signed_unpacked none sigs keys = refl
    unmarked-signed_unpacked (some rrs) sigs keys =
        unmarked-sig_loop rrs sigs (unsettled d c cfg now clock keys)

    pub unmarked-verify_rrset :
        (keys : List CachedKey)
        → unmarked (verify_rrset d c cfg now clock n set keys).keys ≡ unmarked keys
    unfolding verify_rrset signed_rrset unsigned_rrset
    unmarked-verify_rrset keys = ground (
      arith,
      unmarked-signed_unpacked (unpack d set n.name) (rrsigs_covering d n set.rrtype) keys,
    )

    signs-unmarked :
        (rrs : List Rr) (sig : Rrsig) (keys : List CachedKey)
        → any (signs d c cfg now clock n set rrs sig) (unmarked keys)
          ≡ any (signs d c cfg now clock n set rrs sig) keys
    unfolding signs may_sign verifies
    signs-unmarked rrs sig [] = refl
    signs-unmarked rrs sig (k ∷ ks) = ground (arith, signs-unmarked rrs sig ks)

    signed_by-unmarked :
        (rrs : List Rr) (sigs : List Rrsig) (keys : List CachedKey)
        → signed_by d c cfg now clock n set rrs sigs (unmarked keys)
          ≡ signed_by d c cfg now clock n set rrs sigs keys
    unfolding signed_by
    signed_by-unmarked rrs [] keys = refl
    signed_by-unmarked rrs (sig ∷ sigs) keys =
        ground (arith, signs-unmarked rrs sig keys, signed_by-unmarked rrs sigs keys)

    signed_as-unmarked :
        (unpacked : Option (List Rr)) (sigs : List Rrsig) (keys : List CachedKey)
        → signed_as d c cfg now clock unpacked n set sigs (unmarked keys)
          ≡ signed_as d c cfg now clock unpacked n set sigs keys
    unfolding signed_as
    signed_as-unmarked none sigs keys = refl
    signed_as-unmarked (some rrs) sigs keys = signed_by-unmarked rrs sigs keys

    is_secure-unmarked :
        (keys : List CachedKey)
        → is_secure d c cfg now clock n set (unmarked keys) ≡ is_secure d c cfg now clock n set keys
    unfolding is_secure
    is_secure-unmarked keys =
        ground
          (arith, signed_as-unmarked (unpack d set n.name) (rrsigs_covering d n set.rrtype) keys)

    -- Keys that differ in their marks only.
    pub is_secure-marks :
        (keys keys' : List CachedKey)
        → unmarked keys ≡ unmarked keys'
        → is_secure d c cfg now clock n set keys ≡ is_secure d c cfg now clock n set keys'
    is_secure-marks keys keys' e =
        sym (is_secure-unmarked keys)
        ∙ ap (is_secure d c cfg now clock n set) e
        ∙ is_secure-unmarked keys'
