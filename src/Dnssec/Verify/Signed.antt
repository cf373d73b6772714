-- ===== src/Dnssec/Verify/Signed.antt =====
-- When verifyRRSet reports an error.
pub mod Marks
use dnssec_auditor.Common.{
  ℕ, zero, suc, ◌+◌, Str, str_eq, nat_eq, ◌==◌, Bool, true, false, not, ◌&&◌, ◌||◌, Option, none,
  some, List, [], ◌∷◌, ◌++◌, if◌then◌else◌, length, any, any-append, ◌≡◌, ◌∙◌, refl, arith,
  Bool-cases, Option-cases, inl, inr,
}
use dnssec_auditor.Dns.{DnsLib, Rr, Rrsig}
use dnssec_auditor.Zone.RrSet.{RrSet, unpack}
use dnssec_auditor.Zone.Node.{Node, rrsigs_covering}
use dnssec_auditor.Dnssec.Findings.{Time, Finding, error, warning, severity_eqb, new_finding}
use dnssec_auditor.Dnssec.Findings.Errors.{errors}
use dnssec_auditor.Dnssec.Crypto.{Crypto}
use dnssec_auditor.Dnssec.Keys.{CachedKey}
use dnssec_auditor.Dnssec.Verify.{
  Config, Signing, Checked, may_sign, verifies, try_keys, want_labels, too_early, too_late, find_in,
  labels_finding, ttl_finding, soon_finding, early_finding, late_finding, try_sig, sig_step,
  sig_loop, last_finding, conclude, is_exempt, unsigned_rrset, signed_rrset, signed_unpacked,
  unsettled, verify_rrset,
}

module _ (d : DnsLib) (c : Crypto) (cfg : Config) (now : Time) (clock : ℕ) where
  -- The key has the signature's tag and algorithm, is a zone key, and verifies the signature.
  pub signs : Node → RrSet → List Rr → Rrsig → CachedKey → Bool
  signs n set rrs sig k =
      may_sign d c cfg now clock sig k && verifies d c cfg now clock n set rrs sig k

  -- The instant lies in the signature's window, as the code computes it.
  pub timely : Rrsig → Bool
  timely sig = not (too_early d c cfg now clock sig) && not (too_late d c cfg now clock sig)

  pub signed_by : Node → RrSet → List Rr → List Rrsig → List CachedKey → Bool
  signed_by n set rrs sigs keys = any (λ sig. timely sig && any (signs n set rrs sig) keys) sigs

  pub signed_as : Option (List Rr) → Node → RrSet → List Rrsig → List CachedKey → Bool
  signed_as none n set sigs keys = false
  signed_as (some rrs) n set sigs keys = signed_by n set rrs sigs keys

  -- The RRset has a timely signature that a key verifies, or it has none and needs none.
  unfoldable pub is_secure : Node → RrSet → List CachedKey → Bool
  unfolding signed_as
  is_secure n set keys =
      let sigs = rrsigs_covering d n set.rrtype in
      if length sigs == 0
      then is_exempt d c cfg now clock n set
      else signed_as (unpack d set n.name) n set sigs keys

  -- The signature is outside its window, or has another number of labels than the name.
  unfoldable pub is_bad : Node → Rrsig → Bool
  is_bad n sig = not (sig.labels == want_labels d c cfg now clock n.name) || not (timely sig)

  pub late-is_bad :
      (n : Node) (sig : Rrsig) → too_late d c cfg now clock sig ≡ true → is_bad n sig ≡ true
  unfolding is_bad timely
  late-is_bad n sig h = ground (arith, h)

  module _ (n : Node) (set : RrSet) (rrs : List Rr) where
    matched-try_keys :
        (sig : Rrsig) (keys : List CachedKey)
        → (try_keys d c cfg now clock n set rrs sig keys).1 ≡ any (signs n set rrs sig) keys
    unfolding try_keys signs
    matched-try_keys sig [] = refl
    matched-try_keys sig (k ∷ ks) = ground (arith, matched-try_keys sig ks)

    any-try_keys :
        (sig sig' : Rrsig) (keys : List CachedKey)
        → any (signs n set rrs sig') (try_keys d c cfg now clock n set rrs sig keys).0
          ≡ any (signs n set rrs sig') keys
    unfolding try_keys signs may_sign verifies
    any-try_keys sig sig' [] = refl
    any-try_keys sig sig' (k ∷ ks) = ground (arith, any-try_keys sig sig' ks)

    keys-sig_step :
        (sig sig' : Rrsig) (s : Signing)
        → any (signs n set rrs sig') (sig_step d c cfg now clock n set rrs sig s).keys
          ≡ any (signs n set rrs sig') s.keys
    unfolding sig_step try_sig
    keys-sig_step sig sig' s = ground (arith, any-try_keys sig sig' s.keys)

    ok-sig_step :
        (sig : Rrsig) (s : Signing)
        → (sig_step d c cfg now clock n set rrs sig s).ok
          ≡ s.ok || (timely sig && any (signs n set rrs sig) s.keys)
    unfolding sig_step try_sig timely
    ok-sig_step sig s = ground (arith, matched-try_keys sig s.keys)

    errors-labels_finding :
        (sig : Rrsig)
        → errors (labels_finding d c cfg now clock n set sig)
          ≡ not (sig.labels == want_labels d c cfg now clock n.name)
    unfolding labels_finding find_in new_finding
    errors-labels_finding sig = ground arith

    errors-ttl_finding : (sig : Rrsig) → errors (ttl_finding d c cfg now clock n set sig) ≡ false
    unfolding ttl_finding find_in new_finding
    errors-ttl_finding sig = ground arith

    errors-soon_finding : (sig : Rrsig) → errors (soon_finding d c cfg now clock n set sig) ≡ false
    unfolding soon_finding find_in new_finding
    errors-soon_finding sig = ground arith

    errors-early_finding :
        (sig : Rrsig) (fs : List Finding)
        → errors (fs ++ early_finding d c cfg now clock n set sig ∷ []) ≡ true
    unfolding early_finding find_in new_finding
    errors-early_finding sig [] = refl
    errors-early_finding sig (f ∷ fs) = ground (arith, errors-early_finding sig fs)

    errors-late_finding :
        (sig : Rrsig) (fs : List Finding)
        → errors (fs ++ late_finding d c cfg now clock n set sig ∷ []) ≡ true
    unfolding late_finding find_in new_finding
    errors-late_finding sig [] = refl
    errors-late_finding sig (f ∷ fs) = ground (arith, errors-late_finding sig fs)

    errors-append : (fs gs : List Finding) → errors (fs ++ gs) ≡ errors fs || errors gs
    errors-append fs gs = any-append (λ f. severity_eqb f.severity error) fs gs

    errors-sig_step :
        (sig : Rrsig) (s : Signing)
        → errors (sig_step d c cfg now clock n set rrs sig s).findings
          ≡ errors s.findings || is_bad n sig
    unfolding sig_step try_sig is_bad timely
    errors-sig_step sig s =
        let labelled = s.findings ++ labels_finding d c cfg now clock n set sig in
        ground (
          arith,
          errors-append s.findings (labels_finding d c cfg now clock n set sig),
          errors-labels_finding sig,
          errors-early_finding sig labelled,
          errors-late_finding sig labelled,
          errors-append labelled
              (ttl_finding d c cfg now clock n set sig ++ soon_finding d c cfg now clock n set sig),
          errors-append (ttl_finding d c cfg now clock n set sig)
              (soon_finding d c cfg now clock n set sig),
          errors-ttl_finding sig,
          errors-soon_finding sig,
        )

    -- What the loop over the signatures comes to.
    record Looped (sigs : List Rrsig) (s t : Signing) : Type 0 where
      ok : t.ok ≡ s.ok || signed_by n set rrs sigs s.keys
      found : errors t.findings ≡ errors s.findings || any (is_bad n) sigs

    signed_by-sig_step :
        (sig : Rrsig) (sigs : List Rrsig) (s : Signing)
        → signed_by n set rrs sigs (sig_step d c cfg now clock n set rrs sig s).keys
          ≡ signed_by n set rrs sigs s.keys
    unfolding signed_by
    signed_by-sig_step sig [] s = refl
    signed_by-sig_step sig (sig' ∷ sigs) s =
        ground (arith, keys-sig_step sig sig' s, signed_by-sig_step sig sigs s)

    sig_loop-Looped :
        (sigs : List Rrsig) (s : Signing)
        → Looped sigs s (sig_loop d c cfg now clock n set rrs sigs s)
    unfolding sig_loop signed_by
    sig_loop-Looped [] s = record { ok = ground arith; found = ground arith }
    sig_loop-Looped (sig ∷ sigs) s =
        let next = sig_step d c cfg now clock n set rrs sig s in
        let rest : Looped sigs next (sig_loop d c cfg now clock n set rrs sigs next) =
          sig_loop-Looped sigs next in
        record {
          ok = ground (arith, rest.ok, ok-sig_step sig s, signed_by-sig_step sig sigs s);
          found = ground (arith, rest.found, errors-sig_step sig s);
        }

    errors-last_finding :
        (count : ℕ) (s : Signing) → errors (last_finding d c cfg now clock n set count s) ≡ not s.ok
    unfolding last_finding find_in new_finding
    errors-last_finding count s = ground arith

    errors-conclude :
        (count : ℕ) (s : Signing)
        → errors (conclude d c cfg now clock n set count s).findings ≡ errors s.findings || not s.ok
    unfolding conclude
    errors-conclude count s =
        errors-append s.findings (last_finding d c cfg now clock n set count s)
        ∙ rw errors-last_finding refl

  errors-signed_unpacked :
      (unpacked : Option (List Rr)) (n : Node) (set : RrSet) (sigs : List Rrsig)
      (keys : List CachedKey)
      → errors (signed_unpacked d c cfg now clock unpacked n set sigs keys).findings
        ≡ not (signed_as unpacked n set sigs keys) || any (is_bad n) sigs
  unfolding signed_unpacked signed_as find_in new_finding
  errors-signed_unpacked none n set sigs keys = refl
  errors-signed_unpacked (some rrs) n set sigs keys =
      let final = sig_loop d c cfg now clock n set rrs sigs (unsettled d c cfg now clock keys) in
      let looped : Looped n set rrs sigs (unsettled d c cfg now clock keys) final =
        sig_loop-Looped n set rrs sigs (unsettled d c cfg now clock keys) in
      ground (arith, looped.ok, looped.found, errors-conclude n set rrs (length sigs) final)

  errors-unsigned_rrset :
      (n : Node) (set : RrSet) (keys : List CachedKey)
      → errors (unsigned_rrset d c cfg now clock n set keys).findings
        ≡ not (is_exempt d c cfg now clock n set)
  unfolding unsigned_rrset find_in new_finding
  errors-unsigned_rrset n set keys = ground arith

  -- The check of an RRset reports an error exactly if the RRset is not secure or one of its signatures is
  -- bad. Secure: it has a signature inside its window that one of the zone's keys verifies, or it has
  -- none and needs none. Bad: outside its window, or with another number of labels than the name.
  pub errors-verify_rrset :
      (n : Node) (set : RrSet) (keys : List CachedKey)
      → errors (verify_rrset d c cfg now clock n set keys).findings
        ≡ not (is_secure n set keys) || any (is_bad n) (rrsigs_covering d n set.rrtype)
  unfolding verify_rrset is_secure signed_rrset
  errors-verify_rrset n set keys = go (rrsigs_covering d n set.rrtype)
    where
      go :
          (sigs : List Rrsig)
          → errors
              (if length sigs == 0
                then unsigned_rrset d c cfg now clock n set keys
                else signed_rrset d c cfg now clock n set sigs keys).findings
            ≡ not (
                if length sigs == 0
                then is_exempt d c cfg now clock n set
                else signed_as (unpack d set n.name) n set sigs keys)
              || any (is_bad n) sigs
      go [] = ground (arith, errors-unsigned_rrset n set keys)
      go (sig ∷ sigs) =
          ground (arith, errors-signed_unpacked (unpack d set n.name) n set (sig ∷ sigs) keys)
