-- ===== src/Dnssec/Full/Sound.antt =====
-- What a valid result of Full says of the zone.
use dnssec_auditor.Common.{
  ℕ, str_eq, nat_eq, Bool, not, ◌&&◌, ◌||◌, List, [], ◌∷◌, ◌++◌, any-append, any, ◌≡◌, ◌∙◌, refl,
  arith,
}
use dnssec_auditor.Zone.RrSet.{RrSet}
use dnssec_auditor.Zone.Node.{Node, rrsigs_covering}
use dnssec_auditor.Zone.Store.{Libs, Store}
use dnssec_auditor.Zone.Store.Records.{nsec3param_of}
use dnssec_auditor.Dnssec.Findings.{Time, Finding, error, severity_eqb}
use dnssec_auditor.Dnssec.Findings.Errors.{errors}
use dnssec_auditor.Dnssec.Crypto.{Crypto}
use dnssec_auditor.Dnssec.Keys.{CachedKey}
use dnssec_auditor.Dnssec.Verify.{Config, is_authoritative, verify_rrset}
use dnssec_auditor.Dnssec.Verify.Signed.{is_secure, is_bad, errors-verify_rrset}
use dnssec_auditor.Dnssec.Verify.Signed.Marks.{unmarked, unmarked-verify_rrset, is_secure-marks}
use dnssec_auditor.Dnssec.Full.{is_checked, verify_sets, denial, signatures, verify_node, work}

module _ (l : Libs) (c : Crypto) (cfg : Config) (now : Time) (clock : ℕ) where
  open l use {dns}

  -- An RRset that is checked is not secure, or has a bad signature.
  unfoldable pub is_faulty_set : Node → List CachedKey → RrSet → Bool
  is_faulty_set n keys set =
      is_checked set
      && (not (is_secure dns c cfg now clock n set keys)
          || any (is_bad dns c cfg now clock n) (rrsigs_covering dns n set.rrtype))

  -- An authoritative node has such an RRset.
  unfoldable pub is_faulty_node : Store l → List CachedKey → Node → Bool
  is_faulty_node st keys n = is_authoritative l st n && any (is_faulty_set n keys) n.sets

  -- The denial of existence at the node has an error.
  unfoldable pub is_denial_broken : Store l → Node → Bool
  is_denial_broken st n = errors (denial l c cfg now clock st n (nsec3param_of l st))

  unfoldable pub is_node_bad : Store l → List CachedKey → Node → Bool
  is_node_bad st keys n = is_faulty_node st keys n || is_denial_broken st n

  is_faulty_set-marks :
      (n : Node) (set : RrSet) (keys keys' : List CachedKey)
      → unmarked keys ≡ unmarked keys'
      → is_faulty_set n keys set ≡ is_faulty_set n keys' set
  unfolding is_faulty_set
  is_faulty_set-marks n set keys keys' e =
      rw (is_secure-marks dns c cfg now clock n set keys keys' e) refl

  sets-marks :
      (n : Node) (sets : List RrSet) (keys keys' : List CachedKey)
      → unmarked keys ≡ unmarked keys'
      → any (is_faulty_set n keys) sets ≡ any (is_faulty_set n keys') sets
  sets-marks n [] keys keys' e = refl
  sets-marks n (set ∷ sets) keys keys' e =
      ground (arith, is_faulty_set-marks n set keys keys' e, sets-marks n sets keys keys' e)

  pub nodes-marks :
      (st : Store l) (ns : List Node) (keys keys' : List CachedKey)
      → unmarked keys ≡ unmarked keys'
      → any (is_node_bad st keys) ns ≡ any (is_node_bad st keys') ns
  unfolding is_node_bad is_faulty_node
  nodes-marks st [] keys keys' e = refl
  nodes-marks st (n ∷ ns) keys keys' e =
      ground (arith, sets-marks n n.sets keys keys' e, nodes-marks st ns keys keys' e)

  errors-append : (fs gs : List Finding) → errors (fs ++ gs) ≡ errors fs || errors gs
  errors-append fs gs = any-append (λ f. severity_eqb f.severity error) fs gs

  unmarked-verify_sets :
      (n : Node) (sets : List RrSet) (keys : List CachedKey)
      → unmarked (verify_sets l c cfg now clock n sets keys).keys ≡ unmarked keys
  unfolding verify_sets
  unmarked-verify_sets n [] keys = refl
  unmarked-verify_sets n (set ∷ sets) keys =
      let one = verify_rrset dns c cfg now clock n set keys in
      ground (
        arith,
        unmarked-verify_sets n sets one.keys,
        unmarked-verify_sets n sets keys,
        unmarked-verify_rrset dns c cfg now clock n set keys,
      )

  errors-verify_sets :
      (n : Node) (sets : List RrSet) (keys : List CachedKey)
      → errors (verify_sets l c cfg now clock n sets keys).findings
        ≡ any (is_faulty_set n keys) sets
  unfolding verify_sets is_faulty_set
  errors-verify_sets n [] keys = refl
  errors-verify_sets n (set ∷ sets) keys =
      let one = verify_rrset dns c cfg now clock n set keys in
      ground (
        arith,
        errors-verify_sets n sets one.keys,
        errors-verify_sets n sets keys,
        errors-append one.findings (verify_sets l c cfg now clock n sets one.keys).findings,
        errors-verify_rrset dns c cfg now clock n set keys,
        sets-marks n sets one.keys keys (unmarked-verify_rrset dns c cfg now clock n set keys),
      )

  unmarked-verify_node :
      (st : Store l) (n : Node) (keys : List CachedKey)
      → unmarked (verify_node l c cfg now clock st n keys).keys ≡ unmarked keys
  unfolding verify_node signatures
  unmarked-verify_node st n keys = ground (arith, unmarked-verify_sets n n.sets keys)

  errors-verify_node :
      (st : Store l) (n : Node) (keys : List CachedKey)
      → errors (verify_node l c cfg now clock st n keys).findings ≡ is_node_bad st keys n
  unfolding verify_node signatures is_node_bad is_faulty_node is_denial_broken
  errors-verify_node st n keys = ground (
    arith,
    errors-verify_sets n n.sets keys,
    errors-append (signatures l c cfg now clock st n keys).findings
        (denial l c cfg now clock st n (nsec3param_of l st)),
  )

  pub unmarked-work :
      (st : Store l) (ns : List Node) (keys : List CachedKey)
      → unmarked (work l c cfg now clock st ns keys).keys ≡ unmarked keys
  unfolding work
  unmarked-work st [] keys = refl
  unmarked-work st (n ∷ ns) keys =
      unmarked-work st ns (verify_node l c cfg now clock st n keys).keys
      ∙ unmarked-verify_node st n keys

  pub errors-work :
      (st : Store l) (ns : List Node) (keys : List CachedKey)
      → errors (work l c cfg now clock st ns keys).findings ≡ any (is_node_bad st keys) ns
  unfolding work
  errors-work st [] keys = refl
  errors-work st (n ∷ ns) keys =
      let one = verify_node l c cfg now clock st n keys in
      ground (
        arith,
        errors-append one.findings (work l c cfg now clock st ns one.keys).findings,
        errors-verify_node st n keys,
        errors-work st ns one.keys,
        nodes-marks st ns one.keys keys (unmarked-verify_node st n keys),
      )
