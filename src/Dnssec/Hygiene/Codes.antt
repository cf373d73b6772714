-- ===== src/Dnssec/Hygiene/Codes.antt =====
-- The codes of the warnings.
use dnssec_auditor.Common.{str_eq, false, not, Option, none, some, List, [], ◌∷◌, ◌≡◌, refl, arith}
use dnssec_auditor.Dns.{Nsec3Param}
use dnssec_auditor.Zone.Store.{Libs, Store}
use dnssec_auditor.Zone.Store.Records.{nsec3param_of}
use dnssec_auditor.Dnssec.Findings.{Time, Finding, error, severity_eqb, new_finding}
use dnssec_auditor.Dnssec.Findings.Errors.{errors}
use dnssec_auditor.Dnssec.Crypto.{Crypto}
use dnssec_auditor.Dnssec.Keys.{CachedKey}
use dnssec_auditor.Dnssec.Codes.{Table, outside, outside-append, HasHygieneCodes}
use dnssec_auditor.Dnssec.Verify.{Hygiene}
use dnssec_auditor.Dnssec.Hygiene.{warn, nsec3_warnings, ring_warnings, deprecated, unused, hygiene}

module _ (l : Libs) (c : Crypto) (now : Time) (cfg : Hygiene) (p : Table)
    (h : HasHygieneCodes p) where
  outside-ring_warnings :
      (st : Store l) (param : Option Nsec3Param)
      → outside p (ring_warnings l c now cfg st param) ≡ false
  unfolding ring_warnings nsec3_warnings warn new_finding
  outside-ring_warnings st none = refl
  outside-ring_warnings st (some param) =
      rw (outside-append, outside-append) (ground (arith, h.iterations, h.salt, h.optout_zero))

  outside-deprecated :
      (st : Store l) (keys : List CachedKey) → outside p (deprecated l c now cfg st keys) ≡ false
  unfolding deprecated warn new_finding
  outside-deprecated st [] = refl
  outside-deprecated st (k ∷ ks) = ground (arith, h.deprecated, outside-deprecated st ks)

  outside-unused :
      (st : Store l) (keys : List CachedKey) → outside p (unused l c now cfg st keys) ≡ false
  unfolding unused warn new_finding
  outside-unused st [] = refl
  outside-unused st (k ∷ ks) = ground (arith, h.unused, outside-unused st ks)

  pub outside-hygiene :
      (st : Store l) (keys : List CachedKey) → outside p (hygiene l c now cfg st keys) ≡ false
  unfolding hygiene
  outside-hygiene st keys =
      rw (outside-append, outside-append)
        (ground (
          arith,
          outside-ring_warnings st (nsec3param_of l st),
          outside-deprecated st keys,
          outside-unused st keys,
        ))

-- No warning is an error.
pub errors-hygiene :
    (l : Libs) (c : Crypto) (now : Time) (cfg : Hygiene) (st : Store l) (keys : List CachedKey)
    → errors (hygiene l c now cfg st keys) ≡ false
errors-hygiene l c now cfg st keys = ground (
  arith,
  outside_errors (hygiene l c now cfg st keys),
  outside-hygiene l c now cfg no_errors
      (record {
        iterations = refl;
        salt = refl;
        optout_zero = refl;
        deprecated = refl;
        unused = refl;
      })
      st keys,
)
  where
    no_errors : Table
    no_errors code s = not (severity_eqb s error)

    outside_errors : (fs : List Finding) → outside no_errors fs ≡ errors fs
    outside_errors [] = refl
    outside_errors (f ∷ fs) = ground (arith, outside_errors fs)
