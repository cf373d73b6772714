-- ===== src/Dnssec/Hygiene.antt =====
-- internal/dnssec/hygiene.go: the warnings. A check returns the findings that it adds, in order.
pub mod Codes
use dnssec_auditor.Common.{
  ℕ, ◌%◌, Str, str_eq, nat_eq, ◌==◌, Bool, true, false, not, ◌&&◌, ◌||◌, Option, none, some, List,
  [], ◌∷◌, ◌++◌, map, if◌then◌else◌, any, ltb, contains, codes, String,
}
use dnssec_auditor.Common.Text.{to_upper}
use dnssec_auditor.Dns.{Nsec3Param, type_dnskey, type_nsec3param}
use dnssec_auditor.Zone.Node.{Node}
use dnssec_auditor.Zone.Store.{Libs, Store}
use dnssec_auditor.Zone.Store.Records.{nodes_of, nsec3param_of}
use dnssec_auditor.Dnssec.Findings.{Time, Finding, Message, warning, num, str, say, new_finding}
use dnssec_auditor.Dnssec.Crypto.{Crypto}
use dnssec_auditor.Dnssec.Keys.{CachedKey, alg_name}
use dnssec_auditor.Dnssec.Denial.{nsec3_recs}
use dnssec_auditor.Dnssec.Verify.{Hygiene}

module _ (l : Libs) (c : Crypto) (now : Time) (h : Hygiene) where
  open l use {dns}

  warn : Store l → String → ℕ → Message → Finding
  warn st code rrtype message = new_finding dns now code warning st.origin rrtype message

  nsec3_warnings : Store l → Nsec3Param → List Finding
  unfolding warn
  nsec3_warnings st p =
      (if ltb h.nsec3_max_iterations p.iterations
        then warn st "NSEC3_ITERATIONS_NONZERO" type_nsec3param (record {
          format = "NSEC3 iterations=%d (RFC 9276 recommends 0)";
          args = num p.iterations ∷ [];
        })
          ∷ []
        else [])
      ++ ((if h.warn_nsec3_salt && (not (p.salt == []) && not (p.salt == codes "-"))
            then warn st "NSEC3_SALT_PRESENT" type_nsec3param
                (say "NSEC3 salt present (RFC 9276 recommends empty)")
              ∷ []
            else [])
          ++ (if any (λ rec. rec.flags % 2 == 1) (nsec3_recs l c now st)
                && not (any (λ n. n.is_delegation) (nodes_of l st))
              then warn st "NSEC3_OPTOUT_ON_ZERO_DELEGATIONS" type_nsec3param
                  (say "NSEC3 opt-out with no delegations")
                ∷ []
              else []))

  ring_warnings : Store l → Option Nsec3Param → List Finding
  unfolding nsec3_warnings
  ring_warnings st none = []
  ring_warnings st (some p) = nsec3_warnings st p

  deprecated : Store l → List CachedKey → List Finding
  unfolding warn
  deprecated st [] = []
  deprecated st (k ∷ ks) =
      let rest = deprecated st ks in
      if contains (to_upper (alg_name c k.alg)) (map to_upper h.deprecated_algorithms)
      then warn st "DEPRECATED_ALGORITHM" type_dnskey (record {
        format = "DNSKEY algorithm %s keytag %d";
        args = str (alg_name c k.alg) ∷ num k.key_tag ∷ [];
      })
        ∷ rest
      else rest

  unused : Store l → List CachedKey → List Finding
  unfolding warn
  unused st [] = []
  unused st (k ∷ ks) =
      let rest = unused st ks in
      if k.is_zone && (not k.is_ksk && not k.used)
      then warn st "DNSKEY_UNUSED" type_dnskey
          (record { format = "zone key %d signs nothing"; args = num k.key_tag ∷ [] })
        ∷ rest
      else rest

  -- Verifier.hygiene
  unfoldable pub hygiene : Store l → List CachedKey → List Finding
  unfolding ring_warnings deprecated unused
  hygiene st keys = ring_warnings st (nsec3param_of l st) ++ (deprecated st keys ++ unused st keys)
