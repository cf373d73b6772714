-- ===== src/Dnssec/Full/Verdict.antt =====
-- When Full calls a zone valid.
use dnssec_auditor.Common.{
  ℕ, ◌+◌, Bool, true, false, not, ◌||◌, some, List, [], ◌∷◌, ◌++◌, any, any-append, ◌≡◌, ◌∙◌, refl,
  arith,
}
use dnssec_auditor.Dns.{Dnskey}
use dnssec_auditor.Zone.Node.{Node}
use dnssec_auditor.Zone.Store.{Libs, Store, apex}
use dnssec_auditor.Zone.Store.Records.{dnskeys, nsec3param_of}
use dnssec_auditor.Dnssec.Findings.{
  Time, Finding, Set, new_set, add_all, list, has_errors, error, severity_eqb,
}
use dnssec_auditor.Dnssec.Findings.Errors.{
  errors, Tabled, Added, add_all-Added, outside-list, errors-list, has_errors_none,
}
use dnssec_auditor.Dnssec.Crypto.{Crypto}
use dnssec_auditor.Dnssec.Keys.{CachedKey, cache_keys}
use dnssec_auditor.Dnssec.Codes.{outside, outside-append}
use dnssec_auditor.Dnssec.Verify.{Config}
use dnssec_auditor.Dnssec.Verify.Signed.Marks.{unmarked}
use dnssec_auditor.Dnssec.Hygiene.{hygiene}
use dnssec_auditor.Dnssec.Hygiene.Codes.{outside-hygiene, errors-hygiene}
use dnssec_auditor.Dnssec.Zonemd.{verify_zonemd}
use dnssec_auditor.Dnssec.Zonemd.Codes.{outside-verify_zonemd}
use dnssec_auditor.Dnssec.Apex.{check_keytag_collisions, check_dnskey_signed_by_ksk}
use dnssec_auditor.Dnssec.Apex.Marks.{
  lacks_ksk, unmarked-check_dnskey_signed_by_ksk, errors-check_dnskey_signed_by_ksk,
}
use dnssec_auditor.Dnssec.Apex.Codes.{
  outside-check_keytag_collisions, outside-check_dnskey_signed_by_ksk,
}
use dnssec_auditor.Dnssec.Full.{
  Pool, work, run_workers, chain, finish, full_keys, full_cached, full_signed, has_soa, verify_full,
}
use dnssec_auditor.Dnssec.Full.Codes.{outside-work, outside-chain}
use dnssec_auditor.Dnssec.Full.Table.{
  table, node_table, outside_widened, node_codes, zone_codes, table-IsDecisive,
}
use dnssec_auditor.Dnssec.Full.Sound.{is_node_bad, nodes-marks, unmarked-work, errors-work}

abbrev pub added :
    (now : Time) (fs : List Finding) (s : Set)
    → outside table fs ≡ false
    → Tabled table s
    → Added table now fs s
added = add_all-Added table table-IsDecisive

module _ (l : Libs) (c : Crypto) (cfg : Config) (now : Time) (clock : ℕ) where
  open l use {dns}

  -- A node of a share is bad.
  unfoldable pub is_share_bad : Store l → List CachedKey → List (List Node) → Bool
  is_share_bad st keys shares = any (λ ns. any (is_node_bad l c cfg now clock st keys) ns) shares

  shares-marks :
      (st : Store l) (shares : List (List Node)) (keys keys' : List CachedKey)
      → unmarked keys ≡ unmarked keys'
      → is_share_bad st keys shares ≡ is_share_bad st keys' shares
  unfolding is_share_bad
  shares-marks st [] keys keys' e = refl
  shares-marks st (ns ∷ shares) keys keys' e =
      ground (
        arith,
        nodes-marks l c cfg now clock st ns keys keys' e,
        shares-marks st shares keys keys' e,
      )

  record Ran (st : Store l) (shares : List (List Node)) (pool : Pool l c cfg now clock)
      (done : Pool l c cfg now clock) : Type 0 where
    tabled : Tabled table done.findings
    errs : has_errors done.findings ≡ has_errors pool.findings || is_share_bad st pool.keys shares
    keys : unmarked done.keys ≡ unmarked pool.keys

  run_workers-Ran :
      (st : Store l) (shares : List (List Node)) (pool : Pool l c cfg now clock)
      → Tabled table pool.findings
      → Ran st shares pool (run_workers l c cfg now clock st shares pool)
  unfolding run_workers is_share_bad
  run_workers-Ran st [] pool h = record { tabled = h; errs = ground arith; keys = refl }
  run_workers-Ran st (ns ∷ shares) pool h =
      let done = work l c cfg now clock st ns pool.keys in
      let own : Added table now done.findings new_set =
        added now done.findings new_set
          (outside_widened done.findings
            (outside-work l c cfg now clock node_table node_codes st ns pool.keys))
          tt in
      let mine = add_all now done.findings new_set in
      let joined : Added table now (list mine) pool.findings =
        added now (list mine) pool.findings (outside-list table mine own.tabled) h in
      let next : Pool l c cfg now clock = record {
        findings = add_all now (list mine) pool.findings;
        keys = done.keys;
        checked = pool.checked + done.checked;
      } in
      let rest : Ran st shares next (run_workers l c cfg now clock st shares next) =
        run_workers-Ran st shares next joined.tabled in
      let same = unmarked-work l c cfg now clock st ns pool.keys in
      record {
        tabled = rest.tabled;
        errs = ground (
          arith,
          has_errors_none,
          rest.errs,
          joined.errs,
          errors-list mine,
          own.errs,
          errors-work l c cfg now clock st ns pool.keys,
          shares-marks st shares done.keys pool.keys same,
        );
        keys = rest.keys ∙ same;
      }

  valid-finish :
      (st : Store l) (shares : List (List Node)) (pool : Pool l c cfg now clock)
      → Tabled table pool.findings
      → (finish l c cfg now clock st shares pool).valid
        ≡ not (
            has_errors pool.findings
            || (errors (chain l c cfg now clock st (nsec3param_of l st))
                || errors (verify_zonemd l c now cfg.zonemd st).0))
  unfolding finish
  valid-finish st shares pool h =
      let links = chain l c cfg now clock st (nsec3param_of l st) in
      let digest = (verify_zonemd l c now cfg.zonemd st).0 in
      let warned = hygiene l c now cfg.hygiene st pool.keys in
      let chained : Added table now links pool.findings =
        added now links pool.findings
          (outside-chain l c cfg now clock table zone_codes st (nsec3param_of l st)) h in
      let first = add_all now links pool.findings in
      let digested : Added table now digest first =
        added now digest first (outside-verify_zonemd l c now table zone_codes cfg.zonemd st)
          chained.tabled in
      let second = add_all now digest first in
      let cleaned : Added table now warned second =
        added now warned second
          (outside_widened warned
            (outside-hygiene l c now cfg.hygiene node_table node_codes.hygiene st pool.keys))
          digested.tabled in
      ground (
        arith,
        chained.errs,
        digested.errs,
        cleaned.errs,
        errors-hygiene l c now cfg.hygiene st pool.keys,
      )

  -- What is wrong with the zone whose keys are `keys`.
  unfoldable pub is_zone_faulty : Store l → List (List Node) → List CachedKey → Bool
  is_zone_faulty st shares keys =
      errors (check_keytag_collisions dns now st.origin keys)
      || (lacks_ksk l c now st keys
          || (is_share_bad st keys shares
              || (errors (chain l c cfg now clock st (nsec3param_of l st))
                  || errors (verify_zonemd l c now cfg.zonemd st).0)))

  valid-full_keys :
      (st : Store l) (shares : List (List Node)) (keys : List CachedKey)
      → (full_keys l c cfg now clock st shares keys).valid ≡ not (is_zone_faulty st shares keys)
  unfolding full_keys is_zone_faulty
  valid-full_keys st shares keys =
      let tags = check_keytag_collisions dns now st.origin keys in
      let ksk = check_dnskey_signed_by_ksk l c now st keys in
      let start : Added table now (tags ++ ksk.0) new_set =
        added now (tags ++ ksk.0) new_set
          (outside-append table tags ksk.0
            ∙ ground (
              arith,
              outside-check_keytag_collisions now table zone_codes dns st.origin keys,
              outside-check_dnskey_signed_by_ksk now table zone_codes l c st keys,
            ))
          tt in
      let pool : Pool l c cfg now clock = record {
        findings = add_all now (tags ++ ksk.0) new_set;
        keys = ksk.1;
        checked = 0;
      } in
      let ran : Ran st shares pool (run_workers l c cfg now clock st shares pool) =
        run_workers-Ran st shares pool start.tabled in
      ground (
        arith,
        valid-finish st shares (run_workers l c cfg now clock st shares pool) ran.tabled,
        has_errors_none,
        errors-check_dnskey_signed_by_ksk l c now st keys,
        ran.errs,
        start.errs,
        any-append (λ f. severity_eqb f.severity error) tags ksk.0,
        shares-marks st shares ksk.1 keys (unmarked-check_dnskey_signed_by_ksk l c now st keys),
      )

  -- For a zone with an SOA at its apex and with usable keys, Full says that it is valid exactly if no tag
  -- is shared by too many keys, a KSK signs the keys, every node of every worker is good, the chain is
  -- closed, and the digest passes. A node is good if its denial of existence has no error and, where the
  -- node is authoritative, each of its RRsets (but RRSIG and NSEC3) is secure and has no bad signature.
  pub valid-verify_full :
      (st : Store l) (shares : List (List Node)) (k : Dnskey) (ks : List Dnskey)
      (keys : List CachedKey)
      → has_soa l c cfg now clock (apex l st) ≡ true
      → dnskeys l st ≡ some (k ∷ ks)
      → cache_keys c (k ∷ ks) ≡ some keys
      → (verify_full l c cfg now clock shares st).valid ≡ not (is_zone_faulty st shares keys)
  unfolding verify_full full_signed full_cached
  valid-verify_full st shares k ks keys hs hd hk =
      rw (hs, hd, hk, verify_full, full_signed, full_cached) (valid-full_keys st shares keys)
