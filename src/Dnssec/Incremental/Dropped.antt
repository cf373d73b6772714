-- ===== src/Dnssec/Incremental/Dropped.antt =====
-- What an incremental pass leaves of the earlier findings.
use dnssec_auditor.Common.{
  ℕ, Str, str_eq, nat_eq, Bool, true, false, not, none, some, is_some, List, [], ◌∷◌, ◌++◌,
  if◌then◌else◌, contains, ◌≡◌, ◌∙◌, arith,
}
use dnssec_auditor.Dns.{Dnskey}
use dnssec_auditor.Zone.Node.{Node}
use dnssec_auditor.Zone.Store.{Libs, Store, Touched}
use dnssec_auditor.Zone.Store.Records.{dnskeys, nsec3param_of}
use dnssec_auditor.Dnssec.Findings.{
  Time, Finding, Set, key, add, add_all, find, new_set, has_errors, is_zero, is_kept,
}
use dnssec_auditor.Dnssec.Findings.Sets.{IsKeyed, find-add, find-none}
use dnssec_auditor.Dnssec.Findings.Errors.{errors, Added, has_errors_none}
use dnssec_auditor.Dnssec.Findings.Merge.{
  merged as at_merged, merged-touched, merged-kept, has_errors-merge_none, find-merge_replace,
}
use dnssec_auditor.Dnssec.Crypto.{Crypto}
use dnssec_auditor.Dnssec.Keys.{CachedKey, cache_keys}
use dnssec_auditor.Dnssec.Codes.{outside, outside-append}
use dnssec_auditor.Dnssec.Verify.{Config}
use dnssec_auditor.Dnssec.Hygiene.{hygiene}
use dnssec_auditor.Dnssec.Hygiene.Codes.{outside-hygiene, errors-hygiene}
use dnssec_auditor.Dnssec.Full.Table.{
  table, outside_widened, node_table, node_codes, is_zone_only, key-is_zone_only, contains-append,
}
use dnssec_auditor.Dnssec.Full.Verdict.{added}
use dnssec_auditor.Dnssec.Incremental.{
  verify_names, verify_hashes, owners_of, owners_at, merged, fresh, inc_keys, inc_cached,
  inc_signed, verify_incremental,
}
use dnssec_auditor.Dnssec.Incremental.Codes.{outside-verify_names, outside-verify_hashes}

absent-add_all :
    (now : Time) (fs : List Finding) (s : Set) (z : Finding)
    → outside node_table fs ≡ false
    → is_zone_only z ≡ true
    → find (key z) s ≡ none
    → find (key z) (add_all now fs s) ≡ none
unfolding add_all
absent-add_all now [] s z hf hz h = h
absent-add_all now (f ∷ fs) s z hf hz h =
    let here : node_table f.code f.severity ≡ true = ground (arith, hf) in
    let there : outside node_table fs ≡ false = ground (arith, hf) in
    absent-add_all now fs (add now f s) z there hz
      (find-add now f s (key z) ∙ rw (key-is_zone_only f z here hz) h)

module _ (l : Libs) (c : Crypto) (cfg : Config) (now : Time) (clock : ℕ) (st : Store l) where
  module _ (prev : Set) (t : Touched) (keys : List CachedKey) where
    fresh_at : Set
    fresh_at =
        let names = verify_names l c cfg now clock st t.names keys in
        fresh l c cfg now clock st names (
          verify_hashes l c cfg now clock st (if is_some (nsec3param_of l st) then t.nsec3 else [])
            names.keys)

    absent-fresh : (z : Finding) → is_zone_only z ≡ true → find (key z) fresh_at ≡ none
    unfolding fresh_at fresh
    absent-fresh z hz =
        let names = verify_names l c cfg now clock st t.names keys in
        let hashes = if is_some (nsec3param_of l st) then t.nsec3 else [] in
        let ring = verify_hashes l c cfg now clock st hashes names.keys in
        let inside : outside node_table (names.findings ++ ring.findings) ≡ false =
          outside-append node_table names.findings ring.findings
          ∙ ground (
            arith,
            outside-verify_names l c cfg now clock node_table node_codes st t.names keys,
            outside-verify_hashes l c cfg now clock node_table node_codes st hashes names.keys,
          ) in
        let first =
          absent-add_all now (names.findings ++ ring.findings) new_set z inside hz
            (find-none (key z)) in
        ground (
          arith,
          first,
          absent-add_all now (hygiene l c now cfg.hygiene st ring.keys)
              (add_all now (names.findings ++ ring.findings) new_set) z
              (outside-hygiene l c now cfg.hygiene node_table node_codes.hygiene st ring.keys) hz
              first,
        )

  -- A pass over a zone with usable keys that does not turn into a full one.
  pub record IsPass (t : Touched) (keys : List CachedKey) : Type 0 where
    pub key : Dnskey
    pub more : List Dnskey
    pub same_keys : t.dnskey ≡ false
    pub same_param : t.nsec3param ≡ false
    pub read : dnskeys l st ≡ some (key ∷ more)
    pub cached : cache_keys c (key ∷ more) ≡ some keys

  owned :
      (t : Touched) (z : Finding)
      → contains z.owner t.names ≡ true
      → contains z.owner (owners_of l c cfg now clock st t) ≡ true
  unfolding owners_of
  owned t z h = contains-append z.owner t.names (owners_at l c cfg now clock st t.nsec3) h

  find-verify_incremental :
      (shares : List (List Node)) (prev : Set) (t : Touched) (keys : List CachedKey) (k : Str)
      → IsKeyed prev.by_key
      → IsPass t keys
      → find k (verify_incremental l c cfg now clock shares st (some prev) (some t)).findings
        ≡ at_merged now
            (owners_of l c cfg now clock st t)
            (find k prev)
            (find k (fresh_at prev t keys))
  unfolding verify_incremental inc_signed inc_cached inc_keys merged fresh_at
  find-verify_incremental shares prev t keys k hp h =
      rw (h.same_keys, h.same_param, h.read, h.cached, verify_incremental, inc_signed, inc_cached)
        (find-merge_replace now prev (fresh_at prev t keys) (owners_of l c cfg now clock st t) k hp)

  -- After a pass that does not turn into a full one: a finding of a check of a whole zone, as a broken
  -- NSEC chain, keys that no KSK signs or a digest that does not match, is gone if the pass touches its
  -- owner, although the pass makes no such check.
  pub zone_finding_dropped :
      (shares : List (List Node)) (prev : Set) (t : Touched) (keys : List CachedKey) (z : Finding)
      → IsKeyed prev.by_key
      → IsPass t keys
      → find (key z) prev ≡ some z
      → is_zone_only z ≡ true
      → contains z.owner t.names ≡ true
      → find (key z) (verify_incremental l c cfg now clock shares st (some prev) (some t)).findings
        ≡ none
  zone_finding_dropped shares prev t keys z hp h there only touched =
      find-verify_incremental shares prev t keys (key z) hp h
      ∙ rw (there, absent-fresh prev t keys z only)
          (merged-touched now (owners_of l c cfg now clock st t) z (owned t z touched))

  -- After such a pass a finding stays as it was if its owner is not one of the touched, of which there is
  -- at least one.
  pub untouched-verify_incremental :
      (shares : List (List Node)) (prev : Set) (t : Touched) (keys : List CachedKey) (f : Finding)
      → IsKeyed prev.by_key
      → IsPass t keys
      → find (key f) prev ≡ some f
      → is_zero f.last_seen ≡ false
      → is_kept (owners_of l c cfg now clock st t) f ≡ true
      → find (key f) (verify_incremental l c cfg now clock shares st (some prev) (some t)).findings
        ≡ some f
  untouched-verify_incremental shares prev t keys f hp h there seen kept =
      find-verify_incremental shares prev t keys (key f) hp h
      ∙ rw there (
          merged-kept now (find (key f) (fresh_at prev t keys)) (owners_of l c cfg now clock st t) f
            kept seen)

  abbrev nothing : List Str
  nothing = []

  if_nothing : (b : Bool) → (if b then nothing else nothing) ≡ nothing
  if_nothing b = ground arith

  warned :
      (fs : List Finding)
      → outside node_table fs ≡ false
      → errors fs ≡ false
      → not (has_errors (if cfg.hygiene.enabled then add_all now fs new_set else new_set)) ≡ true
  warned fs h clean =
      let done : Added table now fs new_set = added now fs new_set (outside_widened fs h) tt in
      ground (arith, done.errs, has_errors_none)

  -- A pass that touches nothing drops every earlier finding, so the zone becomes valid, whatever was wrong
  -- with it before.
  pub untouched_valid :
      (shares : List (List Node)) (prev : Set) (t : Touched) (keys : List CachedKey)
      → IsPass t keys
      → t.names ≡ []
      → t.nsec3 ≡ []
      → (verify_incremental l c cfg now clock shares st (some prev) (some t)).valid ≡ true
  unfolding verify_incremental inc_signed inc_cached inc_keys merged owners_of owners_at fresh
      verify_names verify_hashes add_all
  untouched_valid shares prev t keys h hn hh =
      rw
        (
          h.same_keys, h.same_param, h.read, h.cached, hn, hh, verify_incremental, inc_signed,
          inc_cached, has_errors-merge_none, if_nothing,
        )
        (warned (hygiene l c now cfg.hygiene st keys)
          (outside-hygiene l c now cfg.hygiene node_table node_codes.hygiene st keys)
          (errors-hygiene l c now cfg.hygiene st keys))
