-- ===== src/Dnssec/Full.antt =====
-- internal/dnssec/verify.go, Full: the verification of a whole zone. The workers take the nodes from a
-- channel; `shares` lists, for each worker in the order in which they finish, the nodes that it took.
-- The marks of use on the keys pass from one worker to the next. `now` is the instant that findings
-- are stamped with, and `clock` the same instant in seconds.
pub mod Table
pub mod Sound
pub mod Verdict
pub mod Codes
use dnssec_auditor.Common.{
  ℕ, zero, ◌+◌, Str, str_eq, nat_eq, ◌==◌, Bool, true, false, not, ◌&&◌, ◌||◌, Option, none, some,
  is_some, List, [], ◌∷◌, ◌++◌, if◌then◌else◌, length, sum_by,
}
use dnssec_auditor.Dns.{DnsLib, Dnskey, Nsec3Param, type_soa, type_dnskey, type_rrsig, type_nsec3}
use dnssec_auditor.Zone.RrSet.{RrSet}
use dnssec_auditor.Zone.Node.{Node, has}
use dnssec_auditor.Zone.Store.{Libs, Store, apex}
use dnssec_auditor.Zone.Store.Records.{dnskeys, nsec3param_of}
use dnssec_auditor.Zone.Store.Ring.{earliest_expiry}
use dnssec_auditor.Dnssec.Findings.{
  Time, Finding, Set, Message, error, say, new_finding, new_set, add, add_all, list, has_errors,
}
use dnssec_auditor.Dnssec.Crypto.{Crypto}
use dnssec_auditor.Dnssec.Keys.{CachedKey, cache_keys}
use dnssec_auditor.Dnssec.Result.{Result, Mode, full, incremental}
use dnssec_auditor.Dnssec.Verify.{
  Config, Hygiene, Checked, is_authoritative, is_nsec3_owner, verify_rrset,
}
use dnssec_auditor.Dnssec.Denial.{
  check_nsec_presence, check_nsec3_presence, verify_nsec_chain, verify_nsec3_chain,
}
use dnssec_auditor.Dnssec.Zonemd.{verify_zonemd}
use dnssec_auditor.Dnssec.Hygiene.{hygiene}
use dnssec_auditor.Dnssec.Apex.{check_keytag_collisions, check_dnskey_signed_by_ksk}

abbrev pub empty_result : Mode → Result
empty_result mode = record {
  findings = new_set;
  mode = mode;
  valid = false;
  unsigned = false;
  rrsigs_verified = 0;
  nsec3_checked = 0;
  zonemd_checked = false;
  zonemd_ok = false;
  earliest_expiry = 0;
}

-- The RRset is not passed over.
pub is_checked : RrSet → Bool
is_checked set = not (set.rrtype == type_rrsig) && not (set.rrtype == type_nsec3)

module _ (l : Libs) (c : Crypto) (cfg : Config) (now : Time) (clock : ℕ) where
  open l use {dns}

  -- The loop over the RRsets of a node.
  pub verify_sets : Node → List RrSet → List CachedKey → Checked
  unfolding is_checked
  verify_sets n [] keys = record { findings = []; keys = keys; checked = 0 }
  verify_sets n (set ∷ sets) keys =
      let one = verify_rrset dns c cfg now clock n set keys in
      let rest = verify_sets n sets one.keys in
      let skipped = verify_sets n sets keys in
      if is_checked set
      then record {
        findings = one.findings ++ rest.findings;
        keys = rest.keys;
        checked = one.checked + rest.checked;
      }
      else skipped

  pub denial : Store l → Node → Option Nsec3Param → List Finding
  denial st n (some p) = check_nsec3_presence l c now st n p
  denial st n none =
      if not (is_nsec3_owner dns n.name st.origin) then check_nsec_presence l c now st n else []

  pub signatures : Store l → Node → List CachedKey → Checked
  unfolding verify_sets
  signatures st n keys =
      if is_authoritative l st n
      then verify_sets n n.sets keys
      else record { findings = []; keys = keys; checked = 0 }

  -- verifyNode
  unfoldable pub verify_node : Store l → Node → List CachedKey → Checked
  unfolding signatures denial
  verify_node st n keys =
      let signed = signatures st n keys in
      record {
        findings = signed.findings ++ denial st n (nsec3param_of l st);
        keys = signed.keys;
        checked = signed.checked;
      }

  -- What one worker does with its nodes.
  pub work : Store l → List Node → List CachedKey → Checked
  unfolding verify_node
  work st [] keys = record { findings = []; keys = keys; checked = 0 }
  work st (n ∷ ns) keys =
      let one = verify_node st n keys in
      let rest = work st ns one.keys in
      record {
        findings = one.findings ++ rest.findings;
        keys = rest.keys;
        checked = one.checked + rest.checked;
      }

  -- What the workers have come to.
  pub record Pool : Type 0 where
    pub findings : Set
    pub keys : List CachedKey
    pub checked : ℕ

  -- Each worker collects in a set of its own, which joins the result when it ends.
  pub run_workers : Store l → List (List Node) → Pool → Pool
  unfolding work
  run_workers st [] pool = pool
  run_workers st (ns ∷ shares) pool =
      let done = work st ns pool.keys in
      run_workers st shares (record {
        findings = add_all now (list (add_all now done.findings new_set)) pool.findings;
        keys = done.keys;
        checked = pool.checked + done.checked;
      })

  hashed_names : Store l → List Node → ℕ
  hashed_names st ns = sum_by (λ n. if is_nsec3_owner dns n.name st.origin then 0 else 1) ns

  nsec3_count : Store l → List (List Node) → ℕ
  unfolding hashed_names
  nsec3_count st shares =
      if is_some (nsec3param_of l st) then sum_by (λ ns. hashed_names st ns) shares else 0

  pub chain : Store l → Option Nsec3Param → List Finding
  chain st (some p) = verify_nsec3_chain l c now st p
  chain st none = verify_nsec_chain l c now st

  -- After the workers: the chain, ZONEMD, hygiene, and whether there are errors.
  pub finish : Store l → List (List Node) → Pool → Result
  unfolding chain nsec3_count
  finish st shares pool =
      let digest = verify_zonemd l c now cfg.zonemd st in
      let chained = add_all now (chain st (nsec3param_of l st)) pool.findings in
      let digested = add_all now digest.0 chained in
      let found =
        if cfg.hygiene.enabled
        then add_all now (hygiene l c now cfg.hygiene st pool.keys) digested
        else digested in
      record {
        findings = found;
        mode = full;
        valid = not (has_errors found);
        unsigned = false;
        rrsigs_verified = pool.checked;
        nsec3_checked = nsec3_count st shares;
        zonemd_checked = digest.1;
        zonemd_ok = digest.2;
        earliest_expiry = earliest_expiry l st;
      }

  pub full_keys : Store l → List (List Node) → List CachedKey → Result
  unfolding run_workers finish
  full_keys st shares keys =
      let ksk = check_dnskey_signed_by_ksk l c now st keys in
      finish st shares (
        run_workers st shares (record {
          findings = add_all now (check_keytag_collisions dns now st.origin keys ++ ksk.0) new_set;
          keys = ksk.1;
          checked = 0;
        }))

  pub one_error : Store l → Mode → Finding → Result
  one_error st mode f = record (empty_result mode) { findings = add now f new_set }

  pub bad_key : Store l → Mode → Result
  unfolding one_error
  bad_key st mode =
      one_error st mode
        (new_finding dns now "RRSIG_INVALID" error st.origin type_dnskey (say "unusable DNSKEY"))

  abbrev pub unsigned_result : Mode → Result
  unsigned_result mode = record (empty_result mode) { unsigned = true; valid = true }

  pub full_cached : Store l → List (List Node) → Option (List CachedKey) → Result
  unfolding full_keys bad_key
  full_cached st shares none = bad_key st full
  full_cached st shares (some keys) = full_keys st shares keys

  -- The keys that Full reads: an error and an empty list are alike.
  pub full_signed : Store l → List (List Node) → Option (List Dnskey) → Result
  unfolding full_cached
  full_signed st shares none = unsigned_result full
  full_signed st shares (some []) = unsigned_result full
  full_signed st shares (some (k ∷ ks)) = full_cached st shares (cache_keys c (k ∷ ks))

  unfoldable pub has_soa : Option Node → Bool
  has_soa none = false
  has_soa (some n) = has n type_soa

  -- Full
  unfoldable pub verify_full : List (List Node) → Store l → Result
  unfolding full_signed has_soa one_error
  verify_full shares st =
      if not (has_soa (apex l st))
      then one_error st full (
          new_finding dns now "SOA_SERIAL_MISMATCH" error st.origin type_soa
            (say "zone has no SOA"))
      else full_signed st shares (dnskeys l st)
