-- ===== src/Dnssec/Incremental.antt =====
-- internal/dnssec/incremental.go: the verification of what a transfer touched, the sweep of the expiry
-- index, and the verifier as the monitor uses it. `shares` is that of Full, for a pass that
-- escalates to it; a nil pointer is `none`.
pub mod Codes
pub mod Dropped
use dnssec_auditor.Common.{
  ℕ, zero, suc, ◌+◌, ◌-◌, ◌%◌, Str, str_eq, nat_eq, ◌==◌, Bool, true, false, not, ◌&&◌, ◌||◌,
  Option, none, some, is_some, List, [], ◌∷◌, ◌++◌, if◌then◌else◌, ltb, leb, String,
}
use dnssec_auditor.Dns.{DnsLib, Dnskey, type_nsec3}
use dnssec_auditor.Zone.RrSet.{RrSet}
use dnssec_auditor.Zone.Node.{Node}
use dnssec_auditor.Zone.Node
use dnssec_auditor.Zone.Entries.{Nsec3Rec, ExpiryRec}
use dnssec_auditor.Zone.Store.{Libs, Store, Touched, lookup}
use dnssec_auditor.Zone.Store.Records.{dnskeys, nsec3param_of}
use dnssec_auditor.Zone.Store.Ring.{
  nsec3_by_hash, next_nsec3, pred_nsec3, earliest_expiry, expiring_before,
}
use dnssec_auditor.Dnssec.Findings.{
  Time, Finding, Set, Message, error, warning, say, new_finding, new_set, add_all, has_errors,
  merge_replace,
}
use dnssec_auditor.Dnssec.Crypto.{Crypto}
use dnssec_auditor.Dnssec.Keys.{CachedKey, cache_keys}
use dnssec_auditor.Dnssec.Result.{Result, Verifier, Mode, full, incremental}
use dnssec_auditor.Dnssec.Verify.{
  Config, Hygiene, Checked, verify_rrset, clock32, skew32, warn32, u32,
}
use dnssec_auditor.Dnssec.Hygiene.{hygiene}
use dnssec_auditor.Dnssec.Full.{empty_result, verify_node, bad_key, unsigned_result, verify_full}

module _ (l : Libs) (c : Crypto) (cfg : Config) (now : Time) (clock : ℕ) where
  open l use {dns}

  broken : Str → String → Finding
  broken owner text = new_finding dns now "NSEC3_CHAIN_BROKEN" error owner type_nsec3 (say text)

  at_name : Store l → Option Node → List CachedKey → Checked
  at_name st none keys = record { findings = []; keys = keys; checked = 0 }
  at_name st (some n) keys = verify_node l c cfg now clock st n keys

  -- The loop over the touched names.
  pub verify_names : Store l → List Str → List CachedKey → Checked
  unfolding at_name
  verify_names st [] keys = record { findings = []; keys = keys; checked = 0 }
  verify_names st (name ∷ names) keys =
      let one = at_name st (lookup l name st) keys in
      let rest = verify_names st names one.keys in
      record {
        findings = one.findings ++ rest.findings;
        keys = rest.keys;
        checked = one.checked + rest.checked;
      }

  next_link : Nsec3Rec → Option Nsec3Rec → List Finding
  unfolding broken
  next_link rec none = broken rec.owner "NSEC3 next pointer broken" ∷ []
  next_link rec (some next) =
      if not (rec.next == next.hash) then broken rec.owner "NSEC3 next pointer broken" ∷ [] else []

  pred_link : Nsec3Rec → Option Nsec3Rec → List Finding
  unfolding broken
  pred_link rec none = []
  pred_link rec (some pred) =
      if not (pred.next == rec.hash)
      then broken pred.owner "predecessor next pointer broken" ∷ []
      else []

  nsec3_set : Node → Option RrSet → List CachedKey → Checked
  nsec3_set n none keys = record { findings = []; keys = keys; checked = 0 }
  nsec3_set n (some set) keys = verify_rrset dns c cfg now clock n set keys

  nsec3_owner : Option Node → List CachedKey → Checked
  unfolding nsec3_set
  nsec3_owner none keys = record { findings = []; keys = keys; checked = 0 }
  nsec3_owner (some n) keys = nsec3_set n (Node.set n type_nsec3) keys

  -- The body of the loop over the touched hashes.
  pub at_hash : Store l → Str → Option Nsec3Rec → List CachedKey → Checked
  unfolding broken next_link pred_link nsec3_owner
  at_hash st hash none keys = record {
    findings = broken st.origin "touched NSEC3 missing" ∷ [];
    keys = keys;
    checked = 0;
  }
  at_hash st hash (some rec) keys =
      let signed = nsec3_owner (lookup l rec.owner st) keys in
      record {
        findings =
            next_link rec (next_nsec3 l hash st)
            ++ (pred_link rec (pred_nsec3 l hash st) ++ signed.findings);
        keys = signed.keys;
        checked = signed.checked;
      }

  -- The loop over the touched hashes.
  pub verify_hashes : Store l → List Str → List CachedKey → Checked
  unfolding at_hash
  verify_hashes st [] keys = record { findings = []; keys = keys; checked = 0 }
  verify_hashes st (hash ∷ hashes) keys =
      let one = at_hash st hash (nsec3_by_hash l hash st) keys in
      let rest = verify_hashes st hashes one.keys in
      record {
        findings = one.findings ++ rest.findings;
        keys = rest.keys;
        checked = one.checked + rest.checked;
      }

  found_hashes : Store l → List Str → ℕ
  found_hashes st [] = 0
  found_hashes st (hash ∷ hashes) =
      let n = found_hashes st hashes in if is_some (nsec3_by_hash l hash st) then suc n else n

  owner_of : Option Nsec3Rec → List Str
  owner_of none = []
  owner_of (some rec) = rec.owner ∷ []

  owners_at : Store l → List Str → List Str
  unfolding owner_of
  owners_at st [] = []
  owners_at st (hash ∷ hashes) = owner_of (nsec3_by_hash l hash st) ++ owners_at st hashes

  -- The owners whose old findings the pass replaces.
  unfoldable pub owners_of : Store l → Touched → List Str
  unfolding owners_at
  owners_of st t = t.names ++ owners_at st t.nsec3

  -- The findings after the merge into the earlier ones.
  pub merged : Option Set → Set → List Str → Set
  merged none next owners = next
  merged (some prev) next owners = (merge_replace now (some prev) (some next) owners).0

  -- The findings of the pass itself, from those of the names and of the hashes.
  pub fresh : Store l → Checked → Checked → Set
  fresh st names ring =
      let checked = add_all now (names.findings ++ ring.findings) new_set in
      if cfg.hygiene.enabled
      then add_all now (hygiene l c now cfg.hygiene st ring.keys) checked
      else checked

  pub inc_keys : Store l → Option Set → Touched → List CachedKey → Result
  unfolding verify_names verify_hashes found_hashes owners_of merged fresh
  inc_keys st prev t keys =
      let names = verify_names st t.names keys in
      let hashed = is_some (nsec3param_of l st) in
      let ring = verify_hashes st (if hashed then t.nsec3 else []) names.keys in
      let found = merged prev (fresh st names ring) (owners_of st t) in
      record (empty_result incremental) {
        findings = found;
        valid = not (has_errors found);
        rrsigs_verified = names.checked + ring.checked;
        nsec3_checked = if hashed then found_hashes st t.nsec3 else 0;
        earliest_expiry = earliest_expiry l st;
      }

  pub inc_cached :
      List (List Node) → Store l → Option Set → Option Touched → Option (List CachedKey) → Result
  unfolding inc_keys
  inc_cached shares st prev touched none = bad_key l c cfg now clock st incremental
  inc_cached shares st prev none (some keys) = verify_full l c cfg now clock shares st
  inc_cached shares st prev (some t) (some keys) = inc_keys st prev t keys

  unsigned_inc : Option Set → Result
  unfolding merged
  unsigned_inc prev = record (unsigned_result l c cfg now clock incremental) {
    findings = merged prev new_set [];
  }

  pub inc_signed :
      List (List Node) → Store l → Option Set → Option Touched → Option (List Dnskey) → Result
  unfolding inc_cached unsigned_inc
  inc_signed shares st prev touched none = unsigned_inc prev
  inc_signed shares st prev touched (some []) = unsigned_inc prev
  inc_signed shares st prev touched (some (k ∷ ks)) =
      inc_cached shares st prev touched (cache_keys c (k ∷ ks))

  abbrev pub escalates : Option Touched → Bool
  escalates none = false
  escalates (some t) = t.dnskey || t.nsec3param

  -- Incremental
  unfoldable pub verify_incremental :
      List (List Node) → Store l → Option Set → Option Touched → Result
  unfolding inc_signed
  verify_incremental shares st prev touched =
      if escalates touched
      then verify_full l c cfg now clock shares st
      else inc_signed shares st prev touched (dnskeys l st)

  -- What the sweep says of a signature of the index.
  pub swept : ExpiryRec → List Finding
  swept rec =
      let d = clock32 dns c cfg now clock in
      if ltb ((rec.expiration + skew32 dns c cfg now clock) % u32) d
      then new_finding dns now "RRSIG_EXPIRED" error rec.owner rec.type_covered
          (say "RRSIG expired")
        ∷ []
      else (if ltb d rec.expiration && leb (rec.expiration - d) (warn32 dns c cfg now clock)
          then new_finding dns now "RRSIG_EXPIRING_SOON" warning rec.owner rec.type_covered
              (say "RRSIG expiring soon")
            ∷ []
          else [])

  pub sweep : List ExpiryRec → Set → Set
  unfolding swept
  sweep [] s = s
  sweep (rec ∷ recs) s = sweep recs (add_all now (swept rec) s)

  pub horizon : ℕ
  horizon =
      (clock32 dns c cfg now clock + skew32 dns c cfg now clock + warn32 dns c cfg now clock) % u32

  -- SweepExpiry, without the count that it returns
  unfoldable pub sweep_expiry : Store l → Set → Set
  unfolding sweep horizon
  sweep_expiry st s = sweep (expiring_before l horizon st) s

  -- The verifier at this instant.
  unfoldable pub verifier : (Store l → List (List Node)) → Verifier l
  verifier share = record {
    verify_full = λ st. verify_full l c cfg now clock (share st) st;
    verify_incremental = λ st prev t. verify_incremental (share st) st (some prev) (some t);
    sweep_expiry = sweep_expiry;
  }
