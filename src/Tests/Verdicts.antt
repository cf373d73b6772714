-- ===== src/Tests/Verdicts.antt =====
-- Tests of the verifier, with a zone whose only name is its origin.
use dnssec_auditor.Common.{
  ℕ, ◌+◌, Str, str_eq, Bool, true, false, not, ◌||◌, none, some, List, [], ◌∷◌, any, contains,
  nat_eq, beq_refl, ◌≡◌, refl, arith, ◌≤◌, ◌<◌, ◌-◌,
}
use dnssec_auditor.Common.Map
use dnssec_auditor.Dns.{type_soa, type_zonemd}
use dnssec_auditor.Zone.RrSet.{RrSet, unpack, parse_rrsig}
use dnssec_auditor.Zone.Node.{Node, rrsigs_covering, has, set, unpack_type}
use dnssec_auditor.Zone.Store.{Touched, apex, untouched}
use dnssec_auditor.Zone.Store.Records.{dnskeys}
use dnssec_auditor.Dnssec.Findings.{
  Finding, Set, error, say, new_finding, key, find, is_zero, is_kept,
}
use dnssec_auditor.Dnssec.Findings.Sets.{IsKeyed}
use dnssec_auditor.Dnssec.Findings.Errors.{errors}
use dnssec_auditor.Dnssec.Keys.{
  cache_keys, parse_public_key, parse_rsa, set_bytes, is_sep, is_zone_flag,
}
use dnssec_auditor.Common.Text.{has_suffix}
use dnssec_auditor.Dnssec.Verify.{verify_rrset, clock32, skew32, u32}
use dnssec_auditor.Dnssec.Verify.Signed.{is_secure, is_bad, errors-verify_rrset}
use dnssec_auditor.Dnssec.Verify.Window.{unexpired_rejected}
use dnssec_auditor.Dnssec.Full.{verify_full, has_soa}
use dnssec_auditor.Dnssec.Full.Verdict.{is_zone_faulty, valid-verify_full}
use dnssec_auditor.Dnssec.Full.Table.{table, node_table, is_zone_only}
use dnssec_auditor.Dnssec.Incremental.{verify_incremental, owners_of}
use dnssec_auditor.Dnssec.Incremental.Dropped.{
  IsPass, zone_finding_dropped, untouched-verify_incremental, untouched_valid,
}
use dnssec_auditor.Samples.{
  sample_dns, sample_libs, sample_crypto, sample_config, signed_zone, signed_apex, zone_key,
  cached_key, origin, www, packed, soa_rr, zone_sig, with_final_dot, unpack as unpack_wire,
}

-- One worker has the only node.
abbrev shares : List (List Node)
shares = (signed_apex 1000 ∷ []) ∷ []

abbrev verdict : ℕ → Bool
verdict clock =
    (verify_full sample_libs sample_crypto sample_config 1 clock shares (signed_zone 1000)).valid

abbrev soa_set : RrSet
soa_set = record { rrtype = type_soa; ttl = 60; rdata = packed (soa_rr 1) ∷ [] }

errors-verify_rrset_example :
    errors
      (verify_rrset sample_dns sample_crypto sample_config 1 2000
        (signed_apex 1000)
        soa_set
        (cached_key ∷ [])).findings
    ≡ not (
        is_secure sample_dns sample_crypto sample_config 1 2000
          (signed_apex 1000)
          soa_set
          (cached_key ∷ []))
      || any
          (is_bad sample_dns sample_crypto sample_config 1 2000 (signed_apex 1000))
          (rrsigs_covering sample_dns (signed_apex 1000) type_soa)
errors-verify_rrset_example =
    errors-verify_rrset sample_dns sample_crypto sample_config 1 2000 (signed_apex 1000) soa_set
      (cached_key ∷ [])

has_soa_here :
    has_soa sample_libs sample_crypto sample_config 1 500 (apex sample_libs (signed_zone 1000))
    ≡ true
unfolding has_soa apex Map.get has set
has_soa_here = refl

read_here : dnskeys sample_libs (signed_zone 1000) ≡ some (zone_key ∷ [])
unfolding dnskeys apex Map.get unpack_type set unpack unpack_wire
read_here = refl

cached_here : cache_keys sample_crypto (zone_key ∷ []) ≡ some (cached_key ∷ [])
unfolding cache_keys parse_public_key parse_rsa set_bytes is_sep is_zone_flag
cached_here = refl

valid-verify_full_example :
    verdict 500
    ≡ not (
        is_zone_faulty sample_libs sample_crypto sample_config 1 500
          (signed_zone 1000)
          shares
          (cached_key ∷ []))
valid-verify_full_example =
    valid-verify_full sample_libs sample_crypto sample_config 1 500 (signed_zone 1000) shares
      zone_key [] (cached_key ∷ []) has_soa_here read_here cached_here

-- A transfer that touched these names.
abbrev touched_names : List Str → Touched
touched_names names = record (untouched sample_libs) { names = names }

abbrev passes :
    (names : List Str)
    → IsPass sample_libs sample_crypto sample_config 1 500
        (signed_zone 1000)
        (touched_names names)
        (cached_key ∷ [])
passes names = record {
  key = zone_key;
  more = [];
  same_keys = refl;
  same_param = refl;
  read = read_here;
  cached = cached_here;
}

abbrev bad_digest : Finding
bad_digest =
    new_finding sample_dns 1 "ZONEMD_MISMATCH" error origin type_zonemd
      (say "ZONEMD digest mismatch")

abbrev earlier : Set
earlier = record { by_key = (key bad_digest, bad_digest) ∷ [] }

earlier-IsKeyed : IsKeyed earlier.by_key
unfolding Map.get
earlier-IsKeyed = record { own = (refl, tt); distinct = (refl, tt) }

found_alone : (f : Finding) → find (key f) (record { by_key = (key f, f) ∷ [] }) ≡ some f
unfolding find Map.get
found_alone f = rw (beq_refl (key f)) refl

zone_only_here : is_zone_only bad_digest ≡ true
unfolding is_zone_only new_finding table node_table
zone_only_here = refl

contains_here : contains bad_digest.owner (origin ∷ []) ≡ true
unfolding new_finding
contains_here = refl

zone_finding_dropped_example :
    find
      (key bad_digest)
      (verify_incremental sample_libs sample_crypto sample_config 1 500 shares
        (signed_zone 1000)
        (some earlier)
        (some (touched_names (origin ∷ [])))).findings
    ≡ none
zone_finding_dropped_example =
    zone_finding_dropped sample_libs sample_crypto sample_config 1 500 (signed_zone 1000) shares
      earlier (touched_names (origin ∷ [])) (cached_key ∷ []) bad_digest earlier-IsKeyed
      (passes (origin ∷ [])) (found_alone bad_digest) zone_only_here contains_here

untouched_valid_example :
    (verify_incremental sample_libs sample_crypto sample_config 1 500 shares
      (signed_zone 1000)
      (some earlier)
      (some (touched_names []))).valid
    ≡ true
untouched_valid_example =
    untouched_valid sample_libs sample_crypto sample_config 1 500 (signed_zone 1000) shares earlier
      (touched_names []) (cached_key ∷ []) (passes []) refl refl

-- An expired signature at a name that no transfer touches.
abbrev elsewhere : Finding
elsewhere = new_finding sample_dns 1 "RRSIG_EXPIRED" error www type_soa (say "RRSIG expired")

abbrev earlier_elsewhere : Set
earlier_elsewhere = record { by_key = (key elsewhere, elsewhere) ∷ [] }

elsewhere-IsKeyed : IsKeyed earlier_elsewhere.by_key
unfolding Map.get
elsewhere-IsKeyed = record { own = (refl, tt); distinct = (refl, tt) }

seen_elsewhere : is_zero elsewhere.last_seen ≡ false
unfolding new_finding
seen_elsewhere = refl

kept_elsewhere :
    is_kept
      (owners_of sample_libs sample_crypto sample_config 1 500
        (signed_zone 1000)
        (touched_names (origin ∷ [])))
      elsewhere
    ≡ true
unfolding is_kept owners_of new_finding
kept_elsewhere = refl

untouched-verify_incremental_example :
    find
      (key elsewhere)
      (verify_incremental sample_libs sample_crypto sample_config 1 500 shares
        (signed_zone 1000)
        (some earlier_elsewhere)
        (some (touched_names (origin ∷ [])))).findings
    ≡ some elsewhere
untouched-verify_incremental_example =
    untouched-verify_incremental sample_libs sample_crypto sample_config 1 500 (signed_zone 1000)
      shares earlier_elsewhere (touched_names (origin ∷ [])) (cached_key ∷ []) elsewhere
      elsewhere-IsKeyed (passes (origin ∷ [])) (found_alone elsewhere) seen_elsewhere kept_elsewhere

-- Signatures that expire three seconds before the 32-bit counter ends.
abbrev last_second : ℕ
last_second = 4294967293

covering_here :
    rrsigs_covering sample_dns (signed_apex last_second) type_soa
    ≡ zone_sig type_soa 8 2 60 last_second 10 7 ∷ []
unfolding rrsigs_covering set unpack unpack_wire parse_rrsig with_final_dot has_suffix
covering_here = refl

in_time :
    clock32 sample_dns sample_crypto sample_config 1 500
    ≤ (zone_sig type_soa 8 2 60 last_second 10 7).expiration
unfolding clock32
in_time = omega arith

sum_wraps :
    u32
    ≤ (zone_sig type_soa 8 2 60 last_second 10 7).expiration
      + skew32 sample_dns sample_crypto sample_config 1 500
unfolding skew32
sum_wraps = omega arith

sum_below :
    (zone_sig type_soa 8 2 60 last_second 10 7).expiration
      + skew32 sample_dns sample_crypto sample_config 1 500
      - u32
    < clock32 sample_dns sample_crypto sample_config 1 500
unfolding skew32 clock32
sum_below = omega arith

unexpired_rejected_example :
    errors
      (verify_rrset sample_dns sample_crypto sample_config 1 500
        (signed_apex last_second)
        soa_set
        (cached_key ∷ [])).findings
    ≡ true
unexpired_rejected_example =
    unexpired_rejected sample_dns sample_crypto sample_config 1 500 (signed_apex last_second)
      soa_set (cached_key ∷ []) (zone_sig type_soa 8 2 60 last_second 10 7) [] covering_here
      (omega arith) in_time sum_wraps sum_below
