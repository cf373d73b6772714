-- ===== src/Tests/Checks.antt =====
-- Tests of the verifier's parts: bitmaps, keys and the digest of a zone.
use dnssec_auditor.Common.{
  ℕ, str_eq, true, false, some, [], ◌∷◌, contains, nat_eq, ◌≡◌, ◌↔◌, refl, codes, not, ◌||◌, any,
  arith, ◌<◌, ◌^◌, ◌==◌,
}
use dnssec_auditor.Common.Map
use dnssec_auditor.Common.Sort.{sort_by, insert_by}
use dnssec_auditor.Dns.{Rr, type_soa, type_zonemd, zonemd}
use dnssec_auditor.Zone.RrSet.{RrSet, unpack}
use dnssec_auditor.Zone.Node.{Node, rrsigs_covering, has, set, unpack_type}
use dnssec_auditor.Zone.Canonical.{bitmap_equal, hex_encode}
use dnssec_auditor.Zone.Canonical.Order.{bitmap_equal_iff}
use dnssec_auditor.Zone.Store.{Store, apex}
use dnssec_auditor.Zone.Store.Records.{all_rrs}
use dnssec_auditor.Dnssec.Keys.{parse_rsa, pos, rsa, set_bytes}
use dnssec_auditor.Common.Text.{to_lower}
use dnssec_auditor.Dnssec.Zonemd.{as_zonemd, compute_zonemd, is_zonemd_sig, digested, verify_zonemd}
use dnssec_auditor.Dnssec.Zonemd.Digest.{WritesBytes, HasDigest, is_unusable, verify_zonemd_iff}
use dnssec_auditor.Dnssec.Findings.Errors.{errors}
use mathlib.Core.List.{Memᴰ}
use dnssec_auditor.Zone.Node
use dnssec_auditor.Dnssec.Keys.Rsa.{write_rsa, parse_rsa-write_rsa}
use dnssec_auditor.Samples.{
  sample_dns, sample_libs, sample_crypto, signed_zone, signed_apex, origin, packed, apex_rr, soa_rr,
  pack, unpack as unpack_wire,
}

abbrev soa_set : RrSet
soa_set = record { rrtype = type_soa; ttl = 60; rdata = packed (soa_rr 1) ∷ [] }

bitmap_equal_iff_example :
    (bitmap_equal (46 ∷ 6 ∷ 47 ∷ 6 ∷ []) (6 ∷ 46 ∷ 47 ∷ []) ≡ true)
    ↔ ((t : ℕ) → contains t (46 ∷ 6 ∷ 47 ∷ 6 ∷ []) ≡ contains t (6 ∷ 46 ∷ 47 ∷ []))
bitmap_equal_iff_example = bitmap_equal_iff (46 ∷ 6 ∷ 47 ∷ 6 ∷ []) (6 ∷ 46 ∷ 47 ∷ [])

small_exponent : set_bytes (1 ∷ 0 ∷ 1 ∷ []) < 2 ^ 63
unfolding set_bytes
small_exponent = omega arith

parse_rsa-write_rsa_example :
    parse_rsa (write_rsa (1 ∷ 0 ∷ 1 ∷ []) (200 ∷ 7 ∷ []))
    ≡ some (rsa (set_bytes (200 ∷ 7 ∷ [])) (pos (set_bytes (1 ∷ 0 ∷ 1 ∷ []))))
parse_rsa-write_rsa_example =
    parse_rsa-write_rsa (1 ∷ 0 ∷ 1 ∷ []) (200 ∷ 7 ∷ []) (omega arith) (omega arith) (omega arith)
      small_exponent

abbrev digest_rr : Rr
digest_rr = apex_rr type_zonemd (zonemd 1 1 1 (hex_encode (16 ∷ [])))

-- A zone whose apex has its SOA and its digest.
abbrev digested_apex : Node
digested_apex = record (signed_apex 1000) {
  sets = soa_set ∷ (record { rrtype = type_zonemd; ttl = 60; rdata = packed digest_rr ∷ [] }) ∷ [];
}

abbrev digested_zone : Store sample_libs
digested_zone = record (signed_zone 1000) { nodes = (origin, digested_apex) ∷ [] }

apex_digested : apex sample_libs digested_zone ≡ some digested_apex
unfolding apex Map.get
apex_digested = refl

zonemd_digested : unpack_type sample_dns digested_apex type_zonemd ≡ some (digest_rr ∷ [])
unfolding unpack_type set unpack unpack_wire
zonemd_digested = refl

computed_digest : compute_zonemd sample_libs sample_crypto 1 digested_zone 1 1 ≡ some (16 ∷ [])
unfolding compute_zonemd is_zonemd_sig digested all_rrs Node.all_rrs unpack unpack_wire sort_by
    insert_by pack hex_encode to_lower
computed_digest = refl

not_off : (to_lower (codes "auto") == codes "off") ≡ false
unfolding to_lower
not_off = refl

sample_bytes : WritesBytes sample_crypto
sample_bytes = record { sha384 = λ s. (omega arith, tt); sha512 = λ s. (omega arith, tt) }

verify_zonemd_iff_example :
    ((verify_zonemd sample_libs sample_crypto 1 (codes "auto") digested_zone).1 ≡ true)
    × (((verify_zonemd sample_libs sample_crypto 1 (codes "auto") digested_zone).2 ≡ true)
        ↔ (r : Rr) × Memᴰ r (digest_rr ∷ [])
          × HasDigest sample_libs sample_crypto 1 digested_zone (as_zonemd r.rdata))
    × (errors (verify_zonemd sample_libs sample_crypto 1 (codes "auto") digested_zone).0
        ≡ not (verify_zonemd sample_libs sample_crypto 1 (codes "auto") digested_zone).2
          || any
              (λ r. is_unusable sample_libs sample_crypto 1 digested_zone (as_zonemd r.rdata))
              (digest_rr ∷ []))
verify_zonemd_iff_example =
    verify_zonemd_iff sample_libs sample_crypto 1 sample_bytes (codes "auto") digested_zone
      digested_apex digest_rr [] apex_digested zonemd_digested not_off
