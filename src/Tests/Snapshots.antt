-- ===== src/Tests/Snapshots.antt =====
-- Tests of the snapshots, with a zone that has one record.
use dnssec_auditor.Common.{Str, str_eq, some, [], ◌∷◌, All, ◌≡◌, refl, arith}
use dnssec_auditor.Dns.{Rr, type_soa}
use dnssec_auditor.Zone.RrSet.{unpack}
use dnssec_auditor.Zone.Node
use dnssec_auditor.Zone.Node.{Node}
use dnssec_auditor.Zone.Store.{Store, new_store, from_rrs}
use dnssec_auditor.Zone.Store.Records.{all_rrs}
use dnssec_auditor.Zone.Store.Snapshot.{write_snapshot, read_snapshot, with_time}
use dnssec_auditor.Zone.Store.Snapshot.RoundTrip.{Packs, read_snapshot-write_snapshot}
use dnssec_auditor.Samples.{
  sample_libs, signed_zone, signed_apex, soa_rr, packed, origin, pack, unpack as unpack_wire,
}

-- A record without a name of its own, as the sample library unpacks it.
abbrev small_zone : Store sample_libs
small_zone = record (signed_zone 1000) {
  nodes =
      (
        [],
        record (signed_apex 1000) {
          name = [];
          sets = (record { rrtype = type_soa; ttl = 60; rdata = packed (soa_rr 1) ∷ [] }) ∷ [];
        },
      )
      ∷ [];
}

abbrev small_rr : Rr
small_rr = record (soa_rr 1) { name = [] }

small_rrs : all_rrs sample_libs small_zone ≡ some (small_rr ∷ [])
unfolding all_rrs Node.all_rrs unpack unpack_wire
small_rrs = refl

small-Packs : All (λ rr. Packs sample_libs rr) (small_rr ∷ [])
unfolding pack unpack_wire
small-Packs =
    (record { wire = packed (soa_rr 1); packed = refl; short = omega arith; unpacked = refl }, tt)

read_snapshot-write_snapshot_example :
    (bytes : Str) × (write_snapshot sample_libs 1000 small_zone ≡ some bytes)
    × (read_snapshot sample_libs bytes
        ≡ with_time sample_libs 1000 (
            from_rrs sample_libs
              (small_rr ∷ [])
              (record (new_store sample_libs origin) { serial = 1 })))
read_snapshot-write_snapshot_example =
    read_snapshot-write_snapshot sample_libs 1000 small_zone (small_rr ∷ []) small_rrs small-Packs
      (omega arith) (omega arith) (omega arith) (omega arith)
