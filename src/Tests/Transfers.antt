-- ===== src/Tests/Transfers.antt =====
-- Tests of the transfers: a full one, and incremental ones of one and of two changesets.
use dnssec_auditor.Common.{
  ℕ, str_eq, nat_eq, true, false, not, ◌&&◌, ◌||◌, Option, none, some, List, [], ◌∷◌, ◌≡◌, ◌≢◌,
  refl, any, arith,
}
use dnssec_auditor.Common.Map
use dnssec_auditor.Common.Text.{to_lower, trim_space, has_suffix}
use dnssec_auditor.Dns.{Rr}
use dnssec_auditor.DnsName.{canonical}
use dnssec_auditor.Zone.RrSet.{pack_rr}
use dnssec_auditor.Zone.Node.{record_count, add_packed, remove_packed, recompute_flags, unpack_type}
use dnssec_auditor.Zone.Store.{
  Store, new_store, add_rr, remove_rr, apply_changes, apply_removes, apply_adds, store_rr, add_node,
  index_rr, deindex_rr, drop_rr, remove_node, refresh_serial, soa_locked, serial_of, node_or_new,
}
use dnssec_auditor.Zone.Store.View.{holds, stored, denotes, wire_is}
use dnssec_auditor.Zone.Store.Count.{IsConsistent}
use dnssec_auditor.Xfr.Ixfr.{as_soa, walk, step, parse_ixfr}
use dnssec_auditor.Xfr.Ixfr.Single.{changeset, parse-single}
use dnssec_auditor.Xfr.Ixfr.Multi.{two_changesets, parse-two}
use dnssec_auditor.Xfr.Client.{Result, Envelope, transfer_full, interpret, load_all, load, ixfr}
use dnssec_auditor.Xfr.Client.Transfers.{transfer_full-exact, kept_all}
use dnssec_auditor.Xfr.Client.Incremental.{single-applied, first_additions_lost}
use dnssec_auditor.Samples.{
  sample_libs, sample_dns, origin, www, soa_rr, zone_soa, a_rr, with_final_dot, pack, unpack,
}
use dnssec_auditor.Tests.Zones.{
  old_zone, old_zone-IsConsistent, new_records, old_records, changes_done,
}

is_soa_rr : (n : ℕ) → as_soa (soa_rr n) ≡ some (zone_soa n 3600 600 86400 60)
unfolding as_soa
is_soa_rr n = refl

is_plain : (b : ℕ) → as_soa (a_rr www b) ≡ none
unfolding as_soa
is_plain b = refl

seven_eight : ◌≢◌ {A = ℕ} 7 8
seven_eight = omega arith

parse-single_example :
    parse_ixfr
      (soa_rr 8
        ∷ changeset (soa_rr 7) (a_rr www 1 ∷ []) (soa_rr 8) (a_rr www 3 ∷ []) (soa_rr 8 ∷ []))
      7
    ≡ record { adds = new_records; removes = old_records; serial = 8; fallback = false }
parse-single_example =
    parse-single (soa_rr 8) (soa_rr 7) (a_rr www 1 ∷ []) (a_rr www 3 ∷ []) (is_soa_rr 8)
      (is_soa_rr 7) (is_plain 1, tt) (is_plain 3, tt) 7 seven_eight

abbrev single_answer : List Rr
single_answer =
    soa_rr 8 ∷ changeset (soa_rr 7) (a_rr www 1 ∷ []) (soa_rr 8) (a_rr www 3 ∷ []) (soa_rr 8 ∷ [])

abbrev single_result : Result sample_libs
single_result = record {
  store = none;
  adds = new_records;
  removes = old_records;
  method = ixfr;
  fallback = false;
  serial = 8;
  records = 6;
  server = www;
}

single_read : interpret sample_libs origin 7 www single_answer ≡ some single_result
unfolding interpret parse_ixfr as_soa walk step
single_read = refl

single-applied_example :
    (single_result.serial ≡ 8)
    × (holds
          (apply_changes sample_libs new_records old_records old_zone).0
          www
          1
          (1 ∷ 1 ∷ 60 ∷ 3 ∷ [])
        ≡ (holds old_zone www 1 (1 ∷ 1 ∷ 60 ∷ 3 ∷ [])
            && not (any (λ rr. denotes sample_dns rr www 1 (1 ∷ 1 ∷ 60 ∷ 3 ∷ [])) old_records))
          || any (λ rr. stored sample_dns rr www 1 (1 ∷ 1 ∷ 60 ∷ 3 ∷ [])) new_records)
single-applied_example =
    single-applied sample_libs origin www 7 (soa_rr 8) (soa_rr 7) (a_rr www 1 ∷ [])
      (a_rr www 3 ∷ []) single_result old_zone www 1 (1 ∷ 1 ∷ 60 ∷ 3 ∷ []) (is_soa_rr 8)
      (is_soa_rr 7) (is_plain 1, tt) (is_plain 3, tt) seven_eight old_zone-IsConsistent single_read
      changes_done

parse-two_example :
    parse_ixfr
      (two_changesets
        (soa_rr 9)
        (soa_rr 8)
        (soa_rr 7)
        (a_rr www 1 ∷ [])
        (a_rr www 3 ∷ [])
        []
        (a_rr www 4 ∷ []))
      7
    ≡ record {
      adds = soa_rr 9 ∷ a_rr www 4 ∷ [];
      removes = soa_rr 7 ∷ a_rr www 1 ∷ soa_rr 8 ∷ a_rr www 3 ∷ soa_rr 8 ∷ [];
      serial = 9;
      fallback = false;
    }
parse-two_example =
    parse-two (soa_rr 9) (soa_rr 8) (soa_rr 7) (a_rr www 1 ∷ []) (a_rr www 3 ∷ []) []
      (a_rr www 4 ∷ []) (is_soa_rr 9) (is_soa_rr 8) (is_soa_rr 7) (is_plain 1, tt) (is_plain 3, tt)
      tt (is_plain 4, tt) 7 (omega arith) (omega arith)

abbrev double_result : Result sample_libs
double_result = record {
  store = none;
  adds = soa_rr 9 ∷ a_rr www 4 ∷ [];
  removes = soa_rr 7 ∷ a_rr www 1 ∷ soa_rr 8 ∷ a_rr www 3 ∷ soa_rr 8 ∷ [];
  method = ixfr;
  fallback = false;
  serial = 9;
  records = 9;
  server = www;
}

double_read :
    interpret sample_libs origin 7 www (
      two_changesets
        (soa_rr 9)
        (soa_rr 8)
        (soa_rr 7)
        (a_rr www 1 ∷ [])
        (a_rr www 3 ∷ [])
        []
        (a_rr www 4 ∷ []))
    ≡ some double_result
unfolding interpret parse_ixfr as_soa walk step
double_read = refl

double_done : (apply_changes sample_libs double_result.adds double_result.removes old_zone).2 ≡ true
unfolding Map.get Map.put Map.delete remove_rr drop_rr remove_node remove_packed deindex_rr
    refresh_serial soa_locked unpack_type unpack record_count add_packed recompute_flags serial_of
    node_or_new apply_changes apply_removes apply_adds add_rr store_rr add_node index_rr new_store
    pack_rr canonical trim_space to_lower has_suffix with_final_dot pack
double_done = refl

third_denoted : denotes sample_dns (a_rr www 3) www 1 (1 ∷ 1 ∷ 60 ∷ 3 ∷ []) ≡ true
unfolding denotes wire_is pack_rr pack canonical trim_space to_lower has_suffix with_final_dot
third_denoted = refl

third_not_again :
    any (λ a. stored sample_dns a www 1 (1 ∷ 1 ∷ 60 ∷ 3 ∷ [])) (soa_rr 9 ∷ a_rr www 4 ∷ []) ≡ false
unfolding stored denotes wire_is pack_rr pack canonical trim_space to_lower has_suffix
    with_final_dot
third_not_again = refl

first_additions_lost_example :
    holds
      (apply_changes sample_libs double_result.adds double_result.removes old_zone).0
      www
      1
      (1 ∷ 1 ∷ 60 ∷ 3 ∷ [])
    ≡ false
first_additions_lost_example =
    first_additions_lost sample_libs origin www 7 (soa_rr 9) (soa_rr 8) (soa_rr 7) (a_rr www 1 ∷ [])
      [] [] [] (a_rr www 4 ∷ []) (a_rr www 3) double_result old_zone www 1 (1 ∷ 1 ∷ 60 ∷ 3 ∷ [])
      (is_soa_rr 9) (is_soa_rr 8) (is_soa_rr 7) (is_plain 1, tt) (is_plain 3, tt) tt
      (is_plain 4, tt) (omega arith) (omega arith) old_zone-IsConsistent double_read double_done
      third_denoted third_not_again

abbrev envelopes : List Envelope
envelopes =
    record { failed = false; rrs = soa_rr 7 ∷ a_rr www 1 ∷ []; cancelled = false }
    ∷ record { failed = false; rrs = a_rr www 2 ∷ soa_rr 7 ∷ []; cancelled = false }
    ∷ []

abbrev or_single : Option (Result sample_libs) → Result sample_libs
or_single none = single_result
or_single (some r) = r

full_read :
    transfer_full sample_libs origin www (some envelopes)
    ≡ some (or_single (transfer_full sample_libs origin www (some envelopes)))
unfolding transfer_full load_all load Map.get Map.put Map.delete remove_rr drop_rr remove_node
    remove_packed deindex_rr refresh_serial soa_locked unpack_type unpack record_count add_packed
    recompute_flags serial_of node_or_new apply_changes apply_removes apply_adds add_rr store_rr
    add_node index_rr new_store pack_rr canonical trim_space to_lower has_suffix with_final_dot pack
full_read = refl

transfer_full-exact_example :
    let r = or_single (transfer_full sample_libs origin www (some envelopes)) in
    (st : Store sample_libs) × (r.store ≡ some st)
    × IsConsistent st
    × (r.serial ≡ st.serial)
    × (r.records ≡ 4)
    × (holds st www 1 (1 ∷ 1 ∷ 60 ∷ 2 ∷ [])
        ≡ any (λ rr. stored sample_dns rr www 1 (1 ∷ 1 ∷ 60 ∷ 2 ∷ [])) (kept_all envelopes))
transfer_full-exact_example =
    transfer_full-exact sample_libs origin www envelopes
      (or_single (transfer_full sample_libs origin www (some envelopes))) www 1
      (1 ∷ 1 ∷ 60 ∷ 2 ∷ []) full_read
