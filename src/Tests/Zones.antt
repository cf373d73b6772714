-- ===== src/Tests/Zones.antt =====
-- Tests of the zone store, with a zone of an SOA and two addresses.
use dnssec_auditor.Common.{
  str_eq, nat_eq, Bool, true, false, not, ◌&&◌, ◌||◌, Option, none, some, List, [], ◌∷◌, ◌≡◌, refl,
  codes, any,
}
use dnssec_auditor.Common.Text.{to_lower, trim_space, has_suffix}
use dnssec_auditor.Dns.{Rr}
use dnssec_auditor.DnsName.{canonical}
use dnssec_auditor.Zone.Store.{
  Store, Touched, new_store, add_rr, remove_rr, apply_changes, from_axfr, apply_removes, apply_adds,
  store_rr, add_node, index_rr, deindex_rr, drop_rr, remove_node, refresh_serial, soa_locked,
  serial_of, node_or_new,
}
use dnssec_auditor.Zone.RrSet.{pack_rr}
use dnssec_auditor.Zone.Node.{record_count, add_packed, remove_packed, recompute_flags, unpack_type}
use dnssec_auditor.Common.Map
use dnssec_auditor.Zone.Node.Laws.{member}
use dnssec_auditor.Zone.Store.View.{
  holds, stored, denotes, holds-apply_changes, holds-from_axfr, at,
}
use dnssec_auditor.Zone.Store.Count.{IsConsistent, new_store-IsConsistent}
use dnssec_auditor.Zone.Store.Changes.{apply_changes-IsConsistent, from_axfr-IsConsistent}
use dnssec_auditor.Samples.{
  sample_libs, sample_dns, origin, www, soa_rr, a_rr, with_final_dot, pack, unpack,
}

abbrev pub old_zone : Store sample_libs
old_zone =
    (apply_changes sample_libs (soa_rr 7 ∷ a_rr www 1 ∷ a_rr www 2 ∷ []) []
      (new_store sample_libs origin)).0

canonical-www : canonical sample_dns (codes " W.E ") ≡ www
unfolding canonical trim_space to_lower has_suffix with_final_dot
canonical-www = refl

old_serial : old_zone.serial ≡ 7
unfolding Map.get Map.put Map.delete remove_rr drop_rr remove_node remove_packed deindex_rr
    refresh_serial soa_locked unpack_type unpack record_count add_packed recompute_flags serial_of
    node_or_new apply_changes apply_removes apply_adds add_rr store_rr add_node index_rr new_store
    pack_rr canonical trim_space to_lower has_suffix with_final_dot pack
old_serial = refl

pub old_zone-IsConsistent : IsConsistent old_zone
old_zone-IsConsistent =
    apply_changes-IsConsistent (soa_rr 7 ∷ a_rr www 1 ∷ a_rr www 2 ∷ []) []
      (new_store sample_libs origin) (new_store-IsConsistent origin)

-- The third address comes, and the first one goes.
abbrev pub new_records : List Rr
new_records = soa_rr 8 ∷ a_rr www 3 ∷ []

abbrev pub old_records : List Rr
old_records = soa_rr 7 ∷ a_rr www 1 ∷ []

abbrev changed : Store sample_libs × Touched × Bool
changed = apply_changes sample_libs new_records old_records old_zone

changes_fit : changed.2 ≡ true
unfolding Map.get Map.put Map.delete remove_rr drop_rr remove_node remove_packed deindex_rr
    refresh_serial soa_locked unpack_type unpack record_count add_packed recompute_flags serial_of
    node_or_new apply_changes apply_removes apply_adds add_rr store_rr add_node index_rr new_store
    pack_rr canonical trim_space to_lower has_suffix with_final_dot pack
changes_fit = refl

pub changes_done : (apply_changes sample_libs new_records old_records old_zone).2 ≡ true
changes_done = changes_fit

serial_after : changed.0.serial ≡ 8
unfolding Map.get Map.put Map.delete remove_rr drop_rr remove_node remove_packed deindex_rr
    refresh_serial soa_locked unpack_type unpack record_count add_packed recompute_flags serial_of
    node_or_new apply_changes apply_removes apply_adds add_rr store_rr add_node index_rr new_store
    pack_rr canonical trim_space to_lower has_suffix with_final_dot pack
serial_after = refl

count_after : changed.0.rrs ≡ 3
unfolding Map.get Map.put Map.delete remove_rr drop_rr remove_node remove_packed deindex_rr
    refresh_serial soa_locked unpack_type unpack record_count add_packed recompute_flags serial_of
    node_or_new apply_changes apply_removes apply_adds add_rr store_rr add_node index_rr new_store
    pack_rr canonical trim_space to_lower has_suffix with_final_dot pack
count_after = refl

holds-apply_changes_example :
    holds (apply_changes sample_libs new_records old_records old_zone).0 www 1 (1 ∷ 1 ∷ 60 ∷ 3 ∷ [])
    ≡ (holds old_zone www 1 (1 ∷ 1 ∷ 60 ∷ 3 ∷ [])
        && not (any (λ rr. denotes sample_dns rr www 1 (1 ∷ 1 ∷ 60 ∷ 3 ∷ [])) old_records))
      || any (λ rr. stored sample_dns rr www 1 (1 ∷ 1 ∷ 60 ∷ 3 ∷ [])) new_records
holds-apply_changes_example =
    holds-apply_changes new_records old_records old_zone www 1 (1 ∷ 1 ∷ 60 ∷ 3 ∷ [])
      old_zone-IsConsistent changes_done

apply_changes-IsConsistent_example :
    IsConsistent (apply_changes sample_libs new_records old_records old_zone).0
apply_changes-IsConsistent_example =
    apply_changes-IsConsistent new_records old_records old_zone old_zone-IsConsistent

third_is_there : holds changed.0 www 1 (1 ∷ 1 ∷ 60 ∷ 3 ∷ []) ≡ true
unfolding Map.get Map.put Map.delete remove_rr drop_rr remove_node remove_packed deindex_rr
    refresh_serial soa_locked unpack_type unpack record_count add_packed recompute_flags serial_of
    node_or_new apply_changes apply_removes apply_adds add_rr store_rr add_node index_rr new_store
    pack_rr canonical trim_space to_lower has_suffix with_final_dot pack at member
third_is_there = refl

first_is_gone : holds changed.0 www 1 (1 ∷ 1 ∷ 60 ∷ 1 ∷ []) ≡ false
unfolding Map.get Map.put Map.delete remove_rr drop_rr remove_node remove_packed deindex_rr
    refresh_serial soa_locked unpack_type unpack record_count add_packed recompute_flags serial_of
    node_or_new apply_changes apply_removes apply_adds add_rr store_rr add_node index_rr new_store
    pack_rr canonical trim_space to_lower has_suffix with_final_dot pack at member
first_is_gone = refl

abbrev sent : List Rr
sent = soa_rr 7 ∷ a_rr www 1 ∷ []

abbrev or_empty_zone : Option (Store sample_libs) → Store sample_libs
or_empty_zone none = new_store sample_libs origin
or_empty_zone (some s) = s

built : from_axfr sample_libs origin sent ≡ some (or_empty_zone (from_axfr sample_libs origin sent))
unfolding from_axfr Map.get Map.put record_count add_packed recompute_flags serial_of node_or_new
    apply_changes apply_removes apply_adds add_rr store_rr add_node index_rr new_store pack_rr
    canonical trim_space to_lower has_suffix with_final_dot pack
built = refl

holds-from_axfr_example :
    holds (or_empty_zone (from_axfr sample_libs origin sent)) www 1 (1 ∷ 1 ∷ 60 ∷ 1 ∷ [])
    ≡ any (λ rr. stored sample_dns rr www 1 (1 ∷ 1 ∷ 60 ∷ 1 ∷ [])) sent
holds-from_axfr_example =
    holds-from_axfr origin sent (or_empty_zone (from_axfr sample_libs origin sent)) www 1
      (1 ∷ 1 ∷ 60 ∷ 1 ∷ []) built

from_axfr-IsConsistent_example : IsConsistent (or_empty_zone (from_axfr sample_libs origin sent))
from_axfr-IsConsistent_example =
    from_axfr-IsConsistent origin sent (or_empty_zone (from_axfr sample_libs origin sent)) built
