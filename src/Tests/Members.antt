-- ===== src/Tests/Members.antt =====
-- Tests of catalog zones.
use dnssec_auditor.Common.{Str, str_eq, not, ◌&&◌, [], ◌∷◌, ◌≡◌, refl, codes}
use dnssec_auditor.Common.Map
use dnssec_auditor.Catalog.{Member, diff}
use dnssec_auditor.Catalog.Changes.{has_zone, has_zone-diff}
use dnssec_auditor.Samples.{origin, www}

abbrev member : Str → Member
member zone = record { id = codes "a"; zone = zone; group = []; coo = [] }

-- The first list has the origin, and the second one has another name.
diff_of_two : diff (member origin ∷ []) (member www ∷ []) ≡ (member www ∷ [], member origin ∷ [])
unfolding diff Map.get Map.put
diff_of_two = refl

has_zone-diff_example :
    (has_zone www (diff (member origin ∷ []) (member www ∷ [])).0
      ≡ has_zone www (member www ∷ []) && not (has_zone www (member origin ∷ [])))
    × (has_zone www (diff (member origin ∷ []) (member www ∷ [])).1
        ≡ has_zone www (member origin ∷ []) && not (has_zone www (member www ∷ [])))
has_zone-diff_example = has_zone-diff www (member origin ∷ []) (member www ∷ [])
