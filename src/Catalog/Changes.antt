-- ===== src/Catalog/Changes.antt =====
-- What Diff says of two lists of members.
use dnssec_auditor.Common.{
  Str, str_eq, ◌==◌, Bool, not, ◌&&◌, ◌||◌, is_some, List, [], ◌∷◌, any, All, ◌≡◌, ◌∙◌, refl, arith,
}
use dnssec_auditor.Common.Map.{Map, get, put, get-put, put-All}
use dnssec_auditor.Catalog.{Member, by_zone, only_in, diff}

-- A member has this zone.
abbrev pub has_zone : Str → List Member → Bool
has_zone z ms = any (λ m. m.zone == z) ms

abbrev IsZoned : Map Str Member → Type 0
IsZoned ms = All (λ e. e.0 ≡ (e.1).zone) ms

is_some-by_zone :
    (z : Str) (list : List Member) (ms : Map Str Member)
    → is_some (get z (by_zone list ms)) ≡ has_zone z list || is_some (get z ms)
unfolding by_zone
is_some-by_zone z [] ms = refl
is_some-by_zone z (m ∷ rest) ms =
    is_some-by_zone z rest (put m.zone m ms) ∙ ground (arith, get-put m.zone z m ms)

by_zone-IsZoned :
    (list : List Member) (ms : Map Str Member) → IsZoned ms → IsZoned (by_zone list ms)
unfolding by_zone
by_zone-IsZoned [] ms h = h
by_zone-IsZoned (m ∷ rest) ms h =
    by_zone-IsZoned rest (put m.zone m ms) (put-All (λ e. e.0 ≡ (e.1).zone) m.zone m ms refl h)

has_zone-only_in :
    (z : Str) (ms other : Map Str Member)
    → IsZoned ms
    → has_zone z (only_in ms other) ≡ is_some (get z ms) && not (is_some (get z other))
unfolding only_in get
has_zone-only_in z [] other h = refl
has_zone-only_in z ((k, m) ∷ ms) other h =
    ground (arith, str_eq.beq_iff k z, h.0, has_zone-only_in z ms other h.1)

is_some-by_zone_none :
    (z : Str) (list : List Member) → is_some (get z (by_zone list [])) ≡ has_zone z list
unfolding get
is_some-by_zone_none z list = is_some-by_zone z list [] ∙ ground arith

-- A zone is among the added members exactly if the new list has it and the old one has not, and among
-- the removed ones exactly if the old list has it and the new one has not.
pub has_zone-diff :
    (z : Str) (prev next : List Member)
    → (has_zone z (diff prev next).0 ≡ has_zone z next && not (has_zone z prev))
      × (has_zone z (diff prev next).1 ≡ has_zone z prev && not (has_zone z next))
unfolding diff
has_zone-diff z prev next =
    let p = is_some-by_zone_none z prev in
    let n = is_some-by_zone_none z next in
    let zp = by_zone-IsZoned prev [] tt in
    let zn = by_zone-IsZoned next [] tt in
    (
      has_zone-only_in z (by_zone next []) (by_zone prev []) zn ∙ rw (p, n) refl,
      has_zone-only_in z (by_zone prev []) (by_zone next []) zp ∙ rw (p, n) refl,
    )
