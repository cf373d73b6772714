-- ===== src/Tests/Hooks.antt =====
-- Tests of the webhooks.
use dnssec_auditor.Common.{ℕ, ◌≤◌, nat_eq, str_eq, ◌==◌, Bool, true, [], ◌∷◌, codes, ◌≡◌, ◌↔◌, refl}
use dnssec_auditor.Event.{about, zone_stale, kind_text}
use dnssec_auditor.Webhooks.{Target, match_event, deliver_to}
use dnssec_auditor.Webhooks.Delivery.{deliver_to_iff}
use dnssec_auditor.Samples.{origin}

-- Only the third attempt is answered.
abbrev third : ℕ → Bool
third k = k == 2

abbrev stale_only : Target
stale_only = record { url = codes "u"; events = codes "zone_stale" ∷ []; zones = [] }

gets_stale : match_event stale_only (about zone_stale origin) ≡ true
unfolding match_event kind_text
gets_stale = refl

deliver_to_iff_example :
    ((deliver_to 3 true third).ok ≡ true) ↔ ((k : ℕ) × (k ≤ 3) × (third k ≡ true))
deliver_to_iff_example = deliver_to_iff 3 third
