-- ===== src/Tests/Runs.antt =====
-- Runs of operations on small inputs.
use dnssec_auditor.Common.{
  ℕ, str_eq, nat_eq, true, false, none, some, List, [], ◌∷◌, ◌≡◌, refl, codes,
}
use dnssec_auditor.Common.Text.{to_lower, trim_space, has_suffix}
use dnssec_auditor.DnsName.{canonical, is_subdomain}
use dnssec_auditor.Zone.Hash.{hash_from_base32, base32hex}
use dnssec_auditor.Event.{Event, about, zone_valid, zone_stale, new_bus, subscribe, publish}
use dnssec_auditor.Webhooks.{enqueue}
use dnssec_auditor.Xfr.Ixfr.{as_soa}
use dnssec_auditor.Xfr.Client.{probe_soa, first_soa}
use dnssec_auditor.Samples.{sample_dns, origin, www, soa_rr, a_rr, with_final_dot}

hash_round_trip :
    hash_from_base32 (base32hex (1 ∷ 250 ∷ 37 ∷ 0 ∷ 255 ∷ 77 ∷ []))
    ≡ some (1 ∷ 250 ∷ 37 ∷ 0 ∷ 255 ∷ 77 ∷ [])
unfolding hash_from_base32 base32hex
hash_round_trip = refl

www_below : is_subdomain sample_dns (codes "W.E") (codes "e") ≡ true
unfolding is_subdomain canonical trim_space to_lower has_suffix with_final_dot
www_below = refl

other_not_below : is_subdomain sample_dns (codes "we") (codes "e") ≡ false
unfolding is_subdomain canonical trim_space to_lower has_suffix with_final_dot
other_not_below = refl

-- Handlers that note their number: they are called in the order of their subscription.
abbrev note_one : Event → List ℕ → List ℕ
note_one e ns = 1 ∷ ns

abbrev note_two : Event → List ℕ → List ℕ
note_two e ns = 2 ∷ ns

both_called :
    publish 5 (about zone_stale origin) (subscribe note_two (subscribe note_one (new_bus 0))) []
    ≡ 2 ∷ 1 ∷ []
unfolding publish subscribe new_bus
both_called = refl

-- A full queue drops the event.
queue_full :
    enqueue 1 (about zone_valid origin) (about zone_stale origin ∷ [])
    ≡ about zone_stale origin ∷ []
unfolding enqueue
queue_full = refl

-- A probe that fails over UDP is answered over TCP.
tcp_answers : probe_soa (codes "p") none (some (a_rr www 1 ∷ soa_rr 7 ∷ [])) ≡ record {
  server = codes "p";
  serial = 7;
  refresh = 3600;
  retry = 600;
  expire = 86400;
  reachable = true;
  failed = false;
}
unfolding probe_soa first_soa as_soa
tcp_answers = refl
