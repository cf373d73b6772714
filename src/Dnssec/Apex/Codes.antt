-- ===== src/Dnssec/Apex/Codes.antt =====
-- The codes of the checks of the keys at the apex.
use dnssec_auditor.Common.{
  ℕ, Str, str_eq, false, Option, none, some, List, [], ◌∷◌, ◌≡◌, refl, arith, Option-cases, inl,
  inr,
}
use dnssec_auditor.Common.Map.{Map}
use dnssec_auditor.Dns.{DnsLib, Rr, type_dnskey}
use dnssec_auditor.Zone.RrSet.{RrSet, unpack}
use dnssec_auditor.Zone.Node.{Node}
use dnssec_auditor.Zone.Node
use dnssec_auditor.Zone.Store.{Libs, Store, apex}
use dnssec_auditor.Dnssec.Findings.{Time, new_finding}
use dnssec_auditor.Dnssec.Crypto.{Crypto}
use dnssec_auditor.Dnssec.Keys.{CachedKey}
use dnssec_auditor.Dnssec.Codes.{Table, outside, HasZoneCodes}
use dnssec_auditor.Dnssec.Apex.{
  by_tag, over_limit, check_keytag_collisions, ksk_unpacked, check_dnskey_signed_by_ksk,
}

module _ (now : Time) (p : Table) (h : HasZoneCodes p) where
  outside-over_limit :
      (d : DnsLib) (origin : Str) (m : Map ℕ ℕ) → outside p (over_limit d now origin m) ≡ false
  unfolding over_limit new_finding
  outside-over_limit d origin [] = refl
  outside-over_limit d origin ((tag, n) ∷ m) =
      ground (arith, h.collision, outside-over_limit d origin m)

  pub outside-check_keytag_collisions :
      (d : DnsLib) (origin : Str) (keys : List CachedKey)
      → outside p (check_keytag_collisions d now origin keys) ≡ false
  unfolding check_keytag_collisions
  outside-check_keytag_collisions d origin keys = outside-over_limit d origin (by_tag keys [])

  module _ (l : Libs) (c : Crypto) where
    outside-ksk_unpacked :
        (n : Node) (set : RrSet) (keys : List CachedKey) (unpacked : Option (List Rr))
        → outside p (ksk_unpacked l c now n set keys unpacked).0 ≡ false
    unfolding ksk_unpacked new_finding
    outside-ksk_unpacked n set keys none = refl
    outside-ksk_unpacked n set keys (some rrs) = ground (arith, h.not_signed_by_ksk)

    pub outside-check_dnskey_signed_by_ksk :
        (st : Store l) (keys : List CachedKey)
        → outside p (check_dnskey_signed_by_ksk l c now st keys).0 ≡ false
    unfolding check_dnskey_signed_by_ksk
    outside-check_dnskey_signed_by_ksk st keys = elim (Option-cases (apex l st)) [
      | inl absent ↦ rw (absent, check_dnskey_signed_by_ksk) refl
      | inr (n, found) ↦ elim (Option-cases (Node.set n type_dnskey)) [
        | inl absent ↦ rw (found, absent, check_dnskey_signed_by_ksk) refl
        | inr (set, here) ↦
            rw (found, here, check_dnskey_signed_by_ksk)
              (outside-ksk_unpacked n set keys (unpack l.dns set n.name))
      ]
    ]
