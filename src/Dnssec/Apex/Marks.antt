-- ===== src/Dnssec/Apex/Marks.antt =====
-- The check of the signature over the keys: it changes nothing of the keys but their marks of use, and
-- when it reports an error.
use dnssec_auditor.Common.{
  str_eq, nat_eq, Bool, false, not, any, Option, none, some, List, [], ◌∷◌, ◌≡◌, ◌∙◌, refl, arith,
  Option-cases, inl, inr,
}
use dnssec_auditor.Dns.{Rr, Rrsig, type_dnskey}
use dnssec_auditor.Zone.RrSet.{RrSet, unpack}
use dnssec_auditor.Zone.Node.{Node, rrsigs_covering}
use dnssec_auditor.Zone.Node
use dnssec_auditor.Zone.Store.{Libs, Store, apex}
use dnssec_auditor.Dnssec.Findings.{Time, new_finding}
use dnssec_auditor.Dnssec.Findings.Errors.{errors}
use dnssec_auditor.Dnssec.Crypto.{Crypto}
use dnssec_auditor.Dnssec.Keys.{CachedKey}
use dnssec_auditor.Dnssec.Verify.Signed.Marks.{unmarked}
use dnssec_auditor.Dnssec.Apex.{
  ksk_signs, mark_keys, mark_all, ksk_unpacked, check_dnskey_signed_by_ksk,
}

module _ (l : Libs) (c : Crypto) (now : Time) where
  unmarked-mark_keys :
      (n : Node) (set : RrSet) (rrs : List Rr) (sig : Rrsig) (keys : List CachedKey)
      → unmarked (mark_keys l c now n set rrs sig keys).0 ≡ unmarked keys
  unfolding mark_keys
  unmarked-mark_keys n set rrs sig [] = refl
  unmarked-mark_keys n set rrs sig (k ∷ ks) = ground (arith, unmarked-mark_keys n set rrs sig ks)

  unmarked-mark_all :
      (n : Node) (set : RrSet) (rrs : List Rr) (sigs : List Rrsig) (keys : List CachedKey)
      → unmarked (mark_all l c now n set rrs sigs keys).0 ≡ unmarked keys
  unfolding mark_all
  unmarked-mark_all n set rrs [] keys = refl
  unmarked-mark_all n set rrs (sig ∷ sigs) keys =
      unmarked-mark_all n set rrs sigs (mark_keys l c now n set rrs sig keys).0
      ∙ unmarked-mark_keys n set rrs sig keys

  unmarked-ksk_unpacked :
      (n : Node) (set : RrSet) (keys : List CachedKey) (unpacked : Option (List Rr))
      → unmarked (ksk_unpacked l c now n set keys unpacked).1 ≡ unmarked keys
  unfolding ksk_unpacked
  unmarked-ksk_unpacked n set keys none = refl
  unmarked-ksk_unpacked n set keys (some rrs) =
      unmarked-mark_all n set rrs (rrsigs_covering l.dns n type_dnskey) keys

  pub unmarked-check_dnskey_signed_by_ksk :
      (st : Store l) (keys : List CachedKey)
      → unmarked (check_dnskey_signed_by_ksk l c now st keys).1 ≡ unmarked keys
  unfolding check_dnskey_signed_by_ksk
  unmarked-check_dnskey_signed_by_ksk st keys = elim (Option-cases (apex l st)) [
    | inl absent ↦ rw (absent, check_dnskey_signed_by_ksk) refl
    | inr (n, found) ↦ elim (Option-cases (Node.set n type_dnskey)) [
      | inl absent ↦ rw (found, absent, check_dnskey_signed_by_ksk) refl
      | inr (set, here) ↦
          rw (found, here, check_dnskey_signed_by_ksk)
            (unmarked-ksk_unpacked n set keys (unpack l.dns set n.name))
    ]
  ]

  -- A key with the signing flag verifies one of the signatures.
  unfoldable pub is_ksk_signed : Node → RrSet → List Rr → List Rrsig → List CachedKey → Bool
  unfolding ksk_signs
  is_ksk_signed n set rrs sigs keys = any (λ sig. any (ksk_signs l c now n set rrs sig) keys) sigs

  lacks_in : Node → RrSet → List CachedKey → Option (List Rr) → Bool
  lacks_in n set keys none = false
  lacks_in n set keys (some rrs) =
      not (is_ksk_signed n set rrs (rrsigs_covering l.dns n type_dnskey) keys)

  -- The apex has readable keys, and none with the signing flag verifies a signature over them.
  unfoldable pub lacks_ksk : Store l → List CachedKey → Bool
  unfolding lacks_in
  lacks_ksk st keys = elim (apex l st) [
    | none ↦ false
    | some n ↦ elim (Node.set n type_dnskey) [
      | none ↦ false
      | some set ↦ lacks_in n set keys (unpack l.dns set n.name)
    ]
  ]

  module _ (n : Node) (set : RrSet) where
    signs-mark_keys :
        (rrs : List Rr) (sig : Rrsig) (keys : List CachedKey)
        → (mark_keys l c now n set rrs sig keys).1 ≡ any (ksk_signs l c now n set rrs sig) keys
    unfolding mark_keys
    signs-mark_keys rrs sig [] = refl
    signs-mark_keys rrs sig (k ∷ ks) = ground (arith, signs-mark_keys rrs sig ks)

    kept-mark_keys :
        (rrs : List Rr) (sig sig' : Rrsig) (keys : List CachedKey)
        → any (ksk_signs l c now n set rrs sig') (mark_keys l c now n set rrs sig keys).0
          ≡ any (ksk_signs l c now n set rrs sig') keys
    unfolding mark_keys ksk_signs
    kept-mark_keys rrs sig sig' [] = refl
    kept-mark_keys rrs sig sig' (k ∷ ks) = ground (arith, kept-mark_keys rrs sig sig' ks)

    kept-all :
        (rrs : List Rr) (sig : Rrsig) (sigs : List Rrsig) (keys : List CachedKey)
        → is_ksk_signed n set rrs sigs (mark_keys l c now n set rrs sig keys).0
          ≡ is_ksk_signed n set rrs sigs keys
    unfolding is_ksk_signed
    kept-all rrs sig [] keys = refl
    kept-all rrs sig (sig' ∷ sigs) keys =
        ground (arith, kept-mark_keys rrs sig sig' keys, kept-all rrs sig sigs keys)

    signs-mark_all :
        (rrs : List Rr) (sigs : List Rrsig) (keys : List CachedKey)
        → (mark_all l c now n set rrs sigs keys).1 ≡ is_ksk_signed n set rrs sigs keys
    unfolding mark_all is_ksk_signed
    signs-mark_all rrs [] keys = refl
    signs-mark_all rrs (sig ∷ sigs) keys = ground (
      arith,
      signs-mark_keys rrs sig keys,
      kept-all rrs sig sigs keys,
      signs-mark_all rrs sigs (mark_keys l c now n set rrs sig keys).0,
    )

    errors-ksk_unpacked :
        (keys : List CachedKey) (unpacked : Option (List Rr))
        → errors (ksk_unpacked l c now n set keys unpacked).0 ≡ lacks_in n set keys unpacked
    unfolding ksk_unpacked lacks_in new_finding
    errors-ksk_unpacked keys none = refl
    errors-ksk_unpacked keys (some rrs) =
        ground (arith, signs-mark_all rrs (rrsigs_covering l.dns n type_dnskey) keys)

  pub errors-check_dnskey_signed_by_ksk :
      (st : Store l) (keys : List CachedKey)
      → errors (check_dnskey_signed_by_ksk l c now st keys).0 ≡ lacks_ksk st keys
  unfolding check_dnskey_signed_by_ksk lacks_ksk
  errors-check_dnskey_signed_by_ksk st keys = elim (Option-cases (apex l st)) [
    | inl absent ↦ rw (absent, check_dnskey_signed_by_ksk, lacks_ksk) refl
    | inr (n, found) ↦ elim (Option-cases (Node.set n type_dnskey)) [
      | inl absent ↦ rw (found, absent, check_dnskey_signed_by_ksk, lacks_ksk) refl
      | inr (set, here) ↦
          rw (found, here, check_dnskey_signed_by_ksk, lacks_ksk)
            (errors-ksk_unpacked n set keys (unpack l.dns set n.name))
    ]
  ]
