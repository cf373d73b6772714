-- ===== src/Dnssec/Zonemd/Codes.antt =====
-- The codes of the check of the digest.
use dnssec_auditor.Common.{
  Str, str_eq, false, Option, none, some, List, [], ◌∷◌, if◌then◌else◌, ◌≡◌, refl, arith,
  Option-cases, inl, inr,
}
use dnssec_auditor.Common.Text.{to_lower}
use dnssec_auditor.Dns.{Rr, type_zonemd}
use dnssec_auditor.Zone.Node.{unpack_type}
use dnssec_auditor.Zone.Store.{Libs, Store, apex}
use dnssec_auditor.Dnssec.Findings.{Time, new_finding}
use dnssec_auditor.Dnssec.Crypto.{Crypto}
use dnssec_auditor.Dnssec.Codes.{Table, outside, outside-append, HasZoneCodes}
use dnssec_auditor.Dnssec.Zonemd.{
  Zonemd, as_zonemd, hex_decode, compute_zonemd, mismatch, compare_digest, check_one, check_all,
  zonemd_of, verify_zonemd,
}

module _ (l : Libs) (c : Crypto) (now : Time) (p : Table) (h : HasZoneCodes p) where
  outside-compare_digest :
      (st : Store l) (said : Str) (digest want : Option Str)
      → outside p (compare_digest l c now st said digest want).0 ≡ false
  unfolding compare_digest mismatch new_finding
  outside-compare_digest st said none want = ground (arith, h.zonemd_mismatch)
  outside-compare_digest st said (some digest) none = ground (arith, h.zonemd_mismatch)
  outside-compare_digest st said (some digest) (some want) = refl

  outside-check_one :
      (st : Store l) (z : Option Zonemd) → outside p (check_one l c now st z).0 ≡ false
  unfolding check_one
  outside-check_one st none = refl
  outside-check_one st (some z) =
      outside-compare_digest st z.digest (compute_zonemd l c now st z.scheme z.hash)
        (hex_decode z.digest)

  outside-check_all :
      (st : Store l) (rrs : List Rr) → outside p (check_all l c now st rrs).0 ≡ false
  unfolding check_all
  outside-check_all st [] = refl
  outside-check_all st (rr ∷ rrs) =
      rw outside-append
        (ground (arith, outside-check_one st (as_zonemd rr.rdata), outside-check_all st rrs))

  outside-zonemd_of :
      (mode : Str) (st : Store l) (rrs : Option (List Rr))
      → outside p (zonemd_of l c now mode st rrs).0 ≡ false
  unfolding zonemd_of mismatch new_finding
  outside-zonemd_of mode st none = refl
  outside-zonemd_of mode st (some []) = ground (arith, h.zonemd_missing)
  outside-zonemd_of mode st (some (rr ∷ rrs)) = ground (
    arith,
    h.zonemd_mismatch,
    outside-check_all st (rr ∷ rrs),
    outside-append p (check_all l c now st (rr ∷ rrs)).0 (
        if (check_all l c now st (rr ∷ rrs)).1
        then []
        else mismatch l c now st "ZONEMD digest mismatch" ∷ []),
  )

  pub outside-verify_zonemd :
      (mode : Str) (st : Store l) → outside p (verify_zonemd l c now mode st).0 ≡ false
  unfolding verify_zonemd
  outside-verify_zonemd mode st = elim (Option-cases (apex l st)) [
    | inl absent ↦ rw (absent, verify_zonemd) refl
    | inr (n, found) ↦
        rw (found, verify_zonemd)
          (outside-zonemd_of (to_lower mode) st (unpack_type l.dns n type_zonemd))
  ]
