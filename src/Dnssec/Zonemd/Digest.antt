-- ===== src/Dnssec/Zonemd/Digest.antt =====
-- Which digests of a zone are accepted, and when the check of them reports an error.
use dnssec_auditor.Common.{
  ℕ, ◌<◌, Str, str_eq, nat_eq, ◌==◌, Bool, Bool-cases, inl, inr, true, false, not, ◌&&◌, ◌||◌,
  Option, is_some, none, some, List, [], ◌∷◌, ◌++◌, All, any, any-append, codes, ◌≡◌, ◌∙◌, ◌↔◌, sym,
  ap, subst, refl, arith, if◌then◌else◌,
}
use dnssec_auditor.Common.Text.{to_lower}
use dnssec_auditor.Dns.{Rr, type_zonemd}
use dnssec_auditor.Zone.Node.{Node, unpack_type}
use dnssec_auditor.Common.Sort.{sort_by}
use dnssec_auditor.Zone.Store.{Libs, Store, apex}
use dnssec_auditor.Zone.Store.Records.{all_rrs}
use mathlib.Core.List.{Memᴰ}
use mathlib.Core.List.Memᴰ
use dnssec_auditor.Dnssec.Findings.{Time, Finding, error, severity_eqb, new_finding}
use dnssec_auditor.Dnssec.Findings.Errors.{errors}
use dnssec_auditor.Dnssec.Crypto.{Crypto}
use dnssec_auditor.Dnssec.Zonemd.{
  Zonemd, digest_rrs, sum_with, wire_of, rr_leb, as_zonemd, hex_decode, compute_zonemd, mismatch,
  compare_digest, check_one, check_all, zonemd_of, verify_zonemd,
}
use dnssec_auditor.Dnssec.Zonemd.Hex.{some_inj, compared}

-- What SHA-384 and SHA-512 write is bytes.
pub record WritesBytes (c : Crypto) : Type 0 where
  pub sha384 : (s : Str) → All (λ b. b < 256) (c.sha384 s)
  pub sha512 : (s : Str) → All (λ b. b < 256) (c.sha512 s)

module _ (l : Libs) (c : Crypto) (now : Time) where
  open l use {dns}

  -- The record is a ZONEMD that has, as hexadecimal text in either case, the digest of the zone for its
  -- scheme and hash.
  abbrev pub HasDigest : Store l → Option Zonemd → Type 0
  HasDigest st o =
      (z : Zonemd) × (digest : Str) × (o ≡ some z)
      × (compute_zonemd l c now st z.scheme z.hash ≡ some digest)
      × (hex_decode z.digest ≡ some digest)

  -- The record is a ZONEMD, and the zone has no digest for its scheme and hash, or its own is no
  -- hexadecimal text.
  abbrev pub is_unusable : Store l → Option Zonemd → Bool
  is_unusable st none = false
  is_unusable st (some z) =
      not (is_some (compute_zonemd l c now st z.scheme z.hash) && is_some (hex_decode z.digest))

  sum_bytes :
      WritesBytes c
      → (alg : ℕ) (wire : Option Str) (digest : Str) → sum_with l.dns c alg wire ≡ some digest
      → All (λ b. b < 256) digest
  unfolding sum_with
  sum_bytes h alg none digest e = cc
  sum_bytes h alg (some wire) digest e = elim (Bool-cases (alg == 1)) [
    | inl first ↦
        let this : c.sha384 wire ≡ digest = some_inj (rw first refl ∙ e) in
        subst (All (λ b. b < 256)) this (h.sha384 wire)
    | inr second ↦
        let this : c.sha512 wire ≡ digest = some_inj (rw second refl ∙ e) in
        subst (All (λ b. b < 256)) this (h.sha512 wire)
  ]

  digest_bytes :
      WritesBytes c
      → (scheme alg : ℕ) (rrs : Option (List Rr)) (digest : Str)
      → digest_rrs dns c scheme alg rrs ≡ some digest
      → All (λ b. b < 256) digest
  unfolding digest_rrs
  digest_bytes h scheme alg none digest e = cc
  digest_bytes h scheme alg (some rrs) digest e =
      sum_bytes h alg (wire_of dns c scheme (sort_by (rr_leb dns c) rrs)) digest e

  -- A digest of the zone is bytes.
  compute_zonemd_bytes :
      WritesBytes c
      → (st : Store l) (scheme alg : ℕ) (digest : Str)
      → compute_zonemd l c now st scheme alg ≡ some digest
      → All (λ b. b < 256) digest
  unfolding compute_zonemd
  compute_zonemd_bytes h st scheme alg digest e = elim (Bool-cases (alg == 1 || alg == 2)) [
    | inl known ↦ digest_bytes h scheme alg (all_rrs l st) digest (rw known refl ∙ e)
    | inr unknown ↦ ground (arith, unknown, e)
  ]

  errors-compare_digest :
      (st : Store l) (said : Str) (digest want : Option Str)
      → errors (compare_digest l c now st said digest want).0 ≡ not (is_some digest && is_some want)
  unfolding compare_digest mismatch new_finding
  errors-compare_digest st said none want = refl
  errors-compare_digest st said (some digest) none = refl
  errors-compare_digest st said (some digest) (some want) = refl

  errors-check_one :
      (st : Store l) (o : Option Zonemd) → errors (check_one l c now st o).0 ≡ is_unusable st o
  unfolding check_one
  errors-check_one st none = refl
  errors-check_one st (some z) =
      errors-compare_digest st z.digest (compute_zonemd l c now st z.scheme z.hash)
        (hex_decode z.digest)

  errors-check_all :
      (st : Store l) (rrs : List Rr)
      → errors (check_all l c now st rrs).0 ≡ any (λ r. is_unusable st (as_zonemd r.rdata)) rrs
  unfolding check_all
  errors-check_all st [] = refl
  errors-check_all st (rr ∷ rrs) =
      any-append (λ f. severity_eqb f.severity error) (check_one l c now st (as_zonemd rr.rdata)).0
        (check_all l c now st rrs).0
      ∙ rw (errors-check_one st (as_zonemd rr.rdata), errors-check_all st rrs) refl

  compare_digest_iff :
      (st : Store l) (said : Str) (digest want : Option Str)
      → ((d : Str) → digest ≡ some d → All (λ b. b < 256) d)
      → hex_decode said ≡ want
      → ((compare_digest l c now st said digest want).1 ≡ true)
        ↔ (d : Str) × (digest ≡ some d) × (want ≡ some d)
  unfolding compare_digest
  compare_digest_iff st said none want hb hd = (λ e. cc, λ t. cc)
  compare_digest_iff st said (some digest) none hb hd = (λ e. cc, λ t. cc)
  compare_digest_iff st said (some digest) (some want) hb hd =
      let equal = compared said digest want (hb digest refl) hd in
      (
        λ e.
            let same : digest ≡ want = (str_eq.beq_iff digest want).0 (sym equal ∙ e) in
            (digest, refl, ap some (sym same)),
        λ t. equal ∙ (str_eq.beq_iff digest want).1 (some_inj (t.1 ∙ sym t.2)),
      )

  -- What the check makes of the loop over the records.
  judged : Store l → List Rr → List Finding × Bool × Bool
  judged st rrs =
      let checked = check_all l c now st rrs in
      (
        checked.0 ++ (if checked.1 then [] else mismatch l c now st "ZONEMD digest mismatch" ∷ []),
        true,
        checked.1,
      )

  errors-judged :
      (st : Store l) (rrs : List Rr)
      → errors (judged st rrs).0
        ≡ not (check_all l c now st rrs).1 || any (λ r. is_unusable st (as_zonemd r.rdata)) rrs
  unfolding judged mismatch new_finding
  errors-judged st rrs =
      let checked = check_all l c now st rrs in
      any-append (λ f. severity_eqb f.severity error) checked.0
        (if checked.1 then [] else mismatch l c now st "ZONEMD digest mismatch" ∷ [])
      ∙ ground (arith, errors-check_all st rrs)

  opened :
      (mode : Str) (st : Store l) (n : Node) (rr : Rr) (rrs : List Rr)
      → apex l st ≡ some n
      → unpack_type dns n type_zonemd ≡ some (rr ∷ rrs)
      → (to_lower mode == codes "off") ≡ false
      → verify_zonemd l c now mode st ≡ judged st (rr ∷ rrs)
  unfolding verify_zonemd zonemd_of judged
  opened mode st n rr rrs ha hu hm = rw (ha, hu, hm, verify_zonemd, zonemd_of) refl

  module _ (h : WritesBytes c) where
    check_one_iff :
        (st : Store l) (o : Option Zonemd) → ((check_one l c now st o).1 ≡ true) ↔ HasDigest st o
    unfolding check_one
    check_one_iff st none = (λ e. cc, λ t. cc)
    check_one_iff st (some z) =
        let one =
          compare_digest_iff st z.digest (compute_zonemd l c now st z.scheme z.hash)
            (hex_decode z.digest) (compute_zonemd_bytes h st z.scheme z.hash) refl in
        (
          λ e. (z, (one.0 e).0, refl, (one.0 e).1, (one.0 e).2),
          λ t. let same : z ≡ t.0 = cc in one.1 (t.1, rw same t.3, rw same t.4),
        )

    check_all_iff :
        (st : Store l) (rrs : List Rr)
        → ((check_all l c now st rrs).1 ≡ true)
          ↔ (rr : Rr) × Memᴰ rr rrs × HasDigest st (as_zonemd rr.rdata)
    unfolding check_all
    check_all_iff st [] = (λ e. cc, λ t. absurd (Memᴰ.not-nil t.1))
    check_all_iff st (rr ∷ rrs) =
        let one = check_one_iff st (as_zonemd rr.rdata) in
        let rest = check_all_iff st rrs in
        (
          λ e. elim (Bool-cases (check_one l c now st (as_zonemd rr.rdata)).1) [
            | inl here ↦ (rr, Memᴰ.head refl, one.0 here)
            | inr apart ↦
                let there = rest.0 (ground (arith, apart, e)) in
                (there.0, Memᴰ.tail there.1, there.2)
          ],
          λ t. elim (Memᴰ.cases_cons t.1) [
            | inl same ↦ rw (one.1 (subst (λ r. HasDigest st (as_zonemd r.rdata)) same t.2)) refl
            | inr later ↦ ground (arith, rest.1 (t.0, later, t.2))
          ],
        )

    -- Unless it is off, the check of a zone whose apex has ZONEMD records, all of which unpack, notes that
    -- the digest was checked, provided that SHA-384 and SHA-512 write bytes. It notes that the digest is
    -- right exactly if one of the records has, as hexadecimal text in either case, the digest that the
    -- zone has for the record's scheme and hash. It reports an error exactly if none has, or one of them
    -- is unusable: the zone has no digest for its scheme and hash, or its own is no hexadecimal text.
    pub verify_zonemd_iff :
        (mode : Str) (st : Store l) (n : Node) (rr : Rr) (rrs : List Rr)
        → apex l st ≡ some n
        → unpack_type dns n type_zonemd ≡ some (rr ∷ rrs)
        → (to_lower mode == codes "off") ≡ false
        → ((verify_zonemd l c now mode st).1 ≡ true)
          × (((verify_zonemd l c now mode st).2 ≡ true)
              ↔ (r : Rr) × Memᴰ r (rr ∷ rrs) × HasDigest st (as_zonemd r.rdata))
          × (errors (verify_zonemd l c now mode st).0
              ≡ not (verify_zonemd l c now mode st).2
                || any (λ r. is_unusable st (as_zonemd r.rdata)) (rr ∷ rrs))
    unfolding judged
    verify_zonemd_iff mode st n rr rrs ha hu hm =
        rw (opened mode st n rr rrs ha hu hm)
          (refl, check_all_iff st (rr ∷ rrs), errors-judged st (rr ∷ rrs))
