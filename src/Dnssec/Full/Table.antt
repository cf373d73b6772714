-- ===== src/Dnssec/Full/Table.antt =====
-- The table of all codes with their severities, and that a code settles its severity.
use dnssec_auditor.Common.{
  Str, str_eq, ◌==◌, Bool, true, false, not, ◌&&◌, List, [], ◌∷◌, ◌++◌, All, contains, codes,
  String, ◌≡◌, refl, arith, Bool-cases, inl, inr, subst, sym, ◌∙◌,
}
use dnssec_auditor.Common.Decimal.{NoBar}
use dnssec_auditor.Dnssec.Findings.{Finding, Severity, error, warning, severity_eqb, key}
use dnssec_auditor.Dnssec.Findings.Keys.{key_inj}
use dnssec_auditor.Dnssec.Findings.Errors.{IsDecisive}
use dnssec_auditor.Dnssec.Codes.{
  outside, HasSignatureCodes, HasNodeCodes, HasHygieneCodes, HasZoneCodes,
}

node_errors : List Str
node_errors =
    codes "RRSIG_MISSING"
    ∷ codes "RRSIG_INVALID"
    ∷ codes "RRSIG_EXPIRED"
    ∷ codes "RRSIG_NOT_YET_VALID"
    ∷ codes "RRSIG_UNKNOWN_KEY"
    ∷ codes "RRSIG_LABELS_MISMATCH"
    ∷ codes "NSEC_MISSING"
    ∷ codes "NSEC_BITMAP_MISMATCH"
    ∷ codes "NSEC3_MISSING"
    ∷ codes "NSEC3_BITMAP_MISMATCH"
    ∷ codes "NSEC3_OPTOUT_VIOLATION"
    ∷ codes "NSEC3_CHAIN_BROKEN"
    ∷ []

zone_errors : List Str
zone_errors =
    codes "NSEC_CHAIN_BROKEN"
    ∷ codes "NSEC3PARAM_MISMATCH"
    ∷ codes "KEYTAG_COLLISION_LIMIT"
    ∷ codes "DNSKEY_NOT_SIGNED_BY_KSK"
    ∷ codes "ZONEMD_MISMATCH"
    ∷ codes "ZONEMD_MISSING"
    ∷ []

warnings : List Str
warnings =
    codes "RRSIG_TTL_MISMATCH"
    ∷ codes "RRSIG_EXPIRING_SOON"
    ∷ codes "NSEC3_ITERATIONS_NONZERO"
    ∷ codes "NSEC3_SALT_PRESENT"
    ∷ codes "NSEC3_OPTOUT_ON_ZERO_DELEGATIONS"
    ∷ codes "DEPRECATED_ALGORITHM"
    ∷ codes "DNSKEY_UNUSED"
    ∷ []

-- What the check of a node, of an NSEC3 and of the hygiene report.
unfoldable pub node_table : String → Severity → Bool
unfolding node_errors warnings
node_table code error = contains (codes code) node_errors
node_table code warning = contains (codes code) warnings

-- Those, and what only the checks of a whole zone report.
unfoldable pub table : String → Severity → Bool
unfolding node_errors zone_errors warnings
table code error = contains (codes code) (node_errors ++ zone_errors)
table code warning = contains (codes code) warnings

pub signature_codes : HasSignatureCodes node_table
unfolding node_table node_errors warnings
signature_codes = record {
  missing = refl;
  invalid = refl;
  expired = refl;
  not_yet_valid = refl;
  unknown_key = refl;
  labels_mismatch = refl;
  ttl_mismatch = refl;
  expiring_soon = refl;
}

hygiene_codes : HasHygieneCodes node_table
unfolding node_table warnings
hygiene_codes = record {
  iterations = refl;
  salt = refl;
  optout_zero = refl;
  deprecated = refl;
  unused = refl;
}

pub node_codes : HasNodeCodes node_table
unfolding node_table node_errors warnings
node_codes = record {
  signatures = signature_codes;
  nsec_missing = refl;
  nsec_bitmap = refl;
  nsec3_missing = refl;
  nsec3_bitmap = refl;
  optout_violation = refl;
  nsec3_chain = refl;
  hygiene = hygiene_codes;
}

pub zone_codes : HasZoneCodes table
unfolding table node_errors zone_errors warnings
zone_codes = record {
  nsec3_chain = refl;
  nsec_chain = refl;
  param_mismatch = refl;
  collision = refl;
  not_signed_by_ksk = refl;
  zonemd_mismatch = refl;
  zonemd_missing = refl;
}

contains-All : (P : Str → Type 0) (x : Str) (xs : List Str) → All P xs → contains x xs ≡ true → P x
contains-All P x [] h e = cc
contains-All P x (y ∷ ys) h e = elim (Bool-cases (y == x)) [
  | inl same ↦ subst P ((str_eq.beq_iff y x).0 same) h.0
  | inr other ↦ contains-All P x ys h.1 (rw other at e)
]

errors-NoBar : All NoBar (node_errors ++ zone_errors)
unfolding node_errors zone_errors
errors-NoBar = search

warnings-NoBar : All NoBar warnings
unfolding warnings
warnings-NoBar = search

table-NoBar : (code : String) (s : Severity) → table code s ≡ true → NoBar (codes code)
unfolding table
table-NoBar code error h =
    contains-All NoBar (codes code) (node_errors ++ zone_errors) errors-NoBar h
table-NoBar code warning h = contains-All NoBar (codes code) warnings warnings-NoBar h

-- No code is an error and a warning.
apart : All (λ x. contains x warnings ≡ false) (node_errors ++ zone_errors)
unfolding node_errors zone_errors warnings
apart = search

one_severity :
    (a b : String)
    → table a error ≡ true
    → table b warning ≡ true
    → codes a ≡ codes b
    → false ≡ true
unfolding table
one_severity a b ha hb e =
    let none : contains (codes a) warnings ≡ false =
      contains-All (λ x. contains x warnings ≡ false) (codes a) (node_errors ++ zone_errors) apart
        ha in
    let some : contains (codes a) warnings ≡ true =
      subst (λ x. contains x warnings ≡ true) (sym e) hb in
    sym none ∙ some

pub table-IsDecisive : IsDecisive table
table-IsDecisive = record { no_bar = table-NoBar; one = one }
  where
    one :
        (a b : String) (s t : Severity)
        → table a s ≡ true
        → table b t ≡ true
        → codes a ≡ codes b
        → severity_eqb s error ≡ severity_eqb t error
    one a b error error ha hb e = refl
    one a b warning warning ha hb e = refl
    one a b error warning ha hb e = sym (one_severity a b ha hb e)
    one a b warning error ha hb e = one_severity b a hb ha (sym e)

pub contains-append :
    (x : Str) (xs ys : List Str) → contains x xs ≡ true → contains x (xs ++ ys) ≡ true
contains-append x [] ys h = cc
contains-append x (y ∷ xs) ys h = ground (arith, contains-append x xs ys)

widen : (code : String) (s : Severity) → node_table code s ≡ true → table code s ≡ true
unfolding node_table table
widen code error h = contains-append (codes code) node_errors zone_errors h
widen code warning h = h

-- What is in the table of a node's codes is in the table of all codes.
pub outside_widened : (fs : List Finding) → outside node_table fs ≡ false → outside table fs ≡ false
outside_widened [] h = refl
outside_widened (f ∷ fs) h = ground (arith, widen f.code f.severity, outside_widened fs)

-- The code stands in the table of all codes, but not in that of a node's.
unfoldable pub is_zone_only : Finding → Bool
is_zone_only z =
    table z.code z.severity && (not (node_table z.code error) && not (node_table z.code warning))

zone_only :
    (z : Finding)
    → is_zone_only z ≡ true
    → (table z.code z.severity ≡ true)
      × (node_table z.code error ≡ false)
      × (node_table z.code warning ≡ false)
unfolding is_zone_only
zone_only z h = ground (arith, h)

node_table-codes :
    (a b : String) (s : Severity)
    → codes a ≡ codes b
    → node_table a s ≡ true
    → node_table b s ≡ true
unfolding node_table
node_table-codes a b error e h = subst (λ x. contains x node_errors ≡ true) e h
node_table-codes a b warning e h = subst (λ x. contains x warnings ≡ true) e h

not_both :
    (a : String) (s : Severity)
    → node_table a error ≡ false
    → node_table a warning ≡ false
    → node_table a s ≡ false
not_both a error he hw = he
not_both a warning he hw = hw

-- A finding of a node's check has another key than one of a check of a whole zone.
pub key-is_zone_only :
    (f z : Finding)
    → node_table f.code f.severity ≡ true
    → is_zone_only z ≡ true
    → (key f == key z) ≡ false
key-is_zone_only f z hf hz =
    let only = zone_only z hz in
    let bar : NoBar (codes f.code) = table-NoBar f.code f.severity (widen f.code f.severity hf) in
    let bar' : NoBar (codes z.code) = table-NoBar z.code z.severity only.0 in
    elim (Bool-cases (key f == key z)) [
      | inr other ↦ other
      | inl same ↦
          let alike = (key_inj f z bar bar' ((str_eq.beq_iff (key f) (key z)).0 same)).0 in
          let one = node_table-codes f.code z.code f.severity alike hf in
          let other = not_both z.code f.severity only.1 only.2 in same ∙ sym one ∙ other
    ]
