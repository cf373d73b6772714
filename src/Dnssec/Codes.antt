-- ===== src/Dnssec/Codes.antt =====
-- The codes and severities of internal/dnssec/findings.go that each check uses. A table of pairs of a
-- code and a severity is a test `p`; the findings that a check adds are in the table if the pairs
-- that the check uses are.
use dnssec_auditor.Common.{Bool, true, not, ◌||◌, List, ◌++◌, String, any, any-append, ◌≡◌}
use dnssec_auditor.Dnssec.Findings.{Finding, Severity, error, warning}

abbrev pub Table : Type 0
Table = String → Severity → Bool

-- A finding is outside of the table.
abbrev pub outside : Table → List Finding → Bool
outside p fs = any (λ f. not (p f.code f.severity)) fs

pub outside-append :
    (p : Table) (fs gs : List Finding) → outside p (fs ++ gs) ≡ outside p fs || outside p gs
outside-append p fs gs = any-append (λ f. not (p f.code f.severity)) fs gs

-- The pairs that the check of an RRset uses.
pub record HasSignatureCodes (p : Table) : Type 0 where
  pub missing : p "RRSIG_MISSING" error ≡ true
  pub invalid : p "RRSIG_INVALID" error ≡ true
  pub expired : p "RRSIG_EXPIRED" error ≡ true
  pub not_yet_valid : p "RRSIG_NOT_YET_VALID" error ≡ true
  pub unknown_key : p "RRSIG_UNKNOWN_KEY" error ≡ true
  pub labels_mismatch : p "RRSIG_LABELS_MISMATCH" error ≡ true
  pub ttl_mismatch : p "RRSIG_TTL_MISMATCH" warning ≡ true
  pub expiring_soon : p "RRSIG_EXPIRING_SOON" warning ≡ true

-- The pairs that the hygiene uses.
pub record HasHygieneCodes (p : Table) : Type 0 where
  pub iterations : p "NSEC3_ITERATIONS_NONZERO" warning ≡ true
  pub salt : p "NSEC3_SALT_PRESENT" warning ≡ true
  pub optout_zero : p "NSEC3_OPTOUT_ON_ZERO_DELEGATIONS" warning ≡ true
  pub deprecated : p "DEPRECATED_ALGORITHM" warning ≡ true
  pub unused : p "DNSKEY_UNUSED" warning ≡ true

-- The pairs that the checks of a node and of an NSEC3 use, and those above.
pub record HasNodeCodes (p : Table) : Type 0 where
  pub signatures : HasSignatureCodes p
  pub nsec_missing : p "NSEC_MISSING" error ≡ true
  pub nsec_bitmap : p "NSEC_BITMAP_MISMATCH" error ≡ true
  pub nsec3_missing : p "NSEC3_MISSING" error ≡ true
  pub nsec3_bitmap : p "NSEC3_BITMAP_MISMATCH" error ≡ true
  pub optout_violation : p "NSEC3_OPTOUT_VIOLATION" error ≡ true
  pub nsec3_chain : p "NSEC3_CHAIN_BROKEN" error ≡ true
  pub hygiene : HasHygieneCodes p

-- The pairs that only the checks of a whole zone use, and the one that they share with those of a node.
pub record HasZoneCodes (p : Table) : Type 0 where
  pub nsec3_chain : p "NSEC3_CHAIN_BROKEN" error ≡ true
  pub nsec_chain : p "NSEC_CHAIN_BROKEN" error ≡ true
  pub param_mismatch : p "NSEC3PARAM_MISMATCH" error ≡ true
  pub collision : p "KEYTAG_COLLISION_LIMIT" error ≡ true
  pub not_signed_by_ksk : p "DNSKEY_NOT_SIGNED_BY_KSK" error ≡ true
  pub zonemd_mismatch : p "ZONEMD_MISMATCH" error ≡ true
  pub zonemd_missing : p "ZONEMD_MISSING" error ≡ true
