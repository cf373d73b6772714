-- ===== src/Dnssec/Result.antt =====
-- internal/dnssec/verify.go: the outcome of a verification, and the verifier as the monitor uses it.
use dnssec_auditor.Common.{ℕ, Bool}
use dnssec_auditor.Zone.Store.{Libs, Store, Touched}
use dnssec_auditor.Dnssec.Findings.{Set}

pub data Mode : Type 0 where
  full incremental : Mode

-- Result, without the duration
pub record Result : Type 0 where
  pub findings : Set
  pub mode : Mode
  pub valid : Bool
  pub unsigned : Bool
  pub rrsigs_verified : ℕ
  pub nsec3_checked : ℕ
  pub zonemd_checked : Bool
  pub zonemd_ok : Bool
  pub earliest_expiry : ℕ

-- The methods of Verifier at one instant.
pub record Verifier (l : Libs) : Type 0 where
  pub verify_full : Store l → Result
  pub verify_incremental : Store l → Set → Touched → Result
  pub sweep_expiry : Store l → Set → Set
