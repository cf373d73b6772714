-- ===== src/Monitor/Zones/Ticks.antt =====
-- What the tickers do to the state of a zone.
use dnssec_auditor.Common.{◌≤◌, ◌<◌, Bool, true, false, Option, none, some, ◌≡◌, ◌≢◌, ◌⊎◌, arith}
use dnssec_auditor.Zone.Store.{Libs}
use dnssec_auditor.Dnssec.Findings.{Time, Set, has_errors}
use dnssec_auditor.Dnssec.Result.{Verifier}
use dnssec_auditor.Monitor.Runtime.{
  transferring, verifying, valid, invalid, stale, ZoneRuntime, set_state, last_terminal_state,
  is_terminal_state,
}
use dnssec_auditor.Monitor.Runtime.States.{last_terminal_state-terminal}
use dnssec_auditor.Monitor.Zones.{tick, sweep}

abbrev pub findings_have_errors : Option Set → Bool
findings_have_errors none = false
findings_have_errors (some f) = has_errors f

module _ {l : Libs} where
  -- After a tick a zone with no refresh under way is neither transferring nor verifying.
  pub tick-settled :
      (now : Time) (z : ZoneRuntime l)
      → z.refreshing ≡ false
      → ((tick now z).0.state ≢ transferring) × ((tick now z).0.state ≢ verifying)
  unfolding tick set_state is_terminal_state
  tick-settled now z idle = (
    λ e. ground (arith, last_terminal_state-terminal z),
    λ e. ground (arith, last_terminal_state-terminal z),
  )

  -- A zone whose expiry is set and past is stale after a tick.
  pub tick-stale :
      (now : Time) (z : ZoneRuntime l)
      → 0 < z.expire_at
      → z.expire_at < now
      → (tick now z).0.state ≡ stale
  unfolding tick set_state
  tick-stale now z p q = ground arith

  -- Up to its expiry, a tick leaves a zone stale only if it was so or had stale as its last terminal
  -- state.
  pub tick-fresh :
      (now : Time) (z : ZoneRuntime l)
      → now ≤ z.expire_at
      → (tick now z).0.state ≡ stale
      → (z.state ≡ stale) ⊎ (last_terminal_state z ≡ stale)
  unfolding tick set_state
  tick-fresh now z p q = ground arith

  -- A sweep changes no state but from valid to invalid, and that only if the findings then have an
  -- error.
  pub sweep-state :
      (now : Time) (v : Verifier l) (z : ZoneRuntime l)
      → ((sweep now v z).0.state ≡ z.state)
        ⊎ ((z.state ≡ valid)
            × ((sweep now v z).0.state ≡ invalid)
            × (findings_have_errors (sweep now v z).0.findings ≡ true))
  unfolding sweep set_state
  sweep-state now v z = ground arith
