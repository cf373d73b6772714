-- ===== src/Monitor/Runtime/Schedule.antt =====
-- When a zone is refreshed next.
use dnssec_auditor.Common.{ℕ, ◌+◌, ◌*◌, ◌≤◌, ◌<◌, true, false, ◌≡◌, arith}
use dnssec_auditor.Zone.Store.{Libs}
use dnssec_auditor.Dnssec.Findings.{Time}
use dnssec_auditor.Monitor.Runtime.{RefreshConfig, base_delay, schedule, ZoneRuntime, second}

-- The bounds of a configuration are in order.
abbrev pub InOrder : RefreshConfig → Type 0
InOrder cfg = (cfg.min_interval ≤ cfg.max_interval) × (cfg.retry_min ≤ cfg.retry_max)

-- With bounds in order, the delay after a success lies between the shortest and the longest interval,
-- and that after a failure between the shortest and the longest retry, whatever the SOA says.
pub base_delay_bounds :
    (cfg : RefreshConfig) (refresh retry : ℕ)
    → InOrder cfg
    → (cfg.min_interval ≤ base_delay cfg refresh retry false)
      × (base_delay cfg refresh retry false ≤ cfg.max_interval)
      × (cfg.retry_min ≤ base_delay cfg refresh retry true)
      × (base_delay cfg refresh retry true ≤ cfg.retry_max)
unfolding base_delay
base_delay_bounds cfg refresh retry h = ground arith

-- Before the jitter the delay after a success is the refresh interval of the SOA, wherever that lies
-- between the bounds.
pub base_delay_exact :
    (cfg : RefreshConfig) (refresh retry : ℕ)
    → 0 < refresh
    → cfg.min_interval ≤ refresh * second
    → refresh * second ≤ cfg.max_interval
    → base_delay cfg refresh retry false ≡ refresh * second
unfolding base_delay
base_delay_exact cfg refresh retry p q r = ground arith

module _ {l : Libs} where
  -- With a jitter that never lengthens a delay, a zone is due no later than the longest interval after
  -- a success, and no later than the longest retry after a failure.
  pub schedule_bounds :
      (jitter : ℕ → ℕ) (now : Time) (cfg : RefreshConfig) (refresh retry : ℕ) (z : ZoneRuntime l)
      → ((d : ℕ) → jitter d ≤ d)
      → ((schedule jitter now cfg refresh retry false z).next_refresh ≤ now + cfg.max_interval)
        × ((schedule jitter now cfg refresh retry true z).next_refresh ≤ now + cfg.retry_max)
  unfolding schedule base_delay
  schedule_bounds jitter now cfg refresh retry z short =
      ground (
        arith,
        short (base_delay cfg refresh retry false),
        short (base_delay cfg refresh retry true),
      )
