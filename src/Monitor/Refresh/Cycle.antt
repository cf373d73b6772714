-- ===== src/Monitor/Refresh/Cycle.antt =====
-- What holds of a zone after a refresh cycle, whatever the network answered.
use dnssec_auditor.Common.{
  ℕ, ◌+◌, nat_eq, ◌==◌, Bool, true, false, not, ◌&&◌, Option, none, some, List, [], ◌∷◌, ◌≡◌, ◌≢◌,
  ◌⊎◌, inl, inr, refl, arith, All, Option-cases, Bool-cases,
}
use dnssec_auditor.Zone.Store.{Libs, Store, Touched, apply_changes}
use dnssec_auditor.Dnssec.Findings.{Time}
use dnssec_auditor.Dnssec.Result as Dnssec
use dnssec_auditor.Dnssec.Result.{Verifier}
use dnssec_auditor.Xfr.Client as Xfr
use dnssec_auditor.Xfr.Client.{SoaResult}
use dnssec_auditor.Monitor.Runtime.{
  State, unknown, transferring, verifying, transfer_failed, Server, ServerStatus, ZoneRuntime,
  set_state, schedule, serial_of, is_terminal_state, try_lock_refresh, unlock_refresh, base_delay,
  RefreshConfig,
}
use dnssec_auditor.Monitor.Runtime.States.{last_terminal_state-terminal}
use dnssec_auditor.Monitor.Manager.{
  Config, World, busy, unreachable, no_store, probe_loop, state_of, detect_skew, method_text,
}
use dnssec_auditor.Monitor.Refresh.{
  refresh, cycle, after_probe, same_serial, transfer, install, use_result, verify_zone, fail_apply,
  fail_transfer, fail_all, fetch, server_of,
}

-- A terminal state, or the state of a zone that was never verified.
abbrev pub IsSettled : State → Type 0
IsSettled s = (is_terminal_state s ≡ true) ⊎ (s ≡ unknown)

-- The best answer is one of the answers, and it is reachable.
abbrev pub IsReachable : Option SoaResult → Type 0
IsReachable none = Unit
IsReachable (some b) = b.reachable ≡ true

pub probe_loop-IsReachable :
    (every : Bool) (now : Time) (probe : Server → SoaResult) (ss : List Server)
    (best : Option SoaResult)
    → IsReachable best
    → IsReachable (probe_loop every now probe ss best).1
unfolding probe_loop
probe_loop-IsReachable every now probe [] best h = h
probe_loop-IsReachable every now probe (s ∷ ss) none h = elim (Bool-cases (probe s).reachable) [
  | inl up ↦ ground (arith, probe_loop-IsReachable every now probe ss (some (probe s)) up)
  | inr down ↦ ground (arith, probe_loop-IsReachable every now probe ss none tt)
]
probe_loop-IsReachable every now probe (s ∷ ss) (some b) h = ground (
  arith,
  probe_loop-IsReachable every now probe ss (some b) h,
  probe_loop-IsReachable every now probe ss (some (probe s)),
)

terminal-state_of : (v : Dnssec.Result) → is_terminal_state (state_of v) ≡ true
unfolding state_of is_terminal_state
terminal-state_of v = ground arith

module _ {l : Libs} (cfg : Config) (v : Verifier l) (w : World l) (force : Bool) where
  -- A zone that is already being refreshed is left alone.
  pub refresh_busy :
      (z : ZoneRuntime l) → z.refreshing ≡ true → refresh cfg v w force z ≡ (z, [], busy)
  unfolding refresh try_lock_refresh
  refresh_busy z h = rw h

  verify_zone-state :
      (best : SoaResult) (tres : Xfr.Result l) (st : Store l) (touched : Option Touched)
      (z : ZoneRuntime l)
      → is_terminal_state (verify_zone cfg v w force best tres st touched z).0.state ≡ true
  unfolding verify_zone schedule set_state
  verify_zone-state best tres st touched z = terminal-state_of _

  same_serial-state :
      (best : SoaResult) (z : ZoneRuntime l) → IsSettled (same_serial cfg v w force best z).0.state
  unfolding same_serial schedule set_state
  same_serial-state best z = elim (Option-cases z.store) [
    | inl nothing ↦ rw (nothing, same_serial) (last_terminal_state-terminal z)
    | inr (st, held) ↦
        ground (arith, held, last_terminal_state-terminal z, terminal-state_of (v.verify_full st))
  ]

  use_result-state :
      (old : ℕ) (best : SoaResult) (tres : Xfr.Result l) (fresh held : Option (Store l))
      (z : ZoneRuntime l)
      → (use_result cfg v w force old best tres fresh held z).2 ≢ no_store
      → is_terminal_state (use_result cfg v w force old best tres fresh held z).0.state ≡ true
  unfolding use_result
  use_result-state old best tres (some st) held z ne = verify_zone-state best tres st none z
  use_result-state old best tres none (some held) z ne =
      let (st, touched, done) = apply_changes l tres.adds tres.removes held in
      elim (Bool-cases done) [
        | inl all ↦ rw all (verify_zone-state best tres st (some touched) z)
        | inr part ↦ rw part (unfold fail_apply set_state is_terminal_state in refl)
      ]
  use_result-state old best tres none none z ne = absurd (ne refl)

  install-state :
      (old : ℕ) (best : SoaResult) (tres : Xfr.Result l) (z : ZoneRuntime l)
      → (install cfg v w force old best tres z).2 ≢ no_store
      → is_terminal_state (install cfg v w force old best tres z).0.state ≡ true
  unfolding install
  install-state old best tres z ne =
      use_result-state old best tres tres.store z.store
        (record z {
          state = verifying;
          last_transfer = w.now;
          last_method = method_text tres.method;
        })
        ne

  transfer-state :
      (old : ℕ) (best : SoaResult) (z : ZoneRuntime l)
      → (transfer cfg v w force old best z).2 ≢ no_store
      → is_terminal_state (transfer cfg v w force old best z).0.state ≡ true
  unfolding transfer
  transfer-state old best z ne =
      let srv : Server = server_of best.server z.servers in
      elim (Option-cases (fetch cfg v w force old srv)) [
        | inl bad ↦
            rw (bad, transfer) (unfold fail_transfer schedule set_state is_terminal_state in refl)
        | inr (tres, got) ↦
            rw (got, transfer)
              (install-state old best tres (record z { state = transferring })
                (rw (got, transfer) at ne))
      ]

  after_probe-state :
      (old : ℕ) (best : Option SoaResult) (z : ZoneRuntime l)
      → (after_probe cfg v w force old best z).2 ≢ no_store
      → IsSettled (after_probe cfg v w force old best z).0.state
  unfolding after_probe fail_all schedule set_state is_terminal_state
  after_probe-state old none z ne = inl refl
  after_probe-state old (some b) z ne =
      elim (Bool-cases (not (old == 0) && (b.serial == old && not force))) [
        | inl same ↦ rw same (same_serial-state b z)
        | inr other ↦ rw other (inl (transfer-state old b z (rw other at ne)))
      ]

  cycle-state :
      (z : ZoneRuntime l)
      → (cycle cfg v w force z).2 ≢ no_store
      → IsSettled (cycle cfg v w force z).0.state
  unfolding cycle
  cycle-state z ne =
      let (stats, best) = probe_loop cfg.refresh.probe_all_servers w.now w.probe z.servers none in
      after_probe-state (serial_of z) best
        (detect_skew cfg.refresh w.now stats (record z { servers_stat = stats })).0 ne

  -- A zone that was free to be refreshed is unlocked after the cycle and, unless the cycle ended with
  -- neither a transferred zone nor a held one, in a terminal state or still unknown: a cycle never
  -- leaves a zone transferring or verifying.
  pub refresh-IsSettled :
      (z : ZoneRuntime l)
      → z.refreshing ≡ false
      → (refresh cfg v w force z).2 ≢ no_store
      → ((refresh cfg v w force z).0.refreshing ≡ false)
        × IsSettled (refresh cfg v w force z).0.state
  unfolding refresh try_lock_refresh unlock_refresh
  refresh-IsSettled z idle ne =
      rw idle
        (refl, cycle-state (record z { refreshing = true; refresh_full = force }) (rw idle at ne))

probe_loop-down :
    (every : Bool) (now : Time) (probe : Server → SoaResult) (ss : List Server)
    → All (λ s. (probe s).reachable ≡ false) ss
    → (probe_loop every now probe ss none).1 ≡ none
unfolding probe_loop
probe_loop-down every now probe [] h = refl
probe_loop-down every now probe (s ∷ ss) (down, h) =
    ground (arith, down, probe_loop-down every now probe ss h)

detect_skew-store :
    {l : Libs} (cfg : RefreshConfig) (now : Time) (ss : List ServerStatus) (z : ZoneRuntime l)
    → ((detect_skew cfg now ss z).0.store ≡ z.store)
      × ((detect_skew cfg now ss z).0.expire_at ≡ z.expire_at)
unfolding detect_skew
detect_skew-store cfg now ss z = ground arith

-- When no server of a free zone answers, a refresh makes the state transfer_failed and schedules a
-- retry after the jitter's image of the delay that failed transfers have, and keeps the store and the expiry.
pub refresh_unreachable :
    {l : Libs} (cfg : Config) (v : Verifier l) (w : World l) (force : Bool) (z : ZoneRuntime l)
    → z.refreshing ≡ false
    → All (λ s. (w.probe s).reachable ≡ false) z.servers
    → let z' = (refresh cfg v w force z).0 in
      ((refresh cfg v w force z).2 ≡ unreachable)
      × (z'.state ≡ transfer_failed)
      × (z'.next_refresh ≡ w.now + w.jitter (base_delay cfg.refresh 0 60 true))
      × (z'.store ≡ z.store)
      × (z'.expire_at ≡ z.expire_at)
unfolding refresh try_lock_refresh unlock_refresh cycle after_probe fail_all schedule set_state
refresh_unreachable cfg v w force z idle down =
    let gone = probe_loop-down cfg.refresh.probe_all_servers w.now w.probe z.servers down in
    let (a, b) = detect_skew-store cfg.refresh w.now _ _ in rw (idle, gone) (refl, refl, refl, a, b)
