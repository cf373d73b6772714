-- ===== src/Monitor/Refresh/Unchanged.antt =====
-- The path of Refresh on which the best server still has the serial that is held.
use dnssec_auditor.Common.{
  ℕ, ◌<◌, nat_eq, ◌==◌, Bool, true, not, ◌&&◌, Option, none, some, List, ◌≡◌, ◌≢◌, inl, inr, refl,
  ◌∙◌, arith, Option-cases, Bool-cases,
}
use dnssec_auditor.Zone.Store.{Libs, Store, apply_changes}
use dnssec_auditor.Dnssec.Findings.{Time}
use dnssec_auditor.Dnssec.Result.{Verifier}
use dnssec_auditor.Xfr.Client as Xfr
use dnssec_auditor.Xfr.Client.{SoaResult}
use dnssec_auditor.Monitor.Runtime.{
  verifying, stale, Server, ZoneRuntime, schedule, serial_of, last_terminal_state, try_lock_refresh,
  unlock_refresh,
}
use dnssec_auditor.Monitor.Runtime.States.{last_terminal_state-terminal}
use dnssec_auditor.Monitor.Manager.{Config, World, unchanged, probe_loop, detect_skew, method_text}
use dnssec_auditor.Monitor.Refresh.{
  refresh, cycle, after_probe, same_serial, transfer, install, use_result, verify_zone, fail_apply,
  fail_transfer, fail_all, fetch, server_of,
}
use dnssec_auditor.Monitor.Zones.{tick}
use dnssec_auditor.Monitor.Zones.Ticks.{tick-stale}

-- What a cycle without news keeps.
abbrev pub Kept : {l : Libs} → ZoneRuntime l → ZoneRuntime l → Type 0
Kept z z' =
    (z'.store ≡ z.store)
    × (z'.expire_at ≡ z.expire_at)
    × (z'.history ≡ z.history)
    × (last_terminal_state z' ≡ last_terminal_state z)

module _ {l : Libs} (cfg : Config) (v : Verifier l) (w : World l) (force : Bool) where
  use_result-outcome :
      (old : ℕ) (best : SoaResult) (tres : Xfr.Result l) (fresh held : Option (Store l))
      (z : ZoneRuntime l)
      → (use_result cfg v w force old best tres fresh held z).2 ≢ unchanged
  unfolding use_result verify_zone
  use_result-outcome old best tres (some st) held z = λ e. ground arith
  use_result-outcome old best tres none (some held) z = λ e.
      let (st, touched, done) = apply_changes l tres.adds tres.removes held in
      elim (Bool-cases done) [
        | inl all ↦ (let q = rw all at e in ground arith)
        | inr part ↦ (let q = rw part at e in unfold fail_apply in ground arith)
      ]
  use_result-outcome old best tres none none z = λ e. ground arith

  transfer-outcome :
      (old : ℕ) (best : SoaResult) (z : ZoneRuntime l)
      → (transfer cfg v w force old best z).2 ≢ unchanged
  unfolding transfer install
  transfer-outcome old best z e =
      let srv : Server = server_of best.server z.servers in
      elim (Option-cases (fetch cfg v w force old srv)) [
        | inl bad ↦ (let q = rw (bad, transfer) at e in unfold fail_transfer in ground arith)
        | inr (tres, got) ↦
            use_result-outcome old best tres tres.store z.store
              (record z {
                state = verifying;
                last_transfer = w.now;
                last_method = method_text tres.method;
              })
              (rw (got, transfer) at e)
      ]

  same_serial-Kept :
      (best : SoaResult) (z : ZoneRuntime l)
      → (same_serial cfg v w force best z).2 ≡ unchanged
      → Kept z (same_serial cfg v w force best z).0
  unfolding same_serial schedule last_terminal_state
  same_serial-Kept best z e = elim (Option-cases z.store) [
    | inl nothing ↦ ground (arith, nothing, last_terminal_state-terminal z)
    | inr (st, held) ↦ ground (arith, held, last_terminal_state-terminal z)
  ]

  detect_skew-Kept :
      (now : Time) (ss : List _) (z : ZoneRuntime l) → Kept z (detect_skew cfg.refresh now ss z).0
  unfolding detect_skew last_terminal_state
  detect_skew-Kept now ss z = ground arith

  fail_all-outcome : (old : ℕ) (z : ZoneRuntime l) → (fail_all cfg v w force old z).2 ≢ unchanged
  unfolding fail_all
  fail_all-outcome old z = λ e. ground arith

  after_probe-Kept :
      (old : ℕ) (best : Option SoaResult) (z : ZoneRuntime l)
      → (after_probe cfg v w force old best z).2 ≡ unchanged
      → Kept z (after_probe cfg v w force old best z).0
  unfolding after_probe
  after_probe-Kept old none z e = absurd (fail_all-outcome old z e)
  after_probe-Kept old (some b) z e =
      elim (Bool-cases (not (old == 0) && (b.serial == old && not force))) [
        | inl same ↦ rw same (same_serial-Kept b z (rw same at e))
        | inr other ↦ absurd (transfer-outcome old b z (rw other at e))
      ]

  cycle-Kept :
      (z : ZoneRuntime l) → (cycle cfg v w force z).2 ≡ unchanged → Kept z (cycle cfg v w force z).0
  unfolding cycle last_terminal_state
  cycle-Kept z e =
      let (stats, best) = probe_loop cfg.refresh.probe_all_servers w.now w.probe z.servers none in
      let z₀ = record z { servers_stat = stats } in
      let z₁ = (detect_skew cfg.refresh w.now stats z₀).0 in
      let (a, b, c, d) = detect_skew-Kept w.now stats z₀ in
      let (a', b', c', d') = after_probe-Kept (serial_of z) best z₁ e in
      (a' ∙ a, b' ∙ b, c' ∙ c, d' ∙ d)

  -- A refresh that reports the zone as unchanged keeps the store, the expiry, the history and the
  -- last terminal state.
  pub refresh-unchanged :
      (z : ZoneRuntime l)
      → (refresh cfg v w force z).2 ≡ unchanged
      → Kept z (refresh cfg v w force z).0
  unfolding refresh try_lock_refresh unlock_refresh last_terminal_state
  refresh-unchanged z e = elim (Bool-cases z.refreshing) [
    | inl locked ↦ rw locked (refl, refl, refl, refl)
    | inr idle ↦
        rw idle (cycle-Kept (record z { refreshing = true; refresh_full = force }) (rw idle at e))
  ]

  -- However late a refresh confirms that a server still has the serial that is held, the next tick
  -- after the instant that the last transfer set as the zone's expiry makes the zone stale: the
  -- confirmation does not renew the expiry.
  pub confirmed_goes_stale :
      (z : ZoneRuntime l) (later : Time)
      → (refresh cfg v w force z).2 ≡ unchanged
      → 0 < z.expire_at
      → z.expire_at < later
      → (tick later (refresh cfg v w force z).0).0.state ≡ stale
  confirmed_goes_stale z later e p q =
      let (_, same, _, _) = refresh-unchanged z e in
      tick-stale later (refresh cfg v w force z).0 (rw same p) (rw same q)
