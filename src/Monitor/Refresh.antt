-- ===== src/Monitor/Refresh.antt =====
-- internal/monitor/manager.go, Refresh: one cycle of a zone, from the lock to the unlock, with the
-- events that it publishes in order.
pub mod Cycle
pub mod Unchanged
use dnssec_auditor.Common.{
  ℕ, ◌+◌, ◌*◌, String, Str, str_eq, nat_eq, ◌==◌, Bool, true, false, not, ◌&&◌, ◌||◌, Option, none,
  some, is_some, List, [], ◌∷◌, ◌++◌, if◌then◌else◌,
}
use dnssec_auditor.Zone.Store.{Libs, Store, Touched, apply_changes, soa_locked}
use dnssec_auditor.Dnssec.Findings.{Time, Set, say, error, new_finding, add}
use dnssec_auditor.Dnssec.Result as Dnssec
use dnssec_auditor.Dnssec.Result.{Verifier}
use dnssec_auditor.Xfr.Client as Xfr
use dnssec_auditor.Xfr.Client.{SoaResult, Method, axfr, ixfr}
use dnssec_auditor.Event.{
  Event, about, zone_state_changed, zone_valid, zone_invalid, transfer_completed,
  verification_completed,
}
use dnssec_auditor.Event as Events
use dnssec_auditor.Monitor.Runtime.{
  State, transferring, verifying, valid, invalid, unsigned, transfer_failed, Server, ZoneRuntime,
  second, set_state, schedule, serial_of, set_or_new, try_lock_refresh, unlock_refresh,
  last_terminal_state, is_good,
}
use dnssec_auditor.Monitor.Manager.{
  Config, World, Outcome, busy, unreachable, unchanged, failed, no_store, apply_failed, verified,
  state_text, mode_text, method_text, probe_loop, zonemd_max_age_due, detect_skew, state_of,
  record_result,
}

-- The zone after a cycle, its events and its outcome.
abbrev pub Cycled : Libs → Type 0
Cycled l = ZoneRuntime l × List Event × Outcome

result_text : Dnssec.Result → String
result_text v = if v.unsigned then "unsigned" else (if v.valid then "valid" else "invalid")

-- The server that gave the best answer, or the zero Server.
unfoldable pub server_of : Str → List Server → Server
server_of name [] = record { name = []; address = []; port = 0; tsig_key = [] }
server_of name (s ∷ ss) = if s.name == name then s else server_of name ss

pub completed : Str → Dnssec.Result → Event
unfolding result_text
completed zone v = record (about verification_completed zone) {
  mode = mode_text v.mode;
  result = result_text v;
  state = state_text (state_of v);
}

pub good_or_bad : State → Events.Kind
good_or_bad s = if is_good s then zone_valid else zone_invalid

module _ {l : Libs} (cfg : Config) (v : Verifier l) (w : World l) (force : Bool) where
  -- Every server failed.
  pub fail_all : ℕ → ZoneRuntime l → Cycled l
  fail_all old z = (
    schedule w.jitter w.now cfg.refresh 0 60 true
        (set_state w.now transfer_failed old "" "" "all servers unreachable" z),
    record (about Events.transfer_failed z.name) { result = "error" } ∷ [],
    unreachable,
  )

  -- The serial is the one that is held: at most the ZONEMD is checked again.
  unfoldable pub same_serial : SoaResult → ZoneRuntime l → Cycled l
  same_serial best z =
      let again = is_some z.store && zonemd_max_age_due cfg w.now z z.store in
      let idle =
        schedule w.jitter w.now cfg.refresh best.refresh best.retry false
          (record z { last_transfer = w.now; state = last_terminal_state z }) in
      elim z.store [
        | none ↦ (idle, [], unchanged)
        | some store ↦
            if not again
            then (idle, [], unchanged)
            else (let r = v.verify_full store in
                let z' = record (record_result w.now (some store) r z) { last_transfer = w.now } in
                (
                  schedule w.jitter w.now cfg.refresh best.refresh best.retry false (
                      set_state w.now (state_of r) store.serial (mode_text r.mode) "soa"
                        "zonemd_max_age" z'),
                  completed z.name r ∷ [],
                  verified (state_of r),
                ))
      ]

  -- The transfer, and the method that a failure is reported under.
  pub fetch : ℕ → Server → Option (Xfr.Result l)
  fetch old srv =
      if not force && (not (old == 0) && cfg.refresh.prefer_ixfr)
      then elim (w.transfer_incremental old srv) [ some r ↦ some r | none ↦ w.transfer_full srv ]
      else w.transfer_full srv

  pub fail_transfer : ℕ → SoaResult → ZoneRuntime l → Cycled l
  fail_transfer old best z = (
    schedule w.jitter w.now cfg.refresh best.refresh best.retry true
        (set_state w.now transfer_failed old "" "axfr" "transfer" z),
    record (about Events.transfer_failed z.name) { method = "axfr"; result = "error" } ∷ [],
    failed,
  )

  pub set_expiry : Store l → ZoneRuntime l → ZoneRuntime l
  set_expiry st z = elim (soa_locked l st) [
    | none ↦ z
    | some soa ↦ record z { expire_at = w.now + soa.expire * second }
  ]

  pub is_axfr : Method → Bool
  is_axfr axfr = true
  is_axfr ixfr = false

  -- A transferred zone is verified, fully unless only some names of it were touched.
  unfoldable pub verify_zone :
      SoaResult → Xfr.Result l → Store l → Option Touched → ZoneRuntime l → Cycled l
  unfolding set_expiry is_axfr
  verify_zone best tres st touched z =
      let z₁ = set_expiry st (record z { store = some st }) in
      let all =
        force
        || (is_axfr tres.method || (tres.fallback || zonemd_max_age_due cfg w.now z₁ (some st))) in
      let r : Dnssec.Result = elim touched [
        | none ↦ v.verify_full st
        | some t ↦
            if all then v.verify_full st else v.verify_incremental st (set_or_new z₁.findings) t
      ] in
      (
        schedule w.jitter w.now cfg.refresh best.refresh best.retry false (
            set_state w.now (state_of r) st.serial (mode_text r.mode) (method_text tres.method) ""
              (record_result w.now (some st) r z₁)),
        completed z.name r
            ∷ record (about zone_state_changed z.name) { state = state_text (state_of r) }
            ∷ record (about (good_or_bad (state_of r)) z.name) { state = state_text (state_of r) }
            ∷ [],
        verified (state_of r),
      )

  -- The transferred changes do not fit the store.
  pub fail_apply : ℕ → Store l → ZoneRuntime l → Cycled l
  fail_apply old st z =
      let f = new_finding l.dns w.now "IXFR_APPLY_FAILED" error z.name 0 (say "apply") in
      let z' =
        set_state w.now invalid old "" "ixfr" "apply failed" (record z { store = some st }) in
      (record z' { findings = some (add w.now f (set_or_new z'.findings)) }, [], apply_failed)

  pub apply_to : ℕ → SoaResult → Xfr.Result l → Store l → ZoneRuntime l → Cycled l
  apply_to old best tres held z =
      let (st, touched, done) = apply_changes l tres.adds tres.removes held in
      if done then verify_zone best tres st (some touched) z else fail_apply old st z

  unfoldable pub use_result :
      ℕ → SoaResult → Xfr.Result l → Option (Store l) → Option (Store l) → ZoneRuntime l → Cycled l
  unfolding apply_to
  use_result old best tres (some st) held z = verify_zone best tres st none z
  use_result old best tres none (some held) z = apply_to old best tres held z
  use_result old best tres none none z = (z, [], no_store)

  -- The transferred zone, or the changes to the one that is held.
  unfoldable pub install : ℕ → SoaResult → Xfr.Result l → ZoneRuntime l → Cycled l
  install old best tres z =
      let z₁ = record z {
        state = verifying;
        last_transfer = w.now;
        last_method = method_text tres.method;
      } in
      let (z₂, events, outcome) = use_result old best tres tres.store z₁.store z₁ in
      (
        z₂,
        record (about transfer_completed z.name) { method = method_text tres.method; result = "ok" }
            ∷ events,
        outcome,
      )

  unfoldable pub transfer : ℕ → SoaResult → ZoneRuntime l → Cycled l
  unfolding fetch fail_transfer
  transfer old best z =
      let z₁ = record z { state = transferring } in
      elim (fetch old (server_of best.server z.servers)) [
        | none ↦ fail_transfer old best z₁
        | some tres ↦ install old best tres z₁
      ]

  unfoldable pub after_probe : ℕ → Option SoaResult → ZoneRuntime l → Cycled l
  unfolding fail_all
  after_probe old none z = fail_all old z
  after_probe old (some best) z =
      if not (old == 0) && (best.serial == old && not force)
      then same_serial best z
      else transfer old best z

  unfoldable pub cycle : ZoneRuntime l → Cycled l
  cycle z =
      let (stats, best) = probe_loop cfg.refresh.probe_all_servers w.now w.probe z.servers none in
      let (z₁, skewed) = detect_skew cfg.refresh w.now stats (record z { servers_stat = stats }) in
      let (z₂, events, outcome) = after_probe (serial_of z) best z₁ in
      (z₂, skewed ++ events, outcome)

  -- Refresh
  unfoldable pub refresh : ZoneRuntime l → Cycled l
  refresh z =
      let (z₁, locked) = try_lock_refresh force z in
      let (z₂, events, outcome) = cycle z₁ in
      if not locked then (z, [], busy) else (unlock_refresh z₂, events, outcome)
