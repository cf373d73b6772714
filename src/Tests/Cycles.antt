-- ===== src/Tests/Cycles.antt =====
-- Tests of the monitor: states, schedules, serials, refresh cycles and ticks.
use dnssec_auditor.Common.{
  ℕ, ◌+◌, ◌*◌, ◌≤◌, str_eq, ◌==◌, true, false, none, some, [], ◌∷◌, ◌≡◌, ◌≢◌, ◌⊎◌, refl, codes,
  if◌then◌else◌, arith,
}
use dnssec_auditor.Dnssec.Findings.{new_set}
use dnssec_auditor.Dnssec.Result as Dnssec
use dnssec_auditor.Dnssec.Result.{Verifier, full}
use dnssec_auditor.Zone.Store.{Store, new_store}
use dnssec_auditor.Xfr.Client.{SoaResult, no_answer, Method, axfr}
use dnssec_auditor.Xfr.Client as Xfr
use dnssec_auditor.Monitor.Serial.{serial_greater}
use dnssec_auditor.Monitor.Runtime.{
  transferring, verifying, valid, invalid, transfer_failed, stale, Server, ZoneRuntime,
  RefreshConfig, new_zone, set_state, schedule, last_terminal_state, base_delay, is_terminal_state,
  second, serial_of, try_lock_refresh, unlock_refresh,
}
use dnssec_auditor.Monitor.Runtime.States.{last_terminal-set_state}
use dnssec_auditor.Monitor.Runtime.Schedule.{base_delay_exact, schedule_bounds}
use dnssec_auditor.Monitor.Manager.{
  Config, World, unreachable, unchanged, no_store, auto, probe_loop, detect_skew,
  zonemd_max_age_due, reachable_serials, skew,
}
use dnssec_auditor.Monitor.Refresh.{
  refresh, cycle, after_probe, same_serial, transfer, install, use_result, verify_zone,
}
use dnssec_auditor.Monitor.Refresh.Cycle.{IsSettled, refresh-IsSettled, refresh_unreachable}
use dnssec_auditor.Monitor.Refresh.Unchanged.{Kept, refresh-unchanged, confirmed_goes_stale}
use dnssec_auditor.Monitor.Zones.{Zones, tick, sweep, add_zone, get_zone}
use dnssec_auditor.Monitor.Zones.Table.{get-add_zone}
use dnssec_auditor.Monitor.Zones.Ticks.{tick-settled, sweep-state, findings_have_errors}
use dnssec_auditor.DnsName.{canonical}
use dnssec_auditor.DnsName.Laws.{canonical-canonical}
use dnssec_auditor.Samples.{sample_libs, sample_dns, origin, www}

abbrev pub timing : RefreshConfig
timing = record {
  min_interval = 60 * second;
  max_interval = 7200 * second;
  retry_min = 30 * second;
  retry_max = 600 * second;
  prefer_ixfr = true;
  probe_all_servers = true;
  serial_skew_warning = 0;
  serial_skew_grace = 300 * second;
}

abbrev settings : Config
settings = record { refresh = timing; zonemd = auto; zonemd_max_age = 0 }

abbrev verdict : Dnssec.Result
verdict = record {
  findings = new_set;
  mode = full;
  valid = true;
  unsigned = false;
  rrsigs_verified = 3;
  nsec3_checked = 0;
  zonemd_checked = false;
  zonemd_ok = false;
  earliest_expiry = 0;
}

abbrev verifier : Verifier sample_libs
verifier = record {
  verify_full = λ st. verdict;
  verify_incremental = λ st f t. verdict;
  sweep_expiry = λ st f. f;
}

abbrev primary : Server
primary = record { name = codes "p"; address = codes "192.0.2.1"; port = 53; tsig_key = [] }

abbrev held : Store sample_libs
held = record (new_store sample_libs origin) { serial = 7 }

abbrev answering : ℕ → SoaResult
answering serial = record {
  server = codes "p";
  serial = serial;
  refresh = 3600;
  retry = 600;
  expire = 86400;
  reachable = true;
  failed = false;
}

abbrev delivered : Xfr.Result sample_libs
delivered = record {
  store = some (record held { serial = 8 });
  adds = [];
  removes = [];
  method = axfr;
  fallback = false;
  serial = 8;
  records = 0;
  server = codes "p";
}

-- At the instant 1000, with a server that gives this answer.
abbrev world : SoaResult → World sample_libs
world answer = record {
  now = 1000;
  jitter = λ d. d;
  probe = λ s. answer;
  transfer_full = λ s. some delivered;
  transfer_incremental = λ n s. none;
}

abbrev zone : ZoneRuntime sample_libs
zone = record (new_zone origin (codes "config") (primary ∷ []) []) {
  state = valid;
  store = some held;
  expire_at = 1500;
  next_refresh = 900;
}

refresh_unreachable_example :
    let w = world (no_answer (codes "p")) in
    let z' = (refresh settings verifier w false zone).0 in
    ((refresh settings verifier w false zone).2 ≡ unreachable)
    × (z'.state ≡ transfer_failed)
    × (z'.next_refresh ≡ 1000 + base_delay timing 0 60 true)
    × (z'.store ≡ zone.store)
    × (z'.expire_at ≡ zone.expire_at)
unfolding new_zone
refresh_unreachable_example =
    refresh_unreachable settings verifier (world (no_answer (codes "p"))) false zone refl (refl, tt)

same_answer : (refresh settings verifier (world (answering 7)) false zone).2 ≡ unchanged
unfolding new_zone refresh cycle probe_loop serial_greater detect_skew reachable_serials skew
    after_probe serial_of same_serial try_lock_refresh unlock_refresh zonemd_max_age_due
same_answer = refl

refresh-unchanged_example : Kept zone (refresh settings verifier (world (answering 7)) false zone).0
refresh-unchanged_example =
    refresh-unchanged settings verifier (world (answering 7)) false zone same_answer

confirmed_goes_stale_example :
    (tick 1600 (refresh settings verifier (world (answering 7)) false zone).0).0.state ≡ stale
confirmed_goes_stale_example =
    confirmed_goes_stale settings verifier (world (answering 7)) false zone 1600 same_answer
      (omega arith) (omega arith)

new_answer : (refresh settings verifier (world (answering 8)) false zone).2 ≢ no_store
unfolding new_zone refresh cycle probe_loop serial_greater detect_skew reachable_serials skew
    after_probe serial_of transfer install use_result verify_zone try_lock_refresh unlock_refresh
new_answer e = ground arith

refresh-IsSettled_example :
    ((refresh settings verifier (world (answering 8)) false zone).0.refreshing ≡ false)
    × IsSettled (refresh settings verifier (world (answering 8)) false zone).0.state
refresh-IsSettled_example =
    refresh-IsSettled settings verifier (world (answering 8)) false zone (unfold new_zone in refl)
      new_answer

last_terminal-set_state_example :
    last_terminal_state
      (record (set_state 1000 invalid 7 "full" "axfr" "" zone) { state = transferring })
    ≡ invalid
unfolding is_terminal_state
last_terminal-set_state_example =
    last_terminal-set_state 1000 invalid transferring 7 "full" "axfr" "" zone refl refl

base_delay_exact_example : base_delay timing 3600 600 false ≡ 3600 * second
base_delay_exact_example =
    base_delay_exact timing 3600 600 (omega arith) (omega arith) (omega arith)

schedule_bounds_example :
    ((schedule (λ d. d) 1000 timing 3600 600 false zone).next_refresh ≤ 1000 + 7200 * second)
    × ((schedule (λ d. d) 1000 timing 3600 600 true zone).next_refresh ≤ 1000 + 600 * second)
schedule_bounds_example = schedule_bounds (λ d. d) 1000 timing 3600 600 zone (λ d. omega arith)

twelve_greater : serial_greater 12 5 ≡ true
unfolding serial_greater
twelve_greater = refl

abbrev table : Zones sample_libs
table = (origin, zone) ∷ []

get-add_zone_example : get_zone www (add_zone origin (codes "api") (primary ∷ []) [] table) ≡ (
    if canonical sample_dns origin == canonical sample_dns www
    then elim (get_zone origin table) [
      | none ↦ some (new_zone (canonical sample_dns origin) (codes "api") (primary ∷ []) [])
      | some z ↦
          if z.source == codes "config"
          then some z
          else some (new_zone (canonical sample_dns origin) (codes "api") (primary ∷ []) [])
    ]
    else get_zone www table)
get-add_zone_example = get-add_zone origin (codes "api") [] www (primary ∷ []) table

tick-settled_example :
    ((tick 1000 zone).0.state ≢ transferring) × ((tick 1000 zone).0.state ≢ verifying)
tick-settled_example = tick-settled 1000 zone (unfold new_zone in refl)

sweep-state_example :
    ((sweep 1000 verifier zone).0.state ≡ zone.state)
    ⊎ ((zone.state ≡ valid)
        × ((sweep 1000 verifier zone).0.state ≡ invalid)
        × (findings_have_errors (sweep 1000 verifier zone).0.findings ≡ true))
sweep-state_example = sweep-state 1000 verifier zone

canonical-canonical_example :
    canonical sample_dns (canonical sample_dns (codes " W.e")) ≡ canonical sample_dns (codes " W.e")
canonical-canonical_example = canonical-canonical sample_dns (codes " W.e")
