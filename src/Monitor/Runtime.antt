-- ===== src/Monitor/Runtime.antt =====
-- internal/monitor/runtime.go: a zone's state, history, schedule and refresh lock. Instants and
-- durations are nanoseconds; a configured duration is not negative. The floating-point jitter is an
-- argument that maps a delay to the delay that is waited.
pub mod States
pub mod Schedule
use dnssec_auditor.Common.{
  ℕ, zero, suc, ◌+◌, ◌-◌, ◌*◌, ◌^◌, String, Str, nat_eq, ◌==◌, Bool, true, false, not, ◌&&◌, ◌||◌,
  Option, none, some, List, [], ◌∷◌, ◌++◌, if◌then◌else◌, length, drop, ltb, leb,
}
use dnssec_auditor.Zone.Store.{Libs, Store}
use dnssec_auditor.Dnssec.Findings.{Time, is_zero, Finding, Set, new_set, add}

pub data State : Type 0 where
  unknown transferring verifying valid invalid unsigned transfer_failed stale : State

abbrev pub state_eqb : State → State → Bool
state_eqb unknown unknown = true
state_eqb transferring transferring = true
state_eqb verifying verifying = true
state_eqb valid valid = true
state_eqb invalid invalid = true
state_eqb unsigned unsigned = true
state_eqb transfer_failed transfer_failed = true
state_eqb stale stale = true
state_eqb _ _ = false

pub record ServerStatus : Type 0 where
  pub name : Str
  pub serial : ℕ
  pub reachable : Bool
  pub failed : Bool
  pub at : Time

pub record HistoryEntry : Type 0 where
  pub at : Time
  pub state : State
  pub serial : ℕ
  pub mode : String
  pub method : String
  pub detail : String

-- config.Server
pub record Server : Type 0 where
  pub name : Str
  pub address : Str
  pub port : ℕ
  pub tsig_key : Str

pub record ZoneRuntime (l : Libs) : Type 0 where
  pub name : Str
  pub source : Str
  pub servers : List Server
  pub tsig_key : Str
  pub state : State
  pub store : Option (Store l)
  pub findings : Option Set
  pub last_valid_at : Time
  pub last_verified : Time
  pub last_full_verified : Time
  pub last_transfer : Time
  pub next_refresh : Time
  pub expire_at : Time
  pub verify_mode : String
  pub last_method : String
  pub servers_stat : List ServerStatus
  pub history : List HistoryEntry
  pub refreshing : Bool
  pub refresh_full : Bool
  pub chain_ok : Option Bool
  pub zonemd_ok : Option Bool
  pub zonemd_checked_at : Time
  pub zonemd_stale : Bool
  pub skew_since : Time

-- config.RefreshConfig, without the jitter and the time-outs
pub record RefreshConfig : Type 0 where
  pub min_interval : ℕ
  pub max_interval : ℕ
  pub retry_min : ℕ
  pub retry_max : ℕ
  pub prefer_ixfr : Bool
  pub probe_all_servers : Bool
  pub serial_skew_warning : ℕ
  pub serial_skew_grace : ℕ

abbrev pub second : ℕ
second = 1000000000

abbrev pub history_cap : ℕ
history_cap = 64

-- The last 64 entries.
pub trim_history : List HistoryEntry → List HistoryEntry
trim_history hs = if ltb history_cap (length hs) then drop (length hs - history_cap) hs else hs

pub is_good : State → Bool
is_good s = state_eqb s valid || state_eqb s unsigned

unfoldable pub is_terminal_state : State → Bool
is_terminal_state valid = true
is_terminal_state invalid = true
is_terminal_state unsigned = true
is_terminal_state transfer_failed = true
is_terminal_state stale = true
is_terminal_state _ = false

-- The newest terminal state of a history, its last entry being the newest.
pub newest_terminal : List HistoryEntry → Option State
newest_terminal [] = none
newest_terminal (h ∷ hs) = elim (newest_terminal hs) [
  | some s ↦ some s
  | none ↦ if is_terminal_state h.state then some h.state else none
]

pub or_unknown : Option State → State
or_unknown none = unknown
or_unknown (some s) = s

-- schedule: the delay before the jitter
pub base_delay : RefreshConfig → ℕ → ℕ → Bool → ℕ
base_delay cfg soa_refresh soa_retry failed =
    if failed
    then (let b = soa_retry * second in
        let c = if ltb b cfg.retry_min then cfg.retry_min else b in
        if ltb cfg.retry_max c then cfg.retry_max else c)
    else (let b = if soa_refresh == 0 then cfg.max_interval else soa_refresh * second in
        let c = if ltb b cfg.min_interval then cfg.min_interval else b in
        if ltb cfg.max_interval c then cfg.max_interval else c)

add_all : Time → List Finding → Set → Set
add_all now [] s = s
add_all now (f ∷ fs) s = add_all now fs (add now f s)

pub set_or_new : Option Set → Set
set_or_new none = new_set
set_or_new (some s) = s

module _ {l : Libs} where
  unfoldable pub new_zone : Str → Str → List Server → Str → ZoneRuntime l
  new_zone name source servers tsig = record {
    name = name;
    source = source;
    servers = servers;
    tsig_key = tsig;
    state = unknown;
    store = none;
    findings = some new_set;
    last_valid_at = 0;
    last_verified = 0;
    last_full_verified = 0;
    last_transfer = 0;
    next_refresh = 0;
    expire_at = 0;
    verify_mode = "";
    last_method = "";
    servers_stat = [];
    history = [];
    refreshing = false;
    refresh_full = false;
    chain_ok = none;
    zonemd_ok = none;
    zonemd_checked_at = 0;
    zonemd_stale = false;
    skew_since = 0;
  }

  -- setState
  unfoldable pub set_state :
      Time → State → ℕ → String → String → String → ZoneRuntime l → ZoneRuntime l
  unfolding is_good
  set_state now s serial mode method detail z =
      let entry : HistoryEntry = record {
        at = now;
        state = s;
        serial = serial;
        mode = mode;
        method = method;
        detail = detail;
      } in
      record z {
        state = s;
        last_valid_at = if is_good s then now else z.last_valid_at;
        history = trim_history (z.history ++ entry ∷ []);
      }

  unfoldable pub schedule :
      (ℕ → ℕ) → Time → RefreshConfig → ℕ → ℕ → Bool → ZoneRuntime l → ZoneRuntime l
  schedule jitter now cfg soa_refresh soa_retry failed z = record z {
    next_refresh = now + jitter (base_delay cfg soa_refresh soa_retry failed);
  }

  -- TryLockRefresh and UnlockRefresh
  unfoldable pub try_lock_refresh : Bool → ZoneRuntime l → ZoneRuntime l × Bool
  try_lock_refresh full z =
      if z.refreshing
      then (z, false)
      else (record z { refreshing = true; refresh_full = full }, true)

  unfoldable pub unlock_refresh : ZoneRuntime l → ZoneRuntime l
  unlock_refresh z = record z { refreshing = false; refresh_full = false }

  -- lastTerminalState
  unfoldable pub last_terminal_state : ZoneRuntime l → State
  unfolding or_unknown
  last_terminal_state z =
      if is_terminal_state z.state then z.state else or_unknown (newest_terminal z.history)

  -- Restore
  unfoldable restore : Time → Time → List Finding → ZoneRuntime l → ZoneRuntime l
  unfolding add_all set_or_new
  restore now last_valid findings z = record z {
    last_valid_at = if is_zero last_valid then z.last_valid_at else last_valid;
    findings = some (add_all now findings (set_or_new z.findings));
  }

  unfoldable attach_store : Store l → ZoneRuntime l → ZoneRuntime l
  attach_store st z = record z { store = some st }

  unfoldable pub serial_of : ZoneRuntime l → ℕ
  serial_of z = elim z.store [ none ↦ 0 | some st ↦ st.serial ]

  -- ApplyFindings
  unfoldable apply_findings :
      Time → List Finding → Option Bool → Bool → ZoneRuntime l → ZoneRuntime l
  unfolding add_all set_or_new
  apply_findings now findings chain_ok invalidate z =
      let z' = record z {
        findings = some (add_all now findings (set_or_new z.findings));
        chain_ok = elim chain_ok [ none ↦ z.chain_ok | some b ↦ some b ];
      } in
      if invalidate && state_eqb z.state valid
      then set_state now invalid (serial_of z) "chain" "" "DS mismatch" z'
      else z'
