-- ===== src/Monitor/Manager.antt =====
-- internal/monitor/manager.go: the refresh cycle, the ticks and the zones. A cycle runs whole: what
-- other goroutines do between its critical sections is left out, and the clock is read once. The
-- network is a set of functions, and metrics and logging are left out.
use dnssec_auditor.Common.{
  ℕ, ◌+◌, ◌-◌, ◌%◌, String, str_eq, nat_eq, ◌==◌, Bool, true, false, not, ◌&&◌, ◌||◌, Option, none,
  some, List, [], ◌∷◌, if◌then◌else◌, ltb, leb,
}
use dnssec_auditor.Dns.{type_zonemd}
use dnssec_auditor.Zone.Node.{has}
use dnssec_auditor.Zone.Store.{Libs, Store, apex}
use dnssec_auditor.Dnssec.Findings.{Time, is_zero, num, warning, new_finding, add}
use dnssec_auditor.Dnssec.Result as Dnssec
use dnssec_auditor.Dnssec.Result.{Verifier, Mode, full, incremental}
use dnssec_auditor.Xfr.Client as Xfr
use dnssec_auditor.Xfr.Client.{SoaResult, Method, axfr, ixfr}
use dnssec_auditor.Event.{Event, about, serial_skew}
use dnssec_auditor.Monitor.Serial.{serial_greater, u32}
use dnssec_auditor.Monitor.Runtime.{
  State, unknown, transferring, verifying, valid, invalid, unsigned, transfer_failed, stale,
  ServerStatus, Server, ZoneRuntime, RefreshConfig, set_or_new,
}

pub data ZonemdMode : Type 0 where
  auto on off : ZonemdMode

-- The part of config.Config that the manager reads.
pub record Config : Type 0 where
  pub refresh : RefreshConfig
  pub zonemd : ZonemdMode
  pub zonemd_max_age : ℕ

-- What a cycle meets: the time, the jitter, and the answers of the network.
pub record World (l : Libs) : Type 0 where
  pub now : Time
  pub jitter : ℕ → ℕ
  pub probe : Server → SoaResult
  pub transfer_full : Server → Option (Xfr.Result l)
  pub transfer_incremental : ℕ → Server → Option (Xfr.Result l)

-- How a cycle ends.
pub data Outcome : Type 0 where
  busy unreachable unchanged failed no_store apply_failed : Outcome
  verified : State → Outcome

pub state_text : State → String
state_text unknown = "unknown"
state_text transferring = "transferring"
state_text verifying = "verifying"
state_text valid = "valid"
state_text invalid = "invalid"
state_text unsigned = "unsigned"
state_text transfer_failed = "transfer_failed"
state_text stale = "stale"

pub mode_text : Mode → String
mode_text full = "full"
mode_text incremental = "incremental"

pub method_text : Method → String
method_text axfr = "axfr"
method_text ixfr = "ixfr"

better : SoaResult → Option SoaResult → Option SoaResult
better r none = if r.reachable then some r else none
better r (some b) = if r.reachable && serial_greater r.serial b.serial then some r else some b

-- The loop over the servers: their states, and the best answer.
unfoldable pub probe_loop :
    Bool
    → Time
    → (Server → SoaResult)
    → List Server
    → Option SoaResult
    → List ServerStatus × Option SoaResult
unfolding better
probe_loop every now probe [] best = ([], best)
probe_loop every now probe (s ∷ ss) best =
    let r = probe s in
    let st : ServerStatus = record {
      name = s.name;
      serial = r.serial;
      reachable = r.reachable;
      failed = r.failed;
      at = now;
    } in
    let best' = better r best in
    let rest = probe_loop every now probe ss best' in
    if not every && r.reachable then (st ∷ [], best') else (st ∷ rest.0, rest.1)

unfoldable pub reachable_serials : List ServerStatus → List ℕ
reachable_serials [] = []
reachable_serials (s ∷ ss) =
    let rest = reachable_serials ss in if s.reachable then s.serial ∷ rest else rest

extremes : ℕ → ℕ → List ℕ → ℕ × ℕ
extremes lo hi [] = (lo, hi)
extremes lo hi (s ∷ ss) =
    extremes (if serial_greater lo s then s else lo) (if serial_greater s hi then s else hi) ss

-- The spread of two serials or more.
unfoldable pub skew : List ℕ → Option ℕ
unfolding extremes
skew (a ∷ b ∷ ss) = let (lo, hi) = extremes a a (b ∷ ss) in some ((hi + u32 - lo) % u32)
skew _ = none

pub zonemd_eqb : ZonemdMode → ZonemdMode → Bool
zonemd_eqb auto auto = true
zonemd_eqb on on = true
zonemd_eqb off off = true
zonemd_eqb _ _ = false

-- The state that a verification leads to.
unfoldable pub state_of : Dnssec.Result → State
state_of v = if v.unsigned then unsigned else (if v.valid then valid else invalid)

module _ {l : Libs} where
  -- storeHasZONEMD
  store_has_zonemd : Option (Store l) → Bool
  store_has_zonemd none = false
  store_has_zonemd (some st) = elim (apex l st) [ none ↦ false | some n ↦ has n type_zonemd ]

  -- zonemdMaxAgeDue
  unfoldable pub zonemd_max_age_due : Config → Time → ZoneRuntime l → Option (Store l) → Bool
  unfolding store_has_zonemd zonemd_eqb
  zonemd_max_age_due cfg now z st =
      if cfg.zonemd_max_age == 0
      then false
      else (if zonemd_eqb cfg.zonemd off
          then false
          else (if not (store_has_zonemd st) && not (zonemd_eqb cfg.zonemd on)
              then false
              else (if is_zero z.zonemd_checked_at
                  then store_has_zonemd st || zonemd_eqb cfg.zonemd on
                  else ltb (z.zonemd_checked_at + cfg.zonemd_max_age) now)))

  -- applyZONEMDResult
  unfoldable pub apply_zonemd_result :
      Time → Option (Store l) → Dnssec.Result → ZoneRuntime l → ZoneRuntime l
  unfolding store_has_zonemd
  apply_zonemd_result now st v z =
      if v.zonemd_checked
      then record z { zonemd_ok = some v.zonemd_ok; zonemd_checked_at = now; zonemd_stale = false }
      else elim v.mode [
        | full ↦ z
        | incremental ↦
            if not (is_zero z.zonemd_checked_at) || store_has_zonemd st
            then record z { zonemd_stale = true }
            else z
      ]

  -- detectSkew
  unfoldable pub detect_skew :
      RefreshConfig → Time → List ServerStatus → ZoneRuntime l → ZoneRuntime l × List Event
  detect_skew cfg now stats z = elim (skew (reachable_serials stats)) [
    | none ↦ (z, [])
    | some diff ↦
        if leb diff cfg.serial_skew_warning
        then (record z { skew_since = 0 }, [])
        else (let since = if is_zero z.skew_since then now else z.skew_since in
            let z' = record z { skew_since = since } in
            let f =
              new_finding l.dns now "SERIAL_SKEW" warning z.name 0
                (record { format = "server serials differ by %d"; args = num diff ∷ [] }) in
            if leb (since + cfg.serial_skew_grace) now
            then (
              record z' { findings = some (add now f (set_or_new z'.findings)) },
              about serial_skew z.name ∷ [],
            )
            else (z', []))
  ]

  -- What a verification leaves in a zone, up to the state.
  unfoldable pub record_result :
      Time → Option (Store l) → Dnssec.Result → ZoneRuntime l → ZoneRuntime l
  unfolding mode_text
  record_result now st v z = apply_zonemd_result now st v (record z {
    findings = some v.findings;
    verify_mode = mode_text v.mode;
    last_verified = now;
    last_full_verified = elim v.mode [ full ↦ now | incremental ↦ z.last_full_verified ];
  })
