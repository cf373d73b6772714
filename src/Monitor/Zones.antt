-- ===== src/Monitor/Zones.antt =====
-- internal/monitor/manager.go: the table of zones, and what the two tickers of Run do to a zone.
pub mod Table
pub mod Ticks
use dnssec_auditor.Common.{
  ℕ, zero, suc, ◌+◌, String, Str, str_eq, nat_eq, ◌==◌, Bool, true, false, not, ◌&&◌, ◌||◌, Option,
  none, some, List, [], ◌∷◌, ◌++◌, map, if◌then◌else◌, ltb, leb, codes, is_some,
}
use dnssec_auditor.Common.Map
use dnssec_auditor.Common.Map.{Map}
use dnssec_auditor.DnsName.{canonical}
use dnssec_auditor.Zone.Store.{Libs, Store}
use dnssec_auditor.Dnssec.Findings.{Time, is_zero, Set, warning, has_errors, count_by_severity, len}
use dnssec_auditor.Dnssec.Result.{Verifier}
use dnssec_auditor.Event.{
  Event, about, zone_stale, zone_invalid, zone_state_changed, zone_expiring_soon,
}
use dnssec_auditor.Monitor.Runtime.{
  State, transferring, verifying, valid, invalid, stale, state_eqb, Server, ZoneRuntime, new_zone,
  set_state, last_terminal_state,
}
use dnssec_auditor.Monitor.Manager.{state_text}

abbrev pub Zones : Libs → Type 0
Zones l = Map Str (ZoneRuntime l)

warn_soon : Str → Set → List Event
warn_soon name f =
    if ltb 0 (count_by_severity warning f) then about zone_expiring_soon name ∷ [] else []

module _ {l : Libs} where
  -- A busy state without a refresh is left for the last terminal one.
  unstick : ZoneRuntime l → ZoneRuntime l
  unstick z =
      if not z.refreshing && (state_eqb z.state transferring || state_eqb z.state verifying)
      then record z { state = last_terminal_state z }
      else z

  -- One second's tick: the zone, the events, and whether a refresh is started.
  pub tick : Time → ZoneRuntime l → ZoneRuntime l × List Event × Bool
  unfolding unstick
  tick now z =
      let u = unstick z in
      let due = not (is_zero u.next_refresh) && leb u.next_refresh now in
      let expired =
        not (is_zero u.expire_at) && (ltb u.expire_at now && not (state_eqb u.state stale)) in
      if expired
      then (
        set_state now stale 0 "" "" "SOA EXPIRE elapsed" u,
        record (about zone_stale u.name) { state = state_text stale } ∷ [],
        due,
      )
      else (u, [], due)

  sweep_store : Time → Verifier l → Store l → Set → ZoneRuntime l → ZoneRuntime l × List Event
  unfolding warn_soon
  sweep_store now v st f z =
      let f' = v.sweep_expiry st f in
      let z' = record z { findings = some f' } in
      if ltb (len f) (len f') && (has_errors f' && state_eqb z.state valid)
      then (
        set_state now invalid st.serial "expiry" "" "RRSIG expired" z',
        record (about zone_invalid z.name) { state = state_text invalid }
            ∷ record (about zone_state_changed z.name) { state = state_text invalid }
            ∷ warn_soon z.name f',
      )
      else (z', warn_soon z.name f')

  sweep_parts :
      Time → Verifier l → Option (Store l) → Option Set → ZoneRuntime l → ZoneRuntime l × List Event
  unfolding sweep_store
  sweep_parts now v (some st) (some f) z = sweep_store now v st f z
  sweep_parts now v _ _ z = (z, [])

  -- sweep
  pub sweep : Time → Verifier l → ZoneRuntime l → ZoneRuntime l × List Event
  unfolding sweep_parts
  sweep now v z = sweep_parts now v z.store z.findings z

  -- AddZone: a zone of the configuration is never replaced.
  pub add_zone : Str → Str → List Server → Str → Zones l → Zones l
  add_zone name source servers tsig m =
      let n = canonical l.dns name in
      let m' = Map.put n (new_zone n source servers tsig) m in
      elim (Map.get n m) [ none ↦ m' | some z ↦ if z.source == codes "config" then m else m' ]

  -- RemoveZone and Get
  pub remove_zone : Str → Zones l → Zones l
  remove_zone name m = Map.delete (canonical l.dns name) m

  pub get_zone : Str → Zones l → Option (ZoneRuntime l)
  get_zone name m = Map.get (canonical l.dns name) m

  -- Counts, of one state
  unfoldable pub count_state : State → Zones l → ℕ
  count_state s [] = 0
  count_state s ((k, z) ∷ m) = let n = count_state s m in if state_eqb z.state s then suc n else n

  -- RequestRefresh up to the start of the refresh; `none` is an unknown zone.
  unfoldable request_refresh : Str → Bool → Zones l → Option (Zones l)
  request_refresh name force m =
      let n = canonical l.dns name in
      elim (Map.get n m) [
        | none ↦ none
        | some z ↦ some (if force then Map.put n (record z { refresh_full = true }) m else m)
      ]
