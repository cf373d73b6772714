-- ===== src/Zone/Store/Ring.antt =====
-- internal/zone/store.go: the queries on the NSEC3 ring and on the expiry index, and SigningMode.
pub mod Covering
use dnssec_auditor.Common.{
  ℕ, Str, str_eq, nat_eq, ◌==◌, Bool, true, false, not, ◌&&◌, ◌||◌, Option, none, some, List, [],
  ◌∷◌, ◌++◌, if◌then◌else◌, ltb, leb, any, codes, select,
}
use dnssec_auditor.Common.Map.{Map}
use dnssec_auditor.Dns.{type_nsec, type_nsec3param}
use dnssec_auditor.Zone.Node.{has}
use dnssec_auditor.Zone.Index.{OrderedMap}
use dnssec_auditor.Zone.Index.Last.{first}
use dnssec_auditor.Zone.Entries.{Nsec3Rec, ExpiryRec, padded}
use dnssec_auditor.Zone.Index.{str_ltb}
use dnssec_auditor.Zone.Store.{Libs, Store}

pub value_of : {V : Type 0} → Option (Str × V) → Option V
value_of none = none
value_of (some e) = some e.1

-- `a`, or else `b`.
pub or_else : {V : Type 0} → Option V → Option V → Option V
or_else (some a) b = some a
or_else none b = b

-- The SigningMode labels.
pub data SigningMode : Type 0 where
  signing_unsigned signing_nsec signing_nsec3 signing_mixed : SigningMode

without : Str → Map Str Nsec3Rec → Map Str Nsec3Rec
without hash = select (λ e. not (e.0 == hash))

-- What ExpiringBefore gives to a visitor that does not stop.
take_due : Str → ℕ → Map Str ExpiryRec → List ExpiryRec
take_due end cutoff [] = []
take_due end cutoff ((k, rec) ∷ m) =
    let rest = take_due end cutoff m in
    if str_ltb end k then [] else (if ltb cutoff rec.expiration then [] else rec ∷ rest)

module _ (l : Libs) where
  open l use {ring, expiries}

  -- NSEC3ByHash and NSEC3Count
  unfoldable pub nsec3_by_hash : Str → Store l → Option Nsec3Rec
  nsec3_by_hash hash s = ring.get hash s.nsec3

  unfoldable nsec3_count : Store l → ℕ
  nsec3_count s = ring.len s.nsec3

  -- CoveringNSEC3
  unfoldable pub covering_nsec3 : Str → Store l → Option Nsec3Rec
  unfolding value_of or_else
  covering_nsec3 hash s = or_else (ring.get hash s.nsec3) (
      or_else (value_of (first (ring.descend hash s.nsec3)))
        (value_of (first (ring.reverse_scan s.nsec3))))

  -- NextNSEC3; the visitor goes past the hash itself, which comes first if it is there
  unfoldable pub next_nsec3 : Str → Store l → Option Nsec3Rec
  unfolding value_of or_else without
  next_nsec3 hash s =
      or_else (value_of (first (without hash (ring.ascend hash s.nsec3))))
        (value_of (first (ring.scan s.nsec3)))

  -- PredNSEC3
  unfoldable pub pred_nsec3 : Str → Store l → Option Nsec3Rec
  unfolding value_of or_else without
  pred_nsec3 hash s =
      or_else (value_of (first (without hash (ring.descend hash s.nsec3))))
        (value_of (first (ring.reverse_scan s.nsec3)))

  first_expiration : Option (Str × ExpiryRec) → ℕ
  first_expiration none = 0
  first_expiration (some e) = (e.1).expiration

  -- EarliestExpiry
  unfoldable pub earliest_expiry : Store l → ℕ
  unfolding first_expiration
  earliest_expiry s = first_expiration (first (expiries.scan s.expiry))

  -- ExpiringBefore
  unfoldable pub expiring_before : ℕ → Store l → List ExpiryRec
  unfolding take_due
  expiring_before cutoff s =
      take_due (padded cutoff ++ codes "~") cutoff (expiries.ascend [] s.expiry)

  -- SigningMode
  unfoldable pub signing_mode : Store l → SigningMode
  signing_mode s =
      let has_nsec = any (λ e. has e.1 type_nsec) s.nodes in
      let has_param = any (λ e. has e.1 type_nsec3param) s.nodes in
      let has_nsec3 = ltb 0 (ring.len s.nsec3) || has_param in
      if has_nsec && has_nsec3
      then signing_mixed
      else (if has_nsec3
          then signing_nsec3
          else (if has_nsec then signing_nsec else signing_unsigned))
