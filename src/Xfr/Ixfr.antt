-- ===== src/Xfr/Ixfr.antt =====
-- internal/xfr/client.go: parseIXFR and stripSOAEnvelope.
pub mod Single
pub mod Multi
pub mod Full
use dnssec_auditor.Common.{
  ℕ, zero, suc, Str, nat_eq, ◌==◌, Bool, true, false, not, ◌&&◌, Option, none, some, List, [], ◌∷◌,
  ◌++◌, if◌then◌else◌, length, leb,
}
use dnssec_auditor.Dns.{
  Rr, RData, Soa, soa, nsec, nsec3, nsec3param, rrsig, dnskey, zonemd, ptr, txt, other,
}

-- rr.(*dns.SOA)
pub soa_of : RData → Option Soa
soa_of (soa v) = some v
soa_of (nsec _ _) = none
soa_of _ = none

unfoldable pub as_soa : Rr → Option Soa
unfolding soa_of
as_soa rr = soa_of rr.rdata

-- The first loop of parseIXFR.
pub soas : List Rr → List Soa
soas [] = []
soas (rr ∷ rrs) = let rest = soas rrs in elim (as_soa rr) [ none ↦ rest | some v ↦ v ∷ rest ]

pub data Mode : Type 0 where
  looking deleting adding : Mode

pub record Parsed : Type 0 where
  pub adds : List Rr
  pub removes : List Rr
  pub serial : ℕ
  pub fallback : Bool

-- The body of the walk: the next mode, and what `rr` appends to `adds` and to `removes`.
unfoldable pub step : ℕ → Mode → Rr → Mode × List Rr × List Rr
step serial looking rr = elim (as_soa rr) [ none ↦ (looking, [], []) | some v ↦ (deleting, [], []) ]
step serial deleting rr = elim (as_soa rr) [
  | none ↦ (deleting, [], rr ∷ [])
  | some v ↦ if v.serial == serial then (adding, rr ∷ [], []) else (deleting, [], rr ∷ [])
]
step serial adding rr = elim (as_soa rr) [
  | none ↦ (adding, rr ∷ [], [])
  | some v ↦ if not (v.serial == serial) then (deleting, [], rr ∷ []) else (adding, [], [])
]

-- The second loop.
unfoldable pub walk : ℕ → Mode → List Rr → List Rr × List Rr
walk serial mode [] = ([], [])
walk serial mode (rr ∷ rrs) =
    let (mode', a, r) = step serial mode rr in
    let (adds, removes) = walk serial mode' rrs in (a ++ adds, r ++ removes)

same_pair : List Soa → Bool
same_pair (a ∷ b ∷ []) = a.serial == b.serial
same_pair _ = false

-- parseIXFR behind its first test
parse_from : List Soa → List Rr → ℕ → Parsed
unfolding same_pair
parse_from [] rrs from = record { adds = []; removes = []; serial = 0; fallback = true }
parse_from (a ∷ rest) rrs from =
    if same_pair (a ∷ rest)
    then record { adds = []; removes = []; serial = a.serial; fallback = true }
    else (if leb (length (a ∷ rest)) 2 && a.serial == from
        then record { adds = []; removes = []; serial = a.serial; fallback = false }
        else (let (adds, removes) = walk a.serial looking rrs in
            record { adds = adds; removes = removes; serial = a.serial; fallback = false }))

-- parseIXFR
unfoldable pub parse_ixfr : List Rr → ℕ → Parsed
unfolding soas parse_from
parse_ixfr rrs from = parse_from (soas rrs) rrs from

is_soa : Rr → Bool
is_soa rr = elim (as_soa rr) [ none ↦ false | some v ↦ true ]

-- The loop of stripSOAEnvelope; `i == len(rrs) - 1` says that nothing follows.
strip : Bool → List Rr → List Rr
unfolding is_soa
strip seen [] = []
strip seen (rr ∷ rrs) =
    let rest = strip (if is_soa rr then true else seen) rrs in
    if is_soa rr && not seen
    then rr ∷ rest
    else (if is_soa rr && length rrs == 0 then rest else rr ∷ rest)

-- stripSOAEnvelope
pub strip_soa_envelope : List Rr → List Rr
unfolding strip
strip_soa_envelope rrs = strip false rrs
