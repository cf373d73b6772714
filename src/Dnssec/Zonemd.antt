-- ===== src/Dnssec/Zonemd.antt =====
-- internal/dnssec/zonemd.go: the digest of a zone and its check (RFC 8976). A check returns the
-- findings that it adds, in order.
pub mod Hex
pub mod Digest
pub mod Codes
use Prim.Native.Nat.{Ordering}
use dnssec_auditor.Common.{
  ℕ, ◌+◌, ◌-◌, ◌*◌, ◌/◌, Str, str_eq, nat_eq, ◌==◌, Bool, true, false, not, ◌&&◌, ◌||◌, Option,
  none, some, is_some, List, [], ◌∷◌, ◌++◌, if◌then◌else◌, length, ltb, leb, codes, String,
}
use dnssec_auditor.Common.Text.{to_lower}
use dnssec_auditor.Common.Sort.{sort_by}
use dnssec_auditor.Dns.{
  DnsLib, Rr, RData, soa, nsec, nsec3, nsec3param, rrsig, dnskey, zonemd, ptr, txt, other,
  type_zonemd,
}
use dnssec_auditor.Zone.Node.{unpack_type}
use dnssec_auditor.Zone.Index.{str_leb}
use dnssec_auditor.Zone.Canonical.{hex_encode}
use dnssec_auditor.Zone.Store.{Libs, Store, apex}
use dnssec_auditor.Zone.Store.Records.{name_leb, all_rrs}
use dnssec_auditor.Dnssec.Findings.{Time, Finding, Message, error, num, say, new_finding}
use dnssec_auditor.Dnssec.Crypto.{Crypto}

-- dns.ZONEMD
pub record Zonemd : Type 0 where
  pub serial : ℕ
  pub scheme : ℕ
  pub hash : ℕ
  pub digest : Str

unfoldable pub as_zonemd : RData → Option Zonemd
as_zonemd (zonemd a b c s) = some (record { serial = a; scheme = b; hash = c; digest = s })
as_zonemd (soa _) = none
as_zonemd _ = none

-- An RRSIG that covers a ZONEMD.
unfoldable pub is_zonemd_sig : RData → Bool
is_zonemd_sig (rrsig v) = v.type_covered == type_zonemd
is_zonemd_sig (soa _) = false
is_zonemd_sig _ = false

-- strings.Repeat("00", n / 2)
zeros_for : Str → Str
zeros_for (a ∷ b ∷ s) = 48 ∷ 48 ∷ zeros_for s
zeros_for _ = []

blank : RData → RData
unfolding zeros_for
blank (zonemd a b c s) = zonemd a b c (zeros_for s)
blank (soa v) = soa v
blank v = v

-- The record that is digested: under the scheme SIMPLE a ZONEMD has its digest blanked.
unfoldable pub digested : ℕ → Rr → Rr
unfolding blank
digested scheme rr = if scheme == 1 then record rr { rdata = blank rr.rdata } else rr

-- A hexadecimal digit of hex.DecodeString.
from_hex_char : ℕ → Option ℕ
from_hex_char c =
    if leb 48 c && leb c 57
    then some (c - 48)
    else (if leb 97 c && leb c 102
        then some (c - 87)
        else (if leb 65 c && leb c 70 then some (c - 55) else none))

byte_of : Option ℕ → Option ℕ → Option ℕ
byte_of (some x) (some y) = some (x * 16 + y)
byte_of none _ = none
byte_of _ none = none

cons_byte : Option ℕ → Option Str → Option Str
cons_byte (some x) (some s) = some (x ∷ s)
cons_byte none _ = none
cons_byte _ none = none

-- hex.DecodeString
unfoldable pub hex_decode : Str → Option Str
unfolding from_hex_char byte_of cons_byte
hex_decode [] = some []
hex_decode (a ∷ []) = none
hex_decode (a ∷ b ∷ s) = cons_byte (byte_of (from_hex_char a) (from_hex_char b)) (hex_decode s)

module _ (d : DnsLib) (c : Crypto) where
  -- The comparison of the canonical sort, as "not after".
  pub rr_leb : Rr → Rr → Bool
  rr_leb a b =
      let na = to_lower a.name in
      let nb = to_lower b.name in
      if not (na == nb)
      then name_leb d na nb
      else (if not (a.rrtype == b.rrtype)
          then ltb a.rrtype b.rrtype
          else str_leb (c.rr_string a) (c.rr_string b))

  join : Option Str → Option Str → Option Str
  join (some a) (some b) = some (a ++ b)
  join none _ = none
  join _ none = none

  -- What the loop writes to the hash.
  pub wire_of : ℕ → List Rr → Option Str
  unfolding join
  wire_of scheme [] = some []
  wire_of scheme (rr ∷ rrs) =
      let rest = wire_of scheme rrs in
      if is_zonemd_sig rr.rdata then rest else join (d.pack_rr (digested scheme rr)) rest

  sum_with : ℕ → Option Str → Option Str
  sum_with alg none = none
  sum_with alg (some bytes) = some (if alg == 1 then c.sha384 bytes else c.sha512 bytes)

  digest_rrs : ℕ → ℕ → Option (List Rr) → Option Str
  unfolding sum_with
  digest_rrs scheme alg none = none
  digest_rrs scheme alg (some rrs) = sum_with alg (wire_of scheme (sort_by rr_leb rrs))

module _ (l : Libs) (c : Crypto) (now : Time) where
  open l use {dns}

  -- ComputeZONEMD
  unfoldable pub compute_zonemd : Store l → ℕ → ℕ → Option Str
  unfolding digest_rrs wire_of rr_leb
  compute_zonemd st scheme alg =
      if alg == 1 || alg == 2 then digest_rrs dns c scheme alg (all_rrs l st) else none

  mismatch : Store l → String → Finding
  mismatch st text = new_finding dns now "ZONEMD_MISMATCH" error st.origin type_zonemd (say text)

  -- The digest, and what the record says of it: the findings, and whether it matches.
  compare_digest : Store l → Str → Option Str → Option Str → List Finding × Bool
  unfolding mismatch
  compare_digest st said none want =
      (mismatch st "unsupported ZONEMD hash or unpackable zone" ∷ [], false)
  compare_digest st said (some digest) none = (mismatch st "bad ZONEMD digest encoding" ∷ [], false)
  compare_digest st said (some digest) (some want) =
      ([], hex_encode digest == to_lower said || digest == want)

  check_one : Store l → Option Zonemd → List Finding × Bool
  unfolding compare_digest
  check_one st none = ([], false)
  check_one st (some z) =
      compare_digest st z.digest (compute_zonemd st z.scheme z.hash) (hex_decode z.digest)

  -- The loop over the ZONEMD records.
  pub check_all : Store l → List Rr → List Finding × Bool
  unfolding check_one as_zonemd
  check_all st [] = ([], false)
  check_all st (rr ∷ rrs) =
      let one = check_one st (as_zonemd rr.rdata) in
      let rest = check_all st rrs in (one.0 ++ rest.0, one.1 || rest.1)

  -- What the check adds to the result: the findings, ZONEMDChecked and ZONEMDOK.
  zonemd_of : Str → Store l → Option (List Rr) → List Finding × Bool × Bool
  unfolding mismatch
  zonemd_of mode st none = ([], false, false)
  zonemd_of mode st (some []) =
      if mode == codes "on"
      then (
        new_finding dns now "ZONEMD_MISSING" error st.origin type_zonemd
              (say "ZONEMD required but missing")
            ∷ [],
        false,
        false,
      )
      else ([], false, false)
  zonemd_of mode st (some (rr ∷ rrs)) =
      let checked = check_all st (rr ∷ rrs) in
      if mode == codes "off" then ([], false, false) else (
        checked.0 ++ (if checked.1 then [] else mismatch st "ZONEMD digest mismatch" ∷ []),
        true,
        checked.1,
      )

  -- verifyZONEMD
  unfoldable pub verify_zonemd : Str → Store l → List Finding × Bool × Bool
  unfolding zonemd_of check_all
  verify_zonemd mode st = elim (apex l st) [
    | none ↦ ([], false, false)
    | some n ↦ zonemd_of (to_lower mode) st (unpack_type dns n type_zonemd)
  ]
