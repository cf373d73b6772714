-- ===== src/Zone/Store/Snapshot.antt =====
-- internal/zone/store.go: the snapshot files, as the bytes that are written and read. What stands in
-- the file after an error half-way is left out; the time is in seconds and not negative.
pub mod RoundTrip
use dnssec_auditor.Common.{
  ℕ, zero, suc, ◌+◌, ◌*◌, ◌/◌, ◌%◌, Str, str_eq, ◌==◌, Option, none, some, List, [], ◌∷◌, ◌++◌,
  if◌then◌else◌, length, take, drop, ltb, codes, not,
}
use dnssec_auditor.Dns.{DnsLib, Rr}
use dnssec_auditor.Zone.Store.{Libs, Store, new_store, add_rr}
use dnssec_auditor.Zone.Store.Records.{all_rrs}

-- snapMagic
abbrev pub magic : Str
magic = codes "DSA1"

-- binary.Write of a uint16, a uint32 and an int64, most significant byte first, before what follows
pub put16 : ℕ → Str → Str
put16 n s = n / 256 % 256 ∷ n % 256 ∷ s

pub put32 : ℕ → Str → Str
put32 n s = n / 16777216 % 256 ∷ n / 65536 % 256 ∷ n / 256 % 256 ∷ n % 256 ∷ s

pub put64 : ℕ → Str → Str
put64 n s = put32 (n / 4294967296) (put32 n s)

-- binary.Read
pub get16 : Str → Option (ℕ × Str)
get16 (a ∷ b ∷ s) = some (a * 256 + b, s)
get16 _ = none

pub get32 : Str → Option (ℕ × Str)
get32 (a ∷ b ∷ c ∷ d ∷ s) = some (a * 16777216 + b * 65536 + c * 256 + d, s)
get32 _ = none

-- io.ReadFull
pub get_bytes : ℕ → Str → Option (Str × Str)
get_bytes n s = if ltb (length s) n then none else some (take n s, drop n s)

-- writeString, before what follows
unfoldable pub write_string : Str → Str → Str
write_string w s = put16 (length w) (w ++ s)

-- readString
unfoldable pub read_string : Str → Option (Str × Str)
read_string s = elim (get16 s) [ none ↦ none | some e ↦ get_bytes e.0 e.1 ]

module _ (l : Libs) where
  open l use {dns}

  pub write_rrs : List Rr → Option Str
  write_rrs [] = some []
  write_rrs (rr ∷ rrs) =
      let rest = write_rrs rrs in
      elim (dns.pack_rr rr) [
        | none ↦ none
        | some wire ↦ elim rest [ none ↦ none | some s ↦ some (write_string wire s) ]
      ]

  -- WriteSnapshot, at the time `now`
  unfoldable pub write_snapshot : ℕ → Store l → Option Str
  unfolding write_rrs
  write_snapshot now st = elim (all_rrs l st) [
    | none ↦ none
    | some rrs ↦ elim (write_rrs rrs) [
      | none ↦ none
      | some s ↦
          some
            (magic ++ write_string st.origin (put32 st.serial (put64 now (put32 (length rrs) s))))
    ]
  ]

  -- The loop over the records, `count` of them.
  pub read_rrs : ℕ → Str → Store l → Option (Store l)
  read_rrs zero s st = some st
  read_rrs (suc count) s st = elim (get16 s) [
    | none ↦ none
    | some e ↦ elim (get_bytes e.0 e.1) [
      | none ↦ none
      | some b ↦ elim (dns.unpack_rr b.0) [
        | none ↦ none
        | some rr ↦ elim (add_rr l rr st) [ none ↦ none | some st₁ ↦ read_rrs count b.1 st₁ ]
      ]
    ]
  ]

  pub with_time : ℕ → Option (Store l) → Option (Store l × ℕ)
  with_time t none = none
  with_time t (some st) = some (st, t)

  pub read_count : Str → ℕ → ℕ → Str → Option (Store l × ℕ)
  unfolding with_time
  read_count origin serial saved s = elim (get32 s) [
    | none ↦ none
    | some e ↦ with_time saved (read_rrs e.0 e.1 (record (new_store l origin) { serial = serial }))
  ]

  -- The serial and the time.
  pub read_header : Str → Str → Option (Store l × ℕ)
  read_header origin s = elim (get32 s) [
    | none ↦ none
    | some serial ↦ elim (get32 serial.1) [
      | none ↦ none
      | some high ↦ elim (get32 high.1) [
        | none ↦ none
        | some low ↦ read_count origin serial.0 (high.0 * 4294967296 + low.0) low.1
      ]
    ]
  ]

  pub read_origin : Option (Str × Str) → Option (Store l × ℕ)
  read_origin none = none
  read_origin (some e) = read_header e.0 e.1

  -- ReadSnapshot: the store and the time
  unfoldable pub read_snapshot : Str → Option (Store l × ℕ)
  read_snapshot s = elim (get_bytes 4 s) [
    | none ↦ none
    | some e ↦ if not (e.0 == magic) then none else read_origin (read_string e.1)
  ]
