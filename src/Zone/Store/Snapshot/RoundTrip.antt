-- ===== src/Zone/Store/Snapshot/RoundTrip.antt =====
-- What is written as a snapshot is read back.
use dnssec_auditor.Common.{
  ℕ, ◌+◌, ◌*◌, ◌/◌, ◌%◌, ◌<◌, Str, str_eq, some, List, [], ◌∷◌, ◌++◌, length, All, take-append,
  drop-append, length-append, ◌≡◌, ◌∙◌, ap, refl, arith, Option-cases, inl, inr,
}
use dnssec_auditor.Dns.{Rr}
use dnssec_auditor.Zone.Store.{Libs, Store, new_store, add_rr, from_rrs}
use dnssec_auditor.Zone.Store.Records.{all_rrs}
use dnssec_auditor.Zone.Store.Snapshot.{
  magic, put16, put32, put64, get16, get32, get_bytes, write_string, read_string, write_rrs,
  write_snapshot, read_rrs, with_time, read_count, read_header, read_origin, read_snapshot,
}

get16-put16 : (n : ℕ) (s : Str) → n < 65536 → get16 (put16 n s) ≡ some (n, s)
unfolding get16 put16
get16-put16 n s h = ap (λ x. some (x, s)) (omega (arith, h))

get32-put32 : (n : ℕ) (s : Str) → get32 (put32 n s) ≡ some (n % 4294967296, s)
unfolding get32 put32
get32-put32 n s = ap (λ x. some (x, s)) (omega arith)

get32_small : (n : ℕ) (s : Str) → n < 4294967296 → get32 (put32 n s) ≡ some (n, s)
get32_small n s h = get32-put32 n s ∙ ap (λ x. some (x, s)) (omega (arith, h))

get_bytes-append : (w s : Str) → get_bytes (length w) (w ++ s) ≡ some (w, s)
unfolding get_bytes
get_bytes-append w s = ground (arith, length-append w s, take-append w s, drop-append w s)

read_string-write_string :
    (w s : Str) → length w < 65536 → read_string (write_string w s) ≡ some (w, s)
unfolding read_string write_string
read_string-write_string w s h =
    rw (get16-put16 (length w) (w ++ s) h, read_string) (get_bytes-append w s)

get_bytes-magic : (s : Str) → get_bytes 4 (magic ++ s) ≡ some (magic, s)
get_bytes-magic s = get_bytes-append magic s

module _ (l : Libs) where
  open l use {dns}

  -- The record packs to a wire form of at most 65535 bytes, which unpacks to the record.
  pub record Packs (rr : Rr) : Type 0 where
    pub wire : Str
    pub packed : dns.pack_rr rr ≡ some wire
    pub short : length wire < 65536
    pub unpacked : dns.unpack_rr wire ≡ some rr

  -- What is written for the records, and that it is read back.
  record Written (rrs : List Rr) : Type 0 where
    bytes : Str
    wrote : write_rrs l rrs ≡ some bytes
    read : (st : Store l) → read_rrs l (length rrs) bytes st ≡ from_rrs l rrs st

  write_rrs-Written : (rrs : List Rr) → All Packs rrs → Written rrs
  unfolding write_rrs read_rrs from_rrs write_string
  write_rrs-Written [] h = record { bytes = []; wrote = refl; read = λ st. refl }
  write_rrs-Written (rr ∷ rrs) h =
      let rest : Written rrs = write_rrs-Written rrs h.1 in
      let one : Packs rr = h.0 in
      record {
        bytes = write_string one.wire rest.bytes;
        wrote = rw (one.packed, rest.wrote, write_rrs) refl;
        read = λ st.
            rw
              (
                get16-put16 (length one.wire) (one.wire ++ rest.bytes) one.short,
                get_bytes-append one.wire rest.bytes,
                one.unpacked,
                read_rrs,
                write_string,
              )
              (elim (Option-cases (add_rr l rr st)) [
                | inl bad ↦ rw (bad, read_rrs, from_rrs) refl
                | inr (t, good) ↦ rw (good, read_rrs, from_rrs) (rest.read t)
              ]);
      }

  halves : (n : ℕ) (s : Str) → put64 n s ≡ put32 (n / 4294967296) (put32 n s)
  unfolding put64
  halves n s = refl

  time_back : (n : ℕ) → n < 18446744073709551616 → n / 4294967296 * 4294967296 + n % 4294967296 ≡ n
  time_back n h = omega (arith, h)

  read_header-put :
      (origin : Str) (serial now count : ℕ) (s : Str)
      → serial < 4294967296
      → now < 18446744073709551616
      → count < 4294967296
      → read_header l origin (put32 serial (put64 now (put32 count s)))
        ≡ with_time l now (read_rrs l count s (record (new_store l origin) { serial = serial }))
  unfolding read_header read_count
  read_header-put origin serial now count s hs hn hc =
      let high : now / 4294967296 < 4294967296 = omega (arith, hn) in
      rw
        (
          get32_small serial (put64 now (put32 count s)) hs,
          read_header,
          halves now (put32 count s),
          get32_small (now / 4294967296) (put32 now (put32 count s)) high,
          get32-put32 now (put32 count s),
          read_count,
          get32_small count s hc,
          time_back now hn,
        )
        refl

  -- What WriteSnapshot writes is read by ReadSnapshot as the time of writing and a store that is built from
  -- the origin, the serial and the records of the written store, in order, provided that each record
  -- packs to at most 65535 bytes that unpack to it, that the origin is shorter than 65536 bytes, the serial
  -- and the number of records are below 2^32, and the time is below 2^64.
  pub read_snapshot-write_snapshot :
      (now : ℕ) (st : Store l) (rrs : List Rr)
      → all_rrs l st ≡ some rrs
      → All Packs rrs
      → length st.origin < 65536
      → st.serial < 4294967296
      → length rrs < 4294967296
      → now < 18446744073709551616
      → (bytes : Str) × (write_snapshot l now st ≡ some bytes)
        × (read_snapshot l bytes
            ≡ with_time l now
                (from_rrs l rrs (record (new_store l st.origin) { serial = st.serial })))
  unfolding write_snapshot read_snapshot read_origin
  read_snapshot-write_snapshot now st rrs hr hp ho hs hc hn =
      let done : Written rrs = write_rrs-Written rrs hp in
      let tail = put32 st.serial (put64 now (put32 (length rrs) done.bytes)) in
      let body = write_string st.origin tail in
      (
        magic ++ body,
        rw (hr, done.wrote, write_snapshot) refl,
        rw
            (
              get_bytes-magic body,
              read_string-write_string st.origin tail ho,
              read_snapshot,
              read_origin,
              read_header-put st.origin st.serial now (length rrs) done.bytes hs hn hc,
              done.read (record (new_store l st.origin) { serial = st.serial }),
            )
            refl,
      )
