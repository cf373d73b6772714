-- ===== src/Xfr/Client.antt =====
-- internal/xfr/client.go: ProbeSOA, AXFR and IXFR. What the network gives is an argument: the two
-- exchanges of a probe, and the envelopes of a transfer. `none` is an error; timing, TSIG and the
-- text of an error are left out.
pub mod Transfers
pub mod Incremental
use dnssec_auditor.Common.{
  ℕ, zero, suc, ◌+◌, Str, nat_eq, ◌==◌, Bool, true, false, Option, none, some, List, [], ◌∷◌, ◌++◌,
  if◌then◌else◌, length,
}
use dnssec_auditor.Dns.{Rr, Soa, type_tkey}
use dnssec_auditor.DnsName.{canonical}
use dnssec_auditor.Zone.Store.{Libs, Store, new_store, add_rr, from_axfr}
use dnssec_auditor.Xfr.Ixfr.{as_soa, Parsed, parse_ixfr, strip_soa_envelope}

-- SOAResult
pub record SoaResult : Type 0 where
  pub server : Str
  pub serial : ℕ
  pub refresh : ℕ
  pub retry : ℕ
  pub expire : ℕ
  pub reachable : Bool
  pub failed : Bool

abbrev pub no_answer : Str → SoaResult
no_answer server = record {
  server = server;
  serial = 0;
  refresh = 0;
  retry = 0;
  expire = 0;
  reachable = false;
  failed = true;
}

-- The loop over `r.Answer`.
unfoldable pub first_soa : Str → List Rr → SoaResult
first_soa server [] = no_answer server
first_soa server (rr ∷ rrs) =
    let rest = first_soa server rrs in
    elim (as_soa rr) [
      | none ↦ rest
      | some v ↦ record {
        server = server;
        serial = v.serial;
        refresh = v.refresh;
        retry = v.retry;
        expire = v.expire;
        reachable = true;
        failed = false;
      }
    ]

unfoldable pub answer_of : Str → Option (List Rr) → SoaResult
unfolding first_soa
answer_of server none = no_answer server
answer_of server (some answer) = first_soa server answer

-- ProbeSOA: over UDP, and again over TCP if that fails.
unfoldable pub probe_soa : Str → Option (List Rr) → Option (List Rr) → SoaResult
unfolding answer_of
probe_soa server udp tcp = elim udp [
  | some answer ↦ answer_of server (some answer)
  | none ↦ answer_of server tcp
]

pub data Method : Type 0 where
  axfr ixfr : Method

-- Result
pub record Result (l : Libs) : Type 0 where
  pub store : Option (Store l)
  pub adds : List Rr
  pub removes : List Rr
  pub method : Method
  pub fallback : Bool
  pub serial : ℕ
  pub records : ℕ
  pub server : Str

-- dns.Envelope, and whether the context is done after it was read
pub record Envelope : Type 0 where
  pub failed : Bool
  pub rrs : List Rr
  pub cancelled : Bool

module _ (l : Libs) where
  -- The inner loop of AXFR.
  unfoldable pub load : List Rr → Store l → ℕ → Option (Store l × ℕ)
  load [] s n = some (s, n)
  load (rr ∷ rrs) s n =
      let skip = load rrs s n in
      if rr.rrtype == type_tkey
      then skip
      else elim (add_rr l rr s) [ none ↦ none | some s' ↦ load rrs s' (n + 1) ]

  -- The outer loop.
  unfoldable pub load_all : List Envelope → Store l → ℕ → Option (Store l × ℕ)
  unfolding load
  load_all [] s n = some (s, n)
  load_all (env ∷ envs) s n = if env.failed then none else elim (load env.rrs s n) [
    | none ↦ none
    | some (s', n') ↦ let rest = load_all envs s' n' in if env.cancelled then none else rest
  ]

  -- AXFR; the channel of envelopes is missing if the request could not be sent.
  unfoldable pub transfer_full : Str → Str → Option (List Envelope) → Option (Result l)
  unfolding load_all
  transfer_full zname server none = none
  transfer_full zname server (some envs) =
      elim (load_all envs (new_store l (canonical l.dns zname)) 0) [
        | none ↦ none
        | some (st, n) ↦ some (record {
          store = some st;
          adds = [];
          removes = [];
          method = axfr;
          fallback = false;
          serial = st.serial;
          records = n;
          server = server;
        })
      ]

  pub collect : List Envelope → Option (List Rr)
  collect [] = some []
  collect (env ∷ envs) =
      let rest = collect envs in
      if env.failed
      then none
      else (if env.cancelled
          then none
          else elim rest [ none ↦ none | some rrs ↦ some (env.rrs ++ rrs) ])

  -- IXFR behind the channel
  unfoldable pub interpret : Str → ℕ → Str → List Rr → Option (Result l)
  interpret zname from server all =
      let p = parse_ixfr all from in
      let res : Result l = record {
        store = none;
        adds = p.adds;
        removes = p.removes;
        method = ixfr;
        fallback = p.fallback;
        serial = p.serial;
        records = length all;
        server = server;
      } in
      if p.fallback
      then elim (from_axfr l (canonical l.dns zname) (strip_soa_envelope all)) [
        | none ↦ none
        | some st ↦
            some
              (record res { store = some st; method = axfr; serial = st.serial; records = st.rrs })
      ]
      else some res

  -- IXFR
  unfoldable pub transfer_incremental : Str → ℕ → Str → Option (List Envelope) → Option (Result l)
  unfolding collect interpret
  transfer_incremental zname from server none = none
  transfer_incremental zname from server (some envs) = elim (collect envs) [
    | none ↦ none
    | some all ↦ interpret zname from server all
  ]
