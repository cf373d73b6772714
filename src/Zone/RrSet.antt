-- ===== src/Zone/RrSet.antt =====
-- internal/zone/rrset.go: RRsets as packed wire records, and signatures. Errors are `none`.
use dnssec_auditor.Common.{
  ℕ, Str, str_eq, nat_eq, ◌==◌, not, ◌&&◌, Option, none, some, List, [], ◌∷◌, if◌then◌else◌,
}
use dnssec_auditor.Dns.{DnsLib, Rr, Rrsig, rrsig, type_rrsig, class_inet}

pub record RrSet : Type 0 where
  pub rrtype : ℕ
  pub ttl : ℕ
  pub rdata : List Str

-- RRSet.Clone: values have no identity here, so the copy is the set again.
unfoldable pub clone : RrSet → RrSet
clone s = record { rrtype = s.rrtype; ttl = s.ttl; rdata = s.rdata }

own : Str → ℕ → Rr → Rr
own name ttl rr = record rr {
  name = if rr.name == [] then name else rr.name;
  ttl = if rr.ttl == 0 && not (ttl == 0) then ttl else rr.ttl;
}

module _ (d : DnsLib) where
  -- unpackOne
  unpack_one : Str → ℕ → Str → Option Rr
  unfolding own
  unpack_one name ttl wire = elim (d.unpack_rr wire) [
    | none ↦ none
    | some rr ↦ some (own name ttl rr)
  ]

  unpack_all : Str → ℕ → List Str → Option (List Rr)
  unpack_all name ttl [] = some []
  unpack_all name ttl (rd ∷ rds) =
      let rest = unpack_all name ttl rds in
      elim (unpack_one name ttl rd) [
        | none ↦ none
        | some rr ↦ elim rest [ none ↦ none | some rrs ↦ some (rr ∷ rrs) ]
      ]

  -- RRSet.Unpack
  unfoldable pub unpack : RrSet → Str → Option (List Rr)
  unfolding unpack_all unpack_one
  unpack s name = unpack_all name s.ttl s.rdata

  -- PackRR
  unfoldable pub pack_rr : Rr → Option Str
  pack_rr rr = d.pack_rr rr

  -- ParseRRSIG; a CompactRRSIG has the fields of the record
  unfoldable pub parse_rrsig : Rrsig → Rrsig
  parse_rrsig rr = record rr { signer_name = d.fqdn rr.signer_name }

-- RRSIGFromCompact
unfoldable pub rrsig_from_compact : Str → ℕ → Rrsig → Rr
rrsig_from_compact name ttl c = record {
  name = name;
  rrtype = type_rrsig;
  class = class_inet;
  ttl = ttl;
  rdata = rrsig c;
}
