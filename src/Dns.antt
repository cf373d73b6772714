-- ===== src/Dns.antt =====
-- The resource records of github.com/miekg/dns that the program handles, as data, and the
-- operations of that package (and of crypto) that it calls, as an interface with the documented
-- behaviour that the program relies on. Nothing here is code of the repository.
use dnssec_auditor.Common.{ℕ, Str, Bool, true, List, [], ◌∷◌, ◌++◌, Option, ◌≡◌, ◌⊎◌}
use dnssec_auditor.Common.Text.{to_lower, ends_in_dot, dot}

-- dns.SOA
pub record Soa : Type 0 where
  pub ns : Str
  pub mbox : Str
  pub serial : ℕ  -- uint32, as the next four
  pub refresh : ℕ
  pub retry : ℕ
  pub expire : ℕ
  pub minttl : ℕ

-- dns.NSEC3
pub record Nsec3 : Type 0 where
  pub hash : ℕ
  pub flags : ℕ
  pub iterations : ℕ
  pub salt : Str
  pub next_domain : Str
  pub type_bit_map : List ℕ

-- dns.NSEC3PARAM
pub record Nsec3Param : Type 0 where
  pub hash : ℕ
  pub flags : ℕ
  pub iterations : ℕ
  pub salt : Str

-- dns.RRSIG
pub record Rrsig : Type 0 where
  pub type_covered : ℕ
  pub algorithm : ℕ
  pub labels : ℕ
  pub orig_ttl : ℕ
  pub expiration : ℕ
  pub inception : ℕ
  pub key_tag : ℕ
  pub signer_name : Str
  pub signature : Str

-- dns.DNSKEY
pub record Dnskey : Type 0 where
  pub flags : ℕ
  pub protocol : ℕ
  pub algorithm : ℕ
  pub public_key : Str

-- The concrete type behind a dns.RR; `other` stands for the types that the program never inspects.
pub data RData : Type 0 where
  soa : Soa → RData
  nsec : Str → List ℕ → RData
  nsec3 : Nsec3 → RData
  nsec3param : Nsec3Param → RData
  rrsig : Rrsig → RData
  dnskey : Dnskey → RData
  zonemd : ℕ → ℕ → ℕ → Str → RData
  ptr : Str → RData
  txt : List Str → RData
  other : Str → RData

-- A dns.RR: its header and its concrete type.
pub record Rr : Type 0 where
  pub name : Str
  pub rrtype : ℕ
  pub class : ℕ
  pub ttl : ℕ
  pub rdata : RData

-- dns.ClassINET and the dns.Type constants.
abbrev pub class_inet : ℕ
class_inet = 1

abbrev pub type_ns : ℕ
type_ns = 2

abbrev pub type_soa : ℕ
type_soa = 6

abbrev pub type_ptr : ℕ
type_ptr = 12

abbrev pub type_txt : ℕ
type_txt = 16

abbrev pub type_ds : ℕ
type_ds = 43

abbrev pub type_rrsig : ℕ
type_rrsig = 46

abbrev pub type_nsec : ℕ
type_nsec = 47

abbrev pub type_dnskey : ℕ
type_dnskey = 48

abbrev pub type_nsec3 : ℕ
type_nsec3 = 50

abbrev pub type_nsec3param : ℕ
type_nsec3param = 51

abbrev pub type_zonemd : ℕ
type_zonemd = 63

abbrev pub type_tkey : ℕ
type_tkey = 249

-- What the program calls. A conversion that may fail returns `none` for its error.
pub record DnsLib : Type 0 where
  -- dns.IsFqdn and dns.Fqdn: the latter adds the final dot that is missing, and no other
  pub is_fqdn : Str → Bool
  pub fqdn : Str → Str
  pub is_fqdn-fqdn : (s : Str) → is_fqdn (fqdn s) ≡ true
  pub fqdn_id : (s : Str) → is_fqdn s ≡ true → fqdn s ≡ s
  pub fqdn_shape : (s : Str) → (fqdn s ≡ s) ⊎ (fqdn s ≡ s ++ dot ∷ [])
  pub is_fqdn_root : is_fqdn (dot ∷ []) ≡ true
  pub is_fqdn_dot : (s : Str) → is_fqdn s ≡ true → ends_in_dot s ≡ true
  pub is_fqdn-to_lower : (s : Str) → is_fqdn (to_lower s) ≡ is_fqdn s
  -- dns.SplitDomainName and dns.CountLabel
  pub split_domain_name : Str → List Str
  pub count_label : Str → ℕ
  -- dns.PackRR (uncompressed) and dns.UnpackRR
  pub pack_rr : Rr → Option Str
  pub unpack_rr : Str → Option Rr
  -- dns.TypeToString
  pub type_to_string : ℕ → Option Str
