-- ===== src/Samples.antt =====
-- Sample data for the examples: a small DNS library that meets the interface, records, and a zone.
use dnssec_auditor.Common.{
  ℕ, ◌%◌, Str, str_eq, nat_eq, ◌==◌, true, false, Option, none, some, [], ◌∷◌, ◌++◌, map, ◌≡◌, ◌⊎◌,
  inl, inr, refl, arith, if◌then◌else◌, codes, length, Bool-cases,
}
use dnssec_auditor.Common.Text.{to_lower, lower_byte, has_suffix, ends_in_dot, dot}
use dnssec_auditor.Dns.{
  DnsLib, Rr, RData, Soa, Rrsig, soa, dnskey, rrsig, nsec, zonemd, other, type_soa, type_dnskey,
  type_rrsig, type_nsec, type_zonemd,
}
use dnssec_auditor.Dnssec.Crypto.{Crypto}
use dnssec_auditor.Dnssec.Keys.{CachedKey, pos, rsa}
use dnssec_auditor.Zone.RrSet.{RrSet}
use dnssec_auditor.Dnssec.Verify.{Config}
use dnssec_auditor.Zone.Node.{Node}
use dnssec_auditor.Zone.Store.{Store}
use dnssec_auditor.Dns.{Dnskey}
use dnssec_auditor.Zone.Entries.{Nsec3Rec, ExpiryRec}
use dnssec_auditor.Zone.Store.{Libs}
use dnssec_auditor.Zone.Index.Sorted.{sorted_map}

unfoldable pub with_final_dot : Str → Str
with_final_dot s = if ends_in_dot s then s else s ++ dot ∷ []

ends_in_dot-append : (s : Str) → ends_in_dot (s ++ dot ∷ []) ≡ true
unfolding has_suffix
ends_in_dot-append [] = refl
ends_in_dot-append (c ∷ s) = ground (arith, ends_in_dot-append s)

pub ends_in_dot-to_lower : (s : Str) → ends_in_dot (to_lower s) ≡ ends_in_dot s
unfolding has_suffix to_lower lower_byte
ends_in_dot-to_lower [] = refl
ends_in_dot-to_lower (c ∷ s) = ground (arith, ends_in_dot-to_lower s, last c s)
  where
    last :
        (c : ℕ) (s : Str) → ((lower_byte c ∷ map lower_byte s) == dot ∷ []) ≡ ((c ∷ s) == dot ∷ [])
    last c [] = ground arith
    last c (d ∷ s) = ground arith

pub ends_in_dot-with_final_dot : (s : Str) → ends_in_dot (with_final_dot s) ≡ true
unfolding with_final_dot
ends_in_dot-with_final_dot s = ground (arith, ends_in_dot-append s)

pub with_final_dot_id : (s : Str) → ends_in_dot s ≡ true → with_final_dot s ≡ s
unfolding with_final_dot
with_final_dot_id s h = rw h refl

pub with_final_dot_shape : (s : Str) → (with_final_dot s ≡ s) ⊎ (with_final_dot s ≡ s ++ dot ∷ [])
unfolding with_final_dot
with_final_dot_shape s = elim (Bool-cases (ends_in_dot s)) [
  | inl e ↦ rw e (inl refl)
  | inr e ↦ rw e (inr refl)
]

pub ends_in_dot_root : ends_in_dot (dot ∷ []) ≡ true
unfolding has_suffix
ends_in_dot_root = refl

abbrev pub origin : Str
origin = codes "e."

abbrev pub payload : RData → Str
payload (soa v) = v.serial ∷ v.refresh ∷ v.retry ∷ v.expire ∷ v.minttl ∷ []
payload (dnskey k) = k.flags ∷ k.protocol ∷ k.algorithm ∷ k.public_key
payload (rrsig v) =
    v.type_covered ∷ v.algorithm ∷ v.labels ∷ v.orig_ttl ∷ v.expiration ∷ v.inception ∷ v.key_tag
    ∷ []
payload (nsec next types) = next ++ types
payload (zonemd serial scheme alg digest) = serial ∷ scheme ∷ alg ∷ digest
payload (other s) = s
payload _ = []

unfoldable pub pack : Rr → Option Str
pack rr = some (rr.rrtype ∷ rr.class ∷ rr.ttl ∷ payload rr.rdata)

abbrev pub zone_soa : ℕ → ℕ → ℕ → ℕ → ℕ → Soa
zone_soa serial refresh retry expire minttl = record {
  ns = codes "ns.";
  mbox = codes "m.";
  serial = serial;
  refresh = refresh;
  retry = retry;
  expire = expire;
  minttl = minttl;
}

read_soa : Str → RData
read_soa (a ∷ b ∷ c ∷ d ∷ e ∷ []) = soa (zone_soa a b c d e)
read_soa s = other s

read_dnskey : Str → RData
read_dnskey (f ∷ p ∷ a ∷ s) =
    dnskey (record { flags = f; protocol = p; algorithm = a; public_key = s })
read_dnskey s = other s

abbrev pub zone_sig : ℕ → ℕ → ℕ → ℕ → ℕ → ℕ → ℕ → Rrsig
zone_sig covered alg labels ttl expiration inception tag = record {
  type_covered = covered;
  algorithm = alg;
  labels = labels;
  orig_ttl = ttl;
  expiration = expiration;
  inception = inception;
  key_tag = tag;
  signer_name = origin;
  signature = [];
}

read_rrsig : Str → RData
read_rrsig (a ∷ b ∷ c ∷ d ∷ e ∷ f ∷ g ∷ []) = rrsig (zone_sig a b c d e f g)
read_rrsig s = other s

-- The next name of an NSEC has the length of the origin.
read_nsec : Str → RData
read_nsec (a ∷ b ∷ types) = nsec (a ∷ b ∷ []) types
read_nsec s = other s

read_zonemd : Str → RData
read_zonemd (a ∷ b ∷ c ∷ digest) = zonemd a b c digest
read_zonemd s = other s

unpayload : ℕ → Str → RData
unfolding read_soa read_dnskey read_rrsig read_nsec read_zonemd
unpayload t s =
    if t == type_soa
    then read_soa s
    else (if t == type_dnskey
        then read_dnskey s
        else (if t == type_rrsig
            then read_rrsig s
            else (if t == type_nsec
                then read_nsec s
                else (if t == type_zonemd then read_zonemd s else other s))))

unfoldable pub unpack : Str → Option Rr
unfolding unpayload
unpack (t ∷ class ∷ ttl ∷ s) =
    some (record { name = []; rrtype = t; class = class; ttl = ttl; rdata = unpayload t s })
unpack _ = none

abbrev pub sample_dns : DnsLib
sample_dns = record {
  is_fqdn = λ s. ends_in_dot s;
  fqdn = with_final_dot;
  is_fqdn-fqdn = ends_in_dot-with_final_dot;
  fqdn_id = with_final_dot_id;
  fqdn_shape = with_final_dot_shape;
  is_fqdn_root = ends_in_dot_root;
  is_fqdn_dot = λ s h. h;
  is_fqdn-to_lower = ends_in_dot-to_lower;
  split_domain_name = λ s. s ∷ [];
  count_label = λ s. length s;
  pack_rr = pack;
  unpack_rr = unpack;
  type_to_string = λ t. none;
}

abbrev pub sample_libs : Libs
sample_libs = record {
  dns = sample_dns;
  ring = sorted_map Nsec3Rec;
  expiries = sorted_map ExpiryRec;
}

abbrev pub www : Str
www = codes "w.e."

-- The SOA with this serial.
abbrev pub soa_rr : ℕ → Rr
soa_rr serial = record {
  name = origin;
  rrtype = type_soa;
  class = 1;
  ttl = 60;
  rdata = soa (zone_soa serial 3600 600 86400 60);
}

-- An address record.
abbrev pub a_rr : Str → ℕ → Rr
a_rr name byte = record { name = name; rrtype = 1; class = 1; ttl = 60; rdata = other (byte ∷ []) }

-- A cryptography in which every signature verifies and every key has the tag 7.
abbrev pub sample_crypto : Crypto
sample_crypto = record {
  key_tag = λ k. 7;
  verify = λ sig k rrs. true;
  hash_name = λ name alg iterations salt. name;
  algorithm_to_string = λ a. none;
  rr_string = λ rr. rr.name;
  base64_std = λ s. some s;
  base64_raw = λ s. none;
  sha384 = λ s. length s % 256 ∷ [];
  sha512 = λ s. length s % 256 ∷ [];
}

abbrev pub sample_config : Config
sample_config = record {
  clock_skew = 5;
  expiry_warning = 0;
  zonemd = codes "auto";
  hygiene = record {
    enabled = true;
    nsec3_max_iterations = 0;
    warn_nsec3_salt = true;
    deprecated_algorithms = [];
    warn_rrsig_ttl_mismatch = true;
  };
}

-- An RSA key with both flags.
abbrev pub zone_key : Dnskey
zone_key = record { flags = 257; protocol = 3; algorithm = 8; public_key = 1 ∷ 3 ∷ 5 ∷ [] }

abbrev pub apex_rr : ℕ → RData → Rr
apex_rr rrtype rdata = record { name = origin; rrtype = rrtype; class = 1; ttl = 60; rdata = rdata }

abbrev pub sig_over : ℕ → ℕ → Rr
sig_over covered expiration = apex_rr type_rrsig (rrsig (zone_sig covered 8 2 60 expiration 10 7))

abbrev pub packed : Rr → Str
packed rr = rr.rrtype ∷ rr.class ∷ rr.ttl ∷ payload rr.rdata

abbrev pub signed_rrs : ℕ → RrSet
signed_rrs expiration = record {
  rrtype = type_rrsig;
  ttl = 60;
  rdata =
      packed (sig_over type_soa expiration)
      ∷ packed (sig_over type_dnskey expiration)
      ∷ packed (sig_over type_nsec expiration)
      ∷ [];
}

-- The apex of a zone whose only name is the origin, signed until `expiration`.
abbrev pub signed_apex : ℕ → Node
signed_apex expiration = record {
  name = origin;
  sets =
      (record { rrtype = type_soa; ttl = 60; rdata = packed (soa_rr 1) ∷ [] })
      ∷ (record {
        rrtype = type_dnskey;
        ttl = 60;
        rdata = packed (apex_rr type_dnskey (dnskey zone_key)) ∷ [];
      })
      ∷ (record {
        rrtype = type_nsec;
        ttl = 60;
        rdata =
            packed (
              apex_rr type_nsec
                (nsec origin (type_soa ∷ type_dnskey ∷ type_nsec ∷ type_rrsig ∷ [])))
            ∷ [];
      })
      ∷ signed_rrs expiration
      ∷ [];
  nsec3_hash = [];
  has_nsec3_hash = false;
  is_delegation = false;
  has_ds = false;
}

abbrev pub signed_zone : ℕ → Store sample_libs
signed_zone expiration = record {
  origin = origin;
  serial = 1;
  nodes = (origin, signed_apex expiration) ∷ [];
  nsec3 = sample_libs.ring.empty;
  expiry = sample_libs.expiries.empty;
  rrs = 6;
}

abbrev pub cached_key : CachedKey
cached_key = record {
  rr = zone_key;
  key_tag = 7;
  flags = 257;
  alg = 8;
  public = rsa 5 (pos 3);
  is_ksk = true;
  is_zone = true;
  used = false;
}
