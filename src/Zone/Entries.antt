-- ===== src/Zone/Entries.antt =====
-- internal/zone/store.go: the entries of the NSEC3 index and of the expiry index, and their keys.
use dnssec_auditor.Common.{
  ℕ, zero, suc, ◌+◌, ◌-◌, ◌*◌, Str, str_eq, nat_eq, ◌==◌, ◌&&◌, ◌||◌, Option, none, some, List, [],
  ◌∷◌, ◌++◌, if◌then◌else◌, length, codes, leb,
}
use dnssec_auditor.Common.Decimal.{decimal}
use dnssec_auditor.Dns.{DnsLib, Nsec3, Rrsig}
use dnssec_auditor.DnsName.{canonical}
use dnssec_auditor.Zone.Hash.{hash_from_owner, hash_from_base32}

pub record Nsec3Rec : Type 0 where
  pub hash : Str
  pub owner : Str
  pub next : Str
  pub iterations : ℕ
  pub salt : Str
  pub flags : ℕ
  pub type_bit_map : List ℕ

pub record ExpiryRec : Type 0 where
  pub expiration : ℕ
  pub owner : Str
  pub type_covered : ℕ
  pub key_tag : ℕ

-- %010d
pad_to : ℕ → Str → Str
pad_to zero s = s
pad_to (suc n) s = 48 ∷ pad_to n s

pub padded : ℕ → Str
unfolding pad_to
padded n = let s = decimal n in pad_to (10 - length s) s

abbrev colon : ℕ
colon = 58

-- expiryKey
unfoldable pub expiry_key : ℕ → Str → ℕ → ℕ → Str
unfolding padded
expiry_key exp name covered tag =
    padded exp ++ colon ∷ (name ++ colon ∷ (decimal covered ++ colon ∷ decimal tag))

-- A hexadecimal digit as `%02x` of Sscanf reads it.
hex_digit : ℕ → Option ℕ
hex_digit c =
    if leb 48 c && leb c 57
    then some (c - 48)
    else (if leb 65 c && leb c 70
        then some (c - 55)
        else (if leb 97 c && leb c 102 then some (c - 87) else none))

hex_byte : ℕ → ℕ → ℕ
unfolding hex_digit
hex_byte a b = elim (hex_digit a) [
  | none ↦ 0
  | some x ↦ elim (hex_digit b) [ none ↦ x | some y ↦ x * 16 + y ]
]

hex_bytes : Str → Str
unfolding hex_byte
hex_bytes (a ∷ b ∷ s) = hex_byte a b ∷ hex_bytes s
hex_bytes _ = []

-- saltBytes; nil is the empty list
pub salt_bytes : Str → Str
unfolding hex_bytes
salt_bytes s = if s == [] || s == codes "-" then [] else hex_bytes s

or_empty : Option Str → Str
or_empty none = []
or_empty (some s) = s

or_text : Str → Option Str → Str
or_text t none = t
or_text t (some s) = s

unfoldable pub nsec3_rec : DnsLib → Str → Nsec3 → Nsec3Rec
unfolding or_empty or_text salt_bytes
nsec3_rec d owner n = record {
  hash = or_empty (hash_from_owner d owner);
  owner = canonical d owner;
  next = or_text n.next_domain (hash_from_base32 n.next_domain);
  iterations = n.iterations;
  salt = salt_bytes n.salt;
  flags = n.flags;
  type_bit_map = n.type_bit_map;
}

pub expiry_rec : Str → Rrsig → ExpiryRec
expiry_rec name v = record {
  expiration = v.expiration;
  owner = name;
  type_covered = v.type_covered;
  key_tag = v.key_tag;
}
