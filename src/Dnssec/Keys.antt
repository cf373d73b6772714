-- ===== src/Dnssec/Keys.antt =====
-- internal/dnssec/keys.go: the keys of a zone with their parsed public keys. A curve stands for itself,
-- and a big.Int for its value; an RSA exponent is an `int` of 64 bits, with its sign.
pub mod Rsa
use dnssec_auditor.Common.{
  ℕ, zero, suc, ◌+◌, ◌-◌, ◌*◌, ◌/◌, ◌%◌, ◌^◌, Str, str_eq, nat_eq, ◌==◌, Bool, true, false, not,
  ◌||◌, Option, none, some, List, [], ◌∷◌, ◌++◌, if◌then◌else◌, length, drop, take, ltb, leb, codes,
}
use dnssec_auditor.Common.Decimal.{decimal}
use dnssec_auditor.Dns.{Dnskey}
use dnssec_auditor.Dnssec.Crypto.{Crypto}

pub data ℤ : Type 0 where
  pos : ℕ → ℤ
  negsuc : ℕ → ℤ

pub data Curve : Type 0 where
  p256 p384 : Curve

-- crypto.PublicKey, as far as parsePublicKey makes one
pub data PublicKey : Type 0 where
  rsa : ℕ → ℤ → PublicKey
  ecdsa : Curve → ℕ → ℕ → PublicKey
  ed25519 : Str → PublicKey

-- CachedKey
pub record CachedKey : Type 0 where
  pub rr : Dnskey
  pub key_tag : ℕ
  pub flags : ℕ
  pub alg : ℕ
  pub public : PublicKey
  pub is_ksk : Bool
  pub is_zone : Bool
  pub used : Bool

-- big.Int.SetBytes
value_of : ℕ → Str → ℕ
value_of acc [] = acc
value_of acc (b ∷ bs) = value_of (acc * 256 + b) bs

unfoldable pub set_bytes : Str → ℕ
unfolding value_of
set_bytes s = value_of 0 s

abbrev i64 : ℕ
i64 = 2 ^ 63

abbrev u64 : ℕ
u64 = 2 ^ 64

-- big.Int.Int64: for a value beyond an int64, which its documentation leaves open, the low 64 bits in
-- two's complement, as Go's implementation has it
unfoldable pub to_int64 : ℕ → ℤ
to_int64 e = let w = e % u64 in if ltb w i64 then pos w else negsuc (u64 - 1 - w)

-- The length of the exponent and the offset where it starts.
exponent_at : Str → ℕ × ℕ
exponent_at (zero ∷ hi ∷ lo ∷ rest) = (hi * 256 + lo, 3)
exponent_at (n ∷ rest) = (n, 1)
exponent_at [] = (0, 1)

-- parseRSA
unfoldable pub parse_rsa : Str → Option PublicKey
unfolding exponent_at to_int64
parse_rsa raw =
    let (explen, off) = exponent_at raw in
    let e = set_bytes (take explen (drop off raw)) in
    let n = set_bytes (drop (off + explen) raw) in
    if ltb (length raw) 3
    then none
    else (if leb (length raw) (off + explen) then none else some (rsa n (to_int64 e)))

curve_bits : Curve → ℕ
curve_bits p256 = 256
curve_bits p384 = 384

-- parseECDSA
unfoldable pub parse_ecdsa : Str → Curve → Option PublicKey
unfolding curve_bits
parse_ecdsa raw curve =
    let size = (curve_bits curve + 7) / 8 in
    if not (length raw == 2 * size)
    then none
    else some (ecdsa curve (set_bytes (take size raw)) (set_bytes (drop size raw)))

-- dns.RSAMD5, RSASHA1, RSASHA1NSEC3SHA1, RSASHA256 and RSASHA512
is_rsa : ℕ → Bool
is_rsa a = a == 1 || (a == 5 || (a == 7 || (a == 8 || a == 10)))

parse_raw : ℕ → Str → Option PublicKey
unfolding is_rsa
parse_raw alg raw =
    if is_rsa alg
    then parse_rsa raw
    else (if alg == 13
        then parse_ecdsa raw p256
        else (if alg == 14
            then parse_ecdsa raw p384
            else (if alg == 15
                then (if length raw == 32 then some (ed25519 raw) else none)
                else none)))

-- k.Flags & dns.SEP and k.Flags & dns.ZONE
unfoldable pub is_sep : ℕ → Bool
is_sep flags = flags % 2 == 1

unfoldable pub is_zone_flag : ℕ → Bool
is_zone_flag flags = flags / 256 % 2 == 1

module _ (c : Crypto) where
  decode_key : Str → Option Str
  decode_key s = elim (c.base64_std s) [ some raw ↦ some raw | none ↦ c.base64_raw s ]

  -- parsePublicKey
  unfoldable pub parse_public_key : Dnskey → Option PublicKey
  unfolding decode_key parse_raw
  parse_public_key k = elim (decode_key k.public_key) [
    | none ↦ none
    | some raw ↦ parse_raw k.algorithm raw
  ]

  cache_key : Dnskey → PublicKey → CachedKey
  cache_key k public = record {
    rr = k;
    key_tag = c.key_tag k;
    flags = k.flags;
    alg = k.algorithm;
    public = public;
    is_ksk = is_sep k.flags;
    is_zone = is_zone_flag k.flags;
    used = false;
  }

  -- cacheKeys
  unfoldable pub cache_keys : List Dnskey → Option (List CachedKey)
  unfolding cache_key
  cache_keys [] = some []
  cache_keys (k ∷ ks) =
      let rest = cache_keys ks in
      elim (parse_public_key k) [
        | none ↦ none
        | some public ↦ elim rest [ none ↦ none | some cached ↦ some (cache_key k public ∷ cached) ]
      ]

  -- algName
  unfoldable pub alg_name : ℕ → Str
  alg_name a = elim (c.algorithm_to_string a) [ some s ↦ s | none ↦ codes "ALG" ++ decimal a ]
