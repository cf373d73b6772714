-- ===== src/Zone/Hash.antt =====
-- internal/zone/nsec3.go, the hash labels: base32hex text and bytes. A uint64 buffer wraps.
use dnssec_auditor.Common.{
  ℕ, zero, suc, ◌+◌, ◌-◌, ◌*◌, ◌/◌, ◌%◌, ◌^◌, Str, str_eq, nat_eq, ◌==◌, ◌&&◌, Option, none, some,
  [], ◌∷◌, ◌++◌, if◌then◌else◌, leb, ltb, length,
}
use dnssec_auditor.Common.Text.{dot}
use dnssec_auditor.Dns.{DnsLib}
use dnssec_auditor.DnsName.{canonical}

abbrev equals_sign : ℕ
equals_sign = 61

-- strings.ToUpper
upper_byte : ℕ → ℕ
upper_byte c = if leb 97 c && leb c 122 then c - 32 else c

to_upper : Str → Str
unfolding upper_byte
to_upper [] = []
to_upper (c ∷ s) = upper_byte c ∷ to_upper s

-- strings.TrimRight(s, "=")
trim_pad : Str → Str
trim_pad [] = []
trim_pad (c ∷ s) = let rest = trim_pad s in if c == equals_sign && rest == [] then [] else c ∷ rest

-- strings.Repeat("=", n)
padding : ℕ → Str
padding zero = []
padding (suc n) = equals_sign ∷ padding n

-- strings.IndexByte in the upper case alphabet, and then in the lower case one.
upper_index : ℕ → Option ℕ
upper_index c =
    if leb 48 c && leb c 57
    then some (c - 48)
    else (if leb 65 c && leb c 86 then some (c - 55) else none)

digit : ℕ → Option ℕ
unfolding upper_index
digit c = elim (upper_index c) [
  | some i ↦ some i
  | none ↦ if leb 97 c && leb c 118 then upper_index (c - 32) else none
]

abbrev pub u64 : ℕ
u64 = 2 ^ 64

-- The loop of decodeBase32Hex; `buf << 5` leaves room for the digit.
decode_loop : Str → ℕ → ℕ → Str → Option Str
unfolding digit
decode_loop [] buf bits out = some out
decode_loop (c ∷ s) buf bits out = if c == equals_sign then some out else elim (digit c) [
  | none ↦ none
  | some i ↦
      let b = buf * 32 % u64 + i in
      if leb 8 (bits + 5)
      then decode_loop s b (bits - 3) (out ++ (b / 2 ^ (bits - 3) % 256) ∷ [])
      else decode_loop s b (bits + 5) out
]

decode_base32hex : Str → Option Str
unfolding decode_loop padding
decode_base32hex s =
    if s == [] then none else decode_loop (s ++ padding ((8 - length s % 8) % 8)) 0 0 []

-- HashFromBase32
unfoldable pub hash_from_base32 : Str → Option Str
unfolding decode_base32hex to_upper trim_pad
hash_from_base32 s = decode_base32hex (to_upper (trim_pad s))

-- owner[:i] at the first dot
first_label : Str → Str
first_label [] = []
first_label (c ∷ s) = let rest = first_label s in if c == dot then [] else c ∷ rest

-- HashFromOwner
unfoldable pub hash_from_owner : DnsLib → Str → Option Str
unfolding first_label hash_from_base32
hash_from_owner d owner = hash_from_base32 (first_label (canonical d owner))

-- The character of the lower case alphabet.
letter : ℕ → ℕ
letter i = if ltb i 10 then 48 + i else 87 + i

-- The inner loop of Base32Hex: at most two letters while 5 bits or more are left.
emit : ℕ → ℕ → ℕ → Str × ℕ
unfolding letter
emit zero buf bits = ([], bits)
emit (suc f) buf bits =
    let rest = emit f buf (bits - 5) in
    if leb 5 bits then (letter (buf / 2 ^ (bits - 5) % 32) ∷ rest.0, rest.1) else ([], bits)

encode_loop : Str → ℕ → ℕ → Str
unfolding emit
encode_loop [] buf bits = if ltb 0 bits then letter (buf * 2 ^ (5 - bits) % 32) ∷ [] else []
encode_loop (b ∷ bs) buf bits =
    let buf' = buf * 256 % u64 + b in
    let (letters, bits') = emit 3 buf' (bits + 8) in letters ++ encode_loop bs buf' bits'

-- Base32Hex
unfoldable pub base32hex : Str → Str
unfolding encode_loop
base32hex b = encode_loop b 0 0
