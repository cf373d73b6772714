-- ===== src/Zone/Canonical.antt =====
-- internal/zone/nsec3.go: the canonical order of names, type bitmaps, and the hash of a name; and
-- internal/dnssec/nsec.go, bitmapEqual and saltOf. Only the sign of CanonicalCmp is used.
pub mod Order
use Prim.Native.Nat.{Ordering}
use dnssec_auditor.Common.{
  ℕ, Str, str_eq, nat_eq, ◌==◌, Bool, true, false, ◌&&◌, ◌||◌, Option, none, some, List, [], ◌∷◌,
  ◌++◌, map, if◌then◌else◌, contains, leb, ltb, ◌+◌, ◌/◌, ◌%◌,
}
use dnssec_auditor.Common.Text.{to_lower}
use dnssec_auditor.Common.Sort.{sort_by, compact}
use dnssec_auditor.Dns.{DnsLib, type_nsec3}
use dnssec_auditor.DnsName.{canonical}
use dnssec_auditor.Zone.RrSet.{RrSet}
use dnssec_auditor.Zone.Node.{Node}
use dnssec_auditor.Zone.Hash.{hash_from_base32}
use dnssec_auditor.Zone.Index.{str_ltb}
use dnssec_auditor.Dnssec.Crypto.{Crypto}
use mathlib.Core.List.{reverse}

-- The loop of CanonicalCmp, over the labels from the right.
pub cmp_labels : List Str → List Str → Ordering
cmp_labels [] [] = Ordering.eq
cmp_labels [] (b ∷ bs) = Ordering.lt
cmp_labels (a ∷ as') [] = Ordering.gt
cmp_labels (a ∷ as') (b ∷ bs) =
    let rest = cmp_labels as' bs in
    if a == b then rest else (if str_ltb a b then Ordering.lt else Ordering.gt)

-- CanonicalCmp
module _ (d : DnsLib) where
  pub labels_of : Str → List Str
  labels_of name = reverse (map to_lower (d.split_domain_name (canonical d name)))

  unfoldable pub canonical_cmp : Str → Str → Ordering
  unfolding labels_of
  canonical_cmp a b = cmp_labels (labels_of a) (labels_of b)

-- BitmapHas
unfoldable pub bitmap_has : List ℕ → ℕ → Bool
bitmap_has types t = contains t types

-- The closure `add` of ExpectedBitmap, at the end of what is there.
add_type : ℕ → List ℕ → List ℕ
add_type t out = if contains t out then out else out ++ t ∷ []

expected_from : List RrSet → Bool → List ℕ → List ℕ
unfolding add_type
expected_from [] nsec3 out = out
expected_from (s ∷ ss) nsec3 out =
    expected_from ss nsec3 (if nsec3 && s.rrtype == type_nsec3 then out else add_type s.rrtype out)

-- ExpectedBitmap
unfoldable pub expected_bitmap : Node → Bool → List ℕ
unfolding expected_from
expected_bitmap n nsec3 = expected_from n.sets nsec3 []

nats_eqb : List ℕ → List ℕ → Bool
nats_eqb [] [] = true
nats_eqb (x ∷ xs) (y ∷ ys) = if x == y then nats_eqb xs ys else false
nats_eqb _ _ = false

-- bitmapEqual
unfoldable pub bitmap_equal : List ℕ → List ℕ → Bool
unfolding nats_eqb
bitmap_equal a b = nats_eqb (compact (sort_by leb a)) (compact (sort_by leb b))

unfoldable pub hex_char : ℕ → ℕ
hex_char i = if ltb i 10 then 48 + i else 87 + i

-- hex.EncodeToString
unfoldable pub hex_encode : Str → Str
unfolding hex_char
hex_encode [] = []
hex_encode (b ∷ bs) = hex_char (b / 16) ∷ hex_char (b % 16) ∷ hex_encode bs

or_text : Str → Option Str → Str
or_text t none = t
or_text t (some s) = s

-- HashName
unfoldable pub hash_name : DnsLib → Crypto → Str → ℕ → ℕ → Str → Str
unfolding or_text
hash_name d c name hash iterations salt =
    let h = c.hash_name (canonical d name) hash iterations (hex_encode salt) in
    or_text h (hash_from_base32 h)
