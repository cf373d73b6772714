-- ===== src/Dnssec/Zonemd/Hex.antt =====
-- Hexadecimal text and back, in either case, and its comparison with bytes.
use dnssec_auditor.Common.{
  ℕ, ◌+◌, ◌*◌, ◌/◌, ◌%◌, ◌<◌, Str, str_eq, nat_eq, ◌==◌, Bool-cases, inl, inr, ◌||◌, some, [], ◌∷◌,
  All, ◌≡◌, ◌∙◌, sym, ap, refl, arith, beq_refl,
}
use dnssec_auditor.Common.Text.{to_lower, lower_byte}
use dnssec_auditor.Zone.Canonical.{hex_char, hex_encode}
use dnssec_auditor.Dnssec.Zonemd.{from_hex_char, byte_of, cons_byte, hex_decode}

from_hex_char-hex_char : (i : ℕ) → i < 16 → from_hex_char (hex_char i) ≡ some i
unfolding from_hex_char hex_char
from_hex_char-hex_char i h = ground arith

whole : (b : ℕ) → b / 16 * 16 + b % 16 ≡ b
whole b = omega arith

-- The text of bytes below 256 is read back as those bytes.
hex_decode-hex_encode : (s : Str) → All (λ b. b < 256) s → hex_decode (hex_encode s) ≡ some s
unfolding hex_decode hex_encode cons_byte byte_of
hex_decode-hex_encode [] h = refl
hex_decode-hex_encode (b ∷ s) h =
    let high : b / 16 < 16 = omega (arith, h.0) in
    let low : b % 16 < 16 = omega arith in
    rw
      (
        from_hex_char-hex_char (b / 16) high,
        from_hex_char-hex_char (b % 16) low,
        hex_decode-hex_encode s h.1,
      )
      (ap (λ x. some (x ∷ s)) (whole b))

from_hex_char-lower_byte : (c : ℕ) → from_hex_char (lower_byte c) ≡ from_hex_char c
unfolding from_hex_char lower_byte
from_hex_char-lower_byte c = ground arith

-- The case of hexadecimal text does not matter.
hex_decode-to_lower : (s : Str) → hex_decode (to_lower s) ≡ hex_decode s
unfolding hex_decode to_lower
hex_decode-to_lower [] = refl
hex_decode-to_lower (a ∷ []) = refl
hex_decode-to_lower (a ∷ b ∷ s) =
    rw (from_hex_char-lower_byte a, from_hex_char-lower_byte b, hex_decode-to_lower s) refl

pub some_inj : {a b : Str} → some a ≡ some b → a ≡ b
some_inj e = cc

-- The comparison of the texts says nothing that the comparison of the bytes does not.
pub compared :
    (said digest want : Str)
    → All (λ b. b < 256) digest
    → hex_decode said ≡ some want
    → (hex_encode digest == to_lower said || digest == want) ≡ (digest == want)
compared said digest want hb hd = elim (Bool-cases (hex_encode digest == to_lower said)) [
  | inl same ↦
      let texts : hex_encode digest ≡ to_lower said =
        (str_eq.beq_iff (hex_encode digest) (to_lower said)).0 same in
      let bytes : digest ≡ want = some_inj (
        sym (hex_decode-hex_encode digest hb)
        ∙ ap hex_decode texts
        ∙ hex_decode-to_lower said
        ∙ hd) in
      rw (same, bytes, beq_refl want) refl
  | inr apart ↦ rw apart refl
]
