-- ===== src/Dnssec/Keys/Rsa.antt =====
-- RSA keys as RFC 3110 writes them, read back.
use dnssec_auditor.Common.{
  ℕ, suc, ◌+◌, ◌*◌, ◌/◌, ◌%◌, ◌^◌, ◌<◌, Str, nat_eq, Bool-cases, inl, inr, take-append, drop-append,
  some, [], ◌∷◌, ◌++◌, ◌≡◌, ◌∙◌, ap, arith, if◌then◌else◌, length, ltb, length-append,
}
use dnssec_auditor.Dnssec.Keys.{pos, rsa, parse_rsa, exponent_at, set_bytes, to_int64}

-- The length of the exponent in one byte, or in three for a long one; then the exponent and the modulus.
abbrev pub write_rsa : Str → Str → Str
write_rsa e n =
    if ltb (length e) 256
    then length e ∷ (e ++ n)
    else 0 ∷ (length e / 256) ∷ (length e % 256) ∷ (e ++ n)

-- A value below 2^63 is itself an int64.
to_int64_id : (e : ℕ) → e < 2 ^ 63 → to_int64 e ≡ pos e
unfolding to_int64
to_int64_id e h = let small : e % 2 ^ 64 ≡ e = omega (arith, h) in ground (arith, small, h)

parse_long :
    (hi lo : ℕ) (e n : Str)
    → hi * 256 + lo ≡ length e
    → 0 < length n
    → parse_rsa (0 ∷ hi ∷ lo ∷ (e ++ n)) ≡ some (rsa (set_bytes n) (to_int64 (set_bytes e)))
unfolding parse_rsa exponent_at
parse_long hi lo e n size hn =
    let past : 3 + length e ≡ suc (suc (suc (length e))) = omega arith in
    rw (size, past) (ground (arith, length-append e n, take-append e n, drop-append e n))

read_back :
    (e n : Str)
    → 0 < length e
    → length e < 65536
    → 0 < length n
    → parse_rsa (write_rsa e n) ≡ some (rsa (set_bytes n) (to_int64 (set_bytes e)))
unfolding parse_rsa exponent_at
read_back [] n he short hn = absurd (omega arith)
read_back (x ∷ xs) n he short hn = elim (Bool-cases (ltb (length (x ∷ xs)) 256)) [
  | inl fits ↦
      rw fits
        (ground (arith, length-append (x ∷ xs) n, take-append (x ∷ xs) n, drop-append (x ∷ xs) n))
  | inr long ↦
      rw long
        (parse_long (length (x ∷ xs) / 256) (length (x ∷ xs) % 256) (x ∷ xs) n (omega arith) hn)
]

-- A key whose exponent is below 2^63 and has from 1 to 65535 bytes, and whose modulus has at least one
-- byte, is read back as its modulus and its exponent, the exponent positive or zero.
pub parse_rsa-write_rsa :
    (e n : Str)
    → 0 < length e
    → length e < 65536
    → 0 < length n
    → set_bytes e < 2 ^ 63
    → parse_rsa (write_rsa e n) ≡ some (rsa (set_bytes n) (pos (set_bytes e)))
parse_rsa-write_rsa e n he short hn small =
    read_back e n he short hn
    ∙ ap (λ x. some (rsa (set_bytes n) x)) (to_int64_id (set_bytes e) small)
