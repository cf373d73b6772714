-- ===== src/Dnssec/Crypto.antt =====
-- What the verifier calls of github.com/miekg/dns and of Go's cryptography and encodings, as an
-- interface, which has no laws. Bytes are numbers below 256.
use dnssec_auditor.Common.{ℕ, Str, Bool, Option, List}
use dnssec_auditor.Dns.{Rr, Dnskey}

pub record Crypto : Type 0 where
  -- DNSKEY.KeyTag, and RRSIG.Verify: whether the signature over the RRset verifies with the key
  pub key_tag : Dnskey → ℕ
  pub verify : Rr → Dnskey → List Rr → Bool
  -- dns.HashName: name, algorithm, iterations and the salt in hexadecimal
  pub hash_name : Str → ℕ → ℕ → Str → Str
  -- dns.AlgorithmToString
  pub algorithm_to_string : ℕ → Option Str
  -- RR.String
  pub rr_string : Rr → Str
  -- base64.StdEncoding and base64.RawStdEncoding, DecodeString
  pub base64_std : Str → Option Str
  pub base64_raw : Str → Option Str
  -- sha512.New384 and sha512.New, over all that is written
  pub sha384 : Str → Str
  pub sha512 : Str → Str
