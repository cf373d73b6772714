-- ===== src/Xfr/Ixfr/Full.antt =====
-- Answers that are a whole zone, and answers that say that nothing has changed.
use dnssec_auditor.Common.{ℕ, nat_eq, true, false, some, List, [], ◌∷◌, ◌++◌, ◌≡◌, arith}
use dnssec_auditor.Dns.{Rr, Soa}
use dnssec_auditor.Xfr.Ixfr.{
  as_soa, soas, Parsed, parse_from, same_pair, parse_ixfr, strip, is_soa, strip_soa_envelope,
}
use dnssec_auditor.Xfr.Ixfr.Single.{Plain, soas-append, soas-Plain}

abbrev pub unchanged : ℕ → Parsed
unchanged serial = record { adds = []; removes = []; serial = serial; fallback = false }

abbrev pub whole_zone : ℕ → Parsed
whole_zone serial = record { adds = []; removes = []; serial = serial; fallback = true }

-- Records between two SOAs of one serial are a whole zone, whatever serial was asked for.
pub parse-full :
    (first last : Rr) {a b : Soa} (body : List Rr) (from : ℕ)
    → as_soa first ≡ some a
    → as_soa last ≡ some b
    → a.serial ≡ b.serial
    → Plain body
    → parse_ixfr (first ∷ (body ++ last ∷ [])) from ≡ whole_zone a.serial
unfolding parse_ixfr parse_from same_pair soas
parse-full first last body from ha hb same plain =
    ground (arith, soas-append body (last ∷ []), soas-Plain body plain)

-- A single SOA of the serial that was asked for says that nothing has changed.
pub parse-unchanged :
    (rr : Rr) {a : Soa} (from : ℕ)
    → as_soa rr ≡ some a
    → a.serial ≡ from
    → parse_ixfr (rr ∷ []) from ≡ unchanged from
unfolding parse_ixfr parse_from same_pair soas
parse-unchanged rr from ha same = ground arith

strip_body :
    (body : List Rr) (last : Rr)
    → Plain body
    → is_soa last ≡ true
    → strip true (body ++ last ∷ []) ≡ body
unfolding strip
strip_body [] last plain h = ground arith
strip_body (rr ∷ body) last plain h =
    unfold is_soa in ground (arith, strip_body body last plain.1 h)

-- Of a whole zone, the records without the closing SOA are kept, in order.
pub strip-full :
    (first last : Rr) {a b : Soa} (body : List Rr)
    → as_soa first ≡ some a
    → as_soa last ≡ some b
    → Plain body
    → strip_soa_envelope (first ∷ (body ++ last ∷ [])) ≡ first ∷ body
unfolding strip_soa_envelope is_soa
strip-full first last body ha hb plain = ground (arith, strip_body body last plain)
