-- ===== src/Dnssec/Findings/Keys.antt =====
-- What a finding's key tells of the finding.
use dnssec_auditor.Common.{◌≡◌, ◌∷◌, ◌++◌, codes}
use dnssec_auditor.Common.Decimal.{
  NoBar, bar, decimal, decimal_inj, decimal-NoBar, first_bar, last_bar,
}
use dnssec_auditor.Dnssec.Findings.{Finding, key}

-- Two findings whose codes hold no `|` and whose keys are equal have the same code, owner and type,
-- even where an owner holds a `|`.
pub key_inj :
    (f g : Finding)
    → NoBar (codes f.code)
    → NoBar (codes g.code)
    → key f ≡ key g
    → (codes f.code ≡ codes g.code) × (f.owner ≡ g.owner) × (f.rrtype ≡ g.rrtype)
unfolding key
key_inj f g hf hg e =
    let (same_code, rest) =
      first_bar (codes f.code) (codes g.code) (f.owner ++ bar ∷ decimal f.rrtype)
        (g.owner ++ bar ∷ decimal g.rrtype) hf hg e in
    let (same_owner, digits) =
      last_bar f.owner g.owner (decimal f.rrtype) (decimal g.rrtype) (decimal-NoBar f.rrtype)
        (decimal-NoBar g.rrtype) rest in
    (same_code, same_owner, decimal_inj f.rrtype g.rrtype digits)
