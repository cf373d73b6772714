-- ===== src/Xfr/Ixfr/Multi.antt =====
-- Incremental answers of two changesets: what parseIXFR makes of them, and what they mean.
use dnssec_auditor.Common.{ℕ, nat_eq, false, some, List, [], ◌∷◌, ◌++◌, ◌≡◌, ◌≢◌, arith}
use mathlib.Core.List.{append-nil}
use dnssec_auditor.Dns.{Rr, Soa}
use dnssec_auditor.Xfr.Ixfr.{as_soa, soas, looking, step, walk, parse_from, same_pair, parse_ixfr}
use dnssec_auditor.Xfr.Ixfr.Single.{
  Plain, changeset, walk-deleting, walk-adding, soas-append, soas-Plain,
}

-- `SOA(new)`, then a changeset from old to mid, then one from mid to new, then `SOA(new)`.
abbrev pub two_changesets : Rr → Rr → Rr → List Rr → List Rr → List Rr → List Rr → List Rr
two_changesets new_rr mid_rr old_rr dels₁ adds₁ dels₂ adds₂ =
    new_rr ∷ changeset old_rr dels₁ mid_rr adds₁ (changeset mid_rr dels₂ new_rr adds₂ (new_rr ∷ []))

module _ (new_rr mid_rr old_rr : Rr) {new mid old : Soa} (dels₁ adds₁ dels₂ adds₂ : List Rr)
    (hn : as_soa new_rr ≡ some new) (hm : as_soa mid_rr ≡ some mid) (ho : as_soa old_rr ≡ some old)
    (hd₁ : Plain dels₁) (ha₁ : Plain adds₁) (hd₂ : Plain dels₂) (ha₂ : Plain adds₂) where
  abbrev answer : List Rr
  answer = two_changesets new_rr mid_rr old_rr dels₁ adds₁ dels₂ adds₂

  walk-two :
      old.serial ≢ new.serial
      → mid.serial ≢ new.serial
      → walk new.serial looking answer
        ≡ (new_rr ∷ adds₂, old_rr ∷ (dels₁ ++ mid_rr ∷ (adds₁ ++ mid_rr ∷ dels₂)))
  unfolding walk step
  walk-two ne ne' = ground (
    arith,
    walk-deleting new.serial dels₁
        (mid_rr ∷ (adds₁ ++ changeset mid_rr dels₂ new_rr adds₂ (new_rr ∷ []))) hd₁,
    walk-deleting new.serial adds₁ (changeset mid_rr dels₂ new_rr adds₂ (new_rr ∷ [])) ha₁,
    walk-deleting new.serial dels₂ (new_rr ∷ (adds₂ ++ new_rr ∷ [])) hd₂,
    walk-adding new.serial adds₂ (new_rr ∷ []) ha₂,
    append-nil adds₂,
    append-nil dels₂,
  )

  soas-two : soas answer ≡ new ∷ old ∷ mid ∷ mid ∷ new ∷ new ∷ []
  unfolding soas
  soas-two = ground (
    arith,
    soas-append dels₁ (mid_rr ∷ (adds₁ ++ changeset mid_rr dels₂ new_rr adds₂ (new_rr ∷ []))),
    soas-Plain dels₁ hd₁,
    soas-append adds₁ (changeset mid_rr dels₂ new_rr adds₂ (new_rr ∷ [])),
    soas-Plain adds₁ ha₁,
    soas-append dels₂ (new_rr ∷ (adds₂ ++ new_rr ∷ [])),
    soas-Plain dels₂ hd₂,
    soas-append adds₂ (new_rr ∷ []),
    soas-Plain adds₂ ha₂,
  )

  -- From an answer of two changesets whose old and middle serials differ from the new one, parseIXFR
  -- puts the records that the first changeset adds among the removals, and leaves them out of the
  -- additions, which are those of the last changeset alone.
  pub parse-two :
      (from : ℕ)
      → old.serial ≢ new.serial
      → mid.serial ≢ new.serial
      → parse_ixfr (two_changesets new_rr mid_rr old_rr dels₁ adds₁ dels₂ adds₂) from ≡ record {
        adds = new_rr ∷ adds₂;
        removes = old_rr ∷ (dels₁ ++ mid_rr ∷ (adds₁ ++ mid_rr ∷ dels₂));
        serial = new.serial;
        fallback = false;
      }
  unfolding parse_ixfr parse_from same_pair
  parse-two from ne ne' = rw soas-two (ground (arith, walk-two ne ne'))
