-- ===== src/Xfr/Ixfr/Single.antt =====
-- The records of an incremental answer of one changeset (RFC 1995), and what parseIXFR makes of them.
use dnssec_auditor.Common.{
  ℕ, nat_eq, false, none, some, List, [], ◌∷◌, ◌++◌, ◌≡◌, ◌≢◌, refl, arith, All,
}
use mathlib.Core.List.{append-nil}
use dnssec_auditor.Dns.{Rr, Soa}
use dnssec_auditor.Xfr.Ixfr.{
  as_soa, soas, looking, deleting, adding, step, walk, parse_from, same_pair, parse_ixfr,
}

-- Records other than SOA.
abbrev pub Plain : List Rr → Type 0
Plain = All (λ rr. as_soa rr ≡ none)

-- A section of plain records goes whole to one of the two lists.
pub walk-deleting :
    (serial : ℕ) (xs rest : List Rr)
    → Plain xs
    → walk serial deleting (xs ++ rest)
      ≡ ((walk serial deleting rest).0, xs ++ (walk serial deleting rest).1)
unfolding walk step
walk-deleting serial [] rest h = refl
walk-deleting serial (x ∷ xs) rest h = ground (arith, walk-deleting serial xs rest h.1)

pub walk-adding :
    (serial : ℕ) (xs rest : List Rr)
    → Plain xs
    → walk serial adding (xs ++ rest)
      ≡ (xs ++ (walk serial adding rest).0, (walk serial adding rest).1)
unfolding walk step
walk-adding serial [] rest h = refl
walk-adding serial (x ∷ xs) rest h = ground (arith, walk-adding serial xs rest h.1)

pub soas-append : (xs ys : List Rr) → soas (xs ++ ys) ≡ soas xs ++ soas ys
unfolding soas
soas-append [] ys = refl
soas-append (x ∷ xs) ys = ground (arith, soas-append xs ys)

pub soas-Plain : (xs : List Rr) → Plain xs → soas xs ≡ []
unfolding soas
soas-Plain [] h = refl
soas-Plain (x ∷ xs) h = ground (arith, soas-Plain xs h.1)

-- A changeset: the old SOA, what is deleted, the new SOA, and what is added.
abbrev pub changeset : Rr → List Rr → Rr → List Rr → List Rr → List Rr
changeset old dels new adds rest = old ∷ (dels ++ new ∷ (adds ++ rest))

module _ (new_rr old_rr : Rr) {new old : Soa} (dels adds : List Rr) (hn : as_soa new_rr ≡ some new)
    (ho : as_soa old_rr ≡ some old) (hd : Plain dels) (ha : Plain adds) where
  soas-single :
      soas (new_rr ∷ changeset old_rr dels new_rr adds (new_rr ∷ [])) ≡ new ∷ old ∷ new ∷ new ∷ []
  unfolding soas
  soas-single = ground (
    arith,
    soas-append dels (new_rr ∷ (adds ++ new_rr ∷ [])),
    soas-Plain dels hd,
    soas-append adds (new_rr ∷ []),
    soas-Plain adds ha,
  )

  walk-single :
      old.serial ≢ new.serial
      → walk new.serial looking (new_rr ∷ changeset old_rr dels new_rr adds (new_rr ∷ []))
        ≡ (new_rr ∷ adds, old_rr ∷ dels)
  unfolding walk step
  walk-single ne = ground (
    arith,
    walk-deleting new.serial dels (new_rr ∷ (adds ++ new_rr ∷ [])) hd,
    walk-adding new.serial adds (new_rr ∷ []) ha,
    append-nil adds,
    append-nil dels,
  )

  -- An answer `SOA(new) SOA(old) deleted SOA(new) added SOA(new)` whose two serials differ yields
  -- the old SOA with the deleted records, and the new SOA with the added ones, in order.
  pub parse-single :
      (from : ℕ)
      → old.serial ≢ new.serial
      → parse_ixfr (new_rr ∷ changeset old_rr dels new_rr adds (new_rr ∷ [])) from ≡ record {
        adds = new_rr ∷ adds;
        removes = old_rr ∷ dels;
        serial = new.serial;
        fallback = false;
      }
  unfolding parse_ixfr parse_from same_pair
  parse-single from ne = rw soas-single (ground (arith, walk-single ne))
