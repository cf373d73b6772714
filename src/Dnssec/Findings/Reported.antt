-- ===== src/Dnssec/Findings/Reported.antt =====
-- What a sequence of `Add` leaves under a key: the reports under that key, in order, merged.
use dnssec_auditor.Common.{
  Str, str_eq, ◌==◌, Bool-cases, inl, inr, ◌&&◌, Option, none, some, List, [], ◌∷◌, ◌≡◌, refl,
  arith, if◌then◌else◌, length, ltb, select,
}
use dnssec_auditor.Dnssec.Findings.{Time, Finding, Set, is_zero, key, add, add_all, find, refresh}
use dnssec_auditor.Dnssec.Findings.Sets.{find-add}

-- Those of the findings that have the key.
abbrev pub under : Str → List Finding → List Finding
under k fs = select (λ f. key f == k) fs

-- The last of `g` and the findings after it.
abbrev pub latest : Finding → List Finding → Finding
latest g [] = g
latest g (f ∷ fs) = latest f fs

-- Reports of one finding as one: the latest, first seen when the first report says. If it does not say
-- when it was last seen, and is not the only one, that is now.
abbrev pub as_one : Time → List Finding → Option Finding
as_one now [] = none
as_one now (g ∷ fs) =
    let f = latest g fs in
    some (record f {
      first_seen = g.first_seen;
      last_seen = if is_zero f.last_seen && ltb 0 (length fs) then now else f.last_seen;
    })

-- The report that is there already, if any, and those that follow.
abbrev pub before : Option Finding → List Finding → List Finding
before none fs = fs
before (some g) fs = g ∷ fs

as_one_alone : (now : Time) (o : Option Finding) → o ≡ as_one now (before o [])
as_one_alone now none = refl
as_one_alone now (some g) = ground arith

as_one-refresh :
    (now : Time) (o : Option Finding) (f : Finding) (fs : List Finding)
    → as_one now (refresh now o f ∷ fs) ≡ as_one now (before o (f ∷ fs))
unfolding refresh
as_one-refresh now none f fs = refl
as_one-refresh now (some g) f [] = ground arith
as_one-refresh now (some g) f (h ∷ fs) = ground arith

-- After any sequence of additions a key holds the reports under it as one, that of before among them:
-- the latest report, with the `first_seen` of the first one and, should the latest have no `last_seen`
-- and not be the only one, with now as `last_seen`. A key with no report holds nothing.
pub find-add_all :
    (now : Time) (fs : List Finding) (s : Set) (k : Str)
    → find k (add_all now fs s) ≡ as_one now (before (find k s) (under k fs))
unfolding add_all
find-add_all now [] s k = as_one_alone now (find k s)
find-add_all now (f ∷ fs) s k = elim (Bool-cases (key f == k)) [
  | inl same ↦
      rw
        (
          find-add_all now fs (add now f s) k,
          find-add now f s k,
          same,
          (str_eq.beq_iff (key f) k).0 same,
        )
        (as_one-refresh now (find k s) f (under k fs))
  | inr apart ↦ rw (find-add_all now fs (add now f s) k, find-add now f s k, apart) refl
]
