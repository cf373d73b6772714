-- ===== src/Tests/Reports.antt =====
-- Tests of the findings: keys, sets and merges.
use dnssec_auditor.Common.{ℕ, Str, str_eq, some, [], ◌∷◌, ◌≡◌, refl, codes}
use dnssec_auditor.Dnssec.Findings.{
  Time, Severity, error, warning, say, Finding, key, Set, new_set, find, add, add_all,
  merge_replace, count_new,
}
use dnssec_auditor.Dnssec.Findings.Keys.{key_inj}
use dnssec_auditor.Dnssec.Findings.Sets.{IsKeyed, add-IsKeyed}
use dnssec_auditor.Dnssec.Findings.Reported.{under, as_one, before, find-add_all}
use dnssec_auditor.Dnssec.Findings.Merge.{merged, find-merge_replace, counts-merge_replace}
use dnssec_auditor.Samples.{origin, www}

abbrev pub report : Severity → Str → ℕ → Time → Finding
report severity owner rrtype at = record {
  code = "AB";
  severity = severity;
  owner = owner;
  rrtype = rrtype;
  rrtype_name = [];
  message = say "m";
  first_seen = at;
  last_seen = at;
}

abbrev expired : Finding
expired = report error www 1 5

abbrev late : Finding
late = report warning origin 6 5

abbrev pub two_reports : Set
two_reports = add 9 late (add 9 expired new_set)

two_reports-IsKeyed : IsKeyed two_reports.by_key
two_reports-IsKeyed =
    add-IsKeyed 9 late (add 9 expired new_set)
      (add-IsKeyed 9 expired new_set (record { own = tt; distinct = tt }))

abbrev next_reports : Set
next_reports = add 20 (report error www 1 20) new_set

key_inj_example : (codes "AB" ≡ codes "AB") × (codes "w.e." ≡ www) × (1 ≡ expired.rrtype)
unfolding key
key_inj_example =
    key_inj (report warning (codes "w.e.") 1 7) expired (refl, (refl, tt)) (refl, (refl, tt)) refl

find-add_all_example :
    find
      (key expired)
      (add_all 30 (report warning www 1 0 ∷ late ∷ report error www 1 0 ∷ []) two_reports)
    ≡ as_one 30 (
        before
          (find (key expired) two_reports)
          (under (key expired) (report warning www 1 0 ∷ late ∷ report error www 1 0 ∷ [])))
find-add_all_example =
    find-add_all 30 (report warning www 1 0 ∷ late ∷ report error www 1 0 ∷ []) two_reports
      (key expired)

-- The name `e.` is looked at again, and its warning is gone; `w.e.` is not.
find-merge_replace_example :
    find (key late) (merge_replace 20 (some two_reports) (some next_reports) (origin ∷ [])).0
    ≡ merged 20 (origin ∷ []) (find (key late) two_reports) (find (key late) next_reports)
find-merge_replace_example =
    find-merge_replace 20 two_reports next_reports (origin ∷ []) (key late) two_reports-IsKeyed

counts-merge_replace_example :
    let (s, opened, closed) =
      merge_replace 20 (some two_reports) (some next_reports) (origin ∷ []) in
    (opened ≡ count_new two_reports.by_key s.by_key)
    × (closed ≡ count_new s.by_key two_reports.by_key)
counts-merge_replace_example =
    counts-merge_replace 20 two_reports next_reports (origin ∷ []) two_reports-IsKeyed
