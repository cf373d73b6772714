-- ===== src/Dnssec/Findings/Sets.antt =====
-- The keyed set of findings: what `Add` does to each key, and how the counts agree.
use dnssec_auditor.Common.{
  ◌+◌, ◌<◌, Str, str_eq, ◌==◌, true, Option, none, some, [], ◌∷◌, ◌≡◌, ◌↔◌, refl, arith,
  if◌then◌else◌, All, length, sym,
}
use dnssec_auditor.Common.Map.{
  Map, get, Distinct, get-put, put-Distinct, delete-Distinct, put-All, delete-All,
}
use dnssec_auditor.Dnssec.Findings.{
  Time, error, warning, Finding, Set, key, add, refresh, find, new_set, remove, len, has_errors,
  has_error, count_by_severity, count_in,
}

-- Every finding is stored under its own key, and no key stands twice.
pub record IsKeyed (m : Map Str Finding) : Type 0 where
  pub own : All (λ e. e.0 ≡ key e.1) m
  pub distinct : Distinct m

key-refresh : (now : Time) (o : Option Finding) (f : Finding) → key (refresh now o f) ≡ key f
unfolding key refresh
key-refresh now none f = refl
key-refresh now (some g) f = refl

pub add-IsKeyed :
    (now : Time) (f : Finding) (s : Set) → IsKeyed s.by_key → IsKeyed (add now f s).by_key
unfolding add
add-IsKeyed now f s h =
    let old = get (key f) s.by_key in
    record {
      own =
          put-All (λ e. e.0 ≡ key e.1) (key f) (refresh now old f) s.by_key
            (sym (key-refresh now old f)) h.own;
      distinct = put-Distinct (key f) (refresh now old f) s.by_key h.distinct;
    }

pub remove-IsKeyed : (k : Str) (s : Set) → IsKeyed s.by_key → IsKeyed (remove k s).by_key
unfolding remove
remove-IsKeyed k s h = record {
  own = delete-All (λ e. e.0 ≡ key e.1) k s.by_key h.own;
  distinct = delete-Distinct k s.by_key h.distinct;
}

pub find-add :
    (now : Time) (f : Finding) (s : Set) (k : Str)
    → find k (add now f s)
      ≡ (if key f == k then some (refresh now (find (key f) s) f) else find k s)
unfolding find add
find-add now f s k = get-put (key f) k (refresh now (get (key f) s.by_key) f) s.by_key

pub find-none : (k : Str) → find k new_set ≡ none
unfolding find get
find-none k = refl

-- A set has errors exactly when the count of its errors is not 0.
pub has_errors_iff : (s : Set) → (has_errors s ≡ true) ↔ (0 < count_by_severity error s)
unfolding has_errors count_by_severity
has_errors_iff s = go s.by_key
  where
    go : (m : Map Str Finding) → (has_error m ≡ true) ↔ (0 < count_in error m)
    go [] = ground arith
    go ((k, f) ∷ m) = ground (arith, go m)

-- The counts of errors and of warnings add up to the number of findings.
pub count_total : (s : Set) → count_by_severity error s + count_by_severity warning s ≡ len s
unfolding count_by_severity len
count_total s = go s.by_key
  where
    go : (m : Map Str Finding) → count_in error m + count_in warning m ≡ length m
    go [] = refl
    go ((k, f) ∷ m) = ground (arith, go m)
