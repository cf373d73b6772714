-- ===== src/Dnssec/Findings/Errors.antt =====
-- Whether a set holds an error, where a code settles the severity: then no finding takes the place of
-- one of another severity.
use dnssec_auditor.Common.{
  Str, str_eq, ◌==◌, Bool, true, false, ◌||◌, Option, none, some, List, [], ◌∷◌, any, map, All,
  codes, String, ◌≡◌, refl, sym, ◌∙◌, arith, Bool-cases, inl, inr,
}
use dnssec_auditor.Common.Map.{Map, get, put}
use dnssec_auditor.Common.Decimal.{NoBar}
use dnssec_auditor.Dnssec.Findings.{
  Time, Severity, error, severity_eqb, Finding, Set, key, add, add_all, list, refresh, has_errors,
  has_error, new_set,
}
use dnssec_auditor.Dnssec.Findings.Keys.{key_inj}
use dnssec_auditor.Dnssec.Codes.{Table, outside}

-- An error stands among the findings.
abbrev pub errors : List Finding → Bool
errors fs = any (λ f. severity_eqb f.severity error) fs

-- A code of the table has no `|` and one severity.
pub record IsDecisive (p : Table) : Type 0 where
  pub no_bar : (code : String) (s : Severity) → p code s ≡ true → NoBar (codes code)
  pub one :
      (a b : String) (s t : Severity)
      → p a s ≡ true
      → p b t ≡ true
      → codes a ≡ codes b
      → severity_eqb s error ≡ severity_eqb t error

module _ (p : Table) where
  abbrev IsIn : Str × Finding → Type 0
  IsIn e = (e.0 ≡ key e.1) × (p (e.1).code (e.1).severity ≡ true)

  -- Every finding of the set stands under its key and is in the table.
  abbrev pub Tabled : Set → Type 0
  Tabled s = All IsIn s.by_key

  key-refresh : (now : Time) (o : Option Finding) (f : Finding) → key (refresh now o f) ≡ key f
  unfolding key refresh
  key-refresh now none f = refl
  key-refresh now (some g) f = refl

  code-refresh : (now : Time) (o : Option Finding) (f : Finding) → (refresh now o f).code ≡ f.code
  unfolding refresh
  code-refresh now none f = refl
  code-refresh now (some g) f = refl

  severity-refresh :
      (now : Time) (o : Option Finding) (f : Finding) → (refresh now o f).severity ≡ f.severity
  unfolding refresh
  severity-refresh now none f = refl
  severity-refresh now (some g) f = refl

  put-IsIn :
      (k : Str) (f : Finding) (m : Map Str Finding)
      → IsIn (k, f)
      → All IsIn m
      → All IsIn (put k f m)
  unfolding put
  put-IsIn k f [] hf h = (hf, tt)
  put-IsIn k f ((j, g) ∷ m) hf h = elim (Bool-cases (j == k)) [
    | inl same ↦ rw same (((str_eq.beq_iff j k).0 same ∙ hf.0, hf.1), h.1)
    | inr other ↦ rw other (h.0, put-IsIn k f m hf h.1)
  ]

  add-Tabled :
      (now : Time) (f : Finding) (s : Set)
      → p f.code f.severity ≡ true
      → Tabled s
      → Tabled (add now f s)
  unfolding add
  add-Tabled now f s hf h =
      let old = get (key f) s.by_key in
      put-IsIn (key f) (refresh now old f) s.by_key
        (sym (key-refresh now old f), rw (code-refresh, severity-refresh) hf) h

  module _ (d : IsDecisive p) where
    has_error-put :
        (k : Str) (f : Finding) (m : Map Str Finding)
        → IsIn (k, f)
        → All IsIn m
        → has_error (put k f m) ≡ has_error m || severity_eqb f.severity error
    unfolding put has_error
    has_error-put k f [] hf h = ground arith
    has_error-put k f ((j, g) ∷ m) hf h = elim (Bool-cases (j == k)) [
      | inl same ↦
          let keys : key g ≡ key f = sym h.0.0 ∙ (str_eq.beq_iff j k).0 same ∙ hf.0 in
          let alike =
            (key_inj g f (d.no_bar g.code g.severity h.0.1) (d.no_bar f.code f.severity hf.1)
              keys).0 in
          ground (arith, same, d.one g.code f.code g.severity f.severity h.0.1 hf.1 alike)
      | inr other ↦ ground (arith, other, has_error-put k f m hf h.1)
    ]

    has_errors-add :
        (now : Time) (f : Finding) (s : Set)
        → p f.code f.severity ≡ true
        → Tabled s
        → has_errors (add now f s) ≡ has_errors s || severity_eqb f.severity error
    unfolding add has_errors
    has_errors-add now f s hf h =
        let old = get (key f) s.by_key in
        has_error-put (key f) (refresh now old f) s.by_key
          (sym (key-refresh now old f), rw (code-refresh, severity-refresh) hf) h
        ∙ rw severity-refresh refl

  -- What `add_all` comes to, on findings of the table.
  pub record Added (now : Time) (fs : List Finding) (s : Set) : Type 0 where
    pub tabled : Tabled (add_all now fs s)
    pub errs : has_errors (add_all now fs s) ≡ has_errors s || errors fs

  pub add_all-Added :
      IsDecisive p
      → (now : Time) (fs : List Finding) (s : Set) → outside p fs ≡ false
      → Tabled s
      → Added now fs s
  unfolding add_all
  add_all-Added d now [] s hf h = record { tabled = h; errs = ground arith }
  add_all-Added d now (f ∷ fs) s hf h =
      let here : p f.code f.severity ≡ true = ground (arith, hf) in
      let there : outside p fs ≡ false = ground (arith, hf) in
      let rest : Added now fs (add now f s) =
        add_all-Added d now fs (add now f s) there (add-Tabled now f s here h) in
      record {
        tabled = rest.tabled;
        errs = ground (arith, rest.errs, has_errors-add d now f s here h);
      }

  pub outside-list : (s : Set) → Tabled s → outside p (list s) ≡ false
  unfolding list
  outside-list s h = go s.by_key h
    where
      go : (m : Map Str Finding) → All IsIn m → outside p (map (λ e. e.1) m) ≡ false
      go [] h = refl
      go ((k, f) ∷ m) h = ground (arith, h.0.1, go m h.1)

pub has_errors_none : has_errors new_set ≡ false
unfolding has_errors has_error
has_errors_none = refl

pub errors-list : (s : Set) → errors (list s) ≡ has_errors s
unfolding list has_errors has_error
errors-list s = go s.by_key
  where
    go : (m : Map Str Finding) → errors (map (λ e. e.1) m) ≡ has_error m
    go [] = refl
    go ((k, f) ∷ m) = ground (arith, go m)
