-- ===== src/Zone/Store/Changes.antt =====
-- Lists of additions and of removals keep a store consistent.
use dnssec_auditor.Common.{
  ◌+◌, Str, str_eq, nat_eq, some, List, [], ◌∷◌, ◌≡◌, subst, arith, Bool-cases, Option-cases, inl,
  inr,
}
use dnssec_auditor.Dns.{Rr}
use dnssec_auditor.Zone.Store.{
  Libs, Store, Touched, new_store, add_rr, remove_rr, from_rrs, from_axfr, apply_removes,
  apply_adds, apply_changes, touch, untouched,
}
use dnssec_auditor.Zone.Store.Count.{
  IsConsistent, new_store-IsConsistent, add_rr-IsConsistent, remove_rr-IsConsistent,
}

module _ {l : Libs} where
  apply_adds-IsConsistent :
      (rrs : List Rr) (s : Store l) (t : Touched)
      → IsConsistent s
      → IsConsistent (apply_adds l rrs s t).0
  unfolding apply_adds
  apply_adds-IsConsistent [] s t h = h
  apply_adds-IsConsistent (rr ∷ rrs) s t h =
      let u : Touched = touch l rr t in
      elim (Option-cases (add_rr l rr s)) [
        | inl bad ↦ rw (bad, apply_adds) h
        | inr (s', good) ↦
            rw (good, apply_adds)
              (apply_adds-IsConsistent rrs s' (record u { added = u.added + 1 })
                (add_rr-IsConsistent rr s s' h good))
      ]

  apply_removes-IsConsistent :
      (rrs : List Rr) (s : Store l) (t : Touched)
      → IsConsistent s
      → IsConsistent (apply_removes l rrs s t).0
  unfolding apply_removes
  apply_removes-IsConsistent [] s t h = h
  apply_removes-IsConsistent (rr ∷ rrs) s t h =
      let u : Touched = touch l rr t in
      elim (Option-cases (remove_rr l rr s)) [
        | inl bad ↦ rw (bad, apply_removes) h
        | inr (s', good) ↦
            rw (good, apply_removes)
              (apply_removes-IsConsistent rrs s' (record u { removed = u.removed + 1 })
                (remove_rr-IsConsistent rr s s' h good))
      ]

  -- Whatever the changes, and even where one of them fails, the store that they leave is consistent.
  pub apply_changes-IsConsistent :
      (adds removes : List Rr) (s : Store l)
      → IsConsistent s
      → IsConsistent (apply_changes l adds removes s).0
  unfolding apply_changes
  apply_changes-IsConsistent adds removes s h =
      let (s', t, done) = apply_removes l removes s (untouched l) in
      let kept : IsConsistent s' = apply_removes-IsConsistent removes s (untouched l) h in
      elim (Bool-cases done) [
        | inl all ↦ rw all (apply_adds-IsConsistent adds s' t kept)
        | inr some_left ↦ rw some_left kept
      ]

  from_rrs-IsConsistent :
      (rrs : List Rr) (s t : Store l) → IsConsistent s → from_rrs l rrs s ≡ some t → IsConsistent t
  unfolding from_rrs
  from_rrs-IsConsistent [] s t h e = let same : s ≡ t = ground arith in subst IsConsistent same h
  from_rrs-IsConsistent (rr ∷ rrs) s t h e = elim (Option-cases (add_rr l rr s)) [
    | inl bad ↦ absurd (ground arith)
    | inr (s', good) ↦
        from_rrs-IsConsistent rrs s' t (add_rr-IsConsistent rr s s' h good) (ground arith)
  ]

  -- A zone that a full transfer builds is consistent.
  pub from_axfr-IsConsistent :
      (origin : Str) (rrs : List Rr) (s : Store l)
      → from_axfr l origin rrs ≡ some s
      → IsConsistent s
  unfolding from_axfr
  from_axfr-IsConsistent origin rrs s e =
      from_rrs-IsConsistent rrs (new_store l origin) s (new_store-IsConsistent origin) e
