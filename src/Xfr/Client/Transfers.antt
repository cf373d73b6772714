-- ===== src/Xfr/Client/Transfers.antt =====
-- What a full transfer gives.
use dnssec_auditor.Common.{
  ℕ, ◌+◌, Str, nat_eq, ◌==◌, true, false, ◌||◌, some, List, [], ◌∷◌, ◌++◌, ◌≡◌, subst, arith,
  if◌then◌else◌, Bool-cases, Option-cases, inl, inr, any, any-append, length-append, length, select,
  ◌∙◌,
}
use dnssec_auditor.Dns.{Rr, type_tkey}
use dnssec_auditor.DnsName.{canonical}
use dnssec_auditor.Zone.Store.{Libs, Store, new_store, add_rr}
use dnssec_auditor.Zone.Store.View.{holds, holds-add_rr, holds-new_store, stored}
use dnssec_auditor.Zone.Store.Count.{IsConsistent, add_rr-IsConsistent, new_store-IsConsistent}
use dnssec_auditor.Xfr.Client.{Result, Envelope, load, load_all, transfer_full}

-- The records of the envelopes that a full transfer keeps.
abbrev pub kept : List Rr → List Rr
kept = select (λ rr. if rr.rrtype == type_tkey then false else true)

abbrev pub kept_all : List Envelope → List Rr
kept_all [] = []
kept_all (env ∷ envs) = kept env.rrs ++ kept_all envs

module _ (l : Libs) where
  load-holds :
      (rrs : List Rr) (s t : Store l) (n m : ℕ) (j : Str) (u : ℕ) (x : Str)
      → load l rrs s n ≡ some (t, m)
      → (holds t j u x ≡ holds s j u x || any (λ rr. stored l.dns rr j u x) (kept rrs))
        × (m ≡ n + length (kept rrs))
  unfolding load
  load-holds [] s t n m j u x e = ground arith
  load-holds (rr ∷ rrs) s t n m j u x e = elim (Bool-cases (rr.rrtype == type_tkey)) [
    | inl skip ↦ ground (arith, skip, load-holds rrs s t n m j u x)
    | inr take ↦ elim (Option-cases (add_rr l rr s)) [
      | inl bad ↦ absurd (ground arith)
      | inr (s', good) ↦
          ground (
            arith,
            take,
            good,
            holds-add_rr rr s s' j u x good,
            load-holds rrs s' t (n + 1) m j u x,
          )
    ]
  ]

  load-IsConsistent :
      (rrs : List Rr) (s t : Store l) (n m : ℕ)
      → IsConsistent s
      → load l rrs s n ≡ some (t, m)
      → IsConsistent t
  unfolding load
  load-IsConsistent [] s t n m h e = let same : s ≡ t = ground arith in subst IsConsistent same h
  load-IsConsistent (rr ∷ rrs) s t n m h e = elim (Bool-cases (rr.rrtype == type_tkey)) [
    | inl skip ↦ load-IsConsistent rrs s t n m h (ground arith)
    | inr take ↦ elim (Option-cases (add_rr l rr s)) [
      | inl bad ↦ absurd (ground arith)
      | inr (s', good) ↦
          load-IsConsistent rrs s' t (n + 1) m (add_rr-IsConsistent rr s s' h good) (ground arith)
    ]
  ]

  -- What a run over all envelopes leaves, where no envelope fails.
  record Loaded (envs : List Envelope) (s t : Store l) (n m : ℕ) : Type 0 where
    exact :
        (j : Str) (u : ℕ) (x : Str)
        → holds t j u x ≡ holds s j u x || any (λ rr. stored l.dns rr j u x) (kept_all envs)
    counted : m ≡ n + length (kept_all envs)
    consistent : IsConsistent s → IsConsistent t

  load_all-Loaded :
      (envs : List Envelope) (s t : Store l) (n m : ℕ)
      → load_all l envs s n ≡ some (t, m)
      → Loaded envs s t n m
  unfolding load_all
  load_all-Loaded [] s t n m e =
      let same : s ≡ t = ground arith in
      record {
        exact = λ j u x. rw same (ground arith);
        counted = ground arith;
        consistent = λ h. subst IsConsistent same h;
      }
  load_all-Loaded (env ∷ envs) s t n m e = elim (Option-cases (load l env.rrs s n)) [
    | inl bad ↦ absurd (ground arith)
    | inr ((s', n'), good) ↦
        let rest : Loaded envs s' t n' m = load_all-Loaded envs s' t n' m (ground arith) in
        record {
          exact = λ j u x. ground (
            arith,
            load-holds env.rrs s s' n n' j u x good,
            rest.exact j u x,
            any-append (λ rr. stored l.dns rr j u x) (kept env.rrs) (kept_all envs),
          );
          counted = ground (
            arith,
            load-holds env.rrs s s' n n' [] 0 [] good,
            rest.counted,
            length-append (kept env.rrs) (kept_all envs),
          );
          consistent = λ h. rest.consistent (load-IsConsistent env.rrs s s' n n' h good);
        }
  ]

  -- A full transfer that succeeds brings a consistent store, which has exactly what the records of
  -- all envelopes denote, those of type TKEY apart, and counts those records.
  pub transfer_full-exact :
      (zname server : Str) (envs : List Envelope) (r : Result l) (j : Str) (u : ℕ) (x : Str)
      → transfer_full l zname server (some envs) ≡ some r
      → (st : Store l) × (r.store ≡ some st)
        × IsConsistent st
        × (r.serial ≡ st.serial)
        × (r.records ≡ length (kept_all envs))
        × (holds st j u x ≡ any (λ rr. stored l.dns rr j u x) (kept_all envs))
  unfolding transfer_full
  transfer_full-exact zname server envs r j u x e =
      let start : Store l = new_store l (canonical l.dns zname) in
      elim (Option-cases (load_all l envs start 0)) [
        | inl bad ↦ absurd (ground arith)
        | inr ((st, n), good) ↦
            let all : Loaded envs start st 0 n = load_all-Loaded envs start st 0 n good in
            (
              st,
              ground arith,
              all.consistent (new_store-IsConsistent (canonical l.dns zname)),
              ground arith,
              ground (arith, all.counted),
              all.exact j u x ∙ rw (holds-new_store l (canonical l.dns zname) j u x),
            )
      ]
