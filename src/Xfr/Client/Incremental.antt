-- ===== src/Xfr/Client/Incremental.antt =====
-- What an incremental transfer gives, down to the records of the store that it is applied to.
use dnssec_auditor.Common.{
  ℕ, Str, Bool, true, false, not, ◌&&◌, ◌||◌, some, List, [], ◌∷◌, ◌++◌, ◌≡◌, ◌≢◌, arith, any,
  any-append,
}
use dnssec_auditor.Dns.{Rr, Soa}
use dnssec_auditor.Zone.Store.{Libs, Store, apply_changes}
use dnssec_auditor.Zone.Store.View.{holds, holds-apply_changes, stored, denotes}
use dnssec_auditor.Zone.Store.Count.{IsConsistent}
use dnssec_auditor.Xfr.Ixfr.{as_soa}
use dnssec_auditor.Xfr.Ixfr.Single.{Plain, changeset, parse-single}
use dnssec_auditor.Xfr.Ixfr.Multi.{parse-two, two_changesets}
use dnssec_auditor.Xfr.Client.{Result, interpret}

module _ (l : Libs) (zname server : Str) (from : ℕ) where
  -- The changes of an answer of one changeset, applied whole to a consistent store, give the zone
  -- without the old SOA and the deleted records, and then with the new SOA and the added ones.
  pub single-applied :
      (new_rr old_rr : Rr) {new old : Soa} (dels adds : List Rr) (r : Result l) (s : Store l)
      (j : Str) (u : ℕ) (x : Str)
      → as_soa new_rr ≡ some new
      → as_soa old_rr ≡ some old
      → Plain dels
      → Plain adds
      → old.serial ≢ new.serial
      → IsConsistent s
      → interpret l zname from server (new_rr ∷ changeset old_rr dels new_rr adds (new_rr ∷ []))
        ≡ some r
      → (apply_changes l r.adds r.removes s).2 ≡ true
      → (r.serial ≡ new.serial)
        × (holds (apply_changes l r.adds r.removes s).0 j u x
            ≡ (holds s j u x && not (any (λ rr. denotes l.dns rr j u x) (old_rr ∷ dels)))
              || any (λ rr. stored l.dns rr j u x) (new_rr ∷ adds))
  unfolding interpret
  single-applied new_rr old_rr dels adds r s j u x hn ho hd ha ne h e done = ground (
    arith,
    parse-single new_rr old_rr dels adds hn ho hd ha from ne,
    holds-apply_changes r.adds r.removes s j u x h done,
  )

  -- Of an answer of two changesets, applied whole to a consistent store, no record is left that the
  -- first changeset adds, unless the last one adds it too.
  pub first_additions_lost :
      (new_rr mid_rr old_rr : Rr) {new mid old : Soa} (dels₁ before after dels₂ adds₂ : List Rr)
      (rr : Rr) (r : Result l) (s : Store l) (j : Str) (u : ℕ) (x : Str)
      → as_soa new_rr ≡ some new
      → as_soa mid_rr ≡ some mid
      → as_soa old_rr ≡ some old
      → Plain dels₁
      → Plain (before ++ rr ∷ after)
      → Plain dels₂
      → Plain adds₂
      → old.serial ≢ new.serial
      → mid.serial ≢ new.serial
      → IsConsistent s
      → interpret l zname from server
          (two_changesets new_rr mid_rr old_rr dels₁ (before ++ rr ∷ after) dels₂ adds₂)
        ≡ some r
      → (apply_changes l r.adds r.removes s).2 ≡ true
      → denotes l.dns rr j u x ≡ true
      → any (λ a. stored l.dns a j u x) (new_rr ∷ adds₂) ≡ false
      → holds (apply_changes l r.adds r.removes s).0 j u x ≡ false
  unfolding interpret
  first_additions_lost new_rr mid_rr old_rr dels₁ before after dels₂ adds₂ rr r s j u x hn hm ho hd₁
        ha₁ hd₂ ha₂ ne ne' h e done is_it not_again =
      let p : Rr → Bool = λ a. denotes l.dns a j u x in
      let adds₁ : List Rr = before ++ rr ∷ after in
      ground (
        arith,
        parse-two new_rr mid_rr old_rr dels₁ adds₁ dels₂ adds₂ hn hm ho hd₁ ha₁ hd₂ ha₂ from ne ne',
        holds-apply_changes r.adds r.removes s j u x h done,
        any-append p dels₁ (mid_rr ∷ (adds₁ ++ mid_rr ∷ dels₂)),
        any-append p adds₁ (mid_rr ∷ dels₂),
        any-append p before (rr ∷ after),
      )
