-- ===== src/Dnssec/Verify/Authority.antt =====
-- isAuthoritative: the cuts above a name.
use dnssec_auditor.Common.{
  ℕ, zero, suc, ◌<◌, ◌≤◌, Str, str_eq, ◌==◌, Bool-cases, inl, inr, false, not, List, [], ◌∷◌, All,
  any, if◌then◌else◌, length, length-append, ◌≡◌, ◌∙◌, ap, arith, beq_refl,
}
use dnssec_auditor.Common.Text.{dot}
use dnssec_auditor.DnsName.{parent, root}
use dnssec_auditor.DnsName.Labels.{
  IsLabel, absolute, name_of, SplitsNames, parent-absolute, absolute_below_root,
}
use dnssec_auditor.Zone.Node.{Node}
use dnssec_auditor.Zone.Store.{Libs, Store, lookup}
use dnssec_auditor.Dnssec.Verify.{is_cut, walk_up, is_authoritative}

-- The name with these labels and the names above it, up to but without the root.
abbrev pub lineage : List Str → List Str
lineage [] = []
lineage (l ∷ ls) = absolute (l ∷ ls) ∷ lineage ls

-- The names before `origin`.
abbrev pub below : Str → List Str → List Str
below origin [] = []
below origin (p ∷ ps) = let rest = below origin ps in if p == origin then [] else p ∷ rest

shorter-apart : (a b : Str) → length a < length b → (a == b) ≡ false
shorter-apart a b h = elim (Bool-cases (a == b)) [
  | inl same ↦ absurd (omega (arith, h, ap (λ (s : Str). length s) ((str_eq.beq_iff a b).0 same)))
  | inr apart ↦ apart
]

length-name_of :
    (l : Str) (ls : List Str)
    → All IsLabel (l ∷ ls)
    → length (name_of ls) < length (absolute (l ∷ ls))
length-name_of l [] h = omega (arith, h.0.0, length-append l (dot ∷ []))
length-name_of l (m ∷ ls) h = omega (arith, length-append l (dot ∷ absolute (m ∷ ls)))

length-absolute : (ls : List Str) → length ls ≤ length (absolute ls)
length-absolute [] = omega arith
length-absolute (l ∷ ls) = omega (arith, length-append l (dot ∷ absolute ls), length-absolute ls)

module _ (l : Libs) (names : SplitsNames l.dns) where
  -- With a step for each label, the loop looks for a cut from the name `ls` up to below the origin.
  walk_up-below :
      (fuel : ℕ) (name : Str) (st : Store l) (ls : List Str)
      → length ls < fuel
      → All IsLabel ls
      → length (name_of ls) < length name
      → walk_up l fuel name st (name_of ls)
        ≡ not (any (λ p. is_cut (lookup l p st)) (below st.origin (lineage ls)))
  unfolding walk_up
  walk_up-below zero name st ls hf hl hn = absurd (omega (arith, hf))
  walk_up-below (suc fuel) name st [] hf hl hn = ground (arith, beq_refl root)
  walk_up-below (suc fuel) name st (m ∷ ls) hf hl hn =
      let up = parent-absolute l.dns names m ls hl in
      let short = length-name_of m ls hl in
      let rest =
        walk_up-below fuel name st ls (omega (arith, hf)) hl.1 (omega (arith, short, hn)) in
      let low = absolute_below_root m ls hl.0 in
      let own = shorter-apart (absolute (m ∷ ls)) name hn in
      let on = shorter-apart (name_of ls) (absolute (m ∷ ls)) short in
      rw (up, low, own, on, rest) (ground arith)

  -- A name of plain labels (of lower-case letters, digits, `-`, `_` and `*`) other than the origin is
  -- authoritative exactly if no name above it, up to but without the origin, has a node that is a
  -- delegation, provided that the DNS library splits such names into their labels. In particular the
  -- steps that the loop is given are enough.
  pub is_authoritative-below :
      (st : Store l) (n : Node) (m : Str) (ls : List Str)
      → n.name ≡ absolute (m ∷ ls)
      → All IsLabel (m ∷ ls)
      → (n.name == st.origin) ≡ false
      → is_authoritative l st n
        ≡ not (any (λ p. is_cut (lookup l p st)) (below st.origin (lineage ls)))
  unfolding is_authoritative
  is_authoritative-below st n m ls hn hl ho =
      let size = ap (λ (s : Str). length s) hn in
      let short = length-name_of m ls hl in
      let enough = length-absolute (m ∷ ls) in
      let up : parent l.dns n.name ≡ name_of ls =
        ap (parent l.dns) hn ∙ parent-absolute l.dns names m ls hl in
      rw (ho, up, is_authoritative)
        (walk_up-below (suc (length n.name)) n.name st ls (omega (arith, size, enough)) hl.1
          (omega (arith, size, short)))
