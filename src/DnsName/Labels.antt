-- ===== src/DnsName/Labels.antt =====
-- Names made of labels, and the parents of such names.
use dnssec_auditor.Common.{
  ℕ, ◌<◌, Str, str_eq, nat_eq, ◌==◌, Bool, true, false, ◌&&◌, ◌||◌, List, [], ◌∷◌, ◌++◌, All,
  length, leb, ◌≡◌, ◌∙◌, ap, refl, arith,
}
use dnssec_auditor.Common.Text.{
  to_lower, lower_byte, trim_space_solid, starts_ok, ends_in_dot, ends_in_dot-append, has_suffix,
  dot,
}
use dnssec_auditor.Dns.{DnsLib}
use dnssec_auditor.DnsName.{root, join, canonical, qualify, with_dot, parent, parent_of}
use dnssec_auditor.DnsName.Laws.{IsNormal, canonical_of_IsNormal}
use mathlib.Core.List.{append_assoc}

-- A lower-case letter, a digit, `-`, `_` or `*`.
abbrev pub is_plain : ℕ → Bool
is_plain c =
    (leb 97 c && leb c 122) || ((leb 48 c && leb c 57) || (c == 45 || (c == 95 || c == 42)))

abbrev pub IsLabel : Str → Type 0
IsLabel l = (0 < length l) × All (λ c. is_plain c ≡ true) l

-- The labels with a dot behind each.
abbrev pub absolute : List Str → Str
absolute [] = []
absolute (l ∷ ls) = l ++ dot ∷ absolute ls

-- The name with these labels; that with none is the root.
abbrev pub name_of : List Str → Str
name_of [] = root
name_of (l ∷ ls) = absolute (l ∷ ls)

-- As `IsFqdn` and `SplitDomainName` are documented, for names of plain labels: such a name is fully
-- qualified, and it is split into its labels.
pub record SplitsNames (d : DnsLib) : Type 0 where
  pub qualified :
      (l : Str) (ls : List Str) → All IsLabel (l ∷ ls) → d.is_fqdn (absolute (l ∷ ls)) ≡ true
  pub split :
      (l : Str) (ls : List Str)
      → All IsLabel (l ∷ ls)
      → d.split_domain_name (absolute (l ∷ ls)) ≡ l ∷ ls

-- The bytes of a name: those of labels, and dots.
abbrev IsNameByte : ℕ → Type 0
IsNameByte c = (is_plain c || c == dot) ≡ true

All-append : (P : ℕ → Type 0) (s t : Str) → All P s → All P t → All P (s ++ t)
All-append P [] t hs ht = ht
All-append P (c ∷ s) t hs ht = (hs.0, All-append P s t hs.1 ht)

label_bytes : (l : Str) → All (λ c. is_plain c ≡ true) l → All IsNameByte l
label_bytes [] h = tt
label_bytes (c ∷ l) h = (ground (arith, h.0), label_bytes l h.1)

absolute_bytes : (ls : List Str) → All IsLabel ls → All IsNameByte (absolute ls)
absolute_bytes [] h = tt
absolute_bytes (l ∷ ls) h =
    All-append IsNameByte l (dot ∷ absolute ls) (label_bytes l h.0.1) (refl, absolute_bytes ls h.1)

join_bytes : (l : Str) (ls : List Str) → All IsLabel (l ∷ ls) → All IsNameByte (join (l ∷ ls))
unfolding join
join_bytes l [] h = label_bytes l h.0.1
join_bytes l (m ∷ ls) h =
    All-append IsNameByte l (dot ∷ join (m ∷ ls)) (label_bytes l h.0.1) (refl, join_bytes m ls h.1)

name_solid : (s : Str) → All IsNameByte s → All (λ c. 32 < c) s
name_solid [] h = tt
name_solid (c ∷ s) h = (ground (arith, h.0), name_solid s h.1)

name_lower : (s : Str) → All IsNameByte s → to_lower s ≡ s
unfolding to_lower lower_byte
name_lower [] h = refl
name_lower (c ∷ s) h = ground (arith, h.0, name_lower s h.1)

starts_ok-absolute : (l : Str) (ls : List Str) → IsLabel l → starts_ok (absolute (l ∷ ls)) ≡ true
unfolding starts_ok
starts_ok-absolute [] ls h = absurd (omega (arith, h.0))
starts_ok-absolute (c ∷ l) ls h = ground (arith, h.1.0)

-- A name with a label is not the root.
pub absolute_below_root :
    (l : Str) (ls : List Str) → IsLabel l → (absolute (l ∷ ls) == root) ≡ false
absolute_below_root [] ls h = absurd (omega (arith, h.0))
absolute_below_root (c ∷ l) ls h = ground (arith, h.1.0)

label_dotless : (l : Str) → All (λ c. is_plain c ≡ true) l → ends_in_dot l ≡ false
unfolding has_suffix
label_dotless [] h = refl
label_dotless (c ∷ l) h = ground (arith, h.0, label_dotless l h.1)

join_nonempty : (l : Str) (ls : List Str) → IsLabel l → 0 < length (join (l ∷ ls))
unfolding join
join_nonempty [] ls h = absurd (omega (arith, h.0))
join_nonempty (c ∷ l) [] h = omega arith
join_nonempty (c ∷ l) (m ∷ ls) h = omega arith

behind_dot : (s : Str) → 0 < length s → ends_in_dot (dot ∷ s) ≡ ends_in_dot s
unfolding has_suffix
behind_dot [] h = absurd (omega (arith, h))
behind_dot (c ∷ s) h = ground arith

join_dotless :
    (l : Str) (ls : List Str) → All IsLabel (l ∷ ls) → ends_in_dot (join (l ∷ ls)) ≡ false
unfolding join
join_dotless l [] h = label_dotless l h.0.1
join_dotless l (m ∷ ls) h =
    ends_in_dot-append l dot (join (m ∷ ls))
    ∙ behind_dot (join (m ∷ ls)) (join_nonempty m ls h.1.0)
    ∙ join_dotless m ls h.1

join-absolute : (l : Str) (ls : List Str) → join (l ∷ ls) ++ dot ∷ [] ≡ absolute (l ∷ ls)
unfolding join
join-absolute l [] = refl
join-absolute l (m ∷ ls) =
    append_assoc l (dot ∷ join (m ∷ ls)) (dot ∷ []) ∙ ap (λ s. l ++ dot ∷ s) (join-absolute m ls)

module _ (d : DnsLib) (n : SplitsNames d) where
  absolute-IsNormal :
      (l : Str) (ls : List Str) → All IsLabel (l ∷ ls) → IsNormal d (absolute (l ∷ ls))
  unfolding IsNormal
  absolute-IsNormal l ls h = (
    n.qualified l ls h,
    starts_ok-absolute l ls h.0,
    name_lower (absolute (l ∷ ls)) (absolute_bytes (l ∷ ls) h),
  )

  -- A name of plain labels is canonical.
  pub canonical-absolute :
      (l : Str) (ls : List Str)
      → All IsLabel (l ∷ ls)
      → canonical d (absolute (l ∷ ls)) ≡ absolute (l ∷ ls)
  canonical-absolute l ls h = canonical_of_IsNormal d (absolute (l ∷ ls)) (absolute-IsNormal l ls h)

  qualify_nonempty : (s : Str) → 0 < length s → qualify d s ≡ to_lower (d.fqdn (with_dot d s))
  unfolding qualify
  qualify_nonempty [] h = absurd (omega (arith, h))
  qualify_nonempty (c ∷ s) h = refl

  -- The labels joined again are canonicalised to the name.
  canonical-join :
      (l : Str) (ls : List Str)
      → All IsLabel (l ∷ ls)
      → canonical d (join (l ∷ ls)) ≡ absolute (l ∷ ls)
  unfolding canonical with_dot
  canonical-join l ls h =
      let joined = join (l ∷ ls) in
      let dotted : with_dot d joined ≡ absolute (l ∷ ls) =
        rw (join_dotless l ls h) (join-absolute l ls) in
      let bytes = absolute_bytes (l ∷ ls) h in
      ap (qualify d) (trim_space_solid joined (name_solid joined (join_bytes l ls h)))
      ∙ qualify_nonempty joined (join_nonempty l ls h.0)
      ∙ ap (λ s. to_lower (d.fqdn s)) dotted
      ∙ ap to_lower (d.fqdn_id (absolute (l ∷ ls)) (n.qualified l ls h))
      ∙ name_lower (absolute (l ∷ ls)) bytes

  parent_of-name_of :
      (l : Str) (ls : List Str) → All IsLabel (l ∷ ls) → parent_of d (l ∷ ls) ≡ name_of ls
  unfolding parent_of
  parent_of-name_of l [] h = refl
  parent_of-name_of l (m ∷ ls) h = canonical-join m ls h.1

  -- The parent of a name of plain labels is the name without the first one.
  pub parent-absolute :
      (l : Str) (ls : List Str) → All IsLabel (l ∷ ls) → parent d (absolute (l ∷ ls)) ≡ name_of ls
  unfolding parent
  parent-absolute l ls h =
      rw (canonical-absolute l ls h, absolute_below_root l ls h.0, n.split l ls h)
        (parent_of-name_of l ls h)
