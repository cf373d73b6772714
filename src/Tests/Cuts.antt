-- ===== src/Tests/Cuts.antt =====
-- Tests of isAuthoritative, with a library that splits names at their dots.
use dnssec_auditor.Common.{
  ℕ, Str, str_eq, true, false, List, [], ◌∷◌, ◌++◌, ap, ◌∙◌, if◌then◌else◌, nat_eq, All, ◌≡◌, refl,
  codes, not, any, arith, ◌==◌,
}
use dnssec_auditor.Common.Map
use dnssec_auditor.Dns.{DnsLib}
use dnssec_auditor.DnsName.{canonical, root}
use dnssec_auditor.DnsName.Labels.{is_plain, IsLabel, absolute, SplitsNames, absolute_below_root}
use dnssec_auditor.Zone.Node.{Node}
use dnssec_auditor.Zone.Store.{Libs, Store, lookup}
use dnssec_auditor.Common.Text.{
  to_lower, dot, ends_in_dot, has_suffix, ends_in_dot-append, trim_space,
}
use dnssec_auditor.Dnssec.Verify.{is_authoritative, is_cut}
use dnssec_auditor.Dnssec.Verify.Authority.{lineage, below, is_authoritative-below}
use dnssec_auditor.Samples.{with_final_dot, sample_dns, sample_libs, signed_apex, origin, www}

-- A library that splits names at their dots.
push : ℕ → List Str → List Str
push c [] = (c ∷ []) ∷ []
push c (l ∷ ls) = (c ∷ l) ∷ ls

cut_at_dots : Str → List Str
unfolding push
cut_at_dots [] = []
cut_at_dots (c ∷ s) = let rest = cut_at_dots s in if c == dot then [] ∷ rest else push c rest

split_name : Str → List Str
unfolding cut_at_dots
split_name s = if s == root then [] else cut_at_dots s

abbrev splitting_dns : DnsLib
splitting_dns = record sample_dns { split_domain_name = split_name }

abbrev splitting_libs : Libs
splitting_libs = record sample_libs { dns = splitting_dns }

cut_at_dots-label :
    (l : Str) (s : Str)
    → All (λ c. is_plain c ≡ true) l
    → cut_at_dots (l ++ dot ∷ s) ≡ l ∷ cut_at_dots s
unfolding cut_at_dots push
cut_at_dots-label [] s h = refl
cut_at_dots-label (c ∷ l) s h =
    let inside : (c == dot) ≡ false = ground (arith, h.0) in
    rw (inside, cut_at_dots-label l s h.1) refl

cut_at_dots-absolute : (ls : List Str) → All IsLabel ls → cut_at_dots (absolute ls) ≡ ls
unfolding cut_at_dots
cut_at_dots-absolute [] h = refl
cut_at_dots-absolute (l ∷ ls) h =
    cut_at_dots-label l (absolute ls) h.0.1
    ∙ ap (λ (t : List Str). l ∷ t) (cut_at_dots-absolute ls h.1)

ends_in_dot-absolute : (l : Str) (ls : List Str) → ends_in_dot (absolute (l ∷ ls)) ≡ true
unfolding has_suffix
ends_in_dot-absolute l [] = ends_in_dot-append l dot []
ends_in_dot-absolute l (m ∷ ls) =
    ends_in_dot-append l dot (absolute (m ∷ ls)) ∙ ground (arith, ends_in_dot-absolute m ls)

splits : SplitsNames splitting_dns
unfolding split_name
splits = record {
  qualified = λ l ls h. ends_in_dot-absolute l ls;
  split = λ l ls h. rw (absolute_below_root l ls h.0) (cut_at_dots-absolute (l ∷ ls) h);
}

-- The node `a.w.e.` below the cut `w.e.` of the zone `e.`
abbrev deep_labels : List Str
deep_labels = codes "w" ∷ codes "e" ∷ []

abbrev deep : Str
deep = codes "a.w.e."

abbrev glue : Node
glue = record (signed_apex 1000) { name = deep }

abbrev cut_zone : Store splitting_libs
cut_zone = record {
  origin = origin;
  serial = 1;
  nodes =
      (origin, signed_apex 1000)
      ∷ (www, record (signed_apex 1000) { name = www; is_delegation = true })
      ∷ (deep, glue)
      ∷ [];
  nsec3 = splitting_libs.ring.empty;
  expiry = splitting_libs.expiries.empty;
  rrs = 12;
}

plain_labels : All IsLabel (codes "a" ∷ deep_labels)
plain_labels =
    ((omega arith, (refl, tt)), ((omega arith, (refl, tt)), ((omega arith, (refl, tt)), tt)))

is_authoritative-below_example :
    is_authoritative splitting_libs cut_zone glue
    ≡ not
        (any (λ p. is_cut (lookup splitting_libs p cut_zone)) (below origin (lineage deep_labels)))
is_authoritative-below_example =
    is_authoritative-below splitting_libs splits cut_zone glue (codes "a") deep_labels refl
      plain_labels refl

-- The loop finds the cut.
glue_cut : is_authoritative splitting_libs cut_zone glue ≡ false
unfolding lookup canonical trim_space to_lower has_suffix with_final_dot is_cut Map.get
glue_cut =
    is_authoritative-below splitting_libs splits cut_zone glue (codes "a") deep_labels refl
      plain_labels refl
