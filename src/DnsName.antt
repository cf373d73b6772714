-- ===== src/DnsName.antt =====
-- internal/dnsname/name.go. Names are ASCII, so that `strings.ToLower` and `strings.TrimSpace` work
-- byte by byte.
pub mod Laws
pub mod Labels
use dnssec_auditor.Common.{
  ℕ, Str, str_eq, ◌==◌, Bool, true, false, not, ◌&&◌, ◌||◌, List, [], ◌∷◌, ◌++◌, leb, if◌then◌else◌,
  length,
}
use dnssec_auditor.Common.Text.{to_lower, trim_space, has_suffix, ends_in_dot, dot}
use dnssec_auditor.Dns.{DnsLib}

abbrev pub Name : Type 0
Name = Str

abbrev pub root : Name
root = dot ∷ []

-- strings.Join(labels, ".")
join : List Str → Str
join [] = []
join (l ∷ []) = l
join (l ∷ m ∷ ls) = l ++ dot ∷ join (m ∷ ls)

module _ (d : DnsLib) where
  with_dot : Str → Str
  with_dot s = if ends_in_dot s then s else s ++ dot ∷ []

  -- `canonical` after `strings.TrimSpace`
  qualify : Str → Name
  qualify [] = root
  qualify (c ∷ r) = to_lower (d.fqdn (with_dot (c ∷ r)))

  unfoldable pub canonical : Str → Name
  unfolding qualify with_dot
  canonical name = qualify (trim_space name)

  unfoldable pub equal : Str → Str → Bool
  equal a b = canonical a == canonical b

  unfoldable pub is_subdomain : Str → Str → Bool
  is_subdomain name origin =
      let n = canonical name in
      let o = canonical origin in
      if n == o then true else has_suffix n (dot ∷ o) || (o == root && not (n == []))

  parent_of : List Str → Name
  unfolding join
  parent_of [] = root
  parent_of (l ∷ []) = root
  parent_of (l ∷ m ∷ ls) = canonical (join (m ∷ ls))

  unfoldable pub parent : Str → Name
  unfolding parent_of
  parent name =
      let n = canonical name in if n == root then root else parent_of (d.split_domain_name n)

  unfoldable pub labels : Str → ℕ
  labels name = d.count_label (canonical name)
