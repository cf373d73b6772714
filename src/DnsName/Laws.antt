-- ===== src/DnsName/Laws.antt =====
-- Canonical names: a normal form, in lower case, fully qualified.
use dnssec_auditor.Common.{Str, str_eq, ◌==◌, ◌≡◌, refl, true, false, [], ◌∷◌, arith, ◌∙◌, inl, inr}
use dnssec_auditor.Common.Text.{
  starts_ok, starts_ok-trim_space, starts_ok-to_lower, starts_ok-append_dot, ends_in_dot_nil,
  ends_in_dot, has_suffix, to_lower, to_lower-to_lower, trim_space, trim_space_id,
}
use dnssec_auditor.Dns.{DnsLib}
use dnssec_auditor.DnsName.{canonical, qualify, with_dot, root}

module _ (d : DnsLib) where
  starts_ok-fqdn : (s : Str) → starts_ok s ≡ true → starts_ok (d.fqdn s) ≡ true
  starts_ok-fqdn s h = elim (d.fqdn_shape s) [
    | inl same ↦ rw same h
    | inr more ↦ rw more (starts_ok-append_dot s h)
  ]

  -- What `canonical` returns for a text that is not blank.
  unfoldable pub IsNormal : Str → Type 0
  IsNormal n = (d.is_fqdn n ≡ true) × (starts_ok n ≡ true) × (to_lower n ≡ n)

  starts_ok-with_dot : (s : Str) → starts_ok s ≡ true → starts_ok (with_dot d s) ≡ true
  unfolding with_dot
  starts_ok-with_dot s h = ground (arith, starts_ok-append_dot s h)

  lower_fqdn-IsNormal : (s : Str) → starts_ok s ≡ true → IsNormal (to_lower (d.fqdn s))
  unfolding IsNormal
  lower_fqdn-IsNormal s h = (
    d.is_fqdn-to_lower (d.fqdn s) ∙ d.is_fqdn-fqdn s,
    starts_ok-to_lower (d.fqdn s) ∙ starts_ok-fqdn s h,
    to_lower-to_lower (d.fqdn s),
  )

  root-IsNormal : IsNormal root
  unfolding IsNormal starts_ok to_lower
  root-IsNormal = (d.is_fqdn_root, refl, refl)

  qualify-IsNormal : (t : Str) → starts_ok t ≡ true → IsNormal (qualify d t)
  unfolding qualify
  qualify-IsNormal [] h = root-IsNormal
  qualify-IsNormal (c ∷ r) h =
      lower_fqdn-IsNormal (with_dot d (c ∷ r)) (starts_ok-with_dot (c ∷ r) h)

  canonical-IsNormal : (s : Str) → IsNormal (canonical d s)
  unfolding canonical
  canonical-IsNormal s = qualify-IsNormal (trim_space s) (starts_ok-trim_space s)

  qualify_of_IsNormal : (n : Str) → IsNormal n → qualify d n ≡ n
  unfolding IsNormal qualify with_dot
  qualify_of_IsNormal [] h = absurd (ends_in_dot_nil (d.is_fqdn_dot [] h.0))
  qualify_of_IsNormal (c ∷ r) h = rw (d.is_fqdn_dot (c ∷ r) h.0) (rw (d.fqdn_id (c ∷ r) h.0) h.2)

  pub canonical_of_IsNormal : (n : Str) → IsNormal n → canonical d n ≡ n
  unfolding canonical IsNormal
  canonical_of_IsNormal n h =
      rw (trim_space_id n h.1 (d.is_fqdn_dot n h.0)) (qualify_of_IsNormal n h)

  -- Canonicalising a name again changes nothing, whatever the name.
  pub canonical-canonical : (s : Str) → canonical d (canonical d s) ≡ canonical d s
  canonical-canonical s = canonical_of_IsNormal (canonical d s) (canonical-IsNormal s)

  pub to_lower-canonical : (s : Str) → to_lower (canonical d s) ≡ canonical d s
  unfolding IsNormal
  to_lower-canonical s = (canonical-IsNormal s).2

  dotted_nonempty : (n : Str) → ends_in_dot n ≡ true → (n == []) ≡ false
  unfolding has_suffix
  dotted_nonempty [] h = ground (arith, h)
  dotted_nonempty (c ∷ n) h = refl

  -- A canonical name is never empty.
  pub canonical_nonempty : (s : Str) → (canonical d s == []) ≡ false
  unfolding IsNormal
  canonical_nonempty s =
      dotted_nonempty (canonical d s) (d.is_fqdn_dot (canonical d s) (canonical-IsNormal s).0)
