-- ===== src/Dnssec/Apex.antt =====
-- internal/dnssec/verify.go: the checks of the keys at the apex. Each returns the findings that it adds,
-- in order. Go's order over the tags is that of their first keys.
pub mod Codes
pub mod Marks
use dnssec_auditor.Common.{
  ℕ, suc, Str, str_eq, nat_eq, ◌==◌, Bool, true, false, not, ◌&&◌, ◌||◌, Option, none, some, List,
  [], ◌∷◌, ◌++◌, if◌then◌else◌, any, ltb,
}
use dnssec_auditor.Common.Map.{Map, get, put}
use dnssec_auditor.Dns.{DnsLib, Rr, Rrsig, type_dnskey}
use dnssec_auditor.Zone.RrSet.{RrSet, unpack, rrsig_from_compact}
use dnssec_auditor.Zone.Node.{Node, rrsigs_covering}
use dnssec_auditor.Zone.Node
use dnssec_auditor.Zone.Store.{Libs, Store, apex}
use dnssec_auditor.Dnssec.Findings.{Time, Finding, Message, error, num, say, new_finding}
use dnssec_auditor.Dnssec.Crypto.{Crypto}
use dnssec_auditor.Dnssec.Keys.{CachedKey}

counted : Option ℕ → ℕ
counted none = 0
counted (some n) = n

-- byTag
pub by_tag : List CachedKey → Map ℕ ℕ → Map ℕ ℕ
unfolding counted
by_tag [] m = m
by_tag (k ∷ ks) m = by_tag ks (put k.key_tag (suc (counted (get k.key_tag m))) m)

module _ (d : DnsLib) (now : Time) where
  pub over_limit : Str → Map ℕ ℕ → List Finding
  over_limit origin [] = []
  over_limit origin ((tag, n) ∷ m) =
      let rest = over_limit origin m in
      if ltb 3 n
      then new_finding d now "KEYTAG_COLLISION_LIMIT" error origin type_dnskey
          (record { format = "keytag %d has %d keys"; args = num tag ∷ num n ∷ [] })
        ∷ rest
      else rest

  -- checkKeytagCollisions
  unfoldable pub check_keytag_collisions : Str → List CachedKey → List Finding
  unfolding over_limit by_tag
  check_keytag_collisions origin keys = over_limit origin (by_tag keys [])

module _ (l : Libs) (c : Crypto) (now : Time) where
  open l use {dns}

  -- The key has the signing flag and the signature's tag, and verifies it.
  pub ksk_signs : Node → RrSet → List Rr → Rrsig → CachedKey → Bool
  ksk_signs n set rrs sig k =
      k.is_ksk
      && (k.key_tag == sig.key_tag && c.verify (rrsig_from_compact n.name set.ttl sig) k.rr rrs)

  -- The loop over the keys, for one signature.
  pub mark_keys : Node → RrSet → List Rr → Rrsig → List CachedKey → List CachedKey × Bool
  unfolding ksk_signs
  mark_keys n set rrs sig [] = ([], false)
  mark_keys n set rrs sig (k ∷ ks) =
      let rest = mark_keys n set rrs sig ks in
      if ksk_signs n set rrs sig k
      then (record k { used = true } ∷ rest.0, true)
      else (k ∷ rest.0, rest.1)

  pub mark_all : Node → RrSet → List Rr → List Rrsig → List CachedKey → List CachedKey × Bool
  unfolding mark_keys
  mark_all n set rrs [] keys = (keys, false)
  mark_all n set rrs (sig ∷ sigs) keys =
      let one = mark_keys n set rrs sig keys in
      let rest = mark_all n set rrs sigs one.0 in (rest.0, one.1 || rest.1)

  pub ksk_unpacked :
      Node → RrSet → List CachedKey → Option (List Rr) → List Finding × List CachedKey
  unfolding mark_all
  ksk_unpacked n set keys none = ([], keys)
  ksk_unpacked n set keys (some rrs) =
      let marked = mark_all n set rrs (rrsigs_covering dns n type_dnskey) keys in
      (
        if marked.1
            then []
            else new_finding dns now "DNSKEY_NOT_SIGNED_BY_KSK" error n.name type_dnskey
                (say "DNSKEY RRset is not signed by a KSK")
              ∷ [],
        marked.0,
      )

  -- checkDNSKEYSignedByKSK: the findings, and the keys with their marks of use.
  unfoldable pub check_dnskey_signed_by_ksk :
      Store l → List CachedKey → List Finding × List CachedKey
  unfolding ksk_unpacked
  check_dnskey_signed_by_ksk st keys = elim (apex l st) [
    | none ↦ ([], keys)
    | some n ↦ elim (Node.set n type_dnskey) [
      | none ↦ ([], keys)
      | some set ↦ ksk_unpacked n set keys (unpack dns set n.name)
    ]
  ]
