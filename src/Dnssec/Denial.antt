-- ===== src/Dnssec/Denial.antt =====
-- internal/dnssec/nsec.go: denial of existence at a node and along the whole chain. A check returns the
-- findings that it adds, in order. A name that a chain visits has a node, so the source's read of a
-- node that is not there, which would stop the program, is passed over here.
pub mod Chain
pub mod Codes
use dnssec_auditor.Common.{
  ℕ, ◌%◌, Str, str_eq, nat_eq, ◌==◌, Bool, true, false, not, ◌&&◌, ◌||◌, Option, none, some, List,
  [], ◌∷◌, ◌++◌, map, if◌then◌else◌, any, select, String,
}
use dnssec_auditor.Dns.{
  DnsLib, Rr, RData, Nsec3Param, soa, nsec, nsec3, nsec3param, rrsig, dnskey, zonemd, ptr, txt,
  other, type_nsec, type_nsec3, type_nsec3param,
}
use dnssec_auditor.DnsName.{canonical}
use dnssec_auditor.Zone.Node.{Node, has, unpack_type}
use dnssec_auditor.Zone.Entries.{Nsec3Rec, salt_bytes}
use dnssec_auditor.Zone.Index.{OrderedMap, str_leb}
use dnssec_auditor.Zone.Canonical.{bitmap_equal, expected_bitmap, hash_name}
use dnssec_auditor.Zone.Store.{Libs, Store, lookup}
use dnssec_auditor.Zone.Store.Records.{name_leb, nodes_of}
use dnssec_auditor.Zone.Store.Ring.{nsec3_by_hash, covering_nsec3}
use dnssec_auditor.Common.Sort.{sort_by}
use dnssec_auditor.Dnssec.Findings.{Time, Finding, Message, error, num, str, nums, say, new_finding}
use dnssec_auditor.Dnssec.Crypto.{Crypto}
use dnssec_auditor.Dnssec.Verify.{is_authoritative, is_nsec3_owner}

-- saltOf
unfoldable pub salt_of : Nsec3Param → Str
salt_of p = salt_bytes p.salt

as_nsec : RData → Option (Str × List ℕ)
as_nsec (nsec next types) = some (next, types)
as_nsec (soa _) = none
as_nsec _ = none

-- The outcome of reading the NSEC of a node.
pub data NsecAt : Type 0 where
  unreadable : NsecAt
  not_nsec : NsecAt
  nsec_at : Str → List ℕ → NsecAt

first_nsec : Option (List Rr) → NsecAt
unfolding as_nsec
first_nsec none = unreadable
first_nsec (some []) = unreadable
first_nsec (some (rr ∷ rrs)) = elim (as_nsec rr.rdata) [
  | none ↦ not_nsec
  | some (n, t) ↦ nsec_at n t
]

pub read_nsec : DnsLib → Node → NsecAt
unfolding first_nsec
read_nsec d n = first_nsec (unpack_type d n type_nsec)

-- Each element with the next one; the last one's next is `first`.
pub with_next {ℓ} : {A : Type ℓ} → A → List A → List (A × A)
with_next first [] = []
with_next first (x ∷ []) = (x, first) ∷ []
with_next first (x ∷ y ∷ ys) = (x, y) ∷ with_next first (y ∷ ys)

-- names[i] with names[(i+1)%len(names)], for each i.
unfoldable pub successors {ℓ} : {A : Type ℓ} → List A → List (A × A)
unfolding with_next
successors [] = []
successors (x ∷ xs) = with_next x (x ∷ xs)

has_opt_out : Option Nsec3Rec → Bool
has_opt_out none = false
has_opt_out (some rec) = rec.flags % 2 == 1

module _ (l : Libs) (c : Crypto) (now : Time) where
  open l use {dns, ring}

  nsec_missing : Node → String → List Finding
  nsec_missing n text = new_finding dns now "NSEC_MISSING" error n.name type_nsec (say text) ∷ []

  nsec_bitmap : Node → NsecAt → List Finding
  unfolding nsec_missing
  nsec_bitmap n unreadable = nsec_missing n "unreadable NSEC"
  nsec_bitmap n not_nsec = []
  nsec_bitmap n (nsec_at next types) =
      if not (bitmap_equal (expected_bitmap n false) types)
      then new_finding dns now "NSEC_BITMAP_MISMATCH" error n.name type_nsec (record {
        format = "bitmap have=%v want=%v";
        args = nums types ∷ nums (expected_bitmap n false) ∷ [];
      })
        ∷ []
      else []

  -- checkNSECPresence
  unfoldable pub check_nsec_presence : Store l → Node → List Finding
  unfolding nsec_bitmap nsec_missing
  check_nsec_presence st n =
      if has n type_nsec3
      then []
      else (if not (is_authoritative l st n)
          then []
          else (if not (has n type_nsec)
              then nsec_missing n "missing NSEC"
              else nsec_bitmap n (read_nsec dns n)))

  -- The owners of an NSEC, in canonical order.
  pub nsec_names : Store l → List Str
  nsec_names st =
      sort_by (name_leb dns) (map (λ n. n.name) (select (λ n. has n type_nsec) (nodes_of l st)))

  pub broken_nsec : Str → Str → NsecAt → List Finding
  broken_nsec name next (nsec_at to types) =
      if not (canonical dns to == next)
      then new_finding dns now "NSEC_CHAIN_BROKEN" error name type_nsec
          (record { format = "next=%s want=%s"; args = str to ∷ str next ∷ [] })
        ∷ []
      else []
  broken_nsec name next _ = []

  pub nsec_link : Store l → Str × Str → List Finding
  unfolding broken_nsec
  nsec_link st (name, next) = elim (lookup l name st) [
    | none ↦ []
    | some n ↦ broken_nsec name next (read_nsec dns n)
  ]

  pub nsec_links : Store l → List (Str × Str) → List Finding
  unfolding nsec_link
  nsec_links st [] = []
  nsec_links st (p ∷ ps) = nsec_link st p ++ nsec_links st ps

  -- verifyNSECChain
  unfoldable pub verify_nsec_chain : Store l → List Finding
  unfolding nsec_links nsec_names
  verify_nsec_chain st = nsec_links st (successors (nsec_names st))

  -- needsNSEC3
  unfoldable pub needs_nsec3 : Store l → Node → Bool
  needs_nsec3 st n =
      if n.name == st.origin
      then true
      else (if not (is_authoritative l st n)
          then false
          else (if n.is_delegation && not n.has_ds then false else true))

  nsec3_absent : Node → Option Nsec3Rec → List Finding
  unfolding has_opt_out
  nsec3_absent n cover =
      if n.is_delegation && (not n.has_ds && has_opt_out cover)
      then []
      else (if n.is_delegation && n.has_ds
          then new_finding dns now "NSEC3_OPTOUT_VIOLATION" error n.name type_nsec3
              (say "secure delegation has no NSEC3")
            ∷ []
          else new_finding dns now "NSEC3_MISSING" error n.name type_nsec3 (say "missing NSEC3")
            ∷ [])

  nsec3_bitmap : Node → Nsec3Rec → List Finding
  nsec3_bitmap n rec =
      if not (bitmap_equal (expected_bitmap n true) rec.type_bit_map)
      then new_finding dns now "NSEC3_BITMAP_MISMATCH" error n.name type_nsec3 (record {
        format = "bitmap have=%v want=%v";
        args = nums rec.type_bit_map ∷ nums (expected_bitmap n true) ∷ [];
      })
        ∷ []
      else []

  pub hash_at : Node → Nsec3Param → Str
  hash_at n p = hash_name dns c n.name p.hash p.iterations (salt_of p)

  -- What is found at the hash of a node that needs an NSEC3.
  pub nsec3_found : Store l → Node → Str → Option Nsec3Rec → List Finding
  unfolding nsec3_absent nsec3_bitmap
  nsec3_found st n hash none = nsec3_absent n (covering_nsec3 l hash st)
  nsec3_found st n hash (some rec) = nsec3_bitmap n rec

  -- checkNSEC3Presence
  unfoldable pub check_nsec3_presence : Store l → Node → Nsec3Param → List Finding
  unfolding nsec3_found hash_at
  check_nsec3_presence st n p =
      if is_nsec3_owner dns n.name st.origin
      then []
      else (if not (needs_nsec3 st n)
          then []
          else nsec3_found st n (hash_at n p) (nsec3_by_hash l (hash_at n p) st))

  -- ForEachNSEC3, with a visitor that does not stop
  unfoldable pub nsec3_recs : Store l → List Nsec3Rec
  nsec3_recs st = map (λ e. e.1) (ring.scan st.nsec3)

  pub nsec3_hashes : Store l → List Str
  nsec3_hashes st = sort_by str_leb (map (λ rec. rec.hash) (nsec3_recs st))

  pub broken_nsec3 : Str → Option Nsec3Rec → List Finding
  broken_nsec3 next none = []
  broken_nsec3 next (some rec) =
      if not (rec.next == next)
      then new_finding dns now "NSEC3_CHAIN_BROKEN" error rec.owner type_nsec3
          (say "NSEC3 next hash does not match successor")
        ∷ []
      else []

  pub nsec3_links : Store l → List (Str × Str) → List Finding
  unfolding broken_nsec3
  nsec3_links st [] = []
  nsec3_links st ((hash, next) ∷ ps) =
      broken_nsec3 next (nsec3_by_hash l hash st) ++ nsec3_links st ps

  param_mismatch : Store l → Nsec3Param → List Finding
  param_mismatch st p =
      if any (λ rec. not (rec.iterations == p.iterations)) (nsec3_recs st)
      then new_finding dns now "NSEC3PARAM_MISMATCH" error st.origin type_nsec3param
          (say "NSEC3 iterations/salt do not match NSEC3PARAM")
        ∷ []
      else []

  -- verifyNSEC3Chain
  unfoldable pub verify_nsec3_chain : Store l → Nsec3Param → List Finding
  unfolding param_mismatch nsec3_links nsec3_hashes
  verify_nsec3_chain st p = param_mismatch st p ++ nsec3_links st (successors (nsec3_hashes st))
