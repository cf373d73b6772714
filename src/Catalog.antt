-- ===== src/Catalog.antt =====
-- internal/catalog/catalog.go: the members of a catalog zone (RFC 9432), and how two lists of them
-- differ. The order of Go's maps is that of the entries.
pub mod Changes
use dnssec_auditor.Common.{
  ℕ, Str, str_eq, nat_eq, ◌==◌, Bool, true, false, not, ◌&&◌, ◌||◌, Option, none, some, is_some,
  List, [], ◌∷◌, ◌++◌, if◌then◌else◌, codes, length, take, ◌-◌,
}
use dnssec_auditor.Common.Map.{Map, get, put}
use dnssec_auditor.Common.Text.{to_lower, has_suffix}
use dnssec_auditor.Dns.{
  DnsLib, Rr, RData, soa, nsec, nsec3, nsec3param, rrsig, dnskey, zonemd, ptr, txt, other, type_ptr,
  type_txt,
}
use dnssec_auditor.DnsName.{canonical}
use dnssec_auditor.Zone.Node.{Node, unpack_type}
use dnssec_auditor.Zone.Store.{Libs, Store, lookup}
use dnssec_auditor.Zone.Store.Records.{nodes_of}

pub record Member : Type 0 where
  pub id : Str
  pub zone : Str
  pub group : Str
  pub coo : Str

-- rr.(*dns.TXT) with a text, and rr.(*dns.PTR)
first_text : RData → Option Str
first_text (txt (t ∷ ts)) = some t
first_text (soa _) = none
first_text _ = none

target : RData → Option Str
target (ptr s) = some s
target (soa _) = none
target _ = none

-- What the last of the records says, or else `old`.
last_text : Str → List Rr → Str
unfolding first_text
last_text old [] = old
last_text old (rr ∷ rrs) = last_text (elim (first_text rr.rdata) [ none ↦ old | some t ↦ t ]) rrs

records : Option (List Rr) → List Rr
records none = []
records (some rrs) = rrs

-- strings.TrimSuffix, of a suffix that is there
trim_suffix : Str → Str → Str
trim_suffix s suffix = take (length s - length suffix) s

last_of : Str → List Str → Str
last_of a [] = a
last_of a (b ∷ bs) = last_of b bs

or_member : Str → Option Member → Member
or_member id none = record { id = id; zone = []; group = []; coo = [] }
or_member id (some m) = m

with_zone : Map Str Member → List Member
with_zone [] = []
with_zone ((id, m) ∷ ms) = let rest = with_zone ms in if m.zone == [] then rest else m ∷ rest

module _ (d : DnsLib) where
  last_target : Str → List Rr → Str
  unfolding target
  last_target old [] = old
  last_target old (rr ∷ rrs) =
      last_target (elim (target rr.rdata) [ none ↦ old | some s ↦ canonical d s ]) rrs

  -- The member after its node, or that of one of its properties.
  set_property : Node → Str → Member → Member
  unfolding last_text last_target records
  set_property n prop m =
      if prop == codes "group"
      then record m { group = last_text m.group (records (unpack_type d n type_txt)) }
      else (if prop == codes "coo"
          then record m { coo = last_target m.coo (records (unpack_type d n type_ptr)) }
          else m)

  set_zone : Node → Member → Member
  unfolding last_target records
  set_zone n m = record m { zone = last_target m.zone (records (unpack_type d n type_ptr)) }

  set_parts : Node → List Str → Map Str Member → Map Str Member
  unfolding set_property set_zone last_of or_member
  set_parts n [] ms = ms
  set_parts n (id ∷ []) ms = put id (set_zone n (or_member id (get id ms))) ms
  set_parts n (prop ∷ p ∷ ps) ms =
      let id = last_of p ps in put id (set_property n (to_lower prop) (or_member id (get id ms))) ms

  visit : Str → Node → Map Str Member → Map Str Member
  unfolding set_parts trim_suffix
  visit origin n ms =
      let suffix = codes ".zones." ++ origin in
      if not (has_suffix n.name suffix) || n.name == codes "zones." ++ origin
      then ms
      else set_parts n (d.split_domain_name (trim_suffix n.name suffix ++ codes ".")) ms

  visit_all : Str → List Node → Map Str Member → Map Str Member
  unfolding visit
  visit_all origin [] ms = ms
  visit_all origin (n ∷ ns) ms = visit_all origin ns (visit origin n ms)

module _ (l : Libs) where
  open l use {dns}

  -- Parse: the version and the members. It returns no error.
  unfoldable pub parse : Store l → Str × List Member
  unfolding visit_all with_zone last_text records
  parse st = (
    elim (lookup l (codes "version." ++ st.origin) st) [
      | none ↦ []
      | some n ↦ last_text [] (records (unpack_type dns n type_txt))
    ],
    with_zone (visit_all dns st.origin (nodes_of l st) []),
  )

-- The loops that fill the maps of Diff.
pub by_zone : List Member → Map Str Member → Map Str Member
by_zone [] ms = ms
by_zone (m ∷ rest) ms = by_zone rest (put m.zone m ms)

-- The members of the first map whose zones the second one lacks.
pub only_in : Map Str Member → Map Str Member → List Member
only_in [] there = []
only_in ((z, m) ∷ ms) there =
    let rest = only_in ms there in if is_some (get z there) then rest else m ∷ rest

-- Diff
unfoldable pub diff : List Member → List Member → List Member × List Member
unfolding by_zone only_in
diff prev next =
    let pm = by_zone prev [] in let nm = by_zone next [] in (only_in nm pm, only_in pm nm)
