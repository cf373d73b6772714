-- ===== src/Dnssec/Verify.antt =====
-- internal/dnssec/verify.go, one node at a time: who is authoritative, and the signatures over an
-- RRset. A step returns the findings that it adds, in order, and the keys with their marks of use.
-- Seconds are uint32, which wrap where the source adds them; `clock` is the instant in seconds, and
-- `now` the instant that a finding is stamped with. The workers and their locking are left out.
pub mod Authority
pub mod Signed
pub mod Codes
pub mod Window
use dnssec_auditor.Common.{
  ℕ, zero, suc, ◌+◌, ◌-◌, ◌%◌, String, Str, str_eq, nat_eq, ◌==◌, Bool, true, false, not, ◌&&◌,
  ◌||◌, Option, none, some, List, [], ◌∷◌, ◌++◌, if◌then◌else◌, length, ltb, leb, any,
}
use dnssec_auditor.Dns.{
  DnsLib, Rr, Rrsig, type_ns, type_ds, type_rrsig, type_nsec, type_nsec3, type_dnskey,
}
use dnssec_auditor.DnsName.{canonical, parent, is_subdomain, root}
use dnssec_auditor.Zone.RrSet.{RrSet, unpack, rrsig_from_compact}
use dnssec_auditor.Zone.Node.{Node, rrsigs_covering}
use dnssec_auditor.Zone.Node
use dnssec_auditor.Zone.Store.{Libs, Store, apex, lookup}
use dnssec_auditor.Dnssec.Findings.{
  Time, Finding, Message, Severity, error, warning, Arg, num, str, say, new_finding, type_name,
}
use dnssec_auditor.Dnssec.Crypto.{Crypto}
use dnssec_auditor.Dnssec.Keys.{CachedKey}

-- config.HygieneConfig
pub record Hygiene : Type 0 where
  pub enabled : Bool
  pub nsec3_max_iterations : ℕ
  pub warn_nsec3_salt : Bool
  pub deprecated_algorithms : List Str
  pub warn_rrsig_ttl_mismatch : Bool

-- config.VerificationConfig, without the number of workers; durations in whole seconds
pub record Config : Type 0 where
  pub clock_skew : ℕ
  pub expiry_warning : ℕ
  pub zonemd : Str
  pub hygiene : Hygiene

abbrev pub u32 : ℕ
u32 = 4294967296

-- isWildcardOwner
pub is_wildcard_owner : Str → Bool
is_wildcard_owner (a ∷ b ∷ c ∷ s) = a == 42 && b == 46
is_wildcard_owner _ = false

-- The bytes before the first dot, unless the name starts with it.
before_dot : Str → Str
before_dot [] = []
before_dot (c ∷ s) = let rest = before_dot s in if c == 46 then [] else c ∷ rest

has_dot : Str → Bool
has_dot s = any (λ c. c == 46) s

first_label : Str → Str
unfolding before_dot has_dot
first_label s =
    let label = before_dot s in if has_dot s && not (length label == 0) then label else s

is_base32_byte : ℕ → Bool
is_base32_byte c = (leb 48 c && leb c 57) || ((leb 97 c && leb c 118) || (leb 65 c && leb c 86))

-- hasTypicalName
pub has_typical_name : Str → Bool
unfolding first_label is_base32_byte
has_typical_name name =
    let label = first_label name in ltb (length label) 20 || any (λ c. not (is_base32_byte c)) label

-- isNSEC3Owner
unfoldable pub is_nsec3_owner : DnsLib → Str → Str → Bool
unfolding has_typical_name
is_nsec3_owner d name origin =
    if name == origin
    then false
    else (if not (is_subdomain d name origin)
        then false
        else parent d name == origin && not (has_typical_name name))

-- A cut: the name has a node, which is a delegation.
unfoldable pub is_cut : Option Node → Bool
is_cut none = false
is_cut (some n) = n.is_delegation

module _ (l : Libs) where
  open l use {dns}

  -- The loop of isAuthoritative, for `name`.
  pub walk_up : ℕ → Str → Store l → Str → Bool
  unfolding is_cut
  walk_up zero name st p = true
  walk_up (suc fuel) name st p =
      let next = parent dns p in
      let rest = walk_up fuel name st next in
      if p == st.origin || (p == root || p == name)
      then true
      else (if is_cut (lookup l p st) then false else (if next == p then true else rest))

  -- isAuthoritative; the parent of a name made of labels is shorter than the name
  unfoldable pub is_authoritative : Store l → Node → Bool
  is_authoritative st n =
      if n.name == st.origin
      then true
      else walk_up (suc (length n.name)) n.name st (parent dns n.name)

-- What the loop over the signatures carries.
pub record Signing : Type 0 where
  pub findings : List Finding
  pub keys : List CachedKey
  pub ok : Bool
  pub checked : ℕ
  pub unknown : ℕ

-- What a check of an RRset returns.
pub record Checked : Type 0 where
  pub findings : List Finding
  pub keys : List CachedKey
  pub checked : ℕ

module _ (d : DnsLib) (c : Crypto) (cfg : Config) (now : Time) (clock : ℕ) where
  pub find_in : String → Severity → Str → ℕ → Message → Finding
  find_in = new_finding d now

  -- The key may have made the signature, by its tag, algorithm and flag.
  pub may_sign : Rrsig → CachedKey → Bool
  may_sign sig k = k.key_tag == sig.key_tag && (k.alg == sig.algorithm && k.is_zone)

  pub verifies : Node → RrSet → List Rr → Rrsig → CachedKey → Bool
  verifies n set rrs sig k = c.verify (rrsig_from_compact n.name set.ttl sig) k.rr rrs

  -- The loop over the keys: the keys, whether one verified, and how many were tried.
  pub try_keys : Node → RrSet → List Rr → Rrsig → List CachedKey → List CachedKey × Bool × ℕ
  try_keys n set rrs sig [] = ([], false, 0)
  try_keys n set rrs sig (k ∷ ks) =
      let rest = try_keys n set rrs sig ks in
      if not (may_sign sig k)
      then (k ∷ rest.0, rest.1, rest.2)
      else (if verifies n set rrs sig k
          then (record k { used = true } ∷ ks, true, 1)
          else (k ∷ rest.0, rest.1, suc rest.2))

  pub want_labels : Str → ℕ
  want_labels name =
      let count = d.count_label name in
      if is_wildcard_owner name && ltb 0 count then count - 1 else count

  unfoldable pub clock32 : ℕ
  clock32 = clock % u32

  unfoldable pub skew32 : ℕ
  skew32 = cfg.clock_skew % u32

  pub warn32 : ℕ
  warn32 = cfg.expiry_warning % u32

  pub too_early : Rrsig → Bool
  too_early sig = ltb ((clock32 + skew32) % u32) sig.inception

  pub too_late : Rrsig → Bool
  too_late sig = ltb ((sig.expiration + skew32) % u32) clock32

  labels_finding : Node → RrSet → Rrsig → List Finding
  labels_finding n set sig =
      if not (sig.labels == want_labels n.name)
      then find_in "RRSIG_LABELS_MISMATCH" error n.name set.rrtype (record {
        format = "RRSIG labels=%d name labels=%d";
        args = num sig.labels ∷ num (d.count_label n.name) ∷ [];
      })
        ∷ []
      else []

  ttl_finding : Node → RrSet → Rrsig → List Finding
  ttl_finding n set sig =
      if cfg.hygiene.enabled
        && (cfg.hygiene.warn_rrsig_ttl_mismatch && not (sig.orig_ttl == set.ttl))
      then find_in "RRSIG_TTL_MISMATCH" warning n.name set.rrtype
          (record { format = "origTTL %d != TTL %d"; args = num sig.orig_ttl ∷ num set.ttl ∷ [] })
        ∷ []
      else []

  soon_finding : Node → RrSet → Rrsig → List Finding
  soon_finding n set sig =
      if ltb 0 warn32 && (ltb clock32 sig.expiration && leb (sig.expiration - clock32) warn32)
      then find_in "RRSIG_EXPIRING_SOON" warning n.name set.rrtype
          (record { format = "expires in %ds"; args = num (sig.expiration - clock32) ∷ [] })
        ∷ []
      else []

  early_finding : Node → RrSet → Rrsig → Finding
  early_finding n set sig =
      find_in "RRSIG_NOT_YET_VALID" error n.name set.rrtype
        (record { format = "inception %d"; args = num sig.inception ∷ [] })

  late_finding : Node → RrSet → Rrsig → Finding
  late_finding n set sig =
      find_in "RRSIG_EXPIRED" error n.name set.rrtype
        (record { format = "expiration %d"; args = num sig.expiration ∷ [] })

  -- A signature inside its window is tried with the keys.
  try_sig : Node → RrSet → List Rr → Rrsig → Signing → Signing
  try_sig n set rrs sig s =
      let tried = try_keys n set rrs sig s.keys in
      record {
        findings = s.findings ++ (ttl_finding n set sig ++ soon_finding n set sig);
        keys = tried.0;
        ok = s.ok || tried.1;
        checked = s.checked + tried.2;
        unknown = if tried.1 then s.unknown else suc s.unknown;
      }

  -- The body of the loop over the signatures.
  pub sig_step : Node → RrSet → List Rr → Rrsig → Signing → Signing
  unfolding labels_finding early_finding late_finding try_sig
  sig_step n set rrs sig s =
      let s₁ = record s { findings = s.findings ++ labels_finding n set sig } in
      if too_early sig
      then record s₁ { findings = s₁.findings ++ early_finding n set sig ∷ [] }
      else (if too_late sig
          then record s₁ { findings = s₁.findings ++ late_finding n set sig ∷ [] }
          else try_sig n set rrs sig s₁)

  pub sig_loop : Node → RrSet → List Rr → List Rrsig → Signing → Signing
  unfolding sig_step
  sig_loop n set rrs [] s = s
  sig_loop n set rrs (sig ∷ sigs) s = sig_loop n set rrs sigs (sig_step n set rrs sig s)

  -- After the loop.
  last_finding : Node → RrSet → ℕ → Signing → List Finding
  last_finding n set count s =
      if s.ok
      then []
      else (if s.unknown == count && s.checked == 0
          then find_in "RRSIG_UNKNOWN_KEY" error n.name set.rrtype
              (say "no matching DNSKEY for RRSIG")
            ∷ []
          else find_in "RRSIG_INVALID" error n.name set.rrtype (say "no RRSIG verified") ∷ [])

  pub conclude : Node → RrSet → ℕ → Signing → Checked
  unfolding last_finding
  conclude n set count s = record {
    findings = s.findings ++ last_finding n set count s;
    keys = s.keys;
    checked = s.checked;
  }

  -- At a delegation only DS, NSEC and NSEC3 need a signature.
  pub is_exempt : Node → RrSet → Bool
  is_exempt n set =
      (n.is_delegation && set.rrtype == type_ns)
      || (n.is_delegation
          && (not (set.rrtype == type_ds)
              && (not (set.rrtype == type_nsec) && not (set.rrtype == type_nsec3))))

  pub unsigned_rrset : Node → RrSet → List CachedKey → Checked
  unsigned_rrset n set keys =
      if is_exempt n set then record { findings = []; keys = keys; checked = 0 } else record {
        findings =
            find_in "RRSIG_MISSING" error n.name set.rrtype
              (record { format = "no RRSIG covering %s"; args = str (type_name d set.rrtype) ∷ [] })
            ∷ [];
        keys = keys;
        checked = 0;
      }

  abbrev pub unsettled : List CachedKey → Signing
  unsettled keys = record { findings = []; keys = keys; ok = false; checked = 0; unknown = 0 }

  pub signed_unpacked : Option (List Rr) → Node → RrSet → List Rrsig → List CachedKey → Checked
  signed_unpacked none n set sigs keys = record {
    findings = find_in "RRSIG_INVALID" error n.name set.rrtype (say "unpack") ∷ [];
    keys = keys;
    checked = 0;
  }
  signed_unpacked (some rrs) n set sigs keys =
      conclude n set (length sigs) (sig_loop n set rrs sigs (unsettled keys))

  pub signed_rrset : Node → RrSet → List Rrsig → List CachedKey → Checked
  unfolding signed_unpacked
  signed_rrset n set sigs keys = signed_unpacked (unpack d set n.name) n set sigs keys

  -- verifyRRSet
  unfoldable pub verify_rrset : Node → RrSet → List CachedKey → Checked
  unfolding unsigned_rrset signed_rrset
  verify_rrset n set keys =
      let sigs = rrsigs_covering d n set.rrtype in
      if length sigs == 0 then unsigned_rrset n set keys else signed_rrset n set sigs keys
