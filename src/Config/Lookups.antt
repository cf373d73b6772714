-- ===== src/Config/Lookups.antt =====
-- A configuration that validates refers to servers that are there.
use dnssec_auditor.Common.{
  Str, str_eq, nat_eq, ◌==◌, Bool, true, ◌||◌, none, some, is_some, List, [], ◌∷◌, map, any, All,
  ◌≡◌, ◌∙◌, refl, arith, Bool-cases, inl, inr,
}
use dnssec_auditor.Common.Map.{Map, get, put, get-put}
use dnssec_auditor.Dns.{DnsLib}
use dnssec_auditor.Config.{
  Config, Server, Zone, TsigKey, and_then, fail_if, report, missing, key_map, server_map,
  find_server, check_zone, check_zones, validate, server_by_name, resolve_servers,
}

named : Str → Server → Bool
named name s = s.name == name

is_some-server_map :
    (name : Str) (ss : List Server) (m : Map Str Server)
    → is_some (get name (server_map ss m)) ≡ any (named name) ss || is_some (get name m)
unfolding server_map named
is_some-server_map name [] m = refl
is_some-server_map name (s ∷ ss) m =
    is_some-server_map name ss (put s.name s m) ∙ ground (arith, get-put s.name name s m)

-- A server of that name is found.
found-find_server :
    (name : Str) (ss : List Server)
    → any (named name) ss ≡ true
    → (s : Server) × (find_server name ss ≡ some s) × (s.name ≡ name)
unfolding find_server named
found-find_server name [] h = cc
found-find_server name (s ∷ ss) h = elim (Bool-cases (s.name == name)) [
  | inl same ↦ (s, rw same refl, (str_eq.beq_iff s.name name).0 same)
  | inr other ↦
      let (t, found, right) = found-find_server name ss (rw other at h) in
      (t, rw other found, right)
]

none_missing :
    (n : Str) (ns : List Str) (ss : List Server)
    → missing (n ∷ ns) (server_map ss []) ≡ none
    → (any (named n) ss ≡ true) × (missing ns (server_map ss []) ≡ none)
unfolding missing get
none_missing n ns ss h = ground (arith, h, is_some-server_map n ss [])

module _ (d : DnsLib) (c : Config) where
  names-resolve_servers :
      (ns : List Str)
      → missing ns (server_map c.servers []) ≡ none
      → map (λ s. s.name) (resolve_servers d c ns) ≡ ns
  unfolding resolve_servers server_by_name
  names-resolve_servers [] h = refl
  names-resolve_servers (n ∷ ns) h =
      let (there, rest) = none_missing n ns c.servers h in
      let (s, found, right) = found-find_server n c.servers there in
      rw (found, resolve_servers, server_by_name, right, names-resolve_servers ns rest) refl

  none_of_zone :
      (keys : Map Str TsigKey) (servers : Map Str Server) (z : Zone)
      → check_zone d keys servers z ≡ none
      → missing z.servers servers ≡ none
  unfolding check_zone and_then fail_if report
  none_of_zone keys servers z h = ground (arith, h)

  zones-resolve_servers :
      (keys : Map Str TsigKey) (zs : List Zone)
      → check_zones d keys (server_map c.servers []) zs ≡ none
      → All (λ z. map (λ s. s.name) (resolve_servers d c z.servers) ≡ z.servers) zs
  unfolding check_zones and_then
  zones-resolve_servers keys [] h = tt
  zones-resolve_servers keys (z ∷ zs) h =
      let first : check_zone d keys (server_map c.servers []) z ≡ none = ground (arith, h) in
      let rest : check_zones d keys (server_map c.servers []) zs ≡ none = ground (arith, h) in
      (
        names-resolve_servers z.servers (none_of_zone keys (server_map c.servers []) z first),
        zones-resolve_servers keys zs rest,
      )

  none_of_zones :
      validate d c ≡ none
      → check_zones d (key_map c.tsig_keys []) (server_map c.servers []) c.zones ≡ none
  unfolding validate and_then
  none_of_zones h = ground (arith, h)

  -- In a configuration that validates, the servers of every zone resolve to servers of those names, in
  -- order, and none is left out.
  pub resolve_servers-validate :
      validate d c ≡ none
      → All (λ z. map (λ s. s.name) (resolve_servers d c z.servers) ≡ z.servers) c.zones
  resolve_servers-validate h =
      zones-resolve_servers (key_map c.tsig_keys []) c.zones (none_of_zones h)
