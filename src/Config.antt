-- ===== src/Config.antt =====
-- internal/config/config.go: Normalize and validate, and the lookups of servers and keys. Of the
-- settings those are here that these functions read. Ports are not negative, a number of concurrent
-- transfers that is not above 0 is 0, and the jitter, a floating-point number, is given by whether it
-- lies between 0 and 1. An error is a Problem.
pub mod Lookups
pub mod Names
use dnssec_auditor.Common.{
  ℕ, Str, str_eq, nat_eq, ◌==◌, Bool, true, false, not, ◌&&◌, ◌||◌, Option, none, some, is_some,
  List, [], ◌∷◌, map, if◌then◌else◌, codes, length,
}
use dnssec_auditor.Common.Map.{Map, get, put}
use dnssec_auditor.Common.Text.{to_lower}
use dnssec_auditor.Dns.{DnsLib}
use dnssec_auditor.DnsName.{canonical}

-- TSIGKey
pub record TsigKey : Type 0 where
  pub name : Str
  pub algorithm : Str
  pub secret : Str

pub record Server : Type 0 where
  pub name : Str
  pub address : Str
  pub port : ℕ
  pub tsig_key : Str

pub record Zone : Type 0 where
  pub name : Str
  pub servers : List Str
  pub tsig_key : Str

pub record Catalog : Type 0 where
  pub name : Str
  pub servers : List Str
  pub member_servers : List Str

pub record Config : Type 0 where
  pub tsig_keys : List TsigKey
  pub servers : List Server
  pub zones : List Zone
  pub catalogs : List Catalog
  pub concurrent_transfers : ℕ
  pub jitter_in_range : Bool
  pub zonemd : Str
  pub chain_mode : Str
  pub notify_key : Str

-- The errors, one for each message, with the names that the message has.
pub data Problem : Type 0 where
  bad_jitter bad_zonemd bad_mode incomplete_key incomplete_server nameless_zone nameless_catalog :
      Problem
  unknown_server_key : Str → Str → Problem
  no_servers : Str → Problem
  unknown_zone_server : Str → Str → Problem
  unknown_zone_key : Str → Str → Problem
  unknown_catalog_server : Str → Str → Problem
  unknown_member_server : Str → Str → Problem
  unknown_notify_key : Str → Problem

-- The first error.
pub and_then : Option Problem → Option Problem → Option Problem
and_then (some p) q = some p
and_then none q = q

pub fail_if : Bool → Problem → Option Problem
fail_if true p = some p
fail_if false p = none

-- The loops that fill the maps of validate.
pub key_map : List TsigKey → Map Str TsigKey → Map Str TsigKey
key_map [] m = m
key_map (k ∷ ks) m = key_map ks (put k.name k m)

pub server_map : List Server → Map Str Server → Map Str Server
server_map [] m = m
server_map (s ∷ ss) m = server_map ss (put s.name s m)

-- The first of the names that the map lacks.
pub missing : List Str → Map Str Server → Option Str
missing [] m = none
missing (n ∷ ns) m = let rest = missing ns m in if is_some (get n m) then rest else some n

pub report : (Str → Problem) → Option Str → Option Problem
report f none = none
report f (some n) = some (f n)

pub check_keys : List TsigKey → Option Problem
unfolding and_then fail_if
check_keys [] = none
check_keys (k ∷ ks) =
    and_then (fail_if (k.name == [] || k.secret == []) incomplete_key) (check_keys ks)

pub find_server : Str → List Server → Option Server
find_server name [] = none
find_server name (s ∷ ss) = if s.name == name then some s else find_server name ss

module _ (d : DnsLib) where
  -- hasTSIG
  unfoldable pub has_tsig : Map Str TsigKey → Str → Bool
  has_tsig keys name = is_some (get name keys) || is_some (get (canonical d name) keys)

  pub lacks_key : Map Str TsigKey → Str → Bool
  lacks_key keys name = not (name == []) && not (has_tsig keys name)

  check_servers : Map Str TsigKey → List Server → Option Problem
  unfolding and_then fail_if lacks_key
  check_servers keys [] = none
  check_servers keys (s ∷ ss) =
      and_then (fail_if (s.name == [] || s.address == []) incomplete_server) (
        and_then (fail_if (lacks_key keys s.tsig_key) (unknown_server_key s.name s.tsig_key))
          (check_servers keys ss))

  pub check_zone : Map Str TsigKey → Map Str Server → Zone → Option Problem
  unfolding and_then fail_if lacks_key missing report
  check_zone keys servers z = and_then (fail_if (z.name == []) nameless_zone) (
      and_then (fail_if (length z.servers == 0) (no_servers z.name)) (
        and_then (report (unknown_zone_server z.name) (missing z.servers servers))
          (fail_if (lacks_key keys z.tsig_key) (unknown_zone_key z.name z.tsig_key))))

  pub check_zones : Map Str TsigKey → Map Str Server → List Zone → Option Problem
  unfolding check_zone and_then
  check_zones keys servers [] = none
  check_zones keys servers (z ∷ zs) =
      and_then (check_zone keys servers z) (check_zones keys servers zs)

  check_catalog : Map Str Server → Catalog → Option Problem
  unfolding and_then fail_if missing report
  check_catalog servers c = and_then (fail_if (c.name == []) nameless_catalog) (
      and_then (report (unknown_catalog_server c.name) (missing c.servers servers))
        (report (unknown_member_server c.name) (missing c.member_servers servers)))

  check_catalogs : Map Str Server → List Catalog → Option Problem
  unfolding check_catalog and_then
  check_catalogs servers [] = none
  check_catalogs servers (c ∷ cs) = and_then (check_catalog servers c) (check_catalogs servers cs)

  -- validate; `none` is a nil error
  unfoldable pub validate : Config → Option Problem
  unfolding check_keys check_servers check_zones check_catalogs key_map server_map and_then fail_if
      lacks_key
  validate c =
      let keys = key_map c.tsig_keys [] in
      let servers = server_map c.servers [] in
      and_then (check_keys c.tsig_keys) (
        and_then (check_servers keys c.servers) (
          and_then (check_zones keys servers c.zones) (
            and_then (check_catalogs servers c.catalogs)
              (fail_if (lacks_key keys c.notify_key) (unknown_notify_key c.notify_key)))))

  normal_key : TsigKey → TsigKey
  normal_key k = record k {
    algorithm = if k.algorithm == [] then codes "hmac-sha256" else k.algorithm;
    name = to_lower (canonical d k.name);
  }

  normal_server : Server → Server
  normal_server s = record s { port = if s.port == 0 then 53 else s.port }

  pub normal_zone : Zone → Zone
  normal_zone z = record z { name = canonical d z.name }

  normal_catalog : Catalog → Catalog
  normal_catalog c = record c { name = canonical d c.name }

  -- The assignments of Normalize.
  pub normal : Config → Config
  unfolding normal_key normal_server normal_zone normal_catalog
  normal c = record c {
    tsig_keys = map normal_key c.tsig_keys;
    servers = map normal_server c.servers;
    zones = map normal_zone c.zones;
    catalogs = map normal_catalog c.catalogs;
    zonemd = if c.zonemd == [] then codes "auto" else c.zonemd;
    concurrent_transfers = if c.concurrent_transfers == 0 then 4 else c.concurrent_transfers;
  }

  is_zonemd_mode : Str → Bool
  is_zonemd_mode s = s == codes "auto" || (s == codes "on" || s == codes "off")

  is_chain_mode : Str → Bool
  is_chain_mode s = s == codes "resolver" || (s == codes "authoritative" || s == [])

  pub check_settings : Config → Option Problem
  unfolding is_zonemd_mode is_chain_mode and_then fail_if
  check_settings c = and_then (fail_if (not c.jitter_in_range) bad_jitter) (
      and_then (fail_if (not (is_zonemd_mode (to_lower c.zonemd))) bad_zonemd)
        (fail_if (not (is_chain_mode (to_lower c.chain_mode))) bad_mode))

  -- Normalize: what becomes of the configuration, and the error.
  unfoldable pub normalize : Config → Config × Option Problem
  unfolding normal check_settings and_then
  normalize c = let c₁ = normal c in (c₁, and_then (check_settings c₁) (validate c₁))

  -- ServerByName
  unfoldable pub server_by_name : Config → Str → Option Server
  unfolding find_server
  server_by_name c name = find_server name c.servers

  find_key : Str → List TsigKey → Option TsigKey
  find_key name [] = none
  find_key name (k ∷ ks) =
      let rest = find_key name ks in
      let canon = canonical d name in
      if k.name == name || (k.name == canon || canonical d k.name == canon) then some k else rest

  -- TSIGByName
  unfoldable pub tsig_by_name : Config → Str → Option TsigKey
  unfolding find_key
  tsig_by_name c name = find_key name c.tsig_keys

  -- ResolveServers
  unfoldable pub resolve_servers : Config → List Str → List Server
  resolve_servers c [] = []
  resolve_servers c (n ∷ ns) =
      let rest = resolve_servers c ns in
      elim (server_by_name c n) [ none ↦ rest | some s ↦ s ∷ rest ]
