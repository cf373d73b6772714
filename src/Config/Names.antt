-- ===== src/Config/Names.antt =====
-- What Normalize makes of names.
use dnssec_auditor.Common.{
  Str, str_eq, nat_eq, ◌==◌, ◌||◌, Option, none, some, List, [], ◌∷◌, map, ◌≡◌, ◌≢◌, ap, refl,
  arith,
}
use dnssec_auditor.Common.Map.{Map}
use dnssec_auditor.Dns.{DnsLib}
use dnssec_auditor.DnsName.Laws.{canonical-canonical, to_lower-canonical, canonical_nonempty}
use dnssec_auditor.Config.{
  Config, Server, Zone, Catalog, TsigKey, Problem, normal, normal_key, normal_server, normal_zone,
  normal_catalog, normalize, check_zone, check_zones, check_settings, check_keys, check_servers,
  check_catalog, check_catalogs, lacks_key, validate, and_then, fail_if, report, nameless_zone,
  nameless_catalog, incomplete_key, incomplete_server, unknown_server_key, unknown_notify_key,
  key_map, server_map,
}

module _ (d : DnsLib) where
  normal_key-normal_key : (k : TsigKey) → normal_key d (normal_key d k) ≡ normal_key d k
  unfolding normal_key
  normal_key-normal_key k =
      rw (to_lower-canonical d k.name, canonical-canonical d k.name, to_lower-canonical d k.name)
        (ground arith)

  normal_server-normal_server :
      (s : Server) → normal_server d (normal_server d s) ≡ normal_server d s
  unfolding normal_server
  normal_server-normal_server s = ground arith

  normal_zone-normal_zone : (z : Zone) → normal_zone d (normal_zone d z) ≡ normal_zone d z
  unfolding normal_zone
  normal_zone-normal_zone z = rw (canonical-canonical d z.name) refl

  normal_catalog-normal_catalog :
      (c : Catalog) → normal_catalog d (normal_catalog d c) ≡ normal_catalog d c
  unfolding normal_catalog
  normal_catalog-normal_catalog c = rw (canonical-canonical d c.name) refl

  map_again :
      {A : Type 0} (f : A → A)
      → ((a : A) → f (f a) ≡ f a)
      → (xs : List A) → map f (map f xs) ≡ map f xs
  map_again f h [] = refl
  map_again f h (x ∷ xs) = rw (h x, map_again f h xs) refl

  normal-normal : (c : Config) → normal d (normal d c) ≡ normal d c
  unfolding normal
  normal-normal c =
      rw
        (
          map_again (normal_key d) normal_key-normal_key c.tsig_keys,
          map_again (normal_server d) normal_server-normal_server c.servers,
          map_again (normal_zone d) normal_zone-normal_zone c.zones,
          map_again (normal_catalog d) normal_catalog-normal_catalog c.catalogs,
        )
        (ground arith)

  -- To normalize a configuration again changes nothing, and the error is the same.
  pub normalize-normalize : (c : Config) → normalize d (normalize d c).0 ≡ normalize d c
  unfolding normalize
  normalize-normalize c =
      ap (λ n. (n, and_then (check_settings d n) (validate d n))) (normal-normal c)

  -- The error is not that a zone or a catalog has no name.
  Named : Option Problem → Type 0
  Named p = (p ≢ some nameless_zone) × (p ≢ some nameless_catalog)

  and_then-Named : (p q : Option Problem) → Named p → Named q → Named (and_then p q)
  unfolding Named and_then
  and_then-Named none q h k = k
  and_then-Named (some p) q h k = h

  check_settings-Named : (c : Config) → Named (check_settings d c)
  unfolding Named check_settings and_then fail_if
  check_settings-Named c = ground arith

  check_keys-Named : (ks : List TsigKey) → Named (check_keys ks)
  unfolding Named check_keys fail_if
  check_keys-Named [] = ground arith
  check_keys-Named (k ∷ ks) =
      and_then-Named (fail_if (k.name == [] || k.secret == []) incomplete_key) (check_keys ks)
        (ground arith) (check_keys-Named ks)

  check_servers-Named :
      (keys : Map Str TsigKey) (ss : List Server) → Named (check_servers d keys ss)
  unfolding Named check_servers fail_if
  check_servers-Named keys [] = ground arith
  check_servers-Named keys (s ∷ ss) =
      and_then-Named (fail_if (s.name == [] || s.address == []) incomplete_server)
        (and_then (fail_if (lacks_key d keys s.tsig_key) (unknown_server_key s.name s.tsig_key))
          (check_servers d keys ss))
        (ground arith)
        (and_then-Named
          (fail_if (lacks_key d keys s.tsig_key) (unknown_server_key s.name s.tsig_key))
          (check_servers d keys ss) (ground arith) (check_servers-Named keys ss))

  check_zone-Named :
      (keys : Map Str TsigKey) (servers : Map Str Server) (z : Zone)
      → Named (check_zone d keys servers (normal_zone d z))
  unfolding Named check_zone normal_zone and_then fail_if report
  check_zone-Named keys servers z = rw (canonical_nonempty d z.name) (ground arith)

  check_zones-Named :
      (keys : Map Str TsigKey) (servers : Map Str Server) (zs : List Zone)
      → Named (check_zones d keys servers (map (normal_zone d) zs))
  unfolding Named check_zones
  check_zones-Named keys servers [] = ground arith
  check_zones-Named keys servers (z ∷ zs) =
      and_then-Named (check_zone d keys servers (normal_zone d z))
        (check_zones d keys servers (map (normal_zone d) zs)) (check_zone-Named keys servers z)
        (check_zones-Named keys servers zs)

  check_catalog-Named :
      (servers : Map Str Server) (c : Catalog)
      → Named (check_catalog d servers (normal_catalog d c))
  unfolding Named check_catalog normal_catalog and_then fail_if report
  check_catalog-Named servers c = rw (canonical_nonempty d c.name) (ground arith)

  check_catalogs-Named :
      (servers : Map Str Server) (cs : List Catalog)
      → Named (check_catalogs d servers (map (normal_catalog d) cs))
  unfolding Named check_catalogs
  check_catalogs-Named servers [] = ground arith
  check_catalogs-Named servers (c ∷ cs) =
      and_then-Named (check_catalog d servers (normal_catalog d c))
        (check_catalogs d servers (map (normal_catalog d) cs)) (check_catalog-Named servers c)
        (check_catalogs-Named servers cs)

  -- Normalize never reports that a zone or a catalog has no name, whatever the configuration.
  pub normalize-Named :
      (c : Config)
      → ((normalize d c).1 ≢ some nameless_zone) × ((normalize d c).1 ≢ some nameless_catalog)
  unfolding Named normalize validate normal fail_if
  normalize-Named c =
      let n = normal d c in
      let keys = key_map n.tsig_keys [] in
      let servers = server_map n.servers [] in
      let last : Named (fail_if (lacks_key d keys n.notify_key) (unknown_notify_key n.notify_key)) =
        ground arith in
      and_then-Named _ _ (check_settings-Named n) (
        and_then-Named _ _ (check_keys-Named n.tsig_keys) (
          and_then-Named _ _ (check_servers-Named keys n.servers) (
            and_then-Named _ _ (check_zones-Named keys servers c.zones)
              (and_then-Named _ _ (check_catalogs-Named servers c.catalogs) last))))
