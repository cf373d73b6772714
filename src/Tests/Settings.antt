-- ===== src/Tests/Settings.antt =====
-- Tests of the configuration, with one server and one zone.
use dnssec_auditor.Common.{str_eq, none, some, [], ◌∷◌, map, true, All, ◌≡◌, ◌≢◌, refl, codes}
use dnssec_auditor.Common.Map
use dnssec_auditor.Config.{
  Config, Server, Zone, nameless_zone, nameless_catalog, normalize, validate, resolve_servers,
}
use dnssec_auditor.Config.Lookups.{resolve_servers-validate}
use dnssec_auditor.Config.Names.{normalize-normalize, normalize-Named}
use dnssec_auditor.Samples.{sample_dns, origin}

abbrev primary : Server
primary = record { name = codes "p"; address = codes "192.0.2.1"; port = 0; tsig_key = [] }

abbrev watched : Zone
watched = record { name = origin; servers = codes "p" ∷ []; tsig_key = [] }

abbrev settings : Config
settings = record {
  tsig_keys = [];
  servers = primary ∷ [];
  zones = watched ∷ [];
  catalogs = [];
  concurrent_transfers = 0;
  jitter_in_range = true;
  zonemd = [];
  chain_mode = [];
  notify_key = [];
}

settings_valid : validate sample_dns settings ≡ none
unfolding validate Map.get Map.put
settings_valid = refl

resolve_servers-validate_example :
    All
      (λ z. map (λ s. s.name) (resolve_servers sample_dns settings z.servers) ≡ z.servers)
      (watched ∷ [])
resolve_servers-validate_example = resolve_servers-validate sample_dns settings settings_valid

normalize-normalize_example :
    normalize sample_dns (normalize sample_dns settings).0 ≡ normalize sample_dns settings
normalize-normalize_example = normalize-normalize sample_dns settings

-- A zone without a name.
abbrev unnamed : Config
unnamed = record settings { zones = record watched { name = [] } ∷ [] }

normalize-Named_example :
    ((normalize sample_dns unnamed).1 ≢ some nameless_zone)
    × ((normalize sample_dns unnamed).1 ≢ some nameless_catalog)
normalize-Named_example = normalize-Named sample_dns unnamed
