-- ===== src/Monitor/Zones/Table.antt =====
-- The table of zones by name.
use dnssec_auditor.Common.{Str, str_eq, ◌==◌, none, some, List, ◌≡◌, arith, if◌then◌else◌, codes}
use dnssec_auditor.Common.Map
use dnssec_auditor.DnsName.{canonical}
use dnssec_auditor.Zone.Store.{Libs}
use dnssec_auditor.Monitor.Runtime.{Server, new_zone}
use dnssec_auditor.Monitor.Zones.{Zones, add_zone, remove_zone, get_zone}

module _ {l : Libs} where
  -- A zone is found under any spelling of its name that has the same canonical form. A zone of the
  -- configuration survives every later addition under its name; any other is replaced by a fresh
  -- one; other names are untouched.
  pub get-add_zone :
      (name source tsig other : Str) (servers : List Server) (m : Zones l)
      → get_zone other (add_zone name source servers tsig m) ≡ (
          if canonical l.dns name == canonical l.dns other
          then elim (get_zone name m) [
            | none ↦ some (new_zone (canonical l.dns name) source servers tsig)
            | some z ↦
                if z.source == codes "config"
                then some z
                else some (new_zone (canonical l.dns name) source servers tsig)
          ]
          else get_zone other m)
  unfolding get_zone add_zone
  get-add_zone name source tsig other servers m =
      let n : Str = canonical l.dns name in
      ground (
        arith,
        str_eq.beq_iff n (canonical l.dns other),
        Map.get-put n (canonical l.dns other) (new_zone n source servers tsig) m,
      )

  -- After a removal no spelling of the name finds the zone, and all other zones are there.
  pub get-remove_zone :
      (name other : Str) (m : Zones l)
      → get_zone other (remove_zone name m)
        ≡ (if canonical l.dns name == canonical l.dns other then none else get_zone other m)
  unfolding get_zone remove_zone
  get-remove_zone name other m = Map.get-delete (canonical l.dns name) (canonical l.dns other) m
