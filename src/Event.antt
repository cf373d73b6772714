-- ===== src/Event.antt =====
-- internal/event/bus.go: the events, and the bus that hands each of them to every subscriber. A
-- handler is a function on a state, which stands for what it does.
use dnssec_auditor.Common.{ℕ, String, Str, codes, nat_eq, ◌==◌, List, [], ◌∷◌, ◌++◌, if◌then◌else◌}
use dnssec_auditor.Dnssec.Findings.{Time, is_zero}

-- Type
pub data Kind : Type 0 where
  zone_state_changed zone_valid zone_invalid zone_stale zone_expiring_soon : Kind
  transfer_completed transfer_failed verification_completed notify_received : Kind
  serial_skew chain_of_trust_failed catalog_member_added catalog_member_removed : Kind

-- Event, without its free-form detail
pub record Event : Type 0 where
  pub kind : Kind
  pub zone : Str
  pub at : Time
  pub state : String
  pub method : String
  pub mode : String
  pub result : String
  pub transport : String
  pub catalog : Str

abbrev pub about : Kind → Str → Event
about kind zone = record {
  kind = kind;
  zone = zone;
  at = 0;
  state = "";
  method = "";
  mode = "";
  result = "";
  transport = "";
  catalog = [];
}

-- The text of a type.
unfoldable pub kind_text : Kind → Str
kind_text zone_state_changed = codes "zone_state_changed"
kind_text zone_valid = codes "zone_valid"
kind_text zone_invalid = codes "zone_invalid"
kind_text zone_stale = codes "zone_stale"
kind_text zone_expiring_soon = codes "zone_expiring_soon"
kind_text transfer_completed = codes "transfer_completed"
kind_text transfer_failed = codes "transfer_failed"
kind_text verification_completed = codes "verification_completed"
kind_text notify_received = codes "notify_received"
kind_text serial_skew = codes "serial_skew"
kind_text chain_of_trust_failed = codes "chain_of_trust_failed"
kind_text catalog_member_added = codes "catalog_member_added"
kind_text catalog_member_removed = codes "catalog_member_removed"

-- Bus; New replaces a buffer of 0 by 256
pub record Bus (S : Type 0) : Type 0 where
  pub handlers : List (Event → S → S)
  pub buffer : ℕ

module _ {S : Type 0} where
  unfoldable pub new_bus : ℕ → Bus S
  new_bus buffer = record { handlers = []; buffer = if buffer == 0 then 256 else buffer }

  unfoldable pub subscribe : (Event → S → S) → Bus S → Bus S
  subscribe h b = record b { handlers = b.handlers ++ h ∷ [] }

  call_all : List (Event → S → S) → Event → S → S
  call_all [] e s = s
  call_all (h ∷ hs) e s = call_all hs e (h e s)

  unfoldable pub publish : Time → Event → Bus S → S → S
  unfolding call_all
  publish now e b s = call_all b.handlers (record e { at = if is_zero e.at then now else e.at }) s
