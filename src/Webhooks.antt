-- ===== src/Webhooks.antt =====
-- internal/webhooks/webhooks.go: which targets an event goes to, and how often a delivery is tried. The
-- number of retries is not negative. What HTTP does is an argument: whether a request can be made for a
-- target at all, and whether its n-th attempt is answered with a status below 300. Headers, the body
-- and the pause between two attempts are left out.
pub mod Delivery
use dnssec_auditor.Common.{
  ℕ, zero, suc, ◌+◌, Str, str_eq, nat_eq, ◌==◌, Bool, true, false, not, ◌&&◌, List, [], ◌∷◌, ◌++◌,
  if◌then◌else◌, contains, length, ltb, leb,
}
use dnssec_auditor.Event.{Event, kind_text}

-- config.WebhookTarget, without the headers
pub record Target : Type 0 where
  pub url : Str
  pub events : List Str
  pub zones : List Str

-- The part of config.WebhookConfig that a delivery reads.
pub record Config : Type 0 where
  pub enabled : Bool
  pub targets : List Target
  pub max_retries : ℕ
  pub queue_size : ℕ

-- New: the size of the queue
unfoldable new_queue_size : Config → ℕ
new_queue_size cfg = if cfg.queue_size == 0 then 1000 else cfg.queue_size

-- The handler of Subscribe: an event is dropped if the queue is full.
unfoldable pub enqueue : ℕ → Event → List Event → List Event
enqueue size e queue = if ltb (length queue) size then queue ++ e ∷ [] else queue

-- An empty list of a target selects everything.
selects : List Str → Str → Bool
selects [] x = true
selects (y ∷ ys) x = contains x (y ∷ ys)

-- matchEvent
unfoldable pub match_event : Target → Event → Bool
unfolding selects
match_event t e =
    if not (selects t.events (kind_text e.kind))
    then false
    else (if not (selects t.zones e.zone) then false else true)

-- What became of a target: whether an attempt succeeded, and how many requests were sent.
pub record Sent : Type 0 where
  pub ok : Bool
  pub requests : ℕ

-- The loop over `i`, with the number of attempts that are left.
pub attempt : ℕ → ℕ → (ℕ → Bool) → Sent
attempt zero i answered = record { ok = false; requests = i }
attempt (suc left) i answered =
    let rest = attempt left (suc i) answered in
    if answered i then record { ok = true; requests = suc i } else rest

-- deliver, to one target that matches
pub deliver_to : ℕ → Bool → (ℕ → Bool) → Sent
unfolding attempt
deliver_to max_retries sendable answered =
    let sent = attempt (suc max_retries) 0 answered in
    if sendable then sent else record { ok = false; requests = 0 }

module _ (cfg : Config) (sendable : Target → Bool) (answered : Target → ℕ → Bool) where
  deliver_all : List Target → Event → List (Str × Bool)
  deliver_all [] e = []
  deliver_all (t ∷ ts) e =
      let rest = deliver_all ts e in
      let sent = deliver_to cfg.max_retries (sendable t) (answered t) in
      if not (match_event t e) then rest else (t.url, sent.ok) ∷ rest

  -- deliver: the targets in order, with the results that are counted
  unfoldable deliver : Event → List (Str × Bool)
  unfolding deliver_all
  deliver e = deliver_all cfg.targets e
