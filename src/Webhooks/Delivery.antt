-- ===== src/Webhooks/Delivery.antt =====
-- Which events a target gets, and when a delivery succeeds.
use dnssec_auditor.Common.{
  ℕ, zero, suc, ◌+◌, ◌≤◌, ◌<◌, Str, str_eq, nat_eq, ◌==◌, Bool, true, false, List, [], ◌∷◌,
  contains, ◌≡◌, ◌↔◌, ◌⊎◌, inl, inr, refl, arith, Bool-cases,
}
use dnssec_auditor.Event.{Event, kind_text}
use dnssec_auditor.Webhooks.{Target, match_event, selects, attempt, deliver_to}

-- An attempt from the `i`-th on, of `n`, is answered.
abbrev pub Answered : (ℕ → Bool) → ℕ → ℕ → Type 0
Answered answered i n = (k : ℕ) × (i ≤ k) × (k < i + n) × (answered k ≡ true)

attempt-Answered :
    (n i : ℕ) (answered : ℕ → Bool) → (attempt n i answered).ok ≡ true → Answered answered i n
unfolding attempt
attempt-Answered zero i answered h = absurd (ground arith)
attempt-Answered (suc n) i answered h = elim (Bool-cases (answered i)) [
  | inl hit ↦ (i, omega arith, omega arith, hit)
  | inr miss ↦
      let (k, lo, hi, hit) = attempt-Answered n (suc i) answered (rw miss at h) in
      (k, omega arith, omega arith, hit)
]

-- If the `i`-th attempt is not answered and the `k`-th is, they differ.
first_missed :
    (i k : ℕ) (answered : ℕ → Bool) → i ≤ k → answered i ≡ false → answered k ≡ true → suc i ≤ k
first_missed i k answered lo miss hit = elim (Bool-cases (i == k)) [
  | inl same ↦ absurd (ground (arith, same, nat_eq.beq_iff i k))
  | inr other ↦ ground (arith, other)
]

attempt-ok :
    (n i k : ℕ) (answered : ℕ → Bool)
    → i ≤ k
    → k < i + n
    → answered k ≡ true
    → (attempt n i answered).ok ≡ true
unfolding attempt
attempt-ok zero i k answered lo hi hit = absurd (omega arith)
attempt-ok (suc n) i k answered lo hi hit = elim (Bool-cases (answered i)) [
  | inl now ↦ rw now refl
  | inr miss ↦
      rw miss
        (attempt-ok n (suc i) k answered (first_missed i k answered lo miss hit) (omega arith) hit)
]

attempt-requests : (n i : ℕ) (answered : ℕ → Bool) → (attempt n i answered).requests ≤ i + n
unfolding attempt
attempt-requests zero i answered = omega arith
attempt-requests (suc n) i answered = ground (arith, attempt-requests n (suc i) answered)

-- A delivery whose request can be made succeeds exactly if one of its first `max_retries + 1` attempts
-- is answered.
pub deliver_to_iff :
    (max_retries : ℕ) (answered : ℕ → Bool)
    → ((deliver_to max_retries true answered).ok ≡ true)
      ↔ ((k : ℕ) × (k ≤ max_retries) × (answered k ≡ true))
unfolding deliver_to
deliver_to_iff max_retries answered = (
  λ h.
      let (k, lo, hi, hit) = attempt-Answered (suc max_retries) 0 answered h in
      (k, omega arith, hit),
  λ p. attempt-ok (suc max_retries) 0 p.0 answered (omega arith) (let q = p.1 in omega arith) p.2,
)

-- No target is sent more than `max_retries + 1` requests for an event.
pub requests_bounded :
    (max_retries : ℕ) (sendable : Bool) (answered : ℕ → Bool)
    → (deliver_to max_retries sendable answered).requests ≤ max_retries + 1
unfolding deliver_to
requests_bounded max_retries sendable answered =
    ground (arith, attempt-requests (suc max_retries) 0 answered)

selects_iff :
    (ys : List Str) (x : Str) → (selects ys x ≡ true) ↔ ((ys ≡ []) ⊎ (contains x ys ≡ true))
unfolding selects
selects_iff [] x = (λ h. inl refl, λ h. refl)
selects_iff (y ∷ ys) x = (λ h. inr h, λ h. ground arith)

-- A target gets an event exactly if its list of events is empty or has the event's type, and its list
-- of zones is empty or has the event's zone.
pub match_event_iff :
    (t : Target) (e : Event)
    → (match_event t e ≡ true) ↔ (
        ((t.events ≡ []) ⊎ (contains (kind_text e.kind) t.events ≡ true))
        × ((t.zones ≡ []) ⊎ (contains e.zone t.zones ≡ true)))
unfolding match_event
match_event_iff t e = (
  λ h. ground (arith, selects_iff t.events (kind_text e.kind), selects_iff t.zones e.zone),
  λ h. ground (arith, selects_iff t.events (kind_text e.kind), selects_iff t.zones e.zone),
)
