-- ===== src/Monitor/Runtime/States.antt =====
-- The states of a zone, its history and its lock.
use dnssec_auditor.Common.{
  ℕ, zero, suc, ◌-◌, ◌≤◌, String, Bool, true, false, some, List, [], ◌∷◌, ◌++◌, ◌≡◌, ◌⊎◌, inl, inr,
  refl, arith, if◌then◌else◌, length, drop, length-append, length-drop, Option-cases,
}
use dnssec_auditor.Zone.Store.{Libs}
use dnssec_auditor.Dnssec.Findings.{Time}
use dnssec_auditor.Monitor.Runtime.{
  State, unknown, HistoryEntry, ZoneRuntime, history_cap, set_state, is_terminal_state,
  newest_terminal, last_terminal_state, try_lock_refresh, unlock_refresh, or_unknown, trim_history,
}

newest-append :
    (hs : List HistoryEntry) (h : HistoryEntry)
    → newest_terminal (hs ++ h ∷ [])
      ≡ (if is_terminal_state h.state then some h.state else newest_terminal hs)
unfolding newest_terminal
newest-append [] h = ground arith
newest-append (g ∷ hs) h = ground (arith, newest-append hs h)

newest-drop :
    (n : ℕ) (hs : List HistoryEntry) (h : HistoryEntry)
    → n ≤ length hs
    → is_terminal_state h.state ≡ true
    → newest_terminal (drop n (hs ++ h ∷ [])) ≡ some h.state
newest-drop zero hs h le t = ground (arith, newest-append hs h)
newest-drop (suc n) [] h le t = absurd (omega arith)
newest-drop (suc n) (g ∷ hs) h le t = newest-drop n hs h (omega arith) t

newest-trim :
    (hs : List HistoryEntry) (h : HistoryEntry)
    → is_terminal_state h.state ≡ true
    → newest_terminal (trim_history (hs ++ h ∷ [])) ≡ some h.state
unfolding trim_history
newest-trim hs h t = ground (
  arith,
  newest-append hs h,
  length-append hs (h ∷ []),
  newest-drop (length (hs ++ h ∷ []) - history_cap) hs h,
)

length-trim : (hs : List HistoryEntry) → length (trim_history hs) ≤ history_cap
unfolding trim_history
length-trim hs = ground (arith, length-drop (length hs - history_cap) hs)

newest_terminal-terminal :
    (hs : List HistoryEntry) (s : State) → newest_terminal hs ≡ some s → is_terminal_state s ≡ true
unfolding newest_terminal
newest_terminal-terminal [] s e = cc
newest_terminal-terminal (h ∷ hs) s e = ground (arith, newest_terminal-terminal hs s)

module _ {l : Libs} where
  -- The history never has more than 64 entries after a transition.
  pub history_bounded :
      (now : Time) (s : State) (serial : ℕ) (mode method detail : String) (z : ZoneRuntime l)
      → length (set_state now s serial mode method detail z).history ≤ history_cap
  unfolding set_state
  history_bounded now s serial mode method detail z = length-trim _

  -- A zone that was put into a terminal state and then marked as busy, its history as it was, still
  -- answers with that terminal state, however long the history was.
  pub last_terminal-set_state :
      (now : Time) (s busy : State) (serial : ℕ) (mode method detail : String) (z : ZoneRuntime l)
      → is_terminal_state s ≡ true
      → is_terminal_state busy ≡ false
      → last_terminal_state (record (set_state now s serial mode method detail z) { state = busy })
        ≡ s
  unfolding set_state last_terminal_state or_unknown
  last_terminal-set_state now s busy serial mode method detail z t b =
      let entry : HistoryEntry = record {
        at = now;
        state = s;
        serial = serial;
        mode = mode;
        method = method;
        detail = detail;
      } in
      rw b (ground (arith, newest-trim z.history entry t))

  -- The state to fall back to is terminal, or unknown if no terminal state was ever recorded.
  pub last_terminal_state-terminal :
      (z : ZoneRuntime l)
      → (is_terminal_state (last_terminal_state z) ≡ true) ⊎ (last_terminal_state z ≡ unknown)
  unfolding last_terminal_state or_unknown
  last_terminal_state-terminal z = elim (Option-cases (newest_terminal z.history)) [
    | inl nothing ↦ ground arith
    | inr (s, found) ↦ ground (arith, newest_terminal-terminal z.history s found)
  ]

  -- A zone is locked for one refresh at a time: a second attempt is refused and changes nothing, not
  -- even the flag of a full refresh, and after the unlock the next attempt is granted.
  pub lock_exclusive :
      (full again : Bool) (z : ZoneRuntime l)
      → z.refreshing ≡ false
      → ((try_lock_refresh full z).1 ≡ true)
        × (try_lock_refresh again (try_lock_refresh full z).0
            ≡ ((try_lock_refresh full z).0, false))
        × ((try_lock_refresh again (unlock_refresh (try_lock_refresh full z).0)).1 ≡ true)
  unfolding try_lock_refresh unlock_refresh
  lock_exclusive full again z h = rw h (refl, refl, refl)
