-- ===== src/Debugger/Sessions/Dropped.antt =====
-- What a discarded session leaves behind: nothing of its tab, and the other tabs as they were.
use browser_bridge.Prelude.{ℕ, ◌+◌, ◌≡◌, false, none, eqb, nat_key}
use browser_bridge.Prelude.JsMap.{get, has}
use browser_bridge.Debugger.Sessions.{
  Coordinator, generation_of, hold_count, get_dialog_status, unknown,
}

-- What is the same for a tab in two states.
pub record SameTab (t : ℕ) (s s' : Coordinator) : Type 0 where
  pub attached : get t s'.attached_tabs ≡ get t s.attached_tabs
  pub held : hold_count t s' ≡ hold_count t s
  pub timer : get t s'.burst_timers ≡ get t s.burst_timers
  pub dialog : get t s'.dialogs.by_tab ≡ get t s.dialogs.by_tab
  pub waiters : get t s'.dialogs.waiters ≡ get t s.dialogs.waiters
  pub generation : generation_of t s' ≡ generation_of t s

pub record Dropped (tab : ℕ) (s s' : Coordinator) : Type 0 where
  pub unobservable : get_dialog_status tab s' ≡ unknown
  pub unattached : has tab s'.attached_tabs ≡ false
  pub unheld : hold_count tab s' ≡ 0
  pub no_timer : get tab s'.burst_timers ≡ none
  pub nobody_waits : get tab s'.dialogs.waiters ≡ none
  pub outdated : generation_of tab s' ≡ generation_of tab s + 1
  pub others_same : (t : ℕ) → eqb tab t ≡ false → SameTab t s s'
