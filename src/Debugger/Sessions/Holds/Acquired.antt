-- ===== src/Debugger/Sessions/Holds/Acquired.antt =====
-- A successful `acquire` adds one hold.
use browser_bridge.Prelude.{ℕ, ◌+◌, ◌≡◌, ap, ◌∙◌, true, none, arith, nat_key, or_else}
use browser_bridge.Prelude.JsMap.{get, get-put_self}
use browser_bridge.Debugger.Sessions.{
  Coordinator, hold_count, is_current, generation_of, enter_queue,
}
use browser_bridge.Debugger.Sessions.Holds.{Acquire, first_hold, acquire_turn, acquire}
use browser_bridge.Debugger.Sessions.Runs.Current.{
  start_exclusive_success, generation_of-leave_queue, hold_count-leave_queue, is_current-generation,
}

acquire_turn_success :
    (tab generation : ℕ) (w : Acquire) (s : Coordinator)
    → (acquire_turn tab generation w s).1 ≡ none
    → (is_current tab generation (acquire_turn tab generation w s).0 ≡ true)
      × (hold_count tab (acquire_turn tab generation w s).0 ≡ hold_count tab s + 1)
unfolding acquire_turn is_current hold_count
acquire_turn_success tab generation w s h =
    let count = or_else (get tab s.holds) 0 + 1 in
    let first = get-put_self tab count (first_hold tab generation w s).0.holds in
    let later = get-put_self tab count s.holds in (ground arith, ground arith)

-- `acquire` that reports success has added one hold to those that the tab had when its turn came,
-- and the tab's generation is still the one of the call, whatever the others did at its awaits.
pub acquire-hold_count :
    (tab : ℕ) (w : Acquire) (s : Coordinator)
    → (acquire tab w s).1 ≡ none
    → (generation_of tab (acquire tab w s).0 ≡ generation_of tab s)
      × (hold_count tab (acquire tab w s).0 ≡ hold_count tab (w.turn (enter_queue tab s).0) + 1)
unfolding acquire
acquire-hold_count tab w s h =
    let g = generation_of tab s in
    let (left, fine) =
      start_exclusive_success tab w.turn (λ generation. acquire_turn tab generation w) s h in
    let x = w.turn (enter_queue tab s).0 in
    let (current, more) = acquire_turn_success tab g w x fine in
    (
      ap (generation_of tab) left
          ∙ generation_of-leave_queue tab tab s.next_object (acquire_turn tab g w x).0
          ∙ is_current-generation tab g (acquire_turn tab g w x).0 current,
      ap (hold_count tab) left
          ∙ hold_count-leave_queue tab tab s.next_object (acquire_turn tab g w x).0
          ∙ more,
    )
