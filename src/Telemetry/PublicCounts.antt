-- ===== src/Telemetry/PublicCounts.antt =====
-- The public counts of a snapshot.
use browser_bridge.Prelude.{
  ℕ, ◌+◌, ◌≤◌, ◌≡◌, refl, Bool, true, false, not, ◌&&◌, none, some, min, max, ◌<◌, ◌↔◌, ◌⊎◌,
  if◌then◌else◌, List, [], ◌∷◌, arith,
}
use browser_bridge.Telemetry.{
  EventKind, Event, Summary, Rates, create_public_event_summary, totals,
  recovery_public_count_limit, recovery_loop_threshold, max_safe_integer, empty, is_success,
  active_loop, prune_groups,
}
use browser_bridge.Telemetry.Counts.{Entry, Ordered, replay, tally, is_counted, totals-replay}

tally-split :
    (p s : Entry → Bool) (history : List Entry)
    → tally p history ≡ tally (λ h. p h && s h) history + tally (λ h. p h && not (s h)) history
tally-split p s [] = refl
tally-split p s (e ∷ history) = ground (arith, tally-split p s history)

-- What the public summary of an event shows, in terms of the event's own counts: exactly these up
-- to the limit, and a share of the limit above it.
pub record IsBalanced (rates : Rates) (e : Event) (looping : Bool) (s : Summary rates.Rate)
    : Type 0 where
  pub whole : s.attempts ≡ s.successes + s.failures
  pub attempts_shown : s.attempts ≡ min e.attempts recovery_public_count_limit
  pub saturates : (s.saturated ≡ true) ↔ (recovery_public_count_limit < e.attempts)
  pub exact : s.saturated ≡ false → (s.successes ≡ e.successes) × (s.failures ≡ e.failures)
  pub share :
      s.saturated ≡ true
      → s.failures
        ≡ min recovery_public_count_limit (
            max
              (if looping then recovery_loop_threshold else 0)
              (rates.proportional_failures e.failures e.attempts))
  pub rated :
      s.saturated ≡ false
      → 0 < e.attempts
      → (s.success_rate ≡ some (rates.round_rate e.successes e.attempts))
        × (s.failure_rate ≡ some (rates.round_rate e.failures e.attempts))
  pub no_rate :
      (s.saturated ≡ true) ⊎ (e.attempts ≡ 0) → (s.success_rate ≡ none) × (s.failure_rate ≡ none)
  pub last_event : 0 < e.attempts → s.last_event_at ≡ some e.last_event_at
  pub no_event : e.attempts ≡ 0 → s.last_event_at ≡ none

module _ (rates : Rates) where
  summary-IsBalanced :
      (e : Event) (looping : Bool)
      → e.attempts ≡ e.successes + e.failures
      → IsBalanced rates e looping (create_public_event_summary rates e looping)
  unfolding create_public_event_summary
  summary-IsBalanced e looping h = record {
    whole = ground arith;
    attempts_shown = ground arith;
    saturates = ground arith;
    exact = ground arith;
    share = ground arith;
    rated = ground arith;
    no_rate = ground arith;
    last_event = ground arith;
    no_event = ground arith;
  }

  -- After any history of calls in the order of the clock, and whatever the rounding of quotients,
  -- each kind's public summary at a later safe time saturates exactly above 10000 attempts, and
  -- shows the attempts or 10000, which are the sum of the successes and failures shown. Without
  -- saturation these are the totals, and the rates are the rounded quotients of the totals, if
  -- there was an attempt. With it there are no rates, and the failures are their share of 10000, at
  -- least three in an active loop. The last event is shown exactly when there was an attempt.
  pub snapshot-IsBalanced :
      (kind : EventKind) (q : ℕ) (history : List Entry)
      → q ≤ max_safe_integer
      → Ordered 0 q history
      → let c = replay empty history in
        let e = totals kind q c.buckets in
        let looping = active_loop kind q (prune_groups q c.groups) in
        IsBalanced rates e looping (create_public_event_summary rates e looping)
  snapshot-IsBalanced kind q history big d =
      let (a, s, f) = totals-replay kind q history big d in
      summary-IsBalanced _ _ (
        omega (arith, a, s, f, tally-split (is_counted kind q) (λ h. is_success h.outcome) history))
