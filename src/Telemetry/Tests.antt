-- ===== src/Telemetry/Tests.antt =====
-- Runs of the collector, and the theorems at concrete inputs.
use browser_bridge.Prelude.{ℕ, ◌≤◌, ◌≡◌, refl, List, [], ◌∷◌, arith, not, ◌&&◌}
use browser_bridge.Prelude.JsMap.{size, get, put, delete}
use browser_bridge.Telemetry.{
  stale_ref_recovery, debugger_reattach, success, failure, Rates, empty, record_event,
  record_bucket, add_event, bump, bucket_start, bucket_index, normalize_now, recent_failures,
  prune_groups, record_failure, evict, delete_least, oldest, fail, totals, totals_from, active_loop,
  recovery_max_groups, is_success, create_public_event_summary,
}
use browser_bridge.Telemetry.Counts.{Entry, replay, tally, is_counted, totals-replay}
use browser_bridge.Telemetry.Groups.{groups_bounded}
use browser_bridge.Telemetry.PublicCounts.{IsBalanced, snapshot-IsBalanced}

telemetry : Unit {0}
unfolding replay record_event record_bucket add_event bump bucket_start bucket_index normalize_now
    recent_failures prune_groups record_failure evict delete_least oldest fail totals_from empty get
    put delete create_public_event_summary
telemetry = tt

abbrev failed : ℕ → Entry
failed at = record { kind = stale_ref_recovery; outcome = failure; group = "ref"; at = at }

abbrev worked : ℕ → Entry
worked at = record { kind = stale_ref_recovery; outcome = success; group = "ref"; at = at }

-- The first entry's bucket has left the window at the end; the others have not.
abbrev history : List Entry
history = worked 4000 ∷ failed 100000 ∷ failed 100001 ∷ worked 290000 ∷ []

counted :
    ((totals stale_ref_recovery 310000 (replay empty history).buckets).attempts ≡ 3)
    × ((totals stale_ref_recovery 310000 (replay empty history).buckets).failures ≡ 2)
    × ((totals stale_ref_recovery 304999 (replay empty history).buckets).attempts ≡ 4)
    × ((totals debugger_reattach 310000 (replay empty history).buckets).attempts ≡ 0)
unfolding telemetry
counted = (refl, refl, refl, refl)

totals-replay_example :
    let e = totals stale_ref_recovery 310000 (replay empty history).buckets in
    (e.attempts ≡ tally (is_counted stale_ref_recovery 310000) history)
    × (e.successes
        ≡ tally (λ h. is_counted stale_ref_recovery 310000 h && is_success h.outcome) history)
    × (e.failures
        ≡ tally (λ h. is_counted stale_ref_recovery 310000 h && not (is_success h.outcome)) history)
totals-replay_example = totals-replay stale_ref_recovery 310000 history (omega arith) (omega arith)

groups_bounded_example : size (replay empty history).groups ≤ recovery_max_groups
groups_bounded_example = groups_bounded history

-- The numerators stand for the quotients.
abbrev numerators : Rates
numerators = record { Rate = ℕ; round_rate = λ n d. n; proportional_failures = λ f a. f }

snapshot-IsBalanced_example :
    let c = replay empty history in
    let e = totals stale_ref_recovery 310000 c.buckets in
    let looping = active_loop stale_ref_recovery 310000 (prune_groups 310000 c.groups) in
    IsBalanced numerators e looping (create_public_event_summary numerators e looping)
snapshot-IsBalanced_example =
    snapshot-IsBalanced numerators stale_ref_recovery 310000 history (omega arith) (omega arith)
