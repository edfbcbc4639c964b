-- ===== src/Telemetry/Counts.antt =====
-- What a snapshot counts, against the history of the calls of `record`.
use browser_bridge.Prelude.{
  ℕ, zero, suc, ◌+◌, ◌≤◌, ◌≡◌, refl, sym, ap, subst, ◌∙◌, Bool, false, not, ◌&&◌, Option, none,
  some, List, [], ◌∷◌, String, arith, eqb, ltb, if◌then◌else◌, or_else, get_elem?, get_elem?_of_lt,
  replicate, set, Bool-cases, inl, inr,
}
use browser_bridge.Prelude.JsMap.{JsMap, get, put, get-put}
use browser_bridge.Telemetry.{
  EventKind, Outcome, Event, Bucket, Collector, recovery_bucket_ms, recovery_window_ms,
  bucket_count, max_safe_integer, bucket_start, bucket_index, current_bucket, add_event, bump,
  record_bucket, record_event, normalize_now, empty, is_live, kind_key, no_event, one_if,
  is_success, live_event, add_totals, totals_from, totals, kind_same, kind_same_iff,
}
use browser_bridge.Telemetry.Ring.{
  RingInv, RingInv-mono, record_bucket-RingInv, empty-RingInv, index-lt, bucket_start-le,
  bucket_start_mono, replaced_not_live, start-current_bucket, bucket_start_aligned,
}

-- A count that an event holds, and what one outcome adds to it.
record Measure : Type 0 where
  of_event : Event → ℕ
  of_outcome : Outcome → ℕ
  at_none : of_event no_event ≡ 0
  at_bump :
      (e : Event) (o : Outcome) (now : ℕ) → of_event (bump e o now) ≡ of_event e + of_outcome o
  at_totals : (e total : Event) → of_event (add_totals e total) ≡ of_event total + of_event e

bump_counts :
    (e : Event) (o : Outcome) (now : ℕ)
    → ((bump e o now).attempts ≡ e.attempts + 1)
      × ((bump e o now).successes ≡ e.successes + one_if (is_success o))
      × ((bump e o now).failures ≡ e.failures + one_if (not (is_success o)))
unfolding bump
bump_counts e o now = (refl, refl, refl)

abbrev attempts : Measure
attempts = record {
  of_event = λ e. e.attempts;
  of_outcome = λ o. 1;
  at_none = refl;
  at_bump = λ e o now. (bump_counts e o now).0;
  at_totals = λ e total. refl;
}

abbrev successes : Measure
successes = record {
  of_event = λ e. e.successes;
  of_outcome = λ o. one_if (is_success o);
  at_none = refl;
  at_bump = λ e o now. (bump_counts e o now).1;
  at_totals = λ e total. refl;
}

abbrev failures : Measure
failures = record {
  of_event = λ e. e.failures;
  of_outcome = λ o. one_if (not (is_success o));
  at_none = refl;
  at_bump = λ e o now. (bump_counts e o now).2;
  at_totals = λ e total. refl;
}

-- A call of `record`: its arguments and the clock.
pub record Entry : Type 0 where
  pub kind : EventKind
  pub outcome : Outcome
  pub group : String
  pub at : ℕ

unfoldable pub replay : Collector → List Entry → Collector
replay c [] = c
replay c (e ∷ history) = replay (record_event c e.kind e.outcome e.group e.at) history

-- The clock does not run backwards, and no call is later than `q`.
abbrev pub Ordered : ℕ → ℕ → List Entry → Type 0
Ordered t q [] = t ≤ q
Ordered t q (e ∷ history) = (t ≤ e.at) × Ordered e.at q history

-- The entry's bucket ends less than five minutes before `q`.
abbrev pub in_window : ℕ → Entry → Bool
in_window q e = ltb q (bucket_start e.at + recovery_bucket_ms + recovery_window_ms)

abbrev pub tally : (Entry → Bool) → List Entry → ℕ
tally p [] = 0
tally p (e ∷ history) = one_if (p e) + tally p history

Ordered-le : (t q : ℕ) (history : List Entry) → Ordered t q history → t ≤ q
Ordered-le t q [] d = d
Ordered-le t q (e ∷ history) d = omega (arith, Ordered-le e.at q history d.1)

buckets-record_event :
    (c : Collector) (e : Entry)
    → e.at ≤ max_safe_integer
    → (record_event c e.kind e.outcome e.group e.at).buckets
      ≡ record_bucket c.buckets e.kind e.outcome e.at
unfolding record_event normalize_now
buckets-record_event c e h = ground arith

module _ (m : Measure) (kind : EventKind) (q : ℕ) where
  open m use {of_event, of_outcome, at_none, at_bump, at_totals}

  sum_live : List (Option Bucket) → ℕ
  sum_live [] = 0
  sum_live (b ∷ bs) = of_event (live_event kind q b) + sum_live bs

  totals_from-sum :
      (total : Event) (bs : List (Option Bucket))
      → of_event (totals_from total kind q bs) ≡ of_event total + sum_live bs
  unfolding totals_from sum_live
  totals_from-sum total [] = omega arith
  totals_from-sum total (b ∷ bs) = omega (
    arith,
    totals_from-sum (add_totals (live_event kind q b) total) bs,
    at_totals (live_event kind q b) total,
  )

  -- One write changes the sum by what it puts in and takes out.
  sum_live-set :
      (bs : List (Option Bucket)) (i : ℕ) (new : Option Bucket) {old : Option Bucket}
      → get_elem? bs i ≡ some old
      → sum_live (set bs i new) + of_event (live_event kind q old)
        ≡ sum_live bs + of_event (live_event kind q new)
  unfolding sum_live
  sum_live-set [] i new h = cc
  sum_live-set (b ∷ bs) zero new {old} h =
      let e : b ≡ old = cc in omega (arith, ap (λ o. of_event (live_event kind q o)) e)
  sum_live-set (b ∷ bs) (suc i) new h = omega (arith, sum_live-set bs i new h)

  added : EventKind → Outcome → ℕ → ℕ
  added kind' o now =
      if kind_same kind' kind && ltb q (bucket_start now + recovery_bucket_ms + recovery_window_ms)
      then of_outcome o
      else 0

  bumped :
      (events : JsMap EventKind Event) (kind' : EventKind) (o : Outcome) (now : ℕ)
      → of_event (
          or_else
            (get kind (put kind' (bump (or_else (get kind' events) no_event) o now) events))
            no_event)
        ≡ of_event (or_else (get kind events) no_event)
          + (if kind_same kind' kind then of_outcome o else 0)
  bumped events kind' o now = elim (Bool-cases (kind_same kind' kind)) [
    | inl e ↦
        rw (get-put, e)
          (rw (at_bump (or_else (get kind' events) no_event) o now, (kind_same_iff kind' kind).0 e))
    | inr e ↦ rw (get-put, e) (omega arith)
  ]

  live-add_event :
      (b : Bucket) (kind' : EventKind) (o : Outcome) (now : ℕ)
      → b.start ≡ bucket_start now
      → now ≤ q
      → of_event (live_event kind q (some (add_event b kind' o now)))
        ≡ of_event (live_event kind q (some b)) + added kind' o now
  unfolding add_event added
  live-add_event b kind' o now s h =
      ground (arith, bumped b.events kind' o now, at_none, bucket_start-le now)

  live-empty :
      (start : ℕ) → of_event (live_event kind q (some (record { start = start; events = [] }))) ≡ 0
  unfolding get
  live-empty start = ground (arith, at_none)

  -- What stood in the place of the current bucket counts only if it is that bucket.
  replaced :
      (i : ℕ) (bs : List (Option Bucket)) (o : Option Bucket) (now : ℕ)
      → RingInv (bucket_start now) bs
      → i ≡ bucket_index (bucket_start now)
      → get_elem? bs i ≡ some o
      → now ≤ q
      → of_event (live_event kind q o)
        ≡ of_event (live_event kind q (some (current_bucket (some o) (bucket_start now))))
  replaced i bs none now r e g h = rw (live-empty (bucket_start now)) at_none
  replaced i bs (some b) now r e g h = elim (Bool-cases (eqb b.start (bucket_start now))) [
    | inl same ↦ rw same refl
    | inr other ↦ rw (other, gone other) (at_none ∙ sym (live-empty (bucket_start now)))
  ]
    where
      gone : eqb b.start (bucket_start now) ≡ false → is_live q b ≡ false
      gone other =
          replaced_not_live i (bucket_start now) q b (r.placed i b g) (bucket_start_aligned now)
            (sym e) (ground arith) (omega (arith, bucket_start-le now))

  -- One event adds one to the counts of its kind, for as long as its bucket is in the window.
  sum_live-record_bucket :
      (bs : List (Option Bucket)) (kind' : EventKind) (o : Outcome) (now : ℕ)
      → RingInv (bucket_start now) bs
      → now ≤ q
      → sum_live (record_bucket bs kind' o now) ≡ sum_live bs + added kind' o now
  unfolding record_bucket
  sum_live-record_bucket bs kind' o now r h =
      let i = bucket_index (bucket_start now) in
      let (old, e) = get_elem?_of_lt bs i (omega (arith, index-lt (bucket_start now), r.full)) in
      let b = current_bucket (some old) (bucket_start now) in
      rw e (
        omega (
          arith,
          sum_live-set bs i (some (add_event b kind' o now)) e,
          live-add_event b kind' o now (start-current_bucket (some old) (bucket_start now)) h,
          replaced i bs old now r refl e h,
        ))

  sum_live-nothing : (n : ℕ) → sum_live (replicate n none) ≡ 0
  unfolding sum_live
  sum_live-nothing zero = refl
  sum_live-nothing (suc n) = omega (arith, sum_live-nothing n, at_none)

  sum_added : List Entry → ℕ
  sum_added [] = 0
  sum_added (e ∷ history) = added e.kind e.outcome e.at + sum_added history

  sum_live-replay :
      (c : Collector) (history : List Entry) (t : ℕ)
      → q ≤ max_safe_integer
      → RingInv (bucket_start t) c.buckets
      → Ordered t q history
      → sum_live (replay c history).buckets ≡ sum_live c.buckets + sum_added history
  unfolding replay sum_added
  sum_live-replay c [] t big r d = omega arith
  sum_live-replay c (e ∷ history) t big r d =
      let now-le = Ordered-le e.at q history d.1 in
      let up = RingInv-mono r (bucket_start_mono t e.at d.0) in
      let next = record_event c e.kind e.outcome e.group e.at in
      let same = buckets-record_event c e (omega arith) in
      omega (
        arith,
        sum_live-replay (record_event c e.kind e.outcome e.group e.at) history e.at big
            (subst (RingInv (bucket_start e.at)) (sym same) (
              record_bucket-RingInv c.buckets e.kind e.outcome (bucket_start t) e.at r
                (bucket_start_mono t e.at d.0)))
            d.1,
        ap sum_live same,
        sum_live-record_bucket c.buckets e.kind e.outcome e.at up now-le,
      )

  sum_live-empty : sum_live empty.buckets ≡ 0
  unfolding empty
  sum_live-empty = sum_live-nothing bucket_count

  totals-replay_measure :
      (history : List Entry)
      → q ≤ max_safe_integer
      → Ordered 0 q history
      → of_event (totals kind q (replay empty history).buckets) ≡ sum_added history
  totals-replay_measure history big d = omega (
    arith,
    totals_from-sum no_event (replay empty history).buckets,
    at_none,
    sum_live-replay empty history 0 big (empty-RingInv _) d,
    sum_live-empty,
  )

-- An entry of the kind whose bucket is in the window at `q`.
abbrev pub is_counted : EventKind → ℕ → Entry → Bool
is_counted kind q e = kind_same e.kind kind && in_window q e

sum_added-attempts :
    (kind : EventKind) (q : ℕ) (history : List Entry)
    → sum_added attempts kind q history ≡ tally (is_counted kind q) history
unfolding sum_added added
sum_added-attempts kind q [] = refl
sum_added-attempts kind q (e ∷ history) = ground (arith, sum_added-attempts kind q history)

sum_added-successes :
    (kind : EventKind) (q : ℕ) (history : List Entry)
    → sum_added successes kind q history
      ≡ tally (λ e. is_counted kind q e && is_success e.outcome) history
unfolding sum_added added
sum_added-successes kind q [] = refl
sum_added-successes kind q (e ∷ history) = ground (arith, sum_added-successes kind q history)

sum_added-failures :
    (kind : EventKind) (q : ℕ) (history : List Entry)
    → sum_added failures kind q history
      ≡ tally (λ e. is_counted kind q e && not (is_success e.outcome)) history
unfolding sum_added added
sum_added-failures kind q [] = refl
sum_added-failures kind q (e ∷ history) = ground (arith, sum_added-failures kind q history)

-- After any history of `record` calls in the order of the clock, the totals of a kind at a later
-- safe time count exactly the calls of that kind whose five-second bucket ends less than five
-- minutes before that time, split into successes and failures.
pub totals-replay :
    (kind : EventKind) (q : ℕ) (history : List Entry)
    → q ≤ max_safe_integer
    → Ordered 0 q history
    → let e = totals kind q (replay empty history).buckets in
      (e.attempts ≡ tally (is_counted kind q) history)
      × (e.successes ≡ tally (λ h. is_counted kind q h && is_success h.outcome) history)
      × (e.failures ≡ tally (λ h. is_counted kind q h && not (is_success h.outcome)) history)
totals-replay kind q history big d = (
  totals-replay_measure attempts kind q history big d ∙ sum_added-attempts kind q history,
  totals-replay_measure successes kind q history big d ∙ sum_added-successes kind q history,
  totals-replay_measure failures kind q history big d ∙ sum_added-failures kind q history,
)
