-- ===== src/Telemetry.antt =====
-- protocol/src/recovery-telemetry.ts: recovery events in a ring of five-second buckets, and repeated
-- failures by group. Times are whole milliseconds; `now` is the argument that the clock gives.
pub mod Ring
pub mod Counts
pub mod Groups
pub mod Rings
pub mod Sound
pub mod Loop
pub mod PublicCounts
pub mod Tests
use browser_bridge.Prelude.{
  ℕ, zero, suc, ◌+◌, ◌-◌, ◌*◌, ◌/◌, ◌%◌, min, max, ◌≡◌, refl, ◌↔◌, Bool, true, false, not, ◌&&◌,
  ◌||◌, Option, none, some, List, [], ◌∷◌, map, String, arith, ltb, leb, eqb, if◌then◌else◌,
  is_some, or_else, length, get_elem?, set, replicate, any, every, Key, ◌===◌,
}
use browser_bridge.Prelude.JsMap.{JsMap, size, values, get, put, delete}
use text.Mathlib.Text.{◌==◌ as str_eq}
use text.Mathlib.TextEquality.{eq_iff}

abbrev pub recovery_window_ms : ℕ
recovery_window_ms = 300000

abbrev pub recovery_bucket_ms : ℕ
recovery_bucket_ms = 5000

abbrev pub recovery_loop_window_ms : ℕ
recovery_loop_window_ms = 60000

abbrev pub recovery_loop_threshold : ℕ
recovery_loop_threshold = 3

abbrev pub recovery_max_groups : ℕ
recovery_max_groups = 64

abbrev pub recovery_public_count_limit : ℕ
recovery_public_count_limit = 10000

abbrev pub bucket_count : ℕ
bucket_count = 61

abbrev pub max_safe_integer : ℕ
max_safe_integer = 9007199254740991

pub data EventKind : Type 0 where
  automatic_mcp_retry stale_ref_recovery debugger_reattach : EventKind
  content_script_reinjection native_host_reconnect request_outcome : EventKind

abbrev pub event_kinds : List EventKind
event_kinds =
    automatic_mcp_retry ∷ stale_ref_recovery ∷ debugger_reattach ∷ content_script_reinjection
    ∷ native_host_reconnect ∷ request_outcome ∷ []

abbrev pub rank : EventKind → ℕ
rank automatic_mcp_retry = 0
rank stale_ref_recovery = 1
rank debugger_reattach = 2
rank content_script_reinjection = 3
rank native_host_reconnect = 4
rank request_outcome = 5

abbrev pub kind_same : EventKind → EventKind → Bool
kind_same a b = eqb (rank a) (rank b)

pub kind_same_iff : (a b : EventKind) → (kind_same a b ≡ true) ↔ (a ≡ b)
kind_same_iff a b = ground arith

instance abbrev pub kind_key : Key EventKind
kind_key = record { same = kind_same; same_iff = kind_same_iff }

pub data Outcome : Type 0 where
  success failure : Outcome

pub record Event : Type 0 where
  pub attempts : ℕ
  pub successes : ℕ
  pub failures : ℕ
  pub last_event_at : ℕ

pub record Bucket : Type 0 where
  pub start : ℕ
  pub events : JsMap EventKind Event

-- The three last failure times of a group, as a ring.
pub record Group : Type 0 where
  pub failures : List ℕ
  pub next : ℕ
  pub count : ℕ
  pub touched_at : ℕ
  pub kind : EventKind

-- The source joins the kind and the group name by a NUL, which no kind holds.
pub record GroupKey : Type 0 where
  pub kind : EventKind
  pub group : String

abbrev pub group_key : EventKind → String → GroupKey
group_key kind group = record { kind = kind; group = group }

abbrev pub key_same : GroupKey → GroupKey → Bool
key_same a b = kind_same a.kind b.kind && str_eq a.group b.group

pub key_same_iff : (a b : GroupKey) → (key_same a b ≡ true) ↔ (a ≡ b)
key_same_iff a b = ground (arith, kind_same_iff a.kind b.kind, eq_iff a.group b.group)

instance abbrev pub failure_key : Key GroupKey
failure_key = record { same = key_same; same_iff = key_same_iff }

pub record Collector : Type 0 where
  pub buckets : List (Option Bucket)
  pub groups : JsMap GroupKey Group

-- `new RecoveryTelemetryCollector()`
pub empty : Collector
empty = record { buckets = replicate bucket_count none; groups = [] }

pub normalize_now : ℕ → ℕ
normalize_now value = if leb value max_safe_integer then value else 0

pub bucket_start : ℕ → ℕ
bucket_start now = now / recovery_bucket_ms * recovery_bucket_ms

pub bucket_index : ℕ → ℕ
bucket_index start = (start / recovery_bucket_ms) % bucket_count

abbrev pub no_event : Event
no_event = record { attempts = 0; successes = 0; failures = 0; last_event_at = 0 }

abbrev pub one_if : Bool → ℕ
one_if b = if b then 1 else 0

abbrev pub is_success : Outcome → Bool
is_success success = true
is_success failure = false

pub bump : Event → Outcome → ℕ → Event
bump e outcome now = record {
  attempts = e.attempts + 1;
  successes = e.successes + one_if (is_success outcome);
  failures = e.failures + one_if (not (is_success outcome));
  last_event_at = now;
}

-- The bucket at the index, if it is of this start; else a new one in its place.
abbrev pub current_bucket : Option (Option Bucket) → ℕ → Bucket
current_bucket (some (some b)) start =
    if eqb b.start start then b else record { start = start; events = [] }
current_bucket _ start = record { start = start; events = [] }

pub add_event : Bucket → EventKind → Outcome → ℕ → Bucket
add_event b kind outcome now = record b {
  events = put kind (bump (or_else (get kind b.events) no_event) outcome now) b.events;
}

pub record_bucket : List (Option Bucket) → EventKind → Outcome → ℕ → List (Option Bucket)
record_bucket buckets kind outcome now =
    let start = bucket_start now in
    let index = bucket_index start in
    set buckets index
      (some (add_event (current_bucket (get_elem? buckets index) start) kind outcome now))

-- A failure time between the cutoff, `now - RECOVERY_LOOP_WINDOW_MS`, and now.
abbrev pub in_loop_window : ℕ → ℕ → Bool
in_loop_window now at = leb now (at + recovery_loop_window_ms) && leb at now

-- `for (let index = 0; index < group.count; index += 1)` over the failure times.
pub recent_failures : ℕ → ℕ → List ℕ → ℕ
recent_failures now (suc n) (at ∷ failures) =
    one_if (in_loop_window now at) + recent_failures now n failures
recent_failures now _ _ = 0

abbrev pub is_recent : ℕ → Group → Bool
is_recent now g = not (eqb (recent_failures now g.count g.failures) 0)

pub prune_groups : ℕ → JsMap GroupKey Group → JsMap GroupKey Group
prune_groups now [] = []
prune_groups now ((k, g) ∷ m) =
    if is_recent now g then (k, g) ∷ prune_groups now m else prune_groups now m

-- `reduce` to the entry that was touched longest ago, the first of equals.
pub oldest : GroupKey × Group → JsMap GroupKey Group → GroupKey
oldest (k, g) [] = k
oldest (k, g) ((j, h) ∷ m) = oldest (if leb g.touched_at h.touched_at then (k, g) else (j, h)) m

pub delete_least : JsMap GroupKey Group → JsMap GroupKey Group
delete_least [] = []
delete_least (entry ∷ m) = delete (oldest entry m) (entry ∷ m)

-- `while (this.groups.size >= RECOVERY_MAX_GROUPS)`, on fuel.
pub evict : ℕ → JsMap GroupKey Group → JsMap GroupKey Group
evict zero m = m
evict (suc fuel) m =
    let rest = evict fuel (delete_least m) in if leb recovery_max_groups (size m) then rest else m

abbrev pub new_group : EventKind → ℕ → Group
new_group kind now = record {
  failures = 0 ∷ 0 ∷ 0 ∷ [];
  next = 0;
  count = 0;
  touched_at = now;
  kind = kind;
}

pub fail : Group → ℕ → Group
fail g now = record g {
  failures = set g.failures g.next now;
  next = (g.next + 1) % recovery_loop_threshold;
  count = min recovery_loop_threshold (g.count + 1);
  touched_at = now;
}

pub record_failure : JsMap GroupKey Group → EventKind → String → ℕ → JsMap GroupKey Group
record_failure groups kind group now = elim (get (group_key kind group) groups) [
  | some g ↦ put (group_key kind group) (fail g now) groups
  | none ↦ put (group_key kind group) (fail (new_group kind now) now) (evict (size groups) groups)
]

pub record_event : Collector → EventKind → Outcome → String → ℕ → Collector
record_event c kind outcome group clock =
    let now = normalize_now clock in
    let groups = prune_groups now c.groups in
    record {
      buckets = record_bucket c.buckets kind outcome now;
      groups = if is_success outcome then groups else record_failure groups kind group now;
    }

-- The buckets that a snapshot reads.
abbrev pub is_live : ℕ → Bucket → Bool
is_live now b = not (leb (b.start + recovery_bucket_ms + recovery_window_ms) now) && leb b.start now

abbrev pub live_event : EventKind → ℕ → Option Bucket → Event
live_event kind now none = no_event
live_event kind now (some b) =
    if is_live now b then or_else (get kind b.events) no_event else no_event

abbrev pub add_totals : Event → Event → Event
add_totals e total = record {
  attempts = total.attempts + e.attempts;
  successes = total.successes + e.successes;
  failures = total.failures + e.failures;
  last_event_at = max total.last_event_at e.last_event_at;
}

pub totals_from : Event → EventKind → ℕ → List (Option Bucket) → Event
totals_from total kind now [] = total
totals_from total kind now (b ∷ buckets) =
    totals_from (add_totals (live_event kind now b) total) kind now buckets

abbrev pub totals : EventKind → ℕ → List (Option Bucket) → Event
totals kind now buckets = totals_from no_event kind now buckets

abbrev pub is_looping : EventKind → ℕ → Group → Bool
is_looping kind now g =
    kind_same g.kind kind
    && leb recovery_loop_threshold g.count
    && every (in_loop_window now) g.failures

abbrev pub active_loop : EventKind → ℕ → JsMap GroupKey Group → Bool
active_loop kind now groups = any (is_looping kind now) (values groups)

-- The rates are quotients in floating point: a type and two operations that the model does not fix.
pub record Rates : Type 1 where
  pub Rate : Type 0
  pub round_rate : ℕ → ℕ → Rate
  -- `Math.floor((failures / attempts) * RECOVERY_PUBLIC_COUNT_LIMIT)`
  pub proportional_failures : ℕ → ℕ → ℕ

pub record Summary (R : Type 0) : Type 0 where
  pub attempts : ℕ
  pub successes : ℕ
  pub failures : ℕ
  pub pending : ℕ
  pub saturated : Bool
  pub success_rate : Option R
  pub failure_rate : Option R
  pub is_active_loop : Bool
  pub last_event_at : Option ℕ

module _ (rates : Rates) where
  open rates use {Rate, round_rate, proportional_failures}

  pub create_public_event_summary : Event → Bool → Summary Rate
  create_public_event_summary e looping =
      let seen = ltb 0 e.attempts in
      let capped = min recovery_public_count_limit (
        max (if looping then recovery_loop_threshold else 0)
          (proportional_failures e.failures e.attempts)) in
      if leb e.attempts recovery_public_count_limit
      then record {
        attempts = e.attempts;
        successes = e.successes;
        failures = e.failures;
        pending = 0;
        saturated = false;
        success_rate = if seen then some (round_rate e.successes e.attempts) else none;
        failure_rate = if seen then some (round_rate e.failures e.attempts) else none;
        is_active_loop = looping;
        last_event_at = if seen then some e.last_event_at else none;
      }
      else record {
        attempts = recovery_public_count_limit;
        successes = recovery_public_count_limit - capped;
        failures = capped;
        pending = 0;
        saturated = true;
        success_rate = none;
        failure_rate = none;
        is_active_loop = looping;
        last_event_at = some e.last_event_at;
      }

  pub record Snapshot : Type 0 where
    pub as_of : ℕ
    pub is_active_loop : Bool
    pub events : List (EventKind × Summary Rate)

  -- `snapshot` returns the pruned collector too, since it drops old groups.
  pub snapshot : Collector → ℕ → Collector × Snapshot
  snapshot c clock =
      let now = normalize_now clock in
      let groups = prune_groups now c.groups in
      let events =
        map
          (λ kind. (
            kind,
            create_public_event_summary (totals kind now c.buckets) (active_loop kind now groups),
          ))
          event_kinds in
      (
        record c { groups = groups },
        record {
          as_of = now;
          is_active_loop = any (λ e. (e.1).is_active_loop) events;
          events = events;
        },
      )
