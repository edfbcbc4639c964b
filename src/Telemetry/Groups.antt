-- ===== src/Telemetry/Groups.antt =====
-- The groups of repeated failures: their number is bounded, and each ring of times is well formed.
use browser_bridge.Prelude.{
  ℕ, zero, suc, ◌≤◌, ◌<◌, ◌≡◌, true, List, [], ◌∷◌, String, arith, leb, Bool-cases, Option-cases,
  inl, inr,
}
use browser_bridge.Prelude.JsMap.{
  JsMap, size, get, has, eq_refl, size-delete-lt, size-put-le, size-put_present,
}
use browser_bridge.Telemetry.{
  EventKind, Outcome, Group, GroupKey, Collector, kind_key, failure_key, group_key,
  recovery_max_groups, prune_groups, oldest, delete_least, evict, new_group, fail, record_failure,
  record_event, normalize_now, empty,
}
use browser_bridge.Telemetry.Counts.{Entry, replay}

abbrev pub Groups : Type 0
Groups = JsMap GroupKey Group

has-cons : (k j : GroupKey) (g : Group) (m : Groups) → has k m ≡ true → has k ((j, g) ∷ m) ≡ true
unfolding get
has-cons k j g m h = ground arith

has-swap :
    (k i j : GroupKey) (g h : Group) (m : Groups)
    → has k ((i, g) ∷ m) ≡ true
    → has k ((i, g) ∷ (j, h) ∷ m) ≡ true
unfolding get
has-swap k i j g h m e = ground arith

has-oldest : (k : GroupKey) (g : Group) (m : Groups) → has (oldest (k, g) m) ((k, g) ∷ m) ≡ true
unfolding oldest
has-oldest k g [] = unfold get in rw eq_refl
has-oldest k g ((j, h) ∷ m) = elim (Bool-cases (leb g.touched_at h.touched_at)) [
  | inl e ↦ rw e (has-swap (oldest (k, g) m) k j g h m (has-oldest k g m))
  | inr e ↦ rw e (has-cons (oldest (j, h) m) k g ((j, h) ∷ m) (has-oldest j h m))
]

size-delete_least :
    (entry : GroupKey × Group) (m : Groups) → size (delete_least (entry ∷ m)) < size (entry ∷ m)
unfolding delete_least
size-delete_least (k, g) m = size-delete-lt (oldest (k, g) m) ((k, g) ∷ m) (has-oldest k g m)

-- With fuel for each entry the loop ends by its test.
pub size-evict : (fuel : ℕ) (m : Groups) → size m ≤ fuel → size (evict fuel m) < recovery_max_groups
unfolding evict
size-evict zero m h = omega arith
size-evict (suc fuel) [] h = omega arith
size-evict (suc fuel) (entry ∷ m) h =
    ground (arith, size-delete_least entry m, size-evict fuel (delete_least (entry ∷ m)))

pub size-prune_groups-le : (now : ℕ) (m : Groups) → size (prune_groups now m) ≤ size m
unfolding prune_groups
size-prune_groups-le now [] = omega arith
size-prune_groups-le now ((k, g) ∷ m) = ground (arith, size-prune_groups-le now m)

size-record_failure-le :
    (m : Groups) (kind : EventKind) (group : String) (now : ℕ)
    → size m ≤ recovery_max_groups
    → size (record_failure m kind group now) ≤ recovery_max_groups
unfolding record_failure
size-record_failure-le m kind group now h = elim (Option-cases (get (group_key kind group) m)) [
  | inl e ↦
      rw (e, record_failure)
        (omega (
          arith,
          size-put-le (group_key kind group) (fail (new_group kind now) now) (evict (size m) m),
          size-evict (size m) m (omega arith),
        ))
  | inr (g, e) ↦
      rw (e, record_failure)
        (omega (arith, size-put_present (group_key kind group) (fail g now) m e))
]

record_event-size :
    (c : Collector) (kind : EventKind) (o : Outcome) (group : String) (clock : ℕ)
    → size c.groups ≤ recovery_max_groups
    → size (record_event c kind o group clock).groups ≤ recovery_max_groups
unfolding record_event
record_event-size c kind o group clock h =
    let now = normalize_now clock in
    ground (
      arith,
      size-prune_groups-le now c.groups,
      size-record_failure-le (prune_groups now c.groups) kind group now,
    )

replay-size :
    (c : Collector) (history : List Entry)
    → size c.groups ≤ recovery_max_groups
    → size (replay c history).groups ≤ recovery_max_groups
unfolding replay
replay-size c [] h = h
replay-size c (e ∷ history) h =
    replay-size (record_event c e.kind e.outcome e.group e.at) history
      (record_event-size c e.kind e.outcome e.group e.at h)

-- Whatever calls of `record` were made, at whatever times, at most 64 failure groups are kept.
pub groups_bounded :
    (history : List Entry) → size (replay empty history).groups ≤ recovery_max_groups
groups_bounded history = replay-size empty history (unfold empty in omega arith)
