-- ===== src/Telemetry/Sound.antt =====
-- Every failure group that `record` builds has a well-formed ring and the kind of its key.
use browser_bridge.Prelude.{
  ℕ, zero, suc, ◌≡◌, refl, List, [], ◌∷◌, String, leb, Bool-cases, Option-cases, inl, inr,
}
use browser_bridge.Prelude.JsMap.{size, get, Entries, get-Entries, put-Entries, delete-Entries}
use browser_bridge.Telemetry.{
  EventKind, Outcome, Group, GroupKey, Collector, kind_key, failure_key, group_key,
  recovery_max_groups, is_recent, prune_groups, oldest, delete_least, evict, new_group, fail,
  record_failure, record_event, normalize_now, empty, is_success,
}
use browser_bridge.Telemetry.Counts.{Entry, replay}
use browser_bridge.Telemetry.Groups.{Groups}
use browser_bridge.Telemetry.Rings.{GroupOk, fail-GroupOk, new_group-GroupOk}

-- Every group's ring is well formed, and its kind is that of its key.
abbrev pub Sound : GroupKey → Group → Type 0
Sound k g = GroupOk g × (g.kind ≡ k.kind)

pub prune_groups-Sound :
    (now : ℕ) (m : Groups) → Entries Sound m → Entries Sound (prune_groups now m)
unfolding prune_groups
prune_groups-Sound now [] h = tt
prune_groups-Sound now ((k, g) ∷ m) h = elim (Bool-cases (is_recent now g)) [
  | inl kept ↦ rw kept (h.0, prune_groups-Sound now m h.1)
  | inr gone ↦ rw gone (prune_groups-Sound now m h.1)
]

delete_least-Sound : (m : Groups) → Entries Sound m → Entries Sound (delete_least m)
unfolding delete_least
delete_least-Sound [] h = tt
delete_least-Sound (entry ∷ m) h = delete-Entries Sound (oldest entry m) (entry ∷ m) h

evict-Sound : (fuel : ℕ) (m : Groups) → Entries Sound m → Entries Sound (evict fuel m)
unfolding evict
evict-Sound zero m h = h
evict-Sound (suc fuel) m h = elim (Bool-cases (leb recovery_max_groups (size m))) [
  | inl full ↦ rw full (evict-Sound fuel (delete_least m) (delete_least-Sound m h))
  | inr room ↦ rw room h
]

fail-Sound : (k : GroupKey) (g : Group) (now : ℕ) → Sound k g → Sound k (fail g now)
fail-Sound k g now s = (fail-GroupOk g now s.0, unfold fail in s.1)

record_failure-Sound :
    (m : Groups) (kind : EventKind) (group : String) (now : ℕ)
    → Entries Sound m
    → Entries Sound (record_failure m kind group now)
unfolding record_failure
record_failure-Sound m kind group now h =
    let k = group_key kind group in
    elim (Option-cases (get k m)) [
      | inl e ↦
          rw (e, record_failure)
            (put-Entries Sound k (fail (new_group kind now) now) (evict (size m) m)
              (fail-Sound k (new_group kind now) now (new_group-GroupOk kind now, refl))
              (evict-Sound (size m) m h))
      | inr (g, e) ↦
          rw (e, record_failure)
            (put-Entries Sound k (fail g now) m (fail-Sound k g now (get-Entries Sound k m h e)) h)
    ]

record_event-Sound :
    (c : Collector) (kind : EventKind) (o : Outcome) (group : String) (clock : ℕ)
    → Entries Sound c.groups
    → Entries Sound (record_event c kind o group clock).groups
unfolding record_event
record_event-Sound c kind o group clock h =
    let now = normalize_now clock in
    let pruned = prune_groups-Sound now c.groups h in
    elim (Bool-cases (is_success o)) [
      | inl e ↦ rw e pruned
      | inr e ↦ rw e (record_failure-Sound (prune_groups now c.groups) kind group now pruned)
    ]

pub replay-Sound :
    (c : Collector) (history : List Entry)
    → Entries Sound c.groups
    → Entries Sound (replay c history).groups
unfolding replay
replay-Sound c [] h = h
replay-Sound c (e ∷ history) h =
    replay-Sound (record_event c e.kind e.outcome e.group e.at) history
      (record_event-Sound c e.kind e.outcome e.group e.at h)

pub empty-Sound : Entries Sound empty.groups
unfolding empty
empty-Sound = tt
