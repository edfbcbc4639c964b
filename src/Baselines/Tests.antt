-- ===== src/Baselines/Tests.antt =====
-- Runs of the store, and the theorems at concrete inputs.
use browser_bridge.Prelude.{
  arith, ℕ, ◌+◌, ◌≡◌, ◌≢◌, refl, true, none, some, [], ◌∷◌, String, ltb, if◌then◌else◌,
}
use browser_bridge.Prelude.JsMap.{get, put, delete, bound_oldest}
use browser_bridge.Nodes.{
  normalize_nodes, normalize_from, normalize_node, normalize_parent_id, normalize_node_id,
  blank_node,
}
use browser_bridge.Baselines.{
  BaselineRecord, Snapshot, CreateInput, Store, initial, create, admit, check_quota, issue,
  store_record, check_input, read_snapshot_scope, validate_snapshot, check_node_ids,
  next_baseline_id, with_prefix, is_baseline_id, evict_for_tab, evict_tab_loop, evict_globally,
  evict_global_loop, oldest_records, sort_by_age, insert_by_age, prune_expired, clear_matching,
  clear_entries, drop_invalidated, remove_record, get_record, find_live, release, invalidate_record,
  ok, throws, expired, not_found, storage_exceeded, invalidated, type_error, range_error,
  quota_exceeded, clear_tab, advance_tab_generation, bound_generations, dom_baseline_ttl_ms,
}
use browser_bridge.Compare.{Comparison, sum_counts}
use browser_bridge.Baselines.Comparing.{
  or_type_error, compare_record, assert_same_scope, compare, create-compare,
}
use browser_bridge.Baselines.Quota.{WithinQuota}
use browser_bridge.Baselines.Creating.{create-WithinQuota, create-ne-storage_exceeded}
use browser_bridge.Baselines.Calls.{
  creates, gets, navigates, run, initial-WithinQuota, run-initial-WithinQuota,
}
use browser_bridge.Baselines.Reading.{create-get_record, release-get_record}

baselines : Unit {0}
unfolding initial create admit check_quota issue store_record check_input read_snapshot_scope
    validate_snapshot check_node_ids next_baseline_id with_prefix is_baseline_id evict_for_tab
    evict_tab_loop evict_globally evict_global_loop oldest_records sort_by_age insert_by_age
    prune_expired clear_matching clear_entries drop_invalidated remove_record get_record find_live
    release invalidate_record bound_oldest clear_tab advance_tab_generation bound_generations get
    put delete
baselines = tt

abbrev page : ℕ → Snapshot
page bytes = record {
  document_token = some "doc";
  representation = some "semantic";
  selector = some "main";
  scope_document_token = none;
  scope_representation = none;
  scope_selector = none;
  nodes = blank_node "n1" ∷ blank_node "n2" ∷ [];
  json_bytes = bytes;
}

abbrev input : ℕ → String → CreateInput
input bytes id = record {
  window_id = 1;
  tab_id = 7;
  frame_id = 0;
  selector = some "main";
  snapshot = page bytes;
  generated_ids = id ∷ [];
}

abbrev first_id : String
first_id = "baseline_0123456789abcdef0123456789abcdef"

abbrev one_stored : Store × BaselineRecord
one_stored =
    let r : BaselineRecord = record {
      baseline_id = first_id;
      scope = record {
        window_id = 1;
        tab_id = 7;
        frame_id = 0;
        snapshot_scope = record {
          document_token = "doc";
          representation = "semantic";
          selector = some "main";
        };
      };
      snapshot = page 1000;
      evicted = [];
      bytes = 1000;
      created_at_ms = 50;
      expires_at_ms = 300050;
      sequence = 0;
    } in
    (
      record {
        records = (first_id, r) ∷ [];
        invalidated_records = [];
        sequence = 1;
        total_bytes = 1000;
        lifecycle_generation = 0;
        navigation_generation = 0;
        navigation_generations = [];
      },
      r,
    )

created :
    create (input 1000 "0123456789abcdef0123456789abcdef") 50 initial
    ≡ (one_stored.0, ok one_stored.1)
unfolding baselines
created = refl

refused :
    ((create (input 1000 "short") 50 initial).1 ≡ throws type_error)
    × ((create (input 262145 first_id) 50 initial).1 ≡ throws quota_exceeded)
    × ((invalidate_record first_id "navigation" one_stored.0).1 ≡ true)
    × ((get_record first_id 60 (invalidate_record first_id "navigation" one_stored.0).0).1
        ≡ throws (invalidated "navigation"))
    × ((clear_tab 7 one_stored.0).count ≡ 1)
unfolding baselines
refused = (refl, refl, refl, refl, refl)

-- The times behind the last date of JavaScript are refused after the evictions.
too_late : (create (input 1000 first_id) 8639999999700001 initial).1 ≡ throws range_error
unfolding baselines
too_late = refl

-- A snapshot with an empty parent id is stored, but cannot be compared.
abbrev orphan : CreateInput
orphan = record (input 1000 first_id) {
  snapshot = record (page 1000) { nodes = record (blank_node "n1") { parent_id = some "" } ∷ [] };
}

stored_but_not_comparable :
    ((create orphan 50 initial).0.sequence ≡ 1)
    × ((compare first_id orphan.snapshot 50 60 (create orphan 50 initial).0).1 ≡ throws type_error)
unfolding baselines compare compare_record assert_same_scope or_type_error normalize_nodes
    normalize_from normalize_node normalize_parent_id normalize_node_id
stored_but_not_comparable = (refl, refl)

create-WithinQuota_example : WithinQuota (create (input 1000 first_id) 50 initial).0
create-WithinQuota_example = create-WithinQuota (input 1000 first_id) 50 initial initial-WithinQuota

create-ne-storage_exceeded_example :
    (create (input 262144 first_id) 50 initial).1 ≢ throws storage_exceeded
create-ne-storage_exceeded_example =
    create-ne-storage_exceeded (input 262144 first_id) 50 initial initial-WithinQuota.sound

run-initial-WithinQuota_example :
    WithinQuota
      (run (creates (input 1000 first_id) 50 ∷ navigates 7 ∷ gets first_id 60 ∷ []) initial)
run-initial-WithinQuota_example =
    run-initial-WithinQuota (creates (input 1000 first_id) 50 ∷ navigates 7 ∷ gets first_id 60 ∷ [])

create-get_record_example :
    (get_record first_id 300049 one_stored.0).1
    ≡ (if ltb 300049 (50 + dom_baseline_ttl_ms) then ok one_stored.1 else throws expired)
unfolding baselines
create-get_record_example =
    create-get_record (input 1000 first_id) 50 300049 initial one_stored.0 one_stored.1
      initial-WithinQuota.sound refl refl

release-get_record_example :
    (get_record first_id 60 (release first_id one_stored.0).0).1 ≡ throws not_found
release-get_record_example = release-get_record first_id 60 one_stored.0

create-compare_example :
    (c : Comparison) × ((compare first_id (input 1000 first_id).snapshot 50 60 one_stored.0).1
      ≡ ok c)
    × (c.equal ≡ true)
    × (sum_counts c.counts ≡ 0)
unfolding baselines
create-compare_example =
    create-compare (input 1000 first_id) 50 60 50 initial one_stored.0 one_stored.1
      initial-WithinQuota.sound refl refl (omega arith) refl
