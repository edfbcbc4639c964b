-- ===== src/Baselines/Creating.antt =====
-- `create` keeps the quotas, and never meets its own last check of them.
use browser_bridge.Prelude.{
  map, ℕ, zero, suc, ◌+◌, ◌≤◌, ◌≡◌, ◌≢◌, refl, ap, ◌∙◌, false, ◌||◌, none, List, [], ◌∷◌, String,
  arith, ltb, eqb, if◌then◌else◌, Bool-cases, inl, inr, string_key,
}
use browser_bridge.Prelude.JsMap.{JsMap, get, put-Distinct, put-Entries, size-put-le}
use browser_bridge.Baselines.{
  BaselineRecord, Store, Evicted, SnapshotScope, CreateInput, Outcome, ok, throws, Error,
  storage_exceeded, range_error, max_date_ms, dom_baseline_ttl_ms, on_tab, create, admit, issue,
  check_quota, check_input, store_record, next_baseline_id, prune_expired, read_snapshot_scope,
  validate_snapshot, check_node_ids, max_dom_baseline_tab_bytes, max_dom_baseline_total_bytes,
  max_dom_baseline_bytes,
}
use browser_bridge.Baselines.Sums.{bytes_of, one, on, sum_by-put}
use browser_bridge.Baselines.Walks.{Named}
use browser_bridge.Baselines.Invariant.{IsOk, prune_expired-Shrinks}
use browser_bridge.Baselines.Evicting.{tab_count, tab_bytes, HasTabRoom, HasRoom}
use browser_bridge.Baselines.Quota.{
  WithinQuota, Shrinks-WithinQuota, next_baseline_id-fresh, check_input-bytes, Outcome-cases,
  after_both, evicted-IsReady,
}

-- A quota that holds of every tab, and has room on one, holds after an addition to that one.
add-le :
    (measure : ℕ → ℕ) (a tab x limit : ℕ)
    → measure a + x ≤ limit
    → measure tab ≤ limit
    → measure tab + (if eqb a tab then x else 0) ≤ limit
add-le measure a tab x limit h k = elim (Bool-cases (eqb a tab)) [
  | inl same ↦ let e : a ≡ tab = ground arith in rw same (omega (arith, ap measure e))
  | inr other ↦ rw other (omega arith)
]

store_record-WithinQuota :
    (input : CreateInput) (scope : SnapshotScope) (now : ℕ) (id : String) (ev : Evicted)
    (st : Store)
    → WithinQuota st
    → HasTabRoom input.tab_id input.snapshot.json_bytes st
    → HasRoom input.snapshot.json_bytes st
    → get id st.records ≡ none
    → WithinQuota (store_record input scope now id ev st).0
unfolding store_record
store_record-WithinQuota input scope now id ev st q t r fresh = record {
  sound = record {
    distinct = put-Distinct id _ st.records q.sound.distinct;
    named = put-Entries Named id _ st.records refl q.sound.named;
    accounted = omega (arith, q.sound.accounted, sum_by-put bytes_of id _ st.records fresh);
  };
  tab_counts = λ tab. rw (sum_by-put (on (on_tab tab) one) id _ st.records fresh) (
      add-le (λ t. tab_count t st) input.tab_id tab 1 _ (omega (arith, t.count_room))
        (q.tab_counts tab));
  tab_sizes = λ tab. rw (sum_by-put (on (on_tab tab) bytes_of) id _ st.records fresh) (
      add-le (λ t. tab_bytes t st) input.tab_id tab input.snapshot.json_bytes _ t.bytes_room
        (q.tab_sizes tab));
  global_count = omega (arith, r.size_room, size-put-le id _ st.records);
  global_size = r.total_room;
}

next_baseline_id-error :
    (attempts : ℕ) (supply : List String) (m : JsMap String BaselineRecord)
    → ¬ (next_baseline_id attempts supply m ≡ throws storage_exceeded)
unfolding next_baseline_id
next_baseline_id-error zero supply m e = cc
next_baseline_id-error (suc n) [] m e = cc
next_baseline_id-error (suc n) (g ∷ supply) m e = ground (arith, next_baseline_id-error n supply m)

pub issue_cases {ℓ} :
    (P : Store × Outcome BaselineRecord → Type ℓ) (input : CreateInput) (scope : SnapshotScope)
    (now : ℕ) (ev : Evicted) (st : Store)
    → ((e : Error) → e ≢ storage_exceeded → P (st, throws e))
    → ((id : String)
        → next_baseline_id 8 input.generated_ids st.records ≡ ok id
        → P (
          (store_record input scope now id ev st).0,
          ok (store_record input scope now id ev st).1,
        ))
    → P (issue input scope now ev st)
unfolding issue
issue_cases P input scope now ev st failed stored =
    elim (Outcome-cases (next_baseline_id 8 input.generated_ids st.records)) [
      | inl (e, h) ↦
          rw (h, issue)
            (failed e (λ same.
              next_baseline_id-error 8 input.generated_ids st.records (h ∙ ap throws same)))
      | inr (id, h) ↦ elim (Bool-cases (ltb max_date_ms (now + dom_baseline_ttl_ms))) [
        | inl late ↦ rw (h, issue) (rw late (failed range_error (λ same. cc)))
        | inr early ↦ rw (h, issue) (rw early (stored id h))
      ]
    ]

-- Behind the evictions the last check passes.
pub admit-issue :
    (input : CreateInput) (scope : SnapshotScope) (now : ℕ) (st : Store)
    → IsOk st
    → input.snapshot.json_bytes ≤ max_dom_baseline_bytes
    → admit input scope now st
      ≡ issue input scope now (after_both input st []).1 (after_both input st []).0
unfolding admit check_quota
admit-issue input scope now st sound small =
    let ready = evicted-IsReady input st [] sound small in
    let fits : (ltb max_dom_baseline_tab_bytes input.snapshot.json_bytes
          || ltb max_dom_baseline_total_bytes
              ((after_both input st []).0.total_bytes + input.snapshot.json_bytes))
        ≡ false =
      ground (arith, ready.room.total_room) in
    rw fits

admit-WithinQuota :
    (input : CreateInput) (scope : SnapshotScope) (now : ℕ) (st : Store)
    → WithinQuota st
    → input.snapshot.json_bytes ≤ max_dom_baseline_bytes
    → WithinQuota (admit input scope now st).0
admit-WithinQuota input scope now st q small =
    let ready = evicted-IsReady input st [] q.sound small in
    let kept = Shrinks-WithinQuota ready.shrinks q in
    rw (admit-issue input scope now st q.sound small) (
      issue_cases (λ o. WithinQuota o.0) input scope now _ _ (λ e h. kept)
        (λ id h.
          store_record-WithinQuota input scope now id _ _ kept ready.tab_room ready.room
            (next_baseline_id-fresh 8 input.generated_ids _ h).1))

pub create_cases {ℓ} :
    (P : Store × Outcome BaselineRecord → Type ℓ) (input : CreateInput) (now : ℕ) (st : Store)
    → ((e : Error) → check_input input ≡ throws e → P ((prune_expired now st).store, throws e))
    → ((scope : SnapshotScope)
        → check_input input ≡ ok scope
        → P (admit input scope now (prune_expired now st).store))
    → P (create input now st)
unfolding create
create_cases P input now st failed passed = elim (Outcome-cases (check_input input)) [
  | inl (e, h) ↦ rw (h, create) (failed e h)
  | inr (scope, h) ↦ rw (h, create) (passed scope h)
]

check_node_ids-error :
    (seen ids : List String) → ¬ (check_node_ids seen ids ≡ throws storage_exceeded)
unfolding check_node_ids
check_node_ids-error seen [] e = cc
check_node_ids-error seen (id ∷ ids) e = ground (arith, check_node_ids-error (id ∷ seen) ids)

check_input-error : (input : CreateInput) → ¬ (check_input input ≡ throws storage_exceeded)
unfolding check_input read_snapshot_scope validate_snapshot
check_input-error input e =
    ground (arith, check_node_ids-error [] (map (λ n. n.node_id) input.snapshot.nodes))

-- From a store within its quotas, every call of `create` leaves a store within its quotas, whether
-- it stores the baseline or throws.
pub create-WithinQuota :
    (input : CreateInput) (now : ℕ) (st : Store)
    → WithinQuota st
    → WithinQuota (create input now st).0
create-WithinQuota input now st q =
    let kept = Shrinks-WithinQuota (prune_expired-Shrinks now st q.sound) q in
    create_cases (λ o. WithinQuota o.0) input now st (λ e h. kept)
      (λ scope h. admit-WithinQuota input scope now _ kept (check_input-bytes input h))

-- In a store with right accounts `create` never throws its storage quota error: a snapshot that
-- passes the limit on one baseline always finds room after the evictions.
pub create-ne-storage_exceeded :
    (input : CreateInput) (now : ℕ) (st : Store)
    → IsOk st
    → (create input now st).1 ≢ throws storage_exceeded
create-ne-storage_exceeded input now st sound =
    let pruned = prune_expired-Shrinks now st sound in
    create_cases (λ o. o.1 ≢ throws storage_exceeded) input now st
      (λ e h k.
        let same : e ≡ storage_exceeded = cc in check_input-error input (h ∙ ap throws same))
      (λ scope h. rw (admit-issue input scope now _ pruned.sound (check_input-bytes input h)) (
        issue_cases (λ o. o.1 ≢ throws storage_exceeded) input scope now _ _ (λ e other k. other cc)
          (λ id h k. cc)))
