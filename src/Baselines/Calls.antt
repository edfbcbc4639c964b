-- ===== src/Baselines/Calls.antt =====
-- Every call of the controller keeps the quotas.
use browser_bridge.Prelude.{
  ℕ, ◌+◌, refl, List, [], ◌∷◌, String, arith, leb, eqb, Bool-cases, Option-cases, inl, inr,
  string_key, nat_key,
}
use browser_bridge.Prelude.JsMap.{JsMap, get, delete}
use browser_bridge.Baselines.{
  BaselineRecord, Store, CreateInput, initial, create, get_record, find_live, release,
  invalidate_record, invalidate_entries, invalidate_navigation, clear_tab, clear_window, clear_all,
  prune_expired, get_scope_generation, advance_tab_generation, on_tab, drop_invalidated,
}
use browser_bridge.Baselines.Sums.{sum_by}
use browser_bridge.Baselines.Invariant.{
  IsOk, Shrinks, Shrinks-refl, Shrinks-trans, Shrinks-same, remove_record-Shrinks,
  clear_matching-Shrinks, prune_expired-Shrinks,
}
use browser_bridge.Baselines.Quota.{WithinQuota, Shrinks-WithinQuota}
use browser_bridge.Baselines.Creating.{create-WithinQuota}

invalidate_record-Shrinks :
    (id reason : String) (st : Store) → IsOk st → Shrinks st (invalidate_record id reason st).0
unfolding invalidate_record
invalidate_record-Shrinks id reason st ok = elim (Option-cases (get id st.records)) [
  | inl e ↦ rw (e, invalidate_record) (Shrinks-refl ok)
  | inr (r, e) ↦
      let removed = remove_record-Shrinks id st ok in
      rw (e, invalidate_record) (Shrinks-trans removed (Shrinks-same removed.sound refl refl))
]

invalidate_entries-Shrinks :
    (tab_id : ℕ) (l : JsMap String BaselineRecord) (st : Store) (count bytes : ℕ)
    → IsOk st
    → Shrinks st (invalidate_entries tab_id l st count bytes).store
unfolding invalidate_entries
invalidate_entries-Shrinks tab_id [] st count bytes ok = Shrinks-refl ok
invalidate_entries-Shrinks tab_id ((id, r) ∷ l) st count bytes ok =
    let first = invalidate_record-Shrinks id "navigation" st ok in
    elim (Bool-cases (on_tab tab_id r)) [
      | inl hit ↦ rw hit (
          Shrinks-trans first (
            invalidate_entries-Shrinks tab_id l (invalidate_record id "navigation" st).0 (count + 1)
              (bytes + r.bytes) first.sound))
      | inr miss ↦ rw miss (invalidate_entries-Shrinks tab_id l st count bytes ok)
    ]

find_live-Shrinks :
    (id : String) (at : ℕ) (st : Store) → IsOk st → Shrinks st (find_live id at st).0
unfolding find_live
find_live-Shrinks id at st ok = elim (Option-cases (get id st.records)) [
  | inl e ↦ rw (e, find_live) (Shrinks-refl ok)
  | inr (r, e) ↦ elim (Bool-cases (leb r.expires_at_ms at)) [
    | inl old ↦ rw (e, find_live) (rw old (remove_record-Shrinks id st ok))
    | inr live ↦ rw (e, find_live) (rw live (Shrinks-refl ok))
  ]
]

get_record-Shrinks :
    (id : String) (at : ℕ) (st : Store) → IsOk st → Shrinks st (get_record id at st).0
unfolding get_record
get_record-Shrinks id at st ok = elim (Option-cases (get id st.invalidated_records)) [
  | inl e ↦ rw (e, get_record) (find_live-Shrinks id at st ok)
  | inr (gone, e) ↦ elim (Bool-cases (leb gone.expires_at_ms at)) [
    | inl old ↦
        let same =
          Shrinks-same {st = st}
            {st' = record st { invalidated_records = delete id st.invalidated_records }} ok refl
            refl in
        rw (e, get_record) (rw old (Shrinks-trans same (find_live-Shrinks id at _ same.sound)))
    | inr fresh ↦ rw (e, get_record) (rw fresh (Shrinks-refl ok))
  ]
]

release-Shrinks : (id : String) (st : Store) → IsOk st → Shrinks st (release id st).0
unfolding release
release-Shrinks id st ok =
    let removed = remove_record-Shrinks id st ok in
    Shrinks-trans removed (Shrinks-same removed.sound refl refl)

clear_tab-Shrinks : (tab_id : ℕ) (st : Store) → IsOk st → Shrinks st (clear_tab tab_id st).store
unfolding clear_tab advance_tab_generation
clear_tab-Shrinks tab_id st ok =
    let same =
      Shrinks-same {st = st}
        {st' = record (advance_tab_generation tab_id st) {
          invalidated_records =
              drop_invalidated (λ r. eqb r.tab_id tab_id)
                (advance_tab_generation tab_id st).invalidated_records;
        }}
        ok refl refl in
    Shrinks-trans same (clear_matching-Shrinks _ _ same.sound)

clear_window-Shrinks :
    (window_id : ℕ) (st : Store) → IsOk st → Shrinks st (clear_window window_id st).store
unfolding clear_window
clear_window-Shrinks window_id st ok =
    let same =
      Shrinks-same {st = st}
        {st' = record st {
          lifecycle_generation = st.lifecycle_generation + 1;
          invalidated_records =
              drop_invalidated (λ r. eqb r.window_id window_id) st.invalidated_records;
        }}
        ok refl refl in
    Shrinks-trans same (clear_matching-Shrinks _ _ same.sound)

clear_all-Shrinks : (st : Store) → IsOk st → Shrinks st (clear_all st).store
unfolding clear_all
clear_all-Shrinks st ok =
    let same =
      Shrinks-same {st = st}
        {st' = record st {
          lifecycle_generation = st.lifecycle_generation + 1;
          navigation_generations = [];
          invalidated_records = [];
        }}
        ok refl refl in
    Shrinks-trans same (clear_matching-Shrinks _ _ same.sound)

navigation-Shrinks :
    (tab_id : ℕ) (st : Store) → IsOk st → Shrinks st (invalidate_navigation tab_id st).store
unfolding invalidate_navigation advance_tab_generation
navigation-Shrinks tab_id st ok =
    let same = Shrinks-same {st = st} {st' = advance_tab_generation tab_id st} ok refl refl in
    Shrinks-trans same (invalidate_entries-Shrinks tab_id st.records _ 0 0 same.sound)

scope-Shrinks : (tab_id : ℕ) (st : Store) → IsOk st → Shrinks st (get_scope_generation tab_id st).0
unfolding get_scope_generation
scope-Shrinks tab_id st ok = elim (Option-cases (get tab_id st.navigation_generations)) [
  | inl e ↦ rw (e, get_scope_generation) (Shrinks-same ok refl refl)
  | inr (g, e) ↦ rw (e, get_scope_generation) (Shrinks-refl ok)
]

-- The calls of the controller, each with the clock where it reads it.
pub data Call : Type 0 where
  creates : CreateInput → ℕ → Call
  gets : String → ℕ → Call
  releases : String → Call
  invalidates : String → String → Call
  clears_tab clears_window navigates scopes : ℕ → Call
  clears_all : Call
  prunes : ℕ → Call

pub step : Call → Store → Store
step (creates input now) st = (create input now st).0
step (gets id at) st = (get_record id at st).0
step (releases id) st = (release id st).0
step (invalidates id reason) st = (invalidate_record id reason st).0
step (clears_tab tab_id) st = (clear_tab tab_id st).store
step (clears_window window_id) st = (clear_window window_id st).store
step (navigates tab_id) st = (invalidate_navigation tab_id st).store
step (scopes tab_id) st = (get_scope_generation tab_id st).0
step clears_all st = (clear_all st).store
step (prunes at) st = (prune_expired at st).store

pub run : List Call → Store → Store
run [] st = st
run (c ∷ calls) st = run calls (step c st)

step-WithinQuota : (c : Call) (st : Store) → WithinQuota st → WithinQuota (step c st)
unfolding step
step-WithinQuota (creates input now) st q = create-WithinQuota input now st q
step-WithinQuota (gets id at) st q = Shrinks-WithinQuota (get_record-Shrinks id at st q.sound) q
step-WithinQuota (releases id) st q = Shrinks-WithinQuota (release-Shrinks id st q.sound) q
step-WithinQuota (invalidates id reason) st q =
    Shrinks-WithinQuota (invalidate_record-Shrinks id reason st q.sound) q
step-WithinQuota (clears_tab tab_id) st q =
    Shrinks-WithinQuota (clear_tab-Shrinks tab_id st q.sound) q
step-WithinQuota (clears_window window_id) st q =
    Shrinks-WithinQuota (clear_window-Shrinks window_id st q.sound) q
step-WithinQuota (navigates tab_id) st q =
    Shrinks-WithinQuota (navigation-Shrinks tab_id st q.sound) q
step-WithinQuota (scopes tab_id) st q = Shrinks-WithinQuota (scope-Shrinks tab_id st q.sound) q
step-WithinQuota clears_all st q = Shrinks-WithinQuota (clear_all-Shrinks st q.sound) q
step-WithinQuota (prunes at) st q = Shrinks-WithinQuota (prune_expired-Shrinks at st q.sound) q

run-WithinQuota : (calls : List Call) (st : Store) → WithinQuota st → WithinQuota (run calls st)
unfolding run
run-WithinQuota [] st q = q
run-WithinQuota (c ∷ calls) st q = run-WithinQuota calls (step c st) (step-WithinQuota c st q)

pub initial-WithinQuota : WithinQuota initial
unfolding initial sum_by
initial-WithinQuota = record {
  sound = record { distinct = tt; named = tt; accounted = refl };
  tab_counts = λ t. omega arith;
  tab_sizes = λ t. omega arith;
  global_count = omega arith;
  global_size = omega arith;
}

-- After any sequence of calls of the controller, in any order and with any times, every tab holds
-- at most 8 baselines and 1 MiB, all tabs together at most 32 and 4 MiB, ids are unique, each
-- record stands under its own id, and `totalBytes` is the exact sum of the stored bytes.
pub run-initial-WithinQuota : (calls : List Call) → WithinQuota (run calls initial)
run-initial-WithinQuota calls = run-WithinQuota calls initial initial-WithinQuota
