-- ===== src/Baselines/Quota.antt =====
-- The quotas of the store, and the room behind both evictions.
use browser_bridge.Prelude.{
  ℕ, zero, suc, ◌≤◌, ◌≡◌, refl, subst, true, none, List, [], ◌∷◌, String, arith, Bool-cases, inl,
  inr, ◌⊎◌, string_key,
}
use browser_bridge.Prelude.JsMap.{JsMap, size, get, has}
use browser_bridge.Baselines.{
  BaselineRecord, Store, Evicted, SnapshotScope, CreateInput, Outcome, ok, throws, Error,
  evict_for_tab, evict_globally, on_tab, check_input, next_baseline_id, with_prefix, is_baseline_id,
  max_dom_baselines_per_tab, max_dom_baselines_global, max_dom_baseline_tab_bytes,
  max_dom_baseline_total_bytes, max_dom_baseline_bytes,
}
use browser_bridge.Baselines.Sums.{bytes_of, one, on, size-sum_by}
use browser_bridge.Baselines.Invariant.{IsOk, Shrinks, Shrinks-trans}
use browser_bridge.Baselines.Evicting.{
  tab_count, tab_bytes, HasTabRoom, HasRoom, evict_for_tab-HasTabRoom, evict_globally-HasRoom,
}

-- The quotas: eight baselines and one mebibyte on each tab, thirty-two and four mebibytes in all.
pub record WithinQuota (st : Store) : Type 0 where
  pub sound : IsOk st
  pub tab_counts : (tab_id : ℕ) → tab_count tab_id st ≤ max_dom_baselines_per_tab
  pub tab_sizes : (tab_id : ℕ) → tab_bytes tab_id st ≤ max_dom_baseline_tab_bytes
  pub global_count : size st.records ≤ max_dom_baselines_global
  pub global_size : st.total_bytes ≤ max_dom_baseline_total_bytes

pub Shrinks-WithinQuota : {st st' : Store} → Shrinks st st' → WithinQuota st → WithinQuota st'
Shrinks-WithinQuota {st} {st'} s q = record {
  sound = s.sound;
  tab_counts = λ t. omega (arith, s.smaller (on (on_tab t) one), q.tab_counts t);
  tab_sizes = λ t. omega (arith, s.smaller (on (on_tab t) bytes_of), q.tab_sizes t);
  global_count =
      omega (arith, s.smaller one, size-sum_by st.records, size-sum_by st'.records, q.global_count);
  global_size =
      omega (arith, s.smaller bytes_of, s.sound.accounted, q.sound.accounted, q.global_size);
}

-- An id that is handed out is well formed and names no record.
pub next_baseline_id-fresh :
    (attempts : ℕ) (supply : List String) (m : JsMap String BaselineRecord) {id : String}
    → next_baseline_id attempts supply m ≡ ok id
    → (is_baseline_id id ≡ true) × (get id m ≡ none)
unfolding next_baseline_id
next_baseline_id-fresh zero supply m e = cc
next_baseline_id-fresh (suc n) [] m e = cc
next_baseline_id-fresh (suc n) (g ∷ supply) m {id} e =
    elim (Bool-cases (is_baseline_id (with_prefix g))) [
      | inr bad ↦ absurd (ground arith)
      | inl good ↦ elim (Bool-cases (has (with_prefix g) m)) [
        | inl taken ↦ next_baseline_id-fresh n supply m (ground arith)
        | inr free ↦
            let same : with_prefix g ≡ id = ground arith in
            (
              subst (λ i. is_baseline_id i ≡ true) same good,
              subst (λ i. get i m ≡ none) same (ground arith),
            )
      ]
    ]

pub check_input-bytes :
    (input : CreateInput) {scope : SnapshotScope}
    → check_input input ≡ ok scope
    → input.snapshot.json_bytes ≤ max_dom_baseline_bytes
unfolding check_input
check_input-bytes input e = ground arith

pub Outcome-cases {ℓ} :
    {A : Type ℓ} (o : Outcome A) → ((e : Error) × (o ≡ throws e)) ⊎ ((a : A) × (o ≡ ok a))
Outcome-cases (ok a) = inr (a, refl)
Outcome-cases (throws e) = inl (e, refl)

-- The state behind both evictions.
module _ (input : CreateInput) (st : Store) (evicted : Evicted) where
  abbrev pub after_tab : Store × Evicted
  after_tab = evict_for_tab input.tab_id input.snapshot.json_bytes st evicted

  abbrev pub after_both : Store × Evicted
  after_both = evict_globally input.snapshot.json_bytes after_tab.0 after_tab.1

  pub record IsReady : Type 0 where
    pub shrinks : Shrinks st after_both.0
    pub tab_room : HasTabRoom input.tab_id input.snapshot.json_bytes after_both.0
    pub room : HasRoom input.snapshot.json_bytes after_both.0

  pub evicted-IsReady : IsOk st → input.snapshot.json_bytes ≤ max_dom_baseline_bytes → IsReady
  evicted-IsReady sound small =
      let (s1, t) =
        evict_for_tab-HasTabRoom input.tab_id input.snapshot.json_bytes st evicted sound
          (omega arith) in
      let (s2, r) =
        evict_globally-HasRoom input.snapshot.json_bytes after_tab.0 after_tab.1 s1.sound
          (omega arith) in
      record {
        shrinks = Shrinks-trans s1 s2;
        tab_room = record {
          count_room = omega (arith, s2.smaller (on (on_tab input.tab_id) one), t.count_room);
          bytes_room = omega (arith, s2.smaller (on (on_tab input.tab_id) bytes_of), t.bytes_room);
        };
        room = r;
      }
