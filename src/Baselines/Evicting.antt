-- ===== src/Baselines/Evicting.antt =====
-- The evictions make the room that they promise.
use browser_bridge.Prelude.{
  ℕ, ◌+◌, ◌-◌, ◌≤◌, ◌<◌, ◌≡◌, refl, sym, subst, ◌∙◌, Bool, true, ◌||◌, some, List, [], ◌∷◌, ◌++◌,
  arith, leb, ltb, length, Bool-cases, inl, inr, string_key,
}
use browser_bridge.Prelude.JsMap.{size, get, delete}
use browser_bridge.Baselines.{
  BaselineRecord, Store, Evicted, remove_record, evict_tab_loop, evict_for_tab, evict_global_loop,
  evict_globally, oldest_records, on_tab, max_dom_baselines_per_tab, max_dom_baselines_global,
  max_dom_baseline_tab_bytes, max_dom_baseline_total_bytes, sum_bytes,
}
use browser_bridge.Baselines.Sums.{
  Records, Weight, sum_by, sum_of, bytes_of, one, on, size-sum_by, length-sum_of, sum_bytes-sum_of,
  sum_by-delete, sum_of-oldest,
}
use browser_bridge.Baselines.Walks.{IsWalk, IsWalk-rest, oldest-IsWalk}
use browser_bridge.Baselines.Invariant.{
  IsOk, Shrinks, Shrinks-refl, Shrinks-trans, remove_record-Shrinks,
}

-- Removing a record that is there takes its weight away.
sum_by-remove_record :
    (w : Weight) (st : Store) (r : BaselineRecord)
    → IsOk st
    → get r.baseline_id st.records ≡ some r
    → sum_by w (remove_record r.baseline_id st).records + w r ≡ sum_by w st.records
unfolding remove_record
sum_by-remove_record w st r ok e =
    rw (e, remove_record) (sum_by-delete w r.baseline_id st.records ok.distinct e)

records-remove_record :
    (st : Store) (r : BaselineRecord)
    → get r.baseline_id st.records ≡ some r
    → (remove_record r.baseline_id st).records ≡ delete r.baseline_id st.records
unfolding remove_record
records-remove_record st r e = rw (e, remove_record) refl

IsWalk-remove :
    {p : BaselineRecord → Bool} (st : Store) (r : BaselineRecord) (l : List BaselineRecord)
    → IsWalk p st.records (r ∷ l)
    → IsWalk p (remove_record r.baseline_id st).records l
IsWalk-remove {p} st r l walk =
    subst (λ m. IsWalk p m l) (sym (records-remove_record st r walk.found.0))
      (IsWalk-rest st.records r l walk)

abbrev pub tab_count : ℕ → Store → ℕ
tab_count tab_id st = sum_by (on (on_tab tab_id) one) st.records

abbrev pub tab_bytes : ℕ → Store → ℕ
tab_bytes tab_id st = sum_by (on (on_tab tab_id) bytes_of) st.records

-- Room for one more baseline of this size on the tab, and in all.
pub record HasTabRoom (tab_id incoming : ℕ) (st : Store) : Type 0 where
  pub count_room : tab_count tab_id st < max_dom_baselines_per_tab
  pub bytes_room : tab_bytes tab_id st + incoming ≤ max_dom_baseline_tab_bytes

pub record HasRoom (incoming : ℕ) (st : Store) : Type 0 where
  pub size_room : size st.records < max_dom_baselines_global
  pub total_room : st.total_bytes + incoming ≤ max_dom_baseline_total_bytes

evict_tab_loop_lem :
    (tab_id incoming : ℕ) (l : List BaselineRecord) (bytes : ℕ) (st : Store) (evicted : Evicted)
    → IsOk st
    → IsWalk (on_tab tab_id) st.records l
    → tab_count tab_id st ≡ sum_of one l
    → tab_bytes tab_id st ≡ bytes
    → bytes ≡ sum_of bytes_of l
    → incoming ≤ max_dom_baseline_tab_bytes
    → let st' = (evict_tab_loop incoming l bytes st evicted).0 in
      Shrinks st st' × HasTabRoom tab_id incoming st'
unfolding evict_tab_loop sum_of
evict_tab_loop_lem tab_id incoming [] bytes st evicted ok walk c b s small =
    (Shrinks-refl ok, record { count_room = omega arith; bytes_room = omega arith })
evict_tab_loop_lem tab_id incoming (r ∷ l) bytes st evicted ok walk c b s small =
    let here = walk.passing.0 in
    let found = walk.found.0 in
    let next = remove_record r.baseline_id st in
    let step = remove_record-Shrinks r.baseline_id st ok in
    let less = sum_by-remove_record (on (on_tab tab_id) one) st r ok found in
    let lighter = sum_by-remove_record (on (on_tab tab_id) bytes_of) st r ok found in
    let one_here : on (on_tab tab_id) one r ≡ 1 = rw here in
    let bytes_here : on (on_tab tab_id) bytes_of r ≡ r.bytes = rw here in
    let rest =
      evict_tab_loop_lem tab_id incoming l (bytes - r.bytes) (remove_record r.baseline_id st)
        (evicted ++ (r.baseline_id, "per_tab_quota") ∷ []) step.sound (IsWalk-remove st r l walk)
        (omega (arith, less, one_here)) (omega (arith, lighter, bytes_here)) (omega arith) small in
    elim (Bool-cases (
      leb max_dom_baselines_per_tab (length l + 1)
      || ltb max_dom_baseline_tab_bytes (bytes + incoming))) [
        | inl full ↦ rw full (Shrinks-trans step rest.0, rest.1)
        | inr room ↦ rw room (
          Shrinks-refl ok,
          record { count_room = ground (arith, length-sum_of l); bytes_room = ground arith },
        )
      ]

-- The eviction for a tab leaves fewer than eight baselines there, and the bytes fit.
pub evict_for_tab-HasTabRoom :
    (tab_id incoming : ℕ) (st : Store) (evicted : Evicted)
    → IsOk st
    → incoming ≤ max_dom_baseline_tab_bytes
    → let st' = (evict_for_tab tab_id incoming st evicted).0 in
      Shrinks st st' × HasTabRoom tab_id incoming st'
unfolding evict_for_tab
evict_for_tab-HasTabRoom tab_id incoming st evicted ok small =
    let l = oldest_records (on_tab tab_id) st in
    evict_tab_loop_lem tab_id incoming l (sum_bytes l) st evicted ok
      (oldest-IsWalk (on_tab tab_id) st ok.distinct ok.named)
      (sym (sum_of-oldest one (on_tab tab_id) st))
      (sym (sum_bytes-sum_of l ∙ sum_of-oldest bytes_of (on_tab tab_id) st)) (sum_bytes-sum_of l)
      small

abbrev every_record : BaselineRecord → Bool
every_record r = true

sum_by-every : (w : Weight) (m : Records) → sum_by (on every_record w) m ≡ sum_by w m
unfolding sum_by
sum_by-every w [] = refl
sum_by-every w ((k, r) ∷ m) = omega (arith, sum_by-every w m)

evict_global_loop_lem :
    (incoming : ℕ) (l : List BaselineRecord) (st : Store) (evicted : Evicted)
    → IsOk st
    → IsWalk every_record st.records l
    → sum_by one st.records ≡ sum_of one l
    → sum_by bytes_of st.records ≡ sum_of bytes_of l
    → incoming ≤ max_dom_baseline_total_bytes
    → let st' = (evict_global_loop incoming l st evicted).0 in Shrinks st st' × HasRoom incoming st'
unfolding evict_global_loop sum_of
evict_global_loop_lem incoming [] st evicted ok walk c b small = (
  Shrinks-refl ok,
  record {
    size_room = omega (arith, size-sum_by st.records);
    total_room = omega (arith, ok.accounted);
  },
)
evict_global_loop_lem incoming (r ∷ l) st evicted ok walk c b small =
    let found = walk.found.0 in
    let step = remove_record-Shrinks r.baseline_id st ok in
    let rest =
      evict_global_loop_lem incoming l (remove_record r.baseline_id st)
        (evicted ++ (r.baseline_id, "global_quota") ∷ []) step.sound (IsWalk-remove st r l walk)
        (omega (arith, sum_by-remove_record one st r ok found))
        (omega (arith, sum_by-remove_record bytes_of st r ok found)) small in
    elim (Bool-cases (
      leb max_dom_baselines_global (size st.records)
      || ltb max_dom_baseline_total_bytes (st.total_bytes + incoming))) [
        | inl full ↦ rw full (Shrinks-trans step rest.0, rest.1)
        | inr room ↦
            rw room
              (Shrinks-refl ok, record { size_room = ground arith; total_room = ground arith })
      ]

-- The global eviction leaves fewer than thirty-two baselines, and the bytes fit.
pub evict_globally-HasRoom :
    (incoming : ℕ) (st : Store) (evicted : Evicted)
    → IsOk st
    → incoming ≤ max_dom_baseline_total_bytes
    → let st' = (evict_globally incoming st evicted).0 in Shrinks st st' × HasRoom incoming st'
unfolding evict_globally
evict_globally-HasRoom incoming st evicted ok small =
    let l = oldest_records every_record st in
    evict_global_loop_lem incoming l st evicted ok
      (oldest-IsWalk every_record st ok.distinct ok.named)
      (sym (sum_of-oldest one every_record st ∙ sum_by-every one st.records))
      (sym (sum_of-oldest bytes_of every_record st ∙ sum_by-every bytes_of st.records)) small
