-- ===== src/Baselines/Reading.antt =====
-- What a stored baseline answers until it expires, is released or is invalidated.
use browser_bridge.Prelude.{
  Option-cases, ltb, if◌then◌else◌, inl, inr, ℕ, ◌+◌, ◌≡◌, refl, subst, none, some, arith,
  string_key, String,
}
use browser_bridge.Prelude.JsMap.{get-delete_self, get, get-put_self}
use browser_bridge.Baselines.{
  not_found, release, remove_record, BaselineRecord, Store, CreateInput, Outcome, ok, throws,
  expired, create, get_record, find_live, store_record, dom_baseline_ttl_ms,
}
use browser_bridge.Baselines.Invariant.{IsOk, prune_expired-Shrinks}
use browser_bridge.Baselines.Quota.{check_input-bytes}
use browser_bridge.Baselines.Creating.{create_cases, issue_cases, admit-issue}

find_live_missing :
    (id : String) (at : ℕ) (st : Store)
    → get id st.records ≡ none
    → (find_live id at st).1 ≡ throws not_found
unfolding find_live
find_live_missing id at st e = rw (e, find_live)

get-remove_record : (id : String) (st : Store) → get id (remove_record id st).records ≡ none
unfolding remove_record
get-remove_record id st = elim (Option-cases (get id st.records)) [
  | inl e ↦ rw (e, remove_record) e
  | inr (r, e) ↦ rw (e, remove_record) (get-delete_self id st.records)
]

-- What a result of `create` says of the store that it leaves.
abbrev Stored : ℕ → Store × Outcome BaselineRecord → Type 0
Stored now (st, throws e) = Unit
Stored now (st, ok r) =
    (get r.baseline_id st.records ≡ some r) × (r.expires_at_ms ≡ now + dom_baseline_ttl_ms)

create-Stored :
    (input : CreateInput) (now : ℕ) (st : Store) → IsOk st → Stored now (create input now st)
unfolding store_record
create-Stored input now st sound =
    let pruned = prune_expired-Shrinks now st sound in
    create_cases (Stored now) input now st (λ e h. tt)
      (λ scope h. rw (admit-issue input scope now _ pruned.sound (check_input-bytes input h)) (
        issue_cases (Stored now) input scope now _ _ (λ e k. tt)
          (λ id k. (get-put_self id _ _, refl))))

-- In a store with right accounts, a baseline that `create` returned, and whose id is not marked as
-- invalidated, is answered by `get` with the same record until five minutes have passed, and with
-- the error `expired` from then on.
pub create-get_record :
    (input : CreateInput) (now at : ℕ) (st st' : Store) (r : BaselineRecord)
    → IsOk st
    → create input now st ≡ (st', ok r)
    → get r.baseline_id st'.invalidated_records ≡ none
    → (get_record r.baseline_id at st').1
      ≡ (if ltb at (now + dom_baseline_ttl_ms) then ok r else throws expired)
unfolding get_record find_live
create-get_record input now at st st' r sound e unmarked =
    let (here, life) = subst (Stored now) e (create-Stored input now st sound) in
    rw (unmarked, get_record) (rw (here, find_live) (ground arith))

-- A released id is not found afterwards, whatever the store held under it.
pub release-get_record :
    (id : String) (at : ℕ) (st : Store) → (get_record id at (release id st).0).1 ≡ throws not_found
unfolding get_record release
release-get_record id at st =
    rw (get-delete_self id (remove_record id st).invalidated_records, get_record)
      (find_live_missing id at _ (get-remove_record id st))
