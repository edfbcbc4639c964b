-- ===== src/Baselines/Invariant.antt =====
-- The accounts of the store: ids are keys, no id twice, and `totalBytes` is the sum of the bytes.
use browser_bridge.Prelude.{
  ℕ, ◌+◌, ◌-◌, ◌≤◌, ◌≡◌, refl, sym, ap, subst, ◌∙◌, Bool, false, some, [], ◌∷◌, String, arith, leb,
  Bool-cases, Option-cases, inl, inr, string_key,
}
use browser_bridge.Prelude.JsMap.{
  get, has, delete, get-delete, Distinct, Entries, delete-Distinct, delete-Entries,
}
use browser_bridge.Baselines.{
  BaselineRecord, Store, remove_record, clear_entries, clear_matching, prune_expired,
  drop_invalidated,
}
use browser_bridge.Baselines.Sums.{Records, Weight, sum_by, bytes_of, sum_by-delete}
use browser_bridge.Baselines.Walks.{Named}

pub record IsOk (st : Store) : Type 0 where
  pub distinct : Distinct st.records
  pub named : Entries Named st.records
  pub accounted : st.total_bytes ≡ sum_by bytes_of st.records

-- An operation that only takes records away: the accounts stay right and no sum grows.
pub record Shrinks (st st' : Store) : Type 0 where
  pub sound : IsOk st'
  pub smaller : (w : Weight) → sum_by w st'.records ≤ sum_by w st.records

pub Shrinks-refl : {st : Store} → IsOk st → Shrinks st st
Shrinks-refl ok = record { sound = ok; smaller = λ w. omega arith }

pub Shrinks-trans : {st st' st'' : Store} → Shrinks st st' → Shrinks st' st'' → Shrinks st st''
Shrinks-trans a b = record {
  sound = b.sound;
  smaller = λ w. omega (arith, a.smaller w, b.smaller w);
}

-- Other fields than the records and the total do not matter.
pub IsOk-same :
    {st st' : Store}
    → IsOk st
    → st'.records ≡ st.records
    → st'.total_bytes ≡ st.total_bytes
    → IsOk st'
IsOk-same ok e t = record {
  distinct = subst Distinct (sym e) ok.distinct;
  named = subst (Entries Named) (sym e) ok.named;
  accounted = t ∙ ok.accounted ∙ ap (sum_by bytes_of) (sym e);
}

pub Shrinks-same :
    {st st' : Store}
    → IsOk st
    → st'.records ≡ st.records
    → st'.total_bytes ≡ st.total_bytes
    → Shrinks st st'
Shrinks-same ok e t = record {
  sound = IsOk-same ok e t;
  smaller = λ w. omega (arith, ap (sum_by w) e);
}

removed-Shrinks :
    (id : String) (st : Store) {r : BaselineRecord}
    → IsOk st
    → get id st.records ≡ some r
    → Shrinks st
        (record st { records = delete id st.records; total_bytes = st.total_bytes - r.bytes })
removed-Shrinks id st {r} ok e = record {
  sound = record {
    distinct = delete-Distinct id st.records ok.distinct;
    named = delete-Entries Named id st.records ok.named;
    accounted = omega (arith, ok.accounted, sum_by-delete bytes_of id st.records ok.distinct e);
  };
  smaller = λ w. omega (arith, sum_by-delete w id st.records ok.distinct e);
}

pub remove_record-Shrinks : (id : String) (st : Store) → IsOk st → Shrinks st (remove_record id st)
unfolding remove_record
remove_record-Shrinks id st ok = elim (Option-cases (get id st.records)) [
  | inl e ↦ rw (e, remove_record) (Shrinks-refl ok)
  | inr (r, e) ↦ rw (e, remove_record) (removed-Shrinks id st ok e)
]

-- Entries that are all in the store.
abbrev pub Present : Records → Records → Type 0
Present m l = Entries (λ k r. get k m ≡ some r) l

Present-delete :
    (id : String) (m l : Records) → has id l ≡ false → Present m l → Present (delete id m) l
unfolding get
Present-delete id m [] h p = tt
Present-delete id m ((k, r) ∷ l) h p = (
  ground (arith, get-delete id k m, string_key.same_iff id k, string_key.same_iff k id),
  Present-delete id m l (ground arith) p.1,
)

Present-cons :
    (id : String) (x : BaselineRecord) (m l : Records)
    → has id l ≡ false
    → Present m l
    → Present ((id, x) ∷ m) l
unfolding get
Present-cons id x m [] h p = tt
Present-cons id x m ((k, r) ∷ l) h p = (
  ground (arith, string_key.same_iff id k, string_key.same_iff k id),
  Present-cons id x m l (ground arith) p.1,
)

Present-self : (m : Records) → Distinct m → Present m m
unfolding get
Present-self [] d = tt
Present-self ((k, r) ∷ m) d =
    (ground (arith, string_key.same_iff k k), Present-cons k r m m d.0 (Present-self m d.1))

clear_entries-Shrinks :
    (matches : BaselineRecord → Bool) (l : Records) (st : Store) (count bytes : ℕ)
    → IsOk st
    → Distinct l
    → Present st.records l
    → Shrinks st (clear_entries matches l st count bytes).store
unfolding clear_entries
clear_entries-Shrinks matches [] st count bytes ok d p = Shrinks-refl ok
clear_entries-Shrinks matches ((id, r) ∷ l) st count bytes ok d p =
    let next : Store = record st {
      records = delete id st.records;
      total_bytes = st.total_bytes - r.bytes;
    } in
    let first = removed-Shrinks id st ok p.0 in
    elim (Bool-cases (matches r)) [
      | inl hit ↦ rw hit (
          Shrinks-trans first (
            clear_entries-Shrinks matches l
              (record st { records = delete id st.records; total_bytes = st.total_bytes - r.bytes })
              (count + 1) (bytes + r.bytes) first.sound d.1
              (Present-delete id st.records l d.0 p.1)))
      | inr miss ↦ rw miss (clear_entries-Shrinks matches l st count bytes ok d.1 p.1)
    ]

pub clear_matching-Shrinks :
    (matches : BaselineRecord → Bool) (st : Store)
    → IsOk st
    → Shrinks st (clear_matching matches st).store
unfolding clear_matching
clear_matching-Shrinks matches st ok =
    clear_entries-Shrinks matches st.records st 0 0 ok ok.distinct
      (Present-self st.records ok.distinct)

pub prune_expired-Shrinks : (at : ℕ) (st : Store) → IsOk st → Shrinks st (prune_expired at st).store
unfolding prune_expired
prune_expired-Shrinks at st ok =
    let same =
      Shrinks-same {st = st}
        {st' = record st {
          invalidated_records =
              drop_invalidated (λ r. leb r.expires_at_ms at) st.invalidated_records;
        }}
        ok refl refl in
    Shrinks-trans same (clear_matching-Shrinks _ _ same.sound)
