-- ===== src/Baselines/Walks.antt =====
-- The list of records that an eviction walks through.
use browser_bridge.Prelude.{
  ◌≡◌, ◌≢◌, sym, subst, Bool, true, false, some, List, [], ◌∷◌, String, arith, filter, Each,
  Each-filter, filter-Each, Bool-cases, inl, inr, string_key,
}
use browser_bridge.Prelude.JsMap.{values, get, has, delete, get-delete, Distinct, Entries}
use browser_bridge.Baselines.{
  BaselineRecord, is_older, insert_by_age, sort_by_age, oldest_records, Store,
}
use browser_bridge.Baselines.Sums.{Records}

-- No record of the list has this id; no id stands twice; each record is in the store; each passes.
abbrev pub Without : String → List BaselineRecord → Type 0
Without id l = Each (λ r. r.baseline_id ≢ id) l

abbrev pub Unique : List BaselineRecord → Type 0
Unique [] = Unit
Unique (r ∷ l) = Without r.baseline_id l × Unique l

abbrev pub Found : Records → List BaselineRecord → Type 0
Found m l = Each (λ r. get r.baseline_id m ≡ some r) l

abbrev pub Passes : (BaselineRecord → Bool) → List BaselineRecord → Type 0
Passes p l = Each (λ r. p r ≡ true) l

abbrev pub Named : String → BaselineRecord → Type 0
Named k r = r.baseline_id ≡ k

values-Without :
    (k : String) (m : Records) → has k m ≡ false → Entries Named m → Without k (values m)
unfolding get
values-Without k [] h n = tt
values-Without k ((j, r) ∷ m) h n =
    (ground (arith, string_key.same_iff j k), values-Without k m (ground arith) n.1)

values-Unique : (m : Records) → Distinct m → Entries Named m → Unique (values m)
values-Unique [] d n = tt
values-Unique ((k, r) ∷ m) d n = (
  subst (λ i. Without i (values m)) (sym n.0) (values-Without k m d.0 n.1),
  values-Unique m d.1 n.1,
)

Found-cons :
    (k : String) (r : BaselineRecord) (m : Records) (l : List BaselineRecord)
    → Without k l
    → Found m l
    → Found ((k, r) ∷ m) l
unfolding get
Found-cons k r m [] h f = tt
Found-cons k r m (x ∷ l) h f =
    (ground (arith, string_key.same_iff k x.baseline_id), Found-cons k r m l h.1 f.1)

values-Found : (m : Records) → Distinct m → Entries Named m → Found m (values m)
unfolding get
values-Found [] d n = tt
values-Found ((k, r) ∷ m) d n = (
  ground (arith, string_key.same_iff k r.baseline_id),
  Found-cons k r m (values m) (values-Without k m d.0 n.1) (values-Found m d.1 n.1),
)

filter-Unique :
    (p : BaselineRecord → Bool) (l : List BaselineRecord) → Unique l → Unique (filter p l)
filter-Unique p [] u = tt
filter-Unique p (r ∷ l) u = ground (
  arith,
  filter-Unique p l u.1,
  Each-filter (λ (x : BaselineRecord). x.baseline_id ≢ r.baseline_id) p l u.0,
)

-- What holds of each entry holds after a sort.
insert-Each :
    (P : BaselineRecord → Type 0) (r : BaselineRecord) (l : List BaselineRecord)
    → P r
    → Each P l
    → Each P (insert_by_age r l)
unfolding insert_by_age
insert-Each P r [] p h = (p, tt)
insert-Each P r (x ∷ l) p h = elim (Bool-cases (is_older r x)) [
  | inl first ↦ rw first (p, h)
  | inr later ↦ rw later (h.0, insert-Each P r l p h.1)
]

sort-Each :
    (P : BaselineRecord → Type 0) (l : List BaselineRecord) → Each P l → Each P (sort_by_age l)
unfolding sort_by_age
sort-Each P [] h = tt
sort-Each P (r ∷ l) h = insert-Each P r (sort_by_age l) h.0 (sort-Each P l h.1)

insert-Unique :
    (r : BaselineRecord) (l : List BaselineRecord)
    → Without r.baseline_id l
    → Unique l
    → Unique (insert_by_age r l)
unfolding insert_by_age
insert-Unique r [] h u = (tt, tt)
insert-Unique r (x ∷ l) h u = elim (Bool-cases (is_older r x)) [
  | inl first ↦ rw first (h, u)
  | inr later ↦ rw later (
    insert-Each (λ y. y.baseline_id ≢ x.baseline_id) r l (λ e. h.0 (sym e)) u.0,
    insert-Unique r l h.1 u.1,
  )
]

sort-Unique : (l : List BaselineRecord) → Unique l → Unique (sort_by_age l)
unfolding sort_by_age
sort-Unique [] u = tt
sort-Unique (r ∷ l) u =
    insert-Unique r (sort_by_age l) (sort-Each (λ x. x.baseline_id ≢ r.baseline_id) l u.0)
      (sort-Unique l u.1)

-- The records that an eviction walks through: each is in the store, once, and passes the test.
pub record IsWalk (p : BaselineRecord → Bool) (m : Records) (l : List BaselineRecord) : Type 0 where
  pub unique : Unique l
  pub found : Found m l
  pub passing : Passes p l

pub oldest-IsWalk :
    (p : BaselineRecord → Bool) (st : Store)
    → Distinct st.records
    → Entries Named st.records
    → IsWalk p st.records (oldest_records p st)
unfolding oldest_records
oldest-IsWalk p st d n = record {
  unique = sort-Unique _ (filter-Unique p _ (values-Unique st.records d n));
  found = sort-Each _ _ (Each-filter _ p _ (values-Found st.records d n));
  passing = sort-Each _ _ (filter-Each p (values st.records));
}

Found-delete :
    (id : String) (m : Records) (l : List BaselineRecord)
    → Without id l
    → Found m l
    → Found (delete id m) l
Found-delete id m [] h f = tt
Found-delete id m (r ∷ l) h f = (
  ground (arith, get-delete id r.baseline_id m, string_key.same_iff id r.baseline_id, h.0),
  Found-delete id m l h.1 f.1,
)

-- Removing the first record leaves a walk through the rest.
pub IsWalk-rest :
    {p : BaselineRecord → Bool} (m : Records) (r : BaselineRecord) (l : List BaselineRecord)
    → IsWalk p m (r ∷ l)
    → IsWalk p (delete r.baseline_id m) l
IsWalk-rest m r l w = record {
  unique = w.unique.1;
  found = Found-delete r.baseline_id m l w.unique.0 w.found.1;
  passing = w.passing.1;
}
