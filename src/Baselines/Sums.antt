-- ===== src/Baselines/Sums.antt =====
-- Sums over the records of the store, and the list of records that an eviction walks through.
use browser_bridge.Prelude.{
  ℕ, ◌+◌, ◌≡◌, refl, ap, ◌∙◌, Bool, none, some, List, [], ◌∷◌, String, arith, if◌then◌else◌, length,
  filter, Bool-cases, inl, inr, ◌===◌, string_key,
}
use browser_bridge.Prelude.JsMap.{JsMap, size, values, get, put, delete, delete_fresh, Distinct}
use browser_bridge.Baselines.{
  BaselineRecord, is_older, insert_by_age, sort_by_age, oldest_records, sum_bytes, Store,
}

abbrev pub Records : Type 0
Records = JsMap String BaselineRecord

-- What is added up of each record: its bytes, one, or these for the records of one tab.
abbrev pub Weight : Type 0
Weight = BaselineRecord → ℕ

abbrev pub bytes_of : Weight
bytes_of r = r.bytes

abbrev pub one : Weight
one r = 1

abbrev pub on : (BaselineRecord → Bool) → Weight → Weight
on p w r = if p r then w r else 0

unfoldable pub sum_by : Weight → Records → ℕ
sum_by w [] = 0
sum_by w ((k, r) ∷ m) = w r + sum_by w m

unfoldable pub sum_of : Weight → List BaselineRecord → ℕ
sum_of w [] = 0
sum_of w (r ∷ rs) = w r + sum_of w rs

pub size-sum_by : (m : Records) → size m ≡ sum_by one m
unfolding sum_by
size-sum_by [] = refl
size-sum_by ((k, r) ∷ m) = omega (arith, size-sum_by m)

pub length-sum_of : (l : List BaselineRecord) → length l ≡ sum_of one l
unfolding sum_of
length-sum_of [] = refl
length-sum_of (r ∷ l) = omega (arith, length-sum_of l)

pub sum_bytes-sum_of : (l : List BaselineRecord) → sum_bytes l ≡ sum_of bytes_of l
unfolding sum_of
sum_bytes-sum_of [] = refl
sum_bytes-sum_of (r ∷ l) = omega (arith, sum_bytes-sum_of l)

-- A deletion takes the weight of the record away.
pub sum_by-delete :
    (w : Weight) (k : String) (m : Records) {r : BaselineRecord}
    → Distinct m
    → get k m ≡ some r
    → sum_by w (delete k m) + w r ≡ sum_by w m
unfolding sum_by delete get
sum_by-delete w k [] d g = cc
sum_by-delete w k ((j, x) ∷ m) {r} d g = elim (Bool-cases (j === k)) [
  | inl same ↦
      let here : x ≡ r = ground arith in
      let fresh : get k m ≡ none = ground (arith, string_key.same_iff j k) in
      rw (same, delete_fresh k m fresh) (omega (arith, ap w here))
  | inr other ↦
      let there : get k m ≡ some r = ground arith in
      rw other (omega (arith, sum_by-delete w k m d.1 there))
]

pub sum_by-put :
    (w : Weight) (k : String) (r : BaselineRecord) (m : Records)
    → get k m ≡ none
    → sum_by w (put k r m) ≡ sum_by w m + w r
unfolding sum_by put get
sum_by-put w k r [] g = omega arith
sum_by-put w k r ((j, x) ∷ m) g = elim (Bool-cases (j === k)) [
  | inl same ↦ absurd (ground arith)
  | inr other ↦
      let there : get k m ≡ none = ground arith in
      rw other (omega (arith, sum_by-put w k r m there))
]

sum_of-insert :
    (w : Weight) (r : BaselineRecord) (l : List BaselineRecord)
    → sum_of w (insert_by_age r l) ≡ w r + sum_of w l
unfolding sum_of insert_by_age
sum_of-insert w r [] = refl
sum_of-insert w r (x ∷ l) = elim (Bool-cases (is_older r x)) [
  | inl first ↦ rw first refl
  | inr later ↦ rw later (omega (arith, sum_of-insert w r l))
]

sum_of-sort : (w : Weight) (l : List BaselineRecord) → sum_of w (sort_by_age l) ≡ sum_of w l
unfolding sum_of sort_by_age
sum_of-sort w [] = refl
sum_of-sort w (r ∷ l) = omega (arith, sum_of-insert w r (sort_by_age l), sum_of-sort w l)

sum_of-filter :
    (w : Weight) (p : BaselineRecord → Bool) (m : Records)
    → sum_of w (filter p (values m)) ≡ sum_by (on p w) m
unfolding sum_of sum_by
sum_of-filter w p [] = refl
sum_of-filter w p ((k, r) ∷ m) = ground (arith, sum_of-filter w p m)

-- The list that an eviction walks through weighs what its records weigh in the store.
pub sum_of-oldest :
    (w : Weight) (p : BaselineRecord → Bool) (st : Store)
    → sum_of w (oldest_records p st) ≡ sum_by (on p w) st.records
unfolding oldest_records
sum_of-oldest w p st = sum_of-sort w (filter p (values st.records)) ∙ sum_of-filter w p st.records
