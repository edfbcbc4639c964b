-- ===== src/Prelude/JsMap.antt =====
-- JavaScript's `Map`: entries in the order of insertion. A write to a key that is present keeps its
-- place, and a new key goes last, so `keys().next()` is the oldest key.
use Prim.Native.Nat.{ℕ, zero, suc, ◌+◌, ◌-◌, ◌≤◌, ◌<◌}
use mathlib.Core.Path.{◌≡◌, sym, subst, refl}
use mathlib.Core.Bool.{Bool, true, false}
use mathlib.Core.Logic.{◌⊎◌, inl, inr}
use mathlib.Core.List.{List, [], ◌∷◌}
use mathlib.Core.Option.{Option, none, some}
use native.Mathlib.Omega.{arith}
use browser_bridge.Prelude.Tests.{ltb, if◌then◌else◌, is_some, Bool-cases}
use browser_bridge.Prelude.Lists.{length}
use browser_bridge.Prelude.Keys.{Key, ◌===◌}

abbrev pub JsMap {ℓ κ} : Type ℓ → Type κ → Type (ℓ ⊔ κ)
JsMap K V = List (K × V)

module _ {ℓ κ} {K : Type ℓ} {V : Type κ} where
  abbrev pub size : JsMap K V → ℕ
  size m = length m

  -- `[...m.values()]`
  abbrev pub values : JsMap K V → List V
  values [] = []
  values ((k, v) ∷ m) = v ∷ values m

pub eq_refl {ℓ} : {K : Type ℓ} ⦃e : Key K⦄ (k : K) → (k === k) ≡ true
eq_refl ⦃e⦄ k = (e.same_iff k k).1 refl

module _ {ℓ κ} {K : Type ℓ} ⦃e : Key K⦄ {V : Type κ} where
  unfoldable pub get : K → JsMap K V → Option V
  get k [] = none
  get k ((j, v) ∷ m) = if j === k then some v else get k m

  abbrev pub has : K → JsMap K V → Bool
  has k m = is_some (get k m)

  unfoldable pub put : K → V → JsMap K V → JsMap K V
  put k v [] = (k, v) ∷ []
  put k v ((j, w) ∷ m) = if j === k then (j, v) ∷ m else (j, w) ∷ put k v m

  unfoldable pub delete : K → JsMap K V → JsMap K V
  delete k [] = []
  delete k ((j, w) ∷ m) = if j === k then delete k m else (j, w) ∷ delete k m

  -- `for (const key of m.keys()) { m.delete(key); break; }`: the oldest entry goes.
  abbrev pub delete_oldest : JsMap K V → JsMap K V
  delete_oldest [] = []
  delete_oldest ((k, v) ∷ m) = delete k ((k, v) ∷ m)

  -- `while (m.size > limit) m.delete(m.keys().next().value)`, on fuel for each entry.
  unfoldable pub bound_oldest : ℕ → ℕ → JsMap K V → JsMap K V
  bound_oldest zero limit m = m
  bound_oldest (suc fuel) limit m =
      let rest = bound_oldest fuel limit (delete_oldest m) in if ltb limit (size m) then rest else m

  -- No key stands twice. Every map that the operations build is such.
  abbrev pub IsFresh : K → JsMap K V → Type 0
  IsFresh k m = has k m ≡ false

  abbrev pub Distinct : JsMap K V → Type 0
  Distinct [] = Unit
  Distinct ((k, v) ∷ m) = IsFresh k m × Distinct m

  pub get-put :
      (k j : K) (v : V) (m : JsMap K V) → get j (put k v m) ≡ (if k === j then some v else get j m)
  unfolding get put
  get-put k j v [] = refl
  get-put k j v ((i, w) ∷ m) =
      ground (arith, get-put k j v m, e.same_iff i k, e.same_iff i j, e.same_iff k j)

  pub get-put_self : (k : K) (v : V) (m : JsMap K V) → get k (put k v m) ≡ some v
  get-put_self k v m = rw (get-put, eq_refl k)

  -- What is found after a write is the value written or was there before.
  pub put_cases :
      (k j : K) (v w : V) (m : JsMap K V)
      → get j (put k v m) ≡ some w
      → ((k ≡ j) × (v ≡ w)) ⊎ (get j m ≡ some w)
  put_cases k j v w m h =
      let after = get-put k j v m in
      elim (Bool-cases (k === j)) [
        | inl same ↦ let here : v ≡ w = ground arith in inl ((e.same_iff k j).0 same, here)
        | inr other ↦ let there : get j m ≡ some w = ground arith in inr there
      ]

  pub get-delete :
      (k j : K) (m : JsMap K V) → get j (delete k m) ≡ (if k === j then none else get j m)
  unfolding get delete
  get-delete k j [] = ground arith
  get-delete k j ((i, w) ∷ m) =
      ground (arith, get-delete k j m, e.same_iff i k, e.same_iff i j, e.same_iff k j)

  pub get-delete_self : (k : K) (m : JsMap K V) → get k (delete k m) ≡ none
  get-delete_self k m = rw (get-delete, eq_refl k)

  pub delete_fresh : (k : K) (m : JsMap K V) → get k m ≡ none → delete k m ≡ m
  unfolding get delete
  delete_fresh k [] h = refl
  delete_fresh k ((j, w) ∷ m) h = ground (arith, delete_fresh k m)

  pub size-delete-le : (k : K) (m : JsMap K V) → size (delete k m) ≤ size m
  unfolding delete
  size-delete-le k [] = omega arith
  size-delete-le k ((j, w) ∷ m) = ground (arith, size-delete-le k m)

  pub size-delete-lt : (k : K) (m : JsMap K V) → has k m ≡ true → size (delete k m) < size m
  unfolding delete get
  size-delete-lt k [] h = ground arith
  size-delete-lt k ((j, w) ∷ m) h = ground (arith, size-delete-le k m, size-delete-lt k m)

  pub get_first : (k : K) (v : V) (m : JsMap K V) → get k ((k, v) ∷ m) ≡ some v
  unfolding get
  get_first k v m = rw (eq_refl k)

  pub has_first : (k : K) (v : V) (m : JsMap K V) → has k ((k, v) ∷ m) ≡ true
  unfolding get
  has_first k v m = rw (eq_refl k)

  pub size-put :
      (k : K) (v : V) (m : JsMap K V) → size (put k v m) ≡ (if has k m then size m else size m + 1)
  unfolding put get
  size-put k v [] = omega arith
  size-put k v ((j, w) ∷ m) = ground (arith, size-put k v m)

  pub size-put-le : (k : K) (v : V) (m : JsMap K V) → size (put k v m) ≤ size m + 1
  size-put-le k v m = ground (arith, size-put k v m)

  -- Overwriting a key that is present keeps the size.
  pub size-put_present :
      (k : K) (v : V) {w : V} (m : JsMap K V) → get k m ≡ some w → size (put k v m) ≡ size m
  size-put_present k v m h = ground (arith, size-put k v m)

  pub IsFresh-delete : (k : K) (m : JsMap K V) → IsFresh k (delete k m)
  IsFresh-delete k m = rw get-delete_self

  pub has-delete : (k j : K) (m : JsMap K V) → has j m ≡ false → has j (delete k m) ≡ false
  has-delete k j m h = ground (arith, get-delete k j m)

  pub delete-Distinct : (k : K) (m : JsMap K V) → Distinct m → Distinct (delete k m)
  unfolding delete
  delete-Distinct k [] d = tt
  delete-Distinct k ((j, w) ∷ m) d = ground (arith, delete-Distinct k m d.1, has-delete k j m d.0)

  pub put-Distinct : (k : K) (v : V) (m : JsMap K V) → Distinct m → Distinct (put k v m)
  unfolding put get
  put-Distinct k v [] d = (refl, tt)
  put-Distinct k v ((j, w) ∷ m) d =
      ground (arith, put-Distinct k v m d.1, get-put k j v m, e.same_iff j k, e.same_iff k j)

  -- The fuel of one round for each entry brings the map down to the limit.
  pub size-bound_oldest :
      (fuel limit : ℕ) (m : JsMap K V) → size m ≤ fuel → size (bound_oldest fuel limit m) ≤ limit
  unfolding bound_oldest
  size-bound_oldest zero limit m h = omega arith
  size-bound_oldest (suc fuel) limit [] h = ground arith
  size-bound_oldest (suc fuel) limit ((k, v) ∷ m) h =
      let here : has k ((k, v) ∷ m) ≡ true = has_first k v m in
      let less = size-delete-lt k ((k, v) ∷ m) here in
      ground (arith, size-bound_oldest fuel limit (delete k ((k, v) ∷ m)) (omega arith))

  -- With distinct keys a deletion takes away exactly one entry.
  pub size-delete :
      (k : K) (m : JsMap K V)
      → Distinct m
      → size (delete k m) ≡ (if has k m then size m - 1 else size m)
  unfolding delete get
  size-delete k [] d = refl
  size-delete k ((j, w) ∷ m) d =
      ground (arith, size-delete k m d.1, size-delete-lt k m, delete_fresh k m, e.same_iff j k)

-- A predicate on every entry.
module _ {ℓ κ μ} {K : Type ℓ} {V : Type κ} (P : K → V → Type μ) where
  abbrev pub Entries : JsMap K V → Type μ
  Entries [] = Unit
  Entries ((k, v) ∷ m) = P k v × Entries m

module _ {ℓ κ μ} {K : Type ℓ} ⦃e : Key K⦄ {V : Type κ} (P : K → V → Type μ) where
  pub get-Entries : (k : K) {v : V} (m : JsMap K V) → Entries P m → get k m ≡ some v → P k v
  unfolding get
  get-Entries k [] h g = cc
  get-Entries k {v} ((j, w) ∷ m) h g = elim (Bool-cases (j === k)) [
    | inl same ↦
        let here : w ≡ v = ground arith in
        subst (λ i. P i v) ((e.same_iff j k).0 same) (subst (P j) here h.0)
    | inr other ↦ let there : get k m ≡ some v = ground arith in get-Entries k m h.1 there
  ]

  pub put-Entries : (k : K) (v : V) (m : JsMap K V) → P k v → Entries P m → Entries P (put k v m)
  unfolding put
  put-Entries k v [] p h = (p, tt)
  put-Entries k v ((j, w) ∷ m) p h = elim (Bool-cases (j === k)) [
    | inl same ↦ rw same (subst (λ i. P i v) (sym ((e.same_iff j k).0 same)) p, h.1)
    | inr other ↦ rw other (h.0, put-Entries k v m p h.1)
  ]

  pub delete-Entries : (k : K) (m : JsMap K V) → Entries P m → Entries P (delete k m)
  unfolding delete
  delete-Entries k [] h = tt
  delete-Entries k ((j, w) ∷ m) h = elim (Bool-cases (j === k)) [
    | inl same ↦ rw same (delete-Entries k m h.1)
    | inr other ↦ rw other (h.0, delete-Entries k m h.1)
  ]
