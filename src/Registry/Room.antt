-- ===== src/Registry/Room.antt =====
-- The bound on the number of references, and the room that is made for a new one.
use browser_bridge.Prelude.{
  ℕ, zero, suc, ◌+◌, ◌-◌, ◌≤◌, ◌<◌, ◌≡◌, refl, subst, none, some, [], ◌∷◌, arith, leb, Bool-cases,
  Option-cases, inl, inr, Key, nat_key,
}
use browser_bridge.Prelude.JsMap.{
  JsMap, size, put, delete, size-delete-le, size-delete-lt, has_first, size-put-le,
  size-bound_oldest,
}
use browser_bridge.Registry.{
  Registry, Page, forget, first_entry, evict_oldest, make_room, prune_when_full, add_element, mint,
  delete_first, prune_registry, max_registry_size,
}

pub record IsBounded {E : Type 0} (st : Registry E) : Type 0 where
  pub references : size st.element_registry ≤ max_registry_size
  pub descriptors : size st.element_descriptors ≤ max_registry_size

module _ {E : Type 0} ⦃key : Key E⦄ where
  first_entry-delete :
      (ref : ℕ) (e : E) (m : JsMap ℕ E)
      → first_entry m ≡ some (ref, e)
      → size (delete ref m) < size m
  unfolding first_entry
  first_entry-delete ref e [] h = cc
  first_entry-delete ref e ((r, x) ∷ m) h =
      let less = size-delete-lt r ((r, x) ∷ m) (has_first r x m) in
      let same : r ≡ ref = ground arith in
      subst (λ k. size (delete k ((r, x) ∷ m)) < suc (size m)) same less

  first_entry-none : (m : JsMap ℕ E) → first_entry m ≡ none → size m ≡ 0
  unfolding first_entry
  first_entry-none [] h = refl
  first_entry-none ((r, x) ∷ m) h = cc

  evict_oldest-size :
      (st : Registry E)
      → 0 < size st.element_registry
      → size (evict_oldest st).element_registry < size st.element_registry
  unfolding evict_oldest forget
  evict_oldest-size st h = elim (Option-cases (first_entry st.element_registry)) [
    | inl e ↦ absurd (ground (arith, first_entry-none st.element_registry e))
    | inr ((ref, x), e) ↦
        let less = first_entry-delete ref x st.element_registry e in
        rw (e, evict_oldest, forget) less
  ]

  -- One round of eviction for each entry is enough to make room.
  make_room-size :
      (fuel : ℕ) (st : Registry E)
      → size st.element_registry ≤ fuel
      → size (make_room fuel st).element_registry < max_registry_size
  unfolding make_room
  make_room-size zero st h = omega arith
  make_room-size (suc fuel) st h =
      elim (Bool-cases (leb max_registry_size (size st.element_registry))) [
        | inl full ↦
            let more : 0 < size st.element_registry = ground arith in
            let less = evict_oldest-size st more in
            rw full (make_room-size fuel (evict_oldest st) (omega arith))
        | inr room ↦ rw room (ground arith)
      ]

  pub mint-IsBounded : (page : Page E) (e : E) (st : Registry E) → IsBounded (mint page e st).0
  unfolding mint add_element
  mint-IsBounded page e st =
      let pruned = prune_when_full page st in
      let room = make_room (size pruned.element_registry) pruned in
      let ref = room.element_ref_counter + 1 in
      let space = make_room-size (size pruned.element_registry) pruned (omega arith) in
      let grown = size-put-le ref e room.element_registry in
      record {
        references = omega arith;
        descriptors =
            size-bound_oldest _ max_registry_size
              (put ref (page.describe_element e) room.element_descriptors) (omega arith);
      }

  pub forget-IsBounded :
      (ref : ℕ) (e : E) (st : Registry E) → IsBounded st → IsBounded (forget ref e st)
  unfolding forget
  forget-IsBounded ref e st b = record {
    references = ground (arith, size-delete-le ref st.element_registry, b.references);
    descriptors = b.descriptors;
  }

module _ {K V : Type 0} ⦃key : Key K⦄ where
  size-delete_first : (n : ℕ) (m : JsMap K V) → size (delete_first n m) ≤ size m - n
  unfolding delete_first
  size-delete_first zero m = omega arith
  size-delete_first (suc n) [] =
      let none_left : JsMap K V = [] in let rest = size-delete_first n none_left in omega arith
  size-delete_first (suc n) ((k, v) ∷ m) =
      let less = size-delete-lt k ((k, v) ∷ m) (has_first k v m) in
      let rest = size-delete_first n (delete k ((k, v) ∷ m)) in omega arith

  -- `pruneRegistry` leaves room for one more entry below the limit, however full the map was.
  pub size-prune_registry :
      (m : JsMap K V) (max_size : ℕ) → 0 < max_size → size (prune_registry m max_size) < max_size
  unfolding prune_registry
  size-prune_registry m max_size h =
      let cut = size-delete_first (size m - max_size + 1) m in ground arith
