-- ===== src/Registry/Linked.antt =====
-- The registry's invariant: the two maps are inverse to each other, and no reference is above
-- the counter. Every step that only removes references keeps it.
use browser_bridge.Prelude.{
  ℕ, zero, suc, ◌≤◌, ◌<◌, ◌≡◌, refl, sym, ◌∙◌, true, some, [], ◌∷◌, arith, leb, eqb, Bool-cases,
  Option-cases, inl, inr, Key, nat_key,
}
use browser_bridge.Prelude.JsMap.{JsMap, size, get, delete, get-delete, eq_refl}
use browser_bridge.Registry.{
  Registry, Page, forget, next_entry, first_entry, prune_entries, prune_element_registry,
  evict_oldest, make_room, prune_when_full,
}

pub record IsLinked {E : Type 0} ⦃key : Key E⦄ (st : Registry E) : Type 0 where
  pub linked :
      (ref : ℕ) (e : E)
      → get ref st.element_registry ≡ some e
      → get e st.reverse_registry ≡ some ref
  pub named :
      (e : E) (ref : ℕ)
      → get e st.reverse_registry ≡ some ref
      → get ref st.element_registry ≡ some e
  pub bounded :
      (ref : ℕ) (e : E) → get ref st.element_registry ≡ some e → ref ≤ st.element_ref_counter

-- What a step that mints no reference does: the references that are left are old ones.
pub record Removes {E : Type 0} ⦃key : Key E⦄ (st st' : Registry E) : Type 0 where
  pub kept : IsLinked st'
  pub same_counter : st'.element_ref_counter ≡ st.element_ref_counter
  pub old :
      (ref : ℕ) (e : E)
      → get ref st'.element_registry ≡ some e
      → get ref st.element_registry ≡ some e

module _ {E : Type 0} ⦃key : Key E⦄ where
  pub Removes-refl : {st : Registry E} → IsLinked st → Removes st st
  Removes-refl ok = record { kept = ok; same_counter = refl; old = λ ref e h. h }

  pub Removes-trans : {a b c : Registry E} → Removes a b → Removes b c → Removes a c
  Removes-trans f g = record {
    kept = g.kept;
    same_counter = g.same_counter ∙ f.same_counter;
    old = λ ref e h. f.old ref e (g.old ref e h);
  }

  -- A step that leaves both maps and the counter alone.
  pub Removes-same :
      {a b : Registry E}
      → IsLinked a
      → b.element_registry ≡ a.element_registry
      → b.reverse_registry ≡ a.reverse_registry
      → b.element_ref_counter ≡ a.element_ref_counter
      → Removes a b
  Removes-same {a} {b} ok registry reverse counter =
      let back : (ref : ℕ) (e : E)
          → get ref b.element_registry ≡ some e
          → get ref a.element_registry ≡ some e =
        λ ref e h. rw (sym registry) h in
      record {
        kept = record {
          linked = λ ref e h. rw reverse (ok.linked ref e (back ref e h));
          named = λ e ref h. rw registry (ok.named e ref (rw (sym reverse) h));
          bounded = λ ref e h. rw counter (ok.bounded ref e (back ref e h));
        };
        same_counter = counter;
        old = back;
      }

  -- No element has two live references.
  pub IsLinked-unique :
      {st : Registry E} {ref ref' : ℕ} {e : E}
      → IsLinked st
      → get ref st.element_registry ≡ some e
      → get ref' st.element_registry ≡ some e
      → ref ≡ ref'
  IsLinked-unique ok h h' = let l = ok.linked _ _ h in let l' = ok.linked _ _ h' in ground arith

  get-delete_old :
      (k j : ℕ) {e : E} (m : JsMap ℕ E) → get j (delete k m) ≡ some e → get j m ≡ some e
  get-delete_old k j m h = ground (arith, get-delete k j m)

  forget-linked :
      (ref : ℕ) (e : E) (st : Registry E)
      → IsLinked st
      → get ref st.element_registry ≡ some e
      → (r : ℕ) (x : E) → get r (delete ref st.element_registry) ≡ some x
      → get x (delete e st.reverse_registry) ≡ some r
  forget-linked ref e st ok here r x h =
      let l = ok.linked r x (get-delete_old ref r st.element_registry h) in
      let l' = ok.linked ref e here in
      ground (
        arith,
        get-delete e x st.reverse_registry,
        get-delete ref r st.element_registry,
        key.same_iff e x,
        eq_refl ref,
      )

  forget-named :
      (ref : ℕ) (e : E) (st : Registry E)
      → IsLinked st
      → get ref st.element_registry ≡ some e
      → (x : E) (r : ℕ) → get x (delete e st.reverse_registry) ≡ some r
      → get r (delete ref st.element_registry) ≡ some x
  forget-named ref e st ok here x r h =
      let earlier : get x st.reverse_registry ≡ some r =
        ground (arith, get-delete e x st.reverse_registry) in
      let l = ok.named x r earlier in
      ground
        (arith, get-delete e x st.reverse_registry, get-delete ref r st.element_registry, eq_refl e)

  pub forget-Removes :
      (ref : ℕ) (e : E) (st : Registry E)
      → IsLinked st
      → get ref st.element_registry ≡ some e
      → Removes st (forget ref e st)
  unfolding forget
  forget-Removes ref e st ok here = record {
    kept = record {
      linked = forget-linked ref e st ok here;
      named = forget-named ref e st ok here;
      bounded = λ r x h. ok.bounded r x (get-delete_old ref r st.element_registry h);
    };
    same_counter = refl;
    old = λ r x h. get-delete_old ref r st.element_registry h;
  }

  -- The entry that an iterator gives is in the map.
  next_entry-get :
      (passed ref : ℕ) (e : E) (m : JsMap ℕ E)
      → next_entry passed m ≡ some (ref, e)
      → (get ref m ≡ some e) × (passed < ref)
  unfolding next_entry get
  next_entry-get passed ref e [] h = cc
  next_entry-get passed ref e ((r, x) ∷ m) h =
      ground (arith, next_entry-get passed ref e m, eq_refl r)

  pub prune_entries-Removes :
      (page : Page E) (batch passed : ℕ) (st : Registry E)
      → IsLinked st
      → Removes st (prune_entries page batch passed st)
  unfolding prune_entries
  prune_entries-Removes page zero passed st ok = Removes-same ok refl refl refl
  prune_entries-Removes page (suc batch) passed st ok =
      elim (Option-cases (next_entry passed st.element_registry)) [
        | inl e ↦ rw (e, prune_entries) (Removes-same ok refl refl refl)
        | inr ((ref, x), e) ↦
            let forgotten =
              forget-Removes ref x st ok (next_entry-get passed ref x st.element_registry e).0 in
            let marked = Removes-trans forgotten (
              Removes-same {b = record (forget ref x st) { registry_pruned = true }} forgotten.kept
                refl refl refl) in
            elim (Bool-cases (page.is_attached x)) [
              | inl stays ↦
                  rw (e, prune_entries) (rw stays (prune_entries-Removes page batch ref st ok))
              | inr gone ↦
                  rw (e, prune_entries)
                    (rw gone
                      (Removes-trans marked (prune_entries-Removes page batch ref _ marked.kept)))
            ]
      ]

  pub prune_element_registry-Removes :
      (page : Page E) (st : Registry E) → IsLinked st → Removes st (prune_element_registry page st)
  unfolding prune_element_registry
  prune_element_registry-Removes page st ok = elim (Bool-cases (eqb (size st.element_registry) 0)) [
    | inl e ↦ rw e (Removes-same ok refl refl refl)
    | inr e ↦ rw e (prune_entries-Removes page _ _ st ok)
  ]

  first_entry-get :
      (ref : ℕ) (e : E) (m : JsMap ℕ E) → first_entry m ≡ some (ref, e) → get ref m ≡ some e
  unfolding first_entry get
  first_entry-get ref e [] h = cc
  first_entry-get ref e ((r, x) ∷ m) h = ground (arith, eq_refl r)

  pub evict_oldest-Removes : (st : Registry E) → IsLinked st → Removes st (evict_oldest st)
  unfolding evict_oldest
  evict_oldest-Removes st ok = elim (Option-cases (first_entry st.element_registry)) [
    | inl e ↦ rw (e, evict_oldest) (Removes-refl ok)
    | inr ((ref, x), e) ↦
        let forgotten = forget-Removes ref x st ok (first_entry-get ref x st.element_registry e) in
        rw (e, evict_oldest) (Removes-trans forgotten (Removes-same forgotten.kept refl refl refl))
  ]

  pub make_room-Removes :
      (fuel : ℕ) (st : Registry E) → IsLinked st → Removes st (make_room fuel st)
  unfolding make_room
  make_room-Removes zero st ok = Removes-refl ok
  make_room-Removes (suc fuel) st ok =
      let first = evict_oldest-Removes st ok in
      elim (Bool-cases (leb 5000 (size st.element_registry))) [
        | inl e ↦ rw e (Removes-trans first (make_room-Removes fuel _ first.kept))
        | inr e ↦ rw e (Removes-refl ok)
      ]

  pub prune_when_full-Removes :
      (page : Page E) (st : Registry E) → IsLinked st → Removes st (prune_when_full page st)
  unfolding prune_when_full
  prune_when_full-Removes page st ok = elim (Bool-cases (leb 5000 (size st.element_registry))) [
    | inl e ↦ rw e (prune_element_registry-Removes page st ok)
    | inr e ↦ rw e (Removes-refl ok)
  ]
