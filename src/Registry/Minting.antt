-- ===== src/Registry/Minting.antt =====
-- A new reference goes to an element that has none, and every call extends the registry.
use browser_bridge.Prelude.{
  ℕ, ◌+◌, ◌≤◌, ◌<◌, ◌≡◌, ◌≢◌, sym, true, none, some, arith, Option-cases, inl, inr, Key, nat_key,
}
use browser_bridge.Prelude.JsMap.{size, get, has, put, get-put, put_cases, get-put_self}
use browser_bridge.Registry.{
  Registry, Page, make_room, prune_when_full, add_element, remember_element, mint,
}
use browser_bridge.Registry.Linked.{
  IsLinked, Removes, Removes-refl, Removes-trans, make_room-Removes, prune_when_full-Removes,
}
use browser_bridge.Registry.Room.{IsBounded, mint-IsBounded}

-- What every call does: references as old as the counter keep their element or disappear.
pub record Extends {E : Type 0} ⦃key : Key E⦄ (st st' : Registry E) : Type 0 where
  pub kept : IsLinked st'
  pub counter : st.element_ref_counter ≤ st'.element_ref_counter
  pub old :
      (ref : ℕ) (e : E)
      → ref ≤ st.element_ref_counter
      → get ref st'.element_registry ≡ some e
      → get ref st.element_registry ≡ some e

module _ {E : Type 0} ⦃key : Key E⦄ where
  pub Removes-Extends : {a b : Registry E} → Removes a b → Extends a b
  Removes-Extends {a} {b} f = record {
    kept = f.kept;
    counter = ground (arith, f.same_counter);
    old = λ ref e h g. f.old ref e g;
  }

  pub Extends-trans : {a b c : Registry E} → Extends a b → Extends b c → Extends a c
  Extends-trans {a} {b} {c} f g =
      let mono : a.element_ref_counter ≤ c.element_ref_counter =
        ground (arith, f.counter, g.counter) in
      record {
        kept = g.kept;
        counter = mono;
        old = λ ref e h k. f.old ref e h (g.old ref e (ground (arith, f.counter)) k);
      }

  -- The element has no live reference.
  abbrev pub IsUnnamed : E → Registry E → Type 0
  IsUnnamed e st = (ref : ℕ) → get ref st.element_registry ≢ some e

  add_element-linked :
      (ref : ℕ) (e : E) (st : Registry E)
      → IsLinked st
      → IsUnnamed e st
      → (r : ℕ) (x : E) → get r (put ref e st.element_registry) ≡ some x
      → get x (put e ref st.reverse_registry) ≡ some r
  add_element-linked ref e st ok unnamed r x h = elim (put_cases ref r e x st.element_registry h) [
    | inl (a, b) ↦ rw (sym a, sym b) (get-put_self e ref st.reverse_registry)
    | inr before ↦
        let l = ok.linked r x before in
        let u = unnamed r in ground (arith, get-put e x ref st.reverse_registry, key.same_iff e x)
  ]

  add_element-named :
      (ref : ℕ) (e : E) (st : Registry E)
      → IsLinked st
      → st.element_ref_counter < ref
      → (x : E) (r : ℕ) → get x (put e ref st.reverse_registry) ≡ some r
      → get r (put ref e st.element_registry) ≡ some x
  add_element-named ref e st ok fresh x r h = elim (put_cases e x ref r st.reverse_registry h) [
    | inl (a, b) ↦ rw (sym a, sym b) (get-put_self ref e st.element_registry)
    | inr before ↦
        let l = ok.named x r before in
        let u = ok.bounded r x l in ground (arith, get-put ref r e st.element_registry)
  ]

  pub add_element-Extends :
      (page : Page E) (e : E) (st : Registry E)
      → IsLinked st
      → IsUnnamed e st
      → Extends st (add_element page e st).0
  unfolding add_element
  add_element-Extends page e st ok unnamed = record {
    kept = record {
      linked = add_element-linked (st.element_ref_counter + 1) e st ok unnamed;
      named = add_element-named (st.element_ref_counter + 1) e st ok (omega arith);
      bounded = λ r x h. elim (put_cases (st.element_ref_counter + 1) r e x st.element_registry h) [
        | inl (a, b) ↦ omega arith
        | inr before ↦ let l = ok.bounded r x before in omega arith
      ];
    };
    counter = omega arith;
    old = λ r x le h. elim (put_cases (st.element_ref_counter + 1) r e x st.element_registry h) [
      | inl (a, b) ↦ absurd (omega arith)
      | inr before ↦ before
    ];
  }

  pub mint-Extends :
      (page : Page E) (e : E) (st : Registry E)
      → IsLinked st
      → IsUnnamed e st
      → Extends st (mint page e st).0
  unfolding mint
  mint-Extends page e st ok unnamed =
      let pruned = prune_when_full-Removes page st ok in
      let room = Removes-trans pruned (
        make_room-Removes (size (prune_when_full page st).element_registry)
          (prune_when_full page st) pruned.kept) in
      Extends-trans (Removes-Extends room) (
        add_element-Extends page e
          (make_room (size (prune_when_full page st).element_registry) (prune_when_full page st))
          room.kept (λ ref h. unnamed ref (room.old ref e h)))

  mint-get :
      (page : Page E) (e : E) (st : Registry E)
      → get (mint page e st).1 (mint page e st).0.element_registry ≡ some e
  unfolding mint add_element
  mint-get page e st = get-put_self _ e _

  get-IsUnnamed :
      (e : E) (st : Registry E) → IsLinked st → get e st.reverse_registry ≡ none → IsUnnamed e st
  get-IsUnnamed e st ok none_named ref h = ground (arith, ok.linked ref e h)

  -- The two ways of `rememberElement`: the live reference again, or a new one.
  pub remember_cases {ℓ} :
      (P : Registry E × ℕ → Type ℓ) (page : Page E) (e : E) (st : Registry E)
      → IsLinked st
      → ((ref : ℕ) → get ref st.element_registry ≡ some e → P (st, ref))
      → (IsUnnamed e st → P (mint page e st))
      → P (remember_element page e st)
  unfolding remember_element
  remember_cases P page e st ok again new = elim (Option-cases (get e st.reverse_registry)) [
    | inl gone ↦ rw (gone, remember_element) (new (get-IsUnnamed e st ok gone))
    | inr (ref, known) ↦
        let live = ok.named e ref known in
        let here : has ref st.element_registry ≡ true = ground arith in
        rw (known, remember_element) (rw here (again ref live))
  ]

  pub remember_element-Extends :
      (page : Page E) (e : E) (st : Registry E)
      → IsLinked st
      → Extends st (remember_element page e st).0
  remember_element-Extends page e st ok =
      remember_cases (λ o. Extends st o.0) page e st ok (λ ref h. Removes-Extends (Removes-refl ok))
        (λ unnamed. mint-Extends page e st ok unnamed)

  pub remember_element-get :
      (page : Page E) (e : E) (st : Registry E)
      → IsLinked st
      → get (remember_element page e st).1 (remember_element page e st).0.element_registry ≡ some e
  remember_element-get page e st ok =
      remember_cases (λ o. get o.1 o.0.element_registry ≡ some e) page e st ok (λ ref h. h)
        (λ unnamed. mint-get page e st)

  pub remember_element-IsBounded :
      (page : Page E) (e : E) (st : Registry E)
      → IsLinked st
      → IsBounded st
      → IsBounded (remember_element page e st).0
  remember_element-IsBounded page e st ok b =
      remember_cases (λ o. IsBounded o.0) page e st ok (λ ref h. b)
        (λ unnamed. mint-IsBounded page e st)
