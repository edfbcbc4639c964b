-- ===== src/Registry/Resolving.antt =====
-- What a reference resolves to through `resolveInputReference`, and when.
use browser_bridge.Prelude.{
  ℕ, ◌≡◌, refl, sym, Bool, true, false, none, some, List, [], ◌∷◌, arith, ltb, eqb, length, filter,
  Bool-cases, Option-cases, inl, inr, Key, nat_key, string_key,
}
use browser_bridge.Prelude.JsMap.{get}
use browser_bridge.Registry.{
  Registry, Page, Resolution, Recovery, ElementDescriptor, forget, remember_element, recover_match,
  recover, recover_stale, resolve_input_reference, matching_candidates,
  get_strong_descriptor_fields, max_stale_recovery_candidates, resolved, descriptor_matches,
}
use browser_bridge.Registry.Linked.{IsLinked, forget-Removes}
use browser_bridge.Registry.Recovering.{CanRecover, is_stale, recover_stale-Justified}

module _ {E : Type 0} ⦃key : Key E⦄ where
  -- A live reference to an attached element, or the recovery with the descriptors as they were.
  resolve_cases {ℓ} :
      (P : Registry E × Resolution E → Type ℓ) (page : Page E) (ref : ℕ) (recovers : Bool)
      (st : Registry E)
      → IsLinked st
      → ((x : E) → is_stale page ref st ≡ false → P (st, resolved x none))
      → (is_stale page ref st ≡ true
          → (st' : Registry E) → IsLinked st'
          → st'.element_descriptors ≡ st.element_descriptors
          → P (recover_stale page ref recovers st'))
      → P (resolve_input_reference page ref recovers st)
  unfolding resolve_input_reference is_stale forget
  resolve_cases P page ref recovers st ok live stale =
      elim (Option-cases (get ref st.element_registry)) [
        | inl e ↦ rw (e, resolve_input_reference) (stale (rw (e, is_stale) refl) st ok refl)
        | inr (x, e) ↦ elim (Bool-cases (page.is_attached x)) [
          | inl stays ↦
              rw (e, resolve_input_reference) (rw stays (live x (rw (e, is_stale) (rw stays refl))))
          | inr gone ↦
              rw (e, resolve_input_reference)
                (rw gone (
                  stale (rw (e, is_stale) (rw gone refl)) (forget ref x st)
                    (forget-Removes ref x st ok e).kept refl))
        ]
      ]

  same_descriptors :
      (page : Page E) (ref : ℕ) (e : E) (st st' : Registry E)
      → st'.element_descriptors ≡ st.element_descriptors
      → CanRecover page st' ref e
      → CanRecover page st ref e
  same_descriptors page ref e st st' same can = record {
    descriptor = can.descriptor;
    stored = rw (sym same) can.stored;
    same_url = can.same_url;
    all_scanned = can.all_scanned;
    only_match = can.only_match;
  }

  filter-first : (p : E → Bool) (l : List E) (e : E) → filter p l ≡ e ∷ [] → p e ≡ true
  filter-first p [] e h = cc
  filter-first p (x ∷ l) e h = elim (Bool-cases (p x)) [
    | inl yes_x ↦ let same : x ≡ e = ground arith in rw (sym same) yes_x
    | inr no_x ↦ let rest : filter p l ≡ e ∷ [] = ground arith in filter-first p l e rest
  ]

  -- In a registry whose two maps are inverse to each other, `resolveInputReference` returns a
  -- recovered element only if the reference is stale, its stored descriptor is from the same non-
  -- empty URL, at most 100 candidates were there, and the element is the only one of them that
  -- matches; the new reference then names that element, and the reported old one is the stale one.
  pub resolve_input_reference-CanRecover :
      (page : Page E) (ref : ℕ) (recovers : Bool) (st : Registry E) (e : E) (r : Recovery)
      → IsLinked st
      → (resolve_input_reference page ref recovers st).1 ≡ resolved e (some r)
      → (is_stale page ref st ≡ true)
        × CanRecover page st ref e
        × (get r.new_ref (resolve_input_reference page ref recovers st).0.element_registry ≡ some e)
        × (r.old_ref ≡ ref)
  resolve_input_reference-CanRecover page ref recovers st e r ok h =
      let answer =
        resolve_cases
          (λ o.
            o.1 ≡ resolved e (some r)
            → (is_stale page ref st ≡ true)
              × CanRecover page st ref e
              × (get r.new_ref o.0.element_registry ≡ some e)
              × (r.old_ref ≡ ref))
          page ref recovers st ok (λ x fresh k. cc)
          (λ stale st' ok' same k.
            let (can, live, old) = recover_stale-Justified page ref recovers st' ok' e r k in
            (stale, same_descriptors page ref e st st' same can, live, old)) in
      answer h

  -- A reference to an attached element resolves to it without recovery, and changes nothing.
  pub resolve_input_reference-attached :
      (page : Page E) (ref : ℕ) (recovers : Bool) (st : Registry E) (e : E)
      → get ref st.element_registry ≡ some e
      → page.is_attached e ≡ true
      → resolve_input_reference page ref recovers st ≡ (st, resolved e none)
  unfolding resolve_input_reference
  resolve_input_reference-attached page ref recovers st e here attached =
      rw (here, resolve_input_reference) (rw attached refl)

  -- Only a descriptor with strong fields matches at all.
  matching_candidates-strong :
      (page : Page E) (d : ElementDescriptor) (e : E)
      → matching_candidates page d ≡ e ∷ []
      → eqb (length (get_strong_descriptor_fields d)) 0 ≡ false
  unfolding matching_candidates descriptor_matches
  matching_candidates-strong page d e only =
      let matched = filter-first _ (page.query_all d.tag) e only in ground (arith, matched)

  recover-CanRecover :
      (page : Page E) (ref : ℕ) (e : E) (st : Registry E)
      → CanRecover page st ref e
      → (r : Recovery) × ((recover_stale page ref true st).1 ≡ resolved e (some r))
  unfolding recover_stale recover recover_match
  recover-CanRecover page ref e st can =
      let d = can.descriptor in
      let strong = matching_candidates-strong page d e can.only_match in
      let few : ltb max_stale_recovery_candidates (length (page.query_all d.tag)) ≡ false =
        ground (arith, can.all_scanned) in
      (
        record {
          old_ref = ref;
          new_ref = (remember_element page e st).1;
          matched_fields = get_strong_descriptor_fields d;
        },
        rw (can.stored, recover_stale) (rw (can.same_url, strong, few, can.only_match) refl),
      )

  -- In such a registry, a stale reference with a stored descriptor from the same non-empty URL, of
  -- whose at most 100 candidates exactly one matches, is recovered as that one when recovery is
  -- asked for.
  pub CanRecover-resolve_input_reference :
      (page : Page E) (ref : ℕ) (st : Registry E) (e : E)
      → IsLinked st
      → is_stale page ref st ≡ true
      → CanRecover page st ref e
      → (r : Recovery) × ((resolve_input_reference page ref true st).1 ≡ resolved e (some r))
  CanRecover-resolve_input_reference page ref st e ok stale can =
      resolve_cases (λ o. (r : Recovery) × (o.1 ≡ resolved e (some r))) page ref true st ok
        (λ x fresh. cc)
        (λ was st' ok' same.
          recover-CanRecover page ref e st' (same_descriptors page ref e st' st (sym same) can))
