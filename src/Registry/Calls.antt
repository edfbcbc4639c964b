-- ===== src/Registry/Calls.antt =====
-- Every call of the registry, with the page as it is then, keeps the invariant and the bounds.
use browser_bridge.Prelude.{
  ℕ, ◌≤◌, ◌≡◌, refl, Bool, true, false, ◌&&◌, some, List, [], ◌∷◌, arith, ltb, eqb, length,
  Bool-cases, Option-cases, inl, inr, Key, ◌===◌, nat_key, string_key,
}
use browser_bridge.Prelude.JsMap.{get}
use browser_bridge.Registry.{
  Registry, Page, Resolution, Field, ElementDescriptor, initial, forget, remember_element,
  get_required_element, recover_match, recover, recover_stale, resolve_input_reference,
  matching_candidates, get_strong_descriptor_fields, consume_pruned, is_set,
  max_stale_recovery_candidates, failed, url_changed, weak_descriptor, scan_incomplete,
}
use browser_bridge.Registry.Linked.{IsLinked, Removes-refl, Removes-same, forget-Removes}
use browser_bridge.Registry.Room.{IsBounded, forget-IsBounded}
use browser_bridge.Registry.Minting.{
  Extends, Removes-Extends, Extends-trans, remember_element-Extends, remember_element-IsBounded,
}

-- What a call guarantees: it extends the registry and keeps the bounds.
pub record Serves {E : Type 0} ⦃key : Key E⦄ (st st' : Registry E) : Type 0 where
  pub extends : Extends st st'
  pub bounds : IsBounded st → IsBounded st'

module _ {E : Type 0} ⦃key : Key E⦄ where
  Serves-refl : {st : Registry E} → IsLinked st → Serves st st
  Serves-refl ok = record { extends = Removes-Extends (Removes-refl ok); bounds = λ b. b }

  Serves-trans : {a b c : Registry E} → Serves a b → Serves b c → Serves a c
  Serves-trans f g = record {
    extends = Extends-trans f.extends g.extends;
    bounds = λ b. g.bounds (f.bounds b);
  }

  forget-Serves :
      (ref : ℕ) (e : E) (st : Registry E)
      → IsLinked st
      → get ref st.element_registry ≡ some e
      → Serves st (forget ref e st)
  forget-Serves ref e st ok h = record {
    extends = Removes-Extends (forget-Removes ref e st ok h);
    bounds = forget-IsBounded ref e st;
  }

  remember_element-Serves :
      (page : Page E) (e : E) (st : Registry E)
      → IsLinked st
      → Serves st (remember_element page e st).0
  remember_element-Serves page e st ok = record {
    extends = remember_element-Extends page e st ok;
    bounds = remember_element-IsBounded page e st ok;
  }

  get_required_element-Serves :
      (page : Page E) (ref : ℕ) (st : Registry E)
      → IsLinked st
      → Serves st (get_required_element page ref st).0
  unfolding get_required_element
  get_required_element-Serves page ref st ok = elim (Option-cases (get ref st.element_registry)) [
    | inl e ↦ rw (e, get_required_element) (Serves-refl ok)
    | inr (x, e) ↦ elim (Bool-cases (page.is_attached x)) [
      | inl stays ↦ rw (e, get_required_element) (rw stays (Serves-refl ok))
      | inr gone ↦ rw (e, get_required_element) (rw gone (forget-Serves ref x st ok e))
    ]
  ]

  recover_match-Serves :
      (page : Page E) (ref : ℕ) (fields : List Field) (es : List E) (st : Registry E)
      → IsLinked st
      → Serves st (recover_match page ref fields es st).0
  unfolding recover_match
  recover_match-Serves page ref fields [] st ok = Serves-refl ok
  recover_match-Serves page ref fields (e ∷ []) st ok = remember_element-Serves page e st ok
  recover_match-Serves page ref fields (e ∷ e' ∷ es) st ok = Serves-refl ok

  -- The ways of `recover`: one of its checks fails, or the candidates decide.
  pub recover_cases {ℓ} :
      (P : Registry E × Resolution E → Type ℓ) (page : Page E) (ref : ℕ) (d : ElementDescriptor)
      (st : Registry E)
      → P (st, failed url_changed)
      → P (st, failed weak_descriptor)
      → P (st, failed scan_incomplete)
      → ((is_set d.url && (d.url === page.document_url)) ≡ true
          → length (page.query_all d.tag) ≤ max_stale_recovery_candidates
          → P (
              recover_match page ref
                (get_strong_descriptor_fields d)
                (matching_candidates page d)
                st))
      → P (recover page ref d st)
  unfolding recover
  recover_cases P page ref d st url weak scan decide =
      elim (Bool-cases (is_set d.url && (d.url === page.document_url))) [
        | inr changed ↦ rw changed url
        | inl same ↦ elim (Bool-cases (eqb (length (get_strong_descriptor_fields d)) 0)) [
          | inl none_set ↦ rw (same, none_set) weak
          | inr strong ↦
              elim (Bool-cases
                (ltb max_stale_recovery_candidates (length (page.query_all d.tag)))) [
                  | inl many ↦ rw (same, strong, many) scan
                  | inr few ↦ rw (same, strong, few) (decide same (ground arith))
                ]
        ]
      ]

  recover_stale-Serves :
      (page : Page E) (ref : ℕ) (recovers : Bool) (st : Registry E)
      → IsLinked st
      → Serves st (recover_stale page ref recovers st).0
  unfolding recover_stale
  recover_stale-Serves page ref false st ok = Serves-refl ok
  recover_stale-Serves page ref true st ok = elim (Option-cases (get ref st.element_descriptors)) [
    | inl e ↦ rw (e, recover_stale) (Serves-refl ok)
    | inr (d, e) ↦
        rw (e, recover_stale)
          (recover_cases (λ o. Serves st o.0) page ref d st (Serves-refl ok) (Serves-refl ok)
            (Serves-refl ok) (λ same few. recover_match-Serves page ref _ _ st ok))
  ]

  resolve_input_reference-Serves :
      (page : Page E) (ref : ℕ) (recovers : Bool) (st : Registry E)
      → IsLinked st
      → Serves st (resolve_input_reference page ref recovers st).0
  unfolding resolve_input_reference
  resolve_input_reference-Serves page ref recovers st ok =
      elim (Option-cases (get ref st.element_registry)) [
        | inl e ↦ rw (e, resolve_input_reference) (recover_stale-Serves page ref recovers st ok)
        | inr (x, e) ↦
            let forgotten = forget-Serves ref x st ok e in
            elim (Bool-cases (page.is_attached x)) [
              | inl stays ↦ rw (e, resolve_input_reference) (rw stays (Serves-refl ok))
              | inr gone ↦
                  rw (e, resolve_input_reference)
                    (rw gone (
                      Serves-trans forgotten
                        (recover_stale-Serves page ref recovers _ forgotten.extends.kept)))
            ]
      ]

pub data Call (E : Type 0) : Type 0 where
  remembers : Page E → E → Call E
  requires : Page E → ℕ → Call E
  resolves : Page E → ℕ → Bool → Call E
  consumes : Call E

module _ {E : Type 0} ⦃key : Key E⦄ where
  unfoldable pub step : Call E → Registry E → Registry E
  step (remembers page e) st = (remember_element page e st).0
  step (requires page ref) st = (get_required_element page ref st).0
  step (resolves page ref recovers) st = (resolve_input_reference page ref recovers st).0
  step consumes st = (consume_pruned st).0

  unfoldable pub run : List (Call E) → Registry E → Registry E
  run [] st = st
  run (c ∷ calls) st = run calls (step c st)

  step-Serves : (c : Call E) (st : Registry E) → IsLinked st → Serves st (step c st)
  unfolding step consume_pruned
  step-Serves (remembers page e) st ok = remember_element-Serves page e st ok
  step-Serves (requires page ref) st ok = get_required_element-Serves page ref st ok
  step-Serves (resolves page ref recovers) st ok =
      resolve_input_reference-Serves page ref recovers st ok
  step-Serves consumes st ok = record {
    extends = Removes-Extends (Removes-same ok refl refl refl);
    bounds = λ b. record { references = b.references; descriptors = b.descriptors };
  }

  run-Serves : (calls : List (Call E)) (st : Registry E) → IsLinked st → Serves st (run calls st)
  unfolding run
  run-Serves [] st ok = Serves-refl ok
  run-Serves (c ∷ calls) st ok =
      let first = step-Serves c st ok in
      Serves-trans first (run-Serves calls (step c st) first.extends.kept)

  pub initial-IsLinked : IsLinked (initial {E = E})
  unfolding initial get
  initial-IsLinked = record {
    linked = λ ref e h. cc;
    named = λ e ref h. cc;
    bounded = λ ref e h. cc;
  }

  pub initial-IsBounded : IsBounded (initial {E = E})
  unfolding initial
  initial-IsBounded = record { references = omega arith; descriptors = omega arith }

  -- After any sequence of calls, whatever the page was at each, the map of references and the
  -- reverse map are inverse to each other and hold at most 5000 references, no reference is above
  -- the counter, and at most 5000 descriptors are kept.
  pub run-initial-IsLinked :
      (calls : List (Call E)) → IsLinked (run calls initial) × IsBounded (run calls initial)
  run-initial-IsLinked calls =
      let served = run-Serves calls initial initial-IsLinked in
      (served.extends.kept, served.bounds initial-IsBounded)

  -- A reference never changes its meaning: from a registry whose two maps are inverse to each
  -- other, an issued reference that is live after any further calls named the same element before
  -- them, so that a stale one is never given to another element.
  pub run-same_element :
      (calls : List (Call E)) (st : Registry E) (ref : ℕ) (e : E)
      → IsLinked st
      → ref ≤ st.element_ref_counter
      → get ref (run calls st).element_registry ≡ some e
      → get ref st.element_registry ≡ some e
  run-same_element calls st ref e ok issued live =
      let served = run-Serves calls st ok in served.extends.old ref e issued live
