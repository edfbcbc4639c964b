-- ===== src/Registry/Recovering.antt =====
-- What the references of the registry resolve to, directly and by recovery.
use browser_bridge.Prelude.{
  ℕ, ◌≤◌, ◌≡◌, refl, sym, ap, Bool, true, false, not, ◌&&◌, none, some, List, [], ◌∷◌, arith,
  length, Option-cases, inl, inr, Key, ◌===◌, nat_key, string_key,
}
use browser_bridge.Prelude.JsMap.{get}
use browser_bridge.Registry.{
  Registry, Page, Resolution, Recovery, Field, ElementDescriptor, remember_element,
  get_required_element, recover_match, recover_stale, matching_candidates, is_set,
  max_stale_recovery_candidates, resolved,
}
use browser_bridge.Registry.Linked.{IsLinked}
use browser_bridge.Registry.Minting.{remember_element-get, remember_element-Extends}
use browser_bridge.Registry.Calls.{recover_cases}

module _ {E : Type 0} ⦃key : Key E⦄ where
  -- In a registry whose two maps are inverse to each other, the reference that `rememberElement`
  -- gives resolves to that element at once on any page where it is attached.
  pub remember_element-get_required_element :
      (page later : Page E) (e : E) (st : Registry E)
      → IsLinked st
      → later.is_attached e ≡ true
      → (get_required_element later (remember_element page e st).1 (remember_element page e st).0).1
        ≡ some e
  unfolding get_required_element
  remember_element-get_required_element page later e st ok attached =
      let here = remember_element-get page e st ok in
      rw (here, get_required_element) (rw attached refl)

  -- In a registry whose two maps are inverse to each other, remembering an element a second time
  -- gives the same reference and changes nothing, whatever the page is then.
  pub remember_element-twice :
      (page later : Page E) (e : E) (st : Registry E)
      → IsLinked st
      → remember_element later e (remember_element page e st).0 ≡ remember_element page e st
  unfolding remember_element
  remember_element-twice page later e st ok =
      let here = remember_element-get page e st ok in
      let kept = remember_element-Extends page e st ok in
      let known = kept.kept.linked _ e here in rw (known, remember_element) (rw here refl)

  -- A reference is stale when it names nothing, or an element that has left the document.
  unfoldable pub is_stale : Page E → ℕ → Registry E → Bool
  is_stale page ref st = elim (get ref st.element_registry) [
    | none ↦ true
    | some x ↦ not (page.is_attached x)
  ]

  -- Why a recovery is allowed: the document is the one that the reference came from, all the
  -- candidates were scanned, and the element is the only one among them that matches.
  pub record CanRecover (page : Page E) (st : Registry E) (ref : ℕ) (e : E) : Type 0 where
    pub descriptor : ElementDescriptor
    pub stored : get ref st.element_descriptors ≡ some descriptor
    pub same_url : (is_set descriptor.url && (descriptor.url === page.document_url)) ≡ true
    pub all_scanned : length (page.query_all descriptor.tag) ≤ max_stale_recovery_candidates
    pub only_match : matching_candidates page descriptor ≡ e ∷ []

  -- A resolution by recovery, with what justifies it.
  abbrev pub Justified : Page E → Registry E → ℕ → Registry E × Resolution E → Type 0
  Justified page st ref o =
      (e : E) (r : Recovery)
      → o.1 ≡ resolved e (some r)
      → CanRecover page st ref e × (get r.new_ref o.0.element_registry ≡ some e) × (r.old_ref ≡ ref)

  recover_match-only :
      (page : Page E) (ref : ℕ) (fields : List Field) (es : List E) (st : Registry E)
      → IsLinked st
      → (e : E) (r : Recovery) → (recover_match page ref fields es st).1 ≡ resolved e (some r)
      → (es ≡ e ∷ [])
        × (get r.new_ref (recover_match page ref fields es st).0.element_registry ≡ some e)
        × (r.old_ref ≡ ref)
  unfolding recover_match
  recover_match-only page ref fields [] st ok e r h = cc
  recover_match-only page ref fields (x ∷ []) st ok e r h =
      let here = remember_element-get page x st ok in
      let same : x ≡ e = cc in
      let minted : (remember_element page x st).1 ≡ r.new_ref = ground arith in
      let old : r.old_ref ≡ ref = ground arith in
      (ap (λ y. y ∷ []) same, rw (sym minted, sym same) here, old)
  recover_match-only page ref fields (x ∷ x' ∷ es) st ok e r h = cc

  pub recover_stale-Justified :
      (page : Page E) (ref : ℕ) (recovers : Bool) (st : Registry E)
      → IsLinked st
      → Justified page st ref (recover_stale page ref recovers st)
  unfolding recover_stale
  recover_stale-Justified page ref false st ok = λ e r h. cc
  recover_stale-Justified page ref true st ok =
      elim (Option-cases (get ref st.element_descriptors)) [
        | inl missing ↦ rw (missing, recover_stale) (λ e r h. cc)
        | inr (d, stored) ↦
            rw (stored, recover_stale)
              (recover_cases (Justified page st ref) page ref d st (λ e r h. cc) (λ e r h. cc)
                (λ e r h. cc)
                (λ same few e r h.
                  let (only, live, old) = recover_match-only page ref _ _ st ok e r h in
                  (
                    record {
                      descriptor = d;
                      stored = stored;
                      same_url = same;
                      all_scanned = few;
                      only_match = only;
                    },
                    live,
                    old,
                  )))
      ]
