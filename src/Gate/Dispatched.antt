-- ===== src/Gate/Dispatched.antt =====
-- What a dispatched mutation has passed.
use browser_bridge.Prelude.{
  ℕ, ◌≡◌, ap, ◌∙◌, true, false, Option, none, some, List, any, arith, ◌&&◌, Bool-cases,
  Option-cases, inl, inr, nat_key, string_key, ◌===◌, sym, and_split, subst, ◌≢◌,
}
use browser_bridge.Prelude.JsMap.{get}
use text.Mathlib.TextEquality.{eq_iff}
use browser_bridge.Lifetimes.{guard, guard_throws}
use browser_bridge.Gate.{
  Gate, granted, Target, Snapshot, Request, Await, Preparation, Outcome, dispatched, assert_both,
  pin_target, report_ready, stop_waiting, check_document, await_grant, prepare_target, prepare,
  Call, run, invalidate, pin_targets, step,
}
use browser_bridge.Gate.Sound.{IsSound, step-IsSound, run-IsSound}
use browser_bridge.Gate.Waits.{concerns, invalidate-never_granted}

assert_both_lem :
    (captured deadline : Option ℕ) (await : Await) (st : Gate)
    → assert_both captured deadline await st ≡ none
    → (await.access ≡ true) × (guard_throws captured deadline await.now st.lifetimes ≡ false)
unfolding assert_both
assert_both_lem captured deadline await st h = (ground arith, ground arith)

-- What is so when a mutation is dispatched: it is sent to the target, the document is still the one
-- that was seen before the grant, and at the last await the window's grant stood and the request
-- was neither canceled nor late.
pub record Passed (request : Request) (w : Preparation) (target : Target) (captured : Option ℕ)
    (st : Gate) (r : Request) : Type 0 where
  pub snapshot : Snapshot
  pub current : Snapshot
  pub seen : w.snapshot ≡ some snapshot
  pub seen_again : w.current ≡ some current
  pub same_document : current.document_id ≡ snapshot.document_id
  pub same_url : current.url ≡ snapshot.url
  pub allowed : w.checking.access ≡ true
  pub alive : guard_throws captured request.deadline_ms w.checking.now st.lifetimes ≡ false
  pub sent : r ≡ record request { tab_id = some target.tab_id }

check_document-Passed :
    (request : Request) (w : Preparation) (target : Target) (captured : Option ℕ)
    (snapshot : Snapshot) (st : Gate) (r : Request)
    → w.snapshot ≡ some snapshot
    → (check_document request w target.tab_id captured snapshot st).1 ≡ dispatched r
    → Passed request w target captured
        (check_document request w target.tab_id captured snapshot st).0
        r
unfolding check_document
check_document-Passed request w target captured snapshot st r seen h =
    let checked = w.checking.others st in
    elim (Option-cases w.current) [
      | inl e ↦ absurd (ground arith)
      | inr (current, e) ↦
          let state : (check_document request w target.tab_id captured snapshot st).0 ≡ checked =
            ground arith in
          elim (Option-cases (assert_both captured request.deadline_ms w.checking checked)) [
            | inr (bad, f) ↦ absurd (ground arith)
            | inl f ↦
                let (allowed, alive) =
                  assert_both_lem captured request.deadline_ms w.checking checked f in
                elim (Bool-cases
                  (current.document_id === snapshot.document_id && current.url === snapshot.url)) [
                    | inr other ↦ absurd (ground arith)
                    | inl same ↦
                        let (same_id, same_url) =
                          and_split (current.document_id === snapshot.document_id)
                            (current.url === snapshot.url) same in
                        subst (λ x. Passed request w target captured x r) (sym state)
                          (record {
                            snapshot = snapshot;
                            current = current;
                            seen = seen;
                            seen_again = e;
                            same_document =
                                (eq_iff current.document_id snapshot.document_id).0 same_id;
                            same_url = (eq_iff current.url snapshot.url).0 same_url;
                            allowed = allowed;
                            alive = alive;
                            sent = ground arith;
                          })
                  ]
          ]
    ]

await_grant-Passed :
    (request : Request) (w : Preparation) (target : Target) (captured : Option ℕ) (p : ℕ)
    (st : Gate) (r : Request)
    → (await_grant request w target.tab_id captured p st).1 ≡ dispatched r
    → (get p st.settled ≡ some (some granted))
      × Passed request w target captured (await_grant request w target.tab_id captured p st).0 r
unfolding await_grant
await_grant-Passed request w target captured p st r h =
    let left = stop_waiting request.id captured p st in
    elim (Option-cases w.snapshot) [
      | inl e ↦ absurd (ground arith)
      | inr (snapshot, e) ↦
          elim (Option-cases (assert_both captured request.deadline_ms w.granting left)) [
            | inr (bad, f) ↦ absurd (ground arith)
            | inl f ↦
                let state : await_grant request w target.tab_id captured p st
                    ≡ check_document request w target.tab_id captured snapshot left =
                  ground arith in
                let done = ap (λ (x : Gate × Outcome). x.1) (sym state) ∙ h in
                let passed =
                  check_document-Passed request w target captured snapshot left r e done in
                (
                  ground arith,
                  subst (λ (x : Gate × Outcome). Passed request w target captured x.0 r) (sym state)
                      passed,
                )
          ]
    ]

-- A scheduled mutation that `prepare` dispatches has passed every check: it goes to the resolved
-- target, its document and address are the same as before the grant, and after the last await the
-- window's grant stands and the request is neither canceled nor late, whatever the others did.
pub prepare-Passed :
    (request : Request) (w : Preparation) (target : Target) (st : Gate) (r : Request)
    → request.mutation_schedule ≡ true
    → w.target ≡ some target
    → (prepare request w st).1 ≡ dispatched r
    → Passed request w target (guard request.id st.lifetimes) (prepare request w st).0 r
unfolding prepare prepare_target
prepare-Passed request w target st r scheduled resolved h =
    let captured = guard request.id st.lifetimes in
    let pinned = pin_target request.id target (w.resolving.others st) in
    let ready = w.granting.others (report_ready request.id target.tab_id pinned) in
    elim (Option-cases (assert_both captured request.deadline_ms w.resolving pinned)) [
      | inr (bad, f) ↦ absurd (ground arith)
      | inl f ↦
          let state : prepare request w st
              ≡ await_grant request w target.tab_id captured pinned.next_promise ready =
            ground arith in
          let done = ap (λ (x : Gate × Outcome). x.1) (sym state) ∙ h in
          let (_, passed) =
            await_grant-Passed request w target captured pinned.next_promise ready r done in
          subst (λ (x : Gate × Outcome). Passed request w target captured x.0 r) (sym state) passed
    ]

-- A scheduled mutation whose target navigates, moves or closes while it waits for its grant is not
-- dispatched. Whatever else happens at the gate may happen: while the target is resolved, from a
-- gate in which the promise of every waiting mutation has a number below the next one; between the
-- report of the tab and the navigation, but for a grant, a new report or a stop of the same request
-- id; and after the navigation, a late grant included.
pub prepare-invalidate :
    (earlier before after : List Call) (request : Request) (w : Preparation) (target : Target)
    (st : Gate) (r : Request)
    → IsSound st
    → request.mutation_schedule ≡ true
    → w.target ≡ some target
    → w.resolving.others ≡ run earlier
    → any (concerns request.id) before ≡ false
    → w.granting.others ≡ (λ ready. run after (invalidate target.tab_id (run before ready)))
    → (prepare request w st).1 ≢ dispatched r
unfolding prepare prepare_target step
prepare-invalidate earlier before after request w target st r sound scheduled resolved meanwhile
      quiet changes h =
    let captured = guard request.id st.lifetimes in
    let pinned = pin_target request.id target (w.resolving.others st) in
    let waits = report_ready request.id target.tab_id pinned in
    let p = pinned.next_promise in
    elim (Option-cases (assert_both captured request.deadline_ms w.resolving pinned)) [
      | inr (bad, f) ↦ absurd (ground arith)
      | inl f ↦
          let state : prepare request w st
              ≡ await_grant request w target.tab_id captured p (w.granting.others waits) =
            ground arith in
          let done = ap (λ (x : Gate × Outcome). x.1) (sym state) ∙ h in
          let (was_granted, _) =
            await_grant-Passed request w target captured p (w.granting.others waits) r done in
          let resolving = ap (λ (g : Gate → Gate). g st) meanwhile in
          let reached : IsSound pinned =
            step-IsSound (pin_targets request.id target) (w.resolving.others st)
              (subst IsSound (sym resolving) (run-IsSound earlier st sound)) in
          let others = ap (λ (g : Gate → Gate). get p (g waits).settled) changes in
          invalidate-never_granted before after request.id target.tab_id pinned reached quiet
            (sym others ∙ was_granted)
    ]
