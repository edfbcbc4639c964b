-- ===== src/Gate/Waits.antt =====
-- A mutation that waits for its grant keeps its entry and a promise of its own, whatever happens to
-- other mutations, and a navigation of its target refuses it.
use browser_bridge.Prelude.{
  ℕ, ◌<◌, ◌≡◌, ◌≢◌, refl, Bool, false, true, Option, none, some, List, [], ◌∷◌, String, arith, eqb,
  any, if◌then◌else◌, Bool-cases, inl, inr, nat_key, string_key, ◌===◌, ◌⊎◌, sym, subst, ap, ◌∙◌,
}
use browser_bridge.Prelude.JsMap.{JsMap, get, put, get-put, get-put_self, get-delete, eq_refl}
use browser_bridge.Gate.{
  Gate, Waiting, Settlement, granted, target_changed, canceled, settle, handle, reject_tab,
  invalidate, release, report_ready, pin_target, stop_waiting, Call, handles, invalidates, cancels,
  releases, reports, pin_targets, stops, requests, step, run,
}
use browser_bridge.Gate.Settled.{
  is_grant, handle_cases, settle-next_promise, settle_other, settle_self, settle_keeps, run-Keeps,
  reject_tab-next_promise, reject_tab_keeps, invalidate-run,
}
use browser_bridge.Gate.Sound.{
  settle-waiting, reject_tab-waiting, pin_target-waiting, pin_target-next_promise,
  pin_target-settled, handle-waiting, IsSound,
}

-- A promise that is pending, or has been rejected.
abbrev Ungranted : ℕ → Gate → Type 0
Ungranted p st =
    (get p st.settled ≡ some none)
    ⊎ ((how : Settlement) × ((get p st.settled ≡ some (some how)) × (how ≢ granted)))

settle-Ungranted :
    (p q : ℕ) (how : Settlement) (st : Gate)
    → how ≢ granted
    → Ungranted p st
    → Ungranted p (settle q how st)
settle-Ungranted p q how st bad (inr (done, (e, other))) =
    inr (done, (settle_keeps p q how done st e, other))
settle-Ungranted p q how st bad (inl e) = elim (Bool-cases (eqb q p)) [
  | inl same ↦
      let is_same : q ≡ p = ground arith in
      inr (how, (ap (λ n. get p (settle n how st).settled) is_same ∙ settle_self p how st e, bad))
  | inr differs ↦ inl (settle_other p q how st differs ∙ e)
]

reject_tab-Ungranted :
    (tab p : ℕ) (entries : JsMap String Waiting) (st : Gate)
    → Ungranted p st
    → Ungranted p (reject_tab tab entries st)
unfolding reject_tab
reject_tab-Ungranted tab p [] st h = h
reject_tab-Ungranted tab p ((id, entry) ∷ rest) st h =
    reject_tab-Ungranted tab p rest
      (if eqb entry.tab_id tab then settle entry.promise target_changed st else st)
      (elim (Bool-cases (eqb entry.tab_id tab)) [
        | inl here ↦ rw here (settle-Ungranted p entry.promise target_changed st (λ e. cc) h)
        | inr away ↦ rw away h
      ])

-- What may end the wait of a mutation, or start another one: a grant, a report and a stop of its id.
abbrev pub concerns : String → Call → Bool
concerns id (handles type request_id) = is_grant id type request_id
concerns id (reports other tab) = other === id
concerns id (stops other captured p) = other === id
concerns id _ = false

-- A mutation waits for the promise, which has not been granted, and no other mutation does.
pub record Waits (id : String) (entry : Waiting) (st : Gate) : Type 0 where
  pub here : get id st.waiting ≡ some entry
  pub below : entry.promise < st.next_promise
  pub alone :
      (other : String) (theirs : Waiting)
      → get other st.waiting ≡ some theirs
      → (other === id) ≡ false
      → eqb theirs.promise entry.promise ≡ false
  pub ungranted : Ungranted entry.promise st

same-Waits :
    (id : String) (entry : Waiting) (st st' : Gate)
    → st'.waiting ≡ st.waiting
    → st'.next_promise ≡ st.next_promise
    → Ungranted entry.promise st'
    → Waits id entry st
    → Waits id entry st'
same-Waits id entry st st' waiting next ungranted w = record {
  here = ap (get id) waiting ∙ w.here;
  below = let low = w.below in omega arith;
  alone = λ other theirs there. w.alone other theirs (ap (get other) (sym waiting) ∙ there);
  ungranted = ungranted;
}

-- Two mutations that one message grants are the same.
is_grant_other :
    (id other type : String) (request_id : Option String)
    → is_grant other type request_id ≡ true
    → is_grant id type request_id ≡ false
    → (other === id) ≡ false
is_grant_other id other type none grant quiet = absurd (ground arith)
is_grant_other id other type (some third) grant quiet =
    ground (arith, string_key.same_iff third other, string_key.same_iff other id)

-- A message that does not grant the mutation leaves its promise alone.
handle-Waits :
    (id type : String) (request_id : Option String) (entry : Waiting) (st : Gate)
    → is_grant id type request_id ≡ false
    → Waits id entry st
    → Waits id entry (handle type request_id st).0
handle-Waits id type request_id entry st quiet w = elim (handle_cases type request_id st) [
  | inl e ↦ subst (Waits id entry) (sym e) w
  | inr (other, (theirs, (grant, there, e))) ↦
      let differs : (other === id) ≡ false = is_grant_other id other type request_id grant quiet in
      let kept =
        settle_other entry.promise theirs.promise granted st (w.alone other theirs there differs) in
      let settled = ap (λ (g : Gate). get entry.promise g.settled) e ∙ kept in
      same-Waits id entry st (handle type request_id st).0 (handle-waiting type request_id st).0
        (handle-waiting type request_id st).1
        (elim w.ungranted [
          | inl p ↦ inl (settled ∙ p)
          | inr (how, (p, bad)) ↦ inr (how, (settled ∙ p, bad))
        ])
        w
]

report-Waits :
    (id other : String) (tab : ℕ) (entry : Waiting) (st : Gate)
    → (other === id) ≡ false
    → Waits id entry st
    → Waits id entry (report_ready other tab st)
unfolding report_ready
report-Waits id other tab entry st differs w =
    let low = w.below in
    let here = w.here in
    let added : Waiting = record { tab_id = tab; promise = st.next_promise } in
    let kept : get entry.promise (put st.next_promise none st.settled)
        ≡ get entry.promise st.settled =
      ground (arith, get-put st.next_promise entry.promise none st.settled) in
    record {
      here = ground (arith, get-put other id added st.waiting);
      below = omega arith;
      alone = λ third theirs there apart. elim (Bool-cases (other === third)) [
        | inl same ↦
            let theirs_is : some added ≡ some theirs =
              ground (arith, get-put other third added st.waiting) in
            ground arith
        | inr new ↦
            w.alone third theirs (ground (arith, get-put other third added st.waiting)) apart
      ];
      ungranted = elim w.ungranted [
        | inl p ↦ inl (kept ∙ p)
        | inr (how, (p, bad)) ↦ inr (how, (kept ∙ p, bad))
      ];
    }

step-Waits :
    (c : Call) (id : String) (entry : Waiting) (st : Gate)
    → concerns id c ≡ false
    → Waits id entry st
    → Waits id entry (step c st)
unfolding step invalidate release stop_waiting
step-Waits (handles type request_id) id entry st quiet w =
    handle-Waits id type request_id entry st quiet w
step-Waits (invalidates tab) id entry st quiet w =
    same-Waits id entry st (reject_tab tab st.waiting st) (reject_tab-waiting tab st.waiting st)
      (reject_tab-next_promise tab st.waiting st)
      (reject_tab-Ungranted tab entry.promise st.waiting st w.ungranted) w
step-Waits (cancels p) id entry st quiet w =
    same-Waits id entry st (settle p canceled st) (settle-waiting p canceled st)
      (settle-next_promise p canceled st)
      (settle-Ungranted entry.promise p canceled st (λ e. cc) w.ungranted) w
step-Waits (releases other) id entry st quiet w =
    same-Waits id entry st (release other st) refl refl w.ungranted w
step-Waits (pin_targets other target) id entry st quiet w =
    same-Waits id entry st (pin_target other target st) (pin_target-waiting other target st)
      (pin_target-next_promise other target st)
      (subst
        (λ (m : JsMap ℕ (Option Settlement)).
          (get entry.promise m ≡ some none)
          ⊎ ((how : Settlement) × ((get entry.promise m ≡ some (some how)) × (how ≢ granted))))
        (sym (pin_target-settled other target st)) w.ungranted)
      w
step-Waits (reports other tab) id entry st quiet w = report-Waits id other tab entry st quiet w
step-Waits (stops other captured p) id entry st quiet w =
    let here = w.here in
    record {
      here = ground (arith, get-delete other id st.waiting);
      below = w.below;
      alone = λ third theirs there apart.
          w.alone third theirs (ground (arith, get-delete other third st.waiting)) apart;
      ungranted = w.ungranted;
    }
step-Waits (requests f) id entry st quiet w = record {
  here = w.here;
  below = w.below;
  alone = w.alone;
  ungranted = w.ungranted;
}

run-Waits :
    (calls : List Call) (id : String) (entry : Waiting) (st : Gate)
    → any (concerns id) calls ≡ false
    → Waits id entry st
    → Waits id entry (run calls st)
unfolding run
run-Waits [] id entry st quiet w = w
run-Waits (c ∷ calls) id entry st quiet w =
    run-Waits calls id entry (step c st) (ground arith) (step-Waits c id entry st (ground arith) w)

-- A mutation that has just been reported waits for its new promise.
report_ready-Waits :
    (id : String) (tab : ℕ) (st : Gate)
    → IsSound st
    → Waits id (record { tab_id = tab; promise = st.next_promise }) (report_ready id tab st)
unfolding report_ready
report_ready-Waits id tab st sound =
    let entry : Waiting = record { tab_id = tab; promise = st.next_promise } in
    record {
      here = get-put_self id entry st.waiting;
      below = omega arith;
      alone = λ other theirs there apart.
          let low = sound other theirs (
            ground (
              arith,
              get-put id other entry st.waiting,
              string_key.same_iff id other,
              eq_refl id,
            )) in
          ground arith;
      ungranted = inl (get-put_self st.next_promise none st.settled);
    }

-- A mutation whose target changes while it waits, after anything that did not grant, report or stop
-- it, is never granted, whatever follows.
pub invalidate-never_granted :
    (before after : List Call) (id : String) (tab : ℕ) (st : Gate)
    → IsSound st
    → any (concerns id) before ≡ false
    → get st.next_promise (run after (invalidate tab (run before (report_ready id tab st)))).settled
      ≢ some (some granted)
unfolding invalidate
invalidate-never_granted before after id tab st sound quiet h =
    let entry : Waiting = record { tab_id = tab; promise = st.next_promise } in
    let now = run before (report_ready id tab st) in
    let w : Waits id entry now =
      run-Waits before id entry (report_ready id tab st) quiet
        (report_ready-Waits id tab st sound) in
    elim w.ungranted [
      | inl pending ↦ let never = invalidate-run after id entry now w.here pending w.below in cc
      | inr (how, (done, bad)) ↦
          let low = w.below in
          let next = reject_tab-next_promise tab now.waiting now in
          let kept = run-Keeps after st.next_promise how (reject_tab tab now.waiting now) (record {
            settled = reject_tab_keeps tab st.next_promise now.waiting how now done;
            below = omega arith;
          }) in
          let same : how ≡ granted = ground (arith, kept.settled) in bad same
    ]
