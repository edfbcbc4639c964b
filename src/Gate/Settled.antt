-- ===== src/Gate/Settled.antt =====
-- A promise of the gate settles once, and a navigation of the target settles it for good.
use browser_bridge.Prelude.{
  ℕ, ◌<◌, ◌≡◌, refl, ap, ◌∙◌, Bool, true, false, Option, none, some, List, [], ◌∷◌, String, arith,
  eqb, if◌then◌else◌, ◌&&◌, Bool-cases, Option-cases, inl, inr, nat_key, string_key, ◌===◌, ◌⊎◌,
  sym, subst,
}
use browser_bridge.Prelude.JsMap.{JsMap, get, get-put, get-put_self, eq_refl}
use browser_bridge.Gate.{
  Gate, Waiting, Settlement, granted, target_changed, canceled, settle, handle, reject_tab,
  invalidate, release, report_ready, Call, handles, invalidates, cancels, releases, reports,
  pin_targets, stops, requests, stop_waiting, pin_target, step, run,
}

-- A promise that has settled, or that has a settlement among those of another kind.
pub settle_keeps :
    (p q : ℕ) (how done : Settlement) (st : Gate)
    → get p st.settled ≡ some (some done)
    → get p (settle q how st).settled ≡ some (some done)
unfolding settle
settle_keeps p q how done st h = ground (arith, get-put q p (some how) st.settled)

pub settle-next_promise :
    (q : ℕ) (how : Settlement) (st : Gate) → (settle q how st).next_promise ≡ st.next_promise
unfolding settle
settle-next_promise q how st = ground arith

pub reject_tab_keeps :
    (tab p : ℕ) (entries : JsMap String Waiting) (done : Settlement) (st : Gate)
    → get p st.settled ≡ some (some done)
    → get p (reject_tab tab entries st).settled ≡ some (some done)
unfolding reject_tab
reject_tab_keeps tab p [] done st h = h
reject_tab_keeps tab p ((id, entry) ∷ rest) done st h =
    reject_tab_keeps tab p rest done
      (if eqb entry.tab_id tab then settle entry.promise target_changed st else st)
      (let kept = settle_keeps p entry.promise target_changed done st h in ground arith)

pub reject_tab-next_promise :
    (tab : ℕ) (entries : JsMap String Waiting) (st : Gate)
    → (reject_tab tab entries st).next_promise ≡ st.next_promise
unfolding reject_tab
reject_tab-next_promise tab [] st = refl
reject_tab-next_promise tab ((id, entry) ∷ rest) st =
    reject_tab-next_promise tab rest
      (if eqb entry.tab_id tab then settle entry.promise target_changed st else st)
    ∙ (let same = settle-next_promise entry.promise target_changed st in ground arith)

-- A step keeps what has settled, and gives no number back.
pub record Keeps (p : ℕ) (done : Settlement) (st : Gate) : Type 0 where
  pub settled : get p st.settled ≡ some (some done)
  pub below : p < st.next_promise

settle-Keeps :
    (q : ℕ) (how : Settlement) (p : ℕ) (done : Settlement) (st : Gate)
    → Keeps p done st
    → Keeps p done (settle q how st)
settle-Keeps q how p done st keeps = record {
  settled = settle_keeps p q how done st keeps.settled;
  below = let same = settle-next_promise q how st in let low = keeps.below in omega arith;
}

-- The message that grants a mutation.
abbrev pub is_grant : String → String → Option String → Bool
is_grant id type none = false
is_grant id type (some other) = (type === "host.mutation_granted") && (other === id)

-- A message changes nothing, or it is a grant and settles the promise of its mutation.
pub handle_cases :
    (type : String) (request_id : Option String) (st : Gate)
    → ((handle type request_id st).0 ≡ st)
      ⊎ ((id : String) × ((entry : Waiting) × ((is_grant id type request_id ≡ true)
              × (get id st.waiting ≡ some entry)
              × ((handle type request_id st).0 ≡ settle entry.promise granted st))))
unfolding handle
handle_cases type none st = inl (ground arith)
handle_cases type (some id) st = elim (Bool-cases (type === "host.mutation_granted")) [
  | inr other ↦ inl (ground arith)
  | inl grant ↦ elim (Option-cases (get id st.waiting)) [
    | inl e ↦ inl (ground arith)
    | inr (entry, e) ↦ inr (id, (entry, (ground (arith, eq_refl id), e, ground arith)))
  ]
]

step-Keeps :
    (c : Call) (p : ℕ) (done : Settlement) (st : Gate) → Keeps p done st → Keeps p done (step c st)
unfolding step invalidate release report_ready stop_waiting pin_target
step-Keeps (handles type request_id) p done st keeps = elim (handle_cases type request_id st) [
  | inl e ↦ subst (Keeps p done) (sym e) keeps
  | inr (id, (entry, (_, _, e))) ↦
      subst (Keeps p done) (sym e) (settle-Keeps entry.promise granted p done st keeps)
]
step-Keeps (invalidates tab) p done st keeps = record {
  settled = reject_tab_keeps tab p st.waiting done st keeps.settled;
  below =
      let same = reject_tab-next_promise tab st.waiting st in let low = keeps.below in omega arith;
}
step-Keeps (cancels q) p done st keeps = settle-Keeps q canceled p done st keeps
step-Keeps (releases id) p done st keeps = record { settled = keeps.settled; below = keeps.below }
step-Keeps (pin_targets id target) p done st keeps =
    let low = keeps.below in
    let found = keeps.settled in record { settled = ground arith; below = ground arith }
step-Keeps (stops id captured q) p done st keeps = record {
  settled = keeps.settled;
  below = keeps.below;
}
step-Keeps (requests f) p done st keeps = record { settled = keeps.settled; below = keeps.below }
step-Keeps (reports id tab) p done st keeps =
    let low = keeps.below in
    let found = keeps.settled in
    record {
      settled = ground (arith, get-put st.next_promise p none st.settled);
      below = omega arith;
    }

pub run-Keeps :
    (calls : List Call) (p : ℕ) (done : Settlement) (st : Gate)
    → Keeps p done st
    → Keeps p done (run calls st)
unfolding run
run-Keeps [] p done st keeps = keeps
run-Keeps (c ∷ calls) p done st keeps =
    run-Keeps calls p done (step c st) (step-Keeps c p done st keeps)

pub settle_self :
    (p : ℕ) (how : Settlement) (st : Gate)
    → get p st.settled ≡ some none
    → get p (settle p how st).settled ≡ some (some how)
unfolding settle
settle_self p how st pending = ground (arith, get-put_self p (some how) st.settled)

pub settle_other :
    (p q : ℕ) (how : Settlement) (st : Gate)
    → eqb q p ≡ false
    → get p (settle q how st).settled ≡ get p st.settled
unfolding settle
settle_other p q how st other = ground (arith, get-put q p (some how) st.settled)

reject_tab_settles :
    (tab p : ℕ) (id : String) (entries : JsMap String Waiting) (entry : Waiting) (st : Gate)
    → get id entries ≡ some entry
    → entry.tab_id ≡ tab
    → entry.promise ≡ p
    → get p st.settled ≡ some none
    → get p (reject_tab tab entries st).settled ≡ some (some target_changed)
unfolding reject_tab get
reject_tab_settles tab p id [] entry st h on_tab of_p pending = cc
reject_tab_settles tab p id ((j, first) ∷ rest) entry st h on_tab of_p pending =
    let next = if eqb first.tab_id tab then settle first.promise target_changed st else st in
    elim (Bool-cases (eqb first.tab_id tab && eqb first.promise p)) [
      | inl ours ↦
          let same : first.promise ≡ p = ground arith in
          let done = settle_self p target_changed st pending in
          reject_tab_keeps tab p rest target_changed next
            (let found = ap (λ q. get p (settle q target_changed st).settled) same in ground arith)
      | inr theirs ↦
          let later : get id rest ≡ some entry = ground arith in
          reject_tab_settles tab p id rest entry next later on_tab of_p
            (let kept = settle_other p first.promise target_changed st in ground arith)
    ]

-- When the target of a waiting mutation changes before the grant has come, the mutation is never
-- granted, whatever messages, cancellations and further mutations follow.
pub invalidate-run :
    (calls : List Call) (id : String) (entry : Waiting) (st : Gate)
    → get id st.waiting ≡ some entry
    → get entry.promise st.settled ≡ some none
    → entry.promise < st.next_promise
    → get entry.promise (run calls (invalidate entry.tab_id st)).settled
      ≡ some (some target_changed)
unfolding invalidate
invalidate-run calls id entry st there pending low =
    let same = reject_tab-next_promise entry.tab_id st.waiting st in
    (run-Keeps calls entry.promise target_changed (reject_tab entry.tab_id st.waiting st) (record {
      settled =
          reject_tab_settles entry.tab_id entry.promise id st.waiting entry st there refl refl
            pending;
      below = omega arith;
    })).settled
