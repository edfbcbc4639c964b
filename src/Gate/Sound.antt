-- ===== src/Gate/Sound.antt =====
-- The promise of every mutation that waits at the gate has been numbered.
use browser_bridge.Prelude.{
  ℕ, ◌<◌, ◌≡◌, refl, Option, some, List, [], ◌∷◌, String, arith, eqb, if◌then◌else◌, Bool-cases,
  inl, inr, nat_key, string_key, ◌===◌, sym, ap, ◌∙◌,
}
use browser_bridge.Prelude.JsMap.{JsMap, get, get-put, get-delete}
use browser_bridge.Gate.{
  Gate, Waiting, Target, Settlement, granted, target_changed, canceled, settle, handle, reject_tab,
  invalidate, release, report_ready, pin_target, stop_waiting, Call, handles, invalidates, cancels,
  releases, reports, pin_targets, stops, requests, step, run,
}
use browser_bridge.Gate.Settled.{handle_cases, settle-next_promise, reject_tab-next_promise}

pub settle-waiting : (q : ℕ) (how : Settlement) (st : Gate) → (settle q how st).waiting ≡ st.waiting
unfolding settle
settle-waiting q how st = ground arith

pub reject_tab-waiting :
    (tab : ℕ) (entries : JsMap String Waiting) (st : Gate)
    → (reject_tab tab entries st).waiting ≡ st.waiting
unfolding reject_tab
reject_tab-waiting tab [] st = refl
reject_tab-waiting tab ((id, entry) ∷ rest) st =
    reject_tab-waiting tab rest
      (if eqb entry.tab_id tab then settle entry.promise target_changed st else st)
    ∙ (let same = settle-waiting entry.promise target_changed st in ground arith)

pub pin_target-waiting :
    (id : String) (target : Target) (st : Gate) → (pin_target id target st).waiting ≡ st.waiting
unfolding pin_target
pin_target-waiting id target st = ground arith

pub pin_target-next_promise :
    (id : String) (target : Target) (st : Gate)
    → (pin_target id target st).next_promise ≡ st.next_promise
unfolding pin_target
pin_target-next_promise id target st = ground arith

pub pin_target-settled :
    (id : String) (target : Target) (st : Gate) → (pin_target id target st).settled ≡ st.settled
unfolding pin_target
pin_target-settled id target st = ground arith

-- The promise of every mutation that waits has been numbered.
abbrev pub IsSound : Gate → Type 0
IsSound st =
    (id : String) (entry : Waiting)
    → get id st.waiting ≡ some entry
    → entry.promise < st.next_promise

same-IsSound :
    (st st' : Gate)
    → st'.waiting ≡ st.waiting
    → st'.next_promise ≡ st.next_promise
    → IsSound st
    → IsSound st'
same-IsSound st st' waiting next sound id entry there =
    let low = sound id entry (ap (get id) (sym waiting) ∙ there) in omega arith

pub handle-waiting :
    (type : String) (request_id : Option String) (st : Gate)
    → ((handle type request_id st).0.waiting ≡ st.waiting)
      × ((handle type request_id st).0.next_promise ≡ st.next_promise)
handle-waiting type request_id st = elim (handle_cases type request_id st) [
  | inl e ↦ (ap (λ (g : Gate). g.waiting) e, ap (λ (g : Gate). g.next_promise) e)
  | inr (id, (entry, (_, _, e))) ↦ (
    ap (λ (g : Gate). g.waiting) e ∙ settle-waiting entry.promise granted st,
    ap (λ (g : Gate). g.next_promise) e ∙ settle-next_promise entry.promise granted st,
  )
]

pub step-IsSound : (c : Call) (st : Gate) → IsSound st → IsSound (step c st)
unfolding step invalidate release report_ready stop_waiting
step-IsSound (handles type request_id) st sound =
    let (waiting, next) = handle-waiting type request_id st in
    same-IsSound st (handle type request_id st).0 waiting next sound
step-IsSound (invalidates tab) st sound =
    same-IsSound st (reject_tab tab st.waiting st) (reject_tab-waiting tab st.waiting st)
      (reject_tab-next_promise tab st.waiting st) sound
step-IsSound (cancels p) st sound =
    same-IsSound st (settle p canceled st) (settle-waiting p canceled st)
      (settle-next_promise p canceled st) sound
step-IsSound (releases id) st sound = sound
step-IsSound (pin_targets id target) st sound =
    same-IsSound st (pin_target id target st) (pin_target-waiting id target st)
      (pin_target-next_promise id target st) sound
step-IsSound (reports id tab) st sound = λ other entry there. elim (Bool-cases (id === other)) [
  | inl same ↦
      ground
        (arith, get-put id other (record { tab_id = tab; promise = st.next_promise }) st.waiting)
  | inr differs ↦
      let low = sound other entry (
        ground (
          arith,
          get-put id other (record { tab_id = tab; promise = st.next_promise }) st.waiting,
        )) in
      omega arith
]
step-IsSound (stops id captured p) st sound =
    λ other entry there. sound other entry (ground (arith, get-delete id other st.waiting))
step-IsSound (requests f) st sound = sound

pub run-IsSound : (calls : List Call) (st : Gate) → IsSound st → IsSound (run calls st)
unfolding run
run-IsSound [] st sound = sound
run-IsSound (c ∷ calls) st sound = run-IsSound calls (step c st) (step-IsSound c st sound)
