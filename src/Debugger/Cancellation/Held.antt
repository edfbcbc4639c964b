-- ===== src/Debugger/Cancellation/Held.antt =====
-- What a cleanup that has not been released keeps out.
use browser_bridge.Prelude.{
  ℕ, ◌<◌, ◌≡◌, ◌↔◌, any, Bool, true, false, some, List, [], ◌∷◌, arith, eqb, or_else, Option-cases,
  inl, inr, nat_key,
}
use browser_bridge.Prelude.JsMap.{get, has, get-put}
use browser_bridge.Debugger.Cancellation.{
  Cancellation, Release, initial, cancel, start_task, end_task, begin_cleanup, release,
  commit_cleanup, Call, cancels, starts, ends, begins_cleanup, releases, commits, step, run,
  can_start, can_start_work,
}
use browser_bridge.Debugger.Cancellation.Barriers.{
  IsSound, outstanding, outstanding_witness, step-IsSound, run-IsSound, initial-IsSound,
}

-- After any calls from the start, a barrier stands for a tab exactly when a cleanup of that tab has
-- a release closure that has not been called.
pub run-barriers_iff :
    (calls : List Call) (tab : ℕ)
    → (has tab (run calls initial).barriers ≡ true) ↔ (
        (r : ℕ) × (rel : Release) × (get r (run calls initial).releases ≡ some rel)
        × (rel.released ≡ false)
        × (rel.tab ≡ tab))
run-barriers_iff calls tab =
    let sound = run-IsSound calls initial initial-IsSound in
    (
      λ h. elim (Option-cases (get tab (run calls initial).barriers)) [
        | inl e ↦ absurd (ground arith)
        | inr (b, e) ↦
            let some_left : 0 < outstanding b (run calls initial).releases =
              omega (arith, sound.positive tab b e, sound.exact b) in
            let (r, rel, found, live, of_b) =
              outstanding_witness b (run calls initial).releases sound.distinct some_left in
            let at_tab = sound.standing r rel found live in
            (r, rel, found, live, sound.alone rel.tab tab b (cc) e)
      ],
      λ w.
          let (r, rel, found, live, of_tab) = w in
          let at_tab = sound.standing r rel found live in ground arith,
    )

abbrev pub calls_release : ℕ → Call → Bool
calls_release r (releases s) = eqb r s
calls_release r (cancels t) = false
calls_release r (starts t g) = false
calls_release r (ends t g) = false
calls_release r (begins_cleanup t) = false
calls_release r (commits t) = false

release-keeps_release :
    (r s : ℕ) (rel : Release) (c : Cancellation)
    → get r c.releases ≡ some rel
    → eqb r s ≡ false
    → get r (release s c).releases ≡ some rel
unfolding release
release-keeps_release r s rel c here other = elim (Option-cases (get s c.releases)) [
  | inl e ↦ rw (e, release) here
  | inr (old, e) ↦
      let kept = get-put s r (record old { released = true }) c.releases in ground arith
]

step-keeps_release :
    (call : Call) (r : ℕ) (rel : Release) (c : Cancellation)
    → IsSound c
    → get r c.releases ≡ some rel
    → calls_release r call ≡ false
    → get r (step call c).releases ≡ some rel
unfolding step cancel start_task end_task begin_cleanup commit_cleanup
step-keeps_release (cancels t) r rel c sound here other = here
step-keeps_release (starts t g) r rel c sound here other = here
step-keeps_release (ends t g) r rel c sound here other = here
step-keeps_release (begins_cleanup t) r rel c sound here other =
    let low = sound.release_below r rel here in
    let new : Release = record {
      tab = t;
      barrier = or_else (get t c.barriers) c.next_barrier;
      released = false;
    } in
    ground (arith, get-put c.next_release r new c.releases)
step-keeps_release (releases s) r rel c sound here other =
    release-keeps_release r s rel c here other
step-keeps_release (commits t) r rel c sound here other = ground arith

run-keeps_release :
    (calls : List Call) (r : ℕ) (rel : Release) (c : Cancellation)
    → IsSound c
    → get r c.releases ≡ some rel
    → any (calls_release r) calls ≡ false
    → get r (run calls c).releases ≡ some rel
unfolding run
run-keeps_release [] r rel c sound here never = here
run-keeps_release (call ∷ calls) r rel c sound here never =
    run-keeps_release calls r rel (step call c) (step-IsSound call c sound)
      (step-keeps_release call r rel c sound here (ground arith)) (ground arith)

-- The release closure of a cleanup keeps the barrier up until it is called, whatever other calls
-- come: no work starts on the tab, not even after a new generation.
pub run-can_start_held :
    (calls : List Call) (r : ℕ) (rel : Release) (c : Cancellation)
    → IsSound c
    → get r c.releases ≡ some rel
    → rel.released ≡ false
    → any (calls_release r) calls ≡ false
    → can_start rel.tab (run calls c) ≡ false
unfolding can_start can_start_work
run-can_start_held calls r rel c sound here live never =
    let kept = run-keeps_release calls r rel c sound here never in
    let at_tab = (run-IsSound calls c sound).standing r rel kept live in ground arith
