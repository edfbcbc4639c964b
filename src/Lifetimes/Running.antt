-- ===== src/Lifetimes/Running.antt =====
-- Runs of calls: a guard that throws once throws from then on, and `cancel` makes it throw.
use browser_bridge.Prelude.{
  ℕ, ◌+◌, ◌≤◌, ◌≡◌, refl, sym, true, Option, none, some, List, [], ◌∷◌, String, arith, leb,
  Bool-cases, Option-cases, inl, inr, ◌||◌, nat_key, string_key, or_cases, or_left, or_right,
}
use browser_bridge.Prelude.JsMap.{size, get, has, put, put_cases, get-put, get-put_self}
use browser_bridge.Lifetimes.{
  Lifetimes, Lifetime, Request, begin, abort, cancel, track, untrack, cancel_owner, disconnect, key,
  guard, guard_throws, is_past, is_over, Call, step, run, begins, finishes, cancels, cancels_owner,
  tracks, untracks, expires, disconnects, initial,
}
use browser_bridge.Lifetimes.Kept.{
  IsSound, Evolves, Evolves-refl, Evolves-trans, update-Evolves, abort-Evolves, expire-Evolves,
  cancel-Evolves, abort_all-Evolves, finish-Evolves,
}

add_lifetime-Evolves :
    (id : String) (l : Lifetime) (st : Lifetimes)
    → IsSound st
    → Evolves st (record st {
      active = put id st.allocated st.active;
      heap = put st.allocated l st.heap;
      allocated = st.allocated + 1;
    })
add_lifetime-Evolves id l st sound =
    let older : (n : ℕ) (x : Lifetime)
        → get n st.heap ≡ some x
        → get n (put st.allocated l st.heap) ≡ some x =
      λ n x h. let low = sound.below n x h in ground (arith, get-put st.allocated n l st.heap) in
    record {
      sound = record {
        below = λ n x h. elim (put_cases st.allocated n l x st.heap h) [
          | inl (a, b) ↦ omega arith
          | inr before ↦ let low = sound.below n x before in omega arith
        ];
        named = λ j n h. elim (put_cases id j st.allocated n st.active h) [
          | inl (a, b) ↦ (l, rw (sym b) (get-put_self st.allocated l st.heap))
          | inr before ↦ let (x, there) = sound.named j n before in (x, older n x there)
        ];
      };
      ages = λ n x h. (x, (older n x h, record { same_deadline = refl; still_aborted = λ a. a }));
    }

begin-Evolves :
    (request : Request) (now : ℕ) (st : Lifetimes)
    → IsSound st
    → Evolves st (begin request now st).0
unfolding begin
begin-Evolves request now st sound =
    elim (Bool-cases (leb st.max_pending (size st.active) || has request.id st.active)) [
      | inl full ↦ rw full (Evolves-refl sound)
      | inr room ↦ rw room (add_lifetime-Evolves request.id _ st sound)
    ]

untrack-Evolves :
    (n canceler : ℕ) (st : Lifetimes) → IsSound st → Evolves st (untrack n canceler st)
unfolding untrack
untrack-Evolves n canceler st sound =
    update-Evolves n _ st (λ l. record { same_deadline = refl; still_aborted = λ a. a }) sound

track-Evolves :
    (id : String) (canceler : ℕ) (st : Lifetimes) → IsSound st → Evolves st (track id canceler st).0
unfolding track
track-Evolves id canceler st sound = elim (Option-cases (get (key id) st.active)) [
  | inl e ↦ rw (e, track) (Evolves-refl sound)
  | inr (n, e) ↦ elim (Option-cases (get n st.heap)) [
    | inl f ↦ rw (e, track) (rw f (Evolves-refl sound))
    | inr (l, f) ↦ elim (Bool-cases l.aborted) [
      | inl done ↦
          rw (e, track)
            (rw f (
              rw done (record {
                sound = record { below = sound.below; named = sound.named };
                ages = λ m x h. (x, (h, record { same_deadline = refl; still_aborted = λ a. a }));
              })))
      | inr live ↦
          rw (e, track)
            (rw f (
              rw live (
                update-Evolves n _ st (λ l. record { same_deadline = refl; still_aborted = λ a. a })
                  sound)))
    ]
  ]
]

step-Evolves : (c : Call) (st : Lifetimes) → IsSound st → Evolves st (step c st)
unfolding step cancel_owner disconnect
step-Evolves (begins request now) st sound = begin-Evolves request now st sound
step-Evolves (finishes id n) st sound = finish-Evolves id n st sound
step-Evolves (cancels id) st sound = cancel-Evolves id st sound
step-Evolves (cancels_owner owner) st sound = abort_all-Evolves _ _ st sound
step-Evolves (tracks id canceler) st sound = track-Evolves id canceler st sound
step-Evolves (untracks n canceler) st sound = untrack-Evolves n canceler st sound
step-Evolves (expires n) st sound = expire-Evolves n st sound
step-Evolves disconnects st sound = abort_all-Evolves _ _ st sound

pub run-Evolves : (calls : List Call) (st : Lifetimes) → IsSound st → Evolves st (run calls st)
unfolding run
run-Evolves [] st sound = Evolves-refl sound
run-Evolves (c ∷ calls) st sound =
    let first = step-Evolves c st sound in
    Evolves-trans first (run-Evolves calls (step c st) first.sound)

pub initial-IsSound : (max_pending : ℕ) → IsSound (initial max_pending)
unfolding initial get
initial-IsSound max_pending = record { below = λ n l h. cc; named = λ id n h. cc }

is_past_later :
    (deadline : Option ℕ) (now later : ℕ)
    → now ≤ later
    → is_past deadline now ≡ true
    → is_past deadline later ≡ true
unfolding is_past
is_past_later none now later le h = cc
is_past_later (some d) now later le h = ground arith

is_over_later :
    (captured : Option ℕ) (now later : ℕ) (st st' : Lifetimes)
    → Evolves st st'
    → now ≤ later
    → is_over captured now st ≡ true
    → is_over captured later st' ≡ true
unfolding is_over
is_over_later none now later st st' evolves le h = cc
is_over_later (some n) now later st st' evolves le h = elim (Option-cases (get n st.heap)) [
  | inl e ↦ absurd (ground arith)
  | inr (l, e) ↦
      let over : (l.aborted || leb l.deadline now) ≡ true = rw (e, is_over) at h in
      let (l', (there, older)) = evolves.ages n l e in
      rw (there, is_over)
        (elim (or_cases l.aborted (leb l.deadline now) over) [
          | inl gone ↦ or_left l'.aborted (leb l'.deadline later) (older.still_aborted gone)
          | inr past ↦
              or_right l'.aborted (leb l'.deadline later) (rw older.same_deadline (ground arith))
        ])
]

-- From a sound heap, once the check of a guard throws, it throws at every later time, whatever
-- calls come between: neither the end of the request nor a new request of the same id revives it.
pub guard_throws-run :
    (calls : List Call) (captured deadline : Option ℕ) (now later : ℕ) (st : Lifetimes)
    → IsSound st
    → now ≤ later
    → guard_throws captured deadline now st ≡ true
    → guard_throws captured deadline later (run calls st) ≡ true
unfolding guard_throws
guard_throws-run calls captured deadline now later st sound le h =
    elim (or_cases (is_over captured now st) (is_past deadline now) h) [
      | inl over ↦
          or_left _ _ (is_over_later captured now later st _ (run-Evolves calls st sound) le over)
      | inr past ↦ or_right _ _ (is_past_later deadline now later le past)
    ]

abort-is_over :
    (n now : ℕ) (l : Lifetime) (st : Lifetimes)
    → get n st.heap ≡ some l
    → is_over (some n) now (abort n st) ≡ true
unfolding abort is_over
abort-is_over n now l st e = elim (Bool-cases l.aborted) [
  | inl done ↦ rw (e, abort) (rw done (rw (e, is_over) (or_left _ _ done)))
  | inr live ↦ rw (e, abort) (rw live (rw (get-put_self n _ st.heap, is_over) refl))
]

-- In a sound heap, after `cancel` of a request that is active, the guard captured for it throws at
-- any time and after any further calls.
pub cancel-guard_throws :
    (calls : List Call) (id : String) (n : ℕ) (deadline : Option ℕ) (now : ℕ) (st : Lifetimes)
    → IsSound st
    → guard id st ≡ some n
    → guard_throws (some n) deadline now (run calls (cancel id st)) ≡ true
unfolding guard guard_throws cancel
cancel-guard_throws calls id n deadline now st sound active =
    let (l, e) = sound.named (key id) n active in
    let over = abort-is_over n now l st e in
    let ends = run-Evolves calls (abort n st) (abort-Evolves n st sound).sound in
    rw (active, cancel)
      (or_left _ _ (is_over_later (some n) now now (abort n st) _ ends (omega arith) over))
