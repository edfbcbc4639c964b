-- ===== src/Lifetimes/Kept.antt =====
-- How the heap of lifetimes evolves: nothing is lost, deadlines stand, and an abort is for good.
use browser_bridge.Prelude.{
  ℕ, ◌<◌, ◌≡◌, refl, sym, subst, ◌∙◌, Bool, true, false, none, some, List, [], ◌∷◌, String, arith,
  eqb, Bool-cases, Option-cases, inl, inr, nat_key, string_key,
}
use browser_bridge.Prelude.JsMap.{
  JsMap, get, put, delete, get-put, put_cases, get-put_self, get-delete,
}
use browser_bridge.Lifetimes.{
  Lifetimes, Lifetime, update, finish, is_current, abort, expire, cancel, abort_all, key,
}

-- A lifetime after some calls: the deadline is the same, and it has not been revived.
pub record Ages (l l' : Lifetime) : Type 0 where
  pub same_deadline : l'.deadline ≡ l.deadline
  pub still_aborted : l.aborted ≡ true → l'.aborted ≡ true

-- Every number in the heap was allocated, and every active request has its lifetime.
pub record IsSound (st : Lifetimes) : Type 0 where
  pub below : (n : ℕ) (l : Lifetime) → get n st.heap ≡ some l → n < st.allocated
  pub named :
      (id : String) (n : ℕ) → get id st.active ≡ some n → (l : Lifetime) × (get n st.heap ≡ some l)

pub record Evolves (st st' : Lifetimes) : Type 0 where
  pub sound : IsSound st'
  pub ages :
      (n : ℕ) (l : Lifetime)
      → get n st.heap ≡ some l
      → (l' : Lifetime) × ((get n st'.heap ≡ some l') × Ages l l')

pub Evolves-refl : {st : Lifetimes} → IsSound st → Evolves st st
Evolves-refl sound = record {
  sound = sound;
  ages = λ n l h. (l, (h, record { same_deadline = refl; still_aborted = λ a. a }));
}

pub Evolves-trans : {a b c : Lifetimes} → Evolves a b → Evolves b c → Evolves a c
Evolves-trans f g = record {
  sound = g.sound;
  ages = λ n l h.
      let (m, (there, older)) = f.ages n l h in
      let (o, (last, oldest)) = g.ages n m there in
      (
        o,
        (
          last,
          record {
            same_deadline = oldest.same_deadline ∙ older.same_deadline;
            still_aborted = λ a. oldest.still_aborted (older.still_aborted a);
          },
        ),
      );
}

write-Ages :
    (n : ℕ) (l l' : Lifetime) (heap : JsMap ℕ Lifetime)
    → get n heap ≡ some l
    → Ages l l'
    → (m : ℕ) (x : Lifetime) → get m heap ≡ some x
    → (x' : Lifetime) × ((get m (put n l' heap) ≡ some x') × Ages x x')
write-Ages n l l' heap here older m x h = elim (Bool-cases (eqb n m)) [
  | inl same ↦
      let at : n ≡ m = ground arith in
      let it : l ≡ x = ground arith in
      (l', (rw (sym at) (get-put_self n l' heap), subst (λ y. Ages y l') it older))
  | inr other ↦ (
    x,
    (ground (arith, get-put n m l' heap), record { same_deadline = refl; still_aborted = λ a. a }),
  )
]

-- A write to an object that is there, which changes nothing else that matters here.
pub write-Evolves :
    (n : ℕ) (l l' : Lifetime) (st st' : Lifetimes)
    → IsSound st
    → get n st.heap ≡ some l
    → Ages l l'
    → st'.heap ≡ put n l' st.heap
    → st'.active ≡ st.active
    → st'.allocated ≡ st.allocated
    → Evolves st st'
write-Evolves n l l' st st' sound here older heap active allocated = record {
  sound = record {
    below = λ m x h. elim (put_cases n m l' x st.heap (rw (sym heap) h)) [
      | inl (a, b) ↦ let low = sound.below n l here in rw (allocated, sym a) low
      | inr before ↦ rw allocated (sound.below m x before)
    ];
    named = λ id m h.
        let (x, there) = sound.named id m (rw (sym active) h) in
        let (x', (later, ages)) = write-Ages n l l' st.heap here older m x there in
        (x', rw heap later);
  };
  ages = λ m x h. rw heap (write-Ages n l l' st.heap here older m x h);
}

pub update-Evolves :
    (n : ℕ) (f : Lifetime → Lifetime) (st : Lifetimes)
    → ((l : Lifetime) → Ages l (f l))
    → IsSound st
    → Evolves st (update n f st)
unfolding update
update-Evolves n f st older sound = elim (Option-cases (get n st.heap)) [
  | inl e ↦ rw (e, update) (Evolves-refl sound)
  | inr (l, e) ↦ rw (e, update) (write-Evolves n l (f l) st _ sound e (older l) refl refl refl)
]

pub abort-Evolves : (n : ℕ) (st : Lifetimes) → IsSound st → Evolves st (abort n st)
unfolding abort
abort-Evolves n st sound = elim (Option-cases (get n st.heap)) [
  | inl e ↦ rw (e, abort) (Evolves-refl sound)
  | inr (l, e) ↦ elim (Bool-cases l.aborted) [
    | inl done ↦ rw (e, abort) (rw done (Evolves-refl sound))
    | inr live ↦
        rw (e, abort)
          (rw live (
            write-Evolves n l (record l { aborted = true }) st _ sound e
              (record { same_deadline = refl; still_aborted = λ a. refl }) refl refl refl))
  ]
]

pub expire-Evolves : (n : ℕ) (st : Lifetimes) → IsSound st → Evolves st (expire n st)
unfolding expire
expire-Evolves n st sound = elim (Option-cases (get n st.heap)) [
  | inl e ↦ rw (e, expire) (Evolves-refl sound)
  | inr (l, e) ↦ elim (Bool-cases l.timer) [
    | inl armed ↦ rw (e, expire) (rw armed (abort-Evolves n st sound))
    | inr cleared ↦ rw (e, expire) (rw cleared (Evolves-refl sound))
  ]
]

pub cancel-Evolves : (id : String) (st : Lifetimes) → IsSound st → Evolves st (cancel id st)
unfolding cancel
cancel-Evolves id st sound = elim (Option-cases (get (key id) st.active)) [
  | inl e ↦ rw (e, cancel) (Evolves-refl sound)
  | inr (n, e) ↦ rw (e, cancel) (abort-Evolves n st sound)
]

pub abort_all-Evolves :
    (stops : Lifetime → Bool) (ns : List ℕ) (st : Lifetimes)
    → IsSound st
    → Evolves st (abort_all stops ns st)
unfolding abort_all
abort_all-Evolves stops [] st sound = Evolves-refl sound
abort_all-Evolves stops (n ∷ ns) st sound =
    let hit : Bool = elim (get n st.heap) [ none ↦ false | some lifetime ↦ stops lifetime ] in
    elim (Bool-cases hit) [
      | inl e ↦
          let first = abort-Evolves n st sound in
          rw e (Evolves-trans first (abort_all-Evolves stops ns (abort n st) first.sound))
      | inr e ↦ rw e (abort_all-Evolves stops ns st sound)
    ]

-- Fewer active requests.
pub fewer-Evolves :
    (id : String) (st : Lifetimes)
    → IsSound st
    → Evolves st (record st { active = delete id st.active })
fewer-Evolves id st sound = record {
  sound = record {
    below = sound.below;
    named = λ j n h. sound.named j n (ground (arith, get-delete id j st.active));
  };
  ages = λ n l h. (l, (h, record { same_deadline = refl; still_aborted = λ a. a }));
}

pub finish-Evolves :
    (id : String) (n : ℕ) (st : Lifetimes) → IsSound st → Evolves st (finish id n st)
unfolding finish
finish-Evolves id n st sound =
    let stopped =
      update-Evolves n (λ l. record l { timer = false }) st
        (λ l. record { same_deadline = refl; still_aborted = λ a. a }) sound in
    elim (Bool-cases (is_current id n st)) [
      | inl e ↦ rw e (Evolves-trans stopped (fewer-Evolves id _ stopped.sound))
      | inr e ↦ rw e stopped
    ]
