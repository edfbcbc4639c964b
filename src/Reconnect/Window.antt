-- ===== src/Reconnect/Window.antt =====
-- The pruned list of disconnects answers like the whole log, and the backoff is a capped doubling.
use mathlib.Core.List.{append-nil, append_assoc}
use browser_bridge.Prelude.{
  ℕ, zero, suc, ◌*◌, ◌≤◌, ◌≡◌, refl, sym, ap, min, false, none, List, [], ◌∷◌, ◌++◌, leb, arith,
  filter, length, Each, filter-append, Each-append, Each-filter, Bool-cases, inl, inr, ◌∙◌,
}
use browser_bridge.Reconnect.{
  schedule_reconnect_attempt, is_recent, record_native_disconnect, is_native_connection_unstable,
}

-- The disconnects at the times of a log, recorded one after the other.
pub record_all : ℕ → List ℕ → List ℕ → List ℕ
record_all window_ms times [] = times
record_all window_ms times (now ∷ log) =
    record_all window_ms (record_native_disconnect times now window_ms) log

-- The times of a log do not go back, from a first time on, up to a last one.
abbrev pub Rises : ℕ → List ℕ → ℕ → Type 0
Rises from [] to = from ≤ to
Rises from (at ∷ log) to = (from ≤ at) × Rises at log to

Rises-le : (from : ℕ) (log : List ℕ) (to : ℕ) → Rises from log to → from ≤ to
Rises-le from [] to h = h
Rises-le from (at ∷ log) to h = let rest = Rises-le at log to h.1 in ground (arith, h.0)

-- What is recent later was recent before, so that a filter in between loses nothing.
filter_twice :
    (now later window_ms : ℕ) (times : List ℕ)
    → Each (λ at. at ≤ now) times
    → now ≤ later
    → filter (is_recent later window_ms) (filter (is_recent now window_ms) times)
      ≡ filter (is_recent later window_ms) times
filter_twice now later window_ms [] h le = refl
filter_twice now later window_ms (at ∷ times) h le =
    let rest = filter_twice now later window_ms times h.1 le in
    let low = h.0 in
    elim (Bool-cases (is_recent now window_ms at)) [
      | inl recent ↦ rw (recent, rest) refl
      | inr old ↦
          let older : is_recent later window_ms at ≡ false = ground arith in
          rw (old, rest, older) refl
    ]

record_native_disconnect-filter :
    (now later window_ms : ℕ) (times : List ℕ)
    → Each (λ at. at ≤ now) times
    → now ≤ later
    → filter (is_recent later window_ms) (record_native_disconnect times now window_ms)
      ≡ filter (is_recent later window_ms) times ++ filter (is_recent later window_ms) (now ∷ [])
unfolding record_native_disconnect
record_native_disconnect-filter now later window_ms times h le =
    let kept = filter_twice now later window_ms times h le in
    filter-append (is_recent later window_ms) (filter (is_recent now window_ms) times) (now ∷ [])
    ∙ ap (λ l. l ++ filter (is_recent later window_ms) (now ∷ [])) kept

Each-le : (a b : ℕ) (times : List ℕ) → a ≤ b → Each (λ at. at ≤ a) times → Each (λ at. at ≤ b) times
Each-le a b [] le h = tt
Each-le a b (at ∷ times) le h = (ground (arith, h.0), Each-le a b times le h.1)

record_native_disconnect-Each :
    (now window_ms : ℕ) (times : List ℕ)
    → Each (λ at. at ≤ now) times
    → Each (λ at. at ≤ now) (record_native_disconnect times now window_ms)
unfolding record_native_disconnect
record_native_disconnect-Each now window_ms times h =
    Each-append (λ at. at ≤ now) _ (now ∷ []) (Each-filter (λ at. at ≤ now) _ times h)
      (omega arith, tt)

record_all-filter :
    (from later window_ms : ℕ) (times log : List ℕ)
    → Each (λ at. at ≤ from) times
    → Rises from log later
    → filter (is_recent later window_ms) (record_all window_ms times log)
      ≡ filter (is_recent later window_ms) times ++ filter (is_recent later window_ms) log
unfolding record_all
record_all-filter from later window_ms times [] h rises = sym (append-nil _)
record_all-filter from later window_ms times (now ∷ log) h rises =
    let low = Each-le from now times rises.0 h in
    let next = record_native_disconnect-Each now window_ms times low in
    let rest =
      record_all-filter now later window_ms (record_native_disconnect times now window_ms) log next
        rises.1 in
    let step =
      record_native_disconnect-filter now later window_ms times low
        (Rises-le now log later rises.1) in
    let p = is_recent later window_ms in
    rest
    ∙ ap (λ l. l ++ filter p log) step
    ∙ append_assoc (filter p times) (filter p (now ∷ [])) (filter p log)
    ∙ ap (λ l. filter p times ++ l) (sym (filter-append p (now ∷ []) log))

-- After any log of disconnects whose times do not go back, the pruned list judges the connection at
-- a later time exactly as the whole log would.
pub record_all-is_native_connection_unstable :
    (log : List ℕ) (later window_ms threshold : ℕ)
    → Rises 0 log later
    → is_native_connection_unstable (record_all window_ms [] log) later window_ms threshold
      ≡ is_native_connection_unstable log later window_ms threshold
unfolding is_native_connection_unstable
record_all-is_native_connection_unstable log later window_ms threshold h =
    ap (λ l. leb threshold (length l)) (record_all-filter 0 later window_ms [] log tt h)

-- The delay after a number of attempts from the first delay.
pub delay_after : ℕ → ℕ → ℕ → ℕ
delay_after zero first max_delay = first
delay_after (suc n) first max_delay =
    (schedule_reconnect_attempt {T = ℕ} none (delay_after n first max_delay) max_delay).next_delay

abbrev pub doubled : ℕ → ℕ → ℕ
doubled zero first = first
doubled (suc n) first = doubled n first * 2

-- From a first delay within the limit, the delay after n attempts is the first one doubled n times,
-- but at most the limit.
pub delay_after-doubled :
    (n first max_delay : ℕ)
    → first ≤ max_delay
    → delay_after n first max_delay ≡ min (doubled n first) max_delay
unfolding delay_after schedule_reconnect_attempt
delay_after-doubled zero first max_delay h = ground arith
delay_after-doubled (suc n) first max_delay h =
    let before = delay_after-doubled n first max_delay h in ground arith
