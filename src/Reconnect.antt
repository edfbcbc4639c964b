-- ===== src/Reconnect.antt =====
-- packages/extension/src/background-reconnect.ts: the backoff of reconnection attempts, and the
-- window of recent disconnects. Delays and times are whole milliseconds. The timers are the
-- platform's, so an attempt is what is asked of it: the timer to clear and the delay to set.
pub mod Window
pub mod Tests
use browser_bridge.Prelude.{
  ℕ, zero, suc, ◌+◌, ◌-◌, ◌*◌, min, Bool, true, false, ◌&&◌, Option, none, some, List, [], ◌∷◌,
  ◌++◌, ltb, leb, filter, length,
}

pub record Attempt (T : Type 0) : Type 0 where
  pub cleared : Option T
  pub delay : ℕ
  pub next_delay : ℕ

pub schedule_reconnect_attempt : {T : Type 0} → Option T → ℕ → ℕ → Attempt T
schedule_reconnect_attempt current_timer current_delay max_delay = record {
  cleared = current_timer;
  delay = current_delay;
  next_delay = min (current_delay * 2) max_delay;
}

-- `at <= now && now - at <= windowMs`
abbrev pub is_recent : ℕ → ℕ → ℕ → Bool
is_recent now window_ms at = leb at now && leb (now - at) window_ms

pub record_native_disconnect : List ℕ → ℕ → ℕ → List ℕ
record_native_disconnect disconnect_times now window_ms =
    filter (is_recent now window_ms) disconnect_times ++ now ∷ []

pub is_native_connection_unstable : List ℕ → ℕ → ℕ → ℕ → Bool
is_native_connection_unstable disconnect_times now window_ms threshold =
    leb threshold (length (filter (is_recent now window_ms) disconnect_times))
