-- ===== src/Reconnect/Tests.antt =====
-- Runs of the reconnection policy, and the theorems at concrete inputs.
use browser_bridge.Prelude.{◌≡◌, refl, [], ◌∷◌, arith, min}
use browser_bridge.Reconnect.{
  record_native_disconnect, is_native_connection_unstable, schedule_reconnect_attempt,
}
use browser_bridge.Reconnect.Window.{
  record_all, record_all-is_native_connection_unstable, delay_after, delay_after-doubled, doubled,
}

reconnects : Unit {0}
unfolding record_native_disconnect is_native_connection_unstable schedule_reconnect_attempt
reconnects = tt

pruned : record_native_disconnect (10 ∷ 200 ∷ []) 250 100 ≡ 200 ∷ 250 ∷ []
unfolding reconnects
pruned = refl

record_all-is_native_connection_unstable_example :
    is_native_connection_unstable (record_all 100 [] (10 ∷ 200 ∷ 250 ∷ [])) 260 100 2
    ≡ is_native_connection_unstable (10 ∷ 200 ∷ 250 ∷ []) 260 100 2
record_all-is_native_connection_unstable_example =
    record_all-is_native_connection_unstable (10 ∷ 200 ∷ 250 ∷ []) 260 100 2
      (omega arith, (omega arith, (omega arith, omega arith)))

delayed_thrice : delay_after 3 500 3000 ≡ min (doubled 3 500) 3000
delayed_thrice = delay_after-doubled 3 500 3000 (omega arith)
