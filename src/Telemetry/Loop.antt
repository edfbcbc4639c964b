-- ===== src/Telemetry/Loop.antt =====
-- When a kind is reported as looping.
use browser_bridge.Prelude.{ℕ, String}
use browser_bridge.Telemetry.{EventKind, Collector, failure, kind_key, failure_key, record_event}
use browser_bridge.Telemetry.Groups.{Groups}
use browser_bridge.Telemetry.Sound.{Sound}

abbrev failing : EventKind → String → ℕ → Collector → Collector
failing kind group at c = record_event c kind failure group at
