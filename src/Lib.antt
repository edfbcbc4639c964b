-- ===== src/Lib.antt =====
-- Browser Bridge lets a coding agent work in one explicitly enabled window of a real browser. An
-- agent's call goes from a command line or MCP process through a Go daemon and the native messaging
-- host to the extension's service worker (packages/extension/src/background*.ts), which routes it
-- to a tab, to the debugger, or to the content scripts of the page (content-*.ts). protocol/src
-- holds what all of them share. This library models the parts of the extension and the protocol
-- whose correctness is a matter of state: stores with quotas and expiry, references into a changing
-- page, cancellation, counters over time, and a matcher.
--
-- Files, each with children named for what they prove and a Tests child with runs:
-- - Prelude: Boolean tests, lists, keys, and JavaScript's Map as a list of entries in the order of
--   insertion (Prelude/JsMap).
-- - UrlPattern: packages/extension/src/background-url-pattern.ts. The compiler from a pattern to
--   tokens and the matcher, which keeps the set of token positions that are reachable; it is
--   compared with a declarative matcher by recursion (UrlPattern/Language). Texts are lists of
--   UTF-16 units or code points alike, since no operation looks inside a character.
-- - Telemetry: protocol/src/recovery-telemetry.ts. The ring of minute buckets, the failure groups,
--   the public summary. It is compared with a replay of the log of events (Telemetry/Counts).
--   Floating-point rates are a parameter.
-- - Baselines: packages/extension/src/background-dom-baselines.ts, with its limits from
--   protocol/src/defaults.ts. The store of DOM baselines: creation with eviction, reading, expiry,
--   release, invalidation, clearing. The serialised size of a snapshot and the ids that the platform
--   generates are part of the input of a call.
-- - Nodes and Compare: the comparison of two snapshots of the same file. Nodes holds the nodes, JSON
--   values and their canonical texts; Compare finds what was added, removed, changed and moved.
--   Baselines/Comparing applies it to a stored baseline.
-- - Registry: packages/extension/src/content-element-registry.ts, with
--   pruneElementRegistryEntries of content-script-helpers.ts. References to page elements: minting,
--   eviction, pruning, staleness and recovery. The page is an argument of each call.
-- - Lifetimes: packages/extension/src/background-request-lifetime.ts. Active requests, deadlines,
--   guards, cancelers. Lifetime objects stand in a heap, since closures keep them.
-- - Access: packages/extension/src/background-access.ts and background-routing.ts. The grant of the
--   enabled window, the access status and the tabs a request may be routed to. What the browser
--   answers is an argument.
-- - Reconnect: packages/extension/src/background-reconnect.ts. The backoff of reconnection attempts
--   and the window of recent disconnects.
-- - Patch: packages/extension/src/content-patch.ts. DOM patches of elements, the registry of the
--   active ones, and their rollback. What the DOM does with attribute names and with class names is
--   the record Dom.
-- - Debugger: packages/extension/src/debugger-coordinator.ts. Dialogs holds the dialogs of the tabs
--   and who waits for them; Cancellation the generations, the tasks in flight and the cleanup
--   barriers, which stand in a heap since closures keep them; Sessions the attachments, holds and
--   timers, and Sessions/Runs, Sessions/Holds and Sessions/DialogLane the operations that await
--   Chrome. Such an operation is a function of what each await brings: an error or none, and what
--   others do to the coordinator meanwhile, which may be anything unless a theorem says otherwise.
-- - Gate: packages/extension/src/background-mutation-gate.ts, in the same style. A mutation waits for
--   the daemon's grant, with the lifetimes of Lifetimes as part of the state.
-- - Journal: packages/extension/src/recording-journal.ts. The acknowledged messages to the native
--   host, and the append of a record in chunks.
--
-- The parts meet in the service worker: Access picks the tab, Lifetimes guards every command, the
-- content script asks Registry for elements, Baselines serves the dom.baseline methods, UrlPattern
-- the interception of requests, Debugger serves the tabs whose access Access grants, Gate holds
-- scheduled mutations, Journal streams recordings, and Telemetry is fed with the outcome of
-- recoveries.
--
-- A store is a record, an operation a function from the store and its arguments to the store and
-- the result, and an error a value. Operations without await are atomic in JavaScript, so an
-- interleaving is a list of calls (`Call`, `step`, `run`), and an invariant is stated of every run.
-- Times are whole milliseconds and an argument of the calls.
--
-- Fuel: loops of the form `while (map.size > limit)` get one round for each entry, which is enough
-- since every round deletes one (Prelude.JsMap.size-bound_oldest, Registry.Room); the generation of
-- a baseline id has the source's own eight attempts, and a pruning batch its own hundred. An append
-- to the journal gets one round for each byte, which is enough since no chunk is empty.
--
-- Not modelled: pure input and output, the browser's interfaces, the Go daemon, the installers, and
-- the user interface; of Baselines the latency metrics, of Compare the guidance texts; of Registry
-- the description of an element, which reads the DOM, and the resolution of selectors; of Debugger
-- the race of a guarded task with a dialog.
pub mod Prelude
pub mod UrlPattern
pub mod Telemetry
pub mod Baselines
pub mod Registry
pub mod Lifetimes
pub mod Access
pub mod Reconnect
pub mod Patch
pub mod Nodes
pub mod Compare
pub mod Debugger
pub mod Gate
pub mod Journal
