-- ===== src/Lib.antt =====
-- Fieldstream: telemetry of industrial devices from Modbus to a live view.
--
-- The edge collector asks each device by a read plan, with a circuit breaker for each device, and puts
-- what it reads into a bounded publisher towards Kafka. The stream processor decodes the registers,
-- runs the alarm engine on each device's values and folds the health of the tree. The API gateway
-- keeps the last live events in a ring for its clients. This development models the parts that carry
-- this logic, each from its source:
--
--   Contracts   packages/contracts/src: the modes, severities, statuses and register types shared.
--   Alarms      packages/domain/src/alarms.ts: evaluateDeviceAlarms and all that it calls.
--   ReadPlan    packages/device-profiles/src/frames/read-plan.ts: buildDeviceReadPlan, with the three
--               kinds of plan, and the errors thrown as results.
--   Health      packages/domain/src/health.ts: buildHealthTree, from device to site.
--   Publisher   services/edge-collector/src/publish/bounded-publisher.ts: enqueue, close and the pump.
--   LiveRing    services/api-gateway/src/events/live-ring.ts: append and since.
--   Codec       packages/modbus-codec/src: byte orders, and whole numbers in registers.
--   Handovers   services/stream-processor/src/ingest/assignment.ts: the queue of device handovers.
--   Spikes      packages/domain/src/filters.ts: spikeFilter.
--   Events      packages/domain/src/events.ts: detectDeviceEvents.
--   ModeSpans   packages/domain/src/mode-spans.ts: buildModeSpans.
--   Breaker     services/edge-collector/src/breaker/breaker.ts.
--   Polling     services/edge-collector/src: transport (errors, backoff, timeouts), and in polling
--               device-poll.ts (pollDevice) and latency.ts (createLatencyTracker, summarizeLatency).
--   Line        services/edge-collector/src/polling: line-worker.ts, and what frames.ts builds. Pass has
--               pollLine, Lifecycle has guardedCycle and runCycle with the watchdog.
--   CoPartition packages/kafka/src/partitioning.ts: the assignment of partitions to a group's members.
--   Tracker     services/stream-processor/src/health/tracker.ts: createHealthTracker, over Health and
--               Events. Check has evaluate, Frames has draftFrames, Stand the stand and its leaves.
--   Common      names shared by all: tests, lists, association lists, signed integers.
--
-- A component's file holds its operations under the names of the source in snake case, and the files
-- in its folder hold its theorems; Tests has runs on concrete inputs.
--
-- How the source is read:
--   * Times, counts, addresses and sizes are natural numbers. Where the source compares a difference
--     that could be negative, the comparison is written as one of sums.
--   * Measured values are JavaScript numbers. Alarms and Spikes take their order, sum and
--     difference as an interface (Contracts.Numbers).
--   * A timestamp in ISO form is kept as the instant it prints or that Date.parse reads, and the
--     identifier of a live event as its two numbers.
--   * localeCompare is a parameter of the read plan. Metric keys are sorted by code points, which is
--     the order of the source's sort on the keys in use.
--   * The publisher's pump is asynchronous: what runs between two waits is one step, and a history is
--     any sequence of puts, outcomes of sending, wake-ups, ends and closings. An event the pump does
--     not wait for changes nothing.
--   * A handover's step is one transition, since the queue runs its steps one after the other. The
--     partition of a key is a parameter: the Kafka client computes it.
--   * The line worker is asynchronous too: a pass runs from one wait to the next, and an answer wakes
--     it. The watchdog abandons a pass, which still waits and may be woken later, on the state of
--     that moment. The port is the answers it gives; the clock is read once after an answer. The
--     object of a device's slot, whose breaker changes, is a place in a store of breakers, and the
--     cache of read plans is left out, since a plan is a function of profile and mode.
--   * A track of the health tracker is an object that commit compares by identity: it has a stamp,
--     given when it is made. Its maps by device are functions, since no order of theirs is read, and
--     the signature of a state is kept as its three parts.
--   * A throw is a result (Built), a null an Option, and a map an association list.
--   * All loops are structural recursion, so no fuel is needed.
--
-- Not modelled: SQL stores, HTTP controllers, the Kafka wrappers but for the assigner, the device
-- simulator, the web application and the tools, which are input and output around this logic; of the
-- line worker its start, its stop and the snapshot for debugging; in the codec the scale, the precision,
-- names of states and bit flags.
pub mod Common
pub mod Contracts
pub mod Breaker
pub mod Alarms
pub mod Health
pub mod ReadPlan
pub mod Publisher
pub mod LiveRing
pub mod ModeSpans
pub mod Codec
pub mod Handovers
pub mod Spikes
pub mod Events
pub mod Polling
pub mod Line
pub mod CoPartition
pub mod Tracker
