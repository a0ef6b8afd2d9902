-- ===== src/Lib.antt =====
-- Mnemostroma is a memory layer for AI agents: a daemon that keeps the sessions of an agent in RAM
-- with a search index over them, and a gateway that sends chat requests to a provider with memory
-- injected. This library models the gateway's request path with its outbox, the circuit breaker,
-- the RAM store of sessions, the anchors, how sessions are linked to and checked against one
-- another, the guardian that warns of conflicts, and the paths of texts through the models and of
-- writes to the database, by functions that follow the Python code branch by branch.
--
-- The gateway (src/mnemostroma/gateway). A body is read and validated (request_policy.py), a memory
-- plan is made (memory_plan.py), and the executor (execution.py) takes a permit (admission.py),
-- asks the injector, sends the materialized request (materialize.py), normalizes the reply
-- (normalize.py) and schedules an observation (observer.py); metrics.py counts.
--   * Gateway.Json: the values that json.loads builds. A float is kept as its text.
--   * Gateway.Contracts: the records of contracts.py and provider.py.
--   * Gateway.Admission: DispatchAdmission of admission.py and validate_admission_config of
--     admission_policy.py. A lock is held over each acquisition, so it is one step.
--   * Gateway.RequestPolicy: read_bounded_body and validate_chat_request of request_policy.py, cut
--     into the tests that they make in order.
--   * Gateway.Plans: build_memory_plan, build_dispatch_plan and materialize_provider_request.
--   * Gateway.Normalize: normalize_completion.
--   * Gateway.Metrics: GatewayMetrics; times are whole seconds, where the code has floats.
--   * Gateway.Observation: ObservationTaskRegistry; a task is a number, and how it ends is an
--     argument. The failure of a task and the callback on it are two steps.
--   * Gateway.Routing: ModelRouter of routing.py, which chooses the provider of a model.
--   * Gateway.Execution: GatewayExecutor.execute as a computation on its state (admission, metrics,
--     observations) that may fail. The injector, the transport, json.loads and the clock are
--     arguments, and each awaited call may return, raise, or be cancelled. The registry's metrics
--     and the executor's are two values here, while the code shares one object; no theorem adds
--     them up.
--   * Gateway.Payload: UpstreamRouter._build_payload and what it calls (upstream_router.py). Tools
--     only travel along.
-- The circuit breaker (src/mnemostroma/circuit_breaker.py).
--   * CircuitBreaker: call, also in its two halves around the await, so that calls may overlap.
-- The RAM store (src/mnemostroma/core/__init__.py, src/mnemostroma/memory).
--   * Memory.Labels: the maps between sessions and rows of the search index in SystemContext.
--   * Memory.Dissolver: check_and_evict and evict_n_oldest of dissolver.py and the rebuild of the
--     index. A priority is an exact number where the code has a float, so sessions whose floats are
--     equal by rounding may be ordered differently. A vector is any type.
--   * Memory.Consolidation: step 1 of consolidate and _run_anchor_decay of consolidation.py, with
--     what they ask of the persistence layer.
--   * Memory.Experience: ExperienceCluster and ExperienceIndex of experience.py. Scores are counted
--     in thousandths, on the integers of Prelude.Integer; a reduction is an argument.
-- The outbox of the gateway (src/mnemostroma/gateway/outbox.py, observer_bridge.py,
-- openai_facade.py).
--   * Gateway.Outbox: the table of the events for the observer, as the list of its rows; each
--     statement is one step, and the database does not fail.
--   * Gateway.Stream: _stream_response with what it leaves in the outbox and in the audit table,
--     for every way in which a stream ends.
-- The anchors (src/mnemostroma/subconscious).
--   * Subconscious.Anchors: AnchorIndex of anchor_index.py with touch of anchor.py. The fields that
--     only travel along are one value of any type.
--   * Subconscious.Guardian: guardian.py. The similarity of a vector to the message, its rounding
--     and str.lower are arguments; times are whole seconds.
--   * Subconscious.Surfacing: surfacing.py, with the words of Subconscious.Guardian.
-- The observer and the tuner (src/mnemostroma/observer, src/mnemostroma/tuner).
--   * Observer.Continuation: _chain_depth and detect_continuation of continuation_detector.py. The
--     scores are arguments. The walk along a chain runs on fuel, one more than the number of
--     anchors; Python's own limit on recursion is not modelled.
--   * Tuner.Conflict: check_conflict and decisions_contradict of conflict.py, on the sessions of
--     Memory.Dissolver. The similarity of vectors, the ratio of two texts and the words of a text
--     are arguments. The new session is kept apart from the sessions in RAM: where RAM holds it
--     too, its flag is the one returned.
-- The models (src/mnemostroma/models).
--   * Models.Spans: gliner_decode.py, and what GLiNEREngine of gliner_engine.py does with the
--     answer of the model. The array of probabilities, after the sigmoid, is nested lists.
--   * Models.Chunks: chunk_content of embedding_utils.py. What the regular expressions and
--     str.split find, and the count of a tokenizer, are arguments.
-- The storage (src/mnemostroma/storage).
--   * Storage.WriteQueue: DatabaseManager of sqlite.py with its queue and worker, as steps that may
--     come in any order. A round of the worker takes one item, or none after a timeout.
--   * Storage.Content: ContentManager of content_manager.py, get_content_label of core/__init__.py,
--     and what _flush_batch writes of a block and a version. It uses Models.Chunks. The hash, lz4,
--     difflib and the encoder are arguments. A save is two steps, before and after the encoder,
--     between which others may come.
-- The ends of the daemon (src/mnemostroma).
--   * Integration.Proxy (src/mnemostroma/integration/proxy.py): ConductorProxy, whose injection
--     uses the signals of Memory.Experience. A block is its sections, not their XML, and a call is
--     one step, which no other overlaps.
--   * Feedback (src/mnemostroma/feedback/implicit.py): the tracker of implicit feedback.
--   * IpcPool (src/mnemostroma/ipc_pool.py): the pool of connections to the daemon; calls overlap
--     as steps, may be cancelled, and a put on a full queue waits.
-- The shared helpers are in Prelude: tests, lists and dictionaries over native numbers, text as
-- code points, results, and a stable sort. Loops are structural recursion; only the walk of
-- Observer.Continuation runs on fuel, of which chain_depth always has enough. Words are read and
-- texts cut by recursion on what is left of them.
--
-- Not modelled: what the neural models compute, SQLite beyond the rows that the outbox and the
-- content tables keep, HTTP and socket glue, the command line, tray and installers, and the browser
-- extension. Their effect enters as an argument where the modelled code uses it.
pub mod Prelude
pub mod CircuitBreaker
pub mod Feedback
pub mod Gateway
pub mod Integration
pub mod IpcPool
pub mod Memory
pub mod Models
pub mod Observer
pub mod Storage
pub mod Subconscious
pub mod Tuner
