-- ===== src/Lib.antt =====
-- Verification of provider-runtime (src/provider_runtime). The provider lane is one call of a language
-- model, from the request to its terminal outcome or its stream of events; the agent lane
-- (src/provider_runtime/agent_runtime) runs turns of native agent sessions.
--
-- How the program works. A caller gives `ProviderRuntime` a request (`GenerateIntent`). The runtime
-- resolves its target to a row of the registry, checks the request against the row, and checks that
-- the prefix of a call with tools fits its continuation (`_prepare`). It then drives the engine of the
-- row in a loop over `attempts`, the one retry owner, and races each await with the cancel signal. The
-- engine's answer gets the attempt trace and the billability of the whole call, and a turn that calls
-- tools gets one continuation artifact, which encodes the whole generation. The caller runs the tools
-- and sends the artifact back with their results (`ContinueGeneration`), and the runtime rebuilds the
-- request from it (`resume_generation`).
--
-- Files and the code that they model:
-- - Base: shared helpers on lists, options, integers, text and results.
-- - Json (types.py): frozen JSON values, `freeze_json_value`, `thaw_json_value`; Json.Canonical is the
--   key order of `canonical_json_bytes`. Json.Bounds, Json.Thaw and Json.Sorted hold the proofs.
-- - Platform: json, base64 and hashlib of Python, as parameters.
-- - Contract (types.py, errors.py): targets, requests, token usage, attempt records, outcomes, stream
--   events, and what is raised. `Presence` is `Option`; each place that raises `InvalidRequest` has its
--   own `Reason` instead of a message.
-- - Retry (retry.py): `RetryPolicy`, `_delay_s`, and `attempts` with the loop that consumes it
--   (`drive`), over any loop body. Retry.Policy, Retry.Delay and Retry.Loop hold the
--   proofs.
-- - Registry (registry.py): the rows (Rows), their lookup (Resolve), the checks made at import (Check).
-- - Prices (prices.py): the snapshot and `estimate_cost`, in thousandths of a micro-dollar. Bounds, Tiers
--   and Estimates hold the proofs.
-- - Continuation (continuation.py): `encode_continuation` and `decode_continuation`; Generation is
--   `_first_state` with the fingerprint of a row, and `preflight_generation`; Seal is
--   `seal_generation`; Read and Resume are `resume_generation`; Pending is `pending_tool_calls`, with
--   its proof. Codec, RoundTrip, Sealed, ReadBack, Conversation, Resumed, History, Answers and Answered
--   hold the proofs; History is the relation of a request, its sealed turns and its state.
-- - Runtime (runtime.py, engines/_common.py): Gates is `_validate_intent`, `row_reasoning`,
--   `_credential` and `_dispatch_row`; Prepare is `_prepare`, and Continue its proof; the parent has
--   the bookkeeping of attempts and `_race_cancel`; Generate is `_generate_outcome`, `_seal_outcome` and `generate`; Stream is
--   `_stream_events` and `stream`. Trace, and in Generate the modules Invariant, Total and Whole, in
--   Stream the modules Envelope, Flows, Order and Whole, hold the proofs. Embed is `embed`, and Runs its
--   proof; Schema is `_closed_schema`, and Keys and Nodes prove what it does to a node.
-- - Engines (engines/_common.py) and Engines.Chat (engines/openai_chat.py, and `transient_connection` of
--   engines/_openai_common.py): Messages and Encode are `_encode`; Usage is `_fold_usage` and
--   `_usage_from_raw`; Calls is `_ToolCallAccumulator`; Terminal is `_terminal_outcome` and the
--   continuations; Errors classifies errors; Frames and Stream are `stream`; Complete is
--   `_decode_completion`; Engine is the engine as the runtime calls it. Slots, Folds, Grammar, Opens,
--   Closes, Whole and Answers hold the proofs. The openai package is a parameter (`Client`): it gives a
--   completion, or a list of chunks and what ended them (`Cut`), or an error.
-- - Embeddings (embeddings.py): `_decode_response` and `_decode_usage`; Coverage and
--   Counted hold the proofs. Python's `float` is a parameter.
-- - Agent (agent_runtime/sessions.py, agent_runtime/events.py): Sessions is `AgentSession` and
--   `validate_session_ref`; Events is `validate_event_stream`; Terminal is `AgentTerminal`. Turns, Scope
--   and Terminal.Accepts hold the proofs. The calls of threads on a session are a sequence, since each
--   method holds its lock.
-- - Examples: the theorems at concrete inputs.
--
-- Conventions. An engine is a parameter: a `World` or a `StreamWorld` gives, for each attempt, its
-- reply, who wins the race with the cancel signal, the clock and the random number. What is raised is
-- the error of a `Result`. State that a coroutine keeps in local variables is a record that the steps
-- pass on. A payload is read back from JSON, where the
-- source casts without a check: at a value of another type than the one it is cast to, the model stops
-- (`mistyped`, `not_followed`, `none`), and no theorem says anything of what the source does then.
-- Nothing runs on fuel but `drive`, whose count is the `range` of the source's own loop.
-- The durations of the retry loop are whole nanoseconds and clock readings whole milliseconds; the check
-- of a policy (`retry_policy`) is on floats as they are given, infinities and NaN included.
--
-- Not modelled: the engines for Responses, Anthropic and Gemini, telemetry, redaction of error texts
-- and pydantic glue, which are calls of other libraries; the backends, archives and runtime of the agent lane, the public catalog,
-- the embeddings request itself, chat and the rest of json_out; the cancellation of the consuming task
-- itself, a consumer that abandons a stream, float rounding of durations, and message texts.
pub mod Base
pub mod Json
pub mod Contract
pub mod Retry
pub mod Registry
pub mod Prices
pub mod Platform
pub mod Continuation
pub mod Runtime
pub mod Agent
pub mod Engines
pub mod Embeddings
pub mod Examples
