-- ===== src/Examples/Streams.antt =====
-- A stream whose first attempt is interrupted before any output.
use llm_calling.Base.{
  ℕ, zero, suc, refl, true, false, Option, none, some, List, [], ◌∷◌, arith, Result, err,
  str_length, is_ascii,
}
use llm_calling.Continuation.{canonical_json_bytes}
use llm_calling.Continuation.Generation.{
  fingerprint_fields, model_labels, fingerprint, row_fingerprint, first_state, preflight_generation,
}
use llm_calling.Contract.{Defect, value_error}
use llm_calling.Contract.Outcome.{provider_timeout, attempt_record}
use llm_calling.Contract.Request.{fresh}
use llm_calling.Contract.Stream.{stream_start, text_delta, terminal_event}
use llm_calling.Examples.{
  toy_platform, quick, ticking, flash_row, hello, answer, timeout, plain_urls, one_key, from_some,
}
use llm_calling.Json.{
  null, end, freeze_at, freeze_json_value, freeze_json_object, thaw, thaw_json_value,
}
use llm_calling.Registry.Resolve.{resolve_target}
use llm_calling.Registry.Rows.{rows}
use llm_calling.Retry.{default_retry, Step, finish, raise, next}
use llm_calling.Runtime.{
  billability_rank, fold_billability, add_record, note_failure, action_first, both_done, Race,
  race_cancel,
}
use llm_calling.Runtime.Gates.{row_reasoning, validate_intent, credential}
use llm_calling.Runtime.Prepare.{prepare_fresh, prepare}
use llm_calling.Runtime.Stream.{
  Pulled, pulled, stream_fails, StreamWorld, Progress, start_progress, Closed, envelope,
  forward_start, fail_attempt, on_event, receive, pull, stream_round, stream_events,
  stream_prepared, stream,
}
use llm_calling.Runtime.Stream.Envelope.{IsEnveloped}
use llm_calling.Runtime.Stream.Flows.{IsIdle, start-IsIdle}
use llm_calling.Runtime.Stream.Order.{stream_round-retries, stream_events-IsEnveloped}
use llm_calling.Runtime.Stream.Whole.{IsStream, stream-IsStream}

abbrev awaits : ℕ → List (Race Pulled)
awaits zero = []
awaits (suc zero) =
    record { result = pulled stream_start; first = action_first }
    ∷ record { result = stream_fails timeout; first = action_first }
    ∷ []
awaits (suc (suc n)) =
    record { result = pulled stream_start; first = action_first }
    ∷ record { result = pulled (text_delta "hi"); first = both_done }
    ∷ record { result = pulled (terminal_event answer); first = action_first }
    ∷ []

abbrev world : StreamWorld
world = record {
  timing = quick;
  clock = ticking;
  has_cancel = true;
  is_set = λ _. false;
  awaits = awaits;
}

abbrev next_state : Progress → Step Progress Closed → Progress
next_state d (finish c) = d
next_state d (raise e) = d
next_state d (next mark s) = s

abbrev first_round : Step Progress Closed
first_round = stream_round (toy_platform null) world flash_row flash_row hello end 1 start_progress

stream_round-retries_example : IsIdle (next_state start_progress first_round)
unfolding stream_round pull receive on_event forward_start envelope fail_attempt note_failure
    add_record attempt_record fold_billability billability_rank race_cancel
stream_round-retries_example =
    stream_round-retries (toy_platform null) world flash_row flash_row hello end 1 start_progress
      (next_state start_progress first_round) (some provider_timeout) start-IsIdle refl

stream_events-IsEnveloped_example :
    IsEnveloped
      (stream_events (toy_platform null) world flash_row flash_row hello end default_retry)
stream_events-IsEnveloped_example =
    stream_events-IsEnveloped (toy_platform null) world flash_row flash_row hello end default_retry
      (omega arith)

abbrev whole_stream : Result Defect (Option Closed)
whole_stream =
    stream (toy_platform null) plain_urls (λ _. none) one_key default_retry
      (λ intent row key. world) (fresh hello)

abbrev no_stream : Closed
no_stream = record { sent = []; ending = err value_error }

stream-IsStream_example :
    IsStream
      (toy_platform null)
      plain_urls
      (λ _. none)
      one_key
      default_retry
      (λ intent row key. world)
      (fresh hello)
      (from_some no_stream whole_stream)
unfolding stream stream_prepared prepare prepare_fresh resolve_target rows validate_intent
    row_reasoning str_length is_ascii preflight_generation first_state row_fingerprint fingerprint
    freeze_json_object freeze_json_value freeze_at thaw_json_value thaw canonical_json_bytes
    credential model_labels fingerprint_fields
stream-IsStream_example =
    stream-IsStream (toy_platform null) plain_urls (λ _. none) one_key default_retry
      (λ intent row key. world) (omega arith) (fresh hello) (from_some no_stream whole_stream) refl
