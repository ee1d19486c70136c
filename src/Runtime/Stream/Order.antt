-- ===== src/Runtime/Stream/Order.antt =====
-- The order of the events of a whole stream.
use mathlib.Core.Path.{subst}
use llm_calling.Base.{
  ℕ, ◌≤◌, ◌≡◌, refl, false, ◌&&◌, Option, none, some, List, [], ◌∷◌, if_either, if_known, Result,
  ok, err, Ensures,
}
use llm_calling.Contract.{missing_terminal_event, Defect, protocol_defect}
use llm_calling.Contract.Outcome.{TransientCause, final_attempt}
use llm_calling.Contract.Request.{GenerateIntent}
use llm_calling.Contract.Stream.{
  CodecStreamEvent, stream_start, text_delta, tool_call_start, tool_call_delta, tool_call_done,
  continuation_delta, usage_event, terminal_event,
}
use llm_calling.Json.{Fields}
use llm_calling.Platform.{Platform}
use llm_calling.Registry.{ModelRow}
use llm_calling.Retry.{RetryPolicy, Step, next, Ending, returned, raised, exhausted, drive}
use llm_calling.Retry.Loop.{EndKeeps, drive_inv}
use llm_calling.Runtime.{TransientAttempt, CallState, add_record, finalize_last, exhaust, Race}
use llm_calling.Runtime.Stream.{
  Pulled, pulled, stream_fails, stream_raises, StreamWorld, Progress, start_progress, Closed,
  mark_failed, interrupt, fail_attempt, cancel_stream, on_event, receive, pull, stream_round,
  conclude_stream, stream_events,
}
use llm_calling.Runtime.Stream.Envelope.{
  NotRefused, IsEnveloped, close_with-IsEnveloped, deliver-IsEnveloped,
}
use llm_calling.Runtime.Stream.Flows.{
  Flows, IsIdle, Keeps, start-IsIdle, envelope-Flows, semantic-Flows, forward_start-Flows,
  made-NotRefused, cancel_call-NotRefused,
}

module _ (world : StreamWorld) (row : ModelRow) where
  interrupt-NotRefused :
      (n : ℕ) (failure : TransientAttempt) (s : CallState)
      → Ensures NotRefused (interrupt world row n failure s)
  unfolding interrupt
  interrupt-NotRefused n failure s =
      made-NotRefused (add_record world.clock n final_attempt failure.status_code _) _ (λ s'. tt)

  mark_failed-Keeps :
      (n : ℕ) (cause : TransientCause) (s : Progress) (r : Result Defect CallState)
      → Flows s
      → s.semantic_forwarded ≡ false
      → Keeps n (mark_failed cause s r)
  mark_failed-Keeps n cause s (ok call) h quiet = record {
    flows = record {
      opened = record {
        sequenced = h.opened.sequenced;
        counted = h.opened.counted;
        unended = h.opened.unended;
        one_start = h.opened.one_start;
      };
      fresh_start = h.fresh_start;
      silent = h.silent;
    };
    quiet = quiet;
  }
  mark_failed-Keeps n cause s (err d) h quiet = close_with-IsEnveloped s (err d) h.opened tt

  fail_attempt-Keeps :
      (n : ℕ) (failure : TransientAttempt) (s : Progress)
      → Flows s
      → Keeps n (fail_attempt world row n failure s)
  unfolding fail_attempt
  fail_attempt-Keeps n failure s h =
      if_known (Keeps n) s.semantic_forwarded _ _
        (λ e. close_with-IsEnveloped s _ h.opened (interrupt-NotRefused n failure s.call))
        (λ e. mark_failed-Keeps n failure.cause s _ h e)

  cancel_stream-Keeps :
      (n : ℕ) (s : Progress) (call : CallState)
      → Flows s
      → Keeps n (cancel_stream world row n s call)
  cancel_stream-Keeps n s call h =
      close_with-IsEnveloped s _ h.opened (cancel_call-NotRefused row world.clock n call)

  exhaust-NotRefused : (s : CallState) → Ensures NotRefused (exhaust row s)
  unfolding exhaust
  exhaust-NotRefused s = go s.last_cause
    where
      go :
          (cause : Option TransientCause)
          → Ensures NotRefused (exhaust row (record s { last_cause = cause }))
      go none = tt
      go (some cause) = made-NotRefused (finalize_last s.trace) _ (λ ys. tt)

module _ (p : Platform) (world : StreamWorld) (source row : ModelRow) (intent : GenerateIntent)
    (state : Fields) where
  on_event-Keeps :
      (n : ℕ) (s : Progress) (event : CodecStreamEvent) (go : Progress → Step Progress Closed)
      → Flows s
      → ((s' : Progress) → Flows s' → Keeps n (go s'))
      → Keeps n (on_event p world source row intent state s event go)
  unfolding on_event
  on_event-Keeps n s stream_start go h rest = rest _ (forward_start-Flows s h)
  on_event-Keeps n s (terminal_event o) go h rest = deliver-IsEnveloped s _ h.opened
  on_event-Keeps n s (continuation_delta a) go h rest = rest _ (semantic-Flows s h)
  on_event-Keeps n s (text_delta t) go h rest = rest _ (envelope-Flows _ s h refl refl)
  on_event-Keeps n s (tool_call_start i k) go h rest = rest _ (envelope-Flows _ s h refl refl)
  on_event-Keeps n s (tool_call_delta i t) go h rest = rest _ (envelope-Flows _ s h refl refl)
  on_event-Keeps n s (tool_call_done c) go h rest = rest _ (envelope-Flows _ s h refl refl)
  on_event-Keeps n s (usage_event u) go h rest = rest _ (envelope-Flows _ s h refl refl)

  receive-Keeps :
      (n : ℕ) (s : Progress) (got : Option Pulled) (go : Progress → Step Progress Closed)
      → Flows s
      → ((s' : Progress) → Flows s' → Keeps n (go s'))
      → Keeps n (receive p world source row intent state n s got go)
  unfolding receive
  receive-Keeps n s none go h rest = cancel_stream-Keeps world row n s _ h
  receive-Keeps n s (some (pulled event)) go h rest = on_event-Keeps n s event go h rest
  receive-Keeps n s (some (stream_fails failure)) go h rest =
      fail_attempt-Keeps world row n failure s h
  receive-Keeps n s (some (stream_raises d)) go h rest =
      close_with-IsEnveloped s (err d) h.opened tt

  pull-Keeps :
      (n : ℕ) (races : List (Race Pulled)) (s : Progress)
      → Flows s
      → Keeps n (pull p world source row intent state n races s)
  unfolding pull
  pull-Keeps n [] s h =
      close_with-IsEnveloped s (err (protocol_defect missing_terminal_event)) h.opened tt
  pull-Keeps n (race ∷ races) s h =
      receive-Keeps n s _ _ h (λ s' flows. pull-Keeps n races s' flows)

  stream_round-Keeps :
      (n : ℕ) (s : Progress) → IsIdle s → Keeps n (stream_round p world source row intent state n s)
  unfolding stream_round
  stream_round-Keeps n s idle =
      if_either (Keeps n) (world.has_cancel && world.is_set n) _ _
        (cancel_stream-Keeps world row n s s.call idle.flows)
        (pull-Keeps n (world.awaits n) s idle.flows)

  -- If nothing but stream starts was sent before an attempt, and the loop goes on to another attempt,
  -- then nothing but stream starts was sent by the end of that attempt.
  pub stream_round-retries :
      (n : ℕ) (s s' : Progress) (mark : Option TransientCause)
      → IsIdle s
      → stream_round p world source row intent state n s ≡ next mark s'
      → IsIdle s'
  stream_round-retries n s s' none idle e = absurd (subst (Keeps n) e (stream_round-Keeps n s idle))
  stream_round-retries n s s' (some c) idle e = subst (Keeps n) e (stream_round-Keeps n s idle)

  -- With at least one attempt allowed, the events of a stream are numbered from 1 with no gap, hold
  -- at most one stream start, and end with the one terminal event, of an outcome that is no refusal;
  -- a generator that raised has sent no terminal. This holds whatever the engine yields.
  pub stream_events-IsEnveloped :
      (policy : RetryPolicy)
      → 1 ≤ policy.max_attempts
      → IsEnveloped (stream_events p world source row intent state policy)
  unfolding stream_events
  stream_events-IsEnveloped policy room =
      ends
        (drive policy world.timing (stream_round p world source row intent state)
          start_progress).ending
        (drive_inv policy world.timing (stream_round p world source row intent state)
          (λ n s. IsIdle s) IsEnveloped (λ d. ⊥)
          (λ n s from_one le idle. stream_round-Keeps n s idle) start_progress room start-IsIdle)
    where
      ends :
          (e : Ending Progress Closed)
          → EndKeeps (λ n s. IsIdle s) IsEnveloped (λ d. ⊥) policy.max_attempts e
          → IsEnveloped (conclude_stream p world source row intent state e)
      ends (returned c) h = h
      ends (raised d) h = absurd h
      ends (exhausted s) h =
          let (n, from_one, le, idle) = h in
          close_with-IsEnveloped s _ idle.flows.opened (exhaust-NotRefused world row s.call)
