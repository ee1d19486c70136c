-- ===== src/Engines/Chat/Whole.antt =====
-- The engine as a whole: the events of its stream, and the outcome of its call.
use mathlib.Core.List.{append-nil}
use mathlib.Core.Path.{subst}
use llm_calling.Base.{
  ℕ, String, ◌≡◌, refl, sym, ap, ◌∙◌, true, Option, none, some, List, [], ◌∷◌, ◌++◌, arith, all,
  Result, ok, err, Ensures,
}
use llm_calling.Contract.{Presence, missing_model, Defect}
use llm_calling.Contract.Outcome.{
  provider_stream_interrupted, CallMeta, ExpectedModelFailure, provider_context_too_large, failed,
  CallOutcome,
}
use llm_calling.Contract.Request.{ContinuationArtifact, GenerateIntent}
use llm_calling.Contract.Stream.{CodecStreamEvent, stream_start, terminal_event}
use llm_calling.Engines.{Fault, transient_fault, defect_fault, protocol_fault, or_empty, first_text}
use llm_calling.Engines.Chat.{Served}
use llm_calling.Engines.Chat.Closes.{
  IsAttempt, carried, ArmSays, IsCodecStream, unopened, overflowed, broken, closed, MetaIs,
  MetaIs-IsAttempt, attempt_meta-MetaIs, stream_meta-MetaIs, final_event-says,
}
use llm_calling.Engines.Chat.Encode.{Encoded}
use llm_calling.Engines.Chat.Engine.{Client, request, stream_with, engine_stream}
use llm_calling.Engines.Chat.Errors.{StatusError, transient_connection, classify_status}
use llm_calling.Engines.Chat.Frames.{
  StreamFrame, Cut, Reading, opened_reading, Flow, goes, breaks, fails, interrupted, cut,
}
use llm_calling.Engines.Chat.Grammar.{is_inner, Open, Stays}
use llm_calling.Engines.Chat.Opens.{read_frames-Stays, opened_reading-Open}
use llm_calling.Engines.Chat.Stream.{
  Created, created, bad_status, unconnected, Emitted, Attempt, emit, emit_fault, failed_event,
  stream_meta, final_event, delta_of, close_content, close_named, close_stream, conclude_reading,
  conclude_flow, overflow_event, stream_attempt,
}
use llm_calling.Engines.Chat.Terminal.{attempt_meta, stream_continuation}
use llm_calling.Platform.{Platform}
use llm_calling.Registry.{ModelRow}
use llm_calling.Runtime.Gates.{ProviderCredential}
use llm_calling.Runtime.Stream.Envelope.{is_terminal}

abbrev IsEvent :
    ModelRow → List CodecStreamEvent → Presence ContinuationArtifact → CodecStreamEvent → Type 0
IsEvent row body own e =
    (o : CallOutcome) × (e ≡ terminal_event o) × IsAttempt row o × ArmSays body (carried own) o.arm

abbrev Emits : ModelRow → Emitted → Type 0
Emits row e = IsCodecStream row e.sent e.ending

module _ (row : ModelRow) where
  emit-Emits :
      (sent body : List CodecStreamEvent) (own : Presence ContinuationArtifact)
      (event : Result Defect CodecStreamEvent)
      → sent ≡ stream_start ∷ body ++ carried own
      → all is_inner body ≡ true
      → Ensures (IsEvent row body own) event
      → Emits row (emit sent event)
  emit-Emits sent body own (ok e) s inner (o, is_terminal, att, says) =
      subst (λ xs. IsCodecStream row xs none) (sym (λ i. s i ++ is_terminal i ∷ []))
        (closed body own o inner att says)
  emit-Emits sent body own (err d) s inner h =
      subst (λ xs. IsCodecStream row xs (some (defect_fault d))) (sym s)
        (broken body own (defect_fault d) inner)

  -- A stream that is open and raises.
  Open-broken : (r : Reading) (f : Fault) → Open r → Emits row (emit_fault r.sent f)
  Open-broken r f h =
      subst (λ xs. IsCodecStream row xs (some f))
        (sym (h.sent_is ∙ ap (λ xs. stream_start ∷ xs) (sym (append-nil h.body))))
        (broken h.body none f h.inner)

module _ (p : Platform) (provider : Served) (row : ModelRow) (intent : GenerateIntent)
    (attempt : Attempt) where
  failed_event-IsEvent :
      (body : List CodecStreamEvent) (meta : Result Defect CallMeta) (f : ExpectedModelFailure)
      → Ensures (MetaIs row) meta
      → Ensures (IsEvent row body none) (failed_event meta f)
  failed_event-IsEvent body (ok meta) f h =
      (record { meta = meta; arm = failed f }, refl, MetaIs-IsAttempt row meta (failed f) h, tt)
  failed_event-IsEvent body (err d) f h = tt

  -- A terminal event before any other.
  emitted_alone :
      (meta : Result Defect CallMeta)
      → Ensures (MetaIs row) meta
      → Emits row (emit [] (failed_event meta provider_context_too_large))
  emitted_alone (ok meta) h =
      overflowed (record { meta = meta; arm = failed provider_context_too_large })
        (MetaIs-IsAttempt row meta (failed provider_context_too_large) h) refl
  emitted_alone (err d) h = unopened (defect_fault d)

  -- No other failure is a value.
  classify_status-overflow :
      (e : StatusError) (f : ExpectedModelFailure)
      → classify_status p e ≡ ok f
      → provider_context_too_large ≡ f
  unfolding classify_status
  classify_status-overflow e f h = ground arith

  delta_of-carried :
      (own : Presence ContinuationArtifact)
      → delta_of p provider row intent attempt own ≡ carried own
  delta_of-carried none = refl
  delta_of-carried (some artifact) = refl

  close_content-Emits :
      (model reason : String) (r : Reading) (own : Result Defect (Presence ContinuationArtifact))
      → Open r
      → Emits row (close_content p provider row intent attempt model reason r own)
  close_content-Emits model reason r (err d) h = Open-broken row r (defect_fault d) h
  close_content-Emits model reason r (ok own) h =
      emit-Emits row _ h.body own (final_event p provider row intent attempt model reason r own)
        (λ i. h.sent_is i ++ delta_of-carried own i) h.inner
        (final_event-says p provider row intent attempt model reason r own h.body h.text_is
          h.calls_are)

  close_named-Emits :
      (model : Option String) (reason : String) (r : Reading)
      → Open r
      → Emits row (close_named p provider row intent attempt model reason r)
  close_named-Emits none reason r h = Open-broken row r (protocol_fault missing_model) h
  close_named-Emits (some model) reason r h =
      close_content-Emits model reason r
        (stream_continuation row intent r.text r.reasoning r.finished_calls) h

  close_stream-Emits :
      (reason : Option String) (r : Reading)
      → Open r
      → Emits row (close_stream p provider row intent attempt reason r)
  unfolding close_stream
  close_stream-Emits none r h =
      Open-broken row r (interrupted (provider_stream_interrupted r.semantic) r) h
  close_stream-Emits (some reason) r h = close_named-Emits r.model reason r h

  conclude_reading-Emits :
      (failure : Option ExpectedModelFailure) (r : Reading)
      → Open r
      → Emits row (conclude_reading p provider row intent attempt failure r)
  conclude_reading-Emits none r h = close_stream-Emits r.finish_reason r h
  conclude_reading-Emits (some f) r h =
      let meta =
        stream_meta p provider row intent attempt
          (or_empty (first_text r.model (some row.model_id))) r in
      emit-Emits row r.sent h.body none (failed_event meta f)
        (h.sent_is ∙ ap (λ xs. stream_start ∷ xs) (sym (append-nil h.body))) h.inner
        (failed_event-IsEvent h.body meta f (
          stream_meta-MetaIs p provider row intent attempt
            (or_empty (first_text r.model (some row.model_id))) r))

  conclude_flow-Emits :
      (flow : Flow) → Stays flow → Emits row (conclude_flow p provider row intent attempt flow)
  conclude_flow-Emits (goes r) h = conclude_reading-Emits r.failure r h
  conclude_flow-Emits (breaks r) h = conclude_reading-Emits r.failure r h
  conclude_flow-Emits (fails f r) h = Open-broken row r f h

  overflow_event-Emits :
      (e : StatusError) (r : Result Fault ExpectedModelFailure)
      → ((f : ExpectedModelFailure) → r ≡ ok f → provider_context_too_large ≡ f)
      → Emits row (overflow_event p provider row intent attempt e r)
  overflow_event-Emits e (err f) only = unopened f
  overflow_event-Emits e (ok failure) only =
      let meta =
        attempt_meta row row.model_id e.request_id none e.status attempt.started attempt.ended
          attempt.native_reasoning in
      subst (λ f. Emits row (emit [] (failed_event meta f))) (only failure refl)
        (emitted_alone meta (
          attempt_meta-MetaIs row row.model_id e.request_id none e.status attempt.started
            attempt.ended attempt.native_reasoning))

  stream_attempt-Emits :
      (given : Created (List StreamFrame × Cut))
      → Emits row (stream_attempt p provider row intent attempt given)
  unfolding stream_attempt
  stream_attempt-Emits (created (frames, cut)) =
      conclude_flow-Emits _
        (read_frames-Stays p provider frames cut opened_reading opened_reading-Open)
  stream_attempt-Emits (bad_status e) =
      overflow_event-Emits e (classify_status p e) (classify_status-overflow e)
  stream_attempt-Emits (unconnected e) = unopened (transient_fault (transient_connection e))

module _ (p : Platform) (row : ModelRow) (intent : GenerateIntent) (key : ProviderCredential)
    (started ended : ℕ) where
  stream_with-Emits :
      (client : Client (List StreamFrame × Cut)) (r : Result Defect (Served × Encoded))
      → Emits row (stream_with p row intent key started ended client r)
  stream_with-Emits client (err d) = unopened (defect_fault d)
  stream_with-Emits client (ok (provider, encoded)) =
      stream_attempt-Emits p provider row intent
        (record { started = started; ended = ended; native_reasoning = encoded.native_reasoning })
        (client row key encoded)

  -- Whatever the provider sends, a stream of the engine is a start, then text, fragments of calls and
  -- usage, then at most one continuation, and right after it the terminal event; or a terminal event
  -- alone, whose outcome is failed by a context overflow. If it raises, there is no terminal event. The
  -- outcome has one final record. If it succeeded, its text is the concatenation of the text events,
  -- its tool calls, where its content is not structured, are those that were announced as done, and its
  -- continuation is the one that was sent.
  pub engine_stream-IsCodecStream :
      (client : Client (List StreamFrame × Cut))
      → let emitted = engine_stream p row intent key started ended client in
        IsCodecStream row emitted.sent emitted.ending
  unfolding engine_stream
  engine_stream-IsCodecStream client =
      stream_with-Emits client (request p row intent key started ended)
