-- ===== src/Engines/Chat/Closes.antt =====
-- How an attempt of the engine ends: the events of a stream, and the outcome.
use llm_calling.Base.{
  ℕ, String, ◌≡◌, refl, true, ◌||◌, Option, none, some, List, [], ◌∷◌, ◌++◌, map, ltb, if_either,
  all, Result, ok, err, Ensures, Ensures-raise_if, Ensures-bind, Ensures-then, join,
}
use llm_calling.Contract.{Presence, value_error}
use llm_calling.Contract.Outcome.{
  final_attempt, AttemptRecord, attempt_record, possibly_billable, CallMeta, ExpectedModelFailure,
  provider_context_too_large, ResponseContent, text_content, structured_content, Arm, succeeded,
  failed, CallOutcome,
}
use llm_calling.Contract.Request.{
  ToolCall, OutputSpec, text_output, strict_json_output, ContinuationArtifact, GenerateIntent,
}
use llm_calling.Contract.Stream.{CodecStreamEvent, stream_start, continuation_delta, terminal_event}
use llm_calling.Contract.Usage.{TokenUsage}
use llm_calling.Engines.{Fault, structured_of, final_content, response_content}
use llm_calling.Engines.Chat.{Served}
use llm_calling.Engines.Chat.Frames.{Reading}
use llm_calling.Engines.Chat.Grammar.{is_inner, texts_of, dones_of}
use llm_calling.Engines.Chat.Stream.{Attempt, usage_of, stream_meta, final_event}
use llm_calling.Engines.Chat.Terminal.{
  attempt_meta, content_arm, is_reason, terminal_arm, terminal_outcome,
}
use llm_calling.Json.{Json, null, bool, int, num, str, arr, obj}
use llm_calling.Platform.{Platform}
use llm_calling.Registry.{ModelRow}
use llm_calling.Runtime.{runtime_meta}

-- An outcome of one attempt, with the one final record of it.
pub record IsAttempt (row : ModelRow) (o : CallOutcome) : Type 0 where
  pub attempt : AttemptRecord
  pub trace : o.meta.attempt_trace ≡ attempt ∷ []
  pub final : attempt.signal ≡ final_attempt
  pub provider : o.meta.provider ≡ row.provider
  pub billed : o.meta.billability ≡ possibly_billable

-- The content of an outcome says what was streamed.
abbrev pub ContentSays : List CodecStreamEvent → ResponseContent → Type 0
ContentSays body (text_content text calls) = (text ≡ join (texts_of body)) × (calls ≡ dones_of body)
ContentSays body (structured_content payload text) = text ≡ join (texts_of body)

abbrev pub carried : Presence ContinuationArtifact → List CodecStreamEvent
carried none = []
carried (some artifact) = continuation_delta artifact ∷ []

abbrev pub ArmSays : List CodecStreamEvent → List CodecStreamEvent → Arm → Type 0
ArmSays body extra (succeeded response) =
    ContentSays body response.content × (carried response.continuation ≡ extra)
ArmSays body extra _ = Unit

-- The events of one attempt, and what was raised after them.
pub data IsCodecStream (row : ModelRow) : List CodecStreamEvent → Option Fault → Type 0 where
  -- Nothing was accepted.
  unopened : (f : Fault) → IsCodecStream row [] (some f)
  -- The prompt was too long: the terminal event alone.
  overflowed :
      (o : CallOutcome)
      → IsAttempt row o
      → o.arm ≡ failed provider_context_too_large
      → IsCodecStream row (terminal_event o ∷ []) none
  -- The stream was opened and raised, at most after its continuation.
  broken :
      (body : List CodecStreamEvent) (own : Presence ContinuationArtifact) (f : Fault)
      → all is_inner body ≡ true
      → IsCodecStream row (stream_start ∷ body ++ carried own) (some f)
  -- The stream was opened and closed by its terminal, right after the continuation, if there is one.
  closed :
      (body : List CodecStreamEvent) (own : Presence ContinuationArtifact) (o : CallOutcome)
      → all is_inner body ≡ true
      → IsAttempt row o
      → ArmSays body (carried own) o.arm
      → IsCodecStream row (stream_start ∷ (body ++ carried own) ++ terminal_event o ∷ []) none

module _ (row : ModelRow) where
  abbrev pub MetaIs : CallMeta → Type 0
  MetaIs meta =
      (attempt : AttemptRecord) × (meta.attempt_trace ≡ attempt ∷ [])
      × (attempt.signal ≡ final_attempt)
      × (meta.provider ≡ row.provider)
      × (meta.billability ≡ possibly_billable)

  pub MetaIs-IsAttempt :
      (meta : CallMeta) (a : Arm) → MetaIs meta → IsAttempt row (record { meta = meta; arm = a })
  MetaIs-IsAttempt meta a (attempt, trace, final, provider, billed) = record {
    attempt = attempt;
    trace = trace;
    final = final;
    provider = provider;
    billed = billed;
  }

  final_record :
      (status started ended : ℕ)
      → Ensures
          (λ (r : AttemptRecord). r.signal ≡ final_attempt)
          (attempt_record 1 final_attempt (some status) started ended)
  unfolding attempt_record
  final_record status started ended =
      Ensures-raise_if (λ (r : AttemptRecord). r.signal ≡ final_attempt) (ltb ended started)
        value_error _ (λ _. refl)

  pub attempt_meta-MetaIs :
      (model : String) (request_id : Option String) (usage : Presence TokenUsage)
      (status started ended : ℕ) (native_reasoning : Presence String)
      → Ensures MetaIs
          (attempt_meta row model request_id usage status started ended native_reasoning)
  unfolding attempt_meta runtime_meta
  attempt_meta-MetaIs model request_id usage status started ended native_reasoning =
      Ensures-bind MetaIs (λ (r : AttemptRecord). r.signal ≡ final_attempt) _ _
        (final_record status started ended) (λ r e. (r, refl, e, refl, refl))

module _ (p : Platform) (provider : Served) (row : ModelRow) (intent : GenerateIntent)
    (attempt : Attempt) where
  pub stream_meta-MetaIs :
      (model : String) (r : Reading)
      → Ensures (MetaIs row) (stream_meta p provider row intent attempt model r)
  unfolding stream_meta
  stream_meta-MetaIs model r =
      Ensures-then (MetaIs row) (usage_of p provider row intent attempt r.raw_usage) _ λ usage e.
        attempt_meta-MetaIs row model r.request_id usage 200 attempt.started attempt.ended
          attempt.native_reasoning

  structured_of-says :
      (text : String) (v : Option Json) (body : List CodecStreamEvent)
      → text ≡ join (texts_of body)
      → Ensures (ContentSays body) (structured_of text v)
  structured_of-says text none body t = tt
  structured_of-says text (some (obj payload)) body t = t
  structured_of-says text (some null) body t = tt
  structured_of-says text (some (bool _)) body t = tt
  structured_of-says text (some (int _)) body t = tt
  structured_of-says text (some (num _)) body t = tt
  structured_of-says text (some (str _)) body t = tt
  structured_of-says text (some (arr _)) body t = tt

  final_content-says :
      (output : OutputSpec) (text : String) (body : List CodecStreamEvent)
      → text ≡ join (texts_of body)
      → [] ≡ dones_of body
      → Ensures (ContentSays body) (final_content p output text)
  final_content-says text_output text body t d = (t, d)
  final_content-says (strict_json_output name schema) text body t d =
      structured_of-says text (p.loads_text text) body t

  content_arm-says :
      (content : Result ExpectedModelFailure ResponseContent) (own : Presence ContinuationArtifact)
      (body : List CodecStreamEvent)
      → Ensures (ContentSays body) content
      → ArmSays body (carried own) (content_arm content own)
  content_arm-says (ok content) own body h = (h, refl)
  content_arm-says (err f) own body h = tt

  response_content-says :
      (text : String) (calls : List ToolCall) (body : List CodecStreamEvent)
      → text ≡ join (texts_of body)
      → calls ≡ dones_of body
      → Ensures (ContentSays body) (response_content p intent text calls)
  unfolding response_content
  response_content-says text (c ∷ cs) body t d = (t, d)
  response_content-says text [] body t d = final_content-says intent.output text body t d

  terminal_arm-says :
      (reason : Option String) (text : String) (calls : List ToolCall)
      (own : Presence ContinuationArtifact) (body : List CodecStreamEvent)
      → text ≡ join (texts_of body)
      → calls ≡ dones_of body
      → Ensures (ArmSays body (carried own)) (terminal_arm p reason intent text calls own)
  unfolding terminal_arm
  terminal_arm-says reason text calls own body t d =
      let Says = Ensures (ArmSays body (carried own)) in
      if_either Says (is_reason "stop" reason || is_reason "tool_calls" reason) _ _
        (content_arm-says (response_content p intent text calls) own body
          (response_content-says text calls body t d))
        (if_either Says (is_reason "length" reason) _ _ tt
          (if_either Says (is_reason "content_filter" reason) _ _ tt tt))

  -- The last event of a stream that was read to its end.
  pub final_event-says :
      (model reason : String) (r : Reading) (own : Presence ContinuationArtifact)
      (body : List CodecStreamEvent)
      → r.text ≡ join (texts_of body)
      → map (λ c. c.tool_call) r.finished_calls ≡ dones_of body
      → Ensures
          (λ e.
            (o : CallOutcome) × (e ≡ terminal_event o)
            × IsAttempt row o
            × ArmSays body (carried own) o.arm)
          (final_event p provider row intent attempt model reason r own)
  unfolding final_event terminal_outcome
  final_event-says model reason r own body t d =
      let Says : CodecStreamEvent → Type 0 = (λ e.
        (o : CallOutcome) × (e ≡ terminal_event o)
        × IsAttempt row o
        × ArmSays body (carried own) o.arm) in
      Ensures-bind Says (MetaIs row) _ _ (stream_meta-MetaIs model r) λ meta m.
        Ensures-bind Says (λ (o : CallOutcome). IsAttempt row o × ArmSays body (carried own) o.arm)
          _ _
          (Ensures-bind (λ (o : CallOutcome). IsAttempt row o × ArmSays body (carried own) o.arm)
            (ArmSays body (carried own)) _ _
            (terminal_arm-says (some reason) r.text (map (λ c. c.tool_call) r.finished_calls) own
              body t d)
            (λ a says. (MetaIs-IsAttempt row meta a m, says)))
          (λ o both. (o, refl, both.0, both.1))
