-- ===== src/Engines/Chat/Answers.antt =====
-- The outcome of a call of the engine, as the runtime assumes it.
use mathlib.Core.Path.{subst}
use llm_calling.Base.{
  ℕ, ◌≤◌, String, ◌≡◌, sym, ◌∙◌, Option, none, some, List, if_either, Result, ok, err, Ensures,
  Ensures-bind, Ensures-then,
}
use llm_calling.Contract.{missing_message, Defect, protocol_defect}
use llm_calling.Contract.Outcome.{
  TransientCause, CallMeta, ExpectedModelFailure, failed, CallOutcome,
}
use llm_calling.Contract.Request.{ToolCall, GenerateIntent}
use llm_calling.Engines.{Fault, transient_fault, defect_fault, str_or_none, or_empty, nonempty}
use llm_calling.Engines.Chat.{Served}
use llm_calling.Engines.Chat.Closes.{IsAttempt, MetaIs, MetaIs-IsAttempt, attempt_meta-MetaIs}
use llm_calling.Engines.Chat.Complete.{
  ChatMessage, CompletionChoice, Completion, Response, completion, no_completion, bad_body,
  decode_tool_calls, continuation_from_message, reply_of, fault_reply, usage_given, finish_message,
  decode_message, decode_choice, decode_model, inband_reply, no_error, decode_completion,
  overflow_reply, generate_attempt,
}
use llm_calling.Engines.Chat.Encode.{Encoded}
use llm_calling.Engines.Chat.Engine.{Client, request, generate_with, engine_generate}
use llm_calling.Engines.Chat.Errors.{StatusError, classify_status, classify_inband_error}
use llm_calling.Engines.Chat.Stream.{Created, created, bad_status, unconnected, Attempt}
use llm_calling.Engines.Chat.Terminal.{terminal_arm, terminal_outcome}
use llm_calling.Json.{Json}
use llm_calling.Platform.{Platform}
use llm_calling.Registry.{ModelRow}
use llm_calling.Retry.{RetryPolicy}
use llm_calling.Runtime.Gates.{ProviderCredential}
use llm_calling.Runtime.Generate.{Reply, answered, transient_failure, engine_raises, World}
use llm_calling.Runtime.Generate.Invariant.{IsMonotone, OneRecord}
use llm_calling.Runtime.Generate.Total.{Ends, generate_outcome-IsTerminal}

abbrev ReplyIs : ModelRow → Reply → Type 0
ReplyIs row (answered o) = IsAttempt row o
ReplyIs row (transient_failure _) = Unit
ReplyIs row (engine_raises _) = Unit

module _ (p : Platform) (provider : Served) (row : ModelRow) (intent : GenerateIntent)
    (attempt : Attempt) where
  reply_of-ReplyIs :
      (r : Result Defect CallOutcome)
      → Ensures (IsAttempt row) r
      → ReplyIs row (reply_of p provider row intent attempt r)
  reply_of-ReplyIs (ok o) h = h
  reply_of-ReplyIs (err d) h = tt

  finish_message-IsAttempt :
      (meta : CallMeta) (reason : Option Json) (m : ChatMessage)
      (calls : Result ExpectedModelFailure (List ToolCall))
      → MetaIs row meta
      → Ensures (IsAttempt row) (finish_message p provider row intent attempt meta reason m calls)
  unfolding terminal_outcome
  finish_message-IsAttempt meta reason m (err f) h = MetaIs-IsAttempt row meta (failed f) h
  finish_message-IsAttempt meta reason m (ok calls) h =
      Ensures-then (IsAttempt row) (continuation_from_message row intent m) _ λ own e.
        Ensures-then (IsAttempt row)
          (terminal_arm p (str_or_none reason) intent (or_empty (str_or_none m.content)) calls own)
          (λ a. ok (record { meta = meta; arm = a })) λ a e'. MetaIs-IsAttempt row meta a h

  decode_message-IsAttempt :
      (model : String) (c : Completion) (reason : Option Json) (m : ChatMessage)
      → Ensures (IsAttempt row) (decode_message p provider row intent attempt model c reason m)
  unfolding decode_message
  decode_message-IsAttempt model c reason m =
      Ensures-then (IsAttempt row) (usage_given p provider row intent attempt c.usage) _ λ usage e.
        Ensures-bind (IsAttempt row) (MetaIs row) _ _
          (attempt_meta-MetaIs row model (nonempty (str_or_none c.id)) usage 200 attempt.started
            attempt.ended attempt.native_reasoning)
          λ meta h.
            Ensures-then (IsAttempt row) (decode_tool_calls p m.tool_calls) _
              λ calls e'. finish_message-IsAttempt meta reason m calls h

  decode_choice-IsAttempt :
      (model : String) (c : Completion) (choice : Option CompletionChoice)
      → Ensures (IsAttempt row) (decode_choice p provider row intent attempt model c choice)
  decode_choice-IsAttempt model c none = tt
  decode_choice-IsAttempt model c (some choice) =
      elim choice.message
        as (λ message. Ensures (IsAttempt row) (elim message [
          | none ↦ err (protocol_defect missing_message)
          | some m ↦ decode_message p provider row intent attempt model c choice.finish_reason m
        ])) [ none ↦ tt | some m ↦ decode_message-IsAttempt model c choice.finish_reason m ]

  decode_model-IsAttempt :
      (c : Completion) (model : Option String)
      → Ensures (IsAttempt row) (decode_model p provider row intent attempt c model)
  decode_model-IsAttempt c none = tt
  decode_model-IsAttempt c (some model) = decode_choice-IsAttempt model c c.choice

  fault_reply-ReplyIs : (f : Fault) → ReplyIs row (fault_reply p provider row intent attempt f)
  fault_reply-ReplyIs (transient_fault failure) = tt
  fault_reply-ReplyIs (defect_fault d) = tt

  inband_reply-ReplyIs :
      (c : Completion) (cause : Result Fault TransientCause)
      → ReplyIs row (inband_reply p provider row intent attempt c cause)
  inband_reply-ReplyIs c (ok cause) = tt
  inband_reply-ReplyIs c (err f) = fault_reply-ReplyIs f

  overflow_reply-ReplyIs :
      (e : StatusError) (r : Result Fault ExpectedModelFailure)
      → ReplyIs row (overflow_reply p provider row intent attempt e r)
  overflow_reply-ReplyIs e (err f) = fault_reply-ReplyIs f
  overflow_reply-ReplyIs e (ok failure) = reply_of-ReplyIs _ (
      Ensures-bind (IsAttempt row) (MetaIs row) _
        (λ meta. ok (record { meta = meta; arm = failed failure }))
        (attempt_meta-MetaIs row row.model_id e.request_id none e.status attempt.started
          attempt.ended attempt.native_reasoning)
        (λ meta h. MetaIs-IsAttempt row meta (failed failure) h))

  generate_attempt-ReplyIs :
      (given : Created Response)
      → ReplyIs row (generate_attempt p provider row intent attempt given)
  unfolding generate_attempt decode_completion
  generate_attempt-ReplyIs (created (completion c)) =
      if_either (ReplyIs row) (no_error p provider row intent attempt c.error) _ _
        (reply_of-ReplyIs _ (decode_model-IsAttempt c (nonempty (str_or_none c.model))))
        (inband_reply-ReplyIs c (classify_inband_error p c.error))
  generate_attempt-ReplyIs (created no_completion) = tt
  generate_attempt-ReplyIs (created bad_body) = tt
  generate_attempt-ReplyIs (bad_status e) = overflow_reply-ReplyIs e (classify_status p e)
  generate_attempt-ReplyIs (unconnected e) = tt

module _ (p : Platform) (row : ModelRow) (intent : GenerateIntent) (key : ProviderCredential) where
  generate_with-ReplyIs :
      (started ended : ℕ) (client : Client Response) (r : Result Defect (Served × Encoded))
      → ReplyIs row (generate_with p row intent key started ended client r)
  generate_with-ReplyIs started ended client (err d) = tt
  generate_with-ReplyIs started ended client (ok (provider, encoded)) =
      generate_attempt-ReplyIs p provider row intent
        (record { started = started; ended = ended; native_reasoning = encoded.native_reasoning })
        (client row key encoded)

  -- Whatever the provider answers, an outcome of the engine has one record, a final one, the provider
  -- of its row, and may be billed.
  pub engine_generate-IsAttempt :
      (started ended : ℕ) (client : Client Response) (o : CallOutcome)
      → engine_generate p row intent key started ended client ≡ answered o
      → IsAttempt row o
  unfolding engine_generate
  engine_generate-IsAttempt started ended client o h =
      subst (ReplyIs row) h
        (generate_with-ReplyIs started ended client (request p row intent key started ended))

  -- A world in which each attempt is one of this engine.
  abbrev pub IsChatWorld : World → Type 0
  IsChatWorld world =
      (n : ℕ)
      → (started : ℕ) × (ended : ℕ) × (client : Client Response) × ((world.reply n).result
          ≡ engine_generate p row intent key started ended client)

  chat-OneRecord : (world : World) → IsChatWorld world → OneRecord world
  chat-OneRecord world chat n o e =
      let (started, ended, client, made) = chat n in
      let att = engine_generate-IsAttempt started ended client o (sym made ∙ e) in
      (att.attempt, att.trace, att.final)

  -- With at least one attempt allowed, and a clock that does not run backwards within an attempt, a
  -- call on this engine ends in one terminal outcome with a well-formed trace and billability
  -- (`IsTerminal`), or with a defect that the engine raised.
  pub chat-Ends :
      (world : World) (policy : RetryPolicy) (monotone : IsMonotone world)
      → IsChatWorld world
      → 1 ≤ policy.max_attempts
      → Ends world row monotone policy
  chat-Ends world policy monotone chat room =
      generate_outcome-IsTerminal world row monotone (chat-OneRecord world chat) policy room
