-- ===== src/Continuation/Pending.antt =====
-- `pending_tool_calls`: the calls that wait in a continuation, in order.
use llm_calling.Base.{
  ℕ, String, ◌≡◌, refl, ap, ◌∙◌, Bool, true, false, not, ◌||◌, Option, none, some, List, [], ◌∷◌,
  map, str_eq, eq_iff, All, Result, ok, err, ◌>>=◌, raise_if, ◌>>◌,
}
use llm_calling.Continuation.{has_fields, mapping_of, require_mapping, encode_continuation}
use llm_calling.Continuation.Answered.{
  IsPending-calls, IsPending-encodes, with_results, History-resumes,
}
use llm_calling.Continuation.Answers.{last_item-append_item}
use llm_calling.Continuation.Conversation.{Turn, settled_json, first_json, state_json}
use llm_calling.Continuation.Generation.{items_of, fingerprint, row_fingerprint}
use llm_calling.Continuation.History.{IsPending, History, IsPending-artifact, History-IsHistory}
use llm_calling.Continuation.Read.{Misread, malformed, mistyped, each, read_call}
use llm_calling.Continuation.ReadBack.{each-calls, ReadsImages}
use llm_calling.Continuation.Resume.{
  generation_keys, some_items, require_items, last_item, is_null, repeats, Resumption, resumed,
  not_followed, same_definition, resume_generation,
}
use llm_calling.Continuation.Resumed.{some_items-append_item}
use llm_calling.Continuation.Seal.{append_item}
use llm_calling.Contract.{
  ProviderTarget, codec_mismatch, other_definition, not_pending_results, no_pending_calls,
  pending_calls_malformed, pending_ids, Defect, invalid_request,
}
use llm_calling.Contract.Request.{
  ToolCall, ContinuationArtifact, continuation_artifact, ToolResultMessage, GenerateIntent,
}
use llm_calling.Json.{Json, arr, obj, Items, Fields, thaw_json_value, get}
use llm_calling.Platform.{Platform}
use llm_calling.Registry.{ModelRow}
use llm_calling.Registry.Check.{is_empty}
use llm_calling.Registry.Resolve.{resolve_target}

abbrev missing : Option Json → Bool
missing none = true
missing (some v) = is_null (some v)

-- `isinstance(value, list)`
abbrev list_of : Option Json → Option Items
list_of (some (arr vs)) = some vs
list_of _ = none

-- A result for a call, to try a resumption with.
abbrev pub blank_result : ToolCall → ToolResultMessage
blank_result call = record { call_id = call.id; output = ""; is_error = false }

-- Where a call holds a value of another type than it should, the model does not follow the source.
abbrev or_malformed_calls : Result Misread (List ToolCall) → Result Defect (Option (List ToolCall))
or_malformed_calls (ok calls) = ok (some calls)
or_malformed_calls (err malformed) = err (invalid_request pending_calls_malformed)
or_malformed_calls (err mistyped) = ok none

abbrev if_resumed : List ToolCall → Resumption → Option (List ToolCall)
if_resumed calls (resumed _ _) = some calls
if_resumed calls not_followed = none

module _ (p : Platform) (row : ModelRow) (artifact : ContinuationArtifact) where
  -- The payload's last turn.
  unfoldable pub waiting_turn : Result Defect Fields
  waiting_turn = do
    _ ← encode_continuation p artifact
    raise_if (not (str_eq artifact.codec_id row.continuation_codec))
        (invalid_request codec_mismatch)
    raise_if (not (has_fields generation_keys artifact.opaque_payload))
        (invalid_request other_definition)
    same_definition p row artifact.opaque_payload
    turns ← require_items (some_items (get "turns" artifact.opaque_payload)) no_pending_calls
    require_mapping (mapping_of (last_item turns)) no_pending_calls

  unfoldable pub calls_of : Fields → Result Defect (Option (List ToolCall))
  calls_of last = do
    raise_if (not (missing (get "results" last))) (invalid_request not_pending_results)
    calls ← require_items (list_of (get "calls" last)) not_pending_results
    or_malformed_calls (each read_call calls)

  abbrev tried : Option (List ToolCall) → Result Defect (Option (List ToolCall))
  tried none = ok none
  tried (some calls) = do
    raise_if (is_empty calls || repeats (map (λ c. c.id) calls)) (invalid_request pending_ids)
    resumption ←
        resume_generation p row
          (record { continuation = artifact; tool_results = map blank_result calls })
    ok (if_resumed calls resumption)

  unfoldable pub tried_calls : Result Defect (Option (List ToolCall))
  tried_calls = do last ← waiting_turn; calls ← calls_of last; tried calls

unfoldable pub pending_tool_calls :
    Platform → ContinuationArtifact → Result Defect (Option (List ToolCall))
pending_tool_calls p artifact = do row ← resolve_target artifact.target; tried_calls p row artifact

blank_ids :
    (calls : List ToolCall) → map (λ r. r.call_id) (map blank_result calls) ≡ map (λ c. c.id) calls
blank_ids [] = refl
blank_ids (c ∷ cs) = ap (λ ids. c.id ∷ ids) (blank_ids cs)

module _ (p : Platform) (row : ModelRow) where
  waiting_turn-state :
      (artifact : ContinuationArtifact) (bytes : List ℕ) (target : ProviderTarget) (digest : String)
      (first : Fields) (turns : Items) (last : Fields)
      → artifact ≡ record {
        target = target;
        codec_id = row.continuation_codec;
        opaque_payload = state_json digest first (append_item turns (obj last));
      }
      → encode_continuation p artifact ≡ ok bytes
      → row_fingerprint p row ≡ ok digest
      → waiting_turn p row artifact ≡ ok last
  unfolding waiting_turn same_definition
  waiting_turn-state artifact bytes target digest first turns last shape encodes fingerprint =
      rw
        (
          encodes,
          shape,
          (eq_iff row.continuation_codec row.continuation_codec).1 refl,
          fingerprint,
          (eq_iff digest digest).1 refl,
          some_items-append_item turns (obj last),
          last_item-append_item turns (obj last),
        )
        refl

  -- The calls that wait in the artifact of a pending turn are the turn's, if they have distinct IDs and
  -- the payload can be encoded with an empty result for each of them.
  pub pending_tool_calls-IsPending :
      (intent : GenerateIntent) (turns : List Turn) (request : GenerateIntent) (state : Fields)
      (turn : Turn) (artifact made : ContinuationArtifact) (bytes : List ℕ)
      → intent.target ≡ record { provider = row.provider; model = row.model_id }
      → resolve_target intent.target ≡ ok row
      → All (ReadsImages p) intent.messages
      → History p row intent turns request state
      → IsPending p row request state turn artifact
      → repeats (map (λ c. c.id) turn.calls) ≡ false
      → continuation_artifact artifact.target artifact.codec_id (
          thaw_json_value
            (obj (with_results (map blank_result turn.calls) artifact.opaque_payload)))
        ≡ ok made
      → encode_continuation p made ≡ ok bytes
      → pending_tool_calls p artifact ≡ ok (some turn.calls)
  unfolding pending_tool_calls tried_calls calls_of
  pending_tool_calls-IsPending intent turns request state turn artifact made bytes target resolves
        images history pending distinct fits encodes =
      let so_far = History-IsHistory p row intent images history in
      let shape =
        IsPending-artifact p row intent turns request state turn artifact so_far pending in
      let (before, encoded) = IsPending-encodes p row request state turn artifact pending in
      let (c, cs, called) = IsPending-calls p row request state turn artifact pending in
      let nonempty : is_empty turn.calls ≡ false = ap is_empty called in
      let found : resolve_target artifact.target ≡ ok row =
        ap (λ a. resolve_target (ContinuationArtifact.target a)) shape ∙ resolves in
      let blank : Turn = record turn { results = map blank_result turn.calls } in
      let same_pending : IsPending p row request state blank artifact = record {
        response = pending.response;
        sealed = pending.sealed;
        own = pending.own;
        content = pending.content;
        given = pending.given;
        native_is = pending.native_is;
        seals = pending.seals;
        carried = pending.carried;
      } in
      let resumes =
        History-resumes p row intent turns request state blank artifact made bytes target images
          history same_pending distinct (blank_ids turn.calls) fits encodes in
      rw
        (
          found,
          waiting_turn-state artifact before intent.target so_far.digest
              (first_json so_far.messages intent) (items_of settled_json turns) _ shape encoded
              so_far.fingerprint,
          each-calls turn.calls,
          nonempty,
          distinct,
          resumes,
        )
        refl
