-- ===== src/Runtime/Continue.antt =====
-- Continuing a call: what `_prepare` makes of the artifact of a turn that waits for its tools.
use llm_calling.Base.{
  ℕ, String, ◌≡◌, refl, sym, ap, ◌∙◌, Bool, false, some, List, [], ◌∷◌, ◌++◌, map, any, All, concat,
  ok,
}
use llm_calling.Continuation.{encode_continuation}
use llm_calling.Continuation.Answered.{with_results, History-resumes}
use llm_calling.Continuation.Conversation.{Turn, turn_messages, with_turns}
use llm_calling.Continuation.History.{IsPending, History, IsPending-artifact, History-IsHistory}
use llm_calling.Continuation.ReadBack.{ReadsImages}
use llm_calling.Continuation.Resume.{repeats}
use llm_calling.Contract.{ProviderTarget}
use llm_calling.Contract.Request.{
  ContinuationArtifact, continuation_artifact, ToolResultMessage, tool_result_message,
  GenerateIntent, continue,
}
use llm_calling.Json.{obj, Fields, thaw_json_value}
use llm_calling.Platform.{Platform}
use llm_calling.Registry.{ModelRow}
use llm_calling.Registry.Resolve.{resolve_target}
use llm_calling.Registry.Valid.{resolve_target-IsValidRow}
use llm_calling.Runtime.Gates.{has_image, Accepts, validate_intent-ok_iff}
use llm_calling.Runtime.Prepare.{prepare_resumed, prepare}
use llm_calling.Runtime.Stream.{stream}

any-append :
    {A : Type 0} (f : A → Bool) (xs ys : List A) → any f ys ≡ false → any f (xs ++ ys) ≡ any f xs
any-append f [] ys h = h
any-append f (x ∷ xs) ys h = rw (any-append f xs ys h) refl

no_image-results :
    (rs : List ToolResultMessage) → any has_image (map tool_result_message rs) ≡ false
no_image-results [] = refl
no_image-results (r ∷ rs) = no_image-results rs

no_image-turns :
    (target : ProviderTarget) (codec_id : String) (ts : List Turn)
    → any has_image (concat (map (turn_messages target codec_id) ts)) ≡ false
no_image-turns target codec_id [] = refl
no_image-turns target codec_id (t ∷ ts) =
    any-append has_image (map tool_result_message t.results) _ (no_image-turns target codec_id ts)
    ∙ no_image-results t.results

-- The turns of a generation never change what the gates say of it.
Accepts-with_turns :
    (row : ModelRow) (intent : GenerateIntent) (streaming : Bool) (ts : List Turn)
    → Accepts row intent streaming
    → Accepts row (with_turns row.continuation_codec intent ts) streaming
Accepts-with_turns row intent streaming ts (key, declared, stream, tools, images) = (
  key,
  declared,
  stream,
  tools,
  λ h. images (
      sym (
        any-append has_image intent.messages _
          (no_image-turns intent.target row.continuation_codec ts))
      ∙ h),
)

module _ (p : Platform) (row : ModelRow) (intent : GenerateIntent) (streaming : Bool) where
  resolved_target :
      resolve_target intent.target ≡ ok row
      → intent.target ≡ record { provider = row.provider; model = row.model_id }
  resolved_target h =
      let (valid, provider, model) = resolve_target-IsValidRow intent.target row h in
      λ i. record { provider = sym provider i; model = sym model i }

  -- The continuation of a request that passed the gates is not refused by them: the results of the
  -- pending calls, in their order, are accepted if the IDs are distinct and the payload with the
  -- results can be encoded, and the call goes on with the first request and all its turns.
  pub prepare-continues :
      (turns : List Turn) (request : GenerateIntent) (state : Fields) (turn : Turn)
      (artifact made : ContinuationArtifact) (bytes : List ℕ)
      → resolve_target intent.target ≡ ok row
      → Accepts row intent streaming
      → All (ReadsImages p) intent.messages
      → History p row intent turns request state
      → IsPending p row request state turn artifact
      → repeats (map (λ c. c.id) turn.calls) ≡ false
      → map (λ r. r.call_id) turn.results ≡ map (λ c. c.id) turn.calls
      → continuation_artifact artifact.target artifact.codec_id
          (thaw_json_value (obj (with_results turn.results artifact.opaque_payload)))
        ≡ ok made
      → encode_continuation p made ≡ ok bytes
      → prepare p
          (continue (record { continuation = artifact; tool_results = turn.results }))
          streaming
        ≡ ok (
            some (record {
              row = row;
              intent = with_turns row.continuation_codec intent (turns ++ turn ∷ []);
              state = with_results turn.results artifact.opaque_payload;
            }))
  unfolding prepare prepare_resumed
  prepare-continues turns request state turn artifact made bytes resolves accepts images history
        pending distinct ids fits encodes =
      let so_far = History-IsHistory p row intent images history in
      let shape =
        IsPending-artifact p row intent turns request state turn artifact so_far pending in
      let found : resolve_target artifact.target ≡ ok row =
        ap (λ a. resolve_target (ContinuationArtifact.target a)) shape ∙ resolves in
      let resumes =
        History-resumes p row intent turns request state turn artifact made bytes
          (resolved_target resolves) images history pending distinct ids fits encodes in
      let passes =
        (validate_intent-ok_iff row (with_turns row.continuation_codec intent (turns ++ turn ∷ []))
            streaming).1
          (Accepts-with_turns row intent streaming (turns ++ turn ∷ []) accepts) in
      rw (found, resumes, passes) refl
