-- ===== src/Continuation/Sealed.antt =====
-- What a sealed response promises.
use mathlib.Core.Path.{subst}
use llm_calling.Base.{
  ℕ, String, ◌≡◌, refl, sym, not, ◌||◌, none, some, List, [], ◌∷◌, arith, str_eq, Result, ok, err,
  >>=-eq-ok, Ensures, Ensures-eq, raise_if-ok,
}
use llm_calling.Continuation.{encode_continuation}
use llm_calling.Continuation.Generation.{turn_json}
use llm_calling.Continuation.Seal.{
  append_turn, require_state, too_large, require_native, seal_turn, seal_content, seal_generation,
}
use llm_calling.Contract.{ProviderTarget, eq_target, native_mismatched, Defect, invalid_request}
use llm_calling.Contract.Outcome.{
  ResponseContent, text_content, structured_content, ResponsePayload,
}
use llm_calling.Contract.Request.{
  ToolCall, ContinuationArtifact, continuation_artifact, GenerateIntent,
}
use llm_calling.Json.{obj, Fields, Object, thaw_json_value}
use llm_calling.Platform.{Platform}
use llm_calling.Registry.{ModelRow}
use llm_calling.Registry.Rows.{one}

abbrev pub HasCalls : ResponseContent → Type 0
HasCalls (text_content t []) = ⊥
HasCalls (text_content t (c ∷ cs)) = Unit
HasCalls (structured_content o t) = ⊥

module _ (p : Platform) (row : ModelRow) (intent : GenerateIntent) where
  -- The artifact is for the intent's target and the row's codec, and it can be encoded.
  pub record IsUsable (artifact : ContinuationArtifact) : Type 0 where
    pub same_target : artifact.target ≡ intent.target
    pub same_codec : artifact.codec_id ≡ row.continuation_codec
    pub encodes : (bytes : List ℕ) × (encode_continuation p artifact ≡ ok bytes)

  -- The content is the engine's. There is a continuation exactly if the turn calls tools.
  pub record IsSealed (response sealed : ResponsePayload) : Type 0 where
    pub same_content : sealed.content ≡ response.content
    pub with_calls :
        HasCalls response.content
        → (artifact : ContinuationArtifact) × (sealed.continuation ≡ some artifact)
          × IsUsable artifact
    pub without_calls : ¬ HasCalls response.content → sealed.continuation ≡ none

  too_large-ok :
      (r : Result Defect (List ℕ)) (bytes : List ℕ) → too_large r ≡ ok bytes → r ≡ ok bytes
  too_large-ok (ok a) bytes h = h
  too_large-ok (err d) bytes h = ground arith

  abbrev Names : ProviderTarget → String → ContinuationArtifact → Type 0
  Names target codec_id a = (a.target ≡ target) × (a.codec_id ≡ codec_id)

  continuation_artifact-Names :
      (target : ProviderTarget) (codec_id : String) (o : Object)
      → Ensures (Names target codec_id) (continuation_artifact target codec_id o)
  unfolding continuation_artifact
  continuation_artifact-Names target codec_id o = ground arith

  module _ (state : Fields) where
    abbrev SealsTurn : ResponsePayload → ResponsePayload → Type 0
    SealsTurn response sealed =
        (sealed.content ≡ response.content)
        × (artifact : ContinuationArtifact) × (sealed.continuation ≡ some artifact)
        × IsUsable artifact

    seal_turn-IsUsable :
        (text : String) (calls : List ToolCall) (response sealed : ResponsePayload)
        → seal_turn p row intent state text calls response ≡ ok sealed
        → SealsTurn response sealed
    unfolding seal_turn
    seal_turn-IsUsable text calls response sealed h =
        let (own, e, h₁) = >>=-eq-ok (require_native response.continuation) _ h in
        let (f, h₂) =
          raise_if-ok
            (not (eq_target own.target intent.target)
              || not (str_eq own.codec_id row.continuation_codec))
            (invalid_request native_mismatched) _ sealed h₁ in
        let (whole, g, h₃) =
          >>=-eq-ok (require_state (append_turn (turn_json text calls own.opaque_payload) state)) _
            h₂ in
        let (artifact, i, h₄) =
          >>=-eq-ok
            (continuation_artifact intent.target row.continuation_codec
              (thaw_json_value (obj whole)))
            _ h₃ in
        let (bytes, j, h₅) = >>=-eq-ok (too_large (encode_continuation p artifact)) _ h₄ in
        let (t, c) =
          Ensures-eq (Names intent.target row.continuation_codec) _
            (continuation_artifact-Names intent.target row.continuation_codec
              (thaw_json_value (obj whole)))
            i in
        let made : ResponsePayload = record {
          content = response.content;
          continuation = some artifact;
        } in
        let back : made ≡ sealed = cc in
        subst (SealsTurn response) back (
          refl,
          artifact,
          refl,
          record {
            same_target = t;
            same_codec = c;
            encodes = (bytes, too_large-ok (encode_continuation p artifact) bytes j);
          },
        )

    -- A response without tool calls is sealed without a continuation.
    unsealed :
        (response sealed : ResponsePayload)
        → ¬ HasCalls response.content
        → record { content = response.content; continuation = none } ≡ sealed
        → IsSealed response sealed
    unsealed response sealed no_calls e = subst (IsSealed response) e (record {
      same_content = refl;
      with_calls = λ calls. absurd (no_calls calls);
      without_calls = λ n. refl;
    })

    IsSealed-content :
        (content : ResponseContent) (response sealed : ResponsePayload)
        → response.content ≡ content
        → seal_content p row intent state content response ≡ ok sealed
        → IsSealed response sealed
    IsSealed-content (text_content t []) response sealed e h =
        unsealed response sealed (λ calls. subst HasCalls e calls) cc
    IsSealed-content (text_content t (c ∷ cs)) response sealed e h =
        let (same, artifact, one, usable) = seal_turn-IsUsable t (c ∷ cs) response sealed h in
        record {
          same_content = same;
          with_calls = λ calls. (artifact, one, usable);
          without_calls = λ n. absurd (n (subst HasCalls (sym e) tt));
        }
    IsSealed-content (structured_content o t) response sealed e h =
        unsealed response sealed (λ calls. subst HasCalls e calls) cc

    -- A turn that calls tools is sealed with one artifact for the intent's target and the row's codec,
    -- which can be encoded; any other response is sealed without. The content is kept.
    pub seal_generation-IsSealed :
        (response sealed : ResponsePayload)
        → seal_generation p row intent state response ≡ ok sealed
        → IsSealed response sealed
    unfolding seal_generation
    seal_generation-IsSealed response sealed h =
        IsSealed-content response.content response sealed refl h
