-- ===== src/Continuation/Resumed.antt =====
-- What sealing a turn, and resuming the artifact with results, make of the state of a generation.
use mathlib.Core.List.{append-nil}
use mathlib.Core.Path.{subst}
use llm_calling.Base.{
  String, ◌≡◌, refl, sym, ap, ◌∙◌, not, ◌||◌, some, List, [], ◌∷◌, ◌++◌, map, arith, str_eq, Result,
  ok, err, >>=-eq-ok, raise_if-ok, ok-injective, >>=-known, none-ne-some,
}
use llm_calling.Continuation.{has_fields, mapping_of, require_mapping, encode_continuation}
use llm_calling.Continuation.Conversation.{
  Turn, with_turns, state_json, continuation_artifact-ok, same_artifact,
}
use llm_calling.Continuation.Generation.{items_of, turn_json}
use llm_calling.Continuation.Read.{Misread, malformed, mistyped, read_generation}
use llm_calling.Continuation.Resume.{
  generation_keys, some_items, require_items, change_last, put_in, check_ids, result_json,
  pending_calls, resumed, or_unfollowed, answered_payload, same_definition, open_generation,
  resume_generation,
}
use llm_calling.Continuation.Seal.{
  append_item, append_turn, too_large, require_native, seal_turn, seal_content, seal_generation,
}
use llm_calling.Contract.{
  eq_target, native_mismatched, other_current_model, generation_envelope, no_pending_turn,
  invalid_request,
}
use llm_calling.Contract.Outcome.{text_content, ResponsePayload}
use llm_calling.Contract.Request.{
  ToolCall, ContinuationArtifact, continuation_artifact, ToolResultMessage, GenerateIntent,
}
use llm_calling.Json.{Json, arr, obj, Items, nil, cons, Fields, thaw_json_value, get}
use llm_calling.Platform.{Platform}
use llm_calling.Registry.{ModelRow}

module _ (g : Turn → Json) where
  pub append_item-items_of :
      (xs : List Turn) (x : Turn) → append_item (items_of g xs) (g x) ≡ items_of g (xs ++ x ∷ [])
  append_item-items_of [] x = refl
  append_item-items_of (y ∷ ys) x = rw (append_item-items_of ys x) refl

pub some_items-append_item :
    (vs : Items) (v : Json) → some_items (some (arr (append_item vs v))) ≡ some (append_item vs v)
some_items-append_item nil v = refl
some_items-append_item (cons w vs) v = refl

pub change_last-append_item :
    (f : Json → Json) (vs : Items) (v : Json)
    → change_last f (append_item vs v) ≡ append_item vs (f v)
change_last-append_item f nil v = refl
change_last-append_item f (cons w nil) v = refl
change_last-append_item f (cons w (cons w' vs)) v =
    rw (change_last-append_item f (cons w' vs) v) refl

pub with_turns-nil :
    (codec_id : String) (intent : GenerateIntent) → intent ≡ with_turns codec_id intent []
with_turns-nil codec_id intent =
    λ i. record intent { messages = sym (append-nil intent.messages) i }

module _ (p : Platform) (row : ModelRow) where
  -- The artifact of a turn that was sealed.
  pub seal_turn-artifact :
      (request : GenerateIntent) (digest : String) (first : Fields) (turns : Items) (text : String)
      (calls : List ToolCall) (own artifact : ContinuationArtifact)
      (response sealed : ResponsePayload)
      → response.continuation ≡ some own
      → seal_turn p row request (state_json digest first turns) text calls response ≡ ok sealed
      → sealed.continuation ≡ some artifact
      → artifact ≡ record {
        target = request.target;
        codec_id = row.continuation_codec;
        opaque_payload =
            state_json digest first (append_item turns (turn_json text calls own.opaque_payload));
      }
  unfolding seal_turn append_turn
  seal_turn-artifact request digest first turns text calls own artifact response sealed given h
        out =
      let h₁ = >>=-known (require_native response.continuation) _ (ap require_native given) h in
      let (u, h₂) =
        raise_if-ok
          (not (eq_target own.target request.target)
            || not (str_eq own.codec_id row.continuation_codec))
          (invalid_request native_mismatched) _ sealed h₁ in
      let whole =
        state_json digest first (append_item turns (turn_json text calls own.opaque_payload)) in
      let (made, built, h₃) =
        >>=-eq-ok
          (continuation_artifact request.target row.continuation_codec
            (thaw_json_value (obj whole)))
          _ h₂ in
      let (bytes, fits, h₄) = >>=-eq-ok (too_large (encode_continuation p made)) _ h₃ in
      let named =
        same_artifact made request.target row.continuation_codec whole
          (continuation_artifact-ok request.target row.continuation_codec (obj whole) made built) in
      let carried : some made ≡ some artifact =
        ap (λ r. ResponsePayload.continuation r) (ok-injective h₄) ∙ out in
      let back : made ≡ artifact = cc in sym back ∙ named

  open_generation-ok :
      (artifact : ContinuationArtifact) (digest : String) (first : Fields) (turns : Items)
      (last : Json) (reached : Json × Items)
      → artifact.opaque_payload ≡ state_json digest first (append_item turns last)
      → open_generation p row artifact ≡ ok reached
      → reached ≡ (obj first, append_item turns last)
  unfolding open_generation
  open_generation-ok artifact digest first turns last reached shape h =
      let (bytes, fits, h₁) = >>=-eq-ok (encode_continuation p artifact) _ h in
      let (u, h₂) =
        raise_if-ok
          (not
              (eq_target artifact.target (record { provider = row.provider; model = row.model_id }))
            || not (str_eq artifact.codec_id row.continuation_codec))
          (invalid_request other_current_model) _ reached h₁ in
      let (v, h₃) =
        raise_if-ok (not (has_fields generation_keys artifact.opaque_payload))
          (invalid_request generation_envelope) _ reached h₂ in
      let (w, same, h₄) = >>=-eq-ok (same_definition p row artifact.opaque_payload) _ h₃ in
      let h₅ =
        >>=-known
          (require_mapping (mapping_of (get "first" artifact.opaque_payload)) no_pending_turn) _
          (ap (λ fs. require_mapping (mapping_of (get "first" fs)) no_pending_turn) shape) h₄ in
      let h₆ =
        >>=-known (require_items (some_items (get "turns" artifact.opaque_payload)) no_pending_turn)
          _
          (ap (λ fs. require_items (some_items (get "turns" fs)) no_pending_turn) shape
            ∙ ap (λ x. require_items x no_pending_turn) (some_items-append_item turns last))
          h₅ in
      sym (ok-injective h₆)

  seal_content-turn :
      (request : GenerateIntent) (state : Fields) (text : String) (calls : List ToolCall)
      (response sealed : ResponsePayload) (artifact : ContinuationArtifact)
      → seal_content p row request state (text_content text calls) response ≡ ok sealed
      → sealed.continuation ≡ some artifact
      → seal_turn p row request state text calls response ≡ ok sealed
  seal_content-turn request state text [] response sealed artifact h carried =
      absurd (none-ne-some _ (ap (λ r. ResponsePayload.continuation r) (ok-injective h) ∙ carried))
  seal_content-turn request state text (c ∷ cs) response sealed artifact h carried = h

  pub seal_generation-turn :
      (request : GenerateIntent) (state : Fields) (text : String) (calls : List ToolCall)
      (response sealed : ResponsePayload) (artifact : ContinuationArtifact)
      → response.content ≡ text_content text calls
      → seal_generation p row request state response ≡ ok sealed
      → sealed.continuation ≡ some artifact
      → seal_turn p row request state text calls response ≡ ok sealed
  unfolding seal_generation
  seal_generation-turn request state text calls response sealed artifact content h carried =
      seal_content-turn request state text calls response sealed artifact
        (subst (λ c. seal_content p row request state c response ≡ ok sealed) content h) carried

  or_unfollowed-ok :
      (r : Result Misread GenerateIntent) (state : Fields) (request : GenerateIntent)
      (after : Fields)
      → or_unfollowed r state ≡ ok (resumed request after)
      → (r ≡ ok request) × (state ≡ after)
  or_unfollowed-ok (ok made) state request after h = ground arith
  or_unfollowed-ok (err malformed) state request after h = cc
  or_unfollowed-ok (err mistyped) state request after h = ground arith

  -- A generation that was resumed from an artifact of sealed turns.
  pub resume_generation-ok :
      (artifact : ContinuationArtifact) (results : List ToolResultMessage) (digest : String)
      (first : Fields) (turns : Items) (last : Json) (request : GenerateIntent) (after : Fields)
      → artifact.opaque_payload ≡ state_json digest first (append_item turns last)
      → resume_generation p row (record { continuation = artifact; tool_results = results })
        ≡ ok (resumed request after)
      → (read_generation p artifact.target row.continuation_codec
            (obj first)
            (append_item turns (put_in "results" (arr (items_of result_json results)) last))
          ≡ ok request)
        × (after
            ≡ state_json digest first
                (append_item turns (put_in "results" (arr (items_of result_json results)) last)))
  unfolding resume_generation
  resume_generation-ok artifact results digest first turns last request after shape h =
      let (reached, o, h₁) = >>=-eq-ok (open_generation p row artifact) _ h in
      let known = open_generation-ok artifact digest first turns last reached shape o in
      let later = append_item turns (put_in "results" (arr (items_of result_json results)) last) in
      let h₂ = >>=-known (open_generation p row artifact) _ (o ∙ ap ok known) h in
      let (calls, c, h₃) = >>=-eq-ok (pending_calls (append_item turns last)) _ h₂ in
      let (u, ids, h₄) =
        >>=-eq-ok
          (check_ids (map (get "id") calls) (map (λ r. ToolResultMessage.call_id r) results)) _
          h₃ in
      let (made, built, h₅) =
        >>=-eq-ok (continuation_artifact artifact.target artifact.codec_id _) _ h₄ in
      let (bytes, fits, h₆) = >>=-eq-ok (encode_continuation p made) _ h₅ in
      let (read, same) = or_unfollowed-ok _ _ request after h₆ in
      let settle =
        change_last-append_item (put_in "results" (arr (items_of result_json results))) turns
          last in
      (
        subst
            (λ vs.
              read_generation p artifact.target row.continuation_codec (obj first) vs ≡ ok request)
            settle read,
        sym same
            ∙ ap (λ vs. answered_payload vs artifact.opaque_payload) settle
            ∙ ap (answered_payload later) shape,
      )
