-- ===== src/Continuation/Seal.antt =====
-- `seal_generation`: a turn that calls tools gets one artifact, which holds the whole generation.
use llm_calling.Base.{
  String, not, ◌||◌, Option, none, some, List, [], ◌∷◌, str_eq, if◌then◌else◌, Result, ok, err,
  ◌>>=◌, ◌>>◌, raise_if,
}
use llm_calling.Continuation.{encode_continuation}
use llm_calling.Continuation.Generation.{turn_json}
use llm_calling.Contract.{
  eq_target, Presence, native_omitted, native_mismatched, Defect, invalid_request, value_error,
  key_error,
}
use llm_calling.Contract.Outcome.{
  ResponseContent, text_content, structured_content, ResponsePayload,
}
use llm_calling.Contract.Request.{
  ToolCall, ContinuationArtifact, continuation_artifact, GenerateIntent,
}
use llm_calling.Json.{
  Json, null, bool, int, num, str, arr, obj, Items, nil, cons, Fields, end, field, thaw_json_value,
}
use llm_calling.Platform.{Platform}
use llm_calling.Registry.{ModelRow}

-- `state["turns"].append(turn)`; `none` is `KeyError`, or `AttributeError` on what is no list.
abbrev pub append_item : Items → Json → Items
append_item nil v = cons v nil
append_item (cons w vs) v = cons w (append_item vs v)

abbrev push_turn : Json → Json → Option Json
push_turn (arr vs) v = some (arr (append_item vs v))
push_turn null v = none
push_turn (bool _) v = none
push_turn (int _) v = none
push_turn (num _) v = none
push_turn (str _) v = none
push_turn (obj _) v = none

abbrev set_field : String → Json → Fields → Option Json → Option Fields
set_field k v fs none = none
set_field k v fs (some w) = some (field k w fs)

abbrev keep_field : String → Json → Option Fields → Option Fields
keep_field k v none = none
keep_field k v (some fs) = some (field k v fs)

unfoldable pub append_turn : Json → Fields → Option Fields
append_turn turn end = none
append_turn turn (field k v fs) =
    let rest = keep_field k v (append_turn turn fs) in
    if str_eq k "turns" then set_field k v fs (push_turn v turn) else rest

abbrev pub require_state : Option Fields → Result Defect Fields
require_state (some fs) = ok fs
require_state none = err key_error

-- `except InvalidRequest as error: raise ValueError` around the encoding.
abbrev pub too_large : {A : Type 0} → Result Defect A → Result Defect A
too_large (ok a) = ok a
too_large (err (invalid_request _)) = err value_error
too_large (err d) = err d

abbrev pub require_native : Presence ContinuationArtifact → Result Defect ContinuationArtifact
require_native (some a) = ok a
require_native none = err (invalid_request native_omitted)

module _ (p : Platform) (row : ModelRow) (intent : GenerateIntent) (state : Fields) where
  -- A response whose turn calls tools.
  unfoldable pub seal_turn :
      String → List ToolCall → ResponsePayload → Result Defect ResponsePayload
  seal_turn text calls response = do
    native_artifact ← require_native response.continuation
    raise_if
        (not (eq_target native_artifact.target intent.target)
          || not (str_eq native_artifact.codec_id row.continuation_codec))
        (invalid_request native_mismatched)
    whole ← require_state (append_turn (turn_json text calls native_artifact.opaque_payload) state)
    artifact ←
        continuation_artifact intent.target row.continuation_codec (thaw_json_value (obj whole))
    _ ← too_large (encode_continuation p artifact)
    ok (record { content = response.content; continuation = some artifact })

  abbrev pub seal_content : ResponseContent → ResponsePayload → Result Defect ResponsePayload
  seal_content (text_content text []) response =
      ok (record { content = response.content; continuation = none })
  seal_content (text_content text (call ∷ calls)) response = seal_turn text (call ∷ calls) response
  seal_content (structured_content _ _) response =
      ok (record { content = response.content; continuation = none })

  unfoldable pub seal_generation : ResponsePayload → Result Defect ResponsePayload
  unfolding seal_turn
  seal_generation response = seal_content response.content response
