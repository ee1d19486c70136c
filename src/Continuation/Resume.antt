-- ===== src/Continuation/Resume.antt =====
-- `resume_generation` and `pending_tool_calls`: a continuation with the results of its pending tool
-- calls, and the calls that wait.
use llm_calling.Base.{
  String, Bool, true, false, not, ◌&&◌, ◌||◌, Option, none, some, List, [], ◌∷◌, map, str_eq,
  if◌then◌else◌, any, all, Result, ok, err, ◌>>=◌, raise_if, ◌>>◌,
}
use llm_calling.Continuation.{has_fields, is_str, mapping_of, require_mapping, encode_continuation}
use llm_calling.Continuation.Generation.{generation_schema, items_of, row_fingerprint}
use llm_calling.Continuation.Read.{Misread, malformed, mistyped, read_generation}
use llm_calling.Contract.{
  eq_target, Reason, other_current_model, generation_envelope, other_definition, no_pending_turn,
  not_pending_results, no_pending_calls, results_mismatch, payload_malformed, Defect,
  invalid_request, type_error,
}
use llm_calling.Contract.Request.{
  ContinuationArtifact, continuation_artifact, ToolResultMessage, GenerateIntent,
  ContinueGeneration,
}
use llm_calling.Json.{
  Json, null, bool, str, arr, obj, Items, nil, cons, Fields, end, field, thaw_json_value, get,
}
use llm_calling.Platform.{Platform}
use llm_calling.Registry.{ModelRow}

abbrev pub generation_keys : List String
generation_keys = "schema" ∷ "row_fingerprint" ∷ "first" ∷ "turns" ∷ []

-- The entries of a `list` that is not empty.
abbrev pub some_items : Option Json → Option Items
some_items (some (arr nil)) = none
some_items (some (arr (cons v vs))) = some (cons v vs)
some_items _ = none

abbrev pub require_items : Option Items → Reason → Result Defect Items
require_items (some vs) reason = ok vs
require_items none reason = err (invalid_request reason)

-- `value[-1]`
abbrev pub last_item : Items → Option Json
last_item nil = none
last_item (cons v nil) = some v
last_item (cons v (cons w vs)) = last_item (cons w vs)

-- The turns with their last one changed in place.
abbrev pub change_last : (Json → Json) → Items → Items
change_last f nil = nil
change_last f (cons v nil) = cons (f v) nil
change_last f (cons v (cons w vs)) = cons v (change_last f (cons w vs))

-- `value[key] = v`: a key that is there keeps its place.
abbrev pub put : String → Json → Fields → Fields
put key v end = field key v end
put key v (field k w fs) =
    let rest = put key v fs in if str_eq k key then field k v fs else field k w rest

abbrev pub put_in : String → Json → Json → Json
put_in key v (obj fs) = obj (put key v fs)
put_in key v w = w

abbrev pub are_mappings : Items → Option (List Fields)
are_mappings nil = some []
are_mappings (cons (obj fs) vs) = elim (are_mappings vs) [
  | none ↦ none
  | some fss ↦ some (fs ∷ fss)
]
are_mappings (cons _ vs) = none

abbrev require_mappings : Option (List Fields) → Result Defect (List Fields)
require_mappings none = err (invalid_request no_pending_calls)
require_mappings (some fss) = ok fss

abbrev pub is_null : Option Json → Bool
is_null (some null) = true
is_null _ = false

-- A value that a `set` can hold; a missing one is `None`.
abbrev pub hashable : Option Json → Bool
hashable (some (arr _)) = false
hashable (some (obj _)) = false
hashable _ = true

abbrev pub text_ids : List (Option Json) → Option (List String)
text_ids [] = some []
text_ids (some (str s) ∷ ids) = elim (text_ids ids) [ none ↦ none | some ss ↦ some (s ∷ ss) ]
text_ids (_ ∷ ids) = none

-- `len(set(ids)) != len(ids)`
abbrev pub repeats : List String → Bool
repeats [] = false
repeats (s ∷ ss) = any (str_eq s) ss || repeats ss

abbrev pub same_ids : List String → List String → Bool
same_ids [] [] = true
same_ids (a ∷ as') (b ∷ bs) = str_eq a b && same_ids as' bs
same_ids _ _ = false

-- The IDs of a call are texts, so that an ID that is none differs from each of them.
abbrev answers : Option (List String) → List String → Bool
answers none actual = false
answers (some expected) actual = not (repeats expected) && same_ids actual expected

unfoldable pub check_ids : List (Option Json) → List String → Result Defect (Unit {0})
check_ids expected actual = do
  raise_if (not (all hashable expected)) type_error
  raise_if (not (answers (text_ids expected) actual)) (invalid_request results_mismatch)

abbrev pub result_json : ToolResultMessage → Json
result_json result = obj (
    field "call_id" (str result.call_id)
      (field "output" (str result.output) (field "is_error" (bool result.is_error) end)))

-- The last turn, its calls, and that its results are missing.
unfoldable pub pending_calls : Items → Result Defect (List Fields)
pending_calls turns = do
  last ← require_mapping (mapping_of (last_item turns)) not_pending_results
  raise_if
      (not (has_fields ("text" ∷ "calls" ∷ "native" ∷ "results" ∷ []) last)
        || not (is_null (get "results" last)))
      (invalid_request not_pending_results)
  calls ← require_items (some_items (get "calls" last)) no_pending_calls
  require_mappings (are_mappings calls)

-- What a resumption gives: the request to send and the state to seal, or nothing that the model
-- follows, where the payload holds a value of another type than the one it is cast to.
pub data Resumption : Type 0 where
  resumed : GenerateIntent → Fields → Resumption
  not_followed : Resumption

abbrev pub or_unfollowed : Result Misread GenerateIntent → Fields → Result Defect Resumption
or_unfollowed (ok request) state = ok (resumed request state)
or_unfollowed (err malformed) state = err (invalid_request payload_malformed)
or_unfollowed (err mistyped) state = ok not_followed

-- The turns with the results set in the last one, and the payload that holds them.
abbrev pub answered_turns : List ToolResultMessage → Items → Items
answered_turns results = change_last (put_in "results" (arr (items_of result_json results)))

abbrev pub answered_payload : Items → Fields → Fields
answered_payload turns payload = put "turns" (arr turns) payload

module _ (p : Platform) (row : ModelRow) where
  -- `payload["row_fingerprint"] != _row_fingerprint(row)`, computed only for the right schema.
  unfoldable pub same_definition : Fields → Result Defect (Unit {0})
  same_definition payload = do
    raise_if (not (is_str generation_schema (get "schema" payload)))
        (invalid_request other_definition)
    digest ← row_fingerprint p row
    raise_if (not (is_str digest (get "row_fingerprint" payload)))
        (invalid_request other_definition)

  -- From an artifact to the first request and the turns of its generation.
  unfoldable pub open_generation : ContinuationArtifact → Result Defect (Json × Items)
  open_generation artifact = do
    _ ← encode_continuation p artifact
    raise_if
        (not (eq_target artifact.target (record { provider = row.provider; model = row.model_id }))
          || not (str_eq artifact.codec_id row.continuation_codec))
        (invalid_request other_current_model)
    raise_if (not (has_fields generation_keys artifact.opaque_payload))
        (invalid_request generation_envelope)
    same_definition artifact.opaque_payload
    first ← require_mapping (mapping_of (get "first" artifact.opaque_payload)) no_pending_turn
    turns ← require_items (some_items (get "turns" artifact.opaque_payload)) no_pending_turn
    ok (obj first, turns)

  unfoldable pub resume_generation : ContinueGeneration → Result Defect Resumption
  resume_generation request = do
    (first, turns) ← open_generation request.continuation
    calls ← pending_calls turns
    check_ids (map (get "id") calls) (map (λ r. r.call_id) request.tool_results)
    let later = answered_turns request.tool_results turns
    let state = answered_payload later request.continuation.opaque_payload
    artifact ←
        continuation_artifact request.continuation.target request.continuation.codec_id
          (thaw_json_value (obj state))
    _ ← encode_continuation p artifact
    or_unfollowed (read_generation p request.continuation.target row.continuation_codec first later)
        state
