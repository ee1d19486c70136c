-- ===== src/Continuation/Conversation.antt =====
-- The states of one generation over its turns: what sealing and resuming make of the first state.
use llm_calling.Base.{
  String, ◌≡◌, sym, ap, ◌∙◌, some, List, ◌∷◌, ◌++◌, map, str_eq, All, concat, Result, ok, err,
  >>=-eq-ok, raise_if-ok, ok-injective, >>=-known,
}
use llm_calling.Continuation.Generation.{
  generation_schema, items_of, tool_json, choice_text, output_json, call_json, messages_json,
}
use llm_calling.Continuation.Read.{
  each, read_call, read_tool, read_result, read_output, read_choice, or_malformed, read_message,
  read_turn, read_generation,
}
use llm_calling.Continuation.ReadBack.{
  each-items_of-ok, read_output-output_json, read_choice-choice_text, each-calls, each-tools,
  each-results, ReadsImages, each-messages_json,
}
use llm_calling.Continuation.Resume.{result_json}
use llm_calling.Contract.{ProviderTarget, Defect, value_error}
use llm_calling.Contract.Request.{
  ToolCall, ContinuationArtifact, continuation_artifact, ToolResultMessage, PromptMessage,
  assistant_message, tool_result_message, GenerateIntent,
}
use llm_calling.Json.{
  Json, null, bool, int, num, str, arr, obj, Items, Fields, end, field, JsonError,
  freeze_json_value, as_object, freeze_json_object, thaw_json_value,
}
use llm_calling.Json.Thaw.{freeze_json_value-thaw_iff}
use llm_calling.Platform.{Platform}

-- A turn whose tools have answered.
pub record Turn : Type 0 where
  pub text : String
  pub calls : List ToolCall
  pub native_payload : Fields
  pub results : List ToolResultMessage

-- The messages that a turn adds to the request.
abbrev pub turn_messages : ProviderTarget → String → Turn → List PromptMessage
turn_messages target codec_id turn =
    assistant_message turn.text turn.calls
      (some (record { target = target; codec_id = codec_id; opaque_payload = turn.native_payload }))
    ∷ map tool_result_message turn.results

abbrev pub with_turns : String → GenerateIntent → List Turn → GenerateIntent
with_turns codec_id intent turns = record intent {
  messages = intent.messages ++ concat (map (turn_messages intent.target codec_id) turns);
}

abbrev pub settled_json : Turn → Json
settled_json turn = obj (
    field "text" (str turn.text) (
      field "calls" (arr (items_of call_json turn.calls)) (
        field "native" (obj turn.native_payload)
          (field "results" (arr (items_of result_json turn.results)) end))))

abbrev pub first_json : Items → GenerateIntent → Fields
first_json messages intent = field "messages" (arr messages) (
    field "max_output_tokens" (int intent.max_output_tokens) (
      field "reasoning" (str intent.reasoning) (
        field "tools" (arr (items_of tool_json intent.tools)) (
          field "tool_choice" (str (choice_text intent.tool_choice)) (
            field "output" (output_json intent.output)
              (field "provider_options" (obj intent.provider_options) end))))))

abbrev pub state_json : String → Fields → Items → Fields
state_json digest first turns = field "schema" (str generation_schema) (
    field "row_fingerprint" (str digest)
      (field "first" (obj first) (field "turns" (arr turns) end)))

pub frozen-ok :
    (r : Result JsonError Fields) (fs : Fields)
    → elim r [ ok gs ↦ ok gs | err e ↦ err value_error ] ≡ ok fs
    → r ≡ ok fs
frozen-ok (ok gs) fs h = ap ok (ok-injective h)
frozen-ok (err e) fs h = cc

as_object-obj : (w : Json) (fs : Fields) → as_object w ≡ ok fs → w ≡ obj fs
as_object-obj (obj gs) fs h = ap obj (ok-injective h)
as_object-obj null fs h = cc
as_object-obj (bool _) fs h = cc
as_object-obj (int _) fs h = cc
as_object-obj (num _) fs h = cc
as_object-obj (str _) fs h = cc
as_object-obj (arr _) fs h = cc

freeze_json_object-thaw :
    (v : Json) (fs : Fields) → freeze_json_object (thaw_json_value v) ≡ ok fs → obj fs ≡ v
unfolding freeze_json_object
freeze_json_object-thaw v fs h =
    let (w, frozen, whole) = >>=-eq-ok (freeze_json_value (thaw_json_value v)) as_object h in
    let same : w ≡ v = ((freeze_json_value-thaw_iff v w).0 frozen).1 in
    sym (as_object-obj w fs whole) ∙ same

-- An artifact of a thawed value holds that value, for the target and the codec that are given.
pub continuation_artifact-ok :
    (target : ProviderTarget) (codec_id : String) (v : Json) (artifact : ContinuationArtifact)
    → continuation_artifact target codec_id (thaw_json_value v) ≡ ok artifact
    → (obj artifact.opaque_payload ≡ v)
      × (artifact.target ≡ target)
      × (artifact.codec_id ≡ codec_id)
unfolding continuation_artifact
continuation_artifact-ok target codec_id v artifact h =
    let (u, h₁) = raise_if-ok (str_eq codec_id "") value_error _ artifact h in
    let (fs, frozen, h₂) =
      >>=-eq-ok
        (elim (freeze_json_object (thaw_json_value v)) [ ok gs ↦ ok gs | err e ↦ err value_error ])
        _ h₁ in
    let made = ok-injective h₂ in
    let same : obj fs ≡ v =
      freeze_json_object-thaw v fs (frozen-ok (freeze_json_object (thaw_json_value v)) fs frozen) in
    (
      ap (λ a. obj (ContinuationArtifact.opaque_payload a)) (sym made) ∙ same,
      ap ContinuationArtifact.target (sym made),
      ap ContinuationArtifact.codec_id (sym made),
    )

pub same_artifact :
    (a : ContinuationArtifact) (target : ProviderTarget) (codec_id : String) (payload : Fields)
    → (obj a.opaque_payload ≡ obj payload) × (a.target ≡ target) × (a.codec_id ≡ codec_id)
    → a ≡ record { target = target; codec_id = codec_id; opaque_payload = payload }
same_artifact a target codec_id payload (h, t, c) =
    let inner : a.opaque_payload ≡ payload = cc in
    λ i. record { target = t i; codec_id = c i; opaque_payload = inner i }

or_malformed-ok : {A : Type 0} (r : Result Defect A) (a : A) → or_malformed r ≡ ok a → r ≡ ok a
or_malformed-ok (ok b) a h = ap ok (ok-injective h)
or_malformed-ok (err e) a h = cc

module _ (p : Platform) (target : ProviderTarget) (codec_id : String) where
  read_turn-settled_json :
      (t : Turn) (ms : List PromptMessage)
      → read_turn p target codec_id (settled_json t) ≡ ok ms
      → ms ≡ turn_messages target codec_id t
  unfolding read_turn
  read_turn-settled_json t ms h =
      let h₁ = >>=-known (each read_call (items_of call_json t.calls)) _ (each-calls t.calls) h in
      let (own, made, h₂) =
        >>=-eq-ok
          (or_malformed
            (continuation_artifact target codec_id (thaw_json_value (obj t.native_payload))))
          _ h₁ in
      let h₃ =
        >>=-known (each read_result (items_of result_json t.results)) _ (each-results t.results)
          h₂ in
      let artifact : own
          ≡ record { target = target; codec_id = codec_id; opaque_payload = t.native_payload } =
        same_artifact own target codec_id t.native_payload (
          continuation_artifact-ok target codec_id (obj t.native_payload) own
            (or_malformed-ok _ own made)) in
      sym (ok-injective h₃)
      ∙ ap (λ a. assistant_message t.text t.calls (some a) ∷ map tool_result_message t.results)
          artifact

  each-settled_json :
      (ts : List Turn) (ms : List (List PromptMessage))
      → each (read_turn p target codec_id) (items_of settled_json ts) ≡ ok ms
      → ms ≡ map (turn_messages target codec_id) ts
  each-settled_json =
      each-items_of-ok (read_turn p target codec_id) settled_json (turn_messages target codec_id)
        read_turn-settled_json

-- What is read from a first request and its turns is that request with the messages of the turns.
pub read_generation-ok :
    (p : Platform) (codec_id : String) (intent request : GenerateIntent) (messages : Items)
    (ts : List Turn)
    → All (ReadsImages p) intent.messages
    → messages_json p intent.messages ≡ ok messages
    → read_generation p intent.target codec_id
        (obj (first_json messages intent))
        (items_of settled_json ts)
      ≡ ok request
    → request ≡ with_turns codec_id intent ts
unfolding read_generation
read_generation-ok p codec_id intent request messages ts images written h =
    let h₁ =
      >>=-known (each (read_message p) messages) _
        (each-messages_json p intent.messages messages images written) h in
    let (later, turns_read, h₂) =
      >>=-eq-ok (each (read_turn p intent.target codec_id) (items_of settled_json ts)) _ h₁ in
    let same_later : later ≡ map (turn_messages intent.target codec_id) ts =
      each-settled_json p intent.target codec_id ts later turns_read in
    let h₃ =
      >>=-known (read_output (output_json intent.output)) _ (read_output-output_json intent.output)
        h₂ in
    let h₄ =
      >>=-known (read_choice (str (choice_text intent.tool_choice))) _
        (read_choice-choice_text intent.tool_choice) h₃ in
    let h₅ =
      >>=-known (each read_tool (items_of tool_json intent.tools)) _ (each-tools intent.tools) h₄ in
    sym (ok-injective h₅)
    ∙ ap (λ ms. record intent { messages = intent.messages ++ concat ms }) same_later
