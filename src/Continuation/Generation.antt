-- ===== src/Continuation/Generation.antt =====
-- The state of a generation: one frozen request, and the turns so far. `_first_state`,
-- `preflight_generation` and `seal_generation`, with the fingerprint of a row.
use llm_calling.Base.{
  ℕ, String, Bool, true, false, not, ◌||◌, Option, none, some, List, [], ◌∷◌, ◌++◌, if◌then◌else◌,
  get_or_else, any, Result, ok, err, ◌>>=◌, codes,
}
use llm_calling.Base.Int.{pos}
use llm_calling.Continuation.{or_value_error, canonical_json_bytes, encode_continuation}
use llm_calling.Contract.{
  EngineId, openai_responses, openai_chat, anthropic_messages, gemini_generate,
  initial_message_kind, prefix_does_not_fit, Defect, invalid_request, value_error, key_error,
}
use llm_calling.Contract.Request.{
  PromptBlock, ToolCall, CanonicalTool, ToolChoice, auto, no_choice, OutputSpec, text_output,
  strict_json_output, continuation_artifact, UserBlock, prompt, image, PromptMessage,
  system_message, user_message, assistant_message, tool_result_message, GenerateIntent,
}
use llm_calling.Json.{
  Json, null, bool, int, str, arr, obj, Items, nil, cons, Fields, end, field, freeze_json_object,
  thaw_json_value,
}
use llm_calling.Platform.{Platform}
use llm_calling.Registry.{
  Modality, is_image, is_text, Structured, native, json_mode, Correlation, header, in_band,
  no_correlation, ReasoningRow, Dict, lookup, ModelRow,
}
use llm_calling.Registry.Check.{provider_text, is_empty}

abbrev pub generation_schema : String
generation_schema = "provider-generation.v2"

abbrev pub option_json : {A : Type 0} → (A → Json) → Option A → Json
option_json f none = null
option_json f (some a) = f a

abbrev pub items_of : {A : Type 0} → (A → Json) → List A → Items
items_of f [] = nil
items_of f (a ∷ rest) = cons (f a) (items_of f rest)

abbrev pub json_nat : ℕ → Json
json_nat n = int (pos n)

abbrev structured_text : Structured → String
structured_text native = "native"
structured_text json_mode = "json_mode"

abbrev correlation_text : Correlation → String
correlation_text header = "header"
correlation_text in_band = "in_band"
correlation_text no_correlation = "none"

abbrev engine_text : EngineId → String
engine_text openai_responses = "openai_responses"
engine_text openai_chat = "openai_chat"
engine_text anthropic_messages = "anthropic_messages"
engine_text gemini_generate = "gemini_generate"

-- `sorted(row.modalities)`: "image" comes before "text".
abbrev modality_items : List Modality → Items
modality_items ms =
    let rest = if any is_text ms then cons (str "text") nil else nil in
    if any is_image ms then cons (str "image") rest else rest

abbrev fragment_fields : Dict ReasoningRow → Fields
fragment_fields [] = end
fragment_fields ((key, choice) ∷ rest) = field key (obj choice.fragment) (fragment_fields rest)

abbrev presentation : String × ReasoningRow → Json
presentation (key, choice) = arr (
    cons (str key) (
      cons (str choice.facts.label) (
        cons (option_json str choice.facts.mode)
          (cons (str choice.facts.effort) (cons (json_nat choice.facts.effort_order) nil)))))

-- The value that `_row_fingerprint` digests. The label is looked up in `_MODEL_LABELS`.
unfoldable pub fingerprint_fields : (label : String) → ModelRow → Fields
fingerprint_fields label row =
    let levels = get_or_else [] row.reasoning in
    field "ref" (str row.ref) (
      field "provider" (str (provider_text row.provider)) (
        field "offered" (bool true) (
          field "model_id" (str row.model_id) (
            field "label" (str label) (
              field "engine" (str (engine_text row.engine)) (
                field "base_url" (option_json str row.base_url) (
                  field "context_window" (json_nat row.context_window) (
                    field "max_output_tokens" (json_nat row.max_output_tokens) (
                      field "source_max_output_tokens"
                        (option_json json_nat row.source_max_output_tokens)
                        (field "modalities" (arr (modality_items row.modalities)) (
                          field "tools" (bool row.tools) (
                            field "streaming" (bool row.streaming) (
                              field "structured" (str (structured_text row.structured)) (
                                field "reasoning" (obj (fragment_fields levels)) (
                                  field "presentation" (arr (items_of presentation levels)) (
                                    field "default" (option_json str row.source_default_reasoning) (
                                      field "continuation_codec" (str row.continuation_codec) (
                                        field "correlation" (str (correlation_text row.correlation))
                                          end))))))))))))))))))

-- `_MODEL_LABELS`
unfoldable pub model_labels : Dict String
model_labels =
    ("gpt-6-astra", "GPT-6 Astra")
    ∷ ("gpt-6.1-sol", "GPT-6.1 Sol")
    ∷ ("gpt-6.1-terra", "GPT-6.1 Terra")
    ∷ ("gpt-6-luna", "GPT-6 Luna")
    ∷ ("claude-fable-5-1", "Claude Fable 5.1")
    ∷ ("claude-opus-5-5", "Claude Opus 5.5")
    ∷ ("claude-sonnet-5-5", "Claude Sonnet 5.5")
    ∷ ("claude-haiku-5-5", "Claude Haiku 5.5")
    ∷ ("gemini-4-argon", "Gemini 4 Argon")
    ∷ ("gemini-3.8-flash", "Gemini 3.8 Flash")
    ∷ ("gemini-3.5-flash-lite", "Gemini 3.5 Flash-Lite")
    ∷ ("gemini-3.1-pro-preview", "Gemini 3.1 Pro · preview")
    ∷ ("deepseek-flash", "DeepSeek V4.1 Flash")
    ∷ ("deepseek-v4-pro", "DeepSeek V4 Pro")
    ∷ []

abbrev require_label : Option String → Result Defect String
require_label none = err key_error
require_label (some label) = ok label

abbrev pub block_text : PromptBlock → Json
block_text block = str block.text

abbrev pub tool_json : CanonicalTool → Json
tool_json tool = obj (
    field "name" (str tool.name)
      (field "description" (str tool.description) (field "parameters" (obj tool.parameters) end)))

abbrev pub choice_text : ToolChoice → String
choice_text auto = "auto"
choice_text no_choice = "none"

abbrev pub output_json : OutputSpec → Json
output_json text_output = obj (field "type" (str "text") end)
output_json (strict_json_output name schema) =
    obj
      (field "type" (str "strict_json") (field "name" (str name) (field "schema" (obj schema) end)))

-- A call of a pending turn, and the turn itself, which waits for the results of its tools.
abbrev pub call_json : ToolCall → Json
call_json call = obj (
    field "id" (str call.id)
      (field "name" (str call.name) (field "arguments" (obj call.arguments) end)))

abbrev pub turn_json : String → List ToolCall → Fields → Json
turn_json text calls native_payload = obj (
    field "text" (str text) (
      field "calls" (arr (items_of call_json calls))
        (field "native" (obj native_payload) (field "results" null end))))

abbrev pub is_no_choice : ToolChoice → Bool
is_no_choice auto = false
is_no_choice no_choice = true

abbrev pub needs_preflight : GenerateIntent → Bool
needs_preflight intent = not (is_empty intent.tools || is_no_choice intent.tool_choice)

-- `except (TypeError, ValueError, InvalidRequest)` around the trial encoding.
abbrev does_not_fit : {A : Type 0} → Result Defect A → Result Defect A
does_not_fit (ok a) = ok a
does_not_fit (err value_error) = err (invalid_request prefix_does_not_fit)
does_not_fit (err (invalid_request _)) = err (invalid_request prefix_does_not_fit)
does_not_fit (err d) = err d

module _ (p : Platform) where
  -- `_fingerprint(domain, value)`; `domain` with its zero byte is part of the digest's input.
  unfoldable pub fingerprint : List ℕ → Fields → Result Defect String
  fingerprint domain value = do
    frozen ← or_value_error (freeze_json_object (thaw_json_value (obj value)))
    ok (p.sha256_hex (domain ++ 0 ∷ canonical_json_bytes p (obj frozen)))

  unfoldable pub row_fingerprint : ModelRow → Result Defect String
  row_fingerprint row = do
    label ← require_label (lookup row.model_id model_labels)
    fingerprint (codes "provider-runtime.row.v5") (fingerprint_fields label row)

  unfoldable pub user_block_json : UserBlock → Json
  user_block_json (prompt block) =
      obj (field "type" (str "text") (field "text" (str block.text) end))
  user_block_json (image block) = obj (
      field "type" (str "image") (
        field "media_type" (str block.media_type)
          (field "data" (str (p.b64encode block.bytes)) end)))

  -- One message of a first request: only the system and the user speak in it.
  unfoldable pub message_json : PromptMessage → Result Defect Json
  message_json (system_message blocks) =
      ok (obj (field "role" (str "system") (field "blocks" (arr (items_of block_text blocks)) end)))
  message_json (user_message blocks) =
      ok (
        obj
          (field "role" (str "user") (field "blocks" (arr (items_of user_block_json blocks)) end)))
  message_json (assistant_message _ _ _) = err (invalid_request initial_message_kind)
  message_json (tool_result_message _) = err (invalid_request initial_message_kind)

  unfoldable pub messages_json : List PromptMessage → Result Defect Items
  messages_json [] = ok nil
  messages_json (m ∷ rest) = do v ← message_json m; vs ← messages_json rest; ok (cons v vs)

  unfoldable pub first_state : ModelRow → GenerateIntent → Result Defect Fields
  unfolding user_block_json message_json messages_json
  first_state row intent = do
    messages ← messages_json intent.messages
    digest ← row_fingerprint row
    ok (
        field "schema" (str generation_schema) (
          field "row_fingerprint" (str digest) (
            field "first"
              (obj (
                field "messages" (arr messages) (
                  field "max_output_tokens" (int intent.max_output_tokens) (
                    field "reasoning" (str intent.reasoning) (
                      field "tools" (arr (items_of tool_json intent.tools)) (
                        field "tool_choice" (str (choice_text intent.tool_choice)) (
                          field "output" (output_json intent.output)
                            (field "provider_options" (obj intent.provider_options) end))))))))
              (field "turns" (arr nil) end))))

  -- The trial encoding of a first state.
  unfoldable pub fit_prefix : ModelRow → GenerateIntent → Fields → Result Defect Fields
  fit_prefix row intent state = do
    artifact ←
        continuation_artifact intent.target row.continuation_codec (thaw_json_value (obj state))
    _ ← encode_continuation p artifact
    ok state

  -- A request that may call tools has to fit its artifact before any byte is sent.
  unfoldable pub preflight_generation : ModelRow → GenerateIntent → Result Defect Fields
  preflight_generation row intent = do
    state ← first_state row intent
    if needs_preflight intent then does_not_fit (fit_prefix row intent state) else ok state
