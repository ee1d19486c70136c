-- ===== src/Engines/Chat/Encode.antt =====
-- `_encode`: an intent and a row, as the messages and the body that are sent.
use llm_calling.Base.{
  String, Bool, true, false, not, none, some, List, [], ◌∷◌, ◌++◌, str_eq, if◌then◌else◌, any,
  Result, ok, ◌>>=◌, raise_if, ◌>>◌, join,
}
use llm_calling.Continuation.{is_str}
use llm_calling.Continuation.Generation.{items_of, is_no_choice}
use llm_calling.Continuation.Resume.{put}
use llm_calling.Contract.{
  Presence, thinking_tool_choice, option_collision, Defect, invalid_request, registry_invalid,
}
use llm_calling.Contract.Request.{
  CanonicalTool, ToolChoice, auto, no_choice, OutputSpec, text_output, strict_json_output,
  GenerateIntent,
}
use llm_calling.Engines.Chat.{Served, deepseek_served, xai_served}
use llm_calling.Engines.Chat.Messages.{text_message, encode_messages}
use llm_calling.Json.{Json, bool, int, str, arr, obj, Fields, end, field, get}
use llm_calling.Json.Canonical.{sort_keys}
use llm_calling.Platform.{Platform}
use llm_calling.Registry.{Structured, native, json_mode, ModelRow}
use llm_calling.Registry.Check.{is_empty}
use llm_calling.Registry.Rows.{reasoning}
use llm_calling.Runtime.Gates.{row_reasoning}

-- `_OWNED_KEYS`
abbrev own_keys : List String
own_keys =
    "model" ∷ "messages" ∷ "max_tokens" ∷ "max_completion_tokens" ∷ "response_format" ∷ "tools"
    ∷ "tool_choice" ∷ "stream" ∷ "stream_options" ∷ []

pub record Encoded : Type 0 where
  pub messages : List Fields
  pub body : Fields
  pub native_reasoning : Presence String

abbrev pub is_key_of : List String → String → Bool
is_key_of keys key = any (str_eq key) keys

abbrev field_keys : Fields → List String
field_keys end = []
field_keys (field k v fs) = k ∷ field_keys fs

-- `body.update(options)`
abbrev pub update_all : Fields → Fields → Fields
update_all body end = body
update_all body (field k v fs) = update_all (put k v body) fs

abbrev tool_definition : CanonicalTool → Json
tool_definition tool = obj (
    field "type" (str "function") (
      field "function"
        (obj (
          field "name" (str tool.name) (
            field "description" (str tool.description)
              (field "parameters" (obj tool.parameters) end))))
        end))

abbrev cap_key : Served → String
cap_key xai_served = "max_completion_tokens"
cap_key deepseek_served = "max_tokens"

abbrev choice_name : ToolChoice → String
choice_name auto = "auto"
choice_name no_choice = "none"

-- DeepSeek thinks unless the reasoning key is "none", and then takes no `tool_choice`.
abbrev thinks : Served → GenerateIntent → Bool
thinks deepseek_served intent = not (str_eq intent.reasoning "none")
thinks xai_served intent = false

unfoldable pub encode_tools : Served → GenerateIntent → Fields → Result Defect Fields
encode_tools provider intent body =
    if is_empty intent.tools
    then ok body
    else (let with_tools = put "tools" (arr (items_of tool_definition intent.tools)) body in
        if thinks provider intent
        then raise_if (is_no_choice intent.tool_choice) (invalid_request thinking_tool_choice)
          >> ok with_tools
        else ok (put "tool_choice" (str (choice_name intent.tool_choice)) with_tools))

abbrev is_system : Fields → Bool
is_system message = is_str "system" (get "role" message)

-- The instruction goes after the system messages at the start.
unfoldable pub insert_instruction : Fields → List Fields → List Fields
insert_instruction note [] = note ∷ []
insert_instruction note (m ∷ ms) =
    let later = insert_instruction note ms in if is_system m then m ∷ later else note ∷ m ∷ ms

module _ (p : Platform) where
  module _ (provider : Served) (row : ModelRow) (intent : GenerateIntent) where
    abbrev instruction : String → Fields → Fields
    instruction name schema = text_message "system" (
        str (
          join (
            "Return only one JSON object for output "
            ∷ p.dumps_text false (str name)
            ∷ " that matches this JSON Schema exactly: "
            ∷ p.dumps_text false (sort_keys (obj schema))
            ∷ [])))

    -- The format of a strict output: native, or JSON mode with an instruction.
    abbrev encode_output : OutputSpec → Structured → List Fields → Fields → List Fields × Fields
    encode_output text_output structured messages body = (messages, body)
    encode_output (strict_json_output name schema) native messages body = (
      messages,
      put "response_format"
          (obj (
            field "type" (str "json_schema") (
              field "json_schema"
                (obj (
                  field "name" (str name)
                    (field "schema" (obj schema) (field "strict" (bool true) end))))
                end)))
          body,
    )
    encode_output (strict_json_output name schema) json_mode messages body = (
      insert_instruction (instruction name schema) messages,
      put "response_format" (obj (field "type" (str "json_object") end)) body,
    )

    abbrev native_text : Presence Json → Presence String
    native_text none = none
    native_text (some v) = some (p.dumps_text true (sort_keys v))

    unfoldable pub encode : Result Defect Encoded
    encode = do
      reasoning ← row_reasoning row intent
      raise_if (any (is_key_of own_keys) reasoning.owned_keys) registry_invalid
      body ←
          encode_tools provider intent
            (put (cap_key provider) (int intent.max_output_tokens) reasoning.fragment)
      wires ← encode_messages p provider row intent intent.messages
      let (messages, formatted) = encode_output intent.output row.structured wires body
      raise_if
          (any (is_key_of (own_keys ++ reasoning.owned_keys)) (field_keys intent.provider_options))
          (invalid_request option_collision)
      ok (record {
        messages = messages;
        body = update_all formatted intent.provider_options;
        native_reasoning = native_text reasoning.native_reasoning;
      })
