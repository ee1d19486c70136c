-- ===== src/Continuation/Read.antt =====
-- Reading a generation back from its payload, which is JSON: the `try` block of `resume_generation`.
use llm_calling.Base.{
  ℕ, String, Bool, false, not, Option, none, some, List, [], ◌∷◌, ◌++◌, map, if◌then◌else◌, concat,
  Result, ok, err, ◌>>=◌, raise_if, ◌>>◌,
}
use llm_calling.Base.Int.{ℤ}
use llm_calling.Continuation.{has_fields, is_str}
use llm_calling.Contract.{ProviderTarget, Defect}
use llm_calling.Contract.Request.{
  PromptBlock, ToolCall, CanonicalTool, ToolChoice, auto, no_choice, OutputSpec, text_output,
  strict_json_output, continuation_artifact, UserBlock, prompt, image, ToolResultMessage,
  PromptMessage, system_message, user_message, assistant_message, tool_result_message,
  GenerateIntent,
}
use llm_calling.Json.{
  Json, bool, int, str, arr, obj, Items, nil, cons, Fields, thaw_json_value, get,
}
use llm_calling.Platform.{Platform}

-- Why a value was not read. `malformed` is a KeyError, a TypeError or a ValueError. `mistyped` is a
-- value of another type than the one it is cast to: the source does not check those, and goes on
-- with them; the model stops there.
pub data Misread : Type 0 where
  malformed mistyped : Misread

abbrev present : Option Json → Result Misread Json
present none = err malformed
present (some v) = ok v

-- `value[key]`
abbrev pub entry_of : String → Json → Result Misread Json
entry_of key (obj fs) = present (get key fs)
entry_of key _ = err malformed

abbrev pub as_text : Json → Result Misread String
as_text (str s) = ok s
as_text _ = err mistyped

abbrev as_flag : Json → Result Misread Bool
as_flag (bool b) = ok b
as_flag _ = err mistyped

abbrev as_int : Json → Result Misread ℤ
as_int (int n) = ok n
as_int _ = err mistyped

abbrev pub as_mapping : Json → Result Misread Fields
as_mapping (obj fs) = ok fs
as_mapping _ = err mistyped

abbrev pub text_at : String → Json → Result Misread String
text_at key v = entry_of key v >>= as_text

-- `f(value) for value in values`
abbrev pub each : {A : Type 0} → (Json → Result Misread A) → Items → Result Misread (List A)
each f nil = ok []
each f (cons v vs) = do a ← f v; rest ← each f vs; ok (a ∷ rest)

abbrev pub each_of : {A : Type 0} → (Json → Result Misread A) → Json → Result Misread (List A)
each_of f (arr vs) = each f vs
each_of f (obj _) = err mistyped
each_of f (str _) = err mistyped
each_of f _ = err malformed

abbrev pub each_at :
    {A : Type 0} → (Json → Result Misread A) → String → Json → Result Misread (List A)
each_at f key v = entry_of key v >>= each_of f

abbrev pub is_text_of : String → Json → Bool
is_text_of s v = is_str s (some v)

unfoldable pub read_call : Json → Result Misread ToolCall
read_call v = do
  id ← text_at "id" v
  name ← text_at "name" v
  arguments ← entry_of "arguments" v >>= as_mapping
  ok (record { id = id; name = name; arguments = arguments })

unfoldable pub read_tool : Json → Result Misread CanonicalTool
read_tool v = do
  name ← text_at "name" v
  description ← text_at "description" v
  parameters ← entry_of "parameters" v >>= as_mapping
  ok (record { name = name; description = description; parameters = parameters })

-- `ToolResultMessage(**result)`
abbrev result_of : Json → Result Misread ToolResultMessage
result_of v = do
  call_id ← text_at "call_id" v
  output ← text_at "output" v
  is_error ← entry_of "is_error" v >>= as_flag
  ok (record { call_id = call_id; output = output; is_error = is_error })

abbrev keywords : Json → Bool
keywords (obj fs) = has_fields ("call_id" ∷ "output" ∷ "is_error" ∷ []) fs
keywords _ = false

unfoldable pub read_result : Json → Result Misread ToolResultMessage
read_result v = raise_if (not (keywords v)) malformed >> result_of v

-- The two modes of output, and the two choices of tools, with their names.
abbrev strict_of : Json → Result Misread OutputSpec
strict_of v = do
  name ← text_at "name" v
  schema ← entry_of "schema" v >>= as_mapping
  ok (strict_json_output name schema)

unfoldable pub read_output : Json → Result Misread OutputSpec
read_output v = do
  kind ← entry_of "type" v
  if is_text_of "text" kind
      then ok text_output
      else (if is_text_of "strict_json" kind then strict_of v else err malformed)

unfoldable pub read_choice : Json → Result Misread ToolChoice
read_choice v =
    if is_text_of "none" v
    then ok no_choice
    else (if is_text_of "auto" v then ok auto else err malformed)

abbrev pub prompt_of : Json → Result Misread PromptBlock
prompt_of v = do text ← as_text v; ok (record { text = text })

-- Any `ValueError` or `TypeError` of the artifact's constructor.
abbrev pub or_malformed : {A : Type 0} → Result Defect A → Result Misread A
or_malformed (ok a) = ok a
or_malformed (err _) = err malformed

module _ (p : Platform) where
  abbrev decoded : Option (List ℕ) → Result Misread (List ℕ)
  decoded none = err malformed
  decoded (some bs) = ok bs

  abbrev bytes_of : Json → Result Misread (List ℕ)
  bytes_of (str s) = decoded (p.b64decode s)
  bytes_of _ = err malformed

  abbrev image_of : Json → Result Misread UserBlock
  image_of v = do
    media_type ← text_at "media_type" v
    bytes ← entry_of "data" v >>= bytes_of
    ok (image (record { media_type = media_type; bytes = bytes }))

  unfoldable pub read_block : Json → Result Misread UserBlock
  read_block v = do
    kind ← entry_of "type" v
    if is_text_of "text" kind
        then (do text ← text_at "text" v; ok (prompt (record { text = text })))
        else (if is_text_of "image" kind then image_of v else err malformed)

  unfoldable pub read_message : Json → Result Misread PromptMessage
  read_message v = do
    role ← entry_of "role" v
    if is_text_of "system" role
        then (do blocks ← each_at prompt_of "blocks" v; ok (system_message blocks))
        else (if is_text_of "user" role
            then (do blocks ← each_at read_block "blocks" v; ok (user_message blocks))
            else err malformed)

  -- The messages of one turn: the assistant's, with its native continuation, and the results of its
  -- tools.
  unfoldable pub read_turn : ProviderTarget → String → Json → Result Misread (List PromptMessage)
  read_turn target codec_id v = do
    native_payload ← entry_of "native" v
    calls ← each_at read_call "calls" v
    text ← text_at "text" v
    own ← or_malformed (continuation_artifact target codec_id (thaw_json_value native_payload))
    results ← each_at read_result "results" v
    ok (assistant_message text calls (some own) ∷ map tool_result_message results)

  -- The whole request of a generation, with the messages of its turns.
  unfoldable pub read_generation :
      ProviderTarget → String → Json → Items → Result Misread GenerateIntent
  read_generation target codec_id first turns = do
    opening ← each_at (read_message) "messages" first
    later ← each (read_turn target codec_id) turns
    output ← entry_of "output" first >>= read_output
    choice ← entry_of "tool_choice" first >>= read_choice
    budget ← entry_of "max_output_tokens" first >>= as_int
    reasoning ← text_at "reasoning" first
    tools ← each_at read_tool "tools" first
    options ← entry_of "provider_options" first >>= as_mapping
    ok (record {
      target = target;
      messages = opening ++ concat later;
      max_output_tokens = budget;
      reasoning = reasoning;
      tools = tools;
      tool_choice = choice;
      output = output;
      provider_options = options;
    })
