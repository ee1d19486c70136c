-- ===== src/Engines/Chat/Messages.antt =====
-- `_encode_messages`: the messages of an intent, as they are sent.
use llm_calling.Base.{
  String, Bool, true, false, not, ◌&&◌, ◌||◌, Option, none, some, List, [], ◌∷◌, map, str_eq,
  if◌then◌else◌, all, Result, ok, err, ◌>>=◌, raise_if, ◌>>◌, join,
}
use llm_calling.Base.Int.{pos, eq_ℤ}
use llm_calling.Continuation.{is_str}
use llm_calling.Continuation.Generation.{items_of, call_json}
use llm_calling.Continuation.Read.{Misread, malformed, entry_of}
use llm_calling.Continuation.Resume.{put}
use llm_calling.Contract.{native_calls_malformed, native_turn_differs, Defect, invalid_request}
use llm_calling.Contract.Request.{
  ToolCall, UserBlock, prompt, image, PromptMessage, system_message, user_message,
  assistant_message, tool_result_message, GenerateIntent,
}
use llm_calling.Engines.{validate_continuation}
use llm_calling.Engines.Chat.{Served, deepseek_served, xai_served}
use llm_calling.Json.{
  finite, Json, null, bool, int, num, str, arr, obj, Items, nil, cons, Fields, end, field, get,
}
use llm_calling.Platform.{Platform}
use llm_calling.Registry.{ModelRow}
use llm_calling.Registry.Check.{is_empty}

abbrev pub text_message : String → Json → Fields
text_message role content = field "role" (str role) (field "content" content end)

abbrev is_prompt : UserBlock → Bool
is_prompt (prompt _) = true
is_prompt (image _) = false

abbrev block_texts : List UserBlock → List String
block_texts [] = []
block_texts (prompt b ∷ bs) = b.text ∷ block_texts bs
block_texts (image b ∷ bs) = block_texts bs

-- `payload.pop(key, None)`
abbrev pub without : String → Fields → Fields
without key end = end
without key (field k v fs) =
    let rest = without key fs in if str_eq k key then rest else field k v rest

abbrev falsy : Json → Bool
falsy null = true
falsy (bool b) = not b
falsy (int n) = eq_ℤ n (pos 0)
falsy (num (finite m e)) = eq_ℤ m (pos 0)
falsy (num _) = false
falsy (str s) = str_eq s ""
falsy (arr nil) = true
falsy (arr (cons _ _)) = false
falsy (obj end) = true
falsy (obj (field _ _ _)) = false

-- `(payload.get("content") or "") == text`
abbrev content_is : String → Option Json → Bool
content_is text none = str_eq text ""
content_is text (some (str s)) = str_eq s text
content_is text (some v) = falsy v && str_eq text ""

abbrev native_items : Option Json → Option Items
native_items none = some nil
native_items (some (arr vs)) = some vs
native_items (some _) = none

abbrev require_native_items : Option Items → Result Defect Items
require_native_items none = err (invalid_request native_calls_malformed)
require_native_items (some vs) = ok vs

abbrev or_native_malformed : Result Misread Items → Result Defect Items
or_native_malformed (ok vs) = ok vs
or_native_malformed (err _) = err (invalid_request native_calls_malformed)

module _ (p : Platform) where
  abbrev user_part : UserBlock → Json
  user_part (prompt b) = obj (field "type" (str "text") (field "text" (str b.text) end))
  user_part (image b) = obj (
      field "type" (str "image_url") (
        field "image_url"
          (obj (
            field "url"
              (str (join ("data:" ∷ b.media_type ∷ ";base64," ∷ p.b64encode b.bytes ∷ []))) end))
          end))

  unfoldable pub user_wire : List UserBlock → Fields
  user_wire blocks =
      if all is_prompt blocks
      then text_message "user" (str (join (block_texts blocks)))
      else text_message "user" (arr (items_of user_part blocks))

  abbrev tool_call_wire : ToolCall → Json
  tool_call_wire call = obj (
      field "id" (str call.id) (
        field "type" (str "function") (
          field "function"
            (obj (
              field "name" (str call.name)
                (field "arguments" (str (p.dumps_text false (obj call.arguments))) end)))
            end)))

  -- Empty text next to tool calls is a null content.
  unfoldable pub assistant_from_fields : String → List ToolCall → Fields
  assistant_from_fields text calls =
      let content = if str_eq text "" && not (is_empty calls) then null else str text in
      let base = text_message "assistant" content in
      if is_empty calls then base else put "tool_calls" (arr (items_of tool_call_wire calls)) base

  abbrev loaded : Option Json → Result Misread Json
  loaded none = err malformed
  loaded (some v) = ok v

  abbrev arguments_value : Json → Result Misread Json
  arguments_value (str s) = loaded (p.loads_text s)
  arguments_value _ = err malformed

  -- A native call, as the identity, the name and the parsed arguments that it is compared by.
  abbrev native_call : Json → Result Misread Json
  native_call v = do
    id ← entry_of "id" v
    function ← entry_of "function" v
    name ← entry_of "name" function
    arguments ← entry_of "arguments" function >>= arguments_value
    ok (obj (field "id" id (field "name" name (field "arguments" arguments end))))

  abbrev native_calls : Items → Result Misread Items
  native_calls nil = ok nil
  native_calls (cons v vs) = do call ← native_call v; calls ← native_calls vs; ok (cons call calls)

  abbrev replayed : Served → Fields → Fields
  replayed deepseek_served payload = payload
  replayed xai_served payload = without "reasoning_content" payload

  -- The native turn is replayed if it says what the message says.
  unfoldable pub replay_native : Served → String → List ToolCall → Fields → Result Defect Fields
  replay_native provider text calls payload = do
    given ← require_native_items (native_items (get "tool_calls" payload))
    parsed ← or_native_malformed (native_calls given)
    raise_if
        (not (is_str "assistant" (get "role" payload))
          || not (content_is text (get "content" payload))
          || not (p.equal (arr parsed) (arr (items_of call_json calls))))
        (invalid_request native_turn_differs)
    ok (replayed provider payload)

  module _ (provider : Served) (row : ModelRow) (intent : GenerateIntent) where
    abbrev encode_message : PromptMessage → Result Defect Fields
    encode_message (system_message blocks) =
        ok (text_message "system" (str (join (map (λ b. b.text) blocks))))
    encode_message (user_message blocks) = ok (user_wire blocks)
    encode_message (assistant_message text calls none) = ok (assistant_from_fields text calls)
    encode_message (assistant_message text calls (some artifact)) =
        validate_continuation artifact row intent
        >> replay_native provider text calls artifact.opaque_payload
    encode_message (tool_result_message r) = ok (
        field "role" (str "tool")
          (field "tool_call_id" (str r.call_id) (field "content" (str r.output) end)))

    abbrev pub encode_messages : List PromptMessage → Result Defect (List Fields)
    encode_messages [] = ok []
    encode_messages (m ∷ ms) = do
      wire ← encode_message m
      rest ← encode_messages ms
      ok (wire ∷ rest)
