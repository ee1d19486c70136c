-- ===== src/Runtime/Gates.antt =====
-- What is checked before any byte is sent: `row_reasoning` (engines/_common.py), `_validate_intent`,
-- `_dispatch_row` and `_credential`.
use Prim.Native.Char.{code}
use llm_calling.Base.{
  String, ◌≡◌, refl, ◌↔◌, inl, inr, Bool, true, false, not, ◌&&◌, Option, none, some, List, [], ◌∷◌,
  ◌++◌, arith, str_eq, leb, ◌==◌, if◌then◌else◌, Option-cases, any, Result, ok, err, ◌>>=◌,
  raise_if, ◌>>◌, >>=-eq-ok, raise_if-ok, str_length, is_ascii,
}
use llm_calling.Contract.{
  ProviderName, openai, anthropic, gemini, deepseek, xai, EngineId, openai_responses, openai_chat,
  anthropic_messages, gemini_generate, Presence, bad_reasoning_key, no_reasoning_rows,
  undeclared_reasoning, no_streaming, no_tools, tools_with_strict_output, no_image_input, Defect,
  invalid_request, credential_missing, origin,
}
use llm_calling.Contract.Request.{
  is_strict, UserBlock, prompt, image, PromptMessage, system_message, user_message,
  assistant_message, tool_result_message, GenerateIntent,
}
use llm_calling.Json.{Json, obj, Fields, end, field}
use llm_calling.Registry.{is_image, ReasoningRow, Dict, lookup, ModelRow}
use llm_calling.Registry.Check.{is_empty}

pub record RowReasoning : Type 0 where
  pub fragment : Fields
  -- The value whose JSON text is the native reasoning of the call; none if it is empty.
  pub native_reasoning : Presence Json
  pub owned_keys : List String

abbrev keys_of : Fields → List String
keys_of end = []
keys_of (field k v fs) = k ∷ keys_of fs

-- The keys of every level, with repetitions: the source keeps a set.
abbrev all_keys : Dict ReasoningRow → List String
all_keys [] = []
all_keys ((level, value) ∷ rest) = keys_of value.fragment ++ all_keys rest

abbrev native_of : Fields → Presence Json
native_of end = none
native_of (field k v fs) = some (obj (field k v fs))

abbrev select_reasoning : Dict ReasoningRow → Option ReasoningRow → Result Defect RowReasoning
select_reasoning levels none = err (invalid_request undeclared_reasoning)
select_reasoning levels (some choice) = ok (record {
  fragment = choice.fragment;
  native_reasoning = native_of choice.fragment;
  owned_keys = all_keys levels;
})

abbrev reasoning_levels : Presence (Dict ReasoningRow) → String → Result Defect RowReasoning
reasoning_levels none key = err (invalid_request no_reasoning_rows)
reasoning_levels (some levels) key = select_reasoning levels (lookup key levels)

unfoldable pub row_reasoning : ModelRow → GenerateIntent → Result Defect RowReasoning
row_reasoning row intent = reasoning_levels row.reasoning intent.reasoning

abbrev is_image_block : UserBlock → Bool
is_image_block (prompt _) = false
is_image_block (image _) = true

abbrev pub has_image : PromptMessage → Bool
has_image (user_message blocks) = any is_image_block blocks
has_image (system_message _) = false
has_image (assistant_message _ _ _) = false
has_image (tool_result_message _) = false

abbrev pub has_tools : GenerateIntent → Bool
has_tools intent = not (is_empty intent.tools)

abbrev pub good_key : String → Bool
good_key key = leb 1 (str_length key) && leb (str_length key) 64 && is_ascii key

unfoldable pub validate_intent :
    ModelRow → GenerateIntent → (streaming : Bool) → Result Defect (Unit {0})
validate_intent row intent streaming = do
  raise_if (not (good_key intent.reasoning)) (invalid_request bad_reasoning_key)
  _ ← row_reasoning row intent
  raise_if (streaming && not row.streaming) (invalid_request no_streaming)
  raise_if (has_tools intent && not row.tools) (invalid_request no_tools)
  raise_if (has_tools intent && is_strict intent.output) (invalid_request tools_with_strict_output)
  raise_if (not (any is_image row.modalities) && any has_image intent.messages)
      (invalid_request no_image_input)
  ok tt

pub record Credentials : Type 0 where
  pub openai_key : Option String
  pub anthropic_key : Option String
  pub gemini_key : Option String
  pub deepseek_key : Option String
  pub xai_key : Option String

pub record ProviderCredential : Type 0 where
  pub provider : ProviderName
  pub key : String

abbrev key_for : Credentials → ProviderName → Option String
key_for c openai = c.openai_key
key_for c anthropic = c.anthropic_key
key_for c gemini = c.gemini_key
key_for c deepseek = c.deepseek_key
key_for c xai = c.xai_key

abbrev with_key : ProviderName → Option String → Result Defect ProviderCredential
with_key provider none = err (credential_missing provider)
with_key provider (some key) = ok (record { provider = provider; key = key })

unfoldable pub credential : Credentials → ProviderName → Result Defect ProviderCredential
credential c provider = with_key provider (key_for c provider)

-- `urlsplit` and `urlunsplit` of urllib.
pub record Urls : Type 0 where
  pub scheme : String → String
  pub netloc : String → String
  pub path : String → String
  pub unsplit : (scheme netloc path : String) → String

-- `s.rstrip("/")`
unfoldable pub strip_slashes : String → String
strip_slashes String.[] = String.[]
strip_slashes (String.◌∷◌ c s) =
    let rest = strip_slashes s in
    if str_eq rest "" && code c == b'/' then String.[] else String.◌∷◌ c rest

abbrev is_responses : EngineId → Bool
is_responses openai_responses = true
is_responses openai_chat = false
is_responses anthropic_messages = false
is_responses gemini_generate = false

abbrev api_path : Urls → ModelRow → Presence String → String
api_path urls row (some base) = strip_slashes (urls.path base)
api_path urls row none = if is_responses row.engine then "/v1" else ""

abbrev Overrides : Type 0
Overrides = ProviderName → Option String

abbrev with_origin : Urls → ModelRow → Option String → ModelRow
with_origin urls row none = row
with_origin urls row (some origin) = record row {
  base_url =
      some
        (urls.unsplit (urls.scheme origin) (urls.netloc origin) (api_path urls row row.base_url));
}

-- An explicit origin replaces the host and keeps the API path of the row.
unfoldable pub dispatch_row : Urls → ModelRow → (ProviderName → Option String) → ModelRow
dispatch_row urls row overrides = with_origin urls row (overrides row.provider)

abbrev accepted : Result Defect (Unit {0})
accepted = ok tt

-- The gates behind the reasoning, over their tests.
gates-ok_iff :
    (streaming can_stream tools can_tool strict sees images : Bool)
    → ((raise_if (streaming && not can_stream) (invalid_request no_streaming)
          >> (raise_if (tools && not can_tool) (invalid_request no_tools)
              >> (raise_if (tools && strict) (invalid_request tools_with_strict_output)
                  >> (raise_if (not sees && images) (invalid_request no_image_input) >> accepted))))
        ≡ accepted)
      ↔ ((streaming ≡ true → can_stream ≡ true)
          × (tools ≡ true → (can_tool ≡ true) × (strict ≡ false))
          × (images ≡ true → sees ≡ true))
gates-ok_iff streaming can_stream tools can_tool strict sees images = (
  λ h. (
    (λ e. ground (arith, h, e)),
    (λ e. (ground (arith, h, e), ground (arith, h, e))),
    (λ e. ground (arith, h, e)),
  ),
  λ (a, b, c). ground arith,
)

row_reasoning-ok :
    (levels : Presence (Dict ReasoningRow)) (key : String) (r : RowReasoning)
    → reasoning_levels levels key ≡ ok r
    → (d : Dict ReasoningRow) × (choice : ReasoningRow) × (levels ≡ some d)
      × (lookup key d ≡ some choice)
row_reasoning-ok none key r h = cc
row_reasoning-ok (some d) key r h = elim (Option-cases (lookup key d)) [
  | inl missing ↦ absurd (ground (arith, h))
  | inr (choice, found) ↦ (d, choice, refl, found)
]

-- What a row must offer for a request.
abbrev pub Accepts : ModelRow → GenerateIntent → (streaming : Bool) → Type 0
Accepts row intent streaming =
    (good_key intent.reasoning ≡ true)
    × ((d : Dict ReasoningRow) × (choice : ReasoningRow) × (row.reasoning ≡ some d)
        × (lookup intent.reasoning d ≡ some choice))
    × (streaming ≡ true → row.streaming ≡ true)
    × (has_tools intent ≡ true → (row.tools ≡ true) × (is_strict intent.output ≡ false))
    × (any has_image intent.messages ≡ true → any is_image row.modalities ≡ true)

-- A request is accepted by the gates exactly if its reasoning key is an ASCII key of 1 to 64
-- characters that the row declares, and the row supports what it asks for: streaming, tools and
-- images; and it does not combine tools with strict output.
pub validate_intent-ok_iff :
    (row : ModelRow) (intent : GenerateIntent) (streaming : Bool)
    → (validate_intent row intent streaming ≡ ok tt) ↔ Accepts row intent streaming
unfolding validate_intent row_reasoning
validate_intent-ok_iff row intent streaming =
    let gates =
      gates-ok_iff streaming row.streaming (has_tools intent) row.tools (is_strict intent.output)
        (any is_image row.modalities) (any has_image intent.messages) in
    (
      λ h.
          let (key, h₁) =
            raise_if-ok (not (good_key intent.reasoning)) (invalid_request bad_reasoning_key) _ tt
              h in
          let (r, declared, h₂) = >>=-eq-ok (row_reasoning row intent) _ h₁ in
          let (a, b, c) = gates.0 h₂ in
          (ground arith, row_reasoning-ok row.reasoning intent.reasoning r declared, a, b, c),
      λ (key, (d, choice, levels, found), a, b, c). rw (key, levels, found) (gates.1 (a, b, c)),
    )
