-- ===== src/Registry/Check.antt =====
-- `_validate_rows`, which runs when the registry is imported.
use Prim.Native.Char.{code}
use text.Mathlib.Text.{starts_with}
use llm_calling.Base.{
  ℕ, String, Bool, true, false, not, ◌&&◌, ◌||◌, none, some, List, [], ◌∷◌, str_eq, ltb, leb, ◌==◌,
  is_some, any, Result, ok, err, ◌>>=◌, ◌>>◌, raise_if, str_append, str_length,
}
use llm_calling.Contract.{
  ProviderName, openai, anthropic, gemini, deepseek, xai, eq_provider, EngineId, openai_responses,
  openai_chat, anthropic_messages, gemini_generate, Presence, Defect, registry_invalid, value_error,
}
use llm_calling.Json.{obj, Fields, end, field, JsonError, freeze_json_object, thaw_json_value}
use llm_calling.Registry.{is_text, ReasoningRow, Dict, lookup, ModelRow}

-- `_KEY.fullmatch(key)`: words of `[a-z0-9]`, joined by single `_` or `/`. `after_word` is true
-- where the text may end.
abbrev is_key_character : ℕ → Bool
is_key_character c = (leb b'a' c && leb c b'z') || (leb b'0' c && leb c b'9')

abbrev is_joint : ℕ → Bool
is_joint c = c == b'_' || c == b'/'

unfoldable pub matches_key : (after_word : Bool) → String → Bool
matches_key after_word String.[] = after_word
matches_key after_word (String.◌∷◌ c s) =
    (is_key_character (code c) || (after_word && is_joint (code c)))
    && matches_key (is_key_character (code c)) s

abbrev pub provider_text : ProviderName → String
provider_text openai = "openai"
provider_text anthropic = "anthropic"
provider_text gemini = "gemini"
provider_text deepseek = "deepseek"
provider_text xai = "xai"

abbrev pub eq_engine : EngineId → EngineId → Bool
eq_engine openai_responses openai_responses = true
eq_engine openai_chat openai_chat = true
eq_engine anthropic_messages anthropic_messages = true
eq_engine gemini_generate gemini_generate = true
eq_engine _ _ = false

-- The table `engines`.
abbrev pub engine_of : ProviderName → EngineId
engine_of openai = openai_responses
engine_of anthropic = anthropic_messages
engine_of gemini = gemini_generate
engine_of deepseek = openai_chat
engine_of xai = openai_chat

abbrev pub Identity : Type 0
Identity = ProviderName × String

abbrev pub seen_before : Identity → List Identity → Bool
seen_before i = any (λ j. eq_provider i.0 j.0 && str_eq i.1 j.1)

abbrev pub identity : ModelRow → Identity
identity row = (row.provider, row.model_id)

abbrev pub malformed_identity : List Identity → ModelRow → Bool
malformed_identity seen row =
    seen_before (identity row) seen
    || not (str_eq row.ref (str_append (provider_text row.provider) (str_append ":" row.model_id)))

abbrev pub invalid_dispatch : ModelRow → Bool
invalid_dispatch row =
    not (eq_engine row.engine (engine_of row.provider))
    || not (starts_with row.continuation_codec (str_append (provider_text row.provider) "."))

abbrev pub bad_source_limit : ModelRow → Presence ℕ → Bool
bad_source_limit row none = false
bad_source_limit row (some source) =
    ltb source row.max_output_tokens || ltb row.context_window source

abbrev pub invalid_limits : ModelRow → Bool
invalid_limits row =
    ltb row.context_window row.max_output_tokens
    || leb row.max_output_tokens 0
    || bad_source_limit row row.source_max_output_tokens
    || not (any is_text row.modalities)

abbrev pub is_empty : {A : Type 0} → List A → Bool
is_empty [] = true
is_empty (_ ∷ _) = false

abbrev has_no_fields : Fields → Bool
has_no_fields end = true
has_no_fields (field _ _ _) = false

abbrev pub invalid_configuration : String → ReasoningRow → Bool
invalid_configuration key choice =
    not (leb 1 (str_length key) && leb (str_length key) 64)
    || not (matches_key false key)
    || not (str_eq choice.facts.key key)
    || has_no_fields choice.fragment

-- `freeze_json_object`; its `JsonValueError` is a `ValueError`.
abbrev pub frozen_or_raise : Result JsonError Fields → Result Defect (Unit {0})
frozen_or_raise (ok _) = ok tt
frozen_or_raise (err _) = err value_error

unfoldable pub check_configurations : Dict ReasoningRow → Result Defect (Unit {0})
check_configurations [] = ok tt
check_configurations ((key, choice) ∷ rest) = do
  raise_if (invalid_configuration key choice) registry_invalid
  _ ← frozen_or_raise (freeze_json_object (thaw_json_value (obj choice.fragment)))
  check_configurations rest

abbrev pub default_undeclared : Presence String → Dict ReasoningRow → Bool
default_undeclared none d = false
default_undeclared (some key) d = not (is_some (lookup key d))

abbrev pub check_reasoning :
    Presence (Dict ReasoningRow) → Presence String → Result Defect (Unit {0})
check_reasoning none default = err registry_invalid
check_reasoning (some d) default = do
  raise_if (is_empty d) registry_invalid
  _ ← check_configurations d
  raise_if (default_undeclared default d) registry_invalid
  ok tt

-- The body of the loop over the rows.
unfoldable pub check_row : List Identity → ModelRow → Result Defect (Unit {0})
check_row seen row = do
  raise_if (malformed_identity seen row) registry_invalid
  raise_if (invalid_dispatch row) registry_invalid
  raise_if (invalid_limits row) registry_invalid
  check_reasoning row.reasoning row.source_default_reasoning

unfoldable pub validate_rows : List Identity → List ModelRow → Result Defect (Unit {0})
validate_rows seen [] = ok tt
validate_rows seen (row ∷ rest) = do
  _ ← check_row seen row
  validate_rows (identity row ∷ seen) rest
