-- ===== src/Registry/Rows.antt =====
-- The rows of the registry, one builder for each provider.
use llm_calling.Base.{
  ℕ, suc, String, true, ◌||◌, Option, none, some, List, [], ◌∷◌, ◌++◌, map, str_eq, if◌then◌else◌,
  take, str_append,
}
use llm_calling.Contract.{
  openai, anthropic, gemini, deepseek, openai_responses, openai_chat, anthropic_messages,
  gemini_generate,
}
use llm_calling.Json.{Json, str, obj, Fields, end, field}
use llm_calling.Registry.{
  Modality, text_input, image_input, native, json_mode, header, in_band, no_correlation,
  ReasoningRow, Dict, dict_from, ModelRow,
}

-- The key, the label and the row of one reasoning configuration.
abbrev reasoning_key : Option String → String → String
reasoning_key (some mode) effort = str_append mode (str_append "/" effort)
reasoning_key none effort = effort

abbrev reasoning_label : Option String → String → String
reasoning_label (some mode) effort =
    if str_eq mode "disabled"
    then str_append "thinking off · " (str_append effort " effort")
    else str_append mode (str_append " · " effort)
reasoning_label none effort = if str_eq effort "none" then "off" else effort

abbrev pub reasoning : Option String → String → ℕ → Fields → String × ReasoningRow
reasoning mode effort order fragment = (
  reasoning_key mode effort,
  record {
    facts = record {
      key = reasoning_key mode effort;
      label = reasoning_label mode effort;
      mode = mode;
      effort = effort;
      effort_order = order;
    };
    fragment = fragment;
  },
)

-- `for order, effort in enumerate(efforts)`, from `order`.
abbrev pub enumerate_efforts :
    (ℕ → String → String × ReasoningRow) → ℕ → List String → Dict ReasoningRow
enumerate_efforts make order [] = []
enumerate_efforts make order (effort ∷ efforts) =
    make order effort ∷ enumerate_efforts make (suc order) efforts

abbrev pub one : String → Json → Fields
one key value = field key value end

abbrev pub efforts_all : List String
efforts_all = "low" ∷ "medium" ∷ "high" ∷ "xhigh" ∷ "max" ∷ []

abbrev pub vision : List Modality
vision = text_input ∷ image_input ∷ []

abbrev pub gpt6_model_ids : List String
gpt6_model_ids = "gpt-6-astra" ∷ "gpt-6.1-sol" ∷ "gpt-6.1-terra" ∷ "gpt-6-luna" ∷ []

abbrev openai_fragment : String → String → Fields
openai_fragment mode effort =
    one "reasoning" (obj (field "mode" (str mode) (one "effort" (str effort))))

unfoldable pub openai_row : String → ModelRow
openai_row model =
    let efforts =
      if str_eq model "gpt-6-astra" || str_eq model "gpt-6.1-sol"
      then efforts_all
      else "none" ∷ efforts_all in
    let rows = λ (mode : String).
      enumerate_efforts
        (λ order effort. reasoning (some mode) effort order (openai_fragment mode effort)) 0
        efforts in
    record {
      ref = str_append "openai:" model;
      provider = openai;
      model_id = model;
      engine = openai_responses;
      base_url = none;
      context_window = 1_050_000;
      max_output_tokens = 128_000;
      modalities = vision;
      tools = true;
      streaming = true;
      structured = native;
      reasoning = some (dict_from [] (rows "standard" ++ rows "pro"));
      source_default_reasoning =
          if str_eq model "gpt-6-astra" then none else some "standard/medium";
      continuation_codec = "openai.v2";
      correlation = header;
      source_max_output_tokens = some 128_000;
    }

abbrev claude_fragment : String → String → Fields
claude_fragment mode effort =
    field "thinking" (obj (one "type" (str mode)))
      (one "output_config" (obj (one "effort" (str effort))))

-- The modes of a Claude model, each with its efforts.
abbrev claude_modes : String → List (String × List String)
claude_modes model =
    ("adaptive", efforts_all)
    ∷ (if str_eq model "claude-sonnet-5-5"
        then ("between_tools", take 3 efforts_all) ∷ []
        else if str_eq model "claude-haiku-5-5"
        then ("disabled", take 3 efforts_all) ∷ []
        else [])

abbrev claude_rows : List (String × List String) → Dict ReasoningRow
claude_rows [] = []
claude_rows ((mode, efforts) ∷ modes) =
    enumerate_efforts
      (λ order effort. reasoning (some mode) effort order (claude_fragment mode effort)) 0 efforts
    ++ claude_rows modes

unfoldable pub claude_row : String → ModelRow
claude_row model = record {
  ref = str_append "anthropic:" model;
  provider = anthropic;
  model_id = model;
  engine = anthropic_messages;
  base_url = none;
  context_window = 1_000_000;
  max_output_tokens = 128_000;
  modalities = vision;
  tools = true;
  streaming = true;
  structured = native;
  reasoning = some (dict_from [] (claude_rows (claude_modes model)));
  source_default_reasoning = some (
      if str_eq model "claude-opus-5-5" || str_eq model "claude-haiku-5-5"
      then "adaptive/medium"
      else "adaptive/high");
  continuation_codec = "anthropic.v2";
  correlation = header;
  source_max_output_tokens = some 128_000;
}

-- The default of a Gemini model; the source's table has these four keys, and no other is used.
abbrev gemini_default : String → String
gemini_default model =
    if str_eq model "gemini-3.5-flash-lite"
    then "minimal"
    else if str_eq model "gemini-3.1-pro-preview"
    then "high"
    else "medium"

unfoldable pub gemini_row : String → ModelRow
gemini_row model =
    let argon = str_eq model "gemini-4-argon" in
    let low_high = "low" ∷ "medium" ∷ "high" ∷ [] in
    let efforts = if str_eq model "gemini-3.5-flash-lite" then "minimal" ∷ low_high else low_high in
    record {
      ref = str_append "gemini:" model;
      provider = gemini;
      model_id = model;
      engine = gemini_generate;
      base_url = none;
      context_window = 1_048_576;
      max_output_tokens = if argon then 32_768 else 65_536;
      modalities = vision;
      tools = true;
      streaming = true;
      structured = native;
      reasoning = some (
          dict_from [] (
            enumerate_efforts
              (λ order effort.
                reasoning none effort order
                  (one "thinking_config" (obj (one "thinking_level" (str effort)))))
              0 efforts));
      source_default_reasoning = some (gemini_default model);
      continuation_codec = "gemini.v2";
      correlation = no_correlation;
      source_max_output_tokens = some (if argon then 1_048_576 else 65_536);
    }

abbrev deepseek_fragment : String → Fields
deepseek_fragment effort =
    if str_eq effort "none"
    then one "thinking" (obj (one "type" (str "disabled")))
    else field "thinking" (obj (one "type" (str "enabled"))) (one "reasoning_effort" (str effort))

unfoldable pub deepseek_row : String → ModelRow
deepseek_row model = record {
  ref = str_append "deepseek:" model;
  provider = deepseek;
  model_id = model;
  engine = openai_chat;
  base_url = some "https://api.deepseek.com";
  context_window = 1_048_576;
  max_output_tokens = 384_000;
  modalities = if str_eq model "deepseek-flash" then vision else text_input ∷ [];
  tools = true;
  streaming = true;
  structured = json_mode;
  reasoning = some (
      dict_from [] (
        enumerate_efforts (λ order effort. reasoning none effort order (deepseek_fragment effort)) 0
          ("none" ∷ "low" ∷ "high" ∷ "max" ∷ [])));
  source_default_reasoning = some "high";
  continuation_codec = "deepseek.v2";
  correlation = in_band;
  source_max_output_tokens = some 393_216;
}

-- `_ROWS`
unfoldable pub rows : List ModelRow
unfolding openai_row claude_row gemini_row deepseek_row
rows =
    map openai_row gpt6_model_ids
    ++ map claude_row
        ("claude-fable-5-1" ∷ "claude-opus-5-5" ∷ "claude-sonnet-5-5" ∷ "claude-haiku-5-5" ∷ [])
    ++ map gemini_row (
        "gemini-4-argon" ∷ "gemini-3.8-flash" ∷ "gemini-3.5-flash-lite" ∷ "gemini-3.1-pro-preview"
        ∷ [])
    ++ map deepseek_row ("deepseek-flash" ∷ "deepseek-v4-pro" ∷ [])
