-- ===== src/Registry.antt =====
-- The executable model catalog (provider_runtime/registry.py): the row of a model. The rows, their
-- resolution and the checks that the import of the registry makes are in the children.
pub mod Rows
pub mod Resolve
pub mod Check
pub mod Valid
use llm_calling.Base.{
  ℕ, String, Bool, true, false, Option, none, some, List, [], ◌∷◌, str_eq, if◌then◌else◌,
}
use llm_calling.Contract.{ProviderName, EngineId, Presence}
use llm_calling.Json.{Fields}

pub data Modality : Type 0 where
  text_input image_input : Modality

abbrev pub is_image : Modality → Bool
is_image image_input = true
is_image text_input = false

abbrev pub is_text : Modality → Bool
is_text text_input = true
is_text image_input = false

pub data Structured : Type 0 where
  native json_mode : Structured

pub data Correlation : Type 0 where
  header in_band no_correlation : Correlation

pub record ApiReasoningFacts : Type 0 where
  pub key : String
  pub label : String
  pub mode : Option String
  pub effort : String
  pub effort_order : ℕ

pub record ReasoningRow : Type 0 where
  pub facts : ApiReasoningFacts
  pub fragment : Fields

-- A Python `dict` with string keys, in insertion order.
abbrev pub Dict : Type 0 → Type 0
Dict V = List (String × V)

-- `d.get(key)`
abbrev pub lookup : {V : Type 0} → String → Dict V → Option V
lookup key [] = none
lookup key ((k, v) ∷ d) = if str_eq k key then some v else lookup key d

-- `d[key] = value`
abbrev pub insert : {V : Type 0} → String → V → Dict V → Dict V
insert key value [] = (key, value) ∷ []
insert key value ((k, v) ∷ d) = if str_eq k key then (k, value) ∷ d else (k, v) ∷ insert key value d

-- `dict(pairs)`: a later pair replaces an earlier one of its key.
abbrev pub dict_from : {V : Type 0} → Dict V → Dict V → Dict V
dict_from d [] = d
dict_from d ((k, v) ∷ pairs) = dict_from (insert k v d) pairs

-- The sources of the facts (`upgrade`, `retirement`, citations) are absent or left out.
pub record ModelRow : Type 0 where
  pub ref : String
  pub provider : ProviderName
  pub model_id : String
  pub engine : EngineId
  pub base_url : Presence String
  pub context_window : ℕ
  pub max_output_tokens : ℕ
  pub modalities : List Modality
  pub tools : Bool
  pub streaming : Bool
  pub structured : Structured
  pub reasoning : Presence (Dict ReasoningRow)
  pub source_default_reasoning : Presence String
  pub continuation_codec : String
  pub correlation : Correlation
  pub source_max_output_tokens : Presence ℕ

-- A mode is a text or nothing.
abbrev pub option_eq : Option String → Option String → Bool
option_eq none none = true
option_eq (some a) (some b) = str_eq a b
option_eq none (some b) = false
option_eq (some a) none = false
