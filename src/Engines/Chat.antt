-- ===== src/Engines/Chat.antt =====
-- The engine for Chat Completions (provider_runtime/engines/openai_chat.py), which serves DeepSeek and
-- xAI: what it sends, and what it makes of one completion or of one stream of chunks. The openai
-- package is a parameter: its parsed objects are records of the attributes that are read.
pub mod Messages
pub mod Encode
pub mod Usage
pub mod Calls
pub mod Terminal
pub mod Errors
pub mod Frames
pub mod Stream
pub mod Complete
pub mod Engine
pub mod Slots
pub mod Folds
pub mod Grammar
pub mod Opens
pub mod Closes
pub mod Whole
pub mod Answers
use llm_calling.Base.{Result, ok, err}
use llm_calling.Contract.{openai, anthropic, gemini, deepseek, xai, Defect, registry_invalid}
use llm_calling.Registry.{ModelRow}

-- `_Served`
pub data Served : Type 0 where
  deepseek_served xai_served : Served

unfoldable pub served_provider : ModelRow → Result Defect Served
served_provider row = elim row.provider [
  | deepseek ↦ ok deepseek_served
  | xai ↦ ok xai_served
  | openai ↦ err registry_invalid
  | anthropic ↦ err registry_invalid
  | gemini ↦ err registry_invalid
]
