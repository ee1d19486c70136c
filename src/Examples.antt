-- ===== src/Examples.antt =====
-- Concrete inputs, and the theorems at them.
mod Retries
mod Calls
mod Streams
mod Continuations
mod Values
mod Catalog
mod Agents
mod Schemas
mod Embeddings
mod Generations
mod Engines
use llm_calling.Base.{◌+◌, ◌*◌, true, false, Option, none, some, [], ◌∷◌, str_eq, Result, ok, err}
use llm_calling.Base.Int.{pos}
use llm_calling.Contract.{deepseek, ProviderTarget, Defect}
use llm_calling.Contract.Outcome.{
  provider_timeout, final_attempt, possibly_billable, CallMeta, text_content, succeeded,
  CallOutcome,
}
use llm_calling.Contract.Request.{auto, text_output, prompt, user_message, GenerateIntent}
use llm_calling.Json.{Json, end}
use llm_calling.Platform.{Platform}
use llm_calling.Registry.{ModelRow}
use llm_calling.Registry.Rows.{deepseek_row}
use llm_calling.Retry.{Timing}
use llm_calling.Runtime.{TransientAttempt, Clock}
use llm_calling.Runtime.Gates.{Credentials, Urls}

abbrev pub from_ok : {E A : Type 0} → A → Result E A → A
from_ok d (ok a) = a
from_ok d (err e) = d

-- A platform whose JSON text is always `{}`, and which reads back one value.
abbrev pub toy_platform : Json → Platform
toy_platform v = record {
  dumps = λ _. 123 ∷ 125 ∷ [];
  loads = λ _. some v;
  dumps_text = λ _ _. "{}";
  loads_text = λ _. some v;
  equal = λ _ _. true;
  is_blank = λ s. str_eq s "";
  lower = λ s. s;
  is_digit = λ _. false;
  to_int = λ _. none;
  b64encode = λ _. "";
  b64decode = λ _. some [];
  sha256_hex = λ _. "";
}

abbrev pub quick : Timing
quick = record { uniform = λ _. 0; elapsed = λ _ slept. slept }

abbrev pub ticking : Clock
ticking = record { started = λ n. 10 * n; ended = λ n. 10 * n + 5 }

abbrev pub flash : ProviderTarget
flash = record { provider = deepseek; model = "deepseek-flash" }

abbrev pub flash_row : ModelRow
flash_row = deepseek_row "deepseek-flash"

abbrev pub hello : GenerateIntent
hello = record {
  target = flash;
  messages = user_message (prompt (record { text = "hello" }) ∷ []) ∷ [];
  max_output_tokens = pos 100;
  reasoning = "high";
  tools = [];
  tool_choice = auto;
  output = text_output;
  provider_options = end;
}

abbrev pub meta : CallMeta
meta = record {
  provider = deepseek;
  model = "deepseek-flash";
  provider_request_id = none;
  usage = none;
  attempt_trace =
      record {
        attempt = 1;
        signal = final_attempt;
        status_code = none;
        started_at_ms = 0;
        ended_at_ms = 5;
      }
      ∷ [];
  billability = possibly_billable;
  native_reasoning = none;
  registry_revision = "";
}

abbrev pub answer : CallOutcome
answer = record {
  meta = meta;
  arm = succeeded (record { content = text_content "hi" []; continuation = none });
}

abbrev pub timeout : TransientAttempt
timeout = record {
  cause = provider_timeout;
  status_code = none;
  provider_request_id = none;
  billability = possibly_billable;
}

-- URLs that are left as they are.
abbrev pub plain_urls : Urls
plain_urls = record { scheme = λ u. u; netloc = λ u. ""; path = λ u. ""; unsplit = λ s n q. s }

abbrev pub one_key : Credentials
one_key = record {
  openai_key = none;
  anthropic_key = none;
  gemini_key = none;
  deepseek_key = some "key";
  xai_key = none;
}

-- The value of a call that was followed.
abbrev pub from_some : {A : Type 0} → A → Result Defect (Option A) → A
from_some d (ok (some a)) = a
from_some d (ok none) = d
from_some d (err _) = d
