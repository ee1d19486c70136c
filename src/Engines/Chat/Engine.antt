-- ===== src/Engines/Chat/Engine.antt =====
-- `OpenAIChatEngine`: what an attempt gives the runtime. The package's client is a parameter: what it
-- answers to the messages and the body that it is given.
use llm_calling.Base.{ℕ, String, none, some, List, [], Result, ok, err, ◌>>=◌}
use llm_calling.Contract.{Presence, Defect, registry_invalid}
use llm_calling.Contract.Request.{GenerateIntent}
use llm_calling.Engines.{defect_fault}
use llm_calling.Engines.Chat.{Served, served_provider}
use llm_calling.Engines.Chat.Complete.{Response, generate_attempt}
use llm_calling.Engines.Chat.Encode.{Encoded, encode}
use llm_calling.Engines.Chat.Frames.{StreamFrame, Cut}
use llm_calling.Engines.Chat.Stream.{Created, Emitted, Attempt, emit_fault, stream_attempt}
use llm_calling.Platform.{Platform}
use llm_calling.Registry.{ModelRow}
use llm_calling.Runtime.Gates.{ProviderCredential}
use llm_calling.Runtime.Generate.{Reply, engine_raises}

abbrev pub Client : Type 0 → Type 0
Client A = ModelRow → ProviderCredential → Encoded → Created A

-- `_client`: a row of this engine carries a base URL.
abbrev require_url : Presence String → Result Defect (Unit {0})
require_url none = err registry_invalid
require_url (some url) = ok tt

module _ (p : Platform) (row : ModelRow) (intent : GenerateIntent) (key : ProviderCredential)
    (started ended : ℕ) where
  unfoldable pub request : Result Defect (Served × Encoded)
  request = do
    provider ← served_provider row
    encoded ← encode p provider row intent
    _ ← require_url row.base_url
    ok (provider, encoded)

  abbrev attempt_of : Encoded → Attempt
  attempt_of encoded = record {
    started = started;
    ended = ended;
    native_reasoning = encoded.native_reasoning;
  }

  abbrev pub generate_with : Client Response → Result Defect (Served × Encoded) → Reply
  generate_with client (err d) = engine_raises d
  generate_with client (ok (provider, encoded)) =
      generate_attempt p provider row intent (attempt_of encoded) (client row key encoded)

  -- `generate`
  unfoldable pub engine_generate : Client Response → Reply
  engine_generate client = generate_with client request

  abbrev pub stream_with :
      Client (List StreamFrame × Cut) → Result Defect (Served × Encoded) → Emitted
  stream_with client (err d) = emit_fault [] (defect_fault d)
  stream_with client (ok (provider, encoded)) =
      stream_attempt p provider row intent (attempt_of encoded) (client row key encoded)

  -- `stream`
  unfoldable pub engine_stream : Client (List StreamFrame × Cut) → Emitted
  engine_stream client = stream_with client request
