-- ===== src/Examples/Engines.antt =====
-- A stream and a call of the Chat Completions engine, for DeepSeek's flash model.
use mathlib.Core.Path.{subst}
use llm_calling.Base.{
  ℕ, String, ◌≡◌, refl, false, Option, none, some, List, [], ◌∷◌, arith, some-injective,
}
use llm_calling.Base.Int.{pos}
use llm_calling.Contract.{deepseek}
use llm_calling.Contract.Outcome.{attempt_record}
use llm_calling.Engines.{str_or_none, response_content}
use llm_calling.Engines.Chat.{served_provider}
use llm_calling.Engines.Chat.Answers.{chat-Ends}
use llm_calling.Engines.Chat.Calls.{
  ToolDelta, empty_slot, slot_at, apply, finish_slots, finish_calls,
}
use llm_calling.Engines.Chat.Closes.{IsCodecStream}
use llm_calling.Engines.Chat.Complete.{Response, completion}
use llm_calling.Engines.Chat.Encode.{encode_tools, encode}
use llm_calling.Engines.Chat.Engine.{Client, request, engine_generate, engine_stream}
use llm_calling.Engines.Chat.Folds.{HasUniqueKeys, IsFolded, HasUniqueInner, get-fold_entries}
use llm_calling.Engines.Chat.Frames.{
  StreamFrame, chunk, Cut, runs_out, read_usage, read_delta, read_finish, read_frame, read_frames,
}
use llm_calling.Engines.Chat.Messages.{user_wire}
use llm_calling.Engines.Chat.Slots.{Holds, apply-Holds}
use llm_calling.Engines.Chat.Stream.{
  created, stream_meta, final_event, close_stream, stream_attempt,
}
use llm_calling.Engines.Chat.Terminal.{
  attempt_meta, terminal_arm, terminal_outcome, stream_continuation,
}
use llm_calling.Engines.Chat.Usage.{fold_entries}
use llm_calling.Engines.Chat.Whole.{engine_stream-IsCodecStream}
use llm_calling.Examples.{toy_platform, quick, ticking, flash_row, hello}
use llm_calling.Json.{null, int, str, obj, Fields, end, field, get}
use llm_calling.Platform.{Platform}
use llm_calling.Registry.Rows.{deepseek_row}
use llm_calling.Retry.{default_retry}
use llm_calling.Runtime.{runtime_meta, action_first}
use llm_calling.Runtime.Gates.{row_reasoning, ProviderCredential}
use llm_calling.Runtime.Generate.{World}
use llm_calling.Runtime.Generate.Total.{Ends}

abbrev p : Platform
p = toy_platform (obj end)

abbrev key : ProviderCredential
key = record { provider = deepseek; key = "k" }

abbrev part : ℕ → Option String → Option String → String → ToolDelta
part i id name arguments = record {
  index = some (int (pos i));
  id = id;
  function = some (record { name = name; arguments = some arguments });
}

-- Two calls whose fragments are interleaved.
abbrev parts : List ToolDelta
parts =
    part 0 (some "a") (some "f") "{"
    ∷ part 1 (some "b") (some "g") "["
    ∷ part 0 none none "}"
    ∷ part 1 none none "]"
    ∷ []

apply-Holds_example : Holds (pos 0) parts empty_slot (slot_at (pos 0) (apply parts []).0)
apply-Holds_example = apply-Holds (pos 0) parts []

abbrev says : Option String → Option String → StreamFrame
says text reason = chunk (record {
  id = some (str "r1");
  model = some (str "deepseek-flash");
  choice = some (record {
    delta = some (record {
      tool_calls = [];
      content = elim text [ none ↦ none | some t ↦ some (str t) ];
      reasoning_content = none;
    });
    finish_reason = elim reason [ none ↦ none | some t ↦ some (str t) ];
    usage = none;
  });
  usage = none;
})

abbrev frames : List StreamFrame
frames = says (some "he") none ∷ says (some "y") none ∷ says none (some "stop") ∷ []

abbrev streaming_client : Client (List StreamFrame × Cut)
streaming_client row k encoded = created (frames, runs_out)

engine_stream-IsCodecStream_example :
    IsCodecStream flash_row
      (engine_stream p flash_row hello key 0 5 streaming_client).sent
      (engine_stream p flash_row hello key 0 5 streaming_client).ending
engine_stream-IsCodecStream_example =
    engine_stream-IsCodecStream p flash_row hello key 0 5 streaming_client

-- The stream ends well: nothing is raised.
streamed : (engine_stream p flash_row hello key 0 5 streaming_client).ending ≡ none
unfolding engine_stream request served_provider encode encode_tools row_reasoning stream_attempt
    read_frames read_frame read_usage read_delta read_finish finish_calls finish_slots apply
    close_stream final_event stream_meta attempt_meta attempt_record runtime_meta terminal_outcome
    terminal_arm response_content stream_continuation str_or_none user_wire deepseek_row
streamed = refl

abbrev completion_client : Client Response
completion_client row k encoded = created (
    completion (record {
      id = some (str "r1");
      model = some (str "deepseek-flash");
      error = none;
      choice = some (record {
        message = some (record {
          content = some (str "hi");
          reasoning_content = none;
          tool_calls = [];
          whole = end;
        });
        finish_reason = some (str "stop");
      });
      usage = none;
    }))

abbrev chat_world : World
chat_world = record {
  timing = quick;
  clock = ticking;
  has_cancel = false;
  is_set = λ _. false;
  reply = λ n. record {
    result = engine_generate p flash_row hello key 0 5 completion_client;
    first = action_first;
  };
}

chat-Ends_example : Ends chat_world flash_row (λ n. omega arith) default_retry
chat-Ends_example =
    chat-Ends p flash_row hello key chat_world default_retry (λ n. omega arith)
      (λ n. (0, 5, completion_client, refl)) (omega arith)

abbrev early : Fields
early = field "details" (obj (field "cached" (int (pos 3)) end)) end

abbrev late_details : Fields
late_details = field "cached" null (field "written" (int (pos 2)) end)

abbrev late : Fields
late = field "total" null (field "details" (obj late_details) end)

late_details-HasUniqueKeys : HasUniqueInner (get "details" late)
late_details-HasUniqueKeys fs h =
    let same : obj late_details ≡ obj fs = some-injective _ _ h in
    let same_fields : late_details ≡ fs = cc in subst HasUniqueKeys same_fields (refl, (refl, tt))

get-fold_entries_example :
    IsFolded (get "details" early) (get "details" late) (get "details" (fold_entries early late))
get-fold_entries_example =
    get-fold_entries "details" early late (refl, (refl, tt)) late_details-HasUniqueKeys
