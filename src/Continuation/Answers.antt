-- ===== src/Continuation/Answers.antt =====
-- A pending turn whose calls are answered in order is resumed.
use llm_calling.Base.{
  ℕ, String, ◌≡◌, refl, true, false, some, List, [], ◌∷◌, map, str_eq, eq_iff, all, All, ok,
}
use llm_calling.Continuation.{encode_continuation}
use llm_calling.Continuation.Conversation.{
  Turn, turn_messages, with_turns, settled_json, first_json, state_json,
}
use llm_calling.Continuation.Generation.{
  items_of, call_json, turn_json, fingerprint, row_fingerprint, messages_json,
}
use llm_calling.Continuation.Read.{each, read_turn, read_generation}
use llm_calling.Continuation.ReadBack.{
  read_output-output_json, read_choice-choice_text, each-calls, each-tools, each-results,
  ReadsImages, each-messages_json,
}
use llm_calling.Continuation.Resume.{
  last_item, are_mappings, hashable, text_ids, repeats, same_ids, check_ids, pending_calls,
  same_definition, open_generation,
}
use llm_calling.Continuation.Resumed.{some_items-append_item}
use llm_calling.Continuation.Seal.{append_item}
use llm_calling.Contract.{eq_provider_iff, ProviderTarget}
use llm_calling.Contract.Request.{
  ToolCall, ContinuationArtifact, continuation_artifact, GenerateIntent,
}
use llm_calling.Json.{
  Json, str, obj, Items, nil, cons, Fields, end, field, freeze_json_object, thaw_json_value, get,
}
use llm_calling.Json.Bounds.{IsBounded, IsBoundedItems}
use llm_calling.Json.Sorted.{IsBounded-up}
use llm_calling.Json.Thaw.{freeze_json_value-thaw}
use llm_calling.Platform.{Platform}
use llm_calling.Registry.{ModelRow}

-- The fields of a call of a turn.
abbrev pub call_fields : ToolCall → Fields
call_fields call =
    field "id" (str call.id)
      (field "name" (str call.name) (field "arguments" (obj call.arguments) end))

are_mappings-calls :
    (calls : List ToolCall) → are_mappings (items_of call_json calls) ≡ some (map call_fields calls)
are_mappings-calls [] = refl
are_mappings-calls (c ∷ cs) = rw (are_mappings-calls cs) refl

text_ids-calls :
    (calls : List ToolCall)
    → text_ids (map (get "id") (map call_fields calls)) ≡ some (map (λ c. c.id) calls)
text_ids-calls [] = refl
text_ids-calls (c ∷ cs) = rw (text_ids-calls cs) refl

hashable-calls :
    (calls : List ToolCall) → all hashable (map (get "id") (map call_fields calls)) ≡ true
hashable-calls [] = refl
hashable-calls (c ∷ cs) = hashable-calls cs

same_ids_refl : (ids : List String) → same_ids ids ids ≡ true
same_ids_refl [] = refl
same_ids_refl (a ∷ as') = rw ((eq_iff a a).1 refl, same_ids_refl as') refl

pub check_ids-calls :
    (calls : List ToolCall)
    → repeats (map (λ c. c.id) calls) ≡ false
    → check_ids (map (get "id") (map call_fields calls)) (map (λ c. c.id) calls) ≡ ok tt
unfolding check_ids
check_ids-calls calls distinct =
    rw (hashable-calls calls, text_ids-calls calls, distinct, same_ids_refl (map (λ c. c.id) calls))
      refl

pub last_item-append_item : (vs : Items) (v : Json) → last_item (append_item vs v) ≡ some v
last_item-append_item nil v = refl
last_item-append_item (cons w nil) v = refl
last_item-append_item (cons w (cons w' vs)) v = last_item-append_item (cons w' vs) v

-- The calls of a turn that waits for its results.
pub pending_calls-turn_json :
    (vs : Items) (text : String) (c : ToolCall) (cs : List ToolCall) (payload : Fields)
    → pending_calls (append_item vs (turn_json text (c ∷ cs) payload))
      ≡ ok (map call_fields (c ∷ cs))
unfolding pending_calls
pending_calls-turn_json vs text c cs payload =
    rw (last_item-append_item vs (turn_json text (c ∷ cs) payload), are_mappings-calls cs) refl

-- The native payloads of turns that lie in the bounded domain.
pub natives-IsBounded :
    (ts : List Turn)
    → IsBoundedItems 2 (items_of settled_json ts)
    → All (λ t. IsBounded 0 (obj (Turn.native_payload t))) ts
natives-IsBounded [] h = tt
natives-IsBounded (t ∷ ts) h =
    let v = obj t.native_payload in
    (IsBounded-up 0 v (IsBounded-up 1 v (IsBounded-up 2 v h.0.1.1.1.0)), natives-IsBounded ts h.1)

module _ (p : Platform) (target : ProviderTarget) (codec_id : String) where
  continuation_artifact-bounded :
      (payload : Fields)
      → str_eq codec_id "" ≡ false
      → IsBounded 0 (obj payload)
      → continuation_artifact target codec_id (thaw_json_value (obj payload))
        ≡ ok (record { target = target; codec_id = codec_id; opaque_payload = payload })
  unfolding continuation_artifact freeze_json_object
  continuation_artifact-bounded payload named h =
      rw (named, freeze_json_value-thaw (obj payload) h) refl

  settled-read_turn :
      (t : Turn)
      → str_eq codec_id "" ≡ false
      → IsBounded 0 (obj t.native_payload)
      → read_turn p target codec_id (settled_json t) ≡ ok (turn_messages target codec_id t)
  unfolding read_turn
  settled-read_turn t named h =
      rw
        (
          each-calls t.calls,
          continuation_artifact-bounded t.native_payload named h,
          each-results t.results,
        )
        refl

  settled-each :
      (ts : List Turn)
      → str_eq codec_id "" ≡ false
      → All (λ t. IsBounded 0 (obj (Turn.native_payload t))) ts
      → each (read_turn p target codec_id) (items_of settled_json ts)
        ≡ ok (map (turn_messages target codec_id) ts)
  settled-each [] named h = refl
  settled-each (t ∷ ts) named h = rw (settled-read_turn t named h.0, settled-each ts named h.1) refl

-- A first request and its turns are read back.
pub written-read_generation :
    (p : Platform) (codec_id : String) (intent : GenerateIntent) (messages : Items) (ts : List Turn)
    → All (ReadsImages p) intent.messages
    → messages_json p intent.messages ≡ ok messages
    → str_eq codec_id "" ≡ false
    → All (λ t. IsBounded 0 (obj (Turn.native_payload t))) ts
    → read_generation p intent.target codec_id
        (obj (first_json messages intent))
        (items_of settled_json ts)
      ≡ ok (with_turns codec_id intent ts)
unfolding read_generation
written-read_generation p codec_id intent messages ts images written named natives =
    rw
      (
        each-messages_json p intent.messages messages images written,
        settled-each p intent.target codec_id ts named natives,
        read_output-output_json intent.output,
        read_choice-choice_text intent.tool_choice,
        each-tools intent.tools,
      )
      refl

module _ (p : Platform) (row : ModelRow) where
  pub open_generation-state :
      (artifact : ContinuationArtifact) (bytes : List ℕ) (digest : String) (first : Fields)
      (turns : Items) (last : Json)
      → artifact ≡ record {
        target = record { provider = row.provider; model = row.model_id };
        codec_id = row.continuation_codec;
        opaque_payload = state_json digest first (append_item turns last);
      }
      → encode_continuation p artifact ≡ ok bytes
      → row_fingerprint p row ≡ ok digest
      → open_generation p row artifact ≡ ok (obj first, append_item turns last)
  unfolding open_generation same_definition
  open_generation-state artifact bytes digest first turns last shape encodes fingerprint =
      rw
        (
          encodes,
          shape,
          (eq_provider_iff row.provider row.provider).1 refl,
          (eq_iff row.model_id row.model_id).1 refl,
          (eq_iff row.continuation_codec row.continuation_codec).1 refl,
          fingerprint,
          (eq_iff digest digest).1 refl,
          some_items-append_item turns last,
        )
        refl
