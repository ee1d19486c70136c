-- ===== src/Continuation/Answered.antt =====
-- A pending turn whose calls are all answered, in order, is resumed.
use mathlib.Core.Path.{subst}
use llm_calling.Base.{
  ℕ, String, ◌≡◌, refl, sym, ap, ◌∙◌, false, Option, some, List, [], ◌∷◌, ◌++◌, map, str_eq, All,
  ok, err, >>=-eq-ok, raise_if-ok, ok-injective, none-ne-some,
}
use llm_calling.Continuation.{encode_continuation}
use llm_calling.Continuation.Answers.{
  call_fields, check_ids-calls, pending_calls-turn_json, natives-IsBounded, written-read_generation,
  open_generation-state,
}
use llm_calling.Continuation.Conversation.{
  Turn, with_turns, settled_json, first_json, state_json, frozen-ok,
}
use llm_calling.Continuation.Generation.{items_of, turn_json, fingerprint, row_fingerprint}
use llm_calling.Continuation.History.{IsPending, History, IsPending-artifact, History-IsHistory}
use llm_calling.Continuation.Read.{read_generation}
use llm_calling.Continuation.ReadBack.{ReadsImages}
use llm_calling.Continuation.Resume.{
  put, put_in, repeats, result_json, pending_calls, resumed, answered_turns, resume_generation,
}
use llm_calling.Continuation.Resumed.{append_item-items_of, change_last-append_item}
use llm_calling.Continuation.Seal.{append_item, seal_content, seal_generation}
use llm_calling.Continuation.Sealed.{HasCalls, IsSealed, seal_generation-IsSealed}
use llm_calling.Contract.{ProviderTarget, value_error}
use llm_calling.Contract.Outcome.{text_content, ResponsePayload}
use llm_calling.Contract.Request.{
  ToolCall, ContinuationArtifact, continuation_artifact, ToolResultMessage, GenerateIntent,
}
use llm_calling.Json.{
  Json, null, arr, obj, Items, Fields, freeze_json_value, as_object, freeze_json_object,
  thaw_json_value, get,
}
use llm_calling.Json.Bounds.{IsBounded}
use llm_calling.Json.Thaw.{freeze_json_value-thaw_iff}
use llm_calling.Platform.{Platform}
use llm_calling.Registry.{ModelRow}

module _ (p : Platform) (row : ModelRow) where
  -- A turn was sealed only if it calls tools, and its artifact can be encoded.
  seal_content-calls :
      (request : GenerateIntent) (state : Fields) (text : String) (calls : List ToolCall)
      (response sealed : ResponsePayload) (artifact : ContinuationArtifact)
      → seal_content p row request state (text_content text calls) response ≡ ok sealed
      → sealed.continuation ≡ some artifact
      → (c : ToolCall) × (cs : List ToolCall) × (calls ≡ c ∷ cs)
  seal_content-calls request state text [] response sealed artifact h carried =
      absurd (none-ne-some _ (ap (λ r. ResponsePayload.continuation r) (ok-injective h) ∙ carried))
  seal_content-calls request state text (c ∷ cs) response sealed artifact h carried = (c, cs, refl)

  pub IsPending-calls :
      (request : GenerateIntent) (state : Fields) (turn : Turn) (artifact : ContinuationArtifact)
      → IsPending p row request state turn artifact
      → (c : ToolCall) × (cs : List ToolCall) × (turn.calls ≡ c ∷ cs)
  unfolding seal_generation
  IsPending-calls request state turn artifact h =
      seal_content-calls request state turn.text turn.calls h.response h.sealed artifact
        (subst (λ c. seal_content p row request state c h.response ≡ ok h.sealed) h.content h.seals)
        h.carried

  pub IsPending-encodes :
      (request : GenerateIntent) (state : Fields) (turn : Turn) (artifact : ContinuationArtifact)
      → IsPending p row request state turn artifact
      → (bytes : List ℕ) × (encode_continuation p artifact ≡ ok bytes)
  IsPending-encodes request state turn artifact h =
      let (c, cs, calls) = IsPending-calls request state turn artifact h in
      let (own, out, usable) =
        IsSealed.with_calls
          (seal_generation-IsSealed p row request state h.response h.sealed h.seals)
          (subst HasCalls (sym (h.content ∙ ap (text_content turn.text) calls)) tt) in
      let same : some own ≡ some artifact = sym out ∙ h.carried in
      let own_is : own ≡ artifact = cc in
      subst (λ a. (bytes : List ℕ) × (encode_continuation p a ≡ ok bytes)) own_is usable.encodes

  resume_generation-state :
      (digest : String) (first : Fields) (turns later : Items) (text : String)
      (calls : List ToolCall) (payload : Fields) (results : List ToolResultMessage)
      (request : GenerateIntent) (made : ContinuationArtifact) (bytes more : List ℕ)
      → let artifact : ContinuationArtifact = record {
        target = record { provider = row.provider; model = row.model_id };
        codec_id = row.continuation_codec;
        opaque_payload = state_json digest first (append_item turns (turn_json text calls payload));
      } in
        encode_continuation p artifact ≡ ok bytes
        → row_fingerprint p row ≡ ok digest
        → ((c : ToolCall) × (cs : List ToolCall) × (calls ≡ c ∷ cs))
        → repeats (map (λ c. c.id) calls) ≡ false
        → map (λ r. r.call_id) results ≡ map (λ c. c.id) calls
        → append_item turns
            (put_in "results" (arr (items_of result_json results)) (turn_json text calls payload))
          ≡ later
        → continuation_artifact artifact.target row.continuation_codec
            (thaw_json_value (obj (state_json digest first later)))
          ≡ ok made
        → encode_continuation p made ≡ ok more
        → read_generation p artifact.target row.continuation_codec (obj first) later ≡ ok request
        → resume_generation p row (record { continuation = artifact; tool_results = results })
          ≡ ok (resumed request (state_json digest first later))
  unfolding resume_generation
  resume_generation-state digest first turns later text calls payload results request made bytes
        more encodes fingerprint (c, cs, called) distinct ids settled fits encodes_again read =
      let waiting : pending_calls (append_item turns (turn_json text calls payload))
          ≡ ok (map call_fields calls) =
        subst
          (λ x.
            pending_calls (append_item turns (turn_json text x payload)) ≡ ok (map call_fields x))
          (sym called) (pending_calls-turn_json turns text c cs payload) in
      rw
        (
          open_generation-state p row _ bytes digest first turns (turn_json text calls payload) refl
              encodes fingerprint,
          waiting,
          ids,
          check_ids-calls calls distinct,
          change_last-append_item (put_in "results" (arr (items_of result_json results))) turns
              (turn_json text calls payload),
          settled,
          fits,
          encodes_again,
          read,
        )
        refl

-- The payload of an artifact with results in its last turn.
abbrev turns_with : List ToolResultMessage → Option Json → Json
turns_with results (some (arr vs)) = arr (answered_turns results vs)
turns_with results _ = null

abbrev pub with_results : List ToolResultMessage → Fields → Fields
with_results results payload = put "turns" (turns_with results (get "turns" payload)) payload

continuation_artifact-IsBounded :
    (target : ProviderTarget) (codec_id : String) (v : Fields) (artifact : ContinuationArtifact)
    → continuation_artifact target codec_id (thaw_json_value (obj v)) ≡ ok artifact
    → (str_eq codec_id "" ≡ false) × IsBounded 0 (obj v)
unfolding continuation_artifact freeze_json_object
continuation_artifact-IsBounded target codec_id v artifact h =
    let (named, h₁) = raise_if-ok (str_eq codec_id "") value_error _ artifact h in
    let (fs, frozen, h₂) =
      >>=-eq-ok
        (elim (freeze_json_object (thaw_json_value (obj v))) [
          | ok gs ↦ ok gs
          | err e ↦ err value_error
        ])
        _ h₁ in
    let (w, thawed, h₃) =
      >>=-eq-ok (freeze_json_value (thaw_json_value (obj v))) as_object (frozen-ok _ fs frozen) in
    (named, ((freeze_json_value-thaw_iff (obj v) w).0 thawed).0)

module _ (p : Platform) (row : ModelRow) (intent : GenerateIntent) where
  -- A generation whose last response waits for its tools goes on: the results of its calls, in their
  -- order, are accepted if the calls have distinct IDs and the payload with the results can be encoded,
  -- and the request that follows has the turn's messages after all the others.
  pub History-resumes :
      (turns : List Turn) (request : GenerateIntent) (state : Fields) (turn : Turn)
      (artifact made : ContinuationArtifact) (bytes : List ℕ)
      → intent.target ≡ record { provider = row.provider; model = row.model_id }
      → All (ReadsImages p) intent.messages
      → History p row intent turns request state
      → IsPending p row request state turn artifact
      → repeats (map (λ c. c.id) turn.calls) ≡ false
      → map (λ r. r.call_id) turn.results ≡ map (λ c. c.id) turn.calls
      → continuation_artifact artifact.target artifact.codec_id
          (thaw_json_value (obj (with_results turn.results artifact.opaque_payload)))
        ≡ ok made
      → encode_continuation p made ≡ ok bytes
      → resume_generation p row (record { continuation = artifact; tool_results = turn.results })
        ≡ ok (
            resumed
              (with_turns row.continuation_codec intent (turns ++ turn ∷ []))
              (with_results turn.results artifact.opaque_payload))
  History-resumes turns request state turn artifact made bytes target images history pending
        distinct ids fits encodes =
      let so_far = History-IsHistory p row intent images history in
      let first = first_json so_far.messages intent in
      let vs = items_of settled_json turns in
      let last = turn_json turn.text turn.calls turn.native_payload in
      let (before, encoded) = IsPending-encodes p row request state turn artifact pending in
      let shape =
        IsPending-artifact p row intent turns request state turn artifact so_far pending in
      let settled = append_item-items_of settled_json turns turn in
      let after = state_json so_far.digest first (items_of settled_json (turns ++ turn ∷ [])) in
      let answered_is : with_results turn.results artifact.opaque_payload ≡ after =
        ap (λ a. with_results turn.results (ContinuationArtifact.opaque_payload a)) shape
        ∙ ap (λ x. state_json so_far.digest first x)
            (change_last-append_item (put_in "results" (arr (items_of result_json turn.results))) vs
                last
              ∙ settled) in
      let codec : artifact.codec_id ≡ row.continuation_codec =
        ap (λ a. ContinuationArtifact.codec_id a) shape in
      let own : artifact.target ≡ intent.target = ap (λ a. ContinuationArtifact.target a) shape in
      let fits_after : continuation_artifact intent.target row.continuation_codec
            (thaw_json_value (obj after))
          ≡ ok made =
        (λ i.
          continuation_artifact (sym own i) (sym codec i)
            (thaw_json_value (obj (sym answered_is i))))
        ∙ fits in
      let (named, bounded) =
        continuation_artifact-IsBounded intent.target row.continuation_codec after made
          fits_after in
      let read =
        written-read_generation p row.continuation_codec intent so_far.messages (turns ++ turn ∷ [])
          images so_far.written named
          (natives-IsBounded (turns ++ turn ∷ []) bounded.1.1.1.1.0.1) in
      let model : ProviderTarget = record { provider = row.provider; model = row.model_id } in
      let whole : artifact ≡ record {
        target = model;
        codec_id = row.continuation_codec;
        opaque_payload = state_json so_far.digest first (append_item vs last);
      } =
        shape ∙ (λ i. record {
          target = target i;
          codec_id = row.continuation_codec;
          opaque_payload = state_json so_far.digest first (append_item vs last);
        }) in
      (λ i.
        resume_generation p row (record { continuation = whole i; tool_results = turn.results }))
      ∙ resume_generation-state p row so_far.digest first vs
          (items_of settled_json (turns ++ turn ∷ [])) turn.text turn.calls turn.native_payload
          turn.results (with_turns row.continuation_codec intent (turns ++ turn ∷ [])) made before
          bytes ((λ i. encode_continuation p (sym whole i)) ∙ encoded) so_far.fingerprint
          (IsPending-calls p row request state turn artifact pending) distinct ids settled
          ((λ i.
              continuation_artifact (sym target i) row.continuation_codec
                (thaw_json_value (obj after)))
            ∙ fits_after)
          encodes
          ((λ i.
              read_generation p (sym target i) row.continuation_codec (obj first)
                (items_of settled_json (turns ++ turn ∷ [])))
            ∙ read)
      ∙ (λ i. ok (
          resumed (with_turns row.continuation_codec intent (turns ++ turn ∷ []))
            (sym answered_is i)))
