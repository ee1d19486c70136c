-- ===== src/Continuation/History.antt =====
-- The history of a generation: a first request, and turns that were sealed and then resumed with the
-- results of their tools.
use mathlib.Core.Path.{subst}
use llm_calling.Base.{
  String, ◌≡◌, sym, ap, ◌∙◌, some, List, [], ◌∷◌, ◌++◌, All, ok, >>=-eq-ok, ok-injective,
}
use llm_calling.Continuation.Conversation.{
  Turn, with_turns, settled_json, first_json, state_json, read_generation-ok,
}
use llm_calling.Continuation.Generation.{
  items_of, turn_json, row_fingerprint, messages_json, first_state,
}
use llm_calling.Continuation.Read.{read_generation}
use llm_calling.Continuation.ReadBack.{ReadsImages}
use llm_calling.Continuation.Resume.{resumed, resume_generation}
use llm_calling.Continuation.Resumed.{
  append_item-items_of, with_turns-nil, seal_turn-artifact, seal_generation-turn,
  resume_generation-ok,
}
use llm_calling.Continuation.Seal.{append_item, seal_turn, seal_generation}
use llm_calling.Contract.Outcome.{text_content, ResponsePayload}
use llm_calling.Contract.Request.{ContinuationArtifact, GenerateIntent}
use llm_calling.Json.{obj, Items, Fields}
use llm_calling.Platform.{Platform}
use llm_calling.Registry.{ModelRow}

module _ (p : Platform) (row : ModelRow) where
  -- The artifact is that of a response to the request, which was sealed with the calls of the turn.
  pub record IsPending (request : GenerateIntent) (state : Fields) (turn : Turn)
      (artifact : ContinuationArtifact) : Type 0 where
    pub response : ResponsePayload
    pub sealed : ResponsePayload
    pub own : ContinuationArtifact
    pub content : response.content ≡ text_content turn.text turn.calls
    pub given : response.continuation ≡ some own
    pub native_is : own.opaque_payload ≡ turn.native_payload
    pub seals : seal_generation p row request state response ≡ ok sealed
    pub carried : sealed.continuation ≡ some artifact

  module _ (intent : GenerateIntent) where
    -- The turns so far, the request that is sent next, and the state that its turn is added to. A turn
    -- is added by sealing the response to the request, and resuming with the results of its tools.
    pub data History : List Turn → GenerateIntent → Fields → Type 0 where
      opened : {state : Fields} → first_state p row intent ≡ ok state → History [] intent state
      resumed_with :
          {turns : List Turn} {request following : GenerateIntent} {state after : Fields}
          (turn : Turn) (artifact : ContinuationArtifact)
          → History turns request state
          → IsPending request state turn artifact
          → resume_generation p row
              (record { continuation = artifact; tool_results = turn.results })
            ≡ ok (resumed following after)
          → History (turns ++ turn ∷ []) following after

    pub record IsHistory (turns : List Turn) (request : GenerateIntent) (state : Fields)
        : Type 0 where
      pub messages : Items
      pub digest : String
      pub written : messages_json p intent.messages ≡ ok messages
      pub fingerprint : row_fingerprint p row ≡ ok digest
      pub state_is :
          state ≡ state_json digest (first_json messages intent) (items_of settled_json turns)
      pub request_is : request ≡ with_turns row.continuation_codec intent turns

    first_state-IsHistory :
        (state : Fields) → first_state p row intent ≡ ok state → IsHistory [] intent state
    unfolding first_state
    first_state-IsHistory state h =
        let (messages, written, h₁) = >>=-eq-ok (messages_json p intent.messages) _ h in
        let (digest, d, h₂) = >>=-eq-ok (row_fingerprint p row) _ h₁ in
        record {
          messages = messages;
          digest = digest;
          written = written;
          fingerprint = d;
          state_is = sym (ok-injective h₂);
          request_is = with_turns-nil row.continuation_codec intent;
        }

    -- The artifact of a pending turn holds the turns before it, and that turn without its results.
    pub IsPending-artifact :
        (turns : List Turn) (request : GenerateIntent) (state : Fields) (turn : Turn)
        (artifact : ContinuationArtifact) (so_far : IsHistory turns request state)
        → IsPending request state turn artifact
        → artifact ≡ record {
          target = intent.target;
          codec_id = row.continuation_codec;
          opaque_payload = state_json so_far.digest (first_json so_far.messages intent) (
              append_item
                (items_of settled_json turns)
                (turn_json turn.text turn.calls turn.native_payload));
        }
    IsPending-artifact turns request state turn artifact so_far h =
        let first = first_json so_far.messages intent in
        let sealed_turn =
          subst (λ st. seal_turn p row request st turn.text turn.calls h.response ≡ ok h.sealed)
            so_far.state_is
            (seal_generation-turn p row request state turn.text turn.calls h.response h.sealed
              artifact h.content h.seals h.carried) in
        seal_turn-artifact p row request so_far.digest first (items_of settled_json turns) turn.text
          turn.calls h.own artifact h.response h.sealed h.given sealed_turn h.carried
        ∙ (λ i. record {
          target = (so_far.request_is i).target;
          codec_id = row.continuation_codec;
          opaque_payload = state_json so_far.digest first (
              append_item (items_of settled_json turns)
                (turn_json turn.text turn.calls (h.native_is i)));
        })

    pub History-IsHistory :
        {turns : List Turn} {request : GenerateIntent} {state : Fields}
        → All (ReadsImages p) intent.messages
        → History turns request state
        → IsHistory turns request state
    History-IsHistory images (opened {state = state} h) = first_state-IsHistory state h
    History-IsHistory images
          (resumed_with {turns = turns} {request = request} {following = following} {state = state}
            {after = after} turn artifact before pending resumes) =
        let so_far = History-IsHistory images before in
        let first = first_json so_far.messages intent in
        let shape = IsPending-artifact turns request state turn artifact so_far pending in
        let (read, after_is) =
          resume_generation-ok p row artifact turn.results so_far.digest first
            (items_of settled_json turns) (turn_json turn.text turn.calls turn.native_payload)
            following after (ap (λ a. ContinuationArtifact.opaque_payload a) shape) resumes in
        let settled = append_item-items_of settled_json turns turn in
        let read_settled : read_generation p intent.target row.continuation_codec (obj first)
              (items_of settled_json (turns ++ turn ∷ []))
            ≡ ok following =
          (λ i.
            read_generation p (ContinuationArtifact.target (sym shape i)) row.continuation_codec
              (obj first) (sym settled i))
          ∙ read in
        record {
          messages = so_far.messages;
          digest = so_far.digest;
          written = so_far.written;
          fingerprint = so_far.fingerprint;
          state_is = after_is ∙ ap (λ vs. state_json so_far.digest first vs) settled;
          request_is =
              read_generation-ok p row.continuation_codec intent following so_far.messages
                (turns ++ turn ∷ []) images so_far.written read_settled;
        }

    -- However often a generation is sealed with pending tool calls and resumed with their results, the
    -- request that is sent next is the first one with the messages of the turns, in their order: the
    -- assistant's with its native continuation, then the results. The images of the first request are
    -- assumed to be read back from their base64 text.
    pub History-request :
        (turns : List Turn) (request : GenerateIntent) (state : Fields)
        → All (ReadsImages p) intent.messages
        → History turns request state
        → request ≡ with_turns row.continuation_codec intent turns
    History-request turns request state images history =
        let invariant = History-IsHistory images history in invariant.request_is
