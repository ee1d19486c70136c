-- ===== src/Runtime/Stream/Whole.antt =====
-- `stream` as a whole: the gates and the events.
use mathlib.Core.Path.{subst}
use llm_calling.Base.{
  ◌≤◌, String, ◌≡◌, ap, ◌∙◌, true, Option, some, is_some, ok, >>=-eq-ok, ok-injective,
}
use llm_calling.Contract.{ProviderName}
use llm_calling.Contract.Request.{GenerateIntent, ProviderRequest}
use llm_calling.Platform.{Platform}
use llm_calling.Registry.{ModelRow}
use llm_calling.Registry.Resolve.{resolve_target}
use llm_calling.Retry.{RetryPolicy}
use llm_calling.Runtime.Gates.{
  Credentials, ProviderCredential, credential, Urls, dispatch_row, Accepts,
}
use llm_calling.Runtime.Prepare.{Prepared, prepare, request_target, prepare-ok, optionally-some}
use llm_calling.Runtime.Stream.{StreamWorld, Closed, stream_prepared, stream}
use llm_calling.Runtime.Stream.Envelope.{IsEnveloped}
use llm_calling.Runtime.Stream.Order.{stream_events-IsEnveloped}

module _ (p : Platform) (urls : Urls) (overrides : ProviderName → Option String)
    (credentials : Credentials) (policy : RetryPolicy)
    (world : GenerateIntent → ModelRow → ProviderCredential → StreamWorld) where
  -- What is behind a stream: a row of the registry that accepts the intent that is sent for
  -- streaming, and a credential of its provider; and the envelope of its events.
  pub record IsStream (request : ProviderRequest) (c : Closed) : Type 0 where
    pub prepared : Prepared
    pub key : ProviderCredential
    pub prepared_by : prepare p request true ≡ ok (some prepared)
    pub resolved : resolve_target (request_target request) ≡ ok prepared.row
    pub accepted_by : Accepts prepared.row prepared.intent true
    pub authorized : credential credentials prepared.row.provider ≡ ok key
    pub enveloped : IsEnveloped c

  -- A stream that is handed out, for a fresh request or a continuation, has resolved its target to a
  -- row that accepts the intent that is sent and can stream, has a credential of its provider, and its
  -- events are enveloped (`IsEnveloped`). At least one attempt is allowed.
  pub stream-IsStream :
      1 ≤ policy.max_attempts
      → (request : ProviderRequest) (c : Closed)
      → stream p urls overrides credentials policy world request ≡ ok (some c)
      → IsStream request c
  unfolding stream stream_prepared
  stream-IsStream room request c h =
      let (prepared, e, h₁) = >>=-eq-ok (prepare p request true) _ h in
      let (q, is_some, called) =
        optionally-some (stream_prepared p urls overrides credentials policy world) prepared c h₁ in
      let prepared_by = e ∙ ap ok is_some in
      let (resolved, accepts) = prepare-ok p request true q prepared_by in
      let (key, authorized, h₂) = >>=-eq-ok (credential credentials q.row.provider) _ called in
      let row = dispatch_row urls q.row overrides in
      record {
        prepared = q;
        key = key;
        prepared_by = prepared_by;
        resolved = resolved;
        accepted_by = accepts;
        authorized = authorized;
        enveloped = subst IsEnveloped (ok-injective h₂) (
            stream_events-IsEnveloped p (world q.intent row key) q.row row q.intent q.state policy
              room);
      }
