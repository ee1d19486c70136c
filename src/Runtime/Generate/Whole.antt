-- ===== src/Runtime/Generate/Whole.antt =====
-- `generate` as a whole: the gates, the loop and the sealing.
use mathlib.Core.Path.{subst}
use llm_calling.Base.{
  ℕ, ◌≤◌, String, ◌≡◌, refl, ap, ◌∙◌, false, Option, some, is_some, Result, ok, err, >>=-eq-ok,
}
use llm_calling.Continuation.Seal.{seal_generation}
use llm_calling.Contract.{
  ProviderName, Defect, invalid_request, protocol_defect, credential_rejected, credential_missing,
  registry_invalid, quota_exhausted, unclassified_provider_error, assertion_error, value_error,
  key_error, index_error, type_error, overflow_error,
}
use llm_calling.Contract.Outcome.{
  continuation_too_large, ResponsePayload, Arm, succeeded, refused, incomplete, cancelled, failed,
  CallOutcome,
}
use llm_calling.Contract.Request.{GenerateIntent, ProviderRequest}
use llm_calling.Json.{Fields}
use llm_calling.Platform.{Platform}
use llm_calling.Registry.{ModelRow}
use llm_calling.Registry.Resolve.{resolve_target}
use llm_calling.Retry.{RetryPolicy}
use llm_calling.Runtime.Gates.{
  Credentials, ProviderCredential, credential, Urls, dispatch_row, Accepts,
}
use llm_calling.Runtime.Generate.{
  World, generate_outcome, sealed_outcome, seal_outcome, generate_prepared, generate,
}
use llm_calling.Runtime.Generate.Invariant.{IsTerminal, IsMonotone, OneRecord}
use llm_calling.Runtime.Generate.Total.{generate_outcome-IsTerminal, returned-IsTerminal}
use llm_calling.Runtime.Prepare.{Prepared, prepare, request_target, prepare-ok, optionally-some}

-- Sealing changes nothing but the arm.
sealed_outcome-arm :
    (o o' : CallOutcome) (r : Result Defect ResponsePayload)
    → sealed_outcome o r ≡ ok o'
    → (a : Arm) × (record o { arm = a } ≡ o')
sealed_outcome-arm o o' (ok response) h =
    (succeeded response, (let e : record o { arm = succeeded response } ≡ o' = cc in e))
sealed_outcome-arm o o' (err value_error) h = (
  failed continuation_too_large,
  (let e : record o { arm = failed continuation_too_large } ≡ o' = cc in e),
)
sealed_outcome-arm o o' (err (invalid_request r)) h = cc
sealed_outcome-arm o o' (err (protocol_defect c)) h = cc
sealed_outcome-arm o o' (err credential_rejected) h = cc
sealed_outcome-arm o o' (err (credential_missing n)) h = cc
sealed_outcome-arm o o' (err registry_invalid) h = cc
sealed_outcome-arm o o' (err quota_exhausted) h = cc
sealed_outcome-arm o o' (err unclassified_provider_error) h = cc
sealed_outcome-arm o o' (err assertion_error) h = cc
sealed_outcome-arm o o' (err key_error) h = cc
sealed_outcome-arm o o' (err index_error) h = cc
sealed_outcome-arm o o' (err type_error) h = cc
sealed_outcome-arm o o' (err overflow_error) h = cc

seal_outcome-arm :
    (p : Platform) (row : ModelRow) (intent : GenerateIntent) (state : Fields) (o o' : CallOutcome)
    → seal_outcome p row intent state o ≡ ok o'
    → (a : Arm) × (record o { arm = a } ≡ o')
unfolding seal_outcome
seal_outcome-arm p row intent state o o' h = go o.arm refl h
  where
    go :
        (a : Arm)
        → o.arm ≡ a
        → (elim a [
          | succeeded response ↦ sealed_outcome o (seal_generation p row intent state response)
          | refused _ ↦ ok o
          | incomplete _ _ _ ↦ ok o
          | cancelled ↦ ok o
          | failed _ ↦ ok o
        ]
            ≡ ok o')
        → (b : Arm) × (record o { arm = b } ≡ o')
    go (succeeded response) e q = sealed_outcome-arm o o' _ q
    go (refused t) e q = (o.arm, (let s : o ≡ o' = cc in s))
    go (incomplete a b c) e q = (o.arm, (let s : o ≡ o' = cc in s))
    go cancelled e q = (o.arm, (let s : o ≡ o' = cc in s))
    go (failed f) e q = (o.arm, (let s : o ≡ o' = cc in s))

IsTerminal-arm :
    (world : World) (max : ℕ) (o : CallOutcome) (a : Arm)
    → IsTerminal world max o
    → IsTerminal world max (record o { arm = a })
IsTerminal-arm world max o a h = record {
  numbered = h.numbered;
  some_attempt = h.some_attempt;
  within = h.within;
  one_final = h.one_final;
  billed = h.billed;
}

module _ (p : Platform) (urls : Urls) (overrides : ProviderName → Option String)
    (credentials : Credentials) (policy : RetryPolicy)
    (world : GenerateIntent → ModelRow → ProviderCredential → World) where
  -- What is behind an outcome: a row of the registry that accepts the intent that was sent, a
  -- credential of its provider, and the world in which that row, with its origin overridden, was
  -- called.
  pub record IsOutcome (request : ProviderRequest) (o : CallOutcome) : Type 0 where
    pub prepared : Prepared
    pub key : ProviderCredential
    pub prepared_by : prepare p request false ≡ ok (some prepared)
    pub resolved : resolve_target (request_target request) ≡ ok prepared.row
    pub accepted_by : Accepts prepared.row prepared.intent false
    pub authorized : credential credentials prepared.row.provider ≡ ok key
    pub terminal :
        IsTerminal
          (world prepared.intent (dispatch_row urls prepared.row overrides) key)
          policy.max_attempts
          o

  abbrev Called : Prepared → CallOutcome → Type 0
  Called q o =
      (key : ProviderCredential) × (credential credentials q.row.provider ≡ ok key)
      × IsTerminal (world q.intent (dispatch_row urls q.row overrides) key) policy.max_attempts o

  module _
      (monotone : (i : GenerateIntent) (row : ModelRow) (key : ProviderCredential)
        → IsMonotone (world i row key))
      (single : (i : GenerateIntent) (row : ModelRow) (key : ProviderCredential)
        → OneRecord (world i row key))
      (room : 1 ≤ policy.max_attempts) where
    generate_prepared-Called :
        (q : Prepared) (o : CallOutcome)
        → generate_prepared p urls overrides credentials policy world q ≡ ok o
        → Called q o
    unfolding generate_prepared
    generate_prepared-Called q o h =
        let (key, authorized, h₁) = >>=-eq-ok (credential credentials q.row.provider) _ h in
        let row = dispatch_row urls q.row overrides in
        let (outcome, called, sealed) =
          >>=-eq-ok (generate_outcome (world q.intent row key) row policy) _ h₁ in
        let (a, same) = seal_outcome-arm p q.row q.intent q.state outcome o sealed in
        (
          key,
          authorized,
          subst (IsTerminal (world q.intent row key) policy.max_attempts) same (
              IsTerminal-arm (world q.intent row key) policy.max_attempts outcome a (
                returned-IsTerminal (world q.intent row key) row (monotone q.intent row key) policy
                  outcome
                  (generate_outcome-IsTerminal (world q.intent row key) row
                    (monotone q.intent row key) (single q.intent row key) policy room)
                  called)),
        )

    -- A call of `generate` that returns, for a fresh request or a continuation, has resolved its target
    -- to a row that accepts the intent that was sent, has a credential of its provider, and returns a
    -- terminal outcome with a well-formed trace and billability (`IsTerminal`). At least one attempt is
    -- allowed, no clock runs backwards within an attempt, and an engine's outcome has the one final
    -- record of its attempt.
    pub generate-IsOutcome :
        (request : ProviderRequest) (o : CallOutcome)
        → generate p urls overrides credentials policy world request ≡ ok (some o)
        → IsOutcome request o
    unfolding generate
    generate-IsOutcome request o h =
        let (prepared, e, h₁) = >>=-eq-ok (prepare p request false) _ h in
        let (q, is_some, called) =
          optionally-some (generate_prepared p urls overrides credentials policy world) prepared o
            h₁ in
        let prepared_by = e ∙ ap ok is_some in
        let (resolved, accepts) = prepare-ok p request false q prepared_by in
        let (key, authorized, terminal) = generate_prepared-Called q o called in
        record {
          prepared = q;
          key = key;
          prepared_by = prepared_by;
          resolved = resolved;
          accepted_by = accepts;
          authorized = authorized;
          terminal = terminal;
        }
