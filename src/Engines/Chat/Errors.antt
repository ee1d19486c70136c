-- ===== src/Engines/Chat/Errors.antt =====
-- What an error of the provider means: a value, a transient attempt or a defect. The text of the
-- messages is left out. Also `transient_connection` (engines/_openai_common.py).
use Prim.Native.Char.{code}
use llm_calling.Base.{
  ℕ, String, Bool, true, false, ◌&&◌, ◌||◌, Option, none, some, List, leb, ◌==◌, if◌then◌else◌,
  is_some, any, Result, ok, err, ◌>>=◌, str_append, contains,
}
use llm_calling.Base.Int.{ℤ, pos, leb_ℤ, eq_ℤ}
use llm_calling.Continuation.{is_str, mapping_of}
use llm_calling.Contract.{
  Presence, unparseable_error_body, inband_provider_error, credential_rejected, quota_exhausted,
  unclassified_provider_error, value_error,
}
use llm_calling.Contract.Outcome.{
  TransientCause, provider_rate_limit, provider_timeout, provider_http_unavailable,
  transport_unavailable, Billability, not_dispatched, possibly_billable, ExpectedModelFailure,
  provider_context_too_large,
}
use llm_calling.Engines.{
  Fault, transient_fault, defect_fault, protocol_fault, str_or_none, or_empty,
}
use llm_calling.Json.{Json, int, Fields, get}
use llm_calling.Platform.{Platform}
use llm_calling.Runtime.{TransientAttempt}

-- The attributes of `openai.APIStatusError`; the retry-after header is read already.
pub record StatusError : Type 0 where
  pub status : ℕ
  pub body : Option Json
  pub request_id : Option String
  pub retry_after : Presence ℕ

-- What is raised instead of the one value, a context overflow.
abbrev transient_status : TransientCause → StatusError → Fault
transient_status cause e = transient_fault (record {
  cause = cause;
  status_code = some e.status;
  provider_request_id = e.request_id;
  billability = possibly_billable;
})

-- The causes of an exception, nearest first, as far as the source tells them apart.
pub data Cause : Type 0 where
  connect_timeout connect_error other_cause : Cause

abbrev is_connect_timeout : Cause → Bool
is_connect_timeout connect_timeout = true
is_connect_timeout _ = false

abbrev is_connect_error : Cause → Bool
is_connect_error connect_error = true
is_connect_error _ = false

-- `openai.APIConnectionError`, which a timeout is a case of.
pub record ConnectionError : Type 0 where
  pub is_timeout : Bool
  pub causes : List Cause

abbrev billed_unless : Bool → Billability
billed_unless true = not_dispatched
billed_unless false = possibly_billable

-- `transient_connection`: no byte was sent if the connection was never made.
unfoldable pub transient_connection : ConnectionError → TransientAttempt
transient_connection e = record {
  cause = if e.is_timeout then provider_timeout else transport_unavailable;
  status_code = none;
  provider_request_id = none;
  billability =
      billed_unless
        (if e.is_timeout then any is_connect_timeout e.causes else any is_connect_error e.causes);
}

-- `body.get("error")` where it is a mapping, and the body otherwise.
abbrev nested_error : Option Fields → Option Fields
nested_error none = none
nested_error (some body) = elim (mapping_of (get "error" body)) [
  | none ↦ some body
  | some inner ↦ some inner
]

abbrev text_at_key : String → Fields → String
text_at_key key fs = or_empty (str_or_none (get key fs))

unfoldable pub mentions_quota : Option Fields → Bool
mentions_quota none = false
mentions_quota (some error) =
    contains "quota" (str_append (text_at_key "type" error) (text_at_key "code" error))

module _ (p : Platform) where
  unfoldable pub is_context_overflow : Option Fields → Bool
  is_context_overflow none = false
  is_context_overflow (some error) =
      let message = p.lower (text_at_key "message" error) in
      is_str "context_length_exceeded" (get "code" error)
      || contains "context length" message
      || contains "token limit" message
      || contains "maximum context" message

  unfoldable pub classify_status : StatusError → Result Fault ExpectedModelFailure
  classify_status e =
      let body = mapping_of e.body in
      let error = nested_error body in
      if e.status == 401 || e.status == 403
      then err (defect_fault credential_rejected)
      else (if e.status == 402 || mentions_quota error
          then err (defect_fault quota_exhausted)
          else (if e.status == 429
              then err (transient_status (provider_rate_limit e.retry_after) e)
              else (if leb 500 e.status
                  then err (transient_status provider_http_unavailable e)
                  else (if is_context_overflow error
                      then ok provider_context_too_large
                      else (if is_some body
                          then err (defect_fault unclassified_provider_error)
                          else err (protocol_fault unparseable_error_body))))))

  abbrev parsed_digits : Option ℤ → Result Fault (Option ℤ)
  parsed_digits none = err (defect_fault value_error)
  parsed_digits (some n) = ok (some n)

  -- The code of an in-band error: a number, or digits. `int` may still refuse what `isdigit` takes.
  abbrev text_code : Option String → Result Fault (Option ℤ)
  text_code none = ok none
  text_code (some digits) = if p.is_digit digits then parsed_digits (p.to_int digits) else ok none

  abbrev inband_code : Option Json → Result Fault (Option ℤ)
  inband_code (some (int n)) = ok (some n)
  inband_code raw = text_code (str_or_none raw)

  abbrev inband_cause : Option ℤ → Result Fault TransientCause
  inband_cause none = ok provider_http_unavailable
  inband_cause (some code) =
      if eq_ℤ code (pos 429)
      then ok (provider_rate_limit none)
      else (if leb_ℤ (pos 400) code && leb_ℤ code (pos 499)
          then err (protocol_fault inband_provider_error)
          else ok provider_http_unavailable)

  abbrev raw_code : Option Fields → Option Json
  raw_code none = none
  raw_code (some error) = get "code" error

  unfoldable pub classify_inband_error : Option Json → Result Fault TransientCause
  classify_inband_error error = inband_code (raw_code (mapping_of error)) >>= inband_cause
