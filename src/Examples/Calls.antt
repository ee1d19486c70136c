-- ===== src/Examples/Calls.antt =====
-- A call whose first attempt times out and whose second succeeds.
use mathlib.Core.Path.{subst}
use llm_calling.Base.{
  ℕ, zero, suc, ◌≡◌, refl, true, false, Option, none, [], ◌∷◌, arith, Result, str_length, is_ascii,
}
use llm_calling.Continuation.{canonical_json_bytes}
use llm_calling.Continuation.Generation.{
  fingerprint_fields, model_labels, fingerprint, row_fingerprint, first_state, preflight_generation,
}
use llm_calling.Continuation.Seal.{seal_generation}
use llm_calling.Contract.{Defect, credential_rejected}
use llm_calling.Contract.Outcome.{final_attempt, AttemptRecord, attempt_record, CallOutcome}
use llm_calling.Contract.Request.{fresh}
use llm_calling.Examples.{
  toy_platform, quick, ticking, flash_row, hello, answer, timeout, plain_urls, one_key, from_some,
}
use llm_calling.Json.{null, freeze_at, freeze_json_value, freeze_json_object, thaw, thaw_json_value}
use llm_calling.Registry.Resolve.{resolve_target}
use llm_calling.Registry.Rows.{rows}
use llm_calling.Retry.{
  default_retry, exceeds_retry_after_cap, backoff, delay, deadline_exhausted, advance, verdict,
  drive_from, drive,
}
use llm_calling.Runtime.{
  billability_rank, fold_billability, renumber, absorbed, add_record, note_failure, both_done,
  race_cancel,
}
use llm_calling.Runtime.Gates.{row_reasoning, validate_intent, credential, dispatch_row}
use llm_calling.Runtime.Generate.{
  Reply, answered, transient_failure, engine_raises, World, settle, round, generate_outcome,
  seal_outcome, generate_prepared, generate,
}
use llm_calling.Runtime.Generate.Invariant.{OneRecord}
use llm_calling.Runtime.Generate.Total.{Ends, generate_outcome-IsTerminal}
use llm_calling.Runtime.Generate.Whole.{IsOutcome, generate-IsOutcome}
use llm_calling.Runtime.Prepare.{prepare_fresh, prepare}

abbrev reply : ℕ → Reply
reply zero = engine_raises credential_rejected
reply (suc zero) = transient_failure timeout
reply (suc (suc n)) = answered answer

abbrev world : World
world = record {
  timing = quick;
  clock = ticking;
  has_cancel = true;
  is_set = λ _. false;
  reply = λ n. record { result = reply n; first = both_done };
}

world-OneRecord : OneRecord world
world-OneRecord n o h = go n h
  where
    go :
        (n : ℕ)
        → reply n ≡ answered o
        → (r : AttemptRecord) × (o.meta.attempt_trace ≡ r ∷ []) × (r.signal ≡ final_attempt)
    go zero e = cc
    go (suc zero) e = cc
    go (suc (suc n)) e =
        let same : answer ≡ o = cc in
        subst
          (λ (x : CallOutcome).
            (r : AttemptRecord) × (x.meta.attempt_trace ≡ r ∷ []) × (r.signal ≡ final_attempt))
          same (_, refl, refl)

generate_outcome-IsTerminal_example : Ends world flash_row (λ n. omega arith) default_retry
generate_outcome-IsTerminal_example =
    generate_outcome-IsTerminal world flash_row (λ n. omega arith) world-OneRecord default_retry
      (omega arith)

abbrev whole_call : Result Defect (Option CallOutcome)
whole_call =
    generate (toy_platform null) plain_urls (λ _. none) one_key default_retry
      (λ intent row key. world) (fresh hello)

generate-IsOutcome_example :
    IsOutcome
      (toy_platform null)
      plain_urls
      (λ _. none)
      one_key
      default_retry
      (λ intent row key. world)
      (fresh hello)
      (from_some answer whole_call)
unfolding generate generate_prepared prepare prepare_fresh resolve_target rows validate_intent
    row_reasoning str_length is_ascii preflight_generation first_state row_fingerprint fingerprint
    freeze_json_object freeze_json_value freeze_at thaw_json_value thaw canonical_json_bytes
    credential dispatch_row generate_outcome drive drive_from verdict advance delay backoff
    deadline_exhausted exceeds_retry_after_cap round settle race_cancel note_failure add_record
    attempt_record fold_billability billability_rank absorbed renumber seal_outcome seal_generation
    model_labels fingerprint_fields
generate-IsOutcome_example =
    generate-IsOutcome (toy_platform null) plain_urls (λ _. none) one_key default_retry
      (λ intent row key. world) (λ i row key n. omega arith) (λ i row key. world-OneRecord)
      (omega arith) (fresh hello) (from_some answer whole_call) refl
