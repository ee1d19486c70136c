-- ===== src/Runtime/Generate/Invariant.antt =====
-- What holds between the attempts of a call.
use mathlib.Core.Path.{subst}
use llm_calling.Base.{
  ℕ, suc, ◌≤◌, ◌<◌, ◌≡◌, refl, inl, inr, true, [], ◌∷◌, ◌++◌, arith, is_some, lt_suc-cases, length,
  length-append, All, All-append, ok,
}
use llm_calling.Contract.{Presence, Defect}
use llm_calling.Contract.Outcome.{
  AttemptSignal, transient, final_attempt, AttemptRecord, CallOutcome,
}
use llm_calling.Runtime.{
  TransientAttempt, billability_rank, fold_billability, CallState, start_state, add_record,
  note_failure,
}
use llm_calling.Runtime.Generate.{answered, transient_failure, engine_raises, World}
use llm_calling.Runtime.Trace.{
  IsNumbered, IsTransient, EndsFinal, IsNumbered-append, fold_billability-left,
  fold_billability-right,
}

module _ (world : World) where
  -- The state before attempt `n`.
  pub record Before (n : ℕ) (s : CallState) : Type 0 where
    pub numbered : IsNumbered 1 s.trace
    pub count : suc (length s.trace) ≡ n
    pub pending : All IsTransient s.trace
    pub caused : 1 ≤ length s.trace → is_some s.last_cause ≡ true
    pub billed :
        (k : ℕ) (failure : TransientAttempt)
        → 1 ≤ k
        → k < n
        → (world.reply k).result ≡ transient_failure failure
        → billability_rank failure.billability ≤ billability_rank s.billability

  -- A terminal outcome: its records are numbered from 1 on, there is at least one and at most `max`,
  -- the last one alone is final, and it is at least as billable as every attempt before the last.
  pub record IsTerminal (max : ℕ) (o : CallOutcome) : Type 0 where
    pub numbered : IsNumbered 1 o.meta.attempt_trace
    pub some_attempt : 1 ≤ length o.meta.attempt_trace
    pub within : length o.meta.attempt_trace ≤ max
    pub one_final : EndsFinal o.meta.attempt_trace
    pub billed :
        (k : ℕ) (failure : TransientAttempt)
        → 1 ≤ k
        → k < length o.meta.attempt_trace
        → (world.reply k).result ≡ transient_failure failure
        → billability_rank failure.billability ≤ billability_rank o.meta.billability

  -- What raises: an engine, and nothing of the runtime's own.
  abbrev pub FromEngine : Defect → Type 0
  FromEngine d = (n : ℕ) × ((world.reply n).result ≡ engine_raises d)

  -- The millisecond clock does not run backwards during an attempt.
  abbrev pub IsMonotone : Type 0
  IsMonotone = (n : ℕ) → world.clock.started n ≤ world.clock.ended n

  -- The engines' side of the contract: an outcome comes with the one record of its attempt.
  abbrev pub OneRecord : Type 0
  OneRecord =
      (n : ℕ) (o : CallOutcome)
      → (world.reply n).result ≡ answered o
      → (r : AttemptRecord) × (o.meta.attempt_trace ≡ r ∷ []) × (r.signal ≡ final_attempt)

  pub start-Before : Before 1 start_state
  start-Before = record {
    numbered = tt;
    count = refl;
    pending = tt;
    caused = λ h. absurd (omega arith);
    billed = λ k failure h l e. absurd (omega arith);
  }

  module _ (monotone : IsMonotone) where
    -- The record that an attempt appends.
    abbrev pub new_record : ℕ → AttemptSignal → Presence ℕ → AttemptRecord
    new_record n signal status = record {
      attempt = n;
      signal = signal;
      status_code = status;
      started_at_ms = world.clock.started n;
      ended_at_ms = world.clock.ended n;
    }

    pub add_record-ok :
        (n : ℕ) (signal : AttemptSignal) (status : Presence ℕ) (s : CallState)
        → 1 ≤ n
        → add_record world.clock n signal status s
          ≡ ok (record s { trace = s.trace ++ new_record n signal status ∷ [] })
    unfolding add_record
    add_record-ok n signal status s h = ground (arith, monotone n)

    billed_after :
        (n : ℕ) (failure : TransientAttempt) (s : CallState)
        → (world.reply n).result ≡ transient_failure failure
        → Before n s
        → (k : ℕ) (f : TransientAttempt) → 1 ≤ k
        → k < suc n
        → (world.reply k).result ≡ transient_failure f
        → billability_rank f.billability
          ≤ billability_rank (fold_billability s.billability failure.billability)
    billed_after n failure s e b k f low high q = elim (lt_suc-cases k n high) [
      | inl before ↦ omega (
        arith,
        b.billed k f low before q,
        fold_billability-left s.billability failure.billability,
      )
      | inr here ↦
          let moved : (world.reply n).result ≡ transient_failure f =
            subst (λ i. (world.reply i).result ≡ transient_failure f) here q in
          let same : failure ≡ f = cc in
          subst
            (λ g.
              billability_rank g.billability
              ≤ billability_rank (fold_billability s.billability failure.billability))
            same (fold_billability-right s.billability failure.billability)
    ]

    -- What holds after an attempt that failed with a retryable cause.
    pub note_failure-Before :
        (n : ℕ) (failure : TransientAttempt) (s : CallState)
        → 1 ≤ n
        → (world.reply n).result ≡ transient_failure failure
        → Before n s
        → (s' : CallState) × (note_failure world.clock n failure s ≡ ok s') × Before (suc n) s'
    unfolding note_failure
    note_failure-Before n failure s from_one e b =
        let r = new_record n (transient failure.cause) failure.status_code in
        let grown : length (s.trace ++ r ∷ []) ≡ suc (length s.trace) =
          omega (arith, length-append s.trace (r ∷ [])) in
        (
          _,
          add_record-ok n (transient failure.cause) failure.status_code _ from_one,
          record {
            numbered = IsNumbered-append 1 s.trace (r ∷ []) b.numbered (omega (arith, b.count), tt);
            count = omega (arith, grown, b.count);
            pending = All-append IsTransient s.trace (r ∷ []) b.pending ((failure.cause, refl), tt);
            caused = λ h. refl;
            billed = λ k f low high q. billed_after n failure s e b k f low high q;
          },
        )
