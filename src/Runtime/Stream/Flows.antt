-- ===== src/Runtime/Stream/Flows.antt =====
-- What holds while the events of a stream are sent.
use llm_calling.Base.{
  ℕ, ◌≡◌, refl, ap, true, false, none, arith, true-ne-false, if_known, All, All-append, Result, ok,
  err, ◌>>=◌, Ensures,
}
use llm_calling.Contract.{Defect}
use llm_calling.Contract.Outcome.{final_attempt, CallOutcome}
use llm_calling.Contract.Stream.{CodecStreamEvent, stream_start}
use llm_calling.Registry.{ModelRow}
use llm_calling.Retry.{Step}
use llm_calling.Retry.Loop.{BodyKeeps}
use llm_calling.Runtime.{CallState, Clock, add_record, cancel_call}
use llm_calling.Runtime.Stream.{Progress, start_progress, Closed, envelope, forward_start}
use llm_calling.Runtime.Stream.Envelope.{
  is_terminal, is_start, IsStart, one_if, starts, NotRefused, IsEnveloped, IsOpen, starts-envelope,
  envelope-IsOpen,
}

-- What holds while an engine's stream is read.
pub record Flows (s : Progress) : Type 0 where
  pub opened : IsOpen s
  pub fresh_start : s.start_forwarded ≡ false → starts s.sent ≡ 0
  pub silent : s.semantic_forwarded ≡ false → All IsStart s.sent

-- What holds before an attempt: nothing but stream starts was sent.
pub record IsIdle (s : Progress) : Type 0 where
  pub flows : Flows s
  pub quiet : s.semantic_forwarded ≡ false

abbrev pub Keeps : ℕ → Step Progress Closed → Type 0
Keeps = BodyKeeps (λ n s. IsIdle s) IsEnveloped (λ d. ⊥)

pub start-IsIdle : IsIdle start_progress
start-IsIdle = record {
  flows = record {
    opened = record { sequenced = tt; counted = refl; unended = tt; one_start = omega arith };
    fresh_start = λ e. refl;
    silent = λ e. tt;
  };
  quiet = refl;
}

-- To send an event of semantic output.
pub envelope-Flows :
    (event : CodecStreamEvent) (s : Progress)
    → Flows s
    → is_terminal event ≡ false
    → is_start event ≡ false
    → Flows (envelope event (record s { semantic_forwarded = true }))
unfolding envelope
envelope-Flows event s h unended no_start =
    let u : Progress = record s { semantic_forwarded = true } in
    let o : IsOpen u = record {
      sequenced = h.opened.sequenced;
      counted = h.opened.counted;
      unended = h.opened.unended;
      one_start = h.opened.one_start;
    } in
    let none_more : one_if (is_start event) ≡ 0 = ap one_if no_start in
    record {
      opened = envelope-IsOpen event u o unended (omega (arith, none_more, h.opened.one_start));
      fresh_start = λ e. omega (arith, starts-envelope event u, none_more, h.fresh_start e);
      silent = λ e. absurd (true-ne-false e);
    }

pub semantic-Flows : (s : Progress) → Flows s → Flows (record s { semantic_forwarded = true })
semantic-Flows s h = record {
  opened = record {
    sequenced = h.opened.sequenced;
    counted = h.opened.counted;
    unended = h.opened.unended;
    one_start = h.opened.one_start;
  };
  fresh_start = h.fresh_start;
  silent = λ e. absurd (true-ne-false e);
}

sent_start-Flows :
    (s : Progress)
    → Flows s
    → s.start_forwarded ≡ false
    → Flows (envelope stream_start (record s { start_forwarded = true }))
unfolding envelope
sent_start-Flows s h e =
    let u : Progress = record s { start_forwarded = true } in
    let o : IsOpen u = record {
      sequenced = h.opened.sequenced;
      counted = h.opened.counted;
      unended = h.opened.unended;
      one_start = h.opened.one_start;
    } in
    record {
      opened = envelope-IsOpen stream_start u o refl (omega (arith, h.fresh_start e));
      fresh_start = λ q. absurd (true-ne-false q);
      silent = λ q. All-append IsStart s.sent _ (h.silent q) (refl, tt);
    }

pub forward_start-Flows : (s : Progress) → Flows s → Flows (forward_start s)
unfolding forward_start
forward_start-Flows s h =
    if_known Flows s.start_forwarded _ _ (λ e. h) (λ e. sent_start-Flows s h e)

-- An outcome that the runtime makes itself.
pub made-NotRefused :
    {A : Type 0} (r : Result Defect A) (make : A → CallOutcome)
    → ((a : A) → NotRefused (make a))
    → Ensures NotRefused (r >>= λ a. ok (make a))
made-NotRefused (ok a) make h = h a
made-NotRefused (err d) make h = tt

pub cancel_call-NotRefused :
    (row : ModelRow) (clock : Clock) (n : ℕ) (s : CallState)
    → Ensures NotRefused (cancel_call row clock n s)
unfolding cancel_call
cancel_call-NotRefused row clock n s =
    made-NotRefused (add_record clock n final_attempt none s) _ (λ s'. tt)
