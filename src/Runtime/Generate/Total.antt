-- ===== src/Runtime/Generate/Total.antt =====
-- `_generate_outcome` is total: it ends in one terminal outcome, or with an engine's own defect.
use mathlib.Core.Path.{subst}
use llm_calling.Base.{
  ℕ, suc, ◌≤◌, ◌≡◌, refl, sym, ap, ◌∙◌, ◌⊎◌, inl, inr, ◌&&◌, Option, none, some, [], ◌∷◌, ◌++◌,
  arith, Option-cases, if_either, length, length-append, ok, err, ok-injective,
}
use llm_calling.Contract.{Defect}
use llm_calling.Contract.Outcome.{
  final_attempt, AttemptRecord, Billability, possibly_billable, transient_exhausted, cancelled,
  failed, CallOutcome,
}
use llm_calling.Registry.{ModelRow}
use llm_calling.Registry.Rows.{one}
use llm_calling.Retry.{RetryPolicy, Step, Ending, returned, raised, exhausted, drive}
use llm_calling.Retry.Loop.{BodyKeeps, EndKeeps, drive_inv}
use llm_calling.Runtime.{
  billability_rank, fold_billability, renumber, absorbed, runtime_meta, CallState, start_state,
  exhaust, cancel_call,
}
use llm_calling.Runtime.Generate.{
  Reply, answered, transient_failure, engine_raises, World, finish_with, go_on, settle, round,
  conclude, generate_outcome,
}
use llm_calling.Runtime.Generate.Invariant.{
  Before, IsTerminal, FromEngine, IsMonotone, OneRecord, start-Before, new_record, add_record-ok,
  note_failure-Before,
}
use llm_calling.Runtime.Trace.{
  IsNumbered, EndsFinal, IsNumbered-append, EndsFinal-append, finalize_last-ok,
  fold_billability-left, race_cancel-cases, absent-some,
}

module _ (world : World) where
  -- A terminal whose trace is the one before attempt `n` with the final record of that attempt.
  closed-IsTerminal :
      (max n : ℕ) (s : CallState) (r : AttemptRecord) (o : CallOutcome)
      → n ≤ max
      → Before world n s
      → r.attempt ≡ n
      → r.signal ≡ final_attempt
      → o.meta.attempt_trace ≡ s.trace ++ r ∷ []
      → billability_rank s.billability ≤ billability_rank o.meta.billability
      → IsTerminal world max o
  closed-IsTerminal max n s r o le b number final same billed =
      let grown : length o.meta.attempt_trace ≡ n =
        ap length same ∙ length-append s.trace (r ∷ []) ∙ omega (arith, b.count) in
      record {
        numbered =
            subst (IsNumbered 1) (sym same) (
              IsNumbered-append 1 s.trace (r ∷ []) b.numbered (omega (arith, number, b.count), tt));
        some_attempt = omega (arith, grown, b.count);
        within = omega (arith, grown);
        one_final = subst EndsFinal (sym same) (EndsFinal-append s.trace r b.pending final);
        billed = λ k f low high q.
            omega (arith, billed, b.billed k f low (omega (arith, high, grown)) q);
      }

  absorbed-IsTerminal :
      OneRecord world
      → (max n : ℕ) (s : CallState) (o : CallOutcome) → n ≤ max
      → Before world n s
      → (world.reply n).result ≡ answered o
      → IsTerminal world max (absorbed o s.trace s.billability)
  unfolding absorbed renumber
  absorbed-IsTerminal one max n s o le b e =
      let (r, whole, final) = one n o e in
      closed-IsTerminal max n s (record r { attempt = suc (length s.trace) })
        (absorbed o s.trace s.billability) le b b.count final
        (ap (λ rs. s.trace ++ renumber (length s.trace) rs) whole)
        (fold_billability-left s.billability o.meta.billability)

  module _ (row : ModelRow) (monotone : IsMonotone world) where
    cancel_call-IsTerminal :
        (max n : ℕ) (s : CallState) (billability : Billability)
        → 1 ≤ n
        → n ≤ max
        → Before world n s
        → billability_rank s.billability ≤ billability_rank billability
        → (o : CallOutcome) × (cancel_call row world.clock n
              (record s { billability = billability })
            ≡ ok o)
          × IsTerminal world max o
    unfolding cancel_call runtime_meta
    cancel_call-IsTerminal max n s billability from_one le b billed =
        let r = new_record world monotone n final_attempt none in
        let e =
          add_record-ok world monotone n final_attempt none (record s { billability = billability })
            from_one in
        let o : CallOutcome = record {
          meta = runtime_meta row (s.trace ++ r ∷ []) billability s.last_request_id;
          arm = cancelled;
        } in
        (o, rw e, closed-IsTerminal max n s r o le b refl refl refl billed)

    abbrev Keeps : (max n : ℕ) → Step CallState CallOutcome → Type 0
    Keeps max = BodyKeeps (Before world) (IsTerminal world max) (FromEngine world)

    cancelled-Keeps :
        (max n : ℕ) (s : CallState) (billability : Billability)
        → 1 ≤ n
        → n ≤ max
        → Before world n s
        → billability_rank s.billability ≤ billability_rank billability
        → Keeps max n
            (finish_with (cancel_call row world.clock n (record s { billability = billability })))
    cancelled-Keeps max n s billability from_one le b billed =
        let (o, e, t) = cancel_call-IsTerminal max n s billability from_one le b billed in
        subst (λ x. Keeps max n (finish_with x)) (sym e) t

    replied-Keeps :
        OneRecord world
        → (max n : ℕ) (s : CallState) (reply : Reply) → 1 ≤ n
        → n ≤ max
        → Before world n s
        → (world.reply n).result ≡ reply
        → Keeps max n (settle world row n s (some reply))
    unfolding settle
    replied-Keeps one max n s (answered o) from_one le b e =
        absorbed-IsTerminal one max n s o le b e
    replied-Keeps one max n s (transient_failure failure) from_one le b e =
        let (s', q, after) = note_failure-Before world monotone n failure s from_one e b in
        subst (λ x. Keeps max n (go_on failure.cause x)) (sym q) after
    replied-Keeps one max n s (engine_raises d) from_one le b e = (n, e)

    settle-Keeps :
        OneRecord world
        → (max n : ℕ) (s : CallState) → 1 ≤ n
        → n ≤ max
        → Before world n s
        → (race : Option Reply) → (race ≡ none) ⊎ (race ≡ some (world.reply n).result)
        → Keeps max n (settle world row n s race)
    unfolding settle
    settle-Keeps one max n s from_one le b race (inl h) =
        subst (λ x. Keeps max n (settle world row n s x)) (sym h)
          (cancelled-Keeps max n s (fold_billability s.billability possibly_billable) from_one le b
            (fold_billability-left s.billability possibly_billable))
    settle-Keeps one max n s from_one le b race (inr h) =
        subst (λ x. Keeps max n (settle world row n s x)) (sym h)
          (replied-Keeps one max n s (world.reply n).result from_one le b refl)

    round-Keeps :
        OneRecord world
        → (max n : ℕ) (s : CallState) → 1 ≤ n
        → n ≤ max
        → Before world n s
        → Keeps max n (round world row n s)
    unfolding round
    round-Keeps one max n s from_one le b =
        if_either (Keeps max n) (world.has_cancel && world.is_set n) _ _
          (cancelled-Keeps max n s s.billability from_one le b (omega arith))
          (settle-Keeps one max n s from_one le b _
            (race_cancel-cases world.has_cancel (world.reply n)))

    exhaust-IsTerminal :
        (max n : ℕ) (s : CallState)
        → 1 ≤ n
        → n ≤ max
        → Before world (suc n) s
        → (o : CallOutcome) × (exhaust row s ≡ ok o) × IsTerminal world max o
    unfolding exhaust runtime_meta
    exhaust-IsTerminal max n s from_one le b =
        let (ys, e, numbered, same, final) =
          finalize_last-ok 1 s.trace (omega (arith, b.count)) b.numbered b.pending in
        elim (Option-cases s.last_cause) [
          | inl h ↦ absurd (absent-some s.last_cause h (b.caused (omega (arith, b.count))))
          | inr (cause, h) ↦
              let o : CallOutcome = record {
                meta = runtime_meta row ys s.billability s.last_request_id;
                arm = failed (transient_exhausted (length ys) cause);
              } in
              (
                o,
                rw (h, e),
                record {
                  numbered = numbered;
                  some_attempt = omega (arith, same, b.count);
                  within = omega (arith, same, b.count);
                  one_final = final;
                  billed = λ k f low high q. b.billed k f low (omega (arith, same, b.count)) q;
                },
              )
        ]

    -- A call ends in a terminal outcome, or with a defect of an engine.
    abbrev pub Ends : RetryPolicy → Type 0
    Ends policy =
        ((o : CallOutcome) × (generate_outcome world row policy ≡ ok o)
          × IsTerminal world policy.max_attempts o)
        ⊎ ((d : Defect) × (generate_outcome world row policy ≡ err d) × FromEngine world d)

    -- A call with at least one attempt allowed ends in a terminal outcome, or with a defect that an
    -- engine raised, never with an error of the runtime's own. The outcome's records are numbered
    -- from 1 with no gap, at least one and at most the attempts allowed; the last one alone is
    -- final; and its billability is at least that of every earlier failed attempt. It is assumed
    -- that the clock does not run backwards within an attempt, and that an engine's outcome has the
    -- one final record of its attempt.
    pub generate_outcome-IsTerminal :
        OneRecord world → (policy : RetryPolicy) → 1 ≤ policy.max_attempts → Ends policy
    unfolding generate_outcome
    generate_outcome-IsTerminal one policy room =
        ends policy.max_attempts (drive policy world.timing (round world row) start_state).ending (
          drive_inv policy world.timing (round world row) (Before world)
            (IsTerminal world policy.max_attempts) (FromEngine world)
            (round-Keeps one policy.max_attempts) start_state room (start-Before world))
      where
        ends :
            (max : ℕ) (e : Ending CallState CallOutcome)
            → EndKeeps (Before world) (IsTerminal world max) (FromEngine world) max e
            → ((o : CallOutcome) × (conclude world row e ≡ ok o) × IsTerminal world max o)
              ⊎ ((d : Defect) × (conclude world row e ≡ err d) × FromEngine world d)
        ends max (returned o) h = inl (o, refl, h)
        ends max (raised d) h = inr (d, refl, h)
        ends max (exhausted s) h =
            let (n, from_one, le, b) = h in inl (exhaust-IsTerminal max n s from_one le b)

    -- An outcome that is returned is the one that is meant.
    pub returned-IsTerminal :
        (policy : RetryPolicy) (o : CallOutcome)
        → Ends policy
        → generate_outcome world row policy ≡ ok o
        → IsTerminal world policy.max_attempts o
    returned-IsTerminal policy o (inl (made, e, t)) h =
        let same : made ≡ o = ok-injective (sym e ∙ h) in
        subst (IsTerminal world policy.max_attempts) same t
    returned-IsTerminal policy o (inr (d, e, t)) h = cc
