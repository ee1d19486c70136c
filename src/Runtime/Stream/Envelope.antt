-- ===== src/Runtime/Stream/Envelope.antt =====
-- The envelope that the runtime puts around events: sequence numbers, one start, one terminal.
use mathlib.Core.Path.{subst}
use llm_calling.Base.{
  ℕ, suc, ◌+◌, ◌≤◌, ◌≡◌, refl, sym, Bool, true, false, none, some, List, [], ◌∷◌, ◌++◌, arith,
  length, length-append, All, All-append, Result, ok, err, Ensures,
}
use llm_calling.Contract.{Presence, stream_refusal_arm, Defect, protocol_defect}
use llm_calling.Contract.Outcome.{
  Arm, succeeded, refused, incomplete, cancelled, failed, CallOutcome,
}
use llm_calling.Contract.Request.{ContinuationArtifact}
use llm_calling.Contract.Stream.{
  CodecStreamEvent, stream_start, continuation_delta, terminal_event, RuntimeStreamEvent,
}
use llm_calling.Runtime.Stream.{
  Progress, Closed, envelope, close_with, with_continuation, deliver_arm, deliver,
}

abbrev pub is_terminal : CodecStreamEvent → Bool
is_terminal (terminal_event _) = true
is_terminal _ = false

abbrev pub is_start : CodecStreamEvent → Bool
is_start stream_start = true
is_start _ = false

-- The sequence numbers count from `k` on, with no gap.
abbrev pub IsSequenced : ℕ → List RuntimeStreamEvent → Type 0
IsSequenced k [] = Unit
IsSequenced k (e ∷ es) = (e.seq ≡ k) × IsSequenced (suc k) es

abbrev pub NotTerminal : RuntimeStreamEvent → Type 0
NotTerminal e = is_terminal e.event ≡ false

abbrev pub IsStart : RuntimeStreamEvent → Type 0
IsStart e = e.event ≡ stream_start

abbrev pub one_if : Bool → ℕ
one_if true = 1
one_if false = 0

-- The number of stream starts.
abbrev pub starts : List RuntimeStreamEvent → ℕ
starts [] = 0
starts (e ∷ es) = one_if (is_start e.event) + starts es

abbrev NotRefusedArm : Arm → Type 0
NotRefusedArm (refused _) = ⊥
NotRefusedArm _ = Unit

abbrev pub NotRefused : CallOutcome → Type 0
NotRefused o = NotRefusedArm o.arm

-- The terminal of the outcome comes last and is the only one; a generator that raised sent none.
abbrev pub EndsWith : List RuntimeStreamEvent → Result Defect CallOutcome → Type 0
EndsWith sent (ok o) =
    (before : List RuntimeStreamEvent) × (n : ℕ) × (sent
      ≡ before ++ record { seq = n; event = terminal_event o } ∷ [])
    × All NotTerminal before
    × NotRefused o
EndsWith sent (err d) = All NotTerminal sent

pub record IsEnveloped (c : Closed) : Type 0 where
  pub sequenced : IsSequenced 1 c.sent
  pub one_start : starts c.sent ≤ 1
  pub ended : EndsWith c.sent c.ending

-- The same, while events are being sent.
pub record IsOpen (s : Progress) : Type 0 where
  pub sequenced : IsSequenced 1 s.sent
  pub counted : length s.sent ≡ s.seq
  pub unended : All NotTerminal s.sent
  pub one_start : starts s.sent ≤ 1

IsSequenced-append :
    (k : ℕ) (xs ys : List RuntimeStreamEvent)
    → IsSequenced k xs
    → IsSequenced (k + length xs) ys
    → IsSequenced k (xs ++ ys)
IsSequenced-append k [] ys hx hy =
    let e : k + 0 ≡ k = omega arith in subst (λ n. IsSequenced n ys) e hy
IsSequenced-append k (x ∷ xs) ys hx hy =
    let e : k + suc (length xs) ≡ suc k + length xs = omega arith in
    (hx.0, IsSequenced-append (suc k) xs ys hx.1 (subst (λ n. IsSequenced n ys) e hy))

starts-append : (xs ys : List RuntimeStreamEvent) → starts (xs ++ ys) ≡ starts xs + starts ys
starts-append [] ys = omega arith
starts-append (x ∷ xs) ys = omega (arith, starts-append xs ys)

IsSequenced-envelope :
    (event : CodecStreamEvent) (s : Progress) → IsOpen s → IsSequenced 1 (envelope event s).sent
unfolding envelope
IsSequenced-envelope event s h =
    IsSequenced-append 1 s.sent _ h.sequenced (omega (arith, h.counted), tt)

pub starts-envelope :
    (event : CodecStreamEvent) (s : Progress)
    → starts (envelope event s).sent ≡ starts s.sent + one_if (is_start event)
unfolding envelope
starts-envelope event s =
    omega (arith, starts-append s.sent (record { seq = suc s.seq; event = event } ∷ []))

-- To send an event that is neither a second start nor a terminal.
pub envelope-IsOpen :
    (event : CodecStreamEvent) (s : Progress)
    → IsOpen s
    → is_terminal event ≡ false
    → starts s.sent + one_if (is_start event) ≤ 1
    → IsOpen (envelope event s)
unfolding envelope
envelope-IsOpen event s h unended room =
    let e : RuntimeStreamEvent = record { seq = suc s.seq; event = event } in
    record {
      sequenced = IsSequenced-envelope event s h;
      counted = omega (arith, length-append s.sent (e ∷ []), h.counted);
      unended = All-append NotTerminal s.sent (e ∷ []) h.unended (unended, tt);
      one_start = omega (arith, starts-envelope event s, room);
    }

pub close_with-IsEnveloped :
    (s : Progress) (r : Result Defect CallOutcome)
    → IsOpen s
    → Ensures NotRefused r
    → IsEnveloped (close_with s r)
unfolding close_with
close_with-IsEnveloped s (ok o) h allowed = record {
  sequenced = IsSequenced-envelope (terminal_event o) s h;
  one_start = omega (arith, starts-envelope (terminal_event o) s, h.one_start);
  ended = (s.sent, suc s.seq, refl, h.unended, allowed);
}
close_with-IsEnveloped s (err d) h allowed = record {
  sequenced = h.sequenced;
  one_start = h.one_start;
  ended = h.unended;
}

with_continuation-IsEnveloped :
    (s : Progress) (o : CallOutcome) (a : Presence ContinuationArtifact)
    → IsOpen s
    → NotRefused o
    → IsEnveloped (with_continuation s o a)
with_continuation-IsEnveloped s o none h allowed = close_with-IsEnveloped s (ok o) h allowed
with_continuation-IsEnveloped s o (some a) h allowed =
    close_with-IsEnveloped (envelope (continuation_delta a) s) (ok o)
      (envelope-IsOpen (continuation_delta a) s h refl (omega (arith, h.one_start))) allowed

deliver_arm-IsEnveloped :
    (s : Progress) (o : CallOutcome) (arm : Arm)
    → IsOpen s
    → o.arm ≡ arm
    → IsEnveloped (deliver_arm s o arm)
deliver_arm-IsEnveloped s o (refused t) h e =
    close_with-IsEnveloped s (err (protocol_defect stream_refusal_arm)) h tt
deliver_arm-IsEnveloped s o (succeeded response) h e =
    with_continuation-IsEnveloped s o response.continuation h (subst NotRefusedArm (sym e) tt)
deliver_arm-IsEnveloped s o (incomplete a b c) h e =
    close_with-IsEnveloped s (ok o) h (subst NotRefusedArm (sym e) tt)
deliver_arm-IsEnveloped s o cancelled h e =
    close_with-IsEnveloped s (ok o) h (subst NotRefusedArm (sym e) tt)
deliver_arm-IsEnveloped s o (failed f) h e =
    close_with-IsEnveloped s (ok o) h (subst NotRefusedArm (sym e) tt)

pub deliver-IsEnveloped :
    (s : Progress) (r : Result Defect CallOutcome) → IsOpen s → IsEnveloped (deliver s r)
unfolding deliver
deliver-IsEnveloped s (err d) h = close_with-IsEnveloped s (err d) h tt
deliver-IsEnveloped s (ok o) h = deliver_arm-IsEnveloped s o o.arm h refl
