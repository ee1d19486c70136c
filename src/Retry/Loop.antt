-- ===== src/Retry/Loop.antt =====
-- What the retry loop promises, whatever its body does.
use llm_calling.Base.{
  ℕ, zero, suc, ◌+◌, ◌≤◌, ◌<◌, ◌≡◌, refl, ◌≢◌, none, some, arith, Result, ok, err,
}
use llm_calling.Contract.{Defect}
use llm_calling.Contract.Outcome.{TransientCause}
use llm_calling.Retry.{
  RetryPolicy, Advance, stop, sleep_then, advance, Timing, Step, finish, raise, next, Ending,
  returned, raised, exhausted, Run, Verdict, over, again, judge, verdict, continue_with, drive_from,
  drive,
}
use llm_calling.Retry.Delay.{advance-MaySleep}

-- A marked handle is never the iterator's own defect.
pub advance-ne-err :
    (policy : RetryPolicy) (n u e : ℕ) (c : TransientCause) (d : Defect)
    → advance policy n (some c) u e ≢ err d
unfolding advance
advance-ne-err policy n u e c d = ground arith

module _ {S R : Type 0} (P : ℕ → S → Type 0) (Q : R → Type 0) (E : Defect → Type 0) where
  -- The state `P n s` before attempt `n` is kept by the body; a `return` gives `Q`, an exception
  -- `E`, and the handle is marked before the loop goes on.
  abbrev pub BodyKeeps : ℕ → Step S R → Type 0
  BodyKeeps n (finish r) = Q r
  BodyKeeps n (raise d) = E d
  BodyKeeps n (next none s) = ⊥
  BodyKeeps n (next (some c) s) = P (suc n) s

  -- How the loop ends with `m` attempts allowed: exhaustion comes after at least one attempt.
  abbrev pub EndKeeps : ℕ → Ending S R → Type 0
  EndKeeps m (returned r) = Q r
  EndKeeps m (raised d) = E d
  EndKeeps m (exhausted s) = (n : ℕ) × (1 ≤ n) × (n ≤ m) × P (suc n) s

  abbrev VerdictKeeps : (m n : ℕ) → Verdict S R → Type 0
  VerdictKeeps m n (over e) = EndKeeps m e
  VerdictKeeps m n (again pause s) = (n < m) × P (suc n) s

  verdict_keeps :
      (policy : RetryPolicy) (n u e : ℕ) (step : Step S R)
      → 1 ≤ n
      → n ≤ policy.max_attempts
      → BodyKeeps n step
      → VerdictKeeps policy.max_attempts n (verdict policy n u e step)
  unfolding verdict
  verdict_keeps policy n u e (finish r) from_one le h = h
  verdict_keeps policy n u e (raise d) from_one le h = h
  verdict_keeps policy n u e (next none s) from_one le h = absurd h
  verdict_keeps policy n u e (next (some c) s) from_one le h =
      go (advance policy n (some c) u e) refl
    where
      go :
          (a : Result Defect Advance)
          → advance policy n (some c) u e ≡ a
          → VerdictKeeps policy.max_attempts n (judge s a)
      go (err d) q = absurd (advance-ne-err policy n u e c d q)
      go (ok stop) q = (n, from_one, le, h)
      go (ok (sleep_then pause)) q = ((advance-MaySleep policy n u e pause c q).attempt_left, h)

module _ {S R : Type 0} (policy : RetryPolicy) (timing : Timing) (body : ℕ → S → Step S R)
    (P : ℕ → S → Type 0) (Q : R → Type 0) (E : Defect → Type 0)
    (keeps : (n : ℕ) (s : S)
      → 1 ≤ n
      → n ≤ policy.max_attempts
      → P n s
      → BodyKeeps P Q E n (body n s)) where
  continue_keeps :
      (n tries slept : ℕ) (v : Verdict S R) (go : ℕ → S → Run S R)
      → VerdictKeeps P Q E policy.max_attempts n v
      → ((pause : ℕ) (s : S)
          → n < policy.max_attempts
          → P (suc n) s
          → EndKeeps P Q E policy.max_attempts (go pause s).ending)
      → EndKeeps P Q E policy.max_attempts (continue_with v tries slept go).ending
  continue_keeps n tries slept (over e) go h rec = h
  continue_keeps n tries slept (again pause s) go h rec = rec pause s h.0 h.1

  drive_from_inv :
      (left number tries slept : ℕ) (s : S)
      → left + number ≡ suc policy.max_attempts
      → 1 ≤ number
      → 1 ≤ left
      → P number s
      → EndKeeps P Q E policy.max_attempts
          (drive_from policy timing body left number tries slept s).ending
  unfolding drive_from
  drive_from_inv zero number tries slept s total from_one room p = absurd (omega arith)
  drive_from_inv (suc left) number tries slept s total from_one room p =
      continue_keeps number (suc tries) slept _ _
        (verdict_keeps P Q E policy number _ _ (body number s) from_one (omega arith)
          (keeps number s from_one (omega arith) p))
        (λ pause s' more h.
          drive_from_inv left (suc number) (suc tries) (slept + pause) s' (omega arith)
            (omega arith) (omega arith) h)

  -- The rule for every loop over `attempts`: with at least one attempt allowed, what the body keeps
  -- holds at the end, and the loop is exhausted only after a marked attempt.
  pub drive_inv :
      (s : S)
      → 1 ≤ policy.max_attempts
      → P 1 s
      → EndKeeps P Q E policy.max_attempts (drive policy timing body s).ending
  unfolding drive
  drive_inv s room p = drive_from_inv policy.max_attempts 1 0 0 s (omega arith) (omega arith) room p

abbrev TriesWithin : {S R : Type 0} → (tries left : ℕ) → Run S R → Type 0
TriesWithin tries left run =
    (tries ≤ run.tries) × (run.tries ≤ tries + left) × (1 ≤ left → suc tries ≤ run.tries)

module _ {S R : Type 0} where
  continue_tries :
      (v : Verdict S R) (left tries slept : ℕ) (go : ℕ → S → Run S R)
      → ((pause : ℕ) (s : S) → TriesWithin (suc tries) left (go pause s))
      → TriesWithin tries (suc left) (continue_with v (suc tries) slept go)
  continue_tries (over e) left tries slept go h = (omega arith, omega arith, omega arith)
  continue_tries (again pause s) left tries slept go h =
      let k = h pause s in (omega arith, omega arith, omega arith)

  judge-again :
      (a : Result Defect Advance) (s s' : S) (pause : ℕ)
      → judge {R = R} s a ≡ again pause s'
      → a ≡ ok (sleep_then pause)
  judge-again (err d) s s' pause h = cc
  judge-again (ok stop) s s' pause h = cc
  judge-again (ok (sleep_then p)) s s' pause h = cc

  verdict-in_time :
      (policy : RetryPolicy) (deadline n u e : ℕ) (step : Step S R) (pause : ℕ) (s : S)
      → policy.deadline ≡ some deadline
      → verdict policy n u e step ≡ again pause s
      → e + pause ≤ deadline
  unfolding verdict advance
  verdict-in_time policy deadline n u e (finish r) pause s bounded h = cc
  verdict-in_time policy deadline n u e (raise d) pause s bounded h = cc
  verdict-in_time policy deadline n u e (next none s') pause s bounded h = cc
  verdict-in_time policy deadline n u e (next (some c) s') pause s bounded h =
      (advance-MaySleep policy n u e pause c (judge-again _ s' s pause h)).in_time deadline bounded

  continue_slept :
      (deadline tries slept : ℕ) (v : Verdict S R) (go : ℕ → S → Run S R)
      → slept ≤ deadline
      → ((pause : ℕ) (s : S) → v ≡ again pause s → (go pause s).slept ≤ deadline)
      → (continue_with v tries slept go).slept ≤ deadline
  continue_slept deadline tries slept (over e) go le h = le
  continue_slept deadline tries slept (again pause s) go le h = h pause s refl

module _ {S R : Type 0} (policy : RetryPolicy) (timing : Timing) (body : ℕ → S → Step S R) where
  drive_from-tries :
      (left number tries slept : ℕ) (s : S)
      → TriesWithin tries left (drive_from policy timing body left number tries slept s)
  unfolding drive_from
  drive_from-tries zero number tries slept s = (omega arith, omega arith, omega arith)
  drive_from-tries (suc left) number tries slept s =
      continue_tries _ left tries slept _
        (λ pause s'. drive_from-tries left (suc number) (suc tries) (slept + pause) s')

  -- Whatever its body does, a loop with at least one attempt allowed makes at least one and at most
  -- `max_attempts`.
  pub drive-tries :
      (s : S)
      → 1 ≤ policy.max_attempts
      → (1 ≤ (drive policy timing body s).tries)
        × ((drive policy timing body s).tries ≤ policy.max_attempts)
  unfolding drive
  drive-tries s room =
      let h = drive_from-tries policy.max_attempts 1 0 0 s in (h.2 room, omega (arith, h.1))

  drive_from-slept :
      (deadline left number tries slept : ℕ) (s : S)
      → policy.deadline ≡ some deadline
      → ((n k : ℕ) → k ≤ timing.elapsed n k)
      → slept ≤ deadline
      → (drive_from policy timing body left number tries slept s).slept ≤ deadline
  unfolding drive_from
  drive_from-slept deadline zero number tries slept s bounded honest le = le
  drive_from-slept deadline (suc left) number tries slept s bounded honest le =
      continue_slept deadline (suc tries) slept _ _ le λ pause s' e.
        drive_from-slept deadline left (suc number) (suc tries) (slept + pause) s' bounded honest (
          omega (
            arith,
            honest number slept,
            verdict-in_time policy deadline number _ _ (body number s) pause s' bounded e,
          ))

  -- With a deadline, and a clock that shows at least the time slept, the pauses of a whole loop add
  -- up to no more than the deadline.
  pub drive-slept :
      (deadline : ℕ) (s : S)
      → policy.deadline ≡ some deadline
      → ((n k : ℕ) → k ≤ timing.elapsed n k)
      → (drive policy timing body s).slept ≤ deadline
  unfolding drive
  drive-slept deadline s bounded honest =
      drive_from-slept deadline policy.max_attempts 1 0 0 s bounded honest (omega arith)
