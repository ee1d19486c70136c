-- ===== src/Retry/Policy.antt =====
-- What `RetryPolicy.__post_init__` accepts.
use mathlib.Core.Path.{subst}
use llm_calling.Base.{
  ℕ, zero, suc, ◌≡◌, refl, ◌↔◌, ◌⊎◌, inl, inr, Bool, true, false, none, some, arith, ok, raise_if,
  ◌>>◌,
}
use llm_calling.Base.Int.{ℤ, pos, negsuc, leb_ℤ}
use llm_calling.Contract.{Presence, value_error}
use llm_calling.Json.{Float, finite, infinity, nan}
use llm_calling.Retry.{PolicyFields, below_zero, at_most_zero, bad_deadline, retry_policy}

abbrev pub IsNegative : Float → Type 0
IsNegative x = ((n : ℕ) × (e : ℤ) × (x ≡ finite (negsuc n) e)) ⊎ (x ≡ infinity true)

abbrev pub IsZero : Float → Type 0
IsZero x = (e : ℤ) × (x ≡ finite (pos 0) e)

-- At least one attempt, no negative duration, and no deadline that is zero or negative. A NaN is
-- neither.
pub record IsPolicy (p : PolicyFields) : Type 0 where
  pub one_attempt : (n : ℕ) × (p.max_attempts ≡ pos (suc n))
  pub initial_delay : ¬ IsNegative p.initial_delay
  pub max_delay : ¬ IsNegative p.max_delay
  pub jitter : ¬ IsNegative p.jitter
  pub deadline : (d : Float) → p.deadline ≡ some d → (¬ IsNegative d) × (¬ IsZero d)

below_zero_iff : (x : Float) → (below_zero x ≡ false) ↔ ¬ IsNegative x
below_zero_iff (finite (pos m) e) =
    (λ h. λ negative. elim negative [ inl (n, k, same) ↦ cc | inr same ↦ cc ], λ h. refl)
below_zero_iff (finite (negsuc m) e) = (λ h. cc, λ h. absurd (h (inl (m, e, refl))))
below_zero_iff (infinity true) = (λ h. cc, λ h. absurd (h (inr refl)))
below_zero_iff (infinity false) =
    (λ h. λ negative. elim negative [ inl (n, k, same) ↦ cc | inr same ↦ cc ], λ h. refl)
below_zero_iff nan =
    (λ h. λ negative. elim negative [ inl (n, k, same) ↦ cc | inr same ↦ cc ], λ h. refl)

at_most_zero_iff : (x : Float) → (at_most_zero x ≡ false) ↔ ((below_zero x ≡ false) × (¬ IsZero x))
at_most_zero_iff (finite (pos zero) e) = (λ h. cc, λ (low, apart). absurd (apart (e, refl)))
at_most_zero_iff (finite (pos (suc m)) e) =
    (λ h. (refl, λ (k, same). let z : suc m ≡ 0 = cc in omega (arith, z)), λ h. refl)
at_most_zero_iff (finite (negsuc m) e) = (λ h. cc, λ (low, apart). cc)
at_most_zero_iff (infinity true) = (λ h. cc, λ (low, apart). cc)
at_most_zero_iff (infinity false) = (λ h. (refl, λ (k, same). cc), λ h. refl)
at_most_zero_iff nan = (λ h. (refl, λ (k, same). cc), λ h. refl)

bad_deadline_iff :
    (deadline : Presence Float)
    → (bad_deadline deadline ≡ false)
      ↔ ((d : Float) → deadline ≡ some d → (¬ IsNegative d) × (¬ IsZero d))
bad_deadline_iff none = (λ h d e. cc, λ h. refl)
bad_deadline_iff (some x) = (
  λ h d e.
      let (low, apart) = (at_most_zero_iff x).0 h in
      let same : x ≡ d = cc in
      subst (λ y. (¬ IsNegative y) × (¬ IsZero y)) same ((below_zero_iff x).0 low, apart),
  λ h. let (low, apart) = h x refl in (at_most_zero_iff x).1 ((below_zero_iff x).1 low, apart),
)

attempts_iff : (m : ℤ) → (leb_ℤ m (pos 0) ≡ false) ↔ ((n : ℕ) × (m ≡ pos (suc n)))
attempts_iff (pos zero) = (λ h. cc, λ (n, e). let z : 0 ≡ suc n = cc in absurd (omega (arith, z)))
attempts_iff (pos (suc n)) = (λ h. (n, refl), λ h. ground arith)
attempts_iff (negsuc n) = (λ h. ground arith, λ (n, e). cc)

gates_iff :
    (p : PolicyFields) (a b c d e : Bool)
    → ((raise_if a value_error
          >> (raise_if b value_error
              >> (raise_if c value_error
                  >> (raise_if d value_error >> (raise_if e value_error >> ok p)))))
        ≡ ok p)
      ↔ ((a ≡ false) × (b ≡ false) × (c ≡ false) × (d ≡ false) × (e ≡ false))
gates_iff p a b c d e = ground arith

-- A policy is constructed, with the fields that were given, exactly if it allows at least one attempt,
-- its durations are not negative, and its deadline, if it has one, is neither negative nor zero; a NaN
-- is neither of them.
pub retry_policy-ok_iff : (p : PolicyFields) → (retry_policy p ≡ ok p) ↔ IsPolicy p
unfolding retry_policy
retry_policy-ok_iff p =
    let gates =
      gates_iff p (leb_ℤ p.max_attempts (pos 0)) (below_zero p.initial_delay)
        (below_zero p.max_delay) (below_zero p.jitter) (bad_deadline p.deadline) in
    (
      λ h.
          let (a, b, c, d, e) = gates.0 h in
          record {
            one_attempt = (attempts_iff p.max_attempts).0 a;
            initial_delay = (below_zero_iff p.initial_delay).0 b;
            max_delay = (below_zero_iff p.max_delay).0 c;
            jitter = (below_zero_iff p.jitter).0 d;
            deadline = (bad_deadline_iff p.deadline).0 e;
          },
      λ h. gates.1 (
        (attempts_iff p.max_attempts).1 h.one_attempt,
        (below_zero_iff p.initial_delay).1 h.initial_delay,
        (below_zero_iff p.max_delay).1 h.max_delay,
        (below_zero_iff p.jitter).1 h.jitter,
        (bad_deadline_iff p.deadline).1 h.deadline,
      ),
    )
