-- ===== src/Runtime/Trace.antt =====
-- Facts about attempt traces and billability.
use mathlib.Core.Path.{subst}
use llm_calling.Base.{
  ℕ, suc, ◌+◌, ◌≤◌, ◌≡◌, refl, ap, ◌⊎◌, inl, inr, Bool, true, false, Option, none, some, List, [],
  ◌∷◌, ◌++◌, arith, is_some, length, All, ok,
}
use llm_calling.Contract.Outcome.{
  TransientCause, transient, final_attempt, AttemptRecord, Billability,
}
use llm_calling.Runtime.{
  billability_rank, fold_billability, renumber, finalize_last, First, action_first, both_done,
  cancel_first, Race, first_wins, race_cancel,
}

-- The records are numbered from `k` on, with no gap.
abbrev pub IsNumbered : ℕ → List AttemptRecord → Type 0
IsNumbered k [] = Unit
IsNumbered k (r ∷ rest) = (r.attempt ≡ k) × IsNumbered (suc k) rest

abbrev pub IsTransient : AttemptRecord → Type 0
IsTransient r = (c : TransientCause) × (r.signal ≡ transient c)

-- The last record, and only that one, is the final attempt.
abbrev pub EndsFinal : List AttemptRecord → Type 0
EndsFinal [] = ⊥
EndsFinal (r ∷ []) = r.signal ≡ final_attempt
EndsFinal (r ∷ q ∷ rest) = IsTransient r × EndsFinal (q ∷ rest)

pub renumber-IsNumbered : (k : ℕ) (rs : List AttemptRecord) → IsNumbered (suc k) (renumber k rs)
unfolding renumber
renumber-IsNumbered k [] = tt
renumber-IsNumbered k (r ∷ rs) = (refl, renumber-IsNumbered (suc k) rs)

pub IsNumbered-append :
    (k : ℕ) (xs ys : List AttemptRecord)
    → IsNumbered k xs
    → IsNumbered (k + length xs) ys
    → IsNumbered k (xs ++ ys)
IsNumbered-append k [] ys hx hy =
    let e : k + 0 ≡ k = omega arith in subst (λ n. IsNumbered n ys) e hy
IsNumbered-append k (x ∷ xs) ys hx hy =
    let e : k + suc (length xs) ≡ suc k + length xs = omega arith in
    (hx.0, IsNumbered-append (suc k) xs ys hx.1 (subst (λ n. IsNumbered n ys) e hy))

pub EndsFinal-append :
    (xs : List AttemptRecord) (r : AttemptRecord)
    → All IsTransient xs
    → r.signal ≡ final_attempt
    → EndsFinal (xs ++ r ∷ [])
EndsFinal-append [] r h e = e
EndsFinal-append (x ∷ []) r h e = (h.0, e)
EndsFinal-append (x ∷ y ∷ xs) r h e = (h.0, EndsFinal-append (y ∷ xs) r h.1 e)

-- The trace of a call that ended by exhaustion.
pub finalize_last-ok :
    (k : ℕ) (xs : List AttemptRecord)
    → 1 ≤ length xs
    → IsNumbered k xs
    → All IsTransient xs
    → (ys : List AttemptRecord) × (finalize_last xs ≡ ok ys)
      × IsNumbered k ys
      × (length ys ≡ length xs)
      × EndsFinal ys
unfolding finalize_last
finalize_last-ok k [] h n t = absurd (omega arith)
finalize_last-ok k (r ∷ []) h n t =
    (record r { signal = final_attempt } ∷ [], refl, (n.0, tt), refl, refl)
finalize_last-ok k (r ∷ q ∷ rest) h n t =
    let (ys, e, numbered, same, final) =
      finalize_last-ok (suc k) (q ∷ rest) (omega arith) n.1 t.1 in
    (r ∷ ys, rw e, (n.0, numbered), ap suc same, cons_final ys t.0 same final)
  where
    cons_final :
        (zs : List AttemptRecord)
        → IsTransient r
        → length zs ≡ suc (length rest)
        → EndsFinal zs
        → EndsFinal (r ∷ zs)
    cons_final [] tr l f = absurd f
    cons_final (z ∷ zs) tr l f = (tr, f)

pub fold_billability-left :
    (a b : Billability) → billability_rank a ≤ billability_rank (fold_billability a b)
unfolding fold_billability
fold_billability-left a b = ground arith

pub fold_billability-right :
    (a b : Billability) → billability_rank b ≤ billability_rank (fold_billability a b)
unfolding fold_billability
fold_billability-right a b = ground arith

first_wins-cases :
    {A : Type 0} (a : A) (f : First) → (first_wins a f ≡ none) ⊎ (first_wins a f ≡ some a)
first_wins-cases a action_first = inr refl
first_wins-cases a both_done = inr refl
first_wins-cases a cancel_first = inl refl

-- A race is lost, or it gives what the await gave.
pub race_cancel-cases :
    {A : Type 0} (has_cancel : Bool) (race : Race A)
    → (race_cancel has_cancel race ≡ none) ⊎ (race_cancel has_cancel race ≡ some race.result)
unfolding race_cancel
race_cancel-cases false race = inr refl
race_cancel-cases true race = first_wins-cases race.result race.first

pub absent-some : {A : Type 0} (o : Option A) → o ≡ none → is_some o ≡ true → ⊥
absent-some none h e = cc
absent-some (some a) h e = cc
