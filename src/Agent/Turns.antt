-- ===== src/Agent/Turns.antt =====
-- At most one turn of a session is active, none begins after the close, and its ref never changes.
use mathlib.Core.Path.{subst}
use llm_calling.Base.{
  ℕ, ◌+◌, ◌≡◌, refl, sym, ap, ◌∙◌, Bool, true, false, not, some, List, [], ◌∷◌, arith, is_some,
  if_either, true-ne-false, ok, ◌>>=◌, raise_if, raise_if-ok,
}
use llm_calling.Agent.{
  AgentSessionRef, duplicate_session_ref, session_unavailable, concurrent_turn, inactive_turn_end,
}
use llm_calling.Agent.Sessions.{
  AgentSession, complete_ref, begin_turn, begin_close, end_turn, Call, call_complete_ref,
  call_begin_turn, call_begin_close, call_end_turn, perform, Reaches,
}

abbrev is_begin : Call → Bool
is_begin call_begin_turn = true
is_begin _ = false

abbrev is_end : Call → Bool
is_end call_end_turn = true
is_end _ = false

abbrev is_completion : Call → Bool
is_completion (call_complete_ref _) = true
is_completion _ = false

abbrev one : Bool → ℕ
one true = 1
one false = 0

abbrev count : (Call → Bool) → List Call → ℕ
count p [] = 0
count p (c ∷ cs) = one (p c) + count p cs

-- The turns that were begun, those that were ended, and the completions of the ref.
abbrev pub begins : List Call → ℕ
begins cs = count is_begin cs

abbrev pub ends : List Call → ℕ
ends cs = count is_end cs

abbrev pub completions : List Call → ℕ
completions cs = count is_completion cs

abbrev pub active_turns : AgentSession → ℕ
active_turns s = one s.turn_active

-- What one successful call does.
record IsStep (c : Call) (s m : AgentSession) : Type 0 where
  balance : one (is_begin c) + active_turns s ≡ one (is_end c) + active_turns m
  stays_closed : s.closed ≡ true → (m.closed ≡ true) × (is_begin c ≡ false)
  keeps_ref : (r : AgentSessionRef) → s.ref ≡ some r → (m.ref ≡ some r) × (is_completion c ≡ false)

perform-IsStep : (c : Call) (s m : AgentSession) → perform c s ≡ ok m → IsStep c s m
unfolding complete_ref begin_turn begin_close end_turn
perform-IsStep (call_complete_ref r) s m h =
    let made : AgentSession = record s { ref = some r } in
    let (missing, k) = raise_if-ok (is_some s.ref) duplicate_session_ref (ok made) m h in
    let same : made ≡ m = cc in
    subst (IsStep (call_complete_ref r) s) same (record {
      balance = refl;
      stays_closed = λ e. (e, refl);
      keeps_ref = λ q e. absurd (true-ne-false (sym (ap is_some e) ∙ missing));
    })
perform-IsStep call_begin_turn s m h =
    let made : AgentSession = record s { turn_active = true } in
    let (opened, k) =
      raise_if-ok s.closed session_unavailable
        (raise_if s.turn_active concurrent_turn >>= λ _. ok made) m h in
    let (idle, k') = raise_if-ok s.turn_active concurrent_turn (ok made) m k in
    let same : made ≡ m = cc in
    subst (IsStep call_begin_turn s) same (record {
      balance = rw idle refl;
      stays_closed = λ e. absurd (true-ne-false (sym e ∙ opened));
      keeps_ref = λ q e. (e, refl);
    })
perform-IsStep call_begin_close s m h =
    let same : (begin_close s).0 ≡ m = cc in
    subst (IsStep call_begin_close s) same (
      if_either (λ (x : AgentSession × Bool). IsStep call_begin_close s x.0) s.closed
        (s, s.turn_active) (record s { closed = true }, s.turn_active)
        (record { balance = refl; stays_closed = λ e. (e, refl); keeps_ref = λ q e. (e, refl) })
        (record { balance = refl; stays_closed = λ e. (refl, refl); keeps_ref = λ q e. (e, refl) }))
perform-IsStep call_end_turn s m h =
    let made : AgentSession = record s { turn_active = false } in
    let (busy, k) = raise_if-ok (not s.turn_active) inactive_turn_end (ok made) m h in
    let on : s.turn_active ≡ true = ground arith in
    let same : made ≡ m = cc in
    subst (IsStep call_end_turn s) same
      (record { balance = rw on refl; stays_closed = λ e. (e, refl); keeps_ref = λ q e. (e, refl) })

-- Over any sequence of calls of any threads, the turns begun are the turns ended and the turn that is
-- active, of which there is at most one: with the turn that was active before, where there was one.
pub Reaches-balance :
    (cs : List Call) (s s' : AgentSession)
    → Reaches s cs s'
    → begins cs + active_turns s ≡ ends cs + active_turns s'
Reaches-balance [] s s' h = omega (arith, ap active_turns h)
Reaches-balance (c ∷ cs) s s' (m, e, rest) =
    omega (arith, (perform-IsStep c s m e).balance, Reaches-balance cs m s' rest)

-- Once a session is closed, it stays closed and no turn begins.
pub Reaches-closed :
    (cs : List Call) (s s' : AgentSession)
    → Reaches s cs s'
    → s.closed ≡ true
    → (s'.closed ≡ true) × (begins cs ≡ 0)
Reaches-closed [] s s' h e = (subst (λ x. x.closed ≡ true) h e, refl)
Reaches-closed (c ∷ cs) s s' (m, q, rest) e =
    let (still, no_begin) = (perform-IsStep c s m q).stays_closed e in
    let (end_closed, none_later) = Reaches-closed cs m s' rest still in
    (end_closed, rw no_begin (omega (arith, none_later)))

-- Once a session has its ref, it keeps that ref, and no call completes it again.
pub Reaches-ref :
    (cs : List Call) (s s' : AgentSession) (r : AgentSessionRef)
    → Reaches s cs s'
    → s.ref ≡ some r
    → (s'.ref ≡ some r) × (completions cs ≡ 0)
Reaches-ref [] s s' r h e = (subst (λ x. x.ref ≡ some r) h e, refl)
Reaches-ref (c ∷ cs) s s' r (m, q, rest) e =
    let (still, no_completion) = (perform-IsStep c s m q).keeps_ref r e in
    let (end_ref, none_later) = Reaches-ref cs m s' r rest still in
    (end_ref, rw no_completion (omega (arith, none_later)))
