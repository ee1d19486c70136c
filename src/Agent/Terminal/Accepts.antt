-- ===== src/Agent/Terminal/Accepts.antt =====
-- Which terminal values are accepted.
use mathlib.Core.Path.{subst}
use llm_calling.Base.{
  String, ◌≡◌, refl, sym, ◌∙◌, ◌↔◌, ◌⊎◌, inl, inr, Bool, true, false, not, ◌&&◌, ◌||◌, Option, none,
  some, List, [], ◌∷◌, arith, str_eq, eq_iff, Bool-cases, is_some, true-ne-false, any, Result, ok,
  raise_if, ◌>>◌,
}
use llm_calling.Agent.{
  Backend, codex, claude, AgentTransport, sdk, AgentSessionRef, eq_backend, eq_transport, eq_ref,
  AgentError, evidence_mismatch, empty_diagnostic, duplicate_diagnostic,
}
use llm_calling.Agent.Terminal.{
  AgentTerminalFailure, AgentTerminalStatus, succeeded_status, failed_status, cancelled_status,
  Evidence, native_evidence, local_stop, AgentTerminal, check_failure, names_other, has_duplicates,
  agent_terminal,
}
use llm_calling.Registry.Rows.{one}

eq_backend_iff : (a b : Backend) → (eq_backend a b ≡ true) ↔ (a ≡ b)
eq_backend_iff codex b = ground arith
eq_backend_iff claude b = ground arith

eq_transport_iff : (a b : AgentTransport) → (eq_transport a b ≡ true) ↔ (a ≡ b)
eq_transport_iff sdk sdk = ground arith

six_iff :
    (a b c d e f : Bool)
    → ((a && b && c && d && e && f) ≡ true)
      ↔ ((a ≡ true) × (b ≡ true) × (c ≡ true) × (d ≡ true) × (e ≡ true) × (f ≡ true))
six_iff a b c d e f = ground arith

str_eq_refl : (s : String) → str_eq s s ≡ true
str_eq_refl s = (eq_iff s s).1 refl

eq_ref_refl : (r : AgentSessionRef) → eq_ref r r ≡ true
unfolding eq_ref
eq_ref_refl r = (six_iff _ _ _ _ _ _).1 (
  (eq_backend_iff r.backend r.backend).1 refl,
  (eq_transport_iff r.transport r.transport).1 refl,
  str_eq_refl r.native_session_id,
  str_eq_refl r.profile_key,
  str_eq_refl r.state_root_fingerprint,
  str_eq_refl r.cwd_fingerprint,
)

eq_ref-eq : (r s : AgentSessionRef) → eq_ref r s ≡ true → r ≡ s
unfolding eq_ref
eq_ref-eq r s h =
    let (b, t, n, k, root, cwd) = (six_iff _ _ _ _ _ _).0 h in
    λ i. record {
      backend = (eq_backend_iff r.backend s.backend).0 b i;
      transport = (eq_transport_iff r.transport s.transport).0 t i;
      native_session_id = (eq_iff r.native_session_id s.native_session_id).0 n i;
      profile_key = (eq_iff r.profile_key s.profile_key).0 k i;
      state_root_fingerprint = (eq_iff r.state_root_fingerprint s.state_root_fingerprint).0 root i;
      cwd_fingerprint = (eq_iff r.cwd_fingerprint s.cwd_fingerprint).0 cwd i;
    }

-- The evidence names this session: native evidence always does, a local stop where it has a turn.
abbrev pub IsOwnEvidence : AgentSessionRef → Evidence → Type 0
IsOwnEvidence session evidence =
    ((r : AgentSessionRef) → evidence ≡ native_evidence r → r ≡ session)
    × ((r : AgentSessionRef) → evidence ≡ local_stop (some r) → r ≡ session)

not_other : (session r : AgentSessionRef) → (not (eq_ref r session) ≡ false) ↔ (r ≡ session)
not_other session r = (
  λ h. eq_ref-eq r session (ground arith),
  λ same.
      let e : eq_ref r session ≡ true = subst (λ x. eq_ref r x ≡ true) same (eq_ref_refl r) in
      ground arith,
)

names_other_iff :
    (session : AgentSessionRef) (evidence : Evidence)
    → (names_other session evidence ≡ false) ↔ IsOwnEvidence session evidence
unfolding names_other
names_other_iff session (native_evidence r) = (
  λ h. ((λ s e. let same : r ≡ s = cc in sym same ∙ (not_other session r).0 h), (λ s e. cc)),
  λ h. (not_other session r).1 (h.0 r refl),
)
names_other_iff session (local_stop none) = (λ h. ((λ s e. cc), (λ s e. cc)), λ h. refl)
names_other_iff session (local_stop (some r)) = (
  λ h. ((λ s e. cc), (λ s e. let same : r ≡ s = cc in sym same ∙ (not_other session r).0 h)),
  λ h. (not_other session r).1 (h.1 r refl),
)

-- The text stands in the list.
abbrev pub Among : String → List String → Type 0
Among d [] = ⊥
Among d (x ∷ xs) = (d ≡ x) ⊎ Among d xs

abbrev pub HasDistinct : List String → Type 0
HasDistinct [] = Unit
HasDistinct (d ∷ ds) = ¬ Among d ds × HasDistinct ds

any-Among : (d : String) (ds : List String) → (any (str_eq d) ds ≡ false) ↔ ¬ Among d ds
any-Among d [] = ((λ h among. among), λ h. refl)
any-Among d (x ∷ xs) = (
  λ h. λ among. elim among [
    | inl same ↦ let e = (eq_iff d x).1 same in true-ne-false (ground (arith, e, h))
    | inr later ↦ (any-Among d xs).0 (ground (arith, h)) later
  ],
  λ apart. elim (Bool-cases (str_eq d x)) [
    | inl e ↦ absurd (apart (inl ((eq_iff d x).0 e)))
    | inr e ↦ rw (e, (any-Among d xs).1 (λ later. apart (inr later))) refl
  ],
)

or_false : (a b : Bool) → ((a || b) ≡ false) ↔ ((a ≡ false) × (b ≡ false))
or_false a b = ground arith

has_duplicates_iff : (ds : List String) → (has_duplicates ds ≡ false) ↔ HasDistinct ds
unfolding has_duplicates
has_duplicates_iff [] = ((λ h. tt), λ h. refl)
has_duplicates_iff (d ∷ ds) = (
  λ h.
      let (one, rest) = (or_false (any (str_eq d) ds) (has_duplicates ds)).0 h in
      ((any-Among d ds).0 one, (has_duplicates_iff ds).0 rest),
  λ h.
      (or_false (any (str_eq d) ds) (has_duplicates ds)).1
        ((any-Among d ds).1 h.0, (has_duplicates_iff ds).1 h.1),
)

-- A failed turn has a failure, and no other turn has one.
abbrev pub IsFailure : AgentTerminalStatus → Option AgentTerminalFailure → Type 0
IsFailure status failure =
    (status ≡ failed_status) ↔ ((f : AgentTerminalFailure) × (failure ≡ some f))

not_failed :
    (status : AgentTerminalStatus) (failure : Option AgentTerminalFailure)
    → (status ≡ failed_status → ⊥)
    → (is_some failure ≡ false) ↔ IsFailure status failure
not_failed status none apart = ((λ h. ((λ e. absurd (apart e)), (λ (f, e). cc))), λ h. refl)
not_failed status (some f) apart = ((λ h. cc), λ h. absurd (apart (h.1 (f, refl))))

check_failure_iff :
    (status : AgentTerminalStatus) (failure : Option AgentTerminalFailure)
    → (check_failure status failure ≡ ok tt) ↔ IsFailure status failure
check_failure_iff failed_status none = ((λ h. cc), λ h. let (f, e) = h.0 refl in cc)
check_failure_iff failed_status (some f) = ((λ h. ((λ e. (f, refl)), (λ some_. refl))), λ h. refl)
check_failure_iff succeeded_status failure =
    let other_ = not_failed succeeded_status failure (λ e. cc) in
    ((λ h. other_.0 (ground arith)), λ h. let e = other_.1 h in ground arith)
check_failure_iff cancelled_status failure =
    let other_ = not_failed cancelled_status failure (λ e. cc) in
    ((λ h. other_.0 (ground arith)), λ h. let e = other_.1 h in ground arith)

-- What is asked of a terminal value.
abbrev pub IsTerminalValue : AgentTerminal → Type 0
IsTerminalValue t =
    IsFailure t.status t.failure
    × IsOwnEvidence t.session t.evidence
    × (¬ Among "" t.diagnostics)
    × HasDistinct t.diagnostics

gates_iff :
    (t : AgentTerminal) (first : Result AgentError (Unit {0})) (other_session no_text twice : Bool)
    → ((first
          >> (raise_if other_session evidence_mismatch
              >> (raise_if no_text empty_diagnostic
                  >> (raise_if twice duplicate_diagnostic >> ok t))))
        ≡ ok t)
      ↔ ((first ≡ ok tt) × (other_session ≡ false) × (no_text ≡ false) × (twice ≡ false))
gates_iff t first other_session no_text twice = ground arith

-- A terminal value is accepted, as it is, exactly if it has a failure exactly if its status is failed,
-- its native evidence, or its local stop where that has a turn, names the session of the terminal,
-- and its diagnostics are distinct and none is empty.
pub agent_terminal-ok_iff : (t : AgentTerminal) → (agent_terminal t ≡ ok t) ↔ IsTerminalValue t
unfolding agent_terminal
agent_terminal-ok_iff t =
    let gates =
      gates_iff t (check_failure t.status t.failure) (names_other t.session t.evidence)
        (any (str_eq "") t.diagnostics) (has_duplicates t.diagnostics) in
    let failure = check_failure_iff t.status t.failure in
    let evidence = names_other_iff t.session t.evidence in
    let text = any-Among "" t.diagnostics in
    let twice = has_duplicates_iff t.diagnostics in
    (
      λ h. let (a, b, c, d) = gates.0 h in (failure.0 a, evidence.0 b, text.0 c, twice.0 d),
      λ (a, b, c, d). gates.1 (failure.1 a, evidence.1 b, text.1 c, twice.1 d),
    )
