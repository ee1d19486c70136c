-- ===== src/Agent/Scope.antt =====
-- When a session ref is accepted for a route, a profile and a directory.
use llm_calling.Base.{
  String, ◌≡◌, refl, sym, ap, ◌↔◌, Bool, true, false, not, arith, str_eq, eq_iff, true-ne-false,
  Result, ok, err, ◌>>=◌, raise_if, ◌>>◌,
}
use llm_calling.Agent.{
  Backend, codex, claude, AgentTransport, sdk, AgentSessionRef, eq_backend, eq_transport,
  AgentError, mismatched_backend, mismatched_transport, mismatched_profile, mismatched_state_root,
  mismatched_directory,
}
use llm_calling.Agent.Sessions.{Fingerprint, check_directory, validate_session_ref}

module _ (fingerprint_path : Fingerprint) (ref : AgentSessionRef) where
  -- The ref is for this route, profile and state root, and for this directory where that matters.
  abbrev pub IsInScope :
      Backend → AgentTransport → (profile_key state_root cwd : String) → (scoped : Bool) → Type 0
  IsInScope b t profile_key state_root cwd scoped =
      (ref.backend ≡ b)
      × (ref.transport ≡ t)
      × (ref.profile_key ≡ profile_key)
      × (ref.state_root_fingerprint ≡ state_root)
      × (scoped ≡ true → fingerprint_path cwd ≡ ok ref.cwd_fingerprint)

  eq_backend_iff : (a b : Backend) → (eq_backend a b ≡ true) ↔ (a ≡ b)
  eq_backend_iff codex b = ground arith
  eq_backend_iff claude b = ground arith

  eq_transport_iff : (a b : AgentTransport) → (eq_transport a b ≡ true) ↔ (a ≡ b)
  eq_transport_iff sdk sdk = ground arith

  four_iff :
      (a b c d : Bool) (rest : Result AgentError (Unit {0}))
      → ((raise_if (not a) mismatched_backend
            >> (raise_if (not b) mismatched_transport
                >> (raise_if (not c) mismatched_profile
                    >> (raise_if (not d) mismatched_state_root >> rest))))
          ≡ ok tt)
        ↔ ((a ≡ true) × (b ≡ true) × (c ≡ true) × (d ≡ true) × (rest ≡ ok tt))
  four_iff a b c d rest = ground arith

  own_directory_iff :
      (r : Result AgentError String)
      → ((r >>= λ own. raise_if (not (str_eq ref.cwd_fingerprint own)) mismatched_directory)
          ≡ ok tt)
        ↔ (r ≡ ok ref.cwd_fingerprint)
  own_directory_iff (err e) = ground arith
  own_directory_iff (ok own) = (
    λ h. ap ok (sym ((eq_iff ref.cwd_fingerprint own).0 (ground (arith, h)))),
    λ h.
        let same : ref.cwd_fingerprint ≡ own = cc in
        rw ((eq_iff ref.cwd_fingerprint own).1 same) refl,
  )

  check_directory_iff :
      (cwd : String) (scoped : Bool)
      → (check_directory fingerprint_path ref cwd scoped ≡ ok tt)
        ↔ (scoped ≡ true → fingerprint_path cwd ≡ ok ref.cwd_fingerprint)
  check_directory_iff cwd false = (λ h e. absurd (true-ne-false (sym e)), λ h. refl)
  check_directory_iff cwd true = (
    λ h e. (own_directory_iff (fingerprint_path cwd)).0 h,
    λ h. (own_directory_iff (fingerprint_path cwd)).1 (h refl),
  )

  -- A ref is accepted exactly if its route, its profile and its state root are those of the request,
  -- and, where directories scope sessions, the request's directory has the ref's fingerprint.
  pub validate_session_ref-ok_iff :
      (b : Backend) (t : AgentTransport) (profile_key state_root cwd : String) (scoped : Bool)
      → (validate_session_ref fingerprint_path ref b t profile_key state_root cwd scoped ≡ ok tt)
        ↔ IsInScope b t profile_key state_root cwd scoped
  unfolding validate_session_ref
  validate_session_ref-ok_iff b t profile_key state_root cwd scoped =
      let all_four =
        four_iff (eq_backend ref.backend b) (eq_transport ref.transport t)
          (str_eq ref.profile_key profile_key) (str_eq ref.state_root_fingerprint state_root)
          (check_directory fingerprint_path ref cwd scoped) in
      (
        λ h.
            let (w, x, y, z, rest) = all_four.0 h in
            (
              (eq_backend_iff ref.backend b).0 w,
              (eq_transport_iff ref.transport t).0 x,
              (eq_iff ref.profile_key profile_key).0 y,
              (eq_iff ref.state_root_fingerprint state_root).0 z,
              (check_directory_iff cwd scoped).0 rest,
            ),
        λ (w, x, y, z, rest). all_four.1 (
          (eq_backend_iff ref.backend b).1 w,
          (eq_transport_iff ref.transport t).1 x,
          (eq_iff ref.profile_key profile_key).1 y,
          (eq_iff ref.state_root_fingerprint state_root).1 z,
          (check_directory_iff cwd scoped).1 rest,
        ),
      )
