-- ===== src/Runtime/Prepare.antt =====
-- `_prepare`: a request, fresh or continuing, up to the row, the intent and the state of its call.
use mathlib.Core.Path.{subst}
use llm_calling.Base.{
  ◌≡◌, refl, ap, ◌∙◌, Bool, Option, none, some, Result, ok, ◌>>=◌, >>=-eq-ok, ok-injective,
  none-ne-some,
}
use llm_calling.Continuation.Generation.{preflight_generation}
use llm_calling.Continuation.Resume.{Resumption, resumed, not_followed, resume_generation}
use llm_calling.Contract.{ProviderTarget, Defect}
use llm_calling.Contract.Request.{GenerateIntent, ProviderRequest, fresh, continue}
use llm_calling.Json.{Fields}
use llm_calling.Platform.{Platform}
use llm_calling.Registry.{ModelRow}
use llm_calling.Registry.Resolve.{resolve_target}
use llm_calling.Runtime.Gates.{validate_intent, Accepts, validate_intent-ok_iff}

pub record Prepared : Type 0 where
  pub row : ModelRow
  pub intent : GenerateIntent
  pub state : Fields

unfoldable pub prepare_fresh :
    Platform → GenerateIntent → (streaming : Bool) → Result Defect Prepared
prepare_fresh p intent streaming = do
  row ← resolve_target intent.target
  _ ← validate_intent row intent streaming
  state ← preflight_generation p row intent
  ok (record { row = row; intent = intent; state = state })

-- What is resumed passes the gates of a fresh request; `none` where the model does not follow.
unfoldable pub prepare_resumed : ModelRow → Bool → Resumption → Result Defect (Option Prepared)
prepare_resumed row streaming not_followed = ok none
prepare_resumed row streaming (resumed intent state) = do
  _ ← validate_intent row intent streaming
  ok (some (record { row = row; intent = intent; state = state }))

unfoldable pub prepare :
    Platform → ProviderRequest → (streaming : Bool) → Result Defect (Option Prepared)
prepare p (fresh intent) streaming = do
  prepared ← prepare_fresh p intent streaming
  ok (some prepared)
prepare p (continue request) streaming = do
  row ← resolve_target request.continuation.target
  resumption ← resume_generation p row request
  prepare_resumed row streaming resumption

-- The rest of a call, for what was prepared.
abbrev pub optionally :
    {A : Type 0} → (Prepared → Result Defect A) → Option Prepared → Result Defect (Option A)
optionally f none = ok none
optionally f (some q) = do outcome ← f q; ok (some outcome)

abbrev pub request_target : ProviderRequest → ProviderTarget
request_target (fresh intent) = intent.target
request_target (continue request) = request.continuation.target

prepare_fresh-ok :
    (p : Platform) (intent : GenerateIntent) (streaming : Bool) (q : Prepared)
    → prepare_fresh p intent streaming ≡ ok q
    → (resolve_target intent.target ≡ ok q.row) × Accepts q.row q.intent streaming
unfolding prepare_fresh
prepare_fresh-ok p intent streaming q h =
    let (row, e, h₁) = >>=-eq-ok (resolve_target intent.target) _ h in
    let (u, valid, h₂) = >>=-eq-ok (validate_intent row intent streaming) _ h₁ in
    let (state, fits, h₃) = >>=-eq-ok (preflight_generation p row intent) _ h₂ in
    subst
      (λ (r : Prepared).
        (resolve_target intent.target ≡ ok r.row) × Accepts r.row r.intent streaming)
      (ok-injective h₃) (e, (validate_intent-ok_iff row intent streaming).0 valid)

prepare_resumed-ok :
    (target : ProviderTarget) (row : ModelRow) (streaming : Bool) (r : Resumption) (q : Prepared)
    → resolve_target target ≡ ok row
    → prepare_resumed row streaming r ≡ ok (some q)
    → (resolve_target target ≡ ok q.row) × Accepts q.row q.intent streaming
unfolding prepare_resumed
prepare_resumed-ok target row streaming not_followed q e h =
    absurd (none-ne-some _ (ok-injective h))
prepare_resumed-ok target row streaming (resumed intent state) q e h =
    let (u, valid, h₁) = >>=-eq-ok (validate_intent row intent streaming) _ h in
    let made : some (record { row = row; intent = intent; state = state }) ≡ some q =
      ok-injective h₁ in
    let same : record { row = row; intent = intent; state = state } ≡ q = cc in
    subst (λ (r : Prepared). (resolve_target target ≡ ok r.row) × Accepts r.row r.intent streaming)
      same (e, (validate_intent-ok_iff row intent streaming).0 valid)

-- A request that was prepared has the row of its target, which accepts the intent that is sent.
pub prepare-ok :
    (p : Platform) (request : ProviderRequest) (streaming : Bool) (q : Prepared)
    → prepare p request streaming ≡ ok (some q)
    → (resolve_target (request_target request) ≡ ok q.row) × Accepts q.row q.intent streaming
unfolding prepare
prepare-ok p (fresh intent) streaming q h =
    let (made, e, h₁) = >>=-eq-ok (prepare_fresh p intent streaming) _ h in
    let given : some made ≡ some q = ok-injective h₁ in
    let same : made ≡ q = cc in prepare_fresh-ok p intent streaming q (e ∙ ap ok same)
prepare-ok p (continue request) streaming q h =
    let (row, e, h₁) = >>=-eq-ok (resolve_target request.continuation.target) _ h in
    let (r, resumes, h₂) = >>=-eq-ok (resume_generation p row request) _ h₁ in
    prepare_resumed-ok request.continuation.target row streaming r q e h₂

pub optionally-some :
    {A : Type 0} (f : Prepared → Result Defect A) (prepared : Option Prepared) (o : A)
    → optionally f prepared ≡ ok (some o)
    → (q : Prepared) × (prepared ≡ some q) × (f q ≡ ok o)
optionally-some f none o h = absurd (none-ne-some _ (ok-injective h))
optionally-some f (some q) o h =
    let (made, e, h₁) = >>=-eq-ok (f q) _ h in
    let given : some made ≡ some o = ok-injective h₁ in
    let same : made ≡ o = cc in (q, refl, e ∙ ap ok same)
