-- ===== src/Registry/Valid.antt =====
-- The rows of the registry pass its checks, and what that means for a row that is resolved.
use mathlib.Core.Path.{subst}
use llm_calling.Base.{
  ℕ, ◌≤◌, String, ◌≡◌, refl, inl, inr, Bool, true, false, not, ◌&&◌, Option, none, some, List, [],
  ◌∷◌, arith, str_eq, eq_iff, Bool-cases, is_some, any, All, ok, >>=-eq-ok, raise_if-ok, str_length,
}
use llm_calling.Contract.{
  eq_provider, eq_provider_iff, ProviderTarget, EngineId, openai_responses, openai_chat,
  anthropic_messages, gemini_generate, Presence, Reason, unknown_target, registry_invalid,
}
use llm_calling.Json.{freeze_at, freeze_json_value, freeze_json_object, thaw, thaw_json_value}
use llm_calling.Registry.{is_text, ReasoningRow, Dict, lookup, ModelRow}
use llm_calling.Registry.Check.{
  matches_key, eq_engine, engine_of, Identity, identity, malformed_identity, invalid_dispatch,
  invalid_limits, is_empty, check_configurations, check_reasoning, check_row, validate_rows,
}
use llm_calling.Registry.Resolve.{find_row, or_invalid, resolve_target}
use llm_calling.Registry.Rows.{rows}

-- The shipped rows pass every check of `_validate_rows`: the import does not raise.
pub validate_rows-rows : validate_rows [] rows ≡ ok tt
unfolding validate_rows check_row check_configurations rows matches_key str_length
    freeze_json_object freeze_json_value freeze_at thaw_json_value thaw
validate_rows-rows = refl

-- What the checks promise of a row.
pub record IsValidRow (row : ModelRow) : Type 0 where
  pub engine : row.engine ≡ engine_of row.provider
  pub budget_fits : row.max_output_tokens ≤ row.context_window
  pub budget_positive : 1 ≤ row.max_output_tokens
  pub source_limit :
      (limit : ℕ)
      → row.source_max_output_tokens ≡ some limit
      → (row.max_output_tokens ≤ limit) × (limit ≤ row.context_window)
  pub accepts_text : any is_text row.modalities ≡ true
  pub default_declared :
      (key : String)
      → row.source_default_reasoning ≡ some key
      → (d : Dict ReasoningRow) × (row.reasoning ≡ some d) × (is_some (lookup key d) ≡ true)

eq_engine-eq : (a b : EngineId) → eq_engine a b ≡ true → a ≡ b
eq_engine-eq openai_responses b h = ground arith
eq_engine-eq openai_chat b h = ground arith
eq_engine-eq anthropic_messages b h = ground arith
eq_engine-eq gemini_generate b h = ground arith

limits-valid :
    (row : ModelRow)
    → invalid_limits row ≡ false
    → (row.max_output_tokens ≤ row.context_window)
      × (1 ≤ row.max_output_tokens)
      × ((limit : ℕ)
          → row.source_max_output_tokens ≡ some limit
          → (row.max_output_tokens ≤ limit) × (limit ≤ row.context_window))
      × (any is_text row.modalities ≡ true)
limits-valid row h = (ground arith, ground arith, (λ limit e. ground arith), ground arith)

default-valid :
    (levels : Presence (Dict ReasoningRow)) (default : Presence String) (key : String)
    → check_reasoning levels default ≡ ok tt
    → default ≡ some key
    → (d : Dict ReasoningRow) × (levels ≡ some d) × (is_some (lookup key d) ≡ true)
default-valid none default key h e = cc
default-valid (some d) none key h e = cc
default-valid (some d) (some k) key h e =
    let (_, configured) = raise_if-ok (is_empty d) registry_invalid _ tt h in
    let (u, checked, declared) = >>=-eq-ok (check_configurations d) _ configured in
    let (known, _) = raise_if-ok (not (is_some (lookup k d))) registry_invalid _ tt declared in
    let same : k ≡ key = cc in
    (d, refl, subst (λ j. is_some (lookup j d) ≡ true) same (ground arith))

check_row-IsValidRow :
    (seen : List Identity) (row : ModelRow) → check_row seen row ≡ ok tt → IsValidRow row
unfolding check_row
check_row-IsValidRow seen row h =
    let (_, h₁) = raise_if-ok (malformed_identity seen row) registry_invalid _ tt h in
    let (dispatch, h₂) = raise_if-ok (invalid_dispatch row) registry_invalid _ tt h₁ in
    let (limits, h₃) = raise_if-ok (invalid_limits row) registry_invalid _ tt h₂ in
    let l = limits-valid row limits in
    record {
      engine = eq_engine-eq row.engine (engine_of row.provider) (ground arith);
      budget_fits = l.0;
      budget_positive = l.1;
      source_limit = l.2;
      accepts_text = l.3;
      default_declared = λ key. default-valid row.reasoning row.source_default_reasoning key h₃;
    }

-- Rows that pass the checks are valid, each of them.
pub validate_rows-IsValidRow :
    (seen : List Identity) (list : List ModelRow)
    → validate_rows seen list ≡ ok tt
    → All IsValidRow list
unfolding validate_rows
validate_rows-IsValidRow seen [] h = tt
validate_rows-IsValidRow seen (row ∷ rest) h =
    let (u, first, more) = >>=-eq-ok (check_row seen row) _ h in
    (check_row-IsValidRow seen row first, validate_rows-IsValidRow (identity row ∷ seen) rest more)

All-find_row :
    (P : ModelRow → Type 0) (p : ModelRow → Bool) (list : List ModelRow) (row : ModelRow)
    → All P list
    → find_row p list ≡ some row
    → P row × (p row ≡ true)
All-find_row P p [] row h e = cc
All-find_row P p (r ∷ list) row h e = elim (Bool-cases (p r)) [
  | inl here ↦
      let same : r ≡ row = ground (arith, e) in
      (subst P same h.0, subst (λ x. p x ≡ true) same here)
  | inr there ↦ All-find_row P p list row h.1 (ground (arith, e))
]

or_invalid-ok :
    (reason : Reason) (o : Option ModelRow) (row : ModelRow)
    → or_invalid reason o ≡ ok row
    → o ≡ some row
or_invalid-ok reason none row h = cc
or_invalid-ok reason (some r) row h = cc

-- A target that resolves gives a valid row of that provider and model: its engine is its provider's,
-- its request budget is positive and fits its window and its stated capacity, it takes text, and its
-- default reasoning key is declared.
pub resolve_target-IsValidRow :
    (target : ProviderTarget) (row : ModelRow)
    → resolve_target target ≡ ok row
    → IsValidRow row × (row.provider ≡ target.provider) × (row.model_id ≡ target.model)
unfolding resolve_target
resolve_target-IsValidRow target row h =
    let (valid, found) =
      All-find_row IsValidRow
        (λ r. eq_provider r.provider target.provider && str_eq r.model_id target.model) rows row
        (validate_rows-IsValidRow [] rows validate_rows-rows)
        (or_invalid-ok unknown_target _ row h) in
    (
      valid,
      (eq_provider_iff row.provider target.provider).0 (ground arith),
      (eq_iff row.model_id target.model).0 (ground arith),
    )
