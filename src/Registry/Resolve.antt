-- ===== src/Registry/Resolve.antt =====
-- Resolution of a reference or a target to the first row that has it.
use llm_calling.Base.{
  String, Bool, ◌&&◌, Option, none, some, List, [], ◌∷◌, str_eq, if◌then◌else◌, Result, ok, err,
}
use llm_calling.Contract.{
  eq_provider, ProviderTarget, Reason, unknown_ref, unknown_target, Defect, invalid_request,
}
use llm_calling.Registry.{ModelRow}
use llm_calling.Registry.Rows.{rows}

abbrev pub find_row : (ModelRow → Bool) → List ModelRow → Option ModelRow
find_row p [] = none
find_row p (row ∷ rest) = if p row then some row else find_row p rest

abbrev pub or_invalid : Reason → Option ModelRow → Result Defect ModelRow
or_invalid reason none = err (invalid_request reason)
or_invalid reason (some row) = ok row

unfoldable pub resolve : String → Result Defect ModelRow
resolve ref = or_invalid unknown_ref (find_row (λ row. str_eq row.ref ref) rows)

unfoldable pub resolve_target : ProviderTarget → Result Defect ModelRow
resolve_target target = or_invalid unknown_target (
    find_row (λ row. eq_provider row.provider target.provider && str_eq row.model_id target.model)
      rows)
