-- ===== src/Examples/Catalog.antt =====
-- The registry and the gates, for DeepSeek's flash model.
use llm_calling.Base.{◌≡◌, refl, ◌↔◌, true, ok}
use llm_calling.Contract.{deepseek}
use llm_calling.Examples.{from_ok, flash, flash_row, hello}
use llm_calling.Registry.{ModelRow}
use llm_calling.Registry.Resolve.{resolve_target}
use llm_calling.Registry.Rows.{rows}
use llm_calling.Registry.Valid.{IsValidRow, resolve_target-IsValidRow}
use llm_calling.Runtime.Gates.{validate_intent, Accepts, validate_intent-ok_iff}

abbrev found_row : ModelRow
found_row = from_ok flash_row (resolve_target flash)

resolve_target-IsValidRow_example :
    IsValidRow found_row × (found_row.provider ≡ deepseek) × (found_row.model_id ≡ "deepseek-flash")
unfolding resolve_target rows
resolve_target-IsValidRow_example = resolve_target-IsValidRow flash found_row refl

validate_intent-ok_iff_example :
    (validate_intent flash_row hello true ≡ ok tt) ↔ Accepts flash_row hello true
validate_intent-ok_iff_example = validate_intent-ok_iff flash_row hello true
