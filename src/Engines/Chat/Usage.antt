-- ===== src/Engines/Chat/Usage.antt =====
-- Usage: raw frames folded field by field, and normalized into `TokenUsage`.
use llm_calling.Base.{String, Option, none, some, Result, ok, err}
use llm_calling.Base.Int.{ℤ}
use llm_calling.Continuation.{mapping_of}
use llm_calling.Continuation.Resume.{put}
use llm_calling.Contract.{malformed_usage, Defect, protocol_defect, value_error}
use llm_calling.Contract.Usage.{TokenUsage, from_components}
use llm_calling.Engines.{int_or_none, or_zero, or_no_fields}
use llm_calling.Engines.Chat.{Served, deepseek_served, xai_served}
use llm_calling.Json.{Json, null, obj, Fields, end, field, get}

-- `inner.update({k: v for k, v in new.items() if v is not None})`
unfoldable pub update_known : Fields → Fields → Fields
update_known inner end = inner
update_known inner (field k null fs) = update_known inner fs
update_known inner (field k v fs) = update_known (put k v inner) fs

-- What one entry of the new frame sets: two mappings are merged, `None` erases nothing.
unfoldable pub merged_value : Option Json → Json → Option Json
merged_value existing null = existing
merged_value (some (obj old)) (obj new) = some (obj (update_known old new))
merged_value existing v = some v

abbrev pub set_known : String → Option Json → Fields → Fields
set_known k none fs = fs
set_known k (some v) fs = put k v fs

unfoldable pub fold_entries : Fields → Fields → Fields
fold_entries merged end = merged
fold_entries merged (field k v fs) =
    fold_entries (set_known k (merged_value (get k merged) v) merged) fs

unfoldable pub fold_usage : Option Fields → Option Fields → Option Fields
fold_usage base none = base
fold_usage none (some new) = some new
fold_usage (some base) (some new) = some (fold_entries base new)

abbrev count_at : String → Fields → Option ℤ
count_at key fs = int_or_none (get key fs)

abbrev cache_read : Served → Fields → Fields → Option ℤ
cache_read deepseek_served raw details = count_at "prompt_cache_hit_tokens" raw
cache_read xai_served raw details = count_at "cached_tokens" details

abbrev or_malformed_usage : Result Defect TokenUsage → Result Defect TokenUsage
or_malformed_usage (err value_error) = err (protocol_defect malformed_usage)
or_malformed_usage (err d) = err d
or_malformed_usage (ok u) = ok u

unfoldable pub usage_from_raw : Served → Fields → Result Defect TokenUsage
usage_from_raw provider raw =
    let prompt_details = or_no_fields (mapping_of (get "prompt_tokens_details" raw)) in
    let completion_details = or_no_fields (mapping_of (get "completion_tokens_details" raw)) in
    or_malformed_usage (
      from_components (or_zero (count_at "prompt_tokens" raw))
        (or_zero (count_at "completion_tokens" raw)) (count_at "total_tokens" raw)
        (count_at "reasoning_tokens" completion_details) (cache_read provider raw prompt_details)
        (count_at "cache_write_tokens" prompt_details))
