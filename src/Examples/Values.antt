-- ===== src/Examples/Values.antt =====
-- JSON values, token usage and prices.
use llm_calling.Base.{◌≤◌, ◌≡◌, refl, ◌↔◌, inl, inr, true, none, some, arith, is_some, ok, err}
use llm_calling.Base.Int.{pos, negsuc}
use llm_calling.Contract.{value_error}
use llm_calling.Contract.Outcome.{CallMeta}
use llm_calling.Contract.Usage.{TokenUsage, from_components, from_components-negative}
use llm_calling.Examples.{meta}
use llm_calling.Json.{
  Json, bool, int, arr, obj, nil, cons, end, field, int_value, sequence, no_element, element,
  freeze_at, freeze_json_value, thaw_json_value,
}
use llm_calling.Json.Bounds.{IsBounded, freeze_json_value-IsBounded}
use llm_calling.Json.Thaw.{freeze_json_value-thaw_iff}
use llm_calling.Prices.{
  snapshot, find_rates, match_rates, exact_amount, half_up, amount_usd_micros, crosses_tier,
  estimate_cost,
}
use llm_calling.Prices.Bounds.{without_cache_reads, cost_of, estimate_cost-discount}
use llm_calling.Prices.Estimates.{
  IsPriced, estimate_cost-some_iff, IsAmount, estimate_cost-IsAmount,
}

freeze_json_value-IsBounded_example : IsBounded 0 (arr (cons (int (pos 7)) nil))
unfolding freeze_json_value freeze_at
freeze_json_value-IsBounded_example =
    freeze_json_value-IsBounded (sequence 0 (element (int_value (pos 7)) no_element))
      (arr (cons (int (pos 7)) nil)) refl

abbrev value : Json
value = obj (field "a" (arr (cons (bool true) nil)) end)

freeze_json_value-thaw_iff_example :
    (freeze_json_value (thaw_json_value value) ≡ ok value) ↔ (IsBounded 0 value × (value ≡ value))
freeze_json_value-thaw_iff_example = freeze_json_value-thaw_iff value value

abbrev no_usage : TokenUsage
no_usage = record {
  input_tokens = 0;
  output_tokens = 0;
  total_tokens = 0;
  reasoning_tokens = none;
  cache_read_input_tokens = none;
  cache_write_input_tokens = none;
}

from_components-negative_example :
    from_components (pos 5) (negsuc 0) none none none none ≡ err value_error
from_components-negative_example =
    from_components-negative (pos 5) (negsuc 0) none none none none 0 (inr (inl refl))

abbrev usage : TokenUsage
usage = record {
  input_tokens = 1000;
  output_tokens = 20;
  total_tokens = 1020;
  reasoning_tokens = none;
  cache_read_input_tokens = some 400;
  cache_write_input_tokens = none;
}

abbrev priced_meta : CallMeta
priced_meta = record meta { usage = some usage }

estimate_cost-discount_example :
    (cost_of (estimate_cost priced_meta)
      ≤ cost_of (estimate_cost (record priced_meta { usage = some (without_cache_reads usage) })))
    × (is_some (estimate_cost priced_meta)
        ≡ is_some (estimate_cost (record priced_meta { usage = some (without_cache_reads usage) })))
estimate_cost-discount_example = estimate_cost-discount priced_meta usage refl (omega arith)

estimate_cost-some_iff_example : (is_some (estimate_cost priced_meta) ≡ true) ↔ IsPriced priced_meta
estimate_cost-some_iff_example = estimate_cost-some_iff priced_meta

estimate_cost-IsAmount_example : IsAmount priced_meta 206
unfolding estimate_cost match_rates find_rates snapshot crosses_tier amount_usd_micros half_up
    exact_amount
estimate_cost-IsAmount_example =
    estimate_cost-IsAmount priced_meta (record { amount_usd_micros = 206 }) refl
