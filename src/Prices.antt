-- ===== src/Prices.antt =====
-- Cost estimates (provider_runtime/prices.py) over the snapshot prices_snapshot.json.
-- A rate is a whole number of thousandths of a micro-dollar for one token: the rates of the snapshot
-- have at most three decimal places, and `Decimal` adds and multiplies such numbers exactly up to 28
-- digits.
pub mod Bounds
pub mod Tiers
pub mod Estimates
use llm_calling.Base.{
  ℕ, suc, ◌+◌, ◌-◌, ◌*◌, ◌/◌, ◌%◌, String, Bool, false, ◌&&◌, none, some, List, [], ◌∷◌, str_eq,
  ltb, leb, if◌then◌else◌,
}
use llm_calling.Contract.{
  ProviderName, openai, anthropic, gemini, deepseek, xai, eq_provider, Presence,
}
use llm_calling.Contract.Outcome.{CallMeta}
use llm_calling.Contract.Usage.{TokenUsage}

pub record Rates : Type 0 where
  pub input_mtok : ℕ
  pub output_mtok : ℕ
  pub cache_read_mtok : ℕ
  pub cache_write_surcharge_mtok : ℕ

pub record SnapshotRow : Type 0 where
  pub provider : ProviderName
  pub model : String
  pub rates : Rates

abbrev snapshot_row : ProviderName → String → ℕ → ℕ → ℕ → ℕ → SnapshotRow
snapshot_row provider model input output read write = record {
  provider = provider;
  model = model;
  rates = record {
    input_mtok = input;
    output_mtok = output;
    cache_read_mtok = read;
    cache_write_surcharge_mtok = write;
  };
}

-- The rows of prices_snapshot.json, in its order.
unfoldable pub snapshot : List SnapshotRow
snapshot =
    snapshot_row openai "gpt-6-astra" 10000 50000 1000 2500
    ∷ snapshot_row openai "gpt-6.1-sol" 2000 10000 100 500
    ∷ snapshot_row openai "gpt-6.1-terra" 1000 5000 50 250
    ∷ snapshot_row openai "gpt-6-luna" 100 500 10 25
    ∷ snapshot_row anthropic "claude-fable-5-1" 10000 50000 250 2500
    ∷ snapshot_row anthropic "claude-opus-5-5" 4000 20000 200 1000
    ∷ snapshot_row anthropic "claude-sonnet-5-5" 2000 10000 100 500
    ∷ snapshot_row anthropic "claude-haiku-5-5" 100 500 10 25
    ∷ snapshot_row gemini "gemini-4-argon" 2000 10000 100 0
    ∷ snapshot_row gemini "gemini-3.8-flash" 750 3750 75 0
    ∷ snapshot_row gemini "gemini-3.5-flash-lite" 300 2500 30 0
    ∷ snapshot_row gemini "gemini-3.1-pro-preview" 2000 12000 200 0
    ∷ snapshot_row deepseek "deepseek-flash" 300 1200 6 0
    ∷ snapshot_row deepseek "deepseek-v4-pro" 1320 3960 44 0
    ∷ []

-- `_RATES.get((provider, model))`: the keys of the snapshot are distinct.
unfoldable pub find_rates : List SnapshotRow → ProviderName → String → Presence Rates
find_rates [] provider model = none
find_rates (row ∷ rest) provider model =
    if eq_provider row.provider provider && str_eq row.model model
    then some row.rates
    else find_rates rest provider model

unfoldable pub match_rates : ProviderName → String → Presence Rates
match_rates provider model = find_rates snapshot provider model

abbrev pub tokens : Presence ℕ → ℕ
tokens (some value) = value
tokens none = 0

-- The exact amount in thousandths; `max(0, input - cache_read)` is subtraction on ℕ.
unfoldable pub exact_amount : TokenUsage → Rates → ℕ
exact_amount usage rates =
    let cache_read = tokens usage.cache_read_input_tokens in
    let cache_write = tokens usage.cache_write_input_tokens in
    let uncached = usage.input_tokens - cache_read in
    uncached * rates.input_mtok
    + cache_read * rates.cache_read_mtok
    + cache_write * rates.cache_write_surcharge_mtok
    + usage.output_tokens * rates.output_mtok

-- `quantize(Decimal(1), rounding=ROUND_HALF_UP)` of thousandths: the digits after the point are cut
-- off, and one is added if the first of them is at least 5.
unfoldable pub half_up : ℕ → ℕ
half_up thousandths =
    let whole = thousandths / 1000 in if leb 5 (thousandths % 1000 / 100) then suc whole else whole

-- `_amount_usd_micros`: the amount, rounded half up to a whole micro-dollar.
unfoldable pub amount_usd_micros : TokenUsage → Rates → ℕ
amount_usd_micros usage rates = half_up (exact_amount usage rates)

-- The provenance and the date of the snapshot are constants, and are left out.
pub record CostEstimate : Type 0 where
  pub amount_usd_micros : ℕ

-- A request that crosses a published higher-price tier.
unfoldable pub crosses_tier : ProviderName → String → ℕ → Bool
crosses_tier openai model input = ltb 272_000 input
crosses_tier anthropic model input = str_eq model "claude-haiku-5-5" && ltb 100_000 input
crosses_tier gemini model input = str_eq model "gemini-3.1-pro-preview" && ltb 200_000 input
crosses_tier deepseek model input = false
crosses_tier xai model input = false

abbrev pub priced : TokenUsage → Presence Rates → Presence CostEstimate
priced usage none = none
priced usage (some rates) = some (record { amount_usd_micros = amount_usd_micros usage rates })

abbrev pub estimate_usage : ProviderName → String → Presence TokenUsage → Presence CostEstimate
estimate_usage provider model none = none
estimate_usage provider model (some usage) =
    let matched = match_rates provider model in
    if crosses_tier provider model usage.input_tokens then none else priced usage matched

unfoldable pub estimate_cost : CallMeta → Presence CostEstimate
estimate_cost meta = estimate_usage meta.provider meta.model meta.usage
