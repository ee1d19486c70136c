-- ===== src/Prices/Bounds.antt =====
-- Bounds on a cost estimate.
use mathlib.Core.Path.{subst}
use llm_calling.Base.{
  ℕ, ◌+◌, ◌-◌, ◌*◌, ◌≤◌, String, ◌≡◌, inl, inr, ◌&&◌, none, some, List, [], ◌∷◌, arith, str_eq,
  Bool-cases, Option-cases, is_some, All,
}
use llm_calling.Contract.{ProviderName, eq_provider, Presence}
use llm_calling.Contract.Outcome.{CallMeta}
use llm_calling.Contract.Usage.{TokenUsage}
use llm_calling.Prices.{
  Rates, SnapshotRow, snapshot, find_rates, match_rates, tokens, exact_amount, half_up,
  amount_usd_micros, CostEstimate, estimate_usage, estimate_cost,
}

-- A row whose cache reads cost no more than its input.
abbrev IsDiscounted : Rates → Type 0
IsDiscounted rates = rates.cache_read_mtok ≤ rates.input_mtok

snapshot-IsDiscounted : All (λ row. IsDiscounted row.rates) snapshot
unfolding snapshot
snapshot-IsDiscounted = omega arith

find_rates-IsDiscounted :
    (list : List SnapshotRow) (provider : ProviderName) (model : String) (rates : Rates)
    → All (λ row. IsDiscounted row.rates) list
    → find_rates list provider model ≡ some rates
    → IsDiscounted rates
unfolding find_rates
find_rates-IsDiscounted [] provider model rates h e = cc
find_rates-IsDiscounted (row ∷ rest) provider model rates h e =
    elim (Bool-cases (eq_provider row.provider provider && str_eq row.model model)) [
      | inl here ↦ let same : row.rates ≡ rates = ground (arith, e) in subst IsDiscounted same h.0
      | inr there ↦ find_rates-IsDiscounted rest provider model rates h.1 (ground (arith, e))
    ]

match_rates-IsDiscounted :
    (provider : ProviderName) (model : String) (rates : Rates)
    → match_rates provider model ≡ some rates
    → IsDiscounted rates
unfolding match_rates
match_rates-IsDiscounted provider model rates e =
    find_rates-IsDiscounted snapshot provider model rates snapshot-IsDiscounted e

part-le : (d r input read : ℕ) → read ≤ input → d * input + r * read ≤ (d + r) * input
part-le d r input read k = grind arith

uncached-le : (i r input read : ℕ) → r ≤ i → read ≤ input → (i - r) * input + r * read ≤ i * input
uncached-le i r input read h k =
    let whole : i - r + r ≡ i = omega arith in
    subst (λ n. (i - r) * input + r * read ≤ n * input) whole (part-le (i - r) r input read k)

half_up-le : (x y : ℕ) → x ≤ y → half_up x ≤ half_up y
unfolding half_up
half_up-le x y h = ground arith

abbrev pub without_cache_reads : TokenUsage → TokenUsage
without_cache_reads usage = record usage { cache_read_input_tokens = none }

abbrev pub cost_of : Presence CostEstimate → ℕ
cost_of none = 0
cost_of (some c) = c.amount_usd_micros

amount-discount :
    (usage : TokenUsage) (rates : Rates)
    → IsDiscounted rates
    → tokens usage.cache_read_input_tokens ≤ usage.input_tokens
    → amount_usd_micros usage rates ≤ amount_usd_micros (without_cache_reads usage) rates
unfolding amount_usd_micros exact_amount
amount-discount usage rates cheap sub =
    let whole : usage.input_tokens - 0 ≡ usage.input_tokens = omega arith in
    rw whole (
      half_up-le _ _ (
        omega (
          arith,
          uncached-le usage.input_tokens (tokens usage.cache_read_input_tokens) rates.input_mtok
              rates.cache_read_mtok sub cheap,
        )))

estimate_usage-discount :
    (provider : ProviderName) (model : String) (usage : TokenUsage)
    → tokens usage.cache_read_input_tokens ≤ usage.input_tokens
    → (cost_of (estimate_usage provider model (some usage))
        ≤ cost_of (estimate_usage provider model (some (without_cache_reads usage))))
      × (is_some (estimate_usage provider model (some usage))
          ≡ is_some (estimate_usage provider model (some (without_cache_reads usage))))
estimate_usage-discount provider model usage sub =
    elim (Option-cases (match_rates provider model)) [
      | inl unpriced ↦ rw unpriced (ground arith)
      | inr (rates, found) ↦
          let less =
            amount-discount usage rates (match_rates-IsDiscounted provider model rates found) sub in
          rw found (ground arith)
    ]

-- For every call, cache reads that are part of its input never raise its estimate: the estimate is at
-- most that of the same call with no cache reads, and there is one for the same calls.
pub estimate_cost-discount :
    (meta : CallMeta) (usage : TokenUsage)
    → meta.usage ≡ some usage
    → tokens usage.cache_read_input_tokens ≤ usage.input_tokens
    → (cost_of (estimate_cost meta)
        ≤ cost_of (estimate_cost (record meta { usage = some (without_cache_reads usage) })))
      × (is_some (estimate_cost meta)
          ≡ is_some (estimate_cost (record meta { usage = some (without_cache_reads usage) })))
unfolding estimate_cost
estimate_cost-discount meta usage e sub =
    rw e (estimate_usage-discount meta.provider meta.model usage sub)
