-- ===== src/Prices/Estimates.antt =====
-- Which calls have an estimate, and its amount, in terms of the rows of the snapshot.
use mathlib.Core.Path.{subst}
use llm_calling.Base.{
  ℕ, ◌+◌, ◌-◌, ◌*◌, ◌≤◌, ◌<◌, String, ◌≡◌, refl, ap, ◌↔◌, inl, inr, Bool, true, false, none, some,
  List, [], ◌∷◌, arith, if◌then◌else◌, Option-cases, is_some,
}
use llm_calling.Contract.{ProviderName, Presence}
use llm_calling.Contract.Outcome.{CallMeta}
use llm_calling.Contract.Usage.{TokenUsage}
use llm_calling.Prices.{
  Rates, snapshot, match_rates, tokens, exact_amount, half_up, amount_usd_micros, CostEstimate,
  crosses_tier, priced, estimate_usage, estimate_cost,
}
use llm_calling.Prices.Bounds.{cost_of}
use llm_calling.Prices.Tiers.{PricesOf, found_row, row_found, IsBelowTiers, crosses_tier_iff}

-- The usage is known, the snapshot prices the model, and the input is below the tiers.
abbrev pub IsPriced : CallMeta → Type 0
IsPriced meta =
    (usage : TokenUsage) × (rates : Rates) × (meta.usage ≡ some usage)
    × PricesOf meta.provider meta.model rates
    × IsBelowTiers meta.provider meta.model usage.input_tokens

priced_row :
    (provider : ProviderName) (model : String) (rates : Rates)
    → PricesOf provider model rates
    → is_some (match_rates provider model) ≡ true
unfolding match_rates
priced_row provider model rates (row, listed, p, m, same) =
    row_found snapshot provider model row listed p m

if_priced :
    (crossed : Bool) (usage : TokenUsage) (matched : Presence Rates) (c : CostEstimate)
    → (if crossed then none else priced usage matched) ≡ some c
    → (crossed ≡ false) × (priced usage matched ≡ some c)
if_priced true usage matched c h = cc
if_priced false usage matched c h = (refl, h)

priced-rates :
    (usage : TokenUsage) (matched : Presence Rates) (c : CostEstimate)
    → priced usage matched ≡ some c
    → (rates : Rates) × (matched ≡ some rates)
      × (amount_usd_micros usage rates ≡ c.amount_usd_micros)
priced-rates usage none c h = cc
priced-rates usage (some rates) c h = (rates, refl, ap (λ o. cost_of o) h)

priced-some :
    (usage : TokenUsage) (matched : Presence Rates)
    → is_some matched ≡ true
    → is_some (priced usage matched) ≡ true
priced-some usage none h = h
priced-some usage (some rates) h = refl

estimate_usage-rates :
    (provider : ProviderName) (model : String) (usage : Presence TokenUsage) (c : CostEstimate)
    → estimate_usage provider model usage ≡ some c
    → (known : TokenUsage) × (rates : Rates) × (usage ≡ some known)
      × PricesOf provider model rates
      × IsBelowTiers provider model known.input_tokens
      × (amount_usd_micros known rates ≡ c.amount_usd_micros)
unfolding match_rates
estimate_usage-rates provider model none c h = cc
estimate_usage-rates provider model (some usage) c h =
    let (below, given) =
      if_priced (crosses_tier provider model usage.input_tokens) usage (match_rates provider model)
        c h in
    let (rates, found, amount) = priced-rates usage (match_rates provider model) c given in
    (
      usage,
      rates,
      refl,
      found_row snapshot provider model rates found,
      (crosses_tier_iff provider model usage.input_tokens).0 below,
      amount,
    )

-- A call has an estimate exactly if its usage is known, the snapshot has a row of its provider and its
-- model, and its input has at most 272000 tokens for a model of OpenAI, 100000 for Claude Haiku 5.5 and
-- 200000 for Gemini 3.1 Pro.
pub estimate_cost-some_iff :
    (meta : CallMeta) → (is_some (estimate_cost meta) ≡ true) ↔ IsPriced meta
unfolding estimate_cost
estimate_cost-some_iff meta = (
  λ present. elim (Option-cases (estimate_usage meta.provider meta.model meta.usage)) [
    | inl missing_ ↦ absurd (ground (arith, present, missing_))
    | inr (c, e) ↦
        let (usage, rates, known, prices, below, amount) =
          estimate_usage-rates meta.provider meta.model meta.usage c e in
        (usage, rates, known, prices, below)
  ],
  λ (usage, rates, known, prices, below).
      let open_ = (crosses_tier_iff meta.provider meta.model usage.input_tokens).1 below in
      let priced_ = priced_row meta.provider meta.model rates prices in
      rw (known, open_) (priced-some usage (match_rates meta.provider meta.model) priced_),
)

-- The input tokens that were not read from the cache: none if more were read than there are.
abbrev pub IsUncached : TokenUsage → ℕ → Type 0
IsUncached usage n =
    (tokens usage.cache_read_input_tokens ≤ usage.input_tokens
      → n + tokens usage.cache_read_input_tokens ≡ usage.input_tokens)
    × (usage.input_tokens < tokens usage.cache_read_input_tokens → n ≡ 0)

-- The sum of tokens at their rates, in thousandths of a micro-dollar.
abbrev pub charge : List (ℕ × ℕ) → ℕ
charge [] = 0
charge ((count, rate) ∷ rest) = count * rate + charge rest

abbrev pub charges : TokenUsage → Rates → ℕ → ℕ
charges usage rates uncached = charge (
    (uncached, rates.input_mtok)
    ∷ (tokens usage.cache_read_input_tokens, rates.cache_read_mtok)
    ∷ (tokens usage.cache_write_input_tokens, rates.cache_write_surcharge_mtok)
    ∷ (usage.output_tokens, rates.output_mtok)
    ∷ [])

-- The nearest whole micro-dollar, the next one from a half on.
abbrev pub IsNearest : ℕ → ℕ → Type 0
IsNearest amount thousandths =
    (1000 * amount ≤ thousandths + 500) × (thousandths + 500 < 1000 * (amount + 1))

half_up-IsNearest : (x : ℕ) → IsNearest (half_up x) x
unfolding half_up
half_up-IsNearest x = ground arith

abbrev pub IsAmount : CallMeta → ℕ → Type 0
IsAmount meta amount =
    (usage : TokenUsage) × (rates : Rates) × (uncached : ℕ) × (meta.usage ≡ some usage)
    × PricesOf meta.provider meta.model rates
    × IsUncached usage uncached
    × IsNearest amount (charges usage rates uncached)

amount-IsNearest :
    (usage : TokenUsage) (rates : Rates)
    → IsNearest
        (amount_usd_micros usage rates)
        (charges usage rates (usage.input_tokens - tokens usage.cache_read_input_tokens))
unfolding amount_usd_micros exact_amount
amount-IsNearest usage rates =
    let near = half_up-IsNearest (exact_amount usage rates) in
    (omega (arith, near.0), omega (arith, near.1))

-- An estimate is the nearest whole micro-dollar, the next one from a half on, of the sum of four
-- charges at the rates of the snapshot for the provider and the model: the input that was not read
-- from the cache, where more read than input counts as no such input; the cache reads; the surcharge
-- on cache writes; and the output.
pub estimate_cost-IsAmount :
    (meta : CallMeta) (c : CostEstimate)
    → estimate_cost meta ≡ some c
    → IsAmount meta c.amount_usd_micros
unfolding estimate_cost
estimate_cost-IsAmount meta c h =
    let (usage, rates, known, prices, below, amount) =
      estimate_usage-rates meta.provider meta.model meta.usage c h in
    (
      usage,
      rates,
      usage.input_tokens - tokens usage.cache_read_input_tokens,
      known,
      prices,
      ((λ sub. omega arith), (λ more. omega arith)),
      subst
          (λ n.
            IsNearest n
              (charges usage rates (usage.input_tokens - tokens usage.cache_read_input_tokens)))
          amount (amount-IsNearest usage rates),
    )
