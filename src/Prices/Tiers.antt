-- ===== src/Prices/Tiers.antt =====
-- The rows of the snapshot that a lookup finds, and the tiers where a price is higher.
-- The row stands in the list.
use llm_calling.Base.{
  ℕ, ◌≤◌, String, ◌≡◌, refl, ap, ◌∙◌, ◌↔◌, ◌⊎◌, inl, inr, true, false, ◌&&◌, some, List, [], ◌∷◌,
  arith, str_eq, eq_iff, Bool-cases, is_some, if_known,
}
use llm_calling.Contract.{
  ProviderName, openai, anthropic, gemini, deepseek, xai, eq_provider, eq_provider_iff,
}
use llm_calling.Prices.{Rates, SnapshotRow, snapshot, find_rates, crosses_tier}

abbrev pub Lists : List SnapshotRow → SnapshotRow → Type 0
Lists [] r = ⊥
Lists (row ∷ rest) r = (row ≡ r) ⊎ Lists rest r

-- The snapshot prices this model of this provider.
abbrev pub PricesOf : ProviderName → String → Rates → Type 0
PricesOf provider model rates =
    (row : SnapshotRow) × Lists snapshot row
    × (row.provider ≡ provider)
    × (row.model ≡ model)
    × (row.rates ≡ rates)

pub found_row :
    (list : List SnapshotRow) (provider : ProviderName) (model : String) (rates : Rates)
    → find_rates list provider model ≡ some rates
    → (row : SnapshotRow) × Lists list row
      × (row.provider ≡ provider)
      × (row.model ≡ model)
      × (row.rates ≡ rates)
unfolding find_rates
found_row [] provider model rates h = cc
found_row (row ∷ rest) provider model rates h =
    elim (Bool-cases (eq_provider row.provider provider && str_eq row.model model)) [
      | inl here ↦ (
        row,
        inl refl,
        (eq_provider_iff row.provider provider).0 (ground arith),
        (eq_iff row.model model).0 (ground arith),
        ground (arith, h),
      )
      | inr there ↦
          let (r, listed, p, m, same) = found_row rest provider model rates (ground (arith, h)) in
          (r, inr listed, p, m, same)
    ]

pub row_found :
    (list : List SnapshotRow) (provider : ProviderName) (model : String) (r : SnapshotRow)
    → Lists list r
    → r.provider ≡ provider
    → r.model ≡ model
    → is_some (find_rates list provider model) ≡ true
unfolding find_rates
row_found [] provider model r listed p m = absurd listed
row_found (row ∷ rest) provider model r listed p m =
    if_known (λ o. is_some o ≡ true) (eq_provider row.provider provider && str_eq row.model model)
      (some row.rates) (find_rates rest provider model) (λ here. refl)
      λ there. elim listed [
        | inr later ↦ row_found rest provider model r later p m
        | inl same ↦
            let e = (eq_provider_iff row.provider provider).1 (ap (λ x. x.provider) same ∙ p) in
            let e' = (eq_iff row.model model).1 (ap (λ x. x.model) same ∙ m) in
            absurd (ground (arith, there, e, e'))
      ]

-- The input stays below the published higher-price tiers.
pub record IsBelowTiers (provider : ProviderName) (model : String) (input : ℕ) : Type 0 where
  pub openai_tier : provider ≡ openai → input ≤ 272_000
  pub haiku_tier : provider ≡ anthropic → model ≡ "claude-haiku-5-5" → input ≤ 100_000
  pub pro_tier : provider ≡ gemini → model ≡ "gemini-3.1-pro-preview" → input ≤ 200_000

pub crosses_tier_iff :
    (provider : ProviderName) (model : String) (input : ℕ)
    → (crosses_tier provider model input ≡ false) ↔ IsBelowTiers provider model input
unfolding crosses_tier
crosses_tier_iff openai model input = (
  λ h. record { openai_tier = λ e. ground (arith, h); haiku_tier = λ e. cc; pro_tier = λ e. cc },
  λ h. let low = h.openai_tier refl in ground arith,
)
crosses_tier_iff anthropic model input = (
  λ h. record {
    openai_tier = λ e. cc;
    haiku_tier =
        λ e m. let named = (eq_iff model "claude-haiku-5-5").1 m in ground (arith, h, named);
    pro_tier = λ e. cc;
  },
  λ h. elim (Bool-cases (str_eq model "claude-haiku-5-5")) [
    | inl named ↦
        let low = h.haiku_tier refl ((eq_iff model "claude-haiku-5-5").0 named) in ground arith
    | inr differs ↦ ground arith
  ],
)
crosses_tier_iff gemini model input = (
  λ h. record {
    openai_tier = λ e. cc;
    haiku_tier = λ e. cc;
    pro_tier =
        λ e m. let named = (eq_iff model "gemini-3.1-pro-preview").1 m in ground (arith, h, named);
  },
  λ h. elim (Bool-cases (str_eq model "gemini-3.1-pro-preview")) [
    | inl named ↦
        let low = h.pro_tier refl ((eq_iff model "gemini-3.1-pro-preview").0 named) in ground arith
    | inr differs ↦ ground arith
  ],
)
crosses_tier_iff deepseek model input =
    (λ h. record { openai_tier = λ e. cc; haiku_tier = λ e. cc; pro_tier = λ e. cc }, λ h. refl)
crosses_tier_iff xai model input =
    (λ h. record { openai_tier = λ e. cc; haiku_tier = λ e. cc; pro_tier = λ e. cc }, λ h. refl)
