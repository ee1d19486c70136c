-- ===== src/Contract/Usage.antt =====
-- `TokenUsage`: counts that were checked at construction, and the rule that derives the total.
use llm_calling.Base.{ℕ, ◌+◌, ◌≡◌, ◌⊎◌, none, some, arith, Result, ok, err, ◌>>=◌}
use llm_calling.Base.Int.{ℤ, pos, negsuc, ◌+ℤ◌}
use llm_calling.Contract.{Presence, Defect, value_error}

pub record TokenUsage : Type 0 where
  pub input_tokens : ℕ
  pub output_tokens : ℕ
  pub total_tokens : ℕ
  pub reasoning_tokens : Presence ℕ
  pub cache_read_input_tokens : Presence ℕ
  pub cache_write_input_tokens : Presence ℕ

-- `if count < 0: raise ValueError`
abbrev pub non_negative : ℤ → Result Defect ℕ
non_negative (pos n) = ok n
non_negative (negsuc n) = err value_error

abbrev pub non_negative_presence : Presence ℤ → Result Defect (Presence ℕ)
non_negative_presence none = ok none
non_negative_presence (some n) = non_negative n >>= λ k. ok (some k)

-- `TokenUsage(...)` with `__post_init__`, in the order of its checks.
unfoldable pub token_usage :
    ℤ → ℤ → ℤ → Presence ℤ → Presence ℤ → Presence ℤ → Result Defect TokenUsage
token_usage input output total reasoning cache_read cache_write = do
  i ← non_negative input
  o ← non_negative output
  t ← non_negative total
  r ← non_negative_presence reasoning
  cr ← non_negative_presence cache_read
  cw ← non_negative_presence cache_write
  ok (record {
    input_tokens = i;
    output_tokens = o;
    total_tokens = t;
    reasoning_tokens = r;
    cache_read_input_tokens = cr;
    cache_write_input_tokens = cw;
  })

-- A reported total is authoritative; where there is none, it is the sum of input and output.
abbrev pub derived_total : ℤ → ℤ → Presence ℤ → ℤ
derived_total input output (some reported) = reported
derived_total input output none = input +ℤ output

unfoldable pub from_components :
    ℤ → ℤ → Presence ℤ → Presence ℤ → Presence ℤ → Presence ℤ → Result Defect TokenUsage
from_components input output total reasoning cache_read cache_write =
    token_usage input output (derived_total input output total) reasoning cache_read cache_write

-- Without a reported total, and from counts that are not negative, the total is input plus output:
-- the cache counts, which the input already contains, are not added again.
pub from_components-total :
    (i o : ℕ) (r cr cw : Presence ℤ) (u : TokenUsage)
    → from_components (pos i) (pos o) none r cr cw ≡ ok u
    → u.total_tokens ≡ i + o
unfolding from_components token_usage ◌+ℤ◌
from_components-total i o r cr cw u h = ground arith

-- A negative count, wherever it stands, is refused.
pub from_components-negative :
    (i o : ℤ) (t r cr cw : Presence ℤ) (n : ℕ)
    → (i ≡ negsuc n)
      ⊎ (o ≡ negsuc n)
      ⊎ (t ≡ some (negsuc n))
      ⊎ (r ≡ some (negsuc n))
      ⊎ (cr ≡ some (negsuc n))
      ⊎ (cw ≡ some (negsuc n))
    → from_components i o t r cr cw ≡ err value_error
unfolding from_components token_usage ◌+ℤ◌
from_components-negative i o t r cr cw n h = ground arith
