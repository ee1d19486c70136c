-- ===== src/Embeddings.antt =====
-- The decoding of an embeddings response (provider_runtime/embeddings.py): the openai package builds
-- its objects without a check, so that every field may hold anything.
pub mod Counted
pub mod Coverage
use llm_calling.Base.{
  ℕ, zero, suc, not, ◌&&◌, Option, none, some, List, [], ◌∷◌, ltb, ◌==◌, if◌then◌else◌, is_some,
  all, Result, ok, err, ◌>>=◌, raise_if, ◌>>◌,
}
use llm_calling.Base.Int.{ℤ, pos, negsuc}
use llm_calling.Contract.{
  Presence, invalid_embedding_response, Defect, protocol_defect, type_error, value_error,
}
use llm_calling.Contract.Usage.{TokenUsage, from_components}
use llm_calling.Engines.{int_or_none, or_zero}
use llm_calling.Json.{Float, is_finite, Json, arr, Items, nil, cons}
use llm_calling.Registry.Rows.{rows}

-- A row of the response.
pub record EmbeddingRow : Type 0 where
  pub index : Option Json
  pub vector : Option Json

pub record UsageCounts : Type 0 where
  pub prompt_tokens : Option Json
  pub total_tokens : Option Json

-- The data where it is a list, with `none` for what is no `Embedding`; the usage where it is a `Usage`.
pub record EmbeddingsBody : Type 0 where
  pub data_rows : Option (List (Option EmbeddingRow))
  pub usage : Option UsageCounts

pub record EmbeddingResponse : Type 0 where
  pub embeddings : List (List Float)
  pub usage : Presence TokenUsage

abbrev pub invalid : {A : Type 0} → Result Defect A
invalid = err (protocol_defect invalid_embedding_response)

-- The vectors by index, the last first.
abbrev pub Vectors : Type 0
Vectors = List (ℕ × List Float)

abbrev pub vector_at : ℕ → Vectors → Option (List Float)
vector_at i [] = none
vector_at i ((j, v) ∷ rest) = let later = vector_at i rest in if j == i then some v else later

-- An index that is a number in the range and not taken.
abbrev pub free_index : ℕ → Vectors → Option ℤ → Option ℕ
free_index expected held none = none
free_index expected held (some (negsuc n)) = none
free_index expected held (some (pos n)) =
    if ltb n expected && not (is_some (vector_at n held)) then some n else none

abbrev pub require_index : Option ℕ → Result Defect ℕ
require_index none = invalid
require_index (some n) = ok n

module _ (to_float : Json → Result Defect Float) where
  -- `float(value)` for each value; the parameter is Python's `float`.
  abbrev pub floats : Items → Result Defect (List Float)
  floats nil = ok []
  floats (cons v vs) = do x ← to_float v; xs ← floats vs; ok (x ∷ xs)

  abbrev pub vector_of : Option Json → Result Defect (List Float)
  vector_of (some (arr vs)) = floats vs
  vector_of _ = invalid

  -- `except (TypeError, ValueError)`; the OverflowError of a large integer is not caught.
  abbrev pub caught : Defect → Defect
  caught type_error = protocol_defect invalid_embedding_response
  caught value_error = protocol_defect invalid_embedding_response
  caught d = d

  abbrev pub require_vector : Result Defect (List Float) → Result Defect (List Float)
  require_vector (err d) = err (caught d)
  require_vector (ok v) =
      raise_if (not (all is_finite v)) (protocol_defect invalid_embedding_response) >> ok v

  unfoldable pub decode_row : ℕ → Vectors → Option EmbeddingRow → Result Defect (ℕ × List Float)
  decode_row expected held none = invalid
  decode_row expected held (some row) = do
    n ← require_index (free_index expected held (int_or_none row.index))
    v ← require_vector (vector_of row.vector)
    ok (n, v)

  unfoldable pub decode_rows : ℕ → List (Option EmbeddingRow) → Vectors → Result Defect Vectors
  decode_rows expected [] held = ok held
  decode_rows expected (row ∷ rows) held = do
    decoded ← decode_row expected held row
    decode_rows expected rows (decoded ∷ held)

  -- The vectors in the order of their indexes; one that is missing makes the response incomplete.
  unfoldable pub collect : (start count : ℕ) → Vectors → Option (List (List Float))
  collect start zero held = some []
  collect start (suc count) held = elim (vector_at start held) [
    | none ↦ none
    | some v ↦ elim (collect (suc start) count held) [ none ↦ none | some vs ↦ some (v ∷ vs) ]
  ]

  abbrev pub require_all : Option (List (List Float)) → Result Defect (List (List Float))
  require_all none = invalid
  require_all (some vs) = ok vs

  abbrev or_invalid_usage : Result Defect TokenUsage → Result Defect (Presence TokenUsage)
  or_invalid_usage (ok u) = ok (some u)
  or_invalid_usage (err value_error) = invalid
  or_invalid_usage (err d) = err d

  unfoldable pub decode_usage : Option UsageCounts → Result Defect (Presence TokenUsage)
  decode_usage none = ok none
  decode_usage (some raw) = or_invalid_usage (
      from_components (or_zero (int_or_none raw.prompt_tokens)) (pos 0)
        (int_or_none raw.total_tokens) none none none)

  abbrev pub require_rows :
      Option (List (Option EmbeddingRow)) → Result Defect (List (Option EmbeddingRow))
  require_rows none = invalid
  require_rows (some rows) = ok rows

  -- `_decode_response`. Every index that was taken is in the range, so that the set of them is the
  -- range exactly if none is missing.
  unfoldable pub decode_response : EmbeddingsBody → ℕ → Result Defect EmbeddingResponse
  decode_response body expected = do
    given ← require_rows body.data_rows
    held ← decode_rows expected given []
    vectors ← require_all (collect 0 expected held)
    usage ← decode_usage body.usage
    ok (record { embeddings = vectors; usage = usage })
