-- ===== src/Examples/Embeddings.antt =====
-- A call of the embeddings port that fails at every attempt, and the decoding of two vectors that come
-- in the wrong order.
use llm_calling.Base.{
  ℕ, ◌^◌, ◌≡◌, refl, Option, none, some, List, [], ◌∷◌, arith, ltb, if◌then◌else◌, length, Result,
  ok, err,
}
use llm_calling.Base.Int.{pos}
use llm_calling.Contract.{Defect, type_error, overflow_error}
use llm_calling.Embeddings.{
  EmbeddingRow, EmbeddingsBody, EmbeddingResponse, decode_row, decode_rows, collect, decode_usage,
  decode_response,
}
use llm_calling.Embeddings.Coverage.{IsCovered, decode_response-IsCovered}
use llm_calling.Engines.{int_or_none}
use llm_calling.Examples.{quick, timeout}
use llm_calling.Json.{Float, finite, Json, int, num, arr, nil, cons}
use llm_calling.Retry.{default_retry}
use llm_calling.Runtime.Embed.{EmbedReply, embed_fails, embed}
use llm_calling.Runtime.Embed.Runs.{IsRun, embed-IsRun}

abbrev no_response : ℕ → EmbedReply ℕ
no_response n = embed_fails timeout

embed-IsRun_example :
    IsRun default_retry quick no_response 1 0 (embed quick no_response default_retry)
embed-IsRun_example = embed-IsRun default_retry quick no_response (omega arith)

abbrev as_float : Json → Result Defect Float
as_float (int (pos n)) =
    if ltb n (2 ^ 1024) then ok (finite (pos n) (pos 0)) else err overflow_error
as_float (num x) = ok x
as_float _ = err type_error

abbrev row_at : ℕ → ℕ → Option EmbeddingRow
row_at i n =
    some (record { index = some (int (pos i)); vector = some (arr (cons (int (pos n)) nil)) })

abbrev body : EmbeddingsBody
body = record { data_rows = some (row_at 1 8 ∷ row_at 0 7 ∷ []); usage = none }

abbrev response : EmbeddingResponse
response = record {
  embeddings = (finite (pos 7) (pos 0) ∷ []) ∷ (finite (pos 8) (pos 0) ∷ []) ∷ [];
  usage = none;
}

body_decodes : decode_response as_float body 2 ≡ ok response
unfolding decode_response decode_rows decode_row collect decode_usage int_or_none
body_decodes = refl

-- The error of an integer that is too large for a float leaves the decoder as it is.
overflow_escapes :
    decode_response as_float
      (record { data_rows = some (row_at 0 (2 ^ 1024) ∷ []); usage = none })
      1
    ≡ err overflow_error
unfolding decode_response decode_rows decode_row int_or_none
overflow_escapes = refl

decode_response-IsCovered_example :
    (entries : List (Option EmbeddingRow)) × (body.data_rows ≡ some entries)
    × IsCovered as_float entries 0 response.embeddings
    × (length response.embeddings ≡ 2)
    × (length entries ≡ 2)
decode_response-IsCovered_example = decode_response-IsCovered as_float body 2 response body_decodes
