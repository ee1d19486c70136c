-- ===== src/Examples/Continuations.antt =====
-- Artifacts of DeepSeek's flash model on a platform whose JSON text is always `{}`.
use llm_calling.Base.{
  ℕ, zero, suc, ◌+◌, ◌≤◌, ◌≡◌, refl, some, List, [], ◌∷◌, arith, bytes_eq, ok, err,
}
use llm_calling.Base.Int.{pos}
use llm_calling.Continuation.{
  envelope_of, canonical_json_bytes, encode_continuation, open_envelope, require_canonical,
  decode_continuation,
}
use llm_calling.Continuation.Codec.{
  IsDecoded, decode_continuation-IsDecoded, encode_continuation-too_deep,
}
use llm_calling.Continuation.RoundTrip.{canonical_artifact, decode_continuation-encode_continuation}
use llm_calling.Continuation.Seal.{append_turn, seal_turn, seal_generation}
use llm_calling.Continuation.Sealed.{IsSealed, seal_generation-IsSealed}
use llm_calling.Contract.{value_error}
use llm_calling.Contract.Outcome.{text_content, ResponsePayload}
use llm_calling.Contract.Request.{ContinuationArtifact, continuation_artifact}
use llm_calling.Examples.{from_ok, toy_platform, flash, flash_row, hello}
use llm_calling.Json.{
  int, arr, obj, nil, Fields, end, field, max_json_depth, freeze_at, freeze_json_value,
  freeze_json_object, thaw, thaw_json_value,
}
use llm_calling.Json.Bounds.{IsBounded}
use llm_calling.Json.Canonical.{sort_keys}
use llm_calling.Platform.{Platform}
use llm_calling.Registry.Rows.{deepseek_row}

abbrev artifact : ContinuationArtifact
artifact = record {
  target = flash;
  codec_id = "deepseek.v2";
  opaque_payload = field "turn" (int (pos 1)) end;
}

abbrev platform : Platform
platform = toy_platform (obj (envelope_of artifact))

abbrev braces : List ℕ
braces = 123 ∷ 125 ∷ []

decode_continuation-IsDecoded_example :
    IsDecoded platform
      (123 ∷ 125 ∷ [])
      flash
      "deepseek.v2"
      (from_ok artifact (decode_continuation platform (123 ∷ 125 ∷ []) flash "deepseek.v2"))
unfolding decode_continuation open_envelope require_canonical encode_continuation
    continuation_artifact freeze_json_object freeze_json_value freeze_at thaw_json_value thaw
    canonical_json_bytes bytes_eq
decode_continuation-IsDecoded_example =
    decode_continuation-IsDecoded platform (123 ∷ 125 ∷ []) flash "deepseek.v2"
      (from_ok artifact (decode_continuation platform (123 ∷ 125 ∷ []) flash "deepseek.v2")) refl

abbrev sorting_platform : Platform
sorting_platform = toy_platform (sort_keys (obj (envelope_of artifact)))

decode_continuation-encode_continuation_example :
    decode_continuation sorting_platform braces flash "deepseek.v2"
    ≡ ok (canonical_artifact artifact)
unfolding encode_continuation freeze_json_object freeze_json_value freeze_at thaw_json_value thaw
    canonical_json_bytes
decode_continuation-encode_continuation_example =
    decode_continuation-encode_continuation sorting_platform artifact braces refl refl refl

-- A payload of 64 nested objects, the deepest that an artifact holds.
abbrev nest : ℕ → Fields
nest zero = end
nest (suc n) = field "a" (obj (nest n)) end

IsBounded-nest : (n d : ℕ) → IsBounded d (obj (nest n)) → d + n ≤ max_json_depth
IsBounded-nest zero d h = omega (arith, h.0)
IsBounded-nest (suc n) d h = omega (arith, IsBounded-nest n (suc d) h.1.0)

abbrev deep_artifact : ContinuationArtifact
deep_artifact = record { target = flash; codec_id = "deepseek.v2"; opaque_payload = nest 64 }

encode_continuation-too_deep_example : encode_continuation platform deep_artifact ≡ err value_error
unfolding canonical_json_bytes
encode_continuation-too_deep_example =
    encode_continuation-too_deep platform deep_artifact (omega arith)
      (λ h. absurd (omega (arith, IsBounded-nest 64 1 h)))

abbrev response : ResponsePayload
response = record {
  content = text_content "" (record { id = "c1"; name = "f"; arguments = end } ∷ []);
  continuation = some artifact;
}

abbrev sealed : ResponsePayload
sealed =
    from_ok response
      (seal_generation platform flash_row hello (field "turns" (arr nil) end) response)

seal_generation-IsSealed_example : IsSealed platform flash_row hello response sealed
unfolding seal_generation seal_turn append_turn deepseek_row encode_continuation
    continuation_artifact freeze_json_object freeze_json_value freeze_at thaw_json_value thaw
    canonical_json_bytes
seal_generation-IsSealed_example =
    seal_generation-IsSealed platform flash_row hello (field "turns" (arr nil) end) response sealed
      refl
