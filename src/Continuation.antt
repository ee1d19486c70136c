-- ===== src/Continuation.antt =====
-- The continuation codec (provider_runtime/continuation.py): the canonical, target-bound envelope of
-- an artifact, the first state of a generation, and the sealing of a turn that waits for its tools.
pub mod Generation
pub mod Codec
pub mod Seal
pub mod Sealed
pub mod RoundTrip
pub mod Read
pub mod Resume
pub mod ReadBack
pub mod Conversation
pub mod Resumed
pub mod History
pub mod Answers
pub mod Answered
pub mod Pending
use llm_calling.Base.{
  ℕ, ◌*◌, String, Bool, true, false, not, ◌&&◌, ◌||◌, Option, none, some, List, [], ◌∷◌, str_eq,
  ltb, length, any, all, bytes_eq, Result, ok, err, ◌>>=◌, ◌>>◌, raise_if,
}
use llm_calling.Contract.{
  ProviderTarget, Reason, payload_too_large, encoding_too_large, empty_codec, not_json_text,
  bad_field_set, bad_schema_version, bad_target, target_mismatch, codec_mismatch,
  payload_not_object, payload_outside_domain, not_canonical, Defect, invalid_request, value_error,
}
use llm_calling.Contract.Request.{ContinuationArtifact, continuation_artifact}
use llm_calling.Json.{
  Json, null, bool, int, num, str, arr, obj, Fields, end, field, JsonError, freeze_json_object,
  thaw_json_value, get,
}
use llm_calling.Json.Canonical.{sort_keys}
use llm_calling.Platform.{Platform, has_key}
use llm_calling.Registry.Check.{provider_text}

abbrev pub schema_version : String
schema_version = "provider-continuation.v2"

abbrev pub max_payload_bytes : ℕ
max_payload_bytes = 16 * 1024 * 1024

abbrev pub max_encoded_bytes : ℕ
max_encoded_bytes = 16 * 1024 * 1024

abbrev pub or_value_error : {A : Type 0} → Result JsonError A → Result Defect A
or_value_error (ok a) = ok a
or_value_error (err _) = err value_error

abbrev pub envelope_of : ContinuationArtifact → Fields
envelope_of artifact = field "schema_version" (str schema_version) (
    field "target"
      (obj (
        field "provider" (str (provider_text artifact.target.provider))
          (field "model" (str artifact.target.model) end)))
      (field "codec_id" (str artifact.codec_id)
        (field "opaque_payload" (obj artifact.opaque_payload) end)))

-- `set(value) == names`, for names that are distinct.
abbrev key_in : List String → Fields → Bool
key_in names end = true
key_in names (field k v fs) = any (λ n. str_eq n k) names && key_in names fs

abbrev pub has_fields : List String → Fields → Bool
has_fields names fs = key_in names fs && all (λ n. has_key n fs) names

abbrev pub is_str : String → Option Json → Bool
is_str s (some (str t)) = str_eq t s
is_str s (some null) = false
is_str s (some (bool _)) = false
is_str s (some (int _)) = false
is_str s (some (num _)) = false
is_str s (some (arr _)) = false
is_str s (some (obj _)) = false
is_str s none = false

-- `isinstance(value, Mapping)`, with its items.
abbrev pub mapping_of : Option Json → Option Fields
mapping_of (some (obj fs)) = some fs
mapping_of (some null) = none
mapping_of (some (bool _)) = none
mapping_of (some (int _)) = none
mapping_of (some (num _)) = none
mapping_of (some (str _)) = none
mapping_of (some (arr _)) = none
mapping_of none = none

abbrev pub require_mapping : Option Fields → Reason → Result Defect Fields
require_mapping (some fs) reason = ok fs
require_mapping none reason = err (invalid_request reason)

abbrev require_json : Option Json → Result Defect Json
require_json (some v) = ok v
require_json none = err (invalid_request not_json_text)

-- `except (TypeError, ValueError)` around the constructor.
abbrev pub outside_domain : {A : Type 0} → Result Defect A → Result Defect A
outside_domain (ok a) = ok a
outside_domain (err value_error) = err (invalid_request payload_outside_domain)
outside_domain (err d) = err d

module _ (p : Platform) where
  unfoldable pub canonical_json_bytes : Json → List ℕ
  canonical_json_bytes v = p.dumps (sort_keys v)

  -- The envelope holds the payload one level deeper than the artifact does; where that is too deep
  -- the freezing raises `JsonValueError`, which is a `ValueError`.
  unfoldable pub encode_continuation : ContinuationArtifact → Result Defect (List ℕ)
  encode_continuation artifact = do
    raise_if (ltb max_payload_bytes (length (canonical_json_bytes (obj artifact.opaque_payload))))
        (invalid_request payload_too_large)
    envelope ← or_value_error (freeze_json_object (thaw_json_value (obj (envelope_of artifact))))
    raise_if (ltb max_encoded_bytes (length (canonical_json_bytes (obj envelope))))
        (invalid_request encoding_too_large)
    ok (canonical_json_bytes (obj envelope))

  -- The first half of `decode_continuation`: from the bytes to the payload of an envelope for
  -- `target` and `codec_id`.
  unfoldable pub open_envelope : List ℕ → ProviderTarget → String → Result Defect Fields
  open_envelope encoded target codec_id = do
    raise_if (ltb max_encoded_bytes (length encoded)) (invalid_request encoding_too_large)
    raise_if (str_eq codec_id "") (invalid_request empty_codec)
    value ← require_json (p.loads encoded)
    envelope ← require_mapping (mapping_of (some value)) bad_field_set
    raise_if
        (not
          (has_fields ("schema_version" ∷ "target" ∷ "codec_id" ∷ "opaque_payload" ∷ []) envelope))
        (invalid_request bad_field_set)
    raise_if (not (is_str schema_version (get "schema_version" envelope)))
        (invalid_request bad_schema_version)
    encoded_target ← require_mapping (mapping_of (get "target" envelope)) bad_target
    raise_if (not (has_fields ("provider" ∷ "model" ∷ []) encoded_target))
        (invalid_request bad_target)
    raise_if
        (not (is_str (provider_text target.provider) (get "provider" encoded_target))
          || not (is_str target.model (get "model" encoded_target)))
        (invalid_request target_mismatch)
    raise_if (not (is_str codec_id (get "codec_id" envelope))) (invalid_request codec_mismatch)
    require_mapping (mapping_of (get "opaque_payload" envelope)) payload_not_object

  -- `if encode_continuation(artifact) != encoded: raise`
  unfoldable pub require_canonical :
      List ℕ → ContinuationArtifact → Result Defect ContinuationArtifact
  require_canonical encoded artifact = do
    encoded_again ← encode_continuation artifact
    raise_if (not (bytes_eq encoded_again encoded)) (invalid_request not_canonical)
    ok artifact

  unfoldable pub decode_continuation :
      List ℕ → ProviderTarget → String → Result Defect ContinuationArtifact
  decode_continuation encoded target codec_id = do
    payload ← open_envelope encoded target codec_id
    artifact ←
        outside_domain (continuation_artifact target codec_id (thaw_json_value (obj payload)))
    require_canonical encoded artifact
