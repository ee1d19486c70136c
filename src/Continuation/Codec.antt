-- ===== src/Continuation/Codec.antt =====
-- What the continuation codec promises.
use llm_calling.Base.{
  ℕ, ◌≤◌, String, ◌≡◌, refl, ◌≢◌, false, not, List, arith, ltb, length, bytes_eq, bytes_eq-eq,
  Result, ok, err, ◌>>=◌, >>=-eq-ok, Ensures, Ensures-eq, raise_if-ok,
}
use llm_calling.Continuation.{
  max_payload_bytes, max_encoded_bytes, or_value_error, envelope_of, outside_domain,
  canonical_json_bytes, encode_continuation, open_envelope, require_canonical, decode_continuation,
}
use llm_calling.Contract.{
  ProviderTarget, payload_too_large, encoding_too_large, not_canonical, invalid_request,
  value_error,
}
use llm_calling.Contract.Request.{ContinuationArtifact, continuation_artifact}
use llm_calling.Json.{
  Json, obj, Fields, Object, JsonError, freeze_json_value, as_object, freeze_json_object,
  thaw_json_value,
}
use llm_calling.Json.Bounds.{IsBounded}
use llm_calling.Json.Thaw.{freeze_json_value-thaw_iff}
use llm_calling.Platform.{Platform}

module _ (p : Platform) where
  -- What a decoded artifact is bound to.
  pub record IsDecoded (encoded : List ℕ) (target : ProviderTarget) (codec_id : String)
      (artifact : ContinuationArtifact) : Type 0 where
    pub same_target : artifact.target ≡ target
    pub same_codec : artifact.codec_id ≡ codec_id
    pub canonical : encode_continuation p artifact ≡ ok encoded

  pub continuation_artifact-binds :
      (target : ProviderTarget) (codec_id : String) (o : Object)
      → Ensures
          (λ (a : ContinuationArtifact). (a.target ≡ target) × (a.codec_id ≡ codec_id))
          (outside_domain (continuation_artifact target codec_id o))
  unfolding continuation_artifact
  continuation_artifact-binds target codec_id o = ground arith

  require_canonical-ok :
      (encoded : List ℕ) (a b : ContinuationArtifact)
      → require_canonical p encoded a ≡ ok b
      → (b ≡ a) × (encode_continuation p a ≡ ok encoded)
  unfolding require_canonical
  require_canonical-ok encoded a b h =
      let (bytes, e, rest) = >>=-eq-ok (encode_continuation p a) _ h in
      let (same, done) =
        raise_if-ok (not (bytes_eq bytes encoded)) (invalid_request not_canonical) (ok a) b rest in
      let agree : bytes ≡ encoded = bytes_eq-eq bytes encoded (ground arith) in
      ((let back : b ≡ a = cc in back), rw (← agree) e)

  -- Bytes that decode for a target and a codec give an artifact of exactly that target and codec, and
  -- are its canonical encoding: encoding it again gives the same bytes.
  pub decode_continuation-IsDecoded :
      (encoded : List ℕ) (target : ProviderTarget) (codec_id : String)
      (artifact : ContinuationArtifact)
      → decode_continuation p encoded target codec_id ≡ ok artifact
      → IsDecoded encoded target codec_id artifact
  unfolding decode_continuation
  decode_continuation-IsDecoded encoded target codec_id artifact h =
      let (payload, opened, h₁) = >>=-eq-ok (open_envelope p encoded target codec_id) _ h in
      let (made, e, h₂) =
        >>=-eq-ok
          (outside_domain (continuation_artifact target codec_id (thaw_json_value (obj payload)))) _
          h₁ in
      let (same, canonical) = require_canonical-ok encoded made artifact h₂ in
      let bound =
        Ensures-eq _ _ (continuation_artifact-binds target codec_id (thaw_json_value (obj payload)))
          e in
      record {
        same_target = cc (same, bound.0);
        same_codec = cc (same, bound.1);
        canonical = rw same canonical;
      }

  -- An encoding is at most 16 MiB long.
  pub length-encode_continuation :
      (artifact : ContinuationArtifact) (encoded : List ℕ)
      → encode_continuation p artifact ≡ ok encoded
      → length encoded ≤ max_encoded_bytes
  unfolding encode_continuation
  length-encode_continuation artifact encoded h =
      let (small, h₁) =
        raise_if-ok
          (ltb max_payload_bytes (length (canonical_json_bytes p (obj artifact.opaque_payload))))
          (invalid_request payload_too_large) _ encoded h in
      let (envelope, e, h₂) =
        >>=-eq-ok
          (or_value_error (freeze_json_object (thaw_json_value (obj (envelope_of artifact))))) _
          h₁ in
      let (short, done) =
        raise_if-ok (ltb max_encoded_bytes (length (canonical_json_bytes p (obj envelope))))
          (invalid_request encoding_too_large) _ encoded h₂ in
      let same : canonical_json_bytes p (obj envelope) ≡ encoded = cc in rw (← same) (ground arith)

  or_value_error-err :
      (r : Result JsonError Fields)
      → ((fs : Fields) → r ≢ ok fs)
      → or_value_error r ≡ err value_error
  or_value_error-err (ok fs) h = absurd (h fs refl)
  or_value_error-err (err e) h = refl

  pub as_object-ok :
      (r : Result JsonError Json) (fs : Fields) → (r >>= as_object) ≡ ok fs → r ≡ ok (obj fs)
  as_object-ok r fs h = ground arith

  -- A payload whose canonical JSON has at most `max_payload_bytes` bytes, but that is too deep for one
  -- more level, is not encoded: the error is the `ValueError` of the bounded domain, and no
  -- `InvalidRequest`.
  pub encode_continuation-too_deep :
      (artifact : ContinuationArtifact)
      → length (canonical_json_bytes p (obj artifact.opaque_payload)) ≤ max_payload_bytes
      → ¬ IsBounded 1 (obj artifact.opaque_payload)
      → encode_continuation p artifact ≡ err value_error
  unfolding encode_continuation freeze_json_object
  encode_continuation-too_deep artifact small deep =
      let fits : ltb max_payload_bytes
            (length (canonical_json_bytes p (obj artifact.opaque_payload)))
          ≡ false =
        ground arith in
      let raises : or_value_error
            (freeze_json_value (thaw_json_value (obj (envelope_of artifact))) >>= as_object)
          ≡ err value_error =
        or_value_error-err _ λ fs e.
          deep
            ((freeze_json_value-thaw_iff (obj (envelope_of artifact)) (obj fs)).0
              (as_object-ok _ fs e)).0.1.1.1.1.0 in
      rw (fits, raises)
