-- ===== src/Continuation/RoundTrip.antt =====
-- Encoding an artifact and decoding the bytes.
use mathlib.Core.Path.{subst}
use llm_calling.Base.{
  ℕ, ◌≡◌, refl, sym, ap, ◌∙◌, false, some, List, str_eq, eq_iff, ltb, length, bytes_eq_refl, Result,
  ok, err, >>=-eq-ok, raise_if-ok, ok-injective,
}
use llm_calling.Continuation.{
  schema_version, max_payload_bytes, max_encoded_bytes, or_value_error, envelope_of,
  canonical_json_bytes, encode_continuation, open_envelope, require_canonical, decode_continuation,
}
use llm_calling.Continuation.Codec.{as_object-ok}
use llm_calling.Contract.{payload_too_large, encoding_too_large, invalid_request}
use llm_calling.Contract.Request.{ContinuationArtifact, continuation_artifact}
use llm_calling.Json.{
  Json, str, obj, Fields, end, field, JsonError, freeze_json_value, freeze_json_object,
  thaw_json_value,
}
use llm_calling.Json.Bounds.{IsBounded}
use llm_calling.Json.Canonical.{str_leb, insert_field, sort_keys, sort_fields}
use llm_calling.Json.Sorted.{sort_keys_idem, sort_keys-IsBounded, IsBounded-up}
use llm_calling.Json.Thaw.{freeze_json_value-thaw, freeze_json_value-thaw_iff}
use llm_calling.Platform.{Platform, ReadsBack}
use llm_calling.Registry.Check.{provider_text}

-- The artifact with the keys of its payload in canonical order, at every level: an equal value, since
-- mappings are compared without their order.
abbrev pub canonical_artifact : ContinuationArtifact → ContinuationArtifact
canonical_artifact artifact = record artifact {
  opaque_payload = sort_fields artifact.opaque_payload;
}

module _ (p : Platform) where
  or_value_error-ok :
      (r : Result JsonError Fields) (fs : Fields) → or_value_error r ≡ ok fs → r ≡ ok fs
  or_value_error-ok (ok gs) fs h = ap ok (ok-injective h)
  or_value_error-ok (err e) fs h = cc

  -- What an encoding needs: both sizes fit and the envelope lies in the bounded domain.
  record Encodes (artifact : ContinuationArtifact) (bytes : List ℕ) : Type 0 where
    small :
        ltb max_payload_bytes (length (canonical_json_bytes p (obj artifact.opaque_payload)))
        ≡ false
    bounded : IsBounded 0 (obj (envelope_of artifact))
    short : ltb max_encoded_bytes (length bytes) ≡ false
    text : canonical_json_bytes p (obj (envelope_of artifact)) ≡ bytes

  encode_continuation-Encodes :
      (artifact : ContinuationArtifact) (bytes : List ℕ)
      → encode_continuation p artifact ≡ ok bytes
      → Encodes artifact bytes
  unfolding encode_continuation freeze_json_object
  encode_continuation-Encodes artifact bytes h =
      let (small, h₁) =
        raise_if-ok
          (ltb max_payload_bytes (length (canonical_json_bytes p (obj artifact.opaque_payload))))
          (invalid_request payload_too_large) _ bytes h in
      let (envelope, e, h₂) =
        >>=-eq-ok
          (or_value_error (freeze_json_object (thaw_json_value (obj (envelope_of artifact))))) _
          h₁ in
      let (short, done) =
        raise_if-ok (ltb max_encoded_bytes (length (canonical_json_bytes p (obj envelope))))
          (invalid_request encoding_too_large) _ bytes h₂ in
      let (bounded, same) =
        (freeze_json_value-thaw_iff (obj (envelope_of artifact)) (obj envelope)).0
          (as_object-ok p _ envelope (or_value_error-ok _ envelope e)) in
      let text : canonical_json_bytes p (obj envelope) ≡ bytes = ok-injective done in
      record {
        small = small;
        bounded = bounded;
        short = subst (λ b. ltb max_encoded_bytes (length b) ≡ false) text short;
        text = subst (λ v. canonical_json_bytes p v ≡ bytes) same text;
      }

  Encodes-encode_continuation :
      (artifact : ContinuationArtifact) (bytes : List ℕ)
      → Encodes artifact bytes
      → encode_continuation p artifact ≡ ok bytes
  unfolding encode_continuation freeze_json_object
  Encodes-encode_continuation artifact bytes h =
      let frozen : freeze_json_value (thaw_json_value (obj (envelope_of artifact)))
          ≡ ok (obj (envelope_of artifact)) =
        freeze_json_value-thaw (obj (envelope_of artifact)) h.bounded in
      rw (h.small, frozen, h.text, h.short) refl

  sort_keys-obj : (fs : Fields) → sort_keys (obj (sort_fields fs)) ≡ sort_keys (obj fs)
  unfolding sort_keys
  sort_keys-obj fs = sort_keys_idem (obj fs)

  canonical_payload :
      (a : ContinuationArtifact)
      → canonical_json_bytes p (obj (canonical_artifact a).opaque_payload)
        ≡ canonical_json_bytes p (obj a.opaque_payload)
  unfolding canonical_json_bytes
  canonical_payload a = ap p.dumps (sort_keys-obj a.opaque_payload)

  -- The envelope in canonical order, around a payload.
  abbrev sorted_envelope : ContinuationArtifact → Json → Fields
  sorted_envelope a payload = field "codec_id" (str a.codec_id) (
      field "opaque_payload" payload (
        field "schema_version" (str schema_version) (
          field "target"
            (obj (
              field "model" (str a.target.model)
                (field "provider" (str (provider_text a.target.provider)) end)))
            end)))

  sort_keys-envelope :
      (a : ContinuationArtifact)
      → sort_keys (obj (envelope_of a)) ≡ obj (sorted_envelope a (sort_keys (obj a.opaque_payload)))
  unfolding sort_keys insert_field str_leb
  sort_keys-envelope a = refl

  canonical_envelope :
      (a : ContinuationArtifact)
      → canonical_json_bytes p (obj (envelope_of (canonical_artifact a)))
        ≡ canonical_json_bytes p (obj (envelope_of a))
  unfolding canonical_json_bytes
  canonical_envelope a = ap p.dumps (
      sort_keys-envelope (canonical_artifact a)
      ∙ ap (λ x. obj (sorted_envelope a x)) (sort_keys-obj a.opaque_payload)
      ∙ sym (sort_keys-envelope a))

  canonical_artifact-Encodes :
      (a : ContinuationArtifact) (bytes : List ℕ)
      → Encodes a bytes
      → Encodes (canonical_artifact a) bytes
  unfolding sort_keys
  canonical_artifact-Encodes a bytes h =
      let (top, (schema, (target, (codec, (payload, done))))) = h.bounded in
      record {
        small =
            subst (λ b. ltb max_payload_bytes (length b) ≡ false) (sym (canonical_payload a))
              h.small;
        bounded = (
          top,
          (schema, (target, (codec, (sort_keys-IsBounded 1 (obj a.opaque_payload) payload, done)))),
        );
        short = h.short;
        text = canonical_envelope a ∙ h.text;
      }

  open_envelope-encoded :
      (a : ContinuationArtifact) (bytes : List ℕ)
      → Encodes a bytes
      → str_eq a.codec_id "" ≡ false
      → ReadsBack p (sort_keys (obj (envelope_of a)))
      → open_envelope p bytes a.target a.codec_id ≡ ok (sort_fields a.opaque_payload)
  unfolding open_envelope canonical_json_bytes sort_keys
  open_envelope-encoded a bytes h named reads =
      let read : p.loads bytes
          ≡ some (obj (sorted_envelope a (obj (sort_fields a.opaque_payload)))) =
        subst (λ b. p.loads b ≡ some (sort_keys (obj (envelope_of a)))) h.text reads
        ∙ ap some (sort_keys-envelope a) in
      rw
        (
          h.short,
          named,
          read,
          (eq_iff (provider_text a.target.provider) (provider_text a.target.provider)).1 refl,
          (eq_iff a.target.model a.target.model).1 refl,
          (eq_iff a.codec_id a.codec_id).1 refl,
        )
        refl

  payload_domain : (fs : Fields) → IsBounded 1 (obj fs) → IsBounded 0 (obj (sort_fields fs))
  unfolding sort_keys
  payload_domain fs h = sort_keys-IsBounded 0 (obj fs) (IsBounded-up 0 (obj fs) h)

  -- An artifact that has a codec and that encodes is decoded from its bytes, for its target and its
  -- codec, up to the order of its keys. The platform is assumed to read back the text of the envelope.
  pub decode_continuation-encode_continuation :
      (a : ContinuationArtifact) (bytes : List ℕ)
      → ReadsBack p (sort_keys (obj (envelope_of a)))
      → str_eq a.codec_id "" ≡ false
      → encode_continuation p a ≡ ok bytes
      → decode_continuation p bytes a.target a.codec_id ≡ ok (canonical_artifact a)
  unfolding decode_continuation continuation_artifact freeze_json_object require_canonical
  decode_continuation-encode_continuation a bytes reads named encoded =
      let h = encode_continuation-Encodes a bytes encoded in
      let encoded_again =
        Encodes-encode_continuation (canonical_artifact a) bytes
          (canonical_artifact-Encodes a bytes h) in
      let domain : IsBounded 0 (obj (sort_fields a.opaque_payload)) =
        payload_domain a.opaque_payload h.bounded.1.1.1.1.0 in
      let frozen : freeze_json_value (thaw_json_value (obj (sort_fields a.opaque_payload)))
          ≡ ok (obj (sort_fields a.opaque_payload)) =
        freeze_json_value-thaw (obj (sort_fields a.opaque_payload)) domain in
      rw
        (
          open_envelope-encoded a bytes h named reads,
          named,
          frozen,
          encoded_again,
          bytes_eq_refl bytes,
        )
        refl
