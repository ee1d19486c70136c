-- ===== src/Embeddings/Coverage.antt =====
-- What a decoded response holds: one vector for each input, each from a row of its index.
use mathlib.Core.Path.{subst}
use llm_calling.Base.{
  ℕ, zero, suc, ◌≡◌, refl, sym, ap, ◌∙◌, ◌⊎◌, inl, inr, Bool, true, false, not, ◌&&◌, Option, none,
  some, List, [], ◌∷◌, arith, ltb, ◌==◌, if◌then◌else◌, ==_iff, is_some, length, all, Result, ok,
  err, >>=-eq-ok, raise_if-ok, ok-injective, some-injective,
}
use llm_calling.Base.Int.{ℤ, pos, negsuc}
use llm_calling.Contract.{invalid_embedding_response, Defect, protocol_defect}
use llm_calling.Embeddings.{
  EmbeddingRow, EmbeddingsBody, EmbeddingResponse, Vectors, vector_at, free_index, require_index,
  vector_of, require_vector, decode_row, decode_rows, collect, require_all, decode_usage,
  require_rows, decode_response,
}
use llm_calling.Embeddings.Counted.{collected, length-decode_rows}
use llm_calling.Engines.{int_or_none}
use llm_calling.Json.{Float, is_finite, Json}

module _ (to_float : Json → Result Defect Float) where
  -- A row with an index and a vector of finite numbers.
  abbrev pub IsRow : ℕ → List Float → Option EmbeddingRow → Type 0
  IsRow i v none = ⊥
  IsRow i v (some row) =
      (int_or_none row.index ≡ some (pos i))
      × (vector_of to_float row.vector ≡ ok v)
      × (all is_finite v ≡ true)

  abbrev pub Supplies : ℕ → List Float → List (Option EmbeddingRow) → Type 0
  Supplies i v [] = ⊥
  Supplies i v (row ∷ entries) = IsRow i v row ⊎ Supplies i v entries

  -- The vectors are those of the indexes from `start` on, in their order.
  abbrev pub IsCovered : List (Option EmbeddingRow) → ℕ → List (List Float) → Type 0
  IsCovered entries start [] = Unit
  IsCovered entries start (v ∷ vs) = Supplies start v entries × IsCovered entries (suc start) vs

  if_some : (b : Bool) (n m : ℕ) → require_index (if b then some n else none) ≡ ok m → n ≡ m
  if_some true n m h = ok-injective h
  if_some false n m h = cc

  index-ok :
      (expected : ℕ) (held : Vectors) (index : Option ℤ) (m : ℕ)
      → require_index (free_index expected held index) ≡ ok m
      → index ≡ some (pos m)
  index-ok expected held none m h = cc
  index-ok expected held (some (negsuc n)) m h = cc
  index-ok expected held (some (pos n)) m h =
      ap (λ k. some (pos k)) (if_some (ltb n expected && not (is_some (vector_at n held))) n m h)

  finite-ok :
      (v w : List Float)
      → require_vector to_float (ok v) ≡ ok w
      → (v ≡ w) × (all is_finite w ≡ true)
  finite-ok v w h =
      let (finite_all, e) =
        raise_if-ok (not (all is_finite v)) (protocol_defect invalid_embedding_response) (ok v) w
          h in
      let same : v ≡ w = ok-injective e in
      (same, subst (λ x. all is_finite x ≡ true) same (ground arith))

  vector-ok :
      (given : Result Defect (List Float)) (w : List Float)
      → require_vector to_float given ≡ ok w
      → (given ≡ ok w) × (all is_finite w ≡ true)
  vector-ok (err d) w h = cc
  vector-ok (ok v) w h =
      let (same, finite_all) = finite-ok v w h in (ap (λ x. ok x) same, finite_all)

  decode_row-IsRow :
      (expected : ℕ) (held : Vectors) (row : Option EmbeddingRow) (n : ℕ) (v : List Float)
      → decode_row to_float expected held row ≡ ok (n, v)
      → IsRow n v row
  unfolding decode_row
  decode_row-IsRow expected held none n v h = cc
  decode_row-IsRow expected held (some row) n v h =
      let (m, e, h₁) =
        >>=-eq-ok (require_index (free_index expected held (int_or_none row.index))) _ h in
      let (w, e', h₂) = >>=-eq-ok (require_vector to_float (vector_of to_float row.vector)) _ h₁ in
      let same = ok-injective h₂ in
      let (vector, finite_all) = vector-ok (vector_of to_float row.vector) w e' in
      (
        index-ok expected held (int_or_none row.index) m e
            ∙ ap (λ (x : ℕ × List Float). some (pos x.0)) same,
        vector ∙ ap (λ (x : ℕ × List Float). ok x.1) same,
        subst (λ x. all is_finite x ≡ true) (ap (λ (x : ℕ × List Float). x.1) same) finite_all,
      )

  -- A vector that is held was held before, or a row supplied it.
  if_held :
      (b : Bool) (v w : List Float) (later : Option (List Float))
      → (if b then some v else later) ≡ some w
      → ((b ≡ true) × (v ≡ w)) ⊎ (later ≡ some w)
  if_held true v w later h = inl (refl, some-injective _ _ h)
  if_held false v w later h = inr h

  vector_at-decode_rows :
      (expected : ℕ) (entries : List (Option EmbeddingRow)) (held after : Vectors) (i : ℕ)
      (v : List Float)
      → decode_rows to_float expected entries held ≡ ok after
      → vector_at i after ≡ some v
      → (vector_at i held ≡ some v) ⊎ Supplies i v entries
  unfolding decode_rows
  vector_at-decode_rows expected [] held after i v h found =
      inl (subst (λ x. vector_at i x ≡ some v) (sym (ok-injective h)) found)
  vector_at-decode_rows expected (row ∷ entries) held after i v h found =
      let (decoded, e, h₁) = >>=-eq-ok (decode_row to_float expected held row) _ h in
      elim (vector_at-decode_rows expected entries (decoded ∷ held) after i v h₁ found) [
        | inr later ↦ inr (inr later)
        | inl now ↦ elim (if_held (decoded.0 == i) decoded.1 v (vector_at i held) now) [
          | inr before ↦ inl before
          | inl (index, vector) ↦
              let number : decoded.0 ≡ i = (==_iff decoded.0 i).0 index in
              inr (
                inl (
                  subst (λ (x : ℕ × List Float). IsRow x.0 x.1 row) (λ j. (number j, vector j))
                    (decode_row-IsRow expected held row decoded.0 decoded.1 e)))
        ]
      ]

  none_held : (i : ℕ) (v : List Float) → vector_at i [] ≡ some v → ⊥
  none_held i v h = cc

  collect-IsCovered :
      (expected : ℕ) (entries : List (Option EmbeddingRow)) (held : Vectors)
      → decode_rows to_float expected entries [] ≡ ok held
      → (start count : ℕ) (vs : List (List Float)) → collect to_float start count held ≡ some vs
      → IsCovered entries start vs × (length vs ≡ count)
  unfolding collect
  collect-IsCovered expected entries held decoded start zero vs h =
      subst (λ xs. IsCovered entries start xs × (length xs ≡ 0)) (some-injective _ _ h) (tt, refl)
  collect-IsCovered expected entries held decoded start (suc count) vs h =
      let (v, ws, found, later, same) =
        collected (vector_at start held) (collect to_float (suc start) count held) vs h in
      let (covered, total) =
        collect-IsCovered expected entries held decoded (suc start) count ws later in
      elim (vector_at-decode_rows expected entries [] held start v decoded found) [
        | inl before ↦ elim (none_held start v before) [ ]
        | inr supplied ↦
            subst (λ xs. IsCovered entries start xs × (length xs ≡ suc count)) same
              ((supplied, covered), ap suc total)
      ]

  rows-ok :
      (raw : Option (List (Option EmbeddingRow))) (entries : List (Option EmbeddingRow))
      → require_rows to_float raw ≡ ok entries
      → raw ≡ some entries
  rows-ok none entries h = cc
  rows-ok (some given) entries h = ap some (ok-injective h)

  all-ok :
      (raw : Option (List (List Float))) (vs : List (List Float))
      → require_all to_float raw ≡ ok vs
      → raw ≡ some vs
  all-ok none vs h = cc
  all-ok (some given) vs h = ap some (ok-injective h)

  -- A decoded response has one vector for each input, in the order of the inputs; each is the vector
  -- of a row of the response whose index is the input's, and all its numbers are finite. The
  -- response has no further row: there are as many rows as inputs.
  pub decode_response-IsCovered :
      (body : EmbeddingsBody) (expected : ℕ) (r : EmbeddingResponse)
      → decode_response to_float body expected ≡ ok r
      → (entries : List (Option EmbeddingRow)) × (body.data_rows ≡ some entries)
        × IsCovered entries 0 r.embeddings
        × (length r.embeddings ≡ expected)
        × (length entries ≡ expected)
  unfolding decode_response
  decode_response-IsCovered body expected r h =
      let (entries, e, h₁) = >>=-eq-ok (require_rows to_float body.data_rows) _ h in
      let (held, decoded, h₂) = >>=-eq-ok (decode_rows to_float expected entries []) _ h₁ in
      let (vs, gathered, h₃) =
        >>=-eq-ok (require_all to_float (collect to_float 0 expected held)) _ h₂ in
      let (counted, e', h₄) = >>=-eq-ok (decode_usage to_float body.usage) _ h₃ in
      let whole = all-ok (collect to_float 0 expected held) vs gathered in
      let (covered, total) =
        subst (λ xs. IsCovered entries 0 xs × (length xs ≡ expected))
          (ap (λ (x : EmbeddingResponse). x.embeddings) (ok-injective h₄))
          (collect-IsCovered expected entries held decoded 0 expected vs whole) in
      (
        entries,
        rows-ok body.data_rows entries e,
        covered,
        total,
        length-decode_rows to_float expected entries held vs decoded whole,
      )
