-- ===== src/Embeddings/Counted.antt =====
-- How many of the indexes are taken while the rows are decoded: a row takes one that is in the range
-- and free, so that a complete response has as many rows as inputs.
use mathlib.Core.Path.{subst}
use llm_calling.Base.{
  ℕ, zero, suc, ◌+◌, ◌≤◌, ◌<◌, ◌≡◌, refl, sym, ap, inl, inr, Bool, true, false, not, ◌&&◌, Option,
  none, some, List, [], ◌∷◌, arith, ltb, ◌==◌, if◌then◌else◌, is_some, lt_suc-cases, length, Result,
  ok, >>=-eq-ok, ok-injective, some-injective,
}
use llm_calling.Base.Int.{ℤ, pos, negsuc}
use llm_calling.Contract.{Defect}
use llm_calling.Embeddings.{
  EmbeddingRow, Vectors, vector_at, free_index, require_index, vector_of, require_vector,
  decode_row, decode_rows, collect,
}
use llm_calling.Engines.{int_or_none}
use llm_calling.Json.{Float, Json}

pub collected :
    (found : Option (List Float)) (later : Option (List (List Float))) (vs : List (List Float))
    → elim found [ none ↦ none | some v ↦ elim later [ none ↦ none | some ws ↦ some (v ∷ ws) ] ]
      ≡ some vs
    → (v : List Float) × (ws : List (List Float)) × (found ≡ some v)
      × (later ≡ some ws)
      × (v ∷ ws ≡ vs)
collected none later vs h = cc
collected (some v) none vs h = cc
collected (some v) (some ws) vs h = (v, ws, refl, refl, some-injective _ _ h)

abbrev bit : Bool → ℕ
bit true = 1
bit false = 0

-- How many of the `count` indexes from `start` on have a vector.
abbrev taken : (start count : ℕ) → Vectors → ℕ
taken start zero held = 0
taken start (suc count) held = bit (is_some (vector_at start held)) + taken (suc start) count held

vector_at-other :
    (b : Bool) (v : List Float) (later : Option (List Float))
    → b ≡ false
    → (if b then some v else later) ≡ later
vector_at-other true v later h = cc
vector_at-other false v later h = refl

vector_at-same :
    (b : Bool) (v : List Float) (later : Option (List Float))
    → b ≡ true
    → is_some (if b then some v else later) ≡ true
vector_at-same true v later h = refl
vector_at-same false v later h = cc

taken-past :
    (n : ℕ) (v : List Float) (held : Vectors) (start count : ℕ)
    → n < start
    → taken start count ((n, v) ∷ held) ≡ taken start count held
taken-past n v held start zero h = refl
taken-past n v held start (suc count) h =
    let rest = taken-past n v held (suc start) count (omega arith) in
    let here = vector_at-other (n == start) v (vector_at start held) (ground arith) in cc

-- A free index in the range makes one more.
taken-free :
    (n : ℕ) (v : List Float) (held : Vectors) (start count : ℕ)
    → start ≤ n
    → n < start + count
    → is_some (vector_at n held) ≡ false
    → taken start count ((n, v) ∷ held) ≡ suc (taken start count held)
taken-free n v held start zero low high free = omega arith
taken-free n v held start (suc count) low high free = elim (lt_suc-cases start n (omega arith)) [
  | inr same ↦
      let here = ap bit (vector_at-same (n == start) v (vector_at start held) (ground arith)) in
      let there = ap bit (subst (λ k. is_some (vector_at k held) ≡ false) (sym same) free) in
      let rest = taken-past n v held (suc start) count (omega arith) in omega arith
  | inl past ↦
      let here =
        ap (λ x. bit (is_some x))
          (vector_at-other (n == start) v (vector_at start held) (ground arith)) in
      let rest = taken-free n v held (suc start) count (omega arith) (omega arith) free in
      omega arith
]

if_true :
    (b : Bool) (n m : ℕ) → require_index (if b then some n else none) ≡ ok m → (b ≡ true) × (n ≡ m)
if_true true n m h = (refl, ok-injective h)
if_true false n m h = cc

index-IsFree :
    (expected : ℕ) (held : Vectors) (index : Option ℤ) (m : ℕ)
    → require_index (free_index expected held index) ≡ ok m
    → (m < expected) × (is_some (vector_at m held) ≡ false)
index-IsFree expected held none m h = cc
index-IsFree expected held (some (negsuc n)) m h = cc
index-IsFree expected held (some (pos n)) m h =
    let (open_, same) = if_true (ltb n expected && not (is_some (vector_at n held))) n m h in
    subst (λ k. (k < expected) × (is_some (vector_at k held) ≡ false)) same
      (ground arith, ground arith)

taken_none : (start count : ℕ) → taken start count [] ≡ 0
taken_none start zero = refl
taken_none start (suc count) = let rest = taken_none (suc start) count in omega arith

module _ (to_float : Json → Result Defect Float) where
  taken-decode_rows :
      (expected : ℕ) (entries : List (Option EmbeddingRow)) (held after : Vectors)
      → decode_rows to_float expected entries held ≡ ok after
      → taken 0 expected after ≡ length entries + taken 0 expected held
  unfolding decode_rows decode_row
  taken-decode_rows expected [] held after h =
      let same = ap (λ x. taken 0 expected x) (sym (ok-injective h)) in omega arith
  taken-decode_rows expected (none ∷ entries) held after h = cc
  taken-decode_rows expected (some row ∷ entries) held after h =
      let (decoded, e, h₁) = >>=-eq-ok (decode_row to_float expected held (some row)) _ h in
      let (n, e', h₂) =
        >>=-eq-ok (require_index (free_index expected held (int_or_none row.index))) _ e in
      let (v, e'', h₃) = >>=-eq-ok (require_vector to_float (vector_of to_float row.vector)) _ h₂ in
      let (low, free) = index-IsFree expected held (int_or_none row.index) n e' in
      let one = taken-free n v held 0 expected (omega arith) (omega arith) free in
      let same = ap (λ x. taken 0 expected (x ∷ held)) (ok-injective h₃) in
      let rest = taken-decode_rows expected entries (decoded ∷ held) after h₁ in omega arith

  taken-collect :
      (held : Vectors) (start count : ℕ) (vs : List (List Float))
      → collect to_float start count held ≡ some vs
      → taken start count held ≡ count
  unfolding collect
  taken-collect held start zero vs h = refl
  taken-collect held start (suc count) vs h =
      let (v, ws, found, later, same) =
        collected (vector_at start held) (collect to_float (suc start) count held) vs h in
      let here = ap (λ x. bit (is_some x)) found in
      let rest = taken-collect held (suc start) count ws later in omega arith

  -- Where no index is missing, there are as many rows as indexes.
  pub length-decode_rows :
      (expected : ℕ) (entries : List (Option EmbeddingRow)) (held : Vectors)
      (vs : List (List Float))
      → decode_rows to_float expected entries [] ≡ ok held
      → collect to_float 0 expected held ≡ some vs
      → length entries ≡ expected
  length-decode_rows expected entries held vs decoded gathered =
      let all_taken = taken-decode_rows expected entries [] held decoded in
      let complete = taken-collect held 0 expected vs gathered in
      let nothing = taken_none 0 expected in omega arith
