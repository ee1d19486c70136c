-- ===== src/Json/Bounds.antt =====
-- What freezing promises: a frozen value lies in the bounded domain of `types.py`.
use llm_calling.Base.{
  ℕ, suc, ◌≤◌, ◌≡◌, Bool, true, ◌&&◌, List, [], ◌∷◌, arith, ltb, Result, ok, ◌>>=◌, ◌>>◌, raise_if,
  Ensures, Ensures-raise_if, Ensures-bind, Ensures-eq,
}
use llm_calling.Base.Int.{leb_ℤ}
use llm_calling.Json.{
  is_finite, Json, null, bool, int, num, str, arr, obj, Items, nil, cons, Fields, end, field,
  text_key, other_key, Object, none_value, bool_value, int_value, float_value, str_value, sequence,
  mapping, other, Elements, no_element, element, Entries, no_entry, entry, JsonError, too_deep,
  reference_cycle, max_json_depth, min_json_integer, max_json_integer, contains_id, freeze_at,
  freeze_elements, freeze_entries, freeze_json_value,
}

-- A value at depth `d` is in the domain: no node is deeper than 64, every integer fits in signed 64
-- bits, and every float is finite.
abbrev mutual
  pub IsBounded : ℕ → Json → Type 0
  IsBounded d null = d ≤ max_json_depth
  IsBounded d (bool b) = d ≤ max_json_depth
  IsBounded d (int n) =
      (d ≤ max_json_depth) × ((leb_ℤ min_json_integer n && leb_ℤ n max_json_integer) ≡ true)
  IsBounded d (num x) = (d ≤ max_json_depth) × (is_finite x ≡ true)
  IsBounded d (str s) = d ≤ max_json_depth
  IsBounded d (arr vs) = (d ≤ max_json_depth) × IsBoundedItems (suc d) vs
  IsBounded d (obj fs) = (d ≤ max_json_depth) × IsBoundedFields (suc d) fs

  pub IsBoundedItems : ℕ → Items → Type 0
  IsBoundedItems d nil = Unit
  IsBoundedItems d (cons v vs) = IsBounded d v × IsBoundedItems d vs

  pub IsBoundedFields : ℕ → Fields → Type 0
  IsBoundedFields d end = Unit
  IsBoundedFields d (field k v fs) = IsBounded d v × IsBoundedFields d fs

-- The two guards of a container, and the freezing of its parts.
pub Ensures-container :
    {A : Type 0} (P : Json → Type 0) (Q : A → Type 0) (d : ℕ) (cyclic : Bool)
    (r : Result JsonError A) (f : A → Json)
    → Ensures Q r
    → ((a : A) → d ≤ max_json_depth → Q a → P (f a))
    → Ensures P (
        raise_if (ltb max_json_depth d) too_deep
        >> (raise_if cyclic reference_cycle >> (r >>= λ a. ok (f a))))
Ensures-container P Q d cyclic r f q h =
    Ensures-raise_if P (ltb max_json_depth d) too_deep _ λ shallow.
      Ensures-raise_if P cyclic reference_cycle _
        λ fresh. Ensures-bind P Q r (λ a. ok (f a)) q (λ a. h a (ground arith))

mutual
  unfolding freeze_at freeze_elements freeze_entries

  freeze_at-bounds :
      (active : List ℕ) (d : ℕ) (o : Object) → Ensures (IsBounded d) (freeze_at active d o)
  freeze_at-bounds active d none_value = ground arith
  freeze_at-bounds active d (bool_value b) = ground arith
  freeze_at-bounds active d (int_value n) = ground arith
  freeze_at-bounds active d (float_value x) = ground arith
  freeze_at-bounds active d (str_value s) = ground arith
  freeze_at-bounds active d (sequence i es) =
      Ensures-container (IsBounded d) (IsBoundedItems (suc d)) d (contains_id i active)
        (freeze_elements (i ∷ active) (suc d) es) arr
        (freeze_elements-bounds (i ∷ active) (suc d) es) (λ vs shallow h. (shallow, h))
  freeze_at-bounds active d (mapping i es) =
      Ensures-container (IsBounded d) (IsBoundedFields (suc d)) d (contains_id i active)
        (freeze_entries (i ∷ active) (suc d) es) obj (freeze_entries-bounds (i ∷ active) (suc d) es)
        (λ fs shallow h. (shallow, h))
  freeze_at-bounds active d other = ground arith

  freeze_elements-bounds :
      (active : List ℕ) (d : ℕ) (es : Elements)
      → Ensures (IsBoundedItems d) (freeze_elements active d es)
  freeze_elements-bounds active d no_element = tt
  freeze_elements-bounds active d (element o es) =
      Ensures-bind (IsBoundedItems d) (IsBounded d) _
        (λ v. freeze_elements active d es >>= λ vs. ok (cons v vs)) (freeze_at-bounds active d o)
        λ v hv.
          Ensures-bind (IsBoundedItems d) (IsBoundedItems d) _ (λ vs. ok (cons v vs))
            (freeze_elements-bounds active d es) (λ vs hvs. (hv, hvs))

  freeze_entries-bounds :
      (active : List ℕ) (d : ℕ) (es : Entries)
      → Ensures (IsBoundedFields d) (freeze_entries active d es)
  freeze_entries-bounds active d no_entry = tt
  freeze_entries-bounds active d (entry (text_key k) o es) =
      Ensures-bind (IsBoundedFields d) (IsBounded d) _
        (λ v. freeze_entries active d es >>= λ vs. ok (field k v vs)) (freeze_at-bounds active d o)
        λ v hv.
          Ensures-bind (IsBoundedFields d) (IsBoundedFields d) _ (λ vs. ok (field k v vs))
            (freeze_entries-bounds active d es) (λ vs hvs. (hv, hvs))
  freeze_entries-bounds active d (entry other_key o es) = tt

-- Whatever a caller hands in, a value that was frozen lies in the bounded domain: at most 64 levels
-- below the root, integers in signed 64 bits, floats finite.
pub freeze_json_value-IsBounded :
    (o : Object) (v : Json) → freeze_json_value o ≡ ok v → IsBounded 0 v
unfolding freeze_json_value
freeze_json_value-IsBounded o v h = Ensures-eq (IsBounded 0) _ (freeze_at-bounds [] 0 o) h
