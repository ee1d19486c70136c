-- ===== src/Json/Thaw.antt =====
-- Thawing and freezing again: a value of the bounded domain comes back unchanged.
-- The containers that thawing makes are new, so that no identity is met twice on a path.
use mathlib.Core.Path.{subst}
use llm_calling.Base.{
  ℕ, suc, ◌≤◌, ◌<◌, ◌≡◌, refl, ap, ◌↔◌, Bool, false, List, [], ◌∷◌, arith, ltb, All, Result, ok,
  ◌>>=◌, ◌>>◌, raise_if, Ensures, Ensures-bind, Ensures-eq,
}
use llm_calling.Json.{
  Json, null, bool, int, num, str, arr, obj, Items, nil, cons, Fields, end, field, JsonError,
  too_deep, reference_cycle, max_json_depth, contains_id, freeze_at, freeze_elements,
  freeze_entries, freeze_json_value, thaw, thaw_items, thaw_fields, thaw_json_value,
}
use llm_calling.Json.Bounds.{
  IsBounded, IsBoundedItems, IsBoundedFields, Ensures-container, freeze_json_value-IsBounded,
}

contains_id-above :
    (d : ℕ) (active : List ℕ) → All (λ i. i < d) active → contains_id d active ≡ false
contains_id-above d [] h = refl
contains_id-above d (i ∷ active) h = ground (arith, contains_id-above d active h.1)

All-lt-suc : (d : ℕ) (active : List ℕ) → All (λ i. i < d) active → All (λ i. i < suc d) active
All-lt-suc d [] h = tt
All-lt-suc d (i ∷ active) h = (omega arith, All-lt-suc d active h.1)

-- The guards of a container let it through.
container-ok :
    {A : Type 0} (d : ℕ) (cyclic : Bool) (r : Result JsonError A) (f : A → Json) (a : A)
    → d ≤ max_json_depth
    → cyclic ≡ false
    → r ≡ ok a
    → (raise_if (ltb max_json_depth d) too_deep
        >> (raise_if cyclic reference_cycle >> (r >>= λ x. ok (f x))))
      ≡ ok (f a)
container-ok d cyclic r f a shallow unseen e =
    let s : ltb max_json_depth d ≡ false = ground arith in rw (s, unseen, e)

mutual
  unfolding freeze_at freeze_elements freeze_entries thaw thaw_items thaw_fields

  freeze_at-thaw :
      (active : List ℕ) (d : ℕ) (v : Json)
      → All (λ i. i < d) active
      → IsBounded d v
      → freeze_at active d (thaw d v) ≡ ok v
  freeze_at-thaw active d null below h = ground arith
  freeze_at-thaw active d (bool b) below h = ground arith
  freeze_at-thaw active d (int n) below h = ground arith
  freeze_at-thaw active d (num x) below h = ground arith
  freeze_at-thaw active d (str s) below h = ground arith
  freeze_at-thaw active d (arr vs) below h =
      container-ok d (contains_id d active)
        (freeze_elements (d ∷ active) (suc d) (thaw_items (suc d) vs)) arr vs h.0
        (contains_id-above d active below)
        (freeze_elements-thaw (d ∷ active) (suc d) vs (omega arith, All-lt-suc d active below) h.1)
  freeze_at-thaw active d (obj fs) below h =
      container-ok d (contains_id d active)
        (freeze_entries (d ∷ active) (suc d) (thaw_fields (suc d) fs)) obj fs h.0
        (contains_id-above d active below)
        (freeze_entries-thaw (d ∷ active) (suc d) fs (omega arith, All-lt-suc d active below) h.1)

  freeze_elements-thaw :
      (active : List ℕ) (d : ℕ) (vs : Items)
      → All (λ i. i < d) active
      → IsBoundedItems d vs
      → freeze_elements active d (thaw_items d vs) ≡ ok vs
  freeze_elements-thaw active d nil below h = refl
  freeze_elements-thaw active d (cons v vs) below h =
      rw (freeze_at-thaw active d v below h.0, freeze_elements-thaw active d vs below h.1)

  freeze_entries-thaw :
      (active : List ℕ) (d : ℕ) (fs : Fields)
      → All (λ i. i < d) active
      → IsBoundedFields d fs
      → freeze_entries active d (thaw_fields d fs) ≡ ok fs
  freeze_entries-thaw active d end below h = refl
  freeze_entries-thaw active d (field k v fs) below h =
      rw (freeze_at-thaw active d v below h.0, freeze_entries-thaw active d fs below h.1)

-- A value of the bounded domain, thawed and frozen again, is the same value.
pub freeze_json_value-thaw :
    (v : Json) → IsBounded 0 v → freeze_json_value (thaw_json_value v) ≡ ok v
unfolding freeze_json_value thaw_json_value
freeze_json_value-thaw v h = freeze_at-thaw [] 0 v tt h

mutual
  unfolding freeze_at freeze_elements freeze_entries thaw thaw_items thaw_fields

  freeze_at-thaw_eq :
      (active : List ℕ) (d : ℕ) (v : Json) → Ensures (λ w. w ≡ v) (freeze_at active d (thaw d v))
  freeze_at-thaw_eq active d null = ground arith
  freeze_at-thaw_eq active d (bool b) = ground arith
  freeze_at-thaw_eq active d (int n) = ground arith
  freeze_at-thaw_eq active d (num x) = ground arith
  freeze_at-thaw_eq active d (str s) = ground arith
  freeze_at-thaw_eq active d (arr vs) =
      Ensures-container (λ w. w ≡ arr vs) (λ ws. ws ≡ vs) d (contains_id d active)
        (freeze_elements (d ∷ active) (suc d) (thaw_items (suc d) vs)) arr
        (freeze_elements-thaw_eq (d ∷ active) (suc d) vs) (λ ws shallow e. ap arr e)
  freeze_at-thaw_eq active d (obj fs) =
      Ensures-container (λ w. w ≡ obj fs) (λ gs. gs ≡ fs) d (contains_id d active)
        (freeze_entries (d ∷ active) (suc d) (thaw_fields (suc d) fs)) obj
        (freeze_entries-thaw_eq (d ∷ active) (suc d) fs) (λ gs shallow e. ap obj e)

  freeze_elements-thaw_eq :
      (active : List ℕ) (d : ℕ) (vs : Items)
      → Ensures (λ ws. ws ≡ vs) (freeze_elements active d (thaw_items d vs))
  freeze_elements-thaw_eq active d nil = refl
  freeze_elements-thaw_eq active d (cons v vs) =
      Ensures-bind (λ ws. ws ≡ cons v vs) (λ w. w ≡ v) _
        (λ w. freeze_elements active d (thaw_items d vs) >>= λ ws. ok (cons w ws))
        (freeze_at-thaw_eq active d v)
        λ w e.
          Ensures-bind (λ ws. ws ≡ cons v vs) (λ ws. ws ≡ vs) _ (λ ws. ok (cons w ws))
            (freeze_elements-thaw_eq active d vs) (λ ws es. cc)

  freeze_entries-thaw_eq :
      (active : List ℕ) (d : ℕ) (fs : Fields)
      → Ensures (λ gs. gs ≡ fs) (freeze_entries active d (thaw_fields d fs))
  freeze_entries-thaw_eq active d end = refl
  freeze_entries-thaw_eq active d (field k v fs) =
      Ensures-bind (λ gs. gs ≡ field k v fs) (λ w. w ≡ v) _
        (λ w. freeze_entries active d (thaw_fields d fs) >>= λ gs. ok (field k w gs))
        (freeze_at-thaw_eq active d v)
        λ w e.
          Ensures-bind (λ gs. gs ≡ field k v fs) (λ gs. gs ≡ fs) _ (λ gs. ok (field k w gs))
            (freeze_entries-thaw_eq active d fs) (λ gs es. cc)

-- Ordinary JSON data, given by its frozen form `v`, freezes exactly if `v` lies in the bounded domain,
-- and then to `v`: nothing is lost or changed, and anything else is refused.
pub freeze_json_value-thaw_iff :
    (v w : Json) → (freeze_json_value (thaw_json_value v) ≡ ok w) ↔ (IsBounded 0 v × (w ≡ v))
unfolding freeze_json_value thaw_json_value
freeze_json_value-thaw_iff v w = (
  λ h.
      let same : w ≡ v = Ensures-eq (λ x. x ≡ v) _ (freeze_at-thaw_eq [] 0 v) h in
      (subst (IsBounded 0) same (freeze_json_value-IsBounded (thaw_json_value v) w h), same),
  λ (bounded, same). rw same (freeze_json_value-thaw v bounded),
)
