-- ===== src/Runtime/Schema/Nodes.antt =====
-- What closing does to the nodes of a schema, however deep.
use llm_calling.Base.{
  ℕ, zero, suc, String, ◌≡◌, refl, ap, ◌≢◌, ◌⊎◌, inl, inr, true, false, Option, none, some, List,
  [], ◌∷◌, arith, Bool-cases, if_either,
}
use llm_calling.Continuation.{is_str}
use llm_calling.Json.{Json, bool, str, arr, obj, Items, nil, cons, Fields, get}
use llm_calling.Platform.{has_key}
use llm_calling.Runtime.Schema.{
  is_object_node, close, close_items, close_fields, closed_schema, get-close_fields,
  get-closed_schema,
}
use llm_calling.Runtime.Schema.Keys.{
  get-close_fields-none, get-set_default-none, get-set_default-other, has_key-some,
  has_key-close_fields, is_str-some, type-close_fields, or_true,
}

-- A step into a JSON value, by a key or by a position.
pub data PathStep : Type 0 where
  at_key : String → PathStep
  at_index : ℕ → PathStep

abbrev pub get_item : ℕ → Items → Option Json
get_item n nil = none
get_item zero (cons v vs) = some v
get_item (suc n) (cons v vs) = get_item n vs

-- The value `w` stands in `v` at the end of the path.
abbrev pub StandsAt : List PathStep → Json → Json → Type 0
StandsAt [] v w = v ≡ w
StandsAt (at_key k ∷ path) v w =
    (fs : Fields) × (u : Json) × (v ≡ obj fs) × (get k fs ≡ some u) × StandsAt path u w
StandsAt (at_index n ∷ path) v w =
    (vs : Items) × (u : Json) × (v ≡ arr vs) × (get_item n vs ≡ some u) × StandsAt path u w

-- A node of an object: it has `properties`, or its `type` is `object`.
abbrev pub IsObjectNode : Fields → Type 0
IsObjectNode fs =
    ((v : Json) × (get "properties" fs ≡ some v)) ⊎ (get "type" fs ≡ some (str "object"))

-- How a node is closed: what it states is kept, what a node of an object does not state is false, and
-- no other key is added.
pub record IsClosing (fs gs : Fields) : Type 0 where
  pub kept : (k : String) (v : Json) → get k fs ≡ some v → get k gs ≡ some (close v)
  pub no_more : (k : String) → k ≢ "additionalProperties" → get k fs ≡ none → get k gs ≡ none
  pub defaulted :
      IsObjectNode fs
      → get "additionalProperties" fs ≡ none
      → get "additionalProperties" gs ≡ some (bool false)
  pub untouched :
      ¬ IsObjectNode fs
      → get "additionalProperties" fs ≡ none
      → get "additionalProperties" gs ≡ none

get_item-close_items :
    (n : ℕ) (vs : Items) (v : Json)
    → get_item n vs ≡ some v
    → get_item n (close_items vs) ≡ some (close v)
unfolding close_items
get_item-close_items n nil v h = cc
get_item-close_items zero (cons w vs) v h = let same : w ≡ v = cc in ap (λ x. some (close x)) same
get_item-close_items (suc n) (cons w vs) v h = get_item-close_items n vs v h

-- What stands in a value stands, closed, at the same place of the closed value.
close-StandsAt :
    (path : List PathStep) (v w : Json) → StandsAt path v w → StandsAt path (close v) (close w)
unfolding close closed_schema
close-StandsAt [] v w h = ap close h
close-StandsAt (at_key k ∷ path) v w (fs, u, e, found, rest) = (
  closed_schema fs,
  close u,
  ap close e,
  get-closed_schema k fs u found,
  close-StandsAt path u w rest,
)
close-StandsAt (at_index n ∷ path) v w (vs, u, e, found, rest) = (
  close_items vs,
  close u,
  ap close e,
  get_item-close_items n vs u found,
  close-StandsAt path u w rest,
)

-- The code's test, of the closed fields, says whether the schema's node is one of an object.
is_object_node-true : (fs : Fields) → IsObjectNode fs → is_object_node (close_fields fs) ≡ true
unfolding close
is_object_node-true fs (inl (v, h)) =
    rw
      (has_key-some "properties" (close_fields fs) (close v) (get-close_fields "properties" fs v h))
      refl
is_object_node-true fs (inr h) =
    let named = get-close_fields "type" fs (str "object") h in
    let both = ap (is_str "object") named in ground (arith, both)

is_object_node-false : (fs : Fields) → ¬ IsObjectNode fs → is_object_node (close_fields fs) ≡ false
is_object_node-false fs apart = elim (Bool-cases (is_object_node (close_fields fs))) [
  | inr e ↦ e
  | inl e ↦ elim (or_true (has_key "properties" (close_fields fs)) _ e) [
    | inl has ↦ absurd (apart (inl (has_key-close_fields "properties" fs has)))
    | inr named ↦ absurd (
        apart
          (inr (type-close_fields fs (is_str-some "object" (get "type" (close_fields fs)) named))))
  ]
]

closed_schema-IsClosing : (fs : Fields) → IsClosing fs (closed_schema fs)
unfolding closed_schema
closed_schema-IsClosing fs = record {
  kept = λ k v h. get-closed_schema k fs v h;
  no_more = λ k differs h.
      let none_yet = get-close_fields-none k fs h in
      if_either (λ gs. get k gs ≡ none) (is_object_node (close_fields fs)) _ _
        (get-set_default-other k (close_fields fs) differs none_yet) none_yet;
  defaulted = λ node h.
      rw (is_object_node-true fs node) (
        get-set_default-none (close_fields fs) (get-close_fields-none "additionalProperties" fs h));
  untouched = λ apart h.
      rw (is_object_node-false fs apart) (get-close_fields-none "additionalProperties" fs h);
}

-- Wherever an object stands in a schema, an object stands at the same place of the closed schema. It
-- has each key of the first, with its value closed, and no other but `additionalProperties`. Where the
-- first has no `additionalProperties`, the second has `false` there if the first has `properties` or
-- its `type` is `object`, and none otherwise.
pub closed_schema-IsClosed :
    (schema fs : Fields) (path : List PathStep)
    → StandsAt path (obj schema) (obj fs)
    → (gs : Fields) × StandsAt path (obj (closed_schema schema)) (obj gs) × IsClosing fs gs
unfolding close closed_schema
closed_schema-IsClosed schema fs path h =
    (closed_schema fs, close-StandsAt path (obj schema) (obj fs) h, closed_schema-IsClosing fs)
