-- ===== src/Runtime/Schema.antt =====
-- `_closed_schema` of `json_out` (provider_runtime/runtime.py): every object node of a JSON schema gets
-- an `additionalProperties`.
pub mod Keys
pub mod Nodes
use llm_calling.Base.{
  String, ◌≡◌, refl, inl, inr, Bool, false, ◌||◌, some, arith, str_eq, if◌then◌else◌, Bool-cases,
  if_either,
}
use llm_calling.Continuation.{is_str}
use llm_calling.Json.{
  Json, null, bool, int, num, str, arr, obj, Items, nil, cons, Fields, end, field, get,
}
use llm_calling.Platform.{has_key}

-- `"properties" in closed or closed.get("type") == "object"`
abbrev pub is_object_node : Fields → Bool
is_object_node fs = has_key "properties" fs || is_str "object" (get "type" fs)

-- `closed.setdefault("additionalProperties", False)`
unfoldable pub set_default : Fields → Fields
set_default end = field "additionalProperties" (bool false) end
set_default (field k v fs) =
    let rest = set_default fs in
    if str_eq k "additionalProperties" then field k v fs else field k v rest

abbrev pub close_node : Fields → Fields
close_node fs = if is_object_node fs then set_default fs else fs

unfoldable mutual
  unfolding set_default

  pub close : Json → Json
  close null = null
  close (bool b) = bool b
  close (int n) = int n
  close (num x) = num x
  close (str s) = str s
  close (arr vs) = arr (close_items vs)
  close (obj fs) = obj (close_node (close_fields fs))

  pub close_items : Items → Items
  close_items nil = nil
  close_items (cons v vs) = cons (close v) (close_items vs)

  pub close_fields : Fields → Fields
  close_fields end = end
  close_fields (field k v fs) = field k (close v) (close_fields fs)

unfoldable pub closed_schema : Fields → Fields
closed_schema schema = close_node (close_fields schema)

get-set_default :
    (key : String) (fs : Fields) (v : Json)
    → get key fs ≡ some v
    → get key (set_default fs) ≡ some v
unfolding set_default
get-set_default key end v h = cc
get-set_default key (field k w fs) v h =
    if_either (λ gs. get key gs ≡ some v) (str_eq k "additionalProperties") (field k w fs)
      (field k w (set_default fs)) h
      (elim (Bool-cases (str_eq k key)) [
        | inl here ↦ rw here (ground (arith, h))
        | inr there ↦ rw there (get-set_default key fs v (ground (arith, h)))
      ])

pub get-close_fields :
    (key : String) (fs : Fields) (v : Json)
    → get key fs ≡ some v
    → get key (close_fields fs) ≡ some (close v)
unfolding close_fields
get-close_fields key end v h = cc
get-close_fields key (field k w fs) v h = elim (Bool-cases (str_eq k key)) [
  | inl here ↦ let same : w ≡ v = ground (arith, h) in rw (here, same) refl
  | inr there ↦ rw there (get-close_fields key fs v (ground (arith, h)))
]

pub get-closed_schema :
    (key : String) (schema : Fields) (v : Json)
    → get key schema ≡ some v
    → get key (closed_schema schema) ≡ some (close v)
unfolding closed_schema
get-closed_schema key schema v h =
    let kept = get-close_fields key schema v h in
    if_either (λ gs. get key gs ≡ some (close v)) (is_object_node (close_fields schema)) _ _
      (get-set_default key (close_fields schema) (close v) kept) kept
