-- ===== src/Json/Canonical.antt =====
-- `canonical_json_bytes`: keys sorted by code points at every level.
use Prim.Native.Char.{code}
use llm_calling.Base.{String, Bool, true, false, ◌&&◌, ◌||◌, ltb, ◌==◌, if◌then◌else◌}
use llm_calling.Json.{
  Json, null, bool, int, num, str, arr, obj, Items, nil, cons, Fields, end, field,
}

-- `a <= b` on `str`
unfoldable pub str_leb : String → String → Bool
str_leb String.[] t = true
str_leb (String.◌∷◌ c s) String.[] = false
str_leb (String.◌∷◌ c s) (String.◌∷◌ d t) =
    ltb (code c) (code d) || (code c == code d && str_leb s t)

unfoldable pub insert_field : String → Json → Fields → Fields
insert_field key v end = field key v end
insert_field key v (field k w fs) =
    if str_leb key k then field key v (field k w fs) else field k w (insert_field key v fs)

unfoldable mutual
  pub sort_keys : Json → Json
  sort_keys null = null
  sort_keys (bool b) = bool b
  sort_keys (int n) = int n
  sort_keys (num x) = num x
  sort_keys (str s) = str s
  sort_keys (arr vs) = arr (sort_items vs)
  sort_keys (obj fs) = obj (sort_fields fs)

  pub sort_items : Items → Items
  sort_items nil = nil
  sort_items (cons v vs) = cons (sort_keys v) (sort_items vs)

  pub sort_fields : Fields → Fields
  sort_fields end = end
  sort_fields (field k v fs) = insert_field k (sort_keys v) (sort_fields fs)
