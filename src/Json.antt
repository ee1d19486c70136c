-- ===== src/Json.antt =====
-- Bounded JSON (provider_runtime/types.py, "Frozen JSON"): the values that a caller hands in, the
-- frozen values, and the functions that freeze and thaw them. Also the domain of `json.loads`.
pub mod Bounds
pub mod Thaw
pub mod Canonical
pub mod Sorted
use llm_calling.Base.{
  ℕ, suc, ◌-◌, ◌^◌, String, Bool, true, not, ◌&&◌, Option, none, some, List, [], ◌∷◌, str_eq, ltb,
  ◌==◌, if◌then◌else◌, any, Result, ok, err, ◌>>=◌, ◌>>◌, raise_if,
}
use llm_calling.Base.Int.{ℤ, pos, negsuc, leb_ℤ}

-- A Python `float`: `finite m e` is m * 2 ** e, and `infinity true` is the negative one.
pub data Float : Type 0 where
  finite : ℤ → ℤ → Float
  infinity : Bool → Float
  nan : Float

-- `math.isfinite`
abbrev pub is_finite : Float → Bool
is_finite (finite _ _) = true
is_finite _ = Bool.false

-- A frozen value (`JsonValue`): a scalar, a tuple, or a `FrozenJsonDict` by its items in order.
mutual
  pub data Json : Type 0 where
    null : Json
    bool : Bool → Json
    int : ℤ → Json
    num : Float → Json
    str : String → Json
    arr : Items → Json
    obj : Fields → Json

  pub data Items : Type 0 where
    nil : Items
    cons : Json → Items → Items

  pub data Fields : Type 0 where
    end : Fields
    field : String → Json → Fields → Fields

-- A key of a caller's mapping: a `str`, or anything else.
pub data Key : Type 0 where
  text_key : String → Key
  other_key : Key

-- A caller's object. A container has its identity, `id(value)`. An object graph with a cycle is
-- unrolled up to the node that it comes back to: what is below that node is never read.
mutual
  pub data Object : Type 0 where
    none_value : Object
    bool_value : Bool → Object
    int_value : ℤ → Object
    float_value : Float → Object
    str_value : String → Object
    sequence : ℕ → Elements → Object
    mapping : ℕ → Entries → Object
    other : Object

  pub data Elements : Type 0 where
    no_element : Elements
    element : Object → Elements → Elements

  pub data Entries : Type 0 where
    no_entry : Entries
    entry : Key → Object → Entries → Entries

-- The places where `JsonValueError` is raised. The text of the message is left out.
pub data JsonError : Type 0 where
  too_deep int_range not_finite reference_cycle key_not_string not_json not_object : JsonError

abbrev pub max_json_depth : ℕ
max_json_depth = 64

abbrev pub min_json_integer : ℤ
min_json_integer = negsuc (2 ^ 63 - 1)

abbrev pub max_json_integer : ℤ
max_json_integer = pos (2 ^ 63 - 1)

abbrev pub contains_id : ℕ → List ℕ → Bool
contains_id i = any (λ j. i == j)

-- `_freeze_json_value` and `_freeze_mapping_items`. `active` holds the identities of the containers
-- that are being frozen; what is added for a container is removed after it, so it goes down only.
unfoldable mutual
  pub freeze_at : List ℕ → ℕ → Object → Result JsonError Json
  freeze_at active depth none_value = raise_if (ltb max_json_depth depth) too_deep >> ok null
  freeze_at active depth (bool_value b) =
      raise_if (ltb max_json_depth depth) too_deep >> ok (bool b)
  freeze_at active depth (int_value n) = do
    raise_if (ltb max_json_depth depth) too_deep
    raise_if (not (leb_ℤ min_json_integer n && leb_ℤ n max_json_integer)) int_range
    ok (int n)
  freeze_at active depth (float_value x) = do
    raise_if (ltb max_json_depth depth) too_deep
    raise_if (not (is_finite x)) not_finite
    ok (num x)
  freeze_at active depth (str_value s) = raise_if (ltb max_json_depth depth) too_deep >> ok (str s)
  freeze_at active depth (sequence i es) = do
    raise_if (ltb max_json_depth depth) too_deep
    raise_if (contains_id i active) reference_cycle
    items ← freeze_elements (i ∷ active) (suc depth) es
    ok (arr items)
  freeze_at active depth (mapping i es) = do
    raise_if (ltb max_json_depth depth) too_deep
    raise_if (contains_id i active) reference_cycle
    fields ← freeze_entries (i ∷ active) (suc depth) es
    ok (obj fields)
  freeze_at active depth other = raise_if (ltb max_json_depth depth) too_deep >> err not_json

  pub freeze_elements : List ℕ → ℕ → Elements → Result JsonError Items
  freeze_elements active depth no_element = ok nil
  freeze_elements active depth (element o es) = do
    v ← freeze_at active depth o
    vs ← freeze_elements active depth es
    ok (cons v vs)

  pub freeze_entries : List ℕ → ℕ → Entries → Result JsonError Fields
  freeze_entries active depth no_entry = ok end
  freeze_entries active depth (entry (text_key k) o es) = do
    v ← freeze_at active depth o
    vs ← freeze_entries active depth es
    ok (field k v vs)
  freeze_entries active depth (entry other_key o es) = err key_not_string

unfoldable pub freeze_json_value : Object → Result JsonError Json
freeze_json_value o = freeze_at [] 0 o

abbrev pub as_object : Json → Result JsonError Fields
as_object (obj fs) = ok fs
as_object null = err not_object
as_object (bool _) = err not_object
as_object (int _) = err not_object
as_object (num _) = err not_object
as_object (str _) = err not_object
as_object (arr _) = err not_object

-- The argument is a `Mapping` by its annotation; what freezes to anything else is refused.
unfoldable pub freeze_json_object : Object → Result JsonError Fields
freeze_json_object o = freeze_json_value o >>= as_object

-- `thaw_json_value` makes new containers. Their identities only have to differ from those that
-- enclose them, so that of a new container is its depth.
unfoldable mutual
  pub thaw : ℕ → Json → Object
  thaw depth null = none_value
  thaw depth (bool b) = bool_value b
  thaw depth (int n) = int_value n
  thaw depth (num x) = float_value x
  thaw depth (str s) = str_value s
  thaw depth (arr vs) = sequence depth (thaw_items (suc depth) vs)
  thaw depth (obj fs) = mapping depth (thaw_fields (suc depth) fs)

  pub thaw_items : ℕ → Items → Elements
  thaw_items depth nil = no_element
  thaw_items depth (cons v vs) = element (thaw depth v) (thaw_items depth vs)

  pub thaw_fields : ℕ → Fields → Entries
  thaw_fields depth end = no_entry
  thaw_fields depth (field k v fs) = entry (text_key k) (thaw depth v) (thaw_fields depth fs)

unfoldable pub thaw_json_value : Json → Object
thaw_json_value v = thaw 0 v

-- `FrozenJsonDict.__getitem__`; `none` is `KeyError`. Also `dict.get`.
abbrev pub get : String → Fields → Option Json
get key end = none
get key (field k v fs) = if str_eq k key then some v else get key fs
