-- ===== src/Platform.antt =====
-- What the program uses of Python's standard library (json, base64, hashlib): parameters, with what
-- the program relies on as named laws.
use llm_calling.Base.{ℕ, String, ◌≡◌, Bool, false, ◌||◌, Option, some, List, str_eq}
use llm_calling.Base.Int.{ℤ}
use llm_calling.Json.{Json, Fields, end, field}

pub record Platform : Type 0 where
  -- `json.dumps(..., ensure_ascii=False, separators=(",", ":"))` as UTF-8, keys in the order given.
  pub dumps : Json → List ℕ
  -- `json.loads`; `none` stands for `JSONDecodeError`, `UnicodeDecodeError` and `RecursionError`.
  pub loads : List ℕ → Option Json
  -- The same two functions on `str`; `none` stands for `JSONDecodeError`.
  pub dumps_text : (ensure_ascii : Bool) → Json → String
  pub loads_text : String → Option Json
  -- `==` on parsed JSON: mappings without their order, numbers by their value.
  pub equal : Json → Json → Bool
  -- `not s.strip()`, `s.lower()`, `s.isdigit()`, and `int(s)`, where `none` stands for `ValueError`.
  pub is_blank : String → Bool
  pub lower : String → String
  pub is_digit : String → Bool
  pub to_int : String → Option ℤ
  pub b64encode : List ℕ → String
  -- `base64.b64decode(..., validate=True)`; `none` stands for `ValueError`.
  pub b64decode : String → Option (List ℕ)
  pub sha256_hex : List ℕ → String

-- `key in value`, for the fields of a mapping.
abbrev pub has_key : String → Fields → Bool
has_key key end = false
has_key key (field k v fs) = str_eq k key || has_key key fs

-- `json.loads` gives back the value whose text it reads. It does for the values that the program
-- writes: floats are finite, and no object holds a key twice.
abbrev pub ReadsBack : Platform → Json → Type 0
ReadsBack p v = p.loads (p.dumps v) ≡ some v
