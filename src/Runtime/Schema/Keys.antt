-- ===== src/Runtime/Schema/Keys.antt =====
-- Which keys closing a schema keeps, and which it adds.
use llm_calling.Base.{
  String, ◌≡◌, refl, sym, ap, ◌∙◌, ◌≢◌, ◌⊎◌, inl, inr, Bool, true, false, ◌||◌, Option, none, some,
  arith, str_eq, eq_iff, Bool-cases, Option-cases, if_either, true-ne-false, none-ne-some,
  some-injective,
}
use llm_calling.Continuation.{is_str}
use llm_calling.Json.{Json, null, bool, int, num, str, arr, obj, Fields, end, field, get}
use llm_calling.Platform.{has_key}
use llm_calling.Runtime.Schema.{set_default, close, close_fields, get-close_fields}

pub get-close_fields-none :
    (key : String) (fs : Fields) → get key fs ≡ none → get key (close_fields fs) ≡ none
unfolding close_fields
get-close_fields-none key end h = refl
get-close_fields-none key (field k w fs) h = elim (Bool-cases (str_eq k key)) [
  | inl here ↦ absurd (ground (arith, h, here))
  | inr there ↦ rw there (get-close_fields-none key fs (ground (arith, h, there)))
]

pub get-set_default-none :
    (fs : Fields)
    → get "additionalProperties" fs ≡ none
    → get "additionalProperties" (set_default fs) ≡ some (bool false)
unfolding set_default
get-set_default-none end h = refl
get-set_default-none (field k w fs) h = elim (Bool-cases (str_eq k "additionalProperties")) [
  | inl here ↦ absurd (ground (arith, h, here))
  | inr there ↦ rw (there, there) (get-set_default-none fs (ground (arith, h, there)))
]

is_object-str : (v : Json) → close v ≡ str "object" → v ≡ str "object"
unfolding close
is_object-str null h = h
is_object-str (bool b) h = h
is_object-str (int n) h = h
is_object-str (num x) h = h
is_object-str (str s) h = h
is_object-str (arr vs) h = cc
is_object-str (obj fs) h = cc

pub get-set_default-other :
    (k : String) (fs : Fields)
    → k ≢ "additionalProperties"
    → get k fs ≡ none
    → get k (set_default fs) ≡ none
unfolding set_default
get-set_default-other k end differs h = elim (Bool-cases (str_eq "additionalProperties" k)) [
  | inl e ↦ absurd (differs (sym ((eq_iff "additionalProperties" k).0 e)))
  | inr e ↦ rw e refl
]
get-set_default-other k (field j w fs) differs h = elim (Bool-cases (str_eq j k)) [
  | inl here ↦ absurd (ground (arith, h, here))
  | inr there ↦
      let rest = get-set_default-other k fs differs (ground (arith, h, there)) in
      if_either (λ gs. get k gs ≡ none) (str_eq j "additionalProperties") (field j w fs)
        (field j w (set_default fs)) h (rw there rest)
]

pub has_key-some :
    (key : String) (fs : Fields) (v : Json) → get key fs ≡ some v → has_key key fs ≡ true
has_key-some key end v h = cc
has_key-some key (field k w fs) v h = elim (Bool-cases (str_eq k key)) [
  | inl here ↦ rw here refl
  | inr there ↦ rw there (has_key-some key fs v (ground (arith, h, there)))
]

has_key-none : (key : String) (fs : Fields) → get key fs ≡ none → has_key key fs ≡ false
has_key-none key end h = refl
has_key-none key (field k w fs) h = elim (Bool-cases (str_eq k key)) [
  | inl here ↦ absurd (ground (arith, h, here))
  | inr there ↦ rw there (has_key-none key fs (ground (arith, h, there)))
]

pub has_key-close_fields :
    (key : String) (fs : Fields)
    → has_key key (close_fields fs) ≡ true
    → (v : Json) × (get key fs ≡ some v)
has_key-close_fields key fs h = elim (Option-cases (get key fs)) [
  | inr found ↦ found
  | inl e ↦
      absurd (
        true-ne-false (sym h ∙ has_key-none key (close_fields fs) (get-close_fields-none key fs e)))
]

pub is_str-some : (s : String) (o : Option Json) → is_str s o ≡ true → o ≡ some (str s)
is_str-some s (some (str t)) h = ap (λ x. some (str x)) ((eq_iff t s).0 h)
is_str-some s (some null) h = cc
is_str-some s (some (bool _)) h = cc
is_str-some s (some (int _)) h = cc
is_str-some s (some (num _)) h = cc
is_str-some s (some (arr _)) h = cc
is_str-some s (some (obj _)) h = cc
is_str-some s none h = cc

pub type-close_fields :
    (fs : Fields)
    → get "type" (close_fields fs) ≡ some (str "object")
    → get "type" fs ≡ some (str "object")
type-close_fields fs h = elim (Option-cases (get "type" fs)) [
  | inl e ↦ let gone = get-close_fields-none "type" fs e in absurd (none-ne-some _ (sym gone ∙ h))
  | inr (v, e) ↦
      let same : close v ≡ str "object" =
        some-injective _ _ (sym (get-close_fields "type" fs v e) ∙ h) in
      e ∙ ap some (is_object-str v same)
]

pub or_true : (a b : Bool) → (a || b) ≡ true → (a ≡ true) ⊎ (b ≡ true)
or_true true b h = inl refl
or_true false b h = inr h
