-- ===== src/Json/Sorted.antt =====
-- Sorted keys: sorting twice is sorting once, and a sorted value stays in the bounded domain.
use llm_calling.Base.{ℕ, suc, String, ◌≡◌, refl, ap, true, false, arith, if_either, if_known}
use llm_calling.Json.{
  Json, null, bool, int, num, str, arr, obj, Items, nil, cons, Fields, end, field,
}
use llm_calling.Json.Bounds.{IsBounded, IsBoundedItems, IsBoundedFields}
use llm_calling.Json.Canonical.{str_leb, insert_field, sort_keys, sort_items, sort_fields}

str_leb-total : (s t : String) → str_leb s t ≡ false → str_leb t s ≡ true
unfolding str_leb
str_leb-total String.[] t h = cc
str_leb-total (String.◌∷◌ c s) String.[] h = refl
str_leb-total (String.◌∷◌ c s) (String.◌∷◌ d t) h = ground (arith, str_leb-total s t)

-- The first key is at least `k`.
abbrev Below : String → Fields → Type 0
Below k end = Unit
Below k (field l w fs) = str_leb k l ≡ true

-- Each key is at most the next one, at this level.
abbrev Ascending : Fields → Type 0
Ascending end = Unit
Ascending (field k v fs) = Below k fs × Ascending fs

-- A value whose objects are ascending, at every level.
abbrev mutual
  pub IsSortedJson : Json → Type 0
  IsSortedJson null = Unit
  IsSortedJson (bool _) = Unit
  IsSortedJson (int _) = Unit
  IsSortedJson (num _) = Unit
  IsSortedJson (str _) = Unit
  IsSortedJson (arr vs) = IsSortedItems vs
  IsSortedJson (obj fs) = Ascending fs × IsSortedFields fs

  IsSortedItems : Items → Type 0
  IsSortedItems nil = Unit
  IsSortedItems (cons v vs) = IsSortedJson v × IsSortedItems vs

  IsSortedFields : Fields → Type 0
  IsSortedFields end = Unit
  IsSortedFields (field k v fs) = IsSortedJson v × IsSortedFields fs

Below-insert_field :
    (l k : String) (v : Json) (fs : Fields)
    → str_leb l k ≡ true
    → Below l fs
    → Below l (insert_field k v fs)
unfolding insert_field
Below-insert_field l k v end low h = low
Below-insert_field l k v (field m w fs) low h =
    if_either (Below l) (str_leb k m) (field k v (field m w fs)) (field m w (insert_field k v fs))
      low h

insert_field-Ascending :
    (k : String) (v : Json) (fs : Fields) → Ascending fs → Ascending (insert_field k v fs)
unfolding insert_field
insert_field-Ascending k v end h = (tt, tt)
insert_field-Ascending k v (field l w fs) h =
    if_known Ascending (str_leb k l) (field k v (field l w fs)) (field l w (insert_field k v fs))
      (λ low. (low, h))
      (λ high. (
        Below-insert_field l k v fs (str_leb-total k l high) h.0,
        insert_field-Ascending k v fs h.1,
      ))

insert_field-IsSortedFields :
    (k : String) (v : Json) (fs : Fields)
    → IsSortedJson v
    → IsSortedFields fs
    → IsSortedFields (insert_field k v fs)
unfolding insert_field
insert_field-IsSortedFields k v end hv h = (hv, tt)
insert_field-IsSortedFields k v (field l w fs) hv h =
    if_either IsSortedFields (str_leb k l) (field k v (field l w fs))
      (field l w (insert_field k v fs)) (hv, h) (h.0, insert_field-IsSortedFields k v fs hv h.1)

sort_fields-Ascending : (fs : Fields) → Ascending (sort_fields fs)
unfolding sort_fields
sort_fields-Ascending end = tt
sort_fields-Ascending (field k v fs) =
    insert_field-Ascending k (sort_keys v) (sort_fields fs) (sort_fields-Ascending fs)

mutual
  unfolding sort_keys sort_items sort_fields

  pub sort_keys-IsSortedJson : (v : Json) → IsSortedJson (sort_keys v)
  sort_keys-IsSortedJson null = tt
  sort_keys-IsSortedJson (bool b) = tt
  sort_keys-IsSortedJson (int n) = tt
  sort_keys-IsSortedJson (num x) = tt
  sort_keys-IsSortedJson (str s) = tt
  sort_keys-IsSortedJson (arr vs) = sort_items-IsSortedItems vs
  sort_keys-IsSortedJson (obj fs) = (sort_fields-Ascending fs, sort_fields-IsSortedFields fs)

  sort_items-IsSortedItems : (vs : Items) → IsSortedItems (sort_items vs)
  sort_items-IsSortedItems nil = tt
  sort_items-IsSortedItems (cons v vs) = (sort_keys-IsSortedJson v, sort_items-IsSortedItems vs)

  sort_fields-IsSortedFields : (fs : Fields) → IsSortedFields (sort_fields fs)
  sort_fields-IsSortedFields end = tt
  sort_fields-IsSortedFields (field k v fs) =
      insert_field-IsSortedFields k (sort_keys v) (sort_fields fs) (sort_keys-IsSortedJson v)
        (sort_fields-IsSortedFields fs)

insert_field-first :
    (k : String) (v : Json) (fs : Fields) → Below k fs → insert_field k v fs ≡ field k v fs
unfolding insert_field
insert_field-first k v end h = refl
insert_field-first k v (field l w fs) h = rw h refl

mutual
  unfolding sort_keys sort_items sort_fields

  sort_keys_of_IsSortedJson : (v : Json) → IsSortedJson v → sort_keys v ≡ v
  sort_keys_of_IsSortedJson null h = refl
  sort_keys_of_IsSortedJson (bool b) h = refl
  sort_keys_of_IsSortedJson (int n) h = refl
  sort_keys_of_IsSortedJson (num x) h = refl
  sort_keys_of_IsSortedJson (str s) h = refl
  sort_keys_of_IsSortedJson (arr vs) h = ap arr (sort_items_of_IsSortedItems vs h)
  sort_keys_of_IsSortedJson (obj fs) h = ap obj (sort_fields_of_IsSortedFields fs h.0 h.1)

  sort_items_of_IsSortedItems : (vs : Items) → IsSortedItems vs → sort_items vs ≡ vs
  sort_items_of_IsSortedItems nil h = refl
  sort_items_of_IsSortedItems (cons v vs) h =
      rw (sort_keys_of_IsSortedJson v h.0, sort_items_of_IsSortedItems vs h.1) refl

  sort_fields_of_IsSortedFields :
      (fs : Fields) → Ascending fs → IsSortedFields fs → sort_fields fs ≡ fs
  sort_fields_of_IsSortedFields end a h = refl
  sort_fields_of_IsSortedFields (field k v fs) a h =
      rw (sort_keys_of_IsSortedJson v h.0, sort_fields_of_IsSortedFields fs a.1 h.1)
        (insert_field-first k v fs a.0)

-- A canonical value is its own canonical form.
pub sort_keys_idem : (v : Json) → sort_keys (sort_keys v) ≡ sort_keys v
sort_keys_idem v = sort_keys_of_IsSortedJson (sort_keys v) (sort_keys-IsSortedJson v)

insert_field-IsBoundedFields :
    (d : ℕ) (k : String) (v : Json) (fs : Fields)
    → IsBounded d v
    → IsBoundedFields d fs
    → IsBoundedFields d (insert_field k v fs)
unfolding insert_field
insert_field-IsBoundedFields d k v end hv h = (hv, tt)
insert_field-IsBoundedFields d k v (field l w fs) hv h =
    if_either (IsBoundedFields d) (str_leb k l) (field k v (field l w fs))
      (field l w (insert_field k v fs)) (hv, h) (h.0, insert_field-IsBoundedFields d k v fs hv h.1)

mutual
  unfolding sort_keys sort_items sort_fields

  pub sort_keys-IsBounded : (d : ℕ) (v : Json) → IsBounded d v → IsBounded d (sort_keys v)
  sort_keys-IsBounded d null h = h
  sort_keys-IsBounded d (bool b) h = h
  sort_keys-IsBounded d (int n) h = h
  sort_keys-IsBounded d (num x) h = h
  sort_keys-IsBounded d (str s) h = h
  sort_keys-IsBounded d (arr vs) h = (h.0, sort_items-IsBoundedItems (suc d) vs h.1)
  sort_keys-IsBounded d (obj fs) h = (h.0, sort_fields-IsBoundedFields (suc d) fs h.1)

  sort_items-IsBoundedItems :
      (d : ℕ) (vs : Items) → IsBoundedItems d vs → IsBoundedItems d (sort_items vs)
  sort_items-IsBoundedItems d nil h = tt
  sort_items-IsBoundedItems d (cons v vs) h =
      (sort_keys-IsBounded d v h.0, sort_items-IsBoundedItems d vs h.1)

  sort_fields-IsBoundedFields :
      (d : ℕ) (fs : Fields) → IsBoundedFields d fs → IsBoundedFields d (sort_fields fs)
  sort_fields-IsBoundedFields d end h = tt
  sort_fields-IsBoundedFields d (field k v fs) h =
      insert_field-IsBoundedFields d k (sort_keys v) (sort_fields fs) (sort_keys-IsBounded d v h.0)
        (sort_fields-IsBoundedFields d fs h.1)

mutual
  -- What fits one level further down fits here.
  pub IsBounded-up : (d : ℕ) (v : Json) → IsBounded (suc d) v → IsBounded d v
  IsBounded-up d null h = omega arith
  IsBounded-up d (bool b) h = omega arith
  IsBounded-up d (int n) h = (omega arith, h.1)
  IsBounded-up d (num x) h = (omega arith, h.1)
  IsBounded-up d (str s) h = omega arith
  IsBounded-up d (arr vs) h = (omega arith, IsBoundedItems-up (suc d) vs h.1)
  IsBounded-up d (obj fs) h = (omega arith, IsBoundedFields-up (suc d) fs h.1)

  IsBoundedItems-up : (d : ℕ) (vs : Items) → IsBoundedItems (suc d) vs → IsBoundedItems d vs
  IsBoundedItems-up d nil h = tt
  IsBoundedItems-up d (cons v vs) h = (IsBounded-up d v h.0, IsBoundedItems-up d vs h.1)

  IsBoundedFields-up : (d : ℕ) (fs : Fields) → IsBoundedFields (suc d) fs → IsBoundedFields d fs
  IsBoundedFields-up d end h = tt
  IsBoundedFields-up d (field k v fs) h = (IsBounded-up d v h.0, IsBoundedFields-up d fs h.1)
