-- ===== src/Engines/Chat/Folds.antt =====
-- Folding the usage of two frames, key by key.
use mathlib.Core.Path.{subst}
use llm_calling.Base.{
  String, ◌≡◌, refl, sym, ap, ◌∙◌, ◌≢◌, ◌⊎◌, inl, inr, false, Option, none, some, str_eq, eq_iff,
  if◌then◌else◌, Bool-cases, none-ne-some,
}
use llm_calling.Continuation.Read.{each}
use llm_calling.Continuation.Resume.{put}
use llm_calling.Engines.Chat.Usage.{update_known, merged_value, set_known, fold_entries}
use llm_calling.Json.{Json, null, bool, int, num, str, arr, obj, Fields, end, field, get}

-- What the fold leaves at a key.
abbrev combined : Option Json → Option Json → Option Json
combined old none = old
combined old (some v) = merged_value old v

-- No key twice, as in every `dict`.
abbrev pub HasUniqueKeys : Fields → Type 0
HasUniqueKeys end = Unit
HasUniqueKeys (field k v fs) = (get k fs ≡ none) × HasUniqueKeys fs

get-put_same : (k : String) (v : Json) (fs : Fields) → get k (put k v fs) ≡ some v
get-put_same k v end = rw ((eq_iff k k).1 refl) refl
get-put_same k v (field j w fs) = elim (Bool-cases (str_eq j k)) [
  | inl e ↦ rw (e, e) refl
  | inr e ↦ rw (e, e) (get-put_same k v fs)
]

get-put_other :
    (k j : String) (v : Json) (fs : Fields) → str_eq j k ≡ false → get k (put j v fs) ≡ get k fs
get-put_other k j v end e = rw e refl
get-put_other k j v (field i w fs) e = elim (Bool-cases (str_eq i j)) [
  | inl same ↦
      let apart : str_eq i k ≡ false =
        subst (λ x. str_eq x k ≡ false) (sym ((eq_iff i j).0 same)) e in
      rw (same, apart) refl
  | inr differs ↦ rw (differs, get-put_other k j v fs e) refl
]

-- Nothing is set only if there was nothing.
merged_value-none : (old : Option Json) (v : Json) → merged_value old v ≡ none → old ≡ none
unfolding merged_value
merged_value-none none v h = refl
merged_value-none (some w) null h = h
merged_value-none (some w) (bool b) h = absurd (none-ne-some _ (sym h))
merged_value-none (some w) (int n) h = absurd (none-ne-some _ (sym h))
merged_value-none (some w) (num x) h = absurd (none-ne-some _ (sym h))
merged_value-none (some w) (str s) h = absurd (none-ne-some _ (sym h))
merged_value-none (some w) (arr vs) h = absurd (none-ne-some _ (sym h))
merged_value-none (some (obj old)) (obj new) h = absurd (none-ne-some _ (sym h))
merged_value-none (some null) (obj new) h = absurd (none-ne-some _ (sym h))
merged_value-none (some (bool b)) (obj new) h = absurd (none-ne-some _ (sym h))
merged_value-none (some (int n)) (obj new) h = absurd (none-ne-some _ (sym h))
merged_value-none (some (num x)) (obj new) h = absurd (none-ne-some _ (sym h))
merged_value-none (some (str s)) (obj new) h = absurd (none-ne-some _ (sym h))
merged_value-none (some (arr vs)) (obj new) h = absurd (none-ne-some _ (sym h))

get-set_known_same :
    (k : String) (o : Option Json) (base : Fields)
    → (o ≡ none → get k base ≡ none)
    → get k (set_known k o base) ≡ o
get-set_known_same k none base h = h refl
get-set_known_same k (some w) base h = get-put_same k w base

get-set_known_other :
    (k j : String) (o : Option Json) (base : Fields)
    → str_eq j k ≡ false
    → get k (set_known j o base) ≡ get k base
get-set_known_other k j none base e = refl
get-set_known_other k j (some w) base e = get-put_other k j w base e

get-combined :
    (k : String) (base later : Fields)
    → HasUniqueKeys later
    → get k (fold_entries base later) ≡ combined (get k base) (get k later)
unfolding fold_entries
get-combined k base end unique = refl
get-combined k base (field j v fs) (absent, unique) =
    let now = set_known j (merged_value (get j base) v) base in
    get-combined k now fs unique ∙ elim (Bool-cases (str_eq j k)) [
      | inl e ↦
          let same : j ≡ k = (eq_iff j k).0 e in
          let gone : get k fs ≡ none = subst (λ x. get x fs ≡ none) same absent in
          let held : get k now ≡ merged_value (get k base) v =
            subst
              (λ x.
                get k (set_known x (merged_value (get x base) v) base)
                ≡ merged_value (get k base) v)
              (sym same)
              (get-set_known_same k (merged_value (get k base) v) base
                (merged_value-none (get k base) v)) in
          ap (combined (get k now)) gone
          ∙ held
          ∙ sym (ap (λ b. combined (get k base) (if b then some v else get k fs)) e)
      | inr e ↦
          ap (λ o. combined o (get k fs))
            (get-set_known_other k j (merged_value (get j base) v) base e)
          ∙ sym (ap (λ b. combined (get k base) (if b then some v else get k fs)) e)
    ]

-- The later value where there is one and it is not null, and else the earlier one.
abbrev pub latest : Option Json → Option Json → Option Json
latest old none = old
latest old (some null) = old
latest old (some v) = some v

-- What an entry sets, if anything.
abbrev known : Json → Option Json
known null = none
known v = some v

update_known-step :
    (inner : Fields) (j : String) (v : Json) (fs : Fields)
    → update_known inner (field j v fs) ≡ update_known (set_known j (known v) inner) fs
unfolding update_known
update_known-step inner j null fs = refl
update_known-step inner j (bool b) fs = refl
update_known-step inner j (int n) fs = refl
update_known-step inner j (num x) fs = refl
update_known-step inner j (str s) fs = refl
update_known-step inner j (arr vs) fs = refl
update_known-step inner j (obj gs) fs = refl

get-set_known-latest :
    (k : String) (v : Json) (inner : Fields)
    → get k (set_known k (known v) inner) ≡ latest (get k inner) (some v)
get-set_known-latest k null inner = refl
get-set_known-latest k (bool b) inner = get-put_same k (bool b) inner
get-set_known-latest k (int n) inner = get-put_same k (int n) inner
get-set_known-latest k (num x) inner = get-put_same k (num x) inner
get-set_known-latest k (str s) inner = get-put_same k (str s) inner
get-set_known-latest k (arr vs) inner = get-put_same k (arr vs) inner
get-set_known-latest k (obj gs) inner = get-put_same k (obj gs) inner

get-update_known :
    (k : String) (inner later : Fields)
    → HasUniqueKeys later
    → get k (update_known inner later) ≡ latest (get k inner) (get k later)
unfolding update_known
get-update_known k inner end unique = refl
get-update_known k inner (field j v fs) (absent, unique) =
    let now = set_known j (known v) inner in
    ap (get k) (update_known-step inner j v fs)
    ∙ get-update_known k now fs unique
    ∙ elim (Bool-cases (str_eq j k)) [
      | inl e ↦
          let same : j ≡ k = (eq_iff j k).0 e in
          let gone : get k fs ≡ none = subst (λ x. get x fs ≡ none) same absent in
          let held : get k now ≡ latest (get k inner) (some v) =
            subst (λ x. get k (set_known x (known v) inner) ≡ latest (get k inner) (some v))
              (sym same) (get-set_known-latest k v inner) in
          ap (latest (get k now)) gone
          ∙ held
          ∙ sym (ap (λ b. latest (get k inner) (if b then some v else get k fs)) e)
      | inr e ↦
          ap (λ o. latest o (get k fs)) (get-set_known_other k j (known v) inner e)
          ∙ sym (ap (λ b. latest (get k inner) (if b then some v else get k fs)) e)
    ]

-- What is folded at a key from an earlier and a later value. Two mappings are merged key by key; a
-- null, or no value, changes nothing; any other value takes the place of the earlier one.
pub record IsFolded (old later result : Option Json) : Type 0 where
  pub unchanged : (later ≡ none) ⊎ (later ≡ some null) → result ≡ old
  pub merged :
      (a b : Fields)
      → old ≡ some (obj a)
      → later ≡ some (obj b)
      → (c : Fields) × (result ≡ some (obj c))
        × ((j : String) → get j c ≡ latest (get j a) (get j b))
  pub replaced :
      (v : Json)
      → later ≡ some v
      → v ≢ null
      → ((a b : Fields) → old ≡ some (obj a) → ¬ (v ≡ obj b))
      → result ≡ some v

-- A mapping in the frame has no key twice.
abbrev pub HasUniqueInner : Option Json → Type 0
HasUniqueInner o = (fs : Fields) → o ≡ some (obj fs) → HasUniqueKeys fs

combined-merged :
    (a b : Fields) (old later : Option Json)
    → HasUniqueInner later
    → old ≡ some (obj a)
    → later ≡ some (obj b)
    → (c : Fields) × (combined old later ≡ some (obj c))
      × ((j : String) → get j c ≡ latest (get j a) (get j b))
unfolding merged_value
combined-merged a b old later unique e e' =
    (update_known a b, (λ i. combined (e i) (e' i)), λ j. get-update_known j a b (unique b e'))

combined-unchanged :
    (old later : Option Json) → (later ≡ none) ⊎ (later ≡ some null) → combined old later ≡ old
unfolding merged_value
combined-unchanged old later (inl e) = ap (combined old) e
combined-unchanged old later (inr e) = ap (combined old) e

merged_value-replaced :
    (old : Option Json) (v : Json)
    → v ≢ null
    → ((a b : Fields) → old ≡ some (obj a) → ¬ (v ≡ obj b))
    → merged_value old v ≡ some v
unfolding merged_value
merged_value-replaced old null known apart = absurd (known refl)
merged_value-replaced old (bool b) known apart = refl
merged_value-replaced old (int n) known apart = refl
merged_value-replaced old (num x) known apart = refl
merged_value-replaced old (str s) known apart = refl
merged_value-replaced old (arr vs) known apart = refl
merged_value-replaced none (obj new) known apart = refl
merged_value-replaced (some (obj a)) (obj new) known apart = absurd (apart a new refl refl)
merged_value-replaced (some null) (obj new) known apart = refl
merged_value-replaced (some (bool _)) (obj new) known apart = refl
merged_value-replaced (some (int _)) (obj new) known apart = refl
merged_value-replaced (some (num _)) (obj new) known apart = refl
merged_value-replaced (some (str _)) (obj new) known apart = refl
merged_value-replaced (some (arr _)) (obj new) known apart = refl

-- Folding a later frame, which like its mappings has no key twice, at a key: two mappings are merged key by key, where the later
-- value wins unless it is null; a null, or no value, leaves the earlier value; any other later value
-- takes the place of the earlier one.
pub get-fold_entries :
    (k : String) (base later : Fields)
    → HasUniqueKeys later
    → HasUniqueInner (get k later)
    → IsFolded (get k base) (get k later) (get k (fold_entries base later))
get-fold_entries k base later unique inner =
    let here = get-combined k base later unique in
    record {
      unchanged = λ h. here ∙ combined-unchanged (get k base) (get k later) h;
      merged = λ a b e e'.
          let (c, folded, each) = combined-merged a b (get k base) (get k later) inner e e' in
          (c, here ∙ folded, each);
      replaced = λ v e known apart.
          here ∙ ap (combined (get k base)) e ∙ merged_value-replaced (get k base) v known apart;
    }
