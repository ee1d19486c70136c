-- ===== src/Engines/Chat/Slots.antt =====
-- The accumulator of streamed tool calls against its description: the fragments of each index on
-- their own, however the calls are interleaved.
use mathlib.Core.Path.{subst}
use text.Mathlib.TextLemmas.{append-nil as string_append_nil, append_assoc as string_append_assoc}
use llm_calling.Base.{
  String, ◌≡◌, refl, sym, ap, ◌∙◌, inl, inr, Bool, true, false, Option, List, [], ◌∷◌, arith,
  if◌then◌else◌, Bool-cases, true-ne-false, str_append, join,
}
use llm_calling.Base.Int.{ℤ, eq_ℤ}
use llm_calling.Engines.Chat.Calls.{
  ToolDelta, ToolCallSlot, Slots, slot_at, set_slot, replaced, name_of, fragment_of, entry_index,
  apply_slot, apply,
}

eq_ℤ-same : (a b c : ℤ) → eq_ℤ a b ≡ true → eq_ℤ c a ≡ eq_ℤ c b
eq_ℤ-same a b c h = ground arith

-- The fragments with an index, in their order.
abbrev pub fragments : ℤ → List ToolDelta → List String
fragments i [] = []
fragments i (d ∷ ds) =
    let rest = fragments i ds in
    if eq_ℤ (entry_index d) i then fragment_of d.function ∷ rest else rest

-- What is left of a text after each that is given and not empty has taken its place.
abbrev pub last_text : (ToolDelta → Option String) → ℤ → List ToolDelta → String → String
last_text f i [] s = s
last_text f i (d ∷ ds) s = last_text f i ds (if eq_ℤ (entry_index d) i then replaced s (f d) else s)

abbrev replay : ℤ → List ToolDelta → ToolCallSlot → ToolCallSlot
replay i [] slot = slot
replay i (d ∷ ds) slot = replay i ds (if eq_ℤ (entry_index d) i then apply_slot d slot else slot)

slot_at-same : (i j : ℤ) (slots : Slots) → eq_ℤ j i ≡ true → slot_at j slots ≡ slot_at i slots
slot_at-same i j [] h = refl
slot_at-same i j ((k, s) ∷ rest) h =
    ap (λ b. if b then s else slot_at j rest) (eq_ℤ-same j i k h)
    ∙ ap (λ t. if eq_ℤ k i then s else t) (slot_at-same i j rest h)

if_found :
    {A : Type 0} (b c : Bool) (x y z : A)
    → b ≡ c
    → (if b then x else z) ≡ (if c then x else (if b then y else z))
if_found true true x y z h = refl
if_found false false x y z h = refl
if_found true false x y z h = absurd (true-ne-false h)
if_found false true x y z h = absurd (true-ne-false (sym h))

if_later :
    {A : Type 0} (b c : Bool) (x y z : A)
    → (b ≡ true → c ≡ false)
    → (if b then y else (if c then x else z)) ≡ (if c then x else (if b then y else z))
if_later true true x y z h = absurd (true-ne-false (h refl))
if_later true false x y z h = refl
if_later false c x y z h = refl

eq_ℤ-apart : (k j i : ℤ) → eq_ℤ k j ≡ false → eq_ℤ k i ≡ true → eq_ℤ j i ≡ false
eq_ℤ-apart k j i h e = ground arith

eq_ℤ-trans : (k j i : ℤ) → eq_ℤ k j ≡ true → eq_ℤ k i ≡ eq_ℤ j i
eq_ℤ-trans k j i h = ground arith

-- Setting one slot changes what is found at its index only.
slot_at-set_slot :
    (i j : ℤ) (slot : ToolCallSlot) (slots : Slots)
    → slot_at i (set_slot j slot slots) ≡ (if eq_ℤ j i then slot else slot_at i slots)
slot_at-set_slot i j slot [] = refl
slot_at-set_slot i j slot ((k, old) ∷ rest) = elim (Bool-cases (eq_ℤ k j)) [
  | inl e ↦
      ap (λ b. slot_at i (if b then (k, slot) ∷ rest else (k, old) ∷ set_slot j slot rest)) e
      ∙ if_found (eq_ℤ k i) (eq_ℤ j i) slot old (slot_at i rest) (eq_ℤ-trans k j i e)
  | inr e ↦
      ap (λ b. slot_at i (if b then (k, slot) ∷ rest else (k, old) ∷ set_slot j slot rest)) e
      ∙ ap (λ t. if eq_ℤ k i then old else t) (slot_at-set_slot i j slot rest)
      ∙ if_later (eq_ℤ k i) (eq_ℤ j i) slot old (slot_at i rest) (eq_ℤ-apart k j i e)
]

-- One slot of the accumulator sees the entries of its index only.
slot_at-apply :
    (i : ℤ) (ds : List ToolDelta) (slots : Slots)
    → slot_at i (apply ds slots).0 ≡ replay i ds (slot_at i slots)
unfolding apply
slot_at-apply i [] slots = refl
slot_at-apply i (d ∷ ds) slots =
    let own = apply_slot d (slot_at (entry_index d) slots) in
    slot_at-apply i ds (set_slot (entry_index d) own slots)
    ∙ ap (replay i ds) (
        slot_at-set_slot i (entry_index d) own slots ∙ elim (Bool-cases (eq_ℤ (entry_index d) i)) [
          | inl e ↦
              ap (λ b. if b then own else slot_at i slots) e
              ∙ ap (apply_slot d) (slot_at-same i (entry_index d) slots e)
              ∙ sym (ap (λ b. if b then apply_slot d (slot_at i slots) else slot_at i slots) e)
          | inr e ↦
              ap (λ b. if b then own else slot_at i slots) e
              ∙ sym (ap (λ b. if b then apply_slot d (slot_at i slots) else slot_at i slots) e)
        ])

-- What a slot holds after the entries, if it held `slot` before.
pub record Holds (i : ℤ) (ds : List ToolDelta) (slot after : ToolCallSlot) : Type 0 where
  pub arguments : after.arguments ≡ str_append slot.arguments (join (fragments i ds))
  pub call_id : after.call_id ≡ last_text (λ d. d.id) i ds slot.call_id
  pub name : after.name ≡ last_text (λ d. name_of d.function) i ds slot.name

-- The texts of a slot after one entry, which is for it or not.
module _ (d : ToolDelta) (slot : ToolCallSlot) where
  after_arguments :
      (b : Bool) (rest : List String)
      → str_append (if b then apply_slot d slot else slot).arguments (join rest)
        ≡ str_append slot.arguments (join (if b then fragment_of d.function ∷ rest else rest))
  unfolding apply_slot
  after_arguments true rest =
      string_append_assoc slot.arguments (fragment_of d.function) (join rest)
  after_arguments false rest = refl

  after_call_id :
      (b : Bool)
      → (if b then apply_slot d slot else slot).call_id
        ≡ (if b then replaced slot.call_id d.id else slot.call_id)
  unfolding apply_slot
  after_call_id true = refl
  after_call_id false = refl

  after_name :
      (b : Bool)
      → (if b then apply_slot d slot else slot).name
        ≡ (if b then replaced slot.name (name_of d.function) else slot.name)
  unfolding apply_slot
  after_name true = refl
  after_name false = refl

replay-Holds :
    (i : ℤ) (ds : List ToolDelta) (slot : ToolCallSlot) → Holds i ds slot (replay i ds slot)
replay-Holds i [] slot = record {
  arguments = sym (string_append_nil slot.arguments);
  call_id = refl;
  name = refl;
}
replay-Holds i (d ∷ ds) slot =
    let mine = eq_ℤ (entry_index d) i in
    let rest = replay-Holds i ds (if mine then apply_slot d slot else slot) in
    record {
      arguments = rest.arguments ∙ after_arguments d slot mine (fragments i ds);
      call_id = rest.call_id ∙ ap (last_text (λ e. e.id) i ds) (after_call_id d slot mine);
      name = rest.name ∙ ap (last_text (λ e. name_of e.function) i ds) (after_name d slot mine);
    }

-- However the fragments of the calls are interleaved, the accumulator adds to the arguments of each
-- index the fragments with that index, in their order, and holds the last ID and the last name that
-- were given with it.
pub apply-Holds :
    (i : ℤ) (ds : List ToolDelta) (slots : Slots)
    → Holds i ds (slot_at i slots) (slot_at i (apply ds slots).0)
apply-Holds i ds slots =
    subst (Holds i ds (slot_at i slots)) (sym (slot_at-apply i ds slots))
      (replay-Holds i ds (slot_at i slots))
