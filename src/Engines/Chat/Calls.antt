-- ===== src/Engines/Chat/Calls.antt =====
-- Tool calls: strict arguments, and the accumulator of streamed fragments.
use llm_calling.Base.{
  String, Bool, false, not, ◌&&◌, ◌||◌, Option, none, some, List, [], ◌∷◌, ◌++◌, str_eq,
  if◌then◌else◌, Result, ok, err, str_append,
}
use llm_calling.Base.Int.{ℤ, leb_ℤ, eq_ℤ}
use llm_calling.Contract.{malformed_tool_call, Defect, protocol_defect}
use llm_calling.Contract.Outcome.{ExpectedModelFailure, invalid_tool_arguments}
use llm_calling.Contract.Request.{ToolCall}
use llm_calling.Contract.Stream.{CodecStreamEvent, tool_call_start, tool_call_delta}
use llm_calling.Engines.{int_or_none, or_zero, or_empty, first_text}
use llm_calling.Json.{Json, str, obj, Fields, end, field}
use llm_calling.Platform.{Platform}

-- `_tool_arguments`; the parser's message and the name of the call are left out of the detail.
abbrev arguments_of : Option Json → Result ExpectedModelFailure Fields
arguments_of none = err (invalid_tool_arguments "arguments are not valid JSON")
arguments_of (some (obj fs)) = ok fs
arguments_of (some _) = err (invalid_tool_arguments "arguments are not a JSON object")

unfoldable pub tool_arguments : Platform → String → Result ExpectedModelFailure Fields
tool_arguments p raw = if p.is_blank raw then ok end else arguments_of (p.loads_text raw)

-- The attributes of a streamed fragment.
pub record FunctionDelta : Type 0 where
  pub name : Option String
  pub arguments : Option String

pub record ToolDelta : Type 0 where
  pub index : Option Json
  pub id : Option String
  pub function : Option FunctionDelta

pub record ToolCallSlot : Type 0 where
  pub call_id : String
  pub name : String
  pub arguments : String
  pub started : Bool

abbrev pub empty_slot : ToolCallSlot
empty_slot = record { call_id = ""; name = ""; arguments = ""; started = false }

-- The slots by index, in the order of their insertion.
abbrev pub Slots : Type 0
Slots = List (ℤ × ToolCallSlot)

abbrev pub slot_at : ℤ → Slots → ToolCallSlot
slot_at i [] = empty_slot
slot_at i ((j, slot) ∷ rest) = let later = slot_at i rest in if eq_ℤ j i then slot else later

abbrev pub set_slot : ℤ → ToolCallSlot → Slots → Slots
set_slot i slot [] = (i, slot) ∷ []
set_slot i slot ((j, old) ∷ rest) =
    let later = set_slot i slot rest in if eq_ℤ j i then (j, slot) ∷ rest else (j, old) ∷ later

-- A text that is given and not empty takes the place of the old one.
abbrev pub replaced : String → Option String → String
replaced old new = or_empty (first_text new (some old))

abbrev pub name_of : Option FunctionDelta → Option String
name_of none = none
name_of (some f) = f.name

abbrev pub fragment_of : Option FunctionDelta → String
fragment_of none = ""
fragment_of (some f) = or_empty f.arguments

abbrev pub identified : ToolCallSlot → Bool
identified slot = not (str_eq slot.call_id "") && not (str_eq slot.name "")

abbrev pub entry_index : ToolDelta → ℤ
entry_index item = or_zero (int_or_none item.index)

-- The slot after a fragment, and the events that are yielded for it.
unfoldable pub apply_slot : ToolDelta → ToolCallSlot → ToolCallSlot
apply_slot item slot =
    let call_id = replaced slot.call_id item.id in
    let name = replaced slot.name (name_of item.function) in
    record {
      call_id = call_id;
      name = name;
      arguments = str_append slot.arguments (fragment_of item.function);
      started = slot.started || (not (str_eq call_id "") && not (str_eq name ""));
    }

abbrev pub when : {A : Type 0} → Bool → A → List A
when b a = if b then a ∷ [] else []

unfoldable pub slot_events : ToolDelta → ToolCallSlot → List CodecStreamEvent
unfolding apply_slot
slot_events item slot =
    let after = apply_slot item slot in
    let fragment = fragment_of item.function in
    when (after.started && not slot.started) (tool_call_start after.call_id after.name)
    ++ when (after.started && not (str_eq fragment "")) (tool_call_delta after.call_id fragment)

unfoldable pub apply : List ToolDelta → Slots → Slots × List CodecStreamEvent
apply [] slots = (slots, [])
apply (item ∷ entries) slots =
    let slot = slot_at (entry_index item) slots in
    let (after, events) =
      apply entries (set_slot (entry_index item) (apply_slot item slot) slots) in
    (after, slot_events item slot ++ events)

-- `sorted(self._slots)`
abbrev insert_slot : ℤ × ToolCallSlot → Slots → Slots
insert_slot (i, slot) [] = (i, slot) ∷ []
insert_slot (i, slot) ((j, other_slot) ∷ rest) =
    let later = insert_slot (i, slot) rest in
    if leb_ℤ i j then (i, slot) ∷ (j, other_slot) ∷ rest else (j, other_slot) ∷ later

abbrev pub sort_slots : Slots → Slots
sort_slots [] = []
sort_slots (item ∷ rest) = insert_slot item (sort_slots rest)

pub record FinishedToolCall : Type 0 where
  pub tool_call : ToolCall
  pub native_fields : Fields

-- How the slots are folded: calls, a failure of the model, or a defect.
pub data Finish : Type 0 where
  finished : List FinishedToolCall → Finish
  bad_arguments : ExpectedModelFailure → Finish
  bad_call : Defect → Finish

abbrev native_call : ToolCallSlot → Fields
native_call slot = field "id" (str slot.call_id) (
    field "type" (str "function") (
      field "function"
        (obj (field "name" (str slot.name) (field "arguments" (str slot.arguments) end))) end))

abbrev finished_call : ToolCallSlot → Fields → FinishedToolCall
finished_call slot arguments = record {
  tool_call = record { id = slot.call_id; name = slot.name; arguments = arguments };
  native_fields = native_call slot;
}

abbrev add_call : FinishedToolCall → Finish → Finish
add_call call (finished calls) = finished (call ∷ calls)
add_call call (bad_arguments f) = bad_arguments f
add_call call (bad_call d) = bad_call d

abbrev finish_slot : ToolCallSlot → Result ExpectedModelFailure Fields → Finish → Finish
finish_slot slot (err f) rest = bad_arguments f
finish_slot slot (ok arguments) rest = add_call (finished_call slot arguments) rest

module _ (p : Platform) where
  unfoldable pub finish_slots : Slots → Finish
  finish_slots [] = finished []
  finish_slots ((i, slot) ∷ rest) =
      let later = finish_slots rest in
      if identified slot
      then finish_slot slot (tool_arguments p slot.arguments) later
      else bad_call (protocol_defect malformed_tool_call)

  unfoldable pub finish_calls : Slots → Finish
  finish_calls slots = finish_slots (sort_slots slots)
