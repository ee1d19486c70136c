-- ===== src/Engines/Chat/Grammar.antt =====
-- What is sent while a stream is open: a start, and then text, fragments of calls, and usage only.
use mathlib.Core.List.{append-nil}
use text.Mathlib.TextLemmas.{append_assoc as string_append_assoc, nil-append as string_nil_append}
use llm_calling.Base.{
  String, ◌≡◌, refl, sym, ap, ◌∙◌, Bool, true, false, Option, none, List, [], ◌∷◌, ◌++◌, map, arith,
  all, str_append, join,
}
use llm_calling.Contract.Request.{ToolCall}
use llm_calling.Contract.Stream.{
  CodecStreamEvent, stream_start, text_delta, tool_call_start, tool_call_delta, tool_call_done,
  continuation_delta, usage_event, terminal_event,
}
use llm_calling.Engines.Chat.Calls.{
  ToolDelta, ToolCallSlot, Slots, slot_at, set_slot, entry_index, apply_slot, when, slot_events,
  apply, FinishedToolCall,
}
use llm_calling.Engines.Chat.Frames.{Reading, yield_all, Flow, goes, breaks, fails, then_go}

abbrev pub is_inner : CodecStreamEvent → Bool
is_inner stream_start = false
is_inner (continuation_delta _) = false
is_inner (terminal_event _) = false
is_inner _ = true

abbrev pub texts_of : List CodecStreamEvent → List String
texts_of [] = []
texts_of (text_delta t ∷ es) = t ∷ texts_of es
texts_of (_ ∷ es) = texts_of es

abbrev pub dones_of : List CodecStreamEvent → List ToolCall
dones_of [] = []
dones_of (tool_call_done c ∷ es) = c ∷ dones_of es
dones_of (_ ∷ es) = dones_of es

-- The events after the start, with the text and the calls that the reading holds.
pub record IsOpened (sent : List CodecStreamEvent) (text : String) (calls : List FinishedToolCall)
    (reason : Option String) : Type 0 where
  pub body : List CodecStreamEvent
  pub sent_is : sent ≡ stream_start ∷ body
  pub inner : all is_inner body ≡ true
  pub text_is : text ≡ join (texts_of body)
  pub calls_are : map (λ c. c.tool_call) calls ≡ dones_of body
  pub none_before : reason ≡ none → calls ≡ []

abbrev pub Open : Reading → Type 0
Open r = IsOpened r.sent r.text r.finished_calls r.finish_reason

abbrev pub Stays : Flow → Type 0
Stays (goes r) = Open r
Stays (breaks r) = Open r
Stays (fails f r) = Open r

pub then_go-Stays :
    (flow : Flow) (rest : Reading → Flow)
    → Stays flow
    → ((r : Reading) → Open r → Stays (rest r))
    → Stays (then_go flow rest)
then_go-Stays (goes r) rest h go = go r h
then_go-Stays (breaks r) rest h go = h
then_go-Stays (fails f r) rest h go = h

all-append :
    (xs ys : List CodecStreamEvent)
    → all is_inner xs ≡ true
    → all is_inner ys ≡ true
    → all is_inner (xs ++ ys) ≡ true
all-append [] ys h k = k
all-append (x ∷ xs) ys h k =
    let head : is_inner x ≡ true = ground arith in
    let tail : all is_inner xs ≡ true = ground arith in rw (head, all-append xs ys tail k) refl

texts_of-append : (xs ys : List CodecStreamEvent) → texts_of (xs ++ ys) ≡ texts_of xs ++ texts_of ys
texts_of-append [] ys = refl
texts_of-append (text_delta t ∷ xs) ys = ap (λ ts. t ∷ ts) (texts_of-append xs ys)
texts_of-append (stream_start ∷ xs) ys = texts_of-append xs ys
texts_of-append (tool_call_start _ _ ∷ xs) ys = texts_of-append xs ys
texts_of-append (tool_call_delta _ _ ∷ xs) ys = texts_of-append xs ys
texts_of-append (tool_call_done _ ∷ xs) ys = texts_of-append xs ys
texts_of-append (continuation_delta _ ∷ xs) ys = texts_of-append xs ys
texts_of-append (usage_event _ ∷ xs) ys = texts_of-append xs ys
texts_of-append (terminal_event _ ∷ xs) ys = texts_of-append xs ys

dones_of-append : (xs ys : List CodecStreamEvent) → dones_of (xs ++ ys) ≡ dones_of xs ++ dones_of ys
dones_of-append [] ys = refl
dones_of-append (tool_call_done c ∷ xs) ys = ap (λ cs. c ∷ cs) (dones_of-append xs ys)
dones_of-append (text_delta _ ∷ xs) ys = dones_of-append xs ys
dones_of-append (stream_start ∷ xs) ys = dones_of-append xs ys
dones_of-append (tool_call_start _ _ ∷ xs) ys = dones_of-append xs ys
dones_of-append (tool_call_delta _ _ ∷ xs) ys = dones_of-append xs ys
dones_of-append (continuation_delta _ ∷ xs) ys = dones_of-append xs ys
dones_of-append (usage_event _ ∷ xs) ys = dones_of-append xs ys
dones_of-append (terminal_event _ ∷ xs) ys = dones_of-append xs ys

join-append : (xs ys : List String) → join (xs ++ ys) ≡ str_append (join xs) (join ys)
join-append [] ys = sym (string_nil_append (join ys))
join-append (x ∷ xs) ys =
    ap (str_append x) (join-append xs ys) ∙ sym (string_append_assoc x (join xs) (join ys))

-- Events that may be sent next, with the text and the calls that they add.
pub record Adds (events : List CodecStreamEvent) (text : String) (calls : List ToolCall)
    : Type 0 where
  pub inner : all is_inner events ≡ true
  pub text_is : text ≡ join (texts_of events)
  pub calls_are : calls ≡ dones_of events

-- Events that are sent change nothing but what was sent, and whether anything was.
pub yield_all-is :
    (events : List CodecStreamEvent) (r : Reading)
    → (b : Bool) × (yield_all events r ≡ record r { sent = r.sent ++ events; semantic = b })
yield_all-is [] r = (r.semantic, λ i. record r { sent = sym (append-nil r.sent) i })
yield_all-is (e ∷ es) r = (true, refl)

-- Sending them keeps the stream open.
pub IsOpened-append :
    (sent events : List CodecStreamEvent) (text more : String) (calls after : List FinishedToolCall)
    (reason later : Option String) (added : List ToolCall)
    → IsOpened sent text calls reason
    → Adds events more added
    → map (λ c. c.tool_call) after ≡ map (λ c. c.tool_call) calls ++ added
    → (later ≡ none → after ≡ [])
    → IsOpened (sent ++ events) (str_append text more) after later
IsOpened-append sent events text more calls after reason later added h new same unclosed = record {
  body = h.body ++ events;
  sent_is = ap (λ xs. xs ++ events) h.sent_is;
  inner = all-append h.body events h.inner new.inner;
  text_is =
      (λ i. str_append (h.text_is i) (new.text_is i))
      ∙ sym (
          ap join (texts_of-append h.body events)
          ∙ join-append (texts_of h.body) (texts_of events));
  calls_are = same ∙ (λ i. h.calls_are i ++ new.calls_are i) ∙ sym (dones_of-append h.body events);
  none_before = unclosed;
}

Adds-append :
    (xs ys : List CodecStreamEvent) → Adds xs "" [] → Adds ys "" [] → Adds (xs ++ ys) "" []
Adds-append xs ys h k = record {
  inner = all-append xs ys h.inner k.inner;
  text_is = sym (
      ap join (texts_of-append xs ys)
      ∙ join-append (texts_of xs) (texts_of ys)
      ∙ (λ i. str_append (sym h.text_is i) (sym k.text_is i)));
  calls_are = (λ i. h.calls_are i ++ k.calls_are i) ∙ sym (dones_of-append xs ys);
}

Adds-when : (b : Bool) (e : CodecStreamEvent) → Adds (e ∷ []) "" [] → Adds (when b e) "" []
Adds-when true e h = h
Adds-when false e h = record { inner = refl; text_is = refl; calls_are = refl }

Adds-slot_events : (d : ToolDelta) (slot : ToolCallSlot) → Adds (slot_events d slot) "" []
unfolding slot_events
Adds-slot_events d slot =
    Adds-append _ _ (Adds-when _ _ (record { inner = refl; text_is = refl; calls_are = refl }))
      (Adds-when _ _ (record { inner = refl; text_is = refl; calls_are = refl }))

pub Adds-apply : (ds : List ToolDelta) (slots : Slots) → Adds (apply ds slots).1 "" []
unfolding apply
Adds-apply [] slots = record { inner = refl; text_is = refl; calls_are = refl }
Adds-apply (d ∷ ds) slots =
    Adds-append (slot_events d (slot_at (entry_index d) slots)) _
      (Adds-slot_events d (slot_at (entry_index d) slots))
      (Adds-apply ds
        (set_slot (entry_index d) (apply_slot d (slot_at (entry_index d) slots)) slots))
