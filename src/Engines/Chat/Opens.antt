-- ===== src/Engines/Chat/Opens.antt =====
-- Every frame keeps the stream open.
use mathlib.Core.List.{append-nil}
use mathlib.Core.Path.{subst}
use text.Mathlib.TextLemmas.{append-nil as string_append_nil}
use llm_calling.Base.{
  String, ◌≡◌, refl, sym, ap, ◌∙◌, Bool, ◌||◌, Option, none, some, List, [], ◌∷◌, ◌++◌, map, str_eq,
  eq_iff, is_some, if_either, if_known, Result, ok, err, str_append,
}
use llm_calling.Contract.{Defect}
use llm_calling.Contract.Outcome.{TransientCause}
use llm_calling.Contract.Stream.{CodecStreamEvent, text_delta, usage_event}
use llm_calling.Contract.Usage.{TokenUsage}
use llm_calling.Engines.{Fault, str_or_none, or_empty, nonempty, first_text}
use llm_calling.Engines.Chat.{Served}
use llm_calling.Engines.Chat.Calls.{
  apply, FinishedToolCall, Finish, finished, bad_arguments, bad_call, finish_calls,
}
use llm_calling.Engines.Chat.Errors.{classify_inband_error}
use llm_calling.Engines.Chat.Frames.{
  read_choice, ChoiceDelta, Choice, Chunk, StreamFrame, chunk, no_chunk, Cut, runs_out, timed_out,
  disconnected, bad_json, api_error, Reading, opened_reading, yield_all, goes, report_usage,
  known_usage, choice_usage, read_usage, text_events, read_delta, done_events, close_calls,
  read_finish, read_frame, raise_cause, cut, read_frames,
}
use llm_calling.Engines.Chat.Grammar.{
  IsOpened, Open, Stays, then_go-Stays, Adds, yield_all-is, IsOpened-append, Adds-apply,
}
use llm_calling.Engines.Chat.Usage.{fold_usage, usage_from_raw}
use llm_calling.Json.{Fields}
use llm_calling.Platform.{Platform}

same_calls :
    (calls : List FinishedToolCall)
    → map (λ c. c.tool_call) calls ≡ map (λ c. c.tool_call) calls ++ []
same_calls calls = sym (append-nil (map (λ c. c.tool_call) calls))

-- Events without text and calls.
IsOpened-quiet :
    (sent events : List CodecStreamEvent) (text : String) (calls : List FinishedToolCall)
    (reason : Option String)
    → Adds events "" []
    → IsOpened sent text calls reason
    → IsOpened (sent ++ events) text calls reason
IsOpened-quiet sent events text calls reason new h =
    subst (λ t. IsOpened (sent ++ events) t calls reason) (string_append_nil text)
      (IsOpened-append sent events text "" calls calls reason reason [] h new (same_calls calls)
        h.none_before)

yield_all-Open :
    (events : List CodecStreamEvent) (r : Reading)
    → Adds events "" []
    → Open r
    → Open (yield_all events r)
yield_all-Open events r new h =
    let (b, same) = yield_all-is events r in
    subst Open (sym same)
      (IsOpened-quiet r.sent events r.text r.finished_calls r.finish_reason new h)

yield_twice-is :
    (events more : List CodecStreamEvent) (r : Reading)
    → (b : Bool) × (yield_all more (yield_all events r)
        ≡ record r { sent = (r.sent ++ events) ++ more; semantic = b })
yield_twice-is events more r =
    let (b, once) = yield_all-is events r in
    let (c, twice) = yield_all-is more (record r { sent = r.sent ++ events; semantic = b }) in
    (c, ap (yield_all more) once ∙ twice)

some-ne-none : {A : Type 0} {a : A} → ◌≡◌ {A = Option A} (some a) none → ⊥
some-ne-none h = cc

-- A reason that is known now says nothing of the calls before.
reasoned :
    (reason : String) (r : Reading) → Open r → IsOpened r.sent r.text r.finished_calls (some reason)
reasoned reason r h = record {
  body = h.body;
  sent_is = h.sent_is;
  inner = h.inner;
  text_is = h.text_is;
  calls_are = h.calls_are;
  none_before = λ e. absurd (some-ne-none e);
}

module _ (p : Platform) (provider : Served) where
  report_usage-Stays :
      (u : Result Defect TokenUsage) (r : Reading) → Open r → Stays (report_usage p provider u r)
  report_usage-Stays (ok u) r h =
      yield_all-Open (usage_event u ∷ []) r
        (record { inner = refl; text_is = refl; calls_are = refl }) h
  report_usage-Stays (err d) r h = h

  known_usage-Stays :
      (raw : Option Fields) (r : Reading) → Open r → Stays (known_usage p provider raw r)
  known_usage-Stays none r h = h
  known_usage-Stays (some raw) r h =
      report_usage-Stays (usage_from_raw provider raw) (record r { raw_usage = some raw }) h

  read_usage-Stays : (c : Chunk) (r : Reading) → Open r → Stays (read_usage p provider c r)
  unfolding read_usage
  read_usage-Stays c r h =
      if_either Stays (is_some (choice_usage p provider c.choice) || is_some c.usage) _ (goes r)
        (known_usage-Stays
          (fold_usage (fold_usage r.raw_usage (choice_usage p provider c.choice)) c.usage) r h)
        h

  text_events-Adds : (text : String) → Adds (text_events p provider text) text []
  text_events-Adds text =
      if_known (λ es. Adds es text []) (str_eq text "") [] (text_delta text ∷ [])
        (λ e. record { inner = refl; text_is = (eq_iff text "").0 e; calls_are = refl })
        (λ e. record { inner = refl; text_is = sym (string_append_nil text); calls_are = refl })

  read_delta-Open :
      (d : Option ChoiceDelta) (r : Reading) → Open r → Open (read_delta p provider d r)
  unfolding read_delta
  read_delta-Open none r h = h
  read_delta-Open (some d) r h =
      let events = (apply d.tool_calls r.slots).1 in
      let text = or_empty (str_or_none d.content) in
      let (b, same) = yield_twice-is events (text_events p provider text) r in
      subst
        (λ (told : Reading).
          IsOpened told.sent (str_append r.text text) told.finished_calls told.finish_reason)
        (sym same)
        (IsOpened-append (r.sent ++ events) (text_events p provider text) r.text text
          r.finished_calls r.finished_calls r.finish_reason r.finish_reason []
          (IsOpened-quiet r.sent events r.text r.finished_calls r.finish_reason
            (Adds-apply d.tool_calls r.slots) h)
          (text_events-Adds text) (same_calls r.finished_calls) h.none_before)

  done_events-Adds :
      (calls : List FinishedToolCall)
      → Adds (done_events p provider calls) "" (map (λ c. c.tool_call) calls)
  done_events-Adds [] = record { inner = refl; text_is = refl; calls_are = refl }
  done_events-Adds (c ∷ cs) =
      let rest = done_events-Adds cs in
      record {
        inner = rest.inner;
        text_is = rest.text_is;
        calls_are = ap (λ xs. c.tool_call ∷ xs) rest.calls_are;
      }

  -- The first terminal frame closes the calls, of which there were none before.
  close_calls-Stays :
      (f : Finish) (reason : String) (r : Reading)
      → r.finish_reason ≡ none
      → Open r
      → Stays (close_calls p provider f (record r { finish_reason = some reason }))
  close_calls-Stays (finished calls) reason r first h =
      let before = record r { finish_reason = some reason; finished_calls = calls } in
      let (b, same) = yield_all-is (done_events p provider calls) before in
      subst Open (sym same) (
        subst (λ t. IsOpened (r.sent ++ done_events p provider calls) t calls (some reason))
          (string_append_nil r.text)
          (IsOpened-append r.sent (done_events p provider calls) r.text "" r.finished_calls calls
            r.finish_reason (some reason) (map (λ c. c.tool_call) calls) h (done_events-Adds calls)
            (sym (
              ap
                (λ cs.
                  map (λ c. FinishedToolCall.tool_call c) cs
                  ++ map (λ c. FinishedToolCall.tool_call c) calls)
                (h.none_before first)))
            (λ e. absurd (some-ne-none e))))
  close_calls-Stays (bad_arguments f) reason r first h = reasoned reason r h
  close_calls-Stays (bad_call d) reason r first h = reasoned reason r h

  read_finish-Stays :
      (reason known : Option String) (r : Reading)
      → r.finish_reason ≡ known
      → Open r
      → Stays (read_finish p provider reason known r)
  unfolding read_finish
  read_finish-Stays none known r e h = h
  read_finish-Stays (some reason) (some known) r e h = h
  read_finish-Stays (some reason) none r e h =
      if_either Stays (str_eq reason "error") _ _ h
        (close_calls-Stays (finish_calls p r.slots) reason r e h)

  read_choice-Stays :
      (c : Option Choice) (r : Reading) → Open r → Stays (read_choice p provider c r)
  read_choice-Stays none r h = h
  read_choice-Stays (some c) r h =
      let after = read_delta p provider c.delta r in
      read_finish-Stays (str_or_none c.finish_reason) after.finish_reason after refl
        (read_delta-Open c.delta r h)

  read_frame-Stays : (f : StreamFrame) (r : Reading) → Open r → Stays (read_frame p provider f r)
  unfolding read_frame
  read_frame-Stays no_chunk r h = h
  read_frame-Stays (chunk c) r h =
      then_go-Stays _ (read_choice p provider c.choice)
        (read_usage-Stays c
          (record r {
            request_id = first_text r.request_id (nonempty (str_or_none c.id));
            model = first_text r.model (nonempty (str_or_none c.model));
          })
          h)
        (read_choice-Stays c.choice)

  raise_cause-Stays :
      (cause : Result Fault TransientCause) (r : Reading)
      → Open r
      → Stays (raise_cause p provider cause r)
  raise_cause-Stays (ok cause) r h = h
  raise_cause-Stays (err f) r h = h

  cut-Stays : (c : Cut) (r : Reading) → Open r → Stays (cut p provider c r)
  cut-Stays runs_out r h = h
  cut-Stays timed_out r h = h
  cut-Stays disconnected r h = h
  cut-Stays bad_json r h = h
  cut-Stays (api_error body) r h = raise_cause-Stays (classify_inband_error p body) r h

  pub read_frames-Stays :
      (fs : List StreamFrame) (c : Cut) (r : Reading)
      → Open r
      → Stays (read_frames p provider fs c r)
  unfolding read_frames
  read_frames-Stays [] c r h = cut-Stays c r h
  read_frames-Stays (f ∷ fs) c r h =
      then_go-Stays (read_frame p provider f r) (read_frames p provider fs c)
        (read_frame-Stays f r h) (read_frames-Stays fs c)

pub opened_reading-Open : Open opened_reading
opened_reading-Open = record {
  body = [];
  sent_is = refl;
  inner = refl;
  text_is = refl;
  calls_are = refl;
  none_before = λ _. refl;
}
