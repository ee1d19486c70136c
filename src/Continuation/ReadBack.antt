-- ===== src/Continuation/ReadBack.antt =====
-- What a payload was written from is what is read back from it.
use mathlib.Core.Path.{subst}
use llm_calling.Base.{◌≡◌, refl, some, List, [], ◌∷◌, map, All, Result, ok, >>=-eq-ok, ok-injective}
use llm_calling.Continuation.Generation.{
  items_of, block_text, tool_json, choice_text, output_json, call_json, user_block_json,
  message_json, messages_json,
}
use llm_calling.Continuation.Read.{
  Misread, each, read_call, read_tool, read_result, read_output, read_choice, prompt_of, read_block,
  read_message,
}
use llm_calling.Continuation.Resume.{result_json}
use llm_calling.Contract.Request.{
  PromptBlock, ToolCall, CanonicalTool, ToolChoice, auto, no_choice, OutputSpec, text_output,
  strict_json_output, UserBlock, prompt, image, ToolResultMessage, PromptMessage, system_message,
  user_message, assistant_message, tool_result_message,
}
use llm_calling.Json.{Json, str, Items}
use llm_calling.Platform.{Platform}

module _ {A : Type 0} (f : Json → Result Misread A) (g : A → Json) where
  pub each-items_of : (xs : List A) → All (λ a. f (g a) ≡ ok a) xs → each f (items_of g xs) ≡ ok xs
  each-items_of [] h = refl
  each-items_of (x ∷ xs) h = rw (h.0, each-items_of xs h.1) refl

-- What `each` made of written values, if each of them can only be read as `k` says.
pub each-items_of-ok :
    {A B : Type 0} (f : Json → Result Misread B) (g : A → Json) (k : A → B)
    → ((a : A) (b : B) → f (g a) ≡ ok b → b ≡ k a)
    → (xs : List A) (ys : List B) → each f (items_of g xs) ≡ ok ys
    → ys ≡ map k xs
each-items_of-ok f g k only [] ys h = cc
each-items_of-ok f g k only (x ∷ xs) ys h =
    let (y, first, h₁) = >>=-eq-ok (f (g x)) _ h in
    let (rest, later, h₂) = >>=-eq-ok (each f (items_of g xs)) _ h₁ in
    let head : y ≡ k x = only x y first in
    let tail : rest ≡ map k xs = each-items_of-ok f g k only xs rest later in
    let whole : y ∷ rest ≡ ys = ok-injective h₂ in cc

All-intro : {A : Type 0} {P : A → Type 0} → ((a : A) → P a) → (xs : List A) → All P xs
All-intro h [] = tt
All-intro h (x ∷ xs) = (h x, All-intro h xs)

read_call-call_json : (call : ToolCall) → read_call (call_json call) ≡ ok call
unfolding read_call
read_call-call_json call = refl

read_tool-tool_json : (tool : CanonicalTool) → read_tool (tool_json tool) ≡ ok tool
unfolding read_tool
read_tool-tool_json tool = refl

read_result-result_json : (r : ToolResultMessage) → read_result (result_json r) ≡ ok r
unfolding read_result
read_result-result_json r = refl

pub read_output-output_json : (output : OutputSpec) → read_output (output_json output) ≡ ok output
unfolding read_output
read_output-output_json text_output = refl
read_output-output_json (strict_json_output name schema) = refl

pub read_choice-choice_text :
    (choice : ToolChoice) → read_choice (str (choice_text choice)) ≡ ok choice
unfolding read_choice
read_choice-choice_text auto = refl
read_choice-choice_text no_choice = refl

pub each-calls : (calls : List ToolCall) → each read_call (items_of call_json calls) ≡ ok calls
each-calls calls = each-items_of read_call call_json calls (All-intro read_call-call_json calls)

pub each-tools : (tools : List CanonicalTool) → each read_tool (items_of tool_json tools) ≡ ok tools
each-tools tools = each-items_of read_tool tool_json tools (All-intro read_tool-tool_json tools)

pub each-results :
    (rs : List ToolResultMessage) → each read_result (items_of result_json rs) ≡ ok rs
each-results rs = each-items_of read_result result_json rs (All-intro read_result-result_json rs)

module _ (p : Platform) where
  -- The images of a message are read back from their base64 text.
  abbrev pub ReadsBlock : UserBlock → Type 0
  ReadsBlock (prompt _) = Unit
  ReadsBlock (image block) = p.b64decode (p.b64encode block.bytes) ≡ some block.bytes

  abbrev pub ReadsImages : PromptMessage → Type 0
  ReadsImages (user_message blocks) = All ReadsBlock blocks
  ReadsImages _ = Unit

  read_block-user_block_json :
      (block : UserBlock) → ReadsBlock block → read_block p (user_block_json p block) ≡ ok block
  unfolding read_block user_block_json
  read_block-user_block_json (prompt block) h = refl
  read_block-user_block_json (image block) h = rw h refl

  each-user_blocks :
      (blocks : List UserBlock)
      → All ReadsBlock blocks
      → each (read_block p) (items_of (user_block_json p) blocks) ≡ ok blocks
  each-user_blocks [] h = refl
  each-user_blocks (b ∷ bs) h = rw (read_block-user_block_json b h.0, each-user_blocks bs h.1) refl

  each-prompts :
      (blocks : List PromptBlock) → each prompt_of (items_of block_text blocks) ≡ ok blocks
  each-prompts [] = refl
  each-prompts (b ∷ bs) = rw (each-prompts bs) refl

  read_message-message_json :
      (m : PromptMessage) (v : Json)
      → ReadsImages m
      → message_json p m ≡ ok v
      → read_message p v ≡ ok m
  unfolding read_message message_json
  read_message-message_json (system_message blocks) v h e =
      subst (λ w. read_message p w ≡ ok (system_message blocks)) (ok-injective e)
        (rw (each-prompts blocks) refl)
  read_message-message_json (user_message blocks) v h e =
      subst (λ w. read_message p w ≡ ok (user_message blocks)) (ok-injective e)
        (rw (each-user_blocks blocks h) refl)
  read_message-message_json (assistant_message _ _ _) v h e = cc
  read_message-message_json (tool_result_message _) v h e = cc

  pub each-messages_json :
      (ms : List PromptMessage) (vs : Items)
      → All ReadsImages ms
      → messages_json p ms ≡ ok vs
      → each (read_message p) vs ≡ ok ms
  unfolding messages_json
  each-messages_json [] vs h e = subst (λ w. each (read_message p) w ≡ ok []) (ok-injective e) refl
  each-messages_json (m ∷ ms) vs h e =
      let (v, first, e₁) = >>=-eq-ok (message_json p m) _ e in
      let (rest, later, e₂) = >>=-eq-ok (messages_json p ms) _ e₁ in
      subst (λ w. each (read_message p) w ≡ ok (m ∷ ms)) (ok-injective e₂)
        (rw (read_message-message_json m v h.0 first, each-messages_json ms rest h.1 later) refl)
