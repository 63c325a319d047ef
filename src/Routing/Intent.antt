-- ===== src/Routing/Intent.antt =====
-- The intent gate of src/mind3/core/intent.py. The model call is a parameter; none is an exception.
use text.Mathlib.Text.{◌==◌ as str_eq}
use Prim.Native.Char.{Char, code}
use Prim.Native.String.{◌++◌ as append}
use mind.Prelude.{
  ℕ, String, Bool, ◌&&◌, ◌||◌, List, [], ◌∷◌, any, Option, none, some, if◌then◌else◌, leb,
}
use mind.Prelude.Text.{take_text}
use mind.Formal.Scan.{occurs_in}
use mind.Formal.Node.{translate}
use mind.Routing.Words.{Letters, word_search}

pub data Intent : Type 0 where
  general generate : Intent

abbrev pub keyword_list : List String
keyword_list =
    "verilog" ∷ "systemverilog" ∷ "rtl" ∷ "testbench" ∷ "synthesis" ∷ "synthesize" ∷ "module"
    ∷ "endmodule" ∷ "always_ff" ∷ "always_comb" ∷ "fifo" ∷ "arbiter" ∷ "counter" ∷ "fsm" ∷ "uart"
    ∷ "spi" ∷ "axi" ∷ "apb" ∷ []

abbrev pub verb_list : List String
verb_list =
    "write" ∷ "generate" ∷ "create" ∷ "design" ∷ "build" ∷ "fix" ∷ "verify" ∷ "implement" ∷ "make"
    ∷ []

abbrev classify_system : String
classify_system =
    append "Reply with exactly one word and nothing else: GENERAL or GENERATE. GENERAL means the " (
      append "request only asks for explanation, docs, or error interpretation, even when it " (
        append
          "mentions tools, latches, warnings, or code concepts. GENERATE means the request asks "
          (append
            "to write, repair, complete, or verify hardware RTL. Examples: 'Why does Yosys infer "
            (append
              "a latch from an if without else?' is GENERAL. 'What does WIDTHEXPAND mean?' is "
              (append
                "GENERAL. 'Write a FIFO in Verilog' is GENERATE. 'Fix my uart module' is GENERATE. "
                ("When unsure, reply GENERATE."))))))

-- A chat message.
pub record Message : Type 0 where
  pub role : String
  pub content : String

-- `temperature` is 0.0.
pub record Options : Type 0 where
  pub temperature : ℕ
  pub num_predict : ℕ
  pub stop : List String

abbrev pub classify_options : Options
classify_options = record { temperature = 0; num_predict = 8; stop = "\n" ∷ " " ∷ [] }

-- `keyword_hint`
unfoldable pub keyword_hint : Letters → String → Option Intent
keyword_hint l prompt =
    if any (λ k. word_search l l.same k prompt) keyword_list
      && any (λ v. word_search l l.same v prompt) verb_list
    then some generate
    else none

is_letter : Char → Bool
is_letter c = leb 97 (code c) && leb (code c) 122 || leb 65 (code c) && leb (code c) 90

-- `re.sub(r"[^a-zA-Z]", "", raw).upper()`
unfoldable pub token_of : String → String
unfolding is_letter translate
token_of String.[] = String.[]
token_of (String.◌∷◌ c s) =
    let rest = token_of s in
    if is_letter c
    then String.◌∷◌ (translate "abcdefghijklmnopqrstuvwxyz" "ABCDEFGHIJKLMNOPQRSTUVWXYZ" c) rest
    else rest

-- `parse_intent`
unfoldable pub parse_intent : String → Intent
unfolding token_of
parse_intent raw = if str_eq (token_of raw) "GENERAL" then general else generate

-- The messages for the classifier.
unfoldable pub messages_for : String → List Message
unfolding take_text
messages_for prompt =
    (record { role = "system"; content = classify_system })
    ∷ (record { role = "user"; content = append "Request: " (take_text 2000 prompt) })
    ∷ []

unfoldable pub parse_reply : Option String → Intent
parse_reply none = generate
parse_reply (some raw) = parse_intent raw

-- The intent by the keyword gate and, behind it, the model's reply.
unfoldable pub intent_by : Option Intent → Option String → Intent
unfolding parse_reply
intent_by (some generate) reply = generate
intent_by (some general) reply = parse_reply reply
intent_by none reply = parse_reply reply

-- `route_intent`, which `classify` calls: an exception gives GENERATE.
unfoldable pub route_intent : Letters → (List Message → Options → Option String) → String → Intent
unfolding intent_by
route_intent l query prompt =
    intent_by (keyword_hint l prompt) (query (messages_for prompt) classify_options)

abbrev pub verdict_tokens : List String
verdict_tokens = "SILICON_VERIFIED" ∷ "VERIFIED_SUCCESS" ∷ []

-- `assert_no_verdict`: the message of the ValueError, or none.
unfoldable pub assert_no_verdict : String → Option String
assert_no_verdict text =
    if any (λ token. occurs_in token text) verdict_tokens
    then some "Direct answers must never emit verification verdicts."
    else none
