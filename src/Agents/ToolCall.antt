-- ===== src/Agents/ToolCall.antt =====
-- agents/task_agent.py: tool calls written as text, and messages without tool shapes.
--
-- `json` stands for the JSON library: `loads` parses a text, and the accessors read an object's
-- `name` and `args`. A parsed object's `name` is a text and its `args` an object or null.
use sarvam.Prelude.{
  ℕ, Bool, ◌||◌, Option, none, some, List, [], ◌∷◌, ◌++◌, String, Text, codes, contains,
  starts_with, drop, length, ◌==◌, leb, ◌&&◌, if◌then◌else◌, is_empty,
}
use sarvam.Agents.Unicode.{Unicode}
use sarvam.LlmAdapter.Messages.{Message, user, assistant, assistant_calls, tool, ToolCall}
use sarvam.Security.OutputValidation.{strip}

pub data Loaded (Obj : Type 0) : Type 0 where
  malformed : Loaded Obj
  object : Obj → Loaded Obj
  other : Loaded Obj

pub record Json (Obj : Type 0) : Type 0 where
  pub loads : Text → Loaded Obj
  pub empty : Obj
  pub name_of : Obj → Option String
  -- `payload.get("args", {})`
  pub args_of : Obj → Option Obj
  -- `{"query": text}`
  pub query : Text → Obj

abbrev is_line_end : ℕ → Bool
is_line_end c =
    (leb 10 c && leb c 13)
    || ((leb 28 c && leb c 30) || ((c == 0x85) || ((c == 0x2028) || (c == 0x2029))))

abbrev cons_line : ℕ → List Text → List Text
cons_line c [] = (c ∷ []) ∷ []
cons_line c (l ∷ ls) = (c ∷ l) ∷ ls

-- `raw.splitlines()`, but for empty lines, which the caller passes over.
unfoldable pub splitlines : Text → List Text
splitlines [] = []
splitlines (c ∷ t) =
    let rest = splitlines t in if is_line_end c then [] ∷ rest else cons_line c rest

module _ {Obj : Type 0} (u : Unicode) (json : Json Obj) where
  abbrev legacy_call : String → Option Obj → ToolCall Obj
  legacy_call name args = record { id = "legacy-text-call"; name = name; args = args }

  documented_call : Loaded Obj → Option (ToolCall Obj)
  documented_call (object o) = elim (json.name_of o) [
    | none ↦ none
    | some n ↦ some (legacy_call n (json.args_of o))
  ]
  documented_call _ = none

  bare_args : Loaded Obj → Option Obj
  bare_args malformed = none
  bare_args (object o) = some o
  bare_args other = some json.empty

  -- The loop over the registered names, for one line.
  unfoldable pub bare_call : Text → List String → Option (ToolCall Obj)
  unfolding bare_args
  bare_call line [] = none
  bare_call line (name ∷ names) =
      let rest = bare_call line names in
      let prefix = codes name ++ codes ":" in
      if starts_with line prefix
      then elim (bare_args (json.loads (strip u (drop (length prefix) line)))) [
        | none ↦ rest
        | some args ↦ some (legacy_call name (some args))
      ]
      else rest

  unfoldable pub parse_lines : List String → List Text → Option (ToolCall Obj)
  unfolding documented_call
  parse_lines names [] = none
  parse_lines names (raw ∷ lines) =
      let rest = parse_lines names lines in
      let line = strip u raw in
      if starts_with line (codes "TOOL_CALL:")
      then documented_call (json.loads (strip u (drop 10 line)))
      else elim (bare_call line names) [ some c ↦ some c | none ↦ rest ]

  unfoldable pub parse_tool_call : Text → List String → Option (ToolCall Obj)
  unfolding splitlines parse_lines bare_call
  parse_tool_call raw names = parse_lines names (splitlines raw)

abbrev content_or : Option Text → Text
content_or none = codes "(used a tool)"
content_or (some t) = if is_empty t then codes "(used a tool)" else t

unfoldable pub plain_message : {Obj : Type 0} → Message Obj → Message Obj
plain_message (user t) = user t
plain_message (assistant t) = assistant t
plain_message (assistant_calls content calls) = assistant (content_or content)
plain_message (tool id name content) = user content

unfoldable pub plain_text_messages : {Obj : Type 0} → List (Message Obj) → List (Message Obj)
unfolding plain_message
plain_text_messages [] = []
plain_text_messages (m ∷ ms) = plain_message m ∷ plain_text_messages ms

unfoldable pub looks_like_tool_call_attempt : Text → List String → Bool
unfolding contains
looks_like_tool_call_attempt t [] = contains t (codes "TOOL_CALL:")
looks_like_tool_call_attempt t (name ∷ names) =
    contains t (codes name ++ codes ":") || looks_like_tool_call_attempt t names
