-- ===== src/LlmAdapter/Messages.antt =====
-- llm_adapter/base.py: messages, tool calls, results and the contract of a provider.
--
-- `Obj` is the type of JSON objects; the program hands them on and does not look inside.
use sarvam.Prelude.{ℕ, Option, List, String, Text}
use sarvam.LlmAdapter.Http.{ProviderError}

pub record ToolDefinition (Obj : Type 0) : Type 0 where
  pub name : String
  pub description : Text
  pub parameters : Obj
  pub required : List String

-- `args` is `none` where a provider returned `null`.
pub record ToolCall (Obj : Type 0) : Type 0 where
  pub id : String
  pub name : String
  pub args : Option Obj

pub record CompletionResult (Obj : Type 0) : Type 0 where
  pub text : Text
  pub tool_calls : List (ToolCall Obj)

-- The four shapes of a message.
pub data Message (Obj : Type 0) : Type 0 where
  user : Text → Message Obj
  assistant : Text → Message Obj
  assistant_calls : Option Text → List (ToolCall Obj) → Message Obj
  tool : String → String → Text → Message Obj

pub data Outcome {ℓ} (A : Type ℓ) : Type ℓ where
  ok : A → Outcome A
  err : ProviderError → Outcome A

-- How a stream breaks off: with an `LLMProviderError`, or with another exception, such as the
-- `JSONDecodeError` of a line that is no JSON.
pub data Failure : Type 0 where
  provider_error : ProviderError → Failure
  other_error : Failure

-- What a stream yields until it ends or raises.
pub record Streamed : Type 0 where
  pub chunks : List Text
  pub failure : Option Failure

-- `LLMProvider`: the providers speak to services outside the program, so each call takes the world
-- to an outcome and the world after it. `LLMProviderError` is how a provider says that it failed. A
-- stream may also break off with another exception; the two calls that return one answer are taken to
-- fail with `LLMProviderError` only. `clock` reads the monotonic clock, in whole ticks.
pub record Providers (Obj W : Type 0) : Type 1 where
  pub P : Type 0
  pub name : P → String
  pub clock : W → ℕ
  pub complete : P → List (Message Obj) → Option Text → Option ℕ → W → Outcome Text × W
  pub complete_with_tools :
      P
      → List (Message Obj)
      → Option Text
      → List (ToolDefinition Obj)
      → W
      → Outcome (CompletionResult Obj) × W
  pub stream : P → List (Message Obj) → Option Text → W → Streamed × W
