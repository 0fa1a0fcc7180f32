-- ===== src/Lib.antt =====
-- A verification library for the voice agent's backend (backend/agent_core).
--
-- The program answers users in 13 languages, by text and by voice. A text turn goes through the
-- graph of supervisor/graph.py: the language is detected, and then either a fixed question is
-- asked back or the task agent (agents/task_agent.py) runs its loop. The loop calls a model
-- through the router of llm_adapter/base.py, runs the tools that the model asks for, asks for a
-- confirmation before an irreversible tool is run in a voice turn (security/confirmation.py), has
-- the draft checked and corrected once, and sends the sanitized text
-- (security/output_validation.py). A voice session (speech_gateway/) turns audio into
-- transcripts, runs a turn for each, speaks the reply, and is interrupted when the user speaks
-- (duplex_session.py); failure_policy.py says what happens when a speech service fails. Requests
-- are limited per client (security/rate_limit.py). The web client uses /chat/stream (api/main.py)
-- instead: the answer is streamed by stream_turn (agents/task_agent.py), cut into chunks for the
-- synthesis (speech/chunker.py), and saved in the background (persistence/chat_store.py).
--
-- Files and what they model, under backend/agent_core:
-- - Supervisor/Session: supervisor/state.py, session_state_machine.py (SessionPhase,
--   transition_to, barge_in).
-- - Supervisor/Graph: supervisor/graph.py (the three nodes, the route, and run_graph for a run of
--   build_text_graph with one router) and agents/translation_policy.py.
-- - Gateway/Duplex: speech_gateway/duplex_session.py and the lines of main.py that drive it.
--   `World` is the session with the event loop's tasks and tokens; Steps has the steps of a
--   session, a barge-in with its three awaits in parts; Kept has what each of them keeps, and
--   Reach says what holds in every state that they reach.
-- - Gateway/FailurePolicy: speech_gateway/failure_policy.py, times in milliseconds.
-- - LlmAdapter: llm_adapter/base.py (Messages, Router) and _http_common.py (Http). A provider is
--   a function from a world to its outcome and the world after it; a stream may break off with
--   any exception, as the adapters' parsing of a line can, and the calls that do not stream are
--   taken to fail with LLMProviderError only.
-- - Agents/Language: agents/language_agent.py, the scripts and the checks of a reply; Detect has
--   detect_language, with `Verdicts` for the JSON of the classifier.
-- - Agents/Directive, Untrusted, ToolCall, SelfCheck: the parts of agents/task_agent.py before,
--   around and after a model call, and agents/untrusted.py.
-- - Agents/TaskAgent: run_turn, in the order of the source: Calls (the tool calls of one answer),
--   Loop (the rounds), Finish (the start, the checks and the result); Sniffing
--   (_sniff_and_forward), Speaking (the loop over the chunks) and Stream: stream_turn, whose
--   proofs are in Stream/Ends (its events), Window (a tool call or an error in the window) and
--   Corrected.
-- - Api/StreamHistory, ChatEvents, Chat, TextChat: api/main.py, the histories of the threads,
--   chat_stream, and _chat_impl with the endpoints of the conversations; `HistoryStore` is the
--   interface that both stores of histories fill and that chat_stream uses.
-- - Persistence/ChatStore, TurnRecord: persistence/chat_store.py, over the tables of
--   docs/supabase_schema.sql.
-- - Security/Confirmation, RateLimit, OutputValidation: the files of these names under security/;
--   RateLimit/Shared is the Redis backend. Auth is security/auth.py with PyJWT as a parameter,
--   and Auth/Admission says whom it admits. Confirmation/Gate is the specification that both
--   backends of the gate implement; for Redis it is about redemptions that no other one
--   interrupts, and the two commands of a redemption are definitions of their own.
-- - Speech/Audio: speech/audio_validation.py and tts_provider_policy.py. Speech/Chunker:
--   speech/chunker.py.
-- - Prelude: the names and lemmas that the components share.
--
-- Texts are lists of code points, fixed strings of the program are written out, and numbers are
-- natural numbers: whole ticks for clocks, hundredths for confidences. State is passed
-- explicitly; an exception is a value of an outcome type. Unicode tables, JSON, Redis, asyncio's
-- cancellation, model providers, tools and prompt files are not the program's own, so they are
-- parameters.
--
-- Fuel: the loop of `run_turn` is given one round more than the tool budget. A round that goes on
-- has run at least one tool, and no tool is run over the budget, so the rounds end before the
-- fuel does. The loop of `stt_stream_with_backoff_then_rest` is given one round more than the
-- milliseconds of its longest backoff; every retry sleeps at least one. stream_turn is given the
-- fuel of the run_turn that it may fall back to. The loops of the chunker are given the length of
-- the text, of which every round takes at least one character. Other loops are structural.
--
-- Not modelled: logging, metrics and tracing; the HTTP and WebSocket servers and the start of the
-- process; the providers' wire formats; the database's connections; the speech clients; retrieval
-- and the built-in tools.
pub mod Prelude
pub mod Supervisor
pub mod LlmAdapter
pub mod Agents
pub mod Api
pub mod Gateway
pub mod Persistence
pub mod Security
pub mod Speech
