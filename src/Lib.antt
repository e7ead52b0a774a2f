-- ===== src/Lib.antt =====
-- adk-go-pkg connects agents written with Google's ADK for Go to the AG-UI protocol, and brings its
-- own evaluation of agents. This library models these parts of it:
--
-- * The event translator of aguiadk/bridge.go turns the events of an agent's run into AG-UI
--   events. Aguiadk/Translator holds its state and the handling of texts, thoughts, steps and
--   sub-agents (emitText, emitThought, startStep, maybeEmitSubagentLifecycle and the closeOpen
--   functions); Aguiadk/Translator/Calls the tool calls, Aguiadk/Translator/Results their results
--   (emitFunctionCall to emitCodeExecutionResult); Aguiadk/Translator/Run the function translate,
--   token usage, and the closing calls with which runInternal ends a run.
--   Aguiadk/Translator/Events has the ADK parts, the AG-UI events and, in the record Env, what
--   third-party code computes.
--   Aguiadk/Translator/Protocol is a checker of AG-UI event sequences that knows nothing of the
--   translator; its child modules relate the two.
-- * The run loop of the bridge, runInternal in aguiadk/bridge.go, is Aguiadk/Bridge: the settings,
--   the request and, in the record World, what the session service, the agent, the clock and
--   concurrent requests do. Bridge/Resume looks up, checks, claims and replays a paused run,
--   Bridge/Loop translates the events of the agent until it ends, fails, pauses or takes too many
--   turns, Bridge/Endings has the ways in which a run ends, and Bridge/Run composes them.
--   Bridge/Invariant has the proof steps about the events of a run that the other files share,
--   Bridge/Answers those about the decisions of a resume. The events of an agent are a finite list:
--   an agent that yields without end is stopped by MaxIterations or is not modelled.
-- * aguiadk/inbound.go, the messages of a request as content and session events, is
--   Aguiadk/Inbound; sessionEventsToMessages of aguiadk/bridge.go is Aguiadk/Inbound/Snapshot.
-- * The store of paused runs, aguiadk/runstore.go, is Aguiadk/RunStore. The bridge saves a run
--   that waits for a human decision there and claims it when the client resumes it. The clock is
--   an argument of each call, and the mutex makes each call one step: `run_calls` runs any
--   interleaving of calls. Aguiadk/RunStore/Approvals is approvalsFromResume.
-- * agui/token_usage.go is Agui/TokenUsage: the translator's usage entries summed for the event
--   that ends a run. Counts are int64 and kept as bit patterns, so sums are modulo 2 ^ 64.
-- * The trajectory evaluator, eval/trajectory_evaluator.go, is Eval/Trajectory (the comparisons of
--   tool calls) and Eval/Scoring (the loop of EvaluateInvocations). Eval/Types has the data that it
--   reads from eval/types.go, eval/evaluator.go, eval/eval_case_utils.go and
--   eval/llm_as_judge_utils.go; Eval/Pairing is GetAllToolCallsWithResponses of
--   eval/eval_case_utils.go.
-- * The ROUGE-1 evaluator, eval/rouge_evaluator.go, is Eval/Rouge; it shares the loop of
--   Eval/Scoring.
-- * Eval sets, eval/eval_sets_manager_utils.go and eval/in_memory_eval_sets_manager.go, are
--   Eval/EvalSets.
-- * Eval sets as files, eval/local_eval_sets_manager.go with eval/path_validation.go and the reading
--   of eval/json_utils.go, are Eval/LocalSets, over the tree of Artifact/Disk, with the check of
--   EvalCase.UnmarshalJSON of eval/types.go. Eval/OldFormat is
--   ConvertEvalSetToNewSchema. encoding/json, with the methods of Invocation, is a parameter.
-- * Rewinding a session, session/rewind/rewind.go, is Session/Rewind. The session service of the
--   ADK is a parameter, the record Service, and its documented behaviour the record Laws of
--   Session/Rewind/Swap; identifiers are random in the source and drawn from the service's state
--   here.
-- * agui/mcp_naming.go and resolveTools of agui/mcp_middleware.go are Agui/ToolNames. The loop that
--   looks for a free name has fuel for two names more than are used; Agui/ToolNames/Unique shows
--   that this is enough.
-- * Artifacts on disk, artifact/file/file.go and artifact/file/metadata.go, are Artifact:
--   Artifact/Disk is the tree of files and directories that stands for os.Root, Artifact/Names the
--   paths and the checks of names, Artifact/Versions the version numbers, and Artifact/Service the
--   operations (Save, Load, Delete, List, Versions, GetArtifactVersion), each a function of the
--   tree. The Validate methods of the requests and the JSON of the metadata are the record Env.
--   An error is its kind, and only failures that the tree explains occur; names are taken to be
--   UTF-8. New and Close, which open and close the root, are left out.
--
-- Base has what they share: byte strings, Go maps as association lists, integers, and the
-- operations of float64 as a record of parameters. Value is Go's `any` as JSON decoding makes it.
--
-- A Go string is a list of bytes. A Go map is an association list without repeated keys; a loop
-- over a map takes the order of insertion, one of the orders that Go may take. Identifier
-- generation, json.Marshal, quoting, base64, the tool-to-state mapper and the clock are
-- parameters. The emit calls of the translator ignore their errors, so a run of the model sends
-- every event. All other loops are structural.
--
-- Not modelled: the construction of the bridge, and the goroutine and channel around runInternal;
-- what client tools send while the agent runs; HTTP, SSE and MCP transport, the model adapters, model-judged metrics, evaluation services,
-- planners, prompts and configuration. Of the run store, Stop and the ticker goroutine, which only
-- schedule `cleanup`. Of the functions on an eval set, the checks for a nil set.
pub mod Base
pub mod Value
pub mod Agui
pub mod Aguiadk
pub mod Eval
pub mod Session
pub mod Artifact
