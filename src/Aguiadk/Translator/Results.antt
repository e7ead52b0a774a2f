-- ===== src/Aguiadk/Translator/Results.antt =====
-- Results of tool calls, built-in tools and code: emitFunctionResponse to emitCodeExecutionResult.
use adk_go_pkg.Base.{Option, none, some, [], ◌∷◌, ◌++◌, Bytes, bytes, is_empty, if◌then◌else◌}
use adk_go_pkg.Base.Map.{Map, lookup, insert}
use adk_go_pkg.Aguiadk.Translator.{Config, State, emit}
use adk_go_pkg.Aguiadk.Translator.Events.{
  Env, tool_call_result, custom, FunctionResponse, ToolCall, ToolResponse, ExecutableCode,
  CodeExecutionResult,
}
use adk_go_pkg.Aguiadk.Translator.Calls.{
  emit_tool_use_activity, map_id, is_server_tool, with_call_id, emit_whole_call,
}

module _ (env : Env) where
  open env use {Value, marshal}

  abbrev Tool : Type 0
  Tool = State env

  -- The activity of the call that a result answers, if its detail was recorded.
  unfoldable pub emit_recorded_activity : Bytes → Tool → Tool
  unfolding emit_tool_use_activity
  emit_recorded_activity id t = elim (lookup id t.tool_call_details) [
    | none ↦ t
    | some d ↦ emit_tool_use_activity env d.name d.args t
  ]

  -- The text of a response, empty if it cannot be encoded.
  response_text : Map Value → Bytes
  response_text response = elim (marshal response) [ none ↦ [] | some s ↦ s ]

  -- The result of a call that is known by its identifier or its name.
  unfoldable pub emit_result : Bytes → Map Value → Tool → Tool
  unfolding emit_recorded_activity response_text
  emit_result id response t =
      emit env (tool_call_result (bytes "result-" ++ id) id (response_text response))
        (emit_recorded_activity id t)

  unfoldable pub known_call : Bytes → Bytes → Tool → Option Bytes
  known_call id name t = elim (lookup id t.tool_call_ids) [
    | none ↦ lookup name t.tool_call_ids
    | some x ↦ some x
  ]

  unfoldable pub emit_function_response : FunctionResponse Value → Tool → Tool
  unfolding emit_result known_call
  emit_function_response fr t = elim (known_call fr.id fr.name t) [
    | none ↦ t
    | some id ↦ emit_result id fr.response t
  ]

  -- The name of a built-in tool.
  unfoldable pub builtin_name : Bytes → Bytes
  builtin_name tool_type = if is_empty tool_type then bytes "builtin_tool" else tool_type

  -- The identifiers and the detail of a built-in call.
  unfoldable pub record_builtin : Bytes → ToolCall Value → Tool → Tool
  unfolding map_id builtin_name
  record_builtin id tc t =
      let t1 = map_id env tc.id id t in
      let name = builtin_name tc.tool_type in
      record t1 {
        tool_call_ids = insert name id t1.tool_call_ids;
        tool_call_details = insert id (record { name = name; args = tc.args }) t1.tool_call_details;
      }

  unfoldable pub emit_builtin_tool_call : Config env → ToolCall Value → Tool → Tool
  unfolding with_call_id is_server_tool record_builtin emit_tool_use_activity emit_whole_call
  emit_builtin_tool_call cfg tc t =
      let (id, t') = with_call_id env tc.id t in
      let name = builtin_name tc.tool_type in
      let t'' = record_builtin id tc t' in
      if is_server_tool env cfg name
      then emit_tool_use_activity env name tc.args t''
      else emit_whole_call env id name tc.args t''

  unfoldable pub emit_builtin_tool_response : ToolResponse Value → Tool → Tool
  unfolding emit_result known_call
  emit_builtin_tool_response tr t = elim (known_call tr.id tr.tool_type t) [
    | none ↦ t
    | some id ↦ emit_result id tr.response t
  ]

  unfoldable pub emit_executable_code : ExecutableCode → Tool → Tool
  emit_executable_code ec = emit env (
      custom (bytes "executable_code")
        ((bytes "code", ec.code) ∷ (bytes "language", ec.language) ∷ []))

  unfoldable pub emit_code_execution_result : CodeExecutionResult → Tool → Tool
  emit_code_execution_result ce = emit env (
      custom (bytes "code_execution_result")
        ((bytes "outcome", ce.outcome) ∷ (bytes "output", ce.output) ∷ []))
