-- ===== src/Aguiadk/Translator/Calls.antt =====
-- Tool calls: emitFunctionCall, emitToolUseActivity and closeStreamedToolCalls.
use adk_go_pkg.Base.{
  ◌+◌, Bool, true, false, ◌&&◌, ◌||◌, not, Option, none, some, List, [], ◌∷◌, ◌++◌, Bytes, bytes,
  is_empty, if◌then◌else◌,
}
use adk_go_pkg.Base.Map.{Map, lookup, insert, delete}
use adk_go_pkg.Aguiadk.Translator.{Config, State, emit}
use adk_go_pkg.Aguiadk.Translator.Events.{
  Env, tool_call_start, tool_call_args, tool_call_end, tool_call_result, state_delta,
  activity_snapshot, activity_delta, FunctionCall,
}

-- m[k] of a map[string]bool
abbrev pub flag : Bytes → Map Bool → Bool
flag k m = elim (lookup k m) [ none ↦ false | some b ↦ b ]

abbrev pub is_nil {ℓ} : {A : Type ℓ} → Option A → Bool
is_nil none = true
is_nil (some _) = false

module _ (env : Env) where
  open env use {
    Value, Patch, marshal, quote, patch_op, string_value, gen_message_id, gen_tool_call_id,
  }

  abbrev Tool : Type 0
  Tool = State env

  -- The loop of closeStreamedToolCalls, over the map that it empties.
  unfoldable pub close_tools : Map Bool → Tool → Tool
  close_tools [] t = t
  close_tools ((id, _) ∷ m) t =
      let t' = emit env (tool_call_end id) t in
      close_tools m (record t' {
        open_tools = delete id t'.open_tools;
        had_partial_args = delete id t'.had_partial_args;
      })

  unfoldable pub close_streamed_tool_calls : Tool → Tool
  unfolding close_tools
  close_streamed_tool_calls t = close_tools t.open_tools t

  -- The text of the arguments, "{}" where there are none or they cannot be encoded.
  args_text : Option (Map Value) → Bytes
  args_text none = bytes "{}"
  args_text (some args) = elim (marshal args) [ none ↦ bytes "{}" | some s ↦ s ]

  unfoldable pub emit_tool_use_activity : Bytes → Option (Map Value) → Tool → Tool
  unfolding args_text
  emit_tool_use_activity name args t =
      let text = bytes "Running " ++ (name ++ (bytes "(" ++ (args_text args ++ bytes ")"))) in
      let t' = record t { generated = t.generated + 1 } in
      emit env (activity_snapshot (gen_message_id t.generated) text) t'

  -- `if s != "" { t.toolCallIDs[s] = id }`
  unfoldable pub map_id : Bytes → Bytes → Tool → Tool
  map_id s id t = if is_empty s then t else record t { tool_call_ids = insert s id t.tool_call_ids }

  -- The identifiers and the detail of a function call, recorded for its response.
  unfoldable pub record_call : Bytes → FunctionCall Value → Tool → Tool
  unfolding map_id
  record_call id fc t =
      let t' = map_id fc.name id (map_id fc.id id t) in
      if not (is_empty fc.name) || not (is_nil fc.args)
      then record t' {
        tool_call_details =
            insert id (record { name = fc.name; args = fc.args }) t'.tool_call_details;
      }
      else t'

  -- `if t.emitActivityDeltas` at the start of a streamed call.
  unfoldable pub start_activity : Config env → Bytes → Bytes → Tool → Tool
  start_activity cfg id name t =
      if cfg.emit_activity_deltas
      then (let msg = gen_message_id t.generated in
          let t' = record t {
            generated = t.generated + 1;
            activity_msg_ids = insert id msg t.activity_msg_ids;
          } in
          emit env (activity_snapshot msg (bytes "Running " ++ (name ++ bytes "..."))) t')
      else t

  -- `if !t.startedTools[toolCallID]`
  unfoldable pub start_streamed : Config env → Bytes → Bytes → Tool → Tool
  unfolding start_activity
  start_streamed cfg id name t =
      if flag id t.started_tools
      then t
      else (let t' = emit env (tool_call_start id name) t in
          start_activity cfg id name (record t' {
            started_tools = insert id true t'.started_tools;
            open_tools = insert id true t'.open_tools;
          }))

  -- The body of the loop over PartialArgs.
  unfoldable pub stream_arg : Config env → Bytes → Bytes → Tool → Tool
  stream_arg cfg id s t =
      if is_empty s
      then t
      else (let t1 = emit env (tool_call_args id s) t in
          let t2 = record t1 { had_partial_args = insert id true t1.had_partial_args } in
          if cfg.emit_activity_deltas
          then (elim (lookup id t2.activity_msg_ids) [
            | none ↦ t2
            | some msg ↦
                emit env
                  (activity_delta msg
                    (patch_op (bytes "add") (bytes "/args") (string_value s) ∷ []))
                  t2
          ])
          else t2)

  unfoldable pub stream_args : Config env → Bytes → List Bytes → Tool → Tool
  unfolding stream_arg
  stream_args cfg id [] t = t
  stream_args cfg id (s ∷ ss) t = stream_args cfg id ss (stream_arg cfg id s t)

  -- ARGS with the whole arguments, if there are any and they can be encoded.
  unfoldable pub emit_args : Bytes → Option (Map Value) → Tool → Tool
  emit_args id none t = t
  emit_args id (some args) t = elim (marshal args) [
    | none ↦ t
    | some s ↦ emit env (tool_call_args id s) t
  ]

  -- The final event of a call that was streamed.
  unfoldable pub finish_streamed : Bytes → Option (Map Value) → Tool → Tool
  unfolding emit_args
  finish_streamed id args t =
      let t1 = if flag id t.had_partial_args then t else emit_args id args t in
      let t2 = emit env (tool_call_end id) t1 in
      record t2 {
        open_tools = delete id t2.open_tools;
        had_partial_args = delete id t2.had_partial_args;
      }

  -- START, ARGS and END in one shot.
  unfoldable pub emit_whole_call : Bytes → Bytes → Option (Map Value) → Tool → Tool
  unfolding emit_args
  emit_whole_call id name args t =
      emit env (tool_call_end id) (emit_args id args (emit env (tool_call_start id name) t))

  -- A call that the client is to execute, behind the validation.
  unfoldable pub emit_client_call : Config env → Bytes → FunctionCall Value → Bool → Tool → Tool
  unfolding record_call start_streamed stream_args finish_streamed emit_whole_call
  emit_client_call cfg id fc partial t =
      let t1 = record_call id fc t in
      if partial
      then stream_args cfg id fc.partial_args (start_streamed cfg id fc.name t1)
      else if flag id t1.started_tools
      then finish_streamed id fc.args t1
      else emit_whole_call id fc.name fc.args t1

  -- A TOOL_CALL_RESULT that reports an error.
  unfoldable pub reject_call : Bytes → Bytes → Tool → Tool
  reject_call id content t =
      let t' = record t { generated = t.generated + 1 } in
      emit env (tool_call_result (gen_message_id t.generated) id content) t'

  -- `fc.Args != nil`, and json.Marshal fails.
  unfoldable pub args_invalid : Option (Map Value) → Bool
  args_invalid none = false
  args_invalid (some args) = is_nil (marshal args)

  -- What the validation reports of a call that is not partial.
  unfoldable pub call_error : FunctionCall Value → Bool → Option Bytes
  unfolding args_invalid
  call_error fc partial =
      if not partial && is_empty fc.name
      then some (bytes "{\"error\":\"tool call had an empty function name\"}")
      else if not partial && args_invalid fc.args
      then some (
          bytes "{\"error\":\"tool arguments for "
          ++ (quote fc.name ++ bytes " were not valid JSON\"}"))
      else none

  unfoldable pub validate_call : Config env → Bytes → FunctionCall Value → Bool → Tool → Tool
  unfolding emit_client_call reject_call call_error
  validate_call cfg id fc partial t = elim (call_error fc partial) [
    | none ↦ emit_client_call cfg id fc partial t
    | some content ↦ reject_call id content t
  ]

  -- `t.clientTools != nil`, and the name is not in it.
  unfoldable pub is_server_tool : Config env → Bytes → Bool
  is_server_tool cfg name = elim cfg.client_tools [
    | none ↦ false
    | some tools ↦ is_nil (lookup name tools)
  ]

  -- A call that the backend executes.
  unfoldable pub emit_server_call : Bytes → FunctionCall Value → Bool → Tool → Tool
  unfolding record_call emit_tool_use_activity
  emit_server_call id fc partial t =
      let t1 = record_call id fc t in
      if partial then t1 else emit_tool_use_activity fc.name fc.args t1

  -- The identifier, generated if the call has none.
  unfoldable pub with_call_id : Bytes → Tool → Bytes × Tool
  with_call_id id t =
      if is_empty id
      then (gen_tool_call_id t.generated, record t { generated = t.generated + 1 })
      else (id, t)

  unfoldable pub route_call : Config env → FunctionCall Value → Bool → Tool → Tool
  unfolding with_call_id is_server_tool emit_server_call validate_call
  route_call cfg fc partial t =
      let (id, t') = with_call_id fc.id t in
      if is_server_tool cfg fc.name
      then emit_server_call id fc partial t'
      else validate_call cfg id fc partial t'

  -- What stands of the suppression of tool events for a call with the mapper's result.
  unfoldable pub suppressed : Option (List Patch) × Bool → Tool → Option Tool
  suppressed (ops, false) t = none
  suppressed (none, true) t = some t
  suppressed (some ops, true) t = some (emit env (state_delta ops) t)

  unfoldable pub emit_function_call : Config env → FunctionCall Value → Bool → Tool → Tool
  unfolding route_call suppressed
  emit_function_call cfg fc partial t =
      if cfg.suppress_tools
      then (elim cfg.tool_to_state_mapper [
        | none ↦ route_call cfg fc partial t
        | some mapper ↦ if partial then t else (elim (suppressed (mapper fc.name fc.args) t) [
          | none ↦ route_call cfg fc partial t
          | some t' ↦ t'
        ])
      ])
      else route_call cfg fc partial t
