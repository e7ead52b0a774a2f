-- ===== src/Aguiadk/Translator/Protocol/Tools.antt =====
-- Tool calls, results, activities and the rest leave messages, steps and sub-agents as they are.
use adk_go_pkg.Base.{
  Bool, true, false, Option, none, some, List, [], ◌∷◌, Bytes, ◌≡◌, str_eq_iff, str_eq_refl, arith,
  if-cases, if-cases_of, option-cases,
}
use adk_go_pkg.Base.Map.{Map, has_key, lookup-insert, has_key-insert, has_key-delete}
use adk_go_pkg.Aguiadk.Translator.{Config, State}
use adk_go_pkg.Aguiadk.Translator.Events.{
  Env, FunctionCall, FunctionResponse, ToolCall, ToolResponse,
}
use adk_go_pkg.Aguiadk.Translator.Calls.{
  flag, start_activity, close_tools, close_streamed_tool_calls, emit_tool_use_activity, record_call,
  start_streamed, stream_arg, stream_args, emit_args, finish_streamed, emit_whole_call,
  emit_client_call, reject_call, validate_call, emit_server_call, with_call_id, route_call,
  suppressed, emit_function_call, call_error,
}
use adk_go_pkg.Aguiadk.Translator.Results.{
  emit_recorded_activity, emit_result, emit_function_response, record_builtin,
  emit_builtin_tool_call, emit_builtin_tool_response, known_call, builtin_name,
}
use adk_go_pkg.Aguiadk.Translator.Protocol.{
  IsSound, check, heard, pondered, open_count, was_started, owned, strict,
}

module _ (env : Env) (call : Bytes) where
  close_tools-IsSound :
      (m : Map Bool) {t : State env}
      → (has_key call m ≡ true → flag call t.started_tools ≡ true)
      → IsSound call t
      → IsSound call (close_tools env m t)
  unfolding close_tools check heard pondered open_count was_started owned strict has_key
  close_tools-IsSound [] h s = s
  close_tools-IsSound ((id, b) ∷ m) {t} h s =
      close_tools-IsSound m (λ k. ground arith)
        (ground (arith, str_eq_iff id call, has_key-delete id call t.open_tools))

  emit_tool_use_activity-IsSound :
      (name : Bytes) (args : Option (Map env.Value)) {t : State env}
      → IsSound call t
      → IsSound call (emit_tool_use_activity env name args t)
  unfolding emit_tool_use_activity check heard pondered open_count was_started owned strict
  emit_tool_use_activity-IsSound name args {t} s = ground arith

  record_call-IsSound :
      (id : Bytes) (fc : FunctionCall env.Value) {t : State env}
      → IsSound call t
      → IsSound call (record_call env id fc t)
  unfolding record_call check heard pondered open_count was_started owned strict
  record_call-IsSound id fc {t} s = ground arith

  start_streamed-IsSound :
      (cfg : Config env) (id name : Bytes) {t : State env}
      → IsSound call t
      → IsSound call (start_streamed env cfg id name t)
  unfolding start_streamed check heard pondered open_count was_started owned strict
  start_streamed-IsSound cfg id name {t} s = ground (
    arith,
    str_eq_iff id call,
    lookup-insert id call true t.started_tools,
    has_key-insert id call true t.open_tools,
  )

  started-start_streamed :
      (cfg : Config env) (id name : Bytes) (t : State env)
      → flag id (start_streamed env cfg id name t).started_tools ≡ true
  unfolding start_streamed start_activity
  started-start_streamed cfg id name t =
      ground (arith, lookup-insert id id true t.started_tools, str_eq_refl id)

  stream_args-IsSound :
      (cfg : Config env) (id : Bytes) (ss : List Bytes) {t : State env}
      → flag id t.started_tools ≡ true
      → IsSound call t
      → IsSound call (stream_args env cfg id ss t)
  unfolding stream_args stream_arg check heard pondered open_count was_started owned strict
  stream_args-IsSound cfg id [] h s = s
  stream_args-IsSound cfg id (x ∷ ss) {t} h s =
      stream_args-IsSound cfg id ss (ground arith) (ground (arith, str_eq_iff id call))

  emit_whole_call-IsSound :
      (id name : Bytes) (args : Option (Map env.Value)) {t : State env}
      → IsSound call t
      → IsSound call (emit_whole_call env id name args t)
  unfolding emit_whole_call emit_args check heard pondered open_count was_started owned strict
  emit_whole_call-IsSound id name none {t} s = ground arith
  emit_whole_call-IsSound id name (some args) {t} s = ground arith

  finish_streamed-IsSound :
      (id : Bytes) (args : Option (Map env.Value)) {t : State env}
      → flag id t.started_tools ≡ true
      → IsSound call t
      → IsSound call (finish_streamed env id args t)
  unfolding finish_streamed emit_args check heard pondered open_count was_started owned strict
  finish_streamed-IsSound id none {t} h s =
      ground (arith, str_eq_iff id call, has_key-delete id call t.open_tools)
  finish_streamed-IsSound id (some args) {t} h s =
      ground (arith, str_eq_iff id call, has_key-delete id call t.open_tools)

  emit_client_call-IsSound :
      (cfg : Config env) (id : Bytes) (fc : FunctionCall env.Value) (partial : Bool) {t : State env}
      → IsSound call t
      → IsSound call (emit_client_call env cfg id fc partial t)
  unfolding emit_client_call
  emit_client_call-IsSound cfg id fc true s =
      stream_args-IsSound cfg id fc.partial_args
        (started-start_streamed cfg id fc.name (record_call env id fc _))
        (start_streamed-IsSound cfg id fc.name (record_call-IsSound id fc s))
  emit_client_call-IsSound cfg id fc false s =
      let r = record_call-IsSound id fc s in
      if-cases_of (IsSound call) _ _ _ (λ h. finish_streamed-IsSound id fc.args h r)
        (λ h. emit_whole_call-IsSound id fc.name fc.args r)

  reject_call-IsSound :
      (id content : Bytes) {t : State env}
      → IsSound call t
      → IsSound call (reject_call env id content t)
  unfolding reject_call check heard pondered open_count was_started owned strict
  reject_call-IsSound id content {t} s = ground arith

  with_call_id-IsSound :
      (id : Bytes) {t : State env} → IsSound call t → IsSound call (with_call_id env id t).1
  unfolding with_call_id check heard pondered open_count was_started owned strict
  with_call_id-IsSound id {t} s = ground arith

  validate_call-IsSound :
      (cfg : Config env) (id : Bytes) (fc : FunctionCall env.Value) (partial : Bool) {t : State env}
      → IsSound call t
      → IsSound call (validate_call env cfg id fc partial t)
  unfolding validate_call
  validate_call-IsSound cfg id fc partial {t} s =
      option-cases (IsSound call) (call_error env fc partial)
        (emit_client_call env cfg id fc partial t) (λ content. reject_call env id content t)
        (emit_client_call-IsSound cfg id fc partial s) (λ content. reject_call-IsSound id content s)

  emit_server_call-IsSound :
      (id : Bytes) (fc : FunctionCall env.Value) (partial : Bool) {t : State env}
      → IsSound call t
      → IsSound call (emit_server_call env id fc partial t)
  unfolding emit_server_call
  emit_server_call-IsSound id fc true s = record_call-IsSound id fc s
  emit_server_call-IsSound id fc false s =
      emit_tool_use_activity-IsSound fc.name fc.args (record_call-IsSound id fc s)

  route_call-IsSound :
      (cfg : Config env) (fc : FunctionCall env.Value) (partial : Bool) {t : State env}
      → IsSound call t
      → IsSound call (route_call env cfg fc partial t)
  unfolding route_call
  route_call-IsSound cfg fc partial {t} s =
      let w = with_call_id-IsSound fc.id s in
      let id = (with_call_id env fc.id t).0 in
      if-cases (IsSound call) _ _ _ (emit_server_call-IsSound id fc partial w)
        (validate_call-IsSound cfg id fc partial w)

  pub emit_function_call-IsSound :
      (cfg : Config env) (fc : FunctionCall env.Value) (partial : Bool) {t : State env}
      → IsSound call t
      → IsSound call (emit_function_call env cfg fc partial t)
  unfolding emit_function_call suppressed check heard pondered open_count was_started owned strict
  emit_function_call-IsSound cfg fc partial {t} s =
      ground (arith, route_call-IsSound cfg fc partial s)

  emit_result-IsSound :
      (id : Bytes) (response : Map env.Value) {t : State env}
      → IsSound call t
      → IsSound call (emit_result env id response t)
  unfolding emit_result emit_recorded_activity check heard pondered open_count was_started owned
      strict
  emit_result-IsSound id response {t} s = ground arith

  pub emit_function_response-IsSound :
      (fr : FunctionResponse env.Value) {t : State env}
      → IsSound call t
      → IsSound call (emit_function_response env fr t)
  unfolding emit_function_response
  emit_function_response-IsSound fr {t} s =
      option-cases (IsSound call) (known_call env fr.id fr.name t) t
        (λ id. emit_result env id fr.response t) s (λ id. emit_result-IsSound id fr.response s)

  pub emit_builtin_tool_response-IsSound :
      (tr : ToolResponse env.Value) {t : State env}
      → IsSound call t
      → IsSound call (emit_builtin_tool_response env tr t)
  unfolding emit_builtin_tool_response
  emit_builtin_tool_response-IsSound tr {t} s =
      option-cases (IsSound call) (known_call env tr.id tr.tool_type t) t
        (λ id. emit_result env id tr.response t) s (λ id. emit_result-IsSound id tr.response s)

  record_builtin-IsSound :
      (id : Bytes) (tc : ToolCall env.Value) {t : State env}
      → IsSound call t
      → IsSound call (record_builtin env id tc t)
  unfolding record_builtin check heard pondered open_count was_started owned strict
  record_builtin-IsSound id tc {t} s = ground arith

  pub emit_builtin_tool_call-IsSound :
      (cfg : Config env) (tc : ToolCall env.Value) {t : State env}
      → IsSound call t
      → IsSound call (emit_builtin_tool_call env cfg tc t)
  unfolding emit_builtin_tool_call
  emit_builtin_tool_call-IsSound cfg tc {t} s =
      let id = (with_call_id env tc.id t).0 in
      let name = builtin_name env tc.tool_type in
      let r = record_builtin-IsSound id tc (with_call_id-IsSound tc.id s) in
      if-cases (IsSound call) _ _ _ (emit_tool_use_activity-IsSound name tc.args r)
        (emit_whole_call-IsSound id name tc.args r)

  pub close_streamed_tool_calls-IsSound :
      {t : State env} → IsSound call t → IsSound call (close_streamed_tool_calls env t)
  unfolding close_streamed_tool_calls
  close_streamed_tool_calls-IsSound {t} s = close_tools-IsSound t.open_tools s.streamed s
