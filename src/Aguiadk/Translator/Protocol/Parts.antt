-- ===== src/Aguiadk/Translator/Protocol/Parts.antt =====
-- The parts of an event's content obey the protocol.
use adk_go_pkg.Base.{
  Bool, not, ◌&&◌, Option, none, some, List, [], ◌∷◌, Bytes, bytes, is_empty, if◌then◌else◌, arith,
  if-cases, option-cases,
}
use adk_go_pkg.Aguiadk.Translator.{Config, State, close_open_message, emit_text, emit_thought}
use adk_go_pkg.Aguiadk.Translator.Events.{Env, Part, AdkEvent, ExecutableCode, CodeExecutionResult}
use adk_go_pkg.Aguiadk.Translator.Calls.{emit_function_call}
use adk_go_pkg.Aguiadk.Translator.Results.{
  emit_function_response, emit_builtin_tool_call, emit_builtin_tool_response, emit_executable_code,
  emit_code_execution_result,
}
use adk_go_pkg.Aguiadk.Translator.Run.{
  file_text, blob_text, emit_metadata, emit_data, emit_tool_part, emit_part, emit_parts,
  emit_content_of,
}
use adk_go_pkg.Aguiadk.Translator.Protocol.{
  IsSound, check, heard, pondered, open_count, was_started, owned, strict,
}
use adk_go_pkg.Aguiadk.Translator.Protocol.Text.{
  close_open_message-IsSound, emit_text-IsSound, emit_thought-IsSound,
}
use adk_go_pkg.Aguiadk.Translator.Protocol.Tools.{
  emit_function_call-IsSound, emit_function_response-IsSound, emit_builtin_tool_call-IsSound,
  emit_builtin_tool_response-IsSound,
}

module _ (env : Env) (call : Bytes) where
  emit_metadata-IsSound :
      (name : Bytes) (m : Option env.Metadata) {t : State env}
      → IsSound call t
      → IsSound call (emit_metadata env name m t)
  unfolding emit_metadata check heard pondered open_count was_started owned strict
  emit_metadata-IsSound name none s = s
  emit_metadata-IsSound name (some m) {t} s = ground arith

  emit_executable_code-IsSound :
      (ec : ExecutableCode) {t : State env}
      → IsSound call t
      → IsSound call (emit_executable_code env ec t)
  unfolding emit_executable_code check heard pondered open_count was_started owned strict
  emit_executable_code-IsSound ec {t} s = ground arith

  emit_code_execution_result-IsSound :
      (ce : CodeExecutionResult) {t : State env}
      → IsSound call t
      → IsSound call (emit_code_execution_result env ce t)
  unfolding emit_code_execution_result check heard pondered open_count was_started owned strict
  emit_code_execution_result-IsSound ce {t} s = ground arith

  emit_data-IsSound :
      (cfg : Config env) (p : Part env.Value) (partial : Bool) (author : Bytes) {t : State env}
      → IsSound call t
      → IsSound call (emit_data env cfg p partial author t)
  unfolding emit_data
  emit_data-IsSound cfg p partial author {t} s =
      let result : State env = elim p.code_execution_result [
        | some ce ↦ emit_code_execution_result env ce t
        | none ↦ t
      ] in
      let code : State env = elim p.executable_code [
        | some ec ↦ emit_executable_code env ec t
        | none ↦ result
      ] in
      let blob : State env = elim p.inline_data [
        | some b ↦ emit_text env cfg (blob_text b) partial author t
        | none ↦ code
      ] in
      option-cases (IsSound call) p.file_data blob
        (λ f. emit_text env cfg (file_text f) partial author t)
        (option-cases (IsSound call) p.inline_data code
          (λ b. emit_text env cfg (blob_text b) partial author t)
          (option-cases (IsSound call) p.executable_code result
            (λ ec. emit_executable_code env ec t)
            (option-cases (IsSound call) p.code_execution_result t
              (λ ce. emit_code_execution_result env ce t) s
              (λ ce. emit_code_execution_result-IsSound ce s))
            (λ ec. emit_executable_code-IsSound ec s))
          (λ b. emit_text-IsSound env call cfg (blob_text b) partial author s))
        (λ f. emit_text-IsSound env call cfg (file_text f) partial author s)

  emit_tool_part-IsSound :
      (cfg : Config env) (p : Part env.Value) (partial : Bool) (author : Bytes) {t : State env}
      → IsSound call t
      → IsSound call (emit_tool_part env cfg p partial author t)
  unfolding emit_tool_part
  emit_tool_part-IsSound cfg p partial author {t} s =
      let c = close_open_message-IsSound env call s in
      let t' = close_open_message env t in
      let rest : State env =
        if is_empty p.text
        then emit_data env cfg p partial author t
        else emit_text env cfg p.text partial author t in
      let response : State env = elim p.tool_response [
        | some r ↦ emit_builtin_tool_response env r t'
        | none ↦ rest
      ] in
      let builtin : State env = elim p.tool_call [
        | some b ↦ emit_builtin_tool_call env cfg b t'
        | none ↦ response
      ] in
      let result : State env = elim p.function_response [
        | some fr ↦ emit_function_response env fr t'
        | none ↦ builtin
      ] in
      option-cases (IsSound call) p.function_call result
        (λ fc. emit_function_call env cfg fc partial t')
        (option-cases (IsSound call) p.function_response builtin
          (λ fr. emit_function_response env fr t')
          (option-cases (IsSound call) p.tool_call response
            (λ b. emit_builtin_tool_call env cfg b t')
            (option-cases (IsSound call) p.tool_response rest
              (λ r. emit_builtin_tool_response env r t')
              (if-cases (IsSound call) (is_empty p.text) (emit_data env cfg p partial author t)
                (emit_text env cfg p.text partial author t)
                (emit_data-IsSound cfg p partial author s)
                (emit_text-IsSound env call cfg p.text partial author s))
              (λ r. emit_builtin_tool_response-IsSound env call r c))
            (λ b. emit_builtin_tool_call-IsSound env call cfg b c))
          (λ fr. emit_function_response-IsSound env call fr c))
        (λ fc. emit_function_call-IsSound env call cfg fc partial c)

  emit_part-IsSound :
      (cfg : Config env) (p : Part env.Value) (partial : Bool) (author : Bytes) {t : State env}
      → IsSound call t
      → IsSound call (emit_part env cfg p partial author t)
  unfolding emit_part
  emit_part-IsSound cfg p partial author {t} s =
      if-cases (IsSound call) (p.thought && not (is_empty p.text))
        (emit_thought env p.text p.thought_signature partial t)
        (emit_tool_part env cfg p partial author t)
        (emit_thought-IsSound env call p.text p.thought_signature partial s)
        (emit_tool_part-IsSound cfg p partial author s)

  emit_parts-IsSound :
      (cfg : Config env) (ps : List (Option (Part env.Value))) (partial : Bool) (author : Bytes)
      {t : State env}
      → IsSound call t
      → IsSound call (emit_parts env cfg ps partial author t)
  unfolding emit_parts
  emit_parts-IsSound cfg [] partial author s = s
  emit_parts-IsSound cfg (none ∷ ps) partial author s = emit_parts-IsSound cfg ps partial author s
  emit_parts-IsSound cfg (some p ∷ ps) partial author s =
      emit_parts-IsSound cfg ps partial author (emit_part-IsSound cfg p partial author s)

  pub emit_content_of-IsSound :
      (cfg : Config env) (ev : AdkEvent env) (ps : List (Option (Part env.Value))) {t : State env}
      → IsSound call t
      → IsSound call (emit_content_of env cfg ev ps t)
  unfolding emit_content_of
  emit_content_of-IsSound cfg ev [] s = s
  emit_content_of-IsSound cfg ev (p ∷ ps) s = emit_parts-IsSound cfg (p ∷ ps) ev.partial ev.author (
      emit_metadata-IsSound (bytes "grounding_metadata") ev.grounding_metadata
        (emit_metadata-IsSound (bytes "citation_metadata") ev.citation_metadata s))
