-- ===== src/Aguiadk/Translator/Run.antt =====
-- translate, and the calls with which runInternal ends a run.
use adk_go_pkg.Base.{
  ℕ, Bool, false, ◌&&◌, ◌||◌, not, Option, none, some, List, [], ◌∷◌, ◌++◌, Bytes, bytes, is_empty,
  has_prefix, decimal, length, ◌==◌, if◌then◌else◌,
}
use adk_go_pkg.Base.Int.{ℤ, pos, negsuc}
use adk_go_pkg.Base.Map.{Map}
use adk_go_pkg.Agui.TokenUsage.{TokenUsage}
use adk_go_pkg.Aguiadk.Translator.{
  Config, State, emit, emit_base, is_root_author, start_step, close_open_step, close_open_message,
  close_open_subagent, maybe_emit_subagent_lifecycle, emit_text, emit_thought,
}
use adk_go_pkg.Aguiadk.Translator.Events.{
  Env, state_delta, subagent_error, custom, custom_metadata, Part, AdkEvent, UsageMetadata,
  FileData, Blob,
}
use adk_go_pkg.Aguiadk.Translator.Calls.{is_nil, close_streamed_tool_calls, emit_function_call}
use adk_go_pkg.Aguiadk.Translator.Results.{
  emit_function_response, emit_builtin_tool_call, emit_builtin_tool_response, emit_executable_code,
  emit_code_execution_result,
}

unfoldable pub infer_provider_from_model : Bytes → Bytes
infer_provider_from_model model =
    if has_prefix model (bytes "gemini-")
    then bytes "google"
    else if has_prefix model (bytes "gpt-")
    then bytes "openai"
    else if has_prefix model (bytes "claude-")
    then bytes "anthropic"
    else []

-- `if count > 0 { v := int64(count); u.X = &v }`
positive : ℤ → Option ℕ
positive (pos n) = if n == 0 then none else some n
positive (negsuc _) = none

-- recordUsage
unfoldable pub usage_entry : UsageMetadata → Bytes → TokenUsage
unfolding infer_provider_from_model positive
usage_entry meta model = record {
  provider = infer_provider_from_model model;
  model = model;
  input_tokens = positive meta.prompt_token_count;
  output_tokens = positive meta.candidates_token_count;
  total_tokens = positive meta.total_token_count;
  reasoning_tokens = positive meta.thoughts_token_count;
  cached_input_tokens = positive meta.cached_content_token_count;
}

-- The texts of a file and of a blob.
abbrev pub file_text : FileData → Bytes
file_text f = bytes "[File: " ++ (f.mime_type ++ (bytes "](" ++ (f.file_uri ++ bytes ")")))

abbrev pub blob_text : Blob → Bytes
blob_text b =
    bytes "[Binary data: "
    ++ (b.mime_type ++ (bytes ", " ++ (decimal (length b.payload) ++ bytes " bytes]")))

module _ (env : Env) where
  open env use {Value, Patch, patch_op}

  abbrev T : Type 0
  T = State env

  abbrev Parts : Type 0
  Parts = List (Option (Part Value))

  unfoldable pub record_usage : AdkEvent env → T → T
  unfolding usage_entry
  record_usage ev t = elim ev.usage_metadata [
    | none ↦ t
    | some meta ↦
        if ev.partial
        then t
        else record t { usage_entries = t.usage_entries ++ usage_entry meta ev.model_version ∷ [] }
  ]

  -- The loop of emitStateDelta.
  unfoldable pub delta_ops : Map Value → List Patch
  delta_ops [] = []
  delta_ops ((k, v) ∷ m) = patch_op (bytes "replace") (bytes "/" ++ k) v ∷ delta_ops m

  unfoldable pub emit_state_delta : Map Value → T → T
  unfolding delta_ops
  emit_state_delta [] t = t
  emit_state_delta (e ∷ m) t = emit env (state_delta (delta_ops (e ∷ m))) t

  -- hasFunctionCall and hasFunctionResponse
  unfoldable pub has_call : Parts → Bool
  has_call [] = false
  has_call (none ∷ ps) = has_call ps
  has_call (some p ∷ ps) = not (is_nil p.function_call) || has_call ps

  unfoldable pub has_response : Parts → Bool
  has_response [] = false
  has_response (none ∷ ps) = has_response ps
  has_response (some p ∷ ps) = not (is_nil p.function_response) || has_response ps

  unfoldable pub parts_of : AdkEvent env → Parts
  parts_of ev = elim ev.content [ none ↦ [] | some ps ↦ ps ]

  unfoldable pub manage_steps : Config env → AdkEvent env → T → T
  unfolding has_call has_response parts_of start_step close_open_step
  manage_steps cfg ev t =
      if cfg.emit_steps
      then (if has_response (parts_of ev)
          then start_step env (bytes "llm") (close_open_step env t)
          else if has_call (parts_of ev) && not ev.partial
          then start_step env (bytes "tools") (close_open_step env t)
          else if not t.step_open && not ev.partial
          then start_step env (bytes "llm") t
          else t)
      else t

  abbrev is_error : AdkEvent env → Bool
  is_error ev = not (is_empty ev.error_code) || not (is_empty ev.error_message)

  abbrev pub subagent_fails : Config env → AdkEvent env → T → Bool
  subagent_fails cfg ev t =
      is_error ev
      && (not (is_root_author env cfg ev.author) && not (is_empty t.active_subagent_run))

  unfoldable pub error_text : AdkEvent env → Bytes
  error_text ev =
      if is_empty ev.error_message
      then bytes "model error (code: " ++ (ev.error_code ++ bytes ")")
      else ev.error_message

  -- A model error of a sub-agent: everything that is open is closed, then the sub-agent.
  unfoldable pub fail_subagent : AdkEvent env → T → T
  unfolding close_open_message close_streamed_tool_calls close_open_step error_text
  fail_subagent ev t =
      let t1 = close_open_step env (close_streamed_tool_calls env (close_open_message env t)) in
      let t2 =
        emit_base env (subagent_error t1.active_subagent_run (error_text ev) ev.error_code) t1 in
      record t2 {
        active_subagent_run = [];
        current_author = [];
        subagent_emitted = false;
        active_emitter = none;
      }

  -- A model error of the root agent.
  unfoldable pub report_error : AdkEvent env → T → T
  report_error ev t =
      if is_error ev
      then emit env
          (custom (bytes "model_error")
            ((bytes "code", ev.error_code) ∷ (bytes "message", ev.error_message) ∷ []))
          t
      else t

  unfoldable pub emit_metadata : Bytes → Option env.Metadata → T → T
  emit_metadata name none t = t
  emit_metadata name (some m) t = emit env (custom_metadata name m) t

  -- The cases of the switch that stand behind the text.
  unfoldable pub emit_data : Config env → Part Value → Bool → Bytes → T → T
  unfolding emit_text emit_executable_code emit_code_execution_result
  emit_data cfg p partial author t = elim p.file_data [
    | some f ↦ emit_text env cfg (file_text f) partial author t
    | none ↦ elim p.inline_data [
      | some b ↦ emit_text env cfg (blob_text b) partial author t
      | none ↦ elim p.executable_code [
        | some ec ↦ emit_executable_code env ec t
        | none ↦ elim p.code_execution_result [
          | some ce ↦ emit_code_execution_result env ce t
          | none ↦ t
        ]
      ]
    ]
  ]

  -- The cases between the thought and the text.
  unfoldable pub emit_tool_part : Config env → Part Value → Bool → Bytes → T → T
  unfolding close_open_message emit_function_call emit_function_response emit_builtin_tool_call
      emit_builtin_tool_response emit_text emit_data
  emit_tool_part cfg p partial author t = elim p.function_call [
    | some fc ↦ emit_function_call env cfg fc partial (close_open_message env t)
    | none ↦ elim p.function_response [
      | some fr ↦ emit_function_response env fr (close_open_message env t)
      | none ↦ elim p.tool_call [
        | some tc ↦ emit_builtin_tool_call env cfg tc (close_open_message env t)
        | none ↦ elim p.tool_response [
          | some tr ↦ emit_builtin_tool_response env tr (close_open_message env t)
          | none ↦
              if is_empty p.text
              then emit_data cfg p partial author t
              else emit_text env cfg p.text partial author t
        ]
      ]
    ]
  ]

  -- The switch over the kinds of a part.
  unfoldable pub emit_part : Config env → Part Value → Bool → Bytes → T → T
  unfolding emit_thought emit_tool_part
  emit_part cfg p partial author t =
      if p.thought && not (is_empty p.text)
      then emit_thought env p.text p.thought_signature partial t
      else emit_tool_part cfg p partial author t

  unfoldable pub emit_parts : Config env → Parts → Bool → Bytes → T → T
  unfolding emit_part
  emit_parts cfg [] partial author t = t
  emit_parts cfg (none ∷ ps) partial author t = emit_parts cfg ps partial author t
  emit_parts cfg (some p ∷ ps) partial author t =
      emit_parts cfg ps partial author (emit_part cfg p partial author t)

  -- The content of an event, if it has any.
  unfoldable pub emit_content_of : Config env → AdkEvent env → Parts → T → T
  unfolding emit_parts emit_metadata
  emit_content_of cfg ev [] t = t
  emit_content_of cfg ev (p ∷ ps) t = emit_parts cfg (p ∷ ps) ev.partial ev.author (
      emit_metadata (bytes "grounding_metadata") ev.grounding_metadata
        (emit_metadata (bytes "citation_metadata") ev.citation_metadata t))

  -- translate, up to the handling of model errors.
  unfoldable pub begin_event : Config env → AdkEvent env → T → T
  unfolding record_usage maybe_emit_subagent_lifecycle emit_state_delta manage_steps
  begin_event cfg ev t = manage_steps cfg ev (
      emit_state_delta ev.state_delta
        (maybe_emit_subagent_lifecycle env cfg ev.author (record_usage ev t)))

  unfoldable pub translate : Config env → AdkEvent env → T → T
  unfolding begin_event fail_subagent report_error emit_content_of parts_of
  translate cfg ev t =
      let t' = begin_event cfg ev t in
      if subagent_fails cfg ev t'
      then fail_subagent ev t'
      else emit_content_of cfg ev (parts_of ev) (report_error ev t')

  unfoldable pub translate_all : Config env → List (AdkEvent env) → T → T
  unfolding translate
  translate_all cfg [] t = t
  translate_all cfg (ev ∷ evs) t = translate_all cfg evs (translate cfg ev t)

  -- The four calls with which runInternal ends a run, on every path.
  unfoldable pub close_all : T → T
  unfolding close_open_message close_streamed_tool_calls close_open_step close_open_subagent
  close_all t =
      close_open_subagent env
        (close_open_step env (close_streamed_tool_calls env (close_open_message env t)))
