-- ===== src/Aguiadk/Translator.antt =====
-- aguiadk/bridge.go, the eventTranslator: ADK events become AG-UI events.
-- `State` holds the fields that change, `Config` those that do not. The emit calls ignore their
-- error, so the translator goes on whether or not the channel took the event; `out` is what it
-- handed to the emitters, newest first, each with the sub-agent run that ForSubagent attaches.
pub mod Events
pub mod Calls
pub mod Results
pub mod Run
pub mod Protocol
mod Examples
use adk_go_pkg.Base.{
  ℕ, zero, suc, ◌+◌, Bool, true, false, ◌&&◌, ◌||◌, not, Option, none, some, List, [], ◌∷◌, ◌++◌,
  Bytes, bytes, str_eq, is_empty, has_prefix, after_prefix, if◌then◌else◌,
}
use adk_go_pkg.Base.Map.{Map}
use adk_go_pkg.Agui.TokenUsage.{TokenUsage}
use adk_go_pkg.Aguiadk.Translator.Events.{
  Env, Event, text_start, text_content, text_end, reasoning_start, reasoning_message_start,
  reasoning_content, reasoning_message_end, reasoning_end, reasoning_encrypted, subagent_started,
  subagent_finished, step_started, step_finished, Part,
}

pub record ToolCallDetail (V : Type 0) : Type 0 where
  pub name : Bytes
  pub args : Option (Map V)

pub record Config (env : Env) : Type 0 where
  pub suppress_tools : Bool
  pub tool_to_state_mapper :
      Option (Bytes → Option (Map env.Value) → Option (List env.Patch) × Bool)
  pub emit_steps : Bool
  pub emit_activity_deltas : Bool
  pub client_tools : Option (Map (Unit {0}))
  pub root_agent_name : Bytes

pub record State (env : Env) : Type 0 where
  -- `none` is the base emitter.
  pub active_emitter : Option Bytes
  pub current_msg_id : Bytes
  pub msg_open : Bool
  pub prev_text : Bytes
  pub reasoning_open : Bool
  pub current_reasoning_id : Bytes
  pub prev_thought_text : Bytes
  pub tool_call_ids : Map Bytes
  pub tool_call_details : Map (ToolCallDetail env.Value)
  pub started_tools : Map Bool
  pub open_tools : Map Bool
  pub had_partial_args : Map Bool
  pub step_open : Bool
  pub step_name : Bytes
  pub activity_msg_ids : Map Bytes
  pub usage_entries : List TokenUsage
  pub current_author : Bytes
  pub active_subagent_run : Bytes
  pub subagent_emitted : Bool
  -- How many identifiers were generated.
  pub generated : ℕ
  pub out : List (Option Bytes × Event env)

module _ (env : Env) where
  open env use {gen_message_id, gen_tool_call_id, base64}

  -- newEventTranslator
  abbrev pub new_state : State env
  new_state = record {
    active_emitter = none;
    current_msg_id = [];
    msg_open = false;
    prev_text = [];
    reasoning_open = false;
    current_reasoning_id = [];
    prev_thought_text = [];
    tool_call_ids = [];
    tool_call_details = [];
    started_tools = [];
    open_tools = [];
    had_partial_args = [];
    step_open = false;
    step_name = [];
    activity_msg_ids = [];
    usage_entries = [];
    current_author = [];
    active_subagent_run = [];
    subagent_emitted = false;
    generated = 0;
    out = [];
  }

  -- A call of a method of activeEmitter, and one of the base emitter.
  abbrev pub emit : Event env → State env → State env
  emit e t = record t { out = (t.active_emitter, e) ∷ t.out }

  abbrev pub emit_base : Event env → State env → State env
  emit_base e t = record t { out = (none, e) ∷ t.out }

  pub is_root_author : Config env → Bytes → Bool
  is_root_author cfg author =
      is_empty author
      || (str_eq author (bytes "user")
          || (str_eq author (bytes "model") || str_eq author cfg.root_agent_name))

  pub subagent_name_for_event : Config env → Bytes → Bytes
  subagent_name_for_event cfg author =
      if is_empty author
        || (str_eq author (bytes "user")
            || (str_eq author (bytes "model") || str_eq author cfg.root_agent_name))
      then []
      else author

  pub start_step : Bytes → State env → State env
  start_step name t =
      let t' = emit (step_started name) t in record t' { step_open = true; step_name = name }

  pub close_open_step : State env → State env
  close_open_step t =
      if t.step_open
      then (let t' = emit (step_finished t.step_name) t in record t' { step_open = false })
      else t

  pub close_open_reasoning : State env → State env
  close_open_reasoning t =
      if t.reasoning_open
      then (let t' = emit (reasoning_message_end t.current_reasoning_id) t in
          let t'' = emit (reasoning_end t.current_reasoning_id) t' in
          record t'' { reasoning_open = false; prev_thought_text = []; current_reasoning_id = [] })
      else t

  -- The `if t.msgOpen` with which closeOpenMessage and emitThought begin.
  pub end_message : State env → State env
  end_message t =
      if t.msg_open
      then (let t' = emit (text_end t.current_msg_id) t in
          record t' { msg_open = false; prev_text = [] })
      else t

  pub close_open_message : State env → State env
  unfolding end_message close_open_reasoning
  close_open_message t = close_open_reasoning (end_message t)

  -- SUBAGENT_FINISHED with the reset that follows it where no other sub-agent begins.
  pub close_open_subagent : State env → State env
  close_open_subagent t =
      if is_empty t.active_subagent_run
      then t
      else (let t' = emit_base (subagent_finished t.active_subagent_run) t in
          record t' {
            active_subagent_run = [];
            current_author = [];
            subagent_emitted = false;
            active_emitter = none;
          })

  -- `if author != t.currentAuthor`
  pub switch_subagent : Bytes → State env → State env
  switch_subagent author t =
      if str_eq author t.current_author
      then t
      else (let t' =
            if is_empty t.active_subagent_run
            then t
            else emit_base (subagent_finished t.active_subagent_run) t in
          let run = gen_tool_call_id t'.generated in
          record t' {
            current_author = author;
            active_subagent_run = run;
            generated = t'.generated + 1;
            subagent_emitted = false;
            active_emitter = some run;
          })

  -- `if !t.subagentEmitted`
  pub announce_subagent : Bytes → State env → State env
  announce_subagent author t =
      if t.subagent_emitted
      then t
      else (let t' = emit_base (subagent_started t.active_subagent_run author) t in
          record t' { subagent_emitted = true })

  pub maybe_emit_subagent_lifecycle : Config env → Bytes → State env → State env
  unfolding is_root_author close_open_subagent switch_subagent announce_subagent
  maybe_emit_subagent_lifecycle cfg author t =
      if is_root_author cfg author
      then close_open_subagent t
      else announce_subagent author (switch_subagent author t)

  -- The delta of an accumulated text over what was sent before.
  pub delta_of : Bytes → Bytes → Bytes
  delta_of text prev = if has_prefix text prev then after_prefix text prev else text

  -- `if !t.msgOpen`
  pub open_message : Config env → Bytes → State env → State env
  unfolding subagent_name_for_event
  open_message cfg author t =
      if t.msg_open
      then t
      else (let id = gen_message_id t.generated in
          let t' = record t { current_msg_id = id; generated = t.generated + 1 } in
          let t'' = emit (text_start id (subagent_name_for_event cfg author)) t' in
          record t'' { msg_open = true; prev_text = [] })

  -- `if delta != "" { … }`
  abbrev pub emit_content : Bytes → State env → State env
  emit_content delta t = if is_empty delta then t else emit (text_content t.current_msg_id delta) t

  pub emit_text : Config env → Bytes → Bool → Bytes → State env → State env
  unfolding close_open_reasoning open_message delta_of
  emit_text cfg text partial author t =
      let t1 = open_message cfg author (close_open_reasoning t) in
      let delta = delta_of text t1.prev_text in
      let t2 = emit_content delta t1 in
      if partial
      then record t2 { prev_text = t2.prev_text ++ delta }
      else (let t3 = emit (text_end t2.current_msg_id) t2 in
          record t3 { msg_open = false; prev_text = [] })

  -- `if !t.reasoningOpen`
  pub open_reasoning : State env → State env
  open_reasoning t =
      if t.reasoning_open
      then t
      else (let id = gen_message_id t.generated in
          let t' = record t { current_reasoning_id = id; generated = t.generated + 1 } in
          let t'' = emit (reasoning_message_start id) (emit (reasoning_start id) t') in
          record t'' { reasoning_open = true; prev_thought_text = [] })

  abbrev pub emit_reasoning_content : Bytes → State env → State env
  emit_reasoning_content delta t =
      if is_empty delta then t else emit (reasoning_content t.current_reasoning_id delta) t

  -- The part of emitThought behind the two openings.
  pub continue_thought : Bytes → Bytes → State env → State env
  unfolding delta_of
  continue_thought text signature t =
      let delta = delta_of text t.prev_thought_text in
      let t1 = emit_reasoning_content delta t in
      let t2 = record t1 { prev_thought_text = t1.prev_thought_text ++ delta } in
      if is_empty signature
      then t2
      else emit (reasoning_encrypted t2.current_reasoning_id (base64 signature)) t2

  pub emit_thought : Bytes → Bytes → Bool → State env → State env
  unfolding end_message open_reasoning continue_thought close_open_reasoning
  emit_thought text signature partial t =
      let t' = continue_thought text signature (open_reasoning (end_message t)) in
      if partial then t' else close_open_reasoning t'
