-- ===== src/Aguiadk/Bridge/Endings.antt =====
-- runInternal of aguiadk/bridge.go, the ways in which a run ends once the agent was called: the
-- open parts of the stream are closed, and a paused run is saved.
use adk_go_pkg.Base.{
  ℕ, suc, Bool, true, false, Option, none, some, List, [], ◌∷◌, ◌++◌, Bytes, bytes, decimal, length,
  if◌then◌else◌,
}
use adk_go_pkg.Base.Int.{ℤ, pos, negsuc}
use adk_go_pkg.Base.Map.{Map}
use adk_go_pkg.Agui.TokenUsage.{TokenUsage, aggregate_token_usage}
use adk_go_pkg.Aguiadk.RunStore.{PendingToolCall, PausedRun, run_key, save}
use adk_go_pkg.Aguiadk.Translator.{State}
use adk_go_pkg.Aguiadk.Translator.Events.{Event}
use adk_go_pkg.Aguiadk.Translator.Run.{close_all}
use adk_go_pkg.Aguiadk.Inbound.Snapshot.{session_events_to_messages}
use adk_go_pkg.Aguiadk.Bridge.{
  BridgeEnv, Any, streamed, run_error, run_finished, messages_snapshot, approval_request, Config,
  RunAgentInput, Interrupt, RequestedInput, hand_back, AgentEvent, AgentCall, Store, World, Outcome,
  Out, resolve_approval_mode, emit_status_delta, session_state_to_map, schema_to_map,
}
use adk_go_pkg.Aguiadk.Bridge.Resume.{args_text}
use adk_go_pkg.Aguiadk.Bridge.Loop.{
  Ended, agent_failed, unconverged, paused, exhausted, extract_pending_tool_calls,
}

-- `reverse (map f xs) ++ out`
unfoldable pub push_all : {A B : Type 0} → (A → B) → List A → List B → List B
push_all f [] out = out
push_all f (x ∷ xs) out = push_all f xs (f x ∷ out)

module _ (B : BridgeEnv) where
  abbrev T : Type 0
  T = State B.env

  abbrev Pending : Type 0
  Pending = PendingToolCall (B.env.Value)

  -- The translator's events behind those that the run has sent before.
  unfoldable pub sent : List (Option Bytes × Event B.env) → Out B → Out B
  sent [] out = out
  sent ((a, e) ∷ es) out = streamed a e ∷ sent es out

  abbrev pub usage : T → List TokenUsage
  usage t = aggregate_token_usage t.usage_entries

  unfoldable pub add_messages_snapshot : Config B → World B → Out B → Out B
  unfolding session_events_to_messages
  add_messages_snapshot cfg w out =
      if cfg.emit_messages_snapshot
      then (elim w.refreshed [
        | none ↦ out
        | some evs ↦ messages_snapshot (session_events_to_messages B.env evs) ∷ out
      ])
      else out

  -- A run that ends without an interrupt because of a long-running tool: the client takes over.
  unfoldable pub hand_over : Config B → World B → RunAgentInput B → T → Out B → Out B
  unfolding emit_status_delta add_messages_snapshot close_all
  hand_over cfg w input t out =
      let t' = close_all B.env t in
      run_finished input.thread_id input.run_id (usage t') none
      ∷ emit_status_delta B cfg (bytes "done") (add_messages_snapshot cfg w (sent t'.out out))

  abbrev pub to_save : World B → RunAgentInput B → Bytes → List Pending → PausedRun (Any B) B.Schema
  to_save w input session_id pending = record {
    thread_id = input.thread_id;
    run_id = input.run_id;
    session_id = session_id;
    pending = pending;
    requested_input = none;
    state = session_state_to_map B w.paused_state;
  }

  abbrev pub save_run : World B → RunAgentInput B → PausedRun (Any B) B.Schema → Store B → Store B
  save_run w input run s =
      save (run_key input.thread_id input.run_id) run w.save_time (w.before_save s)

  -- A run that asks for input.
  unfoldable pub await_input :
      Config B
      → World B
      → RunAgentInput B
      → AgentCall B
      → AgentEvent B
      → RequestedInput (Any B) B.Schema
      → T
      → Store B
      → Out B
      → Outcome B
  unfolding emit_status_delta add_messages_snapshot close_all session_state_to_map schema_to_map
  await_input cfg w input call ev ri t s out =
      let t' = close_all B.env t in
      let run = record (to_save w input call.session_id (extract_pending_tool_calls B ev)) {
        requested_input = some (record {
          interrupt_id = ri.interrupt_id;
          message = ri.message;
          response_schema = ri.response_schema;
          payload = ri.payload;
        });
      } in
      let interrupt : Interrupt (Any B) = record {
        id = ri.interrupt_id;
        reason = bytes "requested_input";
        message = ri.message;
        tool_call_id = [];
        response_schema = schema_to_map B ri.response_schema;
      } in
      record {
        out =
            run_finished input.thread_id input.run_id (usage t') (some (interrupt ∷ []))
            ∷ add_messages_snapshot cfg w
                (emit_status_delta B cfg (bytes "awaiting_input") (sent t'.out out));
        store = save_run w input run s;
        call = some call;
      }

  abbrev approval_schema : Map (Any B)
  approval_schema =
      (bytes "type", B.env.string_value (bytes "object"))
      ∷ (
        bytes "properties",
        B.map_value (
            (
              bytes "approved",
              B.map_value ((bytes "type", B.env.string_value (bytes "boolean")) ∷ []),
            )
            ∷ []),
      )
      ∷ (bytes "required", B.list_value (B.env.string_value (bytes "approved") ∷ []))
      ∷ []

  -- The text has a dash in UTF-8 before its last word.
  abbrev request_text : Pending → Bytes
  request_text p =
      bytes "Agent wants to call "
      ++ (p.name ++ (bytes " with " ++ (args_text B p ++ 32 ∷ 226 ∷ 128 ∷ 148 ∷ bytes " approve?")))

  unfoldable pub request_approvals : List Pending → ℕ → Out B → Out B
  request_approvals [] n out = out
  request_approvals (p ∷ ps) n out =
      request_approvals ps (suc n)
        (approval_request (B.env.gen_message_id n) (request_text p) ∷ out)

  abbrev interrupt_of : Pending → Interrupt (Any B)
  interrupt_of p = record {
    id = p.id;
    reason = bytes "tool_call";
    message = bytes "Approve " ++ (p.name ++ (bytes "(" ++ (args_text B p ++ bytes ")?")));
    tool_call_id = p.id;
    response_schema = some approval_schema;
  }

  unfoldable pub interrupts_of : List Pending → List (Interrupt (Any B))
  interrupts_of [] = []
  interrupts_of (p ∷ ps) = interrupt_of p ∷ interrupts_of ps

  -- A run that asks for approval of tool calls.
  unfoldable pub await_approval :
      Config B
      → World B
      → RunAgentInput B
      → AgentCall B
      → AgentEvent B
      → T
      → Store B
      → Out B
      → Outcome B
  unfolding emit_status_delta add_messages_snapshot close_all session_state_to_map request_approvals
      interrupts_of
  await_approval cfg w input call ev t s out =
      let t' = close_all B.env t in
      let pending = extract_pending_tool_calls B ev in
      record {
        out =
            run_finished input.thread_id input.run_id (usage t') (some (interrupts_of pending))
            ∷ add_messages_snapshot cfg w (
                emit_status_delta B cfg (bytes "awaiting_approval")
                  (request_approvals pending t'.generated (sent t'.out out)));
        store = save_run w input (to_save w input call.session_id pending) s;
        call = some call;
      }

  abbrev pub hands_back : Config B → Bool
  hands_back cfg = elim cfg.client_tools [
    | none ↦ false
    | some mode ↦ elim mode [ hand_back ↦ true | _ ↦ false ]
  ]

  -- `if len(adkEvent.LongRunningToolIDs) > 0`
  unfoldable pub pause :
      Config B
      → World B
      → RunAgentInput B
      → AgentCall B
      → AgentEvent B
      → T
      → Store B
      → Out B
      → Outcome B
  unfolding hand_over await_input await_approval resolve_approval_mode
  pause cfg w input call ev t s out =
      let over : Outcome B = record {
        out = hand_over cfg w input t out;
        store = s;
        call = some call;
      } in
      if hands_back cfg then over else (elim ev.requested_input [
        | some ri ↦ await_input cfg w input call ev ri t s out
        | none ↦
            if resolve_approval_mode B cfg w.request
            then over
            else await_approval cfg w input call ev t s out
      ])

  abbrev pub custom_events : Config B → T → List (Event B.env)
  custom_events cfg t = elim cfg.custom_event_emitter [
    | none ↦ []
    | some f ↦ f (length t.tool_call_details)
  ]

  -- The end of a run whose agent has no more events.
  unfoldable pub finish :
      Config B → World B → RunAgentInput B → AgentCall B → T → Store B → Out B → Outcome B
  unfolding emit_status_delta add_messages_snapshot close_all push_all
  finish cfg w input call t s out =
      let t' = close_all B.env t in
      record {
        out =
            run_finished input.thread_id input.run_id (usage t') none
            ∷ add_messages_snapshot cfg w (
                push_all (streamed none) (custom_events cfg t')
                  (emit_status_delta B cfg (bytes "done") (sent t'.out out)));
        store = s;
        call = some call;
      }

  -- The end of a run whose agent fails.
  unfoldable pub fail : Config B → RunAgentInput B → Bytes → T → Out B → Out B
  unfolding emit_status_delta close_all
  fail cfg input e t out =
      let t' = close_all B.env t in
      run_error (bytes "agent error: " ++ e) input.run_id (usage t')
      ∷ emit_status_delta B cfg (bytes "error") (sent t'.out out)

  abbrev turns_text : ℤ → Bytes
  turns_text (pos n) = decimal n
  turns_text (negsuc n) = bytes "-" ++ decimal (suc n)

  -- The end of a run with too many model turns.
  unfoldable pub give_up : Config B → World B → RunAgentInput B → T → Out B → Out B
  unfolding emit_status_delta add_messages_snapshot close_all
  give_up cfg w input t out =
      let t' = close_all B.env t in
      run_error
        (bytes "agent did not converge within "
          ++ (turns_text cfg.max_iterations ++ bytes " model turns"))
        input.run_id (usage t')
      ∷ add_messages_snapshot cfg w (emit_status_delta B cfg (bytes "error") (sent t'.out out))

  unfoldable pub end_run :
      Config B → World B → RunAgentInput B → AgentCall B → Store B → Out B → Ended B → Outcome B
  unfolding fail give_up pause finish
  end_run cfg w input call s out (agent_failed e t) = record {
    out = fail cfg input e t out;
    store = s;
    call = some call;
  }
  end_run cfg w input call s out (unconverged t) = record {
    out = give_up cfg w input t out;
    store = s;
    call = some call;
  }
  end_run cfg w input call s out (paused ev t) = pause cfg w input call ev t s out
  end_run cfg w input call s out (exhausted t) = finish cfg w input call t s out
