-- ===== src/Aguiadk/Bridge.antt =====
-- aguiadk/bridge.go, the bridge: the types of runInternal, and what it takes from outside. `out`
-- is what a run hands to the emitter, newest first.
pub mod Resume
pub mod Loop
pub mod Endings
pub mod Run
pub mod Invariant
pub mod Ending
pub mod Balance
pub mod Rejection
pub mod Answers
pub mod Cycle
pub mod Turns
mod Examples
use adk_go_pkg.Base.{
  ℕ, zero, suc, Bool, true, false, ◌⊎◌, Option, none, some, List, [], ◌∷◌, ◌++◌, Bytes, bytes,
  is_empty, if◌then◌else◌,
}
use adk_go_pkg.Base.Int.{ℤ, pos, negsuc}
use adk_go_pkg.Base.Map.{Map, insert}
use adk_go_pkg.Value.{Value}
use adk_go_pkg.Agui.TokenUsage.{TokenUsage}
use adk_go_pkg.Aguiadk.RunStore.{RunStore, copy_state}
use adk_go_pkg.Aguiadk.RunStore.Approvals.{ResumeEntry}
use adk_go_pkg.Aguiadk.Translator.{State, Config as TranslatorConfig}
use adk_go_pkg.Aguiadk.Translator.Events.{Env, Event, state_delta, AdkEvent}
use adk_go_pkg.Aguiadk.Inbound.{Sdk, Message, Content, SessionEvent}

pub record BridgeEnv : Type 1 where
  pub env : Env
  pub sdk : Sdk env
  -- float64, the schemas of the jsonschema package, and HTTP requests.
  pub F : Type 0
  pub Schema : Type 0
  pub HttpRequest : Type 0
  -- Values of several types as Go's `any`.
  pub json_value : Value F → env.Value
  pub bool_value : Bool → env.Value
  pub map_value : Map env.Value → env.Value
  pub list_value : List env.Value → env.Value
  -- json.Marshal of a schema
  pub marshal_schema : Schema → Option Bytes
  -- The status "resolved" of a resume entry.
  pub resolved : Bytes

pub data ClientToolMode : Type 0 where
  next_run inline hand_back : ClientToolMode

pub record Interrupt (V : Type 0) : Type 0 where
  pub id : Bytes
  pub reason : Bytes
  pub message : Bytes
  pub tool_call_id : Bytes
  pub response_schema : Option (Map V)

pub data InputState (V : Type 0) : Type 0 where
  no_state : InputState V
  map_state : Map V → InputState V
  any_state : V → InputState V

-- session.RequestInput
pub record RequestedInput (V S : Type 0) : Type 0 where
  pub interrupt_id : Bytes
  pub message : Bytes
  pub response_schema : Option S
  pub payload : V

pub record Session (V : Type 0) : Type 0 where
  pub id : Bytes
  -- `none` is a nil State.
  pub state : Option (Map V)
  pub events_len : ℕ

module _ (B : BridgeEnv) where
  open B use {env, F, Schema, HttpRequest}

  abbrev pub Any : Type 0
  Any = B.env.Value

  -- The events of the translator and of the run's replays, those of a run's life, and snapshots.
  pub data BridgeEvent : Type 0 where
    streamed : Option Bytes → Event B.env → BridgeEvent
    run_started : Bytes → Bytes → BridgeEvent
    -- message, run and usage
    run_error : Bytes → Bytes → List TokenUsage → BridgeEvent
    -- thread, run, usage, and the interrupts of an interrupt outcome
    run_finished :
        Bytes → Bytes → List TokenUsage → Option (List (Interrupt B.env.Value)) → BridgeEvent
    state_snapshot : Map B.env.Value → BridgeEvent
    messages_snapshot : List (Message B.env.Value) → BridgeEvent
    -- message, and the text of an "approval_request" activity
    approval_request : Bytes → Bytes → BridgeEvent

  pub record Config : Type 0 where
    pub app_name : Bytes
    pub app_name_func : Option (B.HttpRequest → Bytes)
    pub user_id : Bytes
    pub user_id_func : Option (B.HttpRequest → Bytes)
    pub approval_mode_func : Option (B.HttpRequest → Bool)
    pub emit_state_snapshot : Option Bool
    pub emit_state_status : Bool
    pub emit_messages_snapshot : Bool
    pub emit_step_events : Option Bool
    pub emit_activity_deltas : Bool
    pub client_tools : Option ClientToolMode
    pub suppress_tool_events : Bool
    pub tool_to_state_mapper :
        Option (Bytes → Option (Map B.env.Value) → Option (List B.env.Patch) × Bool)
    pub max_iterations : ℤ
    -- What the callback emits, given the count of tool calls.
    pub custom_event_emitter : Option (ℕ → List (Event B.env))
    pub agent_name : Bytes
    pub provider : Bytes

  -- types.RunAgentInput; of the tools, their names.
  pub record RunAgentInput : Type 0 where
    pub thread_id : Bytes
    pub run_id : Bytes
    pub messages : List (Message B.env.Value)
    pub resume : List (ResumeEntry B.F)
    pub state : InputState B.env.Value
    pub tools : List Bytes
    pub parent_run_id : Option Bytes
    pub context : List B.env.Value
    pub forwarded_props : Option B.env.Value

  -- An event of the agent, with the fields that runInternal reads.
  pub record AgentEvent : Type 0 where
    pub event : AdkEvent B.env
    pub turn_complete : Bool
    pub long_running_tool_ids : List Bytes
    pub requested_input : Option (RequestedInput B.env.Value B.Schema)

  -- One round of the loop over runner.Run: an error, a nil event, or an event.
  pub data Item : Type 0 where
    failed : Bytes → Item
    skipped : Item
    yielded : AgentEvent → Item

  -- What runner.Run is called with: the session, the message, and a state delta per option.
  pub record AgentCall : Type 0 where
    pub session_id : Bytes
    pub message : Content B.env.Value
    pub state_deltas : List (Map B.env.Value)

  abbrev pub Store : Type 0
  Store = RunStore B.env.Value B.Schema

  -- What a run meets outside: the session service, the agent, the channel, the clock, and the
  -- requests that use the store of paused runs at the same time.
  pub record World : Type 0 where
    pub request : Option B.HttpRequest
    -- SessionManager.Resolve of thread, application and user, at the start; and the events of
    -- the session that it gives after the agent ran.
    pub resolve : Bytes → Bytes → Bytes → Bytes ⊎ Session B.env.Value
    pub refreshed : Option (List (SessionEvent B.env.Value))
    -- Whether the channel takes RUN_STARTED.
    pub starts : Bool
    -- AppendEvent: `some` is an error.
    pub append_event : SessionEvent B.env.Value → Option Bytes
    pub agent : AgentCall → List Item
    -- The session's state when a run pauses.
    pub paused_state : Option (Map B.env.Value)
    pub load_time : ℕ
    pub claim_time : ℕ
    pub save_time : ℕ
    -- What other requests do to the store between the peek and the claim, and before the save.
    pub before_claim : Store → Store
    pub before_save : Store → Store

  pub record Outcome : Type 0 where
    pub out : List BridgeEvent
    pub store : Store
    -- `none`: the agent was not run.
    pub call : Option AgentCall

  abbrev pub Out : Type 0
  Out = List BridgeEvent

  -- emitStateSnapshot
  unfoldable pub emits_state_snapshot : Config → Bool
  emits_state_snapshot cfg = elim cfg.emit_state_snapshot [ none ↦ true | some b ↦ b ]

  unfoldable pub resolve_app_name : Config → Option B.HttpRequest → Bytes
  resolve_app_name cfg r = elim cfg.app_name_func [
    | none ↦ if is_empty cfg.app_name then bytes "default" else cfg.app_name
    | some f ↦ elim r [
      | none ↦ if is_empty cfg.app_name then bytes "default" else cfg.app_name
      | some q ↦ f q
    ]
  ]

  unfoldable pub resolve_user_id : Config → Option B.HttpRequest → Bytes
  resolve_user_id cfg r = elim cfg.user_id_func [
    | none ↦ if is_empty cfg.user_id then bytes "anonymous" else cfg.user_id
    | some f ↦ elim r [
      | none ↦ if is_empty cfg.user_id then bytes "anonymous" else cfg.user_id
      | some q ↦ f q
    ]
  ]

  unfoldable pub resolve_approval_mode : Config → Option B.HttpRequest → Bool
  resolve_approval_mode cfg r = elim cfg.approval_mode_func [
    | none ↦ false
    | some f ↦ elim r [ none ↦ false | some q ↦ f q ]
  ]

  unfoldable pub emit_status_delta : Config → Bytes → Out → Out
  emit_status_delta cfg status out =
      if cfg.emit_state_status
      then streamed none (
          state_delta
            (B.env.patch_op (bytes "replace") (bytes "/status") (B.env.string_value status) ∷ []))
        ∷ out
      else out

  -- sessionStateToMap
  unfoldable pub session_state_to_map : Option (Map Any) → Map Any
  session_state_to_map none = []
  session_state_to_map (some m) = copy_state [] m

  -- schemaToMap
  unfoldable pub schema_to_map : Option B.Schema → Option (Map Any)
  schema_to_map none = none
  schema_to_map (some s) = elim (B.marshal_schema s) [
    | none ↦ none
    | some text ↦ elim (B.sdk.unmarshal text) [ none ↦ none | some m ↦ m ]
  ]
