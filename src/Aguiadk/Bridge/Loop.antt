-- ===== src/Aguiadk/Bridge/Loop.antt =====
-- runInternal of aguiadk/bridge.go, the loop over the events of the agent; and
-- extractPendingToolCalls.
use adk_go_pkg.Base.{
  ℕ, suc, Bool, true, false, ◌&&◌, not, Option, none, some, List, [], ◌∷◌, Bytes, str_eq, ltb,
  if◌then◌else◌,
}
use adk_go_pkg.Base.Int.{ℤ, pos, negsuc}
use adk_go_pkg.Base.Map.{Map}
use adk_go_pkg.Aguiadk.RunStore.{PendingToolCall, copy_state}
use adk_go_pkg.Aguiadk.Translator.{State, Config as TranslatorConfig}
use adk_go_pkg.Aguiadk.Translator.Events.{Part}
use adk_go_pkg.Aguiadk.Translator.Run.{translate, parts_of}
use adk_go_pkg.Aguiadk.Bridge.{
  BridgeEnv, Any, Config, RunAgentInput, AgentEvent, Item, failed, skipped, yielded,
}

unfoldable pub mem : Bytes → List Bytes → Bool
mem x [] = false
mem x (y ∷ ys) = if str_eq y x then true else mem x ys

abbrev pub is_none : List Bytes → Bool
is_none [] = true
is_none (_ ∷ _) = false

-- `max > 0 && turns > max`
unfoldable pub exceeds : ℤ → ℕ → Bool
exceeds (pos m) turns = ltb 0 m && ltb m turns
exceeds (negsuc _) turns = false

module _ (B : BridgeEnv) where
  abbrev nil_args : Option (Map (Any B)) → Map (Any B)
  nil_args none = []
  nil_args (some m) = m

  unfoldable pub pending_of :
      List Bytes → List (Option (Part (Any B))) → List (PendingToolCall (Any B))
  unfolding mem
  pending_of ids [] = []
  pending_of ids (none ∷ ps) = pending_of ids ps
  pending_of ids (some p ∷ ps) =
      let rest = pending_of ids ps in
      elim p.function_call [
        | none ↦ rest
        | some fc ↦
            if mem fc.id ids
            then record { id = fc.id; name = fc.name; args = copy_state [] (nil_args fc.args) }
              ∷ rest
            else rest
      ]

  -- extractPendingToolCalls
  unfoldable pub extract_pending_tool_calls : AgentEvent B → List (PendingToolCall (Any B))
  unfolding pending_of parts_of
  extract_pending_tool_calls ev = pending_of ev.long_running_tool_ids (parts_of B.env ev.event)

  -- The set of the names of the tools, without empty names.
  unfoldable pub name_set : List Bytes → Map (Unit {0})
  name_set [] = []
  name_set (t ∷ ts) = elim t [ [] ↦ name_set ts | c ∷ cs ↦ (c ∷ cs, tt) ∷ name_set ts ]

  unfoldable pub client_tool_names : Config B → RunAgentInput B → Option (Map (Unit {0}))
  unfolding name_set
  client_tool_names cfg input = elim cfg.client_tools [
    | none ↦ none
    | some _ ↦ if is_none input.tools then none else some (name_set input.tools)
  ]

  unfoldable pub translator_config : Config B → RunAgentInput B → TranslatorConfig B.env
  unfolding client_tool_names
  translator_config cfg input = record {
    suppress_tools = cfg.suppress_tool_events;
    tool_to_state_mapper = cfg.tool_to_state_mapper;
    emit_steps = elim cfg.emit_step_events [ none ↦ false | some b ↦ b ];
    emit_activity_deltas = cfg.emit_activity_deltas;
    client_tools = client_tool_names cfg input;
    root_agent_name = cfg.agent_name;
  }

  -- Why the loop ended, and the translator there.
  pub data Ended : Type 0 where
    agent_failed : Bytes → State B.env → Ended
    unconverged : State B.env → Ended
    paused : AgentEvent B → State B.env → Ended
    exhausted : State B.env → Ended

  -- The last event of a model turn.
  abbrev pub ends_turn : AgentEvent B → Bool
  ends_turn ev = not ev.event.partial && ev.turn_complete

  unfoldable pub run_loop : TranslatorConfig B.env → ℤ → List (Item B) → ℕ → State B.env → Ended
  unfolding translate exceeds
  run_loop cfg max [] turns t = exhausted t
  run_loop cfg max (failed e ∷ items) turns t = agent_failed e t
  run_loop cfg max (skipped ∷ items) turns t = run_loop cfg max items turns t
  run_loop cfg max (yielded ev ∷ items) turns t =
      let t' = translate B.env cfg ev.event t in
      let turns' = if ends_turn ev then suc turns else turns in
      let rest = run_loop cfg max items turns' t' in
      if ends_turn ev && exceeds max turns'
      then unconverged t'
      else if is_none ev.long_running_tool_ids
      then rest
      else paused ev t'
