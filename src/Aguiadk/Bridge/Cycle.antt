-- ===== src/Aguiadk/Bridge/Cycle.antt =====
-- A run that pauses for approval, and the run that resumes it.
use adk_go_pkg.Base.{ℕ, true, false, Option, none, some, [], ◌∷◌, Bytes, ◌≡◌, refl, arith}
use adk_go_pkg.Base.Map.{Map, insert, unique, unique-insert}
use adk_go_pkg.Aguiadk.RunStore.{PausedRun, copy_state, load}
use adk_go_pkg.Aguiadk.Translator.{State}
use adk_go_pkg.Aguiadk.Bridge.{
  BridgeEnv, Any, Config, RunAgentInput, AgentCall, AgentEvent, Store, World, Out,
  resolve_approval_mode, session_state_to_map,
}
use adk_go_pkg.Aguiadk.Bridge.Loop.{extract_pending_tool_calls}
use adk_go_pkg.Aguiadk.Bridge.Endings.{hands_back, pause, await_approval, to_save, save_run}

unique-copy_state : {V : Type 0} (to m : Map V) → unique to ≡ true → unique (copy_state to m) ≡ true
unfolding copy_state
unique-copy_state to [] h = h
unique-copy_state to ((k, v) ∷ m) h = unique-copy_state (insert k v to) m (unique-insert k v to h)

module _ (B : BridgeEnv) where
  pub unique-session_state_to_map :
      (m : Option (Map (Any B))) → unique (session_state_to_map B m) ≡ true
  unfolding session_state_to_map unique
  unique-session_state_to_map none = refl
  unique-session_state_to_map (some m) = unique-copy_state [] m refl

  pub load_hit :
      (key : Bytes) (now : ℕ) (s : Store B) (run : PausedRun (Any B) B.Schema)
      → (load key now s).1 ≡ some run
      → load key now s ≡ (s, some run)
  unfolding load
  load_hit key now s run h = ground arith

  -- What a pause for approval leaves in the store.
  pub store-pause :
      (cfg : Config B) (w : World B) (input : RunAgentInput B) (call : AgentCall B)
      (ev : AgentEvent B) (t : State B.env) (s : Store B) (out : Out B)
      → hands_back B cfg ≡ false
      → ev.requested_input ≡ none
      → resolve_approval_mode B cfg w.request ≡ false
      → (pause B cfg w input call ev t s out).store
        ≡ save_run B w input (to_save B w input call.session_id (extract_pending_tool_calls B ev)) s
  unfolding pause await_approval
  store-pause cfg w input call ev t s out back asks mode = simp (back, asks, mode)
