-- ===== src/Aguiadk/Bridge/Answers.antt =====
-- What a resume with a decision for each call hands to the agent.
use adk_go_pkg.Base.{
  Bool, true, false, inr, Option, some, List, [], ◌∷◌, ◌++◌, bytes, ◌==◌, ◌≡◌, refl, arith, All,
}
use adk_go_pkg.Base.Map.{Map}
use adk_go_pkg.Aguiadk.RunStore.{PendingToolCall}
use adk_go_pkg.Aguiadk.RunStore.Approvals.{
  ResumeEntry, approvals_from_resume, Decided, IsNamed, NamesNone, Decided-IsNamed,
  undecided-NamesNone,
}
use adk_go_pkg.Aguiadk.Translator.{State}
use adk_go_pkg.Aguiadk.Translator.Events.{Part}
use adk_go_pkg.Aguiadk.Inbound.{Content, convert_inbound_messages, empty_part}
use adk_go_pkg.Aguiadk.Bridge.{
  BridgeEnv, Any, Config, RunAgentInput, AgentCall, AgentEvent, Session, Store, World, Out,
}
use adk_go_pkg.Aguiadk.Bridge.Resume.{
  Ready, Prepared, ready, prepare, count_undecided, decision, decision_parts, is_approved,
}
use adk_go_pkg.Aguiadk.Bridge.Loop.{Ended, agent_failed, unconverged, paused, exhausted}
use adk_go_pkg.Aguiadk.Bridge.Endings.{pause, await_input, await_approval, finish, end_run}
use adk_go_pkg.Aguiadk.Bridge.Run.{
  begin_out, drive, start_agent, continue_run, start_run, agent_call,
}

module _ (B : BridgeEnv) where
  -- What a decision tells the agent of a call: its arguments as the result, or that it was denied.
  abbrev pub told : Bool → PendingToolCall (Any B) → Map (Any B)
  told true p = (bytes "result", B.map_value p.args) ∷ []
  told false p =
      (bytes "denied", B.bool_value true)
      ∷ (bytes "reason", B.env.string_value (bytes "user did not approve this tool call"))
      ∷ []

  -- One function response for each call, in order, by the decision of the resume's entries.
  abbrev pub IsAnswered :
      List (ResumeEntry B.F)
      → List (PendingToolCall (Any B))
      → List (Option (Part (Any B)))
      → Type 0
  IsAnswered es [] [] = Unit
  IsAnswered es (p ∷ ps) (x ∷ xs) =
      ((d : Bool) × Decided B.resolved p.id es (some d)
        × (x
            ≡ some (record empty_part {
              function_response = some (record { id = p.id; name = p.name; response = told d p });
            })))
      × IsAnswered es ps xs
  IsAnswered es _ _ = ⊥

  -- The entries of the resume name every call.
  abbrev pub NamesAll : List (ResumeEntry B.F) → List (PendingToolCall (Any B)) → Type 0
  NamesAll es ps = All (λ p. IsNamed B.resolved p.id es) ps

  pub decision_parts-IsAnswered :
      (es : List (ResumeEntry B.F)) (ps : List (PendingToolCall (Any B)))
      → NamesAll es ps
      → IsAnswered es ps (decision_parts B (approvals_from_resume B.resolved es) ps)
  unfolding decision_parts decision is_approved
  decision_parts-IsAnswered es [] h = tt
  decision_parts-IsAnswered es (p ∷ ps) (h, hs) =
      let (d, r, l) = Decided-IsNamed B.resolved p.id es h in
      ((d, r, ground arith), decision_parts-IsAnswered es ps hs)

  pub all_decided :
      (es : List (ResumeEntry B.F)) (ps : List (PendingToolCall (Any B)))
      → NamesAll es ps
      → count_undecided B (approvals_from_resume B.resolved es) ps ≡ 0
  unfolding count_undecided
  all_decided es [] h = refl
  all_decided es (p ∷ ps) (h, hs) =
      let (d, r, l) = Decided-IsNamed B.resolved p.id es h in ground (arith, all_decided es ps hs)

  call-pause :
      (cfg : Config B) (w : World B) (input : RunAgentInput B) (call : AgentCall B)
      (ev : AgentEvent B) (t : State B.env) (s : Store B) (out : Out B)
      → (pause B cfg w input call ev t s out).call ≡ some call
  unfolding pause await_input await_approval
  call-pause cfg w input call ev t s out = ground arith

  call-end_run :
      (cfg : Config B) (w : World B) (input : RunAgentInput B) (call : AgentCall B) (s : Store B)
      (out : Out B) (e : Ended B)
      → (end_run B cfg w input call s out e).call ≡ some call
  unfolding end_run finish
  call-end_run cfg w input call s out (agent_failed e t) = refl
  call-end_run cfg w input call s out (unconverged t) = refl
  call-end_run cfg w input call s out (paused ev t) = call-pause cfg w input call ev t s out
  call-end_run cfg w input call s out (exhausted t) = refl

  -- The message of a request, without the history.
  abbrev pub message_of : Config B → RunAgentInput B → Content (Any B)
  message_of cfg input = (convert_inbound_messages B.env B.sdk cfg.provider input.messages).0

  call-start_agent :
      (cfg : Config B) (w : World B) (input : RunAgentInput B) (session : Session (Any B))
      (msg : Content (Any B)) (out : Out B) (r : Ready B) (p : Prepared B)
      → p ≡ ready r
      → (start_agent B cfg w input session msg out p).call ≡ some (agent_call B input session msg r)
  unfolding start_agent drive
  call-start_agent cfg w input session msg out r p h = rw h (call-end_run cfg w input _ _ _ _)

  pub call-start_run :
      (cfg : Config B) (w : World B) (input : RunAgentInput B) (session : Session (Any B))
      (s : Store B) (r : Ready B)
      → w.starts ≡ true
      → (session.events_len == 0) ≡ false
      → prepare B w input s (begin_out B cfg input session) ≡ ready r
      → (start_run B cfg w input s (inr session)).call
        ≡ some (agent_call B input session (message_of cfg input) r)
  unfolding start_run continue_run
  call-start_run cfg w input session s r h seeded p =
      let out = begin_out B cfg input session in
      ground (
        arith,
        call-start_agent cfg w input session (message_of cfg input) out r (prepare B w input s out)
            p,
      )

  -- A call that no entry names is undecided.
  pub one_undecided :
      (es : List (ResumeEntry B.F)) (before after : List (PendingToolCall (Any B)))
      (p : PendingToolCall (Any B))
      → NamesNone B.resolved p.id es
      → (count_undecided B (approvals_from_resume B.resolved es) (before ++ p ∷ after) == 0) ≡ false
  unfolding count_undecided
  one_undecided es [] after p h = ground (arith, undecided-NamesNone B.resolved p.id es h)
  one_undecided es (q ∷ before) after p h = ground (arith, one_undecided es before after p h)
