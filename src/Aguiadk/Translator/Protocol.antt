-- ===== src/Aguiadk/Translator/Protocol.antt =====
-- The AG-UI protocol for messages, reasoning, steps and sub-agents, as a checker of event sequences
-- that knows nothing of the translator; and the order of START, ARGS and END of one tool call.
pub mod Text
pub mod Subagents
pub mod Tools
pub mod Parts
pub mod Runs
pub mod Closing
pub mod Echo
use adk_go_pkg.Base.{
  ℕ, ◌+◌, ◌-◌, ltb, Bool, true, false, ◌&&◌, not, Option, none, some, List, [], ◌∷◌, ◌++◌, Bytes,
  str_eq, is_empty, ◌≡◌, if◌then◌else◌,
}
use adk_go_pkg.Base.Map.{has_key}
use adk_go_pkg.Aguiadk.Translator.{State}
use adk_go_pkg.Aguiadk.Translator.Calls.{flag}
use adk_go_pkg.Aguiadk.Translator.Events.{
  Env, Event, text_start, text_content, text_end, reasoning_start, reasoning_message_start,
  reasoning_content, reasoning_message_end, reasoning_end, subagent_started, subagent_finished,
  subagent_error, step_started, step_finished, tool_call_start, tool_call_args, tool_call_end,
}

-- A reasoning block: REASONING_START, REASONING_MESSAGE_START, contents, REASONING_MESSAGE_END,
-- REASONING_END.
pub data Reasoning : Type 0 where
  quiet : Reasoning
  begun speaking spoken : Bytes → Reasoning

-- What is open.
pub record Protocol : Type 0 where
  pub message : Option Bytes
  pub reasoning : Reasoning
  pub step : Option Bytes
  pub subagent : Option Bytes

abbrev pub idle : Protocol
idle = record { message = none; reasoning = quiet; step = none; subagent = none }

-- The open thing, if it is the one named.
abbrev pub holds : Option Bytes → Bytes → Bool
holds none id = false
holds (some x) id = str_eq x id

abbrev pub is_begun : Reasoning → Bytes → Bool
is_begun (begun x) id = str_eq x id
is_begun _ id = false

abbrev pub is_speaking : Reasoning → Bytes → Bool
is_speaking (speaking x) id = str_eq x id
is_speaking _ id = false

abbrev pub is_spoken : Reasoning → Bytes → Bool
is_spoken (spoken x) id = str_eq x id
is_spoken _ id = false

abbrev pub is_quiet : Reasoning → Bool
is_quiet quiet = true
is_quiet _ = false

abbrev pub closed : Option Bytes → Bool
closed none = true
closed (some _) = false

abbrev pub require : Bool → Protocol → Option Protocol
require true p = some p
require false p = none

module _ {env : Env} where
  -- The protocol behind one event, or `none` if the event breaks it. A message and a reasoning
  -- block never overlap, contents belong to what is open and are not empty, what is ended is what
  -- was started, and nothing is started twice.
  abbrev pub accept : Event env → Protocol → Option Protocol
  accept (text_start id _) p =
      require (closed p.message && is_quiet p.reasoning) (record p { message = some id })
  accept (text_content id delta) p = require (holds p.message id && not (is_empty delta)) p
  accept (text_end id) p = require (holds p.message id) (record p { message = none })
  accept (reasoning_start id) p =
      require (closed p.message && is_quiet p.reasoning) (record p { reasoning = begun id })
  accept (reasoning_message_start id) p =
      require (is_begun p.reasoning id) (record p { reasoning = speaking id })
  accept (reasoning_content id delta) p =
      require (is_speaking p.reasoning id && not (is_empty delta)) p
  accept (reasoning_message_end id) p =
      require (is_speaking p.reasoning id) (record p { reasoning = spoken id })
  accept (reasoning_end id) p = require (is_spoken p.reasoning id) (record p { reasoning = quiet })
  accept (step_started name) p = require (closed p.step) (record p { step = some name })
  accept (step_finished name) p = require (holds p.step name) (record p { step = none })
  accept (subagent_started run _) p = require (closed p.subagent) (record p { subagent = some run })
  accept (subagent_finished run) p = require (holds p.subagent run) (record p { subagent = none })
  accept (subagent_error run _ _) p = require (holds p.subagent run) (record p { subagent = none })
  accept _ p = some p

  abbrev pub after : Option Protocol → Event env → Option Protocol
  after none e = none
  after (some p) e = accept e p

  -- The protocol behind a sequence of events, newest first.
  unfoldable pub check : List (Option Bytes × Event env) → Option Protocol
  check [] = some idle
  check ((_, e) ∷ out) = after (check out) e

  -- The text of the last message, and of the last reasoning block: its contents in order.
  unfoldable pub heard : List (Option Bytes × Event env) → Bytes
  heard [] = []
  heard ((_, text_start _ _) ∷ out) = []
  heard ((_, text_content _ delta) ∷ out) = heard out ++ delta
  heard (_ ∷ out) = heard out

  unfoldable pub pondered : List (Option Bytes × Event env) → Bytes
  pondered [] = []
  pondered ((_, reasoning_message_start _) ∷ out) = []
  pondered ((_, reasoning_content _ delta) ∷ out) = pondered out ++ delta
  pondered (_ ∷ out) = pondered out

  -- How often the tool call was started without being ended.
  unfoldable pub open_count : Bytes → List (Option Bytes × Event env) → ℕ
  open_count call [] = 0
  open_count call ((_, tool_call_start id _) ∷ out) =
      let n = open_count call out in if str_eq id call then n + 1 else n
  open_count call ((_, tool_call_end id) ∷ out) =
      let n = open_count call out in if str_eq id call then n - 1 else n
  open_count call (_ ∷ out) = open_count call out

  -- Whether the tool call was started.
  unfoldable pub was_started : Bytes → List (Option Bytes × Event env) → Bool
  was_started call [] = false
  was_started call ((_, tool_call_start id _) ∷ out) =
      if str_eq id call then true else was_started call out
  was_started call (_ ∷ out) = was_started call out

  -- Whether each ARGS and END of the tool call comes after a START of it.
  unfoldable pub owned : Bytes → List (Option Bytes × Event env) → Bool
  unfolding was_started
  owned call [] = true
  owned call ((_, tool_call_args id _) ∷ out) =
      let rest = owned call out in if str_eq id call then was_started call out && rest else rest
  owned call ((_, tool_call_end id) ∷ out) =
      let rest = owned call out in if str_eq id call then was_started call out && rest else rest
  owned call (_ ∷ out) = owned call out

  -- Whether each ARGS and END of the tool call comes while it is open.
  unfoldable pub strict : Bytes → List (Option Bytes × Event env) → Bool
  unfolding open_count
  strict call [] = true
  strict call ((_, tool_call_args id _) ∷ out) =
      let rest = strict call out in
      if str_eq id call then ltb 0 (open_count call out) && rest else rest
  strict call ((_, tool_call_end id) ∷ out) =
      let rest = strict call out in
      if str_eq id call then ltb 0 (open_count call out) && rest else rest
  strict call (_ ∷ out) = strict call out

  -- What the translator holds to be open.
  abbrev pub view : State env → Protocol
  view t = record {
    message = if t.msg_open then some t.current_msg_id else none;
    reasoning = if t.reasoning_open then speaking t.current_reasoning_id else quiet;
    step = if t.step_open then some t.step_name else none;
    subagent = if is_empty t.active_subagent_run then none else some t.active_subagent_run;
  }

  -- The events obey the protocol, and leave open what the translator holds to be open. This
  -- includes the tool call with the identifier `call`, whichever that is.
  pub record IsSound (call : Bytes) (t : State env) : Type 0 where
    pub obeys : check t.out ≡ some (view t)
    -- A sub-agent that is active was announced, and the author is recorded while one is.
    pub announced : t.subagent_emitted ≡ not (is_empty t.active_subagent_run)
    pub authored : is_empty t.active_subagent_run ≡ true → t.current_author ≡ []
    -- The text of what is open is what the next delta is taken over.
    pub echoed : t.msg_open ≡ true → heard t.out ≡ t.prev_text
    -- A call is open if and only if closeStreamedToolCalls would end it.
    pub tracked : open_count call t.out ≡ (if has_key call t.open_tools then 1 else 0)
    pub streamed : has_key call t.open_tools ≡ true → flag call t.started_tools ≡ true
    pub known : flag call t.started_tools ≡ true → was_started call t.out ≡ true
    pub owns : owned call t.out ≡ true
    -- A call that was not streamed gets arguments and ends only while it is open.
    pub in_order : flag call t.started_tools ≡ false → strict call t.out ≡ true
    pub mused : t.reasoning_open ≡ true → pondered t.out ≡ t.prev_thought_text
