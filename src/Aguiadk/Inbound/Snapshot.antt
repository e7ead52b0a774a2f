-- ===== src/Aguiadk/Inbound/Snapshot.antt =====
-- sessionEventsToMessages of aguiadk/bridge.go: the messages of a MESSAGES_SNAPSHOT.
use adk_go_pkg.Base.{
  not, ◌&&◌, Option, none, some, List, [], ◌∷◌, ◌++◌, Bytes, bytes, str_eq, is_empty, ◌||◌,
  if◌then◌else◌,
}
use adk_go_pkg.Base.Map.{Map}
use adk_go_pkg.Aguiadk.Translator.Events.{Env, Part}
use adk_go_pkg.Aguiadk.Inbound.{
  Role, user, assistant, tool, nothing, text_of, MessageCall, Message, SessionEvent,
}

-- roleForAuthor
unfoldable pub role_for_author : Bytes → Role
role_for_author author = if str_eq author (bytes "user") then user else assistant

-- authorNameForSnapshot
unfoldable pub author_name_for_snapshot : Bytes → Bytes
author_name_for_snapshot author =
    if is_empty author || (str_eq author (bytes "user") || str_eq author (bytes "model"))
    then []
    else author

-- What the loop over the parts of an event has collected: the text and the calls of one message,
-- and the messages of tools.
pub record Collected (V : Type 0) : Type 0 where
  pub text : Bytes
  pub calls : List MessageCall
  pub results : List (Message V)

module _ (env : Env) where
  open env use {Value, marshal}

  abbrev json_or_braces : Map Value → Bytes
  json_or_braces m = elim (marshal m) [ none ↦ bytes "{}" | some s ↦ s ]

  -- `{}` for nil arguments, and for those that do not marshal.
  unfoldable pub args_json : Option (Map Value) → Bytes
  args_json none = bytes "{}"
  args_json (some m) = json_or_braces m

  abbrev builtin_name : Bytes → Bytes
  builtin_name t = if is_empty t then bytes "builtin_tool" else t

  abbrev pub result_message : Bytes → Bytes → Map Value → Message Value
  result_message id name response = record {
    id = bytes "result-" ++ id;
    role = tool;
    content = text_of (json_or_braces response);
    tool_calls = [];
    tool_call_id = id;
    name = name;
  }

  unfoldable pub collect_text : Part Value → Collected Value → Collected Value
  collect_text p c =
      if not (is_empty p.text) && not p.thought then record c { text = c.text ++ p.text } else c

  unfoldable pub collect_call : Part Value → Collected Value → Collected Value
  unfolding args_json
  collect_call p c = elim p.function_call [
    | none ↦ c
    | some fc ↦ record c {
      calls = c.calls ++ record { id = fc.id; name = fc.name; arguments = args_json fc.args } ∷ [];
    }
  ]

  unfoldable pub collect_response : Part Value → Collected Value → Collected Value
  collect_response p c = elim p.function_response [
    | none ↦ c
    | some fr ↦ record c { results = c.results ++ result_message fr.id fr.name fr.response ∷ [] }
  ]

  unfoldable pub collect_tool_call : Part Value → Collected Value → Collected Value
  unfolding args_json
  collect_tool_call p c = elim p.tool_call [
    | none ↦ c
    | some tc ↦ record c {
      calls =
          c.calls
          ++ record { id = tc.id; name = builtin_name tc.tool_type; arguments = args_json tc.args }
            ∷ [];
    }
  ]

  unfoldable pub collect_tool_response : Part Value → Collected Value → Collected Value
  collect_tool_response p c = elim p.tool_response [
    | none ↦ c
    | some tr ↦ record c {
      results = c.results ++ result_message tr.id (builtin_name tr.tool_type) tr.response ∷ [];
    }
  ]

  -- The loop over the parts.
  unfoldable pub collect : List (Option (Part Value)) → Collected Value → Collected Value
  unfolding collect_text collect_call collect_response collect_tool_call collect_tool_response
  collect [] c = c
  collect (none ∷ ps) c = collect ps c
  collect (some p ∷ ps) c = collect ps (
      collect_tool_response p
        (collect_tool_call p (collect_response p (collect_call p (collect_text p c)))))

  -- The message with the text and the calls, if there are any.
  unfoldable pub main_message : SessionEvent Value → Collected Value → List (Message Value)
  unfolding role_for_author author_name_for_snapshot
  main_message ev c =
      let m : Message Value = record {
        id = ev.id;
        role = role_for_author ev.author;
        content = if is_empty c.text then nothing else text_of c.text;
        tool_calls = c.calls;
        tool_call_id = [];
        name = author_name_for_snapshot ev.author;
      } in
      elim c.calls [ [] ↦ if is_empty c.text then [] else m ∷ [] | _ ∷ _ ↦ m ∷ [] ]

  unfoldable pub event_messages : SessionEvent Value → List (Message Value)
  unfolding collect main_message
  event_messages ev = elim ev.content [
    | none ↦ []
    | some content ↦
        let c = collect content.parts (record { text = []; calls = []; results = [] }) in
        c.results ++ main_message ev c
  ]

  unfoldable pub session_events_to_messages : List (SessionEvent Value) → List (Message Value)
  unfolding event_messages
  session_events_to_messages [] = []
  session_events_to_messages (ev ∷ evs) = event_messages ev ++ session_events_to_messages evs
