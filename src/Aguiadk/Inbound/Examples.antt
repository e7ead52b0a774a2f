-- ===== src/Aguiadk/Inbound/Examples.antt =====
-- A history with a call of a tool, over a small JSON: an object has one field at most.
use adk_go_pkg.Base.{
  Option, none, some, List, [], ◌∷◌, ◌++◌, Bytes, bytes, str_eq, is_empty, decimal, if◌then◌else◌,
  ◌≡◌, refl,
}
use adk_go_pkg.Aguiadk.Translator.Events.{Env}
use adk_go_pkg.Aguiadk.Inbound.{
  text_of, assistant, system, Message, MessageContent, Sdk, convert_inbound_messages,
}
use adk_go_pkg.Aguiadk.Inbound.Snapshot.{session_events_to_messages}
use adk_go_pkg.Aguiadk.Inbound.RoundTrip.{
  Turn, said, answered, returned, message_of, messages_of, renamed, IsDocumented,
  snapshot_of_history,
}

abbrev small_env : Env
small_env = record {
  Value = Bytes;
  Patch = Bytes;
  Metadata = Bytes;
  marshal =
      λ m. elim m [ [] ↦ some (bytes "{}") | e ∷ _ ↦ some (bytes "{a:" ++ (e.1 ++ bytes "}")) ];
  quote = λ s. s;
  base64 = λ s. s;
  patch_op = λ op path v. v;
  string_value = λ s. s;
  gen_message_id = λ n. bytes "m" ++ decimal n;
  gen_tool_call_id = λ n. bytes "t" ++ decimal n;
}

abbrev small_text : MessageContent Bytes → Option Bytes
small_text (text_of s) = some s
small_text _ = none

abbrev small_sdk : Sdk small_env
small_sdk = record {
  content_string = small_text;
  content_inputs = λ _. none;
  unmarshal = λ s.
      if str_eq s (bytes "{a:7}")
      then some (some ((bytes "a", bytes "7") ∷ []))
      else if str_eq s (bytes "{}")
      then some (some [])
      else none;
  marshal_value = λ v. some v;
  format_value = λ v. v;
  decode64 = λ s. some s;
  new_event_id = λ n. bytes "e" ++ decimal n;
}

small_sdk-IsDocumented : IsDocumented small_env small_sdk
small_sdk-IsDocumented = record { text_content = λ s. refl; no_content = refl }

abbrev history : List (Bytes × Turn)
history =
    (bytes "1", said (bytes "add"))
    ∷ (
      bytes "2",
      answered [] (record { id = bytes "c"; name = bytes "sum"; arguments = bytes "{a:7}" } ∷ []),
    )
    ∷ (bytes "3", returned (bytes "c") (bytes "sum") (bytes "{}"))
    ∷ (bytes "4", answered (bytes "done") [])
    ∷ []

snapshot_of_history_example :
    session_events_to_messages small_env
      (convert_inbound_messages small_env small_sdk [] (
        messages_of small_env small_sdk history
        ++ message_of small_env small_sdk (bytes "5") (said (bytes "more")) ∷ [])).1
    ≡ renamed small_env small_sdk 0 history
unfolding is_empty str_eq
snapshot_of_history_example =
    snapshot_of_history small_env small_sdk small_sdk-IsDocumented [] history (bytes "5")
      (bytes "more")
      (
        refl,
        (
          (refl, ((refl, ((bytes "a", bytes "7") ∷ [], (refl, refl))), tt)),
          (([], (refl, refl)), ((refl, tt), tt)),
        ),
      )

abbrev system_message : Message Bytes
system_message = record {
  id = bytes "1";
  role = system;
  content = text_of (bytes "rules");
  tool_calls = [];
  tool_call_id = [];
  name = [];
}

-- A system message comes back as one of the assistant, named "system".
system_comes_back_as_assistant :
    session_events_to_messages small_env
      (convert_inbound_messages small_env small_sdk []
        (system_message ∷ message_of small_env small_sdk (bytes "2") (said (bytes "hi")) ∷ [])).1
    ≡ record system_message { id = bytes "e0"; role = assistant; name = bytes "system" } ∷ []
unfolding session_events_to_messages convert_inbound_messages decimal str_eq is_empty
system_comes_back_as_assistant = refl
