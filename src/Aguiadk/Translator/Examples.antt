-- ===== src/Aguiadk/Translator/Examples.antt =====
-- The translator on a small run of a root agent and a sub-agent: tests, and uses of the theorems.
use adk_go_pkg.Base.{
  ◌||◌, ℕ, zero, suc, Bool, true, false, none, some, List, [], ◌∷◌, Bytes, bytes, is_empty, str_eq,
  has_prefix, after_prefix, ◌≡◌, refl,
}
use adk_go_pkg.Aguiadk.Translator.{Config, new_state, emit_text, emit_thought}
use adk_go_pkg.Aguiadk.Translator.Events.{Env, text_start, text_content, Part, AdkEvent}
use adk_go_pkg.Aguiadk.Translator.Run.{translate_all, close_all}
use adk_go_pkg.Aguiadk.Translator.Calls.{flag}
use adk_go_pkg.Aguiadk.Translator.Protocol.{
  idle, check, IsSound, heard, pondered, open_count, owned, strict,
}
use adk_go_pkg.Aguiadk.Translator.Protocol.Subagents.{NamesRuns}
use adk_go_pkg.Aguiadk.Translator.Protocol.Runs.{translate_all-IsSound}
use adk_go_pkg.Aguiadk.Translator.Protocol.Echo.{extended, heard-emit_text, pondered-emit_thought}
use adk_go_pkg.Aguiadk.Translator.Protocol.Closing.{run_balanced}

-- Values are numbers, and identifiers are letters in a row.
abbrev count_ids : Bytes → ℕ → Bytes
count_ids prefix zero = prefix
count_ids prefix (suc n) = b'+' ∷ count_ids prefix n

abbrev small : Env
small = record {
  Value = ℕ;
  Patch = Bytes × Bytes × ℕ;
  Metadata = ℕ;
  marshal = λ m. some (bytes "{}");
  quote = λ s. s;
  patch_op = λ op path v. (op, path, v);
  string_value = λ s. 0;
  gen_message_id = count_ids (bytes "msg");
  gen_tool_call_id = count_ids (bytes "call");
  base64 = λ s. s;
}

small-NamesRuns : NamesRuns small
unfolding is_empty
small-NamesRuns zero = refl
small-NamesRuns (suc n) = refl

abbrev settings : Config small
settings = record {
  suppress_tools = false;
  tool_to_state_mapper = none;
  emit_steps = true;
  emit_activity_deltas = false;
  client_tools = none;
  root_agent_name = bytes "root";
}

abbrev part_of : Bool → Bytes → Part ℕ
part_of thought text = record {
  thought = thought;
  text = text;
  thought_signature = [];
  function_call = none;
  function_response = none;
  tool_call = none;
  tool_response = none;
  file_data = none;
  inline_data = none;
  executable_code = none;
  code_execution_result = none;
}

abbrev event_of : Bytes → Bool → Part ℕ → AdkEvent small
event_of author partial part = record {
  author = author;
  partial = partial;
  usage_metadata = none;
  model_version = [];
  state_delta = [];
  content = some (some part ∷ []);
  error_code = [];
  error_message = [];
  citation_metadata = none;
  grounding_metadata = none;
}

-- A thought and two accumulated texts of the root agent, then a text of a sub-agent.
abbrev run : List (AdkEvent small)
run =
    event_of (bytes "root") true (part_of true (bytes "hm"))
    ∷ event_of (bytes "root") true (part_of false (bytes "Hel"))
    ∷ event_of (bytes "root") true (part_of false (bytes "Hello"))
    ∷ event_of (bytes "helper") true (part_of false (bytes "Hi"))
    ∷ []

translate_all-IsSound_example :
    IsSound (bytes "call") (translate_all small settings run (new_state small))
translate_all-IsSound_example =
    translate_all-IsSound small (bytes "call") settings run small-NamesRuns

run_balanced_example :
    let t = translate_all small settings run (new_state small) in
    (check (close_all small t).out ≡ some idle)
    × ((call : Bytes)
        → (open_count call (close_all small t).out ≡ 0)
          × (owned call (close_all small t).out ≡ true)
          × ((flag call t.started_tools || strict call (close_all small t).out) ≡ true))
run_balanced_example = run_balanced small settings run small-NamesRuns

new-IsSound : IsSound [] (new_state small)
unfolding translate_all
new-IsSound = translate_all-IsSound small [] settings [] small-NamesRuns

heard-emit_text_example :
    heard (emit_text small settings (bytes "Hello") true (bytes "root") (new_state small)).out
    ≡ extended (bytes "Hello") []
heard-emit_text_example =
    heard-emit_text small settings (bytes "Hello") true (bytes "root") {t = new_state small}
      new-IsSound

pondered-emit_thought_example :
    pondered (emit_thought small (bytes "hm") (bytes "sig") false (new_state small)).out
    ≡ extended (bytes "hm") []
pondered-emit_thought_example =
    pondered-emit_thought small (bytes "hm") (bytes "sig") false {t = new_state small} new-IsSound

-- What two partial texts send, newest first: the second sends what the first did not.
deltas :
    (translate_all small settings
      (event_of (bytes "root") true (part_of false (bytes "Hel"))
        ∷ event_of (bytes "root") true (part_of false (bytes "Hello"))
        ∷ [])
      (new_state small)).out
    ≡ (none, text_content (bytes "msg") (bytes "lo"))
      ∷ (none, text_content (bytes "msg") (bytes "Hel"))
      ∷ (none, text_start (bytes "msg") [])
      ∷ []
unfolding translate_all is_empty has_prefix str_eq after_prefix
deltas = refl
