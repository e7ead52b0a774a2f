-- ===== src/Aguiadk/Bridge/Examples.antt =====
-- A run that pauses for approval of a call, and what may follow it.
use adk_go_pkg.Base.{
  ℕ, true, false, inr, Option, none, some, List, [], ◌∷◌, ◌++◌, Bytes, bytes, decimal,
  if◌then◌else◌, ◌≡◌, refl, arith, is_empty, str_eq,
}
use adk_go_pkg.Base.Int.{pos}
use adk_go_pkg.Base.Map.{lookup, insert, delete, has_key}
use adk_go_pkg.Value.{Value}
use adk_go_pkg.Aguiadk.RunStore.{
  PendingToolCall, PausedRun, copy_state, load, save, load_and_delete, run_key,
}
use adk_go_pkg.Aguiadk.RunStore.Approvals.{ResumeEntry, approvals_from_resume}
use adk_go_pkg.Aguiadk.Translator.{State, new_state}
use adk_go_pkg.Aguiadk.Translator.Events.{Env, AdkEvent, Part}
use adk_go_pkg.Aguiadk.Translator.Protocol.{idle, check, open_count, owned}
use adk_go_pkg.Aguiadk.Translator.Protocol.Subagents.{NamesRuns}
use adk_go_pkg.Aguiadk.Inbound.{text_of, MessageContent, empty_part, text_part}
use adk_go_pkg.Aguiadk.Bridge.{
  BridgeEnv, Config, RunAgentInput, no_state, Session, AgentEvent, AgentCall, Item, yielded,
  skipped, Store, World, resolve_approval_mode,
}
use adk_go_pkg.Aguiadk.Bridge.Resume.{Ready, refused, gone, prepare, count_undecided, settled}
use adk_go_pkg.Aguiadk.Bridge.Loop.{run_loop, extract_pending_tool_calls, translator_config}
use adk_go_pkg.Aguiadk.Bridge.Endings.{pause}
use adk_go_pkg.Aguiadk.Bridge.Run.{run_internal, state_deltas}
use adk_go_pkg.Aguiadk.Bridge.Ending.{IsWholeRun, resolution, run_internal_ends}
use adk_go_pkg.Aguiadk.Bridge.Balance.{body, run_internal_balanced}
use adk_go_pkg.Aguiadk.Bridge.Rejection.{partial_resume_keeps_run, resumes_once}
use adk_go_pkg.Aguiadk.Bridge.Turns.{turns_of, run_loop_stops}

abbrev small : Env
small = record {
  Value = Bytes;
  Patch = Bytes × Bytes × Bytes;
  Metadata = ℕ;
  marshal = λ m. some (bytes "{}");
  quote = λ s. s;
  base64 = λ s. s;
  patch_op = λ op path v. (op, path, v);
  string_value = λ s. s;
  gen_message_id = λ n. b'm' ∷ decimal n;
  gen_tool_call_id = λ n. b't' ∷ decimal n;
}

abbrev text_content : MessageContent Bytes → Option Bytes
text_content (text_of s) = some s
text_content _ = none

abbrev B : BridgeEnv
B = record {
  env = small;
  sdk = record {
    content_string = text_content;
    content_inputs = λ _. none;
    unmarshal = λ s. none;
    marshal_value = λ v. some v;
    format_value = λ v. v;
    decode64 = λ s. some s;
    new_event_id = λ n. decimal n;
  };
  F = ℕ;
  Schema = ℕ;
  HttpRequest = Unit {0};
  json_value = λ v. [];
  bool_value = λ b. if b then bytes "true" else bytes "false";
  map_value = λ m. [];
  list_value = λ xs. [];
  marshal_schema = λ s. none;
  resolved = bytes "resolved";
}

abbrev settings : Config B
settings = record {
  app_name = [];
  app_name_func = none;
  user_id = [];
  user_id_func = none;
  approval_mode_func = none;
  emit_state_snapshot = none;
  emit_state_status = true;
  emit_messages_snapshot = true;
  emit_step_events = some true;
  emit_activity_deltas = false;
  client_tools = none;
  suppress_tool_events = false;
  tool_to_state_mapper = none;
  max_iterations = pos 2;
  custom_event_emitter = none;
  agent_name = bytes "root";
  provider = [];
}

abbrev event_of : Part Bytes → AdkEvent small
event_of p = record {
  author = bytes "helper";
  partial = false;
  usage_metadata = none;
  model_version = [];
  state_delta = [];
  content = some (some p ∷ []);
  error_code = [];
  error_message = [];
  citation_metadata = none;
  grounding_metadata = none;
}

abbrev says : AgentEvent B
says = record {
  event = event_of (text_part (bytes "hi"));
  turn_complete = true;
  long_running_tool_ids = [];
  requested_input = none;
}

-- A call that needs an approval.
abbrev asks : AgentEvent B
asks = record {
  event = event_of (record empty_part {
    function_call = some (record {
      id = bytes "c1";
      name = bytes "pay";
      args = some ((bytes "sum", bytes "9") ∷ []);
      partial_args = [];
    });
  });
  turn_complete = true;
  long_running_tool_ids = bytes "c1" ∷ [];
  requested_input = none;
}

abbrev call_part : Bytes → Part Bytes
call_part id = record empty_part {
  function_call = some (record {
    id = id;
    name = bytes "pay";
    args = some ((bytes "sum", bytes "9") ∷ []);
    partial_args = [];
  });
}

-- Two calls that need an approval.
abbrev asks_twice : AgentEvent B
asks_twice = record {
  event = record (event_of (call_part (bytes "c1"))) {
    content = some (some (call_part (bytes "c1")) ∷ some (call_part (bytes "c2")) ∷ []);
  };
  turn_complete = true;
  long_running_tool_ids = bytes "c1" ∷ bytes "c2" ∷ [];
  requested_input = none;
}

abbrev session : Session Bytes
session = record { id = bytes "s"; state = some []; events_len = 1 }

abbrev world : List (Item B) → World B
world items = record {
  request = none;
  resolve = λ thread app user. inr session;
  refreshed = some [];
  starts = true;
  append_event = λ ev. none;
  agent = λ call. items;
  paused_state = some ((bytes "k", bytes "v") ∷ []);
  load_time = 5;
  claim_time = 6;
  save_time = 3;
  before_claim = λ s. s;
  before_save = λ s. s;
}

abbrev input_of : List (ResumeEntry ℕ) → RunAgentInput B
input_of entries = record {
  thread_id = bytes "T";
  run_id = bytes "R";
  messages = [];
  resume = entries;
  state = no_state;
  tools = [];
  parent_run_id = none;
  context = [];
  forwarded_props = none;
}

abbrev empty_store : Store B
empty_store = record { runs = []; ttl = 10; max_entries = 4 }

abbrev asking : World B
asking = world (yielded says ∷ yielded asks ∷ [])

run_internal_ends_example :
    IsWholeRun B
      (input_of [])
      (resolution B settings asking (input_of []))
      (run_internal B settings asking (input_of []) empty_store).out
run_internal_ends_example = run_internal_ends B settings asking (input_of []) empty_store refl

small-NamesRuns : NamesRuns small
unfolding is_empty
small-NamesRuns n = refl

run_internal_balanced_example :
    let out = body B (run_internal B settings asking (input_of []) empty_store).out in
    (check out ≡ some idle) × ((call : Bytes) → (open_count call out ≡ 0) × (owned call out ≡ true))
run_internal_balanced_example =
    run_internal_balanced B settings asking (input_of []) empty_store small-NamesRuns refl refl

abbrev paused_run : PausedRun Bytes ℕ
paused_run = record {
  thread_id = bytes "T";
  run_id = bytes "R";
  session_id = bytes "s";
  pending =
      record { id = bytes "c1"; name = bytes "pay"; args = (bytes "sum", bytes "9") ∷ [] } ∷ [];
  requested_input = none;
  state = (bytes "k", bytes "v") ∷ [];
}

abbrev paused_store : Store B
paused_store = record empty_store { runs = (bytes "T|R", record { run = paused_run; at = 3 }) ∷ [] }

-- The pause has left the run in the store.
pauses : (run_internal B settings asking (input_of []) empty_store).store ≡ paused_store
unfolding run_internal save str_eq insert has_key run_key extract_pending_tool_calls
pauses = refl

abbrev entry_for : Bytes → ResumeEntry ℕ
entry_for id = record { interrupt_id = id; status = bytes "resolved"; payload = Value.null }

abbrev approving : RunAgentInput B
approving = input_of (entry_for (bytes "c1") ∷ [])

-- The resumed run replays a call, and its identifier is the first.
abbrev resumed : Ready B
resumed = settled B paused_run ((bytes "c1", true) ∷ []) [] (record paused_store { runs = [] })

resumes_once_example : prepare B asking approving resumed.store [] ≡ refused gone resumed.store
unfolding prepare load load_and_delete lookup delete str_eq run_key count_undecided
    approvals_from_resume insert
resumes_once_example =
    resumes_once B asking asking approving approving paused_store [] [] resumed refl refl refl refl

abbrev translator : State small
translator = new_state small

abbrev call : AgentCall B
call = record {
  session_id = bytes "s";
  message = record { role = bytes "user"; parts = [] };
  state_deltas = [];
}

abbrev waiting : Bytes → PendingToolCall Bytes
waiting id = record { id = id; name = bytes "pay"; args = (bytes "sum", bytes "9") ∷ [] }

partial_resume_keeps_run_example :
    let left =
      (pause B settings asking (input_of []) call asks_twice translator empty_store []).store in
    ((run_internal B settings asking approving left).store ≡ left)
    × ((run_internal B settings asking approving left).call ≡ none)
unfolding extract_pending_tool_calls resolve_approval_mode run_key str_eq insert copy_state
partial_resume_keeps_run_example =
    partial_resume_keeps_run B settings settings asking asking (input_of []) approving call
      asks_twice translator empty_store [] (waiting (bytes "c1") ∷ []) [] (waiting (bytes "c2"))
      refl refl refl refl refl refl (refl, tt) refl

run_loop_stops_example :
    run_loop B
      (translator_config B settings (input_of []))
      (pos 1)
      ((yielded says ∷ skipped ∷ yielded says ∷ []) ++ yielded asks ∷ yielded says ∷ [])
      0
      translator
    ≡ run_loop B
        (translator_config B settings (input_of []))
        (pos 1)
        (yielded says ∷ skipped ∷ yielded says ∷ [])
        0
        translator
unfolding turns_of
run_loop_stops_example =
    run_loop_stops B (translator_config B settings (input_of [])) 1
      (yielded says ∷ skipped ∷ yielded says ∷ []) (yielded asks ∷ yielded says ∷ []) translator
      (omega arith) (omega arith)
