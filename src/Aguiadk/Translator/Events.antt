-- ===== src/Aguiadk/Translator/Events.antt =====
-- What the translator reads, of the types of genai and ADK, and what it emits, of those of the
-- AG-UI SDK, and the functions of packages that are not part of the repository.
use adk_go_pkg.Base.{ℕ, Bool, Option, List, Bytes}
use adk_go_pkg.Base.Int.{ℤ}
use adk_go_pkg.Base.Map.{Map}

pub record Env : Type 1 where
  -- Go's `any`, and JSON Patch operations.
  pub Value : Type 0
  pub Patch : Type 0
  -- Citation and grounding metadata.
  pub Metadata : Type 0
  -- json.Marshal of a map; `none` is an error.
  pub marshal : Map Value → Option Bytes
  -- fmt's %q
  pub quote : Bytes → Bytes
  pub base64 : Bytes → Bytes
  -- {Op: op, Path: path, Value: value}, and a string as a value.
  pub patch_op : Bytes → Bytes → Value → Patch
  pub string_value : Bytes → Value
  -- The identifiers of the SDK's generators, by the number of identifiers generated before.
  pub gen_message_id : ℕ → Bytes
  pub gen_tool_call_id : ℕ → Bytes

pub record FunctionCall (V : Type 0) : Type 0 where
  pub id : Bytes
  pub name : Bytes
  -- `none` is a nil map.
  pub args : Option (Map V)
  -- The StringValue of each element of PartialArgs.
  pub partial_args : List Bytes

pub record FunctionResponse (V : Type 0) : Type 0 where
  pub id : Bytes
  pub name : Bytes
  pub response : Map V

pub record ToolCall (V : Type 0) : Type 0 where
  pub id : Bytes
  pub tool_type : Bytes
  pub args : Option (Map V)

pub record ToolResponse (V : Type 0) : Type 0 where
  pub id : Bytes
  pub tool_type : Bytes
  pub response : Map V

pub record FileData : Type 0 where
  pub mime_type : Bytes
  pub file_uri : Bytes

pub record Blob : Type 0 where
  pub mime_type : Bytes
  pub payload : Bytes

pub record ExecutableCode : Type 0 where
  pub code : Bytes
  pub language : Bytes

pub record CodeExecutionResult : Type 0 where
  pub outcome : Bytes
  pub output : Bytes

pub record Part (V : Type 0) : Type 0 where
  pub thought : Bool
  pub text : Bytes
  pub thought_signature : Bytes
  pub function_call : Option (FunctionCall V)
  pub function_response : Option (FunctionResponse V)
  pub tool_call : Option (ToolCall V)
  pub tool_response : Option (ToolResponse V)
  pub file_data : Option FileData
  pub inline_data : Option Blob
  pub executable_code : Option ExecutableCode
  pub code_execution_result : Option CodeExecutionResult

pub record UsageMetadata : Type 0 where
  pub prompt_token_count : ℤ
  pub candidates_token_count : ℤ
  pub total_token_count : ℤ
  pub thoughts_token_count : ℤ
  pub cached_content_token_count : ℤ

-- session.Event
pub record AdkEvent (env : Env) : Type 0 where
  pub author : Bytes
  pub partial : Bool
  pub usage_metadata : Option UsageMetadata
  pub model_version : Bytes
  pub state_delta : Map env.Value
  -- `none` is a nil Content, and a nil part.
  pub content : Option (List (Option (Part env.Value)))
  pub error_code : Bytes
  pub error_message : Bytes
  -- Citation metadata with at least one citation.
  pub citation_metadata : Option env.Metadata
  pub grounding_metadata : Option env.Metadata

-- The events that the emitters' methods build.
pub data Event (env : Env) : Type 0 where
  text_start : Bytes → Bytes → Event env
  text_content : Bytes → Bytes → Event env
  text_end : Bytes → Event env
  reasoning_start reasoning_message_start : Bytes → Event env
  reasoning_content : Bytes → Bytes → Event env
  reasoning_message_end reasoning_end : Bytes → Event env
  reasoning_encrypted : Bytes → Bytes → Event env
  tool_call_start : Bytes → Bytes → Event env
  tool_call_args : Bytes → Bytes → Event env
  tool_call_end : Bytes → Event env
  -- message, call and content
  tool_call_result : Bytes → Bytes → Bytes → Event env
  step_started step_finished : Bytes → Event env
  state_delta : List env.Patch → Event env
  -- message, and the text of a "tool_use" activity
  activity_snapshot : Bytes → Bytes → Event env
  activity_delta : Bytes → List env.Patch → Event env
  -- run and name
  subagent_started : Bytes → Bytes → Event env
  subagent_finished : Bytes → Event env
  -- run, message and code
  subagent_error : Bytes → Bytes → Bytes → Event env
  custom : Bytes → Map Bytes → Event env
  custom_metadata : Bytes → env.Metadata → Event env
