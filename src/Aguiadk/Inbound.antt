-- ===== src/Aguiadk/Inbound.antt =====
-- aguiadk/inbound.go: the messages of a request become the content of the turn and the events
-- that seed a new session; and sessionEventsToMessages of aguiadk/bridge.go, the way back. A nil
-- response of a tool is the empty map.
pub mod Snapshot
pub mod RoundTrip
mod Examples
use adk_go_pkg.Base.{
  ℕ, suc, Bool, true, false, Option, none, some, List, [], ◌∷◌, ◌++◌, Bytes, bytes, str_eq,
  is_empty, ◌||◌, if◌then◌else◌,
}
use adk_go_pkg.Base.Map.{Map}
use adk_go_pkg.Aguiadk.Translator.Events.{Env, Part, FunctionCall, FunctionResponse}

-- The roles and the kinds of content that the AG-UI SDK names.
pub data Role : Type 0 where
  user assistant system developer tool : Role
  other_role : Bytes → Role

pub data ContentType : Type 0 where
  text_type binary_type image_type audio_type video_type document_type other_type : ContentType

pub data SourceType : Type 0 where
  data_source url_source other_source : SourceType

pub record Source : Type 0 where
  pub source_type : SourceType
  pub value : Bytes
  pub mime_type : Bytes

pub record InputContent : Type 0 where
  pub content_type : ContentType
  pub text : Bytes
  pub payload : Bytes
  pub url : Bytes
  pub mime_type : Bytes
  pub source : Option Source

-- The dynamic types that the code tells apart in `Message.Content any`.
pub data MessageContent (V : Type 0) : Type 0 where
  nothing : MessageContent V
  text_of : Bytes → MessageContent V
  map_of : Map V → MessageContent V
  value_of : V → MessageContent V

pub record MessageCall : Type 0 where
  pub id : Bytes
  pub name : Bytes
  pub arguments : Bytes

pub record Message (V : Type 0) : Type 0 where
  pub id : Bytes
  pub role : Role
  pub content : MessageContent V
  pub tool_calls : List MessageCall
  pub tool_call_id : Bytes
  pub name : Bytes

-- genai.Content
pub record Content (V : Type 0) : Type 0 where
  pub role : Bytes
  pub parts : List (Option (Part V))

-- The fields of a session event that a conversion sets or reads; `none` is a nil Content.
pub record SessionEvent (V : Type 0) : Type 0 where
  pub id : Bytes
  pub author : Bytes
  pub content : Option (Content V)

-- Functions of the AG-UI SDK and of Go's packages.
pub record Sdk (env : Env) : Type 0 where
  -- Message.ContentString and Message.ContentInputContents
  pub content_string : MessageContent env.Value → Option Bytes
  pub content_inputs : MessageContent env.Value → Option (List InputContent)
  -- json.Unmarshal into a map: `none` is an error, `some none` leaves the map nil.
  pub unmarshal : Bytes → Option (Option (Map env.Value))
  pub marshal_value : env.Value → Option Bytes
  -- fmt's %v
  pub format_value : env.Value → Bytes
  pub decode64 : Bytes → Option Bytes
  -- The identifiers of session.NewEvent, by the number of events made before.
  pub new_event_id : ℕ → Bytes

-- authorForRole
unfoldable pub author_for_role : Role → Bytes
author_for_role user = bytes "user"
author_for_role assistant = bytes "model"
author_for_role system = bytes "system"
author_for_role developer = bytes "developer"
author_for_role tool = bytes "tool"
author_for_role (other_role r) = r

-- genaiRoleForMessage: the response of a tool has the role of a user.
unfoldable pub genai_role_for_message : Role → Bytes
genai_role_for_message user = bytes "user"
genai_role_for_message assistant = bytes "model"
genai_role_for_message system = bytes "system"
genai_role_for_message developer = bytes "developer"
genai_role_for_message tool = bytes "user"
genai_role_for_message (other_role r) = r

abbrev pub is_user : Role → Bool
is_user user = true
is_user _ = false

abbrev pub empty_part : {V : Type 0} → Part V
empty_part = record {
  thought = false;
  text = [];
  thought_signature = [];
  function_call = none;
  function_response = none;
  tool_call = none;
  tool_response = none;
  file_data = none;
  inline_data = none;
  executable_code = none;
  code_execution_result = none;
}

abbrev pub text_part : {V : Type 0} → Bytes → Part V
text_part s = record empty_part { text = s }

module _ (env : Env) (sdk : Sdk env) where
  open env use {Value, string_value}
  open sdk use {
    content_string, content_inputs, unmarshal, marshal_value, format_value, decode64, new_event_id,
  }

  abbrev Parts : Type 0
  Parts = List (Option (Part Value))

  -- Base64 data, or no part where it does not decode.
  unfoldable pub data_parts : Bytes → Bytes → Parts
  data_parts encoded mime = elim (decode64 encoded) [
    | none ↦ []
    | some d ↦
        some (record empty_part { inline_data = some (record { mime_type = mime; payload = d }) })
        ∷ []
  ]

  unfoldable pub uri_parts : Bytes → Bytes → Parts
  uri_parts uri mime =
      some (record empty_part { file_data = some (record { mime_type = mime; file_uri = uri }) })
      ∷ []

  unfoldable pub source_parts : Option Source → Parts
  unfolding data_parts uri_parts
  source_parts none = []
  source_parts (some s) = elim s.source_type [
    | data_source ↦ data_parts s.value s.mime_type
    | url_source ↦ uri_parts s.value s.mime_type
    | other_source ↦ []
  ]

  unfoldable pub text_parts : Bytes → Parts
  text_parts s = if is_empty s then [] else some (text_part s) ∷ []

  -- Audio, video and documents pass where the provider is unknown or OpenAI.
  unfoldable pub gated_parts : Bytes → InputContent → Parts
  unfolding source_parts text_parts
  gated_parts provider c =
      if is_empty provider || str_eq provider (bytes "openai")
      then source_parts c.source
      else text_parts c.text

  unfoldable pub binary_parts : InputContent → Parts
  unfolding data_parts uri_parts
  binary_parts c =
      if is_empty c.payload
      then (if is_empty c.url then [] else uri_parts c.url c.mime_type)
      else data_parts c.payload c.mime_type

  unfoldable pub input_content_parts : Bytes → InputContent → Parts
  unfolding text_parts binary_parts source_parts gated_parts
  input_content_parts provider c = elim c.content_type [
    | text_type ↦ text_parts c.text
    | binary_type ↦ binary_parts c
    | image_type ↦ source_parts c.source
    | audio_type ↦ gated_parts provider c
    | video_type ↦ gated_parts provider c
    | document_type ↦ gated_parts provider c
    | other_type ↦ []
  ]

  -- inputContentsToGenaiParts
  unfoldable pub input_contents_to_genai_parts : Bytes → List InputContent → Parts
  unfolding input_content_parts
  input_contents_to_genai_parts provider [] = []
  input_contents_to_genai_parts provider (c ∷ cs) =
      input_content_parts provider c ++ input_contents_to_genai_parts provider cs

  unfoldable pub or_empty_text : Parts → Parts
  or_empty_text [] = some (text_part []) ∷ []
  or_empty_text (p ∷ ps) = p ∷ ps

  -- The parts of a user's message.
  unfoldable pub user_parts : Bytes → MessageContent Value → Parts
  unfolding input_contents_to_genai_parts or_empty_text
  user_parts provider c = elim (content_string c) [
    | some s ↦ some (text_part s) ∷ []
    | none ↦ elim (content_inputs c) [
      | some cs ↦ or_empty_text (input_contents_to_genai_parts provider cs)
      | none ↦ or_empty_text []
    ]
  ]

  -- userMessageToContent
  unfoldable pub user_message_to_content : Bytes → Message Value → Content Value
  unfolding user_parts
  user_message_to_content provider m = record {
    role = bytes "user";
    parts = user_parts provider m.content;
  }

  abbrev result_map : Bytes → Map Value
  result_map s = (bytes "result", string_value s) ∷ []

  abbrev nil_map : Option (Map Value) → Map Value
  nil_map none = []
  nil_map (some m) = m

  -- JSON text of a map, or else a map with the text.
  unfoldable pub parse_text : Bytes → Map Value
  parse_text s = elim (unmarshal s) [ none ↦ result_map s | some m ↦ nil_map m ]

  -- parseToolResponseContent
  unfoldable pub parse_tool_response_content : MessageContent Value → Map Value
  unfolding parse_text
  parse_tool_response_content nothing = result_map []
  parse_tool_response_content (text_of s) = parse_text s
  parse_tool_response_content (map_of m) = m
  parse_tool_response_content (value_of v) = elim (marshal_value v) [
    | none ↦ result_map (format_value v)
    | some s ↦ parse_text s
  ]

  -- toolMessageToFunctionResponsePart
  unfoldable pub tool_message_part : Message Value → Part Value
  unfolding parse_tool_response_content
  tool_message_part m = record empty_part {
    function_response = some (record {
      id = m.tool_call_id;
      name = m.name;
      response = parse_tool_response_content m.content;
    });
  }

  unfoldable pub parse_args : Bytes → Option (Map Value)
  parse_args s =
      if is_empty s then none else (elim (unmarshal s) [ none ↦ none | some args ↦ args ])

  -- The loop over msg.ToolCalls.
  unfoldable pub call_parts : List MessageCall → Parts
  unfolding parse_args
  call_parts [] = []
  call_parts (c ∷ cs) =
      some (record empty_part {
        function_call =
            some (record {
              id = c.id;
              name = c.name;
              args = parse_args c.arguments;
              partial_args = [];
            });
      })
      ∷ call_parts cs

  unfoldable pub spoken_parts : MessageContent Value → Parts
  unfolding text_parts
  spoken_parts c = elim (content_string c) [ none ↦ [] | some s ↦ text_parts s ]

  unfoldable pub plain_parts : MessageContent Value → Parts
  plain_parts c = elim (content_string c) [
    | none ↦ some (text_part []) ∷ []
    | some s ↦ some (text_part s) ∷ []
  ]

  unfoldable pub message_parts : Bytes → Message Value → Parts
  unfolding tool_message_part spoken_parts call_parts user_parts plain_parts
  message_parts provider m = elim m.role [
    | tool ↦ some (tool_message_part m) ∷ []
    | assistant ↦ spoken_parts m.content ++ call_parts m.tool_calls
    | user ↦ user_parts provider m.content
    | system ↦ plain_parts m.content
    | developer ↦ plain_parts m.content
    | other_role _ ↦ plain_parts m.content
  ]

  -- messageToGenaiContent
  unfoldable pub message_to_genai_content : Bytes → Message Value → Content Value
  unfolding message_parts genai_role_for_message
  message_to_genai_content provider m = record {
    role = genai_role_for_message m.role;
    parts = message_parts provider m;
  }

  unfoldable pub prior_event : Bytes → ℕ → Message Value → SessionEvent Value
  unfolding author_for_role message_to_genai_content
  prior_event provider i m = record {
    id = new_event_id i;
    author = author_for_role m.role;
    content = some (message_to_genai_content provider m);
  }

  -- The loop over messages[0:priorEnd], from the i-th.
  unfoldable pub prior_events : Bytes → ℕ → List (Message Value) → List (SessionEvent Value)
  unfolding prior_event
  prior_events provider i [] = []
  prior_events provider i (m ∷ ms) = prior_event provider i m ∷ prior_events provider (suc i) ms

  -- The messages before the last one of a user, and that message.
  unfoldable pub split_last_user :
      List (Message Value) → Option (List (Message Value) × Message Value)
  split_last_user [] = none
  split_last_user (m ∷ ms) = elim (split_last_user ms) [
    | some (before, last) ↦ some (m ∷ before, last)
    | none ↦ if is_user m.role then some ([], m) else none
  ]

  -- Without a message of a user, the parts are the responses of tools.
  unfoldable pub tool_parts : List (Message Value) → Parts
  unfolding tool_message_part
  tool_parts [] = []
  tool_parts (m ∷ ms) = elim m.role [
    | tool ↦ some (tool_message_part m) ∷ tool_parts ms
    | _ ↦ tool_parts ms
  ]

  -- convertInboundMessages, which never fails.
  unfoldable pub convert_inbound_messages :
      Bytes → List (Message Value) → Content Value × List (SessionEvent Value)
  unfolding prior_events split_last_user tool_parts or_empty_text user_message_to_content
  convert_inbound_messages provider [] =
      (record { role = bytes "user"; parts = some (text_part []) ∷ [] }, [])
  convert_inbound_messages provider (m ∷ ms) = elim (split_last_user (m ∷ ms)) [
    | some (before, last) ↦ (user_message_to_content provider last, prior_events provider 0 before)
    | none ↦ (
      record { role = bytes "user"; parts = or_empty_text (tool_parts (m ∷ ms)) },
      prior_events provider 0 (m ∷ ms),
    )
  ]
