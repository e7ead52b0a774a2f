-- ===== src/Aguiadk/Inbound/RoundTrip.antt =====
-- A history that a client sends seeds a session, and the snapshot of the session gives it back.
use adk_go_pkg.Base.{
  ℕ, suc, str_eq, Bool, true, false, ◌&&◌, none, some, List, [], ◌∷◌, ◌++◌, Bytes, bytes, is_empty,
  append_assoc, append-nil, if◌then◌else◌, ◌≡◌, refl, arith, ap,
}
use adk_go_pkg.Base.Map.{Map}
use adk_go_pkg.Aguiadk.Translator.Events.{Env}
use adk_go_pkg.Aguiadk.Inbound.{
  user_parts, message_parts, author_for_role, message_to_genai_content, tool_message_part,
  parse_tool_response_content, user, assistant, tool, nothing, text_of, MessageCall, Message, Sdk,
  text_parts, spoken_parts, call_parts, parse_args, parse_text, prior_event, prior_events,
  split_last_user, convert_inbound_messages, is_user,
}
use adk_go_pkg.Aguiadk.Inbound.Snapshot.{
  Collected, collect, collect_text, collect_call, collect_response, collect_tool_call,
  collect_tool_response, args_json, main_message, role_for_author, author_name_for_snapshot,
  event_messages, session_events_to_messages,
}

-- The messages whose content a session keeps: a user's text, an answer with a text or calls, and
-- what a tool gave back, as JSON.
pub data Turn : Type 0 where
  said : Bytes → Turn
  answered : Bytes → List MessageCall → Turn
  returned : Bytes → Bytes → Bytes → Turn

module _ (env : Env) (sdk : Sdk env) where
  open env use {Value, marshal}
  open sdk use {content_string, unmarshal, new_event_id}

  abbrev pub message_of : Bytes → Turn → Message Value
  message_of id (said s) = record {
    id = id;
    role = user;
    content = text_of s;
    tool_calls = [];
    tool_call_id = [];
    name = [];
  }
  message_of id (answered s calls) = record {
    id = id;
    role = assistant;
    content = if is_empty s then nothing else text_of s;
    tool_calls = calls;
    tool_call_id = [];
    name = [];
  }
  message_of id (returned call name s) = record {
    id = id;
    role = tool;
    content = text_of s;
    tool_calls = [];
    tool_call_id = call;
    name = name;
  }

  -- JSON text of a map in the form in which it is written.
  abbrev pub IsCanonical : Bytes → Type 0
  IsCanonical s = (m : Map Value) × ((unmarshal s ≡ some (some m)) × (marshal m ≡ some s))

  abbrev pub AllCanonical : List MessageCall → Type 0
  AllCanonical [] = Unit
  AllCanonical (c ∷ cs) =
      ((is_empty c.arguments ≡ false) × IsCanonical c.arguments) × AllCanonical cs

  abbrev pub no_calls : List MessageCall → Bool
  no_calls [] = true
  no_calls (_ ∷ _) = false

  abbrev pub IsStable : Turn → Type 0
  IsStable (said s) = is_empty s ≡ false
  IsStable (answered s calls) = ((is_empty s && no_calls calls) ≡ false) × AllCanonical calls
  IsStable (returned call name s) = IsCanonical s

  abbrev pub AllStable : List (Bytes × Turn) → Type 0
  AllStable [] = Unit
  AllStable ((_, t) ∷ ts) = IsStable t × AllStable ts

  abbrev pub messages_of : List (Bytes × Turn) → List (Message Value)
  messages_of [] = []
  messages_of ((id, t) ∷ ts) = message_of id t ∷ messages_of ts

  -- The i-th event gives its message a new identifier.
  abbrev pub renamed : ℕ → List (Bytes × Turn) → List (Message Value)
  renamed i [] = []
  renamed i ((_, returned call name s) ∷ ts) =
      message_of (bytes "result-" ++ call) (returned call name s) ∷ renamed (suc i) ts
  renamed i ((_, t) ∷ ts) = message_of (new_event_id i) t ∷ renamed (suc i) ts

  -- What the SDK documents of ContentString: it gives a text, and nothing for no content.
  pub record IsDocumented : Type 0 where
    pub text_content : (s : Bytes) → content_string (text_of s) ≡ some s
    pub no_content : content_string nothing ≡ none

  args_json-parse_args :
      (s : Bytes) → is_empty s ≡ false → IsCanonical s → args_json env (parse_args env sdk s) ≡ s
  unfolding args_json parse_args
  args_json-parse_args s h (m, (u, r)) = ground arith

  collect-call_parts :
      (cs : List MessageCall) (c : Collected Value)
      → AllCanonical cs
      → collect env (call_parts env sdk cs) c ≡ record c { calls = c.calls ++ cs }
  unfolding collect call_parts collect_text collect_call collect_response collect_tool_call
      collect_tool_response is_empty
  collect-call_parts [] c h = rw (append-nil c.calls) refl
  collect-call_parts (d ∷ cs) c ((n, k), h) = ground (
    arith,
    args_json-parse_args d.arguments n k,
    collect-call_parts cs (record c { calls = c.calls ++ d ∷ [] }) h,
    append_assoc c.calls (d ∷ []) cs,
  )

  event_messages-said :
      IsDocumented
      → (provider id : Bytes) (i : ℕ) (s : Bytes) → is_empty s ≡ false
      → event_messages env (prior_event env sdk provider i (message_of id (said s)))
        ≡ message_of (new_event_id i) (said s) ∷ []
  unfolding prior_event event_messages author_for_role message_to_genai_content message_parts
      user_parts main_message role_for_author author_name_for_snapshot collect collect_text
      collect_call collect_response collect_tool_call collect_tool_response is_empty str_eq
  event_messages-said d provider id i s h = ground (arith, d.text_content s)

  event_messages-answered :
      IsDocumented
      → (provider id : Bytes) (i : ℕ) (s : Bytes) (calls : List MessageCall)
      → IsStable (answered s calls)
      → event_messages env (prior_event env sdk provider i (message_of id (answered s calls)))
        ≡ message_of (new_event_id i) (answered s calls) ∷ []
  unfolding prior_event event_messages author_for_role message_to_genai_content message_parts
      spoken_parts text_parts main_message role_for_author author_name_for_snapshot collect
      collect_text collect_call collect_response collect_tool_call collect_tool_response is_empty
      str_eq
  event_messages-answered d provider id i [] [] (n, h) = absurd (ground arith)
  event_messages-answered d provider id i [] (c ∷ cs) (n, h) =
      let start : Collected Value = record { text = []; calls = []; results = [] } in
      ground (arith, d.no_content, collect-call_parts (c ∷ cs) start h)
  event_messages-answered d provider id i (a ∷ s) calls (n, h) =
      let start : Collected Value = record { text = a ∷ s; calls = []; results = [] } in
      ground (arith, d.text_content (a ∷ s), collect-call_parts calls start h)

  event_messages-returned :
      (provider id : Bytes) (i : ℕ) (call name s : Bytes)
      → IsCanonical s
      → event_messages env (prior_event env sdk provider i (message_of id (returned call name s)))
        ≡ message_of (bytes "result-" ++ call) (returned call name s) ∷ []
  unfolding prior_event event_messages author_for_role message_to_genai_content message_parts
      tool_message_part parse_tool_response_content parse_text main_message role_for_author
      author_name_for_snapshot collect collect_text collect_call collect_response collect_tool_call
      collect_tool_response is_empty str_eq
  event_messages-returned provider id i call name s (m, (u, r)) = ground arith

  snapshot-prior_events :
      IsDocumented
      → (provider : Bytes) (i : ℕ) (ts : List (Bytes × Turn)) → AllStable ts
      → session_events_to_messages env (prior_events env sdk provider i (messages_of ts))
        ≡ renamed i ts
  unfolding prior_events session_events_to_messages
  snapshot-prior_events d provider i [] h = refl
  snapshot-prior_events d provider i ((id, said s) ∷ ts) (h, hs) =
      rw (event_messages-said d provider id i s h) (
        ap (λ xs. message_of (new_event_id i) (said s) ∷ xs)
          (snapshot-prior_events d provider (suc i) ts hs))
  snapshot-prior_events d provider i ((id, answered s calls) ∷ ts) (h, hs) =
      rw (event_messages-answered d provider id i s calls h) (
        ap (λ xs. message_of (new_event_id i) (answered s calls) ∷ xs)
          (snapshot-prior_events d provider (suc i) ts hs))
  snapshot-prior_events d provider i ((id, returned call name s) ∷ ts) (h, hs) =
      rw (event_messages-returned provider id i call name s h) (
        ap (λ xs. message_of (bytes "result-" ++ call) (returned call name s) ∷ xs)
          (snapshot-prior_events d provider (suc i) ts hs))

  split_last_user-append :
      (ms : List (Message Value)) (m : Message Value)
      → is_user m.role ≡ true
      → split_last_user env sdk (ms ++ m ∷ []) ≡ some (ms, m)
  unfolding split_last_user
  split_last_user-append [] m h = ground arith
  split_last_user-append (n ∷ ms) m h = rw (split_last_user-append ms m h) refl

  -- The prior events of a history that ends with a user's message are those of the messages before
  -- it.
  prior_of_history :
      (provider : Bytes) (ms : List (Message Value)) (m : Message Value)
      → is_user m.role ≡ true
      → (convert_inbound_messages env sdk provider (ms ++ m ∷ [])).1
        ≡ prior_events env sdk provider 0 ms
  unfolding convert_inbound_messages
  prior_of_history provider [] m h = ground (arith, split_last_user-append [] m h)
  prior_of_history provider (n ∷ ms) m h = ground (arith, split_last_user-append (n ∷ ms) m h)

  -- If the SDK is as documented, then the snapshot of a session that convertInboundMessages has
  -- seeded with a history before the message of a user shows the messages of the history, in their
  -- order, with their texts, calls and results, each under a new identifier: for users' texts that
  -- are not empty, answers with a text or calls, and results and arguments that are JSON objects
  -- in the form in which they are written.
  pub snapshot_of_history :
      IsDocumented
      → (provider : Bytes) (ts : List (Bytes × Turn)) (id s : Bytes) → AllStable ts
      → session_events_to_messages env
          (convert_inbound_messages env sdk provider
            (messages_of ts ++ message_of id (said s) ∷ [])).1
        ≡ renamed 0 ts
  snapshot_of_history d provider ts id s h =
      rw (prior_of_history provider (messages_of ts) (message_of id (said s)) refl)
        (snapshot-prior_events d provider 0 ts h)
