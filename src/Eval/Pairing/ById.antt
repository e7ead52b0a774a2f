-- ===== src/Eval/Pairing/ById.antt =====
-- Which response stands beside which call.
use adk_go_pkg.Base.{
  true, false, Option, none, some, List, [], ◌∷◌, Bytes, str_eq, str_eq_iff, is_empty,
  if◌then◌else◌, ◌≡◌, refl, ◌∙◌, ap, arith, map, Bool-cases, inl, inr,
}
use adk_go_pkg.Base.Map.{Map, lookup, insert, lookup-insert, lookup-nil}
use adk_go_pkg.Eval.Types.{
  FunctionCall, FunctionResponse, Invocation, get_all_tool_calls, get_all_tool_responses,
}
use adk_go_pkg.Eval.Pairing.{
  ToolCallAndResponse, has_ids, index_responses, pair_by_id, pair_by_index, pair_all,
  get_all_tool_calls_with_responses,
}

module _ {F : Type 0} where
  -- The last response with the identifier, or else the one before.
  abbrev pub last_response :
      Bytes → Option (FunctionResponse F) → List (FunctionResponse F) → Option (FunctionResponse F)
  last_response id before [] = before
  last_response id before (r ∷ rs) = last_response id (if str_eq r.id id then some r else before) rs

  lookup-index_responses :
      (id : Bytes) (rs : List (FunctionResponse F)) (m : Map (FunctionResponse F))
      → is_empty id ≡ false
      → lookup id (index_responses rs m) ≡ last_response id (lookup id m) rs
  unfolding index_responses is_empty
  lookup-index_responses id [] m h = refl
  lookup-index_responses id (r ∷ rs) m h = elim (Bool-cases (is_empty r.id)) [
    | inl e ↦ ground (arith, lookup-index_responses id rs m, str_eq_iff r.id id)
    | inr e ↦
        ground (arith, lookup-index_responses id rs (insert r.id r m), lookup-insert r.id id r m)
  ]

  -- A call beside the last response that names it, if the call has an identifier.
  abbrev pub answered : List (FunctionResponse F) → FunctionCall F → ToolCallAndResponse F
  answered rs c = record {
    call = c;
    response = if is_empty c.id then none else last_response c.id none rs;
  }

  pair_by_id_lem :
      (rs : List (FunctionResponse F)) (cs : List (FunctionCall F))
      → pair_by_id (index_responses rs []) cs ≡ map (answered rs) cs
  unfolding pair_by_id
  pair_by_id_lem rs [] = refl
  pair_by_id_lem rs (c ∷ cs) = ground (
    arith,
    pair_by_id_lem rs cs,
    lookup-index_responses c.id rs [],
    lookup-nil {V = FunctionResponse F} c.id,
  )

  call-pair_by_index :
      (cs : List (FunctionCall F)) (rs : List (FunctionResponse F))
      → map (λ (p : ToolCallAndResponse F). p.call) (pair_by_index cs rs) ≡ cs
  unfolding pair_by_index
  call-pair_by_index [] rs = refl
  call-pair_by_index (c ∷ cs) [] = ap (◌∷◌ c) (call-pair_by_index cs [])
  call-pair_by_index (c ∷ cs) (r ∷ rs) = ap (◌∷◌ c) (call-pair_by_index cs rs)

  call-answered :
      (cs : List (FunctionCall F)) (rs : List (FunctionResponse F))
      → map (λ (p : ToolCallAndResponse F). p.call) (map (answered rs) cs) ≡ cs
  call-answered [] rs = refl
  call-answered (c ∷ cs) rs = ap (◌∷◌ c) (call-answered cs rs)

  -- GetAllToolCallsWithResponses returns the calls of the invocation in order, each once. If one
  -- of them has an identifier, each is beside the last response with its identifier, if it has
  -- one and there is such a response.
  pub get_all_tool_calls_with_responses_lem :
      (inv : Invocation F)
      → (map (λ (p : ToolCallAndResponse F). p.call) (get_all_tool_calls_with_responses inv)
          ≡ get_all_tool_calls inv)
        × (has_ids (get_all_tool_calls inv) ≡ true
            → get_all_tool_calls_with_responses inv
              ≡ map (answered (get_all_tool_responses inv)) (get_all_tool_calls inv))
  unfolding get_all_tool_calls_with_responses
  get_all_tool_calls_with_responses_lem inv =
      let cs = get_all_tool_calls inv in
      let rs = get_all_tool_responses inv in
      elim (Bool-cases (has_ids cs)) [
        | inl h ↦
            let paired : pair_all cs rs ≡ map (answered rs) cs = rw h (pair_by_id_lem rs cs) in
            (
              ap (map (λ (p : ToolCallAndResponse F). p.call)) paired ∙ call-answered cs rs,
              λ _. paired,
            )
        | inr h ↦
            let paired : pair_all cs rs ≡ pair_by_index cs rs = rw h refl in
            (
              ap (map (λ (p : ToolCallAndResponse F). p.call)) paired ∙ call-pair_by_index cs rs,
              λ e. absurd (ground arith),
            )
      ]
