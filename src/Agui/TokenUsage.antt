-- ===== src/Agui/TokenUsage.antt =====
-- agui/token_usage.go: usage telemetry, summed by provider and model. A count is an int64, kept as
-- its bit pattern: sums wrap modulo 2 ^ 64.
pub mod Keys
pub mod Sums
pub mod Report
mod Examples
use adk_go_pkg.Base.{
  ℕ, ◌+◌, ◌%◌, ◌^◌, Bool, true, false, Option, none, some, List, [], ◌∷◌, ◌++◌, Bytes, ◌==◌,
  if◌then◌else◌,
}
use adk_go_pkg.Base.Map.{Map, lookup, insert}

pub record TokenUsage : Type 0 where
  pub provider : Bytes
  pub model : Bytes
  pub input_tokens : Option ℕ
  pub output_tokens : Option ℕ
  pub total_tokens : Option ℕ
  pub reasoning_tokens : Option ℕ
  pub cached_input_tokens : Option ℕ

-- One of the five pairs of a sum and a flag of the type `agg`.
pub record Sum : Type 0 where
  pub total : ℕ
  pub seen : Bool

pub record Agg : Type 0 where
  pub input : Sum
  pub output : Sum
  pub total : Sum
  pub reasoning : Sum
  pub cached : Sum

abbrev pub nothing : Sum
nothing = record { total = 0; seen = false }

abbrev pub new_agg : Agg
new_agg = record {
  input = nothing;
  output = nothing;
  total = nothing;
  reasoning = nothing;
  cached = nothing;
}

-- `if e.X != nil { a.x += *e.X; a.hasX = true }`
pub add_count : Option ℕ → Sum → Sum
add_count none s = s
add_count (some n) s = record { total = (s.total + n) % 2 ^ 64; seen = true }

pub add_entry : TokenUsage → Agg → Agg
unfolding add_count
add_entry e a = record {
  input = add_count e.input_tokens a.input;
  output = add_count e.output_tokens a.output;
  total = add_count e.total_tokens a.total;
  reasoning = add_count e.reasoning_tokens a.reasoning;
  cached = add_count e.cached_input_tokens a.cached;
}

pub usage_key : TokenUsage → Bytes
usage_key e = e.provider ++ 0 ∷ e.model

-- `order` and `aggs`.
pub record Groups : Type 0 where
  pub order : List Bytes
  pub aggs : Map Agg

pub group_entry : TokenUsage → Groups → Groups
unfolding add_entry usage_key
group_entry e g = elim (lookup (usage_key e) g.aggs) [
  | none ↦ record {
    order = g.order ++ usage_key e ∷ [];
    aggs = insert (usage_key e) (add_entry e new_agg) g.aggs;
  }
  | some a ↦ record g { aggs = insert (usage_key e) (add_entry e a) g.aggs }
]

pub group_entries : List TokenUsage → Groups → Groups
unfolding group_entry
group_entries [] g = g
group_entries (e ∷ es) g = group_entries es (group_entry e g)

-- splitUsageKey
pub split_usage_key : Bytes → Bytes × Bytes
split_usage_key [] = ([], [])
split_usage_key (c ∷ s) =
    let (provider, model) = split_usage_key s in if c == 0 then ([], s) else (c ∷ provider, model)

-- `if a.hasX { v := a.x; u.X = &v }`
abbrev pub counted : Sum → Option ℕ
counted s = if s.seen then some s.total else none

pub usage_of : Bytes → Agg → TokenUsage
unfolding split_usage_key
usage_of key a =
    let (provider, model) = split_usage_key key in
    record {
      provider = provider;
      model = model;
      input_tokens = counted a.input;
      output_tokens = counted a.output;
      total_tokens = counted a.total;
      reasoning_tokens = counted a.reasoning;
      cached_input_tokens = counted a.cached;
    }

pub usages : List Bytes → Map Agg → List TokenUsage
unfolding usage_of
usages [] aggs = []
usages (key ∷ keys) aggs = elim (lookup key aggs) [
  | none ↦ usages keys aggs
  | some a ↦ usage_of key a ∷ usages keys aggs
]

unfoldable pub aggregate_token_usage : List TokenUsage → List TokenUsage
unfolding group_entries usages
aggregate_token_usage entries =
    let g = group_entries entries (record { order = []; aggs = [] }) in usages g.order g.aggs
