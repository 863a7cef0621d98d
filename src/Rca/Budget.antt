-- ===== src/Rca/Budget.antt =====
-- internal/rca/budget.go: the default budget and the ledger of what investigations have spent. A missing
-- entry of a map is Go's zero value.
use tracing_bot.Prelude.{◌+◌, String, Option, none, some, []}
use tracing_bot.Prelude.Assoc.{Assoc, lookup, put}
use tracing_bot.Prelude.Int.{ℤ, sub_ℕ}
use tracing_bot.Rca.Types.{TerminationReason, Budget, Spend, Charge, no_spend}

-- Durations in nanoseconds.
abbrev pub default_budget : Budget
default_budget = record {
  wall_clock = 300_000_000_000;
  max_step_wall_clock = 45_000_000_000;
  max_steps = 24;
  max_tool_calls = 40;
  max_tokens_in = 120000;
  max_cached_tokens_in = 600000;
  max_tokens_out = 64000;
  max_cost_micro_usd = 500000;
  max_rows_per_tool_call = 500;
  max_evidence_bytes = 8192;
}

abbrev no_budget : Budget
no_budget = record {
  wall_clock = 0;
  max_step_wall_clock = 0;
  max_steps = 0;
  max_tool_calls = 0;
  max_tokens_in = 0;
  max_cached_tokens_in = 0;
  max_tokens_out = 0;
  max_cost_micro_usd = 0;
  max_rows_per_tool_call = 0;
  max_evidence_bytes = 0;
}

pub record MemBudget : Type 0 where
  pub budget : Assoc Budget
  pub spend : Assoc Spend
  pub term : Assoc TerminationReason

abbrev pub new_mem_budget : MemBudget
new_mem_budget = record { budget = []; spend = []; term = [] }

unfoldable pub reserve : MemBudget → String → Budget → MemBudget
reserve b id budget = record b { budget = put id budget b.budget; spend = put id no_spend b.spend }

abbrev pub spend_at : MemBudget → String → Spend
spend_at b id = elim (lookup id b.spend) [ none ↦ no_spend | some s ↦ s ]

abbrev pub limit_of : Option Budget → Budget
limit_of none = no_budget
limit_of (some b) = b

abbrev pub budget_at : MemBudget → String → Budget
budget_at b id = limit_of (lookup id b.budget)

-- `s.TokensIn += d.TokensIn` and the like, of `Charge` and of the engine's loop.
abbrev pub add_charge : Spend → Charge → Spend
add_charge s d = record s {
  tokens_in = s.tokens_in + d.tokens_in;
  cached_tokens_in = s.cached_tokens_in + d.cached_tokens_in;
  tokens_out = s.tokens_out + d.tokens_out;
  cost_micro_usd = s.cost_micro_usd + d.cost_micro_usd;
}

unfoldable pub charge : MemBudget → String → Charge → MemBudget
charge b id d = record b { spend = put id (add_charge (spend_at b id) d) b.spend }

-- What `Remaining` answers, which may be negative.
pub record Remaining : Type 0 where
  pub tokens_in : ℤ
  pub cached_tokens_in : ℤ
  pub tokens_out : ℤ
  pub cost_micro_usd : ℤ
  pub tool_calls : ℤ
  pub steps : ℤ

abbrev pub difference : Budget → Spend → Remaining
difference bud sp = record {
  tokens_in = sub_ℕ bud.max_tokens_in sp.tokens_in;
  cached_tokens_in = sub_ℕ bud.max_cached_tokens_in sp.cached_tokens_in;
  tokens_out = sub_ℕ bud.max_tokens_out sp.tokens_out;
  cost_micro_usd = sub_ℕ bud.max_cost_micro_usd sp.cost_micro_usd;
  tool_calls = sub_ℕ bud.max_tool_calls sp.tool_calls;
  steps = sub_ℕ bud.max_steps sp.steps;
}

unfoldable pub remaining : MemBudget → String → Remaining
remaining b id = difference (budget_at b id) (spend_at b id)

unfoldable pub terminated : MemBudget → String → Option TerminationReason
terminated b id = lookup id b.term

unfoldable pub set_terminated : MemBudget → String → TerminationReason → MemBudget
set_terminated b id r = record b { term = put id r b.term }
