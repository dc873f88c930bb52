-- ===== src/Usage.antt =====
-- app/services/finops.py and app/services/agent_id.py: the rows of `agent_usage` and `agent_types`,
-- what is recorded and the budgets. An amount of money is in units of 10^-12 dollars, a time in
-- seconds. What is added is committed in one step.
pub mod Stats
pub mod Budget
mod Examples
use demumumind_panel.Shared.{
  ℕ, String, Bool, true, false, not, Option, none, some, List, [], ◌∷◌, ◌++◌, map, ◌==◌, any, keep,
  if◌then◌else◌, ℤ, pos, ◌+ℤ◌, leb_ℤ,
}
use demumumind_panel.Shared.Dict.{Dict, lookup, insert}
use demumumind_panel.Text.{◌+s◌, prefix_of}
use demumumind_panel.Errors.{Result, ok, raise, app, budget_error}

pub record UsageRow : Type 0 where
  pub agent_type : String
  pub provider_id : Option String
  pub model_id : Option String
  pub tokens_in : ℤ
  pub tokens_out : ℤ
  pub cost_usd : ℤ
  pub is_free : Bool
  pub unlimited : Bool
  pub price_known : Bool
  pub cache_hit : Bool
  pub created_at : ℕ

-- `key_agent_type`
unfoldable pub key_agent_type : String → String
key_agent_type key_hash = "key_" +s prefix_of 8 key_hash

-- sum(f)
unfoldable pub sum_by : (UsageRow → ℤ) → List UsageRow → ℤ
sum_by f [] = pos 0
sum_by f (r ∷ rows) = f r +ℤ sum_by f rows

-- `load_budgets`, from the rows (key_hash, monthly_budget) of the keys
unfoldable pub load_budgets : List (String × ℤ) → Dict ℤ → Dict ℤ
load_budgets [] d = d
load_budgets ((kh, budget) ∷ rows) d = load_budgets rows (insert kh budget d)

-- self._budgets.get(key_hash, 0.0)
unfoldable pub budget_of : String → Dict ℤ → ℤ
budget_of key_hash budgets = elim (lookup key_hash budgets) [ none ↦ pos 0 | some b ↦ b ]

-- the rows of a key
unfoldable pub rows_of : String → List UsageRow → List UsageRow
rows_of key_hash rows = keep (λ r. r.agent_type == key_agent_type key_hash) rows

-- `check_budget`; `dollars` is the format `.2f`
unfoldable pub check_budget : (ℤ → String) → Dict ℤ → String → List UsageRow → Result (Unit {0})
check_budget dollars budgets key_hash rows =
    let budget = budget_of key_hash budgets in
    if leb_ℤ budget (pos 0)
    then ok tt
    else if leb_ℤ budget (sum_by (λ r. r.cost_usd) (rows_of key_hash rows))
    then raise (app (budget_error ("Monthly budget exceeded: $" +s dollars budget) none none))
    else ok tt

-- `record_usage`
unfoldable pub record_usage : UsageRow → List UsageRow → List UsageRow
record_usage row rows = rows ++ row ∷ []

-- `log_usage` of the agent registry, which leaves the flags at their defaults
unfoldable pub log_usage : ℕ → String → Option String → ℤ → ℤ → ℤ → List UsageRow → List UsageRow
log_usage now agent_type provider_id tokens_in tokens_out cost_usd rows =
    rows
    ++ record {
      agent_type = agent_type;
      provider_id = provider_id;
      model_id = none;
      tokens_in = tokens_in;
      tokens_out = tokens_out;
      cost_usd = cost_usd;
      is_free = false;
      unlimited = false;
      price_known = false;
      cache_hit = false;
      created_at = now;
    }
      ∷ []

-- `register`, on the names of the table `agent_types`
unfoldable pub register : String → List String → List String
register agent_type names =
    if any (λ name. name == agent_type) names then names else names ++ agent_type ∷ []
