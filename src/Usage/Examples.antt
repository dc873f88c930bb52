-- ===== src/Usage/Examples.antt =====
-- A table of usage, and the theorems there.
use demumumind_panel.Shared.{
  ℕ, String, ◌≡◌, refl, Bool, true, false, none, List, [], ◌∷◌, arith, length, ℤ, pos, ◌+ℤ◌,
}
use demumumind_panel.Shared.Dict.{Dict, lookup}
use demumumind_panel.Text.{◌+s◌, prefix_of}
use demumumind_panel.Errors.{raise, app, budget_error}
use demumumind_panel.Usage.{UsageRow, key_agent_type, sum_by, rows_of, budget_of, check_budget}
use demumumind_panel.Usage.Stats.{usage_stats, distinct, items_by, paged}
use demumumind_panel.Usage.Stats.Totals.{total}
use demumumind_panel.Usage.Stats.Conserved.{usage_stats_conserves}

abbrev row : String → ℕ → UsageRow
row agent cost = record {
  agent_type = agent;
  provider_id = none;
  model_id = none;
  tokens_in = pos 3;
  tokens_out = pos 4;
  cost_usd = pos cost;
  is_free = false;
  unlimited = false;
  price_known = true;
  cache_hit = false;
  created_at = 0;
}

abbrev rows : List UsageRow
rows = row "key_abcdefgh" 5 ∷ row "default" 2 ∷ row "key_abcdefgh" 1 ∷ []

abbrev budgets : Dict ℤ
budgets = ("abcdefghij", pos 6) ∷ []

abbrev dollars : ℤ → String
dollars b = "6"

abbrev in_order : String → String → Bool
in_order a b = true

two_groups : (usage_stats in_order 10 0 rows).total ≡ 2
unfolding usage_stats paged items_by distinct
two_groups = refl

usage_stats_conserves_example :
    (total (λ i. i.tokens_in) (usage_stats in_order 10 0 rows).items
      ≡ sum_by (λ r. r.tokens_in) rows)
    × (total (λ i. i.tokens_out) (usage_stats in_order 10 0 rows).items
        ≡ sum_by (λ r. r.tokens_out) rows)
    × (total (λ i. i.cost_usd) (usage_stats in_order 10 0 rows).items
        ≡ sum_by (λ r. r.cost_usd) rows)
    × (total (λ i. pos i.requests) (usage_stats in_order 10 0 rows).items ≡ pos (length rows))
usage_stats_conserves_example = usage_stats_conserves in_order 10 rows (rw two_groups (omega arith))

exceeded :
    check_budget dollars budgets "abcdefghij" rows
    ≡ raise (app (budget_error "Monthly budget exceeded: $6" none none))
unfolding check_budget budget_of lookup rows_of key_agent_type prefix_of ◌+s◌ sum_by ◌+ℤ◌
exceeded = refl
