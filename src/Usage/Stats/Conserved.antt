-- ===== src/Usage/Stats/Conserved.antt =====
-- The statistics lose and invent nothing.
use demumumind_panel.Shared.{
  ℕ, ◌≤◌, String, ◌≡◌, refl, sym, ap, ◌∙◌, Bool, List, [], ◌∷◌, length, ℤ, pos, ◌+ℤ◌, pos_suc,
}
use demumumind_panel.Usage.{UsageRow, sum_by}
use demumumind_panel.Usage.Stats.{AgentUsageOut, item, by_agent, usage_stats}
use demumumind_panel.Usage.Stats.Totals.{total}
use demumumind_panel.Usage.Stats.Groups.{total-paged}

length-sum_by : (rows : List UsageRow) → pos (length rows) ≡ sum_by (λ r. pos 1) rows
unfolding sum_by
length-sum_by [] = refl
length-sum_by (r ∷ rows) = pos_suc (length rows) ∙ ap (◌+ℤ◌ (pos 1)) (length-sum_by rows)

column :
    (before : String → String → Bool) (limit : ℕ) (rows : List UsageRow) (f : UsageRow → ℤ)
    (col : AgentUsageOut String → ℤ)
    → ((x : String) (g : List UsageRow) → col (item x g) ≡ sum_by f g)
    → (usage_stats before limit 0 rows).total ≤ limit
    → total col (usage_stats before limit 0 rows).items ≡ sum_by f rows
unfolding usage_stats
column before limit rows f col e fits =
    total-paged by_agent (λ a b. before a.label b.label) limit f col (λ r. r.agent_type) rows e fits

-- Where the first page holds all groups, the tokens, the costs and the numbers of requests of its
-- items add up to those of the rows of the table, whatever the order of the database.
pub usage_stats_conserves :
    (before : String → String → Bool) (limit : ℕ) (rows : List UsageRow)
    → (usage_stats before limit 0 rows).total ≤ limit
    → (total (λ i. i.tokens_in) (usage_stats before limit 0 rows).items
        ≡ sum_by (λ r. r.tokens_in) rows)
      × (total (λ i. i.tokens_out) (usage_stats before limit 0 rows).items
          ≡ sum_by (λ r. r.tokens_out) rows)
      × (total (λ i. i.cost_usd) (usage_stats before limit 0 rows).items
          ≡ sum_by (λ r. r.cost_usd) rows)
      × (total (λ i. pos i.requests) (usage_stats before limit 0 rows).items ≡ pos (length rows))
usage_stats_conserves before limit rows fits =
    let read = column before limit rows in
    unfold item in
    (
      read (λ r. r.tokens_in) (λ i. i.tokens_in) (λ x g. refl) fits,
      read (λ r. r.tokens_out) (λ i. i.tokens_out) (λ x g. refl) fits,
      read (λ r. r.cost_usd) (λ i. i.cost_usd) (λ x g. refl) fits,
      read (λ r. pos 1) (λ i. pos i.requests) (λ x g. length-sum_by g) fits
          ∙ sym (length-sum_by rows),
    )
