-- ===== src/Usage/Budget.antt =====
-- What recording usage does to the check of a budget.
use demumumind_panel.Shared.{
  String, ◌≡◌, sym, ap, ◌∙◌, true, List, [], ◌∷◌, ◌++◌, ◌==◌, arith, if◌then◌else◌, Bool-cases, inl,
  inr, ℤ, pos, ◌+ℤ◌, ◌≤ℤ◌, leb_ℤ, +ℤ_parts, +ℤ_assoc, +ℤ_comm,
}
use demumumind_panel.Shared.Dict.{Dict}
use demumumind_panel.Errors.{raise, Exception}
use demumumind_panel.Usage.{
  UsageRow, key_agent_type, sum_by, budget_of, rows_of, check_budget, record_usage,
}

-- what a key has spent
abbrev pub spent : String → List UsageRow → ℤ
spent key_hash rows = sum_by (λ r. r.cost_usd) (rows_of key_hash rows)

sum_by-append_one :
    (f : UsageRow → ℤ) (rows : List UsageRow) (row : UsageRow)
    → sum_by f (rows ++ row ∷ []) ≡ sum_by f rows +ℤ f row
unfolding sum_by
sum_by-append_one f [] row = +ℤ_comm (f row) (pos 0)
sum_by-append_one f (r ∷ rows) row =
    ap (◌+ℤ◌ (f r)) (sum_by-append_one f rows row) ∙ sym (+ℤ_assoc (f r) (sum_by f rows) (f row))

pub rows_of-record_usage :
    (key_hash : String) (row : UsageRow) (rows : List UsageRow)
    → rows_of key_hash (record_usage row rows) ≡ (
        if row.agent_type == key_agent_type key_hash
        then rows_of key_hash rows ++ row ∷ []
        else rows_of key_hash rows)
unfolding rows_of record_usage
rows_of-record_usage key_hash row [] = ground arith
rows_of-record_usage key_hash row (r ∷ rows) =
    ground (arith, rows_of-record_usage key_hash row rows)

spent-record_usage :
    (key_hash : String) (row : UsageRow) (rows : List UsageRow)
    → pos 0 ≤ℤ row.cost_usd
    → spent key_hash rows ≤ℤ spent key_hash (record_usage row rows)
spent-record_usage key_hash row rows h =
    elim (Bool-cases (row.agent_type == key_agent_type key_hash)) [
      | inl e ↦
          rw
            (
              rows_of-record_usage key_hash row rows,
              e,
              sum_by-append_one (λ r. r.cost_usd) (rows_of key_hash rows) row,
            )
            (omega (arith, +ℤ_parts (spent key_hash rows) row.cost_usd))
      | inr e ↦ rw (rows_of-record_usage key_hash row rows, e) (omega arith)
    ]

leb_ℤ_trans : (a b c : ℤ) → leb_ℤ a b ≡ true → b ≤ℤ c → leb_ℤ a c ≡ true
leb_ℤ_trans a b c h k = ground arith

-- Once a budget is exceeded it stays exceeded, with the same error, whatever usage of non-negative
-- cost is recorded, under any agent type.
pub check_budget_stays :
    (dollars : ℤ → String) (budgets : Dict ℤ) (key_hash : String) (row : UsageRow)
    (rows : List UsageRow) {e : Exception}
    → check_budget dollars budgets key_hash rows ≡ raise e
    → pos 0 ≤ℤ row.cost_usd
    → check_budget dollars budgets key_hash (record_usage row rows) ≡ raise e
unfolding check_budget
check_budget_stays dollars budgets key_hash row rows h cost =
    let budget = budget_of key_hash budgets in
    elim (Bool-cases (leb_ℤ budget (spent key_hash rows))) [
      | inl over ↦
          let over' = leb_ℤ_trans budget _ _ over (spent-record_usage key_hash row rows cost) in
          ground (arith, over, over')
      | inr under ↦ absurd (ground (arith, under))
    ]
