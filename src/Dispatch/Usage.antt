-- ===== src/Dispatch/Usage.antt =====
-- `_record_db_usage` of app/services/dispatch.py: usage is stored with retries on a locked database.
pub mod Laws
use demumumind_panel.Shared.{
  ℕ, zero, suc, ◌+◌, String, Bool, true, false, Option, none, some, List, [], ◌∷◌, ltb,
  if◌then◌else◌,
}
use demumumind_panel.Text.{lower, contains}
use demumumind_panel.Usage.{UsageRow, record_usage}

-- What the session answers to an attempt: it commits, it raises an `OperationalError` with a text,
-- or it raises anything else.
pub data DbReply : Type 0 where
  committed : DbReply
  operational : String → DbReply
  broken : DbReply

-- "locked" in str(exc).lower()
unfoldable pub is_locked : String → Bool
is_locked text = contains (lower text) "locked"

-- The loop, on fuel, with the answers by the number of the attempt; `none` is that the fuel was too
-- little. An error is logged and dropped.
unfoldable pub record_db_usage :
    ℕ → (ℕ → DbReply) → UsageRow → ℕ → List UsageRow → Option (List UsageRow)
record_db_usage zero answers row attempt rows = none
record_db_usage (suc fuel) answers row attempt rows =
    let again = record_db_usage fuel answers row (attempt + 1) rows in
    elim (answers attempt) [
      | committed ↦ some (record_usage row rows)
      | broken ↦ some rows
      | operational text ↦
          if is_locked text then (if ltb 3 (attempt + 1) then some rows else again) else some rows
    ]
