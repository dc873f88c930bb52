-- ===== src/Dispatch/Usage/Laws.antt =====
-- A row of usage is stored once or not at all, within four attempts.
use demumumind_panel.Shared.{
  ℕ, zero, suc, ◌+◌, ◌<◌, ◌≡◌, refl, Bool, true, false, some, List, [], ◌∷◌, arith, ltb,
  if◌then◌else◌,
}
use demumumind_panel.Usage.{UsageRow, record_usage}
use demumumind_panel.Dispatch.Usage.{
  DbReply, committed, operational, broken, is_locked, record_db_usage,
}

-- Whether the first answer that is no lock is a commit.
abbrev pub commits : List DbReply → Bool
commits [] = false
commits (committed ∷ rest) = true
commits (broken ∷ rest) = false
commits (operational text ∷ rest) = if is_locked text then commits rest else false

abbrev pub answers_from : ℕ → (ℕ → DbReply) → ℕ → List DbReply
answers_from zero answers attempt = []
answers_from (suc n) answers attempt = answers attempt ∷ answers_from n answers (attempt + 1)

attempt_again :
    (fuel : ℕ) (answers : ℕ → DbReply) (row : UsageRow) (attempt : ℕ) (rows : List UsageRow)
    (reply : DbReply) (rest : List DbReply)
    → record_db_usage fuel answers row (attempt + 1) rows
      ≡ some (if commits rest then record_usage row rows else rows)
    → attempt < 3
    → elim reply [
      | committed ↦ some (record_usage row rows)
      | broken ↦ some rows
      | operational text ↦
          if is_locked text
          then (if ltb 3 (attempt + 1)
              then some rows
              else record_db_usage fuel answers row (attempt + 1) rows)
          else some rows
    ]
      ≡ some (if commits (reply ∷ rest) then record_usage row rows else rows)
attempt_again fuel answers row attempt rows committed rest e h = refl
attempt_again fuel answers row attempt rows broken rest e h = refl
attempt_again fuel answers row attempt rows (operational text) rest e h = ground (arith, e)

last_attempt :
    (fuel : ℕ) (answers : ℕ → DbReply) (row : UsageRow) (attempt : ℕ) (rows : List UsageRow)
    (reply : DbReply)
    → attempt ≡ 3
    → elim reply [
      | committed ↦ some (record_usage row rows)
      | broken ↦ some rows
      | operational text ↦
          if is_locked text
          then (if ltb 3 (attempt + 1)
              then some rows
              else record_db_usage fuel answers row (attempt + 1) rows)
          else some rows
    ]
      ≡ some (if commits (reply ∷ []) then record_usage row rows else rows)
last_attempt fuel answers row attempt rows committed h = refl
last_attempt fuel answers row attempt rows broken h = refl
last_attempt fuel answers row attempt rows (operational text) h = ground arith

-- From an attempt on, with fuel for the attempts that are left of the four, `_record_db_usage`
-- returns, and has added the row once if the first of the remaining answers that is no lock is a
-- commit; otherwise, also after a fourth lock, the table is as before.
pub record_db_usage_lem :
    (fuel left : ℕ) (answers : ℕ → DbReply) (row : UsageRow) (attempt : ℕ) (rows : List UsageRow)
    → left < fuel
    → attempt + left ≡ 3
    → record_db_usage fuel answers row attempt rows
      ≡ some (
          if commits (answers_from (suc left) answers attempt) then record_usage row rows else rows)
unfolding record_db_usage
record_db_usage_lem zero left answers row attempt rows enough h = absurd (omega arith)
record_db_usage_lem (suc fuel) zero answers row attempt rows enough h =
    last_attempt fuel answers row attempt rows (answers attempt) (omega arith)
record_db_usage_lem (suc fuel) (suc left) answers row attempt rows enough h =
    attempt_again fuel answers row attempt rows (answers attempt)
      (answers_from (suc left) answers (attempt + 1))
      (record_db_usage_lem fuel left answers row (attempt + 1) rows (omega arith) (omega arith))
      (omega arith)
