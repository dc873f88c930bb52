-- ===== src/Cleanup/Run.antt =====
-- The steps of `run_cleanup` in app/services/cleanup.py on the groups, the keys and the usage, and
-- the whole of it.
use demumumind_panel.Shared.{
  ℕ, ◌+◌, ◌-◌, ◌*◌, String, Bool, false, not, ◌&&◌, ◌||◌, Option, none, some, List, [], ◌∷◌, ◌==◌,
  any, keep, leb, length, if◌then◌else◌,
}
use demumumind_panel.Errors.{Result, ok, raise}
use demumumind_panel.Manager.{ProviderRow, ModelRow}
use demumumind_panel.Usage.{UsageRow, key_agent_type}
use demumumind_panel.Dispatch.{World}
use demumumind_panel.Cleanup.{Tools, Swept, sweep_providers, check_models, mark_providers}

pub record GroupRow : Type 0 where
  pub id : String
  pub name : String
  pub parent_group_id : Option String

pub record ApiKeyRow : Type 0 where
  pub key_hash : String
  pub group_id : Option String
  pub is_active : Bool
  pub created_at : ℕ

unfoldable pub refers_to : String → Option String → Bool
refers_to id none = false
refers_to id (some parent) = parent == id

-- the test on a group
unfoldable pub is_used : List GroupRow → List ApiKeyRow → GroupRow → Bool
unfolding refers_to
is_used groups keys g =
    any (λ h. refers_to g.id h.parent_group_id) groups || any (λ k. refers_to g.id k.group_id) keys

-- step 3
unfoldable pub keep_groups : List GroupRow → List ApiKeyRow → List GroupRow
keep_groups groups keys = keep (is_used groups keys) groups

-- step 4, on one key, at the time `now` in seconds
unfoldable pub check_key : ℕ → List UsageRow → ApiKeyRow → ApiKeyRow
check_key now usage k =
    if k.is_active
      && leb (k.created_at + 30 * 86400) now
      && not (any (λ r. r.agent_type == key_agent_type k.key_hash) usage)
    then record k { is_active = false }
    else k

unfoldable pub check_keys : ℕ → List UsageRow → List ApiKeyRow → List ApiKeyRow
check_keys now usage [] = []
check_keys now usage (k ∷ ks) = check_key now usage k ∷ check_keys now usage ks

-- step 5
unfoldable pub keep_usage : ℕ → Option ℕ → List UsageRow → List UsageRow
keep_usage now max_age_days usage =
    let days : ℕ = elim max_age_days [ none ↦ 90 | some n ↦ n ] in
    keep (λ r. leb now (r.created_at + days * 86400)) usage

-- The tables that a cleanup reads and changes.
pub record Tables : Type 0 where
  pub providers : List ProviderRow
  pub models : List ModelRow
  pub groups : List GroupRow
  pub api_keys : List ApiKeyRow
  pub usage : List UsageRow

active_models : List ModelRow → ℕ
active_models ms = length (keep (λ m. m.is_active) ms)

active_keys_of : List ApiKeyRow → ℕ
active_keys_of ks = length (keep (λ k. k.is_active) ks)

pub record CleanupReport : Type 0 where
  pub providers_deactivated : ℕ
  pub models_deactivated : ℕ
  pub groups_deleted : ℕ
  pub keys_deactivated : ℕ
  pub usage_deleted : ℕ
  pub warnings : List String

-- What is committed after the requests. The steps only turn flags off and drop rows, so the counts
-- are differences.
unfoldable pub finish :
    ℕ → Option ℕ → Swept → List ModelRow → List ModelRow → Tables → CleanupReport × Tables
unfolding active_models active_keys_of
finish now max_age_days swept checked marked d =
    let groups = keep_groups d.groups d.api_keys in
    let keys = check_keys now d.usage d.api_keys in
    let usage = keep_usage now max_age_days d.usage in
    (
      record {
        providers_deactivated = swept.deactivated;
        models_deactivated = active_models d.models - active_models checked;
        groups_deleted = length d.groups - length groups;
        keys_deactivated = active_keys_of d.api_keys - active_keys_of keys;
        usage_deleted = length d.usage - length usage;
        warnings = swept.warnings;
      },
      record {
        providers = swept.providers;
        models = marked;
        groups = groups;
        api_keys = keys;
        usage = usage;
      },
    )

-- `run_cleanup` up to the refresh; nothing is committed if it raises
unfoldable pub run_cleanup :
    Tools → ℕ → Option ℕ → Tables → World → Result CleanupReport × Tables × World
run_cleanup t now max_age_days d w =
    let (swept, w1) = sweep_providers t d.providers w in
    let (checked, w2) = check_models t swept.providers d.models w1 in
    elim checked [
      | raise e ↦ (raise e, d, w2)
      | ok ms ↦
          let (marked, w3) = mark_providers t swept.providers ms w2 in
          let (report, d') = finish now max_age_days swept ms marked d in (ok report, d', w3)
    ]
