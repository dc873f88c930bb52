-- ===== src/Usage/Stats.antt =====
-- The statistics on `agent_usage`: SELECT … GROUP BY … ORDER BY … as one item for each value of the
-- key, computed from the rows with that value, then sorted and cut into pages.
pub mod Totals
pub mod Groups
pub mod Conserved
use demumumind_panel.Shared.{
  ℕ, suc, ◌+◌, ◌-◌, ◌*◌, ◌/◌, String, ◌≡◌, ◌↔◌, Bool, true, false, not, Option, none, some, List,
  [], ◌∷◌, map, ◌==◌, eqb, eq_iff, arith, ltb, leb, length, take, drop, keep, if◌then◌else◌, ℤ,
}
use demumumind_panel.Manager.{ProviderRow}
use demumumind_panel.Manager.Resolve.{Page}
use demumumind_panel.Usage.{UsageRow, sum_by}

-- The equality of a grouping key.
pub record Key (K : Type 0) : Type 0 where
  pub same : K → K → Bool
  pub same_iff : (a b : K) → (same a b ≡ true) ↔ (a ≡ b)

module _ {K : Type 0} (k : Key K) where
  -- the values without repetition, by their first place
  unfoldable pub distinct : List K → List K
  distinct [] = []
  distinct (x ∷ xs) = x ∷ keep (λ y. not (k.same x y)) (distinct xs)

  -- the rows with a value of the key
  unfoldable pub group : (UsageRow → K) → List UsageRow → K → List UsageRow
  group key rows x = keep (λ r. k.same (key r) x) rows

-- `AgentUsageOut` and `UsagePoint`, by the label of the group
pub record AgentUsageOut (K : Type 0) : Type 0 where
  pub label : K
  pub tokens_in : ℤ
  pub tokens_out : ℤ
  pub cost_usd : ℤ
  pub requests : ℕ
  pub free_requests : ℕ
  pub unlimited_requests : ℕ
  pub unknown_requests : ℕ
  pub cached_requests : ℕ

-- the sum of a flag
unfoldable pub count_if : (UsageRow → Bool) → List UsageRow → ℕ
count_if p [] = 0
count_if p (r ∷ rows) = if p r then suc (count_if p rows) else count_if p rows

-- one row of the result
unfoldable pub item : {K : Type 0} → K → List UsageRow → AgentUsageOut K
item label rows = record {
  label = label;
  tokens_in = sum_by (λ r. r.tokens_in) rows;
  tokens_out = sum_by (λ r. r.tokens_out) rows;
  cost_usd = sum_by (λ r. r.cost_usd) rows;
  requests = length rows;
  free_requests = count_if (λ r. r.is_free) rows;
  unlimited_requests = count_if (λ r. r.unlimited) rows;
  unknown_requests = count_if (λ r. not r.price_known) rows;
  cached_requests = count_if (λ r. r.cache_hit) rows;
}

-- the result before it is sorted
unfoldable pub items_by :
    {K : Type 0} → Key K → (UsageRow → K) → List UsageRow → List (AgentUsageOut K)
items_by k key rows = map (λ x. item x (group k key rows x)) (distinct k (map key rows))

module _ {A : Type 0} (before : A → A → Bool) where
  place : A → List A → List A
  place x [] = x ∷ []
  place x (y ∷ ys) = if before y x then y ∷ place x ys else x ∷ y ∷ ys

  -- ORDER BY
  unfoldable pub sorted : List A → List A
  unfolding place
  sorted [] = []
  sorted (x ∷ xs) = place x (sorted xs)

  -- the page and the total
  unfoldable pub paged : ℕ → ℕ → List A → Page A
  paged limit offset xs = record {
    items = take limit (drop offset (sorted xs));
    total = length xs;
    limit = limit;
    offset = offset;
  }

abbrev pub by_agent : Key String
by_agent = record { same = λ a b. a == b; same_iff = eq_iff }

-- `usage_stats`; `before` is the order of texts in the database. `stats` of the agent registry is
-- the same without the four counts of flags.
unfoldable pub usage_stats :
    (String → String → Bool) → ℕ → ℕ → List UsageRow → Page (AgentUsageOut String)
usage_stats before limit offset rows =
    paged (λ a b. before a.label b.label) limit offset (items_by by_agent (λ r. r.agent_type) rows)

without_flags : AgentUsageOut String → AgentUsageOut String
without_flags i = record i {
  free_requests = 0;
  unlimited_requests = 0;
  unknown_requests = 0;
  cached_requests = 0;
}

-- `stats` of the agent registry, whose items leave the counts of flags at their defaults
unfoldable pub stats :
    (String → String → Bool) → ℕ → ℕ → List UsageRow → Page (AgentUsageOut String)
unfolding without_flags
stats before limit offset rows =
    let page = usage_stats before limit offset rows in
    record page { items = map without_flags page.items }

pub eqb_iff : (a b : ℕ) → (eqb a b ≡ true) ↔ (a ≡ b)
eqb_iff a b = ground arith

abbrev pub by_day : Key ℕ
by_day = record { same = eqb; same_iff = eqb_iff }

pub day_of : UsageRow → ℕ
day_of r = r.created_at / 86400

-- `usage_timeseries`, each point under the number of its day
unfoldable pub usage_timeseries : ℕ → ℕ → List UsageRow → List (AgentUsageOut ℕ)
unfolding day_of
usage_timeseries now days rows =
    sorted (λ a b. ltb a.label b.label)
      (items_by by_day day_of (keep (λ r. leb now (r.created_at + days * 86400)) rows))

pub same_option : Option String → Option String → Bool
same_option none none = true
same_option none (some b) = false
same_option (some a) none = false
same_option (some a) (some b) = a == b

pub same_option_iff : (a b : Option String) → (same_option a b ≡ true) ↔ (a ≡ b)
unfolding same_option
same_option_iff none none = ground arith
same_option_iff none (some b) = ground arith
same_option_iff (some a) none = ground arith
same_option_iff (some a) (some b) = ground (arith, eq_iff a b)

abbrev pub by_provider : Key (Option String)
by_provider = record { same = same_option; same_iff = same_option_iff }

-- coalesce(name, "unknown") after the outer join with `providers`
unfoldable pub provider_label : List ProviderRow → Option String → String
provider_label providers none = "unknown"
provider_label [] (some id) = "unknown"
provider_label (p ∷ ps) (some id) = if p.id == id then p.name else provider_label ps (some id)

named : List ProviderRow → AgentUsageOut (Option String) → AgentUsageOut String
named providers i = record {
  label = provider_label providers i.label;
  tokens_in = i.tokens_in;
  tokens_out = i.tokens_out;
  cost_usd = i.cost_usd;
  requests = i.requests;
  free_requests = i.free_requests;
  unlimited_requests = i.unlimited_requests;
  unknown_requests = i.unknown_requests;
  cached_requests = i.cached_requests;
}

-- `usage_by_provider`
unfoldable pub usage_by_provider :
    List ProviderRow → ℕ → ℕ → List UsageRow → Page (AgentUsageOut String)
unfolding named
usage_by_provider providers limit offset rows =
    paged (λ a b. ltb b.requests a.requests) limit offset
      (map (named providers) (items_by by_provider (λ r. r.provider_id) rows))
