-- ===== src/Manager/Keys.antt =====
-- `active_keys`, `pick_key` and `mark_key_rate_limited` of app/services/provider_manager.py.
pub mod Pick
pub mod Turn
pub mod Retry
pub mod Stable
use demumumind_panel.Shared.{
  ℕ, zero, suc, ◌+◌, ◌%◌, String, Bool, true, false, Option, none, some, List, [], ◌∷◌, leb, length,
  if◌then◌else◌,
}
use demumumind_panel.Shared.Dict.{Dict, lookup, insert}
use demumumind_panel.Manager.{ProviderRecord, Manager, present}

pool_of : String → Manager → List String
pool_of provider_id m = elim (lookup provider_id m.provider_keys) [ none ↦ [] | some ks ↦ ks ]

unfoldable pub primary : Option ProviderRecord → Option String
primary none = none
primary (some p) = p.api_key

-- `[provider.api_key, *pool]` if there is such a key
with_primary : Option String → List String → List String
with_primary none pool = pool
with_primary (some key) pool = if present (some key) then key ∷ pool else pool

-- `active_keys`
unfoldable pub active_keys : String → Manager → List String
unfolding pool_of with_primary
active_keys provider_id m =
    with_primary (primary (lookup provider_id m.providers)) (pool_of provider_id m)

-- d.get(k, 0)
unfoldable pub count_of : String → Dict ℕ → ℕ
count_of k d = elim (lookup k d) [ none ↦ 0 | some n ↦ n ]

-- `keys[i]`, which `pick_key` reads within the bounds only
unfoldable pub nth : List String → ℕ → String
nth [] i = ""
nth (k ∷ ks) zero = k
nth (k ∷ ks) (suc i) = nth ks i

-- the test on a key in the loop of `pick_key`
unfoldable pub is_ready : ℕ → String → Dict ℕ → Bool
is_ready now key cooldown = leb (count_of key cooldown) now

-- the loop of `pick_key`, with `k` for its variable and `left` rounds to go
unfoldable pub find_ready : ℕ → Dict ℕ → List String → ℕ → ℕ → ℕ → Option ℕ
find_ready now cooldown keys start k zero = none
find_ready now cooldown keys start k (suc left) =
    let i = (start + k) % length keys in
    let rest = find_ready now cooldown keys start (k + 1) left in
    if is_ready now (nth keys i) cooldown then some i else rest

-- the assignment to the counter, and the key that is returned
take_key : String → List String → Manager → ℕ → Option String × Manager
take_key provider_id keys m i = (
  some (nth keys i),
  record m { rr_counter = insert provider_id ((i + 1) % length keys) m.rr_counter },
)

-- where the search starts, and what is taken when every key is cooling down
unfoldable pub start_of : String → ℕ → List String → Manager → ℕ
start_of provider_id offset keys m = (count_of provider_id m.rr_counter + offset) % length keys

pub pick_from : ℕ → String → ℕ → List String → Manager → Option String × Manager
unfolding take_key
pick_from now provider_id offset [] m = (primary (lookup provider_id m.providers), m)
pick_from now provider_id offset (key ∷ more) m =
    let keys = key ∷ more in
    let start = start_of provider_id offset keys m in
    elim (find_ready now m.key_cooldown keys start 0 (length keys)) [
      | some i ↦ take_key provider_id keys m i
      | none ↦ take_key provider_id keys m start
    ]

-- `pick_key`
unfoldable pub pick_key : ℕ → String → ℕ → Manager → Option String × Manager
unfolding pick_from
pick_key now provider_id offset m = pick_from now provider_id offset (active_keys provider_id m) m

-- `mark_key_rate_limited`, with the cool-down in the unit of `now`
unfoldable pub mark_key_rate_limited : ℕ → String → ℕ → Manager → Manager
mark_key_rate_limited now api_key cooldown m = record m {
  key_cooldown = insert api_key (now + cooldown) m.key_cooldown;
}
