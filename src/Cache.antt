-- ===== src/Cache.antt =====
-- app/services/cache.py: `CacheService`, an `OrderedDict` of entries with an expiry, oldest use
-- first. `time.monotonic()` is an argument `now`, in any unit of which the time to live is a
-- number. The lock makes each method one step.
pub mod Key
pub mod Laws
pub mod Reads
pub mod Sublists
pub mod Order
pub mod Invalidate
mod Examples
use demumumind_panel.Shared.{
  ℕ, zero, suc, ◌+◌, String, Bool, true, false, Option, none, some, List, [], ◌∷◌, ◌++◌, leb,
  length, if◌then◌else◌,
}
use demumumind_panel.Shared.Dict.{Dict, lookup, insert, remove}
use demumumind_panel.Text.{contains}
use demumumind_panel.Errors.{Result, ok, raise, other, ◌>>=◌}

pub record CacheEntry : Type 0 where
  pub value : String
  pub expires_at : ℕ

pub record CacheService : Type 0 where
  pub store : Dict CacheEntry
  pub max_entries : ℕ
  pub ttl : ℕ

-- `CacheService(max_entries, ttl_seconds)`
unfoldable pub init : ℕ → ℕ → CacheService
init max_entries ttl = record { store = []; max_entries = max_entries; ttl = ttl }

-- `CacheEntry(value, ttl_seconds)` at the time `now`
entry : ℕ → ℕ → String → CacheEntry
entry now ttl value = record { value = value; expires_at = now + ttl }

-- `move_to_end`, of an entry that is there
unfoldable pub move_to_end : String → CacheEntry → Dict CacheEntry → Dict CacheEntry
move_to_end key e d = remove key d ++ (key, e) ∷ []

-- `_get`
unfoldable pub get : ℕ → String → CacheService → Option String × CacheService
get now key c = elim (lookup key c.store) [
  | none ↦ (none, c)
  | some e ↦
      if leb e.expires_at now
      then (none, record c { store = remove key c.store })
      else (some e.value, record c { store = move_to_end key e c.store })
]

-- `popitem(last=False)`
unfoldable pub pop_first : Dict CacheEntry → Result (Dict CacheEntry)
pop_first [] = raise (other "KeyError" "dictionary is empty")
pop_first (e ∷ d) = ok d

-- `_set`
unfoldable pub set : ℕ → String → String → CacheService → Result CacheService
unfolding entry
set now key value c = elim (lookup key c.store) [
  | some _ ↦ ok (record c { store = move_to_end key (entry now c.ttl value) c.store })
  | none ↦ do
    kept ← if leb c.max_entries (length c.store) then pop_first c.store else ok c.store
    ok (record c { store = insert key (entry now c.ttl value) kept })
]

-- the keys that `pattern in k` selects
unfoldable pub matching : String → Dict CacheEntry → List String
matching pattern [] = []
matching pattern ((k, _) ∷ d) = elim (contains k pattern) [
  | true ↦ k ∷ matching pattern d
  | false ↦ matching pattern d
]

unfoldable pub delete_all : List String → ℕ → Dict CacheEntry → ℕ × Dict CacheEntry
delete_all [] count d = (count, d)
delete_all (k ∷ ks) count d = delete_all ks (count + 1) (remove k d)

-- `invalidate`
unfoldable pub invalidate : String → CacheService → ℕ × CacheService
invalidate pattern c =
    let (count, store) = delete_all (matching pattern c.store) 0 c.store in
    (count, record c { store = store })

-- A call of the service, at a time.
pub data Call : Type 0 where
  get_call : ℕ → String → Call
  set_call : ℕ → String → String → Call
  invalidate_call : String → Call

unfoldable pub step : CacheService → Call → Result CacheService
step c (get_call now key) = ok (get now key c).1
step c (set_call now key value) = set now key value c
step c (invalidate_call pattern) = ok (invalidate pattern c).1

unfoldable pub run : List Call → CacheService → Result CacheService
run [] c = ok c
run (call ∷ calls) c = do c' ← step c call; run calls c'
