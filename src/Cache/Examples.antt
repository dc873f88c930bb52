-- ===== src/Cache/Examples.antt =====
-- Runs of the cache, and its theorems at concrete caches.
use demumumind_panel.Shared.{◌≡◌, refl, List, [], ◌∷◌, arith}
use demumumind_panel.Shared.Dict.{lookup, insert, remove}
use demumumind_panel.Text.{contains}
use demumumind_panel.Errors.{ok}
use demumumind_panel.Cache.{
  CacheService, init, get, set, move_to_end, pop_first, matching, delete_all, invalidate, Call,
  get_call, set_call, step, run,
}
use demumumind_panel.Cache.Laws.{IsValid, run-IsValid}
use demumumind_panel.Text.{◌+s◌}
use demumumind_panel.Cache.Key.{Digests}
use demumumind_panel.Cache.Sublists.{IsSub, keys}
use demumumind_panel.Cache.Order.{recency, run-order}

program : Unit {0}
unfolding init get set move_to_end pop_first matching delete_all invalidate step run lookup insert
    remove contains
program = tt

abbrev calls : List Call
calls = set_call 0 "a" "1" ∷ set_call 1 "b" "2" ∷ get_call 2 "a" ∷ set_call 3 "c" "3" ∷ []

-- Two entries; "a" was used after "b".
abbrev full : CacheService
full = record {
  store =
      ("b", record { value = "2"; expires_at = 301 })
      ∷ ("a", record { value = "1"; expires_at = 300 })
      ∷ [];
  max_entries = 2;
  ttl = 300;
}

abbrev after : CacheService
after = record full {
  store =
      ("a", record { value = "1"; expires_at = 300 })
      ∷ ("c", record { value = "3"; expires_at = 303 })
      ∷ [];
}

run-calls : run calls (init 2 300) ≡ ok after
unfolding program
run-calls = refl

invalidate_run : (invalidate "a" full).0 ≡ 1
unfolding program
invalidate_run = refl

full-IsValid : IsValid full
unfolding lookup
full-IsValid = record { distinct = (refl, (refl, tt)); bounded = omega arith; room = omega arith }

run-IsValid_example : (c : CacheService) × (run calls (init 2 300) ≡ ok c) × IsValid c
run-IsValid_example = run-IsValid calls 2 300 (omega arith)

run-order_example :
    (c : CacheService) × (run calls (init 2 300) ≡ ok c)
    × IsValid c
    × IsSub (keys c.store) (recency [] calls)
run-order_example = run-order calls 2 300 (omega arith)

-- Digests that only mark their argument.
abbrev digests : Digests
digests = record {
  sha256 = λ s. "h" +s s;
  hmac_sha256 = λ k s. s;
  dumps_sorted = λ v. "";
  fixed_4 = λ v. "0.0000";
}

abbrev with_room : CacheService
with_room = record full { max_entries = 3 }
