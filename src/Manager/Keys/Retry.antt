-- ===== src/Manager/Keys/Retry.antt =====
-- The pick of a retry, which `_do_request` of app/services/dispatch.py makes with the number of the
-- attempt as the offset.
use native.Mathlib.Nat.{mod-add-mod, add_assoc}
use demumumind_panel.Shared.{
  ℕ, zero, suc, ◌+◌, ◌%◌, ◌<◌, String, ◌≡◌, refl, sym, ap, ◌∙◌, true, some, List, [], ◌∷◌, arith,
  length, inl,
}
use demumumind_panel.Shared.Dict.{Dict}
use demumumind_panel.Manager.{Manager}
use demumumind_panel.Manager.Keys.{active_keys, nth, is_ready, start_of, pick_key}
use demumumind_panel.Manager.Keys.Pick.{after_take, start_bound}
use demumumind_panel.Manager.Keys.Turn.{pick_key_turn, active_keys-after_take, count_of-after_take}

-- Where a pick starts that comes after the pick of the key at `i`.
start_after :
    (provider_id : String) (i offset : ℕ) (m : Manager) (keys : List String)
    → start_of provider_id offset keys (after_take provider_id i (length keys) m)
      ≡ (i + (1 + offset)) % length keys
unfolding start_of
start_after provider_id i offset m keys = rw (count_of-after_take, mod-add-mod, add_assoc) refl

-- When no key is cooling down, the retry that follows a first pick at place `i`, with offset 1, does
-- not return the next key, at place `i + 1`, but the one after that, at place `i + 2`, both modulo
-- the number of keys.
pub retry_skips :
    (now later : ℕ) (provider_id : String) (m : Manager) {keys : List String}
    → active_keys provider_id m ≡ keys
    → 0 < length keys
    → ((j : ℕ) → j < length keys → is_ready now (nth keys j) m.key_cooldown ≡ true)
    → ((j : ℕ) → j < length keys → is_ready later (nth keys j) m.key_cooldown ≡ true)
    → (i : ℕ) × (i < length keys)
      × ((pick_key now provider_id 0 m).0 ≡ some (nth keys i))
      × ((pick_key later provider_id 1 (pick_key now provider_id 0 m).1).0
          ≡ some (nth keys ((i + 2) % length keys)))
retry_skips now later provider_id m {keys} e pos ready ready' =
    let i = start_of provider_id 0 keys m in
    let m' = after_take provider_id i (length keys) m in
    let bound : i < length keys = start_bound provider_id 0 keys m pos in
    let first = pick_key_turn now provider_id 0 m e pos (inl (ready i bound)) in
    let second =
      pick_key_turn later provider_id 1 m'
        (active_keys-after_take provider_id i (length keys) m ∙ e) pos
        (inl (ready' (start_of provider_id 1 keys m') (start_bound provider_id 1 keys m' pos))) in
    (i, bound, rw first refl, rw (first, second, start_after provider_id i 1 m keys) refl)

two_ready :
    (now : ℕ) (a b : String) (cooldown : Dict ℕ)
    → is_ready now a cooldown ≡ true
    → is_ready now b cooldown ≡ true
    → (j : ℕ) → j < 2
    → is_ready now (nth (a ∷ b ∷ []) j) cooldown ≡ true
unfolding nth
two_ready now a b cooldown ra rb zero h = ra
two_ready now a b cooldown ra rb (suc zero) h = rb
two_ready now a b cooldown ra rb (suc (suc j)) h = absurd (omega arith)

-- A provider with exactly two active keys, neither of them cooling down: the retry with offset 1
-- after a first pick returns the key of the first pick again, whichever the counter selects.
pub retry_same_key :
    (now later : ℕ) (provider_id a b : String) (m : Manager)
    → active_keys provider_id m ≡ a ∷ b ∷ []
    → is_ready now a m.key_cooldown ≡ true
    → is_ready now b m.key_cooldown ≡ true
    → is_ready later a m.key_cooldown ≡ true
    → is_ready later b m.key_cooldown ≡ true
    → (pick_key later provider_id 1 (pick_key now provider_id 0 m).1).0
      ≡ (pick_key now provider_id 0 m).0
unfolding nth
retry_same_key now later provider_id a b m e ra rb sa sb =
    let (i, bound, first, second) =
      retry_skips now later provider_id m e (omega arith) (two_ready now a b m.key_cooldown ra rb)
        (two_ready later a b m.key_cooldown sa sb) in
    let same : (i + 2) % 2 ≡ i = omega arith in
    second ∙ ap (λ j. some (nth (a ∷ b ∷ []) j)) same ∙ sym first
