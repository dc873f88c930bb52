-- ===== src/Manager/Keys/Stable.antt =====
-- A pick changes no key of any provider.
use demumumind_panel.Shared.{ℕ, String, ◌≡◌, refl, List, [], ◌∷◌, length, Option-cases, inl, inr}
use demumumind_panel.Manager.{Manager}
use demumumind_panel.Manager.Keys.{
  active_keys, find_ready, start_of, take_key, pick_from, pick_key, mark_key_rate_limited,
}

take_key-keys :
    (q p : String) (keys : List String) (m : Manager) (i : ℕ)
    → active_keys q (take_key p keys m i).1 ≡ active_keys q m
unfolding take_key active_keys
take_key-keys q p keys m i = refl

pick_from-keys :
    (now : ℕ) (q p : String) (offset : ℕ) (keys : List String) (m : Manager)
    → active_keys q (pick_from now p offset keys m).1 ≡ active_keys q m
unfolding pick_from
pick_from-keys now q p offset [] m = refl
pick_from-keys now q p offset (key ∷ more) m =
    let keys = key ∷ more in
    let start = start_of p offset keys m in
    elim (Option-cases (find_ready now m.key_cooldown keys start 0 (length keys))) [
      | inl missed ↦ rw (missed, pick_from) (take_key-keys q p keys m start)
      | inr (i, found) ↦ rw (found, pick_from) (take_key-keys q p keys m i)
    ]

pub active_keys-pick_key :
    (now : ℕ) (q p : String) (offset : ℕ) (m : Manager)
    → active_keys q (pick_key now p offset m).1 ≡ active_keys q m
unfolding pick_key
active_keys-pick_key now q p offset m = pick_from-keys now q p offset (active_keys p m) m

pub active_keys-mark_key_rate_limited :
    (now : ℕ) (q key : String) (cooldown : ℕ) (m : Manager)
    → active_keys q (mark_key_rate_limited now key cooldown m) ≡ active_keys q m
unfolding mark_key_rate_limited active_keys
active_keys-mark_key_rate_limited now q key cooldown m = refl
