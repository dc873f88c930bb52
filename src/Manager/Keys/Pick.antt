-- ===== src/Manager/Keys/Pick.antt =====
-- `pick_key` returns a key of the provider, one that is not cooling down if there is one, and the
-- next one in turn when none is cooling down.
use mathlib.Core.Bool.{false≢true}
use native.Mathlib.Decide.{dec_le, ℕ_discrete}
use native.Mathlib.Nat.{mod-eq_of_lt, add-mod_right}
use demumumind_panel.Shared.{
  ℕ, zero, suc, ◌+◌, ◌-◌, ◌%◌, ◌≤◌, ◌<◌, String, ◌≡◌, refl, sym, ◌∙◌, true, false, none, some, List,
  [], ◌∷◌, arith, length, Bool-cases, Option-cases, inl, inr,
}
use demumumind_panel.Shared.Dict.{Dict, insert}
use demumumind_panel.Manager.{Manager}
use demumumind_panel.Manager.Keys.{
  active_keys, nth, is_ready, find_ready, start_of, pick_from, pick_key,
}

-- `keys` holds `key` at `i`.
abbrev pub At : List String → ℕ → String → Type 0
At keys i key = (i < length keys) × (nth keys i ≡ key)

pub mod_bound : (a n : ℕ) → 0 < n → a % n < n
mod_bound a n h = grind arith

-- The loop only returns places within the list whose key is ready.
pub find_ready_sound :
    (now : ℕ) (cooldown : Dict ℕ) (keys : List String) (start k left : ℕ) {i : ℕ}
    → 0 < length keys
    → find_ready now cooldown keys start k left ≡ some i
    → (i < length keys) × (is_ready now (nth keys i) cooldown ≡ true)
unfolding find_ready
find_ready_sound now cooldown keys start k zero h e = ground arith
find_ready_sound now cooldown keys start k (suc left) h e =
    elim (Bool-cases (is_ready now (nth keys ((start + k) % length keys)) cooldown)) [
      | inl good ↦ ground (arith, mod_bound (start + k) (length keys) h)
      | inr bad ↦ find_ready_sound now cooldown keys start (k + 1) left h (rw bad at e)
    ]

-- A loop that finds nothing has seen each of its places.
find_ready-none :
    (now : ℕ) (cooldown : Dict ℕ) (keys : List String) (start k left j : ℕ)
    → find_ready now cooldown keys start k left ≡ none
    → k ≤ j
    → j < k + left
    → is_ready now (nth keys ((start + j) % length keys)) cooldown ≡ false
unfolding find_ready
find_ready-none now cooldown keys start k zero j e lo hi = absurd (omega arith)
find_ready-none now cooldown keys start k (suc left) j e lo hi =
    elim (Bool-cases (is_ready now (nth keys ((start + k) % length keys)) cooldown)) [
      | inl good ↦ absurd (ground arith)
      | inr bad ↦ elim (ℕ_discrete j k) [
        | yes same ↦ rw same bad
        | no other ↦
            find_ready-none now cooldown keys start (k + 1) left j (rw bad at e) (omega arith)
              (omega arith)
      ]
    ]

-- From any place of the list, every other one is some number of places further on.
place_from : (start j n : ℕ) → start < n → j < n → (k : ℕ) × (k < n) × ((start + k) % n ≡ j)
place_from start j n hs hj = elim (dec_le start j) [
  | yes le ↦ (j - start, omega arith, mod_small (start + (j - start)) j n (omega arith) hj)
  | no gt ↦ (j + n - start, omega arith, mod_wrapped (start + (j + n - start)) j n (omega arith) hj)
]
  where
    mod_small : (a b n : ℕ) → a ≡ b → b < n → a % n ≡ b
    mod_small a b n e h = rw e (mod-eq_of_lt h)

    mod_wrapped : (a b n : ℕ) → a ≡ b + n → b < n → a % n ≡ b
    mod_wrapped a b n e h = rw (e, add-mod_right) (mod-eq_of_lt h)

-- If some key of the provider is ready, the loop finds one.
find_ready-some :
    (now : ℕ) (cooldown : Dict ℕ) (keys : List String) (start j : ℕ)
    → start < length keys
    → j < length keys
    → is_ready now (nth keys j) cooldown ≡ true
    → (i : ℕ) × (find_ready now cooldown keys start 0 (length keys) ≡ some i)
find_ready-some now cooldown keys start j hs hj good =
    elim (Option-cases (find_ready now cooldown keys start 0 (length keys))) [
      | inr found ↦ found
      | inl missed ↦
          let (k, hk, e) = place_from start j (length keys) hs hj in
          let bad : is_ready now (nth keys ((start + k) % length keys)) cooldown ≡ false =
            find_ready-none now cooldown keys start 0 (length keys) k missed (omega arith)
              (omega arith) in
          absurd (false≢true (sym bad ∙ rw e good))
    ]

-- The counter after a key has been taken.
abbrev pub after_take : String → ℕ → ℕ → Manager → Manager
after_take provider_id i n m = record m {
  rr_counter = insert provider_id ((i + 1) % n) m.rr_counter;
}

pub start_bound :
    (provider_id : String) (offset : ℕ) (keys : List String) (m : Manager)
    → 0 < length keys
    → start_of provider_id offset keys m < length keys
unfolding start_of
start_bound provider_id offset keys m h = mod_bound _ (length keys) h

pub pick_found :
    (now : ℕ) (provider_id : String) (offset : ℕ) (keys : List String) (m : Manager) (i : ℕ)
    → 0 < length keys
    → find_ready now m.key_cooldown keys (start_of provider_id offset keys m) 0 (length keys)
      ≡ some i
    → pick_from now provider_id offset keys m
      ≡ (some (nth keys i), after_take provider_id i (length keys) m)
unfolding pick_from
pick_found now provider_id offset [] m i h e = elim h [ ]
pick_found now provider_id offset (key ∷ more) m i h e = ground arith

pub pick_missed :
    (now : ℕ) (provider_id : String) (offset : ℕ) (keys : List String) (m : Manager)
    → 0 < length keys
    → find_ready now m.key_cooldown keys (start_of provider_id offset keys m) 0 (length keys) ≡ none
    → pick_from now provider_id offset keys m ≡ (
      some (nth keys (start_of provider_id offset keys m)),
      after_take provider_id (start_of provider_id offset keys m) (length keys) m,
    )
unfolding pick_from
pick_missed now provider_id offset [] m h e = elim h [ ]
pick_missed now provider_id offset (key ∷ more) m h e = ground arith

pub pick_key_from :
    (now : ℕ) (provider_id : String) (offset : ℕ) (m : Manager)
    → pick_key now provider_id offset m
      ≡ pick_from now provider_id offset (active_keys provider_id m) m
unfolding pick_key
pick_key_from now provider_id offset m = refl

-- If the key at some place `j` of the provider's active keys is not cooling down, then whatever the
-- counter and the offset `pick_key` returns an active key that is not cooling down, and changes
-- nothing but the provider's counter, which then points behind that key.
pub pick_key_ready :
    (now : ℕ) (provider_id : String) (offset j : ℕ) (m : Manager)
    → j < length (active_keys provider_id m)
    → is_ready now (nth (active_keys provider_id m) j) m.key_cooldown ≡ true
    → (i : ℕ) × (key : String) × At (active_keys provider_id m) i key
      × (is_ready now key m.key_cooldown ≡ true)
      × (pick_key now provider_id offset m
          ≡ (some key, after_take provider_id i (length (active_keys provider_id m)) m))
pick_key_ready now provider_id offset j m hj good =
    let keys = active_keys provider_id m in
    let start = start_of provider_id offset keys m in
    let pos : 0 < length keys = omega arith in
    let (i, found) =
      find_ready-some now m.key_cooldown keys start j (start_bound provider_id offset keys m pos) hj
        good in
    let (bound, ready) = find_ready_sound now m.key_cooldown keys start 0 (length keys) pos found in
    (
      i,
      nth keys i,
      (bound, refl),
      ready,
      pick_key_from now provider_id offset m ∙ pick_found now provider_id offset keys m i pos found,
    )
