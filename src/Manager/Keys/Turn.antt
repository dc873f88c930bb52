-- ===== src/Manager/Keys/Turn.antt =====
-- The round-robin order of `pick_key`.
use mathlib.Core.Path.{ap₂, ◌≡⟨◌⟩◌, ◌∎}
use mathlib.Core.List.{append_assoc, append-nil, map-append}
use native.Mathlib.Nat.{mod-eq_of_lt, mod_self, zero-add, suc-add, add-zero}
use mathlib.Core.Bool.{false≢true}
use native.Mathlib.Decide.{dec_lt}
use demumumind_panel.Shared.{
  ℕ, zero, suc, ◌+◌, ◌-◌, ◌%◌, ◌<◌, String, ◌≡◌, refl, sym, ap, ◌∙◌, true, false, Option, none,
  some, List, [], ◌∷◌, ◌++◌, map, arith, ltb, length, length-append, take, drop, take-append-drop,
  length-take, Option-cases, ◌⊎◌, inl, inr, if◌then◌else◌, eq_refl,
}
use demumumind_panel.Shared.Dict.{Dict, lookup-insert}
use demumumind_panel.Manager.{Manager}
use demumumind_panel.Manager.Keys.{
  active_keys, count_of, nth, is_ready, find_ready, start_of, pick_key,
}
use demumumind_panel.Manager.Keys.Pick.{
  after_take, pick_key_from, pick_found, pick_missed, start_bound, find_ready_sound,
}

find_ready_first :
    (now : ℕ) (cooldown : Dict ℕ) (keys : List String) (start left : ℕ)
    → start < length keys
    → is_ready now (nth keys start) cooldown ≡ true
    → find_ready now cooldown keys start 0 (suc left) ≡ some start
unfolding find_ready
find_ready_first now cooldown keys start left h good =
    let e : (start + 0) % length keys ≡ start = grind (arith, mod-eq_of_lt h) in rw (e, good) refl

find_ready_all_cooling :
    (now : ℕ) (cooldown : Dict ℕ) (keys : List String) (start : ℕ)
    → start < length keys
    → ((j : ℕ) → j < length keys → is_ready now (nth keys j) cooldown ≡ false)
    → find_ready now cooldown keys start 0 (length keys) ≡ none
find_ready_all_cooling now cooldown keys start h cooling =
    elim (Option-cases (find_ready now cooldown keys start 0 (length keys))) [
      | inl missed ↦ missed
      | inr (i, found) ↦
          let (bound, good) =
            find_ready_sound now cooldown keys start 0 (length keys) (omega arith) found in
          absurd (false≢true (sym (cooling i bound) ∙ good))
    ]

-- If the provider has an active key, and the key whose turn it is, at the counter plus the offset,
-- is not cooling down or else all keys are, `pick_key` returns the key whose turn it is and sets the
-- counter behind it.
pub pick_key_turn :
    (now : ℕ) (provider_id : String) (offset : ℕ) (m : Manager) {keys : List String}
    → active_keys provider_id m ≡ keys
    → 0 < length keys
    → (is_ready now (nth keys (start_of provider_id offset keys m)) m.key_cooldown ≡ true)
      ⊎ ((j : ℕ) → j < length keys → is_ready now (nth keys j) m.key_cooldown ≡ false)
    → pick_key now provider_id offset m ≡ (
      some (nth keys (start_of provider_id offset keys m)),
      after_take provider_id (start_of provider_id offset keys m) (length keys) m,
    )
pick_key_turn now provider_id offset m {keys} e pos (inl good) =
    let turn = start_of provider_id offset keys m in
    let n : length keys ≡ suc (length keys - 1) = omega arith in
    pick_key_from now provider_id offset m
    ∙ rw e (
        pick_found now provider_id offset keys m turn pos (
          rw n (
            find_ready_first now m.key_cooldown keys turn (length keys - 1)
              (start_bound provider_id offset keys m pos) good)))
pick_key_turn now provider_id offset m {keys} e pos (inr cooling) =
    pick_key_from now provider_id offset m
    ∙ rw e (
        pick_missed now provider_id offset keys m pos (
          find_ready_all_cooling now m.key_cooldown keys (start_of provider_id offset keys m)
            (start_bound provider_id offset keys m pos) cooling))

-- Some picks in a row, at one time and with no offset.
pub pick_many : ℕ → String → ℕ → Manager → List (Option String)
pick_many now provider_id zero m = []
pick_many now provider_id (suc r) m =
    let (key, m') = pick_key now provider_id 0 m in key ∷ pick_many now provider_id r m'

wrap : ℕ → ℕ → ℕ
wrap c n = if ltb c n then c else 0

-- The keys in turn from a counter.
turns : List String → ℕ → ℕ → List (Option String)
turns keys c zero = []
turns keys c (suc r) = some (nth keys c) ∷ turns keys (wrap (c + 1) (length keys)) r

nth-append : (xs : List String) (y : String) (ys : List String) → nth (xs ++ y ∷ ys) (length xs) ≡ y
unfolding nth
nth-append [] y ys = refl
nth-append (x ∷ xs) y ys = nth-append xs y ys

wrap_inside : (c n : ℕ) → c < n → wrap c n ≡ c
unfolding wrap
wrap_inside c n h = ground arith

turns_step :
    (keys : List String) (c r : ℕ)
    → turns keys c (suc r) ≡ some (nth keys c) ∷ turns keys (wrap (c + 1) (length keys)) r
unfolding turns
turns_step keys c r = refl

turns_run :
    (keys pre xs ys : List String) (s : ℕ)
    → keys ≡ pre ++ (xs ++ ys)
    → turns keys (wrap (length pre) (length keys)) (length xs + s)
      ≡ map some xs ++ turns keys (wrap (length (pre ++ xs)) (length keys)) s
turns_run keys pre [] ys s e = rw (zero-add, append-nil) refl
turns_run keys pre (x ∷ xs) ys s e =
    let inside : length pre < length keys =
      omega (arith, ap length e, length-append pre (x ∷ (xs ++ ys)), length-append xs ys) in
    let here : wrap (length pre) (length keys) ≡ length pre =
      wrap_inside (length pre) (length keys) inside in
    let there : length pre + 1 ≡ length (pre ++ x ∷ []) = sym (length-append pre (x ∷ [])) in
    let shift : pre ++ x ∷ xs ≡ (pre ++ x ∷ []) ++ xs = sym (append_assoc pre (x ∷ []) xs) in
    let e' : keys ≡ (pre ++ x ∷ []) ++ (xs ++ ys) =
      e ∙ sym (append_assoc pre (x ∷ []) (xs ++ ys)) in
    rw (here, suc-add, turns_step, shift, there)
      (ap₂ (λ k r. some k ∷ r) (ap (λ l. nth l (length pre)) e ∙ nth-append pre x (xs ++ ys))
        (turns_run keys (pre ++ x ∷ []) xs ys s e'))

wrap_end : (n : ℕ) → wrap n n ≡ 0
unfolding wrap
wrap_end n = ground arith

turns_all :
    (keys : List String) (c : ℕ)
    → c < length keys
    → turns keys c (length keys) ≡ map some (drop c keys ++ take c keys)
unfolding turns
turns_all keys c h =
    let t = take c keys in
    let d = drop c keys in
    let n = length keys in
    let split : t ++ d ≡ keys = take-append-drop c keys in
    let lt : length t ≡ c = omega (arith, length-take c keys) in
    let sum : length d + (length t + 0) ≡ n = omega (arith, length-append t d, ap length split) in
    let from : wrap (length t) n ≡ c = rw lt (wrap_inside c n h) in
    let back : wrap (length (t ++ d)) n ≡ 0 = rw split (wrap_end n) in
    let first : turns keys (wrap 0 n) (length t + 0) ≡ map some t ++ [] =
      turns_run keys [] t d 0 (sym split) in
    turns keys c n
    ≡⟨ ap₂ (turns keys) (sym from) (sym sum) ⟩
      turns keys (wrap (length t) n) (length d + (length t + 0))
    ≡⟨ turns_run keys t d [] (length t + 0) (sym split ∙ ap (◌++◌ t) (sym (append-nil d))) ⟩
      map some d ++ turns keys (wrap (length (t ++ d)) n) (length t + 0)
    ≡⟨ ap (λ c'. map some d ++ turns keys c' (length t + 0))
        (back ∙ sym (wrap_inside 0 n (omega arith))) ⟩
      map some d ++ turns keys (wrap 0 n) (length t + 0)
    ≡⟨ ap (◌++◌ (map some d)) (first ∙ append-nil (map some t)) ⟩ map some d ++ map some t
    ≡⟨ sym (map-append some d t) ⟩ map some (d ++ t) ∎

pub active_keys-after_take :
    (provider_id : String) (i n : ℕ) (m : Manager)
    → active_keys provider_id (after_take provider_id i n m) ≡ active_keys provider_id m
unfolding active_keys
active_keys-after_take provider_id i n m = refl

pub count_of-after_take :
    (provider_id : String) (i n : ℕ) (m : Manager)
    → count_of provider_id (after_take provider_id i n m).rr_counter ≡ (i + 1) % n
unfolding count_of
count_of-after_take provider_id i n m =
    ground
      (arith, lookup-insert provider_id provider_id ((i + 1) % n) m.rr_counter, eq_refl provider_id)

wrap-mod : (c n : ℕ) → c < n → (c + 1) % n ≡ wrap (c + 1) n
unfolding wrap
wrap-mod c n h = elim (dec_lt (c + 1) n) [
  | yes lt ↦ ground (arith, mod-eq_of_lt lt)
  | no ge ↦ let e : c + 1 ≡ n = omega arith in rw (e, mod_self) (sym (wrap_end n))
]

wrap-lt : (c n : ℕ) → 0 < n → wrap c n < n
unfolding wrap
wrap-lt c n h = ground arith

pick_many-turns :
    (now : ℕ) (provider_id : String) (r c : ℕ) (m : Manager) {keys : List String}
    → active_keys provider_id m ≡ keys
    → c < length keys
    → count_of provider_id m.rr_counter ≡ c
    → ((j : ℕ) → j < length keys → is_ready now (nth keys j) m.key_cooldown ≡ true)
    → pick_many now provider_id r m ≡ turns keys c r
unfolding pick_many turns
pick_many-turns now provider_id zero c m e h count ready = refl
pick_many-turns now provider_id (suc r) c m {keys} e h count ready =
    let turn : start_of provider_id 0 keys m ≡ c =
      unfold start_of in rw (count, add-zero) (mod-eq_of_lt h) in
    let picked : pick_key now provider_id 0 m
        ≡ (some (nth keys c), after_take provider_id c (length keys) m) =
      rw (← turn) (pick_key_turn now provider_id 0 m e (omega arith) (inl (rw turn (ready c h)))) in
    let m' = after_take provider_id c (length keys) m in
    rw picked (
      ap (◌∷◌ (some (nth keys c))) (
        pick_many-turns now provider_id r (wrap (c + 1) (length keys)) m'
          (active_keys-after_take provider_id c (length keys) m ∙ e)
          (wrap-lt (c + 1) (length keys) (omega arith))
          (count_of-after_take provider_id c (length keys) m ∙ wrap-mod c (length keys) h) ready))

-- If the counter of a provider is in range and no key is cooling down, then as many picks in a row
-- as there are active keys return every key once, in the order of the list, beginning at the
-- counter.
pub pick_many_rotates :
    (now : ℕ) (provider_id : String) (c : ℕ) (m : Manager) {keys : List String}
    → active_keys provider_id m ≡ keys
    → c < length keys
    → count_of provider_id m.rr_counter ≡ c
    → ((j : ℕ) → j < length keys → is_ready now (nth keys j) m.key_cooldown ≡ true)
    → pick_many now provider_id (length keys) m ≡ map some (drop c keys ++ take c keys)
pick_many_rotates now provider_id c m {keys} e h count ready =
    pick_many-turns now provider_id (length keys) c m e h count ready ∙ turns_all keys c h
