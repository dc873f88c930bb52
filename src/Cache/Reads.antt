-- ===== src/Cache/Reads.antt =====
-- What `get` returns after the other methods.
use demumumind_panel.Shared.{
  ℕ, ◌<◌, ◌+◌, ◌≤◌, String, ◌≡◌, refl, true, false, Option, none, some, [], ◌∷◌, ◌++◌, arith, ◌==◌,
  eq_iff, eq_refl, leb, ltb, length, ◌⊎◌, inl, inr, if◌then◌else◌, Option-cases, Bool-cases, Bool,
  ◌∙◌, sym,
}
use mathlib.Core.List.{tail}
use demumumind_panel.Shared.Dict.{
  Dict, lookup, has, lookup-append, lookup-remove_self, lookup-remove_ne,
}
use demumumind_panel.Errors.{ok}
use demumumind_panel.Cache.{CacheEntry, CacheService, get, set}
use demumumind_panel.Cache.Laws.{
  IsValid, lookup-move_to_end, lookup-kept, written, kept, after_set, set-after_set, after_set_new,
  after_set_old,
}

-- What a read returns, by the entry that stands under the key.
abbrev pub seen : ℕ → Option CacheEntry → Option String
seen now none = none
seen now (some e) = if leb e.expires_at now then none else some e.value

get-seen : (now : ℕ) (k : String) (c : CacheService) → (get now k c).0 ≡ seen now (lookup k c.store)
unfolding get
get-seen now k c = ground arith

lookup_single : (k : String) (e : CacheEntry) → lookup k ((k, e) ∷ []) ≡ some e
unfolding lookup
lookup_single k e = rw eq_refl

lookup_single_ne :
    (k q : String) (e : CacheEntry) → (k == q) ≡ false → lookup q ((k, e) ∷ []) ≡ none
unfolding lookup
lookup_single_ne k q e ne = rw ne

lookup-append_none :
    (q : String) (d e : Dict CacheEntry) → lookup q e ≡ none → lookup q (d ++ e) ≡ lookup q d
lookup-append_none q d e h = ground (arith, lookup-append q d e)

lookup-after_set_self :
    (now : ℕ) (k value : String) (c : CacheService)
    → IsValid c
    → lookup k (after_set now k value c).store ≡ some (written now c value)
lookup-after_set_self now k value c v = elim (Option-cases (lookup k c.store)) [
  | inl miss ↦
      rw (after_set_new now k value c miss, lookup-append, lookup-kept k c miss) (lookup_single k _)
  | inr (e, hit) ↦ rw (after_set_old now k value c hit, lookup-move_to_end, v.distinct, eq_refl k)
]

-- On a valid cache a write succeeds, and a later read of the key returns the value while less than
-- the time to live has passed since the write, and nothing from then on.
pub get-set_self :
    (now later : ℕ) (k value : String) (c : CacheService)
    → IsValid c
    → (c' : CacheService) × (set now k value c ≡ ok c')
      × ((get later k c').0 ≡ (if leb (now + c.ttl) later then none else some value))
get-set_self now later k value c v = (
  after_set now k value c,
  set-after_set now k value c v,
  rw (get-seen, lookup-after_set_self now k value c v),
)

-- The first key of the store, the one that is evicted next.
abbrev pub first_is : String → Dict CacheEntry → Bool
first_is q [] = false
first_is q ((j, e) ∷ d) = j == q

lookup-tail_other :
    (q : String) (d : Dict CacheEntry) → first_is q d ≡ false → lookup q (tail d) ≡ lookup q d
unfolding lookup
lookup-tail_other q [] h = refl
lookup-tail_other q ((j, e) ∷ d) h = ground arith

lookup-kept_other :
    (q : String) (c : CacheService)
    → ltb (length c.store) c.max_entries ≡ true ⊎ (first_is q c.store ≡ false)
    → lookup q (kept c) ≡ lookup q c.store
unfolding lookup
lookup-kept_other q c h = elim (Bool-cases (leb c.max_entries (length c.store))) [
  | inl full ↦ rw full (lookup-tail_other q c.store (ground arith))
  | inr room ↦ rw room refl
]

lookup-after_set_ne :
    (now : ℕ) (k q value : String) (c : CacheService)
    → IsValid c
    → (k == q) ≡ false
    → (has k c.store ≡ true)
      ⊎ ((ltb (length c.store) c.max_entries ≡ true) ⊎ (first_is q c.store ≡ false))
    → lookup q (after_set now k value c).store ≡ lookup q c.store
lookup-after_set_ne now k q value c v ne h = elim (Option-cases (lookup k c.store)) [
  | inl miss ↦
      rw (after_set_new now k value c miss, lookup-append_none, lookup_single_ne k q _ ne)
        (lookup-kept_other q c (ground arith))
  | inr (e, hit) ↦ rw (after_set_old now k value c hit, lookup-move_to_end, v.distinct, ne)
]

-- On a valid cache a write of one key leaves what a read of another key returns, unless the written
-- key is new, the cache is full and the other key is the first of the store, which is evicted.
pub get-set_ne :
    (now later : ℕ) (k q value : String) (c : CacheService)
    → IsValid c
    → (k == q) ≡ false
    → (has k c.store ≡ true)
      ⊎ ((ltb (length c.store) c.max_entries ≡ true) ⊎ (first_is q c.store ≡ false))
    → (c' : CacheService) × (set now k value c ≡ ok c') × ((get later q c').0 ≡ (get later q c).0)
get-set_ne now later k q value c v ne h = (
  after_set now k value c,
  set-after_set now k value c v,
  rw (get-seen, get-seen, lookup-after_set_ne now k q value c v ne h),
)

seen-get :
    (now later : ℕ) (k q : String) (c : CacheService)
    → IsValid c
    → now ≤ later
    → seen later (lookup q (get now k c).1.store) ≡ seen later (lookup q c.store)
unfolding get
seen-get now later k q c v h = elim (Option-cases (lookup k c.store)) [
  | inl miss ↦ rw (miss, get)
  | inr (e, hit) ↦ ground (
    arith,
    lookup-remove_self k c.store v.distinct,
    lookup-remove_ne k q c.store,
    lookup-move_to_end k q e c.store v.distinct,
    eq_iff k q,
  )
]

-- A read changes nothing that a read at the same or a later time can tell, of whatever key.
pub get-get :
    (now later : ℕ) (k q : String) (c : CacheService)
    → IsValid c
    → now ≤ later
    → (get later q (get now k c).1).0 ≡ (get later q c).0
get-get now later k q c v h =
    get-seen later q (get now k c).1 ∙ seen-get now later k q c v h ∙ sym (get-seen later q c)

-- a read within the time to live, after a write that returned
pub get-set_early :
    (k value : String) (now later : ℕ) (c c' : CacheService)
    → IsValid c
    → later < now + c.ttl
    → set now k value c ≡ ok c'
    → (get later k c').0 ≡ some value
get-set_early k value now later c c' v early written =
    let (c1, e, read) = get-set_self now later k value c v in
    let same : c1 ≡ c' = cc in rw (← same) (read ∙ still (now + c.ttl) later value early)
  where
    still : (a b : ℕ) (value : String) → b < a → (if leb a b then none else some value) ≡ some value
    still a b value h = ground arith
