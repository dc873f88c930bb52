-- ===== src/Cache/Order.antt =====
-- The order of the store is the order of last use, so that what an eviction drops is the least
-- recently used entry.
use mathlib.Core.List.{tail}
use demumumind_panel.Shared.{
  ℕ, ◌+◌, ◌<◌, String, ◌≡◌, refl, true, none, List, [], ◌∷◌, ◌++◌, arith, leb, length, inl, inr,
  Option-cases, Bool-cases,
}
use demumumind_panel.Shared.Dict.{Dict, lookup, remove, Distinct}
use demumumind_panel.Errors.{ok}
use demumumind_panel.Cache.{
  CacheEntry, CacheService, init, get, set, move_to_end, invalidate, delete_all, matching, Call,
  get_call, set_call, invalidate_call, step, run,
}
use demumumind_panel.Cache.Laws.{
  IsValid, after_set, set-after_set, after_set_new, after_set_old, kept, written, get-IsValid,
  after_set-IsValid, invalidate-IsValid,
}
use demumumind_panel.Cache.Sublists.{
  IsSub, erase, keys, IsSub-erase, IsSub-snoc, keys-append, erase_absent, keys-remove, IsSub-refl,
  IsSub-trans, IsSub-append, IsSub-remove, IsSub-kept, keys-move_to_end,
}

-- A store in the order of `h` that moves a key to the end is in the order of `h` with the key moved.
move_to_end-IsSub :
    (k : String) (e : CacheEntry) (d : Dict CacheEntry) (h : List String)
    → Distinct d
    → IsSub (keys d) h
    → IsSub (keys (move_to_end k e d)) (erase k h ++ k ∷ [])
move_to_end-IsSub k e d h v s =
    rw (keys-move_to_end k e d v)
      (IsSub-snoc k (erase k (keys d)) (erase k h) (IsSub-erase k _ h s))

-- A store without a key is in the order with the key moved, too.
absent-IsSub :
    (k : String) (d : Dict CacheEntry) (h : List String)
    → lookup k d ≡ none
    → IsSub (keys d) h
    → IsSub (keys d) (erase k h)
absent-IsSub k d h miss s = rw (← erase_absent k d miss) (IsSub-erase k (keys d) h s)

delete_all-IsSub :
    (ks : List String) (n : ℕ) (d : Dict CacheEntry) → IsSub (keys (delete_all ks n d).1) (keys d)
unfolding delete_all
delete_all-IsSub [] n d = IsSub-refl (keys d)
delete_all-IsSub (k ∷ ks) n d =
    IsSub-trans _ (keys (remove k d)) (keys d) (delete_all-IsSub ks (n + 1) (remove k d))
      (IsSub-remove k d)

-- The texts in the order of their last use by a read or a write.
abbrev used : List String → Call → List String
used h (get_call now k) = erase k h ++ k ∷ []
used h (set_call now k value) = erase k h ++ k ∷ []
used h (invalidate_call pattern) = h

pub recency : List String → List Call → List String
recency h [] = h
recency h (call ∷ calls) = recency (used h call) calls

get-IsSub :
    (now : ℕ) (k : String) (c : CacheService) (h : List String)
    → IsValid c
    → IsSub (keys c.store) h
    → IsSub (keys (get now k c).1.store) (erase k h ++ k ∷ [])
unfolding get
get-IsSub now k c h v s = elim (Option-cases (lookup k c.store)) [
  | inl miss ↦
      rw (miss, get) (IsSub-append _ (erase k h) (k ∷ []) (absent-IsSub k c.store h miss s))
  | inr (e, hit) ↦ elim (Bool-cases (leb e.expires_at now)) [
    | inl old ↦
        rw (hit, get, old, keys-remove k c.store v.distinct)
          (IsSub-append _ (erase k h) (k ∷ []) (IsSub-erase k (keys c.store) h s))
    | inr live ↦ rw (hit, get, live) (move_to_end-IsSub k e c.store h v.distinct s)
  ]
]

after_set-IsSub :
    (now : ℕ) (k value : String) (c : CacheService) (h : List String)
    → IsValid c
    → IsSub (keys c.store) h
    → IsSub (keys (after_set now k value c).store) (erase k h ++ k ∷ [])
after_set-IsSub now k value c h v s = elim (Option-cases (lookup k c.store)) [
  | inl miss ↦
      rw (after_set_new now k value c miss, keys-append)
        (IsSub-snoc k (keys (kept c)) (erase k h) (
          IsSub-trans _ (keys c.store) (erase k h) (IsSub-kept c)
            (absent-IsSub k c.store h miss s)))
  | inr (e, hit) ↦
      rw (after_set_old now k value c hit)
        (move_to_end-IsSub k (written now c value) c.store h v.distinct s)
]

step-IsSub :
    (call : Call) (c : CacheService) (h : List String)
    → IsValid c
    → IsSub (keys c.store) h
    → (c' : CacheService) × (step c call ≡ ok c') × IsValid c' × IsSub (keys c'.store) (used h call)
unfolding step
step-IsSub (get_call now k) c h v s =
    ((get now k c).1, refl, get-IsValid now k c v, get-IsSub now k c h v s)
step-IsSub (set_call now k value) c h v s = (
  after_set now k value c,
  set-after_set now k value c v,
  after_set-IsValid now k value c v,
  after_set-IsSub now k value c h v s,
)
step-IsSub (invalidate_call pattern) c h v s = (
  (invalidate pattern c).1,
  refl,
  invalidate-IsValid pattern c v,
  IsSub-trans _ (keys c.store) h
      (unfold invalidate in delete_all-IsSub (matching pattern c.store) 0 c.store) s,
)

run-IsSub :
    (calls : List Call) (c : CacheService) (h : List String)
    → IsValid c
    → IsSub (keys c.store) h
    → (c' : CacheService) × (run calls c ≡ ok c')
      × IsValid c'
      × IsSub (keys c'.store) (recency h calls)
unfolding run recency
run-IsSub [] c h v s = (c, refl, v, s)
run-IsSub (call ∷ calls) c h v s =
    let (c', stepped, valid, sub) = step-IsSub call c h v s in
    let (c'', ran, valid', sub') = run-IsSub calls c' (used h call) valid sub in
    (c'', rw stepped ran, valid', sub')

-- After any calls on a new cache with room for an entry, the keys of the store stand in the order
-- of their last use by a read or a write.
pub run-order :
    (calls : List Call) (max_entries ttl : ℕ)
    → 0 < max_entries
    → (c : CacheService) × (run calls (init max_entries ttl) ≡ ok c)
      × IsValid c
      × IsSub (keys c.store) (recency [] calls)
unfolding init
run-order calls max_entries ttl room =
    run-IsSub calls (init max_entries ttl) []
      (record { distinct = tt; bounded = omega arith; room = room }) tt

keys-cons : (d : Dict CacheEntry) → 0 < length d → (q : String) × (keys d ≡ q ∷ keys (tail d))
keys-cons [] h = elim h [ ]
keys-cons ((q, e) ∷ d) h = (q, refl)

after_set_full :
    (now : ℕ) (k value : String) (c : CacheService)
    → lookup k c.store ≡ none
    → length c.store ≡ c.max_entries
    → keys (after_set now k value c).store ≡ keys (tail c.store) ++ k ∷ []
after_set_full now k value c miss full =
    let e : leb c.max_entries (length c.store) ≡ true = ground arith in
    rw (after_set_new now k value c miss, keys-append, e) refl

-- A write of a new key into a full valid cache, whose keys stand in the order `h` of last use, drops
-- exactly the least recently used key: the store was that key and then the others, in the order of
-- their last use, and is now the others and then the new key.
pub set_evicts_oldest :
    (now : ℕ) (k value : String) (c : CacheService) (h : List String)
    → IsValid c
    → IsSub (keys c.store) h
    → lookup k c.store ≡ none
    → length c.store ≡ c.max_entries
    → (c' : CacheService) × (q : String) × (rest : List String) × (set now k value c ≡ ok c')
      × IsSub (q ∷ rest) h
      × (keys c.store ≡ q ∷ rest)
      × (keys c'.store ≡ rest ++ k ∷ [])
set_evicts_oldest now k value c h v s miss full =
    let (q, e) = keys-cons c.store (omega (arith, v.room)) in
    (
      after_set now k value c,
      q,
      keys (tail c.store),
      set-after_set now k value c v,
      rw e at s,
      e,
      after_set_full now k value c miss full,
    )
