-- ===== src/Cache/Laws.antt =====
-- The invariant of the cache, what a read returns after a write, and what an eviction leaves alone.
use demumumind_panel.Shared.{
  ℕ, ◌+◌, ◌-◌, ◌≤◌, ◌<◌, String, ◌≡◌, refl, inl, inr, none, some, List, [], ◌∷◌, ◌++◌, arith, ◌==◌,
  eq_iff, leb, length, length-append, if◌then◌else◌, Option-cases,
}
use demumumind_panel.Shared.Dict.{
  Dict, lookup, remove, Distinct, lookup-remove_ne, lookup-remove_self, remove-Distinct,
  length-remove, length-remove-le, insert_new, append-Distinct, lookup-append,
}
use mathlib.Core.List.{tail}
use demumumind_panel.Errors.{ok}
use demumumind_panel.Cache.{
  CacheEntry, CacheService, init, move_to_end, get, set, pop_first, delete_all, invalidate,
  matching, Call, get_call, set_call, invalidate_call, step, run,
}

pub record IsValid (c : CacheService) : Type 0 where
  pub distinct : Distinct c.store
  pub bounded : length c.store ≤ c.max_entries
  pub room : 0 < c.max_entries

move_to_end-Distinct :
    (k : String) (e : CacheEntry) (d : Dict CacheEntry) → Distinct d → Distinct (move_to_end k e d)
unfolding move_to_end
move_to_end-Distinct k e d h =
    append-Distinct k e (remove k d) (remove-Distinct k d h) (lookup-remove_self k d h)

length-move_to_end :
    (k : String) (e w : CacheEntry) (d : Dict CacheEntry)
    → lookup k d ≡ some w
    → length (move_to_end k e d) ≡ length d
unfolding move_to_end
length-move_to_end k e w d h =
    omega (arith, length-append (remove k d) ((k, e) ∷ []), length-remove k d w h)

-- Where a moved entry is found, and that no other key is touched.
pub lookup-move_to_end :
    (k q : String) (e : CacheEntry) (d : Dict CacheEntry)
    → Distinct d
    → lookup q (move_to_end k e d) ≡ (if k == q then some e else lookup q d)
unfolding move_to_end lookup
lookup-move_to_end k q e d h = ground (
  arith,
  lookup-append q (remove k d) ((k, e) ∷ []),
  lookup-remove_ne k q d,
  lookup-remove_self k d h,
  eq_iff k q,
)

-- What a read does to a valid cache: a missing key changes nothing, an expired entry is dropped, a
-- live one is moved to the end.
pub get-IsValid : (now : ℕ) (k : String) (c : CacheService) → IsValid c → IsValid (get now k c).1
unfolding get
get-IsValid now k c v = elim (Option-cases (lookup k c.store)) [
  | inl miss ↦ rw (miss, get) v
  | inr (e, hit) ↦ ground (
    arith,
    remove-Distinct k c.store v.distinct,
    length-remove-le k c.store,
    move_to_end-Distinct k e c.store v.distinct,
    length-move_to_end k e e c.store hit,
  )
]

-- The entry that a write stores.
abbrev pub written : ℕ → CacheService → String → CacheEntry
written now c value = record { value = value; expires_at = now + c.ttl }

-- The store that is left when room has been made for a new key.
abbrev pub kept : CacheService → Dict CacheEntry
kept c = if leb c.max_entries (length c.store) then tail c.store else c.store

tail-Distinct : (d : Dict CacheEntry) → Distinct d → Distinct (tail d)
tail-Distinct [] h = tt
tail-Distinct (e ∷ d) h = h.1

lookup-tail : (k : String) (d : Dict CacheEntry) → lookup k d ≡ none → lookup k (tail d) ≡ none
unfolding lookup
lookup-tail k [] h = refl
lookup-tail k (e ∷ d) h = ground arith

length-tail : (d : Dict CacheEntry) → length (tail d) ≡ length d - 1
length-tail [] = refl
length-tail (e ∷ d) = omega arith

-- A write to a valid cache never raises; an old key is renewed and moved to the end, a new one is
-- appended to what is kept.
set_old :
    (now : ℕ) (k value : String) (c : CacheService) (e : CacheEntry)
    → lookup k c.store ≡ some e
    → set now k value c ≡ ok (record c { store = move_to_end k (written now c value) c.store })
unfolding set
set_old now k value c e hit = rw (hit, set)

pop_first-tail : (d : Dict CacheEntry) → 0 < length d → pop_first d ≡ ok (tail d)
unfolding pop_first
pop_first-tail [] h = absurd (omega arith)
pop_first-tail (e ∷ d) h = refl

kept-Distinct : (c : CacheService) → IsValid c → Distinct (kept c)
kept-Distinct c v = ground (arith, tail-Distinct c.store v.distinct)

pub lookup-kept :
    (k : String) (c : CacheService) → lookup k c.store ≡ none → lookup k (kept c) ≡ none
lookup-kept k c miss = ground (arith, lookup-tail k c.store miss)

length-kept : (c : CacheService) → IsValid c → length (kept c) < c.max_entries
length-kept c v = ground (arith, length-tail c.store)

set_new :
    (now : ℕ) (k value : String) (c : CacheService)
    → IsValid c
    → lookup k c.store ≡ none
    → set now k value c ≡ ok (record c { store = kept c ++ (k, written now c value) ∷ [] })
unfolding set
set_new now k value c v miss = ground (
  arith,
  miss,
  pop_first-tail c.store,
  insert_new k (written now c value) (tail c.store) (lookup-tail k c.store miss),
  insert_new k (written now c value) c.store miss,
)

-- The cache after a write.
abbrev pub after_set : ℕ → String → String → CacheService → CacheService
after_set now k value c = record c {
  store = elim (lookup k c.store) [
    | some _ ↦ move_to_end k (written now c value) c.store
    | none ↦ kept c ++ (k, written now c value) ∷ []
  ];
}

pub after_set_new :
    (now : ℕ) (k value : String) (c : CacheService)
    → lookup k c.store ≡ none
    → (after_set now k value c).store ≡ kept c ++ (k, written now c value) ∷ []
after_set_new now k value c miss = rw (miss, after_set)

pub after_set_old :
    (now : ℕ) (k value : String) (c : CacheService) {e : CacheEntry}
    → lookup k c.store ≡ some e
    → (after_set now k value c).store ≡ move_to_end k (written now c value) c.store
after_set_old now k value c hit = rw (hit, after_set)

pub set-after_set :
    (now : ℕ) (k value : String) (c : CacheService)
    → IsValid c
    → set now k value c ≡ ok (after_set now k value c)
set-after_set now k value c v = elim (Option-cases (lookup k c.store)) [
  | inl miss ↦ rw miss (set_new now k value c v miss)
  | inr (e, hit) ↦ rw hit (set_old now k value c e hit)
]

pub after_set-IsValid :
    (now : ℕ) (k value : String) (c : CacheService) → IsValid c → IsValid (after_set now k value c)
after_set-IsValid now k value c v = elim (Option-cases (lookup k c.store)) [
  | inl miss ↦ rw miss (record {
    distinct = append-Distinct k _ (kept c) (kept-Distinct c v) (lookup-kept k c miss);
    bounded =
        omega (arith, length-append (kept c) ((k, written now c value) ∷ []), length-kept c v);
    room = v.room;
  })
  | inr (e, hit) ↦ rw hit (record {
    distinct = move_to_end-Distinct k _ c.store v.distinct;
    bounded = omega (arith, length-move_to_end k (written now c value) e c.store hit, v.bounded);
    room = v.room;
  })
]

matching-nil : (pattern : String) → matching pattern [] ≡ []
unfolding matching
matching-nil pattern = refl

delete_all-IsValid :
    (ks : List String) (n : ℕ) (d : Dict CacheEntry)
    → Distinct d
    → Distinct (delete_all ks n d).1 × (length (delete_all ks n d).1 ≤ length d)
unfolding delete_all
delete_all-IsValid [] n d h = (h, omega arith)
delete_all-IsValid (k ∷ ks) n d h =
    let (distinct, shorter) = delete_all-IsValid ks (n + 1) (remove k d) (remove-Distinct k d h) in
    (distinct, omega (arith, shorter, length-remove-le k d))

pub invalidate-IsValid :
    (pattern : String) (c : CacheService) → IsValid c → IsValid (invalidate pattern c).1
unfolding invalidate
invalidate-IsValid pattern c v =
    let (distinct, shorter) = delete_all-IsValid (matching pattern c.store) 0 c.store v.distinct in
    record { distinct = distinct; bounded = omega (arith, shorter, v.bounded); room = v.room }

-- One call on a valid cache does not raise and leaves a valid cache.
pub step-IsValid :
    (call : Call) (c : CacheService)
    → IsValid c
    → (c' : CacheService) × (step c call ≡ ok c') × IsValid c'
unfolding step
step-IsValid (get_call now k) c v = ((get now k c).1, refl, get-IsValid now k c v)
step-IsValid (set_call now k value) c v =
    (after_set now k value c, set-after_set now k value c v, after_set-IsValid now k value c v)
step-IsValid (invalidate_call pattern) c v =
    ((invalidate pattern c).1, refl, invalidate-IsValid pattern c v)

run-IsValid_from :
    (calls : List Call) (c : CacheService)
    → IsValid c
    → (c' : CacheService) × (run calls c ≡ ok c') × IsValid c'
unfolding run
run-IsValid_from [] c v = (c, refl, v)
run-IsValid_from (call ∷ calls) c v =
    let (c', stepped, valid) = step-IsValid call c v in
    let (c'', ran, valid') = run-IsValid_from calls c' valid in (c'', rw stepped ran, valid')

-- A cache with room for at least one entry, used by any sequence of reads, writes and
-- invalidations at any times, never raises; it never holds more entries than its maximum nor one
-- key twice.
pub run-IsValid :
    (calls : List Call) (max_entries ttl : ℕ)
    → 0 < max_entries
    → (c : CacheService) × (run calls (init max_entries ttl) ≡ ok c) × IsValid c
unfolding init
run-IsValid calls max_entries ttl room =
    run-IsValid_from calls (init max_entries ttl)
      (record { distinct = tt; bounded = omega arith; room = room })
