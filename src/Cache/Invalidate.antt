-- ===== src/Cache/Invalidate.antt =====
-- `invalidate` drops exactly the keys that hold the pattern.
use demumumind_panel.Shared.{
  ℕ, ◌+◌, String, ◌≡◌, refl, ap, true, false, not, List, [], ◌∷◌, arith, ◌==◌, eq_iff, eq_refl,
  length, keep, All, Bool-cases, inl, inr,
}
use demumumind_panel.Shared.Dict.{Dict, remove}
use demumumind_panel.Text.{contains}
use demumumind_panel.Cache.{CacheEntry, CacheService, matching, delete_all, invalidate}

abbrev pub without : String → Dict CacheEntry → Dict CacheEntry
without pattern = keep (λ e. not (contains e.0 pattern))

matching-All : (p : String) (d : Dict CacheEntry) → All (λ k. contains k p ≡ true) (matching p d)
unfolding matching
matching-All p [] = tt
matching-All p ((k, e) ∷ d) = elim (Bool-cases (contains k p)) [
  | inl hit ↦ rw (hit, matching) (hit, matching-All p d)
  | inr miss ↦ rw (miss, matching) (matching-All p d)
]

remove_head : (k : String) (e : CacheEntry) (d : Dict CacheEntry) → remove k ((k, e) ∷ d) ≡ d
unfolding remove
remove_head k e d = rw eq_refl

remove_other :
    (j k : String) (e : CacheEntry) (d : Dict CacheEntry)
    → (k == j) ≡ false
    → remove j ((k, e) ∷ d) ≡ (k, e) ∷ remove j d
unfolding remove
remove_other j k e d h = rw h

-- A key without the pattern is none of the keys with it, so it stays in front.
delete_all-cons :
    (p k : String) (e : CacheEntry) (ks : List String) (n : ℕ) (d : Dict CacheEntry)
    → contains k p ≡ false
    → All (λ j. contains j p ≡ true) ks
    → delete_all ks n ((k, e) ∷ d) ≡ ((delete_all ks n d).0, (k, e) ∷ (delete_all ks n d).1)
unfolding delete_all
delete_all-cons p k e [] n d miss h = refl
delete_all-cons p k e (j ∷ ks) n d miss h = elim (Bool-cases (k == j)) [
  | inl same ↦ let e' : k ≡ j = (eq_iff k j).0 same in cc (ap (λ i. contains i p) e', miss, h.0)
  | inr other ↦
      rw (remove_other j k e d other) (delete_all-cons p k e ks (n + 1) (remove j d) miss h.1)
]

without_hit :
    (p k : String) (e : CacheEntry) (d : Dict CacheEntry)
    → contains k p ≡ true
    → without p ((k, e) ∷ d) ≡ without p d
without_hit p k e d hit = ground (arith, hit)

without_miss :
    (p k : String) (e : CacheEntry) (d : Dict CacheEntry)
    → contains k p ≡ false
    → without p ((k, e) ∷ d) ≡ (k, e) ∷ without p d
without_miss p k e d miss = ground (arith, miss)

delete_all-step :
    (k : String) (e : CacheEntry) (ks : List String) (n : ℕ) (d : Dict CacheEntry)
    → delete_all (k ∷ ks) n ((k, e) ∷ d) ≡ delete_all ks (n + 1) d
unfolding delete_all
delete_all-step k e ks n d = ap (delete_all ks (n + 1)) (remove_head k e d)

delete_all-matching :
    (p : String) (n : ℕ) (d : Dict CacheEntry)
    → ((delete_all (matching p d) n d).1 ≡ without p d)
      × ((delete_all (matching p d) n d).0 + length (without p d) ≡ n + length d)
unfolding matching
delete_all-matching p n [] = (unfold delete_all in refl, unfold delete_all in refl)
delete_all-matching p n ((k, e) ∷ d) = elim (Bool-cases (contains k p)) [
  | inl hit ↦
      let (store, count) = delete_all-matching p (n + 1) d in
      rw (hit, matching, delete_all-step)
        (rw (without_hit p k e d hit) (store, omega (arith, count)))
  | inr miss ↦
      let (store, count) = delete_all-matching p n d in
      rw (miss, matching, delete_all-cons p k e (matching p d) n d miss (matching-All p d))
        (rw (without_miss p k e d miss) (ap (◌∷◌ (k, e)) store, omega (arith, count)))
]

-- `invalidate` leaves exactly the entries whose key does not hold the pattern, in their order, and
-- returns the number of the entries that it dropped.
pub invalidate_lem :
    (pattern : String) (c : CacheService)
    → ((invalidate pattern c).1.store ≡ without pattern c.store)
      × ((invalidate pattern c).0 + length (invalidate pattern c).1.store ≡ length c.store)
unfolding invalidate
invalidate_lem pattern c =
    let (store, count) = delete_all-matching pattern 0 c.store in
    (store, rw store (omega (arith, count)))
