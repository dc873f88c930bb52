-- ===== src/Cache/Sublists.antt =====
-- Keys of the cache in order: sublists, erasure and what the operations on the store do to the keys.
use mathlib.Core.List.{tail}
use demumumind_panel.Shared.{
  String, ◌≡◌, refl, ap, ◌∙◌, true, false, none, List, [], ◌∷◌, ◌++◌, map, arith, ◌==◌, eq_iff, leb,
  length, ◌⊎◌, inl, inr, if◌then◌else◌, Bool-cases,
}
use demumumind_panel.Shared.Dict.{Dict, lookup, remove, Distinct}
use demumumind_panel.Cache.{CacheEntry, CacheService, move_to_end}
use demumumind_panel.Cache.Laws.{kept}

-- `IsSub xs ys`: the texts `xs` stand in `ys` in this order.
abbrev pub IsSub : List String → List String → Type 0
IsSub [] ys = Unit
IsSub (x ∷ xs) [] = ⊥
IsSub (x ∷ xs) (y ∷ ys) = (x ≡ y) × IsSub xs ys ⊎ IsSub (x ∷ xs) ys

skip : (y : String) (xs ys : List String) → IsSub xs ys → IsSub xs (y ∷ ys)
skip y [] ys s = tt
skip y (x ∷ xs) ys s = inr s

weaken : (x : String) (xs ys : List String) → IsSub (x ∷ xs) ys → IsSub xs ys
weaken x xs [] s = elim s [ ]
weaken x xs (y ∷ ys) (inl (e, s)) = skip y xs ys s
weaken x xs (y ∷ ys) (inr s) = skip y xs ys (weaken x xs ys s)

-- The list without a text, wherever it stands.
unfoldable pub erase : String → List String → List String
erase k [] = []
erase k (j ∷ js) = if j == k then erase k js else j ∷ erase k js

erase_eq : (k j : String) (js : List String) → (j == k) ≡ true → erase k (j ∷ js) ≡ erase k js
unfolding erase
erase_eq k j js h = rw h

erase_ne : (k j : String) (js : List String) → (j == k) ≡ false → erase k (j ∷ js) ≡ j ∷ erase k js
unfolding erase
erase_ne k j js h = rw h

erase-nil : (k : String) → erase k [] ≡ []
unfolding erase
erase-nil k = refl

abbrev pub keys : Dict CacheEntry → List String
keys = map (λ e. e.0)

pub IsSub-erase : (k : String) (xs ys : List String) → IsSub xs ys → IsSub (erase k xs) (erase k ys)
IsSub-erase k [] ys s = rw erase-nil tt
IsSub-erase k (x ∷ xs) [] s = elim s [ ]
IsSub-erase k (x ∷ xs) (y ∷ ys) (inl (e, s)) = elim (Bool-cases (y == k)) [
  | inl same ↦ rw (e, erase_eq k y xs same, erase_eq k y ys same) (IsSub-erase k xs ys s)
  | inr other ↦
      rw (e, erase_ne k y xs other, erase_ne k y ys other) (inl (refl, IsSub-erase k xs ys s))
]
IsSub-erase k (x ∷ xs) (y ∷ ys) (inr s) = elim (Bool-cases (y == k)) [
  | inl same ↦ rw (erase_eq k y ys same) (IsSub-erase k (x ∷ xs) ys s)
  | inr other ↦
      rw (erase_ne k y ys other)
        (skip y (erase k (x ∷ xs)) (erase k ys) (IsSub-erase k (x ∷ xs) ys s))
]

pub IsSub-snoc :
    (k : String) (xs ys : List String) → IsSub xs ys → IsSub (xs ++ k ∷ []) (ys ++ k ∷ [])
IsSub-snoc k [] [] s = inl (refl, tt)
IsSub-snoc k [] (y ∷ ys) s = inr (IsSub-snoc k [] ys tt)
IsSub-snoc k (x ∷ xs) [] s = elim s [ ]
IsSub-snoc k (x ∷ xs) (y ∷ ys) (inl (e, s)) = inl (e, IsSub-snoc k xs ys s)
IsSub-snoc k (x ∷ xs) (y ∷ ys) (inr s) = inr (IsSub-snoc k (x ∷ xs) ys s)

pub keys-append : (d e : Dict CacheEntry) → keys (d ++ e) ≡ keys d ++ keys e
keys-append [] e = refl
keys-append ((k, v) ∷ d) e = ap (◌∷◌ k) (keys-append d e)

pub erase_absent :
    (k : String) (d : Dict CacheEntry) → lookup k d ≡ none → erase k (keys d) ≡ keys d
unfolding erase lookup
erase_absent k [] h = refl
erase_absent k ((j, v) ∷ d) h = ground (arith, erase_absent k d)

pub keys-remove :
    (k : String) (d : Dict CacheEntry) → Distinct d → keys (remove k d) ≡ erase k (keys d)
unfolding erase remove
keys-remove k [] h = refl
keys-remove k ((j, v) ∷ d) h = ground (arith, keys-remove k d h.1, eq_iff j k, erase_absent k d)

pub IsSub-refl : (xs : List String) → IsSub xs xs
IsSub-refl [] = tt
IsSub-refl (x ∷ xs) = inl (refl, IsSub-refl xs)

pub IsSub-trans : (xs ys zs : List String) → IsSub xs ys → IsSub ys zs → IsSub xs zs
IsSub-trans [] ys zs s t = tt
IsSub-trans (x ∷ xs) [] zs s t = elim s [ ]
IsSub-trans (x ∷ xs) (y ∷ ys) [] s t = elim t [ ]
IsSub-trans (x ∷ xs) (y ∷ ys) (z ∷ zs) (inl (d, s)) (inl (e, t)) =
    inl (d ∙ e, IsSub-trans xs ys zs s t)
IsSub-trans (x ∷ xs) (y ∷ ys) (z ∷ zs) (inr s) (inl (e, t)) = inr (IsSub-trans (x ∷ xs) ys zs s t)
IsSub-trans (x ∷ xs) (y ∷ ys) (z ∷ zs) s (inr t) = inr (IsSub-trans (x ∷ xs) (y ∷ ys) zs s t)

pub IsSub-append : (xs ys zs : List String) → IsSub xs ys → IsSub xs (ys ++ zs)
IsSub-append [] ys zs s = tt
IsSub-append (x ∷ xs) [] zs s = elim s [ ]
IsSub-append (x ∷ xs) (y ∷ ys) zs (inl (e, s)) = inl (e, IsSub-append xs ys zs s)
IsSub-append (x ∷ xs) (y ∷ ys) zs (inr s) = inr (IsSub-append (x ∷ xs) ys zs s)

pub IsSub-remove : (k : String) (d : Dict CacheEntry) → IsSub (keys (remove k d)) (keys d)
unfolding remove
IsSub-remove k [] = tt
IsSub-remove k ((j, v) ∷ d) = elim (Bool-cases (j == k)) [
  | inl same ↦ rw same (skip j (keys d) (keys d) (IsSub-refl (keys d)))
  | inr other ↦ rw other (inl (refl, IsSub-remove k d))
]

IsSub-tail : (d : Dict CacheEntry) → IsSub (keys (tail d)) (keys d)
IsSub-tail [] = tt
IsSub-tail ((k, e) ∷ d) = skip k (keys d) (keys d) (IsSub-refl (keys d))

pub IsSub-kept : (c : CacheService) → IsSub (keys (kept c)) (keys c.store)
IsSub-kept c = elim (Bool-cases (leb c.max_entries (length c.store))) [
  | inl full ↦ rw full (IsSub-tail c.store)
  | inr room ↦ rw room (IsSub-refl (keys c.store))
]

pub keys-move_to_end :
    (k : String) (e : CacheEntry) (d : Dict CacheEntry)
    → Distinct d
    → keys (move_to_end k e d) ≡ erase k (keys d) ++ k ∷ []
unfolding move_to_end
keys-move_to_end k e d h = rw (keys-append, keys-remove k d h)
