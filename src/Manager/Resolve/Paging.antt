-- ===== src/Manager/Resolve/Paging.antt =====
-- The pages of the listing.
use demumumind_panel.Shared.{
  ℕ, zero, suc, ◌+◌, ◌≤◌, String, ◌≡◌, refl, ap, ◌∙◌, sym, Option, List, [], ◌∷◌, ◌++◌, map, arith,
  length, take, drop, length-map, length-take,
}
use mathlib.Core.List.{map-append}
use native.Mathlib.Nat.{zero-add, suc-add}
use demumumind_panel.Manager.{Manager}
use demumumind_panel.Manager.Resolve.{listed, listed_models, list_available_models_detailed}

module _ {ℓ} {A : Type ℓ} where
  take-nil : (n : ℕ) → ◌≡◌ {A = List A} (take n []) []
  take-nil zero = refl
  take-nil (suc n) = refl

  drop-nil : (n : ℕ) → ◌≡◌ {A = List A} (drop n []) []
  drop-nil zero = refl
  drop-nil (suc n) = refl

  take-add : (a b : ℕ) (xs : List A) → take (a + b) xs ≡ take a xs ++ take b (drop a xs)
  take-add zero b xs = rw zero-add
  take-add (suc a) b [] = rw (take-nil, take-nil)
  take-add (suc a) b (x ∷ xs) = rw suc-add (ap (◌∷◌ x) (take-add a b xs))

  drop-add : (a b : ℕ) (xs : List A) → drop (a + b) xs ≡ drop b (drop a xs)
  drop-add zero b xs = rw zero-add
  drop-add (suc a) b [] = rw (drop-nil, drop-nil)
  drop-add (suc a) b (x ∷ xs) = rw suc-add (drop-add a b xs)

-- Two pages, one after the other, hold the items of one page of their joint size; the total is the
-- same on every page, and no page is longer than its limit.
pub list_available_models_pages :
    (a b offset : ℕ) (provider_id provider_name : Option String) (m : Manager)
    → ((list_available_models_detailed a offset provider_id provider_name m).items
          ++ (list_available_models_detailed b (offset + a) provider_id provider_name m).items
        ≡ (list_available_models_detailed (a + b) offset provider_id provider_name m).items)
      × ((list_available_models_detailed a offset provider_id provider_name m).total
          ≡ (list_available_models_detailed b (offset + a) provider_id provider_name m).total)
      × (length (list_available_models_detailed a offset provider_id provider_name m).items ≤ a)
unfolding list_available_models_detailed
list_available_models_pages a b offset provider_id provider_name m =
    let all_models = listed_models provider_id provider_name m in
    (
      sym (
            map-append (listed m) (take a (drop offset all_models))
              (take b (drop (offset + a) all_models)))
          ∙ ap (map (listed m)) (
              ap (λ rest. take a (drop offset all_models) ++ take b rest)
                (drop-add offset a all_models)
              ∙ sym (take-add a b (drop offset all_models))),
      refl,
      omega (
        arith,
        length-map (listed m) (take a (drop offset all_models)),
        length-take a (drop offset all_models),
      ),
    )
