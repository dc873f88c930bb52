-- ===== src/Usage/Stats/Totals.antt =====
-- Sums over lists, and what sorting leaves of them.
use demumumind_panel.Shared.{
  ℕ, zero, suc, ◌≤◌, ◌≡◌, refl, ap, ◌∙◌, Bool, List, [], ◌∷◌, arith, length, take, Bool-cases, inl,
  inr, ℤ, pos, ◌+ℤ◌, +ℤ_swap,
}
use demumumind_panel.Usage.Stats.{place, sorted}

module _ {A : Type 0} (f : A → ℤ) where
  abbrev pub total : List A → ℤ
  total [] = pos 0
  total (x ∷ xs) = f x +ℤ total xs

  total-place :
      (before : A → A → Bool) (x : A) (xs : List A) → total (place before x xs) ≡ f x +ℤ total xs
  unfolding place
  total-place before x [] = refl
  total-place before x (y ∷ ys) = elim (Bool-cases (before y x)) [
    | inl e ↦ rw e (ap (◌+ℤ◌ (f y)) (total-place before x ys) ∙ +ℤ_swap (f y) (f x) (total ys))
    | inr e ↦ rw e refl
  ]

  pub total-sorted : (before : A → A → Bool) (xs : List A) → total (sorted before xs) ≡ total xs
  unfolding sorted
  total-sorted before [] = refl
  total-sorted before (x ∷ xs) =
      total-place before x (sorted before xs) ∙ ap (◌+ℤ◌ (f x)) (total-sorted before xs)

pub take_all : {A : Type 0} (n : ℕ) (xs : List A) → length xs ≤ n → take n xs ≡ xs
take_all n [] h = take_nil n
  where
    take_nil : {A : Type 0} (n : ℕ) → ◌≡◌ {A = List A} (take n []) []
    take_nil zero = refl
    take_nil (suc n) = refl
take_all zero (x ∷ xs) h = absurd (omega arith)
take_all (suc n) (x ∷ xs) h = ap (◌∷◌ x) (take_all n xs (omega arith))

length-place :
    {A : Type 0} (before : A → A → Bool) (x : A) (xs : List A)
    → length (place before x xs) ≡ suc (length xs)
unfolding place
length-place before x [] = refl
length-place before x (y ∷ ys) = elim (Bool-cases (before y x)) [
  | inl e ↦ rw e (ap suc (length-place before x ys))
  | inr e ↦ rw e refl
]

pub length-sorted :
    {A : Type 0} (before : A → A → Bool) (xs : List A) → length (sorted before xs) ≡ length xs
unfolding sorted
length-sorted before [] = refl
length-sorted before (x ∷ xs) =
    length-place before x (sorted before xs) ∙ ap suc (length-sorted before xs)

pub total-ext :
    {A : Type 0} (f g : A → ℤ) → ((a : A) → f a ≡ g a) → (xs : List A) → total f xs ≡ total g xs
total-ext f g h [] = refl
total-ext f g h (x ∷ xs) = rw (h x, total-ext f g h xs) refl
