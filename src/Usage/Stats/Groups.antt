-- ===== src/Usage/Stats/Groups.antt =====
-- The groups of a key make up the table: their sums add up to the sums of all rows.
use demumumind_panel.Shared.{
  ℕ, ◌≤◌, ◌≡◌, refl, sym, ap, ◌∙◌, Bool, true, false, not, ◌&&◌, List, [], ◌∷◌, map, arith, keep,
  any, if◌then◌else◌, Bool-cases, inl, inr, ℤ, pos, ◌+ℤ◌, +ℤ_swap, +ℤ_assoc,
}
use demumumind_panel.Usage.{UsageRow, sum_by}
use demumumind_panel.Usage.Stats.Totals.{total, total-sorted, take_all, length-sorted, total-ext}
use demumumind_panel.Usage.Stats.{
  Key, distinct, group, AgentUsageOut, item, items_by, sorted, paged,
}

module _ {K : Type 0} (k : Key K) where
  mem : K → List K → Bool
  mem x ys = any (λ y. k.same x y) ys

  NoDup : List K → Type 0
  NoDup [] = Unit {0}
  NoDup (x ∷ xs) = (mem x xs ≡ false) × NoDup xs

  mem-keep :
      (x z : K) (xs : List K)
      → mem z (keep (λ y. not (k.same x y)) xs) ≡ (mem z xs && not (k.same x z))
  unfolding mem
  mem-keep x z [] = ground arith
  mem-keep x z (y ∷ ys) = elim (Bool-cases (k.same z y)) [
    | inl zy ↦
        let xy : k.same x y ≡ k.same x z = ap (k.same x) (sym ((k.same_iff z y).0 zy)) in
        ground (arith, mem-keep x z ys, xy, zy)
    | inr zy ↦ ground (arith, mem-keep x z ys, zy)
  ]

  mem-keep-false :
      (p : K → Bool) (x : K) (xs : List K) → mem x xs ≡ false → mem x (keep p xs) ≡ false
  unfolding mem
  mem-keep-false p x [] h = refl
  mem-keep-false p x (y ∷ ys) h = ground (arith, mem-keep-false p x ys)

  NoDup-keep : (p : K → Bool) (xs : List K) → NoDup xs → NoDup (keep p xs)
  unfolding NoDup
  NoDup-keep p [] h = tt
  NoDup-keep p (x ∷ xs) h = elim (Bool-cases (p x)) [
    | inl hit ↦ rw (hit, NoDup) (mem-keep-false p x xs h.0, NoDup-keep p xs h.1)
    | inr miss ↦ rw (miss, NoDup) (NoDup-keep p xs h.1)
  ]

  distinct-NoDup : (xs : List K) → NoDup (distinct k xs)
  unfolding NoDup distinct
  distinct-NoDup [] = tt
  distinct-NoDup (x ∷ xs) = (
    ground (arith, mem-keep x x (distinct k xs), (k.same_iff x x).1 refl),
    NoDup-keep (λ y. not (k.same x y)) (distinct k xs) (distinct-NoDup xs),
  )

  same_sym : (x y : K) → k.same x y ≡ k.same y x
  same_sym x y = ground (arith, k.same_iff x y, k.same_iff y x)

  mem-distinct : (z : K) (xs : List K) → mem z (distinct k xs) ≡ mem z xs
  unfolding mem distinct
  mem-distinct z [] = refl
  mem-distinct z (x ∷ xs) =
      ground (arith, mem-keep x z (distinct k xs), mem-distinct z xs, same_sym x z)

  -- An amount is added at the one place where a key stands.
  total-absent :
      (z : K) (v : ℤ) (g : K → ℤ) (xs : List K)
      → mem z xs ≡ false
      → total (λ x. if k.same z x then v +ℤ g x else g x) xs ≡ total g xs
  unfolding mem
  total-absent z v g [] h = refl
  total-absent z v g (x ∷ xs) h = ground (arith, total-absent z v g xs)

  total-once :
      (z : K) (v : ℤ) (g : K → ℤ) (xs : List K)
      → NoDup xs
      → mem z xs ≡ true
      → total (λ x. if k.same z x then v +ℤ g x else g x) xs ≡ v +ℤ total g xs
  unfolding mem NoDup
  total-once z v g [] nodup h = absurd (ground arith)
  total-once z v g (x ∷ xs) nodup h = elim (Bool-cases (k.same z x)) [
    | inl zx ↦
        let same : z ≡ x = (k.same_iff z x).0 zx in
        let absent : mem z xs ≡ false = rw same nodup.0 in
        rw zx (ap (◌+ℤ◌ (v +ℤ g x)) (total-absent z v g xs absent) ∙ +ℤ_assoc v (g x) (total g xs))
    | inr zx ↦
        let rest : mem z xs ≡ true = ground (arith, zx) in
        rw zx (ap (◌+ℤ◌ (g x)) (total-once z v g xs nodup.1 rest) ∙ +ℤ_swap (g x) v (total g xs))
  ]

  total-zero : (xs : List K) → total (λ x. pos 0) xs ≡ pos 0
  total-zero [] = refl
  total-zero (x ∷ xs) = ap (◌+ℤ◌ (pos 0)) (total-zero xs) ∙ (unfold ◌+ℤ◌ in refl)

  mem_here : (z : K) (xs : List K) → mem z (z ∷ xs) ≡ true
  unfolding mem
  mem_here z xs = ground (arith, (k.same_iff z z).1 refl)

  mem_later : (z x : K) (xs : List K) → mem z xs ≡ true → mem z (x ∷ xs) ≡ true
  unfolding mem
  mem_later z x xs h = ground arith

  group-cons :
      (f : UsageRow → ℤ) (key : UsageRow → K) (r : UsageRow) (rows : List UsageRow) (x : K)
      → sum_by f (group k key (r ∷ rows) x) ≡ (
          if k.same (key r) x
          then f r +ℤ sum_by f (group k key rows x)
          else sum_by f (group k key rows x))
  unfolding group sum_by
  group-cons f key r rows x = elim (Bool-cases (k.same (key r) x)) [
    | inl e ↦ rw e refl
    | inr e ↦ rw e refl
  ]

  -- The groups of keys that cover the rows, each once, add up to all rows.
  total-group :
      (f : UsageRow → ℤ) (key : UsageRow → K) (rows : List UsageRow) (xs : List K)
      → NoDup xs
      → ((z : K) → mem z (map key rows) ≡ true → mem z xs ≡ true)
      → total (λ x. sum_by f (group k key rows x)) xs ≡ sum_by f rows
  unfolding group sum_by
  total-group f key [] xs nodup cover = total-zero xs
  total-group f key (r ∷ rows) xs nodup cover =
      total-ext _ _ (group-cons f key r rows) xs
      ∙ total-once (key r) (f r) (λ x. sum_by f (group k key rows x)) xs nodup
          (cover (key r) (mem_here (key r) (map key rows)))
      ∙ ap (◌+ℤ◌ (f r))
          (total-group f key rows xs nodup (λ z h. cover z (mem_later z (key r) (map key rows) h)))

  total-items :
      (f : UsageRow → ℤ) (col : AgentUsageOut K → ℤ) (key : UsageRow → K) (rows : List UsageRow)
      → ((x : K) (g : List UsageRow) → col (item x g) ≡ sum_by f g)
      → total col (items_by k key rows) ≡ sum_by f rows
  unfolding items_by
  total-items f col key rows same_column =
      total-map (λ x. item x (group k key rows x)) col (distinct k (map key rows))
      ∙ total-ext _ _ (λ x. same_column x (group k key rows x)) (distinct k (map key rows))
      ∙ total-group f key rows (distinct k (map key rows)) (distinct-NoDup (map key rows))
          (λ z h. mem-distinct z (map key rows) ∙ h)
    where
      total-map :
          {A B : Type 0} (g : A → B) (c : B → ℤ) (xs : List A)
          → total c (map g xs) ≡ total (λ x. c (g x)) xs
      total-map g c [] = refl
      total-map g c (x ∷ xs) = ap (◌+ℤ◌ (c (g x))) (total-map g c xs)

  -- A page from the start that holds the whole result has the sums of the table.
  pub total-paged :
      (before : AgentUsageOut K → AgentUsageOut K → Bool) (limit : ℕ) (f : UsageRow → ℤ)
      (col : AgentUsageOut K → ℤ) (key : UsageRow → K) (rows : List UsageRow)
      → ((x : K) (g : List UsageRow) → col (item x g) ≡ sum_by f g)
      → (paged before limit 0 (items_by k key rows)).total ≤ limit
      → total col (paged before limit 0 (items_by k key rows)).items ≡ sum_by f rows
  unfolding paged
  total-paged before limit f col key rows same_column fits =
      let xs = items_by k key rows in
      ap (total col)
        (take_all limit (sorted before xs) (omega (arith, fits, length-sorted before xs)))
      ∙ total-sorted col before xs
      ∙ total-items f col key rows same_column
