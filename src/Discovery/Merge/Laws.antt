-- ===== src/Discovery/Merge/Laws.antt =====
-- What an import leaves of the rows that are there.
use mathlib.Core.Path.{subst}
use demumumind_panel.Shared.{
  ℕ, ◌+◌, String, ◌≡◌, refl, sym, ap, ◌∙◌, Bool, true, false, ◌⊎◌, List, [], ◌∷◌, ◌++◌, arith,
  length, Bool-cases, inl, inr,
}
use demumumind_panel.Json.{Value, Fields, str, dict, truthy, loads}
use demumumind_panel.Errors.{Result, ok, raise, ◌>>=◌}
use demumumind_panel.Manager.{ModelRow}
use demumumind_panel.Discovery.Merge.{
  merge_provider_meta, is_manual, saved, merged_row, update_row, is_row_of, has_row, update_first,
  new_row, Import, import_models,
}

-- Whether a value is metadata with a manual price.
abbrev pub manual_value : Value → Bool
manual_value (dict d) = is_manual d
manual_value (str s) = false
manual_value _ = false

abbrev pub has_manual_price : ModelRow → Bool
has_manual_price row = elim (loads row.meta) [ ok v ↦ manual_value v | raise e ↦ false ]

-- A row is itself but for its metadata, which is the same too if its price is manual.
abbrev pub SameRow : ModelRow → ModelRow → Type 0
SameRow r r' =
    (r'.id ≡ r.id)
    × (r'.provider_id ≡ r.provider_id)
    × (r'.user_model_id ≡ r.user_model_id)
    × (r'.internal_model ≡ r.internal_model)
    × (r'.is_active ≡ r.is_active)
    × ((has_manual_price r ≡ false) ⊎ (r'.meta ≡ r.meta))

-- The rows of a table stand in another one in the same order, with new rows behind them.
abbrev pub Kept : List ModelRow → List ModelRow → Type 0
Kept [] rows' = Unit {0}
Kept (r ∷ rows) [] = ⊥
Kept (r ∷ rows) (r' ∷ rows') = SameRow r r' × Kept rows rows'

SameRow-refl : (r : ModelRow) → SameRow r r
SameRow-refl r = (refl, refl, refl, refl, refl, inr refl)

Kept-refl : (rows : List ModelRow) → Kept rows rows
Kept-refl [] = tt
Kept-refl (r ∷ rows) = (SameRow-refl r, Kept-refl rows)

SameRow-trans : (a b c : ModelRow) → SameRow a b → SameRow b c → SameRow a c
SameRow-trans a b c (i, p, u, n, x, m) (i', p', u', n', x', m') =
    (i' ∙ i, p' ∙ p, u' ∙ u, n' ∙ n, x' ∙ x, metas m m')
  where
    metas :
        ((has_manual_price a ≡ false) ⊎ (b.meta ≡ a.meta))
        → ((has_manual_price b ≡ false) ⊎ (c.meta ≡ b.meta))
        → ((has_manual_price a ≡ false) ⊎ (c.meta ≡ a.meta))
    metas (inl off) m' = inl off
    metas (inr e) (inl off) =
        inl (ap (λ t. elim (loads t) [ ok v ↦ manual_value v | raise e ↦ false ]) (sym e) ∙ off)
    metas (inr e) (inr e') = inr (e' ∙ e)

Kept-trans : (a b c : List ModelRow) → Kept a b → Kept b c → Kept a c
Kept-trans [] b c h k = tt
Kept-trans (x ∷ a) [] c h k = absurd h
Kept-trans (x ∷ a) (y ∷ b) [] h k = absurd k
Kept-trans (x ∷ a) (y ∷ b) (z ∷ c) h k = (SameRow-trans x y z h.0 k.0, Kept-trans a b c h.1 k.1)

Kept-append : (a new : List ModelRow) → Kept a (a ++ new)
Kept-append [] new = tt
Kept-append (x ∷ a) new = (SameRow-refl x, Kept-append a new)

-- A result that is ok is the one.
pub ok_inj : {A : Type 0} {a b : A} → ok a ≡ ok b → a ≡ b
ok_inj h = ground arith

saved_fields :
    (row : ModelRow) (changed : Bool) (mmeta : Fields)
    → has_manual_price row ≡ false
    → SameRow row (saved row (changed, mmeta))
unfolding saved
saved_fields row true mmeta off = (refl, refl, refl, refl, refl, inl off)
saved_fields row false mmeta off = SameRow-refl row

-- A call of `>>=` that is ok has an ok first result.
pub bind_ok :
    {A B : Type 0} {m : Result A} {k : A → Result B} {b : B}
    → (m >>= k) ≡ ok b
    → (a : A) × (m ≡ ok a) × (k a ≡ ok b)
bind_ok {m = ok a} h = (a, refl, h)
bind_ok {m = raise e} h = absurd (ground arith)

merge_manual :
    (existing discovered : Fields)
    → is_manual existing ≡ true
    → merge_provider_meta existing discovered ≡ ok (false, existing)
unfolding merge_provider_meta
merge_manual existing discovered h = elim (Bool-cases (truthy (dict discovered))) [
  | inl some_given ↦ rw (some_given, h) refl
  | inr nothing ↦ rw nothing refl
]

merged_row-SameRow :
    (row : ModelRow) (dmeta : Fields) (v : Value) {row' : ModelRow}
    → loads row.meta ≡ ok v
    → merged_row row dmeta v ≡ ok row'
    → SameRow row row'
unfolding merged_row
merged_row-SameRow row dmeta (dict mmeta) {row'} l h = elim (Bool-cases (is_manual mmeta)) [
  | inl manual ↦
      let same : row ≡ row' = ok_inj (rw (merge_manual mmeta dmeta manual) at h) in
      subst (SameRow row) same (SameRow-refl row)
  | inr off ↦
      let (merged, e, h') = bind_ok {m = merge_provider_meta mmeta dmeta} h in
      let not_manual : has_manual_price row ≡ false = rw (l, has_manual_price) off in
      subst (SameRow row) (ok_inj h') (saved_fields row merged.0 merged.1 not_manual)
]
merged_row-SameRow row dmeta (str s) l h = absurd (ground arith)
merged_row-SameRow row dmeta _ l h = absurd (ground arith)

update_row-SameRow :
    (dmeta : Fields) (row : ModelRow) {row' : ModelRow}
    → update_row dmeta row ≡ ok row'
    → SameRow row row'
unfolding update_row
update_row-SameRow dmeta row {row'} h = elim (Bool-cases (truthy (dict dmeta))) [
  | inl given ↦
      let (v, l, h') = bind_ok {m = loads row.meta} (rw given at h) in
      merged_row-SameRow row dmeta v l h'
  | inr nothing ↦ subst (SameRow row) (ok_inj (rw nothing at h)) (SameRow-refl row)
]

update_first-Kept :
    (provider_id mid : String) (dmeta : Fields) (rows : List ModelRow) {rows' : List ModelRow}
    → update_first provider_id mid dmeta rows ≡ ok rows'
    → Kept rows rows'
unfolding update_first
update_first-Kept provider_id mid dmeta [] {rows'} h = tt
update_first-Kept provider_id mid dmeta (row ∷ rows) {rows'} h =
    elim (Bool-cases (is_row_of provider_id mid row)) [
      | inl hit ↦
          let (row', e, h') = bind_ok {m = update_row dmeta row} (rw hit at h) in
          subst (Kept (row ∷ rows)) (ok_inj h') (update_row-SameRow dmeta row e, Kept-refl rows)
      | inr miss ↦
          let (rest, e, h') =
            bind_ok {m = update_first provider_id mid dmeta rows} (rw miss at h) in
          subst (Kept (row ∷ rows)) (ok_inj h')
            (SameRow-refl row, update_first-Kept provider_id mid dmeta rows e)
    ]

-- An import that ends without an exception keeps every row of the table in its place, with its ids,
-- its name and its flag, and with its metadata as well where the price was set by hand; new rows
-- stand behind the old ones, and every model of the listing counts as imported or skipped.
pub import_models-Kept :
    (uuid : ℕ → String) (accepts : List ModelRow → ModelRow → Bool) (provider_id : String)
    (items : List (String × Fields)) (s : Import) {s' : Import}
    → import_models uuid accepts provider_id items s ≡ ok s'
    → Kept s.rows s'.rows × (s'.imported + s'.skipped ≡ s.imported + s.skipped + length items)
unfolding import_models
import_models-Kept uuid accepts provider_id [] s h =
    subst (λ t. Kept s.rows t.rows × (t.imported + t.skipped ≡ s.imported + s.skipped + 0))
      (ok_inj h) (Kept-refl s.rows, omega arith)
import_models-Kept uuid accepts provider_id ((mid, dmeta) ∷ items) s {s'} h =
    let row = new_row (uuid (s.imported + s.skipped)) provider_id mid dmeta in
    elim (Bool-cases (has_row provider_id mid s.rows)) [
      | inl old ↦
          let (rows, e, h') =
            bind_ok {m = update_first provider_id mid dmeta s.rows} (rw old at h) in
          let (kept, count) =
            import_models-Kept uuid accepts provider_id items
              (record s { skipped = s.skipped + 1; rows = rows }) h' in
          (
            Kept-trans s.rows rows s'.rows (update_first-Kept provider_id mid dmeta s.rows e) kept,
            omega (arith, count),
          )
      | inr new ↦ elim (Bool-cases (accepts s.rows row)) [
        | inl taken ↦
            let (kept, count) =
              import_models-Kept uuid accepts provider_id items
                (record s { imported = s.imported + 1; rows = s.rows ++ row ∷ [] })
                (rw (new, taken) at h) in
            (
              Kept-trans s.rows (s.rows ++ row ∷ []) s'.rows (Kept-append s.rows (row ∷ [])) kept,
              omega (arith, count),
            )
        | inr refused ↦
            let (kept, count) =
              import_models-Kept uuid accepts provider_id items
                (record s { skipped = s.skipped + 1 }) (rw (new, refused) at h) in
            (kept, omega (arith, count))
      ]
    ]
