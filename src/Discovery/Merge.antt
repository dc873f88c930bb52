-- ===== src/Discovery/Merge.antt =====
-- `_merge_provider_meta` and the import of `discover_and_test` of app/services/discovery.py into the
-- table of models. Whether the database takes a new row is a parameter, as its constraints decide.
pub mod Laws
use demumumind_panel.Shared.{
  ℕ, ◌+◌, String, Bool, true, false, not, ◌&&◌, ◌||◌, Option, none, some, List, [], ◌∷◌, ◌++◌, ◌==◌,
  if◌then◌else◌,
}
use demumumind_panel.Json.{
  Value, Fields, null, str, dict, end, field, get, get?, get_or, set, eq_value, or_value, truthy,
  JsonText, blank, encoded, loads,
}
use demumumind_panel.Errors.{Result, ok, raise, other, ◌>>=◌}
use demumumind_panel.Manager.{ModelRow}

-- the loop over the entries of the listing, with `changed`
unfoldable pub merge_entries : Fields → Bool × Fields → Bool × Fields
merge_entries end (changed, merged) = (changed, merged)
merge_entries (field k v new) (changed, merged) =
    merge_entries new
      (if eq_value (get k merged) v then (changed, merged) else (true, set k v merged))

-- dict(existing_meta.get(key) or {})
copied : String → Fields → Result Fields
copied key existing = elim (or_value (get key existing) (dict end)) [
  | dict d ↦ ok d
  | _ ↦ raise (other "TypeError" "dict")
]

-- the merge of "pricing" or "limits", if the listing has a dict there
merge_dict : String → Fields → Bool × Fields → Result (Bool × Fields)
unfolding copied
merge_dict key discovered (changed, existing) = elim (get key discovered) [
  | dict new ↦ do
    old ← copied key existing
    ok (
      (merge_entries new (changed, old)).0,
      set key (dict (merge_entries new (changed, old)).1) existing,
    )
  | _ ↦ ok (changed, existing)
]

-- the merge of "free" or "kind", if the listing has it
merge_flag : String → Fields → Bool × Fields → Bool × Fields
merge_flag key discovered (changed, existing) = elim (get? key discovered) [
  | none ↦ (changed, existing)
  | some v ↦
      if eq_value (get key existing) v then (changed, existing) else (true, set key v existing)
]

unfoldable pub is_manual : Fields → Bool
is_manual existing = eq_value (get "price_source" existing) (str "manual")

-- `_merge_provider_meta`: whether the metadata changed, and the metadata
unfoldable pub merge_provider_meta : Fields → Fields → Result (Bool × Fields)
unfolding merge_dict merge_flag
merge_provider_meta existing discovered =
    if not (truthy (dict discovered)) || is_manual existing then ok (false, existing) else (do
      priced ← merge_dict "pricing" discovered (false, existing)
      merge_dict "limits" discovered
          (merge_flag "kind" discovered (merge_flag "free" discovered priced)))

saved : ModelRow → Bool × Fields → ModelRow
saved row (changed, mmeta) = if changed then record row { meta = encoded (dict mmeta) } else row

merged_row : ModelRow → Fields → Value → Result ModelRow
unfolding saved
merged_row row dmeta (dict mmeta) = do
  merged ← merge_provider_meta mmeta dmeta
  ok (saved row merged)
merged_row row dmeta (str s) = raise (other "AttributeError" "get")
merged_row row dmeta _ = raise (other "AttributeError" "get")

-- what becomes of a known row
unfoldable pub update_row : Fields → ModelRow → Result ModelRow
unfolding merged_row
update_row dmeta row =
    if truthy (dict dmeta) then (do mmeta ← loads row.meta; merged_row row dmeta mmeta) else ok row

-- the row of a provider and an id
unfoldable pub is_row_of : String → String → ModelRow → Bool
is_row_of provider_id mid row = row.provider_id == provider_id && row.user_model_id == mid

has_row : String → String → List ModelRow → Bool
has_row provider_id mid [] = false
has_row provider_id mid (row ∷ rows) = is_row_of provider_id mid row || has_row provider_id mid rows

unfoldable pub update_first : String → String → Fields → List ModelRow → Result (List ModelRow)
update_first provider_id mid dmeta [] = ok []
update_first provider_id mid dmeta (row ∷ rows) =
    let rest = update_first provider_id mid dmeta rows in
    if is_row_of provider_id mid row
    then (do row' ← update_row dmeta row; ok (row' ∷ rows))
    else (do rows' ← rest; ok (row ∷ rows'))

unfoldable pub new_row : String → String → String → Fields → ModelRow
new_row id provider_id mid dmeta = record {
  id = id;
  provider_id = provider_id;
  user_model_id = mid;
  internal_model = mid;
  is_active = true;
  meta = if truthy (dict dmeta) then encoded (dict dmeta) else encoded (dict end);
}

-- The numbers of imported and skipped models and the table.
pub record Import : Type 0 where
  pub imported : ℕ
  pub skipped : ℕ
  pub rows : List ModelRow

-- the loop over the listing
unfoldable pub import_models :
    (ℕ → String)
    → (List ModelRow → ModelRow → Bool)
    → String
    → List (String × Fields)
    → Import
    → Result Import
unfolding has_row
import_models uuid accepts provider_id [] s = ok s
import_models uuid accepts provider_id ((mid, dmeta) ∷ items) s =
    let row = new_row (uuid (s.imported + s.skipped)) provider_id mid dmeta in
    if has_row provider_id mid s.rows
    then (do
      rows ← update_first provider_id mid dmeta s.rows
      import_models uuid accepts provider_id items
          (record s { skipped = s.skipped + 1; rows = rows }))
    else if accepts s.rows row
    then import_models uuid accepts provider_id items
        (record s { imported = s.imported + 1; rows = s.rows ++ row ∷ [] })
    else import_models uuid accepts provider_id items (record s { skipped = s.skipped + 1 })
