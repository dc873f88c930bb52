-- ===== src/Routes/Nulls.antt =====
-- `_drop_nulls` of app/api/v1/routes.py.
pub mod Leaves
pub mod Laws
use demumumind_panel.Shared.{Bool, true, false, ◌&&◌, ◌≡◌, refl, ap, arith, String}
use demumumind_panel.Json.{
  Value, null, bool, int, float, str, list, dict, Items, nil, cons, Fields, end, field,
}

-- if cleaned: result[k] = cleaned
unfoldable pub keep_dict : String → Fields → Fields → Fields
keep_dict k end rest = rest
keep_dict k (field j v d) rest = field k (dict (field j v d)) rest

-- if cleaned_list: result[k] = cleaned_list
unfoldable pub keep_list : String → Items → Fields → Fields
keep_list k nil rest = rest
keep_list k (cons x xs) rest = field k (list (cons x xs)) rest

-- if cleaned_item: cleaned_list.append(cleaned_item)
unfoldable pub keep_item : Fields → Items → Items
keep_item end rest = rest
keep_item (field k v d) rest = cons (dict (field k v d)) rest

unfoldable mutual
  unfolding keep_dict keep_list keep_item

  -- `_drop_nulls`
  pub drop_nulls : Fields → Fields
  drop_nulls end = end
  drop_nulls (field k null d) = drop_nulls d
  drop_nulls (field k (dict e) d) = keep_dict k (drop_nulls e) (drop_nulls d)
  drop_nulls (field k (list xs) d) = keep_list k (drop_items xs) (drop_nulls d)
  drop_nulls (field k (bool b) d) = field k (bool b) (drop_nulls d)
  drop_nulls (field k (int n) d) = field k (int n) (drop_nulls d)
  drop_nulls (field k (float x) d) = field k (float x) (drop_nulls d)
  drop_nulls (field k (str s) d) = field k (str s) (drop_nulls d)

  -- the loop over the items of a list
  pub drop_items : Items → Items
  drop_items nil = nil
  drop_items (cons null xs) = drop_items xs
  drop_items (cons (dict e) xs) = keep_item (drop_nulls e) (drop_items xs)
  drop_items (cons (list ys) xs) = cons (list ys) (drop_items xs)
  drop_items (cons (bool b) xs) = cons (bool b) (drop_items xs)
  drop_items (cons (int n) xs) = cons (int n) (drop_items xs)
  drop_items (cons (float x) xs) = cons (float x) (drop_items xs)
  drop_items (cons (str s) xs) = cons (str s) (drop_items xs)
