-- ===== src/Routes/Nulls/Leaves.antt =====
-- What a body holds, before and after `_drop_nulls`.
use demumumind_panel.Shared.{String, ◌≡◌, refl, ap, List, [], ◌∷◌, ◌++◌, map}
use demumumind_panel.Json.{
  Value, null, bool, int, float, str, list, dict, Items, nil, cons, Fields, end, field,
}
use demumumind_panel.Routes.Nulls.{keep_dict, keep_list, keep_item, drop_nulls, drop_items}

-- What a body holds, in order: the values that are no null, dict or list, and the lists that are items
-- of lists, each under the keys that lead to it, and the starts of dicts that are items and hold
-- something.
pub data Leaf : Type 0 where
  leaf : List String → Value → Leaf
  item : List String → Leaf

unfoldable pub under : String → Leaf → Leaf
under k (leaf path v) = leaf (k ∷ path) v
under k (item path) = item (k ∷ path)

unfoldable pub boxed : List Leaf → List Leaf
boxed [] = []
boxed (x ∷ xs) = item [] ∷ x ∷ xs

unfoldable mutual
  unfolding boxed under

  pub leaves : Fields → List Leaf
  leaves end = []
  leaves (field k v d) = map (under k) (leaves_of v) ++ leaves d

  pub leaves_of : Value → List Leaf
  leaves_of null = []
  leaves_of (dict e) = leaves e
  leaves_of (list xs) = item_leaves xs
  leaves_of (bool b) = leaf [] (bool b) ∷ []
  leaves_of (int n) = leaf [] (int n) ∷ []
  leaves_of (float x) = leaf [] (float x) ∷ []
  leaves_of (str s) = leaf [] (str s) ∷ []

  pub item_leaves : Items → List Leaf
  item_leaves nil = []
  item_leaves (cons null xs) = item_leaves xs
  item_leaves (cons (dict e) xs) = boxed (leaves e) ++ item_leaves xs
  item_leaves (cons (list ys) xs) = leaf [] (list ys) ∷ item_leaves xs
  item_leaves (cons (bool b) xs) = leaf [] (bool b) ∷ item_leaves xs
  item_leaves (cons (int n) xs) = leaf [] (int n) ∷ item_leaves xs
  item_leaves (cons (float x) xs) = leaf [] (float x) ∷ item_leaves xs
  item_leaves (cons (str s) xs) = leaf [] (str s) ∷ item_leaves xs

leaves-keep_dict :
    (k : String) (e rest : Fields)
    → leaves (keep_dict k e rest) ≡ map (under k) (leaves e) ++ leaves rest
unfolding leaves keep_dict
leaves-keep_dict k end rest = refl
leaves-keep_dict k (field j v d) rest = refl

leaves-keep_list :
    (k : String) (xs : Items) (rest : Fields)
    → leaves (keep_list k xs rest) ≡ map (under k) (item_leaves xs) ++ leaves rest
unfolding leaves keep_list
leaves-keep_list k nil rest = refl
leaves-keep_list k (cons x xs) rest = refl

item_leaves-keep_item :
    (e : Fields) (rest : Items)
    → item_leaves (keep_item e rest) ≡ boxed (leaves e) ++ item_leaves rest
unfolding leaves keep_item boxed
item_leaves-keep_item end rest = refl
item_leaves-keep_item (field j v d) rest = refl

mutual
  unfolding drop_nulls leaves

  pub same_leaves : (d : Fields) → leaves (drop_nulls d) ≡ leaves d
  same_leaves end = refl
  same_leaves (field k null d) = same_leaves d
  same_leaves (field k (dict e) d) =
      rw (leaves-keep_dict k (drop_nulls e) (drop_nulls d), same_leaves e, same_leaves d) refl
  same_leaves (field k (list xs) d) =
      rw (leaves-keep_list k (drop_items xs) (drop_nulls d), same_items xs, same_leaves d) refl
  same_leaves (field k (bool b) d) = ap (λ ls. leaf (k ∷ []) (bool b) ∷ ls) (same_leaves d)
  same_leaves (field k (int n) d) = ap (λ ls. leaf (k ∷ []) (int n) ∷ ls) (same_leaves d)
  same_leaves (field k (float x) d) = ap (λ ls. leaf (k ∷ []) (float x) ∷ ls) (same_leaves d)
  same_leaves (field k (str s) d) = ap (λ ls. leaf (k ∷ []) (str s) ∷ ls) (same_leaves d)

  same_items : (xs : Items) → item_leaves (drop_items xs) ≡ item_leaves xs
  same_items nil = refl
  same_items (cons null xs) = same_items xs
  same_items (cons (dict e) xs) =
      rw (item_leaves-keep_item (drop_nulls e) (drop_items xs), same_leaves e, same_items xs) refl
  same_items (cons (list ys) xs) = ap (λ ls. leaf [] (list ys) ∷ ls) (same_items xs)
  same_items (cons (bool b) xs) = ap (λ ls. leaf [] (bool b) ∷ ls) (same_items xs)
  same_items (cons (int n) xs) = ap (λ ls. leaf [] (int n) ∷ ls) (same_items xs)
  same_items (cons (float x) xs) = ap (λ ls. leaf [] (float x) ∷ ls) (same_items xs)
  same_items (cons (str s) xs) = ap (λ ls. leaf [] (str s) ∷ ls) (same_items xs)
