-- ===== src/Routes/Nulls/Laws.antt =====
-- What `_drop_nulls` leaves of a body.
use demumumind_panel.Shared.{String, Bool, true, false, ◌&&◌, ◌≡◌, refl, ap, arith}
use demumumind_panel.Json.{
  Value, null, bool, int, float, str, list, dict, Items, nil, cons, Fields, end, field,
}
use demumumind_panel.Routes.Nulls.{keep_dict, keep_list, keep_item, drop_nulls, drop_items}
use demumumind_panel.Routes.Nulls.Leaves.{leaves, same_leaves}

-- Whether a body has no null, and no empty dict or list, as the value of a key or as an item of such
-- a value. What stands in a list of a list does not count.
unfoldable mutual
  pub is_clean : Fields → Bool
  is_clean end = true
  is_clean (field k v d) = is_clean_value v && is_clean d

  pub is_clean_value : Value → Bool
  is_clean_value null = false
  is_clean_value (dict end) = false
  is_clean_value (dict (field k v d)) = is_clean_value v && is_clean d
  is_clean_value (list nil) = false
  is_clean_value (list (cons x xs)) = is_clean_item x && are_clean xs
  is_clean_value (bool b) = true
  is_clean_value (int n) = true
  is_clean_value (float x) = true
  is_clean_value (str s) = true

  pub is_clean_item : Value → Bool
  is_clean_item null = false
  is_clean_item (dict end) = false
  is_clean_item (dict (field k v d)) = is_clean_value v && is_clean d
  is_clean_item (list xs) = true
  is_clean_item (bool b) = true
  is_clean_item (int n) = true
  is_clean_item (float x) = true
  is_clean_item (str s) = true

  pub are_clean : Items → Bool
  are_clean nil = true
  are_clean (cons x xs) = is_clean_item x && are_clean xs

both : (a b : Bool) → a ≡ true → b ≡ true → (a && b) ≡ true
both a b h k = rw (h, k)

parts : (a b : Bool) → (a && b) ≡ true → (a ≡ true) × (b ≡ true)
parts true b h = (refl, h)
parts false b h = (h, absurd (ground (arith, h)))

keep_dict-IsClean :
    (k : String) (e rest : Fields)
    → is_clean e ≡ true
    → is_clean rest ≡ true
    → is_clean (keep_dict k e rest) ≡ true
unfolding keep_dict is_clean
keep_dict-IsClean k end rest h h' = h'
keep_dict-IsClean k (field j v d) rest h h' = both (is_clean (field j v d)) (is_clean rest) h h'

keep_list-IsClean :
    (k : String) (xs : Items) (rest : Fields)
    → are_clean xs ≡ true
    → is_clean rest ≡ true
    → is_clean (keep_list k xs rest) ≡ true
unfolding keep_list is_clean
keep_list-IsClean k nil rest h h' = h'
keep_list-IsClean k (cons x xs) rest h h' = both (are_clean (cons x xs)) (is_clean rest) h h'

keep_item-IsClean :
    (e : Fields) (rest : Items)
    → is_clean e ≡ true
    → are_clean rest ≡ true
    → are_clean (keep_item e rest) ≡ true
unfolding keep_item is_clean
keep_item-IsClean end rest h h' = h'
keep_item-IsClean (field j v d) rest h h' = both (is_clean (field j v d)) (are_clean rest) h h'

mutual
  unfolding drop_nulls is_clean

  cleaned : (d : Fields) → is_clean (drop_nulls d) ≡ true
  cleaned end = refl
  cleaned (field k null d) = cleaned d
  cleaned (field k (dict e) d) =
      keep_dict-IsClean k (drop_nulls e) (drop_nulls d) (cleaned e) (cleaned d)
  cleaned (field k (list xs) d) =
      keep_list-IsClean k (drop_items xs) (drop_nulls d) (cleaned_items xs) (cleaned d)
  cleaned (field k (bool b) d) = cleaned d
  cleaned (field k (int n) d) = cleaned d
  cleaned (field k (float x) d) = cleaned d
  cleaned (field k (str s) d) = cleaned d

  cleaned_items : (xs : Items) → are_clean (drop_items xs) ≡ true
  cleaned_items nil = refl
  cleaned_items (cons null xs) = cleaned_items xs
  cleaned_items (cons (dict e) xs) =
      keep_item-IsClean (drop_nulls e) (drop_items xs) (cleaned e) (cleaned_items xs)
  cleaned_items (cons (list ys) xs) = cleaned_items xs
  cleaned_items (cons (bool b) xs) = cleaned_items xs
  cleaned_items (cons (int n) xs) = cleaned_items xs
  cleaned_items (cons (float x) xs) = cleaned_items xs
  cleaned_items (cons (str s) xs) = cleaned_items xs

mutual
  unfolding drop_nulls is_clean

  unchanged : (d : Fields) → is_clean d ≡ true → drop_nulls d ≡ d
  unchanged end h = refl
  unchanged (field k null d) h = absurd (ground (arith, h))
  unchanged (field k (dict end) d) h = absurd (ground (arith, h))
  unchanged (field k (dict (field j v e)) d) h =
      let (inner, rest) = parts (is_clean (field j v e)) (is_clean d) h in
      rw (unchanged (field j v e) inner, unchanged d rest, keep_dict)
  unchanged (field k (list nil) d) h = absurd (ground (arith, h))
  unchanged (field k (list (cons x xs)) d) h =
      let (inner, rest) = parts (are_clean (cons x xs)) (is_clean d) h in
      rw (unchanged_items (cons x xs) inner, unchanged d rest, keep_list)
  unchanged (field k (bool b) d) h = ap (field k (bool b)) (unchanged d h)
  unchanged (field k (int n) d) h = ap (field k (int n)) (unchanged d h)
  unchanged (field k (float x) d) h = ap (field k (float x)) (unchanged d h)
  unchanged (field k (str s) d) h = ap (field k (str s)) (unchanged d h)

  unchanged_items : (xs : Items) → are_clean xs ≡ true → drop_items xs ≡ xs
  unchanged_items nil h = refl
  unchanged_items (cons null xs) h = absurd (ground (arith, h))
  unchanged_items (cons (dict end) xs) h = absurd (ground (arith, h))
  unchanged_items (cons (dict (field j v e)) xs) h =
      let (inner, rest) = parts (is_clean (field j v e)) (are_clean xs) h in
      rw (unchanged (field j v e) inner, unchanged_items xs rest, keep_item)
  unchanged_items (cons (list ys) xs) h = ap (cons (list ys)) (unchanged_items xs h)
  unchanged_items (cons (bool b) xs) h = ap (cons (bool b)) (unchanged_items xs h)
  unchanged_items (cons (int n) xs) h = ap (cons (int n)) (unchanged_items xs h)
  unchanged_items (cons (float x) xs) h = ap (cons (float x)) (unchanged_items xs h)
  unchanged_items (cons (str s) xs) h = ap (cons (str s)) (unchanged_items xs h)

-- Of every body: what `_drop_nulls` leaves has no null and no empty dict or list as the value of a
-- key or as an item of such a value; it holds the same values under the same keys and in the same
-- order, that is all but nulls and what holds nothing but these, where a list that is itself an item
-- of a list counts as one value; and a second pass changes nothing.
pub drop_nulls_clean :
    (d : Fields)
    → (is_clean (drop_nulls d) ≡ true)
      × (leaves (drop_nulls d) ≡ leaves d)
      × (drop_nulls (drop_nulls d) ≡ drop_nulls d)
drop_nulls_clean d = (cleaned d, same_leaves d, unchanged (drop_nulls d) (cleaned d))
