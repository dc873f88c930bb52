-- ===== src/Json.antt =====
-- JSON values, Python's `Any` where the services handle decoded bodies and metadata, and the `dict`
-- operations and truth tests that they use. A float is held as an integer number of 10^-12, exact
-- for the decimal prices and temperatures that the services compare and add; rounding is not
-- modelled.
pub mod Laws
mod Examples
use demumumind_panel.Shared.{
  ℕ, ◌^◌, String, Bool, true, false, not, Option, none, some, List, [], ◌∷◌, ◌==◌, if◌then◌else◌, ℤ,
  pos, eqb_ℤ, ◌*ℤ◌, suc, ◌&&◌, eqb,
}
use demumumind_panel.Text.{nonempty}
use demumumind_panel.Errors.{Result, ok, raise, other}

mutual
  pub data Value : Type 0 where
    null : Value
    bool : Bool → Value
    int : ℤ → Value
    float : ℤ → Value
    str : String → Value
    list : Items → Value
    dict : Fields → Value

  pub data Items : Type 0 where
    nil : Items
    cons : Value → Items → Items

  -- The entries of a `dict`, in insertion order.
  pub data Fields : Type 0 where
    end : Fields
    field : String → Value → Fields → Fields

unfoldable pub to_list : Items → List Value
to_list nil = []
to_list (cons x xs) = x ∷ to_list xs

unfoldable pub of_list : List Value → Items
of_list [] = nil
of_list (x ∷ xs) = cons x (of_list xs)

-- The value of a key, if it is there.
unfoldable pub get? : String → Fields → Option Value
get? k end = none
get? k (field j v d) = if j == k then some v else get? k d

-- d.get(k)
unfoldable pub get : String → Fields → Value
unfolding get?
get k d = elim (get? k d) [ none ↦ null | some v ↦ v ]

-- d.get(k, default)
unfoldable pub get_or : String → Value → Fields → Value
unfolding get?
get_or k v d = elim (get? k d) [ none ↦ v | some w ↦ w ]

-- k in d
unfoldable pub has : String → Fields → Bool
unfolding get?
has k d = elim (get? k d) [ none ↦ false | some v ↦ true ]

-- d[k] = v
unfoldable pub set : String → Value → Fields → Fields
set k v end = field k v end
set k v (field j w d) = if j == k then field j v d else field j w (set k v d)

-- d.pop(k, None)
unfoldable pub delete : String → Fields → Fields
delete k end = end
delete k (field j w d) = if j == k then d else field j w (delete k d)

-- bool(v)
unfoldable pub truthy : Value → Bool
unfolding nonempty
truthy null = false
truthy (bool b) = b
truthy (int n) = not (eqb_ℤ n (pos 0))
truthy (float x) = not (eqb_ℤ x (pos 0))
truthy (str s) = nonempty s
truthy (list nil) = false
truthy (list (cons x xs)) = true
truthy (dict end) = false
truthy (dict (field k v d)) = true

-- v is None
unfoldable pub is_null : Value → Bool
is_null null = true
is_null (str s) = false
is_null _ = false

-- v or w
unfoldable pub or_value : Value → Value → Value
unfolding truthy
or_value v w = if truthy v then v else w

-- v if isinstance(v, dict) else {}
unfoldable pub dict_or_empty : Value → Fields
dict_or_empty (dict d) = d
dict_or_empty (str s) = end
dict_or_empty _ = end

abbrev pub units : ℤ
units = pos (10 ^ 12)

-- `float(v)` of an `int` or a `float` that is no `bool`.
unfoldable pub number? : Value → Option ℤ
unfolding ◌*ℤ◌
number? (int n) = some (n *ℤ units)
number? (float x) = some x
number? _ = none

-- A text column that should hold JSON: None or "", the text of a value, or some other text.
pub data JsonText : Type 0 where
  blank : JsonText
  encoded : Value → JsonText
  malformed : JsonText

-- json.loads(raw or "{}")
unfoldable pub loads : JsonText → Result Value
loads blank = ok (dict end)
loads (encoded v) = ok v
loads malformed = raise (other "JSONDecodeError" "")

-- `float(v)` of an `int` or a `float`, a Boolean being 0 or 1
unfoldable pub real? : Value → Option ℤ
unfolding number?
real? (bool true) = some units
real? (bool false) = some (pos 0)
real? v = number? v

same_real : Option ℤ → Option ℤ → Bool
same_real (some x) (some y) = eqb_ℤ x y
same_real none b = false
same_real (some x) none = false

unfoldable pub field_count : Fields → ℕ
field_count end = 0
field_count (field k v d) = suc (field_count d)

unfoldable mutual
  unfolding same_real

  -- v == w
  pub eq_value : Value → Value → Bool
  eq_value null w = is_null w
  eq_value (bool b) w = same_real (real? (bool b)) (real? w)
  eq_value (int n) w = same_real (real? (int n)) (real? w)
  eq_value (float x) w = same_real (real? (float x)) (real? w)
  eq_value (str s) w = elim w [ str t ↦ s == t | _ ↦ false ]
  eq_value (list xs) w = elim w [ list ys ↦ eq_items xs ys | _ ↦ false ]
  eq_value (dict d) w = elim w [
    | dict e ↦ eqb (field_count d) (field_count e) && eq_fields d e
    | _ ↦ false
  ]

  pub eq_items : Items → Items → Bool
  eq_items nil ys = elim ys [ nil ↦ true | cons y zs ↦ false ]
  eq_items (cons x xs) ys = elim ys [ nil ↦ false | cons y zs ↦ eq_value x y && eq_items xs zs ]

  -- the entries of the one stand in the other
  pub eq_fields : Fields → Fields → Bool
  eq_fields end e = true
  eq_fields (field k v d) e =
      elim (get? k e) [ none ↦ false | some w ↦ eq_value v w ] && eq_fields d e
