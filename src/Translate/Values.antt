-- ===== src/Translate/Values.antt =====
-- What Python does with the values that app/services/translate.py handles: `str`, `get`, iteration,
-- `+`, `join` and the JSON texts of tool arguments, with the exceptions that they raise.

use demumumind_panel.Shared.{
  suc, String, Bool, true, false, ◌||◌, Option, none, some, List, [], ◌∷◌, ◌++◌, ◌==◌,
  if◌then◌else◌, ℤ, pos, negsuc, ◌+ℤ◌,
}
use demumumind_panel.Text.{◌+s◌, decimal, join, nonempty}
use demumumind_panel.Json.{
  Value, null, bool, int, float, str, list, dict, nil, cons, Fields, end, field, to_list, of_list,
  get, get_or, set, truthy, or_value, is_null, real?,
}
use demumumind_panel.Errors.{Result, ok, raise, other, ◌>>=◌}

-- The `json` module, and `str` of a float, a list or a dict.
pub record Codec : Type 0 where
  pub dumps : Value → String
  pub loads : String → Result Value
  pub repr : Value → String

-- str(n)
decimal_ℤ : ℤ → String
decimal_ℤ (pos n) = decimal n
decimal_ℤ (negsuc n) = "-" +s decimal (suc n)

-- str(v)
unfoldable pub to_str : Codec → Value → String
unfolding decimal_ℤ
to_str c null = "None"
to_str c (bool b) = if b then "True" else "False"
to_str c (int n) = decimal_ℤ n
to_str c (str s) = s
to_str c v = c.repr v

-- type(v).__name__
type_name : Value → String
type_name null = "NoneType"
type_name (bool b) = "bool"
type_name (int n) = "int"
type_name (float x) = "float"
type_name (str s) = "str"
type_name (list xs) = "list"
type_name (dict d) = "dict"

-- calling a method that the class of `v` lacks
unfoldable pub no_attribute : {A : Type 0} → String → Value → Result A
unfolding type_name
no_attribute name v =
    raise
      (other "AttributeError" ("'" +s type_name v +s "' object has no attribute '" +s name +s "'"))

unfoldable pub type_error : {A : Type 0} → String → Result A
type_error text = raise (other "TypeError" text)

-- v.get(k, default)
unfoldable pub get_of : String → Value → Value → Result Value
unfolding no_attribute
get_of k v (dict d) = ok (get_or k v d)
get_of k v (str s) = no_attribute "get" (str s)
get_of k v w = no_attribute "get" w

-- v, which must be a dict before an attribute is read
unfoldable pub as_dict : Value → Result Fields
unfolding no_attribute
as_dict (dict d) = ok d
as_dict (str s) = no_attribute "get" (str s)
as_dict w = no_attribute "get" w

-- v == "…"
unfoldable pub is_text : String → Value → Bool
is_text k (str s) = s == k
is_text k (list xs) = false
is_text k _ = false

-- isinstance(v, dict)
unfoldable pub is_dict : Value → Bool
is_dict (dict d) = true
is_dict (str s) = false
is_dict _ = false

chars : String → List Value
chars String.[] = []
chars (String.◌∷◌ c s) = str (String.◌∷◌ c "") ∷ chars s

keys_of : Fields → List Value
keys_of end = []
keys_of (field k v d) = str k ∷ keys_of d

-- the elements over which `for x in v` runs
unfoldable pub iterate : Value → Result (List Value)
unfolding chars keys_of type_name type_error
iterate (list xs) = ok (to_list xs)
iterate (str s) = ok (chars s)
iterate (dict d) = ok (keys_of d)
iterate v = type_error ("'" +s type_name v +s "' object is not iterable")

-- the dicts among the values
unfoldable pub dicts : List Value → List Fields
dicts [] = []
dicts (dict d ∷ vs) = d ∷ dicts vs
dicts (str s ∷ vs) = dicts vs
dicts (_ ∷ vs) = dicts vs

-- a loop that appends one result for each element
unfoldable pub traverse : {A B : Type 0} → (A → Result B) → List A → Result (List B)
traverse f [] = ok []
traverse f (x ∷ xs) = do y ← f x; ys ← traverse f xs; ok (y ∷ ys)

-- a loop that extends a list for each element
unfoldable pub traverse_all : {A B : Type 0} → (A → Result (List B)) → List A → Result (List B)
traverse_all f [] = ok []
traverse_all f (x ∷ xs) = do y ← f x; ys ← traverse_all f xs; ok (y ++ ys)

-- the int of an `int` or a `bool`
whole? : Value → Option ℤ
whole? (int n) = some n
whole? (bool true) = some (pos 1)
whole? (bool false) = some (pos 0)
whole? _ = none

-- v + w
unfoldable pub add_value : Value → Value → Result Value
unfolding whole? ◌+ℤ◌ ◌+s◌ type_error
add_value (str s) (str t) = ok (str (s +s t))
add_value (list xs) (list ys) = ok (list (of_list (to_list xs ++ to_list ys)))
add_value v w = elim (whole? v) [
  | some n ↦ elim (whole? w) [ some m ↦ ok (int (n +ℤ m)) | none ↦ add_real (real? v) (real? w) ]
  | none ↦ add_real (real? v) (real? w)
]
  where
    add_real : Option ℤ → Option ℤ → Result Value
    add_real (some x) (some y) = ok (float (x +ℤ y))
    add_real none y = type_error "unsupported operand type(s) for +"
    add_real (some x) none = type_error "unsupported operand type(s) for +"

-- s + v for a text s
unfoldable pub concat_text : String → Value → Result String
unfolding type_name type_error
concat_text s (str t) = ok (s +s t)
concat_text s (list xs) = type_error "can only concatenate str (not \"list\") to str"
concat_text s v = type_error ("can only concatenate str (not \"" +s type_name v +s "\") to str")

-- sep.join(vs)
unfoldable pub join_values : String → List Value → Result String
unfolding type_error
join_values sep vs = do parts ← traverse text vs; ok (join sep parts)
  where
    text : Value → Result String
    text (str s) = ok s
    text _ = type_error "sequence item: expected str instance"

-- json.loads(v or "{}")
unfoldable pub loads_or : Codec → Value → Result Value
unfolding type_error type_name
loads_or c v = elim (truthy v) [
  | true ↦ elim v [
    | str s ↦ c.loads s
    | w ↦ type_error ("the JSON object must be str, bytes or bytearray, not " +s type_name w)
  ]
  | false ↦ c.loads "{}"
]

-- a field whose value is a text
abbrev pub text : String → String → Fields → Fields
text k s d = field k (str s) d

-- [v]
abbrev pub single : Value → Value
single v = list (cons v nil)

-- if d.get(k) is not None: out[j] = d[k]
unfoldable pub copy : String → String → Fields → Fields → Fields
unfolding get is_null set
copy k j d out = if is_null (get k d) then out else set j (get k d) out

-- if v: out[j] = v, for a text v
unfoldable pub set_text : String → String → Fields → Fields
unfolding nonempty set
set_text j s out = if nonempty s then set j (str s) out else out

-- role if role in ("user", "assistant") else "user"
unfoldable pub chat_role : Value → Value
unfolding is_text
chat_role role = if is_text "user" role || is_text "assistant" role then role else str "user"

-- for m in body.get(k) or []
unfoldable pub iterate_of : String → Fields → Result (List Value)
unfolding iterate get or_value
iterate_of k d = iterate (or_value (get k d) (list nil))
