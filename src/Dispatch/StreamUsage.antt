-- ===== src/Dispatch/StreamUsage.antt =====
-- `_extract_stream_usage` and `_record_stream_db_usage` of app/services/dispatch.py.

use Prim.Native.Char.{code}
use demumumind_panel.Shared.{
  ℕ, String, Bool, ◌||◌, ◌&&◌, Option, none, some, List, [], ◌∷◌, ◌++◌, ◌==◌, eqb, leb,
  if◌then◌else◌, ℤ, pos,
}
use demumumind_panel.Text.{starts_with, strip, drop_chars, join, Bytes}
use demumumind_panel.Json.{Value, dict, Fields, end, field, get, get_or, or_value, int}
use demumumind_panel.Errors.{Result, ok, raise, ◌>>=◌}
use demumumind_panel.Translate.Values.{Codec, as_dict}

-- the ends of lines of `splitlines`
is_break : ℕ → Bool
is_break n =
    leb 10 n && leb n 13 || leb 28 n && leb n 30 || eqb n 0x85 || eqb n 0x2028 || eqb n 0x2029

extend : String → List String → List String
extend c [] = c ∷ []
extend c (l ∷ ls) = join "" (c ∷ l ∷ []) ∷ ls

-- text.splitlines()
unfoldable pub split_lines : String → List String
unfolding is_break extend starts_with
split_lines String.[] = []
split_lines (String.◌∷◌ c s) =
    let rest = split_lines s in
    if eqb (code c) 13 && starts_with s "\n"
    then rest
    else if is_break (code c)
    then "" ∷ rest
    else extend (String.◌∷◌ c "") rest

-- the usage of the value of a line, if it is a dict
usage_of : Value → Result (Option Fields)
usage_of v = do d ← as_dict v; elim (get "usage" d) [ dict u ↦ ok (some u) | _ ↦ ok none ]

-- one line: what is no data, no JSON, or the end, is passed over
line_usage : Codec → String → Result (Option Fields)
unfolding usage_of strip
line_usage c line =
    let trimmed = strip line in
    let content = strip (drop_chars 5 trimmed) in
    if starts_with trimmed "data:"
    then (if content == "[DONE]"
        then ok none
        else elim (c.loads content) [ ok v ↦ usage_of v | raise e ↦ ok none ])
    else ok none

lines_usage : Codec → List String → Result (Option Fields)
unfolding line_usage
lines_usage c [] = ok none
lines_usage c (l ∷ ls) = do
  found ← line_usage c l
  elim found [ some u ↦ ok (some u) | none ↦ lines_usage c ls ]

-- b"".join(chunks)
unfoldable pub join_bytes : List Bytes → Bytes
join_bytes [] = []
join_bytes (b ∷ bs) = b ++ join_bytes bs

-- `_extract_stream_usage`, with the decoding of UTF-8
unfoldable pub extract_stream_usage : Codec → (Bytes → String) → List Bytes → Result (Option Fields)
unfolding lines_usage split_lines
extract_stream_usage c decode chunks = lines_usage c (split_lines (decode (join_bytes chunks)))

-- int((usage or {}).get(k, 0) or 0)
unfoldable pub stream_tokens : (Value → Result ℤ) → String → Option Fields → Result ℤ
stream_tokens int_of k none = int_of (int (pos 0))
stream_tokens int_of k (some u) = int_of (or_value (get_or k (int (pos 0)) u) (int (pos 0)))

-- {"usage": usage} if usage else {}
unfoldable pub lookup_of : Option Fields → Value
lookup_of none = dict end
lookup_of (some end) = dict end
lookup_of (some (field k v u)) = dict (field "usage" (dict (field k v u)) end)
