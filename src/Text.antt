-- ===== src/Text.antt =====
-- Python's `str` operations that the services use, on native texts: `lower`, `strip`, `in`,
-- `startswith`, `endswith`, `removeprefix`, `partition`, `join`, slices and decimal printing.
-- A slice `s[:n]` counts characters. `lower` is exact on ASCII and on the two other characters
-- whose lower case holds ASCII letters (U+212A and U+0130); it leaves the rest alone, which no
-- test against an ASCII text can tell from Python's.
use Prim.Native.Char.{Char, code}
mod Examples
use Prim.Native.String
use demumumind_panel.Shared.{
  ℕ, zero, suc, ◌+◌, ◌-◌, ◌*◌, ◌/◌, ◌%◌, ◌<◌, ◌≤◌, String, ◌≡◌, refl, Bool, true, false, ◌&&◌, ◌||◌,
  not, Option, none, some, List, [], ◌∷◌, arith, ◌==◌, eqb, ltb, leb, if◌then◌else◌, any,
}

infixr 65 ◌+s◌
-- s + t
unfoldable pub ◌+s◌ : String → String → String
String.[] +s t = t
(String.◌∷◌ c s) +s t = String.◌∷◌ c (s +s t)

-- A letter of the alphabet by its place, as a text of one character.
lower_letters : String
lower_letters = "abcdefghijklmnopqrstuvwxyz"

char_from : String → ℕ → String
char_from String.[] i = ""
char_from (String.◌∷◌ c s) zero = String.◌∷◌ c ""
char_from (String.◌∷◌ c s) (suc i) = char_from s i

lower_char : Char → String
unfolding lower_letters char_from
lower_char c =
    let n = code c in
    if leb b'A' n && leb n b'Z'
    then char_from lower_letters (n - b'A')
    else if eqb n 0x212a
    then "k"
    else if eqb n 0x130
    then "i̇"
    else String.◌∷◌ c ""

-- s.lower()
unfoldable pub lower : String → String
unfolding lower_char ◌+s◌
lower String.[] = ""
lower (String.◌∷◌ c s) = lower_char c +s lower s

-- s.startswith(p)
unfoldable pub starts_with : String → String → Bool
starts_with s String.[] = true
starts_with String.[] (String.◌∷◌ d p) = false
starts_with (String.◌∷◌ c s) (String.◌∷◌ d p) = eqb (code c) (code d) && starts_with s p

-- p in s
unfoldable pub contains : String → String → Bool
unfolding starts_with
contains String.[] p = starts_with "" p
contains (String.◌∷◌ c s) p = starts_with (String.◌∷◌ c s) p || contains s p

-- any(h in s for h in hints)
unfoldable pub contains_any : List String → String → Bool
unfolding contains
contains_any hints s = any (λ h. contains s h) hints

-- bool(s)
unfoldable pub nonempty : String → Bool
nonempty String.[] = false
nonempty (String.◌∷◌ c s) = true

-- s or t
unfoldable pub or_text : String → String → String
unfolding nonempty
or_text s t = if nonempty s then s else t

-- s[:n]
unfoldable pub prefix_of : ℕ → String → String
prefix_of zero s = ""
prefix_of (suc n) String.[] = ""
prefix_of (suc n) (String.◌∷◌ c s) = String.◌∷◌ c (prefix_of n s)

unfoldable pub drop_chars : ℕ → String → String
drop_chars zero s = s
drop_chars (suc n) String.[] = ""
drop_chars (suc n) (String.◌∷◌ c s) = drop_chars n s

unfoldable pub count_chars : String → ℕ
count_chars String.[] = 0
count_chars (String.◌∷◌ c s) = suc (count_chars s)

-- s.removeprefix(p)
unfoldable pub remove_prefix : String → String → String
unfolding starts_with drop_chars count_chars
remove_prefix s p = if starts_with s p then drop_chars (count_chars p) s else s

-- s.endswith(p)
unfoldable pub ends_with : String → String → Bool
ends_with String.[] p = p == ""
ends_with (String.◌∷◌ c s) p = String.◌∷◌ c s == p || ends_with s p

-- s.partition(c) for one character, by its code: before, whether it was found, after.
unfoldable pub partition : ℕ → String → String × Bool × String
partition n String.[] = ("", false, "")
partition n (String.◌∷◌ c s) =
    let (before, found, after) = partition n s in
    if eqb (code c) n then ("", true, s) else (String.◌∷◌ c before, found, after)

-- sep.join(parts)
unfoldable pub join : String → List String → String
unfolding ◌+s◌
join sep [] = ""
join sep (p ∷ []) = p
join sep (p ∷ q ∷ rest) = p +s sep +s join sep (q ∷ rest)

-- The ASCII white space of `strip`.
is_space : ℕ → Bool
is_space n = eqb n 32 || leb 9 n && leb n 13 || leb 28 n && leb n 31

lstrip : String → String
unfolding is_space
lstrip String.[] = ""
lstrip (String.◌∷◌ c s) = if is_space (code c) then lstrip s else String.◌∷◌ c s

rstrip : String → String
unfolding is_space nonempty
rstrip String.[] = ""
rstrip (String.◌∷◌ c s) =
    let r = rstrip s in if is_space (code c) && not (nonempty r) then "" else String.◌∷◌ c r

-- s.strip()
unfoldable pub strip : String → String
unfolding lstrip rstrip
strip s = rstrip (lstrip s)

decimal_digits : String
decimal_digits = "0123456789"

decimal_from : ℕ → ℕ → String
unfolding char_from decimal_digits ◌+s◌
decimal_from zero n = ""
decimal_from (suc f) n =
    let rest = decimal_from f (n / 10) in
    if ltb n 10 then char_from decimal_digits n else rest +s char_from decimal_digits (n % 10)

-- str(n): `n + 1` rounds are enough, since each divides by ten.
unfoldable pub decimal : ℕ → String
unfolding decimal_from
decimal n = decimal_from (n + 1) n

upper_letters : String
upper_letters = "ABCDEFGHIJKLMNOPQRSTUVWXYZ"

-- s.upper(), on ASCII
unfoldable pub upper : String → String
unfolding upper_letters char_from ◌+s◌
upper String.[] = ""
upper (String.◌∷◌ c s) =
    let n = code c in
    (if leb b'a' n && leb n b'z' then char_from upper_letters (n - b'a') else String.◌∷◌ c "")
    +s upper s

-- s.lstrip(c) and s.rstrip(c) for one character, by its code
unfoldable pub lstrip_char : ℕ → String → String
lstrip_char n String.[] = ""
lstrip_char n (String.◌∷◌ c s) = if eqb (code c) n then lstrip_char n s else String.◌∷◌ c s

unfoldable pub rstrip_char : ℕ → String → String
unfolding nonempty
rstrip_char n String.[] = ""
rstrip_char n (String.◌∷◌ c s) =
    let r = rstrip_char n s in if eqb (code c) n && not (nonempty r) then "" else String.◌∷◌ c r

-- s.isascii()
unfoldable pub is_ascii : String → Bool
is_ascii String.[] = true
is_ascii (String.◌∷◌ c s) = ltb (code c) 128 && is_ascii s

-- a `bytes` object
abbrev pub Bytes : Type 0
Bytes = List ℕ
