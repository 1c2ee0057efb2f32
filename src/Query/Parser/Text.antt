-- ===== src/Query/Parser/Text.antt =====
-- Texts read character by character, as the parsers of query-parser/src/parser.rs read them.
use Prim.Native.Char.{Char, code}
use funtonic.Base.{
  ℕ, suc, ◌+◌, String, Bool, true, false, ◌||◌, ◌&&◌, Option, none, some, leb, nat_eq,
  if◌then◌else◌,
}

abbrev pub same_char : Char → Char → Bool
same_char c d = nat_eq (code c) (code d)

abbrev pub size : String → ℕ
size String.[] = 0
size (String.◌∷◌ c s) = suc (size s)

-- `str.contains(char)`
unfoldable pub contains : String → Char → Bool
contains String.[] d = false
contains (String.◌∷◌ c s) d = same_char c d || contains s d

abbrev pub all_chars : (Char → Bool) → String → Bool
all_chars test String.[] = true
all_chars test (String.◌∷◌ c s) = test c && all_chars test s

-- The longest beginning whose characters all pass the test, and what follows it.
unfoldable pub taken : (Char → Bool) → String → String
taken test String.[] = String.[]
taken test (String.◌∷◌ c s) = if test c then String.◌∷◌ c (taken test s) else String.[]

unfoldable pub left : (Char → Bool) → String → String
left test String.[] = String.[]
left test (String.◌∷◌ c s) = if test c then left test s else String.◌∷◌ c s

-- What follows a given beginning.
unfoldable pub strip : String → String → Option String
strip String.[] i = some i
strip (String.◌∷◌ c t) String.[] = none
strip (String.◌∷◌ c t) (String.◌∷◌ d i) = if same_char c d then strip t i else none

abbrev pub lower : ℕ → ℕ
lower n = if leb b'A' n && leb n b'Z' then n + 32 else n

-- The same without regard to the case of ASCII letters.
unfoldable pub strip_no_case : String → String → Option String
strip_no_case String.[] i = some i
strip_no_case (String.◌∷◌ c t) String.[] = none
strip_no_case (String.◌∷◌ c t) (String.◌∷◌ d i) =
    if nat_eq (lower (code c)) (lower (code d)) then strip_no_case t i else none

-- Space, tab, carriage return and line feed.
unfoldable pub is_space : Char → Bool
is_space c = nat_eq (code c) 32 || nat_eq (code c) 9 || nat_eq (code c) 13 || nat_eq (code c) 10

-- What follows one or more spaces.
unfoldable pub skip_spaces : String → Option String
unfolding is_space left
skip_spaces String.[] = none
skip_spaces (String.◌∷◌ c s) = if is_space c then some (left is_space s) else none

-- ASCII letters and digits, of a byte.
unfoldable pub alphanumeric : ℕ → Bool
alphanumeric n = leb b'0' n && leb n b'9' || leb b'A' n && leb n b'Z' || leb b'a' n && leb n b'z'
