-- ===== src/Text.antt =====
-- JavaScript strings as the lists of their UTF-16 code units, with the methods and the regular
-- expressions that scripts/pre-commit-check.ts and src/lib apply to them.
use Prim.Native.Char.{code}
use ocn_registry_v.Base.{
  ℕ, zero, suc, ◌+◌, ◌-◌, ◌*◌, String, Bool, true, false, not, ◌&&◌, ◌||◌, Option, none, some, List,
  [], ◌∷◌, ◌++◌, ◌==◌, nat_eq, numbers_eq, leb, if◌then◌else◌,
}

abbrev pub Text : Type 0
Text = List ℕ

-- A literal of ASCII characters.
abbrev pub codes : String → Text
codes String.[] = []
codes (String.◌∷◌ c s) = code c ∷ codes s

-- `text.startsWith(prefix)`
unfoldable pub starts_with : Text → Text → Bool
starts_with [] text = true
starts_with (c ∷ prefix) [] = false
starts_with (c ∷ prefix) (d ∷ text) = c == d && starts_with prefix text

-- `text.slice(n)`
unfoldable pub slice : ℕ → Text → Text
slice zero text = text
slice (suc n) [] = []
slice (suc n) (c ∷ text) = slice n text

-- `text.slice(0, n)`
unfoldable pub front : ℕ → Text → Text
front zero text = []
front (suc n) [] = []
front (suc n) (c ∷ text) = c ∷ front n text

-- `text.endsWith(suffix)`
unfoldable pub ends_with : Text → Text → Bool
ends_with suffix [] = suffix == []
ends_with suffix (c ∷ text) = suffix == (c ∷ text) || ends_with suffix text

-- The white space of `\s` and of `trim`.
unfoldable pub is_space : ℕ → Bool
is_space c =
    (leb 9 c && leb c 13)
    || c == 32
    || c == 0xa0
    || c == 0x1680
    || (leb 0x2000 c && leb c 0x200a)
    || c == 0x2028
    || c == 0x2029
    || c == 0x202f
    || c == 0x205f
    || c == 0x3000
    || c == 0xfeff

-- `text.trim()` as a condition.
unfoldable pub has_ink : Text → Bool
has_ink [] = false
has_ink (c ∷ text) = not (is_space c) || has_ink text

unfoldable pub is_digit : ℕ → Bool
is_digit c = leb b'0' c && leb c b'9'

-- `[a-fA-F0-9]`
unfoldable pub is_hex : ℕ → Bool
is_hex c = (leb b'a' c && leb c b'f') || (leb b'A' c && leb c b'F') || (leb b'0' c && leb c b'9')

unfoldable pub all_hex : Text → Bool
all_hex [] = true
all_hex (c ∷ text) = is_hex c && all_hex text

-- `text.split(c)`: the piece that is open, and the rest.
unfoldable pub split_from : ℕ → Text → Text → List Text
split_from separator piece [] = piece ∷ []
split_from separator piece (c ∷ text) =
    let closed = piece ∷ split_from separator [] text in
    let longer = split_from separator (piece ++ c ∷ []) text in
    if c == separator then closed else longer

unfoldable pub split : ℕ → Text → List Text
split separator text = split_from separator [] text

-- `text.includes(word)`
unfoldable pub includes : Text → Text → Bool
includes word [] = word == []
includes word (c ∷ text) = starts_with word (c ∷ text) || includes word text

-- `texts.join(separator)`
unfoldable pub join : Text → List Text → Text
join separator [] = []
join separator (text ∷ []) = text
join separator (text ∷ next ∷ texts) = text ++ separator ++ join separator (next ∷ texts)

-- A maximal run of digits: its value and what follows; `none` if there is no digit.
unfoldable pub digits_from : ℕ → Text → ℕ × Text
digits_from n [] = (n, [])
digits_from n (c ∷ text) =
    let longer = digits_from (n * 10 + (c - b'0')) text in
    if is_digit c then longer else (n, c ∷ text)

unfoldable pub digits : Text → Option (ℕ × Text)
digits [] = none
digits (c ∷ text) = if is_digit c then some (digits_from (c - b'0') text) else none

-- A literal, and what follows it.
unfoldable pub literal : Text → Text → Option Text
literal [] text = some text
literal (c ∷ word) [] = none
literal (c ∷ word) (d ∷ text) = if c == d then literal word text else none

-- `text.trim()`
unfoldable pub trim_start : Text → Text
trim_start [] = []
trim_start (c ∷ text) = let rest = trim_start text in if is_space c then rest else c ∷ text

unfoldable pub trim_end : Text → Text
trim_end [] = []
trim_end (c ∷ text) = let rest = trim_end text in if is_space c && rest == [] then [] else c ∷ rest

unfoldable pub trim : Text → Text
trim text = trim_end (trim_start text)
