-- ===== src/Text.antt =====
-- What the program uses of Go's package strings: Fields, Join, HasPrefix and `+`. A text is a
-- sequence of Unicode code points.
pub mod Fields
use Prim.Native.Char.{Char, code}
use Prim.Native.String
use Prim.Native.String.{◌++◌ as concat}
use iam_service.Prelude.{
  ℕ, String, List, [], ◌∷◌, Bool, true, false, ◌&&◌, ◌||◌, leb, ◌==◌, if◌then◌else◌,
}

abbrev between : ℕ → ℕ → ℕ → Bool
between lo hi n = leb lo n && leb n hi

-- unicode.IsSpace
unfoldable pub is_space : Char → Bool
is_space c =
    between 0x09 0x0d (code c)
    || between 0x20 0x20 (code c)
    || between 0x85 0x85 (code c)
    || between 0xa0 0xa0 (code c)
    || between 0x1680 0x1680 (code c)
    || between 0x2000 0x200a (code c)
    || between 0x2028 0x2029 (code c)
    || between 0x202f 0x202f (code c)
    || between 0x205f 0x205f (code c)
    || between 0x3000 0x3000 (code c)

abbrev pub emit : String → List String → List String
emit word rest = if word == "" then rest else word ∷ rest

-- The word that the text begins with, which may be empty, and the fields behind it.
unfoldable pub split_word : String → String × List String
split_word String.[] = ("", [])
split_word (String.◌∷◌ c s) =
    let (word, rest) = split_word s in
    if is_space c then ("", emit word rest) else (String.◌∷◌ c word, rest)

-- strings.Fields
unfoldable pub fields : String → List String
unfolding split_word is_space
fields s = let (word, rest) = split_word s in emit word rest

-- strings.Join
unfoldable pub join : List String → String → String
join [] sep = ""
join (x ∷ []) sep = x
join (x ∷ y ∷ rest) sep = concat x (concat sep (join (y ∷ rest) sep))

-- strings.HasPrefix
unfoldable pub has_prefix : String → String → Bool
has_prefix s String.[] = true
has_prefix String.[] (String.◌∷◌ c prefix) = false
has_prefix (String.◌∷◌ d s) (String.◌∷◌ c prefix) =
    (leb (code d) (code c) && leb (code c) (code d)) && has_prefix s prefix
