-- ===== src/Text.antt =====
-- The string operations of the source language that the program calls. A text is the list of its
-- code units. `to_lower` maps the letters A to Z and leaves every other code unit alone.
pub mod Equal
pub mod Split
pub mod Quotes
use Prim.Native.Char.{code}
use Prim.Native.String.{String}
use inbox_angel_worker.Common.{
  ℕ, zero, suc, ltb, ◌/◌, ◌%◌, ◌+◌, ◌-◌, ◌*◌, Bool, true, false, not, ◌&&◌, ◌||◌, List, [], ◌∷◌,
  ◌++◌, reverse, Option, none, some, leb, ◌==◌, if◌then◌else◌, some_of,
}
use inbox_angel_worker.Common.Int.{ℤ, pos, negate}
use mathlib.Core.Option

abbrev pub Text : Type 0
Text = List ℕ

abbrev pub codes : String → Text
codes String.[] = []
codes (String.◌∷◌ c s) = code c ∷ codes s

unfoldable pub text_eq : Text → Text → Bool
text_eq [] [] = true
text_eq [] (_ ∷ _) = false
text_eq (_ ∷ _) [] = false
text_eq (a ∷ s) (b ∷ t) = a == b && text_eq s t

-- The white space that `trim`, `\s` and `parseInt` skip.
abbrev spaces : List ℕ
spaces = 32 ∷ 9 ∷ 10 ∷ 11 ∷ 12 ∷ 13 ∷ 160 ∷ 5760 ∷ 8232 ∷ 8233 ∷ 8239 ∷ 8287 ∷ 12288 ∷ 65279 ∷ []

unfoldable pub is_space : ℕ → Bool
is_space c = some_of (λ x. c == x) spaces || leb 8192 c && leb c 8202

unfoldable pub lower_code : ℕ → ℕ
lower_code c = if leb b'A' c && leb c b'Z' then c + 32 else c

unfoldable pub to_lower : Text → Text
unfolding lower_code
to_lower [] = []
to_lower (c ∷ s) = lower_code c ∷ to_lower s

unfoldable pub trim_start : Text → Text
trim_start [] = []
trim_start (c ∷ s) = if is_space c then trim_start s else c ∷ s

unfoldable pub trim : Text → Text
unfolding trim_start is_space
trim s = reverse (trim_start (reverse (trim_start s)))

abbrev pub is_empty : Text → Bool
is_empty [] = true
is_empty (_ ∷ _) = false

-- A code unit added to the first piece.
abbrev pub push_first : ℕ → List Text → List Text
push_first c [] = (c ∷ []) ∷ []
push_first c (p ∷ ps) = (c ∷ p) ∷ ps

-- `s.split(c)` at a one-character separator.
unfoldable pub split_on : ℕ → Text → List Text
split_on c [] = [] ∷ []
split_on c (x ∷ s) = let rest = split_on c s in if x == c then [] ∷ rest else push_first x rest

abbrev pub cut_push : ℕ → Option (Text × Text) → Option (Text × Text)
cut_push x none = none
cut_push x (some (k, v)) = some (x ∷ k, v)

-- `s.slice(0, i)` and `s.slice(i + 1)` for `i = s.indexOf(c)`; none for -1.
unfoldable pub cut : ℕ → Text → Option (Text × Text)
cut c [] = none
cut c (x ∷ s) = let rest = cut c s in if x == c then some ([], s) else cut_push x rest

-- `s.split(c)[0]`.
unfoldable pub before : ℕ → Text → Text
before c [] = []
before c (x ∷ s) = let rest = before c s in if x == c then [] else x ∷ rest

-- `parts.join(sep)`.
unfoldable pub join : Text → List Text → Text
join sep [] = []
join sep (p ∷ []) = p
join sep (p ∷ q ∷ ps) = p ++ (sep ++ join sep (q ∷ ps))

-- `s.startsWith(p)`.
unfoldable pub starts_with : Text → Text → Bool
starts_with [] s = true
starts_with (_ ∷ _) [] = false
starts_with (a ∷ p) (b ∷ s) = a == b && starts_with p s

-- `s.endsWith(p)`.
unfoldable pub ends_with : Text → Text → Bool
unfolding starts_with
ends_with p s = starts_with (reverse p) (reverse s)

-- `s.includes(p)`.
unfoldable pub includes : Text → Text → Bool
unfolding starts_with
includes p [] = starts_with p []
includes p (c ∷ s) = starts_with p (c ∷ s) || includes p s

-- `s.replace(/^"|"$/g, '')`, in two halves.
unfoldable pub strip_start : Text → Text
strip_start [] = []
strip_start (c ∷ s) = if c == b'"' then s else c ∷ s

unfoldable pub strip_end : Text → Text
strip_end [] = []
strip_end (c ∷ []) = if c == b'"' then [] else c ∷ []
strip_end (c ∷ d ∷ s) = c ∷ strip_end (d ∷ s)

unfoldable pub strip_quotes : Text → Text
unfolding strip_start strip_end
strip_quotes s = strip_end (strip_start s)

abbrev pub is_digit : ℕ → Bool
is_digit c = leb b'0' c && leb c b'9'

read_digits : ℕ → Text → ℕ
read_digits acc [] = acc
read_digits acc (c ∷ s) =
    let rest = read_digits (acc * 10 + (c - b'0')) s in if is_digit c then rest else acc

parse_unsigned : Text → Option ℕ
unfolding read_digits
parse_unsigned [] = none
parse_unsigned (c ∷ s) = if is_digit c then some (read_digits 0 (c ∷ s)) else none

parse_signed : Text → Option ℤ
unfolding parse_unsigned
parse_signed [] = none
parse_signed (c ∷ s) =
    if c == b'-'
    then Option.map negate (parse_unsigned s)
    else if c == b'+'
    then Option.map pos (parse_unsigned s)
    else Option.map pos (parse_unsigned (c ∷ s))

-- `parseInt(s, 10)`; none for NaN.
unfoldable pub parse_int : Text → Option ℤ
unfolding parse_signed trim_start is_space
parse_int s = parse_signed (trim_start s)

-- The decimal digits of a number. The fuel is above the number, which each round divides by ten.
unfoldable pub print_digits : ℕ → ℕ → Text → Text
print_digits zero n out = out
print_digits (suc fuel) n out =
    let rest = print_digits fuel (n / 10) ((b'0' + n % 10) ∷ out) in
    if ltb n 10 then (b'0' + n) ∷ out else rest

unfoldable pub print_nat : ℕ → Text
print_nat n = print_digits (suc n) n []

abbrev pub push_or : ℕ → ℕ → Text → Option (Text × Text) → Option (Text × Text)
push_or c x s (some (a, b)) = some (x ∷ a, b)
push_or c x s none = if x == c then some ([], s) else none

-- `s.slice(0, i)` and `s.slice(i + 1)` for `i = s.lastIndexOf(c)`; none for -1.
unfoldable pub cut_last : ℕ → Text → Option (Text × Text)
cut_last c [] = none
cut_last c (x ∷ s) = push_or c x s (cut_last c s)
