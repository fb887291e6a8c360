-- ===== src/Strings.antt =====
-- What the program uses of Go's packages `strings`, `unicode`, `fmt` and `strconv`, over bytes.
-- White space is Unicode's, in UTF-8.
pub mod Find
pub mod Fields
pub mod Count
pub mod Escape
pub mod Split
pub mod Fold
use kryptic_k8s_operator.Base.{ℕ, suc, zero, ◌+◌, ◌/◌, ◌%◌, Bool, ◌&&◌, ◌||◌}
use kryptic_k8s_operator.Base.{List, [], ◌∷◌, ◌++◌, map, Text, ◌==◌, text_eq, nat_eq}
use kryptic_k8s_operator.Base.{if◌then◌else◌, ltb, leb, length, drop}
use mathlib.Core.List.{reverse}

-- `unicode.IsSpace` on one byte, and on the two or three bytes of a wider rune.
is_space : ℕ → Bool
is_space a = leb 9 a && leb a 13 || a == 32

is_space2 : ℕ → ℕ → Bool
is_space2 a b = a == 0xC2 && (b == 0x85 || b == 0xA0)

is_space3 : ℕ → ℕ → ℕ → Bool
is_space3 a b c =
    a == 0xE1 && b == 0x9A && c == 0x80
    || a == 0xE2 && b == 0x80 && (leb 0x80 c && leb c 0x8A || c == 0xA8 || c == 0xA9 || c == 0xAF)
    || a == 0xE2 && b == 0x81 && c == 0x9F
    || a == 0xE3 && b == 0x80 && c == 0x80

-- How many bytes a space at the start of the text takes, or 0.
unfoldable pub space_width : Text → ℕ
unfolding is_space is_space2 is_space3
space_width [] = 0
space_width (a ∷ []) = if is_space a then 1 else 0
space_width (a ∷ b ∷ []) = if is_space a then 1 else if is_space2 a b then 2 else 0
space_width (a ∷ b ∷ c ∷ s) =
    if is_space a then 1 else if is_space2 a b then 2 else if is_space3 a b c then 3 else 0

-- The same at the end of a text that is given backwards.
unfoldable pub space_width_back : Text → ℕ
unfolding is_space is_space2 is_space3
space_width_back [] = 0
space_width_back (c ∷ []) = if is_space c then 1 else 0
space_width_back (c ∷ b ∷ []) = if is_space c then 1 else if is_space2 b c then 2 else 0
space_width_back (c ∷ b ∷ a ∷ s) =
    if is_space c then 1 else if is_space2 b c then 2 else if is_space3 a b c then 3 else 0

-- Drops what `width` counts, as often as it counts something. The fuel is the text's length.
unfoldable pub strip : (Text → ℕ) → ℕ → Text → Text
strip width zero s = s
strip width (suc fuel) s =
    let rest = strip width fuel (drop (width s) s) in if width s == 0 then s else rest

-- `strings.TrimSpace`
unfoldable pub trim_space : Text → Text
unfolding strip space_width space_width_back
trim_space s =
    let left = strip space_width (length s) s in
    reverse (strip space_width_back (length left) (reverse left))

-- Puts a byte in front of the first part.
push_front : ℕ → List Text → List Text
push_front a [] = (a ∷ []) ∷ []
push_front a (t ∷ ts) = (a ∷ t) ∷ ts

-- `strings.Split` at a separator of one byte.
unfoldable pub split : ℕ → Text → List Text
unfolding push_front
split b [] = [] ∷ []
split b (a ∷ s) = let rest = split b s in if a == b then [] ∷ rest else push_front a rest

-- The lower case of an ASCII letter.
unfoldable pub to_lower_byte : ℕ → ℕ
to_lower_byte a = if leb b'A' a && leb a b'Z' then a + 32 else a

unfoldable pub decimal_digits : ℕ → ℕ → Text
decimal_digits zero n = []
decimal_digits (suc fuel) n =
    let front = decimal_digits fuel (n / 10) in
    if ltb n 10 then (48 + n) ∷ [] else front ++ (48 + n % 10) ∷ []

-- `%d` of a number that is not negative.
unfoldable pub decimal : ℕ → Text
unfolding decimal_digits
decimal n = decimal_digits (suc n) n

-- `strings.TrimSuffix` at a suffix of one byte.
unfoldable pub trim_suffix : ℕ → Text → Text
trim_suffix b [] = []
trim_suffix b (a ∷ []) = if a == b then [] else a ∷ []
trim_suffix b (a ∷ c ∷ s) = a ∷ trim_suffix b (c ∷ s)
