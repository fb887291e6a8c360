-- ===== src/Strings/Escape/Marks.antt =====
-- Which bytes `escape` gives, and `unescape` of it.
use kryptic_k8s_operator.Base.{
  ℕ, ◌/◌, ◌%◌, ◌<◌, ◌≡◌, refl, ◌≢◌, ◌⊎◌, inl, inr, true, false, [], ◌∷◌, ◌++◌, ◌&&◌, Text, ◌==◌,
  nat_eq, arith, if◌then◌else◌, Bool-cases, ℕ_discrete,
}
use kryptic_k8s_operator.Strings.Count.{count}
use kryptic_k8s_operator.Strings.Escape.{
  Mode, user_password, host_part, path_part, query_component, should_escape, is_query, percent,
  hex_digit, hex_value, escape, unescape, is_alnum, is_unreserved, is_reserved, is_host_mark,
  escapes_reserved, is_host,
}

-- Neither `%`, `+` nor the code of a digit or of a letter.
abbrev Mark : ℕ → Type 0
Mark c = (c ≢ 37) × (c ≢ 43) × ((c < 48) ⊎ ((57 < c) × (c < 65)))

count-percent : (c a : ℕ) (s : Text) → Mark c → count c (percent a ++ s) ≡ count c s
unfolding percent hex_digit
count-percent c a s (p, q, inl low) = ground arith
count-percent c a s (p, q, inr (low, high)) = ground arith

pub count-escape :
    (mode : Mode) (c : ℕ) (s : Text)
    → Mark c
    → should_escape c mode ≡ true
    → count c (escape mode s) ≡ 0
unfolding escape
count-escape mode c [] mark escaped = refl
count-escape mode c (a ∷ s) mark escaped = elim (Bool-cases (a == 32 && is_query mode)) [
  | inl space ↦ ground (arith, count-escape mode c s mark escaped)
  | inr solid ↦ elim (Bool-cases (should_escape a mode)) [
    | inl hidden ↦
        ground (arith, count-escape mode c s mark escaped, count-percent c a (escape mode s) mark)
    | inr shown ↦ ground (arith, count-escape mode c s mark escaped)
  ]
]

-- The reserved bytes in a user's password.
pub user_password-marks :
    (s : Text)
    → (count 64 (escape user_password s) ≡ 0)
      × (count 47 (escape user_password s) ≡ 0)
      × (count 63 (escape user_password s) ≡ 0)
      × (count 58 (escape user_password s) ≡ 0)
      × (count 35 (escape user_password s) ≡ 0)
unfolding should_escape is_alnum is_unreserved is_reserved is_host_mark escapes_reserved is_host
    ℕ_discrete
user_password-marks s = (
  count-escape user_password 64 s (ground arith) refl,
  count-escape user_password 47 s (ground arith) refl,
  count-escape user_password 63 s (ground arith) refl,
  count-escape user_password 58 s (ground arith) refl,
  count-escape user_password 35 s (ground arith) refl,
)

pub host_part-mark : (s : Text) → count 63 (escape host_part s) ≡ 0
unfolding should_escape is_alnum is_unreserved is_reserved is_host_mark escapes_reserved is_host
    ℕ_discrete
host_part-mark s = count-escape host_part 63 s (ground arith) refl

pub path_part-mark : (s : Text) → count 63 (escape path_part s) ≡ 0
unfolding should_escape is_alnum is_unreserved is_reserved is_host_mark escapes_reserved is_host
    ℕ_discrete
path_part-mark s = count-escape path_part 63 s (ground arith) refl

hex_value-hex_digit : (n : ℕ) → hex_value (hex_digit n) ≡ n
unfolding hex_value hex_digit
hex_value-hex_digit n = ground arith

-- A byte that is not escaped is no `%`, and no `+` in a query.
plain_byte : (mode : Mode) (a : ℕ) → should_escape a mode ≡ false → a ≢ 37
unfolding should_escape is_alnum is_unreserved is_reserved is_host_mark escapes_reserved is_host
plain_byte user_password a e p = ground arith
plain_byte host_part a e p = ground arith
plain_byte path_part a e p = ground arith
plain_byte query_component a e p = ground arith

plus_byte :
    (mode : Mode) (a : ℕ) → should_escape a mode ≡ false → (a == b'+' && is_query mode) ≡ false
unfolding should_escape is_alnum is_unreserved is_reserved is_host_mark escapes_reserved is_host
    is_query
plus_byte user_password a e = ground arith
plus_byte host_part a e = ground arith
plus_byte path_part a e = ground arith
plus_byte query_component a e = ground arith

-- A byte that starts no escape.
unescape-plain :
    (mode : Mode) (a : ℕ) (s : Text)
    → a ≢ 37
    → unescape mode (a ∷ s) ≡ (if a == b'+' && is_query mode then 32 else a) ∷ unescape mode s
unfolding unescape
unescape-plain mode a [] p = refl
unescape-plain mode a (b ∷ []) p = refl
unescape-plain mode a (b ∷ c ∷ s) p = ground arith

unescape-percent :
    (mode : Mode) (a : ℕ) (s : Text) → unescape mode (percent a ++ s) ≡ a ∷ unescape mode s
unfolding unescape percent
unescape-percent mode a s =
    ground (arith, hex_value-hex_digit (a / 16), hex_value-hex_digit (a % 16))

unescape-nil : (mode : Mode) → unescape mode [] ≡ []
unfolding unescape
unescape-nil mode = refl

pub unescape-escape : (mode : Mode) (s : Text) → unescape mode (escape mode s) ≡ s
unfolding escape
unescape-escape mode [] = unescape-nil mode
unescape-escape mode (a ∷ s) = elim (Bool-cases (a == 32 && is_query mode)) [
  | inl space ↦
      ground
        (arith, unescape-escape mode s, unescape-plain mode b'+' (escape mode s) (ground arith))
  | inr solid ↦ elim (Bool-cases (should_escape a mode)) [
    | inl hidden ↦ ground (arith, unescape-escape mode s, unescape-percent mode a (escape mode s))
    | inr shown ↦ ground (
      arith,
      unescape-escape mode s,
      unescape-plain mode a (escape mode s) (plain_byte mode a shown),
      plus_byte mode a shown,
    )
  ]
]
