-- ===== src/Strings/Escape.antt =====
-- net/url: `escape` in the modes of a user's password, a host, a path and a query component, and
-- `unescape`.
pub mod Marks
use kryptic_k8s_operator.Base.{
  ℕ, zero, suc, ◌+◌, ◌-◌, ◌*◌, ◌/◌, ◌%◌, ◌≤◌, ◌<◌, ◌≡◌, refl, Bool, true, false, ◌&&◌, ◌||◌, not,
  List, [], ◌∷◌, ◌++◌, All, Text, ◌==◌, text_eq, nat_eq, arith, if◌then◌else◌, leb, ltb, Bool-cases,
  inl, inr,
}

pub data Mode : Type 0 where
  user_password host_part path_part query_component : Mode

is_alnum : ℕ → Bool
is_alnum a = leb b'a' a && leb a b'z' || leb b'A' a && leb a b'Z' || leb b'0' a && leb a b'9'

-- `-`, `_`, `.` and `~`.
is_unreserved : ℕ → Bool
is_unreserved a = a == 45 || a == 95 || a == 46 || a == 126

-- `$`, `&`, `+`, `,`, `/`, `:`, `;`, `=`, `?` and `@`.
is_reserved : ℕ → Bool
is_reserved a =
    a == 36
    || a == 38
    || a == 43
    || a == 44
    || a == 47
    || a == 58
    || a == 59
    || a == 61
    || a == 63
    || a == 64

-- What stands for itself in a host: `!`, `$`, `&`, `'`, `(`, `)`, `*`, `+`, `,`, `;`, `=`, `:`,
-- `[`, `]`, `<`, `>` and `"`.
is_host_mark : ℕ → Bool
is_host_mark a =
    a == 33
    || a == 36
    || a == 38
    || a == 39
    || a == 40
    || a == 41
    || a == 42
    || a == 43
    || a == 44
    || a == 59
    || a == 61
    || a == 58
    || a == 91
    || a == 93
    || a == 60
    || a == 62
    || a == 34

-- The reserved bytes that a mode escapes.
escapes_reserved : Mode → ℕ → Bool
escapes_reserved user_password a = a == 64 || a == 47 || a == 63 || a == 58
escapes_reserved host_part a = true
escapes_reserved path_part a = a == 63
escapes_reserved query_component a = true

is_host : Mode → Bool
is_host host_part = true
is_host _ = false

-- `shouldEscape`
unfoldable pub should_escape : ℕ → Mode → Bool
unfolding is_alnum is_unreserved is_reserved is_host_mark escapes_reserved is_host
should_escape a mode =
    if is_alnum a
    then false
    else if is_host mode && is_host_mark a
    then false
    else if is_unreserved a
    then false
    else if is_reserved a
    then escapes_reserved mode a
    else true

hex_digit : ℕ → ℕ
hex_digit n = if ltb n 10 then 48 + n else 55 + n

percent : ℕ → Text
unfolding hex_digit
percent a = b'%' ∷ hex_digit (a / 16) ∷ hex_digit (a % 16) ∷ []

is_query : Mode → Bool
is_query query_component = true
is_query _ = false

-- `escape`
unfoldable pub escape : Mode → Text → Text
unfolding should_escape percent is_query
escape mode [] = []
escape mode (a ∷ s) =
    let rest = escape mode s in
    if a == 32 && is_query mode
    then b'+' ∷ rest
    else if should_escape a mode
    then percent a ++ rest
    else a ∷ rest

hex_value : ℕ → ℕ
hex_value d = if leb d 57 then d - 48 else d - 55

-- `unescape` of what `escape` gives.
unfoldable pub unescape : Mode → Text → Text
unfolding hex_value is_query
unescape mode [] = []
unescape mode (a ∷ []) = (if a == b'+' && is_query mode then 32 else a) ∷ []
unescape mode (a ∷ b ∷ []) = (if a == b'+' && is_query mode then 32 else a) ∷ unescape mode (b ∷ [])
unescape mode (a ∷ b ∷ c ∷ s) =
    let longer = unescape mode s in
    let rest = unescape mode (b ∷ c ∷ s) in
    if a == b'%'
    then (16 * hex_value b + hex_value c) ∷ longer
    else (if a == b'+' && is_query mode then 32 else a) ∷ rest
