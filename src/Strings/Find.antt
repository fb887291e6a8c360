-- ===== src/Strings/Find.antt =====
-- Substrings: `strings.HasPrefix`, `strings.Index` with the slices around what it finds, and
-- `strings.ReplaceAll`.
use kryptic_k8s_operator.Base.{
  ℕ, zero, suc, ◌-◌, ◌≡◌, refl, Bool, true, false, ◌&&◌, ◌||◌, Option, none, some, Option-cases, [],
  ◌∷◌, ◌++◌, Text, ◌==◌, text_eq, nat_eq, arith, if◌then◌else◌, leb, length, drop, Bool-cases, inl,
  inr,
}

-- `strings.HasPrefix(s, sub)`
unfoldable pub has_prefix : Text → Text → Bool
has_prefix [] s = true
has_prefix (b ∷ sub) [] = false
has_prefix (b ∷ sub) (a ∷ s) = b == a && has_prefix sub s

-- What stands before and after the first occurrence that `strings.Index` finds.
unfoldable pub cut : Text → Text → Option (Text × Text)
unfolding has_prefix
cut sub [] = if sub == [] then some ([], []) else none
cut sub (a ∷ s) =
    let rest = cut sub s in
    if has_prefix sub (a ∷ s)
    then some ([], drop (length sub) (a ∷ s))
    else (elim rest [ none ↦ none | some (before, after) ↦ some (a ∷ before, after) ])

is_cont : ℕ → Bool
is_cont b = leb 0x80 b && leb b 0xBF

-- How many bytes the rune at the start of a text takes: 0 if there is none that is valid.
unfoldable pub rune_width : Text → ℕ
unfolding is_cont
rune_width [] = 0
rune_width (a ∷ []) = if leb a 0x7F then 1 else 0
rune_width (a ∷ b ∷ []) =
    if leb a 0x7F then 1 else if leb 0xC2 a && leb a 0xDF && is_cont b then 2 else 0
rune_width (a ∷ b ∷ c ∷ []) =
    if leb a 0x7F
    then 1
    else if leb 0xC2 a && leb a 0xDF && is_cont b
    then 2
    else if is_cont c
        && (a == 0xE0 && leb 0xA0 b && leb b 0xBF
            || a == 0xED && leb 0x80 b && leb b 0x9F
            || leb 0xE1 a && leb a 0xEF && (leb a 0xEC || leb 0xEE a) && is_cont b)
    then 3
    else 0
rune_width (a ∷ b ∷ c ∷ d ∷ s) =
    if leb a 0x7F
    then 1
    else if leb 0xC2 a && leb a 0xDF && is_cont b
    then 2
    else if is_cont c
        && (a == 0xE0 && leb 0xA0 b && leb b 0xBF
            || a == 0xED && leb 0x80 b && leb b 0x9F
            || leb 0xE1 a && leb a 0xEF && (leb a 0xEC || leb 0xEE a) && is_cont b)
    then 3
    else if is_cont c
        && is_cont d
        && (a == 0xF0 && leb 0x90 b && leb b 0xBF
            || a == 0xF4 && leb 0x80 b && leb b 0x8F
            || leb 0xF1 a && leb a 0xF3 && is_cont b)
    then 4
    else 0

-- `new` before each rune and at the end; the number counts the bytes left of the current rune.
unfoldable pub spread : ℕ → Text → Text → Text
spread skip new [] = new
spread (suc k) new (a ∷ s) = a ∷ spread k new s
spread zero new (a ∷ s) = new ++ (a ∷ spread (rune_width (a ∷ s) - 1) new s)

-- The number counts the bytes left of the current occurrence.
unfoldable pub replace_from : ℕ → Text → Text → Text → Text
replace_from skip old new [] = []
replace_from (suc k) old new (a ∷ s) = replace_from k old new s
replace_from zero old new (a ∷ s) = elim (has_prefix old (a ∷ s)) [
  | true ↦ new ++ replace_from (length old - 1) old new s
  | false ↦ a ∷ replace_from 0 old new s
]

-- `strings.ReplaceAll(s, old, new)`
unfoldable pub replace_all : Text → Text → Text → Text
unfolding spread replace_from has_prefix
replace_all s old new = if old == [] then spread 0 new s else replace_from 0 old new s

has_prefix-drop : (sub s : Text) → has_prefix sub s ≡ true → s ≡ sub ++ drop (length sub) s
unfolding has_prefix
has_prefix-drop [] s e = refl
has_prefix-drop (b ∷ sub) [] e = cc
has_prefix-drop (b ∷ sub) (a ∷ s) e = ground (arith, has_prefix-drop sub s)

-- A text is put together again from the parts that `cut` gives.
pub cut-append :
    (sub s before after : Text) → cut sub s ≡ some (before, after) → s ≡ before ++ (sub ++ after)
unfolding cut
cut-append sub [] before after e = ground arith
cut-append sub (a ∷ s) before after e = elim (Bool-cases (has_prefix sub (a ∷ s))) [
  | inl here ↦ ground (arith, has_prefix-drop sub (a ∷ s) here)
  | inr later ↦ elim (Option-cases (cut sub s)) [
    | inl nowhere ↦ ground arith
    | inr ((b, c), found) ↦ let smaller = cut-append sub s b c found in ground arith
  ]
]
